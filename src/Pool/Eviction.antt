-- ===== src/Pool/Eviction.antt =====
-- When `WorkspacePool.evict` (server/src/workspaces.ts) closes a workspace.
use mathlib.Core.Bool.{false≢true}
use misgeret.Base.{
  ℕ, ◌≡◌, ◌↔◌, inl, inr, ◌≢◌, refl, subst, sym, ◌∙◌, Bool, true, false, Option, none, ◌∷◌, [], any,
  All, str_eq, eq_iff, ap, not, ◌==◌, ◌||◌, if◌then◌else◌, some, List, String, arith, Bool-cases,
}
use misgeret.Base.Dict.{get, nat_eq, string_eq}
use misgeret.Pool.Served.{serves-get, id-serves, run-IsServing}
use misgeret.Pool.Objects.{get-adjust, get-drop_same, change}
use misgeret.Operations
use misgeret.Operations.{Coordinator, Held, OperationState, idle, busy, shutting_down}
use misgeret.Pool.{
  profile_error, close_error, Opening, drop_key, on_object, start_closing, finish_closing,
  is_drained, WorkspacePool, Entry, init, is_opening, is_evictable, is_idle, profile_busy,
}
use misgeret.Pool.Counts.{held, run-refcount}
use misgeret.Pool.Calls.{
  Event, run, evict, evict_entry, evicted, close_result, Eviction, resolves, rejects, awaits_close,
}

is_idle_iff : (s : OperationState) → (is_idle s ≡ true) ↔ (s ≡ idle)
unfolding is_idle
is_idle_iff idle = ((λ e. refl), (λ e. refl))
is_idle_iff (busy k) = ((λ e. absurd (false≢true e)), (λ e. cc))
is_idle_iff shutting_down = ((λ e. absurd (false≢true e)), (λ e. cc))

is_evictable_iff :
    (e : Entry) (n : ℕ)
    → e.refcount ≡ n
    → (is_evictable e ≡ true) ↔ ((n ≡ 0) × (Operations.state e.coordinator ≡ idle))
unfolding is_evictable
is_evictable_iff e n c = ground (arith, is_idle_iff (Operations.state e.coordinator))

is_opening_iff :
    (id : String) (os : List Opening)
    → (is_opening id os ≡ false) ↔ All (λ (o : Opening). o.id ≢ id) os
unfolding is_opening any
is_opening_iff id [] = (λ _. tt, λ _. refl)
is_opening_iff id (o ∷ os) = (
  λ e. (λ s. ground (arith, eq_iff o.id id), (is_opening_iff id os).0 (ground arith)),
  λ a. clear (str_eq o.id id) (λ t. a.0 ((eq_iff o.id id).0 t)) ((is_opening_iff id os).1 a.1),
)
  where
    clear : {rest : Bool} (t : Bool) → ¬ (t ≡ true) → rest ≡ false → (t || rest) ≡ false
    clear true n r = absurd (n refl)
    clear false n r = r

active-idle : (c : Coordinator) → Operations.state c ≡ idle → c.active ≡ none
unfolding Operations.state Operations.active_state
active-idle c s = by_parts c.closing c.active s
  where
    by_parts :
        (b : Bool) (a : Option Held)
        → (if b then shutting_down else Operations.active_state a) ≡ idle
        → a ≡ none
    by_parts b none h = refl
    by_parts true (some a) h = cc
    by_parts false (some a) h = cc

add_waiter-active :
    (a : Option Held) (c : Coordinator) → (Operations.add_waiter a c).active ≡ c.active
unfolding Operations.add_waiter
add_waiter-active none c = refl
add_waiter-active (some h) c = refl

begin_shutdown-active : (c : Coordinator) → (Operations.begin_shutdown c).active ≡ c.active
unfolding Operations.begin_shutdown Operations.wait_for_idle Operations.emit_state
begin_shutdown-active c = add_waiter-active c.active _

begin_shutdown-is_drained :
    (e : Entry)
    → Operations.state e.coordinator ≡ idle
    → is_drained (record e { coordinator = Operations.begin_shutdown e.coordinator }) ≡ true
unfolding is_drained
begin_shutdown-is_drained e s =
    let quiet = begin_shutdown-active e.coordinator ∙ active-idle e.coordinator s in rw quiet refl

-- No open of the profile is in flight, no lease of its entry is held and its coordinator is idle.
abbrev pub IsFree : String → ℕ → Entry → WorkspacePool → Type 0
IsFree id h e p =
    All (λ (o : Opening). o.id ≢ id) p.opening
    × (held h p.leases ≡ 0)
    × (Operations.state e.coordinator ≡ idle)

-- `evict` once the close of the object `h` is over
abbrev pub ended : String → ℕ → Bool → WorkspacePool → WorkspacePool × Eviction
ended id h ok p = evicted h (get h (evict id p).0.objects) ok (evict id p).0

-- It closes the object; it throws exactly what the close throws, and the profile leaves the map
-- either way.
abbrev pub Closes : String → ℕ → WorkspacePool → Type 0
Closes id h p =
    ((evict id p).1 ≡ awaits_close h)
    × ((ok : Bool)
        → ((ended id h ok p).1 ≡ (if ok then resolves else rejects close_error))
          × (get id (ended id h ok p).0.entries ≡ none))

abbrev pub IsRefused : String → WorkspacePool → Type 0
IsRefused id p = evict id p ≡ (p, rejects (profile_error profile_busy))

abbrev shut : Entry → Entry
shut e = record e { coordinator = Operations.begin_shutdown e.coordinator }

abbrev closing : ℕ → Entry → WorkspacePool → WorkspacePool
closing h e p = record (start_closing h e p) { evicting = h ∷ p.evicting }

get-closing :
    (h : ℕ) (e : Entry) (p : WorkspacePool)
    → get h p.objects ≡ some e
    → get h (closing h e p).objects ≡ some (shut e)
unfolding start_closing on_object change
get-closing h e p k =
    let own : (h == h) ≡ true = ground arith in rw (get-adjust h h shut p.objects, own, k) refl

evict-closing :
    (id : String) (p : WorkspacePool) (h : ℕ) (e : Entry)
    → get id p.entries ≡ some h
    → get h p.objects ≡ some e
    → is_opening id p.opening ≡ false
    → is_evictable e ≡ true
    → evict id p ≡ (closing h e p, awaits_close h)
unfolding evict evict_entry
evict-closing id p h e g k o x = rw (o, evict, g, evict_entry, k, x)

evicted-closing :
    (h : ℕ) (e : Entry) (ok : Bool) (p : WorkspacePool)
    → Operations.state e.coordinator ≡ idle
    → ((evicted h (some (shut e)) ok (closing h e p)).1 ≡ close_result ok)
      × ((evicted h (some (shut e)) ok (closing h e p)).0.entries ≡ drop_key e.id p.entries)
unfolding evicted any start_closing finish_closing on_object
evicted-closing h e ok p s =
    let own : (h == h) ≡ true = ground arith in rw (own, begin_shutdown-is_drained e s) (refl, refl)

free-Closes :
    (id : String) (p : WorkspacePool) (h : ℕ) (e : Entry)
    → get id p.entries ≡ some h
    → get h p.objects ≡ some e
    → e.id ≡ id
    → is_opening id p.opening ≡ false
    → is_evictable e ≡ true
    → Operations.state e.coordinator ≡ idle
    → Closes id h p
unfolding close_result
free-Closes id p h e g k own o x s =
    let start = evict-closing id p h e g k o x in
    rw (start, get-closing h e p k)
      (
        refl,
        λ ok.
            let done = evicted-closing h e ok p s in
            (
              done.0,
              ap (get id) done.1
                  ∙ subst (λ j. get id (drop_key j p.entries) ≡ none) (sym own)
                      (get-drop_same id p.entries),
            ),
      )

busy-IsRefused :
    (id : String) (p : WorkspacePool) (h : ℕ) (e : Entry)
    → get id p.entries ≡ some h
    → get h p.objects ≡ some e
    → (is_opening id p.opening || not (is_evictable e)) ≡ true
    → IsRefused id p
unfolding evict evict_entry
busy-IsRefused id p h e g k b = elim (Bool-cases (is_opening id p.opening)) [
  | inl o ↦ rw (o, evict)
  | inr o ↦
      let held : is_evictable e ≡ false = ground arith in rw (o, evict, g, evict_entry, k, held)
]

evict-IsFree :
    (id : String) (p : WorkspacePool) (h : ℕ) (e : Entry)
    → get id p.entries ≡ some h
    → get h p.objects ≡ some e
    → e.id ≡ id
    → e.refcount ≡ held h p.leases
    → (IsFree id h e p → Closes id h p) × (¬ IsFree id h e p → IsRefused id p)
evict-IsFree id p h e g k own c = (
  λ f.
      free-Closes id p h e g k own ((is_opening_iff id p.opening).1 f.0)
        ((is_evictable_iff e _ c).1 (f.1, f.2)) f.2,
  λ n. busy-IsRefused id p h e g k (elim (Bool-cases (is_opening id p.opening)) [
    | inl o ↦ rw o refl
    | inr o ↦ elim (Bool-cases (is_evictable e)) [
      | inl x ↦
          let free = (is_evictable_iff e _ c).0 x in
          absurd (n ((is_opening_iff id p.opening).0 o, free.0, free.1))
      | inr x ↦ rw (o, x) refl
    ]
  ]),
)

-- In every state that calls lead to, evict of a profile with an entry is refused with PROFILE_BUSY
-- exactly if an open of the profile is in flight, a lease of the entry is held or its coordinator is
-- not idle, and then changes nothing. Otherwise it awaits the close of the entry's object; when that
-- close comes next, evict throws exactly if checkpoint or close threw, and the profile leaves the map
-- either way.
pub evict_lem :
    (max_open : ℕ) (registry : List String) (es : List Event) (id : String) (h : ℕ) (e : Entry)
    → get id (run (init max_open registry) es).entries ≡ some h
    → get h (run (init max_open registry) es).objects ≡ some e
    → (IsFree id h e (run (init max_open registry) es)
        → Closes id h (run (init max_open registry) es))
      × (¬ IsFree id h e (run (init max_open registry) es)
          → IsRefused id (run (init max_open registry) es))
evict_lem max_open registry es id h e g k =
    let p = run (init max_open registry) es in
    let serving = serves-get p.objects id h p.entries (run-IsServing max_open registry es).0 g in
    evict-IsFree id p h e g k (id-serves p.objects id h e serving k)
      (run-refcount max_open registry es h e k)
