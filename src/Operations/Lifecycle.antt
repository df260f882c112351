-- ===== src/Operations/Lifecycle.antt =====
-- What the callers of the operation coordinator rely on: leases, shutdown and waiting.
use misgeret.Base.{
  ℕ, ◌<◌, ◌≡◌, ◌≢◌, ◌↔◌, refl, ◌∙◌, ap, Bool, true, false, Option, none, some, List, [], ◌∷◌, ◌++◌,
  arith, ◌==◌, ==_refl, if◌then◌else◌, find?, Bool-cases, inl, inr,
}
use misgeret.Operations.{
  OperationKind, shutting_down, Held, Lease, Coordinator, state, active_operation, emit_state,
  notify_idle, begin_with, grant, try_begin, has_token, mark, end_active, release_lease, release,
  add_waiter, wait_for_idle, begin_shutdown, subscribe, unsubscribe, Call, begins, releases, waits,
  shuts, subscribes, unsubscribes, step, run,
}
use misgeret.Operations.Invariant.{live, held_list, Fresh, IsConsistent}

-- The admission gate stays closed: no call opens it again.
closing-step : (c : Coordinator) (x : Call) → c.closing ≡ true → (step c x).closing ≡ true
unfolding step try_begin begin_with grant emit_state release release_lease end_active notify_idle
    wait_for_idle add_waiter begin_shutdown subscribe unsubscribe
closing-step c (begins k) h = ground arith
closing-step c (releases t) h = ground arith
closing-step c waits h = ground arith
closing-step c shuts h = ground arith
closing-step c (subscribes x) h = h
closing-step c (unsubscribes x) h = h

closing-run : (c : Coordinator) (xs : List Call) → c.closing ≡ true → (run c xs).closing ≡ true
unfolding run
closing-run c [] h = h
closing-run c (x ∷ xs) h = closing-run (step c x) xs (closing-step c x h)

closing-begin_shutdown : (c : Coordinator) → (begin_shutdown c).closing ≡ true
unfolding begin_shutdown emit_state wait_for_idle add_waiter
closing-begin_shutdown c = ground arith

try_begin_closed :
    (c : Coordinator) (k : OperationKind) → c.closing ≡ true → try_begin c k ≡ (c, none)
unfolding try_begin begin_with
try_begin_closed c k h = rw (h, begin_with)

state_closed : (c : Coordinator) → c.closing ≡ true → state c ≡ shutting_down
unfolding state
state_closed c h = ground arith

-- After `beginShutdown`, whatever calls follow, the state is 'shuttingDown' and no operation is
-- admitted: `tryBegin` returns null and changes nothing.
pub begin_shutdown_final :
    (c : Coordinator) (xs : List Call) (k : OperationKind)
    → (state (run (begin_shutdown c) xs) ≡ shutting_down)
      × (try_begin (run (begin_shutdown c) xs) k ≡ (run (begin_shutdown c) xs, none))
begin_shutdown_final c xs k =
    let closed = closing-run (begin_shutdown c) xs (closing-begin_shutdown c) in
    (state_closed _ closed, try_begin_closed _ k closed)

begin_with_iff :
    (b : Bool) (o : Option Held) (c : Coordinator) (k : OperationKind)
    → ((begin_with b o c k).1 ≢ none) ↔ ((b ≡ false) × (held_list o ≡ []))
unfolding begin_with
begin_with_iff true o c k = (λ h. absurd (h refl), λ h. cc)
begin_with_iff false (some a) c k = (λ h. absurd (h refl), λ h. cc)
begin_with_iff false none c k = (λ h. (refl, refl), λ h. cc)

-- In a consistent coordinator `tryBegin` returns a lease exactly when the coordinator is not
-- shutting down and every lease that it handed out before was released.
pub try_begin_iff :
    (c : Coordinator) (k : OperationKind)
    → IsConsistent c
    → ((try_begin c k).1 ≢ none) ↔ ((c.closing ≡ false) × (live c.leases ≡ []))
unfolding try_begin
try_begin_iff c k v = rw v.sound.one_lease (begin_with_iff c.closing c.active c k)

-- The lease with this token was handed out and released.
unfoldable pub done : ℕ → List Lease → Bool
done t [] = false
done t (l ∷ ls) = if has_token t l then l.released else done t ls

done-mark : (t u : ℕ) (ls : List Lease) → done t ls ≡ true → done t (mark u ls) ≡ true
unfolding done mark
done-mark t u [] h = h
done-mark t u (l ∷ ls) h = ground (arith, done-mark t u ls)

done-mark_self :
    (t : ℕ) (ls : List Lease) (l : Lease)
    → find? (has_token t) ls ≡ some l
    → done t (mark t ls) ≡ true
unfolding done mark find?
done-mark_self t [] l h = cc
done-mark_self t (m ∷ ls) l h = ground (arith, done-mark_self t ls l)

done-find :
    (t : ℕ) (ls : List Lease) (l : Lease) → find? (has_token t) ls ≡ some l → done t ls ≡ l.released
unfolding done find?
done-find t [] l h = cc
done-find t (m ∷ ls) l h = ground (arith, done-find t ls l)

release_done :
    (t : ℕ) (c : Coordinator) (ls : List Lease)
    → done t ls ≡ true
    → release_lease (find? (has_token t) ls) c t ≡ c
unfolding done find? release_lease
release_done t c [] h = refl
release_done t c (l ∷ ls) h = elim (Bool-cases (l.held.token == t)) [
  | inl e ↦ ground arith
  | inr e ↦ ground (arith, release_done t c ls)
]

abbrev IsDone : ℕ → Coordinator → Type 0
IsDone t c = (t < c.next_token) × (done t c.leases ≡ true)

done-cons :
    (t n : ℕ) (k : OperationKind) (ls : List Lease)
    → t < n
    → done t ls ≡ true
    → done t (record { held = record { operation = k; token = n }; released = false } ∷ ls) ≡ true
unfolding done
done-cons t n k ls h e = ground arith

step-IsDone : (t : ℕ) (c : Coordinator) (x : Call) → IsDone t c → IsDone t (step c x)
unfolding step try_begin begin_with grant emit_state release release_lease end_active notify_idle
    wait_for_idle add_waiter begin_shutdown subscribe unsubscribe
step-IsDone t c (begins k) h = ground (arith, done-cons t c.next_token k c.leases)
step-IsDone t c (releases u) h = ground (arith, done-mark t u c.leases)
step-IsDone t c waits h = ground arith
step-IsDone t c shuts h = ground arith
step-IsDone t c (subscribes x) h = h
step-IsDone t c (unsubscribes x) h = h

run-IsDone : (t : ℕ) (c : Coordinator) (xs : List Call) → IsDone t c → IsDone t (run c xs)
unfolding run
run-IsDone t c [] h = h
run-IsDone t c (x ∷ xs) h = run-IsDone t (step c x) xs (step-IsDone t c x h)

end_active-IsDone :
    (o : Option Held) (t u : ℕ) (c : Coordinator) → IsDone t c → IsDone t (end_active o u c)
unfolding end_active notify_idle emit_state
end_active-IsDone none t u c h = h
end_active-IsDone (some a) t u c h = ground arith

release-IsDone :
    (t : ℕ) (c : Coordinator) (l : Lease)
    → t < c.next_token
    → find? (has_token t) c.leases ≡ some l
    → IsDone t (release c t)
unfolding release release_lease
release-IsDone t c l lt e = rw e (elim (Bool-cases l.released) [
  | inl old ↦ rw old (lt, done-find t c.leases l e ∙ old)
  | inr new ↦ rw new (
      end_active-IsDone c.active t t (record c { leases = mark t c.leases })
        (lt, done-mark_self t c.leases l e))
])

-- A lease that was handed out works once: after its release, whatever calls follow, releasing it
-- again changes nothing.
pub release_once :
    (c : Coordinator) (t : ℕ) (xs : List Call) (l : Lease)
    → t < c.next_token
    → find? (has_token t) c.leases ≡ some l
    → release (run (release c t) xs) t ≡ run (release c t) xs
unfolding release
release_once c t xs l lt e =
    release_done t (run (release c t) xs) _
      (run-IsDone t (release c t) xs (release-IsDone t c l lt e)).1

-- The newest unreleased lease is the one that `find?` returns for its token.
find-live :
    (h : Held) (n : ℕ) (ls : List Lease)
    → Fresh n ls
    → live ls ≡ h ∷ []
    → (h.token < n) × (find? (has_token h.token) ls ≡ some (record { held = h; released = false }))
unfolding live find?
find-live h n [] f e = cc
find-live h n (l ∷ ls) f e = elim (Bool-cases l.released) [
  | inl old ↦
      let (below, found) = find-live h l.held.token ls f.1 (ground arith) in
      (ground arith, ground arith)
  | inr new ↦ ground (arith, ==_refl h.token)
]

-- In a consistent coordinator with an active operation, releasing its lease ends the operation,
-- resolves every promise that waits for idleness, and leaves none waiting.
pub release_ends :
    (c : Coordinator) (h : Held)
    → IsConsistent c
    → c.active ≡ some h
    → ((release c h.token).active ≡ none)
      × ((release c h.token).resolved ≡ c.idle_waiters ++ c.resolved)
      × ((release c h.token).idle_waiters ≡ [])
unfolding release release_lease end_active notify_idle emit_state
release_ends c h v e =
    let found =
      (find-live h c.next_token c.leases v.sound.fresh (v.sound.one_lease ∙ ap held_list e)).1 in
    ground (arith, ==_refl h.token)

-- In a consistent coordinator there is an active operation exactly if a lease was not released.
active_operation_iff :
    (c : Coordinator) → IsConsistent c → (active_operation c ≡ none) ↔ (live c.leases ≡ [])
unfolding active_operation
active_operation_iff c v = rw v.sound.one_lease (by_active c.active)
  where
    by_active :
        (o : Option Held)
        → (elim o as (λ _. Option OperationKind) [ none ↦ none | some h ↦ some h.operation ] ≡ none)
          ↔ (held_list o ≡ [])
    by_active none = (λ _. refl, λ _. refl)
    by_active (some h) = (λ e. cc, λ e. cc)
