-- ===== src/Pool/Counts.antt =====
-- The reference counts of `WorkspacePool` (server/src/workspaces.ts).
use misgeret.Base.{
  ℕ, ◌+◌, ◌-◌, ◌≤◌, ◌≡◌, refl, sym, ap, ◌≢◌, ◌∙◌, Bool, true, false, not, ◌&&◌, Option, none, some,
  List, [], ◌∷◌, ◌==◌, if◌then◌else◌, Bool-cases, inl, inr, String, suc, arith,
}
use misgeret.Base.Dict.{get, nat_eq}
use misgeret.Pool.{Entry, init, adjust, drop_lease}
use misgeret.Pool.Objects.{stays_fresh, get-adjust, adjust-keeps, change}
use misgeret.Pool.Calls.{new_entry, Event, run}
use misgeret.Pool.Registries.{
  Registry, registry_of, Move, Moves, touches, closes, adds, lends, gives_back, shuts, still, after,
}
use misgeret.Pool.Moves.{run-Moves}

-- The number of leases of object `h` that are not released.
abbrev pub held : ℕ → List (ℕ × ℕ) → ℕ
held h [] = 0
held h ((r, j) ∷ m) = if j == h then suc (held h m) else held h m

abbrev pub refcount_of : Option Entry → ℕ
refcount_of none = 0
refcount_of (some e) = e.refcount

abbrev pub IsCounted : Registry → Type 0
IsCounted c =
    ((h : ℕ) → refcount_of (get h c.objects) ≡ held h c.leases)
    × ((h : ℕ) → c.made ≤ h → get h c.objects ≡ none)

held-drop_lease :
    (r h j : ℕ) (m : List (ℕ × ℕ))
    → get r m ≡ some h
    → held j m ≡ (if h == j then suc (held j (drop_lease r m)) else held j (drop_lease r m))
unfolding get drop_lease
held-drop_lease r h j [] g = ground arith
held-drop_lease r h j ((i, k) ∷ m) g = elim (Bool-cases (i == r)) [
  | inl e ↦ ground arith
  | inr e ↦ ground (arith, held-drop_lease r h j m)
]

-- What a change that does `k` to the count does to the counts of all objects.
refcount-adjust :
    (h j : ℕ) (f : Entry → Entry) (k : ℕ → ℕ) (m : List (ℕ × Entry))
    → ((e : Entry) → (f e).refcount ≡ k e.refcount)
    → (get h m ≡ none → k 0 ≡ 0)
    → refcount_of (get j (adjust h f m))
      ≡ (if h == j then k (refcount_of (get j m)) else refcount_of (get j m))
unfolding change
refcount-adjust h j f k m p q =
    rw (get-adjust j h f m) (by_case (h == j) (get j m) (λ t e. q (ap (λ i. get i m) (same t) ∙ e)))
  where
    same : (h == j) ≡ true → h ≡ j
    same t = ground arith

    by_case :
        (b : Bool) (o : Option Entry)
        → (b ≡ true → o ≡ none → k 0 ≡ 0)
        → refcount_of (change b f o) ≡ (if b then k (refcount_of o) else refcount_of o)
    by_case true (some e) z = p e
    by_case true none z = sym (z refl refl)
    by_case false o z = refl

adds_counted :
    (c : Registry) (id : String) (now j : ℕ)
    → IsCounted c
    → refcount_of (get j ((c.made, new_entry id now) ∷ c.objects)) ≡ held j c.leases
unfolding get
adds_counted c id now j (n, u) = elim (Bool-cases (c.made == j)) [
  | inl e ↦ rw e (ap refcount_of (sym (u j (above e))) ∙ n j)
  | inr e ↦ rw e (n j)
]
  where
    above : (c.made == j) ≡ true → c.made ≤ j
    above e = ground arith

adds_fresh :
    (c : Registry) (id : String) (now j : ℕ)
    → IsCounted c
    → c.made + 1 ≤ j
    → get j ((c.made, new_entry id now) ∷ c.objects) ≡ none
unfolding get
adds_fresh c id now j (n, u) l = ground (arith, u j)

lends_counted :
    (c : Registry) (r h j : ℕ) (e : Entry) (now : ℕ)
    → get h c.objects ≡ some e
    → refcount_of (get j c.objects) ≡ held j c.leases
    → refcount_of
        (get j (adjust h (λ x. record x { refcount = x.refcount + 1; last_used = now }) c.objects))
      ≡ held j ((r, h) ∷ c.leases)
lends_counted c r h j e now g n =
    refcount-adjust h j (λ x. record x { refcount = x.refcount + 1; last_used = now }) (λ x. x + 1)
      c.objects (λ x. refl) (λ z. absurd (some≢none (sym g ∙ z)))
    ∙ rw n (ground arith)
  where
    some≢none : some e ≢ none
    some≢none z = cc

gives_back_counted :
    (c : Registry) (r h j now : ℕ)
    → get r c.leases ≡ some h
    → refcount_of (get j c.objects) ≡ held j c.leases
    → refcount_of
        (get j (adjust h (λ x. record x { refcount = x.refcount - 1; last_used = now }) c.objects))
      ≡ held j (drop_lease r c.leases)
gives_back_counted c r h j now g n =
    refcount-adjust h j (λ x. record x { refcount = x.refcount - 1; last_used = now }) (λ x. x - 1)
      c.objects (λ x. refl) (λ z. refl)
    ∙ rw n (ground (arith, held-drop_lease r h j c.leases g))

IsCounted-Move : {c d : Registry} → Move c d → IsCounted c → IsCounted d
IsCounted-Move (touches c h f k) (n, u) = (
  λ j. adjust-keeps refcount_of f h c.objects j (λ e. (k e).0) ∙ n j,
  λ j l. stays_fresh h j f c.objects (u j l),
)
IsCounted-Move (closes c h e ok g) (n, u) = (
  λ j.
      adjust-keeps refcount_of (λ x. record x { is_open = x.is_open && not ok }) h c.objects j
        (λ x. refl)
      ∙ n j,
  λ j l. stays_fresh h j (λ x. record x { is_open = x.is_open && not ok }) c.objects (u j l),
)
IsCounted-Move (adds c id now g) n =
    (λ j. adds_counted c id now j n, λ j l. adds_fresh c id now j n l)
IsCounted-Move (lends c r h e now g k) (n, u) =
    (λ j. lends_counted c r h j e now k (n j), λ j l. stays_fresh h j _ c.objects (u j l))
IsCounted-Move (gives_back c r h now g) (n, u) =
    (λ j. gives_back_counted c r h j now g (n j), λ j l. stays_fresh h j _ c.objects (u j l))
IsCounted-Move (shuts c) n = n

IsCounted-Moves : {c d : Registry} → Moves c d → IsCounted c → IsCounted d
IsCounted-Moves still n = n
IsCounted-Moves (after m k) n = IsCounted-Move k (IsCounted-Moves m n)

IsCounted-run :
    (max_open : ℕ) (registry : List String) (es : List Event)
    → IsCounted (registry_of (run (init max_open registry) es))
unfolding registry_of get
IsCounted-run max_open registry es =
    IsCounted-Moves (run-Moves (init max_open registry) es) ((λ h. refl), (λ h l. refl))

-- Whatever calls come in whatever order, the reference count of every entry that was ever made is the
-- number of its leases that were handed out and not released.
pub run-refcount :
    (max_open : ℕ) (registry : List String) (es : List Event) (h : ℕ) (e : Entry)
    → get h (run (init max_open registry) es).objects ≡ some e
    → e.refcount ≡ held h (run (init max_open registry) es).leases
unfolding registry_of
run-refcount max_open registry es h e g =
    ap refcount_of (sym g) ∙ (IsCounted-run max_open registry es).0 h
