-- ===== src/Pool/Served.antt =====
-- What the map of `WorkspacePool` (server/src/workspaces.ts) serves.
use mathlib.Core.Bool.{false≢true}
use misgeret.Base.{
  ℕ, ◌+◌, ◌-◌, ◌≤◌, ◌≡◌, refl, subst, sym, ap, ◌∙◌, Bool, true, false, if◌then◌else◌, not, ◌&&◌,
  Option, none, some, List, [], ◌∷◌, ◌==◌, Bool-cases, inl, inr, String, str_eq, eq_iff, arith, all,
}
use misgeret.Base.Dict.{get, update, nat_eq, string_eq, Distinct, Distinct-update}
use misgeret.Pool.{Entry, init, adjust, drop_key}
use misgeret.Pool.Objects.{stays_fresh, get-adjust, adjust-keeps, change, Distinct-drop_key}
use misgeret.Pool.Calls.{new_entry, Event, run}
use misgeret.Pool.Registries.{
  Registry, registry_of, Move, Moves, touches, closes, adds, lends, gives_back, shuts, still, after,
}
use misgeret.Pool.Moves.{run-Moves}

abbrev pub serves_as : String → Option Entry → Bool
serves_as id none = false
serves_as id (some e) = str_eq e.id id && e.is_open

-- The entry points to an object of its id whose handle is open.
abbrev pub serves : List (ℕ × Entry) → String × ℕ → Bool
serves m x = serves_as x.0 (get x.1 m)

abbrev pub IsServing : Registry → Type 0
IsServing c =
    (all (serves c.objects) c.entries ≡ true)
    × Distinct c.entries
    × ((h : ℕ) → c.made ≤ h → get h c.objects ≡ none)

-- What stands in the map serves its id.
pub serves-get :
    (objects : List (ℕ × Entry)) (id : String) (h : ℕ) (m : List (String × ℕ))
    → all (serves objects) m ≡ true
    → get id m ≡ some h
    → serves objects (id, h) ≡ true
unfolding all get
serves-get objects id h [] a g = cc
serves-get objects id h ((j, i) ∷ m) a g =
    by_test (str_eq j id) refl g (serves-get objects id h m (ground arith))
  where
    by_test :
        (t : Bool)
        → str_eq j id ≡ t
        → (if t then some i else get id m) ≡ some h
        → (get id m ≡ some h → serves objects (id, h) ≡ true)
        → serves objects (id, h) ≡ true
    by_test true e f k =
        let key = (eq_iff j id).0 e in
        let first : serves objects (j, i) ≡ true = ground arith in
        let both : (j, i) ≡ (id, h) = cc in subst (λ x. serves objects x ≡ true) both first
    by_test false e f k = k f

pub id-serves :
    (objects : List (ℕ × Entry)) (id : String) (h : ℕ) (e : Entry)
    → serves objects (id, h) ≡ true
    → get h objects ≡ some e
    → e.id ≡ id
id-serves objects id h e s k = off (sym (ap (serves_as id) k) ∙ s)
  where
    off : (str_eq e.id id && e.is_open) ≡ true → e.id ≡ id
    off z = ground (arith, eq_iff e.id id)

all-implies {ℓ} :
    {A : Type ℓ} (p q : A → Bool) (xs : List A)
    → ((x : A) → p x ≡ true → q x ≡ true)
    → all p xs ≡ true
    → all q xs ≡ true
unfolding all
all-implies p q [] f h = refl
all-implies p q (x ∷ xs) f h = ground (arith, f x, all-implies p q xs f)

adjust-serves :
    (h : ℕ) (f : Entry → Entry) (m : List (ℕ × Entry)) (xs : List (String × ℕ))
    → ((e : Entry) → ((f e).id ≡ e.id) × ((f e).is_open ≡ e.is_open))
    → all (serves m) xs ≡ true
    → all (serves (adjust h f m)) xs ≡ true
adjust-serves h f m xs k =
    all-implies (serves m) (serves (adjust h f m)) xs
      (λ x s. adjust-keeps (serves_as x.0) f h m x.1 (λ e. rw ((k e).0, (k e).1) refl) ∙ s)

clash :
    (m : List (ℕ × Entry)) (e : Entry) (id : String) (h j : ℕ)
    → get h m ≡ some e
    → str_eq id e.id ≡ false
    → serves m (id, j) ≡ true
    → h ≡ j
    → ⊥
clash m e id h j g d s t = off (sym (ap (serves_as id) (ap (λ i. get i m) (sym t) ∙ g)) ∙ s)
  where
    off : (str_eq e.id id && e.is_open) ≡ true → ⊥
    off z = ground (arith, eq_iff e.id id, eq_iff id e.id)

-- Where another id is dropped, what is left points to other objects than the one that was closed.
serves-close :
    (h : ℕ) (e : Entry) (ok : Bool) (m : List (ℕ × Entry)) (id : String) (j : ℕ)
    → get h m ≡ some e
    → str_eq id e.id ≡ false
    → serves m (id, j) ≡ true
    → serves (adjust h (λ x. record x { is_open = x.is_open && not ok }) m) (id, j) ≡ true
unfolding change
serves-close h e ok m id j g d s =
    rw (get-adjust j h (λ x. record x { is_open = x.is_open && not ok }) m)
      (elim (Bool-cases (h == j)) [
        | inl t ↦ absurd (clash m e id h j g d s (same t))
        | inr t ↦ rw t s
      ])
  where
    same : (h == j) ≡ true → h ≡ j
    same t = ground arith

all-serves-close :
    (h : ℕ) (e : Entry) (ok : Bool) (m : List (ℕ × Entry)) (xs : List (String × ℕ))
    → get h m ≡ some e
    → all (serves m) xs ≡ true
    → all (serves (adjust h (λ x. record x { is_open = x.is_open && not ok }) m)) (drop_key e.id xs)
      ≡ true
unfolding all drop_key
all-serves-close h e ok m [] g s = refl
all-serves-close h e ok m ((id, j) ∷ xs) g s = elim (Bool-cases (str_eq id e.id)) [
  | inl d ↦ rw d (all-serves-close h e ok m xs g (ground arith))
  | inr d ↦ rw d (ground (arith, serves-close h e ok m id j g d, all-serves-close h e ok m xs g))
]

serves-add :
    (made : ℕ) (a : Entry) (m : List (ℕ × Entry)) (x : String × ℕ)
    → get made m ≡ none
    → serves m x ≡ true
    → serves ((made, a) ∷ m) x ≡ true
unfolding get
serves-add made a m (id, j) u s = elim (Bool-cases (made == j)) [
  | inl e ↦ absurd (vain (same e))
  | inr e ↦ rw e s
]
  where
    same : (made == j) ≡ true → made ≡ j
    same t = ground arith

    vain : made ≡ j → ⊥
    vain t = absurd (false≢true (sym (ap (serves_as id) (ap (λ i. get i m) (sym t) ∙ u)) ∙ s))

all-serves-update :
    (id : String) (k : ℕ) (m : List (ℕ × Entry)) (xs : List (String × ℕ))
    → serves m (id, k) ≡ true
    → all (serves m) xs ≡ true
    → all (serves m) (update id (λ h. k) k xs) ≡ true
unfolding all update
all-serves-update id k m [] s t = ground arith
all-serves-update id k m ((i, j) ∷ xs) s t =
    ground (arith, eq_iff i id, all-serves-update id k m xs s)

all-serves-add :
    (c : Registry) (id : String) (now : ℕ)
    → IsServing c
    → all
        (serves ((c.made, new_entry id now) ∷ c.objects))
        (update id (λ h. c.made) c.made c.entries)
      ≡ true
all-serves-add c id now (s, d, u) =
    all-serves-update id c.made ((c.made, new_entry id now) ∷ c.objects) c.entries
      (new_one c.made c.objects)
      (all-implies (serves c.objects) (serves ((c.made, new_entry id now) ∷ c.objects)) c.entries
        (λ x. serves-add c.made (new_entry id now) c.objects x (u c.made (omega arith))) s)
  where
    new_one : (k : ℕ) (m : List (ℕ × Entry)) → serves ((k, new_entry id now) ∷ m) (id, k) ≡ true
    new_one k m = unfold get in ground (arith, eq_iff id id)

IsServing-Move : {c d : Registry} → Move c d → IsServing c → IsServing d
IsServing-Move (touches c h f k) (s, d, u) = (
  adjust-serves h f c.objects c.entries (λ e. ((k e).1, (k e).2)) s,
  d,
  λ j l. stays_fresh h j f c.objects (u j l),
)
IsServing-Move (closes c h e ok g) (s, d, u) = (
  all-serves-close h e ok c.objects c.entries g s,
  Distinct-drop_key e.id c.entries d,
  λ j l. stays_fresh h j _ c.objects (u j l),
)
IsServing-Move (adds c id now g) (s, d, u) = (
  all-serves-add c id now (s, d, u),
  Distinct-update id (λ h. c.made) c.made c.entries d,
  λ j l. fresh j l,
)
  where
    fresh : (j : ℕ) → c.made + 1 ≤ j → get j ((c.made, new_entry id now) ∷ c.objects) ≡ none
    fresh j l = unfold get in ground (arith, u j)
IsServing-Move (lends c r h e now g k) (s, d, u) = (
  adjust-serves h (λ x. record x { refcount = x.refcount + 1; last_used = now }) c.objects c.entries
      (λ x. (refl, refl)) s,
  d,
  λ j l. stays_fresh h j _ c.objects (u j l),
)
IsServing-Move (gives_back c r h now g) (s, d, u) = (
  adjust-serves h (λ x. record x { refcount = x.refcount - 1; last_used = now }) c.objects c.entries
      (λ x. (refl, refl)) s,
  d,
  λ j l. stays_fresh h j _ c.objects (u j l),
)
IsServing-Move (shuts c) n = n

IsServing-Moves : {c d : Registry} → Moves c d → IsServing c → IsServing d
IsServing-Moves still n = n
IsServing-Moves (after m k) n = IsServing-Move k (IsServing-Moves m n)

IsServing-run :
    (max_open : ℕ) (registry : List String) (es : List Event)
    → IsServing (registry_of (run (init max_open registry) es))
unfolding registry_of get all
IsServing-run max_open registry es =
    IsServing-Moves (run-Moves (init max_open registry) es) (refl, tt, (λ h l. refl))

-- Whatever calls come in whatever order, no profile stands twice in the map, and each entry of the map
-- points to an object of that profile whose database handle is open.
pub run-IsServing :
    (max_open : ℕ) (registry : List String) (es : List Event)
    → (all
          (serves (run (init max_open registry) es).objects)
          (run (init max_open registry) es).entries
        ≡ true)
      × Distinct (run (init max_open registry) es).entries
unfolding registry_of
run-IsServing max_open registry es =
    ((IsServing-run max_open registry es).0, (IsServing-run max_open registry es).1)
