-- ===== src/Pool/Objects.antt =====
-- Changing one object of the pool, and dropping an entry of its map.
use misgeret.Base.{
  ℕ, ◌≡◌, refl, Bool, true, false, Option, none, some, List, [], ◌∷◌, ◌==◌, arith, Bool-cases, inl,
  inr, String, str_eq, eq_iff,
}
use misgeret.Base.Dict.{get, has_key, nat_eq, string_eq, Distinct}
use misgeret.Pool.{Entry, adjust, drop_key}

unfoldable pub change {ℓ} : {A : Type ℓ} → Bool → (A → A) → Option A → Option A
change true f (some a) = some (f a)
change true f none = none
change false f o = o

pub get-adjust :
    (j h : ℕ) (f : Entry → Entry) (m : List (ℕ × Entry))
    → get j (adjust h f m) ≡ change (h == j) f (get j m)
unfolding get adjust change
get-adjust j h f [] = elim (Bool-cases (h == j)) [ inl e ↦ rw e refl | inr e ↦ rw e refl ]
get-adjust j h f ((i, e) ∷ m) = elim (Bool-cases (i == h)) [
  | inl p ↦ elim (Bool-cases (h == j)) [
    | inl q ↦ ground (arith, get-adjust j h f m)
    | inr q ↦ ground (arith, get-adjust j h f m)
  ]
  | inr p ↦ elim (Bool-cases (h == j)) [
    | inl q ↦ ground (arith, get-adjust j h f m)
    | inr q ↦ ground (arith, get-adjust j h f m)
  ]
]

-- A change that keeps what a test reads keeps the test's answer on every object.
pub adjust-keeps {ℓ} :
    {A : Type ℓ} (test : Option Entry → A) (f : Entry → Entry) (h : ℕ) (m : List (ℕ × Entry))
    (j : ℕ)
    → ((e : Entry) → test (some (f e)) ≡ test (some e))
    → test (get j (adjust h f m)) ≡ test (get j m)
unfolding change
adjust-keeps test f h m j k = rw (get-adjust j h f m) (kept (h == j) (get j m))
  where
    kept : (b : Bool) (o : Option Entry) → test (change b f o) ≡ test o
    kept true (some e) = k e
    kept true none = refl
    kept false o = refl

pub get-drop_key {ℓ} :
    {A : Type ℓ} (k id : String) (m : List (String × A))
    → get k m ≡ none
    → get k (drop_key id m) ≡ none
unfolding get drop_key
get-drop_key k id [] h = refl
get-drop_key k id ((j, a) ∷ m) h = ground (arith, eq_iff j k, eq_iff j id, get-drop_key k id m)

pub get-drop_same {ℓ} :
    {A : Type ℓ} (id : String) (m : List (String × A)) → get id (drop_key id m) ≡ none
unfolding get drop_key
get-drop_same id [] = refl
get-drop_same id ((j, a) ∷ m) = elim (Bool-cases (str_eq j id)) [
  | inl e ↦ rw e (get-drop_same id m)
  | inr e ↦ rw (e, e) (get-drop_same id m)
]

pub has_key-drop_key {ℓ} :
    {A : Type ℓ} (k id : String) (m : List (String × A))
    → has_key k m ≡ false
    → has_key k (drop_key id m) ≡ false
unfolding has_key drop_key
has_key-drop_key k id [] h = refl
has_key-drop_key k id ((j, a) ∷ m) h = ground (arith, has_key-drop_key k id m)

pub Distinct-drop_key {ℓ} :
    {A : Type ℓ} (id : String) (m : List (String × A)) → Distinct m → Distinct (drop_key id m)
unfolding drop_key
Distinct-drop_key id [] d = d
Distinct-drop_key id ((j, a) ∷ m) d = elim (Bool-cases (str_eq j id)) [
  | inl e ↦ rw e (Distinct-drop_key id m d.1)
  | inr e ↦ rw e (has_key-drop_key j id m d.0, Distinct-drop_key id m d.1)
]

pub stays_fresh :
    (h j : ℕ) (f : Entry → Entry) (m : List (ℕ × Entry))
    → get j m ≡ none
    → get j (adjust h f m) ≡ none
unfolding change
stays_fresh h j f m e = rw (get-adjust j h f m, e) (by_case (h == j))
  where
    by_case : (b : Bool) → change b f none ≡ none
    by_case true = refl
    by_case false = refl
