-- ===== src/Base/Sort.antt =====
-- `Array.prototype.sort` as insertion sort, which is stable as the standard asks. The test says that
-- its first argument may stand before its second.
use mathlib.Core.Path.{◌≡◌, refl, ◌∙◌, ap}
use mathlib.Core.Logic.{inl, inr}
use mathlib.Core.Bool.{Bool, true, false, ◌||◌, ◌&&◌}
use mathlib.Core.Option.{some}
use mathlib.Core.List.{List, [], ◌∷◌}
use native.Mathlib.Omega.{arith}
use misgeret.Base.Tests.{if◌then◌else◌, Bool-cases}
use misgeret.Base.Lists.{All, all}
use misgeret.Base.Int.{ℤ, ◌+ℤ◌, sum_of, int_laws}
use misgeret.Base.Dict.{Eq, get, has_key, Distinct}

module _ {ℓ} {A : Type ℓ} where
  unfoldable pub insert_by : (A → A → Bool) → A → List A → List A
  insert_by le x [] = x ∷ []
  insert_by le x (y ∷ ys) = if le x y then x ∷ y ∷ ys else y ∷ insert_by le x ys

  unfoldable pub sort_by : (A → A → Bool) → List A → List A
  unfolding insert_by
  sort_by le [] = []
  sort_by le (x ∷ xs) = insert_by le x (sort_by le xs)

  -- Each element may stand before the one that follows it.
  abbrev pub SortedBy : (A → A → Bool) → List A → Type 0
  SortedBy le [] = Unit
  SortedBy le (x ∷ []) = Unit
  SortedBy le (x ∷ y ∷ ys) = (le x y ≡ true) × SortedBy le (y ∷ ys)

  pub sum_of-insert_by :
      (f : A → ℤ) (le : A → A → Bool) (x : A) (xs : List A)
      → sum_of f (insert_by le x xs) ≡ f x +ℤ sum_of f xs
  unfolding sum_of insert_by
  sum_of-insert_by f le x [] = refl
  sum_of-insert_by f le x (y ∷ ys) = elim (Bool-cases (le x y)) [
    | inl p ↦ rw p
    | inr p ↦ rw (p, sum_of-insert_by f le x ys) (omega int_laws)
  ]

  -- Sorting keeps every sum.
  pub sum_of-sort_by :
      (f : A → ℤ) (le : A → A → Bool) (xs : List A) → sum_of f (sort_by le xs) ≡ sum_of f xs
  unfolding sum_of sort_by
  sum_of-sort_by f le [] = refl
  sum_of-sort_by f le (x ∷ xs) =
      sum_of-insert_by f le x (sort_by le xs) ∙ ap (◌+ℤ◌ (f x)) (sum_of-sort_by f le xs)

  abbrev IsTotal : (A → A → Bool) → Type ℓ
  IsTotal le = (x y : A) → le x y ≡ false → le y x ≡ true

  -- What may stand before `x` and before the head of `xs` may stand before the head of the insertion.
  insert_by-SortedBy_after :
      (le : A → A → Bool)
      → IsTotal le
      → (z x : A) (xs : List A) → le z x ≡ true
      → SortedBy le (z ∷ xs)
      → SortedBy le (z ∷ insert_by le x xs)
  unfolding insert_by
  insert_by-SortedBy_after le total z x [] p h = (p, tt)
  insert_by-SortedBy_after le total z x (y ∷ ys) p h = elim (Bool-cases (le x y)) [
    | inl q ↦ rw q (p, (q, h.1))
    | inr q ↦ rw q (h.0, insert_by-SortedBy_after le total y x ys (total x y q) h.1)
  ]

  insert_by-SortedBy :
      (le : A → A → Bool)
      → IsTotal le
      → (x : A) (xs : List A) → SortedBy le xs
      → SortedBy le (insert_by le x xs)
  unfolding insert_by
  insert_by-SortedBy le total x [] h = tt
  insert_by-SortedBy le total x (y ∷ ys) h = elim (Bool-cases (le x y)) [
    | inl q ↦ rw q (q, h)
    | inr q ↦ rw q (insert_by-SortedBy_after le total y x ys (total x y q) h)
  ]

  pub sort_by-SortedBy :
      (le : A → A → Bool) → IsTotal le → (xs : List A) → SortedBy le (sort_by le xs)
  unfolding sort_by
  sort_by-SortedBy le total [] = tt
  sort_by-SortedBy le total (x ∷ xs) =
      insert_by-SortedBy le total x (sort_by le xs) (sort_by-SortedBy le total xs)

-- Sorting the entries of a map keeps what it maps each key to.
all-insert_by {ℓ} :
    {A : Type ℓ} (p : A → Bool) (le : A → A → Bool) (x : A) (xs : List A)
    → all p (insert_by le x xs) ≡ (p x && all p xs)
unfolding all insert_by
all-insert_by p le x [] = refl
all-insert_by p le x (y ∷ ys) = ground (arith, all-insert_by p le x ys)

pub all-sort_by {ℓ} :
    {A : Type ℓ} (p : A → Bool) (le : A → A → Bool) (xs : List A) → all p (sort_by le xs) ≡ all p xs
unfolding all sort_by
all-sort_by p le [] = refl
all-sort_by p le (x ∷ xs) =
    ground (arith, all-insert_by p le x (sort_by le xs), all-sort_by p le xs)

module _ {ℓ κ} {K : Type ℓ} {V : Type κ} ⦃e : Eq K⦄ where
  pub has_key-insert_by :
      (le : K × V → K × V → Bool) (k j : K) (v : V) (m : List (K × V))
      → has_key k (insert_by le (j, v) m) ≡ (e.eqb j k || has_key k m)
  unfolding has_key insert_by
  has_key-insert_by le k j v [] = refl
  has_key-insert_by le k j v ((i, w) ∷ m) = ground (arith, has_key-insert_by le k j v m)

  get-insert_by :
      (le : K × V → K × V → Bool) (k j : K) (v : V) (m : List (K × V))
      → has_key j m ≡ false
      → get k (insert_by le (j, v) m) ≡ (if e.eqb j k then some v else get k m)
  unfolding get has_key insert_by
  get-insert_by le k j v [] h = refl
  get-insert_by le k j v ((i, w) ∷ m) h =
      ground (arith, get-insert_by le k j v m, e.eqb_iff j k, e.eqb_iff i k, e.eqb_iff i j)

  has_key-sort_by :
      (le : K × V → K × V → Bool) (k : K) (m : List (K × V))
      → has_key k (sort_by le m) ≡ has_key k m
  unfolding has_key sort_by
  has_key-sort_by le k [] = refl
  has_key-sort_by le k ((j, v) ∷ m) =
      has_key-insert_by le k j v (sort_by le m) ∙ ap (◌||◌ (e.eqb j k)) (has_key-sort_by le k m)

  pub get-sort_by :
      (le : K × V → K × V → Bool) (k : K) (m : List (K × V))
      → Distinct m
      → get k (sort_by le m) ≡ get k m
  unfolding get sort_by
  get-sort_by le k [] h = refl
  get-sort_by le k ((j, v) ∷ m) h =
      get-insert_by le k j v (sort_by le m) (has_key-sort_by le j m ∙ h.0)
      ∙ ap (λ o. if e.eqb j k then some v else o) (get-sort_by le k m h.1)

  Distinct-insert_by :
      (le : K × V → K × V → Bool) (j : K) (v : V) (m : List (K × V))
      → has_key j m ≡ false
      → Distinct m
      → Distinct (insert_by le (j, v) m)
  unfolding insert_by has_key
  Distinct-insert_by le j v [] h d = (refl, tt)
  Distinct-insert_by le j v ((i, w) ∷ m) h d = elim (Bool-cases (le (j, v) (i, w))) [
    | inl p ↦ rw p (h, d)
    | inr p ↦ rw p (
      ground (arith, has_key-insert_by le i j v m, e.eqb_iff i j, e.eqb_iff j i),
      Distinct-insert_by le j v m (ground arith) d.1,
    )
  ]

  pub Distinct-sort_by :
      (le : K × V → K × V → Bool) (m : List (K × V)) → Distinct m → Distinct (sort_by le m)
  unfolding sort_by
  Distinct-sort_by le [] d = tt
  Distinct-sort_by le ((j, v) ∷ m) d =
      Distinct-insert_by le j v (sort_by le m) (has_key-sort_by le j m ∙ d.0)
        (Distinct-sort_by le m d.1)

module _ {ℓ κ} {A : Type ℓ} (P : A → Type κ) where
  pub All-insert_by :
      (le : A → A → Bool) (x : A) (xs : List A) → P x → All P xs → All P (insert_by le x xs)
  unfolding insert_by
  All-insert_by le x [] h k = (h, tt)
  All-insert_by le x (y ∷ ys) h k = elim (Bool-cases (le x y)) [
    | inl e ↦ rw e (h, k)
    | inr e ↦ rw e (k.0, All-insert_by le x ys h k.1)
  ]

  pub All-sort_by : (le : A → A → Bool) (xs : List A) → All P xs → All P (sort_by le xs)
  unfolding sort_by
  All-sort_by le [] h = tt
  All-sort_by le (x ∷ xs) h = All-insert_by le x (sort_by le xs) h.0 (All-sort_by le xs h.1)
