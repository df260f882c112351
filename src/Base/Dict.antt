-- ===== src/Base/Dict.antt =====
-- JavaScript's `Map` as an association list in insertion order, over keys with a lawful test.
use mathlib.Core.Path.{◌≡◌, refl}
use mathlib.Core.Logic.{◌↔◌, inl, inr}
use mathlib.Core.Bool.{Bool, true, false, ◌||◌}
use mathlib.Core.Option.{Option, none, some}
use mathlib.Core.List.{List, [], ◌∷◌}
use Prim.Native.Nat.{ℕ}
use Prim.Native.String.{String}
use native.Mathlib.Omega.{arith}
use text.Mathlib.Text.{◌==◌ as str_eq}
use text.Mathlib.TextEquality.{eq_iff}
use misgeret.Base.Tests.{if◌then◌else◌, ◌==◌, ==_iff, Bool-cases}
use misgeret.Base.Int.{ℤ, ◌+ℤ◌, sum_of, int_laws}

pub record Eq {ℓ} (A : Type ℓ) : Type ℓ where
  pub eqb : A → A → Bool
  pub eqb_iff : (a b : A) → (eqb a b ≡ true) ↔ (a ≡ b)

abbrev pub nat_beq : ℕ → ℕ → Bool
nat_beq a b = a == b

instance abbrev pub nat_eq : Eq ℕ
nat_eq = record { eqb = nat_beq; eqb_iff = ==_iff }

instance abbrev pub string_eq : Eq String
string_eq = record { eqb = str_eq; eqb_iff = eq_iff }

unfoldable pub apply_or {ℓ} : {V : Type ℓ} → (V → V) → V → Option V → V
apply_or f d none = f d
apply_or f d (some v) = f v

pub eqb_refl {ℓ} : {K : Type ℓ} ⦃e : Eq K⦄ (k : K) → e.eqb k k ≡ true
eqb_refl ⦃e⦄ k = (e.eqb_iff k k).1 refl

module _ {ℓ κ} {K : Type ℓ} {V : Type κ} ⦃e : Eq K⦄ where
  unfoldable pub get : K → List (K × V) → Option V
  get k [] = none
  get k ((j, v) ∷ m) = if e.eqb j k then some v else get k m

  -- m.set(k, f(m.get(k) ?? d))
  unfoldable pub update : K → (V → V) → V → List (K × V) → List (K × V)
  update k f d [] = (k, f d) ∷ []
  update k f d ((j, v) ∷ m) = if e.eqb j k then (j, f v) ∷ m else (j, v) ∷ update k f d m

  unfoldable pub has_key : K → List (K × V) → Bool
  has_key k [] = false
  has_key k ((j, v) ∷ m) = e.eqb j k || has_key k m

  -- No key stands twice.
  abbrev pub Distinct : List (K × V) → Type 0
  Distinct [] = Unit
  Distinct ((j, v) ∷ m) = (has_key j m ≡ false) × Distinct m

  pub get-update :
      (j k : K) (f : V → V) (d : V) (m : List (K × V))
      → get j (update k f d m) ≡ (if e.eqb k j then some (apply_or f d (get k m)) else get j m)
  unfolding get update apply_or
  get-update j k f d [] = refl
  get-update j k f d ((i, v) ∷ m) =
      ground (arith, e.eqb_iff k j, e.eqb_iff i k, e.eqb_iff i j, get-update j k f d m)

  pub has_key-get : (k : K) (m : List (K × V)) → has_key k m ≡ false → get k m ≡ none
  unfolding has_key get
  has_key-get k [] h = refl
  has_key-get k ((j, v) ∷ m) h = ground (arith, has_key-get k m)

  pub has_key-update :
      (j k : K) (f : V → V) (d : V) (m : List (K × V))
      → has_key j (update k f d m) ≡ (e.eqb k j || has_key j m)
  unfolding has_key update
  has_key-update j k f d [] = ground arith
  has_key-update j k f d ((i, v) ∷ m) =
      ground (arith, e.eqb_iff k j, e.eqb_iff i k, e.eqb_iff i j, has_key-update j k f d m)

  pub Distinct-update :
      (k : K) (f : V → V) (d : V) (m : List (K × V)) → Distinct m → Distinct (update k f d m)
  unfolding has_key update
  Distinct-update k f d [] h = (refl, tt)
  Distinct-update k f d ((i, v) ∷ m) h = elim (Bool-cases (e.eqb i k)) [
    | inl p ↦ rw p h
    | inr p ↦ rw p (
      ground (arith, has_key-update i k f d m, e.eqb_iff k i, e.eqb_iff i k),
      Distinct-update k f d m h.1,
    )
  ]

  -- The sum of a measure of the entries moves by what `f` adds to the measure at the key.
  pub sum_of-update :
      (g : K × V → ℤ) (k : K) (f : V → V) (d : V) (a : ℤ) (m : List (K × V))
      → g (k, f d) ≡ a
      → ((v : V) → g (k, f v) ≡ g (k, v) +ℤ a)
      → sum_of g (update k f d m) ≡ sum_of g m +ℤ a
  unfolding update sum_of
  sum_of-update g k f d a [] p q = rw p (omega int_laws)
  sum_of-update g k f d a ((i, v) ∷ m) p q = elim (Bool-cases (e.eqb i k)) [
    | inl s ↦ rw (s, (e.eqb_iff i k).0 s, q v) (omega int_laws)
    | inr s ↦ rw (s, sum_of-update g k f d a m p q) (omega int_laws)
  ]
