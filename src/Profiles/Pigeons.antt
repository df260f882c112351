-- ===== src/Profiles/Pigeons.antt =====
-- Lists of texts without repetition, and the loop that both searches for a free name of
-- server/src/profiles.ts share.
use misgeret.Base.{
  ℕ, zero, suc, ◌≤◌, ◌<◌, ◌≡◌, refl, sym, ◌∙◌, ap, ◌⊎◌, inl, inr, arith, Bool, true, false, ◌||◌,
  List, [], ◌∷◌, All, length, if◌then◌else◌, Bool-cases,
}
use misgeret.Text.{Text, eq_text, eq_text_iff, text_key}
use misgeret.Profiles.Free.{first_free}

unfoldable pub mem : Text → List Text → Bool
mem t [] = false
mem t (x ∷ xs) = eq_text x t || mem t xs

abbrev pub DistinctTexts : List Text → Type 0
DistinctTexts [] = Unit
DistinctTexts (x ∷ xs) = (mem x xs ≡ false) × DistinctTexts xs

-- The list without the first occurrence of a text.
without : Text → List Text → List Text
without t [] = []
without t (x ∷ xs) = if eq_text x t then xs else x ∷ without t xs

length-without :
    (t : Text) (ys : List Text) → mem t ys ≡ true → suc (length (without t ys)) ≡ length ys
unfolding mem without
length-without t [] h = cc
length-without t (y ∷ ys) h = ground (arith, length-without t ys)

mem-without :
    (x t : Text) (ys : List Text)
    → eq_text x t ≡ false
    → mem x ys ≡ true
    → mem x (without t ys) ≡ true
unfolding mem without
mem-without x t [] e h = h
mem-without x t (y ∷ ys) e h =
    ground (arith, mem-without x t ys, eq_text_iff y t, eq_text_iff y x, eq_text_iff x t)

All-without :
    (t : Text) (xs ys : List Text)
    → mem t xs ≡ false
    → All (λ x. mem x ys ≡ true) xs
    → All (λ x. mem x (without t ys) ≡ true) xs
unfolding mem
All-without t [] ys d h = tt
All-without t (x ∷ xs) ys d h =
    (mem-without x t ys (ground arith) h.0, All-without t xs ys (ground arith) h.1)

-- Different texts of a list are no more than it holds.
pub pigeon :
    (xs ys : List Text) → DistinctTexts xs → All (λ x. mem x ys ≡ true) xs → length xs ≤ length ys
pigeon [] ys d h = omega arith
pigeon (x ∷ xs) ys d h =
    omega
      (arith, length-without x ys h.0, pigeon xs (without x ys) d.1 (All-without x xs ys d.0 h.1))

module _ (f : ℕ → Text) (is_injective : (i j : ℕ) → f i ≡ f j → i ≡ j) where
  from : ℕ → ℕ → List Text
  from i zero = []
  from i (suc n) = f i ∷ from (suc i) n

  mem-from : (j i n : ℕ) → j < i → mem (f j) (from i n) ≡ false
  unfolding mem from
  mem-from j i zero h = refl
  mem-from j i (suc n) h =
      ground (arith, mem-from j (suc i) n, eq_text_iff (f i) (f j), is_injective i j)

  from-DistinctTexts : (i n : ℕ) → DistinctTexts (from i n)
  unfolding from
  from-DistinctTexts i zero = tt
  from-DistinctTexts i (suc n) = (mem-from i (suc i) n (omega arith), from-DistinctTexts (suc i) n)

  length-from : (i n : ℕ) → length (from i n) ≡ n
  unfolding from
  length-from i zero = refl
  length-from i (suc n) = ap suc (length-from (suc i) n)

  module _ (taken : ℕ → Bool) (ys : List Text) (is_mem : (i : ℕ) → taken i ≡ mem (f i) ys) where
    -- The number that the search ends with is free and the ones before it are not, or the fuel ran out
    -- over candidates that are all taken.
    abbrev IsFirst : ℕ → ℕ → Type 0
    IsFirst i k = (taken k ≡ false) × (i ≤ k) × ((j : ℕ) → i ≤ j → j < k → taken j ≡ true)

    first_free_cases :
        (n i : ℕ) → IsFirst i (first_free taken n i) ⊎ All (λ x. mem x ys ≡ true) (from i n)
    unfolding first_free from
    first_free_cases zero i = inr tt
    first_free_cases (suc n) i = elim (Bool-cases (taken i)) [
      | inr e ↦ rw (e, first_free) (inl (e, omega arith, λ j p q. absurd (omega arith)))
      | inl e ↦ rw (e, first_free) (later e (first_free_cases n (suc i)))
    ]
      where
        later :
            taken i ≡ true
            → IsFirst (suc i) (first_free taken n (suc i))
              ⊎ All (λ x. mem x ys ≡ true) (from (suc i) n)
            → IsFirst i (first_free taken n (suc i))
              ⊎ All (λ x. mem x ys ≡ true) (f i ∷ from (suc i) n)
        later e (inl h) = inl (h.0, omega arith, λ j p q. ground (arith, h.2 j))
        later e (inr h) = inr (sym (is_mem i) ∙ e, h)

    pub first_free-IsFirst : (i : ℕ) → IsFirst i (first_free taken (suc (length ys)) i)
    first_free-IsFirst i = elim (first_free_cases (suc (length ys)) i) [
      | inl h ↦ h
      | inr h ↦ absurd (
          omega (
            arith,
            pigeon (from i (suc (length ys))) ys (from-DistinctTexts i (suc (length ys))) h,
            length-from i (suc (length ys)),
          ))
    ]
