-- ===== src/Expectation/Totals.antt =====
-- The rows and the totals of `buildExpectation` (server/src/expectation.ts).
use misgeret.Base.{
  ◌≡◌, refl, sym, ◌∙◌, Bool, true, false, ◌⊎◌, zero-+ℤ, eq_of_parts, ◌&&◌, ◌||◌, eqb_ℤ, +ℤ_parts,
  -ℤ_parts, List, [], ◌∷◌, ◌++◌, map, filter, all, Bool-cases, inl, inr, arith, String, ℤ, pos,
  ◌+ℤ◌, ◌-ℤ◌, leb_ℤ, ltb_ℤ, max_ℤ, sum_of, int_laws,
}
use misgeret.Base.Sort.{all-sort_by}
use misgeret.Expectation.{
  Kind, fixed, variable, ExpectationRow, ExpectationInput, row_of, variable_row, fixed_row,
  is_expected, rows_of, costlier_first, is_kind, part_of, build_expectation, category_ids,
  merchants_of,
}

-- A row costs more than nothing, at least what was spent and at least what is typical, and what is
-- ahead is the difference to what was spent.
abbrev pub is_sound : ExpectationRow → Bool
is_sound r =
    ltb_ℤ (pos 0) r.expected
    && leb_ℤ r.spent r.expected
    && leb_ℤ r.typical r.expected
    && (eqb_ℤ r.expected r.spent || eqb_ℤ r.expected r.typical)
    && eqb_ℤ (r.spent +ℤ r.ahead) r.expected

all-append {ℓ} :
    {A : Type ℓ} (p : A → Bool) (xs ys : List A) → all p (xs ++ ys) ≡ (all p xs && all p ys)
unfolding all
all-append p [] ys = refl
all-append p (x ∷ xs) ys = ground (arith, all-append p xs ys)

row_of-is_sound :
    (kind : Kind) (key : String) (spent typical : ℤ)
    → is_expected (row_of kind key spent typical) ≡ true
    → is_sound (row_of kind key spent typical) ≡ true
unfolding is_expected
row_of-is_sound kind key spent typical h =
    ground
      (arith, +ℤ_parts spent (max_ℤ spent typical -ℤ spent), -ℤ_parts (max_ℤ spent typical) spent)

all-filter {ℓ} :
    {A : Type ℓ} (p q : A → Bool) (xs : List A) → all p xs ≡ true → all p (filter q xs) ≡ true
unfolding all filter
all-filter p q [] h = refl
all-filter p q (x ∷ xs) h = ground (arith, all-filter p q xs)

sound-rows :
    (f : String → ExpectationRow) (ks : List String)
    → ((k : String) → is_expected (f k) ≡ true → is_sound (f k) ≡ true)
    → all is_sound (filter is_expected (map f ks)) ≡ true
unfolding all filter
sound-rows f [] h = refl
sound-rows f (k ∷ ks) h = elim (Bool-cases (is_expected (f k))) [
  | inl e ↦ rw e (ground (arith, h k e, sound-rows f ks h))
  | inr e ↦ rw e (sound-rows f ks h)
]

-- Every row of the expectation costs more than nothing, at least what was spent and at least what is
-- typical, and one of the two; what was spent and what is ahead add up to it.
pub build_expectation-is_sound :
    (input : ExpectationInput) → all is_sound (build_expectation input).rows ≡ true
unfolding build_expectation rows_of
build_expectation-is_sound input =
    all-sort_by is_sound costlier_first _
    ∙ all-append is_sound (filter is_expected (map (variable_row input) (category_ids input))) _
    ∙ ground (
      arith,
      sound-rows (variable_row input) (category_ids input) (λ k h. variable_sound k h),
      sound-rows (fixed_row input) (merchants_of input) (λ k h. fixed_sound k h),
    )
  where
    variable_sound :
        (k : String)
        → is_expected (variable_row input k) ≡ true
        → is_sound (variable_row input k) ≡ true
    variable_sound k h = unfold variable_row in search (row_of-is_sound, h)

    fixed_sound :
        (k : String) → is_expected (fixed_row input k) ≡ true → is_sound (fixed_row input k) ≡ true
    fixed_sound k h = unfold fixed_row in search (row_of-is_sound, h)

kind-cases :
    (r : ExpectationRow)
    → ((is_kind fixed r ≡ true) × (is_kind variable r ≡ false))
      ⊎ ((is_kind fixed r ≡ false) × (is_kind variable r ≡ true))
unfolding is_kind
kind-cases r = by_kind r.kind
  where
    by_kind :
        (k : Kind)
        → ((elim k [ fixed ↦ true | variable ↦ false ] ≡ true)
            × (elim k [ fixed ↦ false | variable ↦ true ] ≡ false))
          ⊎ ((elim k [ fixed ↦ true | variable ↦ false ] ≡ false)
              × (elim k [ fixed ↦ false | variable ↦ true ] ≡ true))
    by_kind fixed = inl (refl, refl)
    by_kind variable = inr (refl, refl)

sum_of-split :
    (f : ExpectationRow → ℤ) (rows : List ExpectationRow)
    → sum_of f rows
      ≡ sum_of f (filter (is_kind fixed) rows) +ℤ sum_of f (filter (is_kind variable) rows)
unfolding sum_of filter
sum_of-split f [] = sym (zero-+ℤ _)
sum_of-split f (r ∷ rows) = elim (kind-cases r) [
  | inl (a, b) ↦ rw (a, b, sum_of-split f rows) (omega int_laws)
  | inr (a, b) ↦ rw (a, b, sum_of-split f rows) (omega int_laws)
]

paid-is_sound : (r : ExpectationRow) → is_sound r ≡ true → r.spent +ℤ r.ahead ≡ r.expected
paid-is_sound r h = ground (arith, eq_of_parts (r.spent +ℤ r.ahead) r.expected)

ahead-sum :
    (rows : List ExpectationRow)
    → all is_sound rows ≡ true
    → sum_of (λ r. r.expected) rows ≡ sum_of (λ r. r.spent) rows +ℤ sum_of (λ r. r.ahead) rows
unfolding sum_of all
ahead-sum [] h = sym (zero-+ℤ _)
ahead-sum (r ∷ rows) h =
    rw (sym (paid-is_sound r (ground arith)), ahead-sum rows (ground arith)) (omega int_laws)

-- The expected total is what was spent and what is ahead, and it is the fixed part and the variable
-- part; in each part too, the expected cost is what was spent and what is ahead.
pub build_expectation_totals :
    (input : ExpectationInput)
    → ((build_expectation input).expected_total
        ≡ (build_expectation input).spent_total +ℤ (build_expectation input).ahead_total)
      × ((build_expectation input).expected_total
          ≡ (build_expectation input).fixed.expected +ℤ (build_expectation input).variable.expected)
      × ((k : Kind)
          → (part_of k (build_expectation input).rows).expected
            ≡ (part_of k (build_expectation input).rows).spent
              +ℤ (part_of k (build_expectation input).rows).ahead)
unfolding build_expectation part_of
build_expectation_totals input = (
  ahead-sum (build_expectation input).rows (build_expectation-is_sound input),
  sum_of-split (λ r. r.expected) (build_expectation input).rows,
  λ k. ahead-sum (filter (is_kind k) (build_expectation input).rows) (
      all-filter is_sound (is_kind k) (build_expectation input).rows
        (build_expectation-is_sound input)),
)
