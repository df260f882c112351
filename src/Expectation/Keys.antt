-- ===== src/Expectation/Keys.antt =====
-- What `buildExpectation` (server/src/expectation.ts) expects of one category or merchant.
use misgeret.Base.{
  ◌≡◌, refl, subst, sym, ap, ◌∙◌, Bool, true, false, ◌&&◌, ◌||◌, List, [], ◌∷◌, ◌++◌, map, filter,
  any, Bool-cases, inl, inr, arith, String, str_eq, ℤ, pos, ◌+ℤ◌, max_ℤ, sum_of, sum_of-append,
  zero-+ℤ, +ℤ-zero, if◌then◌else◌,
}
use misgeret.Base.Sort.{sum_of-sort_by}
use misgeret.Base.Dict.{string_eq}
use misgeret.Calendar.{Month}
use misgeret.Expectation.Typical.{typical_cost, if_large-typical_of, typical_cost-nothing}
use misgeret.Expectation.{
  Kind, fixed, variable, ExpectationRow, ExpectationInput, variable_row, fixed_row, is_expected,
  rows_of, costlier_first, is_kind, build_expectation, category_ids, merchants_of, distinct_keys,
  keys, history_keys, amount_at, history_of, basis_of,
}
use misgeret.Expectation.Rows.{
  only_at, sum_of-distinct_keys, expected_of-map, expected_of-other, amount_at-absent, expected_of,
}

any-append {ℓ} :
    {A : Type ℓ} (p : A → Bool) (xs ys : List A) → any p (xs ++ ys) ≡ (any p xs || any p ys)
unfolding any
any-append p [] ys = refl
any-append p (x ∷ xs) ys = ground (arith, any-append p xs ys)

-- What a merchant costs that costs a fixed amount, and what a category costs that varies: the larger
-- of what was spent and what is typical, if that is more than nothing.
abbrev pub fixed_cost : ExpectationInput → String → ℤ
fixed_cost input k = max_ℤ (pos 0) (
    max_ℤ (amount_at k input.fixed_spent_by_merchant) (amount_at k input.fixed_monthly_by_merchant))

abbrev pub variable_cost : ExpectationInput → String → ℤ
variable_cost input k = max_ℤ (pos 0) (
    max_ℤ (amount_at k input.variable_spent_by_category)
      (typical_cost (map (λ m. amount_at k (history_of input m)) (basis_of input))))

module _ (input : ExpectationInput) (k : String) where
  listed_once :
      (a : ℤ) (ks : List String)
      → (any (str_eq k) ks ≡ false → a ≡ pos 0)
      → sum_of (only_at k a) (distinct_keys [] ks) ≡ a
  unfolding any
  listed_once a ks h =
      sum_of-distinct_keys k a ks []
      ∙ elim (Bool-cases (any (str_eq k) ks)) [ inl e ↦ rw e refl | inr e ↦ rw e (sym (h e)) ]

  neither :
      (xs ys : List String)
      → any (str_eq k) (xs ++ ys) ≡ false
      → (any (str_eq k) xs ≡ false) × (any (str_eq k) ys ≡ false)
  neither xs ys h = ground (arith, any-append (str_eq k) xs ys)

  fixed_cost-absent :
      any (str_eq k) (keys input.fixed_spent_by_merchant ++ keys input.fixed_monthly_by_merchant)
        ≡ false
      → fixed_cost input k ≡ pos 0
  fixed_cost-absent h =
      let (a, b) = neither (keys input.fixed_spent_by_merchant) _ h in
      rw
        (
          amount_at-absent k input.fixed_spent_by_merchant a,
          amount_at-absent k input.fixed_monthly_by_merchant b,
        )
        refl

  variable_cost-absent :
      any (str_eq k) (keys input.variable_spent_by_category ++ history_keys input (basis_of input))
        ≡ false
      → variable_cost input k ≡ pos 0
  unfolding history_keys
  variable_cost-absent h =
      let (a, b) = neither (keys input.variable_spent_by_category) _ h in
      let nothing =
        typical_cost-nothing (λ m. amount_at k (history_of input m)) (basis_of input)
          (λ m ms e.
            amount_at-absent k (history_of input m)
              (first m ms (subst (λ l. any (str_eq k) (history_keys input l) ≡ false) e b))) in
      rw (amount_at-absent k input.variable_spent_by_category a, nothing) refl
    where
      first :
          (m : Month) (ms : List Month)
          → any (str_eq k) (history_keys input (m ∷ ms)) ≡ false
          → any (str_eq k) (keys (history_of input m)) ≡ false
      first m ms g = (neither (keys (history_of input m)) (history_keys input ms) g).0

  nothing_before : {x y a : ℤ} → x ≡ pos 0 → y ≡ a → x +ℤ y ≡ a
  nothing_before {x} {y} {a} e f = rw (e, f) (zero-+ℤ a)

  nothing_after : {x y a : ℤ} → x ≡ pos 0 → y ≡ a → y +ℤ x ≡ a
  nothing_after {x} {y} {a} e f = rw (e, f) (+ℤ-zero a)

  rows-split :
      (kind : Kind)
      → expected_of k kind (build_expectation input).rows
        ≡ expected_of k kind (filter is_expected (map (variable_row input) (category_ids input)))
          +ℤ expected_of k kind (filter is_expected (map (fixed_row input) (merchants_of input)))
  unfolding build_expectation rows_of
  rows-split kind =
      sum_of-sort_by (λ r. if is_kind kind r && str_eq r.key k then r.expected else pos 0)
        costlier_first (rows_of input)
      ∙ sum_of-append (λ r. if is_kind kind r && str_eq r.key k then r.expected else pos 0) _ _

  variable_row-is_variable :
      (j : String)
      → (is_kind variable (variable_row input j) ≡ true) × ((variable_row input j).key ≡ j)
  unfolding is_kind variable_row
  variable_row-is_variable j = (refl, refl)

  fixed_row-is_fixed :
      (j : String) → (is_kind fixed (fixed_row input j) ≡ true) × ((fixed_row input j).key ≡ j)
  unfolding is_kind fixed_row
  fixed_row-is_fixed j = (refl, refl)

  variable_row-not_fixed : (j : String) → is_kind fixed (variable_row input j) ≡ false
  unfolding is_kind variable_row
  variable_row-not_fixed j = refl

  fixed_row-not_variable : (j : String) → is_kind variable (fixed_row input j) ≡ false
  unfolding is_kind fixed_row
  fixed_row-not_variable j = refl

  fixed_row-cost : max_ℤ (pos 0) (fixed_row input k).expected ≡ fixed_cost input k
  unfolding fixed_row
  fixed_row-cost = refl

  variable_row-cost : max_ℤ (pos 0) (variable_row input k).expected ≡ variable_cost input k
  unfolding variable_row
  variable_row-cost =
      ap (λ t. max_ℤ (pos 0) (max_ℤ (amount_at k input.variable_spent_by_category) t))
        (if_large-typical_of (map (λ m. amount_at k (history_of input m)) (basis_of input)))

  cost_of_listed :
      (kind : Kind) (f : String → ExpectationRow) (ks : List String) (a : ℤ)
      → ((j : String) → (is_kind kind (f j) ≡ true) × ((f j).key ≡ j))
      → max_ℤ (pos 0) (f k).expected ≡ a
      → (any (str_eq k) ks ≡ false → a ≡ pos 0)
      → expected_of k kind (filter is_expected (map f (distinct_keys [] ks))) ≡ a
  cost_of_listed kind f ks a h e n =
      expected_of-map k kind f (distinct_keys [] ks) h
      ∙ ap (λ c. sum_of (only_at k c) (distinct_keys [] ks)) e
      ∙ listed_once a ks n

  -- Of every merchant and every category, known or not, the rows of its kind together cost the larger
  -- of what was spent and what is typical, where that is more than nothing, and nothing otherwise.
  -- What is typical of a category is the median of its costs in the last three complete months, where
  -- there are two or more such months, each has a cost and the median is thirty shekels or more; that
  -- of a merchant is its monthly cost.
  pub build_expectation_by_key :
      (expected_of k fixed (build_expectation input).rows ≡ fixed_cost input k)
      × (expected_of k variable (build_expectation input).rows ≡ variable_cost input k)
  unfolding category_ids merchants_of
  build_expectation_by_key =
      let no_fixed =
        expected_of-other k fixed (variable_row input) (category_ids input)
          variable_row-not_fixed in
      let no_variable =
        expected_of-other k variable (fixed_row input) (merchants_of input)
          fixed_row-not_variable in
      let fixed_rows =
        cost_of_listed fixed (fixed_row input) _ _ fixed_row-is_fixed fixed_row-cost
          fixed_cost-absent in
      let variable_rows =
        cost_of_listed variable (variable_row input) _ _ variable_row-is_variable variable_row-cost
          variable_cost-absent in
      (
        rows-split fixed ∙ nothing_before no_fixed fixed_rows,
        rows-split variable ∙ nothing_after no_variable variable_rows,
      )
