-- ===== src/Expectation.antt =====
-- server/src/expectation.ts: what the running month is expected to cost.
-- Amounts are whole agorot, on which `round2` is the identity but for the median of an even number of
-- amounts, a half of a sum. A `Record` is an association list with the keys in their order; a `Set` of
-- texts is a list without repetition. The Hebrew labels of the rows are left out.
pub mod Totals
pub mod Typical
pub mod Rows
pub mod Keys
use misgeret.Base.{
  ℕ, ◌+◌, ◌-◌, ◌/◌, ◌%◌, Bool, true, false, not, ◌&&◌, Option, none, some, List, [], ◌∷◌, ◌++◌, map,
  take, filter, any, length, get_elem?, String, str_eq, ltb, ◌==◌, if◌then◌else◌, ℤ, pos, negsuc,
  neg, ◌+ℤ◌, ◌-ℤ◌, leb_ℤ, ltb_ℤ, max_ℤ, sum_of,
}
use misgeret.Base.Dict.{get, string_eq}
use misgeret.Base.Sort.{sort_by}
use misgeret.Calendar.{Month, leb_month}
use misgeret.Calendar.Keys.{month_key}

pub data Kind : Type 0 where
  fixed variable : Kind

pub record ExpectationRow : Type 0 where
  pub key : String
  pub kind : Kind
  pub spent : ℤ
  pub typical : ℤ
  pub expected : ℤ
  pub ahead : ℤ

pub record Part : Type 0 where
  pub spent : ℤ
  pub expected : ℤ
  pub ahead : ℤ

pub record ExpectationView : Type 0 where
  pub rows : List ExpectationRow
  pub expected_total : ℤ
  pub ahead_total : ℤ
  pub spent_total : ℤ
  pub fixed : Part
  pub variable : Part

pub record ExpectationInput : Type 0 where
  pub variable_spent_by_category : List (String × ℤ)
  pub variable_history : List (Month × List (String × ℤ))
  pub complete_months : List Month
  pub fixed_spent_by_merchant : List (String × ℤ)
  pub fixed_monthly_by_merchant : List (String × ℤ)

abbrev pub typical_months : ℕ
typical_months = 3

-- Thirty shekels.
abbrev pub min_typical : ℤ
min_typical = pos 3000

-- A half, rounded up as Math.round does.
unfoldable pub half_up : ℤ → ℤ
half_up (pos n) = pos ((n + 1) / 2)
half_up (negsuc n) = neg (pos ((n + 1) / 2))

-- An element of an array, or 0 where the source has undefined, which it does not read.
unfoldable pub or_zero : Option ℤ → ℤ
or_zero none = pos 0
or_zero (some a) = a

unfoldable pub median : List ℤ → ℤ
unfolding or_zero half_up
median s =
    let mid = length s / 2 in
    if length s % 2 == 1
    then or_zero (get_elem? s mid)
    else half_up (or_zero (get_elem? s (mid - 1)) +ℤ or_zero (get_elem? s mid))

unfoldable pub is_spend : ℤ → Bool
is_spend v = ltb_ℤ (pos 0) v

unfoldable pub typical_of : List ℤ → ℤ
unfolding filter is_spend median sort_by
typical_of values =
    let with_spend = filter is_spend values in
    if length with_spend == length values && ltb 1 (length with_spend)
    then median (sort_by leb_ℤ with_spend)
    else pos 0

-- variableHistory[m] ?? {}
unfoldable pub history_of : ExpectationInput → Month → List (String × ℤ)
unfolding get
history_of input m = elim (get m input.variable_history) [ none ↦ [] | some h ↦ h ]

unfoldable pub amount_at : String → List (String × ℤ) → ℤ
unfolding get or_zero
amount_at k m = or_zero (get k m)

unfoldable pub later_first : Month → Month → Bool
unfolding leb_month
later_first a b = leb_month b a

unfoldable pub basis_of : ExpectationInput → List Month
unfolding sort_by later_first
basis_of input = take typical_months (sort_by later_first input.complete_months)

-- new Set(keys)
unfoldable pub distinct_keys : List String → List String → List String
unfolding any
distinct_keys seen [] = []
distinct_keys seen (k ∷ ks) =
    let new = k ∷ distinct_keys (k ∷ seen) ks in
    let old = distinct_keys seen ks in if any (str_eq k) seen then old else new

abbrev pub keys : List (String × ℤ) → List String
keys m = map (λ x. x.0) m

unfoldable pub history_keys : ExpectationInput → List Month → List String
unfolding history_of
history_keys input [] = []
history_keys input (m ∷ ms) = keys (history_of input m) ++ history_keys input ms

unfoldable pub category_ids : ExpectationInput → List String
unfolding distinct_keys history_keys basis_of
category_ids input =
    distinct_keys [] (keys input.variable_spent_by_category ++ history_keys input (basis_of input))

unfoldable pub merchants_of : ExpectationInput → List String
unfolding distinct_keys
merchants_of input =
    distinct_keys [] (keys input.fixed_spent_by_merchant ++ keys input.fixed_monthly_by_merchant)

-- const expected = round2(Math.max(spent, typical));
abbrev pub row_of : Kind → String → ℤ → ℤ → ExpectationRow
row_of kind key spent typical = record {
  key = key;
  kind = kind;
  spent = spent;
  typical = typical;
  expected = max_ℤ spent typical;
  ahead = max_ℤ spent typical -ℤ spent;
}

-- raw >= MIN_TYPICAL ? raw : 0
unfoldable pub if_large : ℤ → ℤ
if_large raw = if leb_ℤ min_typical raw then raw else pos 0

unfoldable pub variable_row : ExpectationInput → String → ExpectationRow
unfolding amount_at if_large typical_of history_of basis_of
variable_row input cat =
    row_of variable cat (amount_at cat input.variable_spent_by_category)
      (if_large (typical_of (map (λ m. amount_at cat (history_of input m)) (basis_of input))))

unfoldable pub fixed_row : ExpectationInput → String → ExpectationRow
unfolding amount_at
fixed_row input merchant =
    row_of fixed merchant (amount_at merchant input.fixed_spent_by_merchant)
      (amount_at merchant input.fixed_monthly_by_merchant)

-- if (expected <= 0) continue;
unfoldable pub is_expected : ExpectationRow → Bool
is_expected r = ltb_ℤ (pos 0) r.expected

unfoldable pub rows_of : ExpectationInput → List ExpectationRow
unfolding filter is_expected variable_row fixed_row category_ids merchants_of
rows_of input =
    filter is_expected (map (variable_row input) (category_ids input))
    ++ filter is_expected (map (fixed_row input) (merchants_of input))

unfoldable pub costlier_first : ExpectationRow → ExpectationRow → Bool
costlier_first a b = leb_ℤ b.expected a.expected

unfoldable pub is_kind : Kind → ExpectationRow → Bool
is_kind k r = elim k [
  | fixed ↦ elim r.kind [ fixed ↦ true | variable ↦ false ]
  | variable ↦ elim r.kind [ fixed ↦ false | variable ↦ true ]
]

unfoldable pub part_of : Kind → List ExpectationRow → Part
unfolding filter is_kind sum_of
part_of k rows = record {
  spent = sum_of (λ r. r.spent) (filter (is_kind k) rows);
  expected = sum_of (λ r. r.expected) (filter (is_kind k) rows);
  ahead = sum_of (λ r. r.ahead) (filter (is_kind k) rows);
}

unfoldable pub build_expectation : ExpectationInput → ExpectationView
unfolding rows_of sort_by costlier_first part_of sum_of
build_expectation input =
    let rows = sort_by costlier_first (rows_of input) in
    record {
      rows = rows;
      expected_total = sum_of (λ r. r.expected) rows;
      ahead_total = sum_of (λ r. r.ahead) rows;
      spent_total = sum_of (λ r. r.spent) rows;
      fixed = part_of fixed rows;
      variable = part_of variable rows;
    }
