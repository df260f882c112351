-- ===== src/Tests/Expectation.antt =====
-- A concrete month.
use misgeret.Base.{◌≡◌, [], ◌∷◌, pos}
use misgeret.Expectation.{fixed, variable, ExpectationInput, build_expectation}
use misgeret.Expectation.Rows.{expected_of}
use misgeret.Expectation.Keys.{fixed_cost, variable_cost, build_expectation_by_key}

abbrev month_input : ExpectationInput
month_input = record {
  variable_spent_by_category = ("groceries", pos 138500) ∷ [];
  variable_history =
      (record { year = 2024; month = 1 }, ("groceries", pos 235400) ∷ [])
      ∷ (record { year = 2024; month = 2 }, ("groceries", pos 215400) ∷ [])
      ∷ [];
  complete_months = record { year = 2024; month = 1 } ∷ record { year = 2024; month = 2 } ∷ [];
  fixed_spent_by_merchant = [];
  fixed_monthly_by_merchant = ("rent", pos 350000) ∷ [];
}

build_expectation_by_key_example :
    (expected_of "rent" fixed (build_expectation month_input).rows ≡ fixed_cost month_input "rent")
    × (expected_of "rent" variable (build_expectation month_input).rows
        ≡ variable_cost month_input "rent")
build_expectation_by_key_example = build_expectation_by_key month_input "rent"
