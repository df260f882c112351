-- ===== src/Tests/Goals.antt =====
-- A concrete goal.
use misgeret.Base.{arith, inl, inr, ◌≡◌, some, none, [], ◌∷◌, pos, ℕ}
use misgeret.Base.Dict.{get}
use misgeret.Calendar.{Month, eq_month}
use misgeret.Calendar.Keys.{month_key}
use misgeret.Goals.{PlanGoalRow, GoalsInput, Spending, reduction, active, progress_of}
use misgeret.Goals.Judged.{IsAgreeing, progress_of-agree}

abbrev month_of : ℕ → Month
month_of m = record { year = 2024; month = m }

abbrev fewer_restaurants : PlanGoalRow
fewer_restaurants = record {
  id = 1;
  type = reduction;
  name = "restaurants";
  advice_key = none;
  status = active;
  created_at = "";
  closed_at = none;
  start_month = month_of 2;
  target_amount = none;
  monthly_amount = none;
  savings_goal_id = none;
  category = some "restaurants";
  category_ceiling = some (pos 70000);
}

abbrev spending : Spending
spending = (month_of 2, ("restaurants", pos 60000) ∷ []) ∷ []

abbrev input : GoalsInput
input = record {
  goals = fewer_restaurants ∷ [];
  current_month = month_of 4;
  complete_months = month_of 1 ∷ month_of 2 ∷ month_of 3 ∷ [];
  liquid_total = none;
  saved_by_goal_id = [];
  category_by_month = spending;
}

-- The same, and a costly running month.
abbrev later_spending : Spending
later_spending = (month_of 4, ("restaurants", pos 990000) ∷ []) ∷ spending

later_spending-IsAgreeing : IsAgreeing fewer_restaurants (month_of 4) spending later_spending
unfolding get eq_month
later_spending-IsAgreeing m not_early (inl e) = ground arith
later_spending-IsAgreeing m not_early (inr e) = ground arith

progress_of-agree_example :
    progress_of input fewer_restaurants
    ≡ progress_of (record input { category_by_month = later_spending }) fewer_restaurants
progress_of-agree_example =
    progress_of-agree input fewer_restaurants later_spending later_spending-IsAgreeing
