-- ===== src/Goals.antt =====
-- server/src/goals.ts: how far each goal of the household is.
-- Amounts are whole agorot; what a goal has now is rounded to shekels by `round0`. A ratio is a part
-- and its whole, the part between nothing and the whole. Texts are left out.
pub mod Judged
pub mod Eta
use misgeret.Base.{
  ℕ, ◌+◌, ◌-◌, ◌*◌, ◌/◌, Bool, true, false, not, ◌&&◌, Option, none, some, List, [], ◌∷◌, map,
  filter, length, leb, ◌==◌, if◌then◌else◌, String, ℤ, pos, negsuc, neg, ◌-ℤ◌, leb_ℤ, ltb_ℤ, max_ℤ,
  pos_part,
}
use misgeret.Base.Dict.{get, nat_eq, string_eq}
use misgeret.Base.Sort.{sort_by}
use misgeret.Calendar.{Month, leb_month, ltb_month}
use misgeret.Calendar.Keys.{month_key}
use misgeret.Expectation.{amount_at}

pub data GoalType : Type 0 where
  reduction buffer set_aside : GoalType

pub data GoalStatus : Type 0 where
  active achieved abandoned : GoalStatus

pub record PlanGoalRow : Type 0 where
  pub id : ℕ
  pub type : GoalType
  pub name : String
  pub advice_key : Option String
  pub status : GoalStatus
  pub created_at : String
  pub closed_at : Option String
  pub start_month : Month
  pub target_amount : Option ℤ
  pub monthly_amount : Option ℤ
  pub savings_goal_id : Option ℕ
  pub category : Option String
  pub category_ceiling : Option ℤ

pub record PlanGoalProgress : Type 0 where
  pub goal : PlanGoalRow
  pub current : ℤ
  pub target : Option ℤ
  pub ratio : Option (ℤ × ℤ)
  pub eta_months : Option ℕ
  pub months_judged : ℕ
  pub months_held : ℕ
  pub on_track : Option Bool

abbrev pub Spending : Type 0
Spending = List (Month × List (String × ℤ))

pub record GoalsInput : Type 0 where
  pub goals : List PlanGoalRow
  pub current_month : Month
  pub complete_months : List Month
  pub liquid_total : Option ℤ
  pub saved_by_goal_id : List (ℕ × ℤ)
  pub category_by_month : Spending

-- Math.round of shekels: to the nearest, and a half up.
unfoldable pub round0 : ℤ → ℤ
round0 (pos n) = pos ((n + 50) / 100)
round0 (negsuc n) = neg (pos ((n + 50) / 100))

unfoldable pub min_ℤ : ℤ → ℤ → ℤ
min_ℤ a b = if leb_ℤ a b then a else b

-- clamp01(part / whole), for a positive whole
unfoldable pub clamp01 : ℤ → ℤ → ℤ × ℤ
unfolding min_ℤ
clamp01 part whole = (max_ℤ (pos 0) (min_ℤ whole part), whole)

unfoldable pub is_judged : Month → Month → Month → Bool
unfolding leb_month
is_judged start_month current_month m = leb_month start_month m && ltb_month m current_month

unfoldable pub judged_of : GoalsInput → PlanGoalRow → List Month
unfolding filter is_judged sort_by leb_month
judged_of input goal =
    sort_by leb_month
      (filter (is_judged goal.start_month input.current_month) input.complete_months)

unfoldable pub base : PlanGoalRow → List Month → PlanGoalProgress
base goal judged = record {
  goal = goal;
  current = pos 0;
  target = goal.target_amount;
  ratio = none;
  eta_months = none;
  months_judged = length judged;
  months_held = 0;
  on_track = none;
}

-- Math.ceil(gap / monthly), of positive amounts
unfoldable pub ceil_div : ℕ → ℕ → ℕ
ceil_div gap monthly = (gap + (monthly - 1)) / monthly

-- goal.monthlyAmount && goal.monthlyAmount > 0
unfoldable pub eta_of : ℤ → Option ℤ → Option ℕ
unfolding ceil_div
eta_of gap none = none
eta_of gap (some monthly) =
    if ltb_ℤ (pos 0) monthly then some (ceil_div (pos_part gap) (pos_part monthly)) else none

-- What is left from the ratio on, where there is a target to fill.
unfoldable pub fill : ℤ → ℤ → PlanGoalProgress → PlanGoalProgress
unfolding clamp01 eta_of
fill have target out =
    let gap = max_ℤ (pos 0) (target -ℤ have) in
    let measured = record out { ratio = some (clamp01 have target) } in
    if leb_ℤ gap (pos 0)
    then record measured { on_track = some true }
    else record measured { eta_months = eta_of gap out.goal.monthly_amount }

-- target === null || target <= 0
unfoldable pub fill_if : ℤ → Option ℤ → PlanGoalProgress → PlanGoalProgress
unfolding fill
fill_if have none out = out
fill_if have (some target) out = if leb_ℤ target (pos 0) then out else fill have target out

unfoldable pub buffer_progress : PlanGoalRow → List Month → Option ℤ → PlanGoalProgress
unfolding base round0 fill_if
buffer_progress goal judged none = base goal judged
buffer_progress goal judged (some liquid) =
    fill_if liquid goal.target_amount (record (base goal judged) { current = round0 liquid })

unfoldable pub saved_in : Option ℤ → ℤ
saved_in none = pos 0
saved_in (some a) = a

unfoldable pub set_aside_progress : PlanGoalRow → List Month → List (ℕ × ℤ) → PlanGoalProgress
unfolding base round0 fill_if saved_in get
set_aside_progress goal judged saved = elim goal.savings_goal_id [
  | none ↦ record (base goal judged) { current = round0 (pos 0) }
  | some id ↦
      fill_if (saved_in (get id saved)) goal.target_amount
        (record (base goal judged) { current = round0 (saved_in (get id saved)) })
]

unfoldable pub or_nothing : Option (List (String × ℤ)) → List (String × ℤ)
or_nothing none = []
or_nothing (some m) = m

-- categoryByMonth[m]?.[category] ?? 0
unfoldable pub spent_in : Spending → String → Month → ℤ
unfolding get or_nothing amount_at
spent_in by_month category m = amount_at category (or_nothing (get m by_month))

unfoldable pub last_or_none : List ℤ → Option ℤ
last_or_none [] = none
last_or_none (a ∷ []) = some a
last_or_none (a ∷ b ∷ bs) = last_or_none (b ∷ bs)

unfoldable pub held_in : ℤ → List ℤ → ℕ
unfolding filter
held_in ceiling spends = length (filter (λ a. leb_ℤ a ceiling) spends)

-- The months against the ceiling; the latest one is what the goal has now.
unfoldable pub judge : ℤ → List ℤ → Option ℤ → PlanGoalProgress → PlanGoalProgress
unfolding held_in round0 clamp01
judge ceiling spends none out = record out { months_held = held_in ceiling spends }
judge ceiling spends (some latest) out = record out {
  months_held = held_in ceiling spends;
  current = round0 latest;
  ratio = some (clamp01 latest ceiling);
  on_track = some (leb (length spends) (held_in ceiling spends * 2));
}

unfoldable pub judge_if :
    Option String → Option ℤ → List Month → Spending → PlanGoalProgress → PlanGoalProgress
unfolding judge spent_in last_or_none
judge_if none ceiling judged by_month out = out
judge_if (some category) none judged by_month out = out
judge_if (some category) (some ceiling) judged by_month out =
    if leb_ℤ ceiling (pos 0)
    then out
    else let spends = map (spent_in by_month category) judged in
      judge ceiling spends (last_or_none spends) out

unfoldable pub reduction_progress : PlanGoalRow → List Month → Spending → PlanGoalProgress
unfolding base judge_if
reduction_progress goal judged by_month =
    judge_if goal.category goal.category_ceiling judged by_month
      (record (base goal judged) { target = goal.category_ceiling })

unfoldable pub progress_by : GoalType → GoalsInput → PlanGoalRow → PlanGoalProgress
unfolding judged_of reduction_progress buffer_progress set_aside_progress
progress_by reduction input goal =
    reduction_progress goal (judged_of input goal) input.category_by_month
progress_by buffer input goal = buffer_progress goal (judged_of input goal) input.liquid_total
progress_by set_aside input goal =
    set_aside_progress goal (judged_of input goal) input.saved_by_goal_id

unfoldable pub progress_of : GoalsInput → PlanGoalRow → PlanGoalProgress
unfolding progress_by
progress_of input goal = progress_by goal.type input goal

unfoldable pub goal_progress : GoalsInput → List PlanGoalProgress
unfolding progress_of
goal_progress input = map (progress_of input) input.goals
