-- ===== src/Goals/Judged.antt =====
-- The months by which `goalProgress` (server/src/goals.ts) measures a goal.
use misgeret.Base.{
  ◌≡◌, ◌<◌, ◌⊎◌, inl, inr, refl, ap, ◌∙◌, Bool, true, Option, none, some, List, [], ◌∷◌, map,
  filter, all, arith, String, ℤ,
}
use misgeret.Base.Dict.{get}
use misgeret.Base.Sort.{all-sort_by}
use misgeret.Calendar.{Month, leb_month, ltb_month}
use misgeret.Calendar.Keys.{month_key}
use misgeret.Expectation.{amount_at}
use misgeret.Goals.{
  PlanGoalRow, PlanGoalProgress, Spending, GoalsInput, GoalType, reduction, buffer, set_aside,
  is_judged, judged_of, spent_in, or_nothing, judge_if, reduction_progress, progress_of,
  progress_by,
}

all-filter_itself {ℓ} : {A : Type ℓ} (p : A → Bool) (xs : List A) → all p (filter p xs) ≡ true
unfolding all filter
all-filter_itself p [] = refl
all-filter_itself p (x ∷ xs) = ground (arith, all-filter_itself p xs)

map-agree {ℓ κ} :
    {A : Type ℓ} {B : Type κ} (p : A → Bool) (f g : A → B) (xs : List A)
    → all p xs ≡ true
    → ((x : A) → p x ≡ true → f x ≡ g x)
    → map f xs ≡ map g xs
unfolding all
map-agree p f g [] h k = refl
map-agree p f g (x ∷ xs) h k = rw (k x (ground arith), map-agree p f g xs (ground arith) k) refl

judged_of-is_judged :
    (input : GoalsInput) (goal : PlanGoalRow)
    → all (is_judged goal.start_month input.current_month) (judged_of input goal) ≡ true
unfolding judged_of
judged_of-is_judged input goal =
    all-sort_by (is_judged goal.start_month input.current_month) leb_month
      (filter (is_judged goal.start_month input.current_month) input.complete_months)
    ∙ all-filter_itself (is_judged goal.start_month input.current_month) input.complete_months

-- A month is before another one: in an earlier year, or earlier in the same year.
abbrev pub IsEarlier : Month → Month → Type 0
IsEarlier a b = (a.year < b.year) ⊎ ((a.year ≡ b.year) × (a.month < b.month))

-- Two histories that agree on the months which a goal may judge: not before its first, and before
-- the running one.
abbrev pub IsAgreeing : PlanGoalRow → Month → Spending → Spending → Type 0
IsAgreeing goal current_month a b =
    (m : Month) → ¬ IsEarlier m goal.start_month → IsEarlier m current_month → get m a ≡ get m b

is_judged-not-IsEarlier :
    (start_month current_month m : Month)
    → is_judged start_month current_month m ≡ true
    → ¬ IsEarlier m start_month
unfolding is_judged leb_month ltb_month
is_judged-not-IsEarlier start_month current_month m j (inl e) = ground arith
is_judged-not-IsEarlier start_month current_month m j (inr e) = ground arith

is_judged-IsEarlier :
    (start_month current_month m : Month)
    → is_judged start_month current_month m ≡ true
    → IsEarlier m current_month
unfolding is_judged leb_month ltb_month
is_judged-IsEarlier start_month current_month m j = ground arith

reduction-agree :
    (goal : PlanGoalRow) (judged : List Month) (current_month : Month) (a b : Spending)
    → all (is_judged goal.start_month current_month) judged ≡ true
    → IsAgreeing goal current_month a b
    → (category : Option String) → (ceiling : Option ℤ) → (out : PlanGoalProgress)
    → judge_if category ceiling judged a out ≡ judge_if category ceiling judged b out
unfolding judge_if spent_in
reduction-agree goal judged current_month a b h k none ceiling out = refl
reduction-agree goal judged current_month a b h k (some category) none out = refl
reduction-agree goal judged current_month a b h k (some category) (some ceiling) out =
    rw
      (map-agree (is_judged goal.start_month current_month) (spent_in a category)
        (spent_in b category) judged h
        (λ m t.
          ap (λ o. amount_at category (or_nothing o))
            (k m (is_judged-not-IsEarlier goal.start_month current_month m t)
              (is_judged-IsEarlier goal.start_month current_month m t))))
      refl

progress-agree :
    (type : GoalType) (input : GoalsInput) (goal : PlanGoalRow) (other : Spending)
    → IsAgreeing goal input.current_month input.category_by_month other
    → progress_by type input goal
      ≡ progress_by type (record input { category_by_month = other }) goal
unfolding progress_by judged_of reduction_progress
progress-agree reduction input goal other k =
    reduction-agree goal (judged_of input goal) input.current_month input.category_by_month other
      (judged_of-is_judged input goal) k goal.category goal.category_ceiling _
progress-agree buffer input goal other k = refl
progress-agree set_aside input goal other k = refl

-- What is spent in months before the goal began, in the running month and in later ones does not
-- change what the goal shows: two histories that agree on the months between give the same progress.
pub progress_of-agree :
    (input : GoalsInput) (goal : PlanGoalRow) (other : Spending)
    → IsAgreeing goal input.current_month input.category_by_month other
    → progress_of input goal ≡ progress_of (record input { category_by_month = other }) goal
unfolding progress_of
progress_of-agree input goal other k = progress-agree goal.type input goal other k
