-- ===== src/Txns/Breakdown.antt =====
-- The breakdown by category agrees with the monthly summary.
use misgeret.Base.{
  ◌≡◌, refl, sym, ◌∙◌, ap, inl, inr, Bool, true, false, not, ◌&&◌, List, [], ◌∷◌, arith, ℤ, pos,
  neg, ◌+ℤ◌, leb_ℤ, sum_of, sum_of-map, sum_of_congr, +ℤ-zero, zero-+ℤ, +ℤ_assoc, Bool-cases,
  String,
}
use misgeret.Base.Dict.{sum_of-update, string_eq}
use misgeret.Base.Sort.{sort_by, sum_of-sort_by}
use misgeret.Calendar.{Month, eq_month}
use misgeret.Calendar.Keys.{month_key}
use misgeret.Txns.Summary.{
  only_if, expense_part, expenses_in, zero_first, to_monthly_summary_totals,
}
use misgeret.Txns.{
  Flagged, counts, to_monthly_summary, MonthlySummary, bucket_of, is_spending, add_expense,
  note_expense, expenses_by_category, larger_first, to_category_breakdown,
}

category_sum : Month → Month × List (String × ℤ) → ℤ
category_sum m x = only_if (eq_month x.0 m) (sum_of (λ (c : String × ℤ). c.1) x.1)

sum_of-add_expense :
    (r : Flagged) (cs : List (String × ℤ))
    → sum_of (λ (c : String × ℤ). c.1) (add_expense r cs)
      ≡ sum_of (λ (c : String × ℤ). c.1) cs +ℤ neg r.amount
unfolding add_expense
sum_of-add_expense r cs =
    sum_of-update (λ c. c.1) (bucket_of r.category) _ (pos 0) (neg r.amount) cs (zero-+ℤ _)
      (λ v. refl)

only_if-+ℤ : (b : Bool) (x a y : ℤ) → y ≡ x +ℤ a → only_if b y ≡ only_if b x +ℤ only_if b a
only_if-+ℤ true x a y h = h
only_if-+ℤ false x a y h = sym (+ℤ-zero (pos 0))

spending_same :
    (c n b : Bool) (a : ℤ)
    → (c && not n) ≡ true
    → only_if b a ≡ only_if c (only_if b (only_if (not n) a))
spending_same c n b a h = ground arith

spending_none :
    (c n b : Bool) (a : ℤ)
    → (c && not n) ≡ false
    → pos 0 ≡ only_if c (only_if b (only_if (not n) a))
spending_none c n b a h = ground arith

module _ (m : Month) where
  category_sum-note_expense :
      (r : Flagged) (cs : List (Month × List (String × ℤ)))
      → sum_of (category_sum m) (note_expense r cs)
        ≡ sum_of (category_sum m) cs
          +ℤ only_if (counts r) (only_if (eq_month r.month m) (expense_part r.amount))
  unfolding note_expense category_sum is_spending sum_of
  category_sum-note_expense r cs = elim (Bool-cases (counts r && not (leb_ℤ (pos 0) r.amount))) [
    | inl c ↦ rw c (
        sum_of-update (category_sum m) r.month (add_expense r) [] _ cs
          (zero_first (eq_month r.month m) _ _
            (only_if-+ℤ (eq_month r.month m) (pos 0) (neg r.amount) _ (sum_of-add_expense r [])))
          (λ v. only_if-+ℤ (eq_month r.month m) _ (neg r.amount) _ (sum_of-add_expense r v))
        ∙ ap (◌+ℤ◌ (sum_of (category_sum m) cs)) (
            spending_same (counts r) (leb_ℤ (pos 0) r.amount) (eq_month r.month m) (neg r.amount)
              c))
    | inr c ↦ rw c (
        sym (+ℤ-zero _)
        ∙ ap (◌+ℤ◌ (sum_of (category_sum m) cs)) (
            spending_none (counts r) (leb_ℤ (pos 0) r.amount) (eq_month r.month m) (neg r.amount)
              c))
  ]

  category_sum-expenses :
      (cs : List (Month × List (String × ℤ))) (rows : List Flagged)
      → sum_of (category_sum m) (expenses_by_category cs rows)
        ≡ sum_of (category_sum m) cs +ℤ expenses_in m rows
  unfolding expenses_by_category sum_of
  category_sum-expenses cs [] = sym (+ℤ-zero _)
  category_sum-expenses cs (r ∷ rows) =
      category_sum-expenses (note_expense r cs) rows
      ∙ ap (λ x. x +ℤ expenses_in m rows) (category_sum-note_expense r cs)
      ∙ +ℤ_assoc _ _ _

sorted_sum :
    (m : Month) (x : Month × List (String × ℤ))
    → category_sum m (x.0, sort_by larger_first x.1) ≡ category_sum m x
unfolding category_sum
sorted_sum m x = ap (only_if (eq_month x.0 m)) (sum_of-sort_by (λ c. c.1) larger_first x.1)

-- For every month, the categories of the breakdown add up to the expenses of the monthly summary.
pub breakdown-summary :
    (m : Month) (rows : List Flagged)
    → sum_of
        (λ (x : Month × List (String × ℤ)). only_if (eq_month x.0 m) (sum_of (λ c. c.1) x.1))
        (to_category_breakdown rows)
      ≡ sum_of
          (λ (s : MonthlySummary). only_if (eq_month s.month m) s.expenses)
          (to_monthly_summary rows)
unfolding to_category_breakdown category_sum sum_of
breakdown-summary m rows =
    sum_of-map (category_sum m) _ (expenses_by_category [] rows)
    ∙ sum_of_congr _ _ (expenses_by_category [] rows) (sorted_sum m)
    ∙ category_sum-expenses m [] rows
    ∙ zero-+ℤ _
    ∙ sym (to_monthly_summary_totals m rows).1
