-- ===== src/Txns/Summary.antt =====
-- The monthly views: totals per month, and their agreement with the breakdown by category.
use misgeret.Base.{
  ◌≡◌, refl, sym, ◌∙◌, ap, inl, inr, Bool, true, false, not, List, [], ◌∷◌, map, arith,
  if◌then◌else◌, ℤ, pos, neg, ◌+ℤ◌, ◌-ℤ◌, leb_ℤ, sum_of, sum_of-map, +ℤ-zero, zero-+ℤ, +ℤ_assoc,
  Bool-cases,
}
use misgeret.Base.Dict.{update, sum_of-update, Distinct, Distinct-update, has_key, string_eq}
use misgeret.Base.Sort.{sort_by, sum_of-sort_by, SortedBy, sort_by-SortedBy, Distinct-sort_by}
use misgeret.Calendar.{Month, eq_month, ltb_month}
use misgeret.Calendar.Keys.{month_key}
use misgeret.Txns.{
  Totals, no_totals, add_amount, Flagged, counts, note_totals, totals_by_month, later_first,
  summary_of, to_monthly_summary, MonthlySummary,
}

-- An amount that counts only under a test.
abbrev pub only_if : Bool → ℤ → ℤ
only_if b a = if b then a else pos 0

-- What a row that counts adds to the income and to the expenses of its month.
abbrev pub income_part : ℤ → ℤ
income_part a = only_if (leb_ℤ (pos 0) a) a

abbrev pub expense_part : ℤ → ℤ
expense_part a = only_if (not (leb_ℤ (pos 0) a)) (neg a)

income_of : Month → Month × Totals → ℤ
income_of m x = only_if (eq_month x.0 m) x.1.income

expenses_of : Month → Month × Totals → ℤ
expenses_of m x = only_if (eq_month x.0 m) x.1.expenses

module _ (b : Bool) (a : ℤ) where
  income-add_amount :
      (v : Totals)
      → only_if b (add_amount a v).income ≡ only_if b v.income +ℤ only_if b (income_part a)
  unfolding add_amount
  income-add_amount v = ground (arith, +ℤ-zero v.income, +ℤ-zero (pos 0))

  expenses-add_amount :
      (v : Totals)
      → only_if b (add_amount a v).expenses ≡ only_if b v.expenses +ℤ only_if b (expense_part a)
  unfolding add_amount
  expenses-add_amount v = ground (arith, +ℤ-zero v.expenses, +ℤ-zero (pos 0))

pub zero_first : (b : Bool) (a c : ℤ) → c ≡ only_if b (pos 0) +ℤ a → c ≡ a
zero_first true a c h = h ∙ zero-+ℤ a
zero_first false a c h = h ∙ zero-+ℤ a

module _ (m : Month) where
  income_of-note_totals :
      (r : Flagged) (ts : List (Month × Totals))
      → sum_of (income_of m) (note_totals r ts)
        ≡ sum_of (income_of m) ts
          +ℤ only_if (counts r) (only_if (eq_month r.month m) (income_part r.amount))
  unfolding note_totals income_of
  income_of-note_totals r ts = elim (Bool-cases (counts r)) [
    | inl c ↦ rw c (
        sum_of-update (income_of m) r.month (add_amount r.amount) no_totals _ ts
          (zero_first (eq_month r.month m) _ _
            (income-add_amount (eq_month r.month m) r.amount no_totals))
          (income-add_amount (eq_month r.month m) r.amount))
    | inr c ↦ rw c (sym (+ℤ-zero _))
  ]

  expenses_of-note_totals :
      (r : Flagged) (ts : List (Month × Totals))
      → sum_of (expenses_of m) (note_totals r ts)
        ≡ sum_of (expenses_of m) ts
          +ℤ only_if (counts r) (only_if (eq_month r.month m) (expense_part r.amount))
  unfolding note_totals expenses_of
  expenses_of-note_totals r ts = elim (Bool-cases (counts r)) [
    | inl c ↦ rw c (
        sum_of-update (expenses_of m) r.month (add_amount r.amount) no_totals _ ts
          (zero_first (eq_month r.month m) _ _
            (expenses-add_amount (eq_month r.month m) r.amount no_totals))
          (expenses-add_amount (eq_month r.month m) r.amount))
    | inr c ↦ rw c (sym (+ℤ-zero _))
  ]

  -- The income of the rows of the month, and their expenses.
  abbrev pub income_in : List Flagged → ℤ
  income_in = sum_of (λ r. only_if (counts r) (only_if (eq_month r.month m) (income_part r.amount)))

  abbrev pub expenses_in : List Flagged → ℤ
  expenses_in =
      sum_of (λ r. only_if (counts r) (only_if (eq_month r.month m) (expense_part r.amount)))

  income_of-totals :
      (ts : List (Month × Totals)) (rows : List Flagged)
      → sum_of (income_of m) (totals_by_month ts rows) ≡ sum_of (income_of m) ts +ℤ income_in rows
  unfolding totals_by_month sum_of
  income_of-totals ts [] = sym (+ℤ-zero _)
  income_of-totals ts (r ∷ rows) =
      income_of-totals (note_totals r ts) rows
      ∙ ap (λ x. x +ℤ income_in rows) (income_of-note_totals r ts)
      ∙ +ℤ_assoc _ _ _

  expenses_of-totals :
      (ts : List (Month × Totals)) (rows : List Flagged)
      → sum_of (expenses_of m) (totals_by_month ts rows)
        ≡ sum_of (expenses_of m) ts +ℤ expenses_in rows
  unfolding totals_by_month sum_of
  expenses_of-totals ts [] = sym (+ℤ-zero _)
  expenses_of-totals ts (r ∷ rows) =
      expenses_of-totals (note_totals r ts) rows
      ∙ ap (λ x. x +ℤ expenses_in rows) (expenses_of-note_totals r ts)
      ∙ +ℤ_assoc _ _ _

-- For every month, the income (and the expenses) that the monthly summary shows for it is the sum of
-- the amounts from zero on (the magnitudes of those below zero) of the rows of that month that are
-- completed and not excluded.
pub to_monthly_summary_totals :
    (m : Month) (rows : List Flagged)
    → (sum_of
          (λ (s : MonthlySummary). only_if (eq_month s.month m) s.income)
          (to_monthly_summary rows)
        ≡ income_in m rows)
      × (sum_of
            (λ (s : MonthlySummary). only_if (eq_month s.month m) s.expenses)
            (to_monthly_summary rows)
          ≡ expenses_in m rows)
unfolding to_monthly_summary summary_of sum_of income_of expenses_of
to_monthly_summary_totals m rows = (
  sum_of-map _ summary_of (sort_by later_first (totals_by_month [] rows))
      ∙ sum_of-sort_by (income_of m) later_first (totals_by_month [] rows)
      ∙ income_of-totals m [] rows
      ∙ zero-+ℤ _,
  sum_of-map _ summary_of (sort_by later_first (totals_by_month [] rows))
      ∙ sum_of-sort_by (expenses_of m) later_first (totals_by_month [] rows)
      ∙ expenses_of-totals m [] rows
      ∙ zero-+ℤ _,
)

Distinct-totals_by_month :
    (ts : List (Month × Totals)) (rows : List Flagged)
    → Distinct ts
    → Distinct (totals_by_month ts rows)
unfolding totals_by_month note_totals
Distinct-totals_by_month ts [] h = h
Distinct-totals_by_month ts (r ∷ rows) h = elim (Bool-cases (counts r)) [
  | inl c ↦ rw c (
      Distinct-totals_by_month (update r.month (add_amount r.amount) no_totals ts) rows
        (Distinct-update r.month (add_amount r.amount) no_totals ts h))
  | inr c ↦ rw c (Distinct-totals_by_month ts rows h)
]

later_first-total : (x y : Month × Totals) → later_first x y ≡ false → later_first y x ≡ true
unfolding later_first ltb_month
later_first-total x y h = ground arith

-- Newest first, no month twice, and what is left of the income after the expenses.
abbrev pub IsNewestFirst : List MonthlySummary → Type 0
IsNewestFirst [] = Unit
IsNewestFirst (s ∷ []) = s.net ≡ s.income -ℤ s.expenses
IsNewestFirst (s ∷ t ∷ rest) =
    (s.net ≡ s.income -ℤ s.expenses) × (ltb_month t.month s.month ≡ true) × IsNewestFirst (t ∷ rest)

map-IsNewestFirst :
    (ts : List (Month × Totals))
    → SortedBy later_first ts
    → Distinct ts
    → IsNewestFirst (map summary_of ts)
unfolding summary_of later_first ltb_month has_key eq_month
map-IsNewestFirst [] h d = tt
map-IsNewestFirst ((j, t) ∷ []) h d = refl
map-IsNewestFirst ((j, t) ∷ (i, u) ∷ ts) h d =
    (refl, ground arith, map-IsNewestFirst ((i, u) ∷ ts) h.1 d.1)

-- The monthly summary lists each month once, the newest first, with income less expenses as net.
pub to_monthly_summary-IsNewestFirst :
    (rows : List Flagged) → IsNewestFirst (to_monthly_summary rows)
unfolding to_monthly_summary
to_monthly_summary-IsNewestFirst rows =
    map-IsNewestFirst (sort_by later_first (totals_by_month [] rows))
      (sort_by-SortedBy later_first later_first-total (totals_by_month [] rows))
      (Distinct-sort_by later_first (totals_by_month [] rows) (Distinct-totals_by_month [] rows tt))
