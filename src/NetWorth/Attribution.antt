-- ===== src/NetWorth/Attribution.antt =====
-- What the attribution of the changes in the net worth adds up to.
use mathlib.Core.Option
use misgeret.Base.{
  length, ◌==◌, All-reverse, ℕ, zero, suc, ◌+◌, ◌≤◌, ◌≡◌, refl, ◌∙◌, ap, false, Option, none, some,
  List, [], ◌∷◌, arith, ℤ, pos, negsuc, ◌+ℤ◌, ◌-ℤ◌, int_laws, All, Option-cases, inl, inr,
  Bool-cases,
}
use misgeret.Calendar.{Month, Day, IsMonth, index, eq_month, months_back}
use misgeret.Calendar.Months.{months_back_lem, index-injective}
use misgeret.Calendar.Keys.{eq_month_iff}
use misgeret.Txns.{MonthlySummary}
use misgeret.Balance.{DayBalance}
use misgeret.NetWorth.{
  AttributionMonth, close_before, revaluation_of, close_of, attribution_month, attribution_from,
  attribution_step, compute_attribution,
}

module _ (history : List DayBalance) (summaries : List MonthlySummary) (start_of : Month → Day)
    (current : Month) where
  abbrev months : ℕ → ℕ → List AttributionMonth
  months = attribution_from history summaries start_of current

  -- In the order of the loop, newest first: each month closes where the one after it opened.
  abbrev pub IsContinuous : List AttributionMonth → Type 0
  IsContinuous [] = Unit
  IsContinuous (a ∷ []) = Unit
  IsContinuous (a ∷ b ∷ rest) = (b.close ≡ some a.opening) × IsContinuous (b ∷ rest)

  not_current :
      IsMonth current
      → (back : ℕ) → back + 1 ≤ index current
      → eq_month (months_back current (pos (back + 1))) current ≡ false
  not_current v back h =
      elim (Bool-cases (eq_month (months_back current (pos (back + 1))) current)) [
        | inr e ↦ e
        | inl e ↦
            let a = months_back_lem current (pos (back + 1)) v (omega arith) in
            absurd (omega (arith, a, ap index ((eq_month_iff _ _).0 e)))
      ]

  month_after :
      IsMonth current
      → (back : ℕ) → back + 1 ≤ index current
      → months_back (months_back current (pos (back + 1))) (negsuc 0)
        ≡ months_back current (pos back)
  month_after v back h =
      let a = months_back_lem current (pos (back + 1)) v (omega arith) in
      let b = months_back_lem (months_back current (pos (back + 1))) (negsuc 0) a.0 (omega arith) in
      let c = months_back_lem current (pos back) v (omega arith) in
      index-injective _ _ b.0 c.0 (omega (arith, a, b, c))

  close_of_back :
      IsMonth current
      → (back : ℕ) → back + 1 ≤ index current
      → close_of history summaries start_of current (months_back current (pos (back + 1)))
        ≡ close_before history (start_of (months_back current (pos back)))
  unfolding close_of
  close_of_back v back h = rw (not_current v back h, month_after v back h)

  abbrev step : Option ℤ → Month → List AttributionMonth → List AttributionMonth
  step = attribution_step history summaries start_of current

  -- The loop from a month whose opening balance is known, with the rounds that are left after it.
  IsContinuous-after :
      IsMonth current
      → (rounds back : ℕ) (opening : ℤ) → rounds + back + 1 ≤ index current
      → close_before history (start_of (months_back current (pos back))) ≡ some opening
      → IsContinuous (
          attribution_month history summaries start_of current
            (months_back current (pos back))
            opening
          ∷ months rounds (back + 1))
  unfolding attribution_from attribution_month attribution_step
  IsContinuous-after v zero back opening h e = tt
  IsContinuous-after v (suc rounds) back opening h e =
      after_step (IsContinuous-after v rounds (back + 1))
        (close_before history (start_of (months_back current (pos (back + 1))))) refl
    where
      after_step :
          ((next : ℤ)
            → rounds + (back + 1) + 1 ≤ index current
            → close_before history (start_of (months_back current (pos (back + 1)))) ≡ some next
            → IsContinuous (
                attribution_month history summaries start_of current
                  (months_back current (pos (back + 1)))
                  next
                ∷ months rounds (back + 1 + 1)))
          → (o : Option ℤ)
          → close_before history (start_of (months_back current (pos (back + 1)))) ≡ o
          → IsContinuous (
              attribution_month history summaries start_of current
                (months_back current (pos back))
                opening
              ∷ step o (months_back current (pos (back + 1))) (months rounds (back + 1 + 1)))
      after_step ih none n = tt
      after_step ih (some next) n =
          (close_of_back v back (omega arith) ∙ e, ih next (omega arith) n)

  -- Going back from the running month, each month of the attribution closes with the balance with
  -- which the month after it opens, as long as the walk stays in the years from 0 on.
  pub attribution_from-IsContinuous :
      IsMonth current
      → (max_months : ℕ) → max_months ≤ index current
      → IsContinuous (attribution_from history summaries start_of current max_months 0)
  unfolding attribution_from attribution_step
  attribution_from-IsContinuous v zero h = tt
  attribution_from-IsContinuous v (suc rounds) h =
      elim (Option-cases (close_before history (start_of (months_back current (pos 0))))) [
        | inl n ↦ rw n tt
        | inr (opening, n) ↦ rw n (IsContinuous-after v rounds 0 opening (omega arith) n)
      ]

  -- Where a month closes with a known balance, that balance is the opening one, and what was earned
  -- less what was spent, and the revaluation; where it does not, there is no revaluation.
  abbrev pub IsExplained : AttributionMonth → Type 0
  IsExplained a =
      a.close ≡ Option.map (λ r. a.opening +ℤ (a.income -ℤ a.expenses) +ℤ r) a.revaluation

  explained :
      (close : Option ℤ) (opening income expenses : ℤ)
      → close
        ≡ Option.map
            (λ r. opening +ℤ (income -ℤ expenses) +ℤ r)
            (revaluation_of close opening income expenses)
  unfolding revaluation_of
  explained none opening income expenses = refl
  explained (some close) opening income expenses = ap some (omega int_laws)

  attribution_from-IsExplained : (rounds back : ℕ) → All IsExplained (months rounds back)
  unfolding attribution_from attribution_month attribution_step
  attribution_from-IsExplained zero back = tt
  attribution_from-IsExplained (suc rounds) back =
      elim (Option-cases (close_before history (start_of (months_back current (pos back))))) [
        | inl n ↦ rw n tt
        | inr (opening, n) ↦
            rw n (explained _ _ _ _, attribution_from-IsExplained rounds (back + 1))
      ]

  -- Every month of the attribution is explained by its flows and its revaluation.
  pub compute_attribution-IsExplained :
      (max_months : ℕ)
      → All IsExplained (compute_attribution history summaries start_of current max_months)
  unfolding compute_attribution
  compute_attribution-IsExplained max_months = elim (Bool-cases (length history == 0)) [
    | inl e ↦ rw e tt
    | inr e ↦
        rw e (
          All-reverse IsExplained (months max_months 0) (attribution_from-IsExplained max_months 0))
  ]
