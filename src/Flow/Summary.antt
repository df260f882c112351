-- ===== src/Flow/Summary.antt =====
-- From the lens to the monthly views: no month beyond the current one is shown.
use misgeret.Base.{ℕ, ◌≡◌, false, ◌&&◌, List, [], ◌∷◌, map, All, Bool-cases, inl, inr, arith}
use misgeret.Base.Dict.{update}
use misgeret.Base.Sort.{sort_by, All-sort_by}
use misgeret.Calendar.{Month, Day, eq_month, ltb_month}
use misgeret.Calendar.Keys.{month_key}
use misgeret.Txns.{
  Flagged, MonthlySummary, Totals, no_totals, add_amount, counts, note_totals, totals_by_month,
  later_first, summary_of, to_monthly_summary,
}
use misgeret.Flow.{FlowSettings, FlowCalendar, month_of, apply_lens}
use misgeret.Flow.Laws.{apply_lens-counts}

module _ (current : Month) where
  -- The entry is not of a month after the current one.
  abbrev IsReached : Month × Totals → Type 0
  IsReached x = ltb_month current x.0 ≡ false

  IsReached-update :
      (m : Month) (f : Totals → Totals) (d : Totals) (ts : List (Month × Totals))
      → ltb_month current m ≡ false
      → All IsReached ts
      → All IsReached (update m f d ts)
  unfolding update
  IsReached-update m f d [] h k = (h, tt)
  IsReached-update m f d ((j, t) ∷ ts) h k = elim (Bool-cases (eq_month j m)) [
    | inl e ↦ rw e k
    | inr e ↦ rw e (k.0, IsReached-update m f d ts h k.1)
  ]

  IsReached-totals :
      (ts : List (Month × Totals)) (rows : List Flagged)
      → All (λ (r : Flagged). (counts r && ltb_month current r.month) ≡ false) rows
      → All IsReached ts
      → All IsReached (totals_by_month ts rows)
  unfolding totals_by_month note_totals
  IsReached-totals ts [] h k = k
  IsReached-totals ts (r ∷ rows) h k = elim (Bool-cases (counts r)) [
    | inr e ↦ rw e (IsReached-totals ts rows h.1 k)
    | inl e ↦ rw e (
        IsReached-totals (update r.month (add_amount r.amount) no_totals ts) rows h.1
          (IsReached-update r.month (add_amount r.amount) no_totals ts (ground arith) k))
  ]

  reached_summaries :
      (ts : List (Month × Totals))
      → All IsReached ts
      → All (λ (s : MonthlySummary). ltb_month current s.month ≡ false) (map summary_of ts)
  unfolding summary_of
  reached_summaries [] h = tt
  reached_summaries ((m, t) ∷ ts) h = (h.0, reached_summaries ts h.1)

-- The monthly summary of rows that went through the lens shows no month after the current flow month.
pub to_monthly_summary-apply_lens :
    (local_date : ℕ → Day) (c : FlowCalendar)
    → (s : FlowSettings) (today : ℕ) (rows : List Flagged)
    → All
        (λ (m : MonthlySummary). ltb_month (month_of local_date c today) m.month ≡ false)
        (to_monthly_summary (apply_lens local_date rows s today c))
unfolding to_monthly_summary
to_monthly_summary-apply_lens local_date c s today rows =
    let current = month_of local_date c today in
    let moved = apply_lens local_date rows s today c in
    reached_summaries current (sort_by later_first (totals_by_month [] moved)) (
      All-sort_by (IsReached current) later_first (totals_by_month [] moved)
        (IsReached-totals current [] moved (apply_lens-counts local_date c s today rows) tt))
