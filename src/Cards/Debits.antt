-- ===== src/Cards/Debits.antt =====
-- The purchases behind the debits of the month, and the scheduled ones, of server/src/cards.ts.
use mathlib.Core.Bool.{false≢true}
use misgeret.Base.{
  ℕ, ◌≡◌, refl, true, false, Option, none, some, List, [], ◌∷◌, any, all, filter, Bool-cases, inl,
  inr, arith,
}
use misgeret.Calendar.{Month, Day, eq_day, ltb_day, leb_day}
use misgeret.Calendar.Keys.{eq_day_iff}
use misgeret.Txns.{Flagged}
use misgeret.Cards.{is_settlement_row, distinct_days, charged_on, is_behind, scheduled_on, line_of}

module _ (local_day : ℕ → Day) (today : Day) where
  distinct_days-until :
      (seen : List Day) (rows : List Flagged)
      → all (λ r. leb_day (local_day r.date) today) rows ≡ true
      → all (λ d. leb_day d today) (distinct_days local_day seen rows) ≡ true
  unfolding distinct_days all
  distinct_days-until seen [] h = refl
  distinct_days-until seen (r ∷ rows) h =
      ground
        (arith, distinct_days-until (local_day r.date ∷ seen) rows, distinct_days-until seen rows)

  charged_on-until :
      (days : List Day) (t : ℕ)
      → all (λ d. leb_day d today) days ≡ true
      → charged_on local_day days (some t) ≡ true
      → ltb_day today (local_day t) ≡ false
  unfolding charged_on any all leb_day
  charged_on-until [] t h c = absurd (false≢true c)
  charged_on-until (d ∷ days) t h c = elim (Bool-cases (eq_day (local_day t) d)) [
    | inl e ↦ rw ((eq_day_iff (local_day t) d).0 e) (ground arith)
    | inr e ↦ charged_on-until days t (ground arith) (ground arith)
  ]

  line_of-until :
      (days : List Day) (r : Flagged) (o : Option ℕ)
      → all (λ d. leb_day d today) days ≡ true
      → charged_on local_day days o ≡ true
      → line_of local_day today r o ≡ none
  unfolding line_of
  line_of-until days r none h c = refl
  line_of-until days r (some t) h c = rw (charged_on-until days t h c) (ground arith)

  -- Where the settlement rows of the month are dated today at the latest, a purchase that is shown as
  -- paid by them is in none of the debits that are shown as scheduled.
  pub is_behind-scheduled_on :
      (month : Month) (rows : List Flagged) (r : Flagged)
      → all
          (λ s. leb_day (local_day s.date) today)
          (filter (is_settlement_row local_day month) rows)
        ≡ true
      → is_behind local_day
          (distinct_days local_day [] (filter (is_settlement_row local_day month) rows))
          r
        ≡ true
      → scheduled_on local_day today r ≡ none
  unfolding is_behind scheduled_on
  is_behind-scheduled_on month rows r h b =
      line_of-until (distinct_days local_day [] (filter (is_settlement_row local_day month) rows)) r
        r.processed_date
        (distinct_days-until [] (filter (is_settlement_row local_day month) rows) h) (ground arith)
