-- ===== src/Balance/Laws.antt =====
-- The reconstruction of the daily balances agrees with the transactions, day by day.
use mathlib.Core.List.{reverse, reverse-reverse}
use misgeret.Base.{
  ℕ, zero, suc, ◌+◌, ◌-◌, ◌≤◌, ◌<◌, ◌≡◌, refl, sym, ◌∙◌, ap, Bool, true, false, not, ◌&&◌, ◌||◌,
  Option, none, some, List, [], ◌∷◌, arith, if◌then◌else◌, ℤ, pos, ◌+ℤ◌, ◌-ℤ◌, sum_of, +ℤ-zero,
  zero-+ℤ, +ℤ_assoc, Bool-cases, inl, inr,
}
use misgeret.Base.Dict.{get, update, get-update, apply_or}
use misgeret.Calendar.{Day, ltb_day, leb_day, prev_day, eq_day, days_in_month}
use misgeret.Calendar.Keys.{day_key, eq_day_iff}
use misgeret.Calendar.Windows.{IsDate, prev_day-IsDate}
use misgeret.Txns.{TxnRow, is_completed}
use misgeret.Balance.{
  DayBalance, or_zero, day_number, in_range, note_amount, sum_by_day, walk_back,
  reconstruct_daily_balances,
}

leb_day_refl : (a : Day) → leb_day a a ≡ true
unfolding leb_day ltb_day
leb_day_refl a = ground arith

-- The sum of the completed transactions of one day.
abbrev pub day_total : (ℕ → Day) → Day → List TxnRow → ℤ
day_total local_date d =
    sum_of (λ r. if is_completed r.status && eq_day (local_date r.date) d then r.amount else pos 0)

-- The balances from a day back to `from`, newest first: the balance at the end of a day less the
-- transactions of that day is the balance at the end of the day before.
abbrev pub IsWalk : (ℕ → Day) → List TxnRow → Day → Day → ℤ → List DayBalance → Type 0
IsWalk local_date rows from day bal [] = leb_day from day ≡ false
IsWalk local_date rows from day bal (e ∷ es) =
    (leb_day from day ≡ true)
    × (e.date ≡ day)
    × (e.balance ≡ bal)
    × IsWalk local_date rows from (prev_day day) (bal -ℤ day_total local_date day rows) es

or_zero-apply_or : (a : ℤ) (o : Option ℤ) → apply_or (λ b. b +ℤ a) (pos 0) o ≡ or_zero o +ℤ a
unfolding apply_or or_zero
or_zero-apply_or a none = refl
or_zero-apply_or a (some b) = refl

-- What noting an amount on the day `x` does to the sum of the day `d`.
get-note_at :
    (c : Bool) (x d latest from : Day) (a : ℤ) (m : List (Day × ℤ))
    → leb_day from d ≡ true
    → leb_day d latest ≡ true
    → or_zero (
        get d (
          if c && not (ltb_day latest x || ltb_day x from)
          then update x (λ b. b +ℤ a) (pos 0) m
          else m))
      ≡ or_zero (get d m) +ℤ (if c && eq_day x d then a else pos 0)
unfolding or_zero leb_day
get-note_at false x d latest from a m h k = sym (+ℤ-zero _)
get-note_at true x d latest from a m h k = elim (Bool-cases (eq_day x d)) [
  | inl q ↦
      let g = get-update d x (λ b. b +ℤ a) (pos 0) m in
      let e = (eq_day_iff x d).0 q in ground (arith, g, e, or_zero-apply_or a (get x m))
  | inr q ↦
      let g = get-update d x (λ b. b +ℤ a) (pos 0) m in
      ground (arith, g, q, +ℤ-zero (or_zero (get d m)))
]

module _ (local_date : ℕ → Day) (latest from : Day) where
  get-note_amount :
      (d : Day) (r : TxnRow) (m : List (Day × ℤ))
      → leb_day from d ≡ true
      → leb_day d latest ≡ true
      → or_zero (get d (note_amount local_date latest from r m))
        ≡ or_zero (get d m)
          +ℤ (if is_completed r.status && eq_day (local_date r.date) d then r.amount else pos 0)
  unfolding note_amount in_range
  get-note_amount d r m h k =
      get-note_at (is_completed r.status) (local_date r.date) d latest from r.amount m h k

  get-sum_by_day :
      (d : Day) (m : List (Day × ℤ)) (rows : List TxnRow)
      → leb_day from d ≡ true
      → leb_day d latest ≡ true
      → or_zero (get d (sum_by_day local_date latest from m rows))
        ≡ or_zero (get d m) +ℤ day_total local_date d rows
  unfolding sum_by_day sum_of
  get-sum_by_day d m [] h k = sym (+ℤ-zero _)
  get-sum_by_day d m (r ∷ rows) h k =
      get-sum_by_day d (note_amount local_date latest from r m) rows h k
      ∙ ap (λ x. x +ℤ day_total local_date d rows) (get-note_amount d r m h k)
      ∙ +ℤ_assoc _ _ _

day_number-prev_day : (d : Day) → IsDate d → 2 ≤ d.year → day_number (prev_day d) < day_number d
unfolding day_number prev_day days_in_month
day_number-prev_day d v y = ground arith

days_in_month_bound : (y m : ℕ) → days_in_month y m ≤ 31
unfolding days_in_month
days_in_month_bound y m = ground arith

-- The bounds of the two days are all that the order of their numbers rests on.
day_number-bounded :
    (a b : Day)
    → a.day ≤ 31
    → 1 ≤ a.month
    → a.month ≤ 12
    → 1 ≤ b.month
    → 1 ≤ b.day
    → leb_day a b ≡ true
    → day_number a ≤ day_number b
unfolding day_number leb_day ltb_day
day_number-bounded a b p q r s t h = ground arith

day_number-leb_day :
    (a b : Day) → IsDate a → IsDate b → leb_day a b ≡ true → day_number a ≤ day_number b
day_number-leb_day a b v w h =
    let p = days_in_month_bound a.year a.month in
    day_number-bounded a b (omega (arith, v.1, p)) v.0.1 v.0.2 w.0.1 w.0.3 h

sum_of_day :
    (local_date : ℕ → Day) (rows : List TxnRow) (latest from day : Day)
    → leb_day from day ≡ true
    → leb_day day latest ≡ true
    → or_zero (get day (sum_by_day local_date latest from [] rows)) ≡ day_total local_date day rows
unfolding or_zero get
sum_of_day local_date rows latest from day q k =
    get-sum_by_day local_date latest from day [] rows q k ∙ zero-+ℤ _

year_bound : (from day : Day) → 2 ≤ from.year → leb_day from day ≡ true → 2 ≤ day.year
unfolding leb_day ltb_day
year_bound from day y q = ground arith

leb_day-before : (a b c : Day) → ltb_day a b ≡ true → leb_day b c ≡ true → leb_day a c ≡ true
unfolding leb_day ltb_day
leb_day-before a b c p q = ground arith

-- The days back from a day down to `from`, while the fuel reaches past `from`.
walk_back-IsWalk :
    (local_date : ℕ → Day) (rows : List TxnRow) (latest from : Day) (fuel : ℕ) (day : Day) (bal : ℤ)
    → IsDate from
    → 2 ≤ from.year
    → IsDate day
    → leb_day day latest ≡ true
    → day_number day < day_number from + fuel
    → IsWalk local_date rows from day bal
        (walk_back fuel from (sum_by_day local_date latest from [] rows) day bal)
unfolding walk_back
walk_back-IsWalk local_date rows latest from zero day bal v y w k b =
    elim (Bool-cases (leb_day from day)) [
      | inl q ↦ let n = day_number-leb_day from day v w q in ground (arith, n, b)
      | inr q ↦ q
    ]
walk_back-IsWalk local_date rows latest from (suc fuel) day bal v y w k b =
    elim (Bool-cases (leb_day from day)) [
      | inl q ↦
          let z = year_bound from day y q in
          let p = prev_day-IsDate day w z in
          let n = day_number-prev_day day w z in
          let rest =
            walk_back-IsWalk local_date rows latest from fuel (prev_day day)
              (bal -ℤ day_total local_date day rows) v y p.0
              (leb_day-before (prev_day day) day latest p.1 k) (omega (arith, n, b)) in
          rw (sum_of_day local_date rows latest from day q k, q) (q, refl, refl, rest)
      | inr q ↦ rw q q
    ]

-- From a latest day and a first day of the calendar, this one in the year 2 or later, the
-- reconstructed series read from its end is the walk back from the last known balance: its last day
-- is the latest one, with the known balance (it is empty if the first day is later); the days before
-- follow without a gap down to `from`, which is reached whatever their number; and the balance of
-- each is that of the next day less the sum of the completed transactions of the next day.
pub reconstruct_daily_balances-IsWalk :
    (local_date : ℕ → Day) (latest_balance : ℤ) (latest : Day) (rows : List TxnRow) (from : Day)
    → IsDate latest
    → IsDate from
    → 2 ≤ from.year
    → IsWalk local_date rows from latest latest_balance
        (reverse (reconstruct_daily_balances local_date latest_balance latest rows from))
unfolding reconstruct_daily_balances
reconstruct_daily_balances-IsWalk local_date latest_balance latest rows from w v y =
    rw
      (reverse-reverse (
        walk_back (day_number latest + 1 - day_number from) from
          (sum_by_day local_date latest from [] rows) latest latest_balance))
      (walk_back-IsWalk local_date rows latest from (day_number latest + 1 - day_number from) latest
        latest_balance v y w (leb_day_refl latest) (omega arith))
