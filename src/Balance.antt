-- ===== src/Balance.antt =====
-- server/src/balance-history.ts: the daily balances, reconstructed backwards from the last known one,
-- and their statistics. The slope of the monthly minima, a quotient of sums, is left out.
pub mod Laws
use misgeret.Base.{
  ℕ, zero, suc, ◌+◌, ◌-◌, ◌*◌, Bool, true, false, not, ◌&&◌, ◌||◌, Option, none, some, List, [],
  ◌∷◌, ◌++◌, map, if◌then◌else◌, ℤ, pos, ◌+ℤ◌, ◌-ℤ◌, ltb_ℤ, filter, length,
}
use mathlib.Core.List.{reverse}
use misgeret.Base.Dict.{get, update}
use misgeret.Base.Sort.{sort_by}
use misgeret.Calendar.{Month, Day, ltb_day, leb_day, prev_day, month_of_day, leb_month}
use misgeret.Calendar.Keys.{day_key, month_key}
use misgeret.Txns.{TxnRow, is_completed}

pub record DayBalance : Type 0 where
  pub date : Day
  pub balance : ℤ

unfoldable pub or_zero : Option ℤ → ℤ
or_zero none = pos 0
or_zero (some a) = a

-- A number that falls from day to day, going back: no month has more than 31 days.
unfoldable pub day_number : Day → ℕ
day_number d = d.year * 372 + d.month * 31 + d.day

-- `local_date` is the day in Israel of an instant.
module _ (local_date : ℕ → Day) (latest from : Day) where
  unfoldable pub in_range : TxnRow → Bool
  in_range r =
      is_completed r.status
      && not (ltb_day latest (local_date r.date) || ltb_day (local_date r.date) from)

  unfoldable pub note_amount : TxnRow → List (Day × ℤ) → List (Day × ℤ)
  unfolding in_range
  note_amount r m =
      if in_range r then update (local_date r.date) (λ a. a +ℤ r.amount) (pos 0) m else m

  unfoldable pub sum_by_day : List (Day × ℤ) → List TxnRow → List (Day × ℤ)
  sum_by_day m [] = m
  sum_by_day m (r ∷ rows) = sum_by_day (note_amount r m) rows

-- while (day >= fromDate) { series.push(...); bal -= ...; day = prevDay(day); }
unfoldable pub walk_back : ℕ → Day → List (Day × ℤ) → Day → ℤ → List DayBalance
walk_back zero from sums day bal = []
walk_back (suc fuel) from sums day bal =
    let rest = walk_back fuel from sums (prev_day day) (bal -ℤ or_zero (get day sums)) in
    if leb_day from day then record { date = day; balance = bal } ∷ rest else []

-- The days from `from` to `latest` are no more than the fuel.
unfoldable pub reconstruct_daily_balances :
    (ℕ → Day) → ℤ → Day → List TxnRow → Day → List DayBalance
unfolding walk_back day_number
reconstruct_daily_balances local_date latest_balance latest rows from = reverse (
    walk_back (day_number latest + 1 - day_number from) from
      (sum_by_day local_date latest from [] rows) latest latest_balance)

-- byMonth
unfoldable pub group_by_month : List (Month × List ℤ) → List DayBalance → List (Month × List ℤ)
group_by_month m [] = m
group_by_month m (d ∷ ds) =
    group_by_month (update (month_of_day d.date) (λ bs. bs ++ d.balance ∷ []) [] m) ds

unfoldable pub min_of : ℤ → List ℤ → ℤ
min_of a [] = a
min_of a (b ∷ bs) = min_of (if ltb_ℤ b a then b else a) bs

unfoldable pub min_or_zero : List ℤ → ℤ
unfolding min_of
min_or_zero [] = pos 0
min_or_zero (a ∷ bs) = min_of a bs

unfoldable pub earlier_first : Month × List ℤ → Month × List ℤ → Bool
unfolding leb_month
earlier_first a b = leb_month a.0 b.0

unfoldable pub months_of : List DayBalance → List (Month × List ℤ)
months_of series = sort_by earlier_first (group_by_month [] series)

unfoldable pub min_by_month : List DayBalance → List (Month × ℤ)
unfolding min_or_zero
min_by_month series = map (λ x. (x.0, min_or_zero x.1)) (months_of series)

unfoldable pub days_below_zero_by_month : List DayBalance → List (Month × ℕ)
days_below_zero_by_month series =
    map (λ x. (x.0, length (filter (λ b. ltb_ℤ b (pos 0)) x.1))) (months_of series)
