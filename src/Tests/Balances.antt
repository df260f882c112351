-- ===== src/Tests/Balances.antt =====
-- Concrete calendars, balances and holdings.
use mathlib.Core.List.{reverse}
use misgeret.Base.{◌≡◌, ◌↔◌, refl, List, [], ◌∷◌, ℕ, pos, negsuc, arith, map}
use misgeret.Calendar.{Day, months_back, ltb_day, leb_day, days_in_month, is_leap}
use misgeret.Txns.{Flagged, completed}
use misgeret.Tests.Txns.{day_of, row_of, flagged, january_rows}
use misgeret.Flow.{
  purchase, FlowSettings, FlowCalendar, build_flow_calendar, row_day, effective_date, or_date,
  is_charge, month_of_row,
}
use misgeret.Flow.Laws.{nominal_month, IsWaiting, month_of_row_iff}
use misgeret.Balance.{DayBalance, reconstruct_daily_balances}
use misgeret.Balance.Laws.{IsWalk, reconstruct_daily_balances-IsWalk}
use misgeret.NetWorth.{LayerKey, Cursor, close_before}
use misgeret.NetWorth.Layers.{layer_total, dates, build_layer_values, build_layer_values_lem}
use misgeret.NetWorth.Search.{latest_before, close_before_lem}

abbrev from_the_tenth : FlowSettings
from_the_tenth = record { lens = purchase; anchor_day = 10 }

abbrev flow : FlowCalendar
flow = build_flow_calendar day_of january_rows from_the_tenth

abbrev salary : Flagged
salary = flagged (row_of "salary" 1 (pos 900000) completed)

month_of_row_iff_example :
    ((month_of_row day_of flow salary ≡ months_back (nominal_month day_of flow salary) (negsuc 0))
      ↔ IsWaiting day_of flow salary)
    × (¬ IsWaiting day_of flow salary
        → month_of_row day_of flow salary ≡ nominal_month day_of flow salary)
unfolding row_day effective_date or_date is_charge build_flow_calendar days_in_month
month_of_row_iff_example =
    month_of_row_iff day_of flow salary
      ((omega arith, omega arith, omega arith, omega arith), omega arith) (omega arith)
      (omega arith) (omega arith)

abbrev at : ℕ → Day
at day = record { year = 2024; month = 1; day = day }

reconstruct_daily_balances-IsWalk_example :
    IsWalk day_of (map (λ (r : Flagged). r.row) january_rows) (at 1) (at 3) (pos 600000) (
      reverse (
        reconstruct_daily_balances day_of
          (pos 600000)
          (at 3)
          (map (λ (r : Flagged). r.row) january_rows)
          (at 1)))
unfolding days_in_month is_leap
reconstruct_daily_balances-IsWalk_example =
    reconstruct_daily_balances-IsWalk day_of (pos 600000) (at 3)
      (map (λ (r : Flagged). r.row) january_rows) (at 1) (omega arith) (omega arith) (omega arith)

abbrev history : List DayBalance
history =
    record { date = record { year = 2023; month = 11; day = 30 }; balance = pos 100 }
    ∷ record { date = record { year = 2023; month = 12; day = 31 }; balance = pos 250 }
    ∷ record { date = at 2; balance = pos 180 }
    ∷ []

close_before_lem_example : close_before history (at 1) ≡ latest_before (at 1) history
unfolding ltb_day
close_before_lem_example =
    close_before_lem history (at 1) ((refl, (refl, tt)), ((refl, tt), (tt, tt)))

abbrev timeline : Cursor
timeline = record {
  current = record { day = at 1; signed = pos 100 };
  later = record { day = at 2; signed = pos 250 } ∷ [];
}

-- A holding that is a loan, and one that was deleted.
abbrev layer_of : List (ℕ × LayerKey)
layer_of = (4, LayerKey.loan) ∷ []

abbrev per_holding : List (ℕ × Cursor)
per_holding = (4, timeline) ∷ (5, timeline) ∷ []

abbrev bank_series : List DayBalance
bank_series = record { date = at 2; balance = pos 180 } ∷ []

build_layer_values_lem_example :
    (build_layer_values
      (record { date = at 1; balance = pos 250 } ∷ bank_series)
      per_holding
      layer_of
      []).loan
    ≡ map
        (λ day. layer_total LayerKey.loan day layer_of per_holding)
        (dates (record { date = at 1; balance = pos 250 } ∷ bank_series))
unfolding leb_day ltb_day
build_layer_values_lem_example =
    build_layer_values_lem LayerKey.loan (record { date = at 1; balance = pos 250 }) bank_series
      per_holding layer_of []
      (build_layer_values (record { date = at 1; balance = pos 250 } ∷ bank_series) per_holding
        layer_of []).loan
      (refl, tt) refl
