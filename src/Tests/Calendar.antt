-- ===== src/Tests/Calendar.antt =====
-- Concrete days and months.
use misgeret.Base.{◌≡◌, ◌↔◌, ◌+◌, arith, pos}
use misgeret.Calendar.{
  Month, Day, IsMonth, index, months_back, flow_month_of, days_in_month, is_leap,
}
use misgeret.Calendar.Months.{months_back_lem}
use misgeret.Calendar.Windows.{IsDate, InWindow, flow_month_of_iff}

abbrev new_year : Month
new_year = record { year = 2024; month = 1 }

abbrev leap_day : Day
leap_day = record { year = 2024; month = 2; day = 29 }

leap_day-IsDate : IsDate leap_day
unfolding days_in_month is_leap
leap_day-IsDate = omega arith

months_back_lem_example :
    IsMonth (months_back new_year (pos 14))
    × (index (months_back new_year (pos 14)) + 14 ≡ index new_year + 0)
months_back_lem_example = months_back_lem new_year (pos 14) (omega arith) (omega arith)

flow_month_of_iff_example :
    InWindow 10 (record { year = 2024; month = 2 }) leap_day
    ↔ (record { year = 2024; month = 2 } ≡ flow_month_of leap_day 10)
flow_month_of_iff_example =
    flow_month_of_iff 10 (record { year = 2024; month = 2 }) leap_day (omega arith) (omega arith)
      (omega arith)
