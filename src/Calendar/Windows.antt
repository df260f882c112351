-- ===== src/Calendar/Windows.antt =====
-- The flow month of a day is the one whose window, from anchor to anchor, holds the day.
use misgeret.Base.{ℕ, ◌+◌, ◌≤◌, ◌≡◌, ◌↔◌, Bool, true, ◌&&◌, arith, ◌==◌, if◌then◌else◌, negsuc}
use misgeret.Calendar.{
  Month, Day, IsMonth, index, months_back, flow_month_of, nominal_start, ltb_day, leb_day, next_day,
  prev_day, days_in_month,
}
use misgeret.Calendar.Months.{months_back_lem, index-injective}

abbrev pub IsDay : Day → Type 0
IsDay d = (1 ≤ d.year) × (1 ≤ d.month) × (d.month ≤ 12) × (1 ≤ d.day)

-- The month after a month.
unfoldable pub next_month : Month → Month
next_month mo =
    if mo.month == 12
    then record { year = mo.year + 1; month = 1 }
    else record { year = mo.year; month = mo.month + 1 }

next_month_lem :
    (mo : Month) → IsMonth mo → IsMonth (next_month mo) × (index (next_month mo) ≡ index mo + 1)
unfolding next_month
next_month_lem mo v = ground arith

pub months_back-next_month : (mo : Month) → IsMonth mo → months_back mo (negsuc 0) ≡ next_month mo
months_back-next_month mo v =
    let a = months_back_lem mo (negsuc 0) v (omega arith) in
    let b = next_month_lem mo v in index-injective _ _ a.0 b.0 (omega (arith, a, b))

pub flow_month_of-IsMonth :
    (d : Day) (anchor_day : ℕ) → IsDay d → IsMonth (flow_month_of d anchor_day)
unfolding flow_month_of
flow_month_of-IsMonth d anchor_day v = ground arith

-- The day lies in the window that begins on the anchor day of the month and ends before the anchor
-- day of the next month.
abbrev pub InWindow : ℕ → Month → Day → Type 0
InWindow anchor_day mo d =
    (leb_day (nominal_start anchor_day mo) d ≡ true)
    × (ltb_day d (nominal_start anchor_day (months_back mo (negsuc 0))) ≡ true)

window_of_next :
    (anchor_day : ℕ) (mo : Month) (d : Day)
    → IsMonth mo
    → IsDay d
    → 1 ≤ anchor_day
    → ((leb_day (nominal_start anchor_day mo) d
          && ltb_day d (nominal_start anchor_day (next_month mo)))
        ≡ true)
      ↔ (mo ≡ flow_month_of d anchor_day)
unfolding flow_month_of leb_day ltb_day nominal_start next_month
window_of_next anchor_day mo d w v a = (λ h. ground arith, λ h. ground arith)

both : (a b : Bool) → ((a ≡ true) × (b ≡ true)) ↔ ((a && b) ≡ true)
both a b = ground arith

-- For an anchor day from 1 on, a month of the calendar is the flow month of a day exactly when the
-- day lies in its window: every day is in one flow month, and in one only.
pub flow_month_of_iff :
    (anchor_day : ℕ) (mo : Month) (d : Day)
    → IsMonth mo
    → IsDay d
    → 1 ≤ anchor_day
    → InWindow anchor_day mo d ↔ (mo ≡ flow_month_of d anchor_day)
flow_month_of_iff anchor_day mo d w v a = rw (months_back-next_month mo w) (
  (λ h. (window_of_next anchor_day mo d w v a).0 ((both _ _).0 h)),
  (λ e. (both _ _).1 ((window_of_next anchor_day mo d w v a).1 e)),
)

abbrev pub IsDate : Day → Type 0
IsDate d = IsDay d × (d.day ≤ days_in_month d.year d.month)

-- Stepping to the next day of the calendar and back is where it began, and the next day is a later
-- one.
pub prev_day-next_day :
    (d : Day) → IsDate d → (prev_day (next_day d) ≡ d) × (ltb_day d (next_day d) ≡ true)
unfolding prev_day next_day ltb_day days_in_month
prev_day-next_day d v = (ground arith, ground arith)

-- The day before a day of the calendar, in the year 2 or later, is a day of the calendar, and an
-- earlier one.
pub prev_day-IsDate :
    (d : Day) → IsDate d → 2 ≤ d.year → IsDate (prev_day d) × (ltb_day (prev_day d) d ≡ true)
unfolding prev_day ltb_day days_in_month
prev_day-IsDate d v y = (ground arith, ground arith)
