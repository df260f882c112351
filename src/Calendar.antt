-- ===== src/Calendar.antt =====
-- Months and days of the civil calendar, as server/src/flow.ts and server/src/balance-history.ts
-- compute with them. The code keeps them as texts 'YYYY-MM' and 'YYYY-MM-DD' and compares the texts;
-- for years of four digits that is the order of the numbers, first by year, then by month, then by
-- day. `new Date` and `setUTCDate` are JavaScript's proleptic Gregorian calendar, modelled by the
-- step to the next and to the previous day.
pub mod Months
pub mod Windows
pub mod Keys
use misgeret.Base.{
  ℕ, zero, suc, ◌+◌, ◌-◌, ◌*◌, ◌%◌, ◌≤◌, ◌<◌, Bool, true, false, ◌&&◌, ◌||◌, not, ltb, leb, ◌==◌,
  if◌then◌else◌, ℤ, pos, negsuc, pos_part, nat_abs, leb_ℤ, ltb_ℤ, ◌+ℤ◌, ◌-ℤ◌,
}

pub record Month : Type 0 where
  pub year : ℕ
  pub month : ℕ

pub record Day : Type 0 where
  pub year : ℕ
  pub month : ℕ
  pub day : ℕ

unfoldable pub eq_month : Month → Month → Bool
eq_month a b = a.year == b.year && a.month == b.month

unfoldable pub eq_day : Day → Day → Bool
eq_day a b = a.year == b.year && a.month == b.month && a.day == b.day

unfoldable pub ltb_month : Month → Month → Bool
ltb_month a b = ltb a.year b.year || (a.year == b.year && ltb a.month b.month)

unfoldable pub leb_month : Month → Month → Bool
unfolding ltb_month
leb_month a b = not (ltb_month b a)

unfoldable pub ltb_day : Day → Day → Bool
ltb_day a b =
    ltb a.year b.year
    || (a.year == b.year && (ltb a.month b.month || (a.month == b.month && ltb a.day b.day)))

unfoldable pub leb_day : Day → Day → Bool
unfolding ltb_day
leb_day a b = not (ltb_day b a)

-- The flow month that a text 'YYYY-MM-DD' begins with: d.date.slice(0, 7)
unfoldable pub month_of_day : Day → Month
month_of_day d = record { year = d.year; month = d.month }

unfoldable pub is_leap : ℕ → Bool
is_leap y = (y % 4 == 0) && (not (y % 100 == 0) || (y % 400 == 0))

unfoldable pub days_in_month : ℕ → ℕ → ℕ
unfolding is_leap
days_in_month y m =
    if m == 2
    then (if is_leap y then 29 else 28)
    else if m == 4 || m == 6 || m == 9 || m == 11
    then 30
    else 31

unfoldable pub next_day : Day → Day
unfolding days_in_month
next_day d =
    if ltb d.day (days_in_month d.year d.month)
    then record d { day = d.day + 1 }
    else if ltb d.month 12
    then record { year = d.year; month = d.month + 1; day = 1 }
    else record { year = d.year + 1; month = 1; day = 1 }

unfoldable pub prev_day : Day → Day
unfolding days_in_month
prev_day d =
    if ltb 1 d.day
    then record d { day = d.day - 1 }
    else if ltb 1 d.month
    then record { year = d.year; month = d.month - 1; day = days_in_month d.year (d.month - 1) }
    else record { year = d.year - 1; month = 12; day = 31 }

-- addDaysIso(ymd, -n)
unfoldable pub days_back : Day → ℕ → Day
unfolding prev_day
days_back d zero = d
days_back d (suc n) = days_back (prev_day d) n

-- while (m <= 0) { m += 12; y -= 1; }
unfoldable pub borrow_years : ℕ → ℕ → ℤ → ℕ × ℤ
borrow_years zero y m = (y, m)
borrow_years (suc fuel) y m =
    let rest = borrow_years fuel (y - 1) (m +ℤ pos 12) in if leb_ℤ m (pos 0) then rest else (y, m)

-- while (m > 12) { m -= 12; y += 1; }
unfoldable pub carry_years : ℕ → ℕ → ℤ → ℕ × ℤ
carry_years zero y m = (y, m)
carry_years (suc fuel) y m =
    let rest = carry_years fuel (y + 1) (m -ℤ pos 12) in if ltb_ℤ (pos 12) m then rest else (y, m)

-- `monthsBack`. Each loop runs less often than there are months to walk, which is its fuel.
unfoldable pub months_back : Month → ℤ → Month
unfolding borrow_years carry_years
months_back mo n =
    let (y, m) = borrow_years (nat_abs n + 1) mo.year (pos mo.month -ℤ n) in
    let (y', m') = carry_years (nat_abs n + 1) y m in record { year = y'; month = pos_part m' }

-- `flowMonthOf`, from the local day on: for an ISO date that is `localDate(iso)`, and for a text
-- 'YYYY-MM-DD', which is midnight UTC, that day itself.
unfoldable pub flow_month_of : Day → ℕ → Month
flow_month_of d anchor_day =
    if ltb 1 anchor_day && ltb d.day anchor_day
    then (if d.month - 1 == 0
        then record { year = d.year - 1; month = 12 }
        else record { year = d.year; month = d.month - 1 })
    else record { year = d.year; month = d.month }

-- nominalStart
unfoldable pub nominal_start : ℕ → Month → Day
nominal_start anchor_day mo = record { year = mo.year; month = mo.month; day = anchor_day }

abbrev pub IsMonth : Month → Type 0
IsMonth mo = (1 ≤ mo.month) × (mo.month ≤ 12)

-- The number of months since January of the year 0.
abbrev pub index : Month → ℕ
index mo = mo.year * 12 + mo.month - 1
