-- ===== src/Recurring/Dates.antt =====
-- The dates of server/src/recurring.ts.
use misgeret.Base.{
  ℕ, zero, suc, ◌+◌, ◌-◌, ◌*◌, ◌/◌, ◌%◌, ◌≤◌, ◌<◌, ◌≡◌, refl, ap, arith, false, ltb, if◌then◌else◌,
  Bool-cases, inl, inr,
}
use misgeret.Calendar.{Day, is_leap, days_in_month, next_day}
use misgeret.Calendar.Windows.{IsDate}
use misgeret.Recurring.{years_before, days_before_month, day_number, min_of, add_months_clamped}

days_in_month_pos : (y m : ℕ) → 28 ≤ days_in_month y m
unfolding days_in_month
days_in_month_pos y m = ground arith

min_of_lem :
    (a b : ℕ)
    → (min_of a b ≤ a)
      × (min_of a b ≤ b)
      × (1 ≤ a → 1 ≤ b → 1 ≤ min_of a b)
      × (min_of a b < a → min_of a b ≡ b)
unfolding min_of
min_of_lem a b = ground arith

-- From a day of the calendar and a day of the month from 1 on, the projection is a day of the
-- calendar, so many months ahead, on the day of the month or on the last day of a shorter one.
pub add_months_clamped-IsDate :
    (date : Day) (months day : ℕ)
    → IsDate date
    → 1 ≤ day
    → IsDate (add_months_clamped date months day)
      × ((add_months_clamped date months day).year * 12 + (add_months_clamped date months day).month
          ≡ date.year * 12 + date.month + months)
      × ((add_months_clamped date months day).day
          ≡ min_of day (
              days_in_month
                (add_months_clamped date months day).year
                (add_months_clamped date months day).month))
unfolding add_months_clamped
add_months_clamped-IsDate date months day v h =
    let total : ℕ = date.year * 12 + (date.month - 1) + months in
    let d = days_in_month_pos (total / 12) (total % 12 + 1) in
    let c = min_of_lem day (days_in_month (total / 12) (total % 12 + 1)) in
    (((omega arith, omega arith, omega arith, c.2 h (omega (arith, d))), c.1), omega arith, refl)

days_before-next_year : (y : ℕ) → days_before_month y 12 + 31 ≡ 365 + (if is_leap y then 1 else 0)
unfolding days_before_month
days_before-next_year y = elim (Bool-cases (is_leap y)) [ inl e ↦ rw e | inr e ↦ rw e ]

years_before-suc :
    (y : ℕ) → years_before (y + 1) ≡ years_before y + 365 + (if is_leap y then 1 else 0)
unfolding years_before is_leap
years_before-suc y = ground arith

days_before-suc :
    (y m : ℕ) → 1 ≤ m → days_before_month y (m + 1) ≡ days_before_month y m + days_in_month y m
unfolding days_before_month
days_before-suc y zero h = absurd (omega arith)
days_before-suc y (suc m) h = let e : suc m + 1 ≡ suc (suc m) = omega arith in rw e

ltb-le : (a b : ℕ) → ltb a b ≡ false → b ≤ a
ltb-le a b h = ground arith

days_in_december : (y : ℕ) → days_in_month y 12 ≡ 31
unfolding days_in_month
days_in_december y = refl

-- The number of the next day of the calendar is the next number.
pub day_number-next_day : (d : Day) → IsDate d → day_number (next_day d) ≡ suc (day_number d)
unfolding day_number next_day
day_number-next_day d v = elim (Bool-cases (ltb d.day (days_in_month d.year d.month))) [
  | inl e ↦ rw e (omega arith)
  | inr e ↦ elim (Bool-cases (ltb d.month 12)) [
    | inl f ↦ rw e (
        rw f (
          omega (
            arith,
            days_before-suc d.year d.month (ground arith),
            ltb-le d.day (days_in_month d.year d.month) e,
          )))
    | inr f ↦
        let last : d.month ≡ 12 = ground arith in
        rw e (
          rw f (
            omega (
              arith,
              years_before-suc d.year,
              days_before-next_year d.year,
              ltb-le d.day (days_in_month d.year d.month) e,
              days_in_december d.year,
              ap (λ m. days_in_month d.year m) last,
              ap (λ m. days_before_month d.year m) last,
            )))
  ]
]
