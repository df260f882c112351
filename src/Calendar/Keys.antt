-- ===== src/Calendar/Keys.antt =====
-- Months and days as keys of a `Map`.
use misgeret.Base.{◌≡◌, ◌↔◌, true, arith}
use misgeret.Base.Dict.{Eq}
use misgeret.Calendar.{Month, Day, eq_month, eq_day}

pub eq_month_iff : (a b : Month) → (eq_month a b ≡ true) ↔ (a ≡ b)
unfolding eq_month
eq_month_iff a b = ground arith

instance abbrev pub month_key : Eq Month
month_key = record { eqb = eq_month; eqb_iff = eq_month_iff }

pub eq_day_iff : (a b : Day) → (eq_day a b ≡ true) ↔ (a ≡ b)
unfolding eq_day
eq_day_iff a b = ground arith

instance abbrev pub day_key : Eq Day
day_key = record { eqb = eq_day; eqb_iff = eq_day_iff }
