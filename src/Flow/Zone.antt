-- ===== src/Flow/Zone.antt =====
-- The waiting zone of server/src/flow.ts as the days that stepping back from an anchor reaches.
use mathlib.Core.Bool.{false≢true}
use misgeret.Base.{
  ℕ, zero, suc, ◌+◌, ◌-◌, ◌<◌, ◌≤◌, ◌≡◌, ◌↔◌, ◌⊎◌, refl, ap, inl, inr, sym, subst, ◌∙◌, Bool-cases,
  ltb, true, false, arith,
}
use misgeret.Calendar.{Day, eq_day, ltb_day, leb_day, prev_day, days_back, days_in_month}
use misgeret.Calendar.Keys.{eq_day_iff}
use misgeret.Calendar.Windows.{IsDate, prev_day-IsDate}

-- The day is one of the `n` days before the day `a`.
abbrev pub IsShortlyBefore : ℕ → Day → Day → Type 0
IsShortlyBefore n a d = (m : ℕ) × (1 ≤ m) × (m ≤ n) × (days_back a m ≡ d)

year-prev_day : (d : Day) → d.year ≤ (prev_day d).year + 1
unfolding prev_day
year-prev_day d = ground arith

leb_day_trans : (a b c : Day) → leb_day a b ≡ true → ltb_day b c ≡ true → leb_day a c ≡ true
unfolding leb_day ltb_day
leb_day_trans a b c h k = ground arith

clash : (a d : Day) → ltb_day d a ≡ true → leb_day a d ≡ true → ⊥
unfolding leb_day
clash a d h k = ground arith

leb_day_refl : (a : Day) → leb_day a a ≡ true
unfolding leb_day ltb_day
leb_day_refl a = ground arith

days_in_month-le : (y m : ℕ) → days_in_month y m ≤ 31
unfolding days_in_month
days_in_month-le y m = ground arith

-- What lies before a day and not before the day before it is that day.
adjacent_in :
    (y m i : ℕ) (d : Day)
    → 1 < i
    → ltb_day d (record { year = y; month = m; day = i }) ≡ true
    → ltb_day d (record { year = y; month = m; day = i - 1 }) ≡ false
    → eq_day (record { year = y; month = m; day = i - 1 }) d ≡ true
unfolding ltb_day eq_day
adjacent_in y m i d b h k = ground arith

adjacent_month :
    (y m n : ℕ) (d : Day)
    → d.day ≤ days_in_month d.year d.month
    → 1 ≤ d.day
    → days_in_month y m ≡ n
    → ltb_day d (record { year = y; month = m + 1; day = 1 }) ≡ true
    → ltb_day d (record { year = y; month = m; day = n }) ≡ false
    → eq_day (record { year = y; month = m; day = n }) d ≡ true
unfolding ltb_day eq_day
adjacent_month y m n d v w e h k =
    let place : (d.year ≡ y) × (d.month ≡ m) × (n ≤ d.day) = ground arith in
    let size : days_in_month d.year d.month ≡ n = rw (place.0, place.1) e in
    ground (arith, place, size)

adjacent_year :
    (y : ℕ) (d : Day)
    → IsDate d
    → ltb_day d (record { year = y + 1; month = 1; day = 1 }) ≡ true
    → ltb_day d (record { year = y; month = 12; day = 31 }) ≡ false
    → eq_day (record { year = y; month = 12; day = 31 }) d ≡ true
unfolding ltb_day eq_day
adjacent_year y d v h k = ground (arith, days_in_month-le d.year d.month)

abbrev in_month : Day → Day
in_month a = record { year = a.year; month = a.month; day = a.day - 1 }

abbrev month_before : Day → Day
month_before a = record {
  year = a.year;
  month = a.month - 1;
  day = days_in_month a.year (a.month - 1);
}

abbrev year_before : Day → Day
year_before a = record { year = a.year - 1; month = 12; day = 31 }

prev_day-in : (a : Day) → ltb 1 a.day ≡ true → prev_day a ≡ in_month a
unfolding prev_day
prev_day-in a e = rw e refl

prev_day-month :
    (a : Day) → ltb 1 a.day ≡ false → ltb 1 a.month ≡ true → prev_day a ≡ month_before a
unfolding prev_day
prev_day-month a e f = rw (e, f) refl

prev_day-year : (a : Day) → ltb 1 a.day ≡ false → ltb 1 a.month ≡ false → prev_day a ≡ year_before a
unfolding prev_day
prev_day-year a e f = rw (e, f) refl

first_of :
    (a : Day) (m y : ℕ)
    → 1 ≤ a.day
    → ltb 1 a.day ≡ false
    → a.month ≡ m
    → a.year ≡ y
    → a ≡ record { year = y; month = m; day = 1 }
unfolding eq_day
first_of a m y v e f g = (eq_day_iff a (record { year = y; month = m; day = 1 })).0 (ground arith)

-- What lies before a day and not before the day before it is the day before it.
adjacent :
    (a d : Day)
    → IsDate a
    → IsDate d
    → 2 ≤ a.year
    → ltb_day d a ≡ true
    → ltb_day d (prev_day a) ≡ false
    → prev_day a ≡ d
adjacent a d v w y h k =
    (eq_day_iff (prev_day a) d).0 (by_place (Bool-cases (ltb 1 a.day)) (Bool-cases (ltb 1 a.month)))
  where
    by_eq :
        (b : Day)
        → prev_day a ≡ b
        → (ltb_day d b ≡ false → eq_day b d ≡ true)
        → eq_day (prev_day a) d ≡ true
    by_eq b p f = subst (λ z. eq_day z d ≡ true) (sym p) (f (subst (λ z. ltb_day d z ≡ false) p k))

    by_place :
        (ltb 1 a.day ≡ true) ⊎ (ltb 1 a.day ≡ false)
        → (ltb 1 a.month ≡ true) ⊎ (ltb 1 a.month ≡ false)
        → eq_day (prev_day a) d ≡ true
    by_place (inl e) f =
        by_eq (in_month a) (prev_day-in a e) (adjacent_in a.year a.month a.day d (ground arith) h)
    by_place (inr e) (inl f) =
        let start = first_of a (a.month - 1 + 1) a.year v.0.3 e (ground arith) refl in
        by_eq (month_before a) (prev_day-month a e f) (
          adjacent_month a.year (a.month - 1) _ d w.1 w.0.3 refl
            (subst (λ z. ltb_day d z ≡ true) start h))
    by_place (inr e) (inr f) =
        let start = first_of a 1 (a.year - 1 + 1) v.0.3 e (ground arith) (ground arith) in
        by_eq (year_before a) (prev_day-year a e f)
          (adjacent_year (a.year - 1) d w (subst (λ z. ltb_day d z ≡ true) start h))

irreflexive : (d : Day) → ltb_day d d ≡ false
unfolding ltb_day
irreflexive d = ground arith

year-ltb_day : (d a : Day) → ltb_day d a ≡ true → d.year ≤ a.year
unfolding ltb_day
year-ltb_day d a h = ground arith

days_back-le : (n : ℕ) (b : Day) → IsDate b → n + 2 ≤ b.year → leb_day (days_back b n) b ≡ true
unfolding days_back
days_back-le zero b v y = leb_day_refl b
days_back-le (suc n) b v y =
    let before = prev_day-IsDate b v (omega arith) in
    leb_day_trans (days_back (prev_day b) n) (prev_day b) b
      (days_back-le n (prev_day b) before.0 (omega (arith, year-prev_day b))) before.1

-- A day before `a` is one of the `n` days before it exactly if it is not before the day which lies
-- `n` days back.
pub days_back_iff :
    (n : ℕ) (a d : Day)
    → IsDate a
    → IsDate d
    → n + 2 ≤ d.year
    → ltb_day d a ≡ true
    → (leb_day (days_back a n) d ≡ true) ↔ IsShortlyBefore n a d
unfolding days_back
days_back_iff zero a d v w y h = (λ e. absurd (clash a d h e), λ (m, i, j, e). absurd (omega arith))
days_back_iff (suc n) a d v w y h =
    let before = prev_day-IsDate a v (omega (arith, year-ltb_day d a h)) in
    elim (Bool-cases (ltb_day d (prev_day a))) [
      | inl e ↦
          let rest = days_back_iff n (prev_day a) d before.0 w (omega arith) e in
          (
            λ f. let (m, i, j, g) = rest.0 f in (suc m, omega arith, omega arith, g),
            λ (m, i, j, g). rest.1 (earlier m i j g e),
          )
      | inr e ↦
          let same = adjacent a d v w (omega (arith, year-ltb_day d a h)) h e in
          (
            λ _. (1, omega arith, omega arith, same),
            λ _.
                subst (λ b. leb_day (days_back (prev_day a) n) b ≡ true) same
                  (days_back-le n (prev_day a) before.0
                    (omega (arith, ap (λ (z : Day). z.year) same))),
          )
    ]
  where
    earlier :
        (m : ℕ)
        → 1 ≤ m
        → m ≤ suc n
        → days_back a m ≡ d
        → ltb_day d (prev_day a) ≡ true
        → IsShortlyBefore n (prev_day a) d
    earlier zero i j g e = absurd (omega arith)
    earlier (suc zero) i j g e =
        let same : prev_day a ≡ d = g in
        absurd (false≢true (sym (irreflexive d) ∙ subst (λ z. ltb_day d z ≡ true) same e))
    earlier (suc (suc m)) i j g e = (suc m, omega arith, omega arith, g)
