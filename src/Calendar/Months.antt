-- ===== src/Calendar/Months.antt =====
-- `monthsBack` is subtraction on the number of the month, and its loops end.
use Prim.Native.Nat.{max}
use misgeret.Base.{
  ℕ, zero, suc, ◌+◌, ◌-◌, ◌*◌, ◌≤◌, ◌<◌, ◌≡◌, ◌↔◌, neg, true, false, arith, leb_ℤ, ltb_ℤ, ℤ, pos,
  pos_part, neg_part, nat_abs, ◌+ℤ◌, ◌-ℤ◌, ◌≤ℤ◌, int_laws, parts_disjoint, Bool-cases, ltb→lt, inl,
  inr,
}
use misgeret.Calendar.{Month, IsMonth, index, borrow_years, carry_years, months_back, ltb_month}

-- 12 * y + m as an integer, in two parts: what both loops keep.
abbrev Total : ℕ × ℤ → ℕ × ℤ → Type 0
Total a b = a.0 * 12 + pos_part a.1 + neg_part b.1 ≡ b.0 * 12 + pos_part b.1 + neg_part a.1

leb_ℤ→le : (a b : ℤ) → leb_ℤ a b ≡ true → a ≤ℤ b
leb_ℤ→le a b h = ground arith

not-leb_ℤ : (a b : ℤ) → leb_ℤ a b ≡ false → suc (pos_part b + neg_part a) ≤ pos_part a + neg_part b
not-leb_ℤ a b h = ground arith

borrow_years_lem :
    (fuel y : ℕ) (m : ℤ)
    → neg_part m < fuel * 12 + pos_part m
    → neg_part m < y * 12 + pos_part m
    → Total (borrow_years fuel y m) (y, m)
      × (pos 1 ≤ℤ (borrow_years fuel y m).1)
      × (pos_part (borrow_years fuel y m).1 ≤ max 12 (pos_part m))
unfolding borrow_years
borrow_years_lem zero y m f h = omega arith
borrow_years_lem (suc fuel) y m f h = elim (Bool-cases (leb_ℤ m (pos 0))) [
  | inl more ↦ rw more (
      omega (
        int_laws,
        leb_ℤ→le m (pos 0) more,
        parts_disjoint m,
        parts_disjoint (m +ℤ pos 12),
        borrow_years_lem fuel (y - 1) (m +ℤ pos 12) (omega (int_laws, leb_ℤ→le m (pos 0) more))
            (omega (int_laws, leb_ℤ→le m (pos 0) more)),
      ))
  | inr ends ↦ rw ends (omega (arith, not-leb_ℤ m (pos 0) ends))
]

carry_years_lem :
    (fuel y : ℕ) (m : ℤ)
    → pos_part m ≤ fuel * 12 + 12
    → pos 1 ≤ℤ m
    → Total (carry_years fuel y m) (y, m)
      × (pos 1 ≤ℤ (carry_years fuel y m).1)
      × (pos_part (carry_years fuel y m).1 ≤ 12)
unfolding carry_years
carry_years_lem zero y m f h = omega arith
carry_years_lem (suc fuel) y m f h = elim (Bool-cases (ltb_ℤ (pos 12) m)) [
  | inl more ↦ rw more (
      omega (
        int_laws,
        ltb→lt _ _ more,
        carry_years_lem fuel (y + 1) (m -ℤ pos 12)
            (omega (int_laws, parts_disjoint m, parts_disjoint (m -ℤ pos 12), ltb→lt _ _ more))
            (omega (int_laws, ltb→lt _ _ more)),
      ))
  | inr ends ↦ rw ends (ground arith)
]

-- For a month of the calendar and a walk that stays in the years from 0 on, both loops of
-- `monthsBack` end by their tests: the result is a month of the calendar, and its number is the
-- number of the given month less `n`. (A negative `n` walks forward.)
pub months_back_lem :
    (mo : Month) (n : ℤ)
    → IsMonth mo
    → pos_part n ≤ index mo + neg_part n
    → IsMonth (months_back mo n) × (index (months_back mo n) + pos_part n ≡ index mo + neg_part n)
unfolding months_back
months_back_lem mo n v h =
    let b =
      borrow_years_lem (nat_abs n + 1) mo.year (pos mo.month -ℤ n) (omega int_laws)
        (omega int_laws) in
    let c =
      carry_years_lem (nat_abs n + 1) (borrow_years (nat_abs n + 1) mo.year (pos mo.month -ℤ n)).0
        (borrow_years (nat_abs n + 1) mo.year (pos mo.month -ℤ n)).1
        (omega (int_laws, parts_disjoint n, parts_disjoint (pos mo.month -ℤ n), b))
        (omega (int_laws, b)) in
    omega (
      int_laws,
      b,
      c,
      parts_disjoint
          (carry_years (nat_abs n + 1) (borrow_years (nat_abs n + 1) mo.year (pos mo.month -ℤ n)).0
            (borrow_years (nat_abs n + 1) mo.year (pos mo.month -ℤ n)).1).1,
    )

-- Two months of the calendar with the same number are the same.
pub index-injective : (a b : Month) → IsMonth a → IsMonth b → index a ≡ index b → a ≡ b
index-injective a b v w e = ground arith

-- Text order is the order of the numbers.
pub ltb_month-index :
    (a b : Month) → IsMonth a → IsMonth b → (ltb_month a b ≡ true) ↔ (index a < index b)
unfolding ltb_month
ltb_month-index a b v w = (λ h. ground arith, λ h. ground arith)

-- Walking back and then forward by the same number of months is where it began, and two walks are
-- one walk by the sum, as long as the years do not fall below 0.
pub months_back-months_back :
    (mo : Month) (j k : ℕ)
    → IsMonth mo
    → j + k ≤ index mo
    → (months_back (months_back mo (pos j)) (pos k) ≡ months_back mo (pos (j + k)))
      × (months_back (months_back mo (pos j)) (neg (pos j)) ≡ mo)
months_back-months_back mo j k v h =
    let a = months_back_lem mo (pos j) v (omega arith) in
    let b = months_back_lem (months_back mo (pos j)) (pos k) a.0 (omega (arith, a)) in
    let c = months_back_lem mo (pos (j + k)) v (omega arith) in
    let d = months_back_lem (months_back mo (pos j)) (neg (pos j)) a.0 (omega (int_laws, a)) in
    (
      index-injective _ _ b.0 c.0 (omega (arith, a, b, c)),
      index-injective _ _ d.0 v (omega (int_laws, a, d)),
    )
