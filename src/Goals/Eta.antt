-- ===== src/Goals/Eta.antt =====
-- The months that `goalProgress` (server/src/goals.ts) says are left to a goal.
use native.Mathlib.Omega.{div_any}
use native.Mathlib.Nat.{mod-lt, mul-suc}
use misgeret.Base.{
  ℕ, ◌+◌, ◌-◌, ◌*◌, ◌/◌, ◌%◌, zero, suc, ◌≢◌, subst, Bool-cases, inl, inr, ◌≤◌, ◌<◌, ◌≡◌, none,
  some, arith, true, false, pos, ltb_ℤ,
}
use misgeret.Goals.{eta_of, ceil_div}

less_one : (q : ℕ) → suc q - 1 ≡ q
less_one q = omega arith

least :
    (gap k q r : ℕ)
    → k * q + r ≡ gap + (k - 1)
    → r < k
    → 1 ≤ gap
    → (gap ≤ k * q) × (k * (q - 1) < gap)
least gap k zero r e l g = (omega arith, omega arith)
least gap k (suc q) r e l g = (omega arith, rw (less_one q) (omega (arith, mul-suc k q)))

ceil_div_lem :
    (gap k : ℕ) → 1 ≤ gap → 1 ≤ k → (gap ≤ k * ceil_div gap k) × (k * (ceil_div gap k - 1) < gap)
unfolding ceil_div
ceil_div_lem gap k g l =
    least gap k ((gap + (k - 1)) / k) ((gap + (k - 1)) % k) (div_any (gap + (k - 1)) k)
      (mod-lt (gap + (k - 1)) l) g

some_inj : (a b : ℕ) → some a ≡ some b → a ≡ b
some_inj a b e = cc

-- The number of months that a goal shows as left to a gap is the least number of positive monthly
-- amounts that fill the gap: that many do, and one less does not.
pub eta_of-IsLeast :
    (gap monthly n : ℕ)
    → 1 ≤ gap
    → eta_of (pos gap) (some (pos monthly)) ≡ some n
    → (1 ≤ monthly) × (gap ≤ monthly * n) × (monthly * (n - 1) < gap)
unfolding eta_of
eta_of-IsLeast gap monthly n g h = elim (Bool-cases (ltb_ℤ (pos 0) (pos monthly))) [
  | inl e ↦ shown (positive e) (some_inj (ceil_div gap monthly) n (found e))
  | inr e ↦ absurd (none≢some (hidden e))
]
  where
    positive : ltb_ℤ (pos 0) (pos monthly) ≡ true → 1 ≤ monthly
    positive e = ground arith

    found : ltb_ℤ (pos 0) (pos monthly) ≡ true → some (ceil_div gap monthly) ≡ some n
    found e = ground arith

    hidden : ltb_ℤ (pos 0) (pos monthly) ≡ false → none ≡ some n
    hidden e = ground arith

    none≢some : none ≢ some n
    none≢some z = cc

    shown :
        1 ≤ monthly
        → ceil_div gap monthly ≡ n
        → (1 ≤ monthly) × (gap ≤ monthly * n) × (monthly * (n - 1) < gap)
    shown l z =
        subst (λ i. (1 ≤ monthly) × (gap ≤ monthly * i) × (monthly * (i - 1) < gap)) z
          (l, (ceil_div_lem gap monthly g l).0, (ceil_div_lem gap monthly g l).1)
