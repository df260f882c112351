-- ===== src/NetWorth/Search.antt =====
-- The binary search of `closeBefore` finds the last balance before a day.
use mathlib.Core.Bool.{false≢true}
use misgeret.Base.{
  sym, leb, leb→le, All, ℕ, zero, suc, ◌+◌, ◌-◌, ◌/◌, ◌≤◌, ◌<◌, ◌≡◌, refl, ◌∙◌, Bool, true, false,
  Option, none, some, List, [], ◌∷◌, arith, ltb, if◌then◌else◌, ℤ, Bool-cases, inl, inr, length,
  ltb→lt,
}
use misgeret.Calendar.{Day, ltb_day}
use misgeret.Balance.{DayBalance}
use misgeret.NetWorth.{last_index, is_before, balance_at, close_before}

-- `r` is the last index between `lo` and `hi` for which the test holds.
abbrev IsLast : (ℕ → Bool) → ℕ → ℕ → ℕ → Type 0
IsLast p lo hi r = (p r ≡ true) × (r ≤ hi) × ((j : ℕ) → r < j → j ≤ hi → p j ≡ false)

not_lt : (a b : ℕ) → ltb a b ≡ false → b ≤ a
not_lt a b h = ground arith

stays_false :
    (p : ℕ → Bool)
    → ((i j : ℕ) → i ≤ j → p j ≡ true → p i ≡ true)
    → (m j : ℕ) → p m ≡ false
    → m ≤ j
    → p j ≡ false
stays_false p down m j h le = elim (Bool-cases (p j)) [
  | inl e ↦ absurd (false≢true (sym h ∙ down m j le e))
  | inr e ↦ e
]

not_leb : (a b : ℕ) → leb a b ≡ false → b < a
not_leb a b h = ground arith

-- For a test that holds at `lo` and holds below wherever it holds, the search ends by its own
-- condition within the fuel and returns the last index at which the test holds.
last_index_lem :
    (fuel : ℕ) (p : ℕ → Bool) (lo hi : ℕ)
    → ((i j : ℕ) → i ≤ j → p j ≡ true → p i ≡ true)
    → hi < lo + fuel
    → lo ≤ hi
    → p lo ≡ true
    → IsLast p lo hi (last_index fuel p lo hi)
unfolding last_index
last_index_lem zero p lo hi down f le h = absurd (omega arith)
last_index_lem (suc fuel) p lo hi down f le h = elim (Bool-cases (ltb lo hi)) [
  | inr ends ↦ rw ends (h, le, λ j above within. absurd (omega (arith, not_lt lo hi ends)))
  | inl more ↦ elim (Bool-cases (p ((lo + hi + 1) / 2))) [
    | inl up ↦
        rw (more, up)
          (last_index_lem fuel p ((lo + hi + 1) / 2) hi down (omega (arith, ltb→lt lo hi more))
            (omega (arith, ltb→lt lo hi more)) up)
    | inr down_here ↦
        let (holds, within, last) =
          last_index_lem fuel p lo ((lo + hi + 1) / 2 - 1) down (omega (arith, ltb→lt lo hi more))
            (omega (arith, ltb→lt lo hi more)) h in
        rw (more, down_here)
          (
            holds,
            omega (arith, ltb→lt lo hi more),
            λ j above below. elim (Bool-cases (leb j ((lo + hi + 1) / 2 - 1))) [
              | inl low ↦ last j above (leb→le _ _ low)
              | inr high ↦
                  stays_false p down ((lo + hi + 1) / 2) j down_here
                    (omega (arith, not_leb _ _ high))
            ],
          )
  ]
]

-- Every entry is dated before all that follow.
abbrev pub IsChronological : List DayBalance → Type 0
IsChronological [] = Unit
IsChronological (d ∷ ds) =
    All (λ (e : DayBalance). ltb_day d.date e.date ≡ true) ds × IsChronological ds

ltb_day_trans : (a b c : Day) → ltb_day a b ≡ true → ltb_day b c ≡ true → ltb_day a c ≡ true
unfolding ltb_day
ltb_day_trans a b c h k = ground arith

is_before_head :
    (d : DayBalance) (ds : List DayBalance) (day : Day) (j : ℕ)
    → All (λ (e : DayBalance). ltb_day d.date e.date ≡ true) ds
    → is_before ds day j ≡ true
    → ltb_day d.date day ≡ true
unfolding is_before
is_before_head d [] day j h p = cc
is_before_head d (e ∷ ds) day zero h p = ltb_day_trans d.date e.date day h.0 p
is_before_head d (e ∷ ds) day (suc j) h p = is_before_head d ds day j h.1 p

is_before_down :
    (ds : List DayBalance) (day : Day)
    → IsChronological ds
    → (i j : ℕ) → i ≤ j
    → is_before ds day j ≡ true
    → is_before ds day i ≡ true
unfolding is_before
is_before_down [] day c i j le h = cc
is_before_down (d ∷ ds) day c zero zero le h = h
is_before_down (d ∷ ds) day c zero (suc j) le h = is_before_head d ds day j c.0 h
is_before_down (d ∷ ds) day c (suc i) zero le h = absurd (omega arith)
is_before_down (d ∷ ds) day c (suc i) (suc j) le h = is_before_down ds day c.1 i j (omega arith) h

-- The balance of the last entry that is dated before the day, by looking at every entry.
unfoldable pub latest_before : Day → List DayBalance → Option ℤ
latest_before day [] = none
latest_before day (d ∷ ds) = elim (latest_before day ds) [
  | some b ↦ some b
  | none ↦ if ltb_day d.date day then some d.balance else none
]

is_before_beyond :
    (ds : List DayBalance) (day : Day) (j : ℕ) → length ds ≤ j → is_before ds day j ≡ false
unfolding is_before
is_before_beyond [] day j h = refl
is_before_beyond (d ∷ ds) day zero h = absurd (omega arith)
is_before_beyond (d ∷ ds) day (suc j) h = is_before_beyond ds day j (omega arith)

latest_before-none :
    (ds : List DayBalance) (day : Day)
    → ((j : ℕ) → is_before ds day j ≡ false)
    → latest_before day ds ≡ none
unfolding latest_before is_before
latest_before-none [] day h = refl
latest_before-none (d ∷ ds) day h = rw (latest_before-none ds day (λ j. h (suc j)), h zero)

latest_before_at :
    (ds : List DayBalance) (day : Day) (r : ℕ)
    → is_before ds day r ≡ true
    → ((j : ℕ) → r < j → is_before ds day j ≡ false)
    → latest_before day ds ≡ balance_at ds r
unfolding latest_before is_before balance_at
latest_before_at [] day r p h = cc
latest_before_at (d ∷ ds) day zero p h =
    rw (latest_before-none ds day (λ j. h (suc j) (omega arith)), p)
latest_before_at (d ∷ ds) day (suc r) p h =
    let ih = latest_before_at ds day r p (λ j lt. h (suc j) (omega arith)) in ground (arith, ih)

after_last :
    (ds : List DayBalance) (day : Day) (r j : ℕ)
    → ((j : ℕ) → r < j → j ≤ length ds - 1 → is_before ds day j ≡ false)
    → r < j
    → is_before ds day j ≡ false
after_last ds day r j last above = elim (Bool-cases (leb (length ds) j)) [
  | inl beyond ↦ is_before_beyond ds day j (leb→le _ _ beyond)
  | inr inside ↦ last j above (omega (arith, not_leb _ _ inside))
]

-- Over a history in the order of its dates, the binary search of `closeBefore` returns the balance of
-- the last entry that is dated before the day, and null exactly if there is none.
pub close_before_lem :
    (history : List DayBalance) (day : Day)
    → IsChronological history
    → close_before history day ≡ latest_before day history
unfolding close_before
close_before_lem history day c = elim (Bool-cases (is_before history day 0)) [
  | inr e ↦ rw e (
      sym (
        latest_before-none history day
          (λ j. stays_false _ (is_before_down history day c) 0 j e (omega arith))))
  | inl e ↦ rw e (found history day c e)
]
  where
    found :
        (history : List DayBalance) (day : Day)
        → IsChronological history
        → is_before history day 0 ≡ true
        → balance_at history
            (last_index (length history) (is_before history day) 0 (length history - 1))
          ≡ latest_before day history
    found [] day c e = absurd (false≢true (sym (is_before_beyond [] day 0 (omega arith)) ∙ e))
    found (d ∷ ds) day c e =
        let (holds, within, last) =
          last_index_lem (length (d ∷ ds)) (is_before (d ∷ ds) day) 0 (length (d ∷ ds) - 1)
            (is_before_down (d ∷ ds) day c) (omega arith) (omega arith) e in
        sym (
          latest_before_at (d ∷ ds) day _ holds (λ j above. after_last (d ∷ ds) day _ j last above))
