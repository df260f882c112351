-- ===== src/Recurring.antt =====
-- Parts of server/src/recurring.ts: the calendar of the projections, the purchases that were refunded,
-- the choice of a cadence, installment plans, and what makes a stream active.
-- Amounts are whole agorot. A local day is one of the calendar in the years from 0 on. A row is told
-- apart from an equal one by its place in the list, as the code does by identity.
pub mod Dates
pub mod Streams
pub mod Groups
pub mod Detection
pub mod Sound
pub mod Bands
pub mod Refunds
use misgeret.Base.{
  ℕ, zero, suc, ◌+◌, ◌-◌, ◌*◌, ◌/◌, ◌%◌, ◌≤◌, Bool, true, false, not, ◌&&◌, ◌||◌, Option, none,
  some, List, [], ◌∷◌, ◌++◌, map, filter, any, find?, length, ltb, leb, ◌==◌, if◌then◌else◌, ℤ, pos,
  ltb_ℤ, eqb_ℤ, ◌+ℤ◌,
}
use misgeret.Base.Dict.{get, update}
use misgeret.Text.{Text, codes, text_key, eq_text}
use misgeret.Calendar.{Day, is_leap, days_in_month, next_day, leb_day, ltb_day}
use misgeret.Categories.Merchants.{normalize_pattern, merchant_key}
use misgeret.Companies.{is_card, is_bank}
use misgeret.Txns.{
  Flagged, ExcludeReason, settlement, transfer, future, partial, savings, manual, TxnType, normal,
  installments, is_completed,
}

pub data Cadence : Type 0 where
  weekly biweekly monthly bimonthly yearly : Cadence

pub record Band : Type 0 where
  pub id : Cadence
  pub least : ℕ
  pub most : ℕ
  pub months : ℕ

abbrev pub cadence_bands : List Band
cadence_bands =
    record { id = weekly; least = 6; most = 8; months = 0 }
    ∷ record { id = biweekly; least = 12; most = 16; months = 0 }
    ∷ record { id = monthly; least = 25; most = 35; months = 1 }
    ∷ record { id = bimonthly; least = 55; most = 65; months = 2 }
    ∷ record { id = yearly; least = 330; most = 400; months = 12 }
    ∷ []

unfoldable pub cadence_months : Cadence → ℕ
cadence_months weekly = 0
cadence_months biweekly = 0
cadence_months monthly = 1
cadence_months bimonthly = 2
cadence_months yearly = 12

-- The days of the year before a month, which counts from 1.
unfoldable pub days_before_month : ℕ → ℕ → ℕ
unfolding days_in_month
days_before_month y zero = 0
days_before_month y (suc zero) = 0
days_before_month y (suc (suc m)) = days_before_month y (suc m) + days_in_month y (suc m)

-- The days of the years before a year.
unfoldable pub years_before : ℕ → ℕ
years_before y = 365 * y + (y + 3) / 4 - (y + 99) / 100 + (y + 399) / 400

-- The days since the beginning of the year 0, which is what `getTime` counts in milliseconds.
unfoldable pub day_number : Day → ℕ
unfolding years_before days_before_month
day_number d = years_before d.year + days_before_month d.year d.month + d.day

-- Math.abs(daysBetween(a, b))
unfoldable pub days_apart : Day → Day → ℕ
unfolding day_number
days_apart a b = (day_number a - day_number b) + (day_number b - day_number a)

unfoldable pub add_days : Day → ℕ → Day
unfolding next_day
add_days d zero = d
add_days d (suc n) = add_days (next_day d) n

unfoldable pub min_of : ℕ → ℕ → ℕ
min_of a b = if ltb b a then b else a

unfoldable pub add_months_clamped : Day → ℕ → ℕ → Day
unfolding days_in_month min_of
add_months_clamped date months day =
    let total = date.year * 12 + (date.month - 1) + months in
    let ny = total / 12 in
    let nm = total % 12 + 1 in
    record { year = ny; month = nm; day = min_of day (days_in_month ny nm) }

pub record Placed : Type 0 where
  pub place : ℕ
  pub txn : Flagged

unfoldable pub same_reason : ExcludeReason → ExcludeReason → Bool
same_reason settlement settlement = true
same_reason transfer transfer = true
same_reason future future = true
same_reason partial partial = true
same_reason savings savings = true
same_reason manual manual = true
same_reason _ _ = false

unfoldable pub has_place : ℕ → List (Placed × Placed) → Bool
has_place place [] = false
has_place place ((credit, debit) ∷ pairs) =
    credit.place == place || debit.place == place || has_place place pairs

unfoldable pub merchant_of : Placed → Text
merchant_of r = normalize_pattern (codes r.txn.description)

-- The rows that the loop goes on with: completed card rows with an amount.
unfoldable pub is_card_row : Placed → Bool
is_card_row r =
    is_card r.txn.company && is_completed r.txn.status && not (eqb_ℤ r.txn.amount (pos 0))

unfoldable pub by_merchant : List (Text × List Placed) → List Placed → List (Text × List Placed)
unfolding merchant_of is_card_row
by_merchant groups [] = groups
by_merchant groups (r ∷ rows) =
    by_merchant
      (if is_card_row r then update (merchant_of r) (λ g. g ++ r ∷ []) [] groups else groups) rows

unfoldable pub is_credit : Placed → Bool
is_credit r = ltb_ℤ (pos 0) r.txn.amount

unfoldable pub is_debit : Placed → Bool
is_debit r = ltb_ℤ r.txn.amount (pos 0)

unfoldable pub note_pair : List (Placed × Placed) → Placed → Option Placed → List (Placed × Placed)
note_pair pairs credit none = pairs
note_pair pairs credit (some d) = (credit, d) ∷ pairs

module _ (local_day : ℕ → Day) where
  unfoldable pub reverses : List (Placed × Placed) → Placed → Placed → Bool
  unfolding has_place days_apart
  reverses pairs credit d =
      not (has_place d.place pairs)
      && eqb_ℤ (d.txn.amount +ℤ credit.txn.amount) (pos 0)
      && leb (days_apart (local_day d.txn.date) (local_day credit.txn.date)) 7

  unfoldable pub pair_credits :
      List Placed → List (Placed × Placed) → List Placed → List (Placed × Placed)
  unfolding reverses note_pair
  pair_credits debits pairs [] = pairs
  pair_credits debits pairs (credit ∷ credits) =
      pair_credits debits (note_pair pairs credit (find? (reverses pairs credit) debits)) credits

  unfoldable pub pair_groups :
      List (Placed × Placed) → List (Text × List Placed) → List (Placed × Placed)
  unfolding pair_credits is_credit is_debit
  pair_groups pairs [] = pairs
  pair_groups pairs ((m, g) ∷ groups) =
      pair_groups (pair_credits (filter is_debit g) pairs (filter is_credit g)) groups

  -- `refundPairRows`, as the pairs whose rows are in the set that the code returns.
  unfoldable pub refund_pairs : List Placed → List (Placed × Placed)
  unfolding pair_groups by_merchant
  refund_pairs rows = pair_groups [] (by_merchant [] rows)
