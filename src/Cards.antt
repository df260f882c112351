-- ===== src/Cards.antt =====
-- server/src/cards.ts: what the card companies took in a flow month, and what they have already
-- scheduled to take next.
-- Amounts are whole agorot, on which `round` is the identity. The key of a bucket, a text of day and
-- company, is the pair of them. The Hebrew names of the companies are left out.
pub mod Scheduled
pub mod Debits
use misgeret.Base.{
  ◌≡◌, ◌↔◌, eq_iff, arith, ℕ, ◌+◌, Bool, true, false, not, ◌&&◌, ◌||◌, Option, none, some, List, [],
  ◌∷◌, map, take, filter, any, length, String, str_eq, if◌then◌else◌, ℤ, pos, neg, ◌+ℤ◌, leb_ℤ,
  ltb_ℤ, sum_of,
}
use misgeret.Base.Dict.{Eq, get, update, has_key, string_eq}
use misgeret.Base.Sort.{sort_by}
use misgeret.Calendar.{Month, Day, eq_month, eq_day, ltb_day, leb_day}
use misgeret.Calendar.Keys.{month_key, eq_day_iff}
use misgeret.Txns.{Flagged, TxnRow, Status, ExcludeReason, settlement, is_completed}
use misgeret.Companies.{is_card}

pub record CardChargeSlice : Type 0 where
  pub month : Month
  pub amount : ℤ

pub record UpcomingCardCharge : Type 0 where
  pub day : Day
  pub company : String
  pub amount : ℤ
  pub count : ℕ
  pub counted_in : List CardChargeSlice

pub record Settled : Type 0 where
  pub amount : ℤ
  pub count : ℕ
  pub days : List Day
  pub counted_in : List CardChargeSlice

pub record CardOutlook : Type 0 where
  pub settled : Settled
  pub upcoming : List UpcomingCardCharge
  pub upcoming_total : ℤ

pub record Bucket : Type 0 where
  pub net : ℤ
  pub count : ℕ
  pub counted : List (Month × ℤ)

abbrev pub max_upcoming : ℕ
max_upcoming = 3

-- One shekel.
abbrev pub min_charge : ℤ
min_charge = pos 100

unfoldable pub is_large : ℤ → Bool
is_large a = leb_ℤ min_charge a

unfoldable pub larger_share : CardChargeSlice → CardChargeSlice → Bool
larger_share x y = leb_ℤ y.amount x.amount

unfoldable pub slices : List (Month × ℤ) → List CardChargeSlice
unfolding sort_by larger_share filter is_large
slices counted =
    sort_by larger_share
      (filter (λ s. is_large s.amount) (map (λ x. record { month = x.0; amount = x.1 }) counted))

-- counted.set(month, (counted.get(month) ?? 0) + -amount)
unfoldable pub note_counted : Month → ℤ → List (Month × ℤ) → List (Month × ℤ)
unfolding update
note_counted month amount m = update month (λ a. a +ℤ neg amount) (pos 0) m

unfoldable pub is_settlement : Option ExcludeReason → Bool
is_settlement (some settlement) = true
is_settlement _ = false

abbrev pub no_bucket : Bucket
no_bucket = record { net = pos 0; count = 0; counted = [] }

unfoldable pub add_row : Flagged → Bucket → Bucket
unfolding note_counted
add_row r b = record {
  net = b.net +ℤ r.amount;
  count = b.count + 1;
  counted = if not r.excluded then note_counted r.month r.amount b.counted else b.counted;
}

-- Two charges are one bank line if they have the day and the company in common.
abbrev pub Line : Type 0
Line = Day × String

unfoldable pub eq_line : Line → Line → Bool
eq_line a b = eq_day a.0 b.0 && str_eq a.1 b.1

pub eq_line_iff : (a b : Line) → (eq_line a b ≡ true) ↔ (a ≡ b)
unfolding eq_line
eq_line_iff (d, c) (e, k) = ground (arith, eq_day_iff d e, eq_iff c k)

instance abbrev pub line_key : Eq Line
line_key = record { eqb = eq_line; eqb_iff = eq_line_iff }

unfoldable pub charge_of : Line × Bucket → UpcomingCardCharge
unfolding slices
charge_of ((day, company), b) = record {
  day = day;
  company = company;
  amount = neg b.net;
  count = b.count;
  counted_in = slices b.counted;
}

-- `locale_leb` tells that `localeCompare` does not put its first text after the second.
unfoldable pub nearest_first : (String → String → Bool) → Line × Bucket → Line × Bucket → Bool
nearest_first locale_leb a b = ltb_day a.0.0 b.0.0 || (eq_day a.0.0 b.0.0 && locale_leb a.0.1 b.0.1)

-- `local_day` is the day in Israel of an instant.
module _ (local_day : ℕ → Day) where
  unfoldable pub is_settlement_row : Month → Flagged → Bool
  unfolding is_settlement
  is_settlement_row month r =
      eq_month r.month month
      && is_completed r.status
      && ltb_ℤ r.amount (pos 0)
      && is_settlement r.exclude_reason

  -- new Set(settlementRows.map((r) => localDay(r.date)))
  unfoldable pub distinct_days : List Day → List Flagged → List Day
  unfolding any
  distinct_days seen [] = []
  distinct_days seen (r ∷ rs) =
      let d = local_day r.date in
      let new = d ∷ distinct_days (d ∷ seen) rs in
      let old = distinct_days seen rs in if any (eq_day d) seen then old else new

  -- The row's charge day is one of the days.
  unfoldable pub charged_on : List Day → Option ℕ → Bool
  unfolding any
  charged_on days none = false
  charged_on days (some t) = any (eq_day (local_day t)) days

  unfoldable pub is_behind : List Day → Flagged → Bool
  unfolding charged_on
  is_behind days r =
      is_card r.company
      && not r.excluded
      && is_completed r.status
      && charged_on days r.processed_date

  unfoldable pub settled_counted : List Day → List (Month × ℤ) → List Flagged → List (Month × ℤ)
  unfolding is_behind note_counted
  settled_counted days m [] = m
  settled_counted days m (r ∷ rs) =
      settled_counted days (if is_behind days r then note_counted r.month r.amount m else m) rs

  unfoldable pub settled_of : Month → List Flagged → Settled
  unfolding is_settlement_row distinct_days settled_counted slices filter sum_of sort_by leb_day
  settled_of month rows =
      let settlement_rows = filter (is_settlement_row month) rows in
      let days = distinct_days [] settlement_rows in
      record {
        amount = sum_of (λ r. neg r.amount) settlement_rows;
        count = length settlement_rows;
        days = sort_by leb_day days;
        counted_in = slices (settled_counted days [] rows);
      }

  -- The bank line on which the card company will take the row, if it has scheduled it after today.
  unfoldable pub line_of : Day → Flagged → Option ℕ → Option Line
  line_of today r none = none
  line_of today r (some t) =
      if is_card r.company && is_completed r.status && ltb_day today (local_day t)
      then some (local_day t, r.company)
      else none

  unfoldable pub scheduled_on : Day → Flagged → Option Line
  unfolding line_of
  scheduled_on today r = line_of today r r.processed_date

  unfoldable pub note_row : Option Line → Flagged → List (Line × Bucket) → List (Line × Bucket)
  unfolding update add_row
  note_row none r bs = bs
  note_row (some k) r bs = update k (add_row r) no_bucket bs

  unfoldable pub buckets_of : Day → List (Line × Bucket) → List Flagged → List (Line × Bucket)
  unfolding scheduled_on note_row
  buckets_of today bs [] = bs
  buckets_of today bs (r ∷ rs) = buckets_of today (note_row (scheduled_on today r) r bs) rs

  module _ (locale_leb : String → String → Bool) where
    -- The const `upcoming`, which the outlook adds up whole and cuts to three.
    unfoldable pub all_upcoming : Day → List Flagged → List UpcomingCardCharge
    unfolding buckets_of filter is_large sort_by nearest_first charge_of
    all_upcoming today rows = map charge_of (
        sort_by (nearest_first locale_leb)
          (filter (λ x. is_large (neg x.1.net)) (buckets_of today [] rows)))

    unfoldable pub build_card_outlook : List Flagged → Month → Day → CardOutlook
    unfolding settled_of all_upcoming sum_of
    build_card_outlook rows month today =
        let upcoming = all_upcoming today rows in
        record {
          settled = settled_of month rows;
          upcoming = take max_upcoming upcoming;
          upcoming_total = sum_of (λ u. u.amount) upcoming;
        }
