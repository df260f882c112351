-- ===== src/Recurring/Groups.antt =====
-- The groups of rows, the months and the cadences that `detectRecurring` of server/src/recurring.ts
-- works with. The dates of a stream do not fall, so a gap is a number of days from 0 on.
use misgeret.Base.{
  ℕ, ◌+◌, ◌-◌, ◌*◌, ◌/◌, Bool, true, false, not, ◌&&◌, ◌||◌, Option, none, some, List, [], ◌∷◌,
  ◌++◌, map, filter, all, length, take, ltb, leb, ◌==◌, if◌then◌else◌, ℤ, pos, pos_part, nat_abs,
  ltb_ℤ, eqb_ℤ, ◌+ℤ◌,
}
use misgeret.Base.Dict.{update}
use misgeret.Text.{Text, codes, text_key}
use misgeret.Calendar.{Month, Day}
use misgeret.Calendar.Keys.{month_key}
use misgeret.Categories.Merchants.{merchant_key, text_or_none}
use misgeret.Txns.{ExcludeReason, transfer, future, is_completed}
use misgeret.Recurring.{
  Cadence, weekly, biweekly, monthly, bimonthly, yearly, Band, day_number, add_days,
  add_months_clamped, Placed, has_place,
}
use misgeret.Recurring.Streams.{times, round_div, last_or}

-- The rows of one month: their sum, the largest and its day of the month.
pub record MonthSum : Type 0 where
  pub total : ℤ
  pub largest : ℤ
  pub primary_day : ℕ

unfoldable pub note_month : ℕ → ℤ → MonthSum → MonthSum
note_month day amount b =
    if ltb (nat_abs b.largest) (nat_abs amount)
    then record { total = b.total +ℤ amount; largest = amount; primary_day = day }
    else record b { total = b.total +ℤ amount }

-- The largest of no row is 0, which no row is, so the first row becomes the primary one.
abbrev pub no_rows : MonthSum
no_rows = record { total = pos 0; largest = pos 0; primary_day = 0 }

unfoldable pub month_index : Month → ℕ
month_index m = m.year * 12 + m.month

-- The months from the first to the last one, in their order.
unfoldable pub span_of : List Month → ℕ
unfolding month_index
span_of [] = 0
span_of (m ∷ ms) = month_index (last_or m ms) - month_index m + 1

unfoldable pub is_same_kind : Cadence → Cadence → Bool
is_same_kind weekly weekly = true
is_same_kind biweekly biweekly = true
is_same_kind monthly monthly = true
is_same_kind bimonthly bimonthly = true
is_same_kind yearly yearly = true
is_same_kind _ _ = false

unfoldable pub is_in_band : Band → ℕ → Bool
is_in_band band gap = leb band.least gap && leb gap band.most

unfoldable pub better_of : Band → List ℕ → Option (Band × List ℕ) → Option (Band × List ℕ)
better_of band matching none = some (band, matching)
better_of band matching (some b) =
    if ltb (length b.1) (length matching) then some (band, matching) else some b

unfoldable pub better_band : List ℕ → Band → Option (Band × List ℕ) → Option (Band × List ℕ)
unfolding is_in_band better_of
better_band gaps band best =
    let matching = filter (is_in_band band) gaps in
    if length matching == 0 || ltb (length matching) ((2 * length gaps + 2) / 3)
    then best
    else better_of band matching best

unfoldable pub best_band : List ℕ → List Band → Option (Band × List ℕ) → Option (Band × List ℕ)
unfolding better_band
best_band gaps [] best = best
best_band gaps (band ∷ bands) best = best_band gaps bands (better_band gaps band best)

unfoldable pub gaps_of : List Day → List ℕ
gaps_of [] = []
gaps_of (a ∷ []) = []
gaps_of (a ∷ b ∷ more) = (day_number b - day_number a) ∷ gaps_of (b ∷ more)

unfoldable pub integers : List ℕ → List ℤ
integers ns = map (λ n. pos n) ns

-- Math.round of a median of numbers from 0 on
unfoldable pub rounded : ℤ → ℕ
rounded med = (pos_part med + 1) / 2

-- key.slice(0, -2)
unfoldable pub merchant_part : Text → Text
merchant_part key = take (length key - 2) key

unfoldable pub stream_key : Text → ℤ → Text
stream_key merchant amount = merchant ++ 124 ∷ (if ltb_ℤ (pos 0) amount then 43 else 45) ∷ []

unfoldable pub is_future : Option ExcludeReason → Bool
is_future (some future) = true
is_future _ = false

unfoldable pub is_transfer : Option ExcludeReason → Bool
is_transfer (some transfer) = true
is_transfer _ = false

unfoldable pub key_of : Placed → Text
key_of r = merchant_key (codes r.txn.description) (text_or_none r.txn.memo)

-- The rows that are put into a group.
unfoldable pub is_grouped : List (Placed × Placed) → Placed → Bool
unfolding is_future key_of
is_grouped refunds r =
    is_completed r.txn.status
    && not (eqb_ℤ r.txn.amount (pos 0))
    && not (is_future r.txn.exclude_reason)
    && not (has_place r.place refunds)
    && not (ltb (length (key_of r)) 2)

unfoldable pub group_rows :
    List (Placed × Placed) → List (Text × List Placed) → List Placed → List (Text × List Placed)
unfolding is_grouped stream_key
group_rows refunds groups [] = groups
group_rows refunds groups (r ∷ rows) =
    group_rows refunds
      (if is_grouped refunds r
        then update (stream_key (key_of r) r.txn.amount) (λ g. g ++ r ∷ []) [] groups
        else groups)
      rows

unfoldable pub by_date : Placed → Placed → Bool
by_date a b = leb a.txn.date b.txn.date

unfoldable pub excluded_count : List Placed → ℕ
excluded_count rows = length (filter (λ r. r.txn.excluded) rows)

unfoldable pub provisional_of : List Placed → Cadence → Bool
provisional_of sorted id = length sorted == 2 && is_same_kind id monthly

-- if (...) continue, after the cadence and the amounts are known.
unfoldable pub is_doubtful : List Placed → Cadence → Bool → Bool
is_doubtful sorted id stable =
    (length sorted == 2 && not (is_same_kind id monthly) && not (is_same_kind id yearly))
    || (is_same_kind id yearly && not stable)

unfoldable pub identical : List ℤ → Bool
identical [] = true
identical (a ∷ more) = all (λ b. eqb_ℤ b a) (a ∷ more)

-- The amount for a month, from the doubled median.
unfoldable pub monthly_of : ℤ → ℕ → ℕ → ℤ
monthly_of med months interval =
    if ltb 0 months then round_div med (2 * months) else round_div (times 30 med) (2 * interval)

unfoldable pub next_of : Day → ℕ → ℕ → ℕ → Day
next_of last months interval day =
    if ltb 0 months then add_months_clamped last months day else add_days last interval
