-- ===== src/Recurring/Streams.antt =====
-- The pieces of `detectRecurring`, server/src/recurring.ts: medians, reasons, installments, and what
-- makes a stream active.
-- The code divides binary fractions; the model computes exactly. A median is kept doubled, and a
-- rounding takes a half up, as `Math.round` does.
use misgeret.Base.{
  ℕ, ◌+◌, ◌-◌, ◌*◌, ◌/◌, ◌%◌, Bool, true, false, ◌&&◌, Option, none, some, List, [], ◌∷◌, filter,
  all, length, get_elem?, ltb, leb, ◌==◌, if◌then◌else◌, ℤ, pos, negsuc, pos_part, neg_part,
  nat_abs, sub_ℕ, leb_ℤ, ◌+ℤ◌, ◌-ℤ◌, String,
}
use misgeret.Base.Sort.{sort_by}
use misgeret.Text.{Text}
use misgeret.Calendar.{Day, ltb_day, leb_day}
use misgeret.Calendar.Keys.{month_key}
use misgeret.Txns.{ExcludeReason, TxnType, normal, installments}
use misgeret.Recurring.{Cadence, cadence_months, add_days, add_months_clamped, same_reason, Placed}

unfoldable pub or_zero : Option ℤ → ℤ
or_zero none = pos 0
or_zero (some a) = a

-- Twice the median.
unfoldable pub median : List ℤ → ℤ
unfolding or_zero
median nums =
    let s = sort_by leb_ℤ nums in
    let mid = length s / 2 in
    if length s % 2 == 1
    then or_zero (get_elem? s mid) +ℤ or_zero (get_elem? s mid)
    else or_zero (get_elem? s (mid - 1)) +ℤ or_zero (get_elem? s mid)

unfoldable pub times : ℕ → ℤ → ℤ
times k a = sub_ℕ (k * pos_part a) (k * neg_part a)

unfoldable pub floor_div : ℤ → ℕ → ℤ
floor_div (pos n) k = pos (n / k)
floor_div (negsuc n) k = negsuc (n / k)

-- Math.round(a / k)
unfoldable pub round_div : ℤ → ℕ → ℤ
unfolding floor_div
round_div a k = floor_div (a +ℤ a +ℤ pos k) (2 * k)

-- |a - med| <= |med| * 0.15 for each amount, by the doubled median.
unfoldable pub is_stable : ℤ → List ℤ → Bool
is_stable med amounts = all (λ a. leb (100 * nat_abs (a +ℤ a -ℤ med)) (15 * nat_abs med)) amounts

-- slice(-6)
unfoldable pub last_six : List ℤ → List ℤ
last_six [] = []
last_six (a ∷ more) = let rest = last_six more in if leb (length more) 5 then a ∷ more else rest

unfoldable pub least_of : List ℤ → ℤ
least_of [] = pos 0
least_of (a ∷ []) = a
least_of (a ∷ b ∷ more) = let rest = least_of (b ∷ more) in if leb_ℤ a rest then a else rest

unfoldable pub greatest_of : List ℤ → ℤ
greatest_of [] = pos 0
greatest_of (a ∷ []) = a
greatest_of (a ∷ b ∷ more) = let rest = greatest_of (b ∷ more) in if leb_ℤ rest a then a else rest

unfoldable pub last_or {ℓ} : {A : Type ℓ} → A → List A → A
last_or d [] = d
last_or d (a ∷ more) = last_or a more

-- counts.set(r, (counts.get(r) ?? 0) + 1)
unfoldable pub count_reason : ExcludeReason → List (ExcludeReason × ℕ) → List (ExcludeReason × ℕ)
unfolding same_reason
count_reason r [] = (r, 1) ∷ []
count_reason r ((k, n) ∷ counts) =
    if same_reason k r then (k, n + 1) ∷ counts else (k, n) ∷ count_reason r counts

unfoldable pub count_if : Option ExcludeReason → List (ExcludeReason × ℕ) → List (ExcludeReason × ℕ)
unfolding count_reason
count_if none counts = counts
count_if (some r) counts = count_reason r counts

unfoldable pub reason_counts : List (ExcludeReason × ℕ) → List Placed → List (ExcludeReason × ℕ)
unfolding count_if
reason_counts counts [] = counts
reason_counts counts (r ∷ rows) = reason_counts (count_if r.txn.exclude_reason counts) rows

-- The first reason with the most occurrences, from the best so far on.
unfoldable pub best_reason :
    Option ExcludeReason × ℕ → List (ExcludeReason × ℕ) → Option ExcludeReason × ℕ
best_reason best [] = best
best_reason best ((k, v) ∷ counts) = best_reason (if ltb best.1 v then (some k, v) else best) counts

unfoldable pub dominant_reason : List Placed → Option ExcludeReason
unfolding reason_counts best_reason
dominant_reason rows =
    let best = best_reason (none, 0) (reason_counts [] rows) in
    if ltb (length rows) (2 * best.1) then best.0 else none

unfoldable pub is_some : Option ℕ → Bool
is_some none = false
is_some (some n) = true

unfoldable pub is_installments : TxnType → Bool
is_installments installments = true
is_installments normal = false

unfoldable pub is_slice : Placed → Bool
unfolding is_some is_installments
is_slice r =
    is_installments r.txn.type
    && is_some r.txn.installment_number
    && is_some r.txn.installment_total

pub record Installments : Type 0 where
  pub plan : Bool
  pub end_date : Option Day
  pub paid : Option ℕ
  pub total : Option ℕ

unfoldable pub or_none : Option ℕ → ℕ
or_none none = 0
or_none (some n) = n

abbrev pub no_plan : Installments
no_plan = record { plan = false; end_date = none; paid = none; total = none }

pub record RecurringItem : Type 0 where
  pub merchant : Text
  pub sample_description : Text
  pub company : String
  pub connection_id : ℕ
  pub category : Option String
  pub amount : ℤ
  pub last_amount : ℤ
  pub amount_stable : Bool
  pub amount_min : ℤ
  pub amount_max : ℤ
  pub cadence : Cadence
  pub interval_days : ℕ
  pub monthly_amount : ℤ
  pub day_of_month : ℕ
  pub occurrences : ℕ
  pub first_date : Day
  pub last_date : Day
  pub next_date : Day
  pub is_income : Bool
  pub excluded_flow : Bool
  pub exclude_reason : Option ExcludeReason
  pub provisional : Bool
  pub forecast_eligible : Bool
  pub active : Bool
  pub installment_plan : Bool
  pub end_date : Option Day
  pub installments_paid : Option ℕ
  pub installments_total : Option ℕ

-- item.endDate !== null && item.nextDate > item.endDate
unfoldable pub is_over : Option Day → Day → Bool
is_over none next = false
is_over (some last) next = ltb_day last next

unfoldable pub max_of : ℕ → ℕ → ℕ
max_of a b = if ltb a b then b else a

unfoldable pub grace_days : RecurringItem → ℕ
unfolding max_of
grace_days item =
    let months = cadence_months item.cadence in
    if ltb 0 months then months * 45 else max_of 10 ((3 * item.interval_days + 1) / 2)

unfoldable pub is_recent : RecurringItem → Option Day → Bool
unfolding grace_days
is_recent item none = true
is_recent item (some today) = leb_day today (add_days item.last_date (grace_days item))

unfoldable pub is_active : RecurringItem → Option Day → Bool
unfolding is_over is_recent
is_active item today = if is_over item.end_date item.next_date then false else is_recent item today

unfoldable pub finalize : RecurringItem → Option Day → RecurringItem
unfolding is_active
finalize item today = record item {
  active = is_active item today;
  forecast_eligible = item.forecast_eligible && is_active item today;
}

module _ (local_day : ℕ → Day) where
  unfoldable pub plan_of : ℕ → Placed → Installments
  unfolding or_none
  plan_of day_of_month latest =
      let remaining =
        or_none latest.txn.installment_total - or_none latest.txn.installment_number in
      let last_slice = local_day latest.txn.date in
      record {
        plan = true;
        end_date = some (
            if remaining == 0
            then last_slice
            else add_months_clamped last_slice remaining day_of_month);
        paid = latest.txn.installment_number;
        total = latest.txn.installment_total;
      }

  unfoldable pub latest_plan : ℕ → List Placed → Installments
  unfolding plan_of last_or
  latest_plan day_of_month [] = no_plan
  latest_plan day_of_month (r ∷ rows) = plan_of day_of_month (last_or r rows)

  unfoldable pub installment_info : List Placed → ℕ → Installments
  unfolding is_slice latest_plan
  installment_info sorted day_of_month =
      let slices = filter is_slice sorted in
      if leb (2 * length slices) (length sorted) then no_plan else latest_plan day_of_month slices
