-- ===== src/Recurring/Detection.antt =====
-- `monthlyStreamItem`, `detectRecurring` and `bankCashFlows` of server/src/recurring.ts.
use misgeret.Base.{
  ℕ, ◌+◌, ◌*◌, ◌/◌, Bool, true, false, not, ◌&&◌, ◌||◌, Option, none, some, List, [], ◌∷◌, map,
  filter, any, length, ltb, leb, if◌then◌else◌, pos, nat_abs, ltb_ℤ, eqb_ℤ, ◌+ℤ◌, ◌-ℤ◌, String,
}
use misgeret.Base.Dict.{update}
use misgeret.Base.Sort.{sort_by}
use misgeret.Text.{Text, codes, text_key, eq_text}
use misgeret.Calendar.{Month, Day, month_of_day, leb_month}
use misgeret.Calendar.Keys.{month_key}
use misgeret.Categories.Merchants.{merchant_label, text_or_none}
use misgeret.Companies.{is_bank}
use misgeret.Exclusion.{settlement_company}
use misgeret.Recurring.{monthly, Band, cadence_bands, add_months_clamped, Placed, refund_pairs}
use misgeret.Recurring.Streams.{
  median, round_div, is_stable, last_six, least_of, greatest_of, last_or, dominant_reason,
  RecurringItem, finalize, installment_info,
}
use misgeret.Recurring.Groups.{
  MonthSum, note_month, no_rows, span_of, best_band, gaps_of, integers, rounded, merchant_part,
  is_transfer, key_of, group_rows, by_date, excluded_count, provisional_of, is_doubtful, identical,
  monthly_of, next_of,
}

module _ (upper : Text → Text) (local_day : ℕ → Day) where
  unfoldable pub sum_months : List (Month × MonthSum) → List Placed → List (Month × MonthSum)
  unfolding note_month
  sum_months sums [] = sums
  sum_months sums (r ∷ rows) =
      let day = local_day r.txn.date in
      sum_months (update (month_of_day day) (note_month day.day r.txn.amount) no_rows sums) rows

  unfoldable pub stream_item : Text → Placed → List Placed → List (Month × MonthSum) → RecurringItem
  unfolding rounded excluded_count merchant_part
  stream_item key r rows sums =
      let sorted = r ∷ rows in
      let last = last_or r rows in
      let day_of_month = rounded (median (integers (map (λ b. b.1.primary_day) sums))) in
      let totals = map (λ b. b.1.total) sums in
      let med = median totals in
      let inst = installment_info local_day sorted day_of_month in
      record {
        merchant = merchant_part key;
        sample_description =
            merchant_label (codes last.txn.description) (text_or_none last.txn.memo);
        company = last.txn.company;
        connection_id = last.txn.connection_id;
        category = last.txn.category;
        amount = round_div med 2;
        last_amount = last_or (pos 0) totals;
        amount_stable = is_stable med totals;
        amount_min = least_of (last_six totals);
        amount_max = greatest_of (last_six totals);
        cadence = monthly;
        interval_days = 30;
        monthly_amount = round_div med 2;
        day_of_month = day_of_month;
        occurrences = length sorted;
        first_date = local_day r.txn.date;
        last_date = local_day last.txn.date;
        next_date = add_months_clamped (local_day last.txn.date) 1 day_of_month;
        is_income = ltb_ℤ (pos 0) med;
        excluded_flow = ltb (length sorted) (2 * excluded_count sorted);
        exclude_reason = dominant_reason sorted;
        provisional = false;
        forecast_eligible = true;
        active = true;
        installment_plan = inst.plan;
        end_date = inst.end_date;
        installments_paid = inst.paid;
        installments_total = inst.total;
      }

  -- The tests of `monthlyStreamItem` before it makes the item.
  unfoldable pub is_monthly_stream : List Placed → List (Month × MonthSum) → Bool
  unfolding span_of integers
  is_monthly_stream sorted sums =
      let days = map (λ b. b.1.primary_day) sums in
      let med_day = median (integers days) in
      let near = filter (λ d. leb (nat_abs (pos d +ℤ pos d -ℤ med_day)) 6) days in
      not (ltb (length sorted) 3)
      && not (ltb (length sums) 3)
      && not (ltb (length sums) ((2 * span_of (sort_by leb_month (map (λ b. b.0) sums)) + 2) / 3))
      && not (ltb (length near) ((3 * length days + 3) / 4))
      && not (eqb_ℤ (median (map (λ b. b.1.total) sums)) (pos 0))

  unfoldable pub monthly_stream_item : Text → Placed → List Placed → Option RecurringItem
  unfolding sum_months stream_item is_monthly_stream
  monthly_stream_item key r rows =
      let sums = sum_months [] (r ∷ rows) in
      if is_monthly_stream (r ∷ rows) sums then some (stream_item key r rows sums) else none

  unfoldable pub band_item : Text → Placed → List Placed → Band → List ℕ → RecurringItem
  unfolding rounded excluded_count merchant_part provisional_of identical monthly_of next_of
  band_item key r rows band matching =
      let sorted = r ∷ rows in
      let last = last_or r rows in
      let amounts = map (λ s. s.txn.amount) sorted in
      let med = median amounts in
      let interval = rounded (median (integers matching)) in
      let day_of_month =
        rounded (median (integers (map (λ s. (local_day s.txn.date).day) sorted))) in
      let inst = installment_info local_day sorted day_of_month in
      record {
        merchant = merchant_part key;
        sample_description =
            merchant_label (codes last.txn.description) (text_or_none last.txn.memo);
        company = last.txn.company;
        connection_id = last.txn.connection_id;
        category = last.txn.category;
        amount = round_div med 2;
        last_amount = last.txn.amount;
        amount_stable = is_stable med amounts;
        amount_min = least_of (last_six amounts);
        amount_max = greatest_of (last_six amounts);
        cadence = band.id;
        interval_days = interval;
        monthly_amount = monthly_of med band.months interval;
        day_of_month = day_of_month;
        occurrences = length sorted;
        first_date = local_day r.txn.date;
        last_date = local_day last.txn.date;
        next_date = next_of (local_day last.txn.date) band.months interval day_of_month;
        is_income = ltb_ℤ (pos 0) med;
        excluded_flow = ltb (length sorted) (2 * excluded_count sorted);
        exclude_reason = dominant_reason sorted;
        provisional = provisional_of sorted band.id;
        forecast_eligible = not (provisional_of sorted band.id) || identical amounts;
        active = true;
        installment_plan = inst.plan;
        end_date = inst.end_date;
        installments_paid = inst.paid;
        installments_total = inst.total;
      }

  unfoldable pub band_item_if :
      Text → Placed → List Placed → Option (Band × List ℕ) → Option RecurringItem
  unfolding band_item is_doubtful
  band_item_if key r rows none = monthly_stream_item key r rows
  band_item_if key r rows (some (band, matching)) =
      let amounts = map (λ s. s.txn.amount) (r ∷ rows) in
      if eqb_ℤ (median amounts) (pos 0)
        || is_doubtful (r ∷ rows) band.id (is_stable (median amounts) amounts)
      then none
      else some (band_item key r rows band matching)

  unfoldable pub gap_item : Text → Placed → List Placed → Option RecurringItem
  unfolding band_item_if gaps_of
  gap_item key r rows =
      band_item_if key r rows
        (best_band (gaps_of (map (λ s. local_day s.txn.date) (r ∷ rows))) cadence_bands none)

  unfoldable pub is_there : Option String → Bool
  is_there none = false
  is_there (some c) = true

  unfoldable pub is_settlement_stream : Placed → Bool
  unfolding is_there
  is_settlement_stream r =
      is_bank r.txn.company && is_there (settlement_company upper r.txn.description)

  unfoldable pub first_item : Option RecurringItem → Option RecurringItem → Option RecurringItem
  first_item none other = other
  first_item (some item) other = some item

  -- What the body of the loop over the groups pushes, before `finalize`.
  unfoldable pub item_of : Text → List Placed → Option RecurringItem
  unfolding gap_item is_settlement_stream first_item
  item_of key [] = none
  item_of key (r ∷ []) = none
  item_of key (r ∷ s ∷ rows) =
      if is_settlement_stream r
      then first_item (monthly_stream_item key r (s ∷ rows)) (gap_item key r (s ∷ rows))
      else gap_item key r (s ∷ rows)

  unfoldable pub push_item :
      Option Day → Option RecurringItem → List RecurringItem → List RecurringItem
  push_item today none items = items
  push_item today (some item) items = finalize item today ∷ items

  unfoldable pub items_of : Option Day → List (Text × List Placed) → List RecurringItem
  unfolding item_of push_item
  items_of today [] = []
  items_of today ((key, g) ∷ groups) =
      push_item today (item_of key (sort_by by_date g)) (items_of today groups)

  unfoldable pub detect_recurring : List Placed → Option Day → List RecurringItem
  unfolding items_of group_rows
  detect_recurring rows today =
      sort_by (λ a b. leb (nat_abs b.monthly_amount) (nat_abs a.monthly_amount))
        (items_of today (group_rows (refund_pairs local_day rows) [] rows))

-- `bankCashFlows`
unfoldable pub transfer_merchants : List Placed → List Text
unfolding is_transfer key_of
transfer_merchants rows = map key_of (filter (λ r. is_transfer r.txn.exclude_reason) rows)

unfoldable pub bank_cash_flows : List RecurringItem → List Placed → List RecurringItem
unfolding transfer_merchants
bank_cash_flows items rows =
    filter (λ i. is_bank i.company && not (any (eq_text i.merchant) (transfer_merchants rows)))
      items
