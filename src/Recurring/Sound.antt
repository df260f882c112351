-- ===== src/Recurring/Sound.antt =====
-- The streams that `detectRecurring` of server/src/recurring.ts lists.
use misgeret.Base.{
  ℕ, ◌≤◌, ◌≡◌, refl, sym, subst, arith, Bool, true, false, not, ◌&&◌, ◌||◌, Option, none, some,
  List, [], ◌∷◌, All, map, length, ◌==◌, if◌then◌else◌, Bool-cases, inl, inr, ℤ, pos, eqb_ℤ,
}
use misgeret.Base.Sort.{sort_by, All-sort_by}
use misgeret.Text.{Text}
use misgeret.Calendar.{Day, Month}
use misgeret.Recurring.{Cadence, monthly, yearly, Band, cadence_bands, Placed, refund_pairs}
use misgeret.Recurring.Streams.{
  RecurringItem, is_over, is_recent, grace_days, is_active, finalize, is_stable, median,
}
use misgeret.Recurring.Groups.{
  MonthSum, is_same_kind, best_band, gaps_of, provisional_of, is_doubtful, group_rows, by_date,
}
use misgeret.Recurring.Detection.{
  stream_item, is_monthly_stream, monthly_stream_item, sum_months, band_item, band_item_if,
  gap_item, is_settlement_stream, first_item, item_of, push_item, items_of, detect_recurring,
}

-- Two occurrences at least, and where there are two only, a monthly stream that is marked as
-- provisional, or a yearly one whose amounts are stable; a longer one is not provisional.
pub record IsFound (item : RecurringItem) : Type 0 where
  pub frequent : 2 ≤ item.occurrences
  pub tagged : item.provisional ≡ (item.occurrences == 2 && is_same_kind item.cadence monthly)
  pub doubted :
      (item.occurrences == 2) ≡ true
      → is_same_kind item.cadence monthly ≡ false
      → is_same_kind item.cadence yearly ≡ true
  pub steady : is_same_kind item.cadence yearly ≡ true → item.amount_stable ≡ true

-- And it is active unless its last slice was delivered or its last occurrence is too long ago, and the
-- forecast counts it only if it is active.
pub record IsSound (today : Option Day) (item : RecurringItem) : Type 0 where
  pub found : IsFound item
  pub live : item.active ≡ (not (is_over item.end_date item.next_date) && is_recent item today)
  pub counted : item.forecast_eligible ≡ true → item.active ≡ true

finalize-IsSound :
    (today : Option Day) (item : RecurringItem) → IsFound item → IsSound today (finalize item today)
finalize-IsSound today item h =
    unfold finalize is_active in
    (record {
      found = (record {
        frequent = h.frequent;
        tagged = h.tagged;
        doubted = h.doubted;
        steady = h.steady;
      });
      live = at_recent (is_over item.end_date item.next_date) (is_recent item today) (same today);
      counted = λ e.
          both item.forecast_eligible
            (if is_over item.end_date item.next_date then false else is_recent item today) e;
    })
  where
    same :
        (t : Option Day)
        → is_recent
            (record item {
              active = if is_over item.end_date item.next_date then false else is_recent item today;
              forecast_eligible =
                  item.forecast_eligible
                  && (if is_over item.end_date item.next_date then false else is_recent item today);
            })
            t
          ≡ is_recent item t
    same none = unfold is_recent in refl
    same (some t) = unfold is_recent grace_days in refl

    at_recent : (o r : Bool) {r' : Bool} → r' ≡ r → (if o then false else r) ≡ (not o && r')
    at_recent true r e = refl
    at_recent false r e = sym e

    both : (a b : Bool) → (a && b) ≡ true → b ≡ true
    both true b e = e
    both false b e = cc

doubtful_lem :
    (sorted : List Placed) (id : Cadence) (stable : Bool)
    → is_doubtful sorted id stable ≡ false
    → ((length sorted == 2) ≡ true
        → is_same_kind id monthly ≡ false
        → is_same_kind id yearly ≡ true)
      × (is_same_kind id yearly ≡ true → stable ≡ true)
unfolding is_doubtful
doubtful_lem sorted id stable h = (λ e f. ground arith, λ e. ground arith)

module _ (upper : Text → Text) (local_day : ℕ → Day) where
  stream_item-IsFound :
      (key : Text) (r : Placed) (rows : List Placed) (sums : List (Month × MonthSum))
      → is_monthly_stream upper local_day (r ∷ rows) sums ≡ true
      → IsFound (stream_item upper local_day key r rows sums)
  stream_item-IsFound key r rows sums h =
      unfold stream_item is_monthly_stream is_same_kind in
      (record {
        frequent = ground arith;
        tagged = ground arith;
        doubted = λ e f. ground arith;
        steady = λ e. cc;
      })

  band_item-IsFound :
      (key : Text) (r s : Placed) (rows : List Placed) (band : Band) (matching : List ℕ)
      → is_doubtful (r ∷ s ∷ rows) band.id (
          is_stable
            (median (map (λ p. p.txn.amount) (r ∷ s ∷ rows)))
            (map (λ p. p.txn.amount) (r ∷ s ∷ rows)))
        ≡ false
      → IsFound (band_item upper local_day key r (s ∷ rows) band matching)
  band_item-IsFound key r s rows band matching h =
      let amounts : List ℤ = map (λ p. p.txn.amount) (r ∷ s ∷ rows) in
      let d = doubtful_lem (r ∷ s ∷ rows) band.id (is_stable (median amounts) amounts) h in
      unfold band_item provisional_of in
      (record { frequent = omega arith; tagged = refl; doubted = d.0; steady = d.1 })

  monthly_stream_item-IsFound :
      (key : Text) (r : Placed) (rows : List Placed) (item : RecurringItem)
      → monthly_stream_item upper local_day key r rows ≡ some item
      → IsFound item
  monthly_stream_item-IsFound key r rows item h =
      let sums = sum_months upper local_day [] (r ∷ rows) in
      elim (Bool-cases (is_monthly_stream upper local_day (r ∷ rows) sums)) [
        | inl e ↦
            let k : stream_item upper local_day key r rows sums ≡ item =
              made (is_monthly_stream upper local_day (r ∷ rows) sums)
                (stream_item upper local_day key r rows sums) e (unfold monthly_stream_item in h) in
            subst IsFound k (stream_item-IsFound key r rows sums e)
        | inr e ↦ absurd (
            nothing (is_monthly_stream upper local_day (r ∷ rows) sums)
              (stream_item upper local_day key r rows sums) e (unfold monthly_stream_item in h))
      ]
    where
      made :
          (b : Bool) (i : RecurringItem)
          → b ≡ true
          → (if b then some i else none) ≡ some item
          → i ≡ item
      made true i e k = cc
      made false i e k = cc

      nothing :
          (b : Bool) (i : RecurringItem) → b ≡ false → (if b then some i else none) ≡ some item → ⊥
      nothing true i e k = cc
      nothing false i e k = cc

  band_item_if-IsFound :
      (key : Text) (r s : Placed) (rows : List Placed) (o : Option (Band × List ℕ))
      (item : RecurringItem)
      → band_item_if upper local_day key r (s ∷ rows) o ≡ some item
      → IsFound item
  band_item_if-IsFound key r s rows none item h =
      monthly_stream_item-IsFound key r (s ∷ rows) item (unfold band_item_if in h)
  band_item_if-IsFound key r s rows (some (band, matching)) item h =
      let amounts : List ℤ = map (λ p. p.txn.amount) (r ∷ s ∷ rows) in
      made (eqb_ℤ (median amounts) (pos 0))
        (is_doubtful (r ∷ s ∷ rows) band.id (is_stable (median amounts) amounts))
        (band_item-IsFound key r s rows band matching) (unfold band_item_if in h)
    where
      made :
          (z d : Bool)
          → (d ≡ false → IsFound (band_item upper local_day key r (s ∷ rows) band matching))
          → (if z || d
              then none
              else some (band_item upper local_day key r (s ∷ rows) band matching))
            ≡ some item
          → IsFound item
      made true d k e = cc
      made false true k e = cc
      made false false k e =
          let q : band_item upper local_day key r (s ∷ rows) band matching ≡ item = cc in
          subst IsFound q (k refl)

  item_of-IsFound :
      (key : Text) (g : List Placed) (item : RecurringItem)
      → item_of upper local_day key g ≡ some item
      → IsFound item
  item_of-IsFound key [] item h = unfold item_of in cc
  item_of-IsFound key (r ∷ []) item h = unfold item_of in cc
  item_of-IsFound key (r ∷ s ∷ rows) item h =
      chosen (is_settlement_stream upper local_day r)
        (monthly_stream_item upper local_day key r (s ∷ rows))
        (gap_item upper local_day key r (s ∷ rows))
        (monthly_stream_item-IsFound key r (s ∷ rows) item)
        (λ e.
          unfold gap_item in
          band_item_if-IsFound key r s rows
            (best_band (gaps_of (map (λ p. local_day p.txn.date) (r ∷ s ∷ rows))) cadence_bands
              none)
            item (unfold gap_item in e))
        (unfold item_of in h)
    where
      chosen :
          (b : Bool) (m g : Option RecurringItem)
          → (m ≡ some item → IsFound item)
          → (g ≡ some item → IsFound item)
          → (if b then first_item upper local_day m g else g) ≡ some item
          → IsFound item
      chosen true none g f k e = k (unfold first_item in e)
      chosen true (some i) g f k e = f (unfold first_item in e)
      chosen false m g f k e = k e

  push_item-IsSound :
      (today : Option Day) (o : Option RecurringItem) (items : List RecurringItem)
      → ((item : RecurringItem) → o ≡ some item → IsFound item)
      → All (IsSound today) items
      → All (IsSound today) (push_item upper local_day today o items)
  unfolding push_item
  push_item-IsSound today none items f h = h
  push_item-IsSound today (some item) items f h = (finalize-IsSound today item (f item refl), h)

  items_of-IsSound :
      (today : Option Day) (groups : List (Text × List Placed))
      → All (IsSound today) (items_of upper local_day today groups)
  unfolding items_of
  items_of-IsSound today [] = tt
  items_of-IsSound today ((key, g) ∷ groups) =
      push_item-IsSound today (item_of upper local_day key (sort_by by_date g))
        (items_of upper local_day today groups) (item_of-IsFound key (sort_by by_date g))
        (items_of-IsSound today groups)

  -- Every stream that is listed stands on two rows at least; where there are two only, it is a monthly
  -- one and marked as provisional, or a yearly one, and no longer stream is provisional; the amounts of a
  -- yearly one are stable. It is active exactly if its last slice is not delivered and its last
  -- occurrence is recent enough, and the forecast counts it only if it is active.
  pub detect_recurring-IsSound :
      (rows : List Placed) (today : Option Day)
      → All (IsSound today) (detect_recurring upper local_day rows today)
  unfolding detect_recurring
  detect_recurring-IsSound rows today =
      All-sort_by (IsSound today) _
        (items_of upper local_day today (group_rows (refund_pairs local_day rows) [] rows))
        (items_of-IsSound today (group_rows (refund_pairs local_day rows) [] rows))
