-- ===== src/NetWorth.antt =====
-- server/src/networth.ts: the layers of the balance sheet, the attribution of its changes to months,
-- and the gross totals. Amounts are whole agorot.
pub mod Steps
pub mod Layers
pub mod Search
pub mod Attribution
use misgeret.Base.{
  ℕ, zero, suc, ◌+◌, ◌-◌, ◌/◌, Bool, true, false, Option, none, some, List, [], ◌∷◌, map, ltb, ◌==◌,
  if◌then◌else◌, ℤ, pos, negsuc, neg, ◌+ℤ◌, ◌-ℤ◌, leb_ℤ, sum_of, length, get_elem?, find?,
}
use mathlib.Core.List.{reverse}
use misgeret.Holdings.{HoldingType, Side, asset, liability}
use misgeret.Calendar.{Month, Day, eq_month, ltb_day, leb_day, months_back}
use misgeret.Balance.{DayBalance}
use misgeret.Txns.{MonthlySummary}

pub data LayerKey : Type 0 where
  checking card deposit securities pension real_estate other_asset loan other_liability : LayerKey

unfoldable pub holding_layer : HoldingType → Side → LayerKey
holding_layer HoldingType.loan kind = LayerKey.loan
holding_layer HoldingType.mortgage kind = LayerKey.loan
holding_layer HoldingType.deposit kind = LayerKey.deposit
holding_layer HoldingType.securities kind = LayerKey.securities
holding_layer HoldingType.pension kind = LayerKey.pension
holding_layer HoldingType.real_estate kind = LayerKey.real_estate
holding_layer HoldingType.other liability = LayerKey.other_liability
holding_layer HoldingType.other asset = LayerKey.other_asset
holding_layer _ kind = LayerKey.other_asset

-- An entry of a value timeline.
pub record Point : Type 0 where
  pub day : Day
  pub signed : ℤ

-- A timeline from the cursor on: `list[i]`, and the entries behind it. A timeline has an entry, since
-- a holding or card without one has no timeline.
pub record Cursor : Type 0 where
  pub current : Point
  pub later : List Point

-- while (i + 1 < list.length && list[i + 1].day <= day) i++;
unfoldable pub advance_over : Day → Point → List Point → Cursor
advance_over day p [] = record { current = p; later = [] }
advance_over day p (q ∷ qs) =
    let rest = advance_over day q qs in
    if leb_day q.day day then rest else record { current = p; later = q ∷ qs }

unfoldable pub advance : Day → Cursor → Cursor
unfolding advance_over
advance day c = advance_over day c.current c.later

unfoldable pub total : List Cursor → ℤ
total = sum_of (λ c. c.current.signed)

-- The cursors move on from day to day and never back.
unfoldable pub step_totals : List Day → List Cursor → List ℤ
unfolding advance total
step_totals [] cs = []
step_totals (day ∷ days) cs =
    let moved = map (advance day) cs in total moved ∷ step_totals days moved

-- Both sides of the balance sheet, as magnitudes.
pub record Gross : Type 0 where
  pub assets : ℤ
  pub liabilities : ℤ

unfoldable pub add_balance : Gross → ℤ → Gross
add_balance g b =
    if leb_ℤ (pos 0) b
    then record g { assets = g.assets +ℤ b }
    else record g { liabilities = g.liabilities +ℤ neg b }

unfoldable pub add_asset : Gross → Side × ℤ → Gross
add_asset g (asset, a) = record g { assets = g.assets +ℤ a }
add_asset g (liability, a) = record g { liabilities = g.liabilities +ℤ a }

unfoldable pub add_balances : Gross → List ℤ → Gross
unfolding add_balance
add_balances g [] = g
add_balances g (b ∷ bs) = add_balances (add_balance g b) bs

unfoldable pub add_assets : Gross → List (Side × ℤ) → Gross
unfolding add_asset
add_assets g [] = g
add_assets g (a ∷ rest) = add_assets (add_asset g a) rest

unfoldable pub gross_totals : List ℤ → List (Side × ℤ) → Gross
gross_totals balances assets =
    add_assets (add_balances (record { assets = pos 0; liabilities = pos 0 }) balances) assets

-- The loop of `closeBefore`: the last index for which the test holds, between `lo` and `hi`.
unfoldable pub last_index : ℕ → (ℕ → Bool) → ℕ → ℕ → ℕ
last_index zero p lo hi = lo
last_index (suc fuel) p lo hi =
    let mid = (lo + hi + 1) / 2 in
    let upper = last_index fuel p mid hi in
    let lower = last_index fuel p lo (mid - 1) in
    if ltb lo hi then (if p mid then upper else lower) else lo

-- history[i].date < day
unfoldable pub is_before : List DayBalance → Day → ℕ → Bool
is_before history day i = elim (get_elem? history i) [ none ↦ false | some d ↦ ltb_day d.date day ]

unfoldable pub balance_at : List DayBalance → ℕ → Option ℤ
balance_at history i = elim (get_elem? history i) [ none ↦ none | some d ↦ some d.balance ]

-- closeBefore(day); the length of the history is fuel enough.
unfoldable pub close_before : List DayBalance → Day → Option ℤ
unfolding last_index is_before balance_at
close_before history day =
    if is_before history day 0
    then balance_at history
        (last_index (length history) (is_before history day) 0 (length history - 1))
    else none

pub record AttributionMonth : Type 0 where
  pub month : Month
  pub from : Day
  pub to : Day
  pub income : ℤ
  pub expenses : ℤ
  pub opening : ℤ
  pub close : Option ℤ
  pub revaluation : Option ℤ
  pub partial : Bool

-- byMonth.get(month): the last summary of a month replaces the others.
unfoldable pub summary_for : Month → List MonthlySummary → Option MonthlySummary
summary_for m summaries = find? (λ s. eq_month s.month m) (reverse summaries)

unfoldable pub income_or_zero : Option MonthlySummary → ℤ
income_or_zero none = pos 0
income_or_zero (some s) = s.income

unfoldable pub expenses_or_zero : Option MonthlySummary → ℤ
expenses_or_zero none = pos 0
expenses_or_zero (some s) = s.expenses

unfoldable pub revaluation_of : Option ℤ → ℤ → ℤ → ℤ → Option ℤ
revaluation_of none opening income expenses = none
revaluation_of (some close) opening income expenses =
    some (close -ℤ opening -ℤ (income -ℤ expenses))

module _ (history : List DayBalance) (summaries : List MonthlySummary) (start_of : Month → Day)
    (current_month : Month) where
  -- history[history.length - 1].balance for the running month
  unfoldable pub close_of : Month → Option ℤ
  unfolding close_before balance_at
  close_of month =
      if eq_month month current_month
      then balance_at history (length history - 1)
      else close_before history (start_of (months_back month (negsuc 0)))

  unfoldable pub attribution_month : Month → ℤ → AttributionMonth
  unfolding summary_for income_or_zero expenses_or_zero revaluation_of
  attribution_month month opening =
      let s = summary_for month summaries in
      let close = close_of month in
      record {
        month = month;
        from = start_of month;
        to = start_of (months_back month (negsuc 0));
        income = income_or_zero s;
        expenses = expenses_or_zero s;
        opening = opening;
        close = close;
        revaluation = revaluation_of close opening (income_or_zero s) (expenses_or_zero s);
        partial = eq_month month current_month;
      }

  -- if (open === null) break;
  unfoldable pub attribution_step : Option ℤ → Month → List AttributionMonth → List AttributionMonth
  attribution_step none month rest = []
  attribution_step (some opening) month rest = attribution_month month opening ∷ rest

  -- The loop over `back`, with the rounds that are left.
  unfoldable pub attribution_from : ℕ → ℕ → List AttributionMonth
  attribution_from zero back = []
  attribution_from (suc rounds) back =
      let month = months_back current_month (pos back) in
      attribution_step (close_before history (start_of month)) month
        (attribution_from rounds (back + 1))

  unfoldable pub compute_attribution : ℕ → List AttributionMonth
  compute_attribution max_months =
      if length history == 0 then [] else reverse (attribution_from max_months 0)
