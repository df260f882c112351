-- ===== src/Flow.antt =====
-- server/src/flow.ts: the flow calendar, which puts transactions into months that begin on an anchor
-- day, and lets a recurring main income wait for the month that it funds.
-- Thresholds: 0.25 times a median of agorot need not be whole, so the floor is kept eightfold
-- (`floor8`), and an amount is compared eightfold. `Math.ceil(n * 0.6)` is the quotient of 3 n by 5,
-- rounded up, for the n up to 12 that occur.
pub mod Zone
pub mod Laws
pub mod Summary
use Prim.Native.Nat.{max}
use misgeret.Base.{
  ℕ, zero, suc, ◌+◌, ◌-◌, ◌*◌, ◌/◌, ◌%◌, Bool, true, false, not, ◌&&◌, ◌||◌, Option, none, some,
  List, [], ◌∷◌, ◌++◌, map, String, str_eq, ltb, leb, ◌==◌, if◌then◌else◌, ℤ, pos, negsuc, leb_ℤ,
  ltb_ℤ, max_ℤ, ◌+ℤ◌, filter, any, length, get_elem?,
}
use misgeret.Base.Dict.{update, string_eq}
use misgeret.Base.Sort.{sort_by}
use misgeret.Calendar.{
  Month, Day, eq_month, ltb_month, leb_day, months_back, flow_month_of, nominal_start, days_back,
  prev_day,
}
use misgeret.Calendar.Keys.{month_key}
use misgeret.Companies.{is_bank, is_card}
use misgeret.Text.{Text, codes, eq_text, text_key}
use misgeret.Categories.Merchants.{merchant_key, text_or_none}
use misgeret.Txns.{TxnRow, Flagged, ExcludeReason, future, is_completed}

pub data MonthLens : Type 0 where
  charge purchase : MonthLens

pub record FlowSettings : Type 0 where
  pub lens : MonthLens
  pub anchor_day : ℕ

abbrev pub pull_days : ℕ
pull_days = 16

-- MAIN_INCOME_FLOOR, eightfold, in agorot
abbrev pub main_income_floor8 : ℤ
main_income_floor8 = pos 800000

abbrev pub fixed_income_window : ℕ
fixed_income_window = 12

abbrev pub recurring_min_months : ℕ
recurring_min_months = 2

unfoldable pub or_date : Bool → Option ℕ → ℕ → ℕ
or_date true (some processed) date = processed
or_date _ _ date = date

unfoldable pub is_charge : MonthLens → Bool
is_charge charge = true
is_charge purchase = false

unfoldable pub effective_date : Flagged → MonthLens → ℕ
unfolding or_date is_charge
effective_date r lens = or_date (is_charge lens && is_card r.company) r.processed_date r.date

unfoldable pub double : ℤ → ℤ
double a = a +ℤ a

unfoldable pub eightfold : ℤ → ℤ
unfolding double
eightfold a = double (double (double a))

-- { mk, month, amount }
pub record Income : Type 0 where
  pub mk : Text
  pub month : Month
  pub amount : ℤ

unfoldable pub is_bank_income : Flagged → Bool
is_bank_income r =
    not (leb_ℤ r.amount (pos 0)) && not r.excluded && is_completed r.status && is_bank r.company

unfoldable pub or_zero : Option ℤ → ℤ
or_zero none = pos 0
or_zero (some a) = a

unfoldable pub max_by_month : List (Month × ℤ) → List Income → List (Month × ℤ)
max_by_month m [] = m
max_by_month m (i ∷ is) = max_by_month (update i.month (λ a. max_ℤ a i.amount) (pos 0) m) is

-- [...maxByMonth.values()].sort((a, b) => a - b)
unfoldable pub sorted_maxes : List Income → List ℤ
unfolding max_by_month
sorted_maxes is = sort_by leb_ℤ (map (λ x. x.1) (max_by_month [] is))

-- Twice the median, for an odd number of values; the sum of the two middle values for an even one.
unfoldable pub twice_median : List ℤ → ℤ
unfolding or_zero double
twice_median xs =
    let mid = length xs / 2 in
    if length xs % 2 == 0
    then or_zero (get_elem? xs (mid - 1)) +ℤ or_zero (get_elem? xs mid)
    else double (or_zero (get_elem? xs mid))

-- The floor of a main income, eightfold; none where there is no bank income.
unfoldable pub income_floor8 : List ℤ → Option ℤ
unfolding twice_median
income_floor8 [] = none
income_floor8 (x ∷ xs) = some (max_ℤ main_income_floor8 (twice_median (x ∷ xs)))

-- big.reduce((a, i) => (a === null || i.month > a ? i.month : a), null)
unfoldable pub newest_month : Option Month → List Income → Option Month
newest_month o [] = o
newest_month none (i ∷ is) = newest_month (some i.month) is
newest_month (some a) (i ∷ is) = newest_month (some (if ltb_month a i.month then i.month else a)) is

-- The recent window: the newest month and the ones before it.
unfoldable pub window_from : Month → ℕ → List Month
window_from m zero = []
window_from m (suc n) = window_from m n ++ months_back m (pos n) ∷ []

unfoldable pub has_month : Month → List Month → Bool
has_month m = any (eq_month m)

unfoldable pub add_month : Month → List Month → List Month
unfolding has_month
add_month m ms = if has_month m ms then ms else ms ++ m ∷ []

unfoldable pub distinct_months : List Month → List Income → List Month
distinct_months ms [] = ms
distinct_months ms (i ∷ is) = distinct_months (add_month i.month ms) is

unfoldable pub months_by_merchant :
    List (Text × List Month) → List Income → List (Text × List Month)
months_by_merchant m [] = m
months_by_merchant m (i ∷ is) = months_by_merchant (update i.mk (add_month i.month) [] m) is

unfoldable pub needed_months : ℕ → ℕ
needed_months n = max recurring_min_months ((3 * n + 4) / 5)

unfoldable pub recurring_in : Option Month → List Income → List Income → List Text
unfolding window_from has_month add_month distinct_months months_by_merchant needed_months
recurring_in none incomes big = []
recurring_in (some newest) incomes big =
    let in_window = λ (i : Income). has_month i.month (window_from newest fixed_income_window) in
    let need = needed_months (length (distinct_months [] (filter in_window incomes))) in
    map (λ x. x.0)
      (filter (λ x. leb need (length x.1)) (months_by_merchant [] (filter in_window big)))

unfoldable pub recurring_merchants : Option ℤ → List Income → List Text
unfolding recurring_in newest_month eightfold
recurring_merchants none incomes = []
recurring_merchants (some floor8) incomes =
    let big = filter (λ (i : Income). leb_ℤ floor8 (eightfold i.amount)) incomes in
    recurring_in (newest_month none big) incomes big

pub record FlowCalendar : Type 0 where
  pub settings : FlowSettings
  pub floor8 : Option ℤ
  pub recurring : List Text

unfoldable pub reaches : Option ℤ → ℤ → Bool
unfolding eightfold
reaches none amount = false
reaches (some floor8) amount = leb_ℤ floor8 (eightfold amount)

unfoldable pub is_recurring : Text → List Text → Bool
is_recurring mk ms = any (eq_text mk) ms

-- A day in the last sixteen days before the next month's anchor.
unfoldable pub in_waiting_zone : ℕ → Month → Day → Bool
in_waiting_zone anchor_day month day =
    leb_day (days_back (nominal_start anchor_day (months_back month (negsuc 0))) pull_days) day

-- opensNext(month, localDay, amount)
unfoldable pub opens_next : FlowCalendar → Month → Day → ℤ → Bool
unfolding in_waiting_zone reaches
opens_next c month day amount =
    ltb 1 c.settings.anchor_day
    && reaches c.floor8 amount
    && in_waiting_zone c.settings.anchor_day month day

-- `local_date` is the day in Israel of an instant.
module _ (local_date : ℕ → Day) where
  unfoldable pub income_of : FlowSettings → Flagged → Income
  unfolding effective_date
  income_of s r = record {
    mk = merchant_key (codes r.description) (text_or_none r.memo);
    month = flow_month_of (local_date (effective_date r s.lens)) s.anchor_day;
    amount = r.amount;
  }

  unfoldable pub bank_incomes : FlowSettings → List Flagged → List Income
  unfolding income_of is_bank_income
  bank_incomes s rows = map (income_of s) (filter is_bank_income rows)

  unfoldable pub build_flow_calendar : List Flagged → FlowSettings → FlowCalendar
  unfolding bank_incomes sorted_maxes income_floor8 recurring_merchants
  build_flow_calendar rows s =
      let incomes = bank_incomes s rows in
      let floor8 = if ltb 1 s.anchor_day then income_floor8 (sorted_maxes incomes) else none in
      record { settings = s; floor8 = floor8; recurring = recurring_merchants floor8 incomes }

  -- monthOf(iso)
  unfoldable pub month_of : FlowCalendar → ℕ → Month
  month_of c date = flow_month_of (local_date date) c.settings.anchor_day

  unfoldable pub is_main_income : FlowCalendar → Flagged → Bool
  unfolding reaches is_recurring
  is_main_income c r =
      ltb 1 c.settings.anchor_day
      && reaches c.floor8 r.amount
      && is_completed r.status
      && not r.excluded
      && is_bank r.company
      && is_recurring (merchant_key (codes r.description) (text_or_none r.memo)) c.recurring

  unfoldable pub row_day : FlowCalendar → Flagged → Day
  unfolding effective_date
  row_day c r = local_date (effective_date r c.settings.lens)

  -- monthOfRow(r)
  unfoldable pub month_of_row : FlowCalendar → Flagged → Month
  unfolding row_day is_main_income in_waiting_zone
  month_of_row c r =
      let day = row_day c r in
      let nominal = flow_month_of day c.settings.anchor_day in
      if is_main_income c r && in_waiting_zone c.settings.anchor_day nominal day
      then months_back nominal (negsuc 0)
      else nominal

  -- settings.lens === 'charge' && settings.anchorDay === 1
  unfoldable pub is_identity : FlowSettings → Bool
  unfolding is_charge
  is_identity s = is_charge s.lens && s.anchor_day == 1

  unfoldable pub lens_month : FlowCalendar → FlowSettings → Flagged → Month
  lens_month c s r = if is_identity s then r.month else month_of_row c r

  unfoldable pub lens_row : FlowCalendar → FlowSettings → Month → Flagged → Flagged
  lens_row c s current r =
      let month = lens_month c s r in
      let moved = record r { row = record r.row { month = month } } in
      if not r.excluded && is_completed r.status && ltb_month current month
      then record moved { excluded = true; exclude_reason = some future }
      else moved

  unfoldable pub apply_lens : List Flagged → FlowSettings → ℕ → FlowCalendar → List Flagged
  unfolding month_of lens_row
  apply_lens rows s today c = map (lens_row c s (month_of c today)) rows

-- startOf and endOf
unfoldable pub start_of : FlowCalendar → Month → Day
start_of c month = nominal_start c.settings.anchor_day month

unfoldable pub end_of : FlowCalendar → Month → Day
end_of c month = days_back (nominal_start c.settings.anchor_day (months_back month (negsuc 0))) 1
