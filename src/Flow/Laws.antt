-- ===== src/Flow/Laws.antt =====
-- What the flow calendar and the lens guarantee.
use mathlib.Core.Bool.{false≢true}
use mathlib.Core.List.{Memᴰ}
use misgeret.Text.{Text, eq_text, eq_text_iff, codes}
use misgeret.Companies.{CompanyKind, company_kind, is_bank}
use misgeret.Categories.Merchants.{merchant_key, text_or_none}
use misgeret.Base.{
  String, mem_past, ℤ, Option, some, none, Bool, Bool-cases, inl, inr, leb_ℤ, refl, sym, subst, any,
  ◌∙◌, ◌≤◌, ◌<◌, ℕ, ◌≡◌, ◌≢◌, ◌↔◌, ap, true, false, ◌&&◌, List, [], ◌∷◌, arith, negsuc, All,
}
use misgeret.Calendar.{
  Month, Day, index, ltb_month, flow_month_of, months_back, nominal_start, days_in_month, IsMonth,
}
use misgeret.Calendar.Windows.{
  IsDay, IsDate, flow_month_of-IsMonth, flow_month_of_iff, next_month, months_back-next_month,
}
use misgeret.Flow.Zone.{IsShortlyBefore, days_back_iff}
use misgeret.Calendar.Months.{months_back_lem}
use misgeret.Txns.{Flagged, Status, completed, pending, is_completed, counts}
use misgeret.Flow.{
  FlowSettings, FlowCalendar, eightfold, reaches, is_recurring, in_waiting_zone, is_main_income,
  row_day, month_of_row, month_of, lens_row, apply_lens,
}

reaches_iff :
    (o : Option ℤ) (amount : ℤ)
    → (reaches o amount ≡ true)
      ↔ ((floor8 : ℤ) × (o ≡ some floor8) × (leb_ℤ floor8 (eightfold amount) ≡ true))
unfolding reaches
reaches_iff none amount = (λ e. cc, λ (f, e, h). cc)
reaches_iff (some g) amount = (
  λ e. (g, refl, e),
  λ (f, e, h). let same : f ≡ g = cc in subst (λ x. leb_ℤ x (eightfold amount) ≡ true) same h,
)

is_completed_iff : (s : Status) → (is_completed s ≡ true) ↔ (s ≡ completed)
unfolding is_completed
is_completed_iff completed = (λ _. refl, λ _. refl)
is_completed_iff pending = (λ e. cc, λ e. cc)

is_bank_iff : (id : String) → (is_bank id ≡ true) ↔ (company_kind id ≡ CompanyKind.bank)
unfolding is_bank
is_bank_iff id = by_kind (company_kind id)
  where
    by_kind :
        (k : CompanyKind)
        → (elim k as (λ _. Bool) [ CompanyKind.bank ↦ true | _ ↦ false ] ≡ true)
          ↔ (k ≡ CompanyKind.bank)
    by_kind CompanyKind.bank = (λ _. refl, λ _. refl)
    by_kind CompanyKind.card = (λ e. cc, λ e. cc)
    by_kind CompanyKind.other = (λ e. cc, λ e. cc)

is_recurring_iff : (mk : Text) (ms : List Text) → (is_recurring mk ms ≡ true) ↔ Memᴰ mk ms
unfolding is_recurring any
is_recurring_iff mk [] = (λ e. cc, λ m. elim m [ ])
is_recurring_iff mk (x ∷ ms) = elim (Bool-cases (eq_text mk x)) [
  | inl e ↦ rw e (λ _. Memᴰ.head ((eq_text_iff mk x).0 e), λ _. refl)
  | inr e ↦ rw e (
    λ h. Memᴰ.tail ((is_recurring_iff mk ms).0 h),
    λ m. (is_recurring_iff mk ms).1 (mem_past (λ q. false≢true (sym e ∙ (eq_text_iff mk x).1 q)) m),
  )
]

days_in_month-ge : (y m : ℕ) → 28 ≤ days_in_month y m
unfolding days_in_month
days_in_month-ge y m = ground arith

nominal_start-IsDate :
    (anchor_day : ℕ) (mo : Month)
    → IsMonth mo
    → 1 ≤ mo.year
    → 1 ≤ anchor_day
    → anchor_day ≤ 28
    → IsDate (nominal_start anchor_day (months_back mo (negsuc 0)))
unfolding nominal_start next_month
nominal_start-IsDate anchor_day mo w y a b = rw (months_back-next_month mo w) (
  (ground arith, ground arith, ground arith, a),
  omega (arith, days_in_month-ge (next_month mo).year (next_month mo).month),
)

year-flow_month_of :
    (d : Day) (anchor_day : ℕ) → 18 ≤ d.year → 1 ≤ (flow_month_of d anchor_day).year
unfolding flow_month_of
year-flow_month_of d anchor_day y = ground arith

module _ (local_date : ℕ → Day) (c : FlowCalendar) where
  -- The month of the window that holds the row's day.
  abbrev pub nominal_month : Flagged → Month
  nominal_month r = flow_month_of (row_day local_date c r) c.settings.anchor_day

  is_next :
      (r : Flagged)
      → IsDay (row_day local_date c r)
      → nominal_month r ≢ months_back (nominal_month r) (negsuc 0)
  is_next r v e =
      let w = flow_month_of-IsMonth (row_day local_date c r) c.settings.anchor_day v in
      let a = months_back_lem (nominal_month r) (negsuc 0) w (omega arith) in
      omega (arith, a, ap index e)

  -- The first day of the month after that of the row's window.
  abbrev pub next_anchor : Flagged → Day
  next_anchor r = nominal_start c.settings.anchor_day (months_back (nominal_month r) (negsuc 0))

  -- A completed row of a bank, counted, that reaches the floor of a main income and is of a recurring
  -- merchant, on one of the sixteen days before the next month, which does not begin on the first.
  abbrev pub IsWaiting : Flagged → Type 0
  IsWaiting r =
      (1 < c.settings.anchor_day)
      × ((floor8 : ℤ) × (c.floor8 ≡ some floor8) × (leb_ℤ floor8 (eightfold r.amount) ≡ true))
      × (r.status ≡ completed)
      × (r.excluded ≡ false)
      × (company_kind r.company ≡ CompanyKind.bank)
      × Memᴰ (merchant_key (codes r.description) (text_or_none r.memo)) c.recurring
      × IsShortlyBefore 16 (next_anchor r) (row_day local_date c r)

  is_main_income-parts :
      (r : Flagged)
      → is_main_income local_date c r ≡ true
      → (1 < c.settings.anchor_day)
        × ((floor8 : ℤ) × (c.floor8 ≡ some floor8) × (leb_ℤ floor8 (eightfold r.amount) ≡ true))
        × (r.status ≡ completed)
        × (r.excluded ≡ false)
        × (company_kind r.company ≡ CompanyKind.bank)
        × Memᴰ (merchant_key (codes r.description) (text_or_none r.memo)) c.recurring
  unfolding is_main_income
  is_main_income-parts r h = (
    ground arith,
    (reaches_iff c.floor8 r.amount).0 (ground arith),
    (is_completed_iff r.status).0 (ground arith),
    ground arith,
    (is_bank_iff r.company).0 (ground arith),
    (is_recurring_iff _ c.recurring).0 (ground arith),
  )

  parts-is_main_income : (r : Flagged) → IsWaiting r → is_main_income local_date c r ≡ true
  unfolding is_main_income
  parts-is_main_income r (anchor, floor, done, kept, bank, recurs, zone) = ground (
    arith,
    anchor,
    (reaches_iff c.floor8 r.amount).1 floor,
    (is_completed_iff r.status).1 done,
    kept,
    (is_bank_iff r.company).1 bank,
    (is_recurring_iff _ c.recurring).1 recurs,
  )

  zone_iff :
      (r : Flagged)
      → IsDate (row_day local_date c r)
      → 18 ≤ (row_day local_date c r).year
      → 1 ≤ c.settings.anchor_day
      → c.settings.anchor_day ≤ 28
      → (in_waiting_zone c.settings.anchor_day (nominal_month r) (row_day local_date c r) ≡ true)
        ↔ IsShortlyBefore 16 (next_anchor r) (row_day local_date c r)
  unfolding in_waiting_zone
  zone_iff r v y a b =
      let month = flow_month_of-IsMonth (row_day local_date c r) c.settings.anchor_day v.0 in
      let window =
        (flow_month_of_iff c.settings.anchor_day (nominal_month r) (row_day local_date c r) month
            v.0 a).1
          refl in
      days_back_iff 16 (next_anchor r) (row_day local_date c r)
        (nominal_start-IsDate c.settings.anchor_day (nominal_month r) month
          (year-flow_month_of (row_day local_date c r) c.settings.anchor_day y) a b)
        v y window.1

  -- For an anchor day from 1 to 28, a row on a day of the calendar from the year 18 on is put into the
  -- month after that of its window exactly if it is a completed row of a bank, not excluded, that
  -- reaches the calendar's floor of a main income, of a merchant that the calendar lists as recurring,
  -- on one of the last sixteen days before the anchor of that next month, and the anchor day is not 1;
  -- every other row is put into the month of its window.
  pub month_of_row_iff :
      (r : Flagged)
      → IsDate (row_day local_date c r)
      → 18 ≤ (row_day local_date c r).year
      → 1 ≤ c.settings.anchor_day
      → c.settings.anchor_day ≤ 28
      → ((month_of_row local_date c r ≡ months_back (nominal_month r) (negsuc 0)) ↔ IsWaiting r)
        × (¬ IsWaiting r → month_of_row local_date c r ≡ nominal_month r)
  unfolding month_of_row
  month_of_row_iff r v y a b =
      let zone = zone_iff r v y a b in
      elim (Bool-cases (is_main_income local_date c r)) [
        | inl m ↦
            elim (Bool-cases
              (in_waiting_zone c.settings.anchor_day (nominal_month r) (row_day local_date c r))) [
                | inl z ↦
                    let parts = is_main_income-parts r m in
                    let waiting : IsWaiting r =
                      (parts.0, parts.1, parts.2, parts.3, parts.4, parts.5, zone.0 z) in
                    rw (m, z) ((λ _. waiting, λ _. refl), λ n. absurd (n waiting))
                | inr z ↦
                    rw (m, z)
                      (
                        (
                          λ e. absurd (is_next r v.0 e),
                          λ w. absurd (false≢true (sym z ∙ zone.1 w.6)),
                        ),
                        λ _. refl,
                      )
              ]
        | inr m ↦ rw m (
          (
            λ e. absurd (is_next r v.0 e),
            λ w. absurd (false≢true (sym m ∙ parts-is_main_income r w)),
          ),
          λ _. refl,
        )
      ]

  lens_row-counts :
      (s : FlowSettings) (current : Month) (r : Flagged)
      → (counts (lens_row local_date c s current r)
          && ltb_month current (lens_row local_date c s current r).month)
        ≡ false
  unfolding lens_row counts
  lens_row-counts s current r = ground arith

  -- After the lens, no row that counts lies beyond the current flow month.
  pub apply_lens-counts :
      (s : FlowSettings) (today : ℕ) (rows : List Flagged)
      → All
          (λ (r : Flagged). (counts r && ltb_month (month_of local_date c today) r.month) ≡ false)
          (apply_lens local_date rows s today c)
  unfolding apply_lens
  apply_lens-counts s today [] = tt
  apply_lens-counts s today (r ∷ rows) = (lens_row-counts s _ r, apply_lens-counts s today rows)
