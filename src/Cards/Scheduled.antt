-- ===== src/Cards/Scheduled.antt =====
-- What the card companies have scheduled, of server/src/cards.ts, against the rows.
use misgeret.Base.{
  ℕ, ◌≡◌, refl, ◌&&◌, sym, ap, subst, ◌∙◌, Bool, true, false, Option, none, some, List, [], ◌∷◌,
  filter, String, if◌then◌else◌, Bool-cases, inl, inr, arith, ℤ, pos, neg, ◌+ℤ◌, sum_of, sum_of-map,
  leb_ℤ, +ℤ-zero, zero-+ℤ, +ℤ_assoc,
}
use misgeret.Base.Dict.{get, has_key, Distinct, Distinct-update, get-update, apply_or}
use misgeret.Base.Sort.{sort_by, sum_of-sort_by}
use misgeret.Calendar.{Day, ltb_day}
use misgeret.Companies.{CompanyKind, company_kind, is_card}
use misgeret.Txns.{Flagged, Status, completed, pending, is_completed}
use misgeret.Cards.{
  UpcomingCardCharge, Bucket, no_bucket, add_row, is_large, Line, eq_line, eq_line_iff, line_key,
  scheduled_on, line_of, note_row, buckets_of, charge_of, nearest_first, all_upcoming,
}

abbrev pub at_line : Line → Option Line → ℤ → ℤ
at_line k none a = pos 0
at_line k (some l) a = if eq_line l k then a else pos 0

net_of : Option Bucket → ℤ
net_of none = pos 0
net_of (some b) = b.net

module _ (local_day : ℕ → Day) (today : Day) (k : Line) where
  -- What a row is due to take on line `k`: the amount of a completed row of a card company with a
  -- charge day after today, if day and company are those of the line.
  abbrev due_part : CompanyKind → Status → Option ℕ → String → ℤ → ℤ
  due_part CompanyKind.card completed (some t) company a =
      if ltb_day today (local_day t) && eq_line (local_day t, company) k then a else pos 0
  due_part _ _ _ _ a = pos 0

  -- The sum of the amounts of the rows that are due on line `k`.
  abbrev pub scheduled_net : List Flagged → ℤ
  scheduled_net =
      sum_of (λ r. due_part (company_kind r.company) r.status r.processed_date r.company r.amount)

  at_line-scheduled_on :
      (r : Flagged)
      → at_line k (scheduled_on local_day today r) r.amount
        ≡ due_part (company_kind r.company) r.status r.processed_date r.company r.amount
  unfolding scheduled_on line_of is_card is_completed
  at_line-scheduled_on r = by_parts (company_kind r.company) r.status r.processed_date
    where
      on_day :
          (t : ℕ)
          → at_line k
              (if ltb_day today (local_day t) then some (local_day t, r.company) else none)
              r.amount
            ≡ due_part CompanyKind.card completed (some t) r.company r.amount
      on_day t = elim (Bool-cases (ltb_day today (local_day t))) [
        | inl e ↦ rw e refl
        | inr e ↦ rw e refl
      ]

      by_parts :
          (kind : CompanyKind) (status : Status) (o : Option ℕ)
          → at_line k
              (elim o [
                | none ↦ none
                | some t ↦
                    if elim kind [ CompanyKind.card ↦ true | _ ↦ false ]
                      && elim status [ completed ↦ true | pending ↦ false ]
                      && ltb_day today (local_day t)
                    then some (local_day t, r.company)
                    else none
              ])
              r.amount
            ≡ due_part kind status o r.company r.amount
      by_parts CompanyKind.card completed (some t) = on_day t
      by_parts CompanyKind.card completed none = refl
      by_parts CompanyKind.card pending (some t) = refl
      by_parts CompanyKind.card pending none = refl
      by_parts CompanyKind.bank status none = refl
      by_parts CompanyKind.bank status (some t) = refl
      by_parts CompanyKind.other status none = refl
      by_parts CompanyKind.other status (some t) = refl

  net-note_row :
      (o : Option Line) (r : Flagged) (bs : List (Line × Bucket))
      → net_of (get k (note_row local_day o r bs)) ≡ net_of (get k bs) +ℤ at_line k o r.amount
  unfolding note_row net_of add_row apply_or
  net-note_row none r bs = sym (+ℤ-zero _)
  net-note_row (some l) r bs = elim (Bool-cases (eq_line l k)) [
    | inl e ↦
        rw (get-update k l (add_row r) no_bucket bs, e)
          (noted (get l bs) ∙ ap (λ i. net_of (get i bs) +ℤ r.amount) ((eq_line_iff l k).0 e))
    | inr e ↦ rw (get-update k l (add_row r) no_bucket bs, e) (sym (+ℤ-zero _))
  ]
    where
      noted :
          (o : Option Bucket)
          → net_of (some (apply_or (add_row r) no_bucket o)) ≡ net_of o +ℤ r.amount
      noted none = refl
      noted (some b) = refl

  net-buckets_of :
      (bs : List (Line × Bucket)) (rows : List Flagged)
      → net_of (get k (buckets_of local_day today bs rows))
        ≡ net_of (get k bs) +ℤ scheduled_net rows
  unfolding buckets_of sum_of
  net-buckets_of bs [] = sym (+ℤ-zero _)
  net-buckets_of bs (r ∷ rows) =
      let noted = net-note_row (scheduled_on local_day today r) r bs in
      net-buckets_of (note_row local_day (scheduled_on local_day today r) r bs) rows
      ∙ ap (λ x. x +ℤ scheduled_net rows)
          (noted ∙ ap (λ a. net_of (get k bs) +ℤ a) (at_line-scheduled_on r))
      ∙ +ℤ_assoc _ _ _

Distinct-buckets_of :
    (local_day : ℕ → Day) (today : Day) (rows : List Flagged) (bs : List (Line × Bucket))
    → Distinct bs
    → Distinct (buckets_of local_day today bs rows)
unfolding buckets_of note_row
Distinct-buckets_of local_day today [] bs d = d
Distinct-buckets_of local_day today (r ∷ rows) bs d =
    Distinct-buckets_of local_day today rows
      (note_row local_day (scheduled_on local_day today r) r bs)
      (noted (scheduled_on local_day today r))
  where
    noted : (o : Option Line) → Distinct (note_row local_day o r bs)
    noted none = d
    noted (some l) = Distinct-update l (add_row r) no_bucket bs d

-- An amount of a shekel or more, or nothing.
abbrev pub large_part : ℤ → ℤ
large_part a = if leb_ℤ (pos 100) a then a else pos 0

due_or_nothing : ℤ → ℤ
due_or_nothing a = if is_large a then a else pos 0

due_or_nothing_lem : (a : ℤ) → due_or_nothing a ≡ large_part a
unfolding due_or_nothing is_large
due_or_nothing_lem a = refl

abbrev is_due : Line × Bucket → Bool
is_due x = is_large (neg x.1.net)

module _ (k : Line) where
  abbrev pub amount_at : UpcomingCardCharge → ℤ
  amount_at c = if eq_line (c.day, c.company) k then c.amount else pos 0

  part_at : Line × Bucket → ℤ
  part_at x = if eq_line x.0 k then neg x.1.net else pos 0

  amount_at-charge_of : (x : Line × Bucket) → amount_at (charge_of x) ≡ part_at x
  unfolding charge_of part_at
  amount_at-charge_of x = refl

  part_at-absent :
      (bs : List (Line × Bucket)) → has_key k bs ≡ false → sum_of part_at (filter is_due bs) ≡ pos 0
  unfolding has_key filter sum_of part_at
  part_at-absent [] h = refl
  part_at-absent ((l, b) ∷ bs) h = elim (Bool-cases (is_large (neg b.net))) [
    | inl e ↦ rw e (ground (arith, part_at-absent bs, zero-+ℤ (pos 0)))
    | inr e ↦ rw e (ground (arith, part_at-absent bs))
  ]

  part_at-head :
      (l : Line) (b : Bucket) (bs : List (Line × Bucket))
      → sum_of part_at (filter is_due ((l, b) ∷ bs))
        ≡ (if eq_line l k then due_or_nothing (neg b.net) else pos 0)
          +ℤ sum_of part_at (filter is_due bs)
  unfolding filter sum_of part_at due_or_nothing
  part_at-head l b bs = elim (Bool-cases (is_large (neg b.net))) [
    | inl e ↦ rw e refl
    | inr e ↦ rw e (ground (arith, zero-+ℤ (sum_of part_at (filter is_due bs))))
  ]

  part_at-get :
      (bs : List (Line × Bucket))
      → Distinct bs
      → sum_of part_at (filter is_due bs) ≡ due_or_nothing (neg (net_of (get k bs)))
  unfolding get net_of has_key due_or_nothing
  part_at-get [] d = unfold filter sum_of is_large neg in refl
  part_at-get ((l, b) ∷ bs) d = elim (Bool-cases (eq_line l k)) [
    | inl e ↦
        rw (part_at-head l b bs, e)
          (ap (λ x. due_or_nothing (neg b.net) +ℤ x) (part_at-absent bs (absent e)) ∙ +ℤ-zero _)
    | inr e ↦ rw (part_at-head l b bs, e) (zero-+ℤ _ ∙ part_at-get bs d.1)
  ]
    where
      absent : eq_line l k ≡ true → has_key k bs ≡ false
      absent e = subst (λ i. has_key i bs ≡ false) ((eq_line_iff l k).0 e) d.0

-- For every day and company, the debits found as scheduled for them, before the list is cut to three,
-- add up to the sum of the magnitudes, refunds deducted, of the completed card rows of the company
-- with that charge day, if the day is after today; or to nothing, where that is below one shekel.
pub all_upcoming_lem :
    (local_day : ℕ → Day) (locale_leb : String → String → Bool) (today : Day) (rows : List Flagged)
    (k : Line)
    → sum_of (amount_at k) (all_upcoming local_day locale_leb today rows)
      ≡ large_part (neg (scheduled_net local_day today k rows))
unfolding all_upcoming get net_of part_at charge_of
all_upcoming_lem local_day locale_leb today rows k =
    sum_of-map (amount_at k) charge_of
      (sort_by (nearest_first locale_leb) (filter is_due (buckets_of local_day today [] rows)))
    ∙ sum_of-sort_by (part_at k) (nearest_first locale_leb)
        (filter is_due (buckets_of local_day today [] rows))
    ∙ part_at-get k (buckets_of local_day today [] rows)
        (Distinct-buckets_of local_day today rows [] tt)
    ∙ due_or_nothing_lem _
    ∙ ap (λ a. large_part (neg a)) (net-buckets_of local_day today k [] rows ∙ start)
  where
    start : pos 0 +ℤ scheduled_net local_day today k rows ≡ scheduled_net local_day today k rows
    start = zero-+ℤ _
