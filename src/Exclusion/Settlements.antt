-- ===== src/Exclusion/Settlements.antt =====
-- A card's rows and the bank's settlement of the same cycle (server/src/companies.ts).
use mathlib.Core.List.{Memᴰ}
use misgeret.Base.{
  ◌≡◌, ◌≢◌, ◌↔◌, refl, sym, subst, Bool, true, false, ◌&&◌, Option, none, some, List, [], ◌∷◌,
  String, if◌then◌else◌, ℤ, pos, ltb_ℤ, arith, Bool-cases, inl, inr,
}
use misgeret.Base.Dict.{has_key, eqb_refl}
use misgeret.Text.{Text}
use misgeret.Txns.{TxnRow, Flagged, partial, settlement}
use misgeret.Companies.{CompanyKind, company_kind, is_bank, is_card}
use misgeret.Exclusion.{
  FlowClass, internal, flow, excluded_as, counted, Cycle, cycle_key, Mode, all, debits, bank,
  cycle_of, is_card_row, is_bank_row, card_net, note_settled, settle_as, settle_net, mode_for,
  is_settlement_of, is_bank_mode, is_partial, is_savings, override_of, judge_flow, judge_as, judge,
}
use misgeret.Exclusion.Cycles.{has_key-add_to, has_key-card_net}

is_card-is_bank : (id : String) → is_card id ≡ true → is_bank id ≡ false
unfolding is_card is_bank
is_card-is_bank id = by_kind (company_kind id)
  where
    by_kind :
        (k : CompanyKind)
        → elim k as (λ _. Bool) [ CompanyKind.card ↦ true | _ ↦ false ] ≡ true
        → elim k as (λ _. Bool) [ CompanyKind.bank ↦ true | _ ↦ false ] ≡ false
    by_kind CompanyKind.card h = refl
    by_kind CompanyKind.bank h = cc
    by_kind CompanyKind.other h = refl

card_of : (a b : Bool) → (a && b) ≡ true → a ≡ true
card_of a b e = ground arith

module _ (upper : Text → Text) (connected : List String) (overrides : List (Text × FlowClass)) where
  abbrev settles : TxnRow → Option String
  settles = settle_as upper connected overrides

  abbrev net_of : List (Cycle × ℤ) → List TxnRow → List (Cycle × ℤ)
  net_of = settle_net upper connected overrides

  abbrev note : Option String → TxnRow → List (Cycle × ℤ) → List (Cycle × ℤ)
  note = note_settled upper connected overrides

  keeps_settled :
      (k : Cycle) (o : Option String) (r : TxnRow) (m : List (Cycle × ℤ))
      → has_key k m ≡ true
      → has_key k (note o r m) ≡ true
  unfolding note_settled
  keeps_settled k none r m h = h
  keeps_settled k (some c) r m h = ground (arith, has_key-add_to k (cycle_of c r) r.amount m)

  keeps_net :
      (k : Cycle) (rows : List TxnRow) (m : List (Cycle × ℤ))
      → has_key k m ≡ true
      → has_key k (net_of m rows) ≡ true
  unfolding settle_net
  keeps_net k [] m h = h
  keeps_net k (r ∷ rows) m h = keeps_net k rows _ (keeps_settled k (settles r) r m h)

  has_key-settle_net :
      (company : String) (s : TxnRow) (rows : List TxnRow) (m : List (Cycle × ℤ))
      → settles s ≡ some company
      → Memᴰ s rows
      → has_key (cycle_of company s) (net_of m rows) ≡ true
  unfolding settle_net note_settled
  has_key-settle_net company s [] m h x = elim x [ ]
  has_key-settle_net company s (r ∷ rows) m h (Memᴰ.head e) =
      subst (λ z. has_key (cycle_of company z) (net_of (note (settles r) r m) rows) ≡ true) (sym e)
        (keeps_net (cycle_of company r) rows (note (settles r) r m) (
          rw (subst (λ z. settles z ≡ some company) e h) (
            ground (
              arith,
              has_key-add_to (cycle_of company r) (cycle_of company r) r.amount m,
              eqb_refl (cycle_of company r),
            ))))
  has_key-settle_net company s (r ∷ rows) m h (Memᴰ.tail t) =
      has_key-settle_net company s rows (note (settles r) r m) h t

  abbrev judged : List TxnRow → TxnRow → Flagged
  judged = judge upper connected overrides

  abbrev mode : List TxnRow → Cycle → Mode
  mode = mode_for upper connected overrides

  flow_reason :
      (o : Option FlowClass) (r : TxnRow)
      → (judge_flow upper connected overrides o r).exclude_reason ≢ some partial
  unfolding judge_flow
  flow_reason (some internal) r e = cc
  flow_reason (some flow) r e = cc
  flow_reason none r e = ground arith

  partial_reason :
      (rows : List TxnRow) (c : TxnRow)
      → ((judge_as upper connected overrides none rows c).exclude_reason ≡ some partial)
        ↔ (is_partial upper connected overrides rows c ≡ true)
  unfolding judge_as
  partial_reason rows c = elim (Bool-cases (is_partial upper connected overrides rows c)) [
    | inl e ↦ rw e (λ _. refl, λ _. refl)
    | inr e ↦ rw e (λ f. absurd (flow_reason _ c f), λ f. cc)
  ]

  is_partial_lem :
      (rows : List TxnRow) (c : TxnRow)
      → is_card_row c ≡ true
      → has_key (cycle_of c.company c) (card_net [] rows) ≡ true
      → has_key (cycle_of c.company c) (net_of [] rows) ≡ true
      → is_partial upper connected overrides rows c
        ≡ is_bank_mode (mode rows (cycle_of c.company c))
  unfolding is_partial
  is_partial_lem rows c card own net = rw (card, own, net) refl

  card_excluded_iff :
      (rows : List TxnRow) (c : TxnRow)
      → is_card_row c ≡ true
      → settles c ≡ none
      → has_key (cycle_of c.company c) (card_net [] rows) ≡ true
      → has_key (cycle_of c.company c) (net_of [] rows) ≡ true
      → ((judged rows c).exclude_reason ≡ some partial)
        ↔ (is_bank_mode (mode rows (cycle_of c.company c)) ≡ true)
  unfolding judge
  card_excluded_iff rows c card other own net = rw other (
      subst
        (λ b.
          ((judge_as upper connected overrides none rows c).exclude_reason ≡ some partial)
          ↔ (b ≡ true))
        (is_partial_lem rows c card own net) (partial_reason rows c))

  debit_counts_iff :
      (rows : List TxnRow) (s : TxnRow) (company : String)
      → settles s ≡ some company
      → ltb_ℤ s.amount (pos 0) ≡ true
      → ((judged rows s).excluded ≡ false) ↔ (is_bank_mode (mode rows (cycle_of company s)) ≡ true)
  unfolding judge judge_as is_settlement_of is_bank_mode
  debit_counts_iff rows s company h debit = rw h (by_mode (mode rows (cycle_of company s)))
    where
      by_mode :
          (m : Mode)
          → ((if is_settlement_of m s.amount then excluded_as settlement s else counted s).excluded
              ≡ false)
            ↔ (is_bank_mode m ≡ true)
      by_mode all = (λ e. cc, λ e. cc)
      by_mode debits = rw debit (λ e. cc, λ e. cc)
      by_mode bank = (λ _. refl, λ _. refl)

  card_row-settles : (c : TxnRow) → is_card_row c ≡ true → settles c ≡ none
  unfolding settle_as is_card_row is_bank_row
  card_row-settles c h =
      let other = is_card-is_bank c.company (card_of (is_card c.company) _ h) in rw other refl

  -- A card's row whose debit is dropped is dropped only by the user's word.
  card_dropped_iff :
      (rows : List TxnRow) (c : TxnRow)
      → is_card_row c ≡ true
      → settles c ≡ none
      → has_key (cycle_of c.company c) (card_net [] rows) ≡ true
      → has_key (cycle_of c.company c) (net_of [] rows) ≡ true
      → is_bank_mode (mode rows (cycle_of c.company c)) ≡ false
      → ((judged rows c).excluded ≡ true)
        ↔ (override_of upper connected overrides c ≡ some internal)
  unfolding judge judge_as judge_flow is_savings is_card_row is_bank_row
  card_dropped_iff rows c card other own net off = rw other (
      rw (is_partial_lem rows c card own net, off)
        (by_word (override_of upper connected overrides c)))
    where
      by_word :
          (o : Option FlowClass)
          → ((judge_flow upper connected overrides o c).excluded ≡ true) ↔ (o ≡ some internal)
      by_word (some internal) = (λ _. refl, λ _. refl)
      by_word (some flow) = (λ e. cc, λ e. cc)
      by_word none =
          let bankless = is_card-is_bank c.company (card_of (is_card c.company) _ card) in
          rw bankless (λ e. cc, λ e. cc)

  card_row-partial :
      (rows : List TxnRow) (c : TxnRow)
      → settles c ≡ none
      → (judged rows c).exclude_reason ≡ some partial
      → (judged rows c).excluded ≡ true
  unfolding judge judge_as judge_flow
  card_row-partial rows c other =
      rw other (elim (Bool-cases (is_partial upper connected overrides rows c)) [
        | inl e ↦ rw e (λ _. refl)
        | inr e ↦ rw e (λ f. absurd (flow_reason _ c f))
      ])

  -- Over the rows of a history, before transfers are paired, a completed row of a card and a bank
  -- debit that settles the same card's same month are never both counted: the card's row is excluded
  -- as partial exactly if the debit counts. Where the debit is dropped, the card's row is dropped
  -- exactly if the user marked it internal.
  pub judge_one_representation :
      (rows : List TxnRow) (c s : TxnRow)
      → Memᴰ c rows
      → Memᴰ s rows
      → is_card_row c ≡ true
      → settles s ≡ some c.company
      → s.month ≡ c.month
      → ltb_ℤ s.amount (pos 0) ≡ true
      → (((judged rows s).excluded ≡ false) → ((judged rows c).excluded ≡ true))
        × (((judged rows c).exclude_reason ≡ some partial) ↔ ((judged rows s).excluded ≡ false))
        × (((judged rows s).excluded ≡ true)
            → ((judged rows c).excluded ≡ true)
              ↔ (override_of upper connected overrides c ≡ some internal))
  unfolding cycle_of
  judge_one_representation rows c s mc ms card h month debit =
      let same : cycle_of c.company s ≡ cycle_of c.company c = rw month in
      let net =
        subst (λ k. has_key k (net_of [] rows) ≡ true) same
          (has_key-settle_net c.company s rows [] h ms) in
      let own = has_key-card_net c rows [] card mc in
      let other = card_row-settles c card in
      let a = card_excluded_iff rows c card other own net in
      let b =
        subst (λ k. ((judged rows s).excluded ≡ false) ↔ (is_bank_mode (mode rows k) ≡ true)) same
          (debit_counts_iff rows s c.company h debit) in
      (
        λ e. card_row-partial rows c other (a.1 (b.0 e)),
        (λ e. b.1 (a.0 e), λ e. a.1 (b.0 e)),
        λ dropped.
            card_dropped_iff rows c card other own net
              (not_mode _ (λ t. contradiction dropped (b.1 t))),
      )
    where
      not_mode : (t : Bool) → ¬ (t ≡ true) → t ≡ false
      not_mode true n = absurd (n refl)
      not_mode false n = refl

      contradiction : {t : Bool} → t ≡ true → t ≡ false → ⊥
      contradiction e f = cc
