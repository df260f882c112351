-- ===== src/Exclusion.antt =====
-- server/src/companies.ts, `flagExcluded`: which rows count in no view, since the same money stands
-- elsewhere or never left the household.
-- `upper` is toUpperCase, whose tables for other alphabets belong to the JavaScript engine.
-- A row is told apart from an equal one by its place in the list, as the code does by identity.
pub mod Words
pub mod Rows
pub mod Cycles
pub mod Settlements
pub mod Pairs
use misgeret.Base.{
  ℕ, ◌+◌, ◌-◌, ◌≡◌, ◌↔◌, Bool, true, false, not, ◌&&◌, ◌||◌, Option, none, some, List, [], ◌∷◌,
  ◌++◌, map, String, str_eq, ltb, leb, ◌==◌, if◌then◌else◌, ℤ, pos, neg, ◌+ℤ◌, ◌-ℤ◌, leb_ℤ, ltb_ℤ,
  eqb_ℤ, nat_abs, filter, any, find?, arith, eq_iff,
}
use misgeret.Base.Dict.{Eq, get, update, has_key, string_eq}
use misgeret.Base.Sort.{sort_by}
use misgeret.Calendar.{Month, eq_month}
use misgeret.Calendar.Keys.{eq_month_iff}
use misgeret.Companies.{is_bank, is_card}
use misgeret.Text.{Text, codes, text_key, eq_text, includes, words, is_word_char}
use misgeret.Savings.{SavingsShape, principal, savings_shape}
use misgeret.Categories.Merchants.{normalize_pattern, with_space, or_no_text, text_or_none}
use misgeret.Exclusion.Words.{Pattern, word, part, card_settlement_patterns, transfer_patterns}
use misgeret.Txns.{
  TxnRow, Flagged, ExcludeReason, settlement, transfer, partial, savings, manual, is_completed,
  or_empty,
}

pub data FlowClass : Type 0 where
  internal flow : FlowClass

-- The key `${company}|${month}`.
pub record Cycle : Type 0 where
  pub company : String
  pub month : Month

unfoldable pub eq_cycle : Cycle → Cycle → Bool
unfolding eq_month
eq_cycle a b = str_eq a.company b.company && eq_month a.month b.month

pub eq_cycle_iff : (a b : Cycle) → (eq_cycle a b ≡ true) ↔ (a ≡ b)
unfolding eq_cycle
eq_cycle_iff a b = ground (arith, eq_iff a.company b.company, eq_month_iff a.month b.month)

instance abbrev pub cycle_key : Eq Cycle
cycle_key = record { eqb = eq_cycle; eqb_iff = eq_cycle_iff }

pub data Mode : Type 0 where
  debits all bank : Mode

abbrev pub abs_ℤ : ℤ → ℤ
abs_ℤ a = pos (nat_abs a)

unfoldable pub or_zero : Option ℤ → ℤ
or_zero none = pos 0
or_zero (some a) = a

-- One shekel, in agorot.
abbrev pub tolerance : ℤ
tolerance = pos 100

-- modeFor, from the three sums of a cycle.
unfoldable pub mode_of : Option ℤ → ℤ → ℤ → Mode
mode_of none net debit = bank
mode_of (some details) net debit =
    if not (eqb_ℤ debit net) && leb_ℤ (abs_ℤ (details -ℤ debit)) tolerance
    then debits
    else if leb_ℤ (abs_ℤ net -ℤ tolerance) (abs_ℤ details)
    then all
    else bank

unfoldable pub add_to : Cycle → ℤ → List (Cycle × ℤ) → List (Cycle × ℤ)
add_to k a = update k (λ s. s +ℤ a) (pos 0)

unfoldable pub cycle_of : String → TxnRow → Cycle
cycle_of company r = record { company = company; month = r.month }

unfoldable pub is_card_row : TxnRow → Bool
is_card_row r = is_card r.company && is_completed r.status

unfoldable pub is_bank_row : TxnRow → Bool
is_bank_row r = is_bank r.company && is_completed r.status

unfoldable pub note_card : TxnRow → List (Cycle × ℤ) → List (Cycle × ℤ)
unfolding is_card_row add_to cycle_of
note_card r m = if is_card_row r then add_to (cycle_of r.company r) r.amount m else m

unfoldable pub card_net : List (Cycle × ℤ) → List TxnRow → List (Cycle × ℤ)
card_net m [] = m
card_net m (r ∷ rows) = card_net (note_card r m) rows

unfoldable pub is_settlement_of : Mode → ℤ → Bool
is_settlement_of all amount = true
is_settlement_of debits amount = ltb_ℤ amount (pos 0)
is_settlement_of bank amount = false

unfoldable pub is_bank_mode : Mode → Bool
is_bank_mode bank = true
is_bank_mode _ = false

abbrev pub excluded_as : ExcludeReason → TxnRow → Flagged
excluded_as reason r = record { row = r; excluded = true; exclude_reason = some reason }

abbrev pub counted : TxnRow → Flagged
counted r = record { row = r; excluded = false; exclude_reason = none }

abbrev pub three_days : ℕ
three_days = 259200000

-- Math.abs(a - b)
unfoldable pub distance : ℕ → ℕ → ℕ
distance a b = (a - b) + (b - a)

-- A flagged row and its place in the list.
pub record Entry : Type 0 where
  pub place : ℕ
  pub txn : Flagged

unfoldable pub places_from : ℕ → List Flagged → List Entry
places_from n [] = []
places_from n (r ∷ rows) = record { place = n; txn = r } ∷ places_from (n + 1) rows

-- The place is in `paired`.
unfoldable pub is_paired : ℕ → List (Entry × Entry) → Bool
is_paired n [] = false
is_paired n (p ∷ ps) = n == p.0.place || n == p.1.place || is_paired n ps

unfoldable pub add_pair : Entry → Option Entry → List (Entry × Entry) → List (Entry × Entry)
add_pair debit none paired = paired
add_pair debit (some credit) paired = (debit, credit) ∷ paired

unfoldable pub by_date : Entry → Entry → Bool
by_date a b = leb a.txn.date b.txn.date

unfoldable pub mark_paired : List (Entry × Entry) → List Entry → List Flagged
mark_paired paired [] = []
mark_paired paired (e ∷ es) =
    (if is_paired e.place paired then excluded_as transfer e.txn.row else e.txn)
    ∷ mark_paired paired es

unfoldable pub is_principal : Option SavingsShape → Bool
is_principal (some principal) = true
is_principal _ = false

-- tokenize
unfoldable pub tokenize : Text → List Text
tokenize s = words (λ c. not (is_word_char c)) s

module _ (upper : Text → Text) where
  unfoldable pub matches_pattern : String → Pattern → Bool
  unfolding tokenize
  matches_pattern description (word w) = any (eq_text w) (tokenize (upper (codes description)))
  matches_pattern description (part p) = includes (upper (codes description)) p

  unfoldable pub settlement_company : String → Option String
  unfolding matches_pattern card_settlement_patterns
  settlement_company description =
      elim (find? (λ c. any (matches_pattern description) c.1) card_settlement_patterns) [
        | none ↦ none
        | some c ↦ some c.0
      ]

  unfoldable pub is_transfer_like : String → Bool
  unfolding matches_pattern transfer_patterns
  is_transfer_like description = any (matches_pattern description) transfer_patterns

  module _ (connected : List String) (overrides : List (Text × FlowClass)) where
    unfoldable pub if_connected : Option String → Option String
    if_connected none = none
    if_connected (some c) = if any (str_eq c) connected then some c else none

    -- settleAs.get(r)
    unfoldable pub settle_as : TxnRow → Option String
    unfolding is_bank_row if_connected
    settle_as r = if is_bank_row r then if_connected (settlement_company r.description) else none

    unfoldable pub note_settled : Option String → TxnRow → List (Cycle × ℤ) → List (Cycle × ℤ)
    unfolding add_to cycle_of
    note_settled none r m = m
    note_settled (some c) r m = add_to (cycle_of c r) r.amount m

    unfoldable pub settle_net : List (Cycle × ℤ) → List TxnRow → List (Cycle × ℤ)
    settle_net m [] = m
    settle_net m (r ∷ rows) = settle_net (note_settled (settle_as r) r m) rows

    unfoldable pub settle_debits : List (Cycle × ℤ) → List TxnRow → List (Cycle × ℤ)
    settle_debits m [] = m
    settle_debits m (r ∷ rows) =
        settle_debits (if ltb_ℤ r.amount (pos 0) then note_settled (settle_as r) r m else m) rows

    unfoldable pub mode_for : List TxnRow → Cycle → Mode
    unfolding mode_of or_zero
    mode_for rows k =
        mode_of (get k (card_net [] rows)) (or_zero (get k (settle_net [] rows)))
          (or_zero (get k (settle_debits [] rows)))

    unfoldable pub override_of : TxnRow → Option FlowClass
    override_of r = elim (settle_as r) [
      | some c ↦ none
      | none ↦ get (normalize_pattern (codes r.description)) overrides
    ]

    unfoldable pub is_partial : List TxnRow → TxnRow → Bool
    unfolding is_card_row cycle_of is_bank_mode
    is_partial rows r =
        is_card_row r
        && has_key (cycle_of r.company r) (card_net [] rows)
        && has_key (cycle_of r.company r) (settle_net [] rows)
        && is_bank_mode (mode_for rows (cycle_of r.company r))

    unfoldable pub is_savings : TxnRow → Bool
    unfolding is_bank_row is_principal
    is_savings r =
        is_bank_row r
        && is_principal (
            savings_shape upper
              (with_space (codes r.description) (or_no_text (text_or_none r.memo))))

    -- What the row is by the user's word, or by the savings rule.
    unfoldable pub judge_flow : Option FlowClass → TxnRow → Flagged
    judge_flow (some internal) r = excluded_as manual r
    judge_flow (some flow) r = counted r
    judge_flow none r = if is_savings r then excluded_as savings r else counted r

    -- The function that `rows.map` applies, from the settlement that the row is.
    unfoldable pub judge_as : Option String → List TxnRow → TxnRow → Flagged
    unfolding is_settlement_of judge_flow
    judge_as (some company) rows r =
        if is_settlement_of (mode_for rows (cycle_of company r)) r.amount
        then excluded_as settlement r
        else counted r
    judge_as none rows r =
        if is_partial rows r then excluded_as partial r else judge_flow (override_of r) r

    unfoldable pub judge : List TxnRow → TxnRow → Flagged
    judge rows r = judge_as (settle_as r) rows r

    unfoldable pub is_pinned : Option FlowClass → Bool
    is_pinned none = false
    is_pinned (some c) = true

    unfoldable pub is_candidate : Entry → Bool
    unfolding is_pinned
    is_candidate e =
        not e.txn.excluded
        && not (is_pinned (override_of e.txn.row))
        && not (eqb_ℤ e.txn.amount (pos 0))
        && is_bank_row e.txn.row

    -- The tests that a credit passes against a debit.
    unfoldable pub is_match : Entry → Entry → Bool
    unfolding distance
    is_match debit credit =
        not (leb_ℤ credit.txn.amount (pos 0))
        && eqb_ℤ credit.txn.amount (neg debit.txn.amount)
        && not (str_eq credit.txn.account debit.txn.account)
        && leb (distance credit.txn.date debit.txn.date) three_days
        && (is_transfer_like debit.txn.description || is_transfer_like credit.txn.description)

    -- One round of the outer loop: the first credit that matches and is not paired yet.
    unfoldable pub pair_one : Entry → List Entry → List (Entry × Entry) → List (Entry × Entry)
    unfolding add_pair is_paired
    pair_one debit candidates paired =
        if leb_ℤ (pos 0) debit.txn.amount || is_paired debit.place paired
        then paired
        else add_pair debit
            (find? (λ credit. not (is_paired credit.place paired) && is_match debit credit)
              candidates)
            paired

    unfoldable pub pair_all : List Entry → List Entry → List (Entry × Entry) → List (Entry × Entry)
    pair_all [] candidates paired = paired
    pair_all (e ∷ es) candidates paired = pair_all es candidates (pair_one e candidates paired)

    unfoldable pub pairs_of : List Flagged → List (Entry × Entry)
    unfolding by_date is_candidate places_from
    pairs_of flagged =
        let candidates = sort_by by_date (filter is_candidate (places_from 0 flagged)) in
        pair_all candidates candidates []

    unfoldable pub flag_excluded : List TxnRow → List Flagged
    unfolding mark_paired
    flag_excluded rows =
        let flagged = map (judge rows) rows in
        mark_paired (pairs_of flagged) (places_from 0 flagged)
