-- ===== src/Holdings.antt =====
-- server/src/account-state.ts: what a line of the bank's account summary means against the holdings
-- that the user keeps, and how long the value of a holding is believed.
-- Amounts are whole agorot, so that two are the same
-- money exactly if they are equal. The parser of the pasted text is left out.
pub mod Candidates
pub mod Resolution
use misgeret.Base.{
  ℕ, Bool, true, false, not, ◌&&◌, ◌||◌, Option, none, some, List, [], ◌∷◌, map, String, ltb, ◌==◌,
  if◌then◌else◌, ℤ, pos, leb_ℤ, eqb_ℤ, filter, any,
}
use misgeret.Text.{Text, codes, hebrew, includes}

pub data HoldingType : Type 0 where
  deposit securities pension real_estate vehicle crypto business valuable loan mortgage other :
      HoldingType

pub data Side : Type 0 where
  asset liability : Side

pub data AccountStateLine : Type 0 where
  checking card deposit loan securities : AccountStateLine

pub data PreviewAction : Type 0 where
  create update unchanged ambiguous readonly : PreviewAction

pub data AmbiguityReason : Type 0 where
  multiple_holdings untyped_candidate : AmbiguityReason

pub record HoldingRef : Type 0 where
  pub id : ℕ
  pub name : String
  pub type : HoldingType
  pub amount : ℤ

pub record LineMeaning : Type 0 where
  pub action : PreviewAction
  pub asset_id : Option ℕ
  pub ambiguity : Option AmbiguityReason

-- LABELS
unfoldable pub labels : List (AccountStateLine × Text)
labels =
    (deposit, hebrew "pqdvnvt vHskvnvt")
    ∷ (securities, hebrew "tyq nyyrvt erK")
    ∷ (card, hebrew "krTysy awray")
    ∷ (card, hebrew "krTys awray")
    ∷ (checking, hebrew "ytrt ev\"w")
    ∷ (securities, hebrew "nyyrvt erK")
    ∷ (deposit, hebrew "pqdvnvt")
    ∷ (deposit, hebrew "Hskvnvt")
    ∷ (deposit, hebrew "pyqdvN")
    ∷ (deposit, hebrew "pqdvN")
    ∷ (deposit, hebrew "HyskvN")
    ∷ (deposit, hebrew "HskvN")
    ∷ (loan, hebrew "hlvvavt")
    ∷ (loan, hebrew "hlvvah")
    ∷ (checking, hebrew "ev\"w")
    ∷ []

-- The type of holding that an applicable line is about: `deposit`, `loan` and `securities`.
unfoldable pub applicable_type : AccountStateLine → Option HoldingType
applicable_type AccountStateLine.deposit = some HoldingType.deposit
applicable_type AccountStateLine.loan = some HoldingType.loan
applicable_type AccountStateLine.securities = some HoldingType.securities
applicable_type _ = none

unfoldable pub kind_for_type : HoldingType → Side → Side
kind_for_type HoldingType.loan fallback = liability
kind_for_type HoldingType.mortgage fallback = liability
kind_for_type HoldingType.other fallback = fallback
kind_for_type _ fallback = asset

unfoldable pub same_line : AccountStateLine → AccountStateLine → Bool
same_line checking checking = true
same_line card card = true
same_line AccountStateLine.deposit AccountStateLine.deposit = true
same_line AccountStateLine.loan AccountStateLine.loan = true
same_line AccountStateLine.securities AccountStateLine.securities = true
same_line _ _ = false

unfoldable pub same_type : HoldingType → HoldingType → Bool
same_type HoldingType.deposit HoldingType.deposit = true
same_type HoldingType.securities HoldingType.securities = true
same_type pension pension = true
same_type real_estate real_estate = true
same_type vehicle vehicle = true
same_type crypto crypto = true
same_type business business = true
same_type valuable valuable = true
same_type HoldingType.loan HoldingType.loan = true
same_type mortgage mortgage = true
same_type other other = true
same_type _ _ = false

unfoldable pub same_money : ℤ → ℤ → Bool
same_money a b = eqb_ℤ a b

unfoldable pub synonyms_of : AccountStateLine → List Text
unfolding labels same_line
synonyms_of line = map (λ l. l.1) (filter (λ l. same_line l.0 line) labels)

unfoldable pub may_be_same_fact : HoldingRef → AccountStateLine → ℤ → Bool
unfolding same_money synonyms_of
may_be_same_fact h line amount =
    (not (leb_ℤ amount (pos 0)) && same_money h.amount amount)
    || any (includes (codes h.name)) (synonyms_of line)

unfoldable pub is_untyped_candidate : AccountStateLine → ℤ → HoldingRef → Bool
unfolding may_be_same_fact same_type
is_untyped_candidate line amount h = same_type h.type other && may_be_same_fact h line amount

-- From the holdings of the line's type.
unfoldable pub resolve_matches :
    List HoldingRef → AccountStateLine → ℤ → List HoldingRef → LineMeaning
unfolding is_untyped_candidate same_money
resolve_matches [] line amount holdings =
    if any (is_untyped_candidate line amount) holdings
    then record { action = ambiguous; asset_id = none; ambiguity = some untyped_candidate }
    else record { action = create; asset_id = none; ambiguity = none }
resolve_matches (h ∷ []) line amount holdings = record {
  action = if same_money h.amount amount then unchanged else update;
  asset_id = some h.id;
  ambiguity = none;
}
resolve_matches (h ∷ g ∷ rest) line amount holdings = record {
  action = ambiguous;
  asset_id = none;
  ambiguity = some multiple_holdings;
}

unfoldable pub resolve_as :
    Option HoldingType → AccountStateLine → ℤ → List HoldingRef → LineMeaning
unfolding resolve_matches same_type
resolve_as none line amount holdings = record {
  action = readonly;
  asset_id = none;
  ambiguity = none;
}
resolve_as (some t) line amount holdings =
    resolve_matches (filter (λ h. same_type h.type t) holdings) line amount holdings

unfoldable pub resolve_line : AccountStateLine → ℤ → List HoldingRef → LineMeaning
unfolding resolve_as applicable_type
resolve_line line amount holdings = resolve_as (applicable_type line) line amount holdings

-- STALENESS_BY_TYPE
unfoldable pub staleness_by_type : HoldingType → ℕ
staleness_by_type HoldingType.deposit = 45
staleness_by_type HoldingType.securities = 45
staleness_by_type HoldingType.loan = 45
staleness_by_type mortgage = 45
staleness_by_type crypto = 14
staleness_by_type pension = 120
staleness_by_type vehicle = 180
staleness_by_type real_estate = 365
staleness_by_type business = 0
staleness_by_type valuable = 0
staleness_by_type other = 0

-- n || Number.POSITIVE_INFINITY, where none is infinity
unfoldable pub or_infinity : ℕ → Option ℕ
or_infinity n = if n == 0 then none else some n

unfoldable pub is_debt : HoldingType → Bool
is_debt HoldingType.loan = true
is_debt mortgage = true
is_debt _ = false

unfoldable pub has_payment : Option ℤ → Bool
has_payment none = false
has_payment (some p) = true

unfoldable pub staleness_days : HoldingType → Option ℤ → Option ℕ
unfolding staleness_by_type or_infinity is_debt has_payment
staleness_days type monthly_payment =
    if is_debt type && has_payment monthly_payment
    then some 30
    else or_infinity (staleness_by_type type)

unfoldable pub decays : HoldingType → Bool
unfolding staleness_by_type
decays type = ltb 0 (staleness_by_type type)
