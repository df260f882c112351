-- ===== src/Categories/Signs.antt =====
-- What `resolveCategory` (server/src/categories.ts) says of a debit.
use misgeret.Base.{
  ◌≡◌, ◌≢◌, refl, Bool, true, false, not, Option, none, some, List, all, arith, Bool-cases, inl,
  inr, String, str_eq, eq_iff, ℤ, pos, ltb_ℤ, leb_ℤ,
}
use misgeret.Base.Dict.{get}
use misgeret.Text.{Text, codes, text_key, is_empty, trim}
use misgeret.Txns.{TxnRow}
use misgeret.Savings.{SavingsShape, gain, cost, principal}
use misgeret.Categories.Ids.{
  CategoryId, id_of, income, groceries, restaurants, transport, housing, bills, health, shopping,
  leisure, education, insurance, transfers, fees, other,
}
use misgeret.Categories.Sectors.{issuer_category_map, sector_vocabulary}
use misgeret.Categories.Tiers.{
  none_or, none_or-first_some, none_or-get, none_or-first_family, none_or-sector_tier,
  none_or-first_answer,
}
use misgeret.Categories.{
  CategoryRule, ResolvedCategory, ResolvedSource, by_issuer, by_auto, best_rule, rule_tier,
  resolve_category, first_answer, credit_tier, sector_tier, sector_to_category, or_vocabulary,
  as_resolved, savings_tier, meaning_tier,
}
use misgeret.Categories.Merchants.{first_some}

abbrev pub is_no_income : CategoryId → Bool
is_no_income k = elim k [ income ↦ false | _ ↦ true ]

abbrev pub is_outgoing : ResolvedCategory → Bool
is_outgoing r = not (str_eq r.category "income")

outgoing-id_of :
    (source : ResolvedSource) (k : CategoryId)
    → is_no_income k ≡ true
    → is_outgoing (record { category = id_of k; source = source }) ≡ true
unfolding id_of
outgoing-id_of source income h = cc
outgoing-id_of source groceries h = refl
outgoing-id_of source restaurants h = refl
outgoing-id_of source transport h = refl
outgoing-id_of source housing h = refl
outgoing-id_of source bills h = refl
outgoing-id_of source health h = refl
outgoing-id_of source shopping h = refl
outgoing-id_of source leisure h = refl
outgoing-id_of source education h = refl
outgoing-id_of source insurance h = refl
outgoing-id_of source transfers h = refl
outgoing-id_of source fees h = refl
outgoing-id_of source other h = refl

none_or-as_resolved :
    (source : ResolvedSource) (o : Option CategoryId)
    → none_or is_no_income o ≡ true
    → none_or is_outgoing (as_resolved source o) ≡ true
unfolding as_resolved
none_or-as_resolved source none h = refl
none_or-as_resolved source (some k) h = outgoing-id_of source k h

no_income-map : all (λ x. is_no_income x.1) issuer_category_map ≡ true
unfolding all issuer_category_map
no_income-map = refl

no_income-vocabulary : all (λ x. is_no_income x.0) sector_vocabulary ≡ true
unfolding all sector_vocabulary
no_income-vocabulary = refl

no_income-or_vocabulary :
    (o : Option CategoryId) (s : Text)
    → none_or is_no_income o ≡ true
    → none_or is_no_income (or_vocabulary o s) ≡ true
unfolding or_vocabulary
no_income-or_vocabulary none s h =
    none_or-first_family is_no_income _ sector_vocabulary no_income-vocabulary
no_income-or_vocabulary (some k) s h = h

no_income-sector : (s : Text) → none_or is_no_income (sector_to_category s) ≡ true
unfolding sector_to_category
no_income-sector s = elim (Bool-cases (is_empty (trim s))) [
  | inl e ↦ rw e refl
  | inr e ↦ rw e (
      no_income-or_vocabulary _ (trim s)
        (none_or-get is_no_income (trim s) issuer_category_map no_income-map))
]

outgoing-savings :
    (bank : Bool) (shape : Option SavingsShape)
    → none_or is_outgoing (savings_tier bank false shape) ≡ true
unfolding savings_tier id_of
outgoing-savings true (some gain) = refl
outgoing-savings true (some cost) = refl
outgoing-savings true (some principal) = refl
outgoing-savings true none = refl
outgoing-savings false shape = refl

outgoing-meaning : (o : Option CategoryId) → none_or is_outgoing (meaning_tier true o) ≡ true
unfolding meaning_tier id_of
outgoing-meaning none = refl
outgoing-meaning (some income) = refl
outgoing-meaning (some groceries) = refl
outgoing-meaning (some restaurants) = refl
outgoing-meaning (some transport) = refl
outgoing-meaning (some housing) = refl
outgoing-meaning (some bills) = refl
outgoing-meaning (some health) = refl
outgoing-meaning (some shopping) = refl
outgoing-meaning (some leisure) = refl
outgoing-meaning (some education) = refl
outgoing-meaning (some insurance) = refl
outgoing-meaning (some transfers) = refl
outgoing-meaning (some fees) = refl
outgoing-meaning (some other) = refl

outgoing-first_answer :
    (overrides : List (Text × CategoryId)) (sector : Option Text) (bank : Bool)
    (shape : Option SavingsShape) (meaning hint : Option CategoryId)
    → none_or is_no_income hint ≡ true
    → all (λ x. is_no_income x.1) overrides ≡ true
    → is_outgoing (
        first_answer none
          (sector_tier overrides sector)
          (savings_tier bank false shape)
          (meaning_tier true meaning)
          (as_resolved by_auto hint)
          none)
      ≡ true
outgoing-first_answer overrides sector bank shape meaning hint h k =
    none_or-first_answer is_outgoing (sector_tier overrides sector) (savings_tier bank false shape)
      (meaning_tier true meaning) (as_resolved by_auto hint) none refl
      (none_or-sector_tier is_outgoing overrides sector (λ s.
        none_or-as_resolved by_issuer (first_some (get s overrides) (sector_to_category s)) (
          none_or-first_some is_no_income (get s overrides) (sector_to_category s)
            (none_or-get is_no_income s overrides k) (no_income-sector s))))
      (outgoing-savings bank shape) (outgoing-meaning meaning) (none_or-as_resolved by_auto hint h)
      refl

is_outgoing-resolve_category :
    (upper : Text → Text) (txn : TxnRow) (rules : List CategoryRule)
    (hints overrides : List (Text × CategoryId))
    → ltb_ℤ txn.amount (pos 0) ≡ true
    → leb_ℤ txn.amount (pos 0) ≡ true
    → best_rule (codes txn.description) none rules ≡ none
    → all (λ x. is_no_income x.1) hints ≡ true
    → all (λ x. is_no_income x.1) overrides ≡ true
    → is_outgoing (resolve_category upper txn rules hints overrides) ≡ true
unfolding resolve_category rule_tier credit_tier
is_outgoing-resolve_category upper txn rules hints overrides negative less found h k =
    rw (found, negative, less) (search (outgoing-first_answer, none_or-get is_no_income _ hints h))

-- A row with a negative amount that no rule matches, where no hint and no sector mapping of the user
-- says income, is not put under income: neither by the card company's sector, nor by the words of its
-- texts, nor by its sign.
pub resolve_category_outgoing :
    (upper : Text → Text) (txn : TxnRow) (rules : List CategoryRule)
    (hints overrides : List (Text × CategoryId))
    → ltb_ℤ txn.amount (pos 0) ≡ true
    → best_rule (codes txn.description) none rules ≡ none
    → all (λ x. is_no_income x.1) hints ≡ true
    → all (λ x. is_no_income x.1) overrides ≡ true
    → (resolve_category upper txn rules hints overrides).category ≢ "income"
resolve_category_outgoing upper txn rules hints overrides negative found h k e =
    says (resolve_category upper txn rules hints overrides).category
      (is_outgoing-resolve_category upper txn rules hints overrides negative
        (less txn.amount negative) found h k)
      e
  where
    less : (a : ℤ) → ltb_ℤ a (pos 0) ≡ true → leb_ℤ a (pos 0) ≡ true
    less a n = ground arith

    says : (c : String) → not (str_eq c "income") ≡ true → c ≡ "income" → ⊥
    says c n f = ground (arith, eq_iff c "income")
