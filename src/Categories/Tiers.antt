-- ===== src/Categories/Tiers.antt =====
-- The tiers of `resolveCategory` (server/src/categories.ts) and its answer.
use misgeret.Base.{
  ◌≡◌, ◌⊎◌, refl, Bool, true, false, Option, none, some, List, [], ◌∷◌, any, all, arith, Bool-cases,
  inl, inr,
}
use misgeret.Base.Dict.{get, Eq}
use misgeret.Text.{Text, codes, text_key, is_empty, trim}
use misgeret.Txns.{TxnRow}
use misgeret.Savings.{SavingsShape, gain, cost, principal}
use misgeret.Categories.Ids.{
  CategoryId, id_of, income, groceries, restaurants, transport, housing, bills, health, shopping,
  leisure, education, insurance, transfers, fees, other,
}
use misgeret.Categories.Rules.{matches, IsLongest, best_rule-none}
use misgeret.Categories.{
  CategoryRule, ResolvedCategory, ResolvedSource, by_rule, by_issuer, by_auto, rule_tier, or_other,
  resolve_category, first_answer, credit_tier, sector_tier, sector_to_category, first_family,
  as_resolved, savings_tier, meaning_tier,
}
use misgeret.Categories.Merchants.{first_some}

-- A test on what an option holds, if anything.
abbrev pub none_or {ℓ} : {A : Type ℓ} → (A → Bool) → Option A → Bool
none_or p none = true
none_or p (some a) = p a

pub none_or-first_some {ℓ} :
    {A : Type ℓ} (p : A → Bool) (a b : Option A)
    → none_or p a ≡ true
    → none_or p b ≡ true
    → none_or p (first_some a b) ≡ true
unfolding first_some
none_or-first_some p none b h k = k
none_or-first_some p (some a) b h k = h

pub none_or-get {ℓ κ} :
    {K : Type ℓ} {A : Type κ} ⦃e : Eq K⦄ (p : A → Bool) (k : K) (m : List (K × A))
    → all (λ x. p x.1) m ≡ true
    → none_or p (get k m) ≡ true
unfolding get all
none_or-get p k [] h = refl
none_or-get ⦃e⦄ p k ((j, v) ∷ m) h = elim (Bool-cases (e.eqb j k)) [
  | inl same ↦ rw same (ground arith)
  | inr diff ↦ rw diff (none_or-get p k m (ground arith))
]

pub none_or-first_family :
    (p : CategoryId → Bool) (test : Text → Bool) (m : List (CategoryId × List Text))
    → all (λ x. p x.0) m ≡ true
    → none_or p (first_family test m) ≡ true
unfolding first_family all
none_or-first_family p test [] h = refl
none_or-first_family p test ((k, ws) ∷ m) h = elim (Bool-cases (any test ws)) [
  | inl hit ↦ rw hit (ground arith)
  | inr miss ↦ rw miss (none_or-first_family p test m (ground arith))
]

module _ (p : ResolvedCategory → Bool) where
  pub none_or-sector_tier :
      (overrides : List (Text × CategoryId)) (o : Option Text)
      → ((s : Text)
          → none_or p (as_resolved by_issuer (first_some (get s overrides) (sector_to_category s)))
            ≡ true)
      → none_or p (sector_tier overrides o) ≡ true
  unfolding sector_tier
  none_or-sector_tier overrides none h = refl
  none_or-sector_tier overrides (some s) h = elim (Bool-cases (is_empty s)) [
    | inl e ↦ rw e refl
    | inr e ↦ rw e (h (trim s))
  ]

  -- A test that holds of `other` and of what each tier behind the rules says holds of the answer.
  pub none_or-first_answer :
      (sector savings meaning hint credit : Option ResolvedCategory)
      → p (record { category = "other"; source = by_auto }) ≡ true
      → none_or p sector ≡ true
      → none_or p savings ≡ true
      → none_or p meaning ≡ true
      → none_or p hint ≡ true
      → none_or p credit ≡ true
      → p (first_answer none sector savings meaning hint credit) ≡ true
  unfolding first_answer first_some or_other id_of
  none_or-first_answer (some r) savings meaning hint credit d a b c e f = a
  none_or-first_answer none (some r) meaning hint credit d a b c e f = b
  none_or-first_answer none none (some r) hint credit d a b c e f = c
  none_or-first_answer none none none (some r) credit d a b c e f = e
  none_or-first_answer none none none none (some r) d a b c e f = f
  none_or-first_answer none none none none none d a b c e f = d

-- A tier behind the rules answered.
abbrev pub by_others : ResolvedCategory → Bool
by_others r = elim r.source [ by_rule ↦ false | _ ↦ true ]

by_others-as_resolved :
    (source : ResolvedSource) (o : Option CategoryId)
    → by_others (record { category = ""; source = source }) ≡ true
    → none_or by_others (as_resolved source o) ≡ true
unfolding as_resolved
by_others-as_resolved source none h = refl
by_others-as_resolved source (some k) h = h

by_others-savings_tier :
    (bank positive : Bool) (shape : Option SavingsShape)
    → none_or by_others (savings_tier bank positive shape) ≡ true
unfolding savings_tier
by_others-savings_tier true true (some gain) = refl
by_others-savings_tier true false (some gain) = refl
by_others-savings_tier true positive (some cost) = refl
by_others-savings_tier true positive (some principal) = refl
by_others-savings_tier true positive none = refl
by_others-savings_tier false positive shape = refl

by_others-meaning_tier :
    (negative : Bool) (o : Option CategoryId) → none_or by_others (meaning_tier negative o) ≡ true
unfolding meaning_tier
by_others-meaning_tier negative none = refl
by_others-meaning_tier true (some income) = refl
by_others-meaning_tier false (some income) = refl
by_others-meaning_tier negative (some groceries) = refl
by_others-meaning_tier negative (some restaurants) = refl
by_others-meaning_tier negative (some transport) = refl
by_others-meaning_tier negative (some housing) = refl
by_others-meaning_tier negative (some bills) = refl
by_others-meaning_tier negative (some health) = refl
by_others-meaning_tier negative (some shopping) = refl
by_others-meaning_tier negative (some leisure) = refl
by_others-meaning_tier negative (some education) = refl
by_others-meaning_tier negative (some insurance) = refl
by_others-meaning_tier negative (some transfers) = refl
by_others-meaning_tier negative (some fees) = refl
by_others-meaning_tier negative (some other) = refl

by_others-credit_tier : (b : Bool) → none_or by_others (credit_tier b) ≡ true
unfolding credit_tier id_of
by_others-credit_tier true = refl
by_others-credit_tier false = refl

first_answer-rule :
    (r : CategoryRule) (sector savings meaning hint credit : Option ResolvedCategory)
    → first_answer (rule_tier (some r)) sector savings meaning hint credit
      ≡ record { category = r.category; source = by_rule }
unfolding first_answer first_some or_other rule_tier
first_answer-rule r sector savings meaning hint credit = refl

by_others-first_answer :
    (overrides : List (Text × CategoryId)) (sector : Option Text) (bank positive : Bool)
    (shape : Option SavingsShape) (negative : Bool) (meaning hint : Option CategoryId)
    (credit : Bool)
    → by_others (
        first_answer none
          (sector_tier overrides sector)
          (savings_tier bank positive shape)
          (meaning_tier negative meaning)
          (as_resolved by_auto hint)
          (credit_tier credit))
      ≡ true
by_others-first_answer overrides sector bank positive shape negative meaning hint credit =
    none_or-first_answer by_others (sector_tier overrides sector) (savings_tier bank positive shape)
      (meaning_tier negative meaning) (as_resolved by_auto hint) (credit_tier credit) refl
      (none_or-sector_tier by_others overrides sector (λ s.
        by_others-as_resolved by_issuer (first_some (get s overrides) (sector_to_category s)) refl))
      (by_others-savings_tier bank positive shape) (by_others-meaning_tier negative meaning)
      (by_others-as_resolved by_auto hint refl) (by_others-credit_tier credit)

-- What the code returns for the longest matching rule, or that no rule matches and none is named.
abbrev pub IsByRule : Text → List CategoryRule → ResolvedCategory → Type 0
IsByRule description rules out =
    ((any (matches description) rules ≡ false) × (by_others out ≡ true))
    ⊎ ((r : CategoryRule) × IsLongest description rules r
        × (out ≡ record { category = r.category; source = by_rule }))

-- The user's rules come first: if one matches, the category is that of a matching rule with the
-- longest pattern; if none matches, the source is not 'rule'.
pub resolve_category-IsByRule :
    (upper : Text → Text) (txn : TxnRow) (rules : List CategoryRule)
    (hints overrides : List (Text × CategoryId))
    → IsByRule (codes txn.description) rules (resolve_category upper txn rules hints overrides)
unfolding resolve_category rule_tier
resolve_category-IsByRule upper txn rules hints overrides =
    elim (best_rule-none (codes txn.description) rules) [
      | inr (matched, (r, found, longest)) ↦ rw found (inr (r, longest, search))
      | inl (unmatched, found) ↦ rw found (inl (unmatched, search by_others-first_answer))
    ]
