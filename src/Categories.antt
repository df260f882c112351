-- ===== src/Categories.antt =====
-- server/src/categories.ts: the category of a transaction; Merchants has the identity of its merchant.
-- `upper` is toUpperCase, whose tables for other alphabets belong to the JavaScript engine. A sector
-- is looked up in the exact map by its own names only, not by those of JavaScript's Object.prototype.
pub mod Ids
pub mod Sectors
pub mod Families
pub mod Merchants
pub mod Rules
pub mod Tiers
pub mod Signs
use misgeret.Base.{
  ℕ, zero, suc, ◌+◌, ◌-◌, Bool, true, false, not, ◌&&◌, ◌||◌, Option, none, some, List, [], ◌∷◌,
  ◌++◌, map, any, all, filter, find?, leb, ltb, ◌==◌, if◌then◌else◌, length, String, ℤ, pos, leb_ℤ,
  ltb_ℤ,
}
use misgeret.Base.Dict.{get}
use misgeret.Text.{
  Text, codes, hebrew, text_key, eq_text, is_empty, starts_with, includes, ends_with_space,
  is_space, is_digit, words, drop_spaces, trim, join,
}
use misgeret.Companies.{is_bank}
use misgeret.Savings.{
  SavingsShape, gain, cost, principal, tokens_of, has_token, is_short, savings_shape,
}
use misgeret.Txns.{TxnRow}
use misgeret.Categories.Ids.{CategoryId, id_of, income, fees, other}
use misgeret.Categories.Sectors.{issuer_category_map, sector_vocabulary}
use misgeret.Categories.Families.{semantic_families, generic_transfer_descriptions}
use misgeret.Categories.Merchants.{
  is_line_char, is_merchant, after_marker, first_some, find_merchant, merchant_from_memo,
  suffix_length, blank_suffixes, blank_digit, is_geresh, is_punctuation, blank_punctuation, clean,
  normalize_pattern, is_generic, is_generic_transfer_description, or_no_text, with_space,
  merchant_key, collapse_spaces, drop_text, drop_colon, starts_with_space, after_direction,
  after_transfer, drop_direction, is_account_char, account_run, blank_accounts, merchant_label,
  text_or_none,
}

pub record CategoryRule : Type 0 where
  pub id : ℕ
  pub pattern : Text
  pub category : String

pub data ResolvedSource : Type 0 where
  by_rule by_issuer by_income by_auto : ResolvedSource

pub record ResolvedCategory : Type 0 where
  pub category : String
  pub source : ResolvedSource

-- The first entry with a word for which the test holds.
unfoldable pub first_family : (Text → Bool) → List (CategoryId × List Text) → Option CategoryId
first_family test [] = none
first_family test ((k, ws) ∷ rest) = if any test ws then some k else first_family test rest

unfoldable pub or_vocabulary : Option CategoryId → Text → Option CategoryId
unfolding first_family sector_vocabulary
or_vocabulary (some k) s = some k
or_vocabulary none s = first_family (includes s) sector_vocabulary

unfoldable pub sector_to_category : Text → Option CategoryId
unfolding or_vocabulary issuer_category_map
sector_to_category sector =
    let s = trim sector in if is_empty s then none else or_vocabulary (get s issuer_category_map) s

-- The loop over the rules: the longest pattern that the description contains, the first of several.
unfoldable pub better_rule : Option CategoryRule → CategoryRule → Option CategoryRule
better_rule none r = some r
better_rule (some best) r =
    if ltb (length best.pattern) (length r.pattern) then some r else some best

unfoldable pub best_rule : Text → Option CategoryRule → List CategoryRule → Option CategoryRule
unfolding better_rule
best_rule description best [] = best
best_rule description best (r ∷ rules) =
    best_rule description (if includes description r.pattern then better_rule best r else best)
      rules

abbrev pub resolved : ResolvedSource → CategoryId → Option ResolvedCategory
resolved source k = some (record { category = id_of k; source = source })

unfoldable pub rule_tier : Option CategoryRule → Option ResolvedCategory
rule_tier none = none
rule_tier (some r) = some (record { category = r.category; source = by_rule })

unfoldable pub as_resolved : ResolvedSource → Option CategoryId → Option ResolvedCategory
as_resolved source none = none
as_resolved source (some k) = resolved source k

unfoldable pub sector_tier : List (Text × CategoryId) → Option Text → Option ResolvedCategory
unfolding as_resolved first_some sector_to_category
sector_tier overrides none = none
sector_tier overrides (some s) =
    if is_empty s
    then none
    else as_resolved by_issuer (first_some (get (trim s) overrides) (sector_to_category (trim s)))

unfoldable pub savings_tier : Bool → Bool → Option SavingsShape → Option ResolvedCategory
savings_tier true positive (some gain) =
    if positive then resolved by_auto income else resolved by_auto fees
savings_tier true positive (some cost) = resolved by_auto fees
savings_tier bank positive shape = none

unfoldable pub meaning_tier : Bool → Option CategoryId → Option ResolvedCategory
meaning_tier negative none = none
meaning_tier negative (some income) = if negative then none else resolved by_auto income
meaning_tier negative (some k) = resolved by_auto k

-- memoMerchant ?? description
unfoldable pub merchant_or : Option Text → Text → Text
merchant_or none description = description
merchant_or (some m) description = m

unfoldable pub or_other : Option ResolvedCategory → ResolvedCategory
or_other none = record { category = id_of other; source = by_auto }
or_other (some r) = r

unfoldable pub credit_tier : Bool → Option ResolvedCategory
credit_tier true = resolved by_income income
credit_tier false = none

-- What the tiers say, in their order, up to the first that answers.
unfoldable pub first_answer :
    (rule sector savings meaning hint credit : Option ResolvedCategory) → ResolvedCategory
unfolding first_some or_other
first_answer rule sector savings meaning hint credit = or_other (
    first_some rule
      (first_some sector (first_some savings (first_some meaning (first_some hint credit)))))

module _ (upper : Text → Text) where
  unfoldable pub matches_stem : Text → List Text → Text → Bool
  unfolding has_token is_short
  matches_stem text tokens stem =
      let s = upper stem in
      if ends_with_space s
      then has_token tokens (trim s)
      else if is_short s
      then has_token tokens s
      else includes text s

  unfoldable pub semantic_category : Text → Option CategoryId
  unfolding matches_stem first_family semantic_families tokens_of
  semantic_category text =
      let t = upper text in first_family (matches_stem t (tokens_of t)) semantic_families

  -- memoMerchant && semanticCategory(memoMerchant)
  unfoldable pub merchant_category : Option Text → Option CategoryId
  merchant_category none = none
  merchant_category (some m) = if is_empty m then none else semantic_category m

  -- `hints` and `sector_overrides` are empty where the caller gives none.
  unfoldable pub resolve_category :
      TxnRow
      → List CategoryRule
      → List (Text × CategoryId)
      → List (Text × CategoryId)
      → ResolvedCategory
  unfolding best_rule text_or_none rule_tier sector_tier savings_tier meaning_tier merchant_or
      first_answer credit_tier merchant_category merchant_from_memo normalize_pattern or_no_text
      savings_shape
  resolve_category txn rules hints sector_overrides =
      let description = codes txn.description in
      let memo = text_or_none txn.memo in
      let text = with_space description (or_no_text memo) in
      let bank = is_bank txn.company in
      let positive = not (leb_ℤ txn.amount (pos 0)) in
      let memo_merchant = merchant_from_memo memo in
      first_answer (rule_tier (best_rule description none rules))
        (sector_tier sector_overrides (text_or_none txn.issuer_category))
        (savings_tier bank positive (savings_shape upper text))
        (meaning_tier (ltb_ℤ txn.amount (pos 0))
          (first_some (merchant_category memo_merchant) (semantic_category text)))
        (as_resolved by_auto
          (get (normalize_pattern (merchant_or memo_merchant description)) hints))
        (credit_tier (positive && bank))
