-- ===== src/Tests/Exclusion.antt =====
-- Concrete rows to flag.
use mathlib.Core.List.{Memᴰ}
use misgeret.Text.{Text, codes, words, is_word_char, eq_text, includes, hebrew}
use misgeret.Base.{
  true, leb, ◌&&◌, ◌-◌, if◌then◌else◌, filter, ◌≡◌, ◌↔◌, refl, false, some, List, [], ◌∷◌, map,
  String, pos, neg, find?, any,
}
use misgeret.Txns.{TxnRow, partial, completed, is_completed}
use misgeret.Tests.Txns.{row_of}
use misgeret.Exclusion.{
  override_of, internal, FlowClass, flow, settle_as, is_card_row, settlement_company,
  matches_pattern, judge, pairs_of,
}
use misgeret.Companies.{is_bank, is_card, company_kind}
use misgeret.Exclusion.Words.{card_settlement_patterns}
use misgeret.Exclusion.Pairs.{IsMatching, pairs_of-IsMatching}
use misgeret.Exclusion.Settlements.{judge_one_representation}

-- Capitals of the letters a to z.
abbrev pub upper : Text → Text
upper = map (λ c. if leb 97 c && leb c 122 then c - 32 else c)

abbrev connected : List String
connected = "visaCal" ∷ []

abbrev overrides : List (Text × FlowClass)
overrides = (codes "rent", flow) ∷ []

abbrev purchase : TxnRow
purchase = record (row_of "groceries" 1 (neg (pos 5000)) completed) { company = "visaCal" }

abbrev charged : TxnRow
charged = row_of "CAL" 2 (neg (pos 9000)) completed

abbrev sent : TxnRow
sent = row_of "BIT" 2 (neg (pos 700)) completed

abbrev received : TxnRow
received = record (row_of "BIT" 2 (pos 700) completed) { account = "456" }

abbrev rows : List TxnRow
rows = purchase ∷ charged ∷ sent ∷ received ∷ row_of "rent" 2 (neg (pos 400000)) completed ∷ []

pairs_of-IsMatching_example :
    IsMatching upper connected overrides
      (pairs_of upper connected overrides (map (judge upper connected overrides rows) rows))
pairs_of-IsMatching_example =
    pairs_of-IsMatching upper connected overrides (map (judge upper connected overrides rows) rows)

judge_one_representation_example :
    (((judge upper connected overrides rows charged).excluded ≡ false)
      → ((judge upper connected overrides rows purchase).excluded ≡ true))
    × (((judge upper connected overrides rows purchase).exclude_reason ≡ some partial)
        ↔ ((judge upper connected overrides rows charged).excluded ≡ false))
    × (((judge upper connected overrides rows charged).excluded ≡ true)
        → ((judge upper connected overrides rows purchase).excluded ≡ true)
          ↔ (override_of upper connected overrides purchase ≡ some internal))
unfolding is_card_row is_card company_kind settle_as settlement_company matches_pattern
    card_settlement_patterns is_completed is_bank find? any neg includes hebrew words filter
    is_word_char eq_text
judge_one_representation_example =
    judge_one_representation upper connected overrides rows purchase charged (Memᴰ.head refl)
      (Memᴰ.tail (Memᴰ.head refl)) refl refl refl refl
