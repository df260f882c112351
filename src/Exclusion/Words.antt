-- ===== src/Exclusion/Words.antt =====
-- The word lists of server/src/companies.ts.
use misgeret.Base.{String, List, [], ◌∷◌, ◌++◌}
use misgeret.Text.{Text, codes, hebrew}

-- A pattern of at most three letters, with no dot, is a whole word; another one a part of the text.
pub data Pattern : Type 0 where
  word part : Text → Pattern

-- CARD_SETTLEMENT_PATTERNS
unfoldable pub card_settlement_patterns : List (String × List Pattern)
card_settlement_patterns =
    ("isracard", part (hebrew "ywrakrT") ∷ [])
    ∷ (
      "visaCal",
      word (hebrew "kal")
          ∷ part (hebrew "k.a.l")
          ∷ part (hebrew "vyzh kal")
          ∷ word (codes "CAL")
          ∷ [],
    )
    ∷ (
      "max",
      part (hebrew "mqs ayT")
          ∷ part (hebrew "lavmy qard")
          ∷ part (hebrew "lavmy vyzh")
          ∷ word (hebrew "mqs")
          ∷ [],
    )
    ∷ ("amex", part (hebrew "amryqN aqsprs") ∷ part (hebrew "amqs") ∷ [])
    ∷ []

-- TRANSFER_PATTERNS
unfoldable pub transfer_patterns : List Pattern
transfer_patterns =
    part (hebrew "hebrh ecmyt")
    ∷ part ((hebrew "hebrh b " ++ codes "BIT"))
    ∷ part (hebrew "hebrh bbyT")
    ∷ word (hebrew "byT")
    ∷ word (codes "BIT")
    ∷ part (codes "PAYBOX")
    ∷ part (hebrew "pyybvqs")
    ∷ []
