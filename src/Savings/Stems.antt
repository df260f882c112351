-- ===== src/Savings/Stems.antt =====
-- The word lists of server/src/savings.ts.
use misgeret.Base.{List, [], ◌∷◌}
use misgeret.Text.{Text, codes, hebrew}

-- INSTRUMENT_STEMS
unfoldable pub instrument_stems : List Text
instrument_stems =
    hebrew "pyqdvN"
    ∷ hebrew "pqdvN"
    ∷ hebrew "pq\"M"
    ∷ hebrew "pq\"m"
    ∷ hebrew "mq\"M"
    ∷ hebrew "mq\"m"
    ∷ hebrew "tvknyt HyskvN"
    ∷ hebrew "tknyt HskvN"
    ∷ hebrew "HskvN"
    ∷ hebrew "HyskvN"
    ∷ hebrew "ny\"e"
    ∷ hebrew "nyyrvt erK"
    ∷ hebrew "ag\"H"
    ∷ hebrew "qrN namnvt"
    ∷ hebrew "qrN hwtlmvt"
    ∷ hebrew "qvpt gml"
    ∷ hebrew "qrN gml"
    ∷ hebrew "qvp\"g"
    ∷ hebrew "pvlyst HyskvN"
    ∷ []

-- RETURN_STEMS
unfoldable pub return_stems : List Text
return_stems =
    hebrew "rvvH"
    ∷ hebrew "rybyt"
    ∷ hebrew "dybydnd"
    ∷ hebrew "twvah"
    ∷ hebrew "qcbh"
    ∷ hebrew "qcbt"
    ∷ hebrew "pnsyh"
    ∷ hebrew "gmlh"
    ∷ []

-- FEE_STEMS
unfoldable pub fee_stems : List Text
fee_stems =
    hebrew "eml."
    ∷ hebrew "eml "
    ∷ hebrew "emlt"
    ∷ hebrew "emlh"
    ∷ hebrew "rybyt"
    ∷ hebrew "dmy krTys"
    ∷ hebrew "dmy nyhvl"
    ∷ hebrew "hqcat awray"
    ∷ codes "FEE"
    ∷ []

-- COST_STEMS
unfoldable pub cost_stems : List Text
cost_stems = hebrew "ms" ∷ hebrew "nykvy" ∷ fee_stems
