-- ===== src/Categories/Sectors.antt =====
-- The sector names of the card companies, by server/src/categories.ts.
use misgeret.Base.{List, [], ◌∷◌}
use misgeret.Text.{Text, hebrew}
use misgeret.Categories.Ids.{
  CategoryId, groceries, restaurants, transport, housing, bills, health, shopping, leisure,
  education, insurance, transfers, fees, other,
}

-- ISSUER_CATEGORY_MAP
unfoldable pub issuer_category_map : List (Text × CategoryId)
issuer_category_map =
    (hebrew "mzvN vcrykh", groceries)
    ∷ (hebrew "svprmrqTyM", groceries)
    ∷ (hebrew "mzvN", groceries)
    ∷ (hebrew "msedvt", restaurants)
    ∷ (hebrew "msedvt vqph", restaurants)
    ∷ (hebrew "msedvt, qph vbryM", restaurants)
    ∷ (hebrew "bty qph vmsedvt", restaurants)
    ∷ (hebrew "dlq vtHbvrh", transport)
    ∷ (hebrew "dlq, Hwml vgz", transport)
    ∷ (hebrew "tHbvrh vrkbyM", transport)
    ∷ (hebrew "dlq", transport)
    ∷ (hebrew "tHbvrh", transport)
    ∷ (hebrew "rkb", transport)
    ∷ (hebrew "avpnh", shopping)
    ∷ (hebrew "qnyvt", shopping)
    ∷ (hebrew "Hwml vmHwbyM", shopping)
    ∷ (hebrew "eycvb hbyt", shopping)
    ∷ (hebrew "Hyvt mHmd", shopping)
    ∷ (hebrew "parM vbryavt", health)
    ∷ (hebrew "qvsmTyqh vTypvH", health)
    ∷ (hebrew "rpvah vbty mrqHt", health)
    ∷ (hebrew "bryavt", health)
    ∷ (hebrew "rpvah", health)
    ∷ (hebrew "byTvH", insurance)
    ∷ (hebrew "HynvK", education)
    ∷ (hebrew "spryM vdpvs", education)
    ∷ (hebrew "pnay vbydvr", leisure)
    ∷ (hebrew "pnay, bydvr vspvrT", leisure)
    ∷ (hebrew "bydvr", leisure)
    ∷ (hebrew "tyyrvt", leisure)
    ∷ (hebrew "Tysvt vtyyrvt", leisure)
    ∷ (hebrew "tqwvrt", bills)
    ∷ (hebrew "wyrvty tqwvrt", bills)
    ∷ (hebrew "eyryyh vmmwlh", bills)
    ∷ (hebrew "wyrvtyM", bills)
    ∷ (hebrew "hebrvt", transfers)
    ∷ (hebrew "hebrt kspyM", transfers)
    ∷ (hebrew "emlvt", fees)
    ∷ (hebrew "mwykt mzvmN", other)
    ∷ (hebrew "wvnvt", other)
    ∷ []

-- SECTOR_VOCABULARY
unfoldable pub sector_vocabulary : List (CategoryId × List Text)
sector_vocabulary =
    (
      transport,
      hebrew "dlq"
          ∷ hebrew "tHbvrh"
          ∷ hebrew "rkb"
          ∷ hebrew "Hnyh"
          ∷ hebrew "Hnyyh"
          ∷ hebrew "tdlvq"
          ∷ [],
    )
    ∷ (
      groceries,
      hebrew "svprmrqT"
          ∷ hebrew "svpr"
          ∷ hebrew "mzvN"
          ∷ hebrew "crykh"
          ∷ hebrew "mkvlt"
          ∷ hebrew "wvq"
          ∷ [],
    )
    ∷ (
      restaurants,
      hebrew "msed" ∷ hebrew "qph" ∷ hebrew "br" ∷ hebrew "avkl" ∷ hebrew "hsedh" ∷ [],
    )
    ∷ (
      health,
      hebrew "bryavt"
          ∷ hebrew "rpvah"
          ∷ hebrew "mrqHt"
          ∷ hebrew "parM"
          ∷ hebrew "qvsmTyqh"
          ∷ hebrew "TypvH"
          ∷ hebrew "avpTyqh"
          ∷ [],
    )
    ∷ (insurance, hebrew "byTvH" ∷ hebrew "pnsyh" ∷ hebrew "gml" ∷ [])
    ∷ (
      education,
      hebrew "HynvK" ∷ hebrew "lymvd" ∷ hebrew "spryM" ∷ hebrew "dpvs" ∷ hebrew "hvrah" ∷ [],
    )
    ∷ (
      leisure,
      hebrew "pnay"
          ∷ hebrew "bydvr"
          ∷ hebrew "spvrT"
          ∷ hebrew "tyyrvt"
          ∷ hebrew "Tys"
          ∷ hebrew "mlvn"
          ∷ hebrew "nvpw"
          ∷ hebrew "trbvt"
          ∷ hebrew "qvlnve"
          ∷ [],
    )
    ∷ (
      bills,
      hebrew "tqwvrt"
          ∷ hebrew "eyry"
          ∷ hebrew "mmwl"
          ∷ hebrew "mvnycypl"
          ∷ hebrew "wyrvtyM"
          ∷ hebrew "myM"
          ∷ hebrew "gz"
          ∷ [],
    )
    ∷ (transfers, hebrew "hebrh" ∷ hebrew "hebrt" ∷ hebrew "kspyM" ∷ [])
    ∷ (fees, hebrew "emlh" ∷ hebrew "emlvt" ∷ hebrew "rybyt" ∷ [])
    ∷ (housing, hebrew "dyvr" ∷ hebrew "wkyrvt" ∷ hebrew "mwknta" ∷ [])
    ∷ (
      shopping,
      hebrew "avpnh"
          ∷ hebrew "bygvd"
          ∷ hebrew "hnelh"
          ∷ hebrew "hlbwh"
          ∷ hebrew "mHwb"
          ∷ hebrew "alqTrvnyqh"
          ∷ hebrew "Hwml"
          ∷ hebrew "ryhvT"
          ∷ hebrew "byt"
          ∷ hebrew "Hyvt"
          ∷ hebrew "mtnvt"
          ∷ hebrew "cecveyM"
          ∷ hebrew "tkwyT"
          ∷ hebrew "qnyvt"
          ∷ hebrew "qmevn"
          ∷ [],
    )
    ∷ (other, hebrew "mzvmN" ∷ hebrew "wvnvt" ∷ hebrew "aHr" ∷ [])
    ∷ []
