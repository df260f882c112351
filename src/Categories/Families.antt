-- ===== src/Categories/Families.antt =====
-- The word families of server/src/categories.ts.
use misgeret.Base.{List, [], ◌∷◌}
use misgeret.Text.{Text, codes, hebrew}
use misgeret.Savings.Stems.{fee_stems}
use misgeret.Categories.Ids.{
  CategoryId, groceries, restaurants, transport, housing, bills, health, shopping, leisure,
  education, insurance, transfers, fees, income,
}

-- SEMANTIC_FAMILIES: the first family with a word of the text wins.
unfoldable pub semantic_families : List (CategoryId × List Text)
semantic_families =
    (fees, fee_stems)
    ∷ (
      income,
      hebrew "mwkvrt"
          ∷ hebrew "wkr ebvdh"
          ∷ hebrew "qcbt"
          ∷ hebrew "byTvH lavmy zykvy"
          ∷ hebrew "hHzr ms"
          ∷ [],
    )
    ∷ (
      housing,
      hebrew "wkr dyrh"
          ∷ hebrew "wk\"d"
          ∷ hebrew "wkd "
          ∷ hebrew "mwknta"
          ∷ hebrew "ved byt"
          ∷ hebrew "dmy wkyrvt"
          ∷ [],
    )
    ∷ (
      transport,
      hebrew "dlq"
          ∷ hebrew "tHnt"
          ∷ hebrew "pz "
          ∷ hebrew "svnvl"
          ∷ hebrew "dvr alvN"
          ∷ hebrew "yylv"
          ∷ hebrew "cmyg"
          ∷ hebrew "mvsK"
          ∷ hebrew "HnyvN"
          ∷ hebrew "Hnyh"
          ∷ hebrew "Hnyyh"
          ∷ hebrew "rkbt"
          ∷ hebrew "avTvbvs"
          ∷ hebrew "mvnyt"
          ∷ codes "GETT"
          ∷ codes "UBER"
          ∷ codes "YANGO"
          ∷ hebrew "pngv"
          ∷ hebrew "slvparq"
          ∷ hebrew "rb qv"
          ∷ hebrew "rb-qv"
          ∷ hebrew "ntyby "
          ∷ hebrew "kbyw 6"
          ∷ hebrew "TsT lyyN"
          ∷ hebrew "rywvy"
          ∷ [],
    )
    ∷ (
      groceries,
      hebrew "svprmrqT"
          ∷ hebrew "svpr "
          ∷ hebrew "mynymrqT"
          ∷ hebrew "mrqT"
          ∷ hebrew "mkvlt"
          ∷ hebrew "wvprsl"
          ∷ hebrew "rmy lvy"
          ∷ hebrew "vyqTvry"
          ∷ hebrew "yvHnnvP"
          ∷ hebrew "avwr ed"
          ∷ hebrew "Tyb TeM"
          ∷ hebrew "yynvt bytN"
          ∷ hebrew "mgh beyr"
          ∷ hebrew "yrqvt"
          ∷ hebrew "qcby"
          ∷ hebrew "aTlyz"
          ∷ hebrew "medny"
          ∷ [],
    )
    ∷ (
      restaurants,
      hebrew "pych"
          ∷ hebrew "pycryy"
          ∷ hebrew "bvrgr"
          ∷ hebrew "hmbvrgr"
          ∷ hebrew "svwy"
          ∷ hebrew "wvvarmh"
          ∷ hebrew "wvarmh"
          ∷ hebrew "plapl"
          ∷ hebrew "Hvmvs"
          ∷ hebrew "msed"
          ∷ hebrew "qph "
          ∷ hebrew "byt qph"
          ∷ hebrew "qpyt"
          ∷ hebrew "mapy"
          ∷ hebrew "qvndyTvry"
          ∷ hebrew "glydh"
          ∷ hebrew "glydry"
          ∷ hebrew "br "
          ∷ hebrew "TabvN"
          ∷ codes "WOLT"
          ∷ hebrew "tN bys"
          ∷ codes "TENBIS"
          ∷ hebrew "mqdvnld"
          ∷ hebrew "brgr qyng"
          ∷ hebrew "dvmynvs"
          ∷ hebrew "papa g'vns"
          ∷ hebrew "papa gvns"
          ∷ hebrew "arvmh"
          ∷ hebrew "qvpyqs"
          ∷ hebrew "lndvvr"
          ∷ hebrew "grg"
          ∷ hebrew "rvldyN"
          ∷ hebrew "gvldh"
          ∷ [],
    )
    ∷ (
      health,
      hebrew "parM"
          ∷ hebrew "byt mrqHt"
          ∷ hebrew "mrpa"
          ∷ hebrew "rvpa"
          ∷ hebrew "d\"r"
          ∷ hebrew "dr "
          ∷ hebrew "wynyyM"
          ∷ hebrew "mkby"
          ∷ hebrew "kllyt"
          ∷ hebrew "mavHdt"
          ∷ hebrew "lavmyt"
          ∷ hebrew "avpTyq"
          ∷ hebrew "mwqpy"
          ∷ hebrew "edwvt"
          ∷ hebrew "qvpt HvlyM"
          ∷ hebrew "mebdh rpvayt"
          ∷ [],
    )
    ∷ (
      bills,
      hebrew "Hbrt hHwml"
          ∷ hebrew "HH\"y"
          ∷ hebrew "my abybyM"
          ∷ hebrew "tagyd myM"
          ∷ hebrew "arnvnh"
          ∷ hebrew "eyryyt"
          ∷ hebrew "eyryt"
          ∷ hebrew "mvech mqvmyt"
          ∷ hebrew "slqvM"
          ∷ hebrew "plapvN"
          ∷ hebrew "prTnr"
          ∷ hebrew "hvT "
          ∷ codes "HOT"
          ∷ hebrew "bzq"
          ∷ hebrew "ys "
          ∷ codes "YES"
          ∷ hebrew "gvlN TlqvM"
          ∷ codes "012"
          ∷ codes "019"
          ∷ codes "GOOGLE"
          ∷ codes "MICROSOFT"
          ∷ codes "APPLE.COM"
          ∷ codes "ANTHROPIC"
          ∷ codes "OPENAI"
          ∷ hebrew "dvar ywral"
          ∷ [],
    )
    ∷ (
      leisure,
      codes "NETFLIX"
          ∷ codes "SPOTIFY"
          ∷ codes "DISNEY"
          ∷ hebrew "synmh"
          ∷ hebrew "qvlnve"
          ∷ hebrew "ys plnT"
          ∷ hebrew "tyaTrvN"
          ∷ hebrew "hvpeh"
          ∷ hebrew "mlvN "
          ∷ hebrew "mlvnvt"
          ∷ hebrew "cymr"
          ∷ hebrew "Tysh"
          ∷ hebrew "Tysvt"
          ∷ hebrew "al el"
          ∷ hebrew "arqye"
          ∷ hebrew "ywrayyr"
          ∷ codes "WIZZ"
          ∷ codes "RYANAIR"
          ∷ codes "BOOKING"
          ∷ codes "AIRBNB"
          ∷ codes "TRIP.COM"
          ∷ hebrew "Hdr kvwr"
          ∷ hebrew "sTvdyv "
          ∷ hebrew "brykh"
          ∷ [],
    )
    ∷ (
      education,
      hebrew "byt spr"
          ∷ hebrew "gN yldyM"
          ∷ hebrew "chrvN"
          ∷ hebrew "Hvg "
          ∷ hebrew "wyevr"
          ∷ hebrew "qvrs"
          ∷ hebrew "mkllt"
          ∷ hebrew "avnybrsyT"
          ∷ hebrew "sTymcqy"
          ∷ hebrew "cvmt spryM"
          ∷ [],
    )
    ∷ (
      insurance,
      hebrew "byTvH"
          ∷ hebrew "vvywvr"
          ∷ hebrew "hral "
          ∷ hebrew "mnvrh mbTHyM"
          ∷ hebrew "hpnyqs"
          ∷ hebrew "mgdl "
          ∷ hebrew "kll Hbrh"
          ∷ codes "AIG"
          ∷ hebrew "lybrh"
          ∷ hebrew "9 mylyvN"
          ∷ [],
    )
    ∷ (
      transfers,
      hebrew "hebrh"
          ∷ hebrew "hebrt"
          ∷ hebrew "byT"
          ∷ codes "BIT"
          ∷ codes "PAYBOX"
          ∷ hebrew "pyybvqs"
          ∷ hebrew "zykvy myydy"
          ∷ hebrew "hv\"q"
          ∷ hebrew "hvrat qbe"
          ∷ hebrew "zh\"b"
          ∷ hebrew "mwykh lHwbvN"
          ∷ [],
    )
    ∷ (
      shopping,
      hebrew "prHy"
          ∷ hebrew "zr "
          ∷ hebrew "rhyT"
          ∷ hebrew "ayqah"
          ∷ codes "IKEA"
          ∷ hebrew "hvM snTr"
          ∷ codes "ACE"
          ∷ hebrew "ayys "
          ∷ hebrew "Hwml vmHwbyM"
          ∷ codes "KSP"
          ∷ hebrew "bag"
          ∷ hebrew "aybyy"
          ∷ codes "EBAY"
          ∷ codes "AMAZON"
          ∷ codes "ALIEXPRESS"
          ∷ codes "SHEIN"
          ∷ hebrew "elyaqsprs"
          ∷ hebrew "zarh"
          ∷ codes "ZARA"
          ∷ hebrew "qsTrv"
          ∷ hebrew "pvqs"
          ∷ codes "H&M"
          ∷ hebrew "Trmynl"
          ∷ [],
    )
    ∷ []

-- GENERIC_TRANSFER_DESCRIPTIONS
unfoldable pub generic_transfer_descriptions : List Text
generic_transfer_descriptions =
    hebrew "hebrh dygyTl"
    ∷ hebrew "hebrh"
    ∷ hebrew "hebrh ecmyt"
    ∷ hebrew "hebrh myydyt"
    ∷ hebrew "zykvy myydy"
    ∷ hebrew "zykvy"
    ∷ hebrew "Hyvb myydy"
    ∷ hebrew "msb"
    ∷ hebrew "mzvmN"
    ∷ hebrew "mwykt mzvmN"
    ∷ hebrew "hpqdh"
    ∷ hebrew "hpqdt mzvmN"
    ∷ []
