-- ===== src/Tests/Holdings.antt =====
-- A concrete household's holdings.
use misgeret.Base.{◌≢◌, All, ◌≡◌, ◌↔◌, List, [], ◌∷◌, pos}
use misgeret.Holdings.{other, HoldingType, HoldingRef, AccountStateLine, create, resolve_line}
use misgeret.Holdings.Candidates.{IsAbout, IsSameFact}
use misgeret.Holdings.Resolution.{resolve_line-create_iff}

abbrev holdings : List HoldingRef
holdings =
    record { id = 1; name = "bank"; type = HoldingType.deposit; amount = pos 100000 }
    ∷ record { id = 2; name = "car"; type = HoldingType.other; amount = pos 9135780 }
    ∷ []

resolve_line-create_iff_example :
    ((resolve_line AccountStateLine.loan (pos 9135780) holdings).action ≡ create) ↔ (
      (t : HoldingType) × IsAbout AccountStateLine.loan t
      × All (λ (h : HoldingRef). h.type ≢ t) holdings
      × All
          (λ (h : HoldingRef).
            ¬ ((h.type ≡ other) × IsSameFact AccountStateLine.loan (pos 9135780) h))
          holdings)
resolve_line-create_iff_example =
    resolve_line-create_iff AccountStateLine.loan (pos 9135780) holdings
