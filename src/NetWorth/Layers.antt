-- ===== src/NetWorth/Layers.antt =====
-- `buildLayerValues` of server/src/networth.ts: the daily series of each layer of the balance sheet.
use misgeret.Base.{
  ℕ, ◌≡◌, ◌↔◌, refl, sym, ◌∙◌, ap, Bool, true, false, Option, none, some, List, [], ◌∷◌, ◌++◌, map,
  ◌==◌, ==_iff, if◌then◌else◌, ℤ, pos, ◌+ℤ◌, sum_of, sum_of-map, sum_of-append, length, Bool-cases,
  inl, inr, zero-+ℤ, +ℤ-zero, +ℤ_assoc,
}
use misgeret.Base.Dict.{Eq, nat_eq, get, update, get-update, apply_or}
use misgeret.Calendar.{Day}
use misgeret.Balance.{DayBalance}
use misgeret.NetWorth.{LayerKey, Cursor, advance, total, step_totals}
use misgeret.NetWorth.Steps.{Ascending, step_totals_lem}

-- The place of a layer in LAYER_KEYS.
unfoldable pub layer_index : LayerKey → ℕ
layer_index LayerKey.checking = 0
layer_index LayerKey.card = 1
layer_index LayerKey.deposit = 2
layer_index LayerKey.securities = 3
layer_index LayerKey.pension = 4
layer_index LayerKey.real_estate = 5
layer_index LayerKey.other_asset = 6
layer_index LayerKey.loan = 7
layer_index LayerKey.other_liability = 8

layer_at : ℕ → LayerKey
layer_at n =
    if n == 0
    then LayerKey.checking
    else if n == 1
    then LayerKey.card
    else if n == 2
    then LayerKey.deposit
    else if n == 3
    then LayerKey.securities
    else if n == 4
    then LayerKey.pension
    else if n == 5
    then LayerKey.real_estate
    else if n == 6
    then LayerKey.other_asset
    else if n == 7
    then LayerKey.loan
    else LayerKey.other_liability

layer_at-layer_index : (k : LayerKey) → layer_at (layer_index k) ≡ k
unfolding layer_at layer_index
layer_at-layer_index LayerKey.checking = refl
layer_at-layer_index LayerKey.card = refl
layer_at-layer_index LayerKey.deposit = refl
layer_at-layer_index LayerKey.securities = refl
layer_at-layer_index LayerKey.pension = refl
layer_at-layer_index LayerKey.real_estate = refl
layer_at-layer_index LayerKey.other_asset = refl
layer_at-layer_index LayerKey.loan = refl
layer_at-layer_index LayerKey.other_liability = refl

unfoldable pub eq_layer : LayerKey → LayerKey → Bool
unfolding layer_index
eq_layer a b = layer_index a == layer_index b

pub eq_layer_iff : (a b : LayerKey) → (eq_layer a b ≡ true) ↔ (a ≡ b)
unfolding eq_layer
eq_layer_iff a b = (
  λ h. sym (layer_at-layer_index a) ∙ ap layer_at ((==_iff _ _).0 h) ∙ layer_at-layer_index b,
  λ e. (==_iff _ _).1 (ap layer_index e),
)

instance abbrev pub layer_key : Eq LayerKey
layer_key = record { eqb = eq_layer; eqb_iff = eq_layer_iff }

-- A holding without a layer, a snapshot of a deleted one, is skipped.
unfoldable pub note_layer :
    Option LayerKey → Cursor → List (LayerKey × List Cursor) → List (LayerKey × List Cursor)
note_layer none c m = m
note_layer (some k) c m = update k (λ cs. cs ++ c ∷ []) [] m

module _ (layer_of : List (ℕ × LayerKey)) where
  unfoldable pub by_class :
      List (LayerKey × List Cursor) → List (ℕ × Cursor) → List (LayerKey × List Cursor)
  unfolding note_layer
  by_class m [] = m
  by_class m ((id, c) ∷ holdings) = by_class (note_layer (get id layer_of) c m) holdings

-- classSeries, from what `byClass` has for the layer
unfoldable pub series_of : List Day → Option (List Cursor) → List ℤ
series_of days none = map (λ _. pos 0) days
series_of days (some cs) = step_totals days cs

pub record LayerValues : Type 0 where
  pub checking : List ℤ
  pub card : List ℤ
  pub deposit : List ℤ
  pub securities : List ℤ
  pub pension : List ℤ
  pub real_estate : List ℤ
  pub other_asset : List ℤ
  pub loan : List ℤ
  pub other_liability : List ℤ

unfoldable pub build_layer_values :
    List DayBalance → List (ℕ × Cursor) → List (ℕ × LayerKey) → List Cursor → LayerValues
unfolding by_class series_of
build_layer_values bank_series per_holding layer_of per_card =
    let days = map (λ (p : DayBalance). p.date) bank_series in
    let class_series =
      λ (k : LayerKey). series_of days (get k (by_class layer_of [] per_holding)) in
    record {
      checking = map (λ (p : DayBalance). p.balance) bank_series;
      card = series_of days (if length per_card == 0 then none else some per_card);
      deposit = class_series LayerKey.deposit;
      securities = class_series LayerKey.securities;
      pension = class_series LayerKey.pension;
      real_estate = class_series LayerKey.real_estate;
      other_asset = class_series LayerKey.other_asset;
      loan = class_series LayerKey.loan;
      other_liability = class_series LayerKey.other_liability;
    }

or_nil : Option (List Cursor) → List Cursor
or_nil none = []
or_nil (some cs) = cs

-- The value on a day of the holdings of a layer.
unfoldable pub is_in : LayerKey → Option LayerKey → Bool
is_in k none = false
is_in k (some l) = eq_layer l k

abbrev pub value_on : Day → Cursor → ℤ
value_on day c = (advance day c).current.signed

step_totals-nil : (days : List Day) → step_totals days [] ≡ map (λ _. pos 0) days
unfolding step_totals total sum_of
step_totals-nil [] = refl
step_totals-nil (d ∷ days) = ap (◌∷◌ (pos 0)) (step_totals-nil days)

series_of-or_nil :
    (days : List Day) (o : Option (List Cursor)) → series_of days o ≡ step_totals days (or_nil o)
unfolding series_of or_nil
series_of-or_nil days none = sym (step_totals-nil days)
series_of-or_nil days (some cs) = refl

value_of : Day → Option (List Cursor) → ℤ
value_of day o = sum_of (value_on day) (or_nil o)

value_of-apply_or :
    (day : Day) (c : Cursor) (o : Option (List Cursor))
    → value_of day (some (apply_or (λ cs. cs ++ c ∷ []) [] o)) ≡ value_of day o +ℤ value_on day c
unfolding value_of or_nil apply_or sum_of
value_of-apply_or day c none = +ℤ-zero (value_on day c) ∙ sym (zero-+ℤ (value_on day c))
value_of-apply_or day c (some cs) =
    sum_of-append (value_on day) cs (c ∷ []) ∙ ap (◌+ℤ◌ (sum_of (value_on day) cs)) (+ℤ-zero _)

module _ (k : LayerKey) (day : Day) where
  value_of-note_layer :
      (o : Option LayerKey) (c : Cursor) (m : List (LayerKey × List Cursor))
      → value_of day (get k (note_layer o c m))
        ≡ value_of day (get k m) +ℤ (if is_in k o then value_on day c else pos 0)
  unfolding note_layer is_in
  value_of-note_layer none c m = sym (+ℤ-zero _)
  value_of-note_layer (some l) c m = elim (Bool-cases (eq_layer l k)) [
    | inl e ↦
        rw (get-update k l (λ cs. cs ++ c ∷ []) [] m, e)
          (value_of-apply_or day c (get l m)
            ∙ ap (λ j. value_of day (get j m) +ℤ value_on day c) ((eq_layer_iff l k).0 e))
    | inr e ↦ rw (get-update k l (λ cs. cs ++ c ∷ []) [] m, e) (sym (+ℤ-zero _))
  ]

  -- The values on the day of the holdings that are in the layer.
  abbrev pub layer_total : List (ℕ × LayerKey) → List (ℕ × Cursor) → ℤ
  layer_total layer_of =
      sum_of (λ x. if is_in k (get x.0 layer_of) then value_on day x.1 else pos 0)

  value_of-by_class :
      (layer_of : List (ℕ × LayerKey)) (m : List (LayerKey × List Cursor)) (hs : List (ℕ × Cursor))
      → value_of day (get k (by_class layer_of m hs))
        ≡ value_of day (get k m) +ℤ layer_total layer_of hs
  unfolding by_class sum_of
  value_of-by_class layer_of m [] = sym (+ℤ-zero _)
  value_of-by_class layer_of m ((id, c) ∷ hs) =
      value_of-by_class layer_of (note_layer (get id layer_of) c m) hs
      ∙ ap (λ x. x +ℤ layer_total layer_of hs) (value_of-note_layer (get id layer_of) c m)
      ∙ +ℤ_assoc _ _ _

  total-by_class :
      (layer_of : List (ℕ × LayerKey)) (hs : List (ℕ × Cursor))
      → total (map (advance day) (or_nil (get k (by_class layer_of [] hs))))
        ≡ layer_total layer_of hs
  unfolding total value_of get or_nil sum_of
  total-by_class layer_of hs =
      sum_of-map _ (advance day) (or_nil (get k (by_class layer_of [] hs)))
      ∙ value_of-by_class layer_of [] hs
      ∙ zero-+ℤ _

series_of-by_class :
    (k : LayerKey) (layer_of : List (ℕ × LayerKey)) (hs : List (ℕ × Cursor)) (d : Day)
    (days : List Day)
    → Ascending d days
    → series_of (d ∷ days) (get k (by_class layer_of [] hs))
      ≡ map (λ day. layer_total k day layer_of hs) (d ∷ days)
series_of-by_class k layer_of hs d days h =
    series_of-or_nil (d ∷ days) (get k (by_class layer_of [] hs))
    ∙ step_totals_lem d days (or_nil (get k (by_class layer_of [] hs))) h
    ∙ map_congr (d ∷ days)
  where
    map_congr :
        (ds : List Day)
        → map (λ day. total (map (advance day) (or_nil (get k (by_class layer_of [] hs))))) ds
          ≡ map (λ day. layer_total k day layer_of hs) ds
    map_congr [] = refl
    map_congr (e ∷ ds) = rw (total-by_class k e layer_of hs, map_congr ds) refl

some_eq : {a b : List ℤ} → some b ≡ some a → a ≡ b
some_eq e = cc

-- The field of a layer that holds holdings; `checking` and `card` hold none.
abbrev pub layer_series : LayerKey → LayerValues → Option (List ℤ)
layer_series LayerKey.checking v = none
layer_series LayerKey.card v = none
layer_series LayerKey.deposit v = some v.deposit
layer_series LayerKey.securities v = some v.securities
layer_series LayerKey.pension v = some v.pension
layer_series LayerKey.real_estate v = some v.real_estate
layer_series LayerKey.other_asset v = some v.other_asset
layer_series LayerKey.loan v = some v.loan
layer_series LayerKey.other_liability v = some v.other_liability

abbrev pub dates : List DayBalance → List Day
dates ps = map (λ (q : DayBalance). q.date) ps

-- Over a bank series whose days do not fall, the series of each layer of holdings gives each day the
-- sum of the values, on that day, of the holdings that are in the layer: none is left out and none is
-- counted twice.
pub build_layer_values_lem :
    (k : LayerKey) (p : DayBalance) (ps : List DayBalance) (hs : List (ℕ × Cursor))
    (layer_of : List (ℕ × LayerKey)) (cards : List Cursor) (series : List ℤ)
    → Ascending p.date (dates ps)
    → layer_series k (build_layer_values (p ∷ ps) hs layer_of cards) ≡ some series
    → series ≡ map (λ day. layer_total k day layer_of hs) (dates (p ∷ ps))
unfolding build_layer_values
build_layer_values_lem k p ps hs layer_of cards series asc e = of_layer k series_of_k e
  where
    series_of_k :
        series_of (dates (p ∷ ps)) (get k (by_class layer_of [] hs))
        ≡ map (λ day. layer_total k day layer_of hs) (dates (p ∷ ps))
    series_of_k = series_of-by_class k layer_of hs p.date (dates ps) asc

    of_layer :
        (j : LayerKey)
        → series_of (dates (p ∷ ps)) (get j (by_class layer_of [] hs))
          ≡ map (λ day. layer_total j day layer_of hs) (dates (p ∷ ps))
        → layer_series j (build_layer_values (p ∷ ps) hs layer_of cards) ≡ some series
        → series ≡ map (λ day. layer_total j day layer_of hs) (dates (p ∷ ps))
    of_layer LayerKey.checking f g = cc
    of_layer LayerKey.card f g = cc
    of_layer LayerKey.deposit f g = some_eq g ∙ f
    of_layer LayerKey.securities f g = some_eq g ∙ f
    of_layer LayerKey.pension f g = some_eq g ∙ f
    of_layer LayerKey.real_estate f g = some_eq g ∙ f
    of_layer LayerKey.other_asset f g = some_eq g ∙ f
    of_layer LayerKey.loan f g = some_eq g ∙ f
    of_layer LayerKey.other_liability f g = some_eq g ∙ f
