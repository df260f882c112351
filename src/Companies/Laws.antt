-- ===== src/Companies/Laws.antt =====
-- What the tables of the institutions promise.
use misgeret.Base.{
  ℕ, ◌≤◌, ◌≡◌, ◌↔◌, List, [], ◌∷◌, All, refl, Bool, true, false, ◌&&◌, String, str_eq, arith,
  if◌then◌else◌, ◌⊎◌, inl, inr, Bool-cases,
}
use misgeret.Base.Dict.{get, string_eq}
use misgeret.Companies.{
  or_else, history_ceilings, default_history_ceiling_months, sync_error_type, is_error_code,
  has_outage, is_maskable, sync_window_months, history_ceiling_months, sync_window,
}

outage_code : is_error_code "PROVIDER_OUTAGE" ≡ true
unfolding is_error_code
outage_code = refl

generic_code : is_error_code "GENERIC" ≡ true
unfolding is_error_code
generic_code = refl

outage_not_maskable : is_maskable "PROVIDER_OUTAGE" ≡ false
unfolding is_maskable
outage_not_maskable = refl

choice-IsCode :
    (b : Bool) (e : String)
    → is_error_code e ≡ true
    → is_error_code (if b then "PROVIDER_OUTAGE" else e) ≡ true
choice-IsCode true e h = outage_code
choice-IsCode false e h = h

-- Whatever text the library reports, the stored code is made of capitals, digits and underscores.
pub is_error_code-sync_error_type :
    (id error_type : String) → is_error_code (sync_error_type id error_type) ≡ true
unfolding sync_error_type
is_error_code-sync_error_type id error_type = elim (Bool-cases (is_error_code error_type)) [
  | inl e ↦ rw e (choice-IsCode (has_outage id && is_maskable error_type) error_type e)
  | inr e ↦ rw e (choice-IsCode (has_outage id && is_maskable "GENERIC") "GENERIC" generic_code)
]

choice-keeps :
    (b : Bool) (e : String)
    → (b ≡ true → is_maskable e ≡ true)
    → ((if b then "PROVIDER_OUTAGE" else e) ≡ e) ↔ (b ≡ false)
choice-keeps true e h = ((λ p. cc (outage_not_maskable, h refl)), (λ q. cc))
choice-keeps false e h = ((λ p. refl), (λ q. refl))

-- A well-formed error code is stored as it came exactly when the institution has no known outage or
-- the code is not one that an outage explains.
pub sync_error_type-keeps_iff :
    (id error_type : String)
    → is_error_code error_type ≡ true
    → (sync_error_type id error_type ≡ error_type)
      ↔ ((has_outage id && is_maskable error_type) ≡ false)
unfolding sync_error_type
sync_error_type-keeps_iff id error_type h =
    rw h (choice-keeps (has_outage id && is_maskable error_type) error_type (λ p. ground arith))

All-get :
    (P : ℕ → Type 0) (id : String) (d : ℕ) (m : List (String × ℕ))
    → All (λ (x : String × ℕ). P x.1) m
    → P d
    → P (or_else (get id m) d)
unfolding or_else get
All-get P id d [] h p = p
All-get P id d ((j, n) ∷ m) h p = elim (Bool-cases (str_eq j id)) [
  | inl e ↦ rw e h.0
  | inr e ↦ rw e (All-get P id d m h.1 p)
]

ceiling_at_least : (id : String) → 3 ≤ history_ceiling_months id
unfolding history_ceiling_months history_ceilings
ceiling_at_least id =
    All-get (λ n. 3 ≤ n) id default_history_ceiling_months history_ceilings (omega arith)
      (omega arith)

-- The depth that is quoted for an institution is neither above our sync depth nor above what the
-- institution delivers, is one of the two, and is never under three months.
pub sync_window_months_bounds :
    (id : String)
    → (sync_window_months id ≤ sync_window)
      × (sync_window_months id ≤ history_ceiling_months id)
      × ((sync_window_months id ≡ sync_window)
          ⊎ (sync_window_months id ≡ history_ceiling_months id))
      × (3 ≤ sync_window_months id)
unfolding sync_window_months
sync_window_months_bounds id =
    (omega arith, omega arith, grind arith, omega (arith, ceiling_at_least id))
