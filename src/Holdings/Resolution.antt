-- ===== src/Holdings/Resolution.antt =====
-- What a line of the bank's summary may do to the holdings.
use misgeret.Base.{
  ℕ, ◌≡◌, ◌≢◌, All, ◌↔◌, refl, subst, false, Option, none, some, List, [], ◌∷◌, ℤ, filter, any,
  Bool-cases, inl, inr,
}
use misgeret.Holdings.{
  HoldingType, HoldingRef, AccountStateLine, create, applicable_type, same_type, same_money, other,
  is_untyped_candidate, resolve_matches, resolve_as, resolve_line,
}
use misgeret.Holdings.Candidates.{
  same_type_iff, applicable_type_iff, absent_iff, any_iff, is_untyped_candidate_iff, IsAbout,
  IsSameFact,
}

module _ (line : AccountStateLine) (amount : ℤ) (holdings : List HoldingRef) where
  abbrev of_type : HoldingType → List HoldingRef
  of_type t = filter (λ h. same_type h.type t) holdings

  create_iff :
      (ms : List HoldingRef)
      → ((resolve_matches ms line amount holdings).action ≡ create)
        ↔ ((ms ≡ []) × (any (is_untyped_candidate line amount) holdings ≡ false))
  unfolding resolve_matches
  create_iff [] = elim (Bool-cases (any (is_untyped_candidate line amount) holdings)) [
    | inl e ↦ rw e (λ h. cc, λ h. cc)
    | inr e ↦ rw e (λ h. (refl, refl), λ h. refl)
  ]
  create_iff (h ∷ []) = elim (Bool-cases (same_money h.amount amount)) [
    | inl e ↦ rw e (λ f. cc, λ f. cc)
    | inr e ↦ rw e (λ f. cc, λ f. cc)
  ]
  create_iff (h ∷ g ∷ rest) = (λ f. cc, λ f. cc)

  abbrev Creates : Option HoldingType → Type 0
  Creates o =
      (t : HoldingType) × (o ≡ some t)
      × (of_type t ≡ [])
      × (any (is_untyped_candidate line amount) holdings ≡ false)

  resolve_as-create_iff :
      (o : Option HoldingType) → ((resolve_as o line amount holdings).action ≡ create) ↔ Creates o
  unfolding resolve_as
  resolve_as-create_iff none = (λ h. cc, λ h. cc)
  resolve_as-create_iff (some t) = (
    λ h. let (e, f) = (create_iff (of_type t)).0 h in (t, refl, e, f),
    λ (u, same, e, f).
        let back : u ≡ t = cc in (create_iff (of_type t)).1 (subst (λ z. of_type z ≡ []) back e, f),
  )

  is_absent_iff :
      (t : HoldingType) → (of_type t ≡ []) ↔ All (λ (h : HoldingRef). h.type ≢ t) holdings
  is_absent_iff t =
      absent_iff (λ (h : HoldingRef). h.type ≡ t) (λ h. same_type h.type t)
        (λ h. same_type_iff h.type t) holdings

  -- A line creates a holding exactly if it is a line of deposits, of loans or of securities, no
  -- holding of that type is there, and no holding of the type `other` may be the same fact: none of
  -- them has the line's amount, where that is positive, and none has a label of the line in its name.
  pub resolve_line-create_iff : ((resolve_line line amount holdings).action ≡ create) ↔ (
      (t : HoldingType) × IsAbout line t
      × All (λ (h : HoldingRef). h.type ≢ t) holdings
      × All (λ (h : HoldingRef). ¬ ((h.type ≡ other) × IsSameFact line amount h)) holdings)
  unfolding resolve_line
  resolve_line-create_iff =
      let by = resolve_as-create_iff (applicable_type line) in
      let like =
        any_iff (λ (h : HoldingRef). (h.type ≡ other) × IsSameFact line amount h)
          (is_untyped_candidate line amount) (is_untyped_candidate_iff line amount) holdings in
      (
        λ e.
            let (t, same, none_of, none_like) = by.0 e in
            (t, (applicable_type_iff line t).0 same, (is_absent_iff t).0 none_of, like.0 none_like),
        λ (t, about, none_of, none_like). by.1 (
          t,
          (applicable_type_iff line t).1 about,
          (is_absent_iff t).1 none_of,
          like.1 none_like,
        ),
      )

  asset_id_iff :
      (id : ℕ) (ms : List HoldingRef)
      → ((resolve_matches ms line amount holdings).asset_id ≡ some id)
        ↔ ((h : HoldingRef) × (ms ≡ h ∷ []) × (h.id ≡ id))
  unfolding resolve_matches
  asset_id_iff id [] = elim (Bool-cases (any (is_untyped_candidate line amount) holdings)) [
    | inl e ↦ rw e (λ h. cc, λ h. cc)
    | inr e ↦ rw e (λ h. cc, λ h. cc)
  ]
  asset_id_iff id (h ∷ []) = (λ e. (h, refl, cc), λ (g, e, f). cc)
  asset_id_iff id (h ∷ g ∷ rest) = (λ e. cc, λ (k, e, f). cc)

  abbrev Names : ℕ → Option HoldingType → Type 0
  Names id o =
      (t : HoldingType) × (o ≡ some t) × ((h : HoldingRef) × (of_type t ≡ h ∷ []) × (h.id ≡ id))

  resolve_as-asset_id_iff :
      (id : ℕ) (o : Option HoldingType)
      → ((resolve_as o line amount holdings).asset_id ≡ some id) ↔ Names id o
  unfolding resolve_as
  resolve_as-asset_id_iff id none = (λ h. cc, λ h. cc)
  resolve_as-asset_id_iff id (some t) = (
    λ h. (t, refl, (asset_id_iff id (of_type t)).0 h),
    λ (u, same, found).
        let back : u ≡ t = cc in
        (asset_id_iff id (of_type t)).1
          (subst (λ z. (h : HoldingRef) × (of_type z ≡ h ∷ []) × (h.id ≡ id)) back found),
  )

  -- A line names a holding exactly if it is of an applicable type and that holding is the only one
  -- of the type.
  pub resolve_line-asset_id_iff :
      (id : ℕ)
      → ((resolve_line line amount holdings).asset_id ≡ some id) ↔ (
          (t : HoldingType) × (applicable_type line ≡ some t)
          × ((h : HoldingRef) × (of_type t ≡ h ∷ []) × (h.id ≡ id)))
  unfolding resolve_line
  resolve_line-asset_id_iff id = resolve_as-asset_id_iff id (applicable_type line)
