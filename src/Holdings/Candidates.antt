-- ===== src/Holdings/Candidates.antt =====
-- Which holdings a line of the bank's summary may mean (server/src/account-state.ts).
use mathlib.Core.Bool.{false≢true}
use mathlib.Core.List.{Memᴰ}
use misgeret.Base.{
  ◌⊎◌, ◌≡◌, sym, ◌∙◌, Bool, true, pos, map, All, ltb_ℤ, arith, ◌↔◌, mem_past, ap, refl, subst, not,
  ◌&&◌, ◌||◌, leb_ℤ, eqb_ℤ, eq_of_parts, eqb_ℤ_eq, false, some, List, [], ◌∷◌, ℤ, filter, any,
  Bool-cases, inl, inr,
}
use misgeret.Text.{Text, codes, includes}
use misgeret.Holdings.{
  HoldingType, HoldingRef, AccountStateLine, applicable_type, same_type, same_money, same_line,
  labels, synonyms_of, may_be_same_fact, other, is_untyped_candidate,
}

-- The types of holding that lines of the summary are about.
pub data IsAbout : AccountStateLine → HoldingType → Type 0 where
  deposits : IsAbout AccountStateLine.deposit HoldingType.deposit
  loans : IsAbout AccountStateLine.loan HoldingType.loan
  papers : IsAbout AccountStateLine.securities HoldingType.securities

-- A holding that has the line's amount, where that is positive, or a label of the line in its name.
abbrev pub IsSameFact : AccountStateLine → ℤ → HoldingRef → Type 0
IsSameFact line amount h =
    ((ltb_ℤ (pos 0) amount ≡ true) × (h.amount ≡ amount))
    ⊎ ((label : Text) × Memᴰ (line, label) labels × (includes (codes h.name) label ≡ true))

pub same_type_iff : (a b : HoldingType) → (same_type a b ≡ true) ↔ (a ≡ b)
unfolding same_type
same_type_iff a b = (λ e. ground arith, λ e. ground arith)

same_line_iff : (a b : AccountStateLine) → (same_line a b ≡ true) ↔ (a ≡ b)
unfolding same_line
same_line_iff a b = (λ e. ground arith, λ e. ground arith)

about-applicable_type :
    (line : AccountStateLine) (t : HoldingType) → IsAbout line t → applicable_type line ≡ some t
unfolding applicable_type
about-applicable_type line t deposits = refl
about-applicable_type line t loans = refl
about-applicable_type line t papers = refl

pub applicable_type_iff :
    (line : AccountStateLine) (t : HoldingType) → (applicable_type line ≡ some t) ↔ IsAbout line t
unfolding applicable_type
applicable_type_iff AccountStateLine.deposit t = (
  λ e.
      let same : HoldingType.deposit ≡ t = cc in
      subst (IsAbout AccountStateLine.deposit) same deposits,
  λ a. about-applicable_type _ t a,
)
applicable_type_iff AccountStateLine.loan t = (
  λ e. let same : HoldingType.loan ≡ t = cc in subst (IsAbout AccountStateLine.loan) same loans,
  λ a. about-applicable_type _ t a,
)
applicable_type_iff AccountStateLine.securities t = (
  λ e.
      let same : HoldingType.securities ≡ t = cc in
      subst (IsAbout AccountStateLine.securities) same papers,
  λ a. about-applicable_type _ t a,
)
applicable_type_iff AccountStateLine.checking t = (λ e. cc, λ a. elim a [ ])
applicable_type_iff AccountStateLine.card t = (λ e. cc, λ a. elim a [ ])

-- Nothing passes a test exactly if everything fails what the test decides.
pub absent_iff {ℓ κ} :
    {A : Type ℓ} (P : A → Type κ) (p : A → Bool)
    → ((x : A) → (p x ≡ true) ↔ P x)
    → (xs : List A) → (filter p xs ≡ []) ↔ All (λ x. ¬ P x) xs
unfolding filter
absent_iff P p d [] = (λ _. tt, λ _. refl)
absent_iff P p d (x ∷ xs) = elim (Bool-cases (p x)) [
  | inl e ↦ rw e (λ f. cc, λ a. absurd (a.0 ((d x).0 e)))
  | inr e ↦ rw e (
    λ f. (λ h. false≢true (sym e ∙ (d x).1 h), (absent_iff P p d xs).0 f),
    λ a. (absent_iff P p d xs).1 a.1,
  )
]

pub any_iff {ℓ κ} :
    {A : Type ℓ} (P : A → Type κ) (p : A → Bool)
    → ((x : A) → (p x ≡ true) ↔ P x)
    → (xs : List A) → (any p xs ≡ false) ↔ All (λ x. ¬ P x) xs
unfolding any
any_iff P p d [] = (λ _. tt, λ _. refl)
any_iff P p d (x ∷ xs) = elim (Bool-cases (p x)) [
  | inl e ↦ rw e (λ f. cc, λ a. absurd (a.0 ((d x).0 e)))
  | inr e ↦ rw e (
    λ f. (λ h. false≢true (sym e ∙ (d x).1 h), (any_iff P p d xs).0 f),
    λ a. (any_iff P p d xs).1 a.1,
  )
]

any-labels :
    (line : AccountStateLine) (p : Text → Bool) (ls : List (AccountStateLine × Text))
    → (any p (map (λ l. l.1) (filter (λ l. same_line l.0 line) ls)) ≡ true)
      ↔ ((label : Text) × Memᴰ (line, label) ls × (p label ≡ true))
unfolding any filter
any-labels line p [] = (λ e. cc, λ (t, m, e). elim m [ ])
any-labels line p ((l, x) ∷ ls) = elim (Bool-cases (same_line l line)) [
  | inl e ↦
      let own : l ≡ line = (same_line_iff l line).0 e in
      rw e (elim (Bool-cases (p x)) [
        | inl t ↦ rw t (λ _. (x, Memᴰ.head (ap (λ k. (k, x)) (sym own)), t), λ _. refl)
        | inr t ↦ rw t (
          λ f. later ((any-labels line p ls).0 f),
          λ (y, m, u).
              (any-labels line p ls).1
                (y, mem_past (λ e. false≢true (sym t ∙ ap (λ k. p (k.1)) (sym e) ∙ u)) m, u),
        )
      ])
  | inr e ↦ rw e (
    λ f. later ((any-labels line p ls).0 f),
    λ (y, m, u). (any-labels line p ls).1 (
      y,
      mem_past (λ q. false≢true (sym e ∙ (same_line_iff l line).1 (ap (λ k. k.0) (sym q)))) m,
      u,
    ),
  )
]
  where
    later :
        ((label : Text) × Memᴰ (line, label) ls × (p label ≡ true))
        → (label : Text) × Memᴰ (line, label) ((l, x) ∷ ls) × (p label ≡ true)
    later (y, m, u) = (y, Memᴰ.tail m, u)

pub is_untyped_candidate_iff :
    (line : AccountStateLine) (amount : ℤ) (h : HoldingRef)
    → (is_untyped_candidate line amount h ≡ true) ↔ ((h.type ≡ other) × IsSameFact line amount h)
unfolding is_untyped_candidate may_be_same_fact synonyms_of same_money
is_untyped_candidate_iff line amount h =
    let by_name = any-labels line (includes (codes h.name)) labels in
    let by_type = same_type_iff h.type other in
    (
      λ e. (by_type.0 (ground arith), by_test _ (λ t. by_name.0 t) (ground arith)),
      λ (t, f). both _ _ (by_type.1 t) (by_fact _ (λ q. by_name.1 q) f),
    )
  where
    both : (a b : Bool) → a ≡ true → b ≡ true → (a && b) ≡ true
    both a b e f = ground arith

    by_fact :
        {P : Type 0} (b : Bool)
        → (P → b ≡ true)
        → ((ltb_ℤ (pos 0) amount ≡ true) × (h.amount ≡ amount)) ⊎ P
        → ((not (leb_ℤ amount (pos 0)) && eqb_ℤ h.amount amount) || b) ≡ true
    by_fact b k (inl (e, f)) = ground (arith, eqb_ℤ_eq h.amount amount f)
    by_fact b k (inr q) = ground (arith, k q)

    by_test :
        {P : Type 0} (b : Bool)
        → (b ≡ true → P)
        → ((not (leb_ℤ amount (pos 0)) && eqb_ℤ h.amount amount) || b) ≡ true
        → ((ltb_ℤ (pos 0) amount ≡ true) × (h.amount ≡ amount)) ⊎ P
    by_test true k e = inr (k refl)
    by_test false k e = inl (ground arith, eq_of_parts h.amount amount (ground arith))
