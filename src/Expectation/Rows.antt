-- ===== src/Expectation/Rows.antt =====
-- The cost of the rows of one key (server/src/expectation.ts).
use misgeret.Base.{
  ◌≡◌, refl, subst, sym, ap, ◌∙◌, Bool, true, false, ◌&&◌, List, [], ◌∷◌, map, filter, any,
  Bool-cases, inl, inr, arith, String, str_eq, eq_iff, ℤ, pos, ◌+ℤ◌, ltb_ℤ, max_ℤ, sum_of, zero-+ℤ,
  +ℤ-zero, if◌then◌else◌,
}
use misgeret.Base.Dict.{get, string_eq}
use misgeret.Expectation.{
  Kind, ExpectationRow, is_expected, is_kind, distinct_keys, keys, or_zero, amount_at,
}

module _ (k : String) where
  pub only_at : ℤ → String → ℤ
  only_at a j = if str_eq j k then a else pos 0

  pub sum_of-distinct_keys :
      (a : ℤ) (ks seen : List String)
      → sum_of (only_at a) (distinct_keys seen ks)
        ≡ (if any (str_eq k) seen then pos 0 else if any (str_eq k) ks then a else pos 0)
  unfolding distinct_keys sum_of any only_at
  sum_of-distinct_keys a [] seen = elim (Bool-cases (any (str_eq k) seen)) [
    | inl e ↦ rw e refl
    | inr e ↦ rw e refl
  ]
  sum_of-distinct_keys a (x ∷ ks) seen = elim (Bool-cases (any (str_eq x) seen)) [
    | inl e ↦
        rw (e, sum_of-distinct_keys a ks seen)
          (elim (Bool-cases (str_eq k x)) [ inl q ↦ rw (seen_as q e) refl | inr q ↦ rw q refl ])
    | inr e ↦
        rw (e, sum_of-distinct_keys a ks (x ∷ seen))
          (elim (Bool-cases (str_eq k x)) [
            | inl q ↦ rw (q, seen_as q e, turned true q) (+ℤ-zero a)
            | inr q ↦ rw (q, turned false q) (zero-+ℤ _)
          ])
  ]
    where
      seen_as : {t : Bool} → str_eq k x ≡ true → any (str_eq x) seen ≡ t → any (str_eq k) seen ≡ t
      seen_as {t} q e = subst (λ y. any (str_eq y) seen ≡ t) (sym ((eq_iff k x).0 q)) e

      turned : (t : Bool) → str_eq k x ≡ t → str_eq x k ≡ t
      turned true q = ground (arith, eq_iff k x, eq_iff x k)
      turned false q = ground (arith, eq_iff k x, eq_iff x k)

  -- What the rows of the kind and the key cost.
  abbrev pub expected_of : Kind → List ExpectationRow → ℤ
  expected_of kind = sum_of (λ r. if is_kind kind r && str_eq r.key k then r.expected else pos 0)

  pub expected_of-map :
      (kind : Kind) (f : String → ExpectationRow) (ks : List String)
      → ((j : String) → (is_kind kind (f j) ≡ true) × ((f j).key ≡ j))
      → expected_of kind (filter is_expected (map f ks))
        ≡ sum_of (only_at (max_ℤ (pos 0) (f k).expected)) ks
  unfolding filter sum_of only_at is_expected
  expected_of-map kind f [] h = refl
  expected_of-map kind f (j ∷ ks) h = elim (Bool-cases (str_eq j k)) [
    | inl q ↦ elim (Bool-cases (ltb_ℤ (pos 0) (f j).expected)) [
      | inl e ↦
          let own = subst (λ i. ltb_ℤ (pos 0) (f i).expected ≡ true) ((eq_iff j k).0 q) e in
          rw (e, own, (h j).0, (h j).1, q, expected_of-map kind f ks h)
            (ap (λ i. (f i).expected +ℤ sum_of (only_at (max_ℤ (pos 0) (f k).expected)) ks)
              ((eq_iff j k).0 q))
      | inr e ↦
          let own = subst (λ i. ltb_ℤ (pos 0) (f i).expected ≡ false) ((eq_iff j k).0 q) e in
          rw (e, own, q, expected_of-map kind f ks h) (sym (zero-+ℤ _))
    ]
    | inr q ↦ elim (Bool-cases (ltb_ℤ (pos 0) (f j).expected)) [
      | inl e ↦ rw (e, (h j).0, (h j).1, q, expected_of-map kind f ks h) refl
      | inr e ↦ rw (e, q, expected_of-map kind f ks h) (sym (zero-+ℤ _))
    ]
  ]

  pub expected_of-other :
      (kind : Kind) (f : String → ExpectationRow) (ks : List String)
      → ((j : String) → is_kind kind (f j) ≡ false)
      → expected_of kind (filter is_expected (map f ks)) ≡ pos 0
  unfolding filter sum_of
  expected_of-other kind f [] h = refl
  expected_of-other kind f (j ∷ ks) h = elim (Bool-cases (is_expected (f j))) [
    | inl e ↦ rw (e, h j) (zero-+ℤ _ ∙ expected_of-other kind f ks h)
    | inr e ↦ rw e (expected_of-other kind f ks h)
  ]

  pub amount_at-absent :
      (m : List (String × ℤ)) → any (str_eq k) (keys m) ≡ false → amount_at k m ≡ pos 0
  unfolding amount_at or_zero get any
  amount_at-absent [] h = refl
  amount_at-absent ((j, a) ∷ m) h = elim (Bool-cases (str_eq j k)) [
    | inl e ↦ absurd (clash j a m h e)
    | inr e ↦ rw e (amount_at-absent m (ground arith))
  ]
    where
      clash :
          (j : String) (a : ℤ) (m : List (String × ℤ))
          → any (str_eq k) (keys ((j, a) ∷ m)) ≡ false
          → str_eq j k ≡ true
          → ⊥
      clash j a m h e = ground (arith, eq_iff j k, eq_iff k j)
