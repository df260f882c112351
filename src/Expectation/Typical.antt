-- ===== src/Expectation/Typical.antt =====
-- What `typicalOf` (server/src/expectation.ts) takes as typical.
use misgeret.Base.{
  ◌≡◌, refl, ◌∙◌, Bool, true, false, ◌&&◌, ◌==◌, List, [], ◌∷◌, map, filter, all, length,
  length-filter-le, filter_full, ltb, Bool-cases, inl, inr, arith, ℤ, pos, leb_ℤ, ltb_ℤ,
  if◌then◌else◌,
}
use misgeret.Base.Sort.{sort_by}
use misgeret.Base.Dict.{string_eq}
use misgeret.Expectation.{is_spend, median, typical_of, if_large}

-- What is typical of two months or more with a cost in each: their median, from thirty shekels on.
abbrev pub typical_cost : List ℤ → ℤ
typical_cost values =
    let middle = median (sort_by leb_ℤ values) in
    if all (λ v. ltb_ℤ (pos 0) v) values && ltb 1 (length values) && leb_ℤ (pos 3000) middle
    then middle
    else pos 0

filter-all : (p : ℤ → Bool) (xs : List ℤ) → (length (filter p xs) == length xs) ≡ all p xs
unfolding filter all
filter-all p [] = refl
filter-all p (x ∷ xs) = elim (Bool-cases (p x)) [
  | inl e ↦ rw e (ground (arith, filter-all p xs))
  | inr e ↦ rw e (ground (arith, length-filter-le p xs))
]

pub if_large-typical_of : (values : List ℤ) → if_large (typical_of values) ≡ typical_cost values
unfolding if_large typical_of is_spend
if_large-typical_of values =
    rw (filter-all (λ v. ltb_ℤ (pos 0) v) values)
      (elim (Bool-cases (all (λ v. ltb_ℤ (pos 0) v) values)) [
        | inl e ↦
            let size : (length (filter (λ v. ltb_ℤ (pos 0) v) values) == length values) ≡ true =
              filter-all (λ v. ltb_ℤ (pos 0) v) values ∙ e in
            let whole : filter (λ v. ltb_ℤ (pos 0) v) values ≡ values =
              filter_full (λ v. ltb_ℤ (pos 0) v) values (ground arith) in
            rw (e, whole) (by_size (ltb 1 (length values)) (median (sort_by leb_ℤ values)))
        | inr e ↦ rw e refl
      ])
  where
    by_size :
        (b : Bool) (a : ℤ)
        → (if leb_ℤ (pos 3000) (if b then a else pos 0) then (if b then a else pos 0) else pos 0)
          ≡ (if b && leb_ℤ (pos 3000) a then a else pos 0)
    by_size true a = refl
    by_size false a = refl

pub typical_cost-nothing {ℓ} :
    {A : Type ℓ} (f : A → ℤ) (xs : List A)
    → ((x : A) (rest : List A) → xs ≡ x ∷ rest → f x ≡ pos 0)
    → typical_cost (map f xs) ≡ pos 0
unfolding all
typical_cost-nothing f [] h = refl
typical_cost-nothing f (x ∷ xs) h = rw (h x xs refl) refl
