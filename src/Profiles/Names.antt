-- ===== src/Profiles/Names.antt =====
-- Decimal numbers, the names built from them, and the two searches for a free name of
-- server/src/profiles.ts.
use mathlib.Core.List.{reverse-reverse, reverse}
use misgeret.Base.{
  ℕ, zero, suc, ◌+◌, ◌/◌, ◌*◌, ◌-◌, ◌≤◌, ◌<◌, ◌≡◌, refl, sym, ◌∙◌, ap, arith, true, false, List, [],
  ◌∷◌, ◌++◌, map, none, any, ltb, Bool-cases, inl, inr, length-map,
}
use misgeret.Base.Dict.{has_key}
use misgeret.Text.{Text, hebrew, text_key}
use misgeret.Profiles.{Profile, Entry}
use misgeret.Profiles.Free.{
  digits_back, decimal, adoption_name, is_clash, name_taken, unused_adoption_index,
  unused_adoption_name, candidate, uncontested_name,
}
use misgeret.Profiles.Pigeons.{mem, first_free-IsFirst}

value : Text → ℕ
value [] = 0
value (c ∷ s) = (c - 48) + 10 * value s

value-digits_back : (fuel n : ℕ) → n < fuel → value (digits_back fuel n) ≡ n
unfolding value digits_back
value-digits_back zero n h = elim h [ ]
value-digits_back (suc fuel) n h = elim (Bool-cases (ltb n 10)) [
  | inl e ↦ rw (e, value) (ground arith)
  | inr e ↦ rw (e, value) (ground (arith, value-digits_back fuel (n / 10)))
]

decimal-inj : (i j : ℕ) → decimal i ≡ decimal j → i ≡ j
unfolding decimal
decimal-inj i j h =
    let e : digits_back (suc i) i ≡ digits_back (suc j) j =
      sym (reverse-reverse (digits_back (suc i) i))
      ∙ ap reverse h
      ∙ reverse-reverse (digits_back (suc j) j) in
    omega (
      arith,
      ap value e,
      value-digits_back (suc i) i (omega arith),
      value-digits_back (suc j) j (omega arith),
    )

append-cancel : (p s t : Text) → p ++ s ≡ p ++ t → s ≡ t
append-cancel [] s t h = h
append-cancel (c ∷ p) s t h = append-cancel p s t (cc)

adoption_name-inj : (i j : ℕ) → adoption_name i ≡ adoption_name j → i ≡ j
unfolding adoption_name
adoption_name-inj i j h =
    decimal-inj i j (append-cancel (hebrew "mwtmw ") (decimal i) (decimal j) h)

append-ne_self : (b s : Text) (c : ℕ) → b ≡ b ++ c ∷ s → ⊥
append-ne_self [] s c h = cc
append-ne_self (d ∷ b) s c h = append-ne_self b s c (cc)

candidate-inj : (base : Text) (i j : ℕ) → candidate base i ≡ candidate base j → i ≡ j
unfolding candidate
candidate-inj base zero zero h = refl
candidate-inj base zero (suc j) h = absurd (append-ne_self base (decimal (suc j)) 45 h)
candidate-inj base (suc i) zero h = absurd (append-ne_self base (decimal (suc i)) 45 (sym h))
candidate-inj base (suc i) (suc j) h =
    let e = append-cancel base (45 ∷ decimal (suc i)) (45 ∷ decimal (suc j)) h in
    decimal-inj (suc i) (suc j) (cc)

module _ (fold : Text → Text) where
  name_taken-mem :
      (name : Text) (ps : List Profile)
      → name_taken fold name none ps ≡ mem (fold name) (map (λ p. fold p.name) ps)
  unfolding name_taken is_clash any mem
  name_taken-mem name [] = refl
  name_taken-mem name (p ∷ ps) = ground (arith, name_taken-mem name ps)

  -- Where lower-casing leaves the default names as they are, the search for an unused one ends: the
  -- name that it gives is not taken, and the names with a smaller number are.
  pub unused_adoption_index-IsFirst :
      (keeps : (i : ℕ) → fold (adoption_name i) ≡ adoption_name i) (ps : List Profile)
      → (name_taken fold (unused_adoption_name fold ps) none ps ≡ false)
        × (1 ≤ unused_adoption_index fold ps)
        × ((j : ℕ)
            → 1 ≤ j
            → j < unused_adoption_index fold ps
            → name_taken fold (adoption_name j) none ps ≡ true)
  unfolding unused_adoption_name unused_adoption_index
  unused_adoption_index-IsFirst keeps ps = rw (sym (length-map (λ (p : Profile). fold p.name) ps)) (
      first_free-IsFirst (λ i. fold (adoption_name i))
        (λ i j h. adoption_name-inj i j (sym (keeps i) ∙ h ∙ keeps j))
        (λ i. name_taken fold (adoption_name i) none ps) (map (λ p. fold p.name) ps)
        (λ i. name_taken-mem (adoption_name i) ps) 1)

has_key-mem :
    (name : Text) (there : List (Text × Entry))
    → has_key name there ≡ mem name (map (λ e. e.0) there)
unfolding has_key mem
has_key-mem name [] = refl
has_key-mem name ((n, e) ∷ es) = ground (arith, has_key-mem name es)

-- The place that a directory is moved to is not there yet.
pub uncontested_name-is_free :
    (base : Text) (there : List (Text × Entry))
    → has_key (uncontested_name base there) there ≡ false
unfolding uncontested_name
uncontested_name-is_free base there = rw (sym (length-map (λ (e : Text × Entry). e.0) there)) (
    (first_free-IsFirst (candidate base) (candidate-inj base)
      (λ i. has_key (candidate base i) there) (map (λ e. e.0) there)
      (λ i. has_key-mem (candidate base i) there) 0).0)
