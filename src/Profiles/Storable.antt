-- ===== src/Profiles/Storable.antt =====
-- The names and colors of server/src/profiles.ts through the registry file.
use mathlib.Core.List.{reverse, reverse-reverse, reverse-append, reverse-cons}
use misgeret.Base.{
  ℕ, zero, suc, ◌≤◌, ◌<◌, ◌%◌, ◌≡◌, ◌⊎◌, refl, sym, ap, ◌∙◌, arith, Bool, true, false, ◌&&◌, ◌||◌,
  Option, none, some, List, [], ◌∷◌, ◌++◌, ltb, ◌==◌, ==_iff, if◌then◌else◌, length, take, any, All,
  get_elem?, Bool-cases, inl, inr,
}
use misgeret.Text.{Text, is_space, is_digit, is_empty, drop_spaces, trim}
use misgeret.Profiles.{
  Profile, profile_name_invalid, done, failed, Value, undefined, null, structure, string, number,
}
use misgeret.Profiles.Checks.{
  is_hex, is_hex_runs, is_profile_id, max_name_length, is_control, normalize_name, is_color,
  lower_hex, lower_color, normalize_color, profile_colors, or_no_color, color_at,
}
use misgeret.Profiles.Registry.{
  stored_color, string_or, string_or_null, stored_order, parse_named, parse_by,
  parse_stored_profile, text_or_null, row_of,
}

drop_spaces_idem : (s : Text) → drop_spaces (drop_spaces s) ≡ drop_spaces s
unfolding drop_spaces
drop_spaces_idem [] = refl
drop_spaces_idem (c ∷ s) = elim (Bool-cases (is_space c)) [
  | inl e ↦ rw e (drop_spaces_idem s)
  | inr e ↦ rw (e, drop_spaces) (rw e)
]

drop_spaces-append :
    (s : Text) (c : ℕ) → is_space c ≡ false → drop_spaces (s ++ c ∷ []) ≡ drop_spaces s ++ c ∷ []
unfolding drop_spaces
drop_spaces-append [] c e = rw e
drop_spaces-append (d ∷ s) c e = elim (Bool-cases (is_space d)) [
  | inl k ↦ rw k (drop_spaces-append s c e)
  | inr k ↦ rw k
]

-- What is left is empty or begins with another character than a space.
drop_spaces_cases :
    (s : Text)
    → (drop_spaces s ≡ []) ⊎ ((c : ℕ) × (t : Text) × (drop_spaces s ≡ c ∷ t) × (is_space c ≡ false))
unfolding drop_spaces
drop_spaces_cases [] = inl refl
drop_spaces_cases (c ∷ s) = elim (Bool-cases (is_space c)) [
  | inl e ↦ rw e (drop_spaces_cases s)
  | inr e ↦ rw e (inr (c, s, refl, e))
]

drop_spaces_back :
    (u : Text)
    → drop_spaces u ≡ u
    → drop_spaces (reverse (drop_spaces (reverse u))) ≡ reverse (drop_spaces (reverse u))
drop_spaces_back u h = elim (drop_spaces_cases u) [
  | inl e ↦ rw (sym h ∙ e) (unfold drop_spaces in refl)
  | inr (c, t, e, k) ↦ rw (sym h ∙ e) (kept c t k)
]
  where
    kept :
        (c : ℕ) (t : Text)
        → is_space c ≡ false
        → drop_spaces (reverse (drop_spaces (reverse (c ∷ t))))
          ≡ reverse (drop_spaces (reverse (c ∷ t)))
    kept c t k =
        let e : drop_spaces (reverse (c ∷ t)) ≡ drop_spaces (reverse t) ++ c ∷ [] =
          ap drop_spaces (reverse-cons c t) ∙ drop_spaces-append (reverse t) c k in
        rw e (rw (reverse-append (drop_spaces (reverse t)) (c ∷ [])) (unfold drop_spaces in rw k))

trim_idem : (s : Text) → trim (trim s) ≡ trim s
unfolding trim
trim_idem s =
    let e = drop_spaces_back (drop_spaces s) (drop_spaces_idem s) in
    rw e (
      rw (reverse-reverse (drop_spaces (reverse (drop_spaces s))))
        (rw (drop_spaces_idem (reverse (drop_spaces s)))))

take-all : (n : ℕ) (s : Text) → length s ≤ n → take n s ≡ s
take-all zero [] h = refl
take-all zero (c ∷ s) h = absurd (omega arith)
take-all (suc n) [] h = refl
take-all (suc n) (c ∷ s) h = ap (λ t. c ∷ t) (take-all n s (omega arith))

-- A name and a color that are read back as they are.
pub record IsName (name : Text) : Type 0 where
  pub trimmed : trim name ≡ name
  pub filled : is_empty name ≡ false
  pub short : take max_name_length name ≡ name

pub record IsPaint (color : Text) : Type 0 where
  pub shaped : is_color color ≡ true
  pub lowered : lower_color color ≡ color

pub normalize_name-IsName : (v : Value) (name : Text) → normalize_name v ≡ done name → IsName name
unfolding normalize_name
normalize_name-IsName (string s) name h = named (trim s) (trim_idem s) h
  where
    named :
        (t : Text)
        → trim t ≡ t
        → (if is_empty t || ltb max_name_length (length t)
            then failed profile_name_invalid
            else if any is_control t
            then failed profile_name_invalid
            else done t)
          ≡ done name
        → IsName name
    named t k h =
        let e : t ≡ name = ground arith in
        rw (sym e) (record {
          trimmed = k;
          filled = ground arith;
          short = take-all max_name_length t (ground arith);
        })
normalize_name-IsName undefined name h = cc
normalize_name-IsName null name h = cc
normalize_name-IsName structure name h = cc
normalize_name-IsName (number n) name h = cc

lower_hex_lem :
    (c : ℕ)
    → is_hex c ≡ true
    → (is_hex (lower_hex c) ≡ true) × (lower_hex (lower_hex c) ≡ lower_hex c)
unfolding is_hex lower_hex is_digit
lower_hex_lem c h = ground arith

lower_color_lem :
    (n : ℕ) (s : Text)
    → is_hex_runs n [] s ≡ true
    → (is_hex_runs n [] (lower_color s) ≡ true) × (lower_color (lower_color s) ≡ lower_color s)
unfolding is_hex_runs lower_color
lower_color_lem zero [] h = (refl, refl)
lower_color_lem zero (c ∷ s) h = cc
lower_color_lem (suc n) [] h = cc
lower_color_lem (suc n) (c ∷ s) h = ground (arith, lower_hex_lem c, lower_color_lem n s)

both : (a b : Bool) → (a && b) ≡ true → (a ≡ true) × (b ≡ true)
both a b h = ground arith

normalized-IsPaint : (s : Text) → is_color s ≡ true → IsPaint (lower_color s)
unfolding is_color lower_color lower_hex
normalized-IsPaint [] h = cc
normalized-IsPaint (c ∷ s) h =
    let parts = both (c == 35) (is_hex_runs 6 [] s) h in
    let e : c ≡ 35 = (==_iff c 35).0 parts.0 in
    let k = lower_color_lem 6 s parts.1 in
    rw e (record { shaped = k.0; lowered = ap (λ t. 35 ∷ t) k.1 })

pub normalize_color-IsPaint : (v : Value) (c : Text) → normalize_color v ≡ done c → IsPaint c
unfolding normalize_color
normalize_color-IsPaint (string s) c h = elim (Bool-cases (is_color s)) [
  | inl e ↦ let k : lower_color s ≡ c = ground arith in rw (sym k) (normalized-IsPaint s e)
  | inr e ↦ absurd (ground arith)
]
normalize_color-IsPaint undefined c h = cc
normalize_color-IsPaint null c h = cc
normalize_color-IsPaint structure c h = cc
normalize_color-IsPaint (number n) c h = cc

colors-IsPaint : All IsPaint profile_colors
unfolding is_color lower_color is_hex_runs lower_hex is_hex is_digit
colors-IsPaint = (
  record { shaped = refl; lowered = refl },
  (
    record { shaped = refl; lowered = refl },
    (
      record { shaped = refl; lowered = refl },
      (
        record { shaped = refl; lowered = refl },
        (
          record { shaped = refl; lowered = refl },
          (
            record { shaped = refl; lowered = refl },
            (
              record { shaped = refl; lowered = refl },
              (record { shaped = refl; lowered = refl }, tt),
            ),
          ),
        ),
      ),
    ),
  ),
)

get_elem?-All :
    (P : Text → Type 0) (xs : List Text) (i : ℕ)
    → All P xs
    → i < length xs
    → (c : Text) × (get_elem? xs i ≡ some c) × P c
get_elem?-All P [] i h k = absurd (omega arith)
get_elem?-All P (x ∷ xs) zero h k = (x, refl, h.0)
get_elem?-All P (x ∷ xs) (suc i) h k = get_elem?-All P xs i h.1 (omega arith)

pub color_at-IsPaint : (n : ℕ) → IsPaint (color_at n)
unfolding color_at or_no_color
color_at-IsPaint n =
    let e = get_elem?-All IsPaint profile_colors (n % 8) colors-IsPaint (omega arith) in
    rw (e.1) (e.2)

-- A profile that the registry file gives back.
pub record IsStorable (p : Profile) : Type 0 where
  pub uuid : is_profile_id p.id ≡ true
  pub named : IsName p.name
  pub painted : IsPaint p.color

pub parse-row_of :
    (now : Text) (p : Profile) → IsStorable p → parse_stored_profile now (row_of p) ≡ some p
unfolding parse_stored_profile row_of parse_by parse_named
parse-row_of now p h = rw (h.uuid) (
    rw (h.named.trimmed) (
      rw (h.named.filled) (
        rw (h.named.short) (
          unfold stored_color string_or stored_order in
          rw (h.painted.shaped) (rw (h.painted.lowered) (opened_at p.last_opened_at))))))
  where
    opened_at :
        (o : Option Text)
        → ◌≡◌ {A = Option Profile}
            (some (record p { last_opened_at = string_or_null (text_or_null o) }))
            (some (record p { last_opened_at = o }))
    opened_at none = unfold string_or_null text_or_null in refl
    opened_at (some t) = unfold string_or_null text_or_null in refl
