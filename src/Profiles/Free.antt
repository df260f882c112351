-- ===== src/Profiles/Free.antt =====
-- The two searches for a free name of server/src/profiles.ts, `unusedAdoptionName` and
-- `uncontestedPath`: both count up until a candidate is not taken.
use mathlib.Core.List.{reverse}
use misgeret.Base.{
  ℕ, zero, suc, ◌+◌, ◌/◌, ◌%◌, Bool, true, false, not, ◌&&◌, any, Option, none, some, List, [], ◌∷◌,
  ◌++◌, ltb, if◌then◌else◌, length,
}
use misgeret.Base.Dict.{has_key}
use misgeret.Text.{Text, hebrew, eq_text, text_key}
use misgeret.Profiles.{Profile, Entry}

-- The digits of a number, the last one first; as many rounds as the number and one more are enough.
unfoldable pub digits_back : ℕ → ℕ → Text
digits_back zero n = []
digits_back (suc fuel) n =
    let rest = digits_back fuel (n / 10) in if ltb n 10 then (48 + n) ∷ [] else (48 + n % 10) ∷ rest

unfoldable pub decimal : ℕ → Text
unfolding digits_back
decimal n = reverse (digits_back (suc n) n)

-- The first number from `i` on whose candidate is not taken; with the fuel used up, the number that
-- comes next.
unfoldable pub first_free : (ℕ → Bool) → ℕ → ℕ → ℕ
first_free taken zero i = i
first_free taken (suc fuel) i = elim (taken i) [ true ↦ first_free taken fuel (suc i) | false ↦ i ]

-- The Hebrew word for a user, a space and the number.
unfoldable pub adoption_name : ℕ → Text
unfolding decimal hebrew
adoption_name i = hebrew "mwtmw " ++ decimal i

module _ (fold : Text → Text) where
  unfoldable pub is_clash : Text → Option Text → Profile → Bool
  is_clash name none p = eq_text (fold p.name) (fold name)
  is_clash name (some except_id) p =
      not (eq_text p.id except_id) && eq_text (fold p.name) (fold name)

  unfoldable pub name_taken : Text → Option Text → List Profile → Bool
  unfolding is_clash
  name_taken name except_id within = any (is_clash name except_id) within

  unfoldable pub unused_adoption_index : List Profile → ℕ
  unfolding first_free name_taken
  unused_adoption_index within =
      first_free (λ i. name_taken (adoption_name i) none within) (suc (length within)) 1

  unfoldable pub unused_adoption_name : List Profile → Text
  unfolding unused_adoption_index
  unused_adoption_name within = adoption_name (unused_adoption_index within)

-- `base`, then `base-1`, `base-2` and so on.
unfoldable pub candidate : Text → ℕ → Text
unfolding decimal
candidate base zero = base
candidate base (suc i) = base ++ 45 ∷ decimal (suc i)

unfoldable pub uncontested_name : Text → List (Text × Entry) → Text
unfolding first_free candidate
uncontested_name base there =
    candidate base (first_free (λ i. has_key (candidate base i) there) (suc (length there)) 0)
