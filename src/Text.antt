-- ===== src/Text.antt =====
-- JavaScript's text functions, as server/src/categories.ts, server/src/savings.ts and
-- server/src/companies.ts use them. A text is the list of the numbers of its characters; characters
-- beyond U+FFFF, which JavaScript counts twice, do not occur in the words that the code looks for.
use mathlib.Core.List.{reverse}
use Prim.Native.Char.{code}
use misgeret.Base.{
  ℕ, ◌+◌, ◌≡◌, ◌↔◌, refl, arith, Bool, true, false, not, ◌&&◌, ◌||◌, List, [], ◌∷◌, ◌++◌, String,
  leb, ◌==◌, if◌then◌else◌, filter,
}
use misgeret.Base.Dict.{Eq}

abbrev pub Text : Type 0
Text = List ℕ

abbrev pub codes : String → Text
codes String.[] = []
codes (String.◌∷◌ c s) = code c ∷ codes s

unfoldable pub eq_text : Text → Text → Bool
eq_text [] [] = true
eq_text (c ∷ s) (d ∷ t) = c == d && eq_text s t
eq_text _ _ = false

pub eq_text_iff : (s t : Text) → (eq_text s t ≡ true) ↔ (s ≡ t)
unfolding eq_text
eq_text_iff [] [] = (λ _. refl, λ _. refl)
eq_text_iff [] (d ∷ t) = (λ h. cc, λ h. cc)
eq_text_iff (c ∷ s) [] = (λ h. cc, λ h. cc)
eq_text_iff (c ∷ s) (d ∷ t) =
    let ih = eq_text_iff s t in (λ h. ground (arith, ih), λ h. ground (arith, ih))

instance abbrev pub text_key : Eq Text
text_key = record { eqb = eq_text; eqb_iff = eq_text_iff }

unfoldable pub is_empty : Text → Bool
is_empty [] = true
is_empty (c ∷ s) = false

-- s.startsWith(p)
unfoldable pub starts_with : Text → Text → Bool
starts_with s [] = true
starts_with [] (d ∷ p) = false
starts_with (c ∷ s) (d ∷ p) = c == d && starts_with s p

-- s.includes(p)
unfoldable pub includes : Text → Text → Bool
unfolding starts_with
includes [] p = starts_with [] p
includes (c ∷ s) p = starts_with (c ∷ s) p || includes s p

-- s.endsWith(' ')
unfoldable pub ends_with_space : Text → Bool
ends_with_space [] = false
ends_with_space (c ∷ []) = c == 32
ends_with_space (c ∷ d ∷ s) = ends_with_space (d ∷ s)

-- The class \s of a regular expression.
unfoldable pub is_space : ℕ → Bool
is_space c =
    (leb 9 c && leb c 13)
    || c == 32
    || c == 160
    || c == 5760
    || (leb 8192 c && leb c 8202)
    || c == 8232
    || c == 8233
    || c == 8239
    || c == 8287
    || c == 12288
    || c == 65279

unfoldable pub is_digit : ℕ → Bool
is_digit c = leb 48 c && leb c 57

-- A-Z, the Hebrew letters and 0-9
unfoldable pub is_word_char : ℕ → Bool
is_word_char c = (leb 65 c && leb c 90) || (leb 1488 c && leb c 1514) || (leb 48 c && leb c 57)

unfoldable pub cons_head : ℕ → List Text → List Text
cons_head c [] = (c ∷ []) ∷ []
cons_head c (w ∷ ws) = (c ∷ w) ∷ ws

-- The pieces between separators, the empty ones among them.
unfoldable pub split_on : (ℕ → Bool) → Text → List Text
unfolding cons_head
split_on is_separator [] = [] ∷ []
split_on is_separator (c ∷ s) =
    let rest = split_on is_separator s in if is_separator c then [] ∷ rest else cons_head c rest

-- s.split(...).filter(Boolean)
unfoldable pub words : (ℕ → Bool) → Text → List Text
unfolding split_on is_empty
words is_separator s = filter (λ w. not (is_empty w)) (split_on is_separator s)

unfoldable pub drop_spaces : Text → Text
unfolding is_space
drop_spaces [] = []
drop_spaces (c ∷ s) = let rest = drop_spaces s in if is_space c then rest else c ∷ s

-- s.trim()
unfoldable pub trim : Text → Text
unfolding drop_spaces
trim s = reverse (drop_spaces (reverse (drop_spaces s)))

-- ws.join(' ')
unfoldable pub join : List Text → Text
join [] = []
join (w ∷ []) = w
join (w ∷ v ∷ ws) = w ++ 32 ∷ join (v ∷ ws)

-- The Hebrew letter for a letter of the transliteration a b g d h v z H T y K k l M m N n s e P p C c
-- q r w t, which follows the order of the alphabet; other characters stand for themselves.
hebrew_letter : ℕ → ℕ
hebrew_letter c = place c (codes "abgdhvzHTyKklMmNnsePpCcqrwt") 1488
  where
    place : ℕ → Text → ℕ → ℕ
    place d [] n = d
    place d (e ∷ es) n = if d == e then n else place d es (n + 1)

unfoldable pub hebrew : String → Text
unfolding hebrew_letter
hebrew String.[] = []
hebrew (String.◌∷◌ c s) = hebrew_letter (code c) ∷ hebrew s
