-- ===== src/Savings.antt =====
-- server/src/savings.ts: what a text says happened to a savings instrument.
-- `upper` is toUpperCase, whose tables for other alphabets belong to the JavaScript engine.
pub mod Stems
use misgeret.Base.{
  ℕ, Bool, true, false, not, ◌&&◌, ◌||◌, Option, none, some, List, [], ◌∷◌, map, any, filter, leb,
  ◌==◌, if◌then◌else◌, length,
}
use misgeret.Text.{Text, eq_text, includes, ends_with_space, is_word_char, trim, words}
use misgeret.Savings.Stems.{instrument_stems, return_stems, cost_stems}

pub data SavingsShape : Type 0 where
  gain cost principal : SavingsShape

-- Gershayim and geresh, U+05F4 and U+05F3, become the quotes that a keyboard has.
unfoldable pub normalize_quotes : Text → Text
normalize_quotes = map (λ c. if c == 1524 then 34 else if c == 1523 then 39 else c)

-- The letters, the digits and both quotes
unfoldable pub is_token_char : ℕ → Bool
unfolding is_word_char
is_token_char c = is_word_char c || c == 34 || c == 39

unfoldable pub tokens_of : Text → List Text
unfolding is_token_char
tokens_of = words (λ c. not (is_token_char c))

unfoldable pub has_token : List Text → Text → Bool
has_token ts w = any (eq_text w) ts

-- Gershayim and geresh, U+05F4 and U+05F3, become the quotes that a keyboard has.
unfoldable pub is_short : Text → Bool
is_short s = leb (length (filter (λ c. not (c == 46 || c == 34 || c == 39)) s)) 3

-- One of the six inseparable prefixes
unfoldable pub is_prefix_letter : ℕ → Bool
is_prefix_letter c = c == 1500 || c == 1489 || c == 1502 || c == 1492 || c == 1493 || c == 1513

unfoldable pub is_prefixed : Text → Text → Bool
unfolding is_prefix_letter
is_prefixed w [] = false
is_prefixed w (c ∷ []) = false
is_prefixed w (c ∷ d ∷ s) = is_prefix_letter c && eq_text w (d ∷ s)

module _ (upper : Text → Text) where
  unfoldable pub has_stem : Text → List Text → Text → Bool
  unfolding normalize_quotes has_token is_short is_prefixed
  has_stem text tokens stem =
      let s = upper (normalize_quotes stem) in
      if ends_with_space s
      then has_token tokens (trim s)
      else if is_short s
      then has_token tokens s || any (is_prefixed s) tokens
      else includes text s

  unfoldable pub savings_shape : Text → Option SavingsShape
  unfolding has_stem normalize_quotes tokens_of
  savings_shape text =
      let t = upper (normalize_quotes text) in
      let ts = tokens_of t in
      if not (any (has_stem t ts) instrument_stems)
      then none
      else if any (has_stem t ts) return_stems
      then some gain
      else if any (has_stem t ts) cost_stems
      then some cost
      else some principal
