-- ===== src/Categories/Merchants.antt =====
-- The merchant of a transaction, by server/src/categories.ts: its name in the memo, the pattern of a
-- description, the key by which rows are grouped and the label that is shown.
use misgeret.Base.{
  ℕ, zero, suc, ◌+◌, ◌-◌, Bool, false, not, ◌&&◌, ◌||◌, Option, none, some, [], ◌∷◌, ◌++◌, map, any,
  all, filter, leb, ltb, ◌==◌, if◌then◌else◌, length, String,
}
use misgeret.Text.{
  Text, codes, hebrew, text_key, eq_text, is_empty, is_space, is_digit, words, drop_spaces, trim,
  join,
}
use misgeret.Categories.Families.{generic_transfer_descriptions}

-- A character that `.` matches
unfoldable pub is_line_char : ℕ → Bool
is_line_char c = not (c == 10 || c == 13 || c == 8232 || c == 8233)

-- What /(?!\d)(.+)$/ matches
unfoldable pub is_merchant : Text → Bool
unfolding is_line_char
is_merchant [] = false
is_merchant (c ∷ s) = not (is_digit c) && all is_line_char (c ∷ s)

-- A space, the letter bet and a dash
unfoldable pub after_marker : Text → Option Text
unfolding is_merchant
after_marker (a ∷ b ∷ c ∷ s) =
    if a == 32 && b == 1489 && c == 45 && is_merchant s then some (trim s) else none
after_marker _ = none

unfoldable pub first_some {ℓ} : {A : Type ℓ} → Option A → Option A → Option A
first_some none o = o
first_some (some a) o = some a

unfoldable pub find_merchant : Text → Option Text
unfolding after_marker first_some
find_merchant [] = none
find_merchant (c ∷ s) = first_some (after_marker (c ∷ s)) (find_merchant s)

unfoldable pub merchant_from_memo : Option Text → Option Text
unfolding find_merchant
merchant_from_memo none = none
merchant_from_memo (some memo) = find_merchant memo

-- How much of the text the expression for the suffix of a company takes: 3 or 4 characters, or none.
unfoldable pub suffix_length : Text → ℕ
suffix_length (a ∷ b ∷ c ∷ d ∷ s) =
    if a == 1489 && b == 1506 && c == 1502
    then 3
    else if a == 1489 && b == 1506 && (c == 34 || c == 1524 || c == 1523 || c == 39) && d == 1502
    then 4
    else 0
suffix_length (a ∷ b ∷ c ∷ []) = if a == 1489 && b == 1506 && c == 1502 then 3 else 0
suffix_length _ = 0

-- The suffix becomes a space; the first argument counts the characters still to skip.
unfoldable pub blank_suffixes : ℕ → Text → Text
unfolding suffix_length
blank_suffixes skip [] = []
blank_suffixes (suc skip) (c ∷ s) = blank_suffixes skip s
blank_suffixes zero (c ∷ s) =
    let n = suffix_length (c ∷ s) in
    let kept = blank_suffixes zero s in
    let skipped = blank_suffixes (n - 1) s in if n == 0 then c ∷ kept else 32 ∷ skipped

unfoldable pub blank_digit : ℕ → ℕ
blank_digit c = if is_digit c then 32 else c

unfoldable pub is_geresh : ℕ → Bool
is_geresh c = c == 39 || c == 1523

-- [ " ? ( ) . , : ; / \ # * _ - ], with U+05F4 for the question mark
unfoldable pub is_punctuation : ℕ → Bool
is_punctuation c =
    c == 91
    || c == 34
    || c == 1524
    || c == 40
    || c == 41
    || c == 46
    || c == 44
    || c == 58
    || c == 59
    || c == 47
    || c == 92
    || c == 35
    || c == 42
    || c == 95
    || c == 45
    || c == 93

unfoldable pub blank_punctuation : ℕ → ℕ
unfolding is_punctuation
blank_punctuation c = if is_punctuation c then 32 else c

unfoldable pub clean : Text → Text
unfolding blank_suffixes blank_digit is_geresh blank_punctuation
clean s =
    map blank_punctuation (filter (λ c. not (is_geresh c)) (map blank_digit (blank_suffixes 0 s)))

unfoldable pub normalize_pattern : Text → Text
unfolding clean
normalize_pattern s =
    trim (join (filter (λ w. not (eq_text w (hebrew "bem"))) (words is_space (clean s))))

unfoldable pub is_generic : Text → Bool
is_generic base = any (eq_text base) generic_transfer_descriptions

unfoldable pub is_generic_transfer_description : Text → Bool
unfolding is_generic normalize_pattern
is_generic_transfer_description description = is_generic (normalize_pattern description)

-- memo ?? ''
unfoldable pub or_no_text : Option Text → Text
or_no_text none = []
or_no_text (some s) = s

abbrev pub with_space : Text → Text → Text
with_space a b = a ++ 32 ∷ b

unfoldable pub merchant_key : Text → Option Text → Text
unfolding normalize_pattern is_generic or_no_text
merchant_key description memo =
    let base = normalize_pattern description in
    let both = normalize_pattern (with_space description (or_no_text memo)) in
    if not (is_empty (or_no_text memo)) && is_generic base && ltb (length base) (length both)
    then both
    else base

-- The words that /\s+/ separates, one space between them.
unfoldable pub collapse_spaces : Text → Text
collapse_spaces s = join (words is_space s)

unfoldable pub drop_text : Text → Text → Option Text
drop_text [] s = some s
drop_text (c ∷ p) [] = none
drop_text (c ∷ p) (d ∷ s) = let rest = drop_text p s in if c == d then rest else none

-- One colon, of either width
unfoldable pub drop_colon : Text → Text
drop_colon [] = []
drop_colon (c ∷ s) = if c == 58 || c == 65306 then s else c ∷ s

unfoldable pub starts_with_space : Text → Bool
starts_with_space [] = false
starts_with_space (c ∷ s) = is_space c

unfoldable pub after_direction : Option Text → Text → Text
unfolding drop_colon
after_direction none memo = memo
after_direction (some s) memo = drop_spaces (drop_colon (drop_spaces s))

unfoldable pub after_transfer : Option Text → Text → Text
unfolding starts_with_space first_some drop_text after_direction
after_transfer none memo = memo
after_transfer (some s) memo =
    if starts_with_space s
    then after_direction
        (first_some (drop_text (hebrew "al") (drop_spaces s))
          (drop_text (hebrew "mat") (drop_spaces s)))
        memo
    else memo

-- Drops what a transfer says of its direction before the name.
unfoldable pub drop_direction : Text → Text
unfolding after_transfer drop_text
drop_direction memo = after_transfer (drop_text (hebrew "hebrh") (drop_spaces memo)) memo

unfoldable pub is_account_char : ℕ → Bool
is_account_char c = is_digit c || c == 45

unfoldable pub account_run : Text → ℕ
unfolding is_account_char
account_run [] = 0
account_run (c ∷ s) = let rest = account_run s in if is_account_char c then rest + 1 else 0

-- /\d[\d-]{3,}/g becomes a space; the first argument counts the characters still to skip.
unfoldable pub blank_accounts : ℕ → Text → Text
unfolding account_run
blank_accounts skip [] = []
blank_accounts (suc skip) (c ∷ s) = blank_accounts skip s
blank_accounts zero (c ∷ s) =
    let n = account_run s in
    let kept = blank_accounts zero s in
    let skipped = blank_accounts n s in if is_digit c && leb 3 n then 32 ∷ skipped else c ∷ kept

unfoldable pub merchant_label : Text → Option Text → Text
unfolding is_generic normalize_pattern drop_direction blank_accounts collapse_spaces or_no_text
merchant_label description memo =
    let label = collapse_spaces (blank_accounts 0 (drop_direction (or_no_text memo))) in
    if not (is_empty (or_no_text memo))
      && is_generic (normalize_pattern description)
      && leb 2 (length label)
    then label
    else description

unfoldable pub text_or_none : Option String → Option Text
text_or_none none = none
text_or_none (some s) = some (codes s)
