-- ===== src/Profiles/Checks.antt =====
-- The checks of server/src/profiles.ts on ids, names and colors.
use misgeret.Base.{
  ℕ, zero, suc, ◌+◌, ◌%◌, Bool, true, false, ◌&&◌, ◌||◌, Option, none, some, List, [], ◌∷◌, leb,
  ltb, ◌==◌, if◌then◌else◌, any, length, get_elem?,
}
use misgeret.Text.{Text, codes, is_digit, is_empty, trim}
use misgeret.Profiles.{profile_name_invalid, invalid_input, Outcome, done, failed, Value, string}

-- [0-9a-f] without regard to case
unfoldable pub is_hex : ℕ → Bool
unfolding is_digit
is_hex c = is_digit c || (leb 97 c && leb c 102) || (leb 65 c && leb c 70)

-- Runs of hex digits of the given lengths, with a dash between two of them, and nothing else.
unfoldable pub is_hex_runs : ℕ → List ℕ → Text → Bool
unfolding is_hex
is_hex_runs zero [] [] = true
is_hex_runs zero [] (c ∷ s) = false
is_hex_runs zero (n ∷ ns) [] = false
is_hex_runs zero (n ∷ ns) (c ∷ s) = c == 45 && is_hex_runs n ns s
is_hex_runs (suc k) ns [] = false
is_hex_runs (suc k) ns (c ∷ s) = is_hex c && is_hex_runs k ns s

unfoldable pub is_profile_id : Text → Bool
unfolding is_hex_runs
is_profile_id s = is_hex_runs 8 (4 ∷ 4 ∷ 4 ∷ 12 ∷ []) s

abbrev pub max_name_length : ℕ
max_name_length = 60

-- [\u0000-\u001f\u007f]
unfoldable pub is_control : ℕ → Bool
is_control c = leb c 31 || c == 127

unfoldable pub normalize_name : Value → Outcome Text
unfolding is_empty is_control
normalize_name (string value) =
    let trimmed = trim value in
    if is_empty trimmed || ltb max_name_length (length trimmed)
    then failed profile_name_invalid
    else if any is_control trimmed
    then failed profile_name_invalid
    else done trimmed
normalize_name _ = failed profile_name_invalid

-- /^#[0-9a-f]{6}$/i
unfoldable pub is_color : Text → Bool
unfolding is_hex_runs
is_color [] = false
is_color (c ∷ s) = c == 35 && is_hex_runs 6 [] s

-- toLowerCase, on the characters that a color can hold.
unfoldable pub lower_hex : ℕ → ℕ
lower_hex c = if leb 65 c && leb c 90 then c + 32 else c

unfoldable pub lower_color : Text → Text
unfolding lower_hex
lower_color [] = []
lower_color (c ∷ s) = lower_hex c ∷ lower_color s

unfoldable pub normalize_color : Value → Outcome Text
unfolding is_color lower_color
normalize_color (string value) =
    if is_color value then done (lower_color value) else failed invalid_input
normalize_color _ = failed invalid_input

abbrev pub profile_colors : List Text
profile_colors =
    codes "#6ea8ff"
    ∷ codes "#f2a65a"
    ∷ codes "#7bd88f"
    ∷ codes "#e06c9f"
    ∷ codes "#b18cff"
    ∷ codes "#4fd1c5"
    ∷ codes "#f6c453"
    ∷ codes "#ff8f6b"
    ∷ []

unfoldable pub or_no_color : Option Text → Text
or_no_color none = []
or_no_color (some c) = c

-- PROFILE_COLORS[n % PROFILE_COLORS.length]
unfoldable pub color_at : ℕ → Text
unfolding or_no_color
color_at n = or_no_color (get_elem? profile_colors (n % 8))
