-- ===== src/Companies.antt =====
-- server/src/companies.ts: what is known of each institution. The texts shown to the user (Hebrew
-- names, labels, notes) are left out; the flags of `flagExcluded` are in `Exclusion`.
pub mod Laws
use Prim.Native.Char.{Char, code}
use Prim.Native.Nat.{min}
use Prim.Native.String
use misgeret.Base.{
  ℕ, Bool, true, false, ◌&&◌, ◌||◌, Option, none, some, List, [], ◌∷◌, String, str_eq, ltb, leb,
  ◌==◌, if◌then◌else◌,
}
use misgeret.Base.Dict.{get, string_eq}

pub data CompanyKind : Type 0 where
  bank card other : CompanyKind

-- COMPANY_META, by its `kind`
unfoldable pub company_meta : List (String × CompanyKind)
company_meta =
    ("hapoalim", bank)
    ∷ ("leumi", bank)
    ∷ ("mizrahi", bank)
    ∷ ("discount", bank)
    ∷ ("mercantile", bank)
    ∷ ("otsarHahayal", bank)
    ∷ ("union", bank)
    ∷ ("beinleumi", bank)
    ∷ ("massad", bank)
    ∷ ("yahav", bank)
    ∷ ("pagi", bank)
    ∷ ("visaCal", card)
    ∷ ("max", card)
    ∷ ("isracard", card)
    ∷ ("amex", card)
    ∷ ("beyahadBishvilha", other)
    ∷ ("behatsdaa", other)
    ∷ ("manual", other)
    ∷ []

unfoldable pub or_else {ℓ} : {A : Type ℓ} → Option A → A → A
or_else none a = a
or_else (some b) a = b

-- COMPANY_META[companyId]?.kind ?? 'other'
unfoldable pub company_kind : String → CompanyKind
unfolding company_meta or_else get
company_kind id = or_else (get id company_meta) other

unfoldable pub is_card : String → Bool
unfolding company_kind
is_card id = elim (company_kind id) [ card ↦ true | _ ↦ false ]

unfoldable pub is_bank : String → Bool
unfolding company_kind
is_bank id = elim (company_kind id) [ bank ↦ true | _ ↦ false ]

-- HISTORY_CEILING_MONTHS
unfoldable pub history_ceilings : List (String × ℕ)
history_ceilings =
    ("leumi", 36)
    ∷ ("max", 48)
    ∷ ("visaCal", 18)
    ∷ ("yahav", 3)
    ∷ ("hapoalim", 12)
    ∷ ("mizrahi", 12)
    ∷ ("discount", 12)
    ∷ ("mercantile", 12)
    ∷ ("beinleumi", 12)
    ∷ ("massad", 12)
    ∷ ("otsarHahayal", 12)
    ∷ ("pagi", 12)
    ∷ ("isracard", 12)
    ∷ ("amex", 12)
    ∷ ("beyahadBishvilha", 12)
    ∷ ("behatsdaa", 12)
    ∷ []

abbrev pub default_history_ceiling_months : ℕ
default_history_ceiling_months = 12

unfoldable pub history_ceiling_months : String → ℕ
unfolding history_ceilings or_else get
history_ceiling_months id = or_else (get id history_ceilings) default_history_ceiling_months

abbrev pub sync_window : ℕ
sync_window = 24

unfoldable pub sync_window_months : String → ℕ
sync_window_months id = min sync_window (history_ceiling_months id)

-- KNOWN_OUTAGES[companyId] !== undefined
unfoldable pub has_outage : String → Bool
has_outage id = str_eq "hapoalim" id

unfoldable pub is_error_char : ℕ → Bool
is_error_char c = (leb b'A' c && leb c b'Z') || (leb b'0' c && leb c b'9') || c == b'_'

unfoldable pub all_error_chars : String → Bool
unfolding is_error_char
all_error_chars String.[] = true
all_error_chars (String.◌∷◌ c s) = is_error_char (code c) && all_error_chars s

-- /^[A-Z0-9_]+$/.test(errorType)
unfoldable pub is_error_code : String → Bool
unfolding all_error_chars
is_error_code String.[] = false
is_error_code (String.◌∷◌ c s) = all_error_chars (String.◌∷◌ c s)

-- OUTAGE_MASKABLE
unfoldable pub is_maskable : String → Bool
is_maskable e = str_eq "TIMEOUT" e || str_eq "GENERIC" e || str_eq "GENERAL_ERROR" e

unfoldable pub sync_error_type : String → String → String
sync_error_type id error_type =
    let safe = if is_error_code error_type then error_type else "GENERIC" in
    if has_outage id && is_maskable safe then "PROVIDER_OUTAGE" else safe
