-- ===== src/Profiles/Registry.antt =====
-- Reading and writing the registry file, server/src/profiles.ts: `parseStoredProfile`, `readRegistry`
-- and `persist`. What JSON.stringify writes, JSON.parse reads back.
use mathlib.Core.List.{map}
use misgeret.Base.{
  ℤ, pos, Bool, true, false, ◌&&◌, Option, none, some, List, [], ◌∷◌, if◌then◌else◌, take,
}
use misgeret.Text.{Text, is_empty, trim}
use misgeret.Profiles.{
  Profile, Outcome, done, threw, Value, null, string, number, StoredRow, Content, missing,
  unreadable, garbled, parsed, Store, Machine, Os,
}
use misgeret.Profiles.Checks.{is_profile_id, max_name_length, is_color, lower_color, color_at}

unfoldable pub stored_color : Value → Text
stored_color (string c) = if is_color c then lower_color c else color_at 0
stored_color _ = color_at 0

unfoldable pub string_or : Text → Value → Text
string_or d (string s) = s
string_or d _ = d

unfoldable pub string_or_null : Value → Option Text
string_or_null (string s) = some s
string_or_null _ = none

-- Number.MAX_SAFE_INTEGER
unfoldable pub stored_order : Value → ℤ
stored_order (number n) = n
stored_order _ = pos 9007199254740991

-- The row, once its id and its name are texts.
unfoldable pub parse_named : Text → StoredRow → Text → Text → Option Profile
unfolding stored_color string_or string_or_null stored_order
parse_named now row id name =
    if is_profile_id id
    then if is_empty (trim name)
      then none
      else some (record {
        id = id;
        name = take max_name_length (trim name);
        color = stored_color row.color;
        created_at = string_or now row.created_at;
        last_opened_at = string_or_null row.last_opened_at;
        order = stored_order row.order;
      })
    else none

unfoldable pub parse_by : Text → StoredRow → Value → Value → Option Profile
unfolding parse_named
parse_by now row (string id) (string name) = parse_named now row id name
parse_by now row _ _ = none

unfoldable pub parse_stored_profile : Text → Option StoredRow → Option Profile
unfolding parse_by
parse_stored_profile now none = none
parse_stored_profile now (some row) = parse_by now row row.id row.name

pub record Reading : Type 0 where
  pub profiles : List Profile
  pub active_id : Option Text
  pub changed : Bool

unfoldable pub add_row : Option Profile → List Profile × Bool → List Profile × Bool
add_row none rest = (rest.0, true)
add_row (some p) rest = (p ∷ rest.0, rest.1)

-- The loop over the rows: the profiles, and whether a row was left out.
unfoldable pub read_rows : Text → List (Option StoredRow) → List Profile × Bool
unfolding parse_stored_profile add_row
read_rows now [] = ([], false)
read_rows now (row ∷ rows) = add_row (parse_stored_profile now row) (read_rows now rows)

unfoldable pub or_no_rows : Option (List (Option StoredRow)) → List (Option StoredRow)
or_no_rows none = []
or_no_rows (some rows) = rows

unfoldable pub stored_active : Value → Option Text
stored_active (string id) = if is_profile_id id then some id else none
stored_active _ = none

unfoldable pub read_registry : Text → Content → Reading
unfolding read_rows or_no_rows stored_active
read_registry now missing = record { profiles = []; active_id = none; changed = false }
read_registry now unreadable = record { profiles = []; active_id = none; changed = false }
read_registry now garbled = record { profiles = []; active_id = none; changed = true }
read_registry now (parsed rows active) =
    let read = read_rows now (or_no_rows rows) in
    record { profiles = read.0; active_id = stored_active active; changed = read.1 }

unfoldable pub text_or_null : Option Text → Value
text_or_null none = null
text_or_null (some s) = string s

unfoldable pub row_of : Profile → Option StoredRow
unfolding text_or_null
row_of p = some (record {
  id = string p.id;
  name = string p.name;
  color = string p.color;
  created_at = string p.created_at;
  last_opened_at = text_or_null p.last_opened_at;
  order = number p.order;
})

unfoldable pub content_of : Store → Content
unfolding row_of text_or_null
content_of s = parsed (some (map row_of s.profiles)) (text_or_null s.active_id)

unfoldable pub write : Machine → Machine
unfolding content_of
write m = record m { disk = record (m.disk) { registry = content_of m.store } }

-- The file is replaced by a rename at the end, so a failure before it leaves the old one.
unfoldable pub is_saved : Os → Bool
is_saved os = os.data_dir_made && os.written && os.renamed

-- persist(), then the result; `kept` is the machine that a failed write leaves behind.
unfoldable pub persist {ℓ} : {A : Type ℓ} → Os → Machine → Machine → A → Machine × Outcome A
unfolding is_saved write
persist os kept m a = if is_saved os then (write m, done a) else (kept, threw)
