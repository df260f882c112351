-- ===== src/Profiles/Members.antt =====
-- The list of profiles that the store of server/src/profiles.ts holds, and its directories on disk.
use misgeret.Base.{ℕ, suc, pos, Bool, false, ◌||◌, Option, none, some, List, [], ◌∷◌, if◌then◌else◌}
use misgeret.Text.{Text, eq_text}
use misgeret.Profiles.{Profile, Outcome, done, failed, Value, string, profile_not_found, ◌>>=◌}
use misgeret.Profiles.Checks.{is_profile_id}

-- profiles.some((profile) => profile.id === id)
unfoldable pub has_id : Text → List Profile → Bool
has_id id [] = false
has_id id (p ∷ ps) = eq_text p.id id || has_id id ps

-- profiles.find((profile) => profile.id === id)
unfoldable pub find_id : Text → List Profile → Option Profile
find_id id [] = none
find_id id (p ∷ ps) = if eq_text p.id id then some p else find_id id ps

-- The change of the row that `find` hands back.
unfoldable pub change_id : Text → (Profile → Profile) → List Profile → List Profile
change_id id f [] = []
change_id id f (p ∷ ps) = if eq_text p.id id then f p ∷ ps else p ∷ change_id id f ps

-- profiles.filter((entry) => entry.id !== id)
unfoldable pub remove_id : Text → List Profile → List Profile
remove_id id [] = []
remove_id id (p ∷ ps) = if eq_text p.id id then remove_id id ps else p ∷ remove_id id ps

-- profiles.forEach((profile, index) => { profile.order = index; }), from an index on.
unfoldable pub number_from : ℕ → List Profile → List Profile
number_from i [] = []
number_from i (p ∷ ps) = record p { order = pos i } ∷ number_from (suc i) ps

-- profiles[0]?.id ?? null
unfoldable pub first_id : List Profile → Option Text
first_id [] = none
first_id (p ∷ ps) = some p.id

unfoldable pub get : Value → List Profile → Option Profile
unfolding find_id
get (string id) ps = if is_profile_id id then find_id id ps else none
get _ ps = none

unfoldable pub or_not_found : Option Profile → Outcome Profile
or_not_found none = failed profile_not_found
or_not_found (some p) = done p

unfoldable pub require : Value → List Profile → Outcome Profile
unfolding get or_not_found
require id ps = or_not_found (get id ps)

-- The name of the directory of a profile, below profiles/.
unfoldable pub resolve_dir : Text → Outcome Text
resolve_dir id = if is_profile_id id then done id else failed profile_not_found

unfoldable pub dir_for : Text → List Profile → Outcome Text
unfolding require resolve_dir
dir_for id ps = require (string id) ps >>= λ p. resolve_dir id
