-- ===== src/Profiles/Changes.antt =====
-- `reorder`, `setActive`, `softDelete` and `commitMigrated` of server/src/profiles.ts, and the steps of a
-- store whatever requests come.
use misgeret.Base.{
  pos, not, Option, none, some, List, [], ◌∷◌, ◌++◌, ◌==◌, if◌then◌else◌, length, any,
}
use misgeret.Base.Dict.{get}
use misgeret.Text.{Text, text_key, eq_text}
use misgeret.Profiles.{
  Profile, last_profile, profile_delete_failed, invalid_input, Outcome, done, failed, ◌>>=◌, ◌>>◌,
  check, Value, string, Entry, Disk, Store, Machine, Os,
}
use misgeret.Profiles.Checks.{is_profile_id, normalize_name, color_at}
use misgeret.Profiles.Free.{uncontested_name}
use misgeret.Profiles.Members.{change_id, remove_id, number_from, first_id, require, resolve_dir}
use misgeret.Profiles.Loading.{same_id, is_nil}
use misgeret.Profiles.Requests.{commit, with_store, create, update, resolve_active_id}

-- isProfileId(id), which makes the value a text.
unfoldable pub as_id : Value → Outcome Text
as_id (string id) = check (is_profile_id id) invalid_input >> done id
as_id _ = failed invalid_input

-- The loop of `reorder`: each id once, and each of a profile.
unfoldable pub collect : List Profile → List Text → List Value → Outcome (List Profile)
unfolding as_id require
collect ps seen [] = done []
collect ps seen (v ∷ vs) = do
  id ← as_id v
  check (not (any (eq_text id) seen)) invalid_input
  p ← require (string id) ps
  rest ← collect ps (id ∷ seen) vs
  done (p ∷ rest)

-- `none` stands for a value that is no array.
unfoldable pub ordering : Option (List Value) → List Profile → Outcome (List Profile)
unfolding collect number_from
ordering none ps = failed invalid_input
ordering (some ids) ps = do
  check (length ids == length ps) invalid_input
  ordered ← collect ps [] ids
  done (number_from 0 ordered)

unfoldable pub reordering : Option (List Value) → Machine → Outcome (Machine × List Profile)
unfolding ordering with_store
reordering ids m = do
  ps ← ordering ids m.store.profiles
  done (with_store m ps m.store.active_id, ps)

unfoldable pub reorder : Os → Option (List Value) → Machine → Machine × Outcome (List Profile)
unfolding reordering commit
reorder os ids m = commit os m (reordering ids m)

unfoldable pub opened : Os → Profile → Profile
opened os p = record p { last_opened_at = some os.now }

unfoldable pub activation : Os → Text → Machine → Outcome (Machine × Text)
unfolding require change_id opened with_store
activation os id m = do
  p ← require (string id) m.store.profiles
  done (with_store m (change_id id (opened os) m.store.profiles) (some p.id), p.id)

unfoldable pub set_active : Os → Text → Machine → Machine × Outcome Text
unfolding activation commit
set_active os id m = commit os m (activation os id m)

unfoldable pub remove_world : Text → List (Text × Entry) → List (Text × Entry)
remove_world name [] = []
remove_world name ((n, e) ∷ es) = if eq_text n name then es else (n, e) ∷ remove_world name es

-- The name of the place below deleted-profiles/.
unfoldable pub aside_name : Os → Text → List (Text × Entry) → Text
unfolding uncontested_name
aside_name os id deleted = uncontested_name (id ++ 45 ∷ os.stamp) deleted

unfoldable pub put_aside : Os → Text → Entry → Disk → Disk
unfolding aside_name remove_world
put_aside os id e d = record d {
  worlds = remove_world id d.worlds;
  deleted = (aside_name os id d.deleted, e) ∷ d.deleted;
}

unfoldable pub move_entry : Os → Text → Option Entry → Disk → Outcome Disk
unfolding put_aside
move_entry os id none d = done d
move_entry os id (some e) d =
    if os.moved then done (put_aside os id e d) else failed profile_delete_failed

-- The directory of a profile, if it is there, is moved aside.
unfoldable pub move_aside : Os → Text → Disk → Outcome Disk
unfolding move_entry
move_aside os id d = move_entry os id (get id d.worlds) d

unfoldable pub active_without : Text → Option Text → List Profile → Option Text
unfolding same_id first_id
active_without id active ps = if same_id active (some id) then first_id ps else active

unfoldable pub store_without : Text → Store → Store
unfolding remove_id number_from active_without
store_without id s =
    let remaining = number_from 0 (remove_id id s.profiles) in
    record { profiles = remaining; active_id = active_without id s.active_id remaining }

-- The directory is moved before the profile is taken out of the store.
unfoldable pub deletion : Os → Text → Machine → Outcome (Machine × Unit {0})
unfolding require resolve_dir move_aside store_without
deletion os id m = do
  p ← require (string id) m.store.profiles
  check (not (length m.store.profiles == 1)) last_profile
  dir ← resolve_dir p.id
  disk ← move_aside os dir m.disk
  done (record { store = store_without p.id m.store; disk = disk }, tt)

unfoldable pub soft_delete : Os → Text → Machine → Machine × Outcome (Unit {0})
unfolding deletion commit
soft_delete os id m = commit os m (deletion os id m)

unfoldable pub migrated : Os → Text → Text → Profile
migrated os id name = record {
  id = id;
  name = name;
  color = color_at 0;
  created_at = os.now;
  last_opened_at = none;
  order = pos 0;
}

unfoldable pub adoption : Os → Text → Value → Machine → Outcome (Machine × Profile)
unfolding migrated with_store is_nil
adoption os id input_name m = do
  check (is_nil m.store.profiles) invalid_input
  check (is_profile_id id) invalid_input
  name ← normalize_name input_name
  let p = migrated os id name
  done (with_store m (p ∷ []) (some id), p)

unfoldable pub commit_migrated : Os → Text → Value → Machine → Machine × Outcome Profile
unfolding adoption commit
commit_migrated os id input_name m = commit os m (adoption os id input_name m)

-- A request to a store that was loaded.
pub data Request : Type 0 where
  creates : Value → Value → Request
  updates : Text → Value → Value → Request
  reorders : Option (List Value) → Request
  activates : Text → Request
  deletes : Text → Request
  adopts : Text → Value → Request
  resolves : Request

unfoldable pub handle : (Text → Text) → Os → Request → Machine → Machine
unfolding create update reorder set_active soft_delete commit_migrated resolve_active_id
handle fold os (creates n c) m = (create fold os n c m).0
handle fold os (updates id n c) m = (update fold os id n c m).0
handle fold os (reorders ids) m = (reorder os ids m).0
handle fold os (activates id) m = (set_active os id m).0
handle fold os (deletes id) m = (soft_delete os id m).0
handle fold os (adopts id n) m = (commit_migrated os id n m).0
handle fold os resolves m = (resolve_active_id os m).0
