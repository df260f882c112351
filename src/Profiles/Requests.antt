-- ===== src/Profiles/Requests.antt =====
-- `resolveActiveId`, `create` and `update` of server/src/profiles.ts, and the write that ends an
-- operation.
-- An operation is its checks and its change, in the order of the code, and then the write of the
-- registry; a failed check leaves the machine as it was.
use misgeret.Base.{
  ℕ, pos, Bool, true, false, not, Option, none, some, List, [], ◌∷◌, ◌++◌, if◌then◌else◌, length,
}
use misgeret.Base.Dict.{get}
use misgeret.Text.{Text, text_key}
use misgeret.Profiles.{
  Profile, profile_not_found, profile_name_exists, Outcome, done, failed, threw, ◌>>=◌, ◌>>◌, check,
  Value, undefined, null, string, Entry, file, directory, Machine, Os,
}
use misgeret.Profiles.Checks.{normalize_name, normalize_color, color_at}
use misgeret.Profiles.Free.{name_taken, unused_adoption_name}
use misgeret.Profiles.Members.{has_id, change_id, require, resolve_dir}
use misgeret.Profiles.Registry.{persist}

-- The write at the end of an operation, where a failed write leaves the change in memory.
unfoldable pub commit {ℓ} :
    {A : Type ℓ} → Os → Machine → Outcome (Machine × A) → Machine × Outcome A
unfolding persist
commit os m (done (m', a)) = persist os m' m' a
commit os m (failed e) = (m, failed e)
commit os m threw = (m, threw)

unfoldable pub with_store : Machine → List Profile → Option Text → Machine
with_store m ps active = record m { store = record { profiles = ps; active_id = active } }

-- The repair of `resolveActiveId`, to the first profile.
unfoldable pub repair_active : Os → Machine → List Profile → Machine × Outcome Text
unfolding commit with_store
repair_active os m [] = (m, failed profile_not_found)
repair_active os m (p ∷ ps) = commit os m (done (with_store m (p ∷ ps) (some p.id), p.id))

unfoldable pub resolve_by : Os → Machine → Option Text → Machine × Outcome Text
unfolding repair_active
resolve_by os m none = repair_active os m m.store.profiles
resolve_by os m (some id) =
    if has_id id m.store.profiles then (m, done id) else repair_active os m m.store.profiles

unfoldable pub resolve_active_id : Os → Machine → Machine × Outcome Text
unfolding resolve_by
resolve_active_id os m = resolve_by os m m.store.active_id

unfoldable pub or_default : Text → Value → Value
or_default d undefined = string d
or_default d null = string d
or_default d v = v

unfoldable pub color_or_default : ℕ → Value → Outcome Text
unfolding normalize_color color_at
color_or_default n undefined = done (color_at n)
color_or_default n null = done (color_at n)
color_or_default n v = normalize_color v

-- fs.mkdirSync(directory, { recursive: true }), which throws where a file has the name.
unfoldable pub make_by : Option Entry → Text → List (Text × Entry) → Outcome (List (Text × Entry))
make_by none name es =
    done ((name, directory (record { marker = false; database = false; others = false })) ∷ es)
make_by (some file) name es = threw
make_by (some (directory w)) name es = done es

unfoldable pub make_dir : Text → List (Text × Entry) → Outcome (List (Text × Entry))
unfolding make_by
make_dir name es = make_by (get name es) name es

unfoldable pub active_or : Option Text → Text → Option Text
active_or none id = some id
active_or (some a) id = some a

unfoldable pub new_profile : Os → Text → Text → List Profile → Profile
new_profile os name color ps = record {
  id = os.fresh;
  name = name;
  color = color;
  created_at = os.now;
  last_opened_at = none;
  order = pos (length ps);
}

unfoldable pub made : Os → Machine → Profile → List (Text × Entry) → Machine
made os m p worlds = record {
  store = record {
    profiles = m.store.profiles ++ p ∷ [];
    active_id = active_or m.store.active_id p.id;
  };
  disk = record (m.disk) { worlds = worlds };
}

unfoldable pub check_made : Bool → Outcome (Unit {0})
check_made true = done tt
check_made false = threw

-- A part of a patch that is not there is not checked and changes nothing.
unfoldable pub name_patch : Value → Outcome (Option Text)
name_patch undefined = done none
name_patch v = normalize_name v >>= λ name. done (some name)

unfoldable pub color_patch : Value → Outcome (Option Text)
color_patch undefined = done none
color_patch v = normalize_color v >>= λ color. done (some color)

unfoldable pub patched : Option Text → Option Text → Profile → Profile
patched name color p = record p {
  name = elim name [ none ↦ p.name | some n ↦ n ];
  color = elim color [ none ↦ p.color | some c ↦ c ];
}

-- Where the write fails, the row gets its previous name and color back.
unfoldable pub land_patch :
    Os → Machine → Outcome (List Profile × Profile) → Machine × Outcome Profile
unfolding persist with_store
land_patch os m (done (ps, p)) = persist os m (with_store m ps m.store.active_id) p
land_patch os m (failed e) = (m, failed e)
land_patch os m threw = (m, threw)

module _ (fold : Text → Text) where
  -- The directory is made before the profile is put into the store.
  unfoldable pub creation : Os → Value → Value → Machine → Outcome (Machine × Profile)
  unfolding or_default name_taken color_or_default make_dir new_profile made active_or
  creation os input_name input_color m = do
    name ← normalize_name (or_default (unused_adoption_name fold m.store.profiles) input_name)
    check (not (name_taken fold name none m.store.profiles)) profile_name_exists
    color ← color_or_default (length m.store.profiles) input_color
    let p = new_profile os name color m.store.profiles
    dir ← resolve_dir os.fresh
    check_made os.world_made
    worlds ← make_dir dir m.disk.worlds
    done (made os m p worlds, p)

  unfoldable pub create : Os → Value → Value → Machine → Machine × Outcome Profile
  unfolding creation commit
  create os input_name input_color m = commit os m (creation os input_name input_color m)

  unfoldable pub is_name_free : Option Text → Text → List Profile → Bool
  is_name_free none id ps = true
  is_name_free (some name) id ps = not (name_taken fold name (some id) ps)

  unfoldable pub patching : Text → Value → Value → List Profile → Outcome (List Profile × Profile)
  unfolding name_patch color_patch is_name_free patched change_id
  patching id patch_name patch_color ps = do
    p ← require (string id) ps
    name ← name_patch patch_name
    check (is_name_free name p.id ps) profile_name_exists
    color ← color_patch patch_color
    done (change_id id (patched name color) ps, patched name color p)

  unfoldable pub update : Os → Text → Value → Value → Machine → Machine × Outcome Profile
  unfolding patching land_patch
  update os id patch_name patch_color m =
      land_patch os m (patching id patch_name patch_color m.store.profiles)
