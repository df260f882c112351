-- ===== src/Profiles/Lifetime.antt =====
-- A store of server/src/profiles.ts from its `load` on, the paths that it gives out, and its updates.
use misgeret.Base.{
  ℕ, zero, suc, ◌+◌, ◌≡◌, refl, sym, ◌⊎◌, arith, Bool, true, ◌||◌, List, [], ◌∷◌, all, length, ◌==◌,
  Bool-cases, inl, inr,
}
use misgeret.Text.{Text}
use misgeret.Profiles.{
  Profile, Disk, Machine, Os, Outcome, done, failed, threw, ◌>>=◌, Value, string,
}
use misgeret.Profiles.Checks.{is_hex, is_hex_runs, is_profile_id}
use misgeret.Profiles.Members.{has_id, require, resolve_dir, dir_for}
use misgeret.Profiles.Registry.{read_registry, is_saved, persist}
use misgeret.Profiles.Loading.{load}
use misgeret.Profiles.Requests.{patching, land_patch, update}
use misgeret.Profiles.Validity.{DistinctIds, IsWellFormed}
use misgeret.Profiles.Keeping.{require_lem}
use misgeret.Profiles.Adoption.{load-IsWellFormed}
use misgeret.Profiles.Invariant.{resolve_dir_lem, Reaches, Reaches-IsWellFormed}

-- Where no id stands twice in the registry file, after `load`, whatever else is in the file and on
-- disk, and whatever requests come then (a new UUID is the id of no profile, and the directory of
-- a profile that a migration adopts is there): no id stands twice and each is a UUID, the orders
-- are the positions, the active id names a profile as soon as there is one, and each profile has
-- its entry below profiles/.
pub load-Reaches-IsWellFormed :
    (fold : Text → Text) (le_text : Text → Text → Bool) (os : Os) (disk : Disk) (m : Machine)
    → DistinctIds (read_registry os.now disk.registry).profiles
    → Reaches fold (load fold le_text os disk).0 m
    → IsWellFormed m
load-Reaches-IsWellFormed fold le_text os disk m d r =
    Reaches-IsWellFormed fold (load fold le_text os disk).0 m
      (load-IsWellFormed fold le_text os disk d) r

-- Hex digits and dashes are no part of a way out of a directory.
unfoldable pub is_plain : ℕ → Bool
unfolding is_hex
is_plain c = is_hex c || c == 45

size : List ℕ → ℕ
size [] = 0
size (n ∷ ns) = suc (n + size ns)

is_hex_runs-is_plain :
    (k : ℕ) (ns : List ℕ) (s : Text)
    → is_hex_runs k ns s ≡ true
    → (all is_plain s ≡ true) × (length s ≡ k + size ns)
unfolding is_hex_runs all is_plain size
is_hex_runs-is_plain zero [] [] h = (refl, refl)
is_hex_runs-is_plain zero [] (c ∷ s) h = cc
is_hex_runs-is_plain zero (n ∷ ns) [] h = cc
is_hex_runs-is_plain zero (n ∷ ns) (c ∷ s) h =
    let ih = is_hex_runs-is_plain n ns s (ground arith) in (ground arith, ground arith)
is_hex_runs-is_plain (suc k) ns [] h = cc
is_hex_runs-is_plain (suc k) ns (c ∷ s) h =
    let ih = is_hex_runs-is_plain k ns s (ground arith) in (ground arith, ground arith)

-- A directory that `dirFor` gives is that of a profile in the store, and its name below profiles/ is
-- 36 hex digits and dashes, whatever ids the store was loaded with.
pub dir_for-is_plain :
    (id : Text) (ps : List Profile) (dir : Text)
    → dir_for id ps ≡ done dir
    → (dir ≡ id) × (has_id id ps ≡ true) × (all is_plain dir ≡ true) × (length dir ≡ 36)
unfolding dir_for
dir_for-is_plain id ps dir h = found (require (string id) ps) refl h
  where
    found :
        (o : Outcome Profile)
        → require (string id) ps ≡ o
        → (o >>= λ p. resolve_dir id) ≡ done dir
        → (dir ≡ id) × (has_id id ps ≡ true) × (all is_plain dir ≡ true) × (length dir ≡ 36)
    found (done p) e k =
        let r = resolve_dir_lem id dir k in
        let q = is_hex_runs-is_plain 8 (4 ∷ 4 ∷ 4 ∷ 12 ∷ []) id (unfold is_profile_id in r.1) in
        rw (sym r.0) (refl, (require_lem id ps p e).1, q.0, unfold size in q.1)
    found (failed x) e k = cc
    found threw e k = cc

-- An update goes through and is written, or it leaves the store and the disk as they were: whether the profile is not
-- there, a part of the patch is refused, or the registry file could not be written.
pub update_all_or_nothing :
    (fold : Text → Text) (os : Os) (id : Text) (n c : Value) (m : Machine)
    → ((p : Profile) × ((update fold os id n c m).1 ≡ done p) × (is_saved os ≡ true))
      ⊎ ((update fold os id n c m).0 ≡ m)
unfolding update
update_all_or_nothing fold os id n c m = land (patching fold id n c m.store.profiles)
  where
    land :
        (o : Outcome (List Profile × Profile))
        → ((p : Profile) × ((land_patch os m o).1 ≡ done p) × (is_saved os ≡ true))
          ⊎ ((land_patch os m o).0 ≡ m)
    land (done (ps, p)) =
        unfold land_patch persist in
        elim (Bool-cases (is_saved os)) [
          | inl e ↦ rw e (inl (p, refl, refl))
          | inr e ↦ rw e (inr refl)
        ]
    land (failed x) = unfold land_patch in inr refl
    land threw = unfold land_patch in inr refl
