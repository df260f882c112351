-- ===== src/Profiles/Invariant.antt =====
-- Well-formedness of the store of server/src/profiles.ts over sequences of requests.
use misgeret.Base.{
  ◌≡◌, refl, sym, subst, arith, true, false, not, Option, none, some, List, length, ◌==◌,
}
use misgeret.Text.{Text, text_key}
use misgeret.Profiles.{
  Profile, profile_name_exists, last_profile, invalid_input, Machine, Os, Outcome, done, failed,
  threw, check, Value, string,
}
use misgeret.Profiles.Checks.{is_profile_id, normalize_name}
use misgeret.Profiles.Free.{name_taken, unused_adoption_name}
use misgeret.Profiles.Members.{has_id, require, resolve_dir}
use misgeret.Profiles.Loading.{is_nil, is_numbered}
use misgeret.Profiles.Requests.{
  with_store, or_default, color_or_default, check_made, make_dir, new_profile, creation, create,
  name_patch, color_patch, patched, is_name_free, patching, land_patch, update, resolve_by,
  resolve_active_id,
}
use misgeret.Profiles.Changes.{
  opened, activation, set_active, reordering, move_aside, deletion, soft_delete, migrated, adoption,
  commit_migrated, reorder, Request, creates, updates, reorders, activates, deletes, adopts,
  resolves, handle,
}
use misgeret.Profiles.Validity.{ids_all, is_resolved, has_home, IsWellFormed, eq_text_refl}
use misgeret.Profiles.Keeping.{
  Ensures, >>=-Ensures, Keeps, persist-IsWellFormed, commit-IsWellFormed, require_lem,
  with_store-IsWellFormed, repair_active-IsWellFormed, made-IsWellFormed,
}
use misgeret.Profiles.Leaving.{store_without-IsWellFormed}
use misgeret.Profiles.Reorders.{reordering-Keeps}

pub resolve_dir_lem :
    (id dir : Text) → resolve_dir id ≡ done dir → (id ≡ dir) × (is_profile_id id ≡ true)
unfolding resolve_dir
resolve_dir_lem id dir h = ground arith

module _ (fold : Text → Text) (os : Os) (m : Machine) (h : IsWellFormed m) where
  abbrev P {ℓ} : {A : Type ℓ} → Machine × A → Type 0
  P r = IsWellFormed r.0

  creation-Keeps :
      (n c : Value) → has_id os.fresh m.store.profiles ≡ false → Keeps (creation fold os n c m)
  unfolding creation
  creation-Keeps n c f =
      let ps = m.store.profiles in
      >>=-Ensures P (normalize_name (or_default (unused_adoption_name fold ps) n)) _ λ name _.
        >>=-Ensures P (check (not (name_taken fold name none ps)) profile_name_exists) _ λ _ _.
          >>=-Ensures P (color_or_default (length ps) c) _ λ color _.
            >>=-Ensures P (resolve_dir os.fresh) _ λ dir d.
              >>=-Ensures P (check_made os.world_made) _ λ _ _.
                >>=-Ensures P (make_dir dir m.disk.worlds) _ λ worlds e.
                  made-IsWellFormed os m (new_profile os name color ps) worlds
                    (resolve_dir_lem os.fresh dir d).1 f refl
                    (subst (λ (t : Text). make_dir t m.disk.worlds ≡ done worlds)
                      (sym (resolve_dir_lem os.fresh dir d).0) e)
                    h

  patching-IsWellFormed :
      (id : Text) (n c : Value)
      → IsWellFormed (land_patch os m (patching fold id n c m.store.profiles)).0
  unfolding land_patch patching
  patching-IsWellFormed id n c = land (patching fold id n c m.store.profiles) (patched_rows id n c)
    where
      Patches : List Profile × Profile → Type 0
      Patches r = IsWellFormed (with_store m r.0 m.store.active_id)

      patched_rows :
          (id : Text) (n c : Value) → Ensures Patches (patching fold id n c m.store.profiles)
      patched_rows id n c = >>=-Ensures Patches (require (string id) m.store.profiles) _ λ p _.
          >>=-Ensures Patches (name_patch n) _ λ name _.
            >>=-Ensures Patches
              (check (is_name_free fold name p.id m.store.profiles) profile_name_exists) _
              λ _ _. >>=-Ensures Patches (color_patch c) _ λ color _.
                with_store-IsWellFormed m (patched name color)
                  (λ q. (unfold patched in refl, unfold patched in refl)) id m.store.active_id
                  h.active h

      land :
          (o : Outcome (List Profile × Profile))
          → Ensures Patches o
          → IsWellFormed (land_patch os m o).0
      land (done (ps, p)) k = persist-IsWellFormed os m (with_store m ps m.store.active_id) p h k
      land (failed e) k = h
      land threw k = h

  activation-Keeps : (id : Text) → Keeps (activation os id m)
  unfolding activation
  activation-Keeps id = >>=-Ensures P (require (string id) m.store.profiles) _ λ p r.
      with_store-IsWellFormed m (opened os) (λ q. (unfold opened in refl, unfold opened in refl)) id
        (some p.id)
        (unfold is_resolved in
          rw (require_lem id m.store.profiles p r).0 ((require_lem id m.store.profiles p r).1))
        h

  deletion-Keeps : (id : Text) → Keeps (deletion os id m)
  unfolding deletion
  deletion-Keeps id = >>=-Ensures P (require (string id) m.store.profiles) _ λ p r.
      >>=-Ensures P (check (not (length m.store.profiles == 1)) last_profile) _ λ _ _.
        >>=-Ensures P (resolve_dir p.id) _ λ dir d.
          >>=-Ensures P (move_aside os dir m.disk) _ λ disk e.
            store_without-IsWellFormed os p.id m disk
              (rw (require_lem id m.store.profiles p r).0 ((require_lem id m.store.profiles p r).1))
              (rw (resolve_dir_lem p.id dir d).0 e) h

  adoption-Keeps :
      (id : Text) (n : Value) → has_home m.disk.worlds id ≡ true → Keeps (adoption os id n m)
  unfolding adoption
  adoption-Keeps id n home = >>=-Ensures P (check (is_nil m.store.profiles) invalid_input) _ λ _ _.
      >>=-Ensures P (check (is_profile_id id) invalid_input) _ λ _ u.
        >>=-Ensures P (normalize_name n) _ λ name _.
          unfold with_store migrated in
          record {
            distinct = (unfold has_id in refl, tt);
            uuids = unfold ids_all in ground arith;
            numbered = unfold is_numbered in refl;
            active = unfold is_resolved has_id in ground (arith, eq_text_refl id);
            homes = unfold ids_all in ground arith;
          }

  resolve_by-IsWellFormed : (active : Option Text) → IsWellFormed (resolve_by os m active).0
  unfolding resolve_by
  resolve_by-IsWellFormed none = repair_active-IsWellFormed os m m.store.profiles refl h
  resolve_by-IsWellFormed (some a) =
      ground (arith, repair_active-IsWellFormed os m m.store.profiles refl h)

-- What the requests of the code come with: a new UUID is not the id of a profile, and the directory of
-- the profile that a migration adopts was made before.
abbrev pub Admissible : Os → Request → Machine → Type 0
Admissible os (creates n c) m = has_id os.fresh m.store.profiles ≡ false
Admissible os (adopts id n) m = has_home m.disk.worlds id ≡ true
Admissible os _ m = Unit

handle-IsWellFormed :
    (fold : Text → Text) (os : Os) (r : Request) (m : Machine)
    → Admissible os r m
    → IsWellFormed m
    → IsWellFormed (handle fold os r m)
unfolding handle create update reorder set_active soft_delete commit_migrated resolve_active_id
handle-IsWellFormed fold os (creates n c) m a h =
    commit-IsWellFormed os m (creation fold os n c m) h (creation-Keeps fold os m h n c a)
handle-IsWellFormed fold os (updates id n c) m a h = patching-IsWellFormed fold os m h id n c
handle-IsWellFormed fold os (reorders ids) m a h =
    commit-IsWellFormed os m (reordering ids m) h (reordering-Keeps ids m h)
handle-IsWellFormed fold os (activates id) m a h =
    commit-IsWellFormed os m (activation os id m) h (activation-Keeps fold os m h id)
handle-IsWellFormed fold os (deletes id) m a h =
    commit-IsWellFormed os m (deletion os id m) h (deletion-Keeps fold os m h id)
handle-IsWellFormed fold os (adopts id n) m a h =
    commit-IsWellFormed os m (adoption os id n m) h (adoption-Keeps fold os m h id n a)
handle-IsWellFormed fold os resolves m a h = resolve_by-IsWellFormed fold os m h m.store.active_id

-- Any requests one after the other, the platform answering each as it likes.
pub data Reaches (fold : Text → Text) : Machine → Machine → Type 0 where
  stays : (m : Machine) → Reaches fold m m
  moves :
      (os : Os) (r : Request) (m m' : Machine)
      → Admissible os r m
      → Reaches fold (handle fold os r m) m'
      → Reaches fold m m'

pub Reaches-IsWellFormed :
    (fold : Text → Text) (m m' : Machine) → IsWellFormed m → Reaches fold m m' → IsWellFormed m'
Reaches-IsWellFormed fold m m' h (stays _) = h
Reaches-IsWellFormed fold m m' h (moves os r _ _ a rest) =
    Reaches-IsWellFormed fold (handle fold os r m) m' (handle-IsWellFormed fold os r m a h) rest
