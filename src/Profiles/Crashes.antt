-- ===== src/Profiles/Crashes.antt =====
-- A crash, or a failed write, between the change on disk and the write of the registry file,
-- server/src/profiles.ts.
use misgeret.Base.{
  ◌≡◌, ◌≢◌, refl, sym, ap, subst, ◌∙◌, arith, Bool, true, false, not, Option, none, some, List, [],
  ◌∷◌, length, ◌==◌, filter, Bool-cases, inl, inr,
}
use misgeret.Base.Dict.{has_key, get}
use misgeret.Text.{Text, eq_text, eq_text_iff, text_key}
use misgeret.Profiles.{
  Profile, Entry, last_profile, profile_name_exists, Disk, Store, Machine, Os, Outcome, done,
  failed, threw, check, ◌>>=◌, Value, string,
}
use misgeret.Profiles.Checks.{normalize_name}
use misgeret.Profiles.Free.{name_taken, unused_adoption_name}
use misgeret.Profiles.Members.{has_id, or_not_found, require, resolve_dir, remove_id, number_from}
use misgeret.Profiles.Registry.{is_saved, content_of, persist}
use misgeret.Profiles.Loading.{is_active, same_id, alive, repaired, load}
use misgeret.Profiles.Requests.{
  commit, or_default, color_or_default, check_made, make_dir, new_profile, made, creation, create,
}
use misgeret.Profiles.Changes.{
  move_entry, move_aside, active_without, store_without, deletion, soft_delete,
}
use misgeret.Profiles.Validity.{
  is_resolved, has_home, IsWellFormed, ids_all-at, ids_all-of, has_id-number_from, has_id-remove_id,
}
use misgeret.Profiles.Keeping.{Ensures, >>=-Ensures, require_lem, make_dir_lem}
use misgeret.Profiles.Leaving.{move_aside_lem}
use misgeret.Profiles.Invariant.{resolve_dir_lem}
use misgeret.Profiles.Agreement.{remaining_store, load-remaining_store, remaining_store-same}
use misgeret.Profiles.Durable.{IsDurable}
use misgeret.Profiles.Persisting.{make_dir-IsCalm, move_aside-IsAside}
use misgeret.Profiles.Reboot.{IsReadable-of}

-- The registry file holds what the store holds.
abbrev pub IsSynced : Machine → Type 0
IsSynced m = m.disk.registry ≡ content_of m.store

alive-remove_id :
    (id : Text) (rest : List (Text × Entry)) (ps : List Profile)
    → has_home rest id ≡ false
    → ((j : Text) → eq_text id j ≡ false → has_id j ps ≡ true → has_home rest j ≡ true)
    → alive rest ps ≡ remove_id id ps
unfolding alive remove_id filter
alive-remove_id id rest [] n h = refl
alive-remove_id id rest (p ∷ ps) n h =
    let ih = alive-remove_id id rest ps n (λ j e k. h j e (unfold has_id in ground arith)) in
    elim (Bool-cases (eq_text p.id id)) [
      | inl e ↦
          let k : has_key p.id rest ≡ false =
            (unfold has_home in (ap (λ t. has_key t rest) ((eq_text_iff p.id id).0 e) ∙ n)) in
          rw e (rw k ih)
      | inr e ↦
          let k : has_key p.id rest ≡ true =
            (unfold has_home in
              (h p.id (ground (arith, eq_text_iff p.id id, eq_text_iff id p.id))
                (unfold has_id in ground (arith, eq_text_iff p.id p.id)))) in
          rw e (rw k (ap (λ qs. p ∷ qs) ih))
    ]

-- The next `load` repairs the active id as the deletion does.
repaired-active_without :
    (id : Text) (active : Option Text) (ps : List Profile)
    → is_resolved active ps ≡ true
    → has_id id ps ≡ true
    → repaired active (number_from 0 (remove_id id ps))
      ≡ active_without id active (number_from 0 (remove_id id ps))
unfolding repaired active_without is_active same_id
repaired-active_without id none [] r k = unfold has_id in cc
repaired-active_without id none (p ∷ ps) r k = unfold is_resolved in cc
repaired-active_without id (some a) ps r k =
    let rest = number_from 0 (remove_id id ps) in
    let e : has_id a rest ≡ not (eq_text a id) =
      has_id-number_from a 0 (remove_id id ps)
      ∙ has_id-remove_id a id ps
      ∙ (unfold is_resolved in ground (arith, eq_text_iff a id, eq_text_iff id a)) in
    rw e (ground arith)

>>=-ne-threw {ℓ κ} :
    {A : Type ℓ} {B : Type κ} (o : Outcome A) (f : A → Outcome B)
    → o ≢ threw
    → ((a : A) → f a ≢ threw)
    → (o >>= f) ≢ threw
>>=-ne-threw (done a) f h k = k a
>>=-ne-threw (failed e) f h k = λ q. cc
>>=-ne-threw threw f h k = absurd (h refl)

move_entry-ne-threw :
    (os : Os) (id : Text) (o : Option Entry) (d : Disk) → move_entry os id o d ≢ threw
unfolding move_entry
move_entry-ne-threw os id none d e = cc
move_entry-ne-threw os id (some w) d e = ground arith

-- A deletion throws at the write of the registry only.
deletion-ne-threw : (os : Os) (id : Text) (m : Machine) → deletion os id m ≢ threw
unfolding deletion
deletion-ne-threw os id m =
    >>=-ne-threw (require (string id) m.store.profiles) _
      (unfold require or_not_found in λ e. ground arith)
      λ p.
        >>=-ne-threw (check (not (length m.store.profiles == 1)) last_profile) _ (λ e. ground arith)
          λ _. >>=-ne-threw (resolve_dir p.id) _ (unfold resolve_dir in λ e. ground arith) λ dir.
            >>=-ne-threw (move_aside os dir m.disk) _
              (unfold move_aside in move_entry-ne-threw os dir (get dir m.disk.worlds) m.disk)
              λ disk e. cc

module _ (fold : Text → Text) (le_text : Text → Text → Bool) (os os' : Os) (m : Machine) where
  abbrev Reloads : Store → Disk → Type 0
  Reloads s d = (load fold le_text os' d).0.store ≡ s

  module _ (w : IsWellFormed m) (h : IsDurable m) (synced : IsSynced m) where
    removed-Reloads :
        (id : Text) (d : Disk)
        → has_id id m.store.profiles ≡ true
        → move_aside os id m.disk ≡ done d
        → Reloads (store_without id m.store) d
    removed-Reloads id d k e =
        let c = move_aside-IsAside os id m.disk d h.entries e in
        load-remaining_store fold le_text os' m.store d (c.1 ∙ synced)
          (IsReadable-of d.worlds (c.0.2 m.store.profiles h.calm) w h)
        ∙ gone (
            alive-remove_id id d.worlds m.store.profiles (unfold has_home in c.0.0)
              (λ j n i. move_aside_lem os id j m.disk d e n ∙ ids_all-home j i))
      where
        ids_all-home :
            (j : Text) → has_id j m.store.profiles ≡ true → has_home m.disk.worlds j ≡ true
        ids_all-home j i = ids_all-at (has_home m.disk.worlds) j m.store.profiles w.homes i

        gone :
            alive d.worlds m.store.profiles ≡ remove_id id m.store.profiles
            → remaining_store d.worlds m.store ≡ store_without id m.store
        gone q =
            unfold remaining_store store_without in
            rw q (rw (repaired-active_without id m.store.active_id m.store.profiles w.active k))

    deletion-Reloads :
        (id : Text) → Ensures (λ r. Reloads (store_without id m.store) r.0.disk) (deletion os id m)
    deletion-Reloads id =
        unfold deletion in
        (>>=-Ensures (λ r. Reloads (store_without id m.store) r.0.disk)
          (require (string id) m.store.profiles) _
          λ p r.
            >>=-Ensures (λ r. Reloads (store_without id m.store) r.0.disk)
              (check (not (length m.store.profiles == 1)) last_profile) _
              λ _ _.
                >>=-Ensures (λ r. Reloads (store_without id m.store) r.0.disk) (resolve_dir p.id) _
                  λ dir d.
                    >>=-Ensures (λ r. Reloads (store_without id m.store) r.0.disk)
                      (move_aside os dir m.disk) _
                      λ disk e. removed-Reloads id disk (require_lem id m.store.profiles p r).1 (
                        rw (sym (require_lem id m.store.profiles p r).0)
                          (rw (resolve_dir_lem p.id dir d).0 e)))

    made-Reloads :
        (p : Profile) (worlds : List (Text × Entry))
        → make_dir p.id m.disk.worlds ≡ done worlds
        → Reloads m.store (made os m p worlds).disk
    made-Reloads p worlds e =
        let c = make_dir-IsCalm p.id m.disk.worlds worlds m.store.profiles e h.entries h.calm in
        let k = IsReadable-of worlds c.1 w h in
        unfold made in
        (load-remaining_store fold le_text os' m.store (record (m.disk) { worlds = worlds }) synced
            k
          ∙ remaining_store-same m.store worlds k (
              ids_all-of (has_home m.disk.worlds) (has_home worlds) m.store.profiles
                (λ j i q. ground (arith, make_dir_lem p.id j m.disk.worlds worlds e)) w.homes))

    creation-Reloads :
        (n c : Value) → Ensures (λ r. Reloads m.store r.0.disk) (creation fold os n c m)
    creation-Reloads n c =
        let ps = m.store.profiles in
        let Q : Machine × Profile → Type 0 = λ r. Reloads m.store r.0.disk in
        unfold creation in
        (>>=-Ensures Q (normalize_name (or_default (unused_adoption_name fold ps) n)) _ λ name _.
          >>=-Ensures Q (check (not (name_taken fold name none ps)) profile_name_exists) _ λ _ _.
            >>=-Ensures Q (color_or_default (length ps) c) _ λ color _.
              >>=-Ensures Q (resolve_dir os.fresh) _ λ dir d.
                >>=-Ensures Q (check_made os.world_made) _ λ _ _.
                  >>=-Ensures Q (make_dir dir m.disk.worlds) _ λ worlds e.
                    made-Reloads (new_profile os name color ps) worlds (
                      unfold new_profile in
                      (subst (λ (t : Text). make_dir t m.disk.worlds ≡ done worlds)
                        (sym (resolve_dir_lem os.fresh dir d).0) e)))

    still-Reloads : Reloads m.store m.disk
    still-Reloads =
        let k = IsReadable-of m.disk.worlds h.calm w h in
        load-remaining_store fold le_text os' m.store m.disk synced k
        ∙ remaining_store-same m.store m.disk.worlds k w.homes

    -- What a disk that the operation leaves behind without writing the registry gives.
    commit-Reloads :
        {A : Type 0} (s : Store) (o : Outcome (Machine × A))
        → Ensures (λ r. Reloads s r.0.disk) o
        → (o ≡ threw → Reloads s m.disk)
        → (commit os m o).1 ≡ threw
        → Reloads s (commit os m o).0.disk
    commit-Reloads s (done (m', a)) k t e =
        unfold commit persist in
        elim (Bool-cases (is_saved os)) [
          | inl i ↦ absurd (unfold commit persist in ground arith)
          | inr i ↦ rw i k
        ]
    commit-Reloads s (failed x) k t e = unfold commit in cc
    commit-Reloads s threw k t e = unfold commit in t refl

    -- From a well-formed store whose profiles can be written and read back and that the registry
    -- file holds, over directories of different names none of which waits for its adoption: where
    -- `create` ends with an error of the file system, at whatever step, the next `load` gives the
    -- store as it was before the call.
    pub create-load_crashed :
        (n c : Value)
        → (create fold os n c m).1 ≡ threw
        → (load fold le_text os' (create fold os n c m).0.disk).0.store ≡ m.store
    create-load_crashed n c e =
        unfold create in
        commit-Reloads m.store (creation fold os n c m) (creation-Reloads n c) (λ _. still-Reloads)
          (unfold create in e)

    -- From a well-formed store whose profiles can be written and read back and that the registry
    -- file holds, over directories of different names none of which waits for its adoption: where
    -- `softDelete` ends with an error of the file system, the next `load` gives the store without
    -- the profile, renumbered, and with its active id reassigned where that was the profile's.
    pub soft_delete-load_crashed :
        (id : Text)
        → (soft_delete os id m).1 ≡ threw
        → (load fold le_text os' (soft_delete os id m).0.disk).0.store ≡ store_without id m.store
    soft_delete-load_crashed id e =
        unfold soft_delete in
        commit-Reloads (store_without id m.store) (deletion os id m) (deletion-Reloads id)
          (λ t. absurd (deletion-ne-threw os id m t)) (unfold soft_delete in e)
