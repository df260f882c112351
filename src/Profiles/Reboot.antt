-- ===== src/Profiles/Reboot.antt =====
-- The operations of server/src/profiles.ts one after the other, and `load` after them.
use misgeret.Base.{
  ◌≡◌, refl, subst, ◌∙◌, arith, Bool, true, not, Option, none, some, List, [], ◌∷◌, All, length,
  ◌==◌,
}
use misgeret.Text.{Text, text_key}
use misgeret.Profiles.{
  Profile, Entry, profile_name_exists, last_profile, invalid_input, Disk, Machine, Os, Outcome,
  done, failed, threw, check, Value, string,
}
use misgeret.Profiles.Checks.{is_profile_id, normalize_name}
use misgeret.Profiles.Members.{has_id, require, resolve_dir, remove_id, number_from}
use misgeret.Profiles.Registry.{write}
use misgeret.Profiles.Loading.{is_nil, load}
use misgeret.Profiles.Requests.{
  with_store, creation, create, name_patch, color_patch, patched, is_name_free, patching,
  land_patch, update, repair_active, resolve_by, resolve_active_id,
}
use misgeret.Profiles.Changes.{
  ordering, reordering, reorder, opened, activation, set_active, move_aside, store_without,
  deletion, soft_delete, migrated, adoption, commit_migrated, Request, creates, updates, reorders,
  activates, deletes, adopts, resolves, handle,
}
use misgeret.Profiles.Validity.{IsWellFormed, has_id-number_from, has_id-remove_id}
use misgeret.Profiles.Keeping.{Ensures, >>=-Ensures}
use misgeret.Profiles.Reorders.{IsOrdering, ordering-IsOrdering}
use misgeret.Profiles.Invariant.{resolve_dir_lem, Reaches, stays, moves, Reaches-IsWellFormed}
use misgeret.Profiles.Storable.{IsStorable, normalize_name-IsName, color_at-IsPaint}
use misgeret.Profiles.Reloading.{is_calm}
use misgeret.Profiles.Agreement.{IsReadable, load-remaining_store, remaining_store-same}
use misgeret.Profiles.Durable.{
  IsDurable, All-remove_id, IsStorable-number_from, is_calm-more, is_calm-other,
}
use misgeret.Profiles.Persisting.{
  move_aside-IsAside, patched-IsStorable, name_patch-IsName, color_patch-IsPaint,
}
use misgeret.Profiles.Recovery.{
  persist-IsDurable, commit-IsDurable, D, ordering-IsStorable, changed-IsDurable,
  creation-IsDurable,
}

removed-IsDurable :
    (os : Os) (id : Text) (m : Machine) (d : Disk)
    → move_aside os id m.disk ≡ done d
    → IsDurable m
    → IsDurable (record { store = store_without id m.store; disk = d })
unfolding store_without
removed-IsDurable os id m d e h =
    let c = (move_aside-IsAside os id m.disk d h.entries e).0 in
    let rest : List Profile = remove_id id m.store.profiles in
    record {
      storable =
          IsStorable-number_from 0 rest (All-remove_id IsStorable id m.store.profiles h.storable);
      calm =
          is_calm-other id m.store.profiles (number_from 0 rest) d.worlds
            (λ j n k.
              has_id-number_from j 0 rest ∙ ground (arith, has_id-remove_id j id m.store.profiles))
            c.0 (c.2 m.store.profiles h.calm);
      entries = c.1;
    }

module _ (fold : Text → Text) (os : Os) (m : Machine) (h : IsDurable m) where
  patching-IsDurable :
      (id : Text) (n c : Value)
      → IsDurable (land_patch os m (patching fold id n c m.store.profiles)).0
  unfolding land_patch patching
  patching-IsDurable id n c = land (patching fold id n c m.store.profiles) (patched_rows id n c)
    where
      Patches : List Profile × Profile → Type 0
      Patches r = IsDurable (with_store m r.0 m.store.active_id)

      patched_rows :
          (id : Text) (n c : Value) → Ensures Patches (patching fold id n c m.store.profiles)
      patched_rows id n c = >>=-Ensures Patches (require (string id) m.store.profiles) _ λ p _.
          >>=-Ensures Patches (name_patch n) _ λ name en.
            >>=-Ensures Patches
              (check (is_name_free fold name p.id m.store.profiles) profile_name_exists) _
              λ _ _. >>=-Ensures Patches (color_patch c) _ λ color ec.
                changed-IsDurable fold os m h (patched name color)
                  (λ q. (unfold patched in refl, unfold patched in refl))
                  (patched-IsStorable name color (name_patch-IsName n name en)
                    (color_patch-IsPaint c color ec))
                  id m.store.active_id

      land :
          (o : Outcome (List Profile × Profile))
          → Ensures Patches o
          → IsDurable (land_patch os m o).0
      land (done (ps, p)) k = persist-IsDurable os m (with_store m ps m.store.active_id) p h k
      land (failed e) k = h
      land threw k = h

  activation-IsDurable : (id : Text) → Ensures D (activation os id m)
  unfolding activation
  activation-IsDurable id = >>=-Ensures D (require (string id) m.store.profiles) _ λ p r.
      changed-IsDurable fold os m h (opened os)
        (λ q. (unfold opened in refl, unfold opened in refl))
        (λ q s. unfold opened in (record { uuid = s.uuid; named = s.named; painted = s.painted }))
        id (some p.id)

  reordering-IsDurable : (ids : Option (List Value)) → Ensures D (reordering ids m)
  unfolding reordering
  reordering-IsDurable ids = >>=-Ensures D (ordering ids m.store.profiles) _ λ o e.
      unfold with_store in
      record {
        storable =
            subst (Ensures (All IsStorable)) e
              (ordering-IsStorable ids m.store.profiles h.storable);
        calm =
            is_calm-more m.store.profiles o m.disk.worlds
              (λ j k.
                (subst (Ensures (IsOrdering m.store.profiles)) e
                    (ordering-IsOrdering ids m.store.profiles)).3
                  j
                ∙ k)
              h.calm;
        entries = h.entries;
      }

  deletion-IsDurable : (id : Text) → Ensures D (deletion os id m)
  unfolding deletion
  deletion-IsDurable id = >>=-Ensures D (require (string id) m.store.profiles) _ λ p r.
      >>=-Ensures D (check (not (length m.store.profiles == 1)) last_profile) _ λ _ _.
        >>=-Ensures D (resolve_dir p.id) _ λ dir d.
          >>=-Ensures D (move_aside os dir m.disk) _
            λ disk e. removed-IsDurable os p.id m disk (rw (resolve_dir_lem p.id dir d).0 e) h

  adoption-IsDurable : (id : Text) (n : Value) → Ensures D (adoption os id n m)
  unfolding adoption
  adoption-IsDurable id n = >>=-Ensures D (check (is_nil m.store.profiles) invalid_input) _ λ _ z.
      >>=-Ensures D (check (is_profile_id id) invalid_input) _ λ _ u.
        >>=-Ensures D (normalize_name n) _ λ name en.
          unfold with_store migrated in
          record {
            storable = (
              record {
                uuid = ground arith;
                named = normalize_name-IsName n name en;
                painted = color_at-IsPaint 0;
              },
              tt,
            );
            calm =
                is_calm-more m.store.profiles (migrated os id name ∷ []) m.disk.worlds
                  (λ j k. nothing j m.store.profiles k (ground arith)) h.calm;
            entries = h.entries;
          }
    where
      nothing :
          {b : Bool} (j : Text) (ps : List Profile)
          → has_id j ps ≡ true
          → is_nil ps ≡ true
          → b ≡ true
      nothing j [] k z = unfold has_id in cc
      nothing j (p ∷ ps) k z = unfold is_nil in cc

  repair_active-IsDurable :
      (ps : List Profile) → m.store.profiles ≡ ps → IsDurable (repair_active os m ps).0
  unfolding repair_active with_store
  repair_active-IsDurable [] e = h
  repair_active-IsDurable (p ∷ ps) e =
      commit-IsDurable os m (done (with_store m (p ∷ ps) (some p.id), p.id)) h
        (record { storable = rw e at h.storable; calm = rw e at h.calm; entries = h.entries })

  resolve_by-IsDurable : (active : Option Text) → IsDurable (resolve_by os m active).0
  unfolding resolve_by
  resolve_by-IsDurable none = repair_active-IsDurable m.store.profiles refl
  resolve_by-IsDurable (some a) = ground (arith, repair_active-IsDurable m.store.profiles refl)

  handle-IsDurable : (r : Request) → IsDurable (handle fold os r m)
  unfolding handle create update reorder set_active soft_delete commit_migrated resolve_active_id
  handle-IsDurable (creates n c) =
      commit-IsDurable os m (creation fold os n c m) h (creation-IsDurable fold os m h n c)
  handle-IsDurable (updates id n c) = patching-IsDurable id n c
  handle-IsDurable (reorders ids) =
      commit-IsDurable os m (reordering ids m) h (reordering-IsDurable ids)
  handle-IsDurable (activates id) =
      commit-IsDurable os m (activation os id m) h (activation-IsDurable id)
  handle-IsDurable (deletes id) = commit-IsDurable os m (deletion os id m) h (deletion-IsDurable id)
  handle-IsDurable (adopts id n) =
      commit-IsDurable os m (adoption os id n m) h (adoption-IsDurable id n)
  handle-IsDurable resolves = resolve_by-IsDurable m.store.active_id

Reaches-IsDurable :
    (fold : Text → Text) (m m' : Machine) → IsDurable m → Reaches fold m m' → IsDurable m'
Reaches-IsDurable fold m m' h (stays _) = h
Reaches-IsDurable fold m m' h (moves os r _ _ a rest) =
    Reaches-IsDurable fold (handle fold os r m) m' (handle-IsDurable fold os m h r) rest

pub IsReadable-of :
    {m : Machine} (ps : List (Text × Entry))
    → is_calm m.store.profiles ps ≡ true
    → IsWellFormed m
    → IsDurable m
    → IsReadable m.store ps
IsReadable-of ps c w h = record {
  storable = h.storable;
  uuids = w.uuids;
  numbered = w.numbered;
  active = w.active;
  calm = c;
}

-- From a well-formed store whose profiles can be written and read back, over directories of
-- different names none of which waits for its adoption, whatever requests come (a new UUID is the
-- id of no profile, and the directory of a profile that a migration adopts is there): once the
-- store has written the registry file, `load` gives the same store back.
pub Reaches-load-write :
    (fold : Text → Text) (le_text : Text → Text → Bool) (os : Os) (m m' : Machine)
    → IsWellFormed m
    → IsDurable m
    → Reaches fold m m'
    → (load fold le_text os (write m').disk).0.store ≡ m'.store
Reaches-load-write fold le_text os m m' w h r =
    let w' = Reaches-IsWellFormed fold m m' w r in
    let h' = Reaches-IsDurable fold m m' h r in
    let k = IsReadable-of m'.disk.worlds h'.calm w' h' in
    load-remaining_store fold le_text os m'.store (write m').disk (unfold write in refl)
      (unfold write in k)
    ∙ (unfold write in remaining_store-same m'.store m'.disk.worlds k w'.homes)
