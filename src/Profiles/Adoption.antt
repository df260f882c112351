-- ===== src/Profiles/Adoption.antt =====
-- `load` of server/src/profiles.ts: reading, adoption, the choice of the profiles that stay, their
-- order.
use misgeret.Base.{
  ◌≡◌, refl, ap, ◌∙◌, arith, Bool, true, false, ◌&&◌, ◌||◌, Option, none, some, List, [], ◌∷◌, ◌++◌,
  filter, Bool-cases, inl, inr,
}
use misgeret.Base.Dict.{has_key}
use misgeret.Base.Sort.{insert_by, sort_by}
use misgeret.Text.{Text, eq_text, eq_text_iff, text_key}
use misgeret.Profiles.{
  Profile, Entry, file, directory, Content, missing, unreadable, garbled, parsed, StoredRow, Value,
  undefined, null, structure, string, number, Disk, Machine, Os,
}
use misgeret.Profiles.Checks.{is_profile_id}
use misgeret.Profiles.Members.{has_id, number_from}
use misgeret.Profiles.Registry.{
  Reading, parse_named, parse_by, parse_stored_profile, add_row, read_rows, or_no_rows,
  read_registry,
}
use misgeret.Profiles.Loading.{
  Visit, keep, drop, adopt, Scan, keep_entry, after_visit, adopted, visit, scan, is_active,
  stands_before, alive, repaired, in_order, loaded_store, settle, load,
}
use misgeret.Profiles.Validity.{
  DistinctIds, ids_all, is_resolved, has_home, IsWellFormed, ids_all-append, ids_all-number_from,
  DistinctIds-append, DistinctIds-number_from, number_from-is_numbered,
}
use misgeret.Profiles.Keeping.{persist-IsWellFormed}
use misgeret.Profiles.Leaving.{first_id-is_resolved}

-- The test of the ids under a filter.
module _ (t : Profile → Bool) where
  ids_all-filter :
      (q : Text → Bool) (ps : List Profile) → ids_all q ps ≡ true → ids_all q (filter t ps) ≡ true
  unfolding ids_all filter
  ids_all-filter q [] h = refl
  ids_all-filter q (p ∷ ps) h = ground (arith, ids_all-filter q ps)

  has_id-filter :
      (j : Text) (ps : List Profile) → has_id j ps ≡ false → has_id j (filter t ps) ≡ false
  unfolding has_id filter
  has_id-filter j [] h = refl
  has_id-filter j (p ∷ ps) h = ground (arith, has_id-filter j ps)

  DistinctIds-filter : (ps : List Profile) → DistinctIds ps → DistinctIds (filter t ps)
  unfolding filter
  DistinctIds-filter [] d = tt
  DistinctIds-filter (p ∷ ps) d = elim (Bool-cases (t p)) [
    | inl e ↦ rw e (has_id-filter p.id ps d.0, DistinctIds-filter ps d.1)
    | inr e ↦ rw e (DistinctIds-filter ps d.1)
  ]

-- The test of the ids under sorting.
module _ (le : Profile → Profile → Bool) where
  ids_all-insert_by :
      (q : Text → Bool) (p : Profile) (ps : List Profile)
      → ids_all q (insert_by le p ps) ≡ (q p.id && ids_all q ps)
  unfolding ids_all insert_by
  ids_all-insert_by q p [] = refl
  ids_all-insert_by q p (r ∷ ps) = ground (arith, ids_all-insert_by q p ps)

  ids_all-sort_by : (q : Text → Bool) (ps : List Profile) → ids_all q (sort_by le ps) ≡ ids_all q ps
  unfolding ids_all sort_by
  ids_all-sort_by q [] = refl
  ids_all-sort_by q (p ∷ ps) =
      ids_all-insert_by q p (sort_by le ps) ∙ ap (λ b. q p.id && b) (ids_all-sort_by q ps)

  has_id-insert_by :
      (j : Text) (p : Profile) (ps : List Profile)
      → has_id j (insert_by le p ps) ≡ (eq_text p.id j || has_id j ps)
  unfolding has_id insert_by
  has_id-insert_by j p [] = refl
  has_id-insert_by j p (r ∷ ps) = ground (arith, has_id-insert_by j p ps)

  has_id-sort_by : (j : Text) (ps : List Profile) → has_id j (sort_by le ps) ≡ has_id j ps
  unfolding has_id sort_by
  has_id-sort_by j [] = refl
  has_id-sort_by j (p ∷ ps) =
      has_id-insert_by j p (sort_by le ps) ∙ ap (λ b. eq_text p.id j || b) (has_id-sort_by j ps)

  DistinctIds-insert_by :
      (p : Profile) (ps : List Profile)
      → has_id p.id ps ≡ false
      → DistinctIds ps
      → DistinctIds (insert_by le p ps)
  unfolding insert_by has_id
  DistinctIds-insert_by p [] h d = (refl, tt)
  DistinctIds-insert_by p (r ∷ ps) h d = elim (Bool-cases (le p r)) [
    | inl e ↦ rw e (h, d)
    | inr e ↦ rw e (
      ground (arith, has_id-insert_by r.id p ps, eq_text_iff r.id p.id, eq_text_iff p.id r.id),
      DistinctIds-insert_by p ps (ground arith) d.1,
    )
  ]

  DistinctIds-sort_by : (ps : List Profile) → DistinctIds ps → DistinctIds (sort_by le ps)
  unfolding sort_by
  DistinctIds-sort_by [] d = tt
  DistinctIds-sort_by (p ∷ ps) d =
      DistinctIds-insert_by p (sort_by le ps) (has_id-sort_by p.id ps ∙ d.0)
        (DistinctIds-sort_by ps d.1)

-- Only profiles with an entry on disk stay.
alive-has_home :
    (worlds : List (Text × Entry)) (ps : List Profile)
    → ids_all (has_home worlds) (alive worlds ps) ≡ true
unfolding alive filter ids_all has_home
alive-has_home worlds [] = refl
alive-has_home worlds (p ∷ ps) = ground (arith, alive-has_home worlds ps)

ids_all-alive :
    (worlds : List (Text × Entry)) (ps : List Profile)
    → ids_all is_profile_id ps ≡ true
    → ids_all is_profile_id (alive worlds ps) ≡ true
unfolding alive
ids_all-alive worlds ps h = ids_all-filter (λ p. has_key p.id worlds) is_profile_id ps h

DistinctIds-alive :
    (worlds : List (Text × Entry)) (ps : List Profile)
    → DistinctIds ps
    → DistinctIds (alive worlds ps)
unfolding alive
DistinctIds-alive worlds ps d = DistinctIds-filter (λ p. has_key p.id worlds) ps d

parse-is_profile_id :
    (now : Text) (row : Option StoredRow) (p : Profile)
    → parse_stored_profile now row ≡ some p
    → is_profile_id p.id ≡ true
unfolding parse_stored_profile
parse-is_profile_id now none p h = cc
parse-is_profile_id now (some row) p h = by_id row.id row.name h
  where
    named : (id name : Text) → parse_named now row id name ≡ some p → is_profile_id p.id ≡ true
    named id name h = unfold parse_named in ground arith

    by_id : (v w : Value) → parse_by now row v w ≡ some p → is_profile_id p.id ≡ true
    by_id (string id) (string name) h = named id name (unfold parse_by in h)
    by_id (string id) undefined h = unfold parse_by in cc
    by_id (string id) null h = unfold parse_by in cc
    by_id (string id) structure h = unfold parse_by in cc
    by_id (string id) (number n) h = unfold parse_by in cc
    by_id undefined w h = unfold parse_by in cc
    by_id null w h = unfold parse_by in cc
    by_id structure w h = unfold parse_by in cc
    by_id (number n) w h = unfold parse_by in cc

read_rows-is_profile_id :
    (now : Text) (rows : List (Option StoredRow))
    → ids_all is_profile_id (read_rows now rows).0 ≡ true
unfolding read_rows
read_rows-is_profile_id now [] = unfold ids_all in refl
read_rows-is_profile_id now (row ∷ rows) =
    read (parse_stored_profile now row) refl (read_rows-is_profile_id now rows)
  where
    read :
        (o : Option Profile)
        → parse_stored_profile now row ≡ o
        → ids_all is_profile_id (read_rows now rows).0 ≡ true
        → ids_all is_profile_id (add_row o (read_rows now rows)).0 ≡ true
    read none e h = unfold add_row in h
    read (some p) e h = unfold add_row ids_all in ground (arith, parse-is_profile_id now row p e)

read_registry-is_profile_id :
    (now : Text) (c : Content) → ids_all is_profile_id (read_registry now c).profiles ≡ true
unfolding read_registry
read_registry-is_profile_id now missing = unfold ids_all in refl
read_registry-is_profile_id now unreadable = unfold ids_all in refl
read_registry-is_profile_id now garbled = unfold ids_all in refl
read_registry-is_profile_id now (parsed rows active) = read_rows-is_profile_id now (or_no_rows rows)

module _ (fold : Text → Text) (os : Os) where
  visit-adopt :
      (ps : List Profile) (name : Text) (e : Entry) (p : Profile)
      → visit fold os ps name e ≡ adopt p
      → (p.id ≡ name) × (has_id name ps ≡ false) × (is_profile_id name ≡ true)
  unfolding visit adopted
  visit-adopt ps name file p h = cc
  visit-adopt ps name (directory w) p h = ground arith

  IsScanned : List Profile → Type 0
  IsScanned ps = DistinctIds ps × (ids_all is_profile_id ps ≡ true)

  scan-IsScanned :
      (ps : List Profile) (changed : Bool) (es : List (Text × Entry))
      → IsScanned ps
      → IsScanned (scan fold os ps changed es).profiles
  unfolding scan
  scan-IsScanned ps changed [] h = h
  scan-IsScanned ps changed ((name, e) ∷ es) h =
      visited (visit fold os ps name e) refl (λ qs b. scan-IsScanned qs b es)
    where
      visited :
          (v : Visit)
          → visit fold os ps name e ≡ v
          → ((qs : List Profile) (b : Bool)
              → IsScanned qs
              → IsScanned (scan fold os qs b es).profiles)
          → IsScanned (after_visit name e v (λ qs b. scan fold os qs b es) ps changed).profiles
      visited (keep e') r ih = unfold after_visit in ih ps changed h
      visited drop r ih = unfold after_visit in ih ps changed h
      visited (adopt p) r ih =
          unfold keep_entry in
          ih (ps ++ p ∷ []) true (
            let a = visit-adopt ps name e p r in
            unfold IsScanned in
            (
              DistinctIds-append ps p (unfold IsScanned in h.0) (rw (a.0) (a.1)),
              ids_all-append is_profile_id ps p ∙ ground (arith, a, h),
            ))

repaired-is_resolved :
    (active : Option Text) (ps : List Profile) → is_resolved (repaired active ps) ps ≡ true
unfolding repaired is_active
repaired-is_resolved none ps = first_id-is_resolved ps
repaired-is_resolved (some a) ps = elim (Bool-cases (has_id a ps)) [
  | inl e ↦ rw e (unfold is_resolved in e)
  | inr e ↦ rw e (first_id-is_resolved ps)
]

module _ (fold : Text → Text) (le_text : Text → Text → Bool) (os : Os) where
  loaded_store-IsWellFormed :
      (active : Option Text) (s : Scan) (disk : Disk)
      → IsScanned fold os s.profiles
      → IsWellFormed (record {
        store = loaded_store fold le_text active s;
        disk = record disk { worlds = s.worlds };
      })
  unfolding loaded_store in_order IsScanned
  loaded_store-IsWellFormed active s disk h =
      let here : List Profile = alive s.worlds s.profiles in
      let le : Profile → Profile → Bool = stands_before le_text in
      record {
        distinct =
            DistinctIds-number_from 0 (sort_by le here)
              (DistinctIds-sort_by le here (DistinctIds-alive s.worlds s.profiles h.0));
        uuids =
            ids_all-number_from is_profile_id 0 (sort_by le here)
            ∙ ids_all-sort_by le is_profile_id here
            ∙ ids_all-alive s.worlds s.profiles h.1;
        numbered = number_from-is_numbered 0 (sort_by le here);
        active = repaired-is_resolved active (number_from 0 (sort_by le here));
        homes =
            ids_all-number_from (has_home s.worlds) 0 (sort_by le here)
            ∙ ids_all-sort_by le (has_home s.worlds) here
            ∙ alive-has_home s.worlds s.profiles;
      }

  -- Where no id stands twice in the registry file, `load` leaves a well-formed store, whatever else is
  -- in the file and on disk.
  pub load-IsWellFormed :
      (disk : Disk)
      → DistinctIds (read_registry os.now disk.registry).profiles
      → IsWellFormed (load fold le_text os disk).0
  unfolding load settle
  load-IsWellFormed disk d =
      let stored : Reading = read_registry os.now disk.registry in
      let s : Scan = scan fold os stored.profiles stored.changed disk.worlds in
      let m : Machine = record {
        store = loaded_store fold le_text stored.active_id s;
        disk = record disk { worlds = s.worlds };
      } in
      let h : IsWellFormed m = loaded_store-IsWellFormed stored.active_id s disk (
        scan-IsScanned fold os stored.profiles stored.changed disk.worlds
          (unfold IsScanned in (d, read_registry-is_profile_id os.now disk.registry))) in
      ground (arith, h, persist-IsWellFormed os m m tt h h)
