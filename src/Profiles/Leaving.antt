-- ===== src/Profiles/Leaving.antt =====
-- `softDelete` of server/src/profiles.ts, and well-formedness.
use misgeret.Base.{
  ◌≡◌, refl, sym, ◌∙◌, arith, Bool, true, false, Option, none, some, List, [], ◌∷◌, if◌then◌else◌,
  Bool-cases, inl, inr,
}
use misgeret.Base.Dict.{has_key, get}
use misgeret.Text.{Text, eq_text, eq_text_iff, text_key}
use misgeret.Profiles.{Profile, profile_delete_failed, Entry, Disk, Machine, Os, done, failed}
use misgeret.Profiles.Checks.{is_profile_id}
use misgeret.Profiles.Members.{has_id, remove_id, number_from, first_id}
use misgeret.Profiles.Loading.{same_id}
use misgeret.Profiles.Changes.{
  remove_world, put_aside, move_entry, move_aside, active_without, store_without,
}
use misgeret.Profiles.Validity.{
  is_resolved, has_home, IsWellFormed, eq_text_refl, ids_all-of, ids_all-number_from,
  ids_all-remove_id, has_id-number_from, has_id-remove_id, DistinctIds-number_from,
  DistinctIds-remove_id, number_from-is_numbered,
}

has_key-remove_world :
    (id j : Text) (es : List (Text × Entry))
    → eq_text id j ≡ false
    → has_key j (remove_world id es) ≡ has_key j es
unfolding has_key remove_world
has_key-remove_world id j [] h = refl
has_key-remove_world id j ((n, e) ∷ es) h =
    ground
      (arith, has_key-remove_world id j es, eq_text_iff n id, eq_text_iff n j, eq_text_iff id j)

move_entry_lem :
    (os : Os) (id j : Text) (o : Option Entry) (d d' : Disk)
    → move_entry os id o d ≡ done d'
    → eq_text id j ≡ false
    → has_home d'.worlds j ≡ has_home d.worlds j
unfolding move_entry put_aside has_home
move_entry_lem os id j none d d' h n = cc
move_entry_lem os id j (some e) d d' h n = elim (Bool-cases os.moved) [
  | inl k ↦
      let r : done (put_aside os id e d) ≡ done d' = sym (if-true os.moved k) ∙ h in
      let q : put_aside os id e d ≡ d' = cc in rw (sym q) (has_key-remove_world id j d.worlds n)
  | inr k ↦ absurd (ground arith)
]
  where
    if-true :
        (b : Bool)
        → b ≡ true
        → (if b then done (put_aside os id e d) else failed profile_delete_failed)
          ≡ done (put_aside os id e d)
    if-true b k = rw k

-- The entries of the other profiles stay.
pub move_aside_lem :
    (os : Os) (id j : Text) (d d' : Disk)
    → move_aside os id d ≡ done d'
    → eq_text id j ≡ false
    → has_home d'.worlds j ≡ has_home d.worlds j
unfolding move_aside
move_aside_lem os id j d d' h n = move_entry_lem os id j (get id d.worlds) d d' h n

pub first_id-is_resolved : (ps : List Profile) → is_resolved (first_id ps) ps ≡ true
unfolding first_id is_resolved has_id
first_id-is_resolved [] = refl
first_id-is_resolved (p ∷ ps) = ground (arith, eq_text_refl p.id)

active_without-is_resolved :
    (id : Text) (active : Option Text) (ps : List Profile)
    → is_resolved active ps ≡ true
    → has_id id ps ≡ true
    → is_resolved
        (active_without id active (number_from 0 (remove_id id ps)))
        (number_from 0 (remove_id id ps))
      ≡ true
unfolding active_without
active_without-is_resolved id none [] h k = unfold has_id in cc
active_without-is_resolved id none (p ∷ ps) h k = unfold is_resolved in cc
active_without-is_resolved id (some a) ps h k = elim (Bool-cases (eq_text a id)) [
  | inl e ↦ unfold same_id in rw e (first_id-is_resolved (number_from 0 (remove_id id ps)))
  | inr e ↦
      unfold same_id is_resolved in
      rw e (
        ground (
          arith,
          has_id-number_from a 0 (remove_id id ps),
          has_id-remove_id a id ps,
          eq_text_iff a id,
          eq_text_iff id a,
        ))
]

pub store_without-IsWellFormed :
    (os : Os) (id : Text) (m : Machine) (d : Disk)
    → has_id id m.store.profiles ≡ true
    → move_aside os id m.disk ≡ done d
    → IsWellFormed m
    → IsWellFormed (record { store = store_without id m.store; disk = d })
unfolding store_without
store_without-IsWellFormed os id m d k e h =
    let rest : List Profile = remove_id id m.store.profiles in
    record {
      distinct =
          DistinctIds-number_from 0 rest (DistinctIds-remove_id id m.store.profiles h.distinct);
      uuids =
          ids_all-number_from is_profile_id 0 rest
          ∙ ids_all-remove_id is_profile_id id m.store.profiles h.uuids;
      numbered = number_from-is_numbered 0 rest;
      active = active_without-is_resolved id m.store.active_id m.store.profiles h.active k;
      homes =
          ids_all-number_from (has_home d.worlds) 0 rest
          ∙ ids_all-of (has_home m.disk.worlds) (has_home d.worlds) rest
              (λ j i q.
                move_aside_lem os id j m.disk d e
                  (ground (arith, has_id-remove_id j id m.store.profiles))
                ∙ q)
              (ids_all-remove_id (has_home m.disk.worlds) id m.store.profiles h.homes);
    }
