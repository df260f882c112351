-- ===== src/Profiles/Agreement.antt =====
-- A store of server/src/profiles.ts and the registry file that it wrote.
use misgeret.Base.{
  ℕ, suc, ◌≡◌, refl, sym, ap, ◌∙◌, arith, pos, Bool, true, false, Option, none, some, List, [], ◌∷◌,
  All, filter, filter_congr,
}
use misgeret.Base.Dict.{has_key}
use misgeret.Text.{Text, text_key}
use misgeret.Profiles.{Profile, Entry, Disk, Store, Os}
use misgeret.Profiles.Checks.{is_profile_id}
use misgeret.Profiles.Members.{has_id, number_from, first_id}
use misgeret.Profiles.Registry.{Reading, read_registry, content_of, write, persist}
use misgeret.Profiles.Loading.{
  Scan, scan, is_numbered, is_active, alive, repaired, in_order, loaded_store, settle, load,
}
use misgeret.Profiles.Validity.{ids_all, is_resolved, has_home, eq_text_refl}
use misgeret.Profiles.Storable.{IsStorable}
use misgeret.Profiles.Reloading.{
  is_calm, IsUndisturbed, scan-IsUndisturbed, read_registry-content_of, is_numbered-Ascending,
  filter-Ascending, sort_by-Ascending, eqb_ℤ-pos,
}

alive_congr :
    (v w : List (Text × Entry)) (ps qs : List Profile)
    → ((j : Text) → has_id j qs ≡ true → has_home v j ≡ has_home w j)
    → ((j : Text) → has_id j ps ≡ true → has_id j qs ≡ true)
    → alive v ps ≡ alive w ps
unfolding alive
alive_congr v w ps qs h k =
    filter_congr (λ p. has_key p.id v) (λ p. has_key p.id w) ps (at_each ps k)
  where
    at_each :
        (rs : List Profile)
        → ((j : Text) → has_id j rs ≡ true → has_id j qs ≡ true)
        → All (λ p. has_key p.id v ≡ has_key p.id w) rs
    at_each [] k = tt
    at_each (r ∷ rs) k = (
      unfold has_home in h r.id (k r.id (unfold has_id in ground (arith, eq_text_refl r.id))),
      at_each rs (λ j m. k j (unfold has_id in ground arith)),
    )

-- The store that `load` makes of the profiles in the file that still have an entry on disk.
unfoldable pub remaining_store : List (Text × Entry) → Store → Store
remaining_store worlds s =
    let rest = number_from 0 (alive worlds s.profiles) in
    record { profiles = rest; active_id = repaired s.active_id rest }

-- A store that can be written and read back over the directories on disk.
pub record IsReadable (s : Store) (worlds : List (Text × Entry)) : Type 0 where
  pub storable : All IsStorable s.profiles
  pub uuids : ids_all is_profile_id s.profiles ≡ true
  pub numbered : is_numbered 0 s.profiles ≡ true
  pub active : is_resolved s.active_id s.profiles ≡ true
  pub calm : is_calm s.profiles worlds ≡ true

module _ (fold : Text → Text) (le_text : Text → Text → Bool) (os : Os) where
  settle-store :
      (active : Option Text) (s : Scan) (d : Disk)
      → (settle fold le_text os active s d).0.store ≡ loaded_store fold le_text active s
  unfolding settle persist write
  settle-store active s d = ground arith

  loaded_store-remaining :
      (s : Store) (c : Scan) (worlds : List (Text × Entry))
      → IsReadable s worlds
      → IsUndisturbed s.profiles false worlds c
      → loaded_store fold le_text s.active_id c ≡ remaining_store worlds s
  unfolding loaded_store in_order remaining_store
  loaded_store-remaining s c worlds r u =
      let e : alive c.worlds c.profiles ≡ alive worlds s.profiles =
        ap (alive c.worlds) u.0
        ∙ alive_congr c.worlds worlds s.profiles s.profiles u.2 (λ j m. m) in
      rw e (
        rw (
          sort_by-Ascending le_text 0 (alive worlds s.profiles) (
            unfold alive in
            filter-Ascending (λ p. has_key p.id worlds) 0 s.profiles
              (is_numbered-Ascending 0 s.profiles r.numbered))))

  -- `load` of a file that the store wrote: the profiles that still have an entry, in their order.
  pub load-remaining_store :
      (s : Store) (d : Disk)
      → d.registry ≡ content_of s
      → IsReadable s d.worlds
      → (load fold le_text os d).0.store ≡ remaining_store d.worlds s
  unfolding load
  load-remaining_store s d e r =
      ap
        (λ (q : Reading).
          (settle fold le_text os q.active_id (scan fold os q.profiles q.changed d.worlds)
            d).0.store)
        (ap (read_registry os.now) e
          ∙ read_registry-content_of os.now s r.storable r.active r.uuids)
      ∙ settle-store s.active_id (scan fold os s.profiles false d.worlds) d
      ∙ loaded_store-remaining s (scan fold os s.profiles false d.worlds) d.worlds r
          (scan-IsUndisturbed fold os s.profiles false d.worlds r.calm)

alive-full :
    (worlds : List (Text × Entry)) (ps : List Profile)
    → ids_all (has_home worlds) ps ≡ true
    → alive worlds ps ≡ ps
unfolding alive filter ids_all has_home
alive-full worlds [] h = refl
alive-full worlds (p ∷ ps) h = ground (arith, alive-full worlds ps)

number_from-same : (i : ℕ) (ps : List Profile) → is_numbered i ps ≡ true → number_from i ps ≡ ps
unfolding number_from is_numbered
number_from-same i [] h = refl
number_from-same i (p ∷ ps) h =
    let e : p.order ≡ pos i = eqb_ℤ-pos p.order i (ground arith) in
    let f : record p { order = pos i } ≡ p = λ j. record p { order = sym e j } in
    ground (arith, number_from-same (suc i) ps, f)

repaired-same :
    (active : Option Text) (ps : List Profile)
    → is_resolved active ps ≡ true
    → repaired active ps ≡ active
unfolding repaired is_active
repaired-same none [] h = unfold first_id in refl
repaired-same none (p ∷ ps) h = unfold is_resolved in cc
repaired-same (some a) ps h = let e : has_id a ps ≡ true = unfold is_resolved in h in rw e

pub remaining_store-same :
    (s : Store) (worlds : List (Text × Entry))
    → IsReadable s worlds
    → ids_all (has_home worlds) s.profiles ≡ true
    → remaining_store worlds s ≡ s
unfolding remaining_store
remaining_store-same s worlds r h =
    let e : number_from 0 (alive worlds s.profiles) ≡ s.profiles =
      ap (number_from 0) (alive-full worlds s.profiles h)
      ∙ number_from-same 0 s.profiles r.numbered in
    rw e (rw (repaired-same s.active_id s.profiles r.active))
