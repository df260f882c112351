-- ===== src/Profiles/Keeping.antt =====
-- The operations of server/src/profiles.ts one by one, and well-formedness.
use misgeret.Base.{
  ◌≡◌, refl, sym, ap, ◌∙◌, arith, pos, true, false, ◌||◌, Option, none, some, List, [], ◌∷◌, ◌++◌,
  length,
}
use misgeret.Base.Dict.{has_key, get}
use misgeret.Text.{Text, eq_text, eq_text_iff, text_key}
use misgeret.Profiles.{
  Profile, Entry, file, directory, Machine, Os, Outcome, done, failed, threw, ◌>>=◌, string,
}
use misgeret.Profiles.Checks.{is_profile_id}
use misgeret.Profiles.Members.{
  has_id, find_id, get as get_profile, or_not_found, require, change_id,
}
use misgeret.Profiles.Registry.{write, persist}
use misgeret.Profiles.Requests.{
  commit, with_store, make_dir, make_by, active_or, made, repair_active,
}
use misgeret.Profiles.Validity.{
  is_resolved, has_home, IsWellFormed, eq_text_refl, ids_all-of, ids_all-append, has_id-append,
  DistinctIds-append, is_numbered-append, has_id-change_id, DistinctIds-change_id,
  ids_all-change_id, is_numbered-change_id,
}

-- What an operation that goes through comes to satisfies `P`.
abbrev pub Ensures {ℓ κ} : {A : Type ℓ} → (A → Type κ) → Outcome A → Type κ
Ensures P (done a) = P a
Ensures P (failed e) = Unit
Ensures P threw = Unit

pub >>=-Ensures {ℓ κ μ} :
    {A : Type ℓ} {B : Type κ} (P : B → Type μ) (o : Outcome A) (f : A → Outcome B)
    → ((a : A) → o ≡ done a → Ensures P (f a))
    → Ensures P (o >>= f)
>>=-Ensures P (done a) f h = h a refl
>>=-Ensures P (failed e) f h = tt
>>=-Ensures P threw f h = tt

abbrev pub Keeps {ℓ} : {A : Type ℓ} → Outcome (Machine × A) → Type 0
Keeps {A} o = Ensures (λ (r : Machine × A). IsWellFormed r.0) o

pub write-IsWellFormed : {m : Machine} → IsWellFormed m → IsWellFormed (write m)
unfolding write
write-IsWellFormed h = record {
  distinct = h.distinct;
  uuids = h.uuids;
  numbered = h.numbered;
  active = h.active;
  homes = h.homes;
}

pub persist-IsWellFormed :
    {A : Type 0} (os : Os) (m m' : Machine) (a : A)
    → IsWellFormed m
    → IsWellFormed m'
    → IsWellFormed (persist os m m' a).0
unfolding persist
persist-IsWellFormed os m m' a h k = ground (arith, write-IsWellFormed k)

pub commit-IsWellFormed :
    {A : Type 0} (os : Os) (m : Machine) (o : Outcome (Machine × A))
    → IsWellFormed m
    → Keeps o
    → IsWellFormed (commit os m o).0
unfolding commit
commit-IsWellFormed os m (done (m', a)) h k = persist-IsWellFormed os m' m' a k k
commit-IsWellFormed os m (failed e) h k = h
commit-IsWellFormed os m threw h k = h

find_id_lem :
    (id : Text) (ps : List Profile) (p : Profile)
    → find_id id ps ≡ some p
    → (p.id ≡ id) × (has_id id ps ≡ true)
unfolding find_id has_id
find_id_lem id [] p h = cc
find_id_lem id (r ∷ ps) p h = ground (arith, find_id_lem id ps p, eq_text_iff r.id id)

pub require_lem :
    (id : Text) (ps : List Profile) (p : Profile)
    → require (string id) ps ≡ done p
    → (p.id ≡ id) × (has_id id ps ≡ true) × (is_profile_id id ≡ true)
unfolding require or_not_found get_profile
require_lem id ps p h = ground (arith, find_id_lem id ps p)

-- Rows that change without their id and order.
pub with_store-IsWellFormed :
    (m : Machine) (f : Profile → Profile)
    → ((p : Profile) → ((f p).id ≡ p.id) × ((f p).order ≡ p.order))
    → (id : Text) (active : Option Text) → is_resolved active m.store.profiles ≡ true
    → IsWellFormed m
    → IsWellFormed (with_store m (change_id id f m.store.profiles) active)
unfolding with_store
with_store-IsWellFormed m f keeps id active r h = record {
  distinct = DistinctIds-change_id f keeps id m.store.profiles h.distinct;
  uuids = ids_all-change_id f keeps is_profile_id id m.store.profiles ∙ h.uuids;
  numbered = is_numbered-change_id f keeps 0 id m.store.profiles ∙ h.numbered;
  active = is_resolved-change_id active m.store.profiles r;
  homes = ids_all-change_id f keeps (has_home m.disk.worlds) id m.store.profiles ∙ h.homes;
}
  where
    is_resolved-change_id :
        (a : Option Text) (ps : List Profile)
        → is_resolved a ps ≡ true
        → is_resolved a (change_id id f ps) ≡ true
    is_resolved-change_id none [] e = unfold change_id in e
    is_resolved-change_id none (p ∷ ps) e = unfold is_resolved in cc
    is_resolved-change_id (some a) ps e =
        unfold is_resolved in (has_id-change_id f keeps a id ps ∙ (unfold is_resolved in e))

pub repair_active-IsWellFormed :
    (os : Os) (m : Machine) (ps : List Profile)
    → m.store.profiles ≡ ps
    → IsWellFormed m
    → IsWellFormed (repair_active os m ps).0
unfolding repair_active
repair_active-IsWellFormed os m [] e h = h
repair_active-IsWellFormed os m (p ∷ ps) e h =
    commit-IsWellFormed os m (done (with_store m (p ∷ ps) (some p.id), p.id)) h (
      unfold with_store is_resolved has_id in
      (record {
        distinct = rw e at h.distinct;
        uuids = rw e at h.uuids;
        numbered = rw e at h.numbered;
        active = ground (arith, eq_text_refl p.id);
        homes = rw e at h.homes;
      }))

has_key-get-some :
    (name : Text) (es : List (Text × Entry)) (e : Entry)
    → get name es ≡ some e
    → has_key name es ≡ true
unfolding get has_key
has_key-get-some name [] e h = cc
has_key-get-some name ((n, d) ∷ es) e h = ground (arith, has_key-get-some name es e)

make_by_lem :
    (o : Option Entry) (name j : Text) (es worlds : List (Text × Entry))
    → get name es ≡ o
    → make_by o name es ≡ done worlds
    → has_home worlds j ≡ (eq_text name j || has_home es j)
unfolding make_by has_home has_key
make_by_lem none name j es worlds e h =
    let k : (name, directory (record { marker = false; database = false; others = false })) ∷ es
        ≡ worlds =
      cc in
    rw (sym k)
make_by_lem (some file) name j es worlds e h = cc
make_by_lem (some (directory w)) name j es worlds e h =
    let k : es ≡ worlds = cc in
    rw (sym k) (ground (arith, eq_text_iff name j, has_key-get-some name es (directory w) e))

-- After mkdir the directory is there, and nothing else has changed.
pub make_dir_lem :
    (name j : Text) (es worlds : List (Text × Entry))
    → make_dir name es ≡ done worlds
    → has_home worlds j ≡ (eq_text name j || has_home es j)
unfolding make_dir
make_dir_lem name j es worlds h = make_by_lem (get name es) name j es worlds refl h

active_or-is_resolved :
    (active : Option Text) (ps : List Profile) (p : Profile)
    → is_resolved active ps ≡ true
    → is_resolved (active_or active p.id) (ps ++ p ∷ []) ≡ true
unfolding is_resolved active_or
active_or-is_resolved none ps p h = ground (arith, has_id-append p.id ps p, eq_text_refl p.id)
active_or-is_resolved (some a) ps p h = ground (arith, has_id-append a ps p)

pub made-IsWellFormed :
    (os : Os) (m : Machine) (p : Profile) (worlds : List (Text × Entry))
    → is_profile_id p.id ≡ true
    → has_id p.id m.store.profiles ≡ false
    → p.order ≡ pos (length m.store.profiles)
    → make_dir p.id m.disk.worlds ≡ done worlds
    → IsWellFormed m
    → IsWellFormed (made os m p worlds)
unfolding made
made-IsWellFormed os m p worlds u f o d h = record {
  distinct = DistinctIds-append m.store.profiles p h.distinct f;
  uuids = ground (arith, ids_all-append is_profile_id m.store.profiles p, h.uuids);
  numbered = is_numbered-append 0 m.store.profiles p h.numbered (o ∙ ap pos (omega arith));
  active = active_or-is_resolved m.store.active_id m.store.profiles p h.active;
  homes = ground (
    arith,
    ids_all-append (has_home worlds) m.store.profiles p,
    ids_all-of (has_home m.disk.worlds) (has_home worlds) m.store.profiles
        (λ j k e. ground (arith, make_dir_lem p.id j m.disk.worlds worlds d)) h.homes,
    make_dir_lem p.id p.id m.disk.worlds worlds d,
    eq_text_refl p.id,
  );
}
