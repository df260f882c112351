-- ===== src/Profiles/Validity.antt =====
-- Well-formedness of a store of server/src/profiles.ts, and lemmas on its lists of profiles.
use misgeret.Base.{
  ℕ, suc, ◌+◌, ◌≡◌, refl, ◌∙◌, arith, pos, Bool, true, false, not, ◌&&◌, ◌||◌, Option, none, some,
  List, [], ◌∷◌, ◌++◌, length, Bool-cases, inl, inr,
}
use misgeret.Base.Dict.{has_key}
use misgeret.Text.{Text, eq_text, eq_text_iff, text_key}
use misgeret.Profiles.{Profile, Entry, Machine}
use misgeret.Profiles.Checks.{is_profile_id}
use misgeret.Profiles.Members.{has_id, change_id, remove_id, number_from}
use misgeret.Profiles.Loading.{is_numbered}

abbrev pub DistinctIds : List Profile → Type 0
DistinctIds [] = Unit
DistinctIds (p ∷ ps) = (has_id p.id ps ≡ false) × DistinctIds ps

-- A test that every id passes.
unfoldable pub ids_all : (Text → Bool) → List Profile → Bool
ids_all q [] = true
ids_all q (p ∷ ps) = q p.id && ids_all q ps

-- The active id names a profile, or there is none of both.
unfoldable pub is_resolved : Option Text → List Profile → Bool
is_resolved none [] = true
is_resolved none (p ∷ ps) = false
is_resolved (some id) ps = has_id id ps

unfoldable pub has_home : List (Text × Entry) → Text → Bool
has_home worlds id = has_key id worlds

-- No id stands twice and each is a UUID, the orders are the positions, the active id names a profile
-- as soon as there is one, and each profile has its entry below profiles/.
pub record IsWellFormed (m : Machine) : Type 0 where
  pub distinct : DistinctIds m.store.profiles
  pub uuids : ids_all is_profile_id m.store.profiles ≡ true
  pub numbered : is_numbered 0 m.store.profiles ≡ true
  pub active : is_resolved m.store.active_id m.store.profiles ≡ true
  pub homes : ids_all (has_home m.disk.worlds) m.store.profiles ≡ true

pub eq_text_refl : (t : Text) → eq_text t t ≡ true
eq_text_refl t = (eq_text_iff t t).1 refl

pub ids_all-at :
    (q : Text → Bool) (j : Text) (ps : List Profile)
    → ids_all q ps ≡ true
    → has_id j ps ≡ true
    → q j ≡ true
unfolding ids_all has_id
ids_all-at q j [] h k = cc
ids_all-at q j (p ∷ ps) h k = ground (arith, ids_all-at q j ps, eq_text_iff p.id j)

pub ids_all-of :
    (q r : Text → Bool) (ps : List Profile)
    → ((j : Text) → has_id j ps ≡ true → q j ≡ true → r j ≡ true)
    → ids_all q ps ≡ true
    → ids_all r ps ≡ true
unfolding ids_all has_id
ids_all-of q r [] f h = refl
ids_all-of q r (p ∷ ps) f h =
    ground (arith, f p.id, eq_text_refl p.id, ids_all-of q r ps (λ j m k. f j (ground arith) k))

pub ids_all-append :
    (q : Text → Bool) (ps : List Profile) (p : Profile)
    → ids_all q (ps ++ p ∷ []) ≡ (ids_all q ps && q p.id)
unfolding ids_all
ids_all-append q [] p = ground arith
ids_all-append q (r ∷ ps) p = ground (arith, ids_all-append q ps p)

pub ids_all-number_from :
    (q : Text → Bool) (i : ℕ) (ps : List Profile) → ids_all q (number_from i ps) ≡ ids_all q ps
unfolding ids_all number_from
ids_all-number_from q i [] = refl
ids_all-number_from q i (p ∷ ps) = ground (arith, ids_all-number_from q (suc i) ps)

pub ids_all-remove_id :
    (q : Text → Bool) (id : Text) (ps : List Profile)
    → ids_all q ps ≡ true
    → ids_all q (remove_id id ps) ≡ true
unfolding ids_all remove_id
ids_all-remove_id q id [] h = refl
ids_all-remove_id q id (p ∷ ps) h = ground (arith, ids_all-remove_id q id ps)

pub has_id-append :
    (j : Text) (ps : List Profile) (p : Profile)
    → has_id j (ps ++ p ∷ []) ≡ (has_id j ps || eq_text p.id j)
unfolding has_id
has_id-append j [] p = ground arith
has_id-append j (r ∷ ps) p = ground (arith, has_id-append j ps p)

pub has_id-number_from :
    (j : Text) (i : ℕ) (ps : List Profile) → has_id j (number_from i ps) ≡ has_id j ps
unfolding has_id number_from
has_id-number_from j i [] = refl
has_id-number_from j i (p ∷ ps) = ground (arith, has_id-number_from j (suc i) ps)

pub has_id-remove_id :
    (j id : Text) (ps : List Profile)
    → has_id j (remove_id id ps) ≡ (not (eq_text id j) && has_id j ps)
unfolding has_id remove_id
has_id-remove_id j id [] = ground arith
has_id-remove_id j id (p ∷ ps) =
    ground
      (arith, has_id-remove_id j id ps, eq_text_iff p.id id, eq_text_iff p.id j, eq_text_iff id j)

pub DistinctIds-append :
    (ps : List Profile) (p : Profile)
    → DistinctIds ps
    → has_id p.id ps ≡ false
    → DistinctIds (ps ++ p ∷ [])
unfolding has_id
DistinctIds-append [] p d h = (refl, tt)
DistinctIds-append (r ∷ ps) p d h = (
  ground (arith, has_id-append r.id ps p, eq_text_iff p.id r.id, eq_text_iff r.id p.id),
  DistinctIds-append ps p d.1 (ground arith),
)

pub DistinctIds-number_from :
    (i : ℕ) (ps : List Profile) → DistinctIds ps → DistinctIds (number_from i ps)
unfolding number_from
DistinctIds-number_from i [] d = tt
DistinctIds-number_from i (p ∷ ps) d =
    (has_id-number_from p.id (suc i) ps ∙ d.0, DistinctIds-number_from (suc i) ps d.1)

pub DistinctIds-remove_id :
    (id : Text) (ps : List Profile) → DistinctIds ps → DistinctIds (remove_id id ps)
unfolding remove_id
DistinctIds-remove_id id [] d = tt
DistinctIds-remove_id id (p ∷ ps) d = elim (Bool-cases (eq_text p.id id)) [
  | inl e ↦ rw e (DistinctIds-remove_id id ps d.1)
  | inr e ↦ rw e (ground (arith, has_id-remove_id p.id id ps), DistinctIds-remove_id id ps d.1)
]

pub number_from-is_numbered : (i : ℕ) (ps : List Profile) → is_numbered i (number_from i ps) ≡ true
unfolding number_from is_numbered
number_from-is_numbered i [] = refl
number_from-is_numbered i (p ∷ ps) = ground (arith, number_from-is_numbered (suc i) ps)

pub is_numbered-append :
    (i : ℕ) (ps : List Profile) (p : Profile)
    → is_numbered i ps ≡ true
    → p.order ≡ pos (i + length ps)
    → is_numbered i (ps ++ p ∷ []) ≡ true
unfolding is_numbered
is_numbered-append i [] p h e = rw e (ground arith)
is_numbered-append i (r ∷ ps) p h e = ground (
  arith,
  is_numbered-append (suc i) ps p,
  ap_pos (i + suc (length ps)) (suc i + length ps) (omega arith),
)
  where
    ap_pos : (a b : ℕ) → a ≡ b → pos a ≡ pos b
    ap_pos a b h = cc

-- A change of a row that keeps its id and its order.
module _ (f : Profile → Profile)
    (keeps : (p : Profile) → ((f p).id ≡ p.id) × ((f p).order ≡ p.order)) where
  pub has_id-change_id :
      (j id : Text) (ps : List Profile) → has_id j (change_id id f ps) ≡ has_id j ps
  unfolding has_id change_id
  has_id-change_id j id [] = refl
  has_id-change_id j id (p ∷ ps) = elim (Bool-cases (eq_text p.id id)) [
    | inl e ↦ rw (e, (keeps p).0)
    | inr e ↦ rw (e, has_id-change_id j id ps)
  ]

  pub DistinctIds-change_id :
      (id : Text) (ps : List Profile) → DistinctIds ps → DistinctIds (change_id id f ps)
  unfolding change_id
  DistinctIds-change_id id [] d = tt
  DistinctIds-change_id id (p ∷ ps) d = elim (Bool-cases (eq_text p.id id)) [
    | inl e ↦ rw (e, (keeps p).0) d
    | inr e ↦ rw e (has_id-change_id p.id id ps ∙ d.0, DistinctIds-change_id id ps d.1)
  ]

  pub ids_all-change_id :
      (q : Text → Bool) (id : Text) (ps : List Profile)
      → ids_all q (change_id id f ps) ≡ ids_all q ps
  unfolding ids_all change_id
  ids_all-change_id q id [] = refl
  ids_all-change_id q id (p ∷ ps) = elim (Bool-cases (eq_text p.id id)) [
    | inl e ↦ rw (e, (keeps p).0)
    | inr e ↦ rw (e, ids_all-change_id q id ps)
  ]

  pub is_numbered-change_id :
      (i : ℕ) (id : Text) (ps : List Profile) → is_numbered i (change_id id f ps) ≡ is_numbered i ps
  unfolding is_numbered change_id
  is_numbered-change_id i id [] = refl
  is_numbered-change_id i id (p ∷ ps) = elim (Bool-cases (eq_text p.id id)) [
    | inl e ↦ rw (e, (keeps p).1)
    | inr e ↦ rw (e, is_numbered-change_id (suc i) id ps)
  ]
