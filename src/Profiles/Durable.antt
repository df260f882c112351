-- ===== src/Profiles/Durable.antt =====
-- Profiles and directories of server/src/profiles.ts that can be written and read back.
use misgeret.Base.{
  ℕ, suc, ◌≡◌, refl, sym, subst, arith, true, false, Option, none, some, List, [], ◌∷◌, All,
  Bool-cases, inl, inr,
}
use misgeret.Base.Dict.{has_key, get, Distinct}
use misgeret.Text.{Text, eq_text, eq_text_iff, text_key}
use misgeret.Profiles.{Profile, Entry, file, directory, Disk, Machine, Os, done}
use misgeret.Profiles.Members.{has_id, find_id, change_id, remove_id, number_from}
use misgeret.Profiles.Changes.{remove_world, put_aside, move_entry}
use misgeret.Profiles.Storable.{IsStorable}
use misgeret.Profiles.Reloading.{is_adoptable, is_calm}

-- The profiles are read back as they are written, no directory waits for its adoption, and the names of
-- the entries below profiles/ are different.
pub record IsDurable (m : Machine) : Type 0 where
  pub storable : All IsStorable m.store.profiles
  pub calm : is_calm m.store.profiles m.disk.worlds ≡ true
  pub entries : Distinct m.disk.worlds

-- A property of profiles that does not depend on their orders.
module _ (P : Profile → Type 0) where
  pub All-change_id :
      (f : Profile → Profile)
      → ((p : Profile) → P p → P (f p))
      → (id : Text) (ps : List Profile) → All P ps
      → All P (change_id id f ps)
  unfolding change_id
  All-change_id f k id [] h = tt
  All-change_id f k id (p ∷ ps) h = elim (Bool-cases (eq_text p.id id)) [
    | inl e ↦ rw e (k p h.0, h.1)
    | inr e ↦ rw e (h.0, All-change_id f k id ps h.1)
  ]

  pub All-remove_id : (id : Text) (ps : List Profile) → All P ps → All P (remove_id id ps)
  unfolding remove_id
  All-remove_id id [] h = tt
  All-remove_id id (p ∷ ps) h = elim (Bool-cases (eq_text p.id id)) [
    | inl e ↦ rw e (All-remove_id id ps h.1)
    | inr e ↦ rw e (h.0, All-remove_id id ps h.1)
  ]

  pub All-find_id :
      (id : Text) (ps : List Profile) (p : Profile) → All P ps → find_id id ps ≡ some p → P p
  unfolding find_id
  All-find_id id [] p h e = cc
  All-find_id id (r ∷ ps) p h e = elim (Bool-cases (eq_text r.id id)) [
    | inl k ↦ let q : r ≡ p = ground arith in subst P q h.0
    | inr k ↦ All-find_id id ps p h.1 (ground arith)
  ]

pub IsStorable-number_from :
    (i : ℕ) (ps : List Profile) → All IsStorable ps → All IsStorable (number_from i ps)
unfolding number_from
IsStorable-number_from i [] h = tt
IsStorable-number_from i (p ∷ ps) h = (
  record { uuid = h.0.uuid; named = h.0.named; painted = h.0.painted },
  IsStorable-number_from (suc i) ps h.1,
)

pub is_calm-more :
    (ps qs : List Profile) (es : List (Text × Entry))
    → ((j : Text) → has_id j ps ≡ true → has_id j qs ≡ true)
    → is_calm ps es ≡ true
    → is_calm qs es ≡ true
unfolding is_calm is_adoptable
is_calm-more ps qs [] h c = refl
is_calm-more ps qs ((n, file) ∷ es) h c = ground (arith, is_calm-more ps qs es h)
is_calm-more ps qs ((n, directory w) ∷ es) h c = ground (arith, is_calm-more ps qs es h, h n)

-- Where no entry has the name, only the other ids count.
pub is_calm-other :
    (id : Text) (ps qs : List Profile) (es : List (Text × Entry))
    → ((j : Text) → eq_text id j ≡ false → has_id j ps ≡ true → has_id j qs ≡ true)
    → has_key id es ≡ false
    → is_calm ps es ≡ true
    → is_calm qs es ≡ true
unfolding is_calm is_adoptable has_key
is_calm-other id ps qs [] h k c = refl
is_calm-other id ps qs ((n, file) ∷ es) h k c = ground (arith, is_calm-other id ps qs es h)
is_calm-other id ps qs ((n, directory w) ∷ es) h k c =
    ground (arith, is_calm-other id ps qs es h, h n, eq_text_iff id n, eq_text_iff n id)

has_key-remove_world_self :
    (id : Text) (es : List (Text × Entry)) → Distinct es → has_key id (remove_world id es) ≡ false
unfolding has_key remove_world
has_key-remove_world_self id [] d = refl
has_key-remove_world_self id ((n, e) ∷ es) d =
    ground (arith, has_key-remove_world_self id es d.1, eq_text_iff n id, d)

is_calm-remove_world :
    (id : Text) (ps : List Profile) (es : List (Text × Entry))
    → is_calm ps es ≡ true
    → is_calm ps (remove_world id es) ≡ true
unfolding is_calm remove_world
is_calm-remove_world id ps [] c = refl
is_calm-remove_world id ps ((n, e) ∷ es) c = ground (arith, is_calm-remove_world id ps es)

has_key-remove_world_none :
    (id j : Text) (es : List (Text × Entry))
    → has_key j es ≡ false
    → has_key j (remove_world id es) ≡ false
unfolding has_key remove_world
has_key-remove_world_none id j [] h = refl
has_key-remove_world_none id j ((n, e) ∷ es) h = ground (arith, has_key-remove_world_none id j es)

Distinct-remove_world :
    (id : Text) (es : List (Text × Entry)) → Distinct es → Distinct (remove_world id es)
unfolding remove_world
Distinct-remove_world id [] d = tt
Distinct-remove_world id ((n, e) ∷ es) d = elim (Bool-cases (eq_text n id)) [
  | inl k ↦ rw k d.1
  | inr k ↦ rw k (has_key-remove_world_none id n es d.0, Distinct-remove_world id es d.1)
]

-- The entries below profiles/ after a directory was moved aside.
abbrev pub IsAside : Text → List (Text × Entry) → List (Text × Entry) → Type 0
IsAside id worlds rest =
    (has_key id rest ≡ false)
    × Distinct rest
    × ((ps : List Profile) → is_calm ps worlds ≡ true → is_calm ps rest ≡ true)

pub get-none : (id : Text) (es : List (Text × Entry)) → get id es ≡ none → has_key id es ≡ false
unfolding get has_key
get-none id [] h = refl
get-none id ((n, e) ∷ es) h = ground (arith, get-none id es)

pub put_aside_lem :
    (os : Os) (id : Text) (o : Option Entry) (d d' : Disk)
    → get id d.worlds ≡ o
    → Distinct d.worlds
    → move_entry os id o d ≡ done d'
    → IsAside id d.worlds d'.worlds × (d'.registry ≡ d.registry)
unfolding move_entry
put_aside_lem os id none d d' g u h =
    let e : d ≡ d' = cc in rw (sym e) (((get-none id d.worlds g, u, λ ps c. c)), refl)
put_aside_lem os id (some w) d d' g u h = elim (Bool-cases os.moved) [
  | inl k ↦
      let e : put_aside os id w d ≡ d' = ground arith in
      rw (sym e) (
        unfold put_aside in
        (
          ((
            has_key-remove_world_self id d.worlds u,
            Distinct-remove_world id d.worlds u,
            λ ps c. is_calm-remove_world id ps d.worlds c,
          )),
          refl,
        ))
  | inr k ↦ absurd (ground arith)
]
