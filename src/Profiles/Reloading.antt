-- ===== src/Profiles/Reloading.antt =====
-- `load` of server/src/profiles.ts on a registry file that the store wrote itself.
use misgeret.Base.{
  ℕ, suc, ◌≤◌, ◌≡◌, refl, ap, arith, ℤ, pos, negsuc, Bool, true, false, not, ◌&&◌, ◌||◌, Option,
  none, some, List, [], ◌∷◌, map, All, filter, ltb_ℤ, eqb_ℤ, Bool-cases, inl, inr,
}
use misgeret.Base.Dict.{has_key}
use misgeret.Base.Sort.{insert_by, sort_by}
use misgeret.Text.{Text, eq_text, eq_text_iff, text_key}
use misgeret.Profiles.{Profile, Entry, file, directory, Store, Os}
use misgeret.Profiles.Checks.{is_profile_id}
use misgeret.Profiles.Members.{has_id}
use misgeret.Profiles.Registry.{
  add_row, read_rows, or_no_rows, stored_active, read_registry, text_or_null, row_of, content_of,
}
use misgeret.Profiles.Loading.{
  Visit, keep, drop, adopt, Scan, keep_entry, after_visit, visit, scan, is_numbered, stands_before,
}
use misgeret.Profiles.Validity.{ids_all, is_resolved, has_home, ids_all-at}
use misgeret.Profiles.Storable.{IsStorable, parse-row_of}

-- A directory that `load` would adopt: a UUID with a database, without the marker, not in the registry.
unfoldable pub is_adoptable : List Profile → Text → Entry → Bool
is_adoptable ps name file = false
is_adoptable ps name (directory w) =
    is_profile_id name && not w.marker && not (has_id name ps) && w.database

unfoldable pub is_calm : List Profile → List (Text × Entry) → Bool
unfolding is_adoptable
is_calm ps [] = true
is_calm ps ((name, e) ∷ es) = not (is_adoptable ps name e) && is_calm ps es

read_rows-row_of :
    (now : Text) (ps : List Profile)
    → All IsStorable ps
    → read_rows now (map row_of ps) ≡ (ps, false)
unfolding read_rows
read_rows-row_of now [] h = refl
read_rows-row_of now (p ∷ ps) h =
    rw (parse-row_of now p h.0) (rw (read_rows-row_of now ps h.1) (unfold add_row in refl))

stored_active-text_or_null :
    (active : Option Text) (ps : List Profile)
    → is_resolved active ps ≡ true
    → ids_all is_profile_id ps ≡ true
    → stored_active (text_or_null active) ≡ active
unfolding stored_active text_or_null
stored_active-text_or_null none ps r u = refl
stored_active-text_or_null (some a) ps r u =
    rw (ids_all-at is_profile_id a ps u (unfold is_resolved in r))

pub read_registry-content_of :
    (now : Text) (s : Store)
    → All IsStorable s.profiles
    → is_resolved s.active_id s.profiles ≡ true
    → ids_all is_profile_id s.profiles ≡ true
    → read_registry now (content_of s)
      ≡ record { profiles = s.profiles; active_id = s.active_id; changed = false }
unfolding read_registry content_of or_no_rows
read_registry-content_of now s h r u =
    rw (read_rows-row_of now s.profiles h)
      (rw (stored_active-text_or_null s.active_id s.profiles r u))

-- The scan of calm directories adopts nothing, and every profile keeps its entry.
abbrev pub IsUndisturbed : List Profile → Bool → List (Text × Entry) → Scan → Type 0
IsUndisturbed ps changed es s =
    (s.profiles ≡ ps)
    × (s.changed ≡ changed)
    × ((j : Text) → has_id j ps ≡ true → has_home s.worlds j ≡ has_home es j)

visit-IsCalm :
    (fold : Text → Text) (os : Os) (ps : List Profile) (name : Text) (e : Entry) (p : Profile)
    → is_adoptable ps name e ≡ false
    → visit fold os ps name e ≡ adopt p
    → ⊥
unfolding visit is_adoptable
visit-IsCalm fold os ps name file p h e = cc
visit-IsCalm fold os ps name (directory w) p h e = ground arith

visit-drop :
    (fold : Text → Text) (os : Os) (ps : List Profile) (name : Text) (e : Entry)
    → visit fold os ps name e ≡ drop
    → has_id name ps ≡ false
unfolding visit
visit-drop fold os ps name file e = cc
visit-drop fold os ps name (directory w) e = ground arith

module _ (fold : Text → Text) (os : Os) (ps : List Profile) where
  pub scan-IsUndisturbed :
      (changed : Bool) (es : List (Text × Entry))
      → is_calm ps es ≡ true
      → IsUndisturbed ps changed es (scan fold os ps changed es)
  unfolding scan
  scan-IsUndisturbed changed [] h = (refl, refl, λ j k. refl)
  scan-IsUndisturbed changed ((name, e) ∷ es) h =
      visited (visit fold os ps name e) refl
        (scan-IsUndisturbed changed es (unfold is_calm in ground arith))
    where
      visited :
          (v : Visit)
          → visit fold os ps name e ≡ v
          → IsUndisturbed ps changed es (scan fold os ps changed es)
          → IsUndisturbed ps changed
              ((name, e) ∷ es)
              (after_visit name e v (λ qs b. scan fold os qs b es) ps changed)
      visited (keep e') r ih =
          unfold after_visit keep_entry has_home has_key in
          (ih.0, ih.1, λ j k. ap (λ b. eq_text name j || b) (ih.2 j k))
      visited drop r ih =
          unfold after_visit has_home has_key in
          (
            ih.0,
            ih.1,
            λ j k. ground (arith, ih.2 j k, visit-drop fold os ps name e r, eq_text_iff name j),
          )
      visited (adopt p) r ih =
          absurd (visit-IsCalm fold os ps name e p (unfold is_calm in ground arith) r)

-- Orders that rise from `i` on.
unfoldable pub Ascending : ℕ → List Profile → Type 0
Ascending i [] = Unit
Ascending i (p ∷ ps) = (k : ℕ) × (i ≤ k) × (p.order ≡ pos k) × Ascending (suc k) ps

Ascending-weaken : (i j : ℕ) (ps : List Profile) → i ≤ j → Ascending j ps → Ascending i ps
unfolding Ascending
Ascending-weaken i j [] l h = tt
Ascending-weaken i j (p ∷ ps) l h = (h.0, omega arith, h.2, h.3)

pub eqb_ℤ-pos : (a : ℤ) (i : ℕ) → eqb_ℤ a (pos i) ≡ true → a ≡ pos i
eqb_ℤ-pos (pos n) i h = let e : n ≡ i = ground arith in ap pos e
eqb_ℤ-pos (negsuc n) i h = absurd (ground arith)

pub is_numbered-Ascending : (i : ℕ) (ps : List Profile) → is_numbered i ps ≡ true → Ascending i ps
unfolding is_numbered Ascending
is_numbered-Ascending i [] h = tt
is_numbered-Ascending i (p ∷ ps) h = (
  i,
  omega arith,
  eqb_ℤ-pos p.order i (ground arith),
  is_numbered-Ascending (suc i) ps (ground arith),
)

pub filter-Ascending :
    (t : Profile → Bool) (i : ℕ) (ps : List Profile) → Ascending i ps → Ascending i (filter t ps)
unfolding filter Ascending
filter-Ascending t i [] h = tt
filter-Ascending t i (p ∷ ps) h = elim (Bool-cases (t p)) [
  | inl e ↦ rw e (h.0, h.1, h.2, filter-Ascending t (suc h.0) ps h.3)
  | inr e ↦ rw e (
      Ascending-weaken i (suc h.0) (filter t ps) (omega (arith, h.1))
        (filter-Ascending t (suc h.0) ps h.3))
]

module _ (le_text : Text → Text → Bool) where
  insert_by-Ascending :
      (p : Profile) (i : ℕ) (ps : List Profile)
      → p.order ≡ pos i
      → Ascending (suc i) ps
      → insert_by (stands_before le_text) p ps ≡ p ∷ ps
  unfolding insert_by Ascending stands_before
  insert_by-Ascending p i [] e h = refl
  insert_by-Ascending p i (r ∷ ps) e h =
      rw (ltb-orders p.order r.order i h.0 e h.2 (omega (arith, h.1)))
    where
      ltb-orders : (a b : ℤ) (i k : ℕ) → a ≡ pos i → b ≡ pos k → suc i ≤ k → ltb_ℤ a b ≡ true
      ltb-orders a b i k e f l = rw e (rw f (ground arith))

  -- Profiles whose orders rise are sorted already.
  pub sort_by-Ascending :
      (i : ℕ) (ps : List Profile) → Ascending i ps → sort_by (stands_before le_text) ps ≡ ps
  unfolding sort_by Ascending
  sort_by-Ascending i [] h = refl
  sort_by-Ascending i (p ∷ ps) h =
      rw (sort_by-Ascending (suc h.0) ps h.3) (insert_by-Ascending p h.0 ps h.2 h.3)
