-- ===== src/Profiles/Loading.antt =====
-- `load` of server/src/profiles.ts: the registry file and the directories on disk are brought into
-- agreement. Removing the marker of a migration does not fail.
use misgeret.Base.{
  ℕ, suc, pos, Bool, true, false, not, ◌&&◌, ◌||◌, Option, none, some, List, [], ◌∷◌, ◌++◌, ◌==◌,
  ltb_ℤ, eqb_ℤ, if◌then◌else◌, filter, length,
}
use misgeret.Base.Dict.{has_key}
use misgeret.Base.Sort.{sort_by}
use misgeret.Text.{Text, text_key, eq_text}
use misgeret.Profiles.{
  Profile, Outcome, done, World, Entry, file, directory, Content, missing, Disk, Store, Machine, Os,
}
use misgeret.Profiles.Checks.{is_profile_id, color_at}
use misgeret.Profiles.Free.{unused_adoption_name}
use misgeret.Profiles.Members.{has_id, number_from, first_id}
use misgeret.Profiles.Registry.{read_registry, persist}

-- What becomes of an entry below profiles/.
pub data Visit : Type 0 where
  keep : Entry → Visit
  drop : Visit
  adopt : Profile → Visit

pub record Scan : Type 0 where
  pub profiles : List Profile
  pub worlds : List (Text × Entry)
  pub changed : Bool

unfoldable pub keep_entry : Text → Entry → Scan → Scan
keep_entry name e s = record s { worlds = (name, e) ∷ s.worlds }

-- The rest of the loop after a visit, over the profiles so far and whether something changed.
unfoldable pub after_visit :
    Text → Entry → Visit → (List Profile → Bool → Scan) → List Profile → Bool → Scan
unfolding keep_entry
after_visit name e (keep e') next ps changed = keep_entry name e' (next ps changed)
after_visit name e drop next ps changed = next ps changed
after_visit name e (adopt p) next ps changed = keep_entry name e (next (ps ++ p ∷ []) true)

unfoldable pub is_empty_world : World → Bool
is_empty_world w = not (w.marker || w.database || w.others)

-- The positions of the profiles are their orders already.
unfoldable pub is_numbered : ℕ → List Profile → Bool
is_numbered i [] = true
is_numbered i (p ∷ ps) = eqb_ℤ p.order (pos i) && is_numbered (suc i) ps

unfoldable pub is_active : Option Text → List Profile → Bool
is_active none ps = false
is_active (some id) ps = has_id id ps

unfoldable pub same_id : Option Text → Option Text → Bool
same_id none none = true
same_id (some a) (some b) = eq_text a b
same_id _ _ = false

unfoldable pub is_there : Content → Bool
is_there missing = false
is_there _ = true

unfoldable pub is_nil : List Profile → Bool
is_nil [] = true
is_nil (p ∷ ps) = false

module _ (fold : Text → Text) where
  unfoldable pub adopted : Os → List Profile → Text → Profile
  unfolding color_at
  adopted os ps name = record {
    id = name;
    name = unused_adoption_name fold ps;
    color = color_at (length ps);
    created_at = os.now;
    last_opened_at = none;
    order = pos (length ps);
  }

  -- The body of the loop over the entries, `ps` being the profiles so far.
  unfoldable pub visit : Os → List Profile → Text → Entry → Visit
  unfolding adopted is_empty_world
  visit os ps name file = keep file
  visit os ps name (directory w) =
      if not (is_profile_id name)
      then keep (directory w)
      else if w.marker
      then keep (directory (if has_id name ps then record w { marker = false } else w))
      else if has_id name ps
      then keep (directory w)
      else if w.database
      then adopt (adopted os ps name)
      else if is_empty_world w && os.removable name
      then drop
      else keep (directory w)

  unfoldable pub scan : Os → List Profile → Bool → List (Text × Entry) → Scan
  unfolding visit after_visit
  scan os ps changed [] = record { profiles = ps; worlds = []; changed = changed }
  scan os ps changed ((name, e) ∷ es) =
      after_visit name e (visit os ps name e) (λ qs b. scan os qs b es) ps changed

-- left.order - right.order || left.createdAt.localeCompare(right.createdAt), at most 0
unfoldable pub stands_before : (Text → Text → Bool) → Profile → Profile → Bool
stands_before le_text p q =
    ltb_ℤ p.order q.order || (eqb_ℤ p.order q.order && le_text p.created_at q.created_at)

unfoldable pub alive : List (Text × Entry) → List Profile → List Profile
alive worlds ps = filter (λ p. has_key p.id worlds) ps

unfoldable pub repaired : Option Text → List Profile → Option Text
unfolding is_active first_id
repaired active ps = if is_active active ps then active else first_id ps

module _ (fold : Text → Text) (le_text : Text → Text → Bool) where
  unfoldable pub in_order : Scan → List Profile
  unfolding stands_before alive
  in_order s = sort_by (stands_before le_text) (alive s.worlds s.profiles)

  unfoldable pub is_changed : Option Text → Scan → Bool
  unfolding in_order is_numbered repaired same_id alive
  is_changed active s =
      s.changed
      || not (length (alive s.worlds s.profiles) == length s.profiles)
      || not (is_numbered 0 (in_order s))
      || not (same_id (repaired active (number_from 0 (in_order s))) active)

  unfoldable pub loaded_store : Option Text → Scan → Store
  unfolding in_order repaired
  loaded_store active s = record {
    profiles = number_from 0 (in_order s);
    active_id = repaired active (number_from 0 (in_order s));
  }

  unfoldable pub settle : Os → Option Text → Scan → Disk → Machine × Outcome (Unit {0})
  unfolding loaded_store is_changed is_nil is_there persist
  settle os active s disk =
      let m : Machine = record {
        store = loaded_store active s;
        disk = record disk { worlds = s.worlds };
      } in
      if is_changed active s && (not (is_nil m.store.profiles) || is_there disk.registry)
      then persist os m m tt
      else (m, done tt)

  unfoldable pub load : Os → Disk → Machine × Outcome (Unit {0})
  unfolding read_registry scan settle
  load os disk =
      let stored = read_registry os.now disk.registry in
      settle os stored.active_id (scan fold os stored.profiles stored.changed disk.worlds) disk
