-- ===== src/Profiles/NamesKept.antt =====
-- The names of profiles, server/src/profiles.ts, over sequences of requests.
use mathlib.Core.List.{Memᴰ}
use misgeret.Base.{
  ◌≡◌, refl, sym, ap, subst, ◌∙◌, inl, inr, Bool, true, false, not, Option, none, some, List, [],
  ◌∷◌, length, ◌==◌, Bool-cases,
}
use misgeret.Text.{Text}
use misgeret.Profiles.{
  Profile, profile_name_exists, last_profile, invalid_input, Machine, Os, Outcome, done, failed,
  threw, check, Value, string,
}
use misgeret.Profiles.Checks.{normalize_name, is_profile_id}
use misgeret.Profiles.Members.{has_id, require, resolve_dir, change_id, remove_id, number_from}
use misgeret.Profiles.Loading.{is_nil}
use misgeret.Profiles.Requests.{
  with_store, creation, create, name_patch, color_patch, is_name_free, patching, land_patch, update,
  repair_active, resolve_by, resolve_active_id,
}
use misgeret.Profiles.Changes.{
  collect, ordering, reordering, reorder, opened, activation, set_active, move_aside, store_without,
  deletion, soft_delete, migrated, adoption, commit_migrated, Request, creates, updates, reorders,
  activates, deletes, adopts, resolves, handle,
}
use misgeret.Profiles.Keeping.{Ensures, >>=-Ensures}
use misgeret.Profiles.Invariant.{Reaches, stays, moves}
use misgeret.Profiles.Unique.{
  IsWithin, IsUnique, within-IsUnique, number_from-IsWithin, remove_id-IsWithin, require-mem,
  collect-IsWithin, change_id-IsWithin,
}
use misgeret.Profiles.Naming.{
  patched-IsUnique, persist-IsUnique, commit-IsUnique, U, creation-IsUnique,
}

module _ (fold : Text → Text) (os : Os) (m : Machine) (u : IsUnique fold m.store.profiles) where
  kept-IsUnique : (o : List Profile) → IsWithin m.store.profiles o → IsUnique fold o
  kept-IsUnique o w = within-IsUnique fold m.store.profiles o w u

  land-IsUnique :
      (o : Outcome (List Profile × Profile))
      → Ensures (λ r. IsUnique fold r.0) o
      → U fold (land_patch os m o)
  unfolding land_patch
  land-IsUnique (done (ps, p)) k =
      persist-IsUnique fold os m (with_store m ps m.store.active_id) p u (unfold with_store in k)
  land-IsUnique (failed e) k = u
  land-IsUnique threw k = u

  patching-IsUnique :
      (id : Text) (n c : Value)
      → Ensures (λ r. IsUnique fold r.0) (patching fold id n c m.store.profiles)
  patching-IsUnique id n c =
      let ps = m.store.profiles in
      let Q : List Profile × Profile → Type 0 = λ r. IsUnique fold r.0 in
      unfold patching in
      (>>=-Ensures Q (require (string id) ps) _ λ p r. >>=-Ensures Q (name_patch n) _ λ name _.
        >>=-Ensures Q (check (is_name_free fold name p.id ps) profile_name_exists) _ λ _ t.
          >>=-Ensures Q (color_patch c) _ λ color _.
            patched-IsUnique fold name color id ps
              (free name p.id (ap (λ j. is_name_free fold name j ps) (require-mem id ps p r).1)
                (is_name_free fold name p.id ps) refl t)
              u)
    where
      free :
          (name : Option Text) (j : Text)
          → is_name_free fold name j m.store.profiles ≡ is_name_free fold name id m.store.profiles
          → (b : Bool) → is_name_free fold name j m.store.profiles ≡ b
          → check b profile_name_exists ≡ done tt
          → is_name_free fold name id m.store.profiles ≡ true
      free name j e true k h = sym e ∙ k
      free name j e false k h = cc

  activation-IsUnique : (id : Text) → Ensures (U fold) (activation os id m)
  activation-IsUnique id =
      unfold activation in
      (>>=-Ensures (U fold) (require (string id) m.store.profiles) _ λ p _.
        unfold with_store in
        kept-IsUnique (change_id id (opened os) m.store.profiles)
          (change_id-IsWithin (opened os) (λ q. unfold opened in (refl, refl)) id m.store.profiles))

  reordering-IsUnique : (ids : Option (List Value)) → Ensures (U fold) (reordering ids m)
  reordering-IsUnique ids =
      unfold reordering in
      (>>=-Ensures (U fold) (ordering ids m.store.profiles) _ λ o e.
        unfold with_store in
        kept-IsUnique o (subst (Ensures (IsWithin m.store.profiles)) e (ordered ids)))
    where
      ordered :
          (v : Option (List Value))
          → Ensures (IsWithin m.store.profiles) (ordering v m.store.profiles)
      ordered none = unfold ordering in tt
      ordered (some vs) =
          let W = IsWithin m.store.profiles in
          unfold ordering in
          (>>=-Ensures W (check (length vs == length m.store.profiles) invalid_input) _ λ _ _.
            >>=-Ensures W (collect m.store.profiles [] vs) _ λ o e.
              number_from-IsWithin 0 m.store.profiles o
                (subst (Ensures W) e (collect-IsWithin m.store.profiles [] vs)))

  deletion-IsUnique : (id : Text) → Ensures (U fold) (deletion os id m)
  deletion-IsUnique id =
      unfold deletion in
      (>>=-Ensures (U fold) (require (string id) m.store.profiles) _ λ p r.
        >>=-Ensures (U fold) (check (not (length m.store.profiles == 1)) last_profile) _ λ _ _.
          >>=-Ensures (U fold) (resolve_dir p.id) _ λ dir d.
            >>=-Ensures (U fold) (move_aside os dir m.disk) _ λ disk e.
              unfold store_without in
              kept-IsUnique (number_from 0 (remove_id p.id m.store.profiles)) (
                number_from-IsWithin 0 m.store.profiles (remove_id p.id m.store.profiles)
                  (remove_id-IsWithin p.id m.store.profiles)))

  adoption-IsUnique : (id : Text) (n : Value) → Ensures (U fold) (adoption os id n m)
  adoption-IsUnique id n =
      unfold adoption in
      (>>=-Ensures (U fold) (check (is_nil m.store.profiles) invalid_input) _ λ _ _.
        >>=-Ensures (U fold) (check (is_profile_id id) invalid_input) _ λ _ _.
          >>=-Ensures (U fold) (normalize_name n) _
            λ name _. unfold with_store in (single (migrated os id name)))
    where
      only : (p q : Profile) → Memᴰ q (p ∷ []) → q.id ≡ p.id
      only p q (Memᴰ.head e) = ap (λ (r : Profile). r.id) e
      only p q (Memᴰ.tail k) = elim k [ ]

      single : (p : Profile) → IsUnique fold (p ∷ [])
      single p a b ma mb e = only p a ma ∙ sym (only p b mb)

  repair_active-IsUnique :
      (ps : List Profile) → m.store.profiles ≡ ps → U fold (repair_active os m ps)
  unfolding repair_active
  repair_active-IsUnique [] e = u
  repair_active-IsUnique (p ∷ ps) e =
      commit-IsUnique fold os m (done (with_store m (p ∷ ps) (some p.id), p.id)) u
        (unfold with_store in (subst (IsUnique fold) e u))

  resolve_by-IsUnique : (active : Option Text) → U fold (resolve_by os m active)
  unfolding resolve_by
  resolve_by-IsUnique none = repair_active-IsUnique m.store.profiles refl
  resolve_by-IsUnique (some a) = elim (Bool-cases (has_id a m.store.profiles)) [
    | inl e ↦ rw e u
    | inr e ↦ rw e (repair_active-IsUnique m.store.profiles refl)
  ]

  handle-IsUnique : (r : Request) → IsUnique fold (handle fold os r m).store.profiles
  unfolding handle create update reorder set_active soft_delete commit_migrated resolve_active_id
  handle-IsUnique (creates n c) =
      commit-IsUnique fold os m (creation fold os n c m) u (creation-IsUnique fold os m u n c)
  handle-IsUnique (updates id n c) =
      land-IsUnique (patching fold id n c m.store.profiles) (patching-IsUnique id n c)
  handle-IsUnique (reorders ids) =
      commit-IsUnique fold os m (reordering ids m) u (reordering-IsUnique ids)
  handle-IsUnique (activates id) =
      commit-IsUnique fold os m (activation os id m) u (activation-IsUnique id)
  handle-IsUnique (deletes id) =
      commit-IsUnique fold os m (deletion os id m) u (deletion-IsUnique id)
  handle-IsUnique (adopts id n) =
      commit-IsUnique fold os m (adoption os id n m) u (adoption-IsUnique id n)
  handle-IsUnique resolves = resolve_by-IsUnique m.store.active_id

-- Where no two profiles of different ids have names that differ by case at most, whatever requests
-- come (a new UUID is the id of no profile, and the directory of a profile that a migration adopts
-- is there): none have.
pub Reaches-IsUnique :
    (fold : Text → Text) (m m' : Machine)
    → IsUnique fold m.store.profiles
    → Reaches fold m m'
    → IsUnique fold m'.store.profiles
Reaches-IsUnique fold m m' u (stays _) = u
Reaches-IsUnique fold m m' u (moves os r _ _ a rest) =
    Reaches-IsUnique fold (handle fold os r m) m' (handle-IsUnique fold os m u r) rest
