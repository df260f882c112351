-- ===== src/Profiles/Recovery.antt =====
-- `create` of server/src/profiles.ts and the shared steps of the operations, and what can be
-- written and read back.
use misgeret.Base.{
  ◌≡◌, sym, subst, ◌∙◌, arith, not, Option, none, some, List, [], ◌∷◌, ◌++◌, All, All-append,
  length, ◌==◌, any,
}
use misgeret.Text.{Text, eq_text, text_key}
use misgeret.Profiles.{
  Profile, Entry, profile_name_exists, invalid_input, Machine, Os, Outcome, done, failed, threw,
  check, ◌>>=◌, Value, string,
}
use misgeret.Profiles.Checks.{normalize_name}
use misgeret.Profiles.Free.{name_taken, unused_adoption_name}
use misgeret.Profiles.Members.{require, resolve_dir, change_id}
use misgeret.Profiles.Registry.{write, persist}
use misgeret.Profiles.Requests.{
  commit, with_store, or_default, color_or_default, check_made, make_dir, new_profile, made,
  creation,
}
use misgeret.Profiles.Changes.{as_id, collect, ordering}
use misgeret.Profiles.Validity.{has_id-append, has_id-change_id}
use misgeret.Profiles.Keeping.{Ensures, >>=-Ensures}
use misgeret.Profiles.Invariant.{resolve_dir_lem}
use misgeret.Profiles.Storable.{IsStorable, normalize_name-IsName}
use misgeret.Profiles.Durable.{IsDurable, All-change_id, IsStorable-number_from, is_calm-more}
use misgeret.Profiles.Persisting.{make_dir-IsCalm, color_or_default-IsPaint, require-IsStorable}

pub write-IsDurable : {m : Machine} → IsDurable m → IsDurable (write m)
unfolding write
write-IsDurable h = record { storable = h.storable; calm = h.calm; entries = h.entries }

pub persist-IsDurable :
    {A : Type 0} (os : Os) (m m' : Machine) (a : A)
    → IsDurable m
    → IsDurable m'
    → IsDurable (persist os m m' a).0
unfolding persist
persist-IsDurable os m m' a h k = ground (arith, write-IsDurable k)

abbrev pub D {ℓ} : {A : Type ℓ} → Machine × A → Type 0
D r = IsDurable r.0

pub commit-IsDurable :
    {A : Type 0} (os : Os) (m : Machine) (o : Outcome (Machine × A))
    → IsDurable m
    → Ensures D o
    → IsDurable (commit os m o).0
unfolding commit
commit-IsDurable os m (done (m', a)) h k = persist-IsDurable os m' m' a k k
commit-IsDurable os m (failed e) h k = h
commit-IsDurable os m threw h k = h

collect-IsStorable :
    (ps : List Profile) (seen : List Text) (vs : List Value)
    → All IsStorable ps
    → Ensures (All IsStorable) (collect ps seen vs)
unfolding collect
collect-IsStorable ps seen [] h = tt
collect-IsStorable ps seen (v ∷ vs) h = >>=-Ensures (All IsStorable) (as_id v) _ λ id _.
    >>=-Ensures (All IsStorable) (check (not (any (eq_text id) seen)) invalid_input) _ λ _ _.
      >>=-Ensures (All IsStorable) (require (string id) ps) _ λ p r.
        extend p (require-IsStorable id ps p h r) (collect ps (id ∷ seen) vs)
          (collect-IsStorable ps (id ∷ seen) vs h)
  where
    extend :
        (p : Profile)
        → IsStorable p
        → (o : Outcome (List Profile)) → Ensures (All IsStorable) o
        → Ensures (All IsStorable) (o >>= λ rest. done (p ∷ rest))
    extend p s (done rest) h = (s, h)
    extend p s (failed e) h = tt
    extend p s threw h = tt

pub ordering-IsStorable :
    (ids : Option (List Value)) (ps : List Profile)
    → All IsStorable ps
    → Ensures (All IsStorable) (ordering ids ps)
unfolding ordering
ordering-IsStorable none ps h = tt
ordering-IsStorable (some ids) ps h =
    >>=-Ensures (All IsStorable) (check (length ids == length ps) invalid_input) _ λ _ _.
      >>=-Ensures (All IsStorable) (collect ps [] ids) _ λ o e.
        IsStorable-number_from 0 o
          (subst (Ensures (All IsStorable)) e (collect-IsStorable ps [] ids h))

module _ (fold : Text → Text) (os : Os) (m : Machine) (h : IsDurable m) where
  pub changed-IsDurable :
      (f : Profile → Profile)
      → ((p : Profile) → ((f p).id ≡ p.id) × ((f p).order ≡ p.order))
      → ((p : Profile) → IsStorable p → IsStorable (f p))
      → (id : Text) (active : Option Text)
      → IsDurable (with_store m (change_id id f m.store.profiles) active)
  unfolding with_store
  changed-IsDurable f k s id active = record {
    storable = All-change_id IsStorable f s id m.store.profiles h.storable;
    calm =
        is_calm-more m.store.profiles (change_id id f m.store.profiles) m.disk.worlds
          (λ j e. has_id-change_id f k j id m.store.profiles ∙ e) h.calm;
    entries = h.entries;
  }

  made-IsDurable :
      (p : Profile) (worlds : List (Text × Entry))
      → IsStorable p
      → make_dir p.id m.disk.worlds ≡ done worlds
      → IsDurable (made os m p worlds)
  unfolding made
  made-IsDurable p worlds s e =
      let c = make_dir-IsCalm p.id m.disk.worlds worlds m.store.profiles e h.entries h.calm in
      record {
        storable = All-append IsStorable m.store.profiles (p ∷ []) h.storable (s, tt);
        calm =
            is_calm-more m.store.profiles (m.store.profiles ++ p ∷ []) worlds
              (λ j k. ground (arith, has_id-append j m.store.profiles p)) c.1;
        entries = c.0;
      }

  pub creation-IsDurable : (n c : Value) → Ensures D (creation fold os n c m)
  unfolding creation
  creation-IsDurable n c =
      let ps = m.store.profiles in
      >>=-Ensures D (normalize_name (or_default (unused_adoption_name fold ps) n)) _ λ name en.
        >>=-Ensures D (check (not (name_taken fold name none ps)) profile_name_exists) _ λ _ _.
          >>=-Ensures D (color_or_default (length ps) c) _ λ color ec.
            >>=-Ensures D (resolve_dir os.fresh) _ λ dir d.
              >>=-Ensures D (check_made os.world_made) _ λ _ _.
                >>=-Ensures D (make_dir dir m.disk.worlds) _ λ worlds e.
                  made-IsDurable (new_profile os name color ps) worlds
                    (unfold new_profile in
                      (record {
                        uuid = (resolve_dir_lem os.fresh dir d).1;
                        named =
                            normalize_name-IsName (or_default (unused_adoption_name fold ps) n) name
                              en;
                        painted = color_or_default-IsPaint (length ps) c color ec;
                      }))
                    (unfold new_profile in
                      (subst (λ (t : Text). make_dir t m.disk.worlds ≡ done worlds)
                        (sym (resolve_dir_lem os.fresh dir d).0) e))
