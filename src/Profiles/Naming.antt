-- ===== src/Profiles/Naming.antt =====
-- The names of profiles, server/src/profiles.ts: what `create` and `update` do to them.
use mathlib.Core.List.{Memᴰ}
use misgeret.Base.{
  ◌≡◌, refl, sym, ap, ◌∙◌, ◌⊎◌, inl, inr, arith, Bool, true, false, not, Option, none, some, List,
  [], ◌∷◌, ◌++◌, length, Bool-cases,
}
use misgeret.Text.{Text, eq_text, eq_text_iff}
use misgeret.Profiles.{
  Profile, profile_name_exists, Machine, Os, Outcome, done, failed, threw, check, Value,
}
use misgeret.Profiles.Checks.{normalize_name}
use misgeret.Profiles.Free.{name_taken, unused_adoption_name}
use misgeret.Profiles.Members.{resolve_dir, change_id}
use misgeret.Profiles.Registry.{is_saved, write, persist}
use misgeret.Profiles.Requests.{
  commit, or_default, color_or_default, check_made, make_dir, new_profile, made, creation, patched,
  is_name_free,
}
use misgeret.Profiles.Keeping.{Ensures, >>=-Ensures}
use misgeret.Profiles.Unique.{
  IsUnique, within-IsUnique, name_taken-mem, name_taken-mem_other, change_id-IsWithin,
}

mem-append_one : (q p : Profile) (ps : List Profile) → Memᴰ q (ps ++ p ∷ []) → Memᴰ q ps ⊎ (q ≡ p)
mem-append_one q p [] (Memᴰ.head e) = inr e
mem-append_one q p [] (Memᴰ.tail m) = elim m [ ]
mem-append_one q p (r ∷ ps) (Memᴰ.head e) = inl (Memᴰ.head e)
mem-append_one q p (r ∷ ps) (Memᴰ.tail m) = elim (mem-append_one q p ps m) [
  | inl k ↦ inl (Memᴰ.tail k)
  | inr e ↦ inr e
]

mem-change_id :
    (f : Profile → Profile) (id : Text) (q : Profile) (ps : List Profile)
    → Memᴰ q (change_id id f ps)
    → Memᴰ q ps ⊎ ((p : Profile) × (p.id ≡ id) × (q ≡ f p))
unfolding change_id
mem-change_id f id q [] m = elim m [ ]
mem-change_id f id q (r ∷ ps) m = elim (Bool-cases (eq_text r.id id)) [
  | inl e ↦ changed e (rw e at m)
  | inr e ↦ kept (rw e at m) (mem-change_id f id q ps)
]
  where
    changed :
        eq_text r.id id ≡ true
        → Memᴰ q (f r ∷ ps)
        → Memᴰ q (r ∷ ps) ⊎ ((p : Profile) × (p.id ≡ id) × (q ≡ f p))
    changed e (Memᴰ.head k) = inr (r, (eq_text_iff r.id id).0 e, k)
    changed e (Memᴰ.tail k) = inl (Memᴰ.tail k)

    kept :
        Memᴰ q (r ∷ change_id id f ps)
        → (Memᴰ q (change_id id f ps) → Memᴰ q ps ⊎ ((p : Profile) × (p.id ≡ id) × (q ≡ f p)))
        → Memᴰ q (r ∷ ps) ⊎ ((p : Profile) × (p.id ≡ id) × (q ≡ f p))
    kept (Memᴰ.head k) ih = inl (Memᴰ.head k)
    kept (Memᴰ.tail k) ih = elim (ih k) [ inl i ↦ inl (Memᴰ.tail i) | inr i ↦ inr i ]

module _ (fold : Text → Text) where
  append-IsUnique :
      (p : Profile) (ps : List Profile)
      → name_taken fold p.name none ps ≡ false
      → IsUnique fold ps
      → IsUnique fold (ps ++ p ∷ [])
  append-IsUnique p ps t u a b ma mb e = both (mem-append_one a p ps ma) (mem-append_one b p ps mb)
    where
      other : (q : Profile) → Memᴰ q ps → fold q.name ≡ fold p.name → ⊥
      other q m k =
          ground
            (arith, name_taken-mem fold p.name ps t q m, eq_text_iff (fold q.name) (fold p.name))

      both : Memᴰ a ps ⊎ (a ≡ p) → Memᴰ b ps ⊎ (b ≡ p) → a.id ≡ b.id
      both (inl x) (inl y) = u a b x y e
      both (inl x) (inr y) = absurd (other a x (e ∙ ap (λ (r : Profile). fold r.name) y))
      both (inr x) (inl y) = absurd (other b y (sym e ∙ ap (λ (r : Profile). fold r.name) x))
      both (inr x) (inr y) = ap (λ (r : Profile). r.id) (x ∙ sym y)

  -- A row that gets a name which no other row has.
  rename-IsUnique :
      (f : Profile → Profile) (name id : Text) (ps : List Profile)
      → ((p : Profile) → ((f p).id ≡ p.id) × ((f p).name ≡ name))
      → name_taken fold name (some id) ps ≡ false
      → IsUnique fold ps
      → IsUnique fold (change_id id f ps)
  rename-IsUnique f name id ps k t u a b ma mb e =
      both (mem-change_id f id a ps ma) (mem-change_id f id b ps mb)
    where
      New : Profile → Type 0
      New q = (p : Profile) × (p.id ≡ id) × (q ≡ f p)

      id_of : (q : Profile) → New q → q.id ≡ id
      id_of q n = ap (λ (r : Profile). r.id) n.2 ∙ (k n.0).0 ∙ n.1

      name_of : (q : Profile) → New q → q.name ≡ name
      name_of q n = ap (λ (r : Profile). r.name) n.2 ∙ (k n.0).1

      both : Memᴰ a ps ⊎ New a → Memᴰ b ps ⊎ New b → a.id ≡ b.id
      both (inl x) (inl y) = u a b x y e
      both (inl x) (inr y) =
          name_taken-mem_other fold name id ps t a x (e ∙ ap fold (name_of b y)) ∙ sym (id_of b y)
      both (inr x) (inl y) =
          id_of a x
          ∙ sym (name_taken-mem_other fold name id ps t b y (sym e ∙ ap fold (name_of a x)))
      both (inr x) (inr y) = id_of a x ∙ sym (id_of b y)

  pub patched-IsUnique :
      (name color : Option Text) (id : Text) (ps : List Profile)
      → is_name_free fold name id ps ≡ true
      → IsUnique fold ps
      → IsUnique fold (change_id id (patched name color) ps)
  patched-IsUnique none color id ps t u =
      within-IsUnique fold ps (change_id id (patched none color) ps)
        (change_id-IsWithin (patched none color) (λ p. unfold patched in (refl, refl)) id ps) u
  patched-IsUnique (some n) color id ps t u =
      rename-IsUnique (patched (some n) color) n id ps (λ p. unfold patched in (refl, refl))
        (unfold is_name_free in ground arith) u

  abbrev pub U {ℓ} : {A : Type ℓ} → Machine × A → Type 0
  U r = IsUnique fold r.0.store.profiles

  pub persist-IsUnique :
      {A : Type 0} (os : Os) (m m' : Machine) (a : A)
      → IsUnique fold m.store.profiles
      → IsUnique fold m'.store.profiles
      → U (persist os m m' a)
  unfolding persist
  persist-IsUnique os m m' a h k = elim (Bool-cases (is_saved os)) [
    | inl e ↦ rw e (unfold write in k)
    | inr e ↦ rw e h
  ]

  pub commit-IsUnique :
      {A : Type 0} (os : Os) (m : Machine) (o : Outcome (Machine × A))
      → IsUnique fold m.store.profiles
      → Ensures U o
      → U (commit os m o)
  unfolding commit
  commit-IsUnique os m (done (m', a)) h k = persist-IsUnique os m' m' a k k
  commit-IsUnique os m (failed e) h k = h
  commit-IsUnique os m threw h k = h

  module _ (os : Os) (m : Machine) (u : IsUnique fold m.store.profiles) where
    pub creation-IsUnique : (n c : Value) → Ensures U (creation fold os n c m)
    creation-IsUnique n c =
        let ps = m.store.profiles in
        unfold creation in
        (>>=-Ensures U (normalize_name (or_default (unused_adoption_name fold ps) n)) _ λ name _.
          >>=-Ensures U (check (not (name_taken fold name none ps)) profile_name_exists) _ λ _ t.
            >>=-Ensures U (color_or_default (length ps) c) _ λ color _.
              >>=-Ensures U (resolve_dir os.fresh) _ λ dir d.
                >>=-Ensures U (check_made os.world_made) _ λ _ _.
                  >>=-Ensures U (make_dir dir m.disk.worlds) _ λ worlds e.
                    unfold made in
                    append-IsUnique (new_profile os name color ps) ps
                      (unfold new_profile in free (name_taken fold name none ps) t) u)
      where
        free : (b : Bool) → check (not b) profile_name_exists ≡ done tt → b ≡ false
        free true h = cc
        free false h = refl
