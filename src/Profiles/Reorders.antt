-- ===== src/Profiles/Reorders.antt =====
-- `reorder` of server/src/profiles.ts, and well-formedness.
use misgeret.Base.{
  ℕ, suc, ◌≡◌, refl, sym, ap, subst, ◌∙◌, arith, Bool, true, false, not, ◌&&◌, ◌||◌, Option, none,
  some, List, [], ◌∷◌, map, any, All, length, length-map, ◌==◌, Bool-cases, inl, inr,
}
use misgeret.Text.{Text, eq_text}
use misgeret.Profiles.{
  Profile, invalid_input, Machine, Outcome, done, failed, threw, check, ◌>>=◌, ◌>>◌, Value, string,
}
use misgeret.Profiles.Checks.{is_profile_id}
use misgeret.Profiles.Members.{has_id, number_from, require}
use misgeret.Profiles.Pigeons.{mem, DistinctTexts, pigeon}
use misgeret.Profiles.Loading.{is_numbered}
use misgeret.Profiles.Requests.{with_store}
use misgeret.Profiles.Changes.{as_id, collect, ordering, reordering}
use misgeret.Profiles.Validity.{
  DistinctIds, ids_all, is_resolved, has_home, IsWellFormed, eq_text_refl, ids_all-at, ids_all-of,
  ids_all-number_from, has_id-number_from, DistinctIds-number_from, number_from-is_numbered,
}
use misgeret.Profiles.Keeping.{Ensures, >>=-Ensures, Keeps, require_lem}

ids_of : List Profile → List Text
ids_of ps = map (λ p. p.id) ps

has_id-ids_of : (j : Text) (ps : List Profile) → has_id j ps ≡ mem j (ids_of ps)
unfolding has_id ids_of mem
has_id-ids_of j [] = refl
has_id-ids_of j (p ∷ ps) = ap (λ b. eq_text p.id j || b) (has_id-ids_of j ps)

DistinctIds-ids_of : (ps : List Profile) → DistinctIds ps → DistinctTexts (ids_of ps)
unfolding ids_of
DistinctIds-ids_of [] d = tt
DistinctIds-ids_of (p ∷ ps) d = (sym (has_id-ids_of p.id ps) ∙ d.0, DistinctIds-ids_of ps d.1)

ids_all-ids_of :
    (o ps : List Profile)
    → ids_all (λ j. has_id j ps) o ≡ true
    → All (λ j. mem j (ids_of ps) ≡ true) (ids_of o)
unfolding ids_of ids_all
ids_all-ids_of [] ps h = tt
ids_all-ids_of (p ∷ o) ps h =
    (sym (has_id-ids_of p.id ps) ∙ ground arith, ids_all-ids_of o ps (ground arith))

-- As many different ids as there are profiles, each of a profile, are the ids of all of them.
pub DistinctIds-covers :
    (o ps : List Profile)
    → DistinctIds o
    → ids_all (λ j. has_id j ps) o ≡ true
    → length o ≡ length ps
    → (j : Text) → has_id j ps ≡ true
    → has_id j o ≡ true
unfolding ids_of
DistinctIds-covers o ps d h e j k = elim (Bool-cases (has_id j o)) [
  | inl r ↦ r
  | inr r ↦ absurd (
      omega (
        arith,
        pigeon (j ∷ ids_of o) (ids_of ps) (sym (has_id-ids_of j o) ∙ r, DistinctIds-ids_of o d)
            (sym (has_id-ids_of j ps) ∙ k, ids_all-ids_of o ps h),
        length-map (λ (p : Profile). p.id) o,
        length-map (λ (p : Profile). p.id) ps,
      ))
]

-- What the loop of `reorder` collects: different profiles of the store, none of them seen before, as
-- many as ids.
IsCollected : List Profile → List Text → ℕ → List Profile → Type 0
IsCollected ps seen n o =
    DistinctIds o
    × (ids_all (λ j. has_id j ps && not (any (eq_text j) seen)) o ≡ true)
    × (length o ≡ n)

ids_all-not_head :
    (id : Text) (q : Text → Bool) (o : List Profile)
    → ids_all (λ j. q j && not (eq_text j id)) o ≡ true
    → has_id id o ≡ false
unfolding ids_all has_id
ids_all-not_head id q [] h = refl
ids_all-not_head id q (p ∷ o) h = ground (arith, ids_all-not_head id q o)

collect-IsCollected :
    (ps : List Profile) (seen : List Text) (vs : List Value)
    → Ensures (IsCollected ps seen (length vs)) (collect ps seen vs)
unfolding collect IsCollected
collect-IsCollected ps seen [] = (tt, unfold ids_all in refl, refl)
collect-IsCollected ps seen (v ∷ vs) =
    >>=-Ensures P (as_id v)
      (λ id.
        check (not (any (eq_text id) seen)) invalid_input
        >> (require (string id) ps >>= λ p. collect ps (id ∷ seen) vs >>= λ rest. done (p ∷ rest)))
      λ id e.
        >>=-Ensures P (check (not (any (eq_text id) seen)) invalid_input)
          (λ _.
            require (string id) ps >>= λ p. collect ps (id ∷ seen) vs >>= λ rest. done (p ∷ rest))
          λ _ c.
            >>=-Ensures P (require (string id) ps)
              (λ p. collect ps (id ∷ seen) vs >>= λ rest. done (p ∷ rest))
              λ p r.
                extend id p (require_lem id ps p r) (ground arith) (collect ps (id ∷ seen) vs)
                  (collect-IsCollected ps (id ∷ seen) vs)
  where
    P : List Profile → Type 0
    P = IsCollected ps seen (suc (length vs))

    extend :
        (id : Text) (p : Profile)
        → (p.id ≡ id) × (has_id id ps ≡ true) × (is_profile_id id ≡ true)
        → any (eq_text id) seen ≡ false
        → (o : Outcome (List Profile)) → Ensures (IsCollected ps (id ∷ seen) (length vs)) o
        → Ensures P (o >>= λ rest. done (p ∷ rest))
    extend id p e n (done rest) c = (
      (
        ids_all-not_head p.id (λ j. has_id j ps) rest
            (ids_all-of (λ j. has_id j ps && not (any (eq_text j) (id ∷ seen)))
              (λ j. has_id j ps && not (eq_text j p.id)) rest
              (λ j k m. rw (e.0) (unfold any in ground arith)) c.1),
        c.0,
      ),
      unfold ids_all in
          ground (
            arith,
            ids_all-of (λ j. has_id j ps && not (any (eq_text j) (id ∷ seen)))
                (λ j. has_id j ps && not (any (eq_text j) seen)) rest
                (λ j k m. unfold any in ground arith) c.1,
          ),
      omega (arith, c.2),
    )
    extend id p e n (failed x) c = tt
    extend id p e n threw c = tt

abbrev pub IsOrdering : List Profile → List Profile → Type 0
IsOrdering ps o =
    DistinctIds o
    × (is_numbered 0 o ≡ true)
    × ((q : Text → Bool) → ids_all q ps ≡ true → ids_all q o ≡ true)
    × ((j : Text) → has_id j o ≡ has_id j ps)

collected-IsOrdering :
    (ps o : List Profile) → IsCollected ps [] (length ps) o → IsOrdering ps (number_from 0 o)
unfolding IsCollected
collected-IsOrdering ps o c =
    let within : ids_all (λ j. has_id j ps) o ≡ true =
      ids_all-of (λ j. has_id j ps && not (any (eq_text j) [])) (λ j. has_id j ps) o
        (λ j k m. unfold any in ground arith) c.1 in
    (
      DistinctIds-number_from 0 o c.0,
      number_from-is_numbered 0 o,
      λ q h.
          ids_all-number_from q 0 o
          ∙ ids_all-of (λ j. has_id j ps) q o (λ j k m. ids_all-at q j ps h m) within,
      λ j.
          has_id-number_from j 0 o
          ∙ iff-eq (has_id j o) (has_id j ps) (ids_all-at (λ i. has_id i ps) j o within)
              (DistinctIds-covers o ps c.0 within c.2 j),
    )
  where
    iff-eq : (a b : Bool) → (a ≡ true → b ≡ true) → (b ≡ true → a ≡ true) → a ≡ b
    iff-eq true b f g = sym (f refl)
    iff-eq false true f g = g refl
    iff-eq false false f g = refl

pub ordering-IsOrdering :
    (ids : Option (List Value)) (ps : List Profile) → Ensures (IsOrdering ps) (ordering ids ps)
unfolding ordering
ordering-IsOrdering none ps = tt
ordering-IsOrdering (some ids) ps =
    >>=-Ensures (IsOrdering ps) (check (length ids == length ps) invalid_input)
      (λ _. collect ps [] ids >>= λ o. done (number_from 0 o))
      λ _ c.
        >>=-Ensures (IsOrdering ps) (collect ps [] ids) (λ o. done (number_from 0 o))
          λ o e. collected-IsOrdering ps o (
            subst (λ (n : ℕ). IsCollected ps [] n o) (ground arith)
              (subst (Ensures (IsCollected ps [] (length ids))) e (collect-IsCollected ps [] ids)))

reordered-IsWellFormed :
    (m : Machine) (o : List Profile)
    → IsOrdering m.store.profiles o
    → IsWellFormed m
    → IsWellFormed (with_store m o m.store.active_id)
unfolding with_store
reordered-IsWellFormed m o c h = record {
  distinct = c.0;
  uuids = c.2 is_profile_id h.uuids;
  numbered = c.1;
  active = is_resolved-same m.store.active_id m.store.profiles o (λ j. c.3 j) h.active;
  homes = c.2 (has_home m.disk.worlds) h.homes;
}
  where
    is_resolved-same :
        (a : Option Text) (ps o : List Profile)
        → ((j : Text) → has_id j o ≡ has_id j ps)
        → is_resolved a ps ≡ true
        → is_resolved a o ≡ true
    is_resolved-same none [] [] s r = unfold is_resolved in refl
    is_resolved-same none [] (p ∷ o) s r =
        unfold has_id in ground (arith, s p.id, eq_text_refl p.id)
    is_resolved-same none (p ∷ ps) o s r = unfold is_resolved in cc
    is_resolved-same (some a) ps o s r = unfold is_resolved in (s a ∙ (unfold is_resolved in r))

pub reordering-Keeps :
    (ids : Option (List Value)) (m : Machine) → IsWellFormed m → Keeps (reordering ids m)
unfolding reordering
reordering-Keeps ids m h =
    >>=-Ensures (λ r. IsWellFormed r.0) (ordering ids m.store.profiles)
      (λ ps. done (with_store m ps m.store.active_id, ps))
      λ o e.
        reordered-IsWellFormed m o
          (subst (Ensures (IsOrdering m.store.profiles)) e
            (ordering-IsOrdering ids m.store.profiles))
          h
