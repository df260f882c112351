-- ===== src/Profiles/Unique.antt =====
-- The names of profiles, server/src/profiles.ts, and the lists that the operations make of them.
use mathlib.Core.List.{Memᴰ}
use misgeret.Base.{
  ℕ, suc, ◌≡◌, refl, sym, ap, ◌∙◌, arith, false, not, Option, none, some, List, [], ◌∷◌, any, All,
  mem-All, Bool-cases, inl, inr,
}
use misgeret.Text.{Text, eq_text, eq_text_iff}
use misgeret.Profiles.{
  Profile, invalid_input, Outcome, done, failed, threw, check, ◌>>=◌, Value, string,
}
use misgeret.Profiles.Free.{is_clash, name_taken}
use misgeret.Profiles.Changes.{as_id, collect}
use misgeret.Profiles.Keeping.{Ensures, >>=-Ensures}
use misgeret.Profiles.Members.{
  find_id, get as get_profile, or_not_found, require, change_id, remove_id, number_from,
}

-- Whose id and name a profile has.
abbrev pub Same : List Profile → Profile → Type 0
Same ps q = (p : Profile) × Memᴰ p ps × (q.id ≡ p.id) × (q.name ≡ p.name)

-- Each profile has the id and the name of one of the others.
abbrev pub IsWithin : List Profile → List Profile → Type 0
IsWithin ps o = All (Same ps) o

Same-tail : (p q : Profile) (ps : List Profile) → Same ps q → Same (p ∷ ps) q
Same-tail p q ps s = (s.0, Memᴰ.tail s.1, s.2, s.3)

IsWithin-tail : (p : Profile) (ps o : List Profile) → IsWithin ps o → IsWithin (p ∷ ps) o
IsWithin-tail p ps [] h = tt
IsWithin-tail p ps (q ∷ o) h = (Same-tail p q ps h.0, IsWithin-tail p ps o h.1)

pub number_from-IsWithin :
    (i : ℕ) (ps o : List Profile) → IsWithin ps o → IsWithin ps (number_from i o)
unfolding number_from
number_from-IsWithin i ps [] h = tt
number_from-IsWithin i ps (q ∷ o) h = (h.0, number_from-IsWithin (suc i) ps o h.1)

pub remove_id-IsWithin : (id : Text) (ps : List Profile) → IsWithin ps (remove_id id ps)
unfolding remove_id
remove_id-IsWithin id [] = tt
remove_id-IsWithin id (p ∷ ps) = elim (Bool-cases (eq_text p.id id)) [
  | inl e ↦ rw e (IsWithin-tail p ps (remove_id id ps) (remove_id-IsWithin id ps))
  | inr e ↦ rw e (
    (p, Memᴰ.head refl, refl, refl),
    IsWithin-tail p ps (remove_id id ps) (remove_id-IsWithin id ps),
  )
]

Same-self : (p : Profile) (ps : List Profile) → Memᴰ p ps → Same ps p
Same-self p ps m = (p, m, refl, refl)

pub self-IsWithin : (ps : List Profile) → IsWithin ps ps
self-IsWithin [] = tt
self-IsWithin (p ∷ ps) = ((p, Memᴰ.head refl, refl, refl), IsWithin-tail p ps ps (self-IsWithin ps))

find_id-mem :
    (id : Text) (ps : List Profile) (p : Profile) → find_id id ps ≡ some p → Memᴰ p ps × (p.id ≡ id)
unfolding find_id
find_id-mem id [] p h = cc
find_id-mem id (r ∷ ps) p h = elim (Bool-cases (eq_text r.id id)) [
  | inl e ↦
      let q : r ≡ p = ground arith in
      (Memᴰ.head (sym q), ap (λ (x : Profile). x.id) (sym q) ∙ (eq_text_iff r.id id).0 e)
  | inr e ↦ let ih = find_id-mem id ps p (ground arith) in (Memᴰ.tail ih.0, ih.1)
]

pub require-mem :
    (id : Text) (ps : List Profile) (p : Profile)
    → require (string id) ps ≡ done p
    → Memᴰ p ps × (p.id ≡ id)
unfolding require or_not_found get_profile
require-mem id ps p r = found (find_id id ps) refl (ground arith)
  where
    found : (o : Option Profile) → find_id id ps ≡ o → o ≡ some p → Memᴰ p ps × (p.id ≡ id)
    found o k e = find_id-mem id ps p (k ∙ e)

pub collect-IsWithin :
    (ps : List Profile) (seen : List Text) (vs : List Value)
    → Ensures (IsWithin ps) (collect ps seen vs)
unfolding collect
collect-IsWithin ps seen [] = tt
collect-IsWithin ps seen (v ∷ vs) = >>=-Ensures (IsWithin ps) (as_id v) _ λ id _.
    >>=-Ensures (IsWithin ps) (check (not (any (eq_text id) seen)) invalid_input) _ λ _ _.
      >>=-Ensures (IsWithin ps) (require (string id) ps) _ λ p r.
        extend p (Same-self p ps (require-mem id ps p r).0) (collect ps (id ∷ seen) vs)
          (collect-IsWithin ps (id ∷ seen) vs)
  where
    extend :
        (p : Profile)
        → Same ps p
        → (o : Outcome (List Profile)) → Ensures (IsWithin ps) o
        → Ensures (IsWithin ps) (o >>= λ rest. done (p ∷ rest))
    extend p s (done rest) h = (s, h)
    extend p s (failed e) h = tt
    extend p s threw h = tt

pub change_id-IsWithin :
    (f : Profile → Profile)
    → ((p : Profile) → ((f p).id ≡ p.id) × ((f p).name ≡ p.name))
    → (id : Text) (ps : List Profile) → IsWithin ps (change_id id f ps)
unfolding change_id
change_id-IsWithin f k id [] = tt
change_id-IsWithin f k id (p ∷ ps) = elim (Bool-cases (eq_text p.id id)) [
  | inl e ↦ rw e ((p, Memᴰ.head refl, (k p).0, (k p).1), IsWithin-tail p ps ps (self-IsWithin ps))
  | inr e ↦ rw e (
    (p, Memᴰ.head refl, refl, refl),
    IsWithin-tail p ps (change_id id f ps) (change_id-IsWithin f k id ps),
  )
]

module _ (fold : Text → Text) where
  -- Profiles whose names differ by case at most are one profile.
  abbrev pub IsUnique : List Profile → Type 0
  IsUnique ps = (p q : Profile) → Memᴰ p ps → Memᴰ q ps → fold p.name ≡ fold q.name → p.id ≡ q.id

  pub within-IsUnique : (ps o : List Profile) → IsWithin ps o → IsUnique ps → IsUnique o
  within-IsUnique ps o w u p q mp mq e =
      let sp = mem-All (Same ps) w mp in
      let sq = mem-All (Same ps) w mq in
      sp.2 ∙ u sp.0 sq.0 sp.1 sq.1 (ap fold (sym sp.3) ∙ e ∙ ap fold sq.3) ∙ sym sq.2

  -- A name that is not taken is no other profile's.
  pub name_taken-mem :
      (name : Text) (ps : List Profile)
      → name_taken fold name none ps ≡ false
      → (p : Profile) → Memᴰ p ps
      → eq_text (fold p.name) (fold name) ≡ false
  unfolding name_taken is_clash any
  name_taken-mem name [] h p m = elim m [ ]
  name_taken-mem name (r ∷ ps) h p (Memᴰ.head e) = rw e (ground arith)
  name_taken-mem name (r ∷ ps) h p (Memᴰ.tail m) = name_taken-mem name ps (ground arith) p m

  pub name_taken-mem_other :
      (name id : Text) (ps : List Profile)
      → name_taken fold name (some id) ps ≡ false
      → (p : Profile) → Memᴰ p ps
      → fold p.name ≡ fold name
      → p.id ≡ id
  unfolding name_taken is_clash any
  name_taken-mem_other name id [] h p m k = elim m [ ]
  name_taken-mem_other name id (r ∷ ps) h p (Memᴰ.head e) k = rw e (
      ground (
        arith,
        eq_text_iff r.id id,
        eq_text_iff (fold r.name) (fold name),
        ap (λ (x : Profile). fold x.name) e,
      ))
  name_taken-mem_other name id (r ∷ ps) h p (Memᴰ.tail m) k =
      name_taken-mem_other name id ps (ground arith) p m k
