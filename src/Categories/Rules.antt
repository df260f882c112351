-- ===== src/Categories/Rules.antt =====
-- The loop of `resolveCategory` (server/src/categories.ts) over the user's rules.
use mathlib.Core.List.{Memᴰ}
use mathlib.Core.Bool.{false≢true}
use misgeret.Base.{
  subst, ◌≤◌, ◌≡◌, ◌⊎◌, refl, sym, Bool, true, false, none, some, List, [], ◌∷◌, any, length, arith,
  ltb, All, Bool-cases, inl, inr,
}
use misgeret.Text.{Text, includes, text_key}
use misgeret.Categories.{CategoryRule, better_rule, best_rule}

abbrev pub matches : Text → CategoryRule → Bool
matches description r = includes description r.pattern

-- The rule is one of the matching ones, and none of them has a longer pattern.
abbrev pub IsLongest : Text → List CategoryRule → CategoryRule → Type 0
IsLongest description rules r =
    (matches description r ≡ true)
    × Memᴰ r rules
    × All (λ (q : CategoryRule). matches description q ≡ true → length q.pattern ≤ length r.pattern)
        rules

-- The same of the rules behind the best one so far.
IsBest : Text → List CategoryRule → CategoryRule → CategoryRule → Type 0
IsBest description rules best r =
    (length best.pattern ≤ length r.pattern)
    × ((r ≡ best) ⊎ (Memᴰ r rules × (matches description r ≡ true)))
    × All (λ (q : CategoryRule). matches description q ≡ true → length q.pattern ≤ length r.pattern)
        rules

best_rule-some :
    (description : Text) (best : CategoryRule) (rules : List CategoryRule)
    → (r : CategoryRule) × (best_rule description (some best) rules ≡ some r)
      × IsBest description rules best r
unfolding best_rule better_rule IsBest
best_rule-some description best [] = (best, refl, (omega arith, inl refl, tt))
best_rule-some description best (q ∷ rules) = elim (Bool-cases (includes description q.pattern)) [
  | inr e ↦
      let (r, found, (long, from, rest)) = best_rule-some description best rules in
      rw e (r, found, (long, later q from, (λ h. absurd (false≢true h), rest)))
  | inl e ↦ elim (Bool-cases (ltb (length best.pattern) (length q.pattern))) [
    | inr short ↦
        let (r, found, (long, from, rest)) = best_rule-some description best rules in
        rw (e, short) (r, found, (long, later q from, (λ h. ground arith, rest)))
    | inl more ↦
        let (r, found, (long, from, rest)) = best_rule-some description q rules in
        rw (e, more) (r, found, (ground arith, inr (here e from), (λ h. long, rest)))
  ]
]
  where
    later :
        {b r : CategoryRule}
        → (q : CategoryRule) → ((r ≡ b) ⊎ (Memᴰ r rules × (matches description r ≡ true)))
        → (r ≡ b) ⊎ (Memᴰ r (q ∷ rules) × (matches description r ≡ true))
    later q (inl same) = inl same
    later q (inr (m, h)) = inr (Memᴰ.tail m, h)

    here :
        {r : CategoryRule}
        → matches description q ≡ true
        → ((r ≡ q) ⊎ (Memᴰ r rules × (matches description r ≡ true)))
        → Memᴰ r (q ∷ rules) × (matches description r ≡ true)
    here h (inl same) = (Memᴰ.head same, subst (λ z. matches description z ≡ true) (sym same) h)
    here h (inr (m, g)) = (Memᴰ.tail m, g)

pub best_rule-none :
    (description : Text) (rules : List CategoryRule)
    → ((any (matches description) rules ≡ false) × (best_rule description none rules ≡ none))
      ⊎ ((any (matches description) rules ≡ true)
          × ((r : CategoryRule) × (best_rule description none rules ≡ some r)
              × IsLongest description rules r))
unfolding best_rule better_rule any IsBest
best_rule-none description [] = inl (refl, refl)
best_rule-none description (q ∷ rules) = elim (Bool-cases (includes description q.pattern)) [
  | inr e ↦ later e (best_rule-none description rules)
  | inl e ↦
      let (r, found, (long, from, rest)) = best_rule-some description q rules in
      rw e (inr (refl, (r, found, ((here e from).1, (here e from).0, (λ h. long, rest)))))
]
  where
    later :
        includes description q.pattern ≡ false
        → ((any (matches description) rules ≡ false) × (best_rule description none rules ≡ none))
          ⊎ ((any (matches description) rules ≡ true)
              × ((r : CategoryRule) × (best_rule description none rules ≡ some r)
                  × IsLongest description rules r))
        → ((any (matches description) (q ∷ rules) ≡ false)
            × (best_rule description none (q ∷ rules) ≡ none))
          ⊎ ((any (matches description) (q ∷ rules) ≡ true)
              × ((r : CategoryRule) × (best_rule description none (q ∷ rules) ≡ some r)
                  × IsLongest description (q ∷ rules) r))
    later e (inl (a, b)) = rw e (inl (a, b))
    later e (inr (a, (r, found, (m, within, rest)))) =
        rw e (inr (a, (r, found, (m, Memᴰ.tail within, (λ h. absurd (false≢true h), rest)))))

    here :
        {r : CategoryRule}
        → matches description q ≡ true
        → ((r ≡ q) ⊎ (Memᴰ r rules × (matches description r ≡ true)))
        → Memᴰ r (q ∷ rules) × (matches description r ≡ true)
    here h (inl same) = (Memᴰ.head same, subst (λ z. matches description z ≡ true) (sym same) h)
    here h (inr (m, g)) = (Memᴰ.tail m, g)
