-- ===== src/Semaphore/Laws.antt =====
-- The scrape semaphore bounds the scrapes, never idles a permit while a request waits, and is fair.
use mathlib.Core.List.{append_assoc, append-nil}
use native.Mathlib.Numerals.{add-one}
use misgeret.Base.{
  ℕ, zero, suc, ◌+◌, ◌≡◌, refl, sym, ◌∙◌, ap, ◌⊎◌, inl, inr, true, false, List, [], ◌∷◌, ◌++◌,
  arith, ltb, ◌==◌, length, Bool-cases, ltb→lt,
}
use misgeret.Semaphore.{
  Semaphore, create, give, acquire, is_listed, erase, pass_on, release, Call, acquires, releases,
  step, run,
}

-- 0, 1, ..., n - 1: the requests in the order of their arrival.
unfoldable pub upto : ℕ → List ℕ
upto zero = []
upto (suc n) = upto n ++ n ∷ []

pub record IsFair (limit : ℕ) (s : Semaphore) : Type 0 where
  pub bounded : length s.holders + s.available ≡ limit
  pub no_idle_permit : (s.waiting ≡ []) ⊎ (s.available ≡ 0)
  pub in_order : s.admitted ++ s.waiting ≡ upto s.arrived

length-erase : (i : ℕ) (js : List ℕ) → is_listed i js ≡ true → length (erase i js) + 1 ≡ length js
unfolding is_listed erase
length-erase i [] h = cc
length-erase i (j ∷ js) h = elim (Bool-cases (i == j)) [
  | inl e ↦ rw e (omega arith)
  | inr e ↦ rw e (omega (arith, length-erase i js (ground arith)))
]

upto-add_one : (n : ℕ) → upto (n + 1) ≡ upto n ++ n ∷ []
unfolding upto
upto-add_one n = rw add-one

module _ (limit : ℕ) (s : Semaphore) (v : IsFair limit s) where
  arrive : (xs : List ℕ) → xs ≡ upto s.arrived → xs ++ s.arrived ∷ [] ≡ upto (s.arrived + 1)
  arrive xs e = ap (λ ys. ys ++ s.arrived ∷ []) e ∙ sym (upto-add_one s.arrived)

  nobody_waits : ltb 0 s.available ≡ true → s.waiting ≡ []
  nobody_waits free = none_waiting v.no_idle_permit
    where
      none_waiting : (s.waiting ≡ []) ⊎ (s.available ≡ 0) → s.waiting ≡ []
      none_waiting (inl e) = e
      none_waiting (inr e) = absurd (omega (arith, ltb→lt 0 s.available free))

  all_admitted : s.waiting ≡ [] → s.admitted ≡ upto s.arrived
  all_admitted e = sym (append-nil s.admitted) ∙ ap (◌++◌ s.admitted) (sym e) ∙ v.in_order

  acquire-IsFair : IsFair limit (acquire s)
  unfolding acquire give
  acquire-IsFair = elim (Bool-cases (ltb 0 s.available)) [
    | inl free ↦
        rw (free, acquire)
          (record {
            bounded = omega (arith, v.bounded, ltb→lt 0 s.available free);
            no_idle_permit = inl (nobody_waits free);
            in_order =
                ap (◌++◌ (s.admitted ++ s.arrived ∷ [])) (nobody_waits free)
                ∙ append-nil _
                ∙ arrive s.admitted (all_admitted (nobody_waits free));
          })
    | inr full ↦
        rw (full, acquire)
          (record {
            bounded = v.bounded;
            no_idle_permit = inr (ground arith);
            in_order =
                sym (append_assoc s.admitted s.waiting (s.arrived ∷ []))
                ∙ arrive (s.admitted ++ s.waiting) v.in_order;
          })
  ]

  pass_on-IsFair :
      (i : ℕ) (ws : List ℕ)
      → is_listed i s.holders ≡ true
      → s.waiting ≡ ws
      → IsFair limit (pass_on ws (record s { holders = erase i s.holders }))
  unfolding pass_on give
  pass_on-IsFair i [] held e = record {
    bounded = omega (arith, v.bounded, length-erase i s.holders held);
    no_idle_permit = inl e;
    in_order = v.in_order;
  }
  pass_on-IsFair i (w ∷ ws) held e = record {
    bounded = omega (arith, v.bounded, length-erase i s.holders held);
    no_idle_permit = inr (all_given v.no_idle_permit);
    in_order = append_assoc s.admitted (w ∷ []) ws ∙ ap (◌++◌ s.admitted) (sym e) ∙ v.in_order;
  }
    where
      all_given : (s.waiting ≡ []) ⊎ (s.available ≡ 0) → s.available ≡ 0
      all_given (inl p) = cc
      all_given (inr p) = p

  release-IsFair : (i : ℕ) → IsFair limit (release s i)
  unfolding release
  release-IsFair i = elim (Bool-cases (is_listed i s.holders)) [
    | inl held ↦ rw (held, release) (pass_on-IsFair i s.waiting held refl)
    | inr gone ↦ rw (gone, release) v
  ]

step-IsFair : (limit : ℕ) (s : Semaphore) (c : Call) → IsFair limit s → IsFair limit (step s c)
unfolding step
step-IsFair limit s acquires v = acquire-IsFair limit s v
step-IsFair limit s (releases i) v = release-IsFair limit s v i

run-IsFair_from :
    (limit : ℕ) (s : Semaphore) (cs : List Call) → IsFair limit s → IsFair limit (run s cs)
unfolding run
run-IsFair_from limit s [] v = v
run-IsFair_from limit s (c ∷ cs) v = run-IsFair_from limit (step s c) cs (step-IsFair limit s c v)

-- Whatever requests and releases follow the creation: the permits held and the permits left add up
-- to the limit, a request waits only while no permit is left, and the requests are admitted in the
-- order in which they arrived.
pub run-IsFair : (limit : ℕ) (cs : List Call) → IsFair limit (run (create limit) cs)
unfolding upto
run-IsFair limit cs =
    run-IsFair_from limit (create limit) cs
      (record { bounded = omega arith; no_idle_permit = inl refl; in_order = refl })

-- Releasing the permit of a request that holds none, as by calling its `once` again, does nothing.
pub release_unheld : (s : Semaphore) (i : ℕ) → is_listed i s.holders ≡ false → release s i ≡ s
unfolding release
release_unheld s i h = ground arith

-- A release of a held permit, while a request waits, gives it to the one that waits longest, and
-- leaves the number of free permits as it was.
pub release_hands_over :
    (s : Semaphore) (i w : ℕ) (ws : List ℕ)
    → is_listed i s.holders ≡ true
    → s.waiting ≡ w ∷ ws
    → ((release s i).holders ≡ w ∷ erase i s.holders)
      × ((release s i).waiting ≡ ws)
      × ((release s i).available ≡ s.available)
unfolding release pass_on give
release_hands_over s i w ws held e = ground arith
