-- ===== src/RuntimeManager/Settling.antt =====
-- The promises of `start` of `RuntimeManager` (desktop/src/runtime-manager.ts).
use misgeret.Base.{
  ℕ, ◌+◌, ◌≡◌, ◌≢◌, refl, ◌∙◌, Bool, true, false, Option, none, some, List, [], ◌∷◌, all, leb, ltb,
  ◌==◌, if◌then◌else◌, Bool-cases, Option-cases, inl, inr, arith, ℤ, pos, negsuc,
}
use misgeret.RuntimeManager.{
  RuntimeManager, Start, Outcome, Message, Event, init, start, settle_one, settle, is_settled,
  settle_error, is_stopping, report, on_message, on_exit, stop, shutdown_times_out, forget,
  record_open_workspace_count, take_restart_allowance, step, run, or_same, starts_up, stops,
  restarts, sends, exits, fails, startup_expires, shutdown_expires, state_message, ready,
  error_message, stopped, unknown, started, runtime_timeout, utility_fatal, runtime_early_exit,
  startup_error,
}

-- What the promise of the start of child `c` was settled with, if it was.
abbrev pub outcome_of : ℕ → List Start → Option Outcome
outcome_of c [] = none
outcome_of c (s ∷ ss) = if s.child == c then s.outcome else outcome_of c ss

abbrev pub all_below : ℕ → List Start → Bool
all_below n ss = all (λ s. ltb s.child n) ss

-- What no event undoes: the outcomes, and that forked children have smaller numbers.
abbrev IsKeeping : RuntimeManager → RuntimeManager → Type 0
IsKeeping m n =
    ((c : ℕ) (o : Outcome) → outcome_of c m.starts ≡ some o → outcome_of c n.starts ≡ some o)
    × (all_below n.forked n.starts ≡ true)

child-settle_one : (d : ℕ) (p : Outcome) (s : Start) → (settle_one d p s).child ≡ s.child
unfolding settle_one
child-settle_one d p s = elim (Bool-cases (s.child == d)) [
  | inr e ↦ rw (e, settle_one) refl
  | inl e ↦ elim (Option-cases s.outcome) [
    | inl f ↦ rw (e, settle_one, f) refl
    | inr (q, f) ↦ rw (e, settle_one, f) refl
  ]
]

outcome-settle_one :
    (d : ℕ) (p o : Outcome) (s : Start) → s.outcome ≡ some o → (settle_one d p s).outcome ≡ some o
unfolding settle_one
outcome-settle_one d p o s h = elim (Bool-cases (s.child == d)) [
  | inr e ↦ rw (e, settle_one) h
  | inl e ↦ rw (e, settle_one, h) h
]

outcome_of-settle :
    (c d : ℕ) (p o : Outcome) (ss : List Start)
    → outcome_of c ss ≡ some o
    → outcome_of c (settle d p ss) ≡ some o
unfolding settle
outcome_of-settle c d p o [] h = h
outcome_of-settle c d p o (s ∷ ss) h =
    ground (arith, child-settle_one d p s, outcome-settle_one d p o s, outcome_of-settle c d p o ss)

all_below-settle :
    (n d : ℕ) (p : Outcome) (ss : List Start) → all_below n (settle d p ss) ≡ all_below n ss
unfolding settle all
all_below-settle n d p [] = refl
all_below-settle n d p (s ∷ ss) = rw (child-settle_one d p s, all_below-settle n d p ss) refl

outcome_of-above :
    (n c : ℕ) (o : Outcome) (ss : List Start)
    → all_below n ss ≡ true
    → outcome_of c ss ≡ some o
    → (n == c) ≡ false
unfolding all
outcome_of-above n c o [] b h = absurd (none≢some h)
  where
    none≢some : none ≢ some o
    none≢some z = cc
outcome_of-above n c o (s ∷ ss) b h = elim (Bool-cases (s.child == c)) [
  | inl e ↦ ground arith
  | inr e ↦ outcome_of-above n c o ss (ground arith) (ground arith)
]

all_below_mono : (n : ℕ) (ss : List Start) → all_below n ss ≡ true → all_below (n + 1) ss ≡ true
unfolding all
all_below_mono n [] h = refl
all_below_mono n (s ∷ ss) h = ground (arith, all_below_mono n ss)

IsKeeping-settled :
    (d : ℕ) (p : Outcome) (m : RuntimeManager)
    → all_below m.forked m.starts ≡ true
    → IsKeeping m (record m { starts = settle d p m.starts })
IsKeeping-settled d p m b =
    ((λ c o h. outcome_of-settle c d p o m.starts h), all_below-settle m.forked d p m.starts ∙ b)

IsKeeping-settle_error :
    (d : ℕ) (p : Outcome) (m : RuntimeManager)
    → all_below m.forked m.starts ≡ true
    → IsKeeping m (settle_error d p m)
unfolding settle_error
IsKeeping-settle_error d p m b = elim (Bool-cases (is_settled d m.starts)) [
  | inl e ↦ rw e ((λ c o h. h), b)
  | inr e ↦ rw e (IsKeeping-settled d p m b)
]

IsKeeping-start :
    (m : RuntimeManager) → all_below m.forked m.starts ≡ true → IsKeeping m (or_same m (start m))
unfolding or_same start all
IsKeeping-start m b = elim (Option-cases m.child) [
  | inr (d, e) ↦ rw (e, start) ((λ c o h. h), b)
  | inl e ↦
      rw (e, start)
        (
          (λ c o h. rw (outcome_of-above m.forked c o m.starts b h) h),
          ground (arith, all_below_mono m.forked m.starts),
        )
]

count_keeps :
    (count : Option ℤ) (m : RuntimeManager)
    → ((record_open_workspace_count count m).starts ≡ m.starts)
      × ((record_open_workspace_count count m).forked ≡ m.forked)
unfolding record_open_workspace_count
count_keeps none m = (refl, refl)
count_keeps (some (pos n)) m = (refl, refl)
count_keeps (some (negsuc n)) m = (refl, refl)

IsKeeping-on_message :
    (d : ℕ) (msg : Message) (m : RuntimeManager)
    → all_below m.forked m.starts ≡ true
    → IsKeeping m (on_message d msg m)
unfolding on_message report
IsKeeping-on_message d (state_message st count) m b =
    rw
      (
        (count_keeps count (record m { state = st })).0,
        (count_keeps count (record m { state = st })).1,
      )
      ((λ c o h. h), b)
IsKeeping-on_message d (ready st count origin) m b =
    rw
      (
        (count_keeps count (record m { state = st })).0,
        (count_keeps count (record m { state = st })).1,
      )
      (IsKeeping-settled d (started origin) m b)
IsKeeping-on_message d (error_message true code) m b =
    IsKeeping-settle_error d (startup_error code) (record m { reports = _ }) b
IsKeeping-on_message d (error_message false code) m b = ((λ c o h. h), b)
IsKeeping-on_message d stopped m b = ((λ c o h. h), b)
IsKeeping-on_message d unknown m b = ((λ c o h. h), b)

IsKeeping-step :
    (m : RuntimeManager) (e : Event) → all_below m.forked m.starts ≡ true → IsKeeping m (step m e)
unfolding step stop take_restart_allowance on_exit report shutdown_times_out
IsKeeping-step m starts_up b = IsKeeping-start m b
IsKeeping-step m stops b = elim (Option-cases m.child) [
  | inl e ↦ rw (e, stop) ((λ c o h. h), b)
  | inr (d, e) ↦ rw (e, stop) ((λ c o h. h), b)
]
IsKeeping-step m restarts b = elim (Bool-cases (leb m.restart_allowance 0)) [
  | inl e ↦ rw (e, step, take_restart_allowance) ((λ c o h. h), b)
  | inr e ↦ rw (e, step, take_restart_allowance) ((λ c o h. h), b)
]
IsKeeping-step m (sends d msg) b = IsKeeping-on_message d msg m b
IsKeeping-step m (exits d) b =
    IsKeeping-settle_error d runtime_early_exit (record m { child = forget d m.child }) b
IsKeeping-step m (fails d) b = IsKeeping-settle_error d utility_fatal m b
IsKeeping-step m (startup_expires d) b = IsKeeping-settle_error d runtime_timeout m b
IsKeeping-step m (shutdown_expires d) b = elim (Bool-cases (is_stopping d m.stops)) [
  | inl e ↦ rw e ((λ c o h. h), b)
  | inr e ↦ rw e ((λ c o h. h), b)
]

IsKeeping-run :
    (m : RuntimeManager) (es : List Event)
    → all_below m.forked m.starts ≡ true
    → IsKeeping m (run m es)
unfolding run
IsKeeping-run m [] b = ((λ c o h. h), b)
IsKeeping-run m (e ∷ es) b = (
  (λ c o h.
      (IsKeeping-run (step m e) es (IsKeeping-step m e b).1).0 c o
        ((IsKeeping-step m e b).0 c o h)),
  (IsKeeping-run (step m e) es (IsKeeping-step m e b).1).1,
)

-- Whatever happens to the children, a promise of `start` that is settled keeps its outcome.
pub run-outcome_of :
    (es fs : List Event) (c : ℕ) (o : Outcome)
    → outcome_of c (run init es).starts ≡ some o
    → outcome_of c (run (run init es) fs).starts ≡ some o
unfolding all
run-outcome_of es fs c o h = (IsKeeping-run (run init es) fs (IsKeeping-run init es refl).1).0 c o h
