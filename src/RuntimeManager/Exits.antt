-- ===== src/RuntimeManager/Exits.antt =====
-- What the exit of a child leaves of `RuntimeManager` (desktop/src/runtime-manager.ts), and how often
-- it may be started again.
use misgeret.Base.{
  ℕ, ◌+◌, ◌≤◌, ◌≡◌, ◌≢◌, refl, sym, ap, ◌∙◌, Bool, true, false, Option, none, some, List, [], ◌∷◌,
  any, leb, ◌==◌, if◌then◌else◌, Bool-cases, Option-cases, inl, inr, arith, ℤ, pos, negsuc,
}
use misgeret.RuntimeManager.{
  RuntimeManager, Start, Stop, Outcome, Message, Event, init, start, settle_one, settle, is_settled,
  settle_error, finish_stops, is_stopping, report, on_message, on_exit, stop, shutdown_times_out,
  forget, record_open_workspace_count, take_restart_allowance, step, run, or_same, starts_up, stops,
  restarts, sends, exits, fails, startup_expires, shutdown_expires, state_message, ready,
  error_message, stopped, unknown, runtime_early_exit, utility_fatal, runtime_timeout,
}

is_settled-settle : (c : ℕ) (o : Outcome) (ss : List Start) → is_settled c (settle c o ss) ≡ true
unfolding is_settled settle settle_one
is_settled-settle c o [] = refl
is_settled-settle c o (s ∷ ss) = elim (Bool-cases (s.child == c)) [
  | inr e ↦ rw (e, is_settled, settle_one) (rw e (is_settled-settle c o ss))
  | inl e ↦ elim (Option-cases s.outcome) [
    | inl f ↦ rw (e, is_settled, settle_one, f) (rw e refl)
    | inr (q, f) ↦ rw (e, is_settled, settle_one, f) (rw (e, f) refl)
  ]
]

is_settled-settle_error :
    (c : ℕ) (o : Outcome) (m : RuntimeManager) → is_settled c (settle_error c o m).starts ≡ true
unfolding settle_error
is_settled-settle_error c o m = elim (Bool-cases (is_settled c m.starts)) [
  | inl e ↦ rw e e
  | inr e ↦ rw e (is_settled-settle c o m.starts)
]

child-settle_error :
    (c : ℕ) (o : Outcome) (m : RuntimeManager) → (settle_error c o m).child ≡ m.child
unfolding settle_error
child-settle_error c o m = elim (Bool-cases (is_settled c m.starts)) [
  | inl e ↦ rw e refl
  | inr e ↦ rw e refl
]

is_stopping-finish_stops : (c : ℕ) (ss : List Stop) → is_stopping c (finish_stops c ss) ≡ false
unfolding is_stopping finish_stops any
is_stopping-finish_stops c [] = refl
is_stopping-finish_stops c (s ∷ ss) = elim (Bool-cases (s.child == c)) [
  | inl e ↦ rw e (ground (arith, is_stopping-finish_stops c ss))
  | inr e ↦ rw e (ground (arith, is_stopping-finish_stops c ss))
]

forget-other : (c : ℕ) (o : Option ℕ) → forget c o ≢ some c
unfolding forget
forget-other c none e = absurd (vain e)
  where
    vain : none ≢ some c
    vain z = cc
forget-other c (some d) e = by_case (d == c) refl e
  where
    same : some d ≡ some c → d ≡ c
    same z = cc

    vain : none ≢ some c
    vain z = cc

    by_case : (b : Bool) → (d == c) ≡ b → (if b then none else some d) ≡ some c → ⊥
    by_case true t z = vain z
    by_case false t z = ground (arith, same z)

-- After the exit of a child its start is settled, every stop that waited for it is resolved, and it is
-- not the child of the manager any more; a child that was started since then stays.
pub on_exit_lem :
    (c : ℕ) (m : RuntimeManager)
    → (is_settled c (on_exit c m).starts ≡ true)
      × (is_stopping c (on_exit c m).stops ≡ false)
      × ((on_exit c m).child ≢ some c)
      × (m.child ≢ some c → (on_exit c m).child ≡ m.child)
unfolding on_exit report
on_exit_lem c m = (
  is_settled-settle_error c runtime_early_exit (record m { child = forget c m.child }),
  is_stopping-finish_stops c _,
  (λ e.
      forget-other c m.child (
        sym (child-settle_error c runtime_early_exit (record m { child = forget c m.child })) ∙ e)),
  (λ n.
      child-settle_error c runtime_early_exit (record m { child = forget c m.child })
      ∙ stays m.child n),
)
  where
    stays : (o : Option ℕ) → o ≢ some c → forget c o ≡ o
    stays none n = refl
    stays (some d) n = elim (Bool-cases (d == c)) [
      | inl t ↦ absurd (n (ap some (same t)))
      | inr t ↦ rw t refl
    ]
      where
        same : (d == c) ≡ true → d ≡ c
        same t = ground arith

-- How many of the events take a restart.
abbrev pub restarts_taken : RuntimeManager → List Event → ℕ
restarts_taken m [] = 0
restarts_taken m (e ∷ es) =
    elim e [ restarts ↦ if (take_restart_allowance m).1 then 1 else 0 | _ ↦ 0 ]
    + restarts_taken (step m e) es

allowance-settle_error :
    (c : ℕ) (o : Outcome) (m : RuntimeManager)
    → (settle_error c o m).restart_allowance ≡ m.restart_allowance
unfolding settle_error
allowance-settle_error c o m = elim (Bool-cases (is_settled c m.starts)) [
  | inl e ↦ rw e refl
  | inr e ↦ rw e refl
]

allowance-count :
    (count : Option ℤ) (m : RuntimeManager)
    → (record_open_workspace_count count m).restart_allowance ≡ m.restart_allowance
unfolding record_open_workspace_count
allowance-count none m = refl
allowance-count (some (pos n)) m = refl
allowance-count (some (negsuc n)) m = refl

allowance-on_message :
    (c : ℕ) (msg : Message) (m : RuntimeManager)
    → (on_message c msg m).restart_allowance ≡ m.restart_allowance
unfolding on_message report
allowance-on_message c (state_message st count) m = allowance-count count (record m { state = st })
allowance-on_message c (ready st count origin) m = allowance-count count (record m { state = st })
allowance-on_message c (error_message true code) m = search (allowance-settle_error)
allowance-on_message c (error_message false code) m = refl
allowance-on_message c stopped m = refl
allowance-on_message c unknown m = refl

taken-step :
    (m : RuntimeManager) (e : Event)
    → elim e [ restarts ↦ if (take_restart_allowance m).1 then 1 else 0 | _ ↦ 0 ]
        + (step m e).restart_allowance
      ≡ m.restart_allowance
unfolding step start stop or_same take_restart_allowance on_exit report shutdown_times_out
taken-step m starts_up = elim (Option-cases m.child) [
  | inl e ↦ rw (e, step, start) (omega arith)
  | inr (d, e) ↦ rw (e, step, start) (omega arith)
]
taken-step m stops = elim (Option-cases m.child) [
  | inl e ↦ rw (e, step, stop) (omega arith)
  | inr (d, e) ↦ rw (e, step, stop) (omega arith)
]
taken-step m restarts = elim (Bool-cases (leb m.restart_allowance 0)) [
  | inl e ↦ rw (e, step, take_restart_allowance) (omega arith)
  | inr e ↦ rw (e, step, take_restart_allowance) (ground arith)
]
taken-step m (sends c msg) = omega (arith, allowance-on_message c msg m)
taken-step m (exits c) =
    omega
      (arith, allowance-settle_error c runtime_early_exit (record m { child = forget c m.child }))
taken-step m (fails c) = omega (arith, allowance-settle_error c utility_fatal m)
taken-step m (startup_expires c) = omega (arith, allowance-settle_error c runtime_timeout m)
taken-step m (shutdown_expires c) = elim (Bool-cases (is_stopping c m.stops)) [
  | inl e ↦ rw e (omega arith)
  | inr e ↦ rw e (omega arith)
]

restarts_taken-allowance :
    (m : RuntimeManager) (es : List Event)
    → restarts_taken m es + (run m es).restart_allowance ≡ m.restart_allowance
unfolding run
restarts_taken-allowance m [] = omega arith
restarts_taken-allowance m (e ∷ es) =
    omega (arith, taken-step m e, restarts_taken-allowance (step m e) es)

-- Over the life of the manager, whatever happens, at most one restart is allowed.
pub restarts_taken-init : (es : List Event) → restarts_taken init es ≤ 1
restarts_taken-init es = omega (arith, restarts_taken-allowance init es)
