-- ===== src/Hub/Laws.antt =====
-- What the desktop can conclude from the hub's one state.
use misgeret.Base.{
  ◌≡◌, ◌≢◌, ◌↔◌, inl, inr, refl, sym, ◌∙◌, true, List, [], ◌∷◌, ◌++◌, String, arith, All,
  Bool-cases,
}
use misgeret.Operations.{OperationState, idle, shutting_down}
use misgeret.Hub.{
  Member, Hub, init, first_busy, aggregate_from, same_state, publish, recompute, has, add, without,
  remove, set_state, child_emits, Call, adds, emits, removes, step, run,
}

same_state_iff : (a b : OperationState) → (same_state a b ≡ true) ↔ (a ≡ b)
unfolding same_state
same_state_iff a b = ground arith

-- No two reports in a row are equal.
abbrev pub Changes : List OperationState → Type 0
Changes [] = Unit
Changes (a ∷ []) = Unit
Changes (a ∷ b ∷ log) = (a ≢ b) × Changes (b ∷ log)

-- What the listeners know: the last report, or 'idle' before there was one.
abbrev pub last_report : List OperationState → OperationState
last_report [] = idle
last_report (a ∷ log) = a

pub record IsExact (h : Hub) : Type 0 where
  pub aggregated : h.current ≡ aggregate_from idle h.members
  pub reported : last_report h.told ≡ h.current
  pub changes : Changes h.told

-- What holds of the hub before its members changed.
record IsReported (h : Hub) : Type 0 where
  reported : last_report h.told ≡ h.current
  changes : Changes h.told

Changes-cons :
    (a : OperationState) (log : List OperationState)
    → a ≢ last_report log
    → Changes log
    → Changes (a ∷ log)
Changes-cons a [] n h = tt
Changes-cons a (b ∷ log) n h = (n, h)

recompute-IsExact : (h : Hub) → IsReported h → IsExact (recompute h)
unfolding recompute publish
recompute-IsExact h v = elim (Bool-cases (same_state (aggregate_from idle h.members) h.current)) [
  | inl same ↦
      rw (same, recompute)
        (record {
          aggregated = sym ((same_state_iff _ _).0 same);
          reported = v.reported;
          changes = v.changes;
        })
  | inr new ↦
      rw (new, recompute)
        (record {
          aggregated = refl;
          reported = refl;
          changes =
              Changes-cons _ h.told (λ e. cc (new, (same_state_iff _ _).1 (e ∙ v.reported)))
                v.changes;
        })
]

reported : (h : Hub) → IsExact h → IsReported h
reported h v = record { reported = v.reported; changes = v.changes }

IsReported-with : (h : Hub) (ms : List Member) → IsExact h → IsReported (record h { members = ms })
IsReported-with h ms v = record { reported = v.reported; changes = v.changes }

step-IsExact : (h : Hub) (c : Call) → IsExact h → IsExact (step h c)
unfolding step add remove child_emits
step-IsExact h (adds id state) v = elim (Bool-cases (has id h.members)) [
  | inl e ↦ rw e v
  | inr e ↦ rw e (
      recompute-IsExact _ (
        reported _ (
          recompute-IsExact _
            (IsReported-with h (h.members ++ record { id = id; state = state } ∷ []) v))))
]
step-IsExact h (removes id) v = elim (Bool-cases (has id h.members)) [
  | inl e ↦ rw e (recompute-IsExact _ (IsReported-with h (without id h.members) v))
  | inr e ↦ rw e v
]
step-IsExact h (emits id state) v =
    recompute-IsExact _ (IsReported-with h (set_state id state h.members) v)

run-IsExact_from : (h : Hub) (cs : List Call) → IsExact h → IsExact (run h cs)
unfolding run
run-IsExact_from h [] v = v
run-IsExact_from h (c ∷ cs) v = run-IsExact_from (step h c) cs (step-IsExact h c v)

-- Whatever members come, go and change: the hub's state is the aggregate of the members' present
-- states, its listeners were told exactly that state last (or none was told and it is 'idle'), and
-- no listener is told the same state twice in a row.
pub run-IsExact : (cs : List Call) → IsExact (run init cs)
unfolding aggregate_from
run-IsExact cs =
    run-IsExact_from init cs (record { aggregated = refl; reported = refl; changes = tt })

aggregate_from-idle :
    (next : OperationState) (ms : List Member)
    → (aggregate_from next ms ≡ idle) ↔ ((next ≡ idle) × All (λ (m : Member). m.state ≡ idle) ms)
unfolding aggregate_from first_busy
aggregate_from-idle next [] = (λ h. (h, tt), λ h. h.0)
aggregate_from-idle next (m ∷ ms) =
    ground (arith, aggregate_from-idle next ms, aggregate_from-idle m.state ms)

aggregate_from-shutting_down :
    (next : OperationState) (ms : List Member)
    → next ≢ shutting_down
    → (aggregate_from next ms ≢ shutting_down) ↔ All (λ (m : Member). m.state ≢ shutting_down) ms
unfolding aggregate_from first_busy
aggregate_from-shutting_down next [] h = (λ _. tt, λ _. h)
aggregate_from-shutting_down next (m ∷ ms) h =
    ground (arith, aggregate_from-shutting_down next ms, aggregate_from-shutting_down m.state ms)

-- After any calls the hub is 'idle' exactly when every member is, and it is not 'shuttingDown'
-- exactly when no member is.
pub current-run_iff :
    (cs : List Call)
    → (((run init cs).current ≡ idle) ↔ All (λ (m : Member). m.state ≡ idle) (run init cs).members)
      × (((run init cs).current ≢ shutting_down)
          ↔ All (λ (m : Member). m.state ≢ shutting_down) (run init cs).members)
current-run_iff cs = rw (run-IsExact cs).aggregated (
  ((λ h. ((aggregate_from-idle idle _).0 h).1), (λ h. (aggregate_from-idle idle _).1 (refl, h))),
  aggregate_from-shutting_down idle _ (λ e. cc),
)

aggregate_from-append_idle :
    (next : OperationState) (ms : List Member) (id : String)
    → aggregate_from next (ms ++ record { id = id; state = idle } ∷ []) ≡ aggregate_from next ms
unfolding aggregate_from first_busy
aggregate_from-append_idle next [] id = ground arith
aggregate_from-append_idle next (m ∷ ms) id =
    ground (arith, aggregate_from-append_idle next ms id, aggregate_from-append_idle m.state ms id)

same_state_refl : (a b : OperationState) → a ≡ b → same_state a b ≡ true
same_state_refl a b e = (same_state_iff a b).1 e

recompute_same : (h : Hub) → aggregate_from idle h.members ≡ h.current → recompute h ≡ h
unfolding recompute publish
recompute_same h e = rw (same_state_refl (aggregate_from idle h.members) h.current e, recompute)

-- A workspace that is opened while another profile works does not show: adding an idle member to an
-- exact hub reports nothing and leaves its state as it was.
pub add_idle :
    (h : Hub) (id : String)
    → IsExact h
    → ((add id idle h).current ≡ h.current) × ((add id idle h).told ≡ h.told)
unfolding add
add_idle h id v = elim (Bool-cases (has id h.members)) [
  | inl e ↦ rw e (refl, refl)
  | inr e ↦
      let added : Hub = record h { members = h.members ++ record { id = id; state = idle } ∷ [] } in
      let same : recompute added ≡ added =
        recompute_same added (aggregate_from-append_idle idle h.members id ∙ sym v.aggregated) in
      rw (e, same, same) (refl, refl)
]
