-- ===== src/Tests/Operations.antt =====
-- Concrete runs of the operation coordinator.
use misgeret.Base.{◌≡◌, ◌≢◌, ◌↔◌, false, none, [], ◌∷◌}
use misgeret.Operations.{
  syncing, backing_up, restoring, shutting_down, Coordinator, init, state, try_begin,
  begin_shutdown, begins, releases, waits, shuts, subscribes, step, run,
}
use misgeret.Operations.Invariant.{
  IsConsistent, IsConsistent-init, step-IsConsistent, run-IsConsistent, live,
}
use misgeret.Operations.Lifecycle.{begin_shutdown_final, try_begin_iff}

-- A backup begins, a promise waits for it, and a sync is refused.
abbrev working : Coordinator
working = step (step (step (step init (subscribes 7)) (begins backing_up)) waits) (begins syncing)

working-IsConsistent : IsConsistent working
working-IsConsistent = step-IsConsistent _ (begins syncing) (
    step-IsConsistent _ waits (
      step-IsConsistent _ (begins backing_up)
        (step-IsConsistent _ (subscribes 7) IsConsistent-init)))

run-IsConsistent_example : IsConsistent (run working (releases 0 ∷ begins restoring ∷ shuts ∷ []))
run-IsConsistent_example =
    run-IsConsistent working (releases 0 ∷ begins restoring ∷ shuts ∷ []) working-IsConsistent

begin_shutdown_final_example :
    (state (run (begin_shutdown working) (releases 0 ∷ waits ∷ [])) ≡ shutting_down)
    × (try_begin (run (begin_shutdown working) (releases 0 ∷ waits ∷ [])) syncing
        ≡ (run (begin_shutdown working) (releases 0 ∷ waits ∷ []), none))
begin_shutdown_final_example = begin_shutdown_final working (releases 0 ∷ waits ∷ []) syncing

try_begin_iff_example :
    ((try_begin working restoring).1 ≢ none)
    ↔ ((working.closing ≡ false) × (live working.leases ≡ []))
try_begin_iff_example = try_begin_iff working restoring working-IsConsistent
