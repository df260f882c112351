-- ===== src/RuntimeManager.antt =====
-- `RuntimeManager` of desktop/src/runtime-manager.ts: the desktop's view of the process that runs the
-- server.
-- A child process is a number, in the order of the forks. A promise of `start` or `stop` is kept with
-- its outcome; what listeners are told and what is logged are lists, the newest first. An event of a
-- child is what the process module reports of it, or a timer that runs out. The environment that the
-- child gets, the logger's fields and the kill of the process tree are left out.
pub mod Timeout
pub mod Settling
pub mod Exits
use misgeret.Base.{
  ℕ, ◌+◌, ◌-◌, ◌*◌, Bool, true, false, not, ◌&&◌, Option, none, some, List, [], ◌∷◌, map, ltb, leb,
  any, ◌==◌, if◌then◌else◌, String, ℤ, pos, negsuc,
}
use misgeret.Operations.{OperationState, idle}

-- What a promise of `start` was settled with.
pub data Outcome : Type 0 where
  started : String → Outcome
  runtime_timeout utility_fatal runtime_early_exit : Outcome
  startup_error : String → Outcome

-- A message of the child; a count that is no safe integer is none.
pub data Message : Type 0 where
  state_message : OperationState → Option ℤ → Message
  ready : OperationState → Option ℤ → String → Message
  error_message : Bool → String → Message
  stopped unknown : Message

-- What the manager emits.
pub data Report : Type 0 where
  reports_state : OperationState → Report
  reports_ready : String → Report
  reports_error : String → Report
  reports_stopped : Report
  reports_exit : Bool → Report

pub record Start : Type 0 where
  pub child : ℕ
  pub outcome : Option Outcome

pub record Stop : Type 0 where
  pub child : ℕ
  pub resolved : Bool

pub record RuntimeManager : Type 0 where
  pub child : Option ℕ
  pub state : OperationState
  pub open_workspace_count : Option ℕ
  pub expected_exit : Bool
  pub restart_allowance : ℕ
  pub starts : List Start
  pub stops : List Stop
  pub killed : List ℕ
  pub reports : List Report
  pub forked : ℕ

abbrev pub init : RuntimeManager
init = record {
  child = none;
  state = idle;
  open_workspace_count = none;
  expected_exit = false;
  restart_allowance = 1;
  starts = [];
  stops = [];
  killed = [];
  reports = [];
  forked = 0;
}

abbrev pub base_shutdown_timeout_ms : ℕ
base_shutdown_timeout_ms = 10000

abbrev pub per_workspace_shutdown_timeout_ms : ℕ
per_workspace_shutdown_timeout_ms = 5000

abbrev pub max_shutdown_timeout_ms : ℕ
max_shutdown_timeout_ms = 45000

unfoldable pub min_ℕ : ℕ → ℕ → ℕ
min_ℕ a b = if leb a b then a else b

-- Number.isSafeInteger(count) && Number(count) >= 1 ? Number(count) : 1
unfoldable pub workspaces : Option ℕ → ℕ
workspaces none = 1
workspaces (some n) = if leb 1 n then n else 1

unfoldable pub shutdown_timeout_ms_for : Option ℕ → ℕ
unfolding min_ℕ workspaces
shutdown_timeout_ms_for count =
    min_ℕ max_shutdown_timeout_ms
      (base_shutdown_timeout_ms + per_workspace_shutdown_timeout_ms * workspaces count)

unfoldable pub shutdown_timeout_ms : RuntimeManager → ℕ
unfolding shutdown_timeout_ms_for
shutdown_timeout_ms m = shutdown_timeout_ms_for m.open_workspace_count

unfoldable pub record_open_workspace_count : Option ℤ → RuntimeManager → RuntimeManager
record_open_workspace_count (some (pos n)) m = record m { open_workspace_count = some n }
record_open_workspace_count _ m = m

unfoldable pub take_restart_allowance : RuntimeManager → RuntimeManager × Bool
take_restart_allowance m =
    if leb m.restart_allowance 0
    then (m, false)
    else (record m { restart_allowance = m.restart_allowance - 1 }, true)

-- `start` up to its promise, or none where it throws RUNTIME_ALREADY_RUNNING
unfoldable pub start : RuntimeManager → Option RuntimeManager
start m = elim m.child [
  | some c ↦ none
  | none ↦ some (record m {
    expected_exit = false;
    open_workspace_count = none;
    child = some m.forked;
    starts = record { child = m.forked; outcome = none } ∷ m.starts;
    forked = m.forked + 1;
  })
]

-- if (settled) return; settled = true;
unfoldable pub settle_one : ℕ → Outcome → Start → Start
settle_one c o s =
    if s.child == c then elim s.outcome [ some p ↦ s | none ↦ record s { outcome = some o } ] else s

unfoldable pub settle : ℕ → Outcome → List Start → List Start
unfolding settle_one
settle c o [] = []
settle c o (s ∷ ss) = settle_one c o s ∷ settle c o ss

unfoldable pub is_settled : ℕ → List Start → Bool
is_settled c [] = true
is_settled c (s ∷ ss) =
    if s.child == c then elim s.outcome [ none ↦ false | some o ↦ true ] else is_settled c ss

-- settleError, and the timeout of `start`
unfoldable pub settle_error : ℕ → Outcome → RuntimeManager → RuntimeManager
unfolding is_settled settle
settle_error c o m =
    if is_settled c m.starts
    then m
    else record m { starts = settle c o m.starts; expected_exit = true; killed = c ∷ m.killed }

-- finish() of every `stop` of the child
unfoldable pub finish_stops : ℕ → List Stop → List Stop
finish_stops c [] = []
finish_stops c (s ∷ ss) =
    (if s.child == c then record s { resolved = true } else s) ∷ finish_stops c ss

unfoldable pub report : Report → RuntimeManager → RuntimeManager
report r m = record m { reports = r ∷ m.reports }

unfoldable pub on_message : ℕ → Message → RuntimeManager → RuntimeManager
unfolding record_open_workspace_count report settle settle_error finish_stops
on_message c (state_message st count) m =
    report (reports_state st) (record_open_workspace_count count (record m { state = st }))
on_message c (ready st count origin) m =
    let r = record_open_workspace_count count (record m { state = st }) in
    report (reports_ready origin) (record r { starts = settle c (started origin) r.starts })
on_message c (error_message startup code) m =
    let r = report (reports_error code) m in
    if startup then settle_error c (startup_error code) r else r
on_message c stopped m = record (report reports_stopped m) { stops = finish_stops c m.stops }
on_message c unknown m = m

-- if (this.child === child) this.child = undefined;
unfoldable pub forget : ℕ → Option ℕ → Option ℕ
forget c none = none
forget c (some d) = if d == c then none else some d

unfoldable pub on_exit : ℕ → RuntimeManager → RuntimeManager
unfolding settle_error forget report finish_stops
on_exit c m =
    let r = settle_error c runtime_early_exit (record m { child = forget c m.child }) in
    record (report (reports_exit r.expected_exit) r) { stops = finish_stops c r.stops }

unfoldable pub stop : RuntimeManager → RuntimeManager
stop m = elim m.child [
  | none ↦ m
  | some c ↦ record m {
    expected_exit = true;
    stops = record { child = c; resolved = false } ∷ m.stops;
  }
]

unfoldable pub is_stopping : ℕ → List Stop → Bool
unfolding any
is_stopping c ss = any (λ s. s.child == c && not s.resolved) ss

-- The timer of a `stop`, unless finish() cleared it: the tree is killed, then finish().
unfoldable pub shutdown_times_out : ℕ → RuntimeManager → RuntimeManager
unfolding finish_stops is_stopping
shutdown_times_out c m =
    if is_stopping c m.stops
    then record m { killed = c ∷ m.killed; stops = finish_stops c m.stops }
    else m

pub data Event : Type 0 where
  starts_up stops restarts : Event
  sends : ℕ → Message → Event
  exits fails startup_expires shutdown_expires : ℕ → Event

unfoldable pub or_same : RuntimeManager → Option RuntimeManager → RuntimeManager
or_same m none = m
or_same m (some n) = n

unfoldable pub step : RuntimeManager → Event → RuntimeManager
unfolding or_same start stop take_restart_allowance on_message on_exit settle_error
    shutdown_times_out
step m starts_up = or_same m (start m)
step m stops = stop m
step m restarts = (take_restart_allowance m).0
step m (sends c msg) = on_message c msg m
step m (exits c) = on_exit c m
step m (fails c) = settle_error c utility_fatal m
step m (startup_expires c) = settle_error c runtime_timeout m
step m (shutdown_expires c) = shutdown_times_out c m

unfoldable pub run : RuntimeManager → List Event → RuntimeManager
unfolding step
run m [] = m
run m (e ∷ es) = run (step m e) es
