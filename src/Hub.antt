-- ===== src/Hub.antt =====
-- `CoordinatorHub` of server/src/workspaces.ts: one state for the desktop out of the states of all
-- the coordinators.
-- A member is its id and the state that its coordinator has at present. `told` is what the hub's
-- listeners were told, newest first; a listener that throws is caught by the code.
pub mod Laws
use misgeret.Base.{
  Bool, true, false, ◌||◌, Option, none, some, List, [], ◌∷◌, ◌++◌, String, str_eq, if◌then◌else◌,
}
use misgeret.Operations.{
  OperationKind, syncing, backing_up, restoring, migrating, OperationState, idle, busy,
  shutting_down,
}

pub record Member : Type 0 where
  pub id : String
  pub state : OperationState

pub record Hub : Type 0 where
  pub members : List Member
  pub current : OperationState
  pub told : List OperationState

abbrev pub init : Hub
init = record { members = []; current = idle; told = [] }

-- if (state !== 'idle' && next === 'idle') next = state;
unfoldable pub first_busy : OperationState → OperationState → OperationState
first_busy idle state = state
first_busy next state = next

-- The loop of `recompute`, from the value that `next` has so far; `shuttingDown` breaks it.
unfoldable pub aggregate_from : OperationState → List Member → OperationState
unfolding first_busy
aggregate_from next [] = next
aggregate_from next (m ∷ ms) =
    let rest = aggregate_from (first_busy next m.state) ms in
    elim m.state [ shutting_down ↦ shutting_down | _ ↦ rest ]

unfoldable pub same_kind : OperationKind → OperationKind → Bool
same_kind syncing syncing = true
same_kind backing_up backing_up = true
same_kind restoring restoring = true
same_kind migrating migrating = true
same_kind _ _ = false

unfoldable pub same_state : OperationState → OperationState → Bool
unfolding same_kind
same_state idle idle = true
same_state (busy j) (busy k) = same_kind j k
same_state shutting_down shutting_down = true
same_state _ _ = false

unfoldable pub publish : OperationState → Hub → Hub
unfolding same_state
publish next h =
    if same_state next h.current then h else record h { current = next; told = next ∷ h.told }

unfoldable pub recompute : Hub → Hub
unfolding publish aggregate_from
recompute h = publish (aggregate_from idle h.members) h

unfoldable pub has : String → List Member → Bool
has id [] = false
has id (m ∷ ms) = str_eq m.id id || has id ms

-- The `recompute` that subscribing to the coordinator makes comes first, then the one of `add`.
unfoldable pub add : String → OperationState → Hub → Hub
unfolding has recompute
add id state h =
    if has id h.members
    then h
    else recompute
        (recompute (record h { members = h.members ++ record { id = id; state = state } ∷ [] }))

unfoldable pub without : String → List Member → List Member
without id [] = []
without id (m ∷ ms) = if str_eq m.id id then without id ms else m ∷ without id ms

unfoldable pub remove : String → Hub → Hub
unfolding has without recompute
remove id h =
    if has id h.members then recompute (record h { members = without id h.members }) else h

unfoldable pub set_state : String → OperationState → List Member → List Member
set_state id state [] = []
set_state id state (m ∷ ms) =
    (if str_eq m.id id then record m { state = state } else m) ∷ set_state id state ms

-- The coordinator of a member enters a state and tells its subscribers, the hub among them.
unfoldable pub child_emits : String → OperationState → Hub → Hub
unfolding set_state recompute
child_emits id state h = recompute (record h { members = set_state id state h.members })

-- A listener is told the present state at once.
unfoldable pub subscribe : Hub → OperationState
subscribe h = h.current

pub data Call : Type 0 where
  adds emits : String → OperationState → Call
  removes : String → Call

unfoldable pub step : Hub → Call → Hub
unfolding add remove child_emits
step h (adds id state) = add id state h
step h (removes id) = remove id h
step h (emits id state) = child_emits id state h

unfoldable pub run : Hub → List Call → Hub
run h [] = h
run h (c ∷ cs) = run (step h c) cs
