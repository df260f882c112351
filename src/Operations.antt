-- ===== src/Operations.antt =====
-- server/src/operation-coordinator.ts: `OperationCoordinator`, which serializes the operations that
-- change or snapshot one database.
-- A method is a function that returns the new state. A `Symbol` is a fresh number, a promise and a
-- listener are numbers too. The lease objects that were handed out, the promises that were resolved
-- and what the listeners were told are parts of the state, since the code changes them.
-- A listener that throws is caught by the code; listeners that call back are not modelled.
pub mod Invariant
pub mod Lifecycle
use misgeret.Base.{
  ℕ, ◌+◌, Bool, true, false, not, ◌||◌, Option, none, some, List, [], ◌∷◌, ◌++◌, map, ◌==◌,
  if◌then◌else◌, find?,
}

pub data OperationKind : Type 0 where
  syncing backing_up restoring migrating : OperationKind

pub data OperationState : Type 0 where
  idle : OperationState
  busy : OperationKind → OperationState
  shutting_down : OperationState

-- The `active` field of the class, when it is not null.
pub record Held : Type 0 where
  pub operation : OperationKind
  pub token : ℕ

-- A lease object: what its closure holds, and its `released` flag.
pub record Lease : Type 0 where
  pub held : Held
  pub released : Bool

pub record Coordinator : Type 0 where
  pub active : Option Held
  pub closing : Bool
  pub idle_waiters : List ℕ
  pub listeners : List ℕ
  pub leases : List Lease
  pub resolved : List ℕ
  pub told : List (ℕ × OperationState)
  pub next_token : ℕ
  pub next_waiter : ℕ

abbrev pub init : Coordinator
init = record {
  active = none;
  closing = false;
  idle_waiters = [];
  listeners = [];
  leases = [];
  resolved = [];
  told = [];
  next_token = 0;
  next_waiter = 0;
}

unfoldable pub active_state : Option Held → OperationState
active_state none = idle
active_state (some h) = busy h.operation

-- get state()
unfoldable pub state : Coordinator → OperationState
unfolding active_state
state c = if c.closing then shutting_down else active_state c.active

-- get activeOperation()
unfoldable pub active_operation : Coordinator → Option OperationKind
active_operation c = elim c.active [ none ↦ none | some h ↦ some h.operation ]

-- The reports of one `emitState`, newest first.
unfoldable pub tell_all :
    List ℕ → OperationState → List (ℕ × OperationState) → List (ℕ × OperationState)
tell_all [] st log = log
tell_all (l ∷ ls) st log = tell_all ls st ((l, st) ∷ log)

unfoldable pub emit_state : Coordinator → Coordinator
emit_state c = record c { told = tell_all c.listeners (state c) c.told }

-- for (const resolve of this.idleWaiters) resolve(); this.idleWaiters.clear();
unfoldable pub notify_idle : Option Held → Coordinator → Coordinator
notify_idle (some h) c = c
notify_idle none c = record c { resolved = c.idle_waiters ++ c.resolved; idle_waiters = [] }

-- The state in which the new lease is registered and not yet reported.
unfoldable pub grant : Coordinator → OperationKind → Coordinator
grant c k = record c {
  active = some (record { operation = k; token = c.next_token });
  leases =
      record { held = record { operation = k; token = c.next_token }; released = false } ∷ c.leases;
  next_token = c.next_token + 1;
}

unfoldable pub begin_with :
    Bool → Option Held → Coordinator → OperationKind → Coordinator × Option ℕ
begin_with true active c k = (c, none)
begin_with false (some h) c k = (c, none)
begin_with false none c k = (emit_state (grant c k), some c.next_token)

-- The token of the lease, or none where the code returns null.
unfoldable pub try_begin : Coordinator → OperationKind → Coordinator × Option ℕ
unfolding begin_with
try_begin c k = begin_with c.closing c.active c k

abbrev pub has_token : ℕ → Lease → Bool
has_token t l = l.held.token == t

unfoldable pub mark : ℕ → List Lease → List Lease
mark t [] = []
mark t (l ∷ ls) = (if has_token t l then record l { released = true } else l) ∷ mark t ls

-- if (this.active?.token === token) { this.active = null; notifyIdle; emitState }
unfoldable pub end_active : Option Held → ℕ → Coordinator → Coordinator
end_active none t c = c
end_active (some h) t c =
    if h.token == t then emit_state (notify_idle none (record c { active = none })) else c

unfoldable pub release_lease : Option Lease → Coordinator → ℕ → Coordinator
release_lease none c t = c
release_lease (some l) c t =
    if l.released then c else end_active c.active t (record c { leases = mark t c.leases })

-- The `release` closure of the lease with this token.
unfoldable pub release : Coordinator → ℕ → Coordinator
unfolding release_lease
release c t = release_lease (find? (has_token t) c.leases) c t

unfoldable pub add_waiter : Option Held → Coordinator → Coordinator
add_waiter none c = record c {
  resolved = c.next_waiter ∷ c.resolved;
  next_waiter = c.next_waiter + 1;
}
add_waiter (some h) c = record c {
  idle_waiters = c.next_waiter ∷ c.idle_waiters;
  next_waiter = c.next_waiter + 1;
}

-- `waitForIdle`: a promise that is resolved at once, or by the next `notifyIdle`.
unfoldable pub wait_for_idle : Coordinator → Coordinator
unfolding add_waiter
wait_for_idle c = add_waiter c.active c

unfoldable pub begin_shutdown : Coordinator → Coordinator
unfolding wait_for_idle
begin_shutdown c = wait_for_idle (emit_state (record c { closing = true }))

unfoldable pub is_listed : ℕ → List ℕ → Bool
is_listed x [] = false
is_listed x (y ∷ ys) = x == y || is_listed x ys

-- Set.add and Set.delete
unfoldable pub add_listener : ℕ → List ℕ → List ℕ
add_listener x ls = if is_listed x ls then ls else ls ++ x ∷ []

unfoldable pub delete_listener : ℕ → List ℕ → List ℕ
delete_listener x [] = []
delete_listener x (y ∷ ys) = if x == y then delete_listener x ys else y ∷ delete_listener x ys

unfoldable pub subscribe : Coordinator → ℕ → Coordinator
subscribe c x = record c { listeners = add_listener x c.listeners; told = (x, state c) ∷ c.told }

unfoldable pub unsubscribe : Coordinator → ℕ → Coordinator
unsubscribe c x = record c { listeners = delete_listener x c.listeners }

pub data Call : Type 0 where
  begins : OperationKind → Call
  releases : ℕ → Call
  waits shuts : Call
  subscribes unsubscribes : ℕ → Call

unfoldable pub step : Coordinator → Call → Coordinator
step c (begins k) = (try_begin c k).0
step c (releases t) = release c t
step c waits = wait_for_idle c
step c shuts = begin_shutdown c
step c (subscribes x) = subscribe c x
step c (unsubscribes x) = unsubscribe c x

unfoldable pub run : Coordinator → List Call → Coordinator
run c [] = c
run c (x ∷ xs) = run (step c x) xs
