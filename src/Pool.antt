-- ===== src/Pool.antt =====
-- `WorkspacePool` of server/src/workspaces.ts: the open databases of the profiles, leased by requests.
-- Each function is the code between two awaits, and an event names which code runs next, so a list of
-- events is one interleaving of the calls. The entries of the map point to objects, as in the code:
-- an object lives on when the map has dropped it. The ids of the profile registry are a field, since
-- other requests change it. What a database's open and close throw is a flag of the event, and so is
-- what Date.now() gives. A request's number is its place in the order of the calls of `acquire`.
pub mod Objects
pub mod Calls
pub mod Registries
pub mod Moves
pub mod Counts
pub mod Eviction
pub mod Served
pub mod Shutdown
pub use misgeret.Profiles.{
  ProfileErrorType, profile_not_found, profile_busy, profile_open_failed, runtime_shutting_down,
}
use misgeret.Base.{
  ℕ, ◌+◌, ◌-◌, Bool, true, false, not, ◌&&◌, Option, none, some, List, [], ◌∷◌, ◌++◌, map, ltb, leb,
  ◌==◌, if◌then◌else◌, filter, any, find?, length, String, str_eq,
}
use misgeret.Base.Dict.{get, update, has_key, nat_eq, string_eq}
use misgeret.Base.Sort.{sort_by}
use misgeret.Operations
use misgeret.Operations.{Coordinator, OperationState, idle}
use misgeret.Hub
use misgeret.Hub.{Hub}

-- What a rejected promise carries: an error of the profiles, or what a close threw.
pub data Fault : Type 0 where
  profile_error : ProfileErrorType → Fault
  close_error : Fault

-- PoolEntry and its Workspace; `is_open` tells whether the database handle is open.
pub record Entry : Type 0 where
  pub id : String
  pub refcount : ℕ
  pub coordinator : Coordinator
  pub last_used : ℕ
  pub is_open : Bool

-- A call of `acquire` at its await: the entry's object, or none while the profile is being opened.
pub record Request : Type 0 where
  pub number : ℕ
  pub id : String
  pub entry : Option ℕ

-- A call of `open` at an await: while the database opens it has no object, and in `enforceCap` it
-- has one, and the candidates from the one that is being closed on.
pub record Opening : Type 0 where
  pub id : String
  pub entry : Option ℕ
  pub evictable : List ℕ

pub record WorkspacePool : Type 0 where
  pub entries : List (String × ℕ)
  pub opening : List Opening
  pub closed : Bool
  pub max_open : ℕ
  pub hub : Hub
  pub global_coordinator : Coordinator
  pub registry : List String
  pub objects : List (ℕ × Entry)
  pub made : ℕ
  pub arrived : ℕ
  pub waiting : List Request
  pub leases : List (ℕ × ℕ)
  pub rejected : List (ℕ × Fault)
  pub evicting : List ℕ
  pub draining : List ℕ

abbrev pub default_max_open_workspaces : ℕ
default_max_open_workspaces = 8

-- The hub has the global coordinator as a member.
abbrev pub init : ℕ → List String → WorkspacePool
init max_open registry = record {
  entries = [];
  opening = [];
  closed = false;
  max_open = max_open;
  hub = Hub.add "__profiles__" idle Hub.init;
  global_coordinator = Operations.init;
  registry = registry;
  objects = [];
  made = 0;
  arrived = 0;
  waiting = [];
  leases = [];
  rejected = [];
  evicting = [];
  draining = [];
}

-- The object `h`, changed in place.
unfoldable pub adjust : ℕ → (Entry → Entry) → List (ℕ × Entry) → List (ℕ × Entry)
adjust h f [] = []
adjust h f ((j, e) ∷ m) = if j == h then (j, f e) ∷ m else (j, e) ∷ adjust h f m

unfoldable pub on_object : ℕ → (Entry → Entry) → WorkspacePool → WorkspacePool
unfolding adjust
on_object h f p = record p { objects = adjust h f p.objects }

-- this.entries.delete(id)
unfoldable pub drop_key {ℓ} : {A : Type ℓ} → String → List (String × A) → List (String × A)
drop_key id [] = []
drop_key id ((j, a) ∷ m) = if str_eq j id then drop_key id m else (j, a) ∷ drop_key id m

-- The lease of request `r` is released once.
unfoldable pub drop_lease : ℕ → List (ℕ × ℕ) → List (ℕ × ℕ)
drop_lease r [] = []
drop_lease r ((j, h) ∷ m) = if j == r then m else (j, h) ∷ drop_lease r m

unfoldable pub is_known : String → List String → Bool
is_known id ids = any (λ j. str_eq j id) ids

-- this.opening.has(id)
unfoldable pub is_opening : String → List Opening → Bool
is_opening id os = any (λ o. str_eq o.id id) os

-- get openWorkspaceCount()
unfoldable pub open_workspace_count : WorkspacePool → ℕ
open_workspace_count p = length p.entries

unfoldable pub reject : ℕ → Fault → WorkspacePool → WorkspacePool
reject r fault p = record p { rejected = (r, fault) ∷ p.rejected }

unfoldable pub awaits : String → Option ℕ → WorkspacePool → WorkspacePool
awaits id entry p = record p {
  waiting = record { number = p.arrived; id = id; entry = entry } ∷ p.waiting;
}

-- The part of `open` before its await, and this.opening.set(id, opening).
unfoldable pub start_opening : String → WorkspacePool → WorkspacePool
start_opening id p = record p {
  opening = record { id = id; entry = none; evictable = [] } ∷ p.opening;
}

-- const existing = this.entries.get(id); const inFlight = this.opening.get(id);
unfoldable pub entry_for : String → Option ℕ → WorkspacePool → WorkspacePool
unfolding awaits start_opening is_opening
entry_for id (some h) p = awaits id (some h) p
entry_for id none p = awaits id none (if is_opening id p.opening then p else start_opening id p)

unfoldable pub arrive : WorkspacePool → WorkspacePool
arrive p = record p { arrived = p.arrived + 1 }

-- `acquire` up to its await
unfoldable pub acquire : String → WorkspacePool → WorkspacePool
unfolding reject is_known entry_for arrive
acquire id p = arrive (
    if p.closed
    then reject p.arrived (profile_error runtime_shutting_down) p
    else if not (is_known id p.registry)
    then reject p.arrived (profile_error profile_not_found) p
    else entry_for id (get id p.entries) p)

unfoldable pub same_opening : String → Request → Bool
same_opening id w = elim w.entry [ none ↦ str_eq w.id id | some h ↦ false ]

-- The promise of `open` is resolved: who waited for it goes on with the object.
unfoldable pub give_entry : String → ℕ → List Request → List Request
unfolding same_opening
give_entry id h ws = map (λ w. if same_opening id w then record w { entry = some h } else w) ws

unfoldable pub without_opening : String → List Opening → List Opening
without_opening id os = filter (λ o. not (str_eq o.id id)) os

unfoldable pub finish_opening : String → ℕ → WorkspacePool → WorkspacePool
unfolding give_entry without_opening
finish_opening id h p = record p {
  opening = without_opening id p.opening;
  waiting = give_entry id h p.waiting;
}

unfoldable pub faults_of : String → Fault → List Request → List (ℕ × Fault)
unfolding same_opening
faults_of id fault ws = map (λ w. (w.number, fault)) (filter (same_opening id) ws)

-- The promise of `open` is rejected, and every call that waits for it.
unfoldable pub fail_opening : String → Fault → WorkspacePool → WorkspacePool
unfolding faults_of without_opening same_opening
fail_opening id fault p = record p {
  opening = without_opening id p.opening;
  waiting = filter (λ w. not (same_opening id w)) p.waiting;
  rejected = faults_of id fault p.waiting ++ p.rejected;
}

unfoldable pub is_idle : OperationState → Bool
is_idle idle = true
is_idle _ = false

unfoldable pub is_evictable : Entry → Bool
unfolding Operations.state is_idle
is_evictable e = e.refcount == 0 && is_idle (Operations.state e.coordinator)

-- `closeEntry` up to its await
unfoldable pub start_closing : ℕ → Entry → WorkspacePool → WorkspacePool
unfolding Hub.remove on_object Operations.begin_shutdown
start_closing h e p =
    on_object h (λ x. record x { coordinator = Operations.begin_shutdown x.coordinator })
      (record p { hub = Hub.remove e.id p.hub })

-- `closeEntry` after its await; where checkpoint or close throws, the handle may stay open.
unfoldable pub finish_closing : ℕ → Entry → Bool → WorkspacePool → WorkspacePool
unfolding on_object drop_key
finish_closing h e ok p =
    on_object h (λ x. record x { is_open = x.is_open && not ok })
      (record p { entries = drop_key e.id p.entries })

-- The promise of `beginShutdown` resolves once no operation is active.
unfoldable pub is_drained : Entry → Bool
is_drained e = elim e.coordinator.active [ none ↦ true | some a ↦ false ]
