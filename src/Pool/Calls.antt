-- ===== src/Pool/Calls.antt =====
-- The calls of `WorkspacePool` (server/src/workspaces.ts) and what follows each of their awaits.
use misgeret.Base.{
  ℕ, ◌+◌, ◌-◌, Bool, true, false, not, ◌&&◌, Option, none, some, List, [], ◌∷◌, map, leb, ◌==◌,
  if◌then◌else◌, filter, any, all, find?, String, str_eq,
}
use misgeret.Base.Dict.{get, update, nat_eq, string_eq}
use misgeret.Base.Sort.{sort_by}
use misgeret.Operations
use misgeret.Operations.{Coordinator, OperationState, idle}
use misgeret.Hub
use misgeret.Pool.{
  profile_not_found, profile_busy, profile_open_failed, runtime_shutting_down, Fault, profile_error,
  close_error, Entry, Request, Opening, WorkspacePool, on_object, drop_lease, is_known, is_opening,
  open_workspace_count, reject, acquire, finish_opening, fail_opening, is_evictable, start_closing,
  finish_closing, is_drained,
}

-- const evictable = [...].filter(...).sort(...), of the entries with their objects
unfoldable pub candidates : String → List (ℕ × Entry) → List (String × ℕ) → List (ℕ × Entry)
unfolding get is_evictable
candidates keep_id objects [] = []
candidates keep_id objects ((id, h) ∷ m) =
    let rest = candidates keep_id objects m in
    elim (get h objects) [
      | none ↦ rest
      | some e ↦ if not (str_eq e.id keep_id) && is_evictable e then (h, e) ∷ rest else rest
    ]

unfoldable pub by_last_used : ℕ × Entry → ℕ × Entry → Bool
by_last_used left right = leb left.1.last_used right.1.last_used

unfoldable pub evictable_of : String → WorkspacePool → List ℕ
unfolding candidates sort_by by_last_used
evictable_of keep_id p =
    map (λ c. c.0) (sort_by by_last_used (candidates keep_id p.objects p.entries))

-- The opening `o` waits in `enforceCap` while the first of `hs` is being closed.
unfoldable pub set_cap : String → ℕ → List ℕ → WorkspacePool → WorkspacePool
set_cap id h hs p = record p {
  opening =
      map (λ o. if str_eq o.id id then record o { entry = some h; evictable = hs } else o)
        p.opening;
}

-- The loop of `enforceCap` up to its next await, or the end of `open`.
unfoldable pub close_next : String → ℕ → List ℕ → WorkspacePool → WorkspacePool
unfolding finish_opening open_workspace_count start_closing set_cap get
close_next id h [] p = finish_opening id h p
close_next id h (c ∷ cs) p =
    if leb (open_workspace_count p) p.max_open
    then finish_opening id h p
    else elim (get c p.objects) [
      | none ↦ finish_opening id h p
      | some e ↦ set_cap id h (c ∷ cs) (start_closing c e p)
    ]

unfoldable pub enforce_cap : String → ℕ → WorkspacePool → WorkspacePool
unfolding open_workspace_count finish_opening close_next evictable_of
enforce_cap id h p =
    if leb (open_workspace_count p) p.max_open
    then finish_opening id h p
    else close_next id h (evictable_of id p) p

abbrev pub new_entry : String → ℕ → Entry
new_entry id now = record {
  id = id;
  refcount = 0;
  coordinator = Operations.init;
  last_used = now;
  is_open = true;
}

-- const entry = { workspace, refcount: 0 }; this.entries.set(id, entry); hub.add(id, coordinator);
unfoldable pub add_entry : String → ℕ → WorkspacePool → WorkspacePool
unfolding update Hub.add
add_entry id now p = record p {
  objects = (p.made, new_entry id now) ∷ p.objects;
  made = p.made + 1;
  entries = update id (λ h. p.made) p.made p.entries;
  hub = Hub.add id idle p.hub;
}

-- `open` after openProfileDatabase, which threw where `ok` is false
unfoldable pub opened : String → Bool → ℕ → WorkspacePool → WorkspacePool
unfolding fail_opening is_known enforce_cap add_entry
opened id ok now p =
    if not ok
    then fail_opening id (profile_error profile_open_failed) p
    else if p.closed
    then fail_opening id (profile_error runtime_shutting_down) p
    else if not (is_known id p.registry)
    then fail_opening id (profile_error profile_not_found) p
    else enforce_cap id p.made (add_entry id now p)

-- `enforceCap` after the close of a candidate; an error of the close rejects the open.
unfoldable pub capped : String → ℕ → List ℕ → Bool → WorkspacePool → WorkspacePool
unfolding finish_closing close_next fail_opening is_drained get
capped id h [] ok p = p
capped id h (c ∷ cs) ok p = elim (get c p.objects) [
  | none ↦ p
  | some e ↦
      if not (is_drained e)
      then p
      else if ok
      then close_next id h cs (finish_closing c e true p)
      else fail_opening id close_error (finish_closing c e false p)
]

-- An opening's next stretch of code.
unfoldable pub go_on : Option Opening → Bool → ℕ → WorkspacePool → WorkspacePool
unfolding opened capped
go_on none ok now p = p
go_on (some o) ok now p = elim o.entry [
  | none ↦ opened o.id ok now p
  | some h ↦ capped o.id h o.evictable ok p
]

-- The request goes on: its lease, or the error of the second test of `closed`.
unfoldable pub lease : ℕ → ℕ → ℕ → WorkspacePool → WorkspacePool
unfolding reject on_object
lease r h now p =
    if p.closed
    then reject r (profile_error runtime_shutting_down) p
    else on_object h (λ e. record e { refcount = e.refcount + 1; last_used = now })
        (record p { leases = (r, h) ∷ p.leases })

unfoldable pub resume_with : ℕ → ℕ → Option Entry → ℕ → WorkspacePool → WorkspacePool
unfolding lease
resume_with r h none now p = p
resume_with r h (some e) now p =
    lease r h now (record p { waiting = filter (λ v. not (v.number == r)) p.waiting })

-- `acquire` after its await
unfoldable pub resume : Option Request → ℕ → WorkspacePool → WorkspacePool
unfolding resume_with get
resume none now p = p
resume (some w) now p = elim w.entry [
  | none ↦ p
  | some h ↦ resume_with w.number h (get h p.objects) now p
]

-- lease.release()
unfoldable pub release : ℕ → Option ℕ → ℕ → WorkspacePool → WorkspacePool
unfolding on_object drop_lease
release r none now p = p
release r (some h) now p =
    on_object h (λ e. record e { refcount = e.refcount - 1; last_used = now })
      (record p { leases = drop_lease r p.leases })

-- What a call of `evict` has come to: its promise is resolved or rejected, or it awaits the close of
-- an object.
pub data Eviction : Type 0 where
  resolves : Eviction
  rejects : Fault → Eviction
  awaits_close : ℕ → Eviction

unfoldable pub evict_entry : Option ℕ → WorkspacePool → WorkspacePool × Eviction
unfolding is_evictable start_closing get
evict_entry none p = (p, resolves)
evict_entry (some h) p = elim (get h p.objects) [
  | none ↦ (p, resolves)
  | some e ↦
      if not (is_evictable e)
      then (p, rejects (profile_error profile_busy))
      else (record (start_closing h e p) { evicting = h ∷ p.evicting }, awaits_close h)
]

-- `evict` up to its await
unfoldable pub evict : String → WorkspacePool → WorkspacePool × Eviction
unfolding is_opening evict_entry get
evict id p =
    if is_opening id p.opening
    then (p, rejects (profile_error profile_busy))
    else evict_entry (get id p.entries) p

-- What `evict` comes to after its await: what checkpoint or close throws, it throws.
unfoldable pub close_result : Bool → Eviction
close_result ok = if ok then resolves else rejects close_error

-- `evict` after its await; `ok` tells that neither checkpoint nor close throws.
unfoldable pub evicted : ℕ → Option Entry → Bool → WorkspacePool → WorkspacePool × Eviction
unfolding finish_closing is_drained close_result
evicted h none ok p = (p, awaits_close h)
evicted h (some e) ok p =
    if any (λ j. j == h) p.evicting && is_drained e
    then (
      finish_closing h e ok (record p { evicting = filter (λ j. not (j == h)) p.evicting }),
      close_result ok,
    )
    else (p, awaits_close h)

-- An entry's coordinator shuts down and the hub hears of it.
unfoldable pub shut_entry : ℕ → Option Entry → WorkspacePool → WorkspacePool
unfolding on_object Operations.begin_shutdown Operations.state Hub.child_emits
shut_entry h none p = p
shut_entry h (some e) p =
    on_object h (λ x. record x { coordinator = Operations.begin_shutdown x.coordinator })
      (record p {
        hub =
            Hub.child_emits e.id (Operations.state (Operations.begin_shutdown e.coordinator)) p.hub;
      })

unfoldable pub shut_entries : List (String × ℕ) → WorkspacePool → WorkspacePool
unfolding shut_entry get
shut_entries [] p = p
shut_entries ((id, h) ∷ m) p = shut_entries m (shut_entry h (get h p.objects) p)

unfoldable pub begin_shutdown : WorkspacePool → WorkspacePool
unfolding shut_entries Operations.begin_shutdown Operations.state Hub.child_emits
begin_shutdown p =
    let global = Operations.begin_shutdown p.global_coordinator in
    shut_entries p.entries (record p {
      closed = true;
      global_coordinator = global;
      hub = Hub.child_emits "__profiles__" (Operations.state global) p.hub;
    })

-- `closeAll` up to its await
unfoldable pub close_all : WorkspacePool → WorkspacePool
unfolding begin_shutdown
close_all p = let q = begin_shutdown p in record q { draining = map (λ x. x.1) q.entries }

-- try { db.checkpoint; db.close } catch {} finally { hub.remove(id); entries.delete(id) }
unfoldable pub close_drained : ℕ → Option Entry → Bool → WorkspacePool → WorkspacePool
unfolding finish_closing Hub.remove
close_drained h none ok p = p
close_drained h (some e) ok p =
    let q = finish_closing h e ok p in record q { hub = Hub.remove e.id q.hub }

unfoldable pub close_each : List ℕ → (ℕ → Bool) → WorkspacePool → WorkspacePool
unfolding close_drained get
close_each [] closes p = p
close_each (h ∷ hs) closes p = close_each hs closes (close_drained h (get h p.objects) (closes h) p)

unfoldable pub is_quiet : Coordinator → Bool
is_quiet c = elim c.active [ none ↦ true | some a ↦ false ]

unfoldable pub object_is_quiet : WorkspacePool → ℕ → Bool
unfolding get is_drained
object_is_quiet p h = elim (get h p.objects) [ none ↦ true | some e ↦ is_drained e ]

-- `closeAll` after its await; `closes` tells whose close does not throw.
unfoldable pub drained : (ℕ → Bool) → WorkspacePool → WorkspacePool
unfolding is_quiet object_is_quiet close_each
drained closes p =
    if is_quiet p.global_coordinator && all (object_is_quiet p) p.draining
    then close_each p.draining closes (record p { draining = [] })
    else p

-- A handler calls the coordinator of an object; a member of the hub tells it its state.
unfoldable pub coordinate : ℕ → Operations.Call → Option Entry → WorkspacePool → WorkspacePool
unfolding on_object Operations.step Operations.state Hub.child_emits get
coordinate h call none p = p
coordinate h call (some e) p =
    let c = Operations.step e.coordinator call in
    let q = on_object h (λ x. record x { coordinator = c }) p in
    elim (get e.id p.entries) [
      | none ↦ q
      | some j ↦
          if j == h then record q { hub = Hub.child_emits e.id (Operations.state c) p.hub } else q
    ]

pub data Event : Type 0 where
  acquires evicts : String → Event
  goes_on : String → Bool → ℕ → Event
  resumes releases : ℕ → ℕ → Event
  ends_evict : ℕ → Bool → Event
  coordinates : ℕ → Operations.Call → Event
  begins_shutdown closes_all : Event
  drains : (ℕ → Bool) → Event
  registers : List String → Event

unfoldable pub step : WorkspacePool → Event → WorkspacePool
unfolding acquire evict go_on resume release evicted coordinate begin_shutdown close_all drained get
step p (acquires id) = acquire id p
step p (evicts id) = (evict id p).0
step p (goes_on id ok now) = go_on (find? (λ o. str_eq o.id id) p.opening) ok now p
step p (resumes r now) = resume (find? (λ w. w.number == r) p.waiting) now p
step p (releases r now) = release r (get r p.leases) now p
step p (ends_evict h ok) = (evicted h (get h p.objects) ok p).0
step p (coordinates h call) = coordinate h call (get h p.objects) p
step p begins_shutdown = begin_shutdown p
step p closes_all = close_all p
step p (drains closes) = drained closes p
step p (registers ids) = record p { registry = ids }

unfoldable pub run : WorkspacePool → List Event → WorkspacePool
unfolding step
run p [] = p
run p (e ∷ es) = run (step p e) es
