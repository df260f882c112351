-- ===== src/Pool/Moves.antt =====
-- What the calls of `WorkspacePool` (server/src/workspaces.ts) do to its registry.
use misgeret.Base.{
  ℕ, ◌+◌, ◌≡◌, refl, Bool, false, Option, none, some, List, [], ◌∷◌, any, ◌&&◌, ◌==◌, Bool-cases,
  Option-cases, str_eq, inl, inr, String, str_eq, find?,
}
use misgeret.Base.Dict.{get, nat_eq, string_eq}
use misgeret.Operations
use misgeret.Pool.{
  Entry, Request, Opening, WorkspacePool, on_object, is_opening, reject, entry_for, acquire,
  is_evictable, is_drained,
}
use misgeret.Pool.Calls.{
  close_next, enforce_cap, add_entry, opened, capped, go_on, lease, resume_with, resume, release,
  evict_entry, evict, evicted, shut_entry, shut_entries, begin_shutdown, close_all, close_drained,
  close_each, drained, coordinate, Event, acquires, evicts, goes_on, resumes, releases, ends_evict,
  coordinates, begins_shutdown, closes_all, drains, registers, step, run,
}
use misgeret.Pool.Registries.{
  Registry, registry_of, touches, adds, lends, gives_back, shuts, Moves, still, after, Moves-if,
  Moves-on_object, Moves-start_closing, Moves-finish_closing, Moves-finish_opening,
  Moves-fail_opening, Moves-reject, Moves-awaits, Moves-start_opening, Moves-arrive, Moves-waiting,
  Moves-evicting, Moves-draining, Moves-registry, Moves-set_cap,
}

module _ {c : Registry} where
  Moves-entry_for :
      (id : String) (entry : Option ℕ) (p : WorkspacePool)
      → Moves c (registry_of p)
      → Moves c (registry_of (entry_for id entry p))
  unfolding entry_for
  Moves-entry_for id (some h) p m = Moves-awaits id (some h) p m
  Moves-entry_for id none p m =
      Moves-awaits id none _ (Moves-if _ _ _ (λ e. m) (λ e. Moves-start_opening id p m))

  Moves-acquire :
      (id : String) (p : WorkspacePool)
      → Moves c (registry_of p)
      → Moves c (registry_of (acquire id p))
  unfolding acquire
  Moves-acquire id p m = search (Moves-arrive, Moves-if, Moves-reject, Moves-entry_for, m)

  Moves-close_next :
      (id : String) (h : ℕ) (hs : List ℕ) (p : WorkspacePool)
      → Moves c (registry_of p)
      → Moves c (registry_of (close_next id h hs p))
  unfolding close_next
  Moves-close_next id h [] p m = Moves-finish_opening id h p m
  Moves-close_next id h (k ∷ ks) p m = elim (Option-cases (get k p.objects)) [
    | inl e ↦ rw e (search (Moves-if, Moves-finish_opening, m))
    | inr (e, f) ↦
        rw f (search (Moves-if, Moves-finish_opening, Moves-set_cap, Moves-start_closing, m))
  ]

  Moves-enforce_cap :
      (id : String) (h : ℕ) (p : WorkspacePool)
      → Moves c (registry_of p)
      → Moves c (registry_of (enforce_cap id h p))
  unfolding enforce_cap
  Moves-enforce_cap id h p m = search (Moves-if, Moves-finish_opening, Moves-close_next, m)

  Moves-add_entry :
      (id : String) (now : ℕ) (p : WorkspacePool)
      → p.closed ≡ false
      → Moves c (registry_of p)
      → Moves c (registry_of (add_entry id now p))
  unfolding add_entry registry_of
  Moves-add_entry id now p h m = after m (adds (registry_of p) id now h)

  Moves-opened :
      (id : String) (ok : Bool) (now : ℕ) (p : WorkspacePool)
      → Moves c (registry_of p)
      → Moves c (registry_of (opened id ok now p))
  unfolding opened
  Moves-opened id ok now p m =
      search (Moves-if, Moves-fail_opening, Moves-enforce_cap, Moves-add_entry, m)

  Moves-capped :
      (id : String) (h : ℕ) (hs : List ℕ) (ok : Bool) (p : WorkspacePool)
      → Moves c (registry_of p)
      → Moves c (registry_of (capped id h hs ok p))
  unfolding capped
  Moves-capped id h [] ok p m = m
  Moves-capped id h (k ∷ ks) ok p m = elim (Option-cases (get k p.objects)) [
    | inl e ↦ rw (e, capped) m
    | inr (e, f) ↦
        rw (f, capped)
          (search (Moves-if, Moves-close_next, Moves-fail_opening, Moves-finish_closing, f, m))
  ]

  Moves-go_on :
      (o : Option Opening) (ok : Bool) (now : ℕ) (p : WorkspacePool)
      → Moves c (registry_of p)
      → Moves c (registry_of (go_on o ok now p))
  unfolding go_on
  Moves-go_on none ok now p m = m
  Moves-go_on (some o) ok now p m = elim (Option-cases o.entry) [
    | inl e ↦ rw e (Moves-opened o.id ok now p m)
    | inr (h, e) ↦ rw e (Moves-capped o.id h o.evictable ok p m)
  ]

  Moves-lease :
      (r h now : ℕ) (e : Entry) (p : WorkspacePool)
      → get h p.objects ≡ some e
      → Moves c (registry_of p)
      → Moves c (registry_of (lease r h now p))
  unfolding lease
  Moves-lease r h now e p g m =
      Moves-if p.closed (reject r _ p) _ (λ x. Moves-reject r _ p m) (λ x. lent x)
    where
      lent :
          p.closed ≡ false
          → Moves c (
              registry_of (
                on_object h
                  (λ x. record x { refcount = x.refcount + 1; last_used = now })
                  (record p { leases = (r, h) ∷ p.leases })))
      lent x = unfold on_object registry_of in after m (lends (registry_of p) r h e now x g)

  Moves-resume_with :
      (r h now : ℕ) (p : WorkspacePool)
      → Moves c (registry_of p)
      → Moves c (registry_of (resume_with r h (get h p.objects) now p))
  unfolding resume_with
  Moves-resume_with r h now p m = elim (Option-cases (get h p.objects)) [
    | inl e ↦ rw e m
    | inr (e, f) ↦ rw f (search (Moves-lease, Moves-waiting, f, m))
  ]

  Moves-resume :
      (w : Option Request) (now : ℕ) (p : WorkspacePool)
      → Moves c (registry_of p)
      → Moves c (registry_of (resume w now p))
  unfolding resume
  Moves-resume none now p m = m
  Moves-resume (some w) now p m = elim (Option-cases w.entry) [
    | inl e ↦ rw e m
    | inr (h, e) ↦ rw e (Moves-resume_with w.number h now p m)
  ]

  Moves-release :
      (r now : ℕ) (o : Option ℕ) (p : WorkspacePool)
      → get r p.leases ≡ o
      → Moves c (registry_of p)
      → Moves c (registry_of (release r o now p))
  unfolding release on_object registry_of
  Moves-release r now none p g m = m
  Moves-release r now (some h) p g m = after m (gives_back (registry_of p) r h now g)

  Moves-evict_entry :
      (o : Option ℕ) (p : WorkspacePool)
      → Moves c (registry_of p)
      → Moves c (registry_of (evict_entry o p).0)
  unfolding evict_entry registry_of
  Moves-evict_entry none p m = m
  Moves-evict_entry (some h) p m = elim (Option-cases (get h p.objects)) [
    | inl e ↦ rw (e, evict_entry) m
    | inr (e, f) ↦ elim (Bool-cases (is_evictable e)) [
      | inl x ↦ rw (f, evict_entry, x) (search (Moves-start_closing, m))
      | inr x ↦ rw (f, evict_entry, x) m
    ]
  ]

  Moves-evict :
      (id : String) (p : WorkspacePool)
      → Moves c (registry_of p)
      → Moves c (registry_of (evict id p).0)
  unfolding evict
  Moves-evict id p m = elim (Bool-cases (is_opening id p.opening)) [
    | inl e ↦ rw e m
    | inr e ↦ rw e (Moves-evict_entry (get id p.entries) p m)
  ]

  Moves-evicted :
      (h : ℕ) (o : Option Entry) (ok : Bool) (p : WorkspacePool)
      → get h p.objects ≡ o
      → Moves c (registry_of p)
      → Moves c (registry_of (evicted h o ok p).0)
  unfolding evicted
  Moves-evicted h none ok p g m = m
  Moves-evicted h (some e) ok p g m =
      elim (Bool-cases (any (λ j. j == h) p.evicting && is_drained e)) [
        | inl t ↦ rw t (search (Moves-finish_closing, Moves-evicting, g, m))
        | inr t ↦ rw t m
      ]

  Moves-shut_entry :
      (h : ℕ) (o : Option Entry) (p : WorkspacePool)
      → Moves c (registry_of p)
      → Moves c (registry_of (shut_entry h o p))
  unfolding shut_entry on_object registry_of
  Moves-shut_entry h none p m = m
  Moves-shut_entry h (some e) p m = after m (
      touches (registry_of p) h
        (λ x. record x { coordinator = Operations.begin_shutdown x.coordinator })
        (λ x. (refl, refl, refl)))

  Moves-shut_entries :
      (m : List (String × ℕ)) (p : WorkspacePool)
      → Moves c (registry_of p)
      → Moves c (registry_of (shut_entries m p))
  unfolding shut_entries
  Moves-shut_entries [] p m = m
  Moves-shut_entries ((id, h) ∷ xs) p m =
      Moves-shut_entries xs (shut_entry h (get h p.objects) p)
        (Moves-shut_entry h (get h p.objects) p m)

  Moves-begin_shutdown :
      (p : WorkspacePool) → Moves c (registry_of p) → Moves c (registry_of (begin_shutdown p))
  unfolding begin_shutdown
  Moves-begin_shutdown p m =
      Moves-shut_entries p.entries _ (unfold registry_of in after m (shuts (registry_of p)))

  Moves-close_drained :
      (h : ℕ) (o : Option Entry) (ok : Bool) (p : WorkspacePool)
      → get h p.objects ≡ o
      → Moves c (registry_of p)
      → Moves c (registry_of (close_drained h o ok p))
  unfolding close_drained registry_of
  Moves-close_drained h none ok p g m = m
  Moves-close_drained h (some e) ok p g m = search (Moves-finish_closing, g, m)

  Moves-close_each :
      (hs : List ℕ) (closes : ℕ → Bool) (p : WorkspacePool)
      → Moves c (registry_of p)
      → Moves c (registry_of (close_each hs closes p))
  unfolding close_each
  Moves-close_each [] ok p m = m
  Moves-close_each (h ∷ hs) ok p m =
      Moves-close_each hs ok (close_drained h (get h p.objects) (ok h) p)
        (Moves-close_drained h (get h p.objects) (ok h) p refl m)

  Moves-drained :
      (closes : ℕ → Bool) (p : WorkspacePool)
      → Moves c (registry_of p)
      → Moves c (registry_of (drained closes p))
  unfolding drained
  Moves-drained ok p m = search (Moves-if, Moves-close_each, Moves-draining, m)

  Moves-close_all :
      (p : WorkspacePool) → Moves c (registry_of p) → Moves c (registry_of (close_all p))
  unfolding close_all
  Moves-close_all p m = search (Moves-draining, Moves-begin_shutdown, m)

  Moves-coordinate :
      (h : ℕ) (call : Operations.Call) (o : Option Entry) (p : WorkspacePool)
      → Moves c (registry_of p)
      → Moves c (registry_of (coordinate h call o p))
  unfolding coordinate registry_of
  Moves-coordinate h call none p m = m
  Moves-coordinate h call (some e) p m = elim (Option-cases (get e.id p.entries)) [
    | inl x ↦ rw (x, coordinate) stepped
    | inr (j, x) ↦ rw (x, coordinate) (search (Moves-if, stepped))
  ]
    where
      stepped : Moves c (
          registry_of
            (on_object h (λ x. record x { coordinator = Operations.step e.coordinator call }) p))
      stepped = search (Moves-on_object, m)

  Moves-step :
      (p : WorkspacePool) (e : Event) → Moves c (registry_of p) → Moves c (registry_of (step p e))
  unfolding step
  Moves-step p (acquires id) m = Moves-acquire id p m
  Moves-step p (evicts id) m = Moves-evict id p m
  Moves-step p (goes_on id ok now) m =
      Moves-go_on (find? (λ o. str_eq o.id id) p.opening) ok now p m
  Moves-step p (resumes r now) m = Moves-resume (find? (λ w. w.number == r) p.waiting) now p m
  Moves-step p (releases r now) m = Moves-release r now (get r p.leases) p refl m
  Moves-step p (ends_evict h ok) m = Moves-evicted h (get h p.objects) ok p refl m
  Moves-step p (coordinates h call) m = Moves-coordinate h call (get h p.objects) p m
  Moves-step p begins_shutdown m = Moves-begin_shutdown p m
  Moves-step p closes_all m = Moves-close_all p m
  Moves-step p (drains ok) m = Moves-drained ok p m
  Moves-step p (registers ids) m = Moves-registry ids p m

Moves-run_after :
    (c : Registry) (p : WorkspacePool) (es : List Event)
    → Moves c (registry_of p)
    → Moves c (registry_of (run p es))
unfolding run
Moves-run_after c p [] m = m
Moves-run_after c p (e ∷ es) m = Moves-run_after c (step p e) es (Moves-step p e m)

-- Whatever calls come in whatever order, the objects, the map, the leases and the closed gate of the
-- pool change by moves of the registry only: new objects and leases while the gate is open, one count
-- per lease, and no handle that is closed with its id left in the map.
pub run-Moves :
    (p : WorkspacePool) (es : List Event) → Moves (registry_of p) (registry_of (run p es))
run-Moves p es = Moves-run_after (registry_of p) p es still
