-- ===== src/Pool/Registries.antt =====
-- The registry of `WorkspacePool` (server/src/workspaces.ts): the objects, the map, the leases and the
-- closed gate without the promises, the hub and the openings, and its moves.
use misgeret.Base.{
  ℕ, ◌+◌, ◌-◌, ◌≡◌, refl, Bool, true, false, not, ◌&&◌, Option, some, List, ◌∷◌, if◌then◌else◌,
  String,
}
use misgeret.Base.Dict.{get, update, nat_eq, string_eq}
use misgeret.Operations
use misgeret.Hub
use misgeret.Pool.{
  Fault, Entry, Request, WorkspacePool, adjust, on_object, drop_key, drop_lease, reject, awaits,
  start_opening, arrive, finish_opening, fail_opening, start_closing, finish_closing,
}
use misgeret.Pool.Calls.{set_cap, new_entry}

pub record Registry : Type 0 where
  pub objects : List (ℕ × Entry)
  pub entries : List (String × ℕ)
  pub leases : List (ℕ × ℕ)
  pub made : ℕ
  pub closed : Bool

unfoldable pub registry_of : WorkspacePool → Registry
registry_of p = record {
  objects = p.objects;
  entries = p.entries;
  leases = p.leases;
  made = p.made;
  closed = p.closed;
}

abbrev pub IsKept : (Entry → Entry) → Type 0
IsKept f =
    (e : Entry) → ((f e).refcount ≡ e.refcount) × ((f e).id ≡ e.id) × ((f e).is_open ≡ e.is_open)

pub data Move : Registry → Registry → Type 0 where
  -- An object changes and keeps its id, its count and its handle.
  touches :
      (c : Registry) (h : ℕ) (f : Entry → Entry)
      → IsKept f
      → Move c (record c { objects = adjust h f c.objects })
  -- The handle of an object is closed and its id leaves the map.
  closes :
      (c : Registry) (h : ℕ) (e : Entry) (ok : Bool)
      → get h c.objects ≡ some e
      → Move c (record c {
        objects = adjust h (λ x. record x { is_open = x.is_open && not ok }) c.objects;
        entries = drop_key e.id c.entries;
      })
  -- Before the gate closes, a new object is put in the map, unleased.
  adds :
      (c : Registry) (id : String) (now : ℕ)
      → c.closed ≡ false
      → Move c (record c {
        objects = (c.made, new_entry id now) ∷ c.objects;
        made = c.made + 1;
        entries = update id (λ h. c.made) c.made c.entries;
      })
  -- Before the gate closes, an object is leased.
  lends :
      (c : Registry) (r h : ℕ) (e : Entry) (now : ℕ)
      → c.closed ≡ false
      → get h c.objects ≡ some e
      → Move c (record c {
        objects = adjust h (λ x. record x { refcount = x.refcount + 1; last_used = now }) c.objects;
        leases = (r, h) ∷ c.leases;
      })
  -- A lease that is held is given back.
  gives_back :
      (c : Registry) (r h : ℕ) (now : ℕ)
      → get r c.leases ≡ some h
      → Move c (record c {
        objects = adjust h (λ x. record x { refcount = x.refcount - 1; last_used = now }) c.objects;
        leases = drop_lease r c.leases;
      })
  -- The gate closes.
  shuts : (c : Registry) → Move c (record c { closed = true })

pub data Moves (c : Registry) : Registry → Type 0 where
  still : Moves c c
  after : {d e : Registry} → Moves c d → Move d e → Moves c e

module _ {c : Registry} where
  pub Moves-if :
      (b : Bool) (p q : WorkspacePool)
      → (b ≡ true → Moves c (registry_of p))
      → (b ≡ false → Moves c (registry_of q))
      → Moves c (registry_of (if b then p else q))
  Moves-if true p q f g = f refl
  Moves-if false p q f g = g refl

  pub Moves-on_object :
      (h : ℕ) (f : Entry → Entry) (p : WorkspacePool)
      → IsKept f
      → Moves c (registry_of p)
      → Moves c (registry_of (on_object h f p))
  unfolding on_object registry_of
  Moves-on_object h f p k m = after m (touches (registry_of p) h f k)

  pub Moves-start_closing :
      (h : ℕ) (e : Entry) (p : WorkspacePool)
      → Moves c (registry_of p)
      → Moves c (registry_of (start_closing h e p))
  unfolding start_closing on_object registry_of
  Moves-start_closing h e p m = after m (
      touches (registry_of p) h
        (λ x. record x { coordinator = Operations.begin_shutdown x.coordinator })
        (λ x. (refl, refl, refl)))

  pub Moves-finish_closing :
      (h : ℕ) (e : Entry) (ok : Bool) (p : WorkspacePool)
      → get h p.objects ≡ some e
      → Moves c (registry_of p)
      → Moves c (registry_of (finish_closing h e ok p))
  unfolding finish_closing on_object registry_of
  Moves-finish_closing h e ok p g m = after m (closes (registry_of p) h e ok g)

  pub Moves-finish_opening :
      (id : String) (h : ℕ) (p : WorkspacePool)
      → Moves c (registry_of p)
      → Moves c (registry_of (finish_opening id h p))
  unfolding finish_opening registry_of
  Moves-finish_opening id h p m = m

  pub Moves-fail_opening :
      (id : String) (fault : Fault) (p : WorkspacePool)
      → Moves c (registry_of p)
      → Moves c (registry_of (fail_opening id fault p))
  unfolding fail_opening registry_of
  Moves-fail_opening id fault p m = m

  pub Moves-reject :
      (r : ℕ) (fault : Fault) (p : WorkspacePool)
      → Moves c (registry_of p)
      → Moves c (registry_of (reject r fault p))
  unfolding reject registry_of
  Moves-reject r fault p m = m

  pub Moves-awaits :
      (id : String) (entry : Option ℕ) (p : WorkspacePool)
      → Moves c (registry_of p)
      → Moves c (registry_of (awaits id entry p))
  unfolding awaits registry_of
  Moves-awaits id entry p m = m

  pub Moves-start_opening :
      (id : String) (p : WorkspacePool)
      → Moves c (registry_of p)
      → Moves c (registry_of (start_opening id p))
  unfolding start_opening registry_of
  Moves-start_opening id p m = m

  pub Moves-arrive :
      (p : WorkspacePool) → Moves c (registry_of p) → Moves c (registry_of (arrive p))
  unfolding arrive registry_of
  Moves-arrive p m = m

  pub Moves-waiting :
      (x : List Request) (p : WorkspacePool)
      → Moves c (registry_of p)
      → Moves c (registry_of (record p { waiting = x }))
  unfolding registry_of
  Moves-waiting x p m = m

  pub Moves-evicting :
      (x : List ℕ) (p : WorkspacePool)
      → Moves c (registry_of p)
      → Moves c (registry_of (record p { evicting = x }))
  unfolding registry_of
  Moves-evicting x p m = m

  pub Moves-draining :
      (x : List ℕ) (p : WorkspacePool)
      → Moves c (registry_of p)
      → Moves c (registry_of (record p { draining = x }))
  unfolding registry_of
  Moves-draining x p m = m

  pub Moves-hub :
      (x : Hub.Hub) (p : WorkspacePool)
      → Moves c (registry_of p)
      → Moves c (registry_of (record p { hub = x }))
  unfolding registry_of
  Moves-hub x p m = m

  pub Moves-registry :
      (x : List String) (p : WorkspacePool)
      → Moves c (registry_of p)
      → Moves c (registry_of (record p { registry = x }))
  unfolding registry_of
  Moves-registry x p m = m

  pub Moves-set_cap :
      (id : String) (h : ℕ) (hs : List ℕ) (p : WorkspacePool)
      → Moves c (registry_of p)
      → Moves c (registry_of (set_cap id h hs p))
  unfolding set_cap registry_of
  Moves-set_cap id h hs p m = m
