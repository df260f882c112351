-- ===== src/Pool/Shutdown.antt =====
-- What is left to `WorkspacePool` (server/src/workspaces.ts) once it is closed.
use mathlib.Core.Bool.{false≢true}
use misgeret.Base.{ℕ, ◌≡◌, refl, sym, ◌∙◌, true, none, List, [], ◌∷◌, String, arith}
use misgeret.Base.Dict.{get, nat_eq, string_eq}
use misgeret.Pool.{WorkspacePool, drop_lease}
use misgeret.Pool.Objects.{get-drop_key}
use misgeret.Pool.Calls.{Event, run}
use misgeret.Pool.Registries.{
  Registry, registry_of, Move, Moves, touches, closes, adds, lends, gives_back, shuts, still, after,
}
use misgeret.Pool.Moves.{run-Moves}

-- From `c` to `d` the gate stays closed, and no lease and no id of the map came up.
abbrev pub IsAdmittingNone : Registry → Registry → Type 0
IsAdmittingNone c d =
    (d.closed ≡ true)
    × ((r : ℕ) → get r c.leases ≡ none → get r d.leases ≡ none)
    × ((id : String) → get id c.entries ≡ none → get id d.entries ≡ none)

get-drop_lease : (r k : ℕ) (m : List (ℕ × ℕ)) → get r m ≡ none → get r (drop_lease k m) ≡ none
unfolding get drop_lease
get-drop_lease r k [] h = refl
get-drop_lease r k ((j, a) ∷ m) h = ground (arith, get-drop_lease r k m)

IsAdmittingNone-Move : {c d : Registry} → Move c d → c.closed ≡ true → IsAdmittingNone c d
IsAdmittingNone-Move (touches c h f k) s = (s, (λ r g. g), (λ id g. g))
IsAdmittingNone-Move (closes c h e ok k) s =
    (s, (λ r g. g), (λ id g. get-drop_key id e.id c.entries g))
IsAdmittingNone-Move (adds c id now g) s = absurd (false≢true (sym g ∙ s))
IsAdmittingNone-Move (lends c r h e now g k) s = absurd (false≢true (sym g ∙ s))
IsAdmittingNone-Move (gives_back c r h now k) s =
    (s, (λ j g. get-drop_lease j r c.leases g), (λ id g. g))
IsAdmittingNone-Move (shuts c) s = (refl, (λ r g. g), (λ id g. g))

IsAdmittingNone-Moves : {c d : Registry} → Moves c d → c.closed ≡ true → IsAdmittingNone c d
IsAdmittingNone-Moves still s = (s, (λ r g. g), (λ id g. g))
IsAdmittingNone-Moves (after m k) s = (
  (IsAdmittingNone-Move k (IsAdmittingNone-Moves m s).0).0,
  (λ r g.
      (IsAdmittingNone-Move k (IsAdmittingNone-Moves m s).0).1 r
        ((IsAdmittingNone-Moves m s).1 r g)),
  (λ id g.
      (IsAdmittingNone-Move k (IsAdmittingNone-Moves m s).0).2 id
        ((IsAdmittingNone-Moves m s).2 id g)),
)

-- Once the pool is closed it stays closed: whatever calls follow, also those whose open was in flight,
-- none gets a lease that it did not have, and no profile comes into the map.
pub run-IsAdmittingNone :
    (p : WorkspacePool) (es : List Event)
    → p.closed ≡ true
    → IsAdmittingNone (registry_of p) (registry_of (run p es))
unfolding registry_of
run-IsAdmittingNone p es s = IsAdmittingNone-Moves (run-Moves p es) s
