-- ===== src/Tests/Pool.antt =====
-- Runs of the model of `WorkspacePool`.
use misgeret.Base.{
  find?, any, filter, all, ◌≡◌, refl, Bool, true, false, Option, none, some, List, [], ◌∷◌, ◌++◌,
  String,
}
use misgeret.Base.Dict.{Distinct, get, nat_eq, string_eq}
use misgeret.Operations
use misgeret.Operations.{idle}
use misgeret.Pool.{WorkspacePool, init, Entry}
use misgeret.Pool.Calls.{Event, acquires, goes_on, resumes, releases, begins_shutdown, run}
use misgeret.Pool.Counts.{held, run-refcount}
use misgeret.Pool.Served.{serves, run-IsServing}
use misgeret.Pool.Shutdown.{IsAdmittingNone, run-IsAdmittingNone}
use misgeret.Pool.Eviction.{IsFree, Closes, IsRefused, evict_lem}
use misgeret.Pool.Registries.{Moves, registry_of}
use misgeret.Pool.Moves.{run-Moves}

abbrev ids : List String
ids = "a" ∷ "b" ∷ "c" ∷ []

-- Profiles a and b are opened and leased with a cap of one, and given back.
abbrev two_open : List Event
two_open =
    acquires "a"
    ∷ goes_on "a" true 1
    ∷ resumes 0 2
    ∷ acquires "b"
    ∷ goes_on "b" true 3
    ∷ resumes 1 4
    ∷ releases 0 5
    ∷ releases 1 6
    ∷ []

-- Then c is opened, and b leased while the cap closes a.
abbrev leased_meanwhile : List Event
leased_meanwhile =
    two_open
    ++ acquires "c"
      ∷ goes_on "c" true 7
      ∷ acquires "b"
      ∷ resumes 3 8
      ∷ goes_on "c" true 9
      ∷ goes_on "c" true 10
      ∷ []

abbrev is_open_of : Option Entry → Option Bool
is_open_of none = none
is_open_of (some e) = some e.is_open

abbrev end : WorkspacePool
end = run (init 1 ids) leased_meanwhile

-- The profile b is leased and its database is closed.
closed_while_leased : (held 1 end.leases ≡ 1) × (is_open_of (get 1 end.objects) ≡ some false)
unfolding get run find? any filter Operations.emit_state
closed_while_leased = (refl, refl)

abbrev one_leased : List Event
one_leased = acquires "a" ∷ goes_on "a" true 1 ∷ resumes 0 2 ∷ acquires "b" ∷ []

abbrev leased : Entry
leased = record {
  id = "a";
  refcount = 1;
  coordinator = Operations.init;
  last_used = 2;
  is_open = true;
}

run-Moves_example :
    Moves (registry_of (init 1 ids)) (registry_of (run (init 1 ids) leased_meanwhile))
run-Moves_example = run-Moves (init 1 ids) leased_meanwhile

run-refcount_example : 1 ≡ held 0 (run (init 1 ids) one_leased).leases
unfolding get run find? any filter Operations.emit_state
run-refcount_example = run-refcount 1 ids one_leased 0 leased refl

run-IsServing_example :
    (all
        (serves (run (init 1 ids) leased_meanwhile).objects)
        (run (init 1 ids) leased_meanwhile).entries
      ≡ true)
    × Distinct (run (init 1 ids) leased_meanwhile).entries
run-IsServing_example = run-IsServing 1 ids leased_meanwhile

abbrev closed_pool : WorkspacePool
closed_pool = run (init 1 ids) (one_leased ++ begins_shutdown ∷ [])

abbrev afterwards : List Event
afterwards = goes_on "b" true 3 ∷ acquires "a" ∷ resumes 2 4 ∷ []

run-IsAdmittingNone_example :
    IsAdmittingNone (registry_of closed_pool) (registry_of (run closed_pool afterwards))
unfolding get run find? any filter Operations.emit_state
run-IsAdmittingNone_example = run-IsAdmittingNone closed_pool afterwards refl

evict_lem_example :
    (IsFree "a" 0 leased (run (init 1 ids) one_leased) → Closes "a" 0 (run (init 1 ids) one_leased))
    × (¬ IsFree "a" 0 leased (run (init 1 ids) one_leased)
        → IsRefused "a" (run (init 1 ids) one_leased))
unfolding get run find? any filter Operations.emit_state
evict_lem_example = evict_lem 1 ids one_leased "a" 0 leased refl refl
