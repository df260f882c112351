-- ===== src/Tests/Hub.antt =====
-- Concrete runs of the coordinator hub.
use misgeret.Base.{List, [], ◌∷◌}
use misgeret.Operations.{syncing, backing_up, idle, busy}
use misgeret.Hub.{init, Call, adds, emits, removes, run}
use misgeret.Hub.Laws.{IsExact, run-IsExact}

-- Two workspaces open, one syncs, the other one backs up and leaves.
abbrev day_of_work : List Call
day_of_work =
    adds "home" idle
    ∷ adds "shop" idle
    ∷ emits "shop" (busy syncing)
    ∷ emits "home" (busy backing_up)
    ∷ removes "home"
    ∷ []

run-IsExact_example : IsExact (run init day_of_work)
run-IsExact_example = run-IsExact day_of_work
