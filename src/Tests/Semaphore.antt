-- ===== src/Tests/Semaphore.antt =====
-- Concrete runs of the scrape semaphore.
use misgeret.Base.{[], ◌∷◌}
use misgeret.Semaphore.{create, acquires, releases, run}
use misgeret.Semaphore.Laws.{IsFair, run-IsFair}

run-IsFair_example :
    IsFair 2
      (run (create 2) (acquires ∷ acquires ∷ acquires ∷ releases 0 ∷ releases 0 ∷ acquires ∷ []))
run-IsFair_example =
    run-IsFair 2 (acquires ∷ acquires ∷ acquires ∷ releases 0 ∷ releases 0 ∷ acquires ∷ [])
