-- ===== src/Semaphore.antt =====
-- `createScrapeSemaphore` and `once` of server/src/workspaces.ts: at most `limit` headless browsers.
-- A request is a number in the order of arrival. `holders` are the requests whose permit was given
-- and not released yet: the flag of `once` is clear exactly for them. `admitted` lists the requests
-- in the order in which their promises were resolved.
pub mod Laws
use misgeret.Base.{
  ℕ, ◌+◌, ◌-◌, Bool, true, false, ◌||◌, List, [], ◌∷◌, ◌++◌, ltb, ◌==◌, if◌then◌else◌,
}

pub record Semaphore : Type 0 where
  pub available : ℕ
  pub waiting : List ℕ
  pub holders : List ℕ
  pub admitted : List ℕ
  pub arrived : ℕ

abbrev pub create : ℕ → Semaphore
create limit = record { available = limit; waiting = []; holders = []; admitted = []; arrived = 0 }

-- resolve(once(release)) for request `i`
unfoldable pub give : Semaphore → ℕ → Semaphore
give s i = record s { holders = i ∷ s.holders; admitted = s.admitted ++ i ∷ [] }

unfoldable pub acquire : Semaphore → Semaphore
unfolding give
acquire s =
    if ltb 0 s.available
    then give (record s { available = s.available - 1; arrived = s.arrived + 1 }) s.arrived
    else record s { waiting = s.waiting ++ s.arrived ∷ []; arrived = s.arrived + 1 }

unfoldable pub is_listed : ℕ → List ℕ → Bool
is_listed i [] = false
is_listed i (j ∷ js) = i == j || is_listed i js

unfoldable pub erase : ℕ → List ℕ → List ℕ
erase i [] = []
erase i (j ∷ js) = if i == j then js else j ∷ erase i js

-- const next = waiting.shift(); if (next) { next(); return; } available += 1;
unfoldable pub pass_on : List ℕ → Semaphore → Semaphore
unfolding give
pass_on [] s = record s { available = s.available + 1 }
pass_on (next ∷ rest) s = give (record s { waiting = rest }) next

-- The permit of request `i` is released: its `once` lets the first call through.
unfoldable pub release : Semaphore → ℕ → Semaphore
unfolding is_listed erase pass_on
release s i =
    if is_listed i s.holders
    then pass_on s.waiting (record s { holders = erase i s.holders })
    else s

pub data Call : Type 0 where
  acquires : Call
  releases : ℕ → Call

unfoldable pub step : Semaphore → Call → Semaphore
step s acquires = acquire s
step s (releases i) = release s i

unfoldable pub run : Semaphore → List Call → Semaphore
run s [] = s
run s (c ∷ cs) = run (step s c) cs
