-- ===== src/RuntimeManager/Timeout.antt =====
-- The time that `RuntimeManager` (desktop/src/runtime-manager.ts) gives a shutdown.
use misgeret.Base.{ℕ, ◌+◌, ◌*◌, ◌≤◌, ◌≡◌, some, arith}
use misgeret.RuntimeManager.{min_ℕ, workspaces, shutdown_timeout_ms_for}

-- The time for a shutdown is at least 15 and at most 45 seconds, it does not fall when a workspace
-- more is open, and for 7 open workspaces or fewer, but at least one, it is ten seconds and five more
-- for each.
pub shutdown_timeout_ms_for_bounds :
    (n : ℕ)
    → (15000 ≤ shutdown_timeout_ms_for (some n))
      × (shutdown_timeout_ms_for (some n) ≤ 45000)
      × (shutdown_timeout_ms_for (some n) ≤ shutdown_timeout_ms_for (some (n + 1)))
      × (1 ≤ n → n ≤ 7 → shutdown_timeout_ms_for (some n) ≡ 10000 + 5000 * n)
unfolding shutdown_timeout_ms_for min_ℕ workspaces
shutdown_timeout_ms_for_bounds n = (ground arith, ground arith, ground arith, λ l h. ground arith)
