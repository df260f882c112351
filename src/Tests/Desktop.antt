-- ===== src/Tests/Desktop.antt =====
-- Concrete runs of the desktop's runtime manager and of its updater.
use misgeret.Base.{◌≡◌, ◌≢◌, refl, true, false, some, List, [], ◌∷◌, pos}
use misgeret.Operations.{idle}
use misgeret.RuntimeManager
use misgeret.RuntimeManager.{
  Outcome, started, ready, starts_up, exits, fails, startup_expires, settle, is_settled, on_exit,
  is_stopping, settle_error, settle_one, on_message, report, record_open_workspace_count, start,
  or_same, sends, step,
}
use misgeret.RuntimeManager.Exits.{on_exit_lem}
use misgeret.Updater
use misgeret.Updater.{Host, Url, http, configures, checks_now, create, is_feed, is_secure}
use misgeret.Updater.Feed.{IsInert, run-IsInert}

abbrev is_up : List RuntimeManager.Event
is_up = starts_up ∷ sends 0 (ready idle (some (pos 1)) "http://127.0.0.1") ∷ []

on_exit_lem_example :
    (is_settled 0 (on_exit 0 (RuntimeManager.run RuntimeManager.init is_up)).starts ≡ true)
    × (is_stopping 0 (on_exit 0 (RuntimeManager.run RuntimeManager.init is_up)).stops ≡ false)
    × ((on_exit 0 (RuntimeManager.run RuntimeManager.init is_up)).child ≢ some 0)
    × ((RuntimeManager.run RuntimeManager.init is_up).child ≢ some 0
        → (on_exit 0 (RuntimeManager.run RuntimeManager.init is_up)).child
          ≡ (RuntimeManager.run RuntimeManager.init is_up).child)
on_exit_lem_example = on_exit_lem 0 (RuntimeManager.run RuntimeManager.init is_up)

abbrev windows : Host
windows = record { is_windows = true; is_packaged = true; allows_insecure_feed = true }

abbrev plain : Url
plain = record { protocol = http; has_credentials = false }

run-IsInert_example :
    IsInert true (
      Updater.run windows (create windows (some (some plain))) (configures ∷ checks_now false ∷ []))
unfolding is_feed is_secure
run-IsInert_example =
    run-IsInert windows (some (some plain)) (configures ∷ checks_now false ∷ []) refl
