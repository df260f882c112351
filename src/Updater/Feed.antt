-- ===== src/Updater/Feed.antt =====
-- The update feed of `DesktopUpdater` (desktop/src/updater.ts).
use misgeret.Base.{
  ◌≡◌, refl, ◌↔◌, ◌≢◌, Bool, true, false, not, ◌&&◌, ◌||◌, Option, some, List, [], ◌∷◌, Bool-cases,
  inl, inr, arith,
}
use misgeret.Updater.{
  disabled, DesktopUpdater, Host, Url, Protocol, https, http, other_protocol, Event, create,
  is_feed, is_secure, is_downloaded, publish, configure, check, hourly, quit_and_install,
  update_ready, or_same, step, run, configures, closes_window, installs_update, checks_now,
  hour_passes, hears,
}

-- No check was made and no update installed, and none can be.
abbrev pub IsInert : Bool → DesktopUpdater → Type 0
IsInert packaged u =
    ((u.has_feed && packaged) ≡ false)
    × (u.configured ≡ false)
    × (u.status ≡ disabled)
    × (u.checks ≡ 0)
    × (u.installs ≡ 0)

publish-IsInert :
    (packaged : Bool) (u : DesktopUpdater)
    → IsInert packaged u
    → IsInert packaged (publish u.status u)
unfolding publish
publish-IsInert packaged u i = elim (Bool-cases u.listening) [ inl e ↦ rw e i | inr e ↦ rw e i ]

guard : (a b : Bool) → (a && b) ≡ false → (not a || not b) ≡ true
guard a b h = ground arith

refused : (c a b : Bool) → (a && b) ≡ false → (c || not a || not b) ≡ true
refused c a b h = ground arith

step-IsInert :
    (host : Host) (u : DesktopUpdater) (e : Event)
    → IsInert host.is_packaged u
    → IsInert host.is_packaged (step host u e)
unfolding step configure check hourly or_same quit_and_install update_ready is_downloaded
step-IsInert host u configures (f, c, s, n, k) =
    rw (refused u.configured u.has_feed host.is_packaged f)
      (publish-IsInert host.is_packaged (record u { listening = true }) (f, c, s, n, k))
step-IsInert host u closes_window (f, c, s, n, k) = rw c (f, refl, s, n, k)
step-IsInert host u installs_update (f, c, s, n, k) = rw s (f, c, refl, n, k)
step-IsInert host u (checks_now throws) (f, c, s, n, k) =
    rw (guard u.has_feed host.is_packaged f) (f, c, s, n, k)
step-IsInert host u (hour_passes throws) (f, c, s, n, k) =
    rw (guard u.has_feed host.is_packaged f) (f, c, s, n, k)
step-IsInert host u (hears news) (f, c, s, n, k) = rw c (f, refl, s, n, k)

run-IsInert_from :
    (host : Host) (u : DesktopUpdater) (es : List Event)
    → IsInert host.is_packaged u
    → IsInert host.is_packaged (run host u es)
unfolding run
run-IsInert_from host u [] i = i
run-IsInert_from host u (e ∷ es) i =
    run-IsInert_from host (step host u e) es (step-IsInert host u e i)

-- If the app is not packaged, or the candidate is no feed that may be used (no Windows, no candidate,
-- no address, one with credentials, or one that is not https), then whatever happens the updater
-- stays disabled, never checks and never installs.
pub run-IsInert :
    (host : Host) (candidate : Option (Option Url)) (es : List Event)
    → (is_feed host candidate && host.is_packaged) ≡ false
    → IsInert host.is_packaged (run host (create host candidate) es)
unfolding create
run-IsInert host candidate es h =
    run-IsInert_from host (create host candidate) es (h, refl, rw h refl, refl, refl)

-- A packaged app takes a feed exactly if it runs on Windows and the candidate is an https address
-- without credentials, also where insecure feeds are allowed.
pub is_feed_iff :
    (host : Host) (url : Url)
    → host.is_packaged ≡ true
    → (is_feed host (some (some url)) ≡ true)
      ↔ ((host.is_windows ≡ true) × (url.has_credentials ≡ false) × (url.protocol ≡ https))
unfolding is_feed is_secure
is_feed_iff host url p = by_protocol url.protocol refl
  where
    http≢https : http ≢ https
    http≢https z = cc

    other≢https : other_protocol ≢ https
    other≢https z = cc

    by_protocol :
        (q : Protocol)
        → url.protocol ≡ q
        → (is_feed host (some (some url)) ≡ true)
          ↔ ((host.is_windows ≡ true) × (url.has_credentials ≡ false) × (url.protocol ≡ https))
    by_protocol https e = rw e (ground arith)
    by_protocol http e = rw (e, p) (ground (arith, http≢https))
    by_protocol other_protocol e = rw e (ground (arith, other≢https))
