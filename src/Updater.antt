-- ===== src/Updater.antt =====
-- `DesktopUpdater` of desktop/src/updater.ts: the state of the update of a packaged Windows app.
-- The platform's updater is outside: what it reports is an event, and whether a call of it throws is a
-- flag. A candidate for the feed's address is none where there is none, and what the URL parser makes
-- of it, which is none where that throws. Texts of the states are left out.
pub mod Feed
use misgeret.Base.{
  ℕ, ◌+◌, Bool, true, false, not, ◌&&◌, ◌||◌, Option, none, some, List, [], ◌∷◌, if◌then◌else◌,
}

pub data UpdateStatus : Type 0 where
  disabled idle checking available downloading downloaded not_available error : UpdateStatus

pub data Protocol : Type 0 where
  https http other_protocol : Protocol

pub record Url : Type 0 where
  pub protocol : Protocol
  pub has_credentials : Bool

-- What does not change while the app runs.
pub record Host : Type 0 where
  pub is_windows : Bool
  pub is_packaged : Bool
  pub allows_insecure_feed : Bool

pub record DesktopUpdater : Type 0 where
  pub status : UpdateStatus
  pub has_feed : Bool
  pub configured : Bool
  pub listening : Bool
  pub told : List UpdateStatus
  pub checks : ℕ
  pub installs : ℕ

-- url.protocol !== 'https:' && !(allowDevelopmentHttp && url.protocol === 'http:')
unfoldable pub is_secure : Host → Protocol → Bool
is_secure host https = true
is_secure host http = not host.is_packaged && host.allows_insecure_feed
is_secure host other_protocol = false

unfoldable pub is_feed : Host → Option (Option Url) → Bool
unfolding is_secure
is_feed host none = false
is_feed host (some none) = false
is_feed host (some (some url)) =
    host.is_windows && not url.has_credentials && is_secure host url.protocol

-- The constructor.
unfoldable pub create : Host → Option (Option Url) → DesktopUpdater
unfolding is_feed
create host candidate = record {
  status = if is_feed host candidate && host.is_packaged then idle else disabled;
  has_feed = is_feed host candidate;
  configured = false;
  listening = false;
  told = [];
  checks = 0;
  installs = 0;
}

unfoldable pub is_downloaded : UpdateStatus → Bool
is_downloaded downloaded = true
is_downloaded _ = false

-- get updateReady()
unfoldable pub update_ready : DesktopUpdater → Bool
unfolding is_downloaded
update_ready u = is_downloaded u.status

unfoldable pub publish : UpdateStatus → DesktopUpdater → DesktopUpdater
publish st u =
    if u.listening then record u { status = st; told = st ∷ u.told } else record u { status = st }

unfoldable pub configure : Host → DesktopUpdater → DesktopUpdater
unfolding publish
configure host u =
    let listened = record u { listening = true } in
    if u.configured || not u.has_feed || not host.is_packaged
    then publish u.status listened
    else record listened { configured = true }

-- ['checking', 'available', 'downloading', 'downloaded'].includes(status)
unfoldable pub is_under_way : UpdateStatus → Bool
is_under_way checking = true
is_under_way available = true
is_under_way downloading = true
is_under_way downloaded = true
is_under_way _ = false

-- `throws` tells that checkForUpdates throws.
unfoldable pub check : Host → Bool → DesktopUpdater → DesktopUpdater
unfolding is_under_way publish
check host throws u =
    if not u.has_feed || not host.is_packaged
    then u
    else if is_under_way u.status
    then u
    else let asked = record (publish checking u) { checks = u.checks + 1 } in
      if throws then publish error asked else asked

-- The timer of `scheduleInitialCheck` that runs every hour, which is set where there is a feed.
unfoldable pub hourly : Host → Bool → DesktopUpdater → DesktopUpdater
unfolding is_downloaded check
hourly host throws u =
    if not u.has_feed || not host.is_packaged
    then u
    else if not (is_downloaded u.status)
    then check host throws u
    else u

unfoldable pub quit_and_install : DesktopUpdater → Option DesktopUpdater
unfolding update_ready
quit_and_install u =
    if not (update_ready u) then none else some (record u { installs = u.installs + 1 })

unfoldable pub is_available : UpdateStatus → Bool
is_available available = true
is_available _ = false

-- What the platform's updater reports, and the timer that its 'update-available' sets.
pub data News : Type 0 where
  checking_for_update update_available update_not_available update_downloaded failed : News
  quarter_second_passed : News

unfoldable pub on_news : News → DesktopUpdater → DesktopUpdater
unfolding publish is_available
on_news checking_for_update u = publish checking u
on_news update_available u = publish available u
on_news update_not_available u = publish not_available u
on_news update_downloaded u = publish downloaded u
on_news failed u = publish error u
on_news quarter_second_passed u = if is_available u.status then publish downloading u else u

pub data Event : Type 0 where
  configures closes_window installs_update : Event
  checks_now hour_passes : Bool → Event
  hears : News → Event

unfoldable pub or_same : DesktopUpdater → Option DesktopUpdater → DesktopUpdater
or_same u none = u
or_same u (some v) = v

-- The updater's news are heard once `configure` has registered for them.
unfoldable pub step : Host → DesktopUpdater → Event → DesktopUpdater
unfolding configure check hourly quit_and_install or_same on_news
step host u configures = configure host u
step host u closes_window = if u.configured then record u { listening = false } else u
step host u installs_update = or_same u (quit_and_install u)
step host u (checks_now throws) = check host throws u
step host u (hour_passes throws) = hourly host throws u
step host u (hears news) = if u.configured then on_news news u else u

unfoldable pub run : Host → DesktopUpdater → List Event → DesktopUpdater
unfolding step
run host u [] = u
run host u (e ∷ es) = run host (step host u e) es
