-- ===== src/Uptime/Poll.antt =====
-- apps/worker/src/uptime/poller.ts, `countTrailingFailures` and `pollSite`. The tables `sites` and
-- `uptime_events` are a function of the site's id and a list in the order of insertion. Times are
-- milliseconds, and 0 is `to_timestamp(0)`. The result of the probe is an argument.
use mathlib.Core.Option
use scan_pal.Common.{
  ℕ, max, Option, none, some, List, [], ◌∷◌, ◌++◌, Bool, ◌&&◌, String, ltb, ◌==◌, if◌then◌else◌,
  count, put,
}
use scan_pal.Uptime.State.{
  SiteStatus, up, down, is_up, is_down, TransitionResult, transition_uptime_state,
}

pub record ProbeResult : Type 0 where
  pub ok : Bool
  pub status : SiteStatus
  pub latency_ms : Option ℕ
  pub status_code : Option ℕ
  pub error : Option String

pub record UptimeEvent : Type 0 where
  pub site_id : ℕ
  pub status : SiteStatus
  pub latency_ms : Option ℕ
  pub status_code : Option ℕ
  pub error : Option String
  pub checked_at : ℕ

pub record UptimeSiteRow : Type 0 where
  pub id : ℕ
  pub team_id : ℕ
  pub url : String
  pub uptime_state : SiteStatus
  pub uptime_state_changed_at : Option ℕ

pub record Store : Type 0 where
  pub sites : ℕ → Option UptimeSiteRow
  pub events : List UptimeEvent

pub data NotificationType : Type 0 where
  site_down site_recovered : NotificationType

pub record NotifyInput : Type 0 where
  pub type : NotificationType
  pub team_id : ℕ
  pub entity_id : ℕ
  pub incident_id : ℕ
  pub site_name : String

-- `coalesce((select max(checked_at) ... where status = 'up'), to_timestamp(0))`.
unfoldable pub last_up : ℕ → List UptimeEvent → ℕ
last_up site [] = 0
last_up site (e ∷ es) =
    let rest = last_up site es in
    if e.site_id == site && is_up e.status then max e.checked_at rest else rest

abbrev pub is_failure_after : ℕ → ℕ → UptimeEvent → Bool
is_failure_after site t e = e.site_id == site && is_down e.status && ltb t e.checked_at

unfoldable pub count_trailing_failures : ℕ → List UptimeEvent → ℕ
count_trailing_failures site events = count (is_failure_after site (last_up site events)) events

abbrev pub event_of : ℕ → ℕ → ProbeResult → UptimeEvent
event_of site sql_now result = record {
  site_id = site;
  status = result.status;
  latency_ms = result.latency_ms;
  status_code = result.status_code;
  error = result.error;
  checked_at = sql_now;
}

unfoldable pub transition_of : ProbeResult → UptimeSiteRow → Store → TransitionResult
transition_of result site store = transition_uptime_state (record {
  previous_state = site.uptime_state;
  consecutive_failures = count_trailing_failures site.id store.events;
  probe_ok = result.ok;
})

-- `set uptime_state = $2, uptime_state_changed_at = $3`.
abbrev pub with_state : SiteStatus → ℕ → UptimeSiteRow → UptimeSiteRow
with_state s now row = record row { uptime_state = s; uptime_state_changed_at = some now }

-- The incident of a recovery is the moment at which the site went down.
abbrev incident_of : SiteStatus → Option ℕ → ℕ → ℕ
incident_of up (some since) now = since
incident_of _ _ now = now

abbrev type_of : SiteStatus → NotificationType
type_of down = site_down
type_of _ = site_recovered

-- `sql_now` is the time of the insert, `now` that of the round.
unfoldable pub poll_site :
    (sql_now now : ℕ) → ProbeResult → UptimeSiteRow → Store → Store × Option NotifyInput
unfolding transition_of
poll_site sql_now now result site store =
    let t = transition_of result site store in
    (
      record {
        sites =
            if t.changed
            then put site.id (Option.map (with_state t.state now) (store.sites site.id)) store.sites
            else store.sites;
        events = store.events ++ event_of site.id sql_now result ∷ [];
      },
      if t.changed
          then some (record {
            type = type_of t.state;
            team_id = site.team_id;
            entity_id = site.id;
            incident_id = incident_of t.state site.uptime_state_changed_at now;
            site_name = site.url;
          })
          else none,
    )
