-- ===== src/Hosts/Heartbeat/Recovery.antt =====
-- `process_status` of host_health/ingest.py and `_check_one_host` of tasks/host_health_watchdog.py
-- over a history of events of one host.
use mathlib.Core.Path.{subst}
use alfaedge_pulse.Common.{
  ℕ, ◌≤◌, String, ◌≡◌, refl, sym, ap, ◌∙◌, Bool, false, Option, none, some, List, [], ◌∷◌, arith,
}
use alfaedge_pulse.Hosts.Heartbeat.{
  Timeouts, is_fresh, heartbeat_cutoff, MonitoredHost, check_one_host, host_key,
}
use alfaedge_pulse.Alerts.Dispatch.{AlertContext, Alerting}
use alfaedge_pulse.Alerts.Log.Laws.{open_rows}
use alfaedge_pulse.Hosts.Heartbeat.Tracking.{unreachable-check_one_host}
use alfaedge_pulse.Hosts.Status.{
  HostState, StatusReport, StatusSettings, StatusResult, process_status,
}
use alfaedge_pulse.Hosts.Benches.{Remote}
use alfaedge_pulse.Hosts.Sites.{Shown}
use alfaedge_pulse.Hosts.Services.{ServiceReport}
use alfaedge_pulse.Hosts.Status.Kept.{unreachable_key, process_status-IsReported, IsReported}

-- What happens to one host at a time: a status report comes, whose own time parses or not, or the
-- watchdog checks it.
pub data HostEvent : Type 0 where
  report : ℕ → Bool → StatusReport → HostEvent
  check : ℕ → HostEvent

abbrev pub event_time : HostEvent → ℕ
event_time (report t parses r) = t
event_time (check t) = t

-- The times never go back.
abbrev pub IsOrdered : ℕ → List HostEvent → Type 0
IsOrdered start [] = Unit
IsOrdered start (e ∷ es) = (start ≤ event_time e) × IsOrdered (event_time e) es

-- An offline host was last seen before the limit.
abbrev pub IsStale : Timeouts → ℕ → MonitoredHost → Type 0
IsStale t now host =
    host.is_online ≡ false → is_fresh (heartbeat_cutoff now t) host.last_seen ≡ false

is_fresh_later :
    (t : Timeouts) (last : Option ℕ) (now later : ℕ)
    → now ≤ later
    → is_fresh (heartbeat_cutoff now t) last ≡ false
    → is_fresh (heartbeat_cutoff later t) last ≡ false
unfolding is_fresh
is_fresh_later t none now later le h = refl
is_fresh_later t (some s) now later le h = ground arith

check_one_host-shape :
    (d : AlertContext) (t : Timeouts) (host : MonitoredHost) (a : Alerting)
    → let host' = (check_one_host d t host a).0 in
      (host'.name ≡ host.name)
      × (host'.is_online ≡ is_fresh (heartbeat_cutoff d.now t) host.last_seen)
      × (host'.last_seen ≡ host.last_seen)
unfolding check_one_host
check_one_host-shape d t host a = (refl, refl, refl)

-- The state after a report: the old one where it raised an error and was rolled back.
abbrev after_report : HostState → Option (StatusResult × HostState) → HostState
after_report h none = h
after_report h (some done) = done.1

module _ (r : Remote) (c : AlertContext) (s : StatusSettings) (t : Timeouts) (production : Bool)
    (shown : Shown) (fresh : ServiceReport → String) where
  pub host_event : HostEvent → HostState → HostState
  host_event (report now parses rep) h =
      after_report h
        (process_status r (record c { now = now }) s production shown fresh parses rep h)
  host_event (check now) h =
      let (host', a') = check_one_host (record c { now = now }) t h.host h.alerting in
      record h { host = host'; alerting = a' }

  pub host_events : List HostEvent → HostState → HostState
  host_events [] h = h
  host_events (e ∷ es) h = host_events es (host_event e h)

  -- What an event may do: it keeps the name, leaves the open rows in place, and leaves an offline
  -- host stale.
  abbrev IsHarmless : ℕ → HostState → HostState → Type 0
  IsHarmless now h h' =
      (h'.host.name ≡ h.host.name)
      × (open_rows (unreachable_key h) h.alerting.log
          ≤ open_rows (unreachable_key h) h'.alerting.log)
      × IsStale t now h'.host

  report-IsHarmless :
      (now : ℕ) (h : HostState) (o : Option (StatusResult × HostState))
      → IsStale t now h.host
      → IsReported h o
      → IsHarmless now h (after_report h o)
  report-IsHarmless now h none stale done = (refl, omega arith, stale)
  report-IsHarmless now h (some (result, h')) stale done =
      (done.0, omega (arith, done.2), λ offline. let online = done.1 in cc)

  host_event-IsHarmless :
      (e : HostEvent) (start : ℕ) (h : HostState)
      → start ≤ event_time e
      → IsStale t start h.host
      → IsHarmless (event_time e) h (host_event e h)
  host_event-IsHarmless (report now parses rep) start h le stale =
      let d = record c { now = now } in
      unfold host_event in
      report-IsHarmless now h _
        (λ offline. is_fresh_later t h.host.last_seen start now le (stale offline))
        (process_status-IsReported r d s production shown fresh parses rep h)
  host_event-IsHarmless (check now) start h le stale =
      let d = record c { now = now } in
      let rows = unreachable-check_one_host d t h.host h.alerting in
      let kept = check_one_host-shape d t h.host h.alerting in
      unfold host_event in
      (
        kept.0,
        ground (arith, rows, kept.1, is_fresh_later t h.host.last_seen start now),
        λ offline. rw kept.2 (sym kept.1 ∙ offline),
      )

  -- Over any history of status reports and checks of a host, in the order of their times and from a
  -- state where the host is online or was last seen before the limit, the open "Host Unreachable"
  -- rows of the host never become fewer, whatever the reports hold and whether or not they parse.
  pub host_events-never_recover :
      (es : List HostEvent) (start : ℕ) (h : HostState)
      → IsOrdered start es
      → IsStale t start h.host
      → open_rows (host_key h.host.name "Host Unreachable") h.alerting.log
        ≤ open_rows (host_key h.host.name "Host Unreachable") (host_events es h).alerting.log
  unfolding host_events
  host_events-never_recover [] start h ordered stale = omega arith
  host_events-never_recover (e ∷ es) start h ordered stale =
      let next = host_event e h in
      let step = host_event-IsHarmless e start h ordered.0 stale in
      let later = host_events-never_recover es (event_time e) next ordered.1 step.2 in
      let same = ap (λ n. host_key n "Host Unreachable") step.0 in
      let moved =
        subst (λ k. open_rows k next.alerting.log ≤ open_rows k (host_events es next).alerting.log)
          same later in
      omega (arith, step.1, moved)
