-- ===== src/Hosts/Heartbeat.antt =====
-- tasks/host_health_watchdog.py, the heartbeat that `process_status` of host_health/ingest.py writes,
-- and `update_bastion_state` of tasks/host_poller.py. Times are in microseconds.
pub mod Recovery
pub mod Tracking
use alfaedge_pulse.Common.{
  ℕ, ◌+◌, ◌-◌, ◌*◌, String, Bool, true, false, not, ◌&&◌, Option, none, some, List, [], ◌∷◌, str_eq,
  ltb, leb, ◌==◌, if◌then◌else◌,
}
use alfaedge_pulse.Alerts.Log.{AlertKey}
use alfaedge_pulse.Alerts.Dispatch.{AlertContext, Alerting}
use alfaedge_pulse.Poller.Severity.{or_default}
use alfaedge_pulse.Alerts.Channels.{is_set}
use alfaedge_pulse.Common.Text.{or_empty, concat, decimal}
use alfaedge_pulse.Poller.Transition.{handle_transition}

-- The fields of `Monitored Host` that reports and checks read or write.
pub record MonitoredHost : Type 0 where
  pub name : String
  pub hostname : Option String
  pub enabled : Bool
  pub last_seen : Option ℕ
  pub is_online : Bool
  pub scheduler_last_run : Option ℕ
  pub scheduler_overdue : Bool
  pub last_poll_kind : String

unfoldable pub host_key : String → String → AlertKey
host_key name alert_type = record {
  reference_doctype = "Monitored Host";
  reference_name = name;
  alert_type = alert_type;
}

-- `bool(last_seen) and get_datetime(last_seen) >= cutoff`
unfoldable pub is_fresh : ℕ → Option ℕ → Bool
is_fresh cutoff none = false
is_fresh cutoff (some t) = leb cutoff t

-- `bool(scheduler_last_run) and get_datetime(scheduler_last_run) < cutoff`
pub is_late : ℕ → Option ℕ → Bool
is_late cutoff none = false
is_late cutoff (some t) = ltb t cutoff

-- `host.hostname or host.name`
host_label : MonitoredHost → String
host_label host = if is_set host.hostname then or_empty host.hostname else host.name

-- The two settings of the check, in seconds and in minutes.
pub record Timeouts : Type 0 where
  pub heartbeat_seconds : ℕ
  pub scheduler_minutes : ℕ

pub get_timeouts : ℕ → ℕ → Timeouts
get_timeouts heartbeat scheduler = record {
  heartbeat_seconds = or_default heartbeat 90;
  scheduler_minutes = or_default scheduler 15;
}

abbrev pub heartbeat_cutoff : ℕ → Timeouts → ℕ
heartbeat_cutoff now t = now - t.heartbeat_seconds * 1000000

abbrev pub scheduler_cutoff : ℕ → Timeouts → ℕ
scheduler_cutoff now t = now - t.scheduler_minutes * 60000000

unreachable_alert : AlertContext → Timeouts → MonitoredHost → Bool → Alerting → Alerting
unreachable_alert c t host is_online a =
    handle_transition c (not host.is_online) (not is_online) (host_key host.name "Host Unreachable")
      (concat (
        host_label host
        ∷ ": could not be reached over SSH for over "
        ∷ decimal t.heartbeat_seconds
        ∷ "s."
        ∷ []))
      (some (concat (host_label host ∷ ": answering SSH polls again." ∷ []))) true a

-- Only a host that has reported a scheduler run is checked for a stalled one.
scheduler_alert : AlertContext → Timeouts → MonitoredHost → Bool → Option ℕ → Alerting → Alerting
scheduler_alert c t host is_overdue none a = a
scheduler_alert c t host is_overdue (some run) a =
    handle_transition c host.scheduler_overdue is_overdue (host_key host.name "Scheduler Stalled")
      (concat (
        host_label host
        ∷ ": Frappe scheduler has not run in over "
        ∷ decimal t.scheduler_minutes
        ∷ " minute(s)."
        ∷ []))
      (some (concat (host_label host ∷ ": scheduler resumed." ∷ []))) true a

-- The flag is written only for such a host.
next_overdue : Bool → Bool → Option ℕ → Bool
next_overdue was is none = was
next_overdue was is (some run) = is

-- host_health_watchdog.py: `_check_one_host`
pub check_one_host : AlertContext → Timeouts → MonitoredHost → Alerting → MonitoredHost × Alerting
unfolding is_fresh is_late unreachable_alert scheduler_alert next_overdue host_label host_key
check_one_host c t host a =
    let online = is_fresh (heartbeat_cutoff c.now t) host.last_seen in
    let overdue = is_late (scheduler_cutoff c.now t) host.scheduler_last_run in
    (
      record host {
        is_online = online;
        scheduler_overdue = next_overdue host.scheduler_overdue overdue host.scheduler_last_run;
      },
      scheduler_alert c t host overdue host.scheduler_last_run
          (unreachable_alert c t host online a),
    )

-- The hosts that the loop does not skip.
pub is_checked : MonitoredHost → Bool
is_checked host = host.enabled && not (str_eq host.last_poll_kind "config")

pub check_hosts :
    AlertContext → Timeouts → List MonitoredHost → Alerting → List MonitoredHost × Alerting
check_hosts c t [] a = ([], a)
check_hosts c t (host ∷ hosts) a =
    let (host', a') = if is_checked host then check_one_host c t host a else (host, a) in
    let (hosts', a'') = check_hosts c t hosts a' in (host' ∷ hosts', a'')

-- The three switches that the check reads first.
pub record PollState : Type 0 where
  pub polling_allowed : Bool
  pub enabled : Bool
  pub bastion_unreachable : Bool
  pub bastion_failure_streak : ℕ

-- host_health_watchdog.py: `check_host_heartbeats`
pub check_host_heartbeats :
    AlertContext
    → PollState
    → Timeouts
    → List MonitoredHost
    → Alerting
    → List MonitoredHost × Alerting
unfolding check_hosts is_checked
check_host_heartbeats c p t hosts a =
    if not (p.polling_allowed && p.enabled)
    then (hosts, a)
    else if p.bastion_unreachable
    then (hosts, a)
    else check_hosts c t hosts a

-- The heartbeat of ingest.py: `process_status`: `last_seen` by the server's clock, and `is_online`.
unfoldable pub mark_seen : ℕ → MonitoredHost → MonitoredHost
mark_seen now host = record host { last_seen = some now; is_online = true }

pub bastion_key : AlertKey
bastion_key = record {
  reference_doctype = "SSH Settings";
  reference_name = "SSH Settings";
  alert_type = "Warpgate Unreachable";
}

-- host_poller.py: `update_bastion_state`, with the setting `confirmation_checks` as `cint` reads it.
pub update_bastion_state :
    AlertContext → ℕ → ℕ → ℕ → ℕ → PollState → Alerting → PollState × Alerting
unfolding bastion_key
update_bastion_state c checks attempted succeeded bastion_failed p a =
    let bastion_cycle = ltb 0 attempted && succeeded == 0 && bastion_failed == attempted in
    let streak = if bastion_cycle then p.bastion_failure_streak + 1 else 0 in
    let is_down = if bastion_cycle then leb (or_default checks 3) streak else false in
    (
      record p { bastion_failure_streak = streak; bastion_unreachable = is_down },
      handle_transition c p.bastion_unreachable is_down bastion_key
          "alfaEdge Pulse: the Warpgate server cannot be reached, so no host can be polled. Per-host unreachable alerts are held back until it is back."
          (some "alfaEdge Pulse: Warpgate is reachable again; host polling has resumed.") true a,
    )
