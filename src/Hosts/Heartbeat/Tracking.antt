-- ===== src/Hosts/Heartbeat/Tracking.antt =====
-- The two alerts of one check of a host.
use alfaedge_pulse.Common.{
  ℕ, String, ◌≡◌, refl, ◌∙◌, Bool, true, false, not, Option, none, some, arith, if◌then◌else◌,
}
use alfaedge_pulse.Alerts.Dispatch.{AlertContext, Alerting}
use alfaedge_pulse.Alerts.Log.{same_key, AlertKey}
use alfaedge_pulse.Hosts.Heartbeat.{
  Timeouts, host_key, MonitoredHost, unreachable_alert, scheduler_alert, check_one_host,
  next_overdue, is_fresh, heartbeat_cutoff,
}
use alfaedge_pulse.Alerts.Log.Laws.{open_rows, same_key_self}
use alfaedge_pulse.Poller.Transition.Incidents.{
  open_rows-transition, number, next_open, transition-tracked,
}

keys_differ :
    (name : String)
    → same_key (host_key name "Scheduler Stalled") (host_key name "Host Unreachable") ≡ false
unfolding same_key host_key
keys_differ name = ground arith

keys_differ_back :
    (name : String)
    → same_key (host_key name "Host Unreachable") (host_key name "Scheduler Stalled") ≡ false
unfolding same_key host_key
keys_differ_back name = ground arith

module _ (c : AlertContext) (t : Timeouts) (host : MonitoredHost) where
  unreachable_open :
      (online : Bool) (a : Alerting) (j : AlertKey)
      → open_rows j (unreachable_alert c t host online a).log ≡ (
          if same_key (host_key host.name "Host Unreachable") j
          then next_open
              (not host.is_online)
              (not online)
              (open_rows (host_key host.name "Host Unreachable") a.log)
          else open_rows j a.log)
  unfolding unreachable_alert
  unreachable_open online a j =
      open_rows-transition c (host_key host.name "Host Unreachable") _ _ true (not host.is_online)
        (not online) a j

  scheduler_other :
      (overdue : Bool) (run : Option ℕ) (a : Alerting) (j : AlertKey)
      → same_key (host_key host.name "Scheduler Stalled") j ≡ false
      → open_rows j (scheduler_alert c t host overdue run a).log ≡ open_rows j a.log
  unfolding scheduler_alert
  scheduler_other overdue none a j other = refl
  scheduler_other overdue (some run) a j other =
      open_rows-transition c (host_key host.name "Scheduler Stalled") _ _ true
        host.scheduler_overdue overdue a j
      ∙ rw other refl

  scheduler_tracked :
      (overdue : Bool) (run : Option ℕ) (a : Alerting)
      → open_rows (host_key host.name "Scheduler Stalled") a.log ≡ number host.scheduler_overdue
      → open_rows
          (host_key host.name "Scheduler Stalled")
          (scheduler_alert c t host overdue run a).log
        ≡ number (next_overdue host.scheduler_overdue overdue run)
  unfolding scheduler_alert next_overdue
  scheduler_tracked overdue none a h = h
  scheduler_tracked overdue (some run) a h =
      (transition-tracked c (host_key host.name "Scheduler Stalled") _ _ true host.scheduler_overdue
        overdue a h).0

  -- One check of a host turns its open "Host Unreachable" rows as the transition of its flag says.
  pub unreachable-check_one_host :
      (a : Alerting)
      → let (host', a') = check_one_host c t host a in
        open_rows (host_key host.name "Host Unreachable") a'.log
        ≡ next_open
            (not host.is_online)
            (not host'.is_online)
            (open_rows (host_key host.name "Host Unreachable") a.log)
  unfolding check_one_host
  unreachable-check_one_host a =
      let online = is_fresh (heartbeat_cutoff c.now t) host.last_seen in
      scheduler_other _ host.scheduler_last_run (unreachable_alert c t host online a)
        (host_key host.name "Host Unreachable") (keys_differ host.name)
      ∙ unreachable_open online a (host_key host.name "Host Unreachable")
      ∙ rw (same_key_self (host_key host.name "Host Unreachable")) refl

  -- One check of a host, with one open row of each of its two alerts exactly if its flag says so:
  -- the host is online afterwards exactly if it was seen within the limit, the alerts follow the
  -- new flags, and a host that never reported a scheduler run keeps its scheduler flag.
  pub check_one_host-tracked :
      (a : Alerting)
      → open_rows (host_key host.name "Host Unreachable") a.log ≡ number (not host.is_online)
      → open_rows (host_key host.name "Scheduler Stalled") a.log ≡ number host.scheduler_overdue
      → let (host', a') = check_one_host c t host a in
        (host'.is_online ≡ is_fresh (heartbeat_cutoff c.now t) host.last_seen)
        × (open_rows (host_key host.name "Host Unreachable") a'.log ≡ number (not host'.is_online))
        × (open_rows (host_key host.name "Scheduler Stalled") a'.log
            ≡ number host'.scheduler_overdue)
        × (host.scheduler_last_run ≡ none → host'.scheduler_overdue ≡ host.scheduler_overdue)
  check_one_host-tracked a unreachable stalled =
      let online = is_fresh (heartbeat_cutoff c.now t) host.last_seen in
      let middle = unreachable_alert c t host online a in
      (
        unfold check_one_host in refl,
        ground (arith, unreachable, unreachable-check_one_host a),
        unfold check_one_host in
            scheduler_tracked _ host.scheduler_last_run middle (
              unreachable_open online a (host_key host.name "Scheduler Stalled")
              ∙ rw (keys_differ_back host.name) stalled),
        λ e. unfold check_one_host next_overdue in rw e refl,
      )
