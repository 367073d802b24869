-- ===== src/Hosts/Rounds/Tracked.antt =====
-- The open rows of the bench alerts through the loops of `process_status`.
use alfaedge_pulse.Common.{
  ℕ, String, ◌≡◌, refl, ◌∙◌, inl, inr, Bool, false, List, [], ◌∷◌, arith, str_eq, Bool-cases,
}
use alfaedge_pulse.Alerts.Log.{same_key}
use alfaedge_pulse.Alerts.Dispatch.{AlertContext, Alerting}
use alfaedge_pulse.Hosts.Services.{service_key, upsert_service, ServiceReport, Services}
use alfaedge_pulse.Hosts.Heartbeat.{host_key}
use alfaedge_pulse.Alerts.Log.Laws.{open_rows}
use alfaedge_pulse.Poller.Transition.Incidents.{number, open_rows-transition, transition-tracked}
use alfaedge_pulse.Alerts.Channels.{is_set}
use alfaedge_pulse.Hosts.Rounds.{
  bench_alert, BenchFlags, record_services, services_after, bench_alerts,
}
use alfaedge_pulse.Hosts.Sites.{Shown}

-- One open row for each of the three bench alerts whose flag is set, and none for the others.
abbrev pub IsTracked : String → BenchFlags → Alerting → Type 0
IsTracked host f a =
    (open_rows (host_key host "Worker Degraded") a.log ≡ number f.worker_health_critical)
    × (open_rows (host_key host "Failed Job Threshold") a.log ≡ number f.failed_job_critical)
    × (open_rows (host_key host "Long Running Job") a.log ≡ number f.long_running_job_critical)

host_keys_differ :
    (host s t : String) → str_eq s t ≡ false → same_key (host_key host s) (host_key host t) ≡ false
unfolding same_key host_key
host_keys_differ host s t h = ground arith

service_host_keys : (name host t : String) → same_key (service_key name) (host_key host t) ≡ false
unfolding same_key service_key host_key
service_host_keys name host t = ground arith

module _ (c : AlertContext) (notify : Bool) (host : String) where
  bench_alert_own :
      (t message recovery : String) (was is : Bool) (a : Alerting)
      → open_rows (host_key host t) a.log ≡ number was
      → open_rows (host_key host t) (bench_alert c notify host t message recovery was is a).log
        ≡ number is
  unfolding bench_alert
  bench_alert_own t message recovery was is a h =
      (transition-tracked c (host_key host t) _ _ notify was is a h).0

  bench_alert_other :
      (t message recovery u : String) (was is : Bool) (a : Alerting)
      → str_eq t u ≡ false
      → open_rows (host_key host u) (bench_alert c notify host t message recovery was is a).log
        ≡ open_rows (host_key host u) a.log
  unfolding bench_alert
  bench_alert_other t message recovery u was is a other =
      open_rows-transition c (host_key host t) _ _ notify was is a (host_key host u)
      ∙ rw (host_keys_differ host t u other) refl

  pub bench_alerts-IsTracked :
      (was is : BenchFlags) (a : Alerting)
      → IsTracked host was a
      → IsTracked host is (bench_alerts c notify host was is a)
  unfolding bench_alerts
  bench_alerts-IsTracked was is a h = (
    bench_alert_other _ _ _ _ _ _ _ refl
        ∙ bench_alert_other _ _ _ _ _ _ _ refl
        ∙ bench_alert_own _ _ _ _ _ a h.0,
    bench_alert_other _ _ _ _ _ _ _ refl
        ∙ bench_alert_own _ _ _ _ _ _ (bench_alert_other _ _ _ _ _ _ a refl ∙ h.1),
    bench_alert_own _ _ _ _ _ _
        (bench_alert_other _ _ _ _ _ _ _ refl ∙ bench_alert_other _ _ _ _ _ _ a refl ∙ h.2),
  )

  upsert_service_other :
      (checks : ℕ) (name : String) (row : ServiceReport) (s : Services) (u : String)
      → open_rows
          (host_key host u)
          (services_after s (upsert_service c checks notify name host row s)).alerting.log
        ≡ open_rows (host_key host u) s.alerting.log
  unfolding upsert_service services_after
  upsert_service_other checks name row s u = elim (Bool-cases (is_set row.unit_name)) [
    | inl e ↦ rw e (
        open_rows-transition c _ _ _ notify _ _ s.alerting (host_key host u)
        ∙ rw (service_host_keys _ host u) refl)
    | inr e ↦ rw e refl
  ]

  pub record_services_other :
      (checks : ℕ) (shown : Shown) (fresh : ServiceReport → String) (rows : List ServiceReport)
      (s : Services) (u : String)
      → open_rows
          (host_key host u)
          (record_services c checks notify shown fresh host rows s).1.alerting.log
        ≡ open_rows (host_key host u) s.alerting.log
  unfolding record_services
  record_services_other checks shown fresh [] s u = refl
  record_services_other checks shown fresh (row ∷ rows) s u =
      record_services_other checks shown fresh rows
        (services_after s (upsert_service c checks notify (fresh row) host row s)) u
      ∙ upsert_service_other checks (fresh row) row s u

  -- The alerts of other types on the host are none of the three.
  pub bench_alerts_other :
      (was is : BenchFlags) (a : Alerting) (u : String)
      → str_eq "Worker Degraded" u ≡ false
      → str_eq "Failed Job Threshold" u ≡ false
      → str_eq "Long Running Job" u ≡ false
      → open_rows (host_key host u) (bench_alerts c notify host was is a).log
        ≡ open_rows (host_key host u) a.log
  unfolding bench_alerts
  bench_alerts_other was is a u degraded failed long =
      bench_alert_other _ _ _ u _ _ _ long
      ∙ bench_alert_other _ _ _ u _ _ _ failed
      ∙ bench_alert_other _ _ _ u _ _ a degraded
