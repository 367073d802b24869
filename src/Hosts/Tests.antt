-- ===== src/Hosts/Tests.antt =====
-- Runs of the host health code on small inputs.
use alfaedge_pulse.Hosts.Workers.Streaks.{runs_long}
use alfaedge_pulse.Common.{
  ◌+◌, ◌≤◌, String, ◌≡◌, refl, true, false, ◌&&◌, none, some, List, [], ◌∷◌, arith, str_eq, leb,
  if◌then◌else◌, any,
}
use alfaedge_pulse.Poller.Tests.{context, empty_alerting}
use alfaedge_pulse.Hosts.Heartbeat.{MonitoredHost, Timeouts, is_fresh, host_key}
use alfaedge_pulse.Hosts.Services.{
  Services, ServiceReport, ServiceLog, upsert_service, is_service, reported_name, service_key,
  was_down, known_state, old_streak,
}
use alfaedge_pulse.Alerts.Log.Laws.{open_rows}
use alfaedge_pulse.Hosts.Benches.{Remote, JobReport, seen_ids}
use alfaedge_pulse.Hosts.Heartbeat.Recovery.{
  HostEvent, report, host_events, check, host_events-never_recover,
}
use alfaedge_pulse.Poller.Transition.Incidents.{number}
use alfaedge_pulse.Common.Tables.{first_that, newest}
use alfaedge_pulse.Hosts.Services.Alarms.{upsert_service_lem}
use alfaedge_pulse.Hosts.Status.{
  StatusSettings, StatusResult, StatusReport, HostState, process_status,
}
use alfaedge_pulse.Common.Text.{is_blank}
use alfaedge_pulse.Hosts.Workers.{
  BenchTables, BenchReport, BenchLimits, prior_streak, prior_health, WorkerHealth, process_bench,
  failed_count,
}
use alfaedge_pulse.Hosts.Status.BenchAlerts.{flags_after, process_status_lem}
use alfaedge_pulse.Alerts.Dispatch.{is_member}
use alfaedge_pulse.Hosts.Workers.Streaks.{has_active, process_bench_lem}
use alfaedge_pulse.Hosts.Benches.Failures.{has_failed}
use alfaedge_pulse.Hosts.Sites.{Shown}
use alfaedge_pulse.Hosts.Rounds.Tracked.{IsTracked}

abbrev remote : Remote
remote = record { local_time = λ s. some 5; hexdigest = λ s. s }

abbrev timeouts : Timeouts
timeouts = record { heartbeat_seconds = 60; scheduler_minutes = 10 }

abbrev silent_host : MonitoredHost
silent_host = record {
  name = "bench-1";
  hostname = none;
  enabled = true;
  last_seen = none;
  is_online = false;
  scheduler_last_run = none;
  scheduler_overdue = false;
  last_poll_kind = "";
}

abbrev online_host : MonitoredHost
online_host = record silent_host { is_online = true; last_seen = some 1 }

abbrev nginx_down : ServiceReport
nginx_down = record {
  unit_name = some "nginx.service";
  service_name = some "nginx";
  current_state = some "failed";
}

abbrev no_services : Services
no_services = record { logs = []; alerting = empty_alerting }

upsert_service_lem_example :
    (s' : Services) × (log : ServiceLog) × (upsert_service context 1 true "svc-1" "bench-1"
        nginx_down no_services
      ≡ some s')
    × (first_that (is_service "bench-1" (reported_name nginx_down)) s'.logs ≡ some log)
    × (log.down_streak ≡ (
        if str_eq (known_state nginx_down.current_state) "active"
        then 0
        else old_streak (first_that (is_service "bench-1" (reported_name nginx_down)) []) + 1))
    × (log.is_down ≡ leb 1 log.down_streak)
    × (open_rows (service_key log.name) s'.alerting.log ≡ number log.is_down)
    × ((h n : String)
        → (str_eq "bench-1" h && str_eq (reported_name nginx_down) n) ≡ false
        → first_that (is_service h n) s'.logs ≡ first_that (is_service h n) [])
unfolding is_blank was_down
upsert_service_lem_example =
    upsert_service_lem context 1 true "svc-1" "bench-1" nginx_down no_services refl refl

abbrev stuck_job : JobReport
stuck_job = record {
  rq_job_id = some "job-1";
  queue_name = some "long";
  job_name = some "sync";
  failed_at = none;
  started_at = some "2026-01-01 00:00:00";
  exc_info = none;
  worker_pid = some 42;
}

abbrev busy_bench : BenchReport
busy_bench = record {
  bench_name = some "main";
  registered_workers = 4;
  live_worker_count = 4;
  orphan_worker_count = 3;
  failed_job_count = none;
  failed_jobs = [];
  active_jobs = stuck_job ∷ [];
  scheduler_last_run = none;
}

abbrev bench_limits : BenchLimits
bench_limits = record { orphan_critical = 2; failed_job_critical = 10; long_running_critical = 60 }

abbrev no_benches : BenchTables
no_benches = record { failed = []; active = []; health = [] }

process_bench_lem_example :
    (h : WorkerHealth) × (t' : BenchTables) × (process_bench remote 100 "bench-1" bench_limits
        busy_bench no_benches
      ≡ (some h, t'))
    × ((i : String)
        → has_active "bench-1" "main" i t'.active ≡ is_member i (seen_ids (stuck_job ∷ [])))
    × ((i : String) → has_failed "bench-1" "main" i t'.failed ≡ is_member i (seen_ids []))
    × (prior_health "bench-1" "main" t'.health ≡ some h)
    × (h.orphan_critical_streak ≡ 1)
    × (h.failed_job_critical_streak ≡ (
        if leb 10 (failed_count busy_bench)
        then prior_streak (λ x. x.failed_job_critical_streak) (prior_health "bench-1" "main" []) + 1
        else 0))
    × (h.long_running_job_critical_streak ≡ (
        if any (runs_long remote 100 60) (stuck_job ∷ [])
        then prior_streak
            (λ x. x.long_running_job_critical_streak)
            (prior_health "bench-1" "main" [])
          + 1
        else 0))
unfolding is_blank prior_streak newest prior_health
process_bench_lem_example =
    process_bench_lem remote 100 "bench-1" bench_limits busy_bench no_benches refl refl refl tt

abbrev host_state : HostState
host_state = record {
  host = silent_host;
  flags = record {
    worker_health_critical = false;
    failed_job_critical = false;
    long_running_job_critical = false;
  };
  services = [];
  benches = no_benches;
  hosted_sites = [];
  alerting = empty_alerting;
}

abbrev status_settings : StatusSettings
status_settings = record { checks = 1; limits = bench_limits }

abbrev shown : Shown
shown = record { service = λ x. "{}"; bench = λ x. "{}"; site = λ x. "{}" }

abbrev status_report : StatusReport
status_report = record {
  services = some (nginx_down ∷ []);
  benches = some (busy_bench ∷ []);
  sites = none;
}

process_status_lem_example :
    (result : StatusResult) × (h' : HostState) × (process_status remote context status_settings true
        shown
        (λ x. "svc-1")
        true
        status_report
        host_state
      ≡ some (result, h'))
    × IsTracked "bench-1" h'.flags h'.alerting
    × (h'.flags ≡ flags_after remote context status_settings shown status_report.benches host_state)
    × (h'.host.last_seen ≡ some 7)
    × (h'.host.is_online ≡ true)
process_status_lem_example =
    process_status_lem remote context status_settings true shown (λ x. "svc-1") status_report
      host_state refl (refl, refl, refl)

-- A report, a check, a long silence, a check, a report whose time does not parse, one with benches
-- and services, and a check again.
abbrev outage : List HostEvent
outage =
    report 10 true status_report
    ∷ check 20
    ∷ check 900000000
    ∷ report 900000001 false status_report
    ∷ report 900000002 true status_report
    ∷ check 900000003
    ∷ []

host_events-never_recover_example :
    open_rows (host_key "bench-1" "Host Unreachable") empty_alerting.log
    ≤ open_rows
        (host_key "bench-1" "Host Unreachable")
        (host_events remote context status_settings timeouts true shown
          (λ x. "svc-1")
          outage
          host_state).alerting.log
unfolding is_fresh
host_events-never_recover_example =
    host_events-never_recover remote context status_settings timeouts true shown (λ x. "svc-1")
      outage 0 host_state
      (omega arith, (omega arith, (omega arith, (omega arith, (omega arith, (omega arith, tt))))))
      (λ offline. refl)
