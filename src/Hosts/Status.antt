-- ===== src/Hosts/Status.antt =====
-- host_health/ingest.py: `process_status` and `_replace_hosted_sites`.
pub mod BenchAlerts
pub mod Kept
use alfaedge_pulse.Hosts.Rounds.{scheduler_runs}
use alfaedge_pulse.Common.{
  All-map, All-any, ℕ, zero, suc, ◌+◌, ◌-◌, ◌*◌, ◌/◌, ◌%◌, ◌≤◌, ◌<◌, max, String, ◌≡◌, refl, sym,
  ap, ◌∙◌, ◌≢◌, ◌↔◌, ◌⊎◌, inl, inr, Bool, true, false, not, ◌&&◌, ◌||◌, Option, none, some, List,
  [], ◌∷◌, ◌++◌, map, foldl, arith, str_eq, eq_iff, eq_refl, ltb, leb, ◌==◌, if◌then◌else◌,
  Bool-cases, Option-cases, ltb→lt, lt→ltb, leb→le, le→leb, tests, length, take, any, all, keep,
  count, length-append, any-append, count-append, count-le-length, All, length-map,
}
use alfaedge_pulse.Hosts.Services.{ServiceReport, ServiceLog, Services, upsert_service}
use alfaedge_pulse.Hosts.Heartbeat.{MonitoredHost, mark_seen, host_key}
use alfaedge_pulse.Hosts.Workers.{
  BenchLimits, WorkerHealth, BenchTables, BenchReport, process_bench,
}
use alfaedge_pulse.Poller.Severity.{or_default}
use alfaedge_pulse.Common.Text.{concat, or_empty}
use alfaedge_pulse.Alerts.Dispatch.{AlertContext, Alerting}
use alfaedge_pulse.Hosts.Benches.{Remote, parse_remote_timestamp}
use alfaedge_pulse.Alerts.Channels.{is_set}
use alfaedge_pulse.Poller.Transition.{handle_transition}
use alfaedge_pulse.Hosts.Sites.{SiteReport, valid_sites, Shown, HostedSite, site_warnings}
use alfaedge_pulse.Hosts.Rounds.{
  record_benches, record_services, BenchFlags, bench_flags, Recorded, bench_alerts, latest_run,
}

-- What a status report reads and writes of one host.
pub record HostState : Type 0 where
  pub host : MonitoredHost
  pub flags : BenchFlags
  pub services : List ServiceLog
  pub benches : BenchTables
  pub hosted_sites : List HostedSite
  pub alerting : Alerting

-- The settings, as `cint` reads them with their defaults.
pub record StatusSettings : Type 0 where
  pub checks : ℕ
  pub limits : BenchLimits

pub get_status_settings : ℕ → ℕ → ℕ → ℕ → StatusSettings
get_status_settings checks orphan failed long = record {
  checks = or_default checks 3;
  limits = record {
    orphan_critical = or_default orphan 3;
    failed_job_critical = or_default failed 20;
    long_running_critical = or_default long 1800;
  };
}

pub record StatusReport : Type 0 where
  pub services : Option (List ServiceReport)
  pub benches : Option (List BenchReport)
  pub sites : Option (List SiteReport)

pub record StatusResult : Type 0 where
  pub services_recorded : ℕ
  pub benches_recorded : ℕ
  pub sites_recorded : ℕ
  pub warnings : List String

pub set_scheduler_run : Option ℕ → MonitoredHost → MonitoredHost
set_scheduler_run none host = host
set_scheduler_run (some t) host = record host { scheduler_last_run = some t }

-- The benches of a report, where it has any; none where a run of their schedulers does not parse.
pub store_benches :
    Remote
    → AlertContext
    → StatusSettings
    → Bool
    → Shown
    → Option (List BenchReport)
    → HostState
    → Option (Recorded × HostState)
unfolding record_benches bench_flags bench_alerts scheduler_runs latest_run set_scheduler_run
store_benches r c s notify shown none h = some (record { rows = 0; warnings = [] }, h)
store_benches r c s notify shown (some rows) h =
    let done = record_benches r c.now s.limits shown h.host.name rows h.benches in
    let flags' = bench_flags s.checks done.results in
    elim (scheduler_runs r done.results) [
      | none ↦ none
      | some runs ↦ some (
        record { rows = length done.results; warnings = done.warnings },
        record h {
          host = set_scheduler_run (latest_run runs) h.host;
          flags = flags';
          benches = done.tables;
          alerting = bench_alerts c notify h.host.name h.flags flags' h.alerting;
        },
      )
    ]

store_services :
    AlertContext
    → ℕ
    → Bool
    → Shown
    → (ServiceReport → String)
    → Option (List ServiceReport)
    → HostState
    → Recorded × HostState
unfolding record_services
store_services c checks notify shown fresh none h = (record { rows = 0; warnings = [] }, h)
store_services c checks notify shown fresh (some rows) h =
    let (done, s) =
      record_services c checks notify shown fresh h.host.name rows
        (record { logs = h.services; alerting = h.alerting }) in
    (done, record h { services = s.logs; alerting = s.alerting })

-- ingest.py: `_replace_hosted_sites`
store_sites : Shown → Option (List SiteReport) → HostState → Recorded × HostState
unfolding valid_sites site_warnings
store_sites shown none h = (record { rows = 0; warnings = [] }, h)
store_sites shown (some rows) h =
    let valid = valid_sites rows in
    (
      record { rows = length valid; warnings = site_warnings shown rows },
      record h { hosted_sites = valid },
    )

-- The sites of a report and its commit, after the services and the benches.
finish_status :
    Shown → Option (List SiteReport) → Recorded → Recorded → HostState → StatusResult × HostState
unfolding store_sites
finish_status shown rows services benches h =
    let (sites, h') = store_sites shown rows h in
    (
      record {
        services_recorded = services.rows;
        benches_recorded = benches.rows;
        sites_recorded = sites.rows;
        warnings = services.warnings ++ benches.warnings ++ sites.warnings;
      },
      h',
    )

-- ingest.py: `process_status`, none where it raises, after which `_store_report` of host_poller.py
-- rolls the report back: the report's time does not parse, or a run of a scheduler does not. A new
-- service row gets the name `fresh`; `production` is whether the host's role is Production.
pub process_status :
    Remote
    → AlertContext
    → StatusSettings
    → Bool
    → Shown
    → (ServiceReport → String)
    → Bool
    → StatusReport
    → HostState
    → Option (StatusResult × HostState)
unfolding store_services store_benches finish_status
process_status r c s production shown fresh parses report h =
    let seen = record h { host = mark_seen c.now h.host } in
    let (services, h1) = store_services c s.checks production shown fresh report.services seen in
    if not parses then none else elim (store_benches r c s production shown report.benches h1) [
      | none ↦ none
      | some (benches, h2) ↦ some (finish_status shown report.sites services benches h2)
    ]
