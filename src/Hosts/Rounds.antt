-- ===== src/Hosts/Rounds.antt =====
-- host_health/ingest.py: the loops of `process_status` over services and benches, and the alerts on
-- the benches.
pub mod Tracked
use alfaedge_pulse.Common.{
  All-map, All-any, ℕ, zero, suc, ◌+◌, ◌-◌, ◌*◌, ◌/◌, ◌%◌, ◌≤◌, ◌<◌, max, String, ◌≡◌, refl, sym,
  ap, ◌∙◌, ◌≢◌, ◌↔◌, ◌⊎◌, inl, inr, Bool, true, false, not, ◌&&◌, ◌||◌, Option, none, some, List,
  [], ◌∷◌, ◌++◌, map, foldl, arith, str_eq, eq_iff, eq_refl, ltb, leb, ◌==◌, if◌then◌else◌,
  Bool-cases, Option-cases, ltb→lt, lt→ltb, leb→le, le→leb, tests, length, take, any, all, keep,
  count, length-append, any-append, count-append, count-le-length, All, length-map,
}
use alfaedge_pulse.Alerts.Dispatch.{AlertContext, Alerting}
use alfaedge_pulse.Hosts.Workers.{
  BenchTables, WorkerHealth, BenchLimits, BenchReport, process_bench,
}
use alfaedge_pulse.Hosts.Benches.{Remote, parse_remote_timestamp}
use alfaedge_pulse.Hosts.Services.{Services, ServiceReport, upsert_service}
use alfaedge_pulse.Hosts.Sites.{Shown}
use alfaedge_pulse.Poller.Transition.{handle_transition}
use alfaedge_pulse.Hosts.Heartbeat.{host_key}
use alfaedge_pulse.Common.Text.{concat}

-- The three flags of `Monitored Host` that a bench report sets.
pub record BenchFlags : Type 0 where
  pub worker_health_critical : Bool
  pub failed_job_critical : Bool
  pub long_running_job_critical : Bool

-- A loop's count of rows and its warnings.
pub record Recorded : Type 0 where
  pub rows : ℕ
  pub warnings : List String

services_after : Services → Option Services → Services
services_after s none = s
services_after s (some t) = t

add_service : String → Recorded → Option Services → Recorded
add_service warning later none = record later { warnings = warning ∷ later.warnings }
add_service warning later (some t) = record later { rows = later.rows + 1 }

unfoldable pub record_services :
    AlertContext
    → ℕ
    → Bool
    → Shown
    → (ServiceReport → String)
    → String
    → List ServiceReport
    → Services
    → Recorded × Services
unfolding services_after add_service
record_services c checks notify shown fresh host [] s = (record { rows = 0; warnings = [] }, s)
record_services c checks notify shown fresh host (row ∷ rows) s =
    let tried = upsert_service c checks notify (fresh row) host row s in
    let (done, last) =
      record_services c checks notify shown fresh host rows (services_after s tried) in
    (
      add_service (concat ("skipped malformed service row: " ∷ shown.service row ∷ [])) done tried,
      last,
    )

-- The rows that the benches' reports inserted, the warnings, and the tables.
pub record BenchResults : Type 0 where
  pub results : List (WorkerHealth × Option String)
  pub warnings : List String
  pub tables : BenchTables

unfoldable pub add_bench :
    String → Option String → BenchResults → Option WorkerHealth → BenchResults
add_bench warning run later none = record later { warnings = warning ∷ later.warnings }
add_bench warning run later (some h) = record later { results = (h, run) ∷ later.results }

-- A bench whose report raises an error is skipped, with what it had written until then.
unfoldable pub record_benches :
    Remote → ℕ → BenchLimits → Shown → String → List BenchReport → BenchTables → BenchResults
unfolding add_bench
record_benches r now limits shown host [] t = record { results = []; warnings = []; tables = t }
record_benches r now limits shown host (row ∷ rows) t =
    let (tried, t') = process_bench r now host limits row t in
    add_bench (concat ("skipped malformed bench row: " ∷ shown.bench row ∷ []))
      row.scheduler_last_run (record_benches r now limits shown host rows t') tried

-- `any(r[streak] >= checks for r in bench_results)`, for the three streaks.
unfoldable pub bench_flags : ℕ → List (WorkerHealth × Option String) → BenchFlags
bench_flags checks results = record {
  worker_health_critical = any (λ r. leb checks r.0.orphan_critical_streak) results;
  failed_job_critical = any (λ r. leb checks r.0.failed_job_critical_streak) results;
  long_running_job_critical = any (λ r. leb checks r.0.long_running_job_critical_streak) results;
}

bench_alert :
    AlertContext → Bool → String → String → String → String → Bool → Bool → Alerting → Alerting
bench_alert c notify host alert_type message recovery was is a =
    handle_transition c was is (host_key host alert_type) (concat (host ∷ ": " ∷ message ∷ []))
      (some (concat (host ∷ ": " ∷ recovery ∷ []))) notify a

-- The three transitions after the loop over the benches.
unfoldable pub bench_alerts :
    AlertContext → Bool → String → BenchFlags → BenchFlags → Alerting → Alerting
unfolding bench_alert
bench_alerts c notify host was is a =
    bench_alert c notify host "Long Running Job"
      "a job has stayed running at/beyond the long-running threshold." "no more long-running jobs."
      was.long_running_job_critical is.long_running_job_critical
      (bench_alert c notify host "Failed Job Threshold"
        "failed job count has stayed at/above the critical threshold."
        "failed job count back under threshold." was.failed_job_critical is.failed_job_critical
        (bench_alert c notify host "Worker Degraded"
          "orphaned RQ worker count has stayed at/above the critical threshold."
          "orphan worker count back to normal." was.worker_health_critical is.worker_health_critical
          a))

unfoldable pub add_run : Option (Option ℕ) → Option (List ℕ) → Option (List ℕ)
add_run none later = none
add_run (some none) later = later
add_run (some (some t)) none = none
add_run (some (some t)) (some ts) = some (t ∷ ts)

-- `scheduler_runs`, the runs that were reported; none where one does not parse, which raises.
unfoldable pub scheduler_runs : Remote → List (WorkerHealth × Option String) → Option (List ℕ)
unfolding add_run
scheduler_runs r [] = some []
scheduler_runs r (x ∷ xs) = add_run (parse_remote_timestamp r x.1) (scheduler_runs r xs)

-- `max(scheduler_runs)`
unfoldable pub latest_run : List ℕ → Option ℕ
latest_run [] = none
latest_run (t ∷ ts) = elim (latest_run ts) [ none ↦ some t | some u ↦ some (max t u) ]
