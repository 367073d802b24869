-- ===== src/Hosts/Workers.antt =====
-- host_health/ingest.py: `_upsert_active_job`, `_delete_stale_active_jobs` and `_process_bench`.
pub mod Streaks
use alfaedge_pulse.Common.{
  All-map, All-any, ℕ, zero, suc, ◌+◌, ◌-◌, ◌*◌, ◌/◌, ◌%◌, ◌≤◌, ◌<◌, max, String, ◌≡◌, refl, sym,
  ap, ◌∙◌, ◌≢◌, ◌↔◌, ◌⊎◌, inl, inr, Bool, true, false, not, ◌&&◌, ◌||◌, Option, none, some, List,
  [], ◌∷◌, ◌++◌, map, foldl, arith, str_eq, eq_iff, eq_refl, ltb, leb, ◌==◌, if◌then◌else◌,
  Bool-cases, Option-cases, ltb→lt, lt→ltb, leb→le, le→leb, tests, length, take, any, all, keep,
  count, length-append, any-append, count-append, count-le-length, All, length-map,
}
use alfaedge_pulse.Poller.Severity.{next_streak}
use alfaedge_pulse.Hosts.Benches.{
  Remote, FailedJob, JobReport, parse_remote_timestamp, record_failed_jobs, seen_ids,
}
use alfaedge_pulse.Common.Tables.{delete_where, newest, upsert}
use alfaedge_pulse.Alerts.Dispatch.{is_member}
use alfaedge_pulse.Alerts.Channels.{is_set}
use alfaedge_pulse.Common.Text.{or_empty}

-- A row of `Frappe Active Job`. The elapsed time is 0 for a start after now, where the source has a
-- negative number.
pub record ActiveJob : Type 0 where
  pub rq_job_id : String
  pub monitored_host : String
  pub bench_name : String
  pub queue_name : Option String
  pub job_name : Option String
  pub worker_pid : Option ℕ
  pub started_at : Option ℕ
  pub last_seen : ℕ
  pub elapsed_seconds : ℕ
  pub is_long_running : Bool

pub elapsed : ℕ → Option ℕ → ℕ
elapsed now none = 0
elapsed now (some t) = (now - t) / 1000000

pub next_active : ℕ → ℕ → String → String → JobReport → Option ℕ → ActiveJob
unfolding elapsed
next_active now limit host bench job started_at = record {
  rq_job_id = or_empty job.rq_job_id;
  monitored_host = host;
  bench_name = bench;
  queue_name = job.queue_name;
  job_name = job.job_name;
  worker_pid = job.worker_pid;
  started_at = started_at;
  last_seen = now;
  elapsed_seconds = elapsed now started_at;
  is_long_running = leb limit (elapsed now started_at);
}

-- ingest.py: `_upsert_active_job`, on the table; a job without an id changes nothing, and one whose
-- time does not parse raises.
pub upsert_active_job :
    Remote → ℕ → ℕ → String → String → JobReport → List ActiveJob → Option (List ActiveJob)
unfolding next_active parse_remote_timestamp
upsert_active_job r now limit host bench job active =
    if is_set job.rq_job_id
    then elim (parse_remote_timestamp r job.started_at) [
      | none ↦ none
      | some started_at ↦ some (
          upsert (λ j. str_eq j.rq_job_id (or_empty job.rq_job_id))
            (λ existing. next_active now limit host bench job started_at) active)
    ]
    else some active

-- The loop over the active jobs: whether it ends, and the table where it ends or raises.
pub upsert_active_jobs :
    Remote → ℕ → ℕ → String → String → List JobReport → List ActiveJob → Bool × List ActiveJob
unfolding upsert_active_job
upsert_active_jobs r now limit host bench [] active = (true, active)
upsert_active_jobs r now limit host bench (j ∷ js) active =
    elim (upsert_active_job r now limit host bench j active) [
      | none ↦ (false, active)
      | some active' ↦ upsert_active_jobs r now limit host bench js active'
    ]

-- A job of the report that has an id and a time, and runs at or beyond the limit.
pub is_long_running : Remote → ℕ → ℕ → JobReport → Bool
unfolding elapsed parse_remote_timestamp
is_long_running r now limit job =
    is_set job.rq_job_id && (elim (parse_remote_timestamp r job.started_at) [
      | none ↦ false
      | some started_at ↦ leb limit (elapsed now started_at)
    ])

-- `long_running_job_count`, where the loop ends.
pub long_running_count : Remote → ℕ → ℕ → List JobReport → ℕ
unfolding is_long_running
long_running_count r now limit jobs = count (is_long_running r now limit) jobs

pub is_of_bench : String → String → ActiveJob → Bool
is_of_bench host bench j = str_eq j.monitored_host host && str_eq j.bench_name bench

-- ingest.py: `_delete_stale_active_jobs`
pub delete_stale_active_jobs : String → String → List String → List ActiveJob → List ActiveJob
unfolding is_of_bench
delete_stale_active_jobs host bench seen active =
    delete_where (λ j. is_of_bench host bench j && not (is_member j.rq_job_id seen)) active

-- The part of `_process_bench` on the active jobs; the stale ones are deleted only if the loop ends.
pub record_active_jobs :
    Remote → ℕ → ℕ → String → String → List JobReport → List ActiveJob → Bool × List ActiveJob
unfolding upsert_active_jobs delete_stale_active_jobs
record_active_jobs r now limit host bench jobs active =
    let (done, active') = upsert_active_jobs r now limit host bench jobs active in
    (done, if done then delete_stale_active_jobs host bench (seen_ids jobs) active' else active')

-- A row of `Frappe Worker Health Log`, without the texts of the process ids and the queue depths.
pub record WorkerHealth : Type 0 where
  pub monitored_host : String
  pub bench_name : String
  pub timestamp : ℕ
  pub registered_workers : ℕ
  pub live_worker_count : ℕ
  pub orphan_worker_count : ℕ
  pub orphan_critical_streak : ℕ
  pub failed_job_count : ℕ
  pub failed_job_critical_streak : ℕ
  pub active_job_count : ℕ
  pub long_running_job_count : ℕ
  pub long_running_job_critical_streak : ℕ

-- A bench of a report.
pub record BenchReport : Type 0 where
  pub bench_name : Option String
  pub registered_workers : ℕ
  pub live_worker_count : ℕ
  pub orphan_worker_count : ℕ
  pub failed_job_count : Option ℕ
  pub failed_jobs : List JobReport
  pub active_jobs : List JobReport
  pub scheduler_last_run : Option String

-- The three critical thresholds.
pub record BenchLimits : Type 0 where
  pub orphan_critical : ℕ
  pub failed_job_critical : ℕ
  pub long_running_critical : ℕ

pub is_health_of : String → String → WorkerHealth → Bool
is_health_of host bench h = str_eq h.monitored_host host && str_eq h.bench_name bench

-- `prior[0]` of the query for the newest row of the bench.
unfoldable pub prior_health : String → String → List WorkerHealth → Option WorkerHealth
unfolding is_health_of newest
prior_health host bench health = newest (λ h. h.timestamp) (keep (is_health_of host bench) health)

-- A counter of the newest row, 0 where there is none.
unfoldable pub prior_streak : (WorkerHealth → ℕ) → Option WorkerHealth → ℕ
prior_streak field none = 0
prior_streak field (some h) = field h

-- The tables that a bench report changes.
pub record BenchTables : Type 0 where
  pub failed : List FailedJob
  pub active : List ActiveJob
  pub health : List WorkerHealth

pub failed_count : BenchReport → ℕ
failed_count row = elim row.failed_job_count [ none ↦ length row.failed_jobs | some n ↦ n ]

pub next_health :
    Remote → ℕ → String → String → BenchLimits → BenchReport → Option WorkerHealth → WorkerHealth
unfolding failed_count prior_streak next_streak long_running_count
next_health r now host bench limits row prior =
    let long = long_running_count r now limits.long_running_critical row.active_jobs in
    record {
      monitored_host = host;
      bench_name = bench;
      timestamp = now;
      registered_workers = row.registered_workers;
      live_worker_count = row.live_worker_count;
      orphan_worker_count = row.orphan_worker_count;
      orphan_critical_streak =
          next_streak (leb limits.orphan_critical row.orphan_worker_count)
            (prior_streak (λ h. h.orphan_critical_streak) prior);
      failed_job_count = failed_count row;
      failed_job_critical_streak =
          next_streak (leb limits.failed_job_critical (failed_count row))
            (prior_streak (λ h. h.failed_job_critical_streak) prior);
      active_job_count = length row.active_jobs;
      long_running_job_count = long;
      long_running_job_critical_streak =
          next_streak (ltb 0 long) (prior_streak (λ h. h.long_running_job_critical_streak) prior);
    }

-- ingest.py: `_process_bench`: the row of the log that it inserts, none where it raises, and the
-- tables. The bench has no name: nothing is written. A time of an active job does not parse: only the
-- active jobs before it are. One of a failed job does not: all is, less the failed jobs from it on
-- and the resolved ones.
pub process_bench :
    Remote
    → ℕ
    → String
    → BenchLimits
    → BenchReport
    → BenchTables
    → Option WorkerHealth × BenchTables
unfolding record_active_jobs record_failed_jobs prior_health next_health
process_bench r now host limits row t =
    let bench = or_empty row.bench_name in
    let health = next_health r now host bench limits row (prior_health host bench t.health) in
    let (active_done, active) =
      record_active_jobs r now limits.long_running_critical host bench row.active_jobs t.active in
    let (failed_done, failed) = record_failed_jobs r now host bench row.failed_jobs t.failed in
    if not (is_set row.bench_name)
    then (none, t)
    else if not active_done
    then (none, record t { active = active })
    else (
      if failed_done then some health else none,
      record { failed = failed; active = active; health = t.health ++ health ∷ [] },
    )
