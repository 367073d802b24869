-- ===== src/Hosts/Workers/Streaks.antt =====
-- `_process_bench` of host_health/ingest.py: the three tables of a bench.
use alfaedge_pulse.Hosts.Benches.Failures.{parses, parses-some, times_parse}
use alfaedge_pulse.Common.Tables.{upsert}
use alfaedge_pulse.Hosts.Workers.{record_active_jobs}
use alfaedge_pulse.Hosts.Workers.{is_long_running, elapsed}
use alfaedge_pulse.Hosts.Benches.{parse_remote_timestamp}
use alfaedge_pulse.Common.{
  ℕ, ◌+◌, ◌-◌, ◌*◌, ◌≤◌, String, ◌≡◌, refl, ap, ◌∙◌, inl, inr, Bool, true, false, not, ◌&&◌, ◌||◌,
  Option, none, some, List, [], ◌∷◌, ◌++◌, arith, str_eq, eq_iff, eq_refl, ltb, leb, ◌==◌,
  if◌then◌else◌, Bool-cases, Option-cases, any, keep, All,
}
use alfaedge_pulse.Hosts.Workers.{
  WorkerHealth, ActiveJob, process_bench, upsert_active_jobs, is_of_bench, delete_stale_active_jobs,
  next_active, upsert_active_job, BenchLimits, BenchReport, BenchTables, prior_health, prior_streak,
  failed_count, long_running_count, next_health, is_health_of,
}
use alfaedge_pulse.Hosts.Benches.{Remote, seen_ids, JobReport, record_failed_jobs}
use alfaedge_pulse.Common.Tables.{newest, delete_where, any-upsert, any-upsert_other}
use alfaedge_pulse.Alerts.Dispatch.{is_member}
use alfaedge_pulse.Alerts.Channels.{is_set}
use alfaedge_pulse.Common.Text.{or_empty}
use alfaedge_pulse.Hosts.Benches.Failures.{has_failed, record_failed_jobs_lem}
use alfaedge_pulse.Poller.Severity.{next_streak}

-- The bench has an active job with this id.
abbrev pub has_active : String → String → String → List ActiveJob → Bool
has_active host bench i active = any (λ j. is_of_bench host bench j && str_eq j.rq_job_id i) active

module _ (r : Remote) (now limit : ℕ) (host bench : String) where
  next_active-is_of_bench :
      (job : JobReport) (at : Option ℕ) (i : String)
      → let j = next_active now limit host bench job at in
        (is_of_bench host bench j && str_eq j.rq_job_id i) ≡ str_eq (or_empty job.rq_job_id) i
  unfolding next_active is_of_bench
  next_active-is_of_bench job at i = ground (arith, eq_refl host, eq_refl bench)

  has_active-put :
      (job : JobReport) (at : Option ℕ) (i : String) (active : List ActiveJob)
      → has_active host bench i (
          upsert
            (λ j. str_eq j.rq_job_id (or_empty job.rq_job_id))
            (λ existing. next_active now limit host bench job at)
            active)
        ≡ (str_eq (or_empty job.rq_job_id) i || has_active host bench i active)
  has_active-put job at i active =
      let same = λ (j : ActiveJob). str_eq j.rq_job_id (or_empty job.rq_job_id) in
      let here = λ (j : ActiveJob). is_of_bench host bench j && str_eq j.rq_job_id i in
      let next = λ (o : Option ActiveJob). next_active now limit host bench job at in
      elim (Bool-cases (str_eq (or_empty job.rq_job_id) i)) [
        | inl e ↦
            ground
              (arith, any-upsert same here next active (λ o. next_active-is_of_bench job at i ∙ e))
        | inr e ↦ ground (
          arith,
          any-upsert_other same here next active (λ o. next_active-is_of_bench job at i ∙ e)
              (λ j h. ground (
                arith,
                eq_iff j.rq_job_id (or_empty job.rq_job_id),
                eq_iff j.rq_job_id i,
                eq_iff (or_empty job.rq_job_id) i,
              )),
        )
      ]

  has_active-upsert :
      (job : JobReport) (active : List ActiveJob)
      → (not (is_set job.rq_job_id) || parses r job.started_at) ≡ true
      → (active' : List ActiveJob) × (upsert_active_job r now limit host bench job active
          ≡ some active')
        × ((i : String)
            → has_active host bench i active' ≡ (
                is_set job.rq_job_id && str_eq (or_empty job.rq_job_id) i
                || has_active host bench i active))
  unfolding upsert_active_job
  has_active-upsert job active h = elim (Bool-cases (is_set job.rq_job_id)) [
    | inr e ↦ (active, rw e refl, λ i. ground (arith, e))
    | inl e ↦
        let (at, k) = parses-some r job.started_at (ground (arith, h, e)) in
        (
          upsert (λ j. str_eq j.rq_job_id (or_empty job.rq_job_id))
              (λ existing. next_active now limit host bench job at) active,
          rw (e, k) refl,
          λ i. ground (arith, e, has_active-put job at i active),
        )
  ]

  has_active-upserts :
      (jobs : List JobReport) (active : List ActiveJob)
      → times_parse r (λ j. j.started_at) jobs ≡ true
      → ((upsert_active_jobs r now limit host bench jobs active).0 ≡ true)
        × ((i : String)
            → has_active host bench i (upsert_active_jobs r now limit host bench jobs active).1
              ≡ (is_member i (seen_ids jobs) || has_active host bench i active))
  unfolding upsert_active_jobs seen_ids is_member
  has_active-upserts [] active h = (refl, λ i. refl)
  has_active-upserts (j ∷ js) active h =
      let (active', e, one) = has_active-upsert j active (ground (arith, h)) in
      let rest = has_active-upserts js active' (ground (arith, h)) in
      (
        rw (upsert_active_jobs, e) rest.0,
        λ i.
            rw (upsert_active_jobs, e)
              (ground (
                arith,
                rest.1 i,
                one i,
                eq_iff i (or_empty j.rq_job_id),
                eq_iff (or_empty j.rq_job_id) i,
              )),
      )

  has_active-delete :
      (seen : List String) (i : String) (active : List ActiveJob)
      → has_active host bench i (delete_stale_active_jobs host bench seen active)
        ≡ (is_member i seen && has_active host bench i active)
  unfolding delete_stale_active_jobs is_of_bench delete_where
  has_active-delete seen i [] = ground arith
  has_active-delete seen i (j ∷ js) =
      ground (arith, has_active-delete seen i js, eq_iff j.rq_job_id i, ap (λ x. is_member x seen))

  record_active_jobs_lem :
      (jobs : List JobReport) (active : List ActiveJob)
      → times_parse r (λ j. j.started_at) jobs ≡ true
      → let (done, active') = record_active_jobs r now limit host bench jobs active in
        (done ≡ true)
        × ((i : String) → has_active host bench i active' ≡ is_member i (seen_ids jobs))
  unfolding record_active_jobs
  record_active_jobs_lem jobs active h =
      let stored = has_active-upserts jobs active h in
      (
        stored.0,
        λ i. rw stored.0 (
            ground (
              arith,
              has_active-delete (seen_ids jobs) i
                  (upsert_active_jobs r now limit host bench jobs active).1,
              stored.1 i,
            )),
      )

newest-append :
    (h : WorkerHealth) (hs : List WorkerHealth)
    → All (λ x. x.timestamp ≤ h.timestamp) hs
    → newest (λ x. x.timestamp) (hs ++ h ∷ []) ≡ some h
unfolding newest
newest-append h [] le = refl
newest-append h (x ∷ xs) le = rw (newest-append h xs le.1) (ground arith)

keep-append {ℓ} :
    {A : Type ℓ} (p : A → Bool) (xs ys : List A) → keep p (xs ++ ys) ≡ keep p xs ++ keep p ys
keep-append p [] ys = refl
keep-append p (x ∷ xs) ys = ground (arith, keep-append p xs ys)

All-keep :
    (p : WorkerHealth → Bool) (now : ℕ) (hs : List WorkerHealth)
    → All (λ x. x.timestamp ≤ now) hs
    → All (λ x. x.timestamp ≤ now) (keep p hs)
All-keep p now [] h = tt
All-keep p now (x ∷ xs) h = elim (Bool-cases (p x)) [
  | inl e ↦ rw e (h.0, All-keep p now xs h.1)
  | inr e ↦ rw e (All-keep p now xs h.1)
]

prior_health-append :
    (host bench : String) (h : WorkerHealth) (hs : List WorkerHealth)
    → is_health_of host bench h ≡ true
    → All (λ x. x.timestamp ≤ h.timestamp) hs
    → prior_health host bench (hs ++ h ∷ []) ≡ some h
unfolding prior_health
prior_health-append host bench h hs here older =
    let p = is_health_of host bench in
    let only : keep p (h ∷ []) ≡ h ∷ [] = rw here refl in
    rw (keep-append p hs (h ∷ []), only)
      (newest-append h (keep p hs) (All-keep p h.timestamp hs older))

-- The job has an id and runs at or beyond the limit; one without a start does so at the limit 0.
abbrev pub runs_long : Remote → ℕ → ℕ → JobReport → Bool
runs_long r now limit job =
    is_set job.rq_job_id
    && (if is_set job.started_at
        then (elim (r.local_time (or_empty job.started_at)) [
          | none ↦ false
          | some started ↦ leb (limit * 1000000) (now - started)
        ])
        else limit == 0)

is_long_running-runs_long :
    (r : Remote) (now limit : ℕ) (job : JobReport)
    → is_long_running r now limit job ≡ runs_long r now limit job
unfolding is_long_running parse_remote_timestamp elapsed
is_long_running-runs_long r now limit job = elim (Bool-cases (is_set job.started_at)) [
  | inr e ↦ rw (is_long_running, parse_remote_timestamp, e) (ground arith)
  | inl e ↦ elim (Option-cases (r.local_time (or_empty job.started_at))) [
    | inl raises ↦ rw (is_long_running, parse_remote_timestamp, e, raises) refl
    | inr (t, k) ↦ rw (is_long_running, parse_remote_timestamp, e, k) (ground arith)
  ]
]

long_running_count-any :
    (r : Remote) (now limit : ℕ) (jobs : List JobReport)
    → ltb 0 (long_running_count r now limit jobs) ≡ any (runs_long r now limit) jobs
unfolding long_running_count
long_running_count-any r now limit [] = refl
long_running_count-any r now limit (job ∷ jobs) =
    ground
      (arith, is_long_running-runs_long r now limit job, long_running_count-any r now limit jobs)

-- A bench report with a name, in which the start of each active job and the end of each failed job
-- that has an id is missing or parses, stored when no row of the health log is younger: it raises no
-- error. The bench has an active job with an id exactly if the report lists one, and an open failed
-- job likewise. The newest row of its health log is the one returned. Its streaks are one longer than
-- in the row before, or 0: those of the orphan workers and of the failed jobs if their count reached
-- its limit, that of the long-running jobs if an active job runs at or beyond the limit.
pub process_bench_lem :
    (r : Remote) (now : ℕ) (host : String) (limits : BenchLimits) (row : BenchReport)
    (t : BenchTables)
    → is_set row.bench_name ≡ true
    → times_parse r (λ j. j.started_at) row.active_jobs ≡ true
    → times_parse r (λ j. j.failed_at) row.failed_jobs ≡ true
    → All (λ x. x.timestamp ≤ now) t.health
    → let bench = or_empty row.bench_name in
      let prior = prior_health host bench t.health in
      (h : WorkerHealth) × (t' : BenchTables) × (process_bench r now host limits row t
        ≡ (some h, t'))
      × ((i : String) → has_active host bench i t'.active ≡ is_member i (seen_ids row.active_jobs))
      × ((i : String) → has_failed host bench i t'.failed ≡ is_member i (seen_ids row.failed_jobs))
      × (prior_health host bench t'.health ≡ some h)
      × (h.orphan_critical_streak ≡ (
          if leb limits.orphan_critical row.orphan_worker_count
          then prior_streak (λ x. x.orphan_critical_streak) prior + 1
          else 0))
      × (h.failed_job_critical_streak ≡ (
          if leb limits.failed_job_critical (failed_count row)
          then prior_streak (λ x. x.failed_job_critical_streak) prior + 1
          else 0))
      × (h.long_running_job_critical_streak ≡ (
          if any (runs_long r now limits.long_running_critical) row.active_jobs
          then prior_streak (λ x. x.long_running_job_critical_streak) prior + 1
          else 0))
unfolding process_bench
process_bench_lem r now host limits row t named started ended older =
    let bench = or_empty row.bench_name in
    let limit = limits.long_running_critical in
    let h = next_health r now host bench limits row (prior_health host bench t.health) in
    let active = record_active_jobs_lem r now limit host bench row.active_jobs t.active started in
    let failed = record_failed_jobs_lem r now host bench row.failed_jobs t.failed ended in
    (
      h,
      record {
        failed = (record_failed_jobs r now host bench row.failed_jobs t.failed).1;
        active = (record_active_jobs r now limit host bench row.active_jobs t.active).1;
        health = t.health ++ h ∷ [];
      },
      rw (named, active.0, failed.0) refl,
      active.1,
      failed.1,
      prior_health-append host bench h t.health
          (unfold is_health_of next_health in ground (arith, eq_refl host, eq_refl bench))
          (unfold next_health in older),
      unfold next_health next_streak in refl,
      unfold next_health next_streak in refl,
      unfold next_health next_streak in
          rw (long_running_count-any r now limit row.active_jobs) refl,
    )
