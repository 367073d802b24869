-- ===== src/Hosts/Benches/Failures.antt =====
-- The failed jobs of a bench after a report: `_upsert_failed_job` and
-- `_resolve_missing_failed_jobs`.
use alfaedge_pulse.Hosts.Benches.{parse_remote_timestamp}
use alfaedge_pulse.Common.Tables.{upsert}
use alfaedge_pulse.Common.{
  ℕ, String, ◌≡◌, refl, ap, ◌∙◌, inl, inr, Bool, true, false, not, ◌&&◌, ◌||◌, Option, none, some,
  List, [], ◌∷◌, arith, str_eq, eq_iff, eq_refl, Bool-cases, Option-cases, any, all,
}
use alfaedge_pulse.Hosts.Benches.{
  Remote, FailedJob, record_failed_jobs, is_open_failed, upsert_failed_jobs, upsert_failed_job,
  resolve_missing_failed_jobs, seen_ids, JobReport, next_failed,
}
use alfaedge_pulse.Common.Tables.{set_where, any-upsert, any-upsert_other}
use alfaedge_pulse.Alerts.Dispatch.{is_member}
use alfaedge_pulse.Alerts.Channels.{is_set}
use alfaedge_pulse.Common.Text.{or_empty}

-- The value is missing, or a time that parses.
abbrev pub parses : Remote → Option String → Bool
parses r value =
    not (is_set value) || (elim (r.local_time (or_empty value)) [ none ↦ false | some t ↦ true ])

-- This time of each job with an id is missing or parses.
abbrev pub times_parse : Remote → (JobReport → Option String) → List JobReport → Bool
times_parse r time_of jobs = all (λ j. not (is_set j.rq_job_id) || parses r (time_of j)) jobs

pub parses-some :
    (r : Remote) (value : Option String)
    → parses r value ≡ true
    → (t : Option ℕ) × (parse_remote_timestamp r value ≡ some t)
unfolding parse_remote_timestamp
parses-some r value h = elim (Bool-cases (is_set value)) [
  | inr e ↦ (none, rw e refl)
  | inl e ↦ elim (Option-cases (r.local_time (or_empty value))) [
    | inl raises ↦ let h' = (rw (e, raises) at h) in absurd (ground (arith, h'))
    | inr (t, k) ↦ (some t, rw (e, k) refl)
  ]
]

-- The bench has an open failed job with this id.
abbrev pub has_failed : String → String → String → List FailedJob → Bool
has_failed host bench i failed =
    any (λ f. is_open_failed host bench f && str_eq f.rq_job_id i) failed

module _ (r : Remote) (now : ℕ) (host bench : String) where
  next_failed-is_open :
      (job : JobReport) (at : Option ℕ) (i : String) (o : Option FailedJob)
      → let f = next_failed r now host bench job at o in
        (is_open_failed host bench f && str_eq f.rq_job_id i) ≡ str_eq (or_empty job.rq_job_id) i
  unfolding next_failed is_open_failed
  next_failed-is_open job at i o = ground (arith, eq_refl host, eq_refl bench)

  has_failed-put :
      (job : JobReport) (at : Option ℕ) (i : String) (failed : List FailedJob)
      → has_failed host bench i (
          upsert
            (λ f. str_eq f.rq_job_id (or_empty job.rq_job_id))
            (next_failed r now host bench job at)
            failed)
        ≡ (str_eq (or_empty job.rq_job_id) i || has_failed host bench i failed)
  has_failed-put job at i failed =
      let same = λ (f : FailedJob). str_eq f.rq_job_id (or_empty job.rq_job_id) in
      let here = λ (f : FailedJob). is_open_failed host bench f && str_eq f.rq_job_id i in
      let next = next_failed r now host bench job at in
      elim (Bool-cases (str_eq (or_empty job.rq_job_id) i)) [
        | inl e ↦
            ground
              (arith, any-upsert same here next failed (λ o. next_failed-is_open job at i o ∙ e))
        | inr e ↦ ground (
          arith,
          any-upsert_other same here next failed (λ o. next_failed-is_open job at i o ∙ e)
              (λ f h. ground (
                arith,
                eq_iff f.rq_job_id (or_empty job.rq_job_id),
                eq_iff f.rq_job_id i,
                eq_iff (or_empty job.rq_job_id) i,
              )),
        )
      ]

  has_failed-upsert :
      (job : JobReport) (failed : List FailedJob)
      → (not (is_set job.rq_job_id) || parses r job.failed_at) ≡ true
      → (failed' : List FailedJob) × (upsert_failed_job r now host bench job failed ≡ some failed')
        × ((i : String)
            → has_failed host bench i failed' ≡ (
                is_set job.rq_job_id && str_eq (or_empty job.rq_job_id) i
                || has_failed host bench i failed))
  unfolding upsert_failed_job
  has_failed-upsert job failed h = elim (Bool-cases (is_set job.rq_job_id)) [
    | inr e ↦ (failed, rw e refl, λ i. ground (arith, e))
    | inl e ↦
        let (at, k) = parses-some r job.failed_at (ground (arith, h, e)) in
        (
          upsert (λ f. str_eq f.rq_job_id (or_empty job.rq_job_id))
              (next_failed r now host bench job at) failed,
          rw (e, k) refl,
          λ i. ground (arith, e, has_failed-put job at i failed),
        )
  ]

  has_failed-upserts :
      (jobs : List JobReport) (failed : List FailedJob)
      → times_parse r (λ j. j.failed_at) jobs ≡ true
      → ((upsert_failed_jobs r now host bench jobs failed).0 ≡ true)
        × ((i : String)
            → has_failed host bench i (upsert_failed_jobs r now host bench jobs failed).1
              ≡ (is_member i (seen_ids jobs) || has_failed host bench i failed))
  unfolding upsert_failed_jobs seen_ids is_member
  has_failed-upserts [] failed h = (refl, λ i. refl)
  has_failed-upserts (j ∷ js) failed h =
      let (failed', e, one) = has_failed-upsert j failed (ground (arith, h)) in
      let rest = has_failed-upserts js failed' (ground (arith, h)) in
      (
        rw (upsert_failed_jobs, e) rest.0,
        λ i.
            rw (upsert_failed_jobs, e)
              (ground (
                arith,
                rest.1 i,
                one i,
                eq_iff i (or_empty j.rq_job_id),
                eq_iff (or_empty j.rq_job_id) i,
              )),
      )

  has_failed-resolve :
      (seen : List String) (i : String) (failed : List FailedJob)
      → has_failed host bench i (resolve_missing_failed_jobs now host bench seen failed)
        ≡ (is_member i seen && has_failed host bench i failed)
  unfolding resolve_missing_failed_jobs is_open_failed set_where
  has_failed-resolve seen i [] = ground arith
  has_failed-resolve seen i (f ∷ fs) =
      ground (arith, has_failed-resolve seen i fs, eq_iff f.rq_job_id i, ap (λ x. is_member x seen))

  -- After a report of a bench is stored, whose times parse, the bench has an open failed job with an
  -- id exactly if the report lists a job with that id: the others that were open are resolved, and
  -- one that had been resolved is open again.
  pub record_failed_jobs_lem :
      (jobs : List JobReport) (failed : List FailedJob)
      → times_parse r (λ j. j.failed_at) jobs ≡ true
      → let (done, failed') = record_failed_jobs r now host bench jobs failed in
        (done ≡ true)
        × ((i : String) → has_failed host bench i failed' ≡ is_member i (seen_ids jobs))
  unfolding record_failed_jobs
  record_failed_jobs_lem jobs failed h =
      let stored = has_failed-upserts jobs failed h in
      (
        stored.0,
        λ i. rw stored.0 (
            ground (
              arith,
              has_failed-resolve (seen_ids jobs) i
                  (upsert_failed_jobs r now host bench jobs failed).1,
              stored.1 i,
            )),
      )
