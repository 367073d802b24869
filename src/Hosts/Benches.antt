-- ===== src/Hosts/Benches.antt =====
-- host_health/ingest.py: the failed and the active jobs of a bench.
pub mod Failures
use alfaedge_pulse.Common.{
  All-map, All-any, ℕ, zero, suc, ◌+◌, ◌-◌, ◌*◌, ◌/◌, ◌%◌, ◌≤◌, ◌<◌, max, String, ◌≡◌, refl, sym,
  ap, ◌∙◌, ◌≢◌, ◌↔◌, ◌⊎◌, inl, inr, Bool, true, false, not, ◌&&◌, ◌||◌, Option, none, some, List,
  [], ◌∷◌, ◌++◌, map, foldl, arith, str_eq, eq_iff, eq_refl, ltb, leb, ◌==◌, if◌then◌else◌,
  Bool-cases, Option-cases, ltb→lt, lt→ltb, leb→le, le→leb, tests, length, take, any, all, keep,
  count, length-append, any-append, count-append, count-le-length, All, length-map,
}
use mathlib.Core.List.{reverse}
use Prim.Native.String.{◌++◌ as str_append}
use alfaedge_pulse.Common.Text.{
  first_chars, strip, or_empty, split_on, before_colon, is_blank, has_code,
}
use alfaedge_pulse.Alerts.Channels.{is_set}
use alfaedge_pulse.Common.Tables.{set_where, upsert}
use alfaedge_pulse.Alerts.Dispatch.{is_member}

-- What the code calls outside the repository: `get_datetime` with the conversion to local time, in
-- microseconds, none for a text on which it raises; and `sha256(…).hexdigest()`.
pub record Remote : Type 0 where
  pub local_time : String → Option ℕ
  pub hexdigest : String → String

-- ingest.py: `_parse_remote_timestamp`: none where it raises, some none for a value that is missing.
unfoldable pub parse_remote_timestamp : Remote → Option String → Option (Option ℕ)
parse_remote_timestamp r value =
    if is_set value
    then elim (r.local_time (or_empty value)) [ none ↦ none | some t ↦ some (some t) ]
    else some none

-- The loop over the lines of a traceback, the last one first.
exc_type_of : List String → String
exc_type_of [] = "Unknown"
exc_type_of (l ∷ ls) =
    let rest = exc_type_of ls in
    let line = strip l in
    let name = strip (before_colon line) in
    if is_blank line
    then rest
    else if not (is_blank name) && not (has_code b' ' name)
    then name
    else "Unknown"

-- ingest.py: `_parse_exc_type`, with lines that end in a newline.
pub parse_exc_type : Option String → String
unfolding exc_type_of
parse_exc_type exc_info = exc_type_of (reverse (split_on 10 (or_empty exc_info)))

-- ingest.py: `_failure_signature`
pub failure_signature : Remote → String → Option String → String
failure_signature r exc_type job_name = first_chars 16 (
    r.hexdigest (
      str_append exc_type
        (str_append "::" (if is_set job_name then or_empty job_name else "unknown"))))

-- A job of a report, failed or active.
pub record JobReport : Type 0 where
  pub rq_job_id : Option String
  pub queue_name : Option String
  pub job_name : Option String
  pub failed_at : Option String
  pub started_at : Option String
  pub exc_info : Option String
  pub worker_pid : Option ℕ

-- A row of `Frappe Failed Job Log`.
pub record FailedJob : Type 0 where
  pub rq_job_id : String
  pub monitored_host : String
  pub bench_name : String
  pub queue_name : Option String
  pub job_name : Option String
  pub failed_at : Option ℕ
  pub first_seen : ℕ
  pub last_seen : ℕ
  pub resolved : Bool
  pub resolved_at : Option ℕ
  pub exc_info : Option String
  pub exc_type : String
  pub failure_signature : String

pub first_seen_of : ℕ → Option FailedJob → ℕ
first_seen_of now none = now
first_seen_of now (some e) = e.first_seen

pub next_failed : Remote → ℕ → String → String → JobReport → Option ℕ → Option FailedJob → FailedJob
unfolding first_seen_of
next_failed r now host bench job failed_at existing =
    let exc_type = parse_exc_type job.exc_info in
    record {
      rq_job_id = or_empty job.rq_job_id;
      monitored_host = host;
      bench_name = bench;
      queue_name = job.queue_name;
      job_name = job.job_name;
      failed_at = failed_at;
      first_seen = first_seen_of now existing;
      last_seen = now;
      resolved = false;
      resolved_at = none;
      exc_info = job.exc_info;
      exc_type = exc_type;
      failure_signature = failure_signature r exc_type job.job_name;
    }

-- ingest.py: `_upsert_failed_job`, on the table; a job without an id changes nothing, and one whose
-- time does not parse raises.
pub upsert_failed_job :
    Remote → ℕ → String → String → JobReport → List FailedJob → Option (List FailedJob)
unfolding next_failed parse_remote_timestamp
upsert_failed_job r now host bench job failed =
    if is_set job.rq_job_id
    then elim (parse_remote_timestamp r job.failed_at) [
      | none ↦ none
      | some failed_at ↦ some (
          upsert (λ f. str_eq f.rq_job_id (or_empty job.rq_job_id))
            (next_failed r now host bench job failed_at) failed)
    ]
    else some failed

-- The ids that the functions return, without None.
unfoldable pub seen_ids : List JobReport → List String
seen_ids [] = []
seen_ids (j ∷ js) =
    let rest = seen_ids js in if is_set j.rq_job_id then or_empty j.rq_job_id ∷ rest else rest

pub is_open_failed : String → String → FailedJob → Bool
is_open_failed host bench f =
    str_eq f.monitored_host host && str_eq f.bench_name bench && not f.resolved

-- ingest.py: `_resolve_missing_failed_jobs`
pub resolve_missing_failed_jobs :
    ℕ → String → String → List String → List FailedJob → List FailedJob
unfolding is_open_failed
resolve_missing_failed_jobs now host bench seen failed =
    set_where (λ f. is_open_failed host bench f && not (is_member f.rq_job_id seen))
      (λ f. record f { resolved = true; resolved_at = some now }) failed

-- The loop over the failed jobs: whether it ends, and the table where it ends or raises.
pub upsert_failed_jobs :
    Remote → ℕ → String → String → List JobReport → List FailedJob → Bool × List FailedJob
unfolding upsert_failed_job
upsert_failed_jobs r now host bench [] failed = (true, failed)
upsert_failed_jobs r now host bench (j ∷ js) failed =
    elim (upsert_failed_job r now host bench j failed) [
      | none ↦ (false, failed)
      | some failed' ↦ upsert_failed_jobs r now host bench js failed'
    ]

-- The part of `_process_bench` on the failed jobs; the others are resolved only if the loop ends.
unfoldable pub record_failed_jobs :
    Remote → ℕ → String → String → List JobReport → List FailedJob → Bool × List FailedJob
unfolding upsert_failed_jobs seen_ids resolve_missing_failed_jobs
record_failed_jobs r now host bench jobs failed =
    let (done, failed') = upsert_failed_jobs r now host bench jobs failed in
    (
      done,
      if done then resolve_missing_failed_jobs now host bench (seen_ids jobs) failed' else failed',
    )
