-- ===== src/Jobs.antt =====
-- tasks/jobs.py: the background jobs that run the poll loops.
-- The job queue RQ, with Frappe's `enqueue`, is an `Rq` over a state `S`; times are in microseconds.
pub mod Loops
pub mod Tests
use alfaedge_pulse.Common.{
  ℕ, ◌+◌, ◌-◌, ◌*◌, ◌/◌, String, Bool, true, false, not, ◌&&◌, ◌||◌, Option, none, some, List, [],
  ◌∷◌, str_eq, leb, ◌==◌, if◌then◌else◌,
}
use Prim.Native.Char.{code}
use Prim.Native.String.{◌++◌ as str_append}
use alfaedge_pulse.Common.Text.{concat, decimal}

pub data JobStatus : Type 0 where
  queued started finished failed : JobStatus

-- The fields of an RQ job that this code reads.
pub record Job : Type 0 where
  pub id : String
  pub status : JobStatus
  pub started_at : Option ℕ
  pub enqueued_at : Option ℕ
  pub worker_name : Option String

-- `get_job`, `job.delete`, `is_job_enqueued`, and `enqueue` with `deduplicate=True` of a method on
-- a queue with a timeout and a job id.
pub record Rq (S : Type 0) : Type 0 where
  pub get_job : String → S → Option Job
  pub delete_job : String → S → S
  pub is_job_enqueued : String → S → Bool
  pub enqueue : String → String → ℕ → String → S → S

pub poller_queue_name : String
poller_queue_name = "pulse"

-- What asking RQ for the workers of a queue gives: their number, or the name of the exception.
pub data Workers : Type 0 where
  serving : ℕ → Workers
  unchecked : String → Workers

-- Why the loops cannot run on their own queue.
fallback_reason : Bool → Workers → Option String
unfolding poller_queue_name
fallback_reason false workers =
    some "\"pulse\" is not listed under \"workers\" in common_site_config.json"
fallback_reason true (serving n) =
    if n == 0
    then some
        "no worker is serving the \"pulse\" queue (is the supervisor program installed and running?)"
    else none
fallback_reason true (unchecked name) =
    some (concat ("the \"pulse\" queue could not be checked (" ∷ name ∷ ")" ∷ []))

-- The queue, whether the hourly warning is cached afterwards, and the warnings logged.
pub record QueueChoice : Type 0 where
  pub queue : String
  pub warned : Bool
  pub warnings : List String

-- jobs.py: `poller_queue`, from whether the queue is configured, its workers, and whether the
-- warning is cached.
pub poller_queue : Bool → Workers → Bool → QueueChoice
unfolding fallback_reason
poller_queue configured workers warned = elim (fallback_reason configured workers) [
  | none ↦ record { queue = poller_queue_name; warned = warned; warnings = [] }
  | some reason ↦ record {
    queue = "long";
    warned = true;
    warnings =
        if warned
        then []
        else concat ("Poll loops are using the long queue because " ∷ reason ∷ "." ∷ []) ∷ [];
  }
]

pub is_live_status : JobStatus → Bool
is_live_status JobStatus.queued = true
is_live_status JobStatus.started = true
is_live_status JobStatus.finished = false
is_live_status JobStatus.failed = false

-- `job.started_at or job.enqueued_at`
pub job_since : Job → Option ℕ
job_since job = elim job.started_at [ none ↦ job.enqueued_at | some t ↦ some t ]

-- The age is at least the limit, in seconds.
pub is_aged : ℕ → ℕ → Job → Bool
unfolding job_since
is_aged now max_age job = elim (job_since job) [
  | none ↦ false
  | some t ↦ leb (t + max_age * 1000000) now
]

pub is_stale : ℕ → ℕ → Job → Bool
is_stale now max_age job = is_live_status job.status && is_aged now max_age job

status_text : JobStatus → String
status_text JobStatus.queued = "queued"
status_text JobStatus.started = "started"
status_text JobStatus.finished = "finished"
status_text JobStatus.failed = "failed"

-- The entry in the error log for a job that is removed.
stale_message : ℕ → Job → String
unfolding status_text job_since
stale_message now job = concat (
    "Job "
    ∷ job.id
    ∷ " was still "
    ∷ status_text job.status
    ∷ " after "
    ∷ elim (job_since job) [ none ↦ "" | some t ↦ decimal ((now - t) / 1000000) ]
    ∷ "s (worker "
    ∷ elim job.worker_name [ none ↦ "unknown" | some w ↦ w ]
    ∷ "); deleted so it can be re-enqueued."
    ∷ [])

-- The queue afterwards, whether a job was removed, and the entries of the error log.
pub record Cleared (S : Type 0) : Type 0 where
  pub queue_state : S
  pub removed : Bool
  pub errors : List String

-- `clear_stale_job` once the job is looked up.
clear_found : {S : Type 0} → Rq S → ℕ → String → ℕ → S → Option Job → Cleared S
unfolding is_stale is_aged job_since is_live_status stale_message
clear_found rq now job_id max_age s none = record { queue_state = s; removed = false; errors = [] }
clear_found rq now job_id max_age s (some job) =
    if is_stale now max_age job
    then record {
      queue_state = rq.delete_job job_id s;
      removed = true;
      errors = stale_message now job ∷ [];
    }
    else record { queue_state = s; removed = false; errors = [] }

-- jobs.py: `clear_stale_job`
pub clear_stale_job : {S : Type 0} → Rq S → ℕ → String → ℕ → S → Cleared S
unfolding clear_found
clear_stale_job rq now job_id max_age s = clear_found rq now job_id max_age s (rq.get_job job_id s)

-- The second id of a loop, of jobs.py: `_loop_job_ids`.
pub second_id : String → String
second_id job_id = str_append job_id "_b"

pub record Started (S : Type 0) : Type 0 where
  pub queue_state : S
  pub queued : Bool

-- jobs.py: `start_loop_if_needed`, from the heartbeat and the queue that `poller_queue` chooses.
pub start_loop_if_needed :
    {S : Type 0} → Rq S → ℕ → Bool → String → String → String → ℕ → ℕ → S → Started S
unfolding second_id
start_loop_if_needed rq now heartbeat queue method job_id timeout stale_seconds s =
    let first = clear_stale_job rq now job_id stale_seconds s in
    let cleared =
      (clear_stale_job rq now (second_id job_id) stale_seconds first.queue_state).queue_state in
    if heartbeat
    then record { queue_state = s; queued = false }
    else if rq.is_job_enqueued job_id cleared || rq.is_job_enqueued (second_id job_id) cleared
    then record { queue_state = cleared; queued = false }
    else record { queue_state = rq.enqueue method queue timeout job_id cleared; queued = true }

-- What stands after the last "||", read from the left.
after_bars : String → Option String
after_bars String.[] = none
after_bars (String.◌∷◌ c String.[]) = none
after_bars (String.◌∷◌ c (String.◌∷◌ d s)) =
    let past = after_bars s in
    let rest = after_bars (String.◌∷◌ d s) in
    if code c == b'|' && code d == b'|' then elim past [ none ↦ some s | some t ↦ some t ] else rest

-- `id.split("||")[-1]`
pub last_piece : String → String
unfolding after_bars
last_piece s = elim (after_bars s) [ none ↦ s | some t ↦ t ]

-- The id of the next run: the one of the two that the current job does not have.
pub successor_id : String → Option Job → String
unfolding last_piece second_id
successor_id job_id current =
    let current_id : String = elim current [ none ↦ job_id | some job ↦ last_piece job.id ] in
    if str_eq current_id job_id then second_id job_id else job_id

-- jobs.py: `hand_off_loop`, from the current job and the queue that `poller_queue` chooses.
pub hand_off_loop : {S : Type 0} → Rq S → Option Job → String → String → String → ℕ → S → S
unfolding successor_id
hand_off_loop rq current queue method job_id timeout s =
    rq.enqueue method queue timeout (successor_id job_id current) s
