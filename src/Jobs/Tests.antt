-- ===== src/Jobs/Tests.antt =====
-- A job queue on which the laws hold, and runs of the loops on it.
use alfaedge_pulse.Common.{
  ℕ, String, ◌≡◌, refl, inl, inr, true, false, not, ◌&&◌, Option, none, some, str_eq, eq_refl,
  if◌then◌else◌, Bool-cases,
}
use alfaedge_pulse.Jobs.{
  is_live_status, Rq, Job, start_loop_if_needed, successor_id, last_piece, JobStatus, second_id,
  after_bars,
}
use alfaedge_pulse.Jobs.Loops.{IsRq, is_live, is_blocking, start_loop_if_needed_lem}

-- The jobs of a queue by their ids.
abbrev Jobs : Type 0
Jobs = String → Option Job

abbrev new_job : String → Job
new_job i = record {
  id = i;
  status = JobStatus.queued;
  started_at = none;
  enqueued_at = some 0;
  worker_name = none;
}

abbrev jobs : Rq Jobs
jobs = record {
  get_job = λ i s. s i;
  delete_job = λ i s j. if str_eq i j then none else s j;
  is_job_enqueued = λ i s. is_live (s i);
  enqueue = λ method queue timeout i s j.
      if str_eq i j && not (is_live (s i)) then some (new_job i) else s j;
}

enqueue_live :
    (i : String) (s : Jobs)
    → is_live (if str_eq i i && not (is_live (s i)) then some (new_job i) else s i) ≡ true
unfolding is_live_status
enqueue_live i s = elim (Bool-cases (is_live (s i))) [
  | inl live ↦ rw (eq_refl i, live) live
  | inr dead ↦ rw (eq_refl i, dead) refl
]

jobs-IsRq : IsRq jobs
jobs-IsRq = record {
  is_job_enqueued-eq = λ i s. refl;
  get_job-delete = λ i j s. refl;
  enqueue_lem = λ method queue timeout i s. enqueue_live i s;
}

-- A worker was killed while it ran the loop.
abbrev leftover : Jobs
leftover i =
    if str_eq i "poller"
    then some (record (new_job "poller") { status = JobStatus.started })
    else none

abbrev an_hour : ℕ
an_hour = 3600000000

start_loop_if_needed_lem_example :
    let started =
      start_loop_if_needed jobs an_hour false "pulse" "run_poll_loop" "poller" 420 600 leftover in
    (started.queued ≡ (
      not false
      && not (is_blocking an_hour 600 (jobs.get_job "poller" leftover))
      && not (is_blocking an_hour 600 (jobs.get_job (second_id "poller") leftover))))
    × (started.queued ≡ true → jobs.is_job_enqueued "poller" started.queue_state ≡ true)
start_loop_if_needed_lem_example =
    start_loop_if_needed_lem jobs jobs-IsRq an_hour 600 false "pulse" "run_poll_loop" "poller" 420
      leftover

site_prefix_is_dropped : successor_id "poller" (some (new_job "site||poller")) ≡ "poller_b"
unfolding successor_id last_piece after_bars second_id
site_prefix_is_dropped = refl
