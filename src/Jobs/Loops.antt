-- ===== src/Jobs/Loops.antt =====
-- The two ids of a poll loop: the start of a loop and its hand-over.
use alfaedge_pulse.Common.{
  ℕ, String, ◌≡◌, refl, sym, ap, ◌∙◌, ◌≢◌, ◌⊎◌, inl, inr, Bool, true, false, not, ◌&&◌, Option,
  none, some, arith, str_eq, eq_iff, eq_refl, if◌then◌else◌, Bool-cases,
}
use Prim.Native.String.{len, ◌++◌ as str_append}
use text.Mathlib.TextPositions.{len-append}
use alfaedge_pulse.Jobs.{
  Rq, Job, second_id, clear_stale_job, is_live_status, is_stale, is_aged, clear_found,
  hand_off_loop, start_loop_if_needed, successor_id, last_piece,
}

-- A job that is queued or started.
abbrev pub is_live : Option Job → Bool
is_live none = false
is_live (some job) = is_live_status job.status

-- A job that is queued or started, and not so old that no run could reach its age.
abbrev pub is_blocking : ℕ → ℕ → Option Job → Bool
is_blocking now max_age none = false
is_blocking now max_age (some job) = is_live_status job.status && not (is_aged now max_age job)

-- What Frappe and RQ document: an id is enqueued exactly if its job is queued or started, deleting a
-- job removes that one only, and `enqueue` leaves a job with its id queued or started.
pub record IsRq {S : Type 0} (rq : Rq S) : Type 0 where
  pub is_job_enqueued-eq : (i : String) (s : S) → rq.is_job_enqueued i s ≡ is_live (rq.get_job i s)
  pub get_job-delete :
      (i j : String) (s : S)
      → rq.get_job j (rq.delete_job i s) ≡ (if str_eq i j then none else rq.get_job j s)
  pub enqueue_lem :
      (method queue : String) (timeout : ℕ) (i : String) (s : S)
      → rq.is_job_enqueued i (rq.enqueue method queue timeout i s) ≡ true

second_id_differs : (i : String) → str_eq i (second_id i) ≡ false
unfolding second_id
second_id_differs i = ground (arith, eq_iff i (str_append i "_b"), ap len, len-append i "_b")

second_id_differs_left : (i : String) → str_eq (second_id i) i ≡ false
unfolding second_id
second_id_differs_left i = ground (arith, eq_iff (str_append i "_b") i, second_id_differs i)

module _ {S : Type 0} (rq : Rq S) (laws : IsRq rq) (now max_age : ℕ) where
  found_other :
      (i j : String) (s : S) (o : Option Job)
      → str_eq i j ≡ false
      → rq.get_job j (clear_found rq now i max_age s o).queue_state ≡ rq.get_job j s
  unfolding clear_found
  found_other i j s none other = refl
  found_other i j s (some job) other = ground (arith, laws.get_job-delete i j s)

  get_job-clear_other :
      (i j : String) (s : S)
      → str_eq i j ≡ false
      → rq.get_job j (clear_stale_job rq now i max_age s).queue_state ≡ rq.get_job j s
  unfolding clear_stale_job
  get_job-clear_other i j s = found_other i j s (rq.get_job i s)

  found_enqueued :
      (i : String) (s : S) (o : Option Job)
      → rq.get_job i s ≡ o
      → rq.is_job_enqueued i (clear_found rq now i max_age s o).queue_state
        ≡ is_blocking now max_age o
  unfolding clear_found is_stale
  found_enqueued i s none e = laws.is_job_enqueued-eq i s ∙ ap is_live e
  found_enqueued i s (some job) e = ground (
    arith,
    laws.is_job_enqueued-eq i s ∙ ap is_live e,
    laws.is_job_enqueued-eq i (rq.delete_job i s),
    ap is_live (laws.get_job-delete i i s),
    eq_refl i,
  )

  is_job_enqueued-clear :
      (i : String) (s : S)
      → rq.is_job_enqueued i (clear_stale_job rq now i max_age s).queue_state
        ≡ is_blocking now max_age (rq.get_job i s)
  unfolding clear_stale_job
  is_job_enqueued-clear i s = found_enqueued i s (rq.get_job i s) refl

  is_job_enqueued-clear_other :
      (i j : String) (s : S)
      → str_eq i j ≡ false
      → rq.is_job_enqueued j (clear_stale_job rq now i max_age s).queue_state
        ≡ rq.is_job_enqueued j s
  is_job_enqueued-clear_other i j s other =
      laws.is_job_enqueued-eq j (clear_stale_job rq now i max_age s).queue_state
      ∙ ap is_live (get_job-clear_other i j s other)
      ∙ sym (laws.is_job_enqueued-eq j s)

  -- A loop is queued exactly if it has no heartbeat and neither of its two ids has a queued or
  -- started job younger than the limit: a leftover of a killed worker never blocks it. When it is
  -- queued, its first id is enqueued afterwards.
  pub start_loop_if_needed_lem :
      (heartbeat : Bool) (queue method job_id : String) (timeout : ℕ) (s : S)
      → let started = start_loop_if_needed rq now heartbeat queue method job_id timeout max_age s in
        (started.queued ≡ (
          not heartbeat
          && not (is_blocking now max_age (rq.get_job job_id s))
          && not (is_blocking now max_age (rq.get_job (second_id job_id) s))))
        × (started.queued ≡ true → rq.is_job_enqueued job_id started.queue_state ≡ true)
  unfolding start_loop_if_needed
  start_loop_if_needed_lem heartbeat queue method job_id timeout s =
      let first = (clear_stale_job rq now job_id max_age s).queue_state in
      let cleared = (clear_stale_job rq now (second_id job_id) max_age first).queue_state in
      let one : rq.is_job_enqueued job_id cleared ≡ is_blocking now max_age (rq.get_job job_id s) =
        is_job_enqueued-clear_other (second_id job_id) job_id first (second_id_differs_left job_id)
        ∙ is_job_enqueued-clear job_id s in
      let two : rq.is_job_enqueued (second_id job_id) cleared
          ≡ is_blocking now max_age (rq.get_job (second_id job_id) s) =
        is_job_enqueued-clear (second_id job_id) first
        ∙ ap (is_blocking now max_age)
            (get_job-clear_other job_id (second_id job_id) s (second_id_differs job_id)) in
      (
        ground (arith, one, two),
        λ queued. ground (arith, one, two, laws.enqueue_lem method queue timeout job_id cleared),
      )

module _ {S : Type 0} (rq : Rq S) (laws : IsRq rq) where
  -- A run that hands over enqueues one of the loop's two ids, and never the one it runs under.
  pub hand_off_loop_lem :
      (job : Job) (queue method job_id : String) (timeout : ℕ) (s : S)
      → let next = successor_id job_id (some job) in
        let s' = hand_off_loop rq (some job) queue method job_id timeout s in
        (rq.is_job_enqueued next s' ≡ true)
        × (next ≢ last_piece job.id)
        × ((next ≡ job_id) ⊎ (next ≡ second_id job_id))
  unfolding hand_off_loop successor_id
  hand_off_loop_lem job queue method job_id timeout s = (
    laws.enqueue_lem method queue timeout (successor_id job_id (some job)) s,
    ground (
      arith,
      eq_iff (last_piece job.id) job_id,
      second_id_differs job_id,
      eq_iff job_id (second_id job_id),
    ),
    elim (Bool-cases (str_eq (last_piece job.id) job_id)) [
      | inl e ↦ inr (simp e refl)
      | inr e ↦ inl (simp e refl)
    ],
  )
