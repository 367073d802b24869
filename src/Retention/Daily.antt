-- ===== src/Retention/Daily.antt =====
-- The tables after the daily jobs.
use alfaedge_pulse.Common.{
  ℕ, ◌+◌, ◌-◌, ◌*◌, ◌≡◌, not, some, List, arith, length, keep, count, count-le-length,
}
use Prim.Native.Nat.{min}
use alfaedge_pulse.Retention.{
  purge_old_resource_logs, ResourceLogs, FailedRow, is_old, purge, purge_batch_size, day,
  is_old_failure,
}
use alfaedge_pulse.Poller.Severity.{or_default}
use alfaedge_pulse.Retention.Termination.{purge_table_lem, purge_lem}

failed_lem :
    (cutoff : ℕ) (rows : List FailedRow)
    → purge (length rows + 1) purge_batch_size (is_old_failure cutoff) 0 rows
      ≡ some
          (0 + count (is_old_failure cutoff) rows, keep (λ x. not (is_old_failure cutoff x)) rows)
failed_lem cutoff rows =
    purge_lem (is_old_failure cutoff) (length rows + 1) purge_batch_size 0 rows (omega arith)
      (ground (arith, count-le-length (is_old_failure cutoff) rows))

-- The purge of the resource tables ends whatever the tables hold. It leaves of the six sampled
-- tables the rows taken at the cutoff or later, the samples of the devices for at most seven days,
-- the snapshots for 180 days, and of the failed jobs all that are unresolved, have no time of their
-- resolution, or were resolved within 90 days; no setting, or 0, stands for 30 days.
pub purge_old_resource_logs_lem :
    (now setting : ℕ) (t : ResourceLogs)
    → let days = or_default setting 30 in
      purge_old_resource_logs now setting t
      ≡ some (record {
        disk_io = keep (λ x. not (is_old (now - min days 7 * day) x)) t.disk_io;
        memory = keep (λ x. not (is_old (now - days * day) x)) t.memory;
        mariadb = keep (λ x. not (is_old (now - days * day) x)) t.mariadb;
        redis = keep (λ x. not (is_old (now - days * day) x)) t.redis;
        snapshots = keep (λ x. not (is_old (now - 180 * day) x)) t.snapshots;
        disk_samples = keep (λ x. not (is_old (now - days * day) x)) t.disk_samples;
        metrics = keep (λ x. not (is_old (now - days * day) x)) t.metrics;
        worker_health = keep (λ x. not (is_old (now - days * day) x)) t.worker_health;
        failed_jobs = keep (λ x. not (is_old_failure (now - 90 * day) x)) t.failed_jobs;
      })
unfolding purge_old_resource_logs
purge_old_resource_logs_lem now setting t = simp (purge_table_lem, failed_lem)
