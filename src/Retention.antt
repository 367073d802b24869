-- ===== src/Retention.antt =====
-- The daily purges of the append-only tables: proxmox_resource_history/retention.py,
-- tasks/resource_monitor.py and `purge_old_check_logs` of tasks/uptime_kuma_poller.py.
-- Times are in microseconds; a query without an order takes the rows in the order of the table.
pub mod Backfill
pub mod Collector
pub mod Daily
pub mod History
pub mod Termination
mod Tests
use alfaedge_pulse.Common.{
  All-map, All-any, ℕ, zero, suc, ◌+◌, ◌-◌, ◌*◌, ◌/◌, ◌%◌, ◌≤◌, ◌<◌, max, String, ◌≡◌, refl, sym,
  ap, ◌∙◌, ◌≢◌, ◌↔◌, ◌⊎◌, inl, inr, Bool, true, false, not, ◌&&◌, ◌||◌, Option, none, some, List,
  [], ◌∷◌, ◌++◌, map, foldl, arith, str_eq, eq_iff, eq_refl, ltb, leb, ◌==◌, if◌then◌else◌,
  Bool-cases, Option-cases, ltb→lt, lt→ltb, leb→le, le→leb, tests, length, take, any, all, keep,
  count, length-append, any-append, count-append, count-le-length, All, length-map,
}
use Prim.Native.Nat.{min}
use alfaedge_pulse.Common.Text.{concat, decimal}
use alfaedge_pulse.Poller.Severity.{or_default}

module _ {ℓ} {A : Type ℓ} where
  -- The table without the first `n` rows that fit: those that the query named are deleted.
  pub delete_first : ℕ → (A → Bool) → List A → List A
  delete_first zero old rows = rows
  delete_first (suc n) old [] = []
  delete_first (suc n) old (x ∷ xs) =
      let gone = delete_first n old xs in
      let kept = x ∷ delete_first (suc n) old xs in if old x then gone else kept

  -- The `while True` loop on one table, over the rounds allowed; none means that they ran out. The
  -- result is the number of rows deleted and the table.
  pub purge : ℕ → ℕ → (A → Bool) → ℕ → List A → Option (ℕ × List A)
  purge zero batch old total rows = none
  purge (suc rounds) batch old total rows =
      let named = min batch (count old rows) in
      let left = delete_first batch old rows in
      let next = purge rounds batch old (total + named) left in
      if named == 0
      then some (total, rows)
      else if ltb named batch
      then some (total + named, left)
      else next

abbrev pub purge_batch_size : ℕ
purge_batch_size = 5000

abbrev pub day : ℕ
day = 86400000000

-- A row of a table of history: the time that the purge looks at.
pub record HistoryRow : Type 0 where
  pub name : String
  pub at : ℕ

-- `{"collected_at": ["<", cutoff]}`
pub is_old : ℕ → HistoryRow → Bool
is_old cutoff row = ltb row.at cutoff

-- One table of history; as many rounds as the table has rows, and one more, are enough.
pub purge_table : ℕ → List HistoryRow → Option (ℕ × List HistoryRow)
unfolding purge is_old
purge_table cutoff rows = purge (length rows + 1) purge_batch_size (is_old cutoff) 0 rows

-- What is logged for a table of which rows were deleted.
purge_text : String → String → ℕ → ℕ → List String
purge_text monitor doctype days total =
    if total == 0
    then []
    else concat (
        monitor
        ∷ ": purged "
        ∷ decimal total
        ∷ " "
        ∷ doctype
        ∷ " row(s) older than "
        ∷ decimal days
        ∷ " days"
        ∷ [])
      ∷ []

infixl 5 ◌>>=◌
abbrev pub ◌>>=◌ {ℓ κ} : {A : Type ℓ} {B : Type κ} → Option A → (A → Option B) → Option B
none >>= f = none
some a >>= f = f a

-- The two tables of proxmox_resource_history/retention.py.
pub record ResourceHistory : Type 0 where
  pub hosts : List HistoryRow
  pub guests : List HistoryRow

-- retention.py: `purge_old_resource_history`, with the setting as `cint` reads it; none means that a
-- loop did not end.
pub purge_old_resource_history : ℕ → ℕ → ResourceHistory → Option (List String × ResourceHistory)
unfolding purge_table purge_text
purge_old_resource_history now setting t = do
  let days = or_default setting 30
  let cutoff = now - days * day
  (n, hosts) ← purge_table cutoff t.hosts
  (m, guests) ← purge_table cutoff t.guests
  some (
    purge_text "Proxmox Resource History" "Proxmox Host Metric Log" days n
        ++ purge_text "Proxmox Resource History" "Proxmox Guest Metric Log" days m,
    record { hosts = hosts; guests = guests },
  )

-- A row of `Frappe Failed Job Log`, with what the purge looks at.
pub record FailedRow : Type 0 where
  pub name : String
  pub resolved : Bool
  pub resolved_at : Option ℕ

-- `{"resolved": 1, "resolved_at": ["<", cutoff]}`
pub is_old_failure : ℕ → FailedRow → Bool
is_old_failure cutoff row =
    row.resolved && elim row.resolved_at [ none ↦ false | some t ↦ ltb t cutoff ]

-- The nine tables of tasks/resource_monitor.py, in the order of the loop.
pub record ResourceLogs : Type 0 where
  pub disk_io : List HistoryRow
  pub memory : List HistoryRow
  pub mariadb : List HistoryRow
  pub redis : List HistoryRow
  pub snapshots : List HistoryRow
  pub disk_samples : List HistoryRow
  pub metrics : List HistoryRow
  pub worker_health : List HistoryRow
  pub failed_jobs : List FailedRow

-- resource_monitor.py: `purge_old_resource_logs`, on the tables.
pub purge_old_resource_logs : ℕ → ℕ → ResourceLogs → Option ResourceLogs
unfolding purge_table is_old_failure purge
purge_old_resource_logs now setting t = do
  let days = or_default setting 30
  let cutoff = now - days * day
  (_, disk_io) ← purge_table (now - min days 7 * day) t.disk_io
  (_, memory) ← purge_table cutoff t.memory
  (_, mariadb) ← purge_table cutoff t.mariadb
  (_, redis) ← purge_table cutoff t.redis
  (_, snapshots) ← purge_table (now - 180 * day) t.snapshots
  (_, disk_samples) ← purge_table cutoff t.disk_samples
  (_, metrics) ← purge_table cutoff t.metrics
  (_, worker_health) ← purge_table cutoff t.worker_health
  (_, failed_jobs) ←
      purge (length t.failed_jobs + 1) purge_batch_size (is_old_failure (now - 90 * day)) 0
        t.failed_jobs
  some (record {
    disk_io = disk_io;
    memory = memory;
    mariadb = mariadb;
    redis = redis;
    snapshots = snapshots;
    disk_samples = disk_samples;
    metrics = metrics;
    worker_health = worker_health;
    failed_jobs = failed_jobs;
  })

-- uptime_kuma_poller.py: `purge_old_check_logs`, on the rows of `Uptime Check Log`.
pub purge_old_check_logs : ℕ → ℕ → List HistoryRow → Option (ℕ × List HistoryRow)
unfolding purge_table
purge_old_check_logs now setting rows = purge_table (now - or_default setting 90 * day) rows
