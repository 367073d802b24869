-- ===== src/Diagnosis/RedisChecks.antt =====
-- host_health/diagnosis.py: the other rules of `evaluate_redis`, and the loop over the instances.
use alfaedge_pulse.Common.{
  ℕ, ◌*◌, String, not, ◌&&◌, List, [], ◌∷◌, ◌++◌, str_eq, ltb, leb, ◌==◌, if◌then◌else◌, take,
}
use alfaedge_pulse.Diagnosis.Rows.{critical, warning, sustained_samples, Finding, whole}
use alfaedge_pulse.Diagnosis.Redis.{RedisRow, sum_over, redis_finding, redis_name, held_rows}
use alfaedge_pulse.Diagnosis.RedisRules.{Instance, rule_keys, rule_redis_memory, rule_fragmentation}
use alfaedge_pulse.Diagnosis.Evaluate.{sort_findings}
use alfaedge_pulse.Common.Text.{decimal, or_empty}
use alfaedge_pulse.Common.Names.{replace_code}
use alfaedge_pulse.Hosts.Disks.{cint}

unfoldable pub rule_persistence : Instance → List Finding
unfolding redis_finding
rule_persistence i =
    if not i.latest.persistence_ok
    then redis_finding "redis_persistence_" i.key critical i.name " cannot save to disk"
        ("The last background save (or append-only write) failed, so a restart would lose recent data and Redis may refuse writes."
          ∷ [])
        "Check the disk space and the permissions of Redis's data folder, and its log."
      ∷ []
    else []

-- The connections that were refused in the newest rows.
pub refused_of : List RedisRow → ℕ
unfolding sum_over
refused_of rows = sum_over (λ r. r.rejected) (take sustained_samples rows)

unfoldable pub rule_clients : List RedisRow → Instance → List Finding
unfolding redis_finding
rule_clients rows i =
    let clients = cint i.latest.connected_clients in
    let max_clients = cint i.latest.max_clients in
    if ltb 0 (refused_of rows)
    then redis_finding "redis_refused_" i.key critical i.name " refused connections"
        (decimal (refused_of rows) ∷ " connection(s) were refused in the last samples." ∷ [])
        "Raise maxclients and the system's open-files limit, or find what opens so many connections."
      ∷ []
    else if not (max_clients == 0) && leb (80 * max_clients) (clients * 100)
    then redis_finding "redis_clients_" i.key warning i.name " is close to its client limit"
        (decimal clients ∷ " of " ∷ decimal max_clients ∷ " connections are in use." ∷ [])
        "Raise maxclients or find what holds connections open."
      ∷ []
    else []

unfoldable pub rule_fork : Instance → List Finding
unfolding redis_finding
rule_fork i =
    let fork_ms = cint i.latest.fork_ms in
    if leb 100000 fork_ms
    then redis_finding "redis_fork_" i.key warning i.name " stalls while it saves to disk"
        ("The last background save paused Redis for "
          ∷ whole fork_ms
          ∷ " ms while it forked, and a large instance on a busy guest does this each time."
          ∷ [])
        "Save less often (the save setting), or move to append-only mode. Make sure the guest has memory to spare for the fork."
      ∷ []
    else []

unfoldable pub rule_slow : Instance → List Finding
unfolding redis_finding
rule_slow i =
    let slow = cint i.latest.slowlog_recent_max_ms in
    let commands = or_empty i.latest.slowlog_recent_commands in
    if leb 10000 slow
    then redis_finding "redis_slow_" i.key warning i.name " ran a slow command"
        ("A command took "
          ∷ whole slow
          ∷ " ms in the last two minutes ("
          ∷ (if str_eq commands "" then "unknown" else commands)
          ∷ "). Redis handles one command at a time, so everything waited."
          ∷ [])
        "Look for commands that scan large collections (KEYS, large SMEMBERS or LRANGE) and replace them with incremental ones."
      ∷ []
    else []

-- The findings on one instance, whose rows are given newest first.
unfoldable pub instance_findings : ℕ → List RedisRow → Instance → List Finding
instance_findings ram rows i =
    rule_keys i
    ++ rule_redis_memory ram i
    ++ rule_fragmentation i
    ++ rule_persistence i
    ++ rule_clients rows i
    ++ rule_fork i
    ++ rule_slow i

pub instance_of : String → RedisRow → List RedisRow → Instance
unfolding redis_name held_rows
instance_of label latest rows = record {
  key = replace_code 58 "_" label;
  name = redis_name latest;
  latest = latest;
  held = held_rows (latest ∷ rows);
}

-- The loop over `rows_by_instance`.
unfoldable pub redis_findings : ℕ → List (String × List RedisRow) → List Finding
unfolding instance_findings
redis_findings ram [] = []
redis_findings ram ((label, []) ∷ rest) = redis_findings ram rest
redis_findings ram ((label, latest ∷ rows) ∷ rest) =
    instance_findings ram (latest ∷ rows) (instance_of label latest rows) ++ redis_findings ram rest

-- `evaluate_redis`; `ram` is 0 where the host has no memory row.
unfoldable pub evaluate_redis : List (String × List RedisRow) → ℕ → List Finding
evaluate_redis rows_by_instance ram = sort_findings (redis_findings ram rows_by_instance)
