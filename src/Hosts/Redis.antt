-- ===== src/Hosts/Redis.antt =====
-- host_health/ingest.py: `process_redis` and `_store_redis_sample`. The sizes of a report are in
-- bytes and those of a row in tenths of a MB; percentages, ratios and rates are in hundredths, the
-- memory's percentage and the fork's milliseconds in tenths, times in microseconds.
pub mod Restarts
use alfaedge_pulse.Common.{
  ℕ, zero, suc, ◌+◌, ◌-◌, ◌*◌, ◌/◌, ◌%◌, ◌≤◌, ◌<◌, max, String, ◌≡◌, refl, sym, ap, ◌∙◌, ◌≢◌, ◌↔◌,
  ◌⊎◌, inl, inr, Bool, true, false, not, ◌&&◌, ◌||◌, Option, none, some, List, [], ◌∷◌, ◌++◌, map,
  foldl, arith, str_eq, eq_iff, eq_refl, ltb, leb, ◌==◌, if◌then◌else◌, Bool-cases, Option-cases,
  ltb→lt, lt→ltb, leb→le, le→leb, tests, length, take, any, all, keep, count, length-append,
  any-append, count-append, count-le-length, All, length-map,
}
use alfaedge_pulse.Hosts.Memory.{is_given}
use alfaedge_pulse.Hosts.Samples.{gap_seconds, counter_delta, per_second}
use alfaedge_pulse.Common.Tables.{newest}
use alfaedge_pulse.Common.Numbers.{round_ratio}
use alfaedge_pulse.Hosts.Disks.{cint}
use alfaedge_pulse.Common.Names.{join_with}
use alfaedge_pulse.Common.Text.{first_chars}

-- The counters in the order of `REDIS_COUNTER_KEYS`, none where one is missing.
pub record RedisCounters : Type 0 where
  pub evicted_keys : Option ℕ
  pub expired_keys : Option ℕ
  pub keyspace_hits : Option ℕ
  pub keyspace_misses : Option ℕ
  pub rejected_connections : Option ℕ
  pub total_commands_processed : Option ℕ
  pub total_connections_received : Option ℕ

-- The `info` of an entry, with its `config` and `slowlog`.
pub record RedisInfo : Type 0 where
  pub counters : RedisCounters
  pub uptime_in_seconds : Option ℕ
  pub maxmemory_policy : Option String
  pub used_memory : Option ℕ
  pub used_memory_rss : Option ℕ
  pub maxmemory : Option ℕ
  pub mem_fragmentation_ratio : Option ℕ
  pub keys : Option ℕ
  pub connected_clients : Option ℕ
  pub maxclients : Option ℕ
  pub blocked_clients : Option ℕ
  pub rdb_last_bgsave_status : Option String
  pub aof_last_write_status : Option String
  pub latest_fork_usec : Option ℕ
  pub slowlog_len : Option ℕ
  pub slowlog_recent_count : Option ℕ
  pub slowlog_recent_max_ms : Option ℕ
  pub slowlog_recent_commands : List String

-- An entry of a report; `info` is none where the instance did not answer.
pub record RedisEntry : Type 0 where
  pub label : String
  pub roles : List String
  pub info : Option RedisInfo

-- What the column `raw_counters` of a row holds: nothing, a text that is no JSON, or counters.
pub data RawCounters : Type 0 where
  empty unreadable : RawCounters
  stored : RedisCounters → RawCounters

-- A row of `Redis Metric Log`; a value that is none is not set.
pub record RedisSample : Type 0 where
  pub monitored_host : String
  pub collected_at : ℕ
  pub instance_label : String
  pub roles : String
  pub rates_valid : Bool
  pub uptime_s : ℕ
  pub maxmemory_policy : Option String
  pub used_mb : ℕ
  pub rss_mb : ℕ
  pub maxmemory_mb : ℕ
  pub memory_percent : Option ℕ
  pub fragmentation_ratio : Option ℕ
  pub keys : ℕ
  pub ops_per_s : Option ℕ
  pub hit_percent : Option ℕ
  pub evicted : ℕ
  pub evicted_per_s : Option ℕ
  pub expired_per_s : Option ℕ
  pub connected_clients : ℕ
  pub max_clients : ℕ
  pub blocked_clients : ℕ
  pub rejected : ℕ
  pub persistence_ok : Bool
  pub fork_ms : ℕ
  pub slowlog_len : ℕ
  pub slowlog_recent_count : ℕ
  pub slowlog_recent_max_ms : ℕ
  pub slowlog_recent_commands : String
  pub raw_counters : RawCounters

abbrev no_counters : RedisCounters
no_counters = record {
  evicted_keys = none;
  expired_keys = none;
  keyspace_hits = none;
  keyspace_misses = none;
  rejected_connections = none;
  total_commands_processed = none;
  total_connections_received = none;
}

-- The counters to compare with, none where the row before is of no use: there is none within the
-- gap, the instance was restarted since, or its counters cannot be read.
readable : RawCounters → Option RedisCounters
readable empty = some no_counters
readable unreadable = none
readable (stored counters) = some counters

redis_gap : ℕ → Option RedisSample → Option ℕ
redis_gap now none = none
redis_gap now (some r) = gap_seconds now (some r.collected_at)

unfoldable pub is_restarted : ℕ → Option RedisSample → Bool
is_restarted uptime none = false
is_restarted uptime (some r) = not (r.uptime_s == 0) && ltb uptime r.uptime_s

pub usable_counters : ℕ → ℕ → Option RedisSample → Option RedisCounters
unfolding redis_gap readable is_restarted
usable_counters now uptime none = none
usable_counters now uptime (some r) =
    if is_given (redis_gap now (some r)) && not (is_restarted uptime (some r))
    then readable r.raw_counters
    else none

-- Whether the row before is of use.
is_usable : Option RedisCounters → Bool
is_usable none = false
is_usable (some counters) = true

-- `delta(key)`
redis_delta : (RedisCounters → Option ℕ) → RedisCounters → Option RedisCounters → Option ℕ
unfolding counter_delta
redis_delta key new none = none
redis_delta key new (some old) = counter_delta (key new) (key old)

hit_percent_of : Option ℕ → Option ℕ → Option ℕ
hit_percent_of (some hits) (some misses) =
    if hits + misses == 0 then none else some (round_ratio (hits * 10000) (hits + misses))
hit_percent_of none misses = none
hit_percent_of (some hits) none = none

-- `round(bytes / MB, 1)`
mb_of : Option ℕ → ℕ
mb_of bytes = round_ratio (10 * cint bytes) 1048576

-- `info.get(key, "ok") == "ok"`
is_ok : Option String → Bool
is_ok none = true
is_ok (some s) = str_eq s "ok"

non_zero : ℕ → Option ℕ
non_zero n = if n == 0 then none else some n

pub next_redis_sample :
    ℕ → String → String → List String → RedisInfo → Option RedisSample → RedisSample
unfolding is_usable redis_gap usable_counters redis_delta hit_percent_of mb_of is_ok non_zero
    per_second
next_redis_sample now host label roles info previous =
    let uptime = cint info.uptime_in_seconds in
    let gap = redis_gap now previous in
    let old = usable_counters now uptime previous in
    let evicted_d = redis_delta (λ k. k.evicted_keys) info.counters old in
    let limit = cint info.maxmemory in
    record {
      monitored_host = host;
      collected_at = now;
      instance_label = label;
      roles = join_with "+" roles;
      rates_valid = is_usable old;
      uptime_s = uptime;
      maxmemory_policy = info.maxmemory_policy;
      used_mb = mb_of info.used_memory;
      rss_mb = mb_of info.used_memory_rss;
      maxmemory_mb = mb_of info.maxmemory;
      memory_percent =
          if limit == 0 then none else some (round_ratio (1000 * cint info.used_memory) limit);
      fragmentation_ratio = non_zero (cint info.mem_fragmentation_ratio);
      keys = cint info.keys;
      ops_per_s = per_second (redis_delta (λ k. k.total_commands_processed) info.counters old) gap;
      hit_percent =
          hit_percent_of (redis_delta (λ k. k.keyspace_hits) info.counters old)
            (redis_delta (λ k. k.keyspace_misses) info.counters old);
      evicted = cint evicted_d;
      evicted_per_s = per_second evicted_d gap;
      expired_per_s = per_second (redis_delta (λ k. k.expired_keys) info.counters old) gap;
      connected_clients = cint info.connected_clients;
      max_clients = cint info.maxclients;
      blocked_clients = cint info.blocked_clients;
      rejected = cint (redis_delta (λ k. k.rejected_connections) info.counters old);
      persistence_ok = is_ok info.rdb_last_bgsave_status && is_ok info.aof_last_write_status;
      fork_ms = round_ratio (10 * cint info.latest_fork_usec) 1000;
      slowlog_len = cint info.slowlog_len;
      slowlog_recent_count = cint info.slowlog_recent_count;
      slowlog_recent_max_ms = cint info.slowlog_recent_max_ms;
      slowlog_recent_commands = first_chars 140 (join_with ", " info.slowlog_recent_commands);
      raw_counters = stored info.counters;
    }

latest_redis : String → String → List RedisSample → Option RedisSample
unfolding newest
latest_redis host label samples =
    newest (λ r. r.collected_at)
      (keep (λ r. str_eq r.monitored_host host && str_eq r.instance_label label) samples)

-- ingest.py: `_store_redis_sample`
pub store_redis_sample :
    ℕ → String → String → List String → RedisInfo → List RedisSample → List RedisSample
unfolding next_redis_sample latest_redis
store_redis_sample now host label roles info samples =
    samples ++ next_redis_sample now host label roles info (latest_redis host label samples) ∷ []

-- ingest.py: `process_redis`, with the number of rows logged.
pub process_redis : ℕ → String → List RedisEntry → List RedisSample → ℕ × List RedisSample
unfolding store_redis_sample
process_redis now host [] samples = (0, samples)
process_redis now host (entry ∷ entries) samples = elim entry.info [
  | none ↦ process_redis now host entries samples
  | some info ↦
      let (logged, last) =
        process_redis now host entries
          (store_redis_sample now host entry.label entry.roles info samples) in
      (logged + 1, last)
]
