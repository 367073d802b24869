-- ===== src/Hosts/PerformanceTests.antt =====
-- Runs of the code for disk I/O, memory and Redis samples on small inputs.
use alfaedge_pulse.Hosts.Samples.Bounds.{HasGrownBy}
use alfaedge_pulse.Common.{
  ℕ, ◌+◌, ◌≤◌, ◌≡◌, refl, true, false, none, some, [], ◌∷◌, map, length, All,
}
use alfaedge_pulse.Hosts.Samples.{
  chosen_rows, IoSample, IoCounters, IoDevice, io_lists, store_io_samples,
}
use alfaedge_pulse.Hosts.Samples.Bounds.{IsSound, store_io_samples_lem}
use alfaedge_pulse.Hosts.Memory.{
  next_sample, KernelCounters, MemorySample, PressureReport, MemoryReport, CgroupReport, is_given,
}
use alfaedge_pulse.Hosts.Memory.Rates.{next_sample_lem}
use alfaedge_pulse.Hosts.Redis.{RedisSample, is_restarted, RedisInfo, RedisCounters, stored}

abbrev counters : ℕ → IoCounters
counters n = record {
  reads = some n;
  writes = some n;
  sectors_read = some n;
  sectors_written = some n;
  read_ms = some n;
  write_ms = some n;
  io_ms = some n;
  weighted_ms = some n;
}

abbrev sda : IoDevice
sda = record { device = some "sda"; in_flight = some 0; counters = counters 500 }

abbrev sda_before : IoSample
sda_before = record {
  monitored_host = "bench-1";
  collected_at = 1000000;
  device = "sda";
  in_flight = some 0;
  counters = counters 100;
  rates = none;
}

store_io_samples_lem_example :
    let chosen = chosen_rows (io_lists 61000000 "bench-1" (sda_before ∷ []) (sda ∷ [])) in
    (store_io_samples 61000000 "bench-1" (sda ∷ []) (sda_before ∷ [])
      ≡ (length chosen, sda_before ∷ map (λ r. r.1) chosen))
    × (length chosen ≤ 6)
    × All (IsSound 61000000 "bench-1" (sda_before ∷ [])) chosen
store_io_samples_lem_example = store_io_samples_lem 61000000 "bench-1" (sda ∷ []) (sda_before ∷ [])

abbrev memory_report : MemoryReport
memory_report = record {
  total_mb = some 800000;
  available_mb = some 200000;
  cached_mb = none;
  buffers_mb = none;
  slab_mb = none;
  dirty_mb = none;
  writeback_mb = none;
  swap_total_mb = some 100000;
  swap_used_mb = some 0;
}

abbrev pressure_report : PressureReport
pressure_report = record {
  cpu_some_avg10 = none;
  memory_some_avg10 = none;
  memory_full_avg10 = none;
  io_some_avg10 = none;
  io_full_avg10 = none;
}

abbrev cgroup_report : ℕ → CgroupReport
cgroup_report n = record {
  mem_limit_mb = none;
  mem_current_mb = none;
  oom_kill_total = none;
  cpu_limit_cores = none;
  nr_throttled_total = none;
  throttled_usec_total = some n;
}

abbrev kernel_counters : ℕ → KernelCounters
kernel_counters n = record { pswpin = some n; pswpout = some n; oom_kill = some 0 }

abbrev memory_before : MemorySample
memory_before = record {
  monitored_host = "bench-1";
  collected_at = 1000000;
  memory = memory_report;
  mem_used_percent = none;
  counters = kernel_counters 10;
  swap_in_per_s = none;
  swap_out_per_s = none;
  oom_kills_since_last = 0;
  cgroup = cgroup_report 5;
  cgroup_oom_kills_since_last = 0;
  pressure = pressure_report;
  top_processes = none;
  rates_valid = false;
  cpu_throttled_percent = none;
}

next_sample_lem_example :
    let r =
      next_sample 31000000 "bench-1" memory_report pressure_report
        (cgroup_report 9000000)
        (kernel_counters 40)
        none
        (some memory_before) in
    (r.rates_valid ≡ true
      → (prev : MemorySample) × (some memory_before ≡ some prev)
        × (prev.collected_at + 5000000 ≤ 31000000)
        × (31000000 ≤ prev.collected_at + 900000000)
        × ((grown_in : ℕ) × HasGrownBy (some 40) prev.counters.pswpin grown_in)
        × ((grown_out : ℕ) × HasGrownBy (some 40) prev.counters.pswpout grown_out)
        × (is_given r.swap_in_per_s ≡ true)
        × (is_given r.swap_out_per_s ≡ true))
    × ((p : ℕ) → r.cpu_throttled_percent ≡ some p → p ≤ 1000)
next_sample_lem_example =
    next_sample_lem 31000000 "bench-1" memory_report pressure_report (cgroup_report 9000000)
      (kernel_counters 40) none (some memory_before)

abbrev redis_counters : ℕ → RedisCounters
redis_counters n = record {
  evicted_keys = some n;
  expired_keys = some n;
  keyspace_hits = some n;
  keyspace_misses = some n;
  rejected_connections = some n;
  total_commands_processed = some n;
  total_connections_received = some n;
}

abbrev redis_info : RedisInfo
redis_info = record {
  counters = redis_counters 7;
  uptime_in_seconds = some 12;
  maxmemory_policy = none;
  used_memory = some 1048576;
  used_memory_rss = some 2097152;
  maxmemory = none;
  mem_fragmentation_ratio = some 200;
  keys = some 3;
  connected_clients = some 1;
  maxclients = some 100;
  blocked_clients = none;
  rdb_last_bgsave_status = none;
  aof_last_write_status = none;
  latest_fork_usec = none;
  slowlog_len = none;
  slowlog_recent_count = none;
  slowlog_recent_max_ms = none;
  slowlog_recent_commands = [];
}

abbrev redis_before : RedisSample
redis_before = record {
  monitored_host = "bench-1";
  collected_at = 1000000;
  instance_label = "cache";
  roles = "cache";
  rates_valid = true;
  uptime_s = 900;
  maxmemory_policy = none;
  used_mb = 10;
  rss_mb = 20;
  maxmemory_mb = 0;
  memory_percent = none;
  fragmentation_ratio = some 200;
  keys = 3;
  ops_per_s = none;
  hit_percent = none;
  evicted = 0;
  evicted_per_s = none;
  expired_per_s = none;
  connected_clients = 1;
  max_clients = 100;
  blocked_clients = 0;
  rejected = 0;
  persistence_ok = true;
  fork_ms = 0;
  slowlog_len = 0;
  slowlog_recent_count = 0;
  slowlog_recent_max_ms = 0;
  slowlog_recent_commands = "";
  raw_counters = stored (redis_counters 5);
}

redis_restarted : is_restarted 12 (some redis_before) ≡ true
unfolding is_restarted
redis_restarted = refl
