-- ===== src/Hosts/Memory.antt =====
-- host_health/ingest.py: `_store_memory_sample`. Sizes and pressures are kept as they come in, in
-- hundredths; times and gaps are in microseconds, percentages in tenths.
pub mod Rates
use alfaedge_pulse.Common.{
  ℕ, zero, suc, ◌+◌, ◌-◌, ◌*◌, ◌/◌, ◌%◌, ◌≤◌, ◌<◌, max, String, ◌≡◌, refl, sym, ap, ◌∙◌, ◌≢◌, ◌↔◌,
  ◌⊎◌, inl, inr, Bool, true, false, not, ◌&&◌, ◌||◌, Option, none, some, List, [], ◌∷◌, ◌++◌, map,
  foldl, arith, str_eq, eq_iff, eq_refl, ltb, leb, ◌==◌, if◌then◌else◌, Bool-cases, Option-cases,
  ltb→lt, lt→ltb, leb→le, le→leb, tests, length, take, any, all, keep, count, length-append,
  any-append, count-append, count-le-length, All, length-map,
}
use Prim.Native.Nat.{min}
use alfaedge_pulse.Hosts.Samples.{counter_delta, gap_seconds, per_second}
use alfaedge_pulse.Common.Tables.{newest}
use alfaedge_pulse.Common.Numbers.{round_ratio}
use alfaedge_pulse.Hosts.Disks.{cint}

pub record MemoryReport : Type 0 where
  pub total_mb : Option ℕ
  pub available_mb : Option ℕ
  pub cached_mb : Option ℕ
  pub buffers_mb : Option ℕ
  pub slab_mb : Option ℕ
  pub dirty_mb : Option ℕ
  pub writeback_mb : Option ℕ
  pub swap_total_mb : Option ℕ
  pub swap_used_mb : Option ℕ

pub record PressureReport : Type 0 where
  pub cpu_some_avg10 : Option ℕ
  pub memory_some_avg10 : Option ℕ
  pub memory_full_avg10 : Option ℕ
  pub io_some_avg10 : Option ℕ
  pub io_full_avg10 : Option ℕ

pub record CgroupReport : Type 0 where
  pub mem_limit_mb : Option ℕ
  pub mem_current_mb : Option ℕ
  pub oom_kill_total : Option ℕ
  pub cpu_limit_cores : Option ℕ
  pub nr_throttled_total : Option ℕ
  pub throttled_usec_total : Option ℕ

pub record KernelCounters : Type 0 where
  pub pswpin : Option ℕ
  pub pswpout : Option ℕ
  pub oom_kill : Option ℕ

-- A percentage, which is negative where more memory is available than there is.
pub record SignedPercent : Type 0 where
  pub negative : Bool
  pub tenths : ℕ

-- A row of `Memory Metric Log`; `top_processes` is the text of its JSON, none for an empty list.
pub record MemorySample : Type 0 where
  pub monitored_host : String
  pub collected_at : ℕ
  pub memory : MemoryReport
  pub mem_used_percent : Option SignedPercent
  pub counters : KernelCounters
  pub swap_in_per_s : Option ℕ
  pub swap_out_per_s : Option ℕ
  pub oom_kills_since_last : ℕ
  pub cgroup : CgroupReport
  pub cgroup_oom_kills_since_last : ℕ
  pub pressure : PressureReport
  pub top_processes : Option String
  pub rates_valid : Bool
  pub cpu_throttled_percent : Option ℕ

used_percent : ℕ → ℕ → Option SignedPercent
used_percent total available =
    if total == 0
    then none
    else some (record {
      negative = ltb total available;
      tenths = round_ratio (1000 * ((total - available) + (available - total))) total;
    })

-- The counters of the row before, all missing where the gap to it is none.
pub record PreviousCounters : Type 0 where
  pub pswpin_total : Option ℕ
  pub pswpout_total : Option ℕ
  pub oom_kill_total : Option ℕ
  pub cgroup_oom_kill_total : Option ℕ
  pub throttled_usec_total : Option ℕ

pub previous_counters : Option ℕ → Option MemorySample → PreviousCounters
previous_counters (some gap) (some r) = record {
  pswpin_total = r.counters.pswpin;
  pswpout_total = r.counters.pswpout;
  oom_kill_total = r.counters.oom_kill;
  cgroup_oom_kill_total = r.cgroup.oom_kill_total;
  throttled_usec_total = r.cgroup.throttled_usec_total;
}
previous_counters (some gap) none = record {
  pswpin_total = none;
  pswpout_total = none;
  oom_kill_total = none;
  cgroup_oom_kill_total = none;
  throttled_usec_total = none;
}
previous_counters none r = record {
  pswpin_total = none;
  pswpout_total = none;
  oom_kill_total = none;
  cgroup_oom_kill_total = none;
  throttled_usec_total = none;
}

pub is_given : Option ℕ → Bool
is_given none = false
is_given (some n) = true

-- `min(100.0, throttled / (gap * 1_000_000) * 100)`
pub throttled_percent : Option ℕ → Option ℕ → Option ℕ
throttled_percent (some throttled) (some gap) = some (min 1000 (round_ratio (throttled * 1000) gap))
throttled_percent none gap = none
throttled_percent (some throttled) none = none

pub latest_sample : String → List MemorySample → Option MemorySample
unfolding newest
latest_sample host samples =
    newest (λ r. r.collected_at) (keep (λ r. str_eq r.monitored_host host) samples)

pub sample_gap : ℕ → Option MemorySample → Option ℕ
sample_gap now none = none
sample_gap now (some r) = gap_seconds now (some r.collected_at)

pub next_sample :
    ℕ
    → String
    → MemoryReport
    → PressureReport
    → CgroupReport
    → KernelCounters
    → Option String
    → Option MemorySample
    → MemorySample
unfolding sample_gap previous_counters counter_delta per_second throttled_percent used_percent
next_sample now host memory pressure cgroup counters tops previous =
    let gap = sample_gap now previous in
    let prev = previous_counters gap previous in
    let swap_in = counter_delta counters.pswpin prev.pswpin_total in
    let swap_out = counter_delta counters.pswpout prev.pswpout_total in
    record {
      monitored_host = host;
      collected_at = now;
      memory = memory;
      mem_used_percent = used_percent (cint memory.total_mb) (cint memory.available_mb);
      counters = counters;
      swap_in_per_s = per_second swap_in gap;
      swap_out_per_s = per_second swap_out gap;
      oom_kills_since_last = cint (counter_delta counters.oom_kill prev.oom_kill_total);
      cgroup = cgroup;
      cgroup_oom_kills_since_last =
          cint (counter_delta cgroup.oom_kill_total prev.cgroup_oom_kill_total);
      pressure = pressure;
      top_processes = tops;
      rates_valid = is_given gap && is_given swap_in && is_given swap_out;
      cpu_throttled_percent =
          throttled_percent (counter_delta cgroup.throttled_usec_total prev.throttled_usec_total)
            gap;
    }

-- ingest.py: `_store_memory_sample`
unfoldable pub store_memory_sample :
    ℕ
    → String
    → MemoryReport
    → PressureReport
    → CgroupReport
    → KernelCounters
    → Option String
    → List MemorySample
    → List MemorySample
unfolding next_sample latest_sample
store_memory_sample now host memory pressure cgroup counters tops samples =
    samples
    ++ next_sample now host memory pressure cgroup counters tops (latest_sample host samples) ∷ []
