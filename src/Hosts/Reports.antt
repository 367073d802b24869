-- ===== src/Hosts/Reports.antt =====
-- host_health/ingest.py: `process_resources` and `process_performance`, whole.
use alfaedge_pulse.Common.{ℕ, String, Bool, Option, none, some, List, [], if◌then◌else◌, length}
use alfaedge_pulse.Alerts.Dispatch.{AlertContext, Alerting}
use alfaedge_pulse.Hosts.Mounts.{process_disks}
use alfaedge_pulse.Hosts.Load.{process_load, ResourceMetric, LoadFlags, LoadReport, SwapReport}
use alfaedge_pulse.Poller.Severity.{or_default, Thresholds}
use alfaedge_pulse.Hosts.Memory.{
  store_memory_sample, MemoryReport, MemorySample, PressureReport, CgroupReport, KernelCounters,
}
use alfaedge_pulse.Hosts.Samples.{store_io_samples, IoDevice, IoSample}
use alfaedge_pulse.Hosts.Disks.{DiskReport, ResourceMount, DiskSample}

-- What `process_resources` reads and writes.
pub record ResourceState : Type 0 where
  pub metrics : List ResourceMetric
  pub flags : LoadFlags
  pub mounts : List ResourceMount
  pub samples : List DiskSample
  pub alerting : Alerting

pub record ResourceLimits : Type 0 where
  pub load : Thresholds
  pub swap : Thresholds
  pub disk : Thresholds

-- `Resource Monitor Settings`: the confirmation checks, then warning and critical percentages.
pub get_resource_limits : ℕ → ℕ × ℕ → ℕ × ℕ → ℕ × ℕ → ResourceLimits
get_resource_limits checks load swap disk = record {
  load = record {
    warning_percent = or_default load.0 100;
    critical_percent = or_default load.1 200;
    confirmation_checks = or_default checks 3;
  };
  swap = record {
    warning_percent = or_default swap.0 50;
    critical_percent = or_default swap.1 90;
    confirmation_checks = or_default checks 3;
  };
  disk = record {
    warning_percent = or_default disk.0 80;
    critical_percent = or_default disk.1 90;
    confirmation_checks = or_default checks 3;
  };
}

-- The number of metrics recorded.
pub store_load :
    AlertContext
    → ResourceLimits
    → Bool
    → String
    → Option LoadReport
    → Option SwapReport
    → ResourceState
    → ℕ × ResourceState
unfolding process_load
store_load c l notify host (some load) (some swap) s =
    let (metrics', flags', alerting') =
      process_load c l.load l.swap notify host load swap s.metrics s.flags s.alerting in
    (1, record s { metrics = metrics'; flags = flags'; alerting = alerting' })
store_load c l notify host none swap s = (0, s)
store_load c l notify host (some load) none s = (0, s)

-- The disks recorded and the warnings.
pub store_disks :
    AlertContext
    → ResourceLimits
    → Bool
    → (DiskReport → String)
    → (DiskReport → String)
    → String
    → Option (List DiskReport)
    → ResourceState
    → (ℕ × List String) × ResourceState
unfolding process_disks
store_disks c l notify shown fresh host none s = ((0, []), s)
store_disks c l notify shown fresh host (some rows) s =
    let done =
      process_disks c l.disk notify shown fresh host rows
        (record { mounts = s.mounts; samples = s.samples; alerting = s.alerting }) in
    (
      (length done.seen, done.warnings),
      record s {
        mounts = done.tables.mounts;
        samples = done.tables.samples;
        alerting = done.tables.alerting;
      },
    )

pub record ResourceResult : Type 0 where
  pub metrics_recorded : ℕ
  pub disks_recorded : ℕ
  pub warnings : List String

-- ingest.py: `process_resources`; none where `reported_at` does not parse.
pub process_resources :
    AlertContext
    → ResourceLimits
    → Bool
    → (DiskReport → String)
    → (DiskReport → String)
    → Bool
    → String
    → Option LoadReport
    → Option SwapReport
    → Option (List DiskReport)
    → ResourceState
    → Option (ResourceResult × ResourceState)
unfolding store_load store_disks
process_resources c l notify shown fresh parses host load swap disks s =
    let (metrics, s1) = store_load c l notify host load swap s in
    let ((recorded, warnings), s2) = store_disks c l notify shown fresh host disks s1 in
    if parses
    then some
        (record { metrics_recorded = metrics; disks_recorded = recorded; warnings = warnings }, s2)
    else none

-- What a performance report says about memory, with the lists that come with it.
pub record MemoryPart : Type 0 where
  pub memory : MemoryReport
  pub pressure : PressureReport
  pub cgroup : CgroupReport
  pub counters : KernelCounters
  pub top_processes : Option String

pub record PerformanceResult : Type 0 where
  pub memory_recorded : ℕ
  pub io_recorded : ℕ

store_memory : ℕ → String → Option MemoryPart → List MemorySample → ℕ × List MemorySample
unfolding store_memory_sample
store_memory now host none samples = (0, samples)
store_memory now host (some m) samples = (
  1,
  store_memory_sample now host m.memory m.pressure m.cgroup m.counters m.top_processes samples,
)

store_io : ℕ → String → Option (List IoDevice) → List IoSample → ℕ × List IoSample
unfolding store_io_samples
store_io now host none samples = (0, samples)
store_io now host (some devices) samples = store_io_samples now host devices samples

-- ingest.py: `process_performance`
pub process_performance :
    ℕ
    → String
    → Option MemoryPart
    → Option (List IoDevice)
    → List MemorySample × List IoSample
    → PerformanceResult × List MemorySample × List IoSample
unfolding store_memory store_io
process_performance now host memory io s =
    let (memory_recorded, memory_samples) = store_memory now host memory s.0 in
    let (io_recorded, io_samples) = store_io now host io s.1 in
    (
      record { memory_recorded = memory_recorded; io_recorded = io_recorded },
      memory_samples,
      io_samples,
    )
