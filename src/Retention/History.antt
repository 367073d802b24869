-- ===== src/Retention/History.antt =====
-- The rows of the two tables of proxmox_resource_history, and those that backfill.py makes of the
-- buckets of Proxmox's own history (RRD). Sizes are in bytes, a load is in millionths, times are UTC;
-- what `round` leaves is in hundredths of a percent, in tenths of a percent for a disk, and in
-- ten-thousandths of a gigabyte.
use alfaedge_pulse.Retention.{◌>>=◌}
use alfaedge_pulse.Common.{ℕ, zero, suc, ◌*◌, String, Option, none, some, ◌==◌, if◌then◌else◌}
use alfaedge_pulse.Common.Numbers.{round_ratio}

-- A row of `Proxmox Host Metric Log`; the live rows of the same table have it too.
pub record HostRow : Type 0 where
  pub server : String
  pub collected_at : ℕ
  pub source : String
  pub cpu_usage : ℕ
  pub memory_usage : ℕ
  pub memory_used_gb : ℕ
  pub memory_total_gb : ℕ
  pub swap_usage : Option ℕ
  pub swap_used_gb : Option ℕ
  pub swap_total_gb : Option ℕ
  pub storage_usage : ℕ
  pub storage_used_gb : ℕ
  pub storage_total_gb : ℕ

-- A row of `Proxmox Guest Metric Log`.
pub record GuestRow : Type 0 where
  pub guest : String
  pub server : String
  pub vmid : ℕ
  pub guest_type : String
  pub collected_at : ℕ
  pub source : String
  pub cpu_usage : ℕ
  pub memory_usage : ℕ
  pub memory_used_gb : ℕ
  pub memory_total_gb : ℕ
  pub disk_usage : Option ℕ
  pub swap_usage_percent : Option ℕ
  pub swap_used_gb : Option ℕ
  pub swap_total_gb : Option ℕ

-- One bucket of a host's history; a field may be missing. The time is in seconds.
pub record HostPoint : Type 0 where
  pub time : Option ℕ
  pub cpu : Option ℕ
  pub memtotal : Option ℕ
  pub memused : Option ℕ
  pub swaptotal : Option ℕ
  pub swapused : Option ℕ
  pub roottotal : Option ℕ
  pub rootused : Option ℕ

pub record GuestPoint : Type 0 where
  pub time : Option ℕ
  pub cpu : Option ℕ
  pub maxmem : Option ℕ
  pub mem : Option ℕ
  pub maxdisk : Option ℕ
  pub disk : Option ℕ

-- `flt(value)`
abbrev pub flt : Option ℕ → ℕ
flt none = 0
flt (some n) = n

-- A value that is there and is not 0.
abbrev pub present : Option ℕ → Option ℕ
present none = none
present (some zero) = none
present (some (suc n)) = some (suc n)

-- `round(used / total * 100, 2)`
pub percent_of : ℕ → ℕ → ℕ
percent_of used total = round_ratio (used * 10000) total

-- `round(bytes / 1e9, 4)`
pub gigabytes : ℕ → ℕ
gigabytes bytes = round_ratio bytes 100000

-- `datetime.fromtimestamp(ts)`, in microseconds.
abbrev pub from_timestamp : ℕ → ℕ
from_timestamp ts = ts * 1000000

unfoldable pub new_host_row : String → ℕ → HostPoint → ℕ → ℕ → ℕ → HostRow
unfolding percent_of gigabytes
new_host_row server at p cpu memtotal memused =
    let swaptotal = flt p.swaptotal in
    let roottotal = flt p.roottotal in
    let rootused = flt p.rootused in
    record {
      server = server;
      collected_at = at;
      source = "RRD Backfill";
      cpu_usage = round_ratio cpu 100;
      memory_usage = percent_of memused memtotal;
      memory_used_gb = gigabytes memused;
      memory_total_gb = gigabytes memtotal;
      swap_usage =
          if swaptotal == 0
          then none
          else elim p.swapused [ none ↦ none | some used ↦ some (percent_of used swaptotal) ];
      swap_used_gb =
          if swaptotal == 0
          then none
          else elim p.swapused [ none ↦ none | some used ↦ some (gigabytes used) ];
      swap_total_gb = if swaptotal == 0 then none else some (gigabytes swaptotal);
      storage_usage = if roottotal == 0 then 0 else percent_of rootused roottotal;
      storage_used_gb = gigabytes rootused;
      storage_total_gb = gigabytes roottotal;
    }

-- The row of a bucket, or none where the loop skips it for what is missing.
unfoldable pub host_row_of : String → HostPoint → Option HostRow
host_row_of server p = do
  ts ← present p.time
  cpu ← p.cpu
  memtotal ← present p.memtotal
  memused ← p.memused
  some (new_host_row server (from_timestamp ts) p cpu memtotal memused)

unfoldable pub new_guest_row : String → String → ℕ → String → ℕ → GuestPoint → ℕ → ℕ → ℕ → GuestRow
unfolding percent_of gigabytes
new_guest_row server guest vmid guest_type at p cpu maxmem mem = record {
  guest = guest;
  server = server;
  vmid = vmid;
  guest_type = guest_type;
  collected_at = at;
  source = "RRD Backfill";
  cpu_usage = round_ratio cpu 100;
  memory_usage = percent_of mem maxmem;
  memory_used_gb = gigabytes mem;
  memory_total_gb = gigabytes maxmem;
  disk_usage = do
    maxdisk ← present p.maxdisk
    disk ← p.disk
    some (round_ratio (disk * 1000) maxdisk);
  swap_usage_percent = none;
  swap_used_gb = none;
  swap_total_gb = none;
}

unfoldable pub guest_row_of : String → String → ℕ → String → GuestPoint → Option GuestRow
guest_row_of server guest vmid guest_type p = do
  ts ← present p.time
  cpu ← p.cpu
  maxmem ← present p.maxmem
  mem ← p.mem
  some (new_guest_row server guest vmid guest_type (from_timestamp ts) p cpu maxmem mem)
