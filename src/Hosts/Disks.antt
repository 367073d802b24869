-- ===== src/Hosts/Disks.antt =====
-- host_health/ingest.py: the disks of a report and their readings. Percentages are tenths; sizes are
-- bytes.
use alfaedge_pulse.Common.{ℕ, ◌*◌, max, String, Option, none, some, ◌==◌, if◌then◌else◌}
use alfaedge_pulse.Poller.Resources.{Flags}
use alfaedge_pulse.Common.Numbers.{round_ratio}

-- A row of `Resource Mount`; the stored gigabytes are the bytes here.
pub record ResourceMount : Type 0 where
  pub name : String
  pub monitored_host : String
  pub mount_point : String
  pub fstype : Option String
  pub used_bytes : ℕ
  pub total_bytes : ℕ
  pub usage_percent : ℕ
  pub inodes_used : Option ℕ
  pub inodes_total : Option ℕ
  pub inode_usage_percent : Option ℕ
  pub last_synced : ℕ
  pub flags : Flags

-- A row of `Resource Disk Sample`.
pub record DiskSample : Type 0 where
  pub resource_mount : String
  pub monitored_host : String
  pub mount_point : String
  pub collected_at : ℕ
  pub used_bytes : ℕ
  pub total_bytes : ℕ
  pub usage_percent : ℕ
  pub inode_usage_percent : Option ℕ

-- A disk of a report.
pub record DiskReport : Type 0 where
  pub mount_point : Option String
  pub fstype : Option String
  pub used_bytes : ℕ
  pub total_bytes : ℕ
  pub inodes_used : Option ℕ
  pub inodes_total : Option ℕ

-- `round(used / total * 100, 1)`, in tenths.
pub tenths_of : ℕ → ℕ → ℕ
tenths_of used total = round_ratio (1000 * used) total

-- `round(used / total * 100, 1) if total else 0`
unfoldable pub usage_of : ℕ → ℕ → ℕ
unfolding tenths_of
usage_of used total = if total == 0 then 0 else tenths_of used total

-- `cint(value)` of a number that may be missing.
abbrev pub cint : Option ℕ → ℕ
cint none = 0
cint (some n) = n

unfoldable pub inode_usage_of : Option ℕ → Option ℕ → Option ℕ
unfolding tenths_of
inode_usage_of used total =
    if cint total == 0 then none else some (tenths_of (cint used) (cint total))

-- `max(readings)`
unfoldable pub mount_reading : DiskReport → ℕ
unfolding usage_of inode_usage_of
mount_reading row =
    let usage = usage_of row.used_bytes row.total_bytes in
    elim (inode_usage_of row.inodes_used row.inodes_total) [
      | none ↦ usage
      | some inodes ↦ max usage inodes
    ]
