-- ===== src/Hosts/Mounts.antt =====
-- host_health/ingest.py: `_upsert_resource_mount`, `_delete_stale_resource_mounts` and the disks of
-- `process_resources`. Percentages are tenths; sizes are bytes.
pub mod Live
pub mod Orphans
use alfaedge_pulse.Common.{
  ℕ, String, Bool, false, not, ◌&&◌, Option, none, some, List, [], ◌∷◌, ◌++◌, str_eq, ltb,
  if◌then◌else◌, length,
}
use alfaedge_pulse.Alerts.Dispatch.{Alerting, AlertContext, is_member}
use alfaedge_pulse.Poller.Severity.{Thresholds}
use alfaedge_pulse.Common.Tables.{delete_where, first_that, upsert}
use alfaedge_pulse.Common.Numbers.{round_ratio}
use alfaedge_pulse.Poller.Resources.{Flags, ResourceTexts, next_flags, resource_alerts}
use alfaedge_pulse.Common.Text.{concat, or_empty, decimal}
use alfaedge_pulse.Alerts.Channels.{is_set}
use alfaedge_pulse.Poller.Server.{round_tenths}
use alfaedge_pulse.Hosts.Disks.{
  mount_reading, DiskReport, ResourceMount, DiskSample, usage_of, inode_usage_of,
}

unfoldable pub is_mount : String → String → ResourceMount → Bool
is_mount host mount m = str_eq m.monitored_host host && str_eq m.mount_point mount

pub no_flags : Flags
no_flags = record {
  streaks = record { warning_streak = 0; critical_streak = 0 };
  is_critical = false;
  is_warning = false;
}

pub old_flags : Option ResourceMount → Flags
unfolding no_flags
old_flags none = no_flags
old_flags (some m) = m.flags

unfoldable pub mount_name : String → Option ResourceMount → String
mount_name new_name none = new_name
mount_name new_name (some m) = m.name

pub next_mount :
    ℕ → Thresholds → String → String → DiskReport → Option ResourceMount → ResourceMount
unfolding old_flags mount_name mount_reading usage_of inode_usage_of
next_mount now t new_name host row existing = record {
  name = mount_name new_name existing;
  monitored_host = host;
  mount_point = or_empty row.mount_point;
  fstype = row.fstype;
  used_bytes = row.used_bytes;
  total_bytes = row.total_bytes;
  usage_percent = usage_of row.used_bytes row.total_bytes;
  inodes_used = row.inodes_used;
  inodes_total = row.inodes_total;
  inode_usage_percent = inode_usage_of row.inodes_used row.inodes_total;
  last_synced = now;
  flags = next_flags t (mount_reading row) (old_flags existing);
}

sample_of : ResourceMount → DiskSample
sample_of m = record {
  resource_mount = m.name;
  monitored_host = m.monitored_host;
  mount_point = m.mount_point;
  collected_at = m.last_synced;
  used_bytes = m.used_bytes;
  total_bytes = m.total_bytes;
  usage_percent = m.usage_percent;
  inode_usage_percent = m.inode_usage_percent;
}

mount_texts : Thresholds → ResourceMount → ResourceTexts
mount_texts t m =
    let place = concat (m.monitored_host ∷ ": " ∷ m.mount_point ∷ " " ∷ []) in
    let full = concat (decimal (round_tenths m.usage_percent) ∷ "% full (above " ∷ []) in
    record {
      critical = concat (place ∷ full ∷ decimal t.critical_percent ∷ "%)" ∷ []);
      recovered = concat (
          place
          ∷ "back below "
          ∷ decimal t.critical_percent
          ∷ "% full (now "
          ∷ decimal (round_tenths m.usage_percent)
          ∷ "%)"
          ∷ []);
      warning = concat (
          place
          ∷ full
          ∷ decimal t.warning_percent
          ∷ "% for "
          ∷ decimal t.confirmation_checks
          ∷ "+ checks)"
          ∷ []);
    }

-- The tables that a disk of a report changes.
pub record MountTables : Type 0 where
  pub mounts : List ResourceMount
  pub samples : List DiskSample
  pub alerting : Alerting

-- ingest.py: `_upsert_resource_mount`, none where it raises.
pub upsert_resource_mount :
    AlertContext
    → Thresholds
    → Bool
    → String
    → String
    → DiskReport
    → MountTables
    → Option MountTables
unfolding is_mount next_mount sample_of mount_texts
upsert_resource_mount c t notify new_name host row s =
    let same = is_mount host (or_empty row.mount_point) in
    let existing = first_that same s.mounts in
    let m = next_mount c.now t new_name host row existing in
    if not (is_set row.mount_point)
    then none
    else some (record {
      mounts = upsert same (next_mount c.now t new_name host row) s.mounts;
      samples = s.samples ++ sample_of m ∷ [];
      alerting =
          resource_alerts c "Resource Mount" m.name (mount_texts t m) notify (old_flags existing)
            m.flags s.alerting;
    })

-- ingest.py: `_delete_stale_resource_mounts`
pub delete_stale_resource_mounts : String → List String → List ResourceMount → List ResourceMount
delete_stale_resource_mounts host seen mounts =
    delete_where (λ m. str_eq m.monitored_host host && not (is_member m.mount_point seen)) mounts

-- The mount points that are returned, and the warnings.
pub record DisksDone : Type 0 where
  pub seen : List String
  pub warnings : List String
  pub tables : MountTables

pub add_disk : DiskReport → String → DisksDone → Option MountTables → DisksDone
add_disk row shown later none = record later {
  warnings = concat ("skipped malformed disk row: " ∷ shown ∷ []) ∷ later.warnings;
}
add_disk row shown later (some t) = record later { seen = or_empty row.mount_point ∷ later.seen }

mounts_after : MountTables → Option MountTables → MountTables
mounts_after s none = s
mounts_after s (some t) = t

pub record_disks :
    AlertContext
    → Thresholds
    → Bool
    → (DiskReport → String)
    → (DiskReport → String)
    → String
    → List DiskReport
    → MountTables
    → DisksDone
unfolding add_disk mounts_after
record_disks c t notify shown fresh host [] s = record { seen = []; warnings = []; tables = s }
record_disks c t notify shown fresh host (row ∷ rows) s =
    let tried = upsert_resource_mount c t notify (fresh row) host row s in
    add_disk row (shown row) (record_disks c t notify shown fresh host rows (mounts_after s tried))
      tried

-- The part of ingest.py: `process_resources` on the disks: without a mount point seen, nothing is
-- deleted.
unfoldable pub process_disks :
    AlertContext
    → Thresholds
    → Bool
    → (DiskReport → String)
    → (DiskReport → String)
    → String
    → List DiskReport
    → MountTables
    → DisksDone
unfolding record_disks delete_stale_resource_mounts
process_disks c t notify shown fresh host rows s =
    let done = record_disks c t notify shown fresh host rows s in
    if ltb 0 (length done.seen)
    then record done {
      tables = record done.tables {
        mounts = delete_stale_resource_mounts host done.seen done.tables.mounts;
      };
    }
    else done
