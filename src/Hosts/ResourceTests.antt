-- ===== src/Hosts/ResourceTests.antt =====
-- Runs of the code for disks on small inputs.
use alfaedge_pulse.Common.{
  String, ◌≡◌, refl, ap, Bool, true, false, none, some, [], ◌∷◌, arith, str_eq,
}
use alfaedge_pulse.Poller.Tests.{context, empty_alerting, limits}
use alfaedge_pulse.Alerts.Log.Laws.{open_rows}
use alfaedge_pulse.Common.Text.{is_blank}
use alfaedge_pulse.Hosts.Mounts.Live.{has_mount}
use alfaedge_pulse.Hosts.Mounts.{MountTables, no_flags, process_disks, mount_name, is_mount}
use alfaedge_pulse.Poller.Resources.{resource_key}
use alfaedge_pulse.Hosts.Mounts.Orphans.{process_disks-orphans}
use alfaedge_pulse.Hosts.Disks.{
  ResourceMount, DiskReport, ResourceMount, DiskReport, ResourceMount, DiskReport, ResourceMount,
  DiskReport, ResourceMount, DiskReport, ResourceMount, DiskReport, ResourceMount, DiskReport,
  ResourceMount, DiskReport, ResourceMount, DiskReport, ResourceMount, DiskReport, ResourceMount,
  DiskReport, ResourceMount, DiskReport, ResourceMount, DiskReport, ResourceMount, DiskReport,
  ResourceMount, DiskReport, ResourceMount, DiskReport, ResourceMount, DiskReport, ResourceMount,
  DiskReport, ResourceMount, DiskReport, ResourceMount, DiskReport, ResourceMount, DiskReport,
  ResourceMount, DiskReport, ResourceMount, DiskReport, ResourceMount, DiskReport, ResourceMount,
  DiskReport, ResourceMount, DiskReport, ResourceMount, DiskReport, ResourceMount, DiskReport,
  ResourceMount, DiskReport, ResourceMount, DiskReport, ResourceMount, DiskReport, ResourceMount,
  DiskReport, ResourceMount, DiskReport, ResourceMount, DiskReport, ResourceMount, DiskReport,
  ResourceMount, DiskReport, ResourceMount, DiskReport, ResourceMount, DiskReport, ResourceMount,
  DiskReport, ResourceMount, DiskReport,
}

abbrev root_disk : DiskReport
root_disk = record {
  mount_point = some "/";
  fstype = some "ext4";
  used_bytes = 96;
  total_bytes = 100;
  inodes_used = none;
  inodes_total = none;
}

-- A mount that the next report will not list.
abbrev old_mount : ResourceMount
old_mount = record {
  name = "RM-0001";
  monitored_host = "bench-1";
  mount_point = "/data";
  fstype = none;
  used_bytes = 96;
  total_bytes = 100;
  usage_percent = 960;
  inodes_used = none;
  inodes_total = none;
  inode_usage_percent = none;
  last_synced = 1;
  flags = no_flags;
}

abbrev mount_tables : MountTables
mount_tables = record { mounts = old_mount ∷ []; samples = []; alerting = empty_alerting }

abbrev new_mount_name : DiskReport → String
new_mount_name row = "RM-0002"

different : Path String "RM-0002" "RM-0001" → ⊥
different same =
    let h : Path Bool false true = ap (λ n. str_eq n "RM-0001") same in ground (arith, h)

process_disks-orphans_example :
    let after =
      (process_disks context limits true new_mount_name new_mount_name "bench-1"
        (root_disk ∷ [])
        mount_tables).tables in
    (has_mount "bench-1" "/data" after.mounts ≡ false)
    × (open_rows (resource_key "Resource Mount" "RM-0001" "Critical Resource") after.alerting.log
        ≡ open_rows
            (resource_key "Resource Mount" "RM-0001" "Critical Resource")
            mount_tables.alerting.log)
unfolding is_blank mount_name is_mount
process_disks-orphans_example =
    process_disks-orphans context limits true new_mount_name new_mount_name "bench-1" root_disk
      mount_tables "/data" "RM-0001" "Critical Resource" refl refl (λ same. different same)
