-- ===== src/Poller/Resources/Tests.antt =====
-- Polls of a guest and of a datastore.
use alfaedge_pulse.Poller.Tests.{context, empty_alerting, limits, host}
use alfaedge_pulse.Common.{◌≡◌, refl, true, false, ◌&&◌, none, some}
use alfaedge_pulse.Poller.Storage.{Datastore, StorageReading}
use alfaedge_pulse.Poller.Resources.{
  Flags, Guest, GuestReading, upsert_guest, next_flags, guest_load,
}
use alfaedge_pulse.Poller.Severity.{track_severity, is_over}
use alfaedge_pulse.Poller.Resources.OpenAlerts.{Follows, upsert_guest-Follows}

abbrev no_flags : Flags
no_flags = record {
  streaks = record { warning_streak = 2; critical_streak = 2 };
  is_critical = false;
  is_warning = false;
}

abbrev web : Guest
web = record {
  name = "alpha-100";
  vmid = 100;
  guest_name = "web";
  guest_type = "QEMU (VM)";
  node = "alpha";
  status = "running";
  cpu_usage = 960;
  cpus = 4;
  memory_usage = 500;
  memory_total = 800;
  disk_usage = none;
  disk_total = none;
  uptime = 100;
  ip_address = none;
  last_synced = none;
  flags = no_flags;
}

abbrev busy : GuestReading
busy = record {
  guest_name = "web";
  guest_type = "QEMU (VM)";
  node = "alpha";
  status = "running";
  cpu = 980;
  cpu_count = 4;
  memory = 500;
  memory_size = 800;
  disk = some 300;
  disk_size = none;
  uptime = 120;
  address = none;
}

upsert_guest-Follows_example :
    let (guest', a') = upsert_guest context limits host busy web empty_alerting in
    Follows "Proxmox Guest" guest'.name guest'.flags a'
    × ((guest'.flags.is_critical && guest'.flags.is_warning) ≡ false)
upsert_guest-Follows_example =
    upsert_guest-Follows context limits host busy web empty_alerting (refl, refl)

third_poll_is_critical :
    (upsert_guest context limits host busy web empty_alerting).0.flags.is_critical ≡ true
unfolding upsert_guest next_flags guest_load track_severity is_over
third_poll_is_critical = refl

abbrev local_store : Datastore
local_store = record {
  name = "alpha-local";
  datastore_name = "local";
  datastore_type = "PVE Storage";
  storage_role = "Other";
  used = 900;
  total = 1000;
  usage_percent = 900;
  last_synced = none;
  flags = no_flags;
}

abbrev nearly_full : StorageReading
nearly_full = record {
  name = "local";
  datastore_type = "PVE Storage";
  storage_role = "OS + Local Backup Drive";
  used = 910;
  total = 1000;
  usage_percent = 910;
}
