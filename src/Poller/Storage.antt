-- ===== src/Poller/Storage.antt =====
-- tasks/poller.py: `_upsert_datastore` and `_classify_storage_role`.
-- Percentages are tenths and sizes hundredths of a gigabyte, as the calls of `round` leave them.
use alfaedge_pulse.Common.{
  ℕ, String, true, ◌&&◌, Option, none, some, [], ◌∷◌, str_eq, if◌then◌else◌,
}
use alfaedge_pulse.Poller.Resources.{Flags, ResourceTexts, next_flags, resource_alerts}
use alfaedge_pulse.Poller.Severity.{Thresholds}
use alfaedge_pulse.Alerts.Dispatch.{AlertContext, is_member, Alerting}
use alfaedge_pulse.Common.Text.{or_empty, concat, decimal}
use alfaedge_pulse.Poller.Server.{Server, round_tenths}

-- A row of `Proxmox Datastore`.
pub record Datastore : Type 0 where
  pub name : String
  pub datastore_name : String
  pub datastore_type : String
  pub storage_role : String
  pub used : ℕ
  pub total : ℕ
  pub usage_percent : ℕ
  pub last_synced : Option ℕ
  pub flags : Flags

-- poller.py: `_classify_storage_role`, from the type and the name of a storage.
pub classify_storage_role : Option String → Option String → String
classify_storage_role none storage = "Other"
classify_storage_role (some storage_type) storage =
    if is_member storage_type ("lvmthin" ∷ "lvm" ∷ [])
    then "Guest Storage (LVM-Thin)"
    else if str_eq storage_type "dir" && str_eq (or_empty storage) "local"
    then "OS + Local Backup Drive"
    else "Other"

datastore_texts : Thresholds → Server → String → ℕ → ResourceTexts
datastore_texts t server name usage =
    let full = concat (
      server.server_name
      ∷ ": "
      ∷ name
      ∷ " storage "
      ∷ decimal (round_tenths usage)
      ∷ "% full (above "
      ∷ []) in
    record {
      critical = concat (full ∷ decimal t.critical_percent ∷ "%)" ∷ []);
      recovered = concat (
          server.server_name
          ∷ ": "
          ∷ name
          ∷ " storage back below "
          ∷ decimal t.critical_percent
          ∷ "% full (now "
          ∷ decimal (round_tenths usage)
          ∷ "%)"
          ∷ []);
      warning = concat (
          full
          ∷ decimal t.warning_percent
          ∷ "% for "
          ∷ decimal t.confirmation_checks
          ∷ "+ checks)"
          ∷ []);
    }

-- The arguments that name and measure a datastore.
pub record StorageReading : Type 0 where
  pub name : String
  pub datastore_type : String
  pub storage_role : String
  pub used : ℕ
  pub total : ℕ
  pub usage_percent : ℕ

-- poller.py: `_upsert_datastore`, on the stored datastore or a new one.
unfoldable pub upsert_datastore :
    AlertContext
    → Thresholds
    → Server
    → StorageReading
    → Datastore
    → Alerting
    → Datastore × Alerting
unfolding datastore_texts
upsert_datastore c t server r store a =
    let flags' = next_flags t r.usage_percent store.flags in
    (
      record store {
        datastore_type = r.datastore_type;
        storage_role = r.storage_role;
        used = r.used;
        total = r.total;
        usage_percent = r.usage_percent;
        last_synced = some c.now;
        flags = flags';
      },
      resource_alerts c "Proxmox Datastore" store.name
          (datastore_texts t server r.name r.usage_percent) true store.flags flags' a,
    )
