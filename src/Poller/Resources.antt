-- ===== src/Poller/Resources.antt =====
-- tasks/poller.py: `_upsert_guest`, `_upsert_datastore` and `_classify_storage_role`.
-- Percentages are tenths and sizes hundredths of a gigabyte, as the calls of `round` leave them.
pub mod OpenAlerts
mod Tests
use alfaedge_pulse.Common.{
  ℕ, max, String, Bool, Option, none, some, List, [], ◌∷◌, ◌==◌, if◌then◌else◌,
}
use alfaedge_pulse.Alerts.Log.{AlertKey}
use alfaedge_pulse.Poller.Severity.{Thresholds, track_severity, Streaks}
use alfaedge_pulse.Alerts.Dispatch.{AlertContext, Alerting}
use alfaedge_pulse.Poller.Server.{Server, format_over_threshold}
use alfaedge_pulse.Common.Text.{concat, decimal}
use alfaedge_pulse.Alerts.Channels.{is_set}
use alfaedge_pulse.Poller.Transition.{handle_transition}

-- The flags and counters that a guest and a datastore share; a new document has none set.
pub record Flags : Type 0 where
  pub streaks : Streaks
  pub is_critical : Bool
  pub is_warning : Bool

-- A row of `Proxmox Guest`.
pub record Guest : Type 0 where
  pub name : String
  pub vmid : ℕ
  pub guest_name : String
  pub guest_type : String
  pub node : String
  pub status : String
  pub cpu_usage : ℕ
  pub cpus : ℕ
  pub memory_usage : ℕ
  pub memory_total : ℕ
  pub disk_usage : Option ℕ
  pub disk_total : Option ℕ
  pub uptime : ℕ
  pub ip_address : Option String
  pub last_synced : Option ℕ
  pub flags : Flags

-- The figures of one guest in the list of a node.
pub record GuestReading : Type 0 where
  pub guest_name : String
  pub guest_type : String
  pub node : String
  pub status : String
  pub cpu : ℕ
  pub cpu_count : ℕ
  pub memory : ℕ
  pub memory_size : ℕ
  pub disk : Option ℕ
  pub disk_size : Option ℕ
  pub uptime : ℕ
  pub address : Option String

-- The larger of the readings; the disk of a guest may be unknown.
pub guest_load : GuestReading → ℕ
guest_load r = elim r.disk [ none ↦ max r.cpu r.memory | some d ↦ max (max r.cpu r.memory) d ]

guest_metrics : GuestReading → List (String × ℕ)
guest_metrics r =
    ("CPU", r.cpu) ∷ ("RAM", r.memory) ∷ elim r.disk [ none ↦ [] | some d ↦ ("Disk", d) ∷ [] ]

-- `_track_severity` and the two flags that are stored from it.
pub next_flags : Thresholds → ℕ → Flags → Flags
next_flags t value f =
    let (streaks', severity) = track_severity f.streaks value t in
    record {
      streaks = streaks';
      is_critical = severity.is_critical;
      is_warning = severity.is_warning;
    }

unfoldable pub resource_key : String → String → String → AlertKey
resource_key doctype name alert_type = record {
  reference_doctype = doctype;
  reference_name = name;
  alert_type = alert_type;
}

-- The texts of the two alerts and of the recovery.
pub record ResourceTexts : Type 0 where
  pub critical : String
  pub recovered : String
  pub warning : String

-- The two transitions that end both functions.
unfoldable pub resource_alerts :
    AlertContext → String → String → ResourceTexts → Bool → Flags → Flags → Alerting → Alerting
unfolding resource_key
resource_alerts c doctype name texts notify_global old new a =
    handle_transition c old.is_warning new.is_warning (resource_key doctype name "Resource Warning")
      texts.warning none notify_global
      (handle_transition c old.is_critical new.is_critical
        (resource_key doctype name "Critical Resource") texts.critical (some texts.recovered)
        notify_global a)

guest_texts : Thresholds → Server → GuestReading → ResourceTexts
guest_texts t server r =
    let place = concat (server.server_name ∷ " → " ∷ r.guest_name ∷ ": " ∷ []) in
    record {
      critical = concat (
          place
          ∷ format_over_threshold (guest_metrics r) t.critical_percent
          ∷ " above "
          ∷ decimal t.critical_percent
          ∷ "%"
          ∷ []);
      recovered = concat (place ∷ "usage back below " ∷ decimal t.critical_percent ∷ "%" ∷ []);
      warning = concat (
          place
          ∷ format_over_threshold (guest_metrics r) t.warning_percent
          ∷ " above "
          ∷ decimal t.warning_percent
          ∷ "% for "
          ∷ decimal t.confirmation_checks
          ∷ "+ checks"
          ∷ []);
    }

-- poller.py: `_upsert_guest`, on the stored guest or a new one.
pub upsert_guest :
    AlertContext → Thresholds → Server → GuestReading → Guest → Alerting → Guest × Alerting
unfolding guest_load next_flags resource_alerts guest_texts guest_metrics
upsert_guest c t server r guest a =
    let flags' = next_flags t (guest_load r) guest.flags in
    (
      record guest {
        guest_name = r.guest_name;
        guest_type = r.guest_type;
        node = r.node;
        status = r.status;
        cpu_usage = r.cpu;
        cpus = if r.cpu_count == 0 then guest.cpus else r.cpu_count;
        memory_usage = r.memory;
        memory_total = r.memory_size;
        disk_usage = r.disk;
        disk_total = r.disk_size;
        uptime = r.uptime;
        last_synced = some c.now;
        ip_address = if is_set r.address then r.address else guest.ip_address;
        flags = flags';
      },
      resource_alerts c "Proxmox Guest" guest.name (guest_texts t server r) server.is_production
          guest.flags flags' a,
    )
