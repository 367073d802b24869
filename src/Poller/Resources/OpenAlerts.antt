-- ===== src/Poller/Resources/OpenAlerts.antt =====
-- `_upsert_guest` and `_upsert_datastore`: the flags and the alerts.
use alfaedge_pulse.Common.{String, ◌≡◌, Bool, true, false, ◌&&◌, none, some, arith}
use alfaedge_pulse.Poller.Resources.{
  upsert_guest, resource_alerts, Flags, resource_key, next_flags, ResourceTexts, GuestReading,
  Guest, guest_load,
}
use alfaedge_pulse.Alerts.Log.{same_key}
use alfaedge_pulse.Poller.Storage.{upsert_datastore, StorageReading, Datastore}
use alfaedge_pulse.Alerts.Dispatch.{Alerting, AlertContext}
use alfaedge_pulse.Poller.Severity.{track_severity, Thresholds}
use alfaedge_pulse.Alerts.Log.Laws.{open_rows, same_key_self}
use alfaedge_pulse.Poller.Transition.Incidents.{number, open_rows-transition}
use alfaedge_pulse.Poller.Transition.{handle_transition}
use alfaedge_pulse.Poller.Server.{Server}

critical-warning_keys :
    (doctype name : String)
    → same_key
        (resource_key doctype name "Critical Resource")
        (resource_key doctype name "Resource Warning")
      ≡ false
unfolding same_key resource_key
critical-warning_keys doctype name = ground arith

warning-critical_keys :
    (doctype name : String)
    → same_key
        (resource_key doctype name "Resource Warning")
        (resource_key doctype name "Critical Resource")
      ≡ false
unfolding same_key resource_key
warning-critical_keys doctype name = ground arith

-- As many open rows for each of the two alerts as its flag says, none or one.
abbrev pub Follows : String → String → Flags → Alerting → Type 0
Follows doctype name f a =
    (open_rows (resource_key doctype name "Critical Resource") a.log ≡ number f.is_critical)
    × (open_rows (resource_key doctype name "Resource Warning") a.log ≡ number f.is_warning)

pub resource_alerts-Follows :
    (c : AlertContext) (doctype name : String) (texts : ResourceTexts) (notify : Bool)
    (old new : Flags) (a : Alerting)
    → Follows doctype name old a
    → Follows doctype name new (resource_alerts c doctype name texts notify old new a)
unfolding resource_alerts
resource_alerts-Follows c doctype name texts notify old new a h =
    let critical = resource_key doctype name "Critical Resource" in
    let warning = resource_key doctype name "Resource Warning" in
    let first =
      handle_transition c old.is_critical new.is_critical critical texts.critical
        (some texts.recovered) notify a in
    let first_open =
      open_rows-transition c critical texts.critical (some texts.recovered) notify old.is_critical
        new.is_critical a in
    let second_open =
      open_rows-transition c warning texts.warning none notify old.is_warning new.is_warning
        first in
    (
      ground (
        arith,
        first_open critical,
        second_open critical,
        same_key_self critical,
        warning-critical_keys doctype name,
      ),
      ground (
        arith,
        first_open warning,
        second_open warning,
        same_key_self warning,
        critical-warning_keys doctype name,
      ),
    )

-- One poll of a guest: its flags are never both set, and if there was one open alert for each flag
-- that was set and none for the others, so there is for the new flags, whatever was read and whether
-- the host is in production or not.
pub upsert_guest-Follows :
    (c : AlertContext) (t : Thresholds) (server : Server) (r : GuestReading) (guest : Guest)
    (a : Alerting)
    → Follows "Proxmox Guest" guest.name guest.flags a
    → let (guest', a') = upsert_guest c t server r guest a in
      Follows "Proxmox Guest" guest'.name guest'.flags a'
      × ((guest'.flags.is_critical && guest'.flags.is_warning) ≡ false)
unfolding upsert_guest next_flags track_severity
upsert_guest-Follows c t server r guest a h = (
  resource_alerts-Follows c "Proxmox Guest" guest.name _ server.is_production guest.flags
      (next_flags t (guest_load r) guest.flags) a h,
  ground arith,
)

-- One poll of a datastore: its flags are never both set, and if there was one open alert for each
-- flag that was set and none for the others, so there is for the new flags.
pub upsert_datastore-Follows :
    (c : AlertContext) (t : Thresholds) (server : Server) (r : StorageReading) (store : Datastore)
    (a : Alerting)
    → Follows "Proxmox Datastore" store.name store.flags a
    → let (store', a') = upsert_datastore c t server r store a in
      Follows "Proxmox Datastore" store'.name store'.flags a'
      × ((store'.flags.is_critical && store'.flags.is_warning) ≡ false)
unfolding upsert_datastore next_flags track_severity
upsert_datastore-Follows c t server r store a h = (
  resource_alerts-Follows c "Proxmox Datastore" store.name _ true store.flags
      (next_flags t r.usage_percent store.flags) a h,
  ground arith,
)
