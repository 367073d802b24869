-- ===== src/Hosts/Mounts/Orphans.antt =====
-- The alerts of a mount that a report no longer names.
use alfaedge_pulse.Common.{
  String, ◌≡◌, refl, ap, ◌∙◌, ◌≢◌, inl, inr, Bool, true, false, List, [], ◌∷◌, arith, str_eq,
  eq_iff, ltb, Bool-cases, length,
}
use alfaedge_pulse.Alerts.Dispatch.{AlertContext, is_member, Alerting}
use alfaedge_pulse.Poller.Severity.{Thresholds}
use alfaedge_pulse.Hosts.Mounts.{
  MountTables, mount_name, is_mount, process_disks, record_disks, upsert_resource_mount,
  mounts_after, next_mount,
}
use alfaedge_pulse.Alerts.Channels.{is_set}
use alfaedge_pulse.Common.Text.{or_empty}
use alfaedge_pulse.Common.Tables.{first_that}
use alfaedge_pulse.Hosts.Mounts.Live.{has_mount, process_disks_lem, reported, tables-add}
use alfaedge_pulse.Alerts.Log.Laws.{open_rows}
use alfaedge_pulse.Poller.Resources.{resource_key, resource_alerts, ResourceTexts, Flags}
use alfaedge_pulse.Alerts.Log.{same_key}
use alfaedge_pulse.Poller.Transition.Incidents.{open_rows-transition}
use alfaedge_pulse.Hosts.Disks.{DiskReport}

resource_keys_apart :
    (m n s t : String)
    → m ≢ n
    → same_key (resource_key "Resource Mount" m s) (resource_key "Resource Mount" n t) ≡ false
unfolding same_key resource_key
resource_keys_apart m n s t apart = ground (arith, eq_iff m n)

resource_alerts_other :
    (c : AlertContext) (m n alert_type : String) (texts : ResourceTexts) (notify : Bool)
    (old new : Flags) (a : Alerting)
    → m ≢ n
    → let key = resource_key "Resource Mount" n alert_type in
      open_rows key (resource_alerts c "Resource Mount" m texts notify old new a).log
      ≡ open_rows key a.log
unfolding resource_alerts
resource_alerts_other c m n alert_type texts notify old new a apart =
    open_rows-transition c _ _ _ notify _ _ _ (resource_key "Resource Mount" n alert_type)
    ∙ rw (resource_keys_apart m n "Resource Warning" alert_type apart) (
        open_rows-transition c _ _ _ notify _ _ a (resource_key "Resource Mount" n alert_type)
        ∙ rw (resource_keys_apart m n "Critical Resource" alert_type apart) refl)

process_disks-alerting :
    (c : AlertContext) (t : Thresholds) (notify : Bool) (shown fresh : DiskReport → String)
    (host : String) (rows : List DiskReport) (s : MountTables)
    → (process_disks c t notify shown fresh host rows s).tables.alerting
      ≡ (record_disks c t notify shown fresh host rows s).tables.alerting
unfolding process_disks
process_disks-alerting c t notify shown fresh host rows s =
    elim (Bool-cases (ltb 0 (length (record_disks c t notify shown fresh host rows s).seen))) [
      | inl e ↦ rw e refl
      | inr e ↦ rw e refl
    ]

upsert-alerting :
    (c : AlertContext) (t : Thresholds) (notify : Bool) (new_name host : String) (row : DiskReport)
    (s : MountTables) (n alert_type : String)
    → mount_name new_name (first_that (is_mount host (or_empty row.mount_point)) s.mounts) ≢ n
    → let key = resource_key "Resource Mount" n alert_type in
      open_rows key
        (mounts_after s (upsert_resource_mount c t notify new_name host row s)).alerting.log
      ≡ open_rows key s.alerting.log
unfolding upsert_resource_mount mounts_after
upsert-alerting c t notify new_name host row s n alert_type apart =
    elim (Bool-cases (is_set row.mount_point)) [
      | inl e ↦ rw e (
          resource_alerts_other c _ n alert_type _ notify _ _ s.alerting
            (unfold next_mount in apart))
      | inr e ↦ rw e refl
    ]

-- A report of one disk, for a host that has another mount whose row is named `n`: the other mount's
-- row is deleted, and its open alerts stay as many as they were.
pub process_disks-orphans :
    (c : AlertContext) (t : Thresholds) (notify : Bool) (shown fresh : DiskReport → String)
    (host : String) (row : DiskReport) (s : MountTables) (mount n alert_type : String)
    → is_set row.mount_point ≡ true
    → str_eq mount (or_empty row.mount_point) ≡ false
    → mount_name (fresh row) (first_that (is_mount host (or_empty row.mount_point)) s.mounts) ≢ n
    → let after = (process_disks c t notify shown fresh host (row ∷ []) s).tables in
      (has_mount host mount after.mounts ≡ false)
      × (open_rows (resource_key "Resource Mount" n alert_type) after.alerting.log
          ≡ open_rows (resource_key "Resource Mount" n alert_type) s.alerting.log)
unfolding record_disks
process_disks-orphans c t notify shown fresh host row s mount n alert_type named other apart = (
  process_disks_lem c t notify host shown fresh (row ∷ []) mount s
      ∙ unfold reported is_member in ground (arith, named, other),
  let tried = upsert_resource_mount c t notify (fresh row) host row s in
      let key = resource_key "Resource Mount" n alert_type in
      ap (λ (a : Alerting). open_rows key a.log)
        (process_disks-alerting c t notify shown fresh host (row ∷ []) s
          ∙ unfold record_disks in
            ap (λ (x : MountTables). x.alerting)
              (tables-add c t notify host row (shown row) _ tried))
      ∙ upsert-alerting c t notify (fresh row) host row s n alert_type apart,
)
