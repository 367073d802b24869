-- ===== src/Poller/Backups.antt =====
-- tasks/poller.py: the alerts on backups, of a host and of each guest.
-- `show` is the text of a time, as an f-string prints it.
pub mod Overdue
use alfaedge_pulse.Common.{
  ℕ, ◌-◌, ◌*◌, String, Bool, true, not, ◌&&◌, ◌||◌, Option, none, some, List, [], ◌∷◌, map, ltb,
  ◌==◌, if◌then◌else◌,
}
use Prim.Native.Char.{code}
use alfaedge_pulse.Alerts.Log.{AlertKey, resolve_alert}
use alfaedge_pulse.Alerts.Dispatch.{AlertContext, Alerting, dispatch_alert, dispatch_recovery}
use alfaedge_pulse.Common.Text.{push_front, concat, lower, decimal, strip, or_empty}
use alfaedge_pulse.Poller.Server.{Server}
use alfaedge_pulse.Alerts.Recipients.{is_seen}
use alfaedge_pulse.Poller.Transition.{level_alert}

-- A row of `Proxmox Guest`, with the fields that `_check_guest_backups` reads.
pub record BackupGuest : Type 0 where
  pub name : String
  pub guest_name : String
  pub vmid : ℕ
  pub is_running : Bool
  pub tags : Option String
  pub creation : ℕ
  pub last_successful_backup : Option ℕ

abbrev pub hour : ℕ
hour = 3600000000

abbrev pub backup_overdue_hours : ℕ
backup_overdue_hours = 24

backup_failure_key : Server → AlertKey
backup_failure_key server = record {
  reference_doctype = "Proxmox Server";
  reference_name = server.name;
  alert_type = "Backup Failure";
}

-- `not last or last < cutoff`
pub is_older : ℕ → Option ℕ → Bool
is_older cutoff none = true
is_older cutoff (some t) = ltb t cutoff

failure_text : (ℕ → String) → Server → Option ℕ → String
failure_text show server last = concat (
    server.server_name
    ∷ ": no successful backup in over 24h ("
    ∷ elim last [
      | none ↦ "no successful backup has ever been recorded"
      | some t ↦ concat ("last successful backup was " ∷ show t ∷ [])
    ]
    ∷ ") — see Backups tab for details"
    ∷ [])

resumed_text : (ℕ → String) → Server → Option ℕ → String
resumed_text show server last = concat (
    server.server_name
    ∷ ": backups succeeding again (last successful backup "
    ∷ elim last [ none ↦ "None" | some t ↦ show t ]
    ∷ ")"
    ∷ [])

-- poller.py: `_handle_backup_task_result`, with the newest successful backup of the host.
pub handle_backup_task_result :
    AlertContext → (ℕ → String) → Option ℕ → Server → Alerting → Server × Alerting
unfolding is_older failure_text resumed_text backup_failure_key
handle_backup_task_result c show last server a =
    let is_critical_now = is_older (c.now - backup_overdue_hours * hour) last in
    let was_critical = server.backup_critical in
    let key = backup_failure_key server in
    (
      record server { backup_critical = is_critical_now },
      (if is_critical_now && not was_critical
          then dispatch_alert c key (failure_text show server last) true a
          else if was_critical && not is_critical_now
          then dispatch_recovery c key (resumed_text show server last) true
              (record a { log = resolve_alert key a.log })
          else a),
    )

-- The pieces of `(g.tags or "").replace(";", ",").split(",")`.
split_tags : String → List String
split_tags String.[] = String.[] ∷ []
split_tags (String.◌∷◌ ch s) =
    let rest = split_tags s in
    if code ch == b',' || code ch == b';' then String.[] ∷ rest else push_front ch rest

-- `NO_BACKUP_TAG in tags`
pub has_no_backup_tag : Option String → Bool
unfolding split_tags push_front
has_no_backup_tag tags =
    is_seen (lower "no-backup") (map (λ t. lower (strip t)) (split_tags (or_empty tags)))

pub is_exempt : ℕ → BackupGuest → Bool
is_exempt cutoff g = not g.is_running || has_no_backup_tag g.tags || ltb cutoff g.creation

pub is_overdue : ℕ → BackupGuest → Bool
is_overdue cutoff g = not (is_exempt cutoff g) && is_older cutoff g.last_successful_backup

pub overdue_key : BackupGuest → AlertKey
overdue_key g = record {
  reference_doctype = "Proxmox Guest";
  reference_name = g.name;
  alert_type = "Backup Overdue";
}

guest_place : Server → BackupGuest → String
guest_place server g =
    concat (g.guest_name ∷ " (" ∷ decimal g.vmid ∷ ") on " ∷ server.server_name ∷ ": " ∷ [])

overdue_text : (ℕ → String) → ℕ → Server → BackupGuest → String
overdue_text show hours server g = concat (
    guest_place server g
    ∷ "no backup in over "
    ∷ decimal hours
    ∷ "h ("
    ∷ elim g.last_successful_backup [
      | none ↦ "no successful backup recorded"
      | some t ↦ concat ("last successful backup " ∷ show t ∷ [])
    ]
    ∷ ")"
    ∷ [])

backed_up_text : (ℕ → String) → Server → BackupGuest → String
backed_up_text show server g = concat (
    guest_place server g
    ∷ "backed up again ("
    ∷ elim g.last_successful_backup [ none ↦ "None" | some t ↦ show t ]
    ∷ ")"
    ∷ [])

-- One turn of the loop: an exempt guest's alert is closed without an announcement.
pub check_guest : AlertContext → (ℕ → String) → ℕ → Server → BackupGuest → Alerting → Alerting
unfolding overdue_text backed_up_text guest_place
check_guest c show hours server g a =
    let cutoff = c.now - hours * hour in
    level_alert c (is_overdue cutoff g) (overdue_key g) (overdue_text show hours server g)
      (if is_exempt cutoff g then none else some (backed_up_text show server g))
      server.is_production a

check_guests : AlertContext → (ℕ → String) → ℕ → Server → List BackupGuest → Alerting → Alerting
check_guests c show hours server [] a = a
check_guests c show hours server (g ∷ gs) a =
    check_guests c show hours server gs (check_guest c show hours server g a)

-- poller.py: `_check_guest_backups`, with the setting `backup_overdue_hours` as `cint` reads it. The
-- alerts open before the loop are those open at each turn, since a guest's name is a primary key.
pub check_guest_backups :
    AlertContext → (ℕ → String) → ℕ → Server → List BackupGuest → Alerting → Alerting
unfolding check_guests
check_guest_backups c show hours server guests a =
    if hours == 0 then a else check_guests c show hours server guests a

-- poller.py: `_bump_last_successful_backup`, on the guest's stored time.
pub bump_last_successful_backup : Option ℕ → ℕ → ℕ
bump_last_successful_backup none t = t
bump_last_successful_backup (some current) t = if ltb current t then t else current
