-- ===== src/Poller/Transition.antt =====
-- tasks/poller.py: `_handle_transition`, the alert of one incident from the state before and after
-- a poll. The other pollers of the app call it too.
pub mod Incidents
pub mod Levels
use alfaedge_pulse.Common.{String, Bool, not, ◌&&◌, Option, none, some, if◌then◌else◌}
use alfaedge_pulse.Alerts.Dispatch.{AlertContext, Alerting, dispatch_alert, dispatch_recovery}
use alfaedge_pulse.Alerts.Log.{AlertKey, resolve_alert, has_open_alert}
use alfaedge_pulse.Alerts.Channels.{is_set}
use alfaedge_pulse.Common.Text.{or_empty}

-- poller.py: `_handle_transition`. No recovery message means that a recovery is not announced.
unfoldable pub handle_transition :
    AlertContext → Bool → Bool → AlertKey → String → Option String → Bool → Alerting → Alerting
handle_transition c was_critical is_critical k message recovery_message notify_global a =
    if is_critical && not was_critical
    then dispatch_alert c k message notify_global a
    else if was_critical && not is_critical
    then (let resolved = record a { log = resolve_alert k a.log } in
        if is_set recovery_message
        then dispatch_recovery c k (or_empty recovery_message) notify_global resolved
        else resolved)
    else if is_critical && was_critical && not (has_open_alert k a.log)
    then dispatch_alert c k message notify_global a
    else a

-- The level-triggered form, of `_check_poller_stall` and `_check_guest_backups`: raise the alert if
-- it is wanted and not open, close it if it is open and not wanted; no recovery message is no
-- announcement.
pub level_alert :
    AlertContext → Bool → AlertKey → String → Option String → Bool → Alerting → Alerting
level_alert c wanted k message recovery notify_global a =
    let is_open = has_open_alert k a.log in
    let resolved : Alerting = record a { log = resolve_alert k a.log } in
    if wanted && not is_open
    then dispatch_alert c k message notify_global a
    else if not wanted && is_open
    then elim recovery [
      | none ↦ resolved
      | some text ↦ dispatch_recovery c k text notify_global resolved
    ]
    else a
