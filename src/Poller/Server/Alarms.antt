-- ===== src/Poller/Server/Alarms.antt =====
-- The three transitions of one sync of a server, and the open rows of their incidents.
use alfaedge_pulse.Common.{
  String, ◌≡◌, refl, ◌∙◌, Bool, true, false, none, some, [], ◌∷◌, arith, if◌then◌else◌,
}
use alfaedge_pulse.Poller.Server.{
  Server, offline_alert, server_key, ServerStatus, is_offline, is_warning_status, was_over,
  server_alerts, over_text, below_text,
}
use alfaedge_pulse.Alerts.Log.{same_key, AlertKey}
use alfaedge_pulse.Common.Text.{concat, is_blank, is_blank-concat, decimal}
use alfaedge_pulse.Poller.Transition.{handle_transition}
use alfaedge_pulse.Alerts.Dispatch.{AlertContext, Alerting}
use alfaedge_pulse.Poller.Severity.{Thresholds}
use alfaedge_pulse.Alerts.Log.Laws.{open_rows, same_key_self}
use alfaedge_pulse.Poller.Transition.Incidents.{next_open, open_rows-transition}

pub back_text : Server → String
back_text server =
    concat (server.server_name ∷ ": server back online (" ∷ server.hostname ∷ ")" ∷ [])

-- The chain on the status is a transition of "Server Offline" with a recovery.
pub offline_alert-handle_transition :
    (c : AlertContext) (old : ServerStatus) (server : Server) (a : Alerting)
    → offline_alert c old server a
      ≡ handle_transition c
          (is_offline old)
          (is_offline server.status)
          (server_key server "Server Offline")
          (concat (server.server_name ∷ ": server unreachable (" ∷ server.hostname ∷ ")" ∷ []))
          (some (back_text server))
          true
          a
unfolding offline_alert handle_transition back_text
offline_alert-handle_transition c old server a = ground (arith, back_shown)
  where
    back_shown :
        is_blank
          (concat (server.server_name ∷ ": server back online (" ∷ server.hostname ∷ ")" ∷ []))
        ≡ false
    back_shown =
        is_blank-concat (server.server_name ∷ ": server back online (" ∷ server.hostname ∷ ")" ∷ [])
        ∙ unfold is_blank in ground arith

-- Two keys of one server differ by their alert types.
abbrev Differ : AlertKey → AlertKey → Type 0
Differ a b = (same_key a b ≡ false) × (same_key b a ≡ false)

pub critical-warning :
    (s : Server) → Differ (server_key s "Critical Resource") (server_key s "Resource Warning")
unfolding same_key server_key
critical-warning s = (ground arith, ground arith)

pub critical-offline :
    (s : Server) → Differ (server_key s "Critical Resource") (server_key s "Server Offline")
unfolding same_key server_key
critical-offline s = (ground arith, ground arith)

warning-offline :
    (s : Server) → Differ (server_key s "Resource Warning") (server_key s "Server Offline")
unfolding same_key server_key
warning-offline s = (ground arith, ground arith)

module _ (c : AlertContext) (t : Thresholds) (old new : Server) (resource : Bool)
    (a : Alerting) where
  -- The alerts after the first and after the second of the three transitions.
  unfoldable pub after_critical : Alerting
  after_critical =
      handle_transition c (was_over old t) resource (server_key new "Critical Resource")
        (over_text new t.critical_percent "%") (some (below_text new t.critical_percent)) true a

  unfoldable pub after_warning : Alerting
  after_warning =
      handle_transition c (is_warning_status old.status) (is_warning_status new.status)
        (server_key new "Resource Warning")
        (over_text new t.warning_percent
          (concat ("% for " ∷ decimal t.confirmation_checks ∷ "+ checks" ∷ [])))
        none true after_critical

  pub server_alerts-eq :
      server_alerts c t old new resource a ≡ offline_alert c old.status new after_warning
  unfolding server_alerts after_warning after_critical
  server_alerts-eq = refl

  unfoldable pub ended : Alerting
  ended = server_alerts c t old new resource a

  after_critical_open :
      (j : AlertKey)
      → open_rows j after_critical.log ≡ (
          if same_key (server_key new "Critical Resource") j
          then next_open
              (was_over old t)
              resource
              (open_rows (server_key new "Critical Resource") a.log)
          else open_rows j a.log)
  unfolding after_critical
  after_critical_open =
      open_rows-transition c (server_key new "Critical Resource") _ _ true (was_over old t) resource
        a

  after_warning_open :
      (j : AlertKey)
      → open_rows j after_warning.log ≡ (
          if same_key (server_key new "Resource Warning") j
          then next_open
              (is_warning_status old.status)
              (is_warning_status new.status)
              (open_rows (server_key new "Resource Warning") after_critical.log)
          else open_rows j after_critical.log)
  unfolding after_warning
  after_warning_open =
      open_rows-transition c (server_key new "Resource Warning") _ none true
        (is_warning_status old.status) (is_warning_status new.status) after_critical

  ended_open :
      (j : AlertKey)
      → open_rows j ended.log ≡ (
          if same_key (server_key new "Server Offline") j
          then next_open
              (is_offline old.status)
              (is_offline new.status)
              (open_rows (server_key new "Server Offline") after_warning.log)
          else open_rows j after_warning.log)
  unfolding ended
  ended_open j =
      rw (server_alerts-eq, offline_alert-handle_transition)
        (open_rows-transition c (server_key new "Server Offline") _ (some (back_text new)) true
          (is_offline old.status) (is_offline new.status) after_warning j)

  -- Each of the three incidents makes its own transition, whatever the other two do.
  pub critical_open :
      open_rows (server_key new "Critical Resource") ended.log
      ≡ next_open (was_over old t) resource (open_rows (server_key new "Critical Resource") a.log)
  critical_open = ground (
    arith,
    ended_open (server_key new "Critical Resource"),
    after_warning_open (server_key new "Critical Resource"),
    after_critical_open (server_key new "Critical Resource"),
    same_key_self (server_key new "Critical Resource"),
    critical-warning new,
    critical-offline new,
  )

  pub warning_open :
      open_rows (server_key new "Resource Warning") ended.log
      ≡ next_open
          (is_warning_status old.status)
          (is_warning_status new.status)
          (open_rows (server_key new "Resource Warning") a.log)
  warning_open = ground (
    arith,
    ended_open (server_key new "Resource Warning"),
    after_warning_open (server_key new "Resource Warning"),
    after_critical_open (server_key new "Resource Warning"),
    same_key_self (server_key new "Resource Warning"),
    critical-warning new,
    warning-offline new,
  )

  pub offline_open :
      open_rows (server_key new "Server Offline") ended.log
      ≡ next_open
          (is_offline old.status)
          (is_offline new.status)
          (open_rows (server_key new "Server Offline") a.log)
  offline_open = ground (
    arith,
    ended_open (server_key new "Server Offline"),
    after_warning_open (server_key new "Server Offline"),
    after_critical_open (server_key new "Server Offline"),
    same_key_self (server_key new "Server Offline"),
    critical-offline new,
    warning-offline new,
  )
