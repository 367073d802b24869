-- ===== src/Poller/Server/Spike.antt =====
-- The rows of "Critical Resource" after a sync that takes a server for recovered.
use alfaedge_pulse.Common.Text.{or_empty}
use alfaedge_pulse.Alerts.Log.{AlertKey, AlertRow, same_key, resolve_row}
use alfaedge_pulse.Alerts.Dispatch.{dispatch_alert, log_row}
use alfaedge_pulse.Alerts.Dispatch.Laws.{log-dispatch_alert, log-dispatch_recovery}
use alfaedge_pulse.Common.{
  ℕ, ◌+◌, String, ◌≡◌, refl, ap, ◌∙◌, Bool, true, false, ◌&&◌, Option, none, some, List, [], ◌∷◌,
  arith, str_eq, eq_refl, if◌then◌else◌, count, count-append,
}
use mathlib.Core.Path.{ap₂}
use alfaedge_pulse.Alerts.Dispatch.{AlertContext, Alerting, dispatch_recovery}
use alfaedge_pulse.Poller.Severity.{Thresholds}
use alfaedge_pulse.Poller.Server.{
  Server, below_text, was_over, server_key, is_warning_status, over_text, is_offline,
}
use alfaedge_pulse.Poller.Server.Alarms.{
  ended, after_critical, after_warning, server_alerts-eq, offline_alert-handle_transition,
  critical-warning, back_text, critical-offline,
}
use alfaedge_pulse.Common.Text.{is_blank, is_blank-concat, decimal}
use alfaedge_pulse.Alerts.Log.Laws.{key_rows, key_rows-resolve, same_key_self}
use alfaedge_pulse.Alerts.Log.{resolve_alert}
use alfaedge_pulse.Alerts.Dispatch.Laws.{key_rows-dispatch_recovery}
use alfaedge_pulse.Poller.Transition.Incidents.{key_rows-transition_other, transition_recovers}
use alfaedge_pulse.Poller.Transition.{handle_transition}

-- The number of rows of an incident with this message, open or not.
abbrev pub message_rows : AlertKey → String → List AlertRow → ℕ
message_rows k m log = count (λ row. same_key k row.key && str_eq row.message m) log

message_rows-resolve :
    (k j : AlertKey) (m : String) (log : List AlertRow)
    → message_rows j m (resolve_alert k log) ≡ message_rows j m log
unfolding resolve_alert resolve_row
message_rows-resolve k j m [] = refl
message_rows-resolve k j m (row ∷ log) = ground (arith, message_rows-resolve k j m log)

message_rows-dispatch_alert :
    (c : AlertContext) (k : AlertKey) (message : String) (notify : Bool) (a : Alerting)
    (j : AlertKey) (m : String)
    → same_key j k ≡ false
    → message_rows j m (dispatch_alert c k message notify a).log ≡ message_rows j m a.log
unfolding log_row
message_rows-dispatch_alert c k message notify a j m other =
    rw (log-dispatch_alert, count-append) (ground (arith, other))

message_rows-dispatch_recovery :
    (c : AlertContext) (k : AlertKey) (message : String) (notify : Bool) (a : Alerting)
    (j : AlertKey) (m : String)
    → message_rows j m (dispatch_recovery c k message notify a).log
      ≡ message_rows j m a.log + (if same_key j k && str_eq message m then 1 else 0)
unfolding log_row
message_rows-dispatch_recovery c k message notify a j m =
    rw (log-dispatch_recovery, count-append) (ground arith)

message_rows-transition_other :
    (c : AlertContext) (k : AlertKey) (message : String) (recovery : Option String)
    (notify was is : Bool) (a : Alerting) (j : AlertKey) (m : String)
    → same_key j k ≡ false
    → message_rows j m (handle_transition c was is k message recovery notify a).log
      ≡ message_rows j m a.log
unfolding handle_transition
message_rows-transition_other c k message recovery notify was is a j m other = ground (
  arith,
  message_rows-dispatch_alert c k message notify a j m other,
  message_rows-dispatch_recovery c k (or_empty recovery) notify
      (record a { log = resolve_alert k a.log }) j m,
  other,
  message_rows-resolve k j m a.log,
)

module _ (c : AlertContext) (t : Thresholds) (old new : Server) (resource : Bool)
    (a : Alerting) where
  after_warning_rows :
      key_rows (server_key new "Critical Resource") (after_warning c t old new resource a).log
      ≡ key_rows (server_key new "Critical Resource") (after_critical c t old new resource a).log
  unfolding after_warning
  after_warning_rows =
      key_rows-transition_other c (server_key new "Resource Warning") _ none true
        (is_warning_status old.status) (is_warning_status new.status)
        (after_critical c t old new resource a) (server_key new "Critical Resource")
        (critical-warning new).0

  ended_rows :
      key_rows (server_key new "Critical Resource") (ended c t old new resource a).log
      ≡ key_rows (server_key new "Critical Resource") (after_warning c t old new resource a).log
  unfolding ended
  ended_rows =
      rw (server_alerts-eq c t old new resource a, offline_alert-handle_transition)
        (key_rows-transition_other c (server_key new "Server Offline") _ (some (back_text new)) true
          (is_offline old.status) (is_offline new.status) (after_warning c t old new resource a)
          (server_key new "Critical Resource") (critical-offline new).0)

  below_shown : is_blank (below_text new t.critical_percent) ≡ false
  unfolding below_text
  below_shown =
      is_blank-concat
        (new.server_name ∷ ": CPU/RAM usage back below " ∷ decimal t.critical_percent ∷ "%" ∷ [])
      ∙ unfold is_blank in ground arith

  recovery_sent :
      was_over old t ≡ true
      → resource ≡ false
      → (after_critical c t old new resource a)
        ≡ dispatch_recovery c
            (server_key new "Critical Resource")
            (below_text new t.critical_percent)
            true
            (record { log = resolve_alert (server_key new "Critical Resource") a.log; out = a.out })
  unfolding after_critical
  recovery_sent was off =
      ap₂
        (λ w r.
          handle_transition c w r (server_key new "Critical Resource")
            (over_text new t.critical_percent "%") (some (below_text new t.critical_percent)) true
            a)
        was off
      ∙ transition_recovers c (server_key new "Critical Resource") _
          (below_text new t.critical_percent) true a below_shown

  -- The line was passed before and the flag is off now: a recovery is announced.
  pub spike_rows :
      was_over old t ≡ true
      → resource ≡ false
      → key_rows (server_key new "Critical Resource") (ended c t old new resource a).log
        ≡ key_rows (server_key new "Critical Resource") a.log + 1
  spike_rows was off = ground (
    arith,
    ended_rows,
    after_warning_rows,
    ap (λ (b : Alerting). key_rows (server_key new "Critical Resource") b.log)
        (recovery_sent was off),
    key_rows-dispatch_recovery c (server_key new "Critical Resource")
        (below_text new t.critical_percent) true
        (record { log = resolve_alert (server_key new "Critical Resource") a.log; out = a.out })
        (server_key new "Critical Resource"),
    key_rows-resolve (server_key new "Critical Resource") (server_key new "Critical Resource")
        a.log,
    same_key_self (server_key new "Critical Resource"),
  )

  after_warning_messages :
      (m : String)
      → message_rows
          (server_key new "Critical Resource")
          m
          (after_warning c t old new resource a).log
        ≡ message_rows
            (server_key new "Critical Resource")
            m
            (after_critical c t old new resource a).log
  unfolding after_warning
  after_warning_messages m =
      message_rows-transition_other c (server_key new "Resource Warning") _ none true
        (is_warning_status old.status) (is_warning_status new.status)
        (after_critical c t old new resource a) (server_key new "Critical Resource") m
        (critical-warning new).0

  ended_messages :
      (m : String)
      → message_rows (server_key new "Critical Resource") m (ended c t old new resource a).log
        ≡ message_rows
            (server_key new "Critical Resource")
            m
            (after_warning c t old new resource a).log
  unfolding ended
  ended_messages m =
      rw (server_alerts-eq c t old new resource a, offline_alert-handle_transition)
        (message_rows-transition_other c (server_key new "Server Offline") _ (some (back_text new))
          true (is_offline old.status) (is_offline new.status)
          (after_warning c t old new resource a) (server_key new "Critical Resource") m
          (critical-offline new).0)

  -- The row that a recovery adds says that usage is back below the line.
  pub spike_messages :
      was_over old t ≡ true
      → resource ≡ false
      → let text = below_text new t.critical_percent in
        message_rows (server_key new "Critical Resource") text (ended c t old new resource a).log
        ≡ message_rows (server_key new "Critical Resource") text a.log + 1
  spike_messages was off =
      let text = below_text new t.critical_percent in
      let key = server_key new "Critical Resource" in
      ground (
        arith,
        ended_messages text,
        after_warning_messages text,
        ap (λ (b : Alerting). message_rows key text b.log) (recovery_sent was off),
        message_rows-dispatch_recovery c key text true
            (record { log = resolve_alert key a.log; out = a.out }) key text,
        message_rows-resolve key key text a.log,
        same_key_self key,
        eq_refl text,
      )
