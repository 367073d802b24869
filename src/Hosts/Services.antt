-- ===== src/Hosts/Services.antt =====
-- host_health/ingest.py: `_upsert_service`, over the rows of `Service Status Log`.
pub mod Alarms
use alfaedge_pulse.Common.{
  ℕ, ◌+◌, String, Bool, false, not, ◌&&◌, Option, none, some, List, [], ◌∷◌, str_eq, leb,
  if◌then◌else◌,
}
use alfaedge_pulse.Alerts.Dispatch.{AlertContext, Alerting, is_member}
use alfaedge_pulse.Alerts.Channels.{is_set}
use alfaedge_pulse.Alerts.Log.{AlertKey}
use alfaedge_pulse.Common.Text.{or_empty, concat}
use alfaedge_pulse.Common.Tables.{first_that, upsert}
use alfaedge_pulse.Poller.Transition.{handle_transition}

-- A row of `Service Status Log`.
pub record ServiceLog : Type 0 where
  pub name : String
  pub monitored_host : String
  pub service_name : String
  pub unit_name : String
  pub current_state : String
  pub is_down : Bool
  pub down_streak : ℕ
  pub last_checked : ℕ
  pub last_state_change : ℕ

-- A service of a report; a missing field is none.
pub record ServiceReport : Type 0 where
  pub unit_name : Option String
  pub service_name : Option String
  pub current_state : Option String

-- `row.get("current_state") or "unknown"`, and "unknown" for a state that is not listed.
pub known_state : Option String → String
known_state state =
    let s = if is_set state then or_empty state else "unknown" in
    if is_member s
      ("active" ∷ "inactive" ∷ "failed" ∷ "activating" ∷ "deactivating" ∷ "unknown" ∷ [])
    then s
    else "unknown"

pub reported_name : ServiceReport → String
reported_name row =
    if is_set row.service_name then or_empty row.service_name else or_empty row.unit_name

pub is_service : String → String → ServiceLog → Bool
is_service host service log = str_eq log.monitored_host host && str_eq log.service_name service

pub old_streak : Option ServiceLog → ℕ
old_streak none = 0
old_streak (some e) = e.down_streak

unfoldable pub was_down : Option ServiceLog → Bool
was_down none = false
was_down (some e) = e.is_down

-- The time of the last change of state, and the name of a row that is new.
state_change : ℕ → String → Option ServiceLog → ℕ
state_change now state none = now
state_change now state (some e) = if str_eq e.current_state state then e.last_state_change else now

pub log_name : String → Option ServiceLog → String
log_name new_name none = new_name
log_name new_name (some e) = e.name

-- The row that is written for a report.
pub next_service : ℕ → ℕ → String → String → ServiceReport → Option ServiceLog → ServiceLog
unfolding old_streak state_change log_name known_state reported_name
next_service now checks new_name host row existing =
    let state = known_state row.current_state in
    let streak = if str_eq state "active" then 0 else old_streak existing + 1 in
    record {
      name = log_name new_name existing;
      monitored_host = host;
      service_name = reported_name row;
      unit_name = or_empty row.unit_name;
      current_state = state;
      is_down = leb checks streak;
      down_streak = streak;
      last_checked = now;
      last_state_change = state_change now state existing;
    }

unfoldable pub service_key : String → AlertKey
service_key name = record {
  reference_doctype = "Service Status Log";
  reference_name = name;
  alert_type = "Service Down";
}

service_text : String → ServiceLog → String → String
service_text host log ending =
    concat (host ∷ ": service '" ∷ log.service_name ∷ "' is " ∷ ending ∷ [])

-- The services and the alerts.
pub record Services : Type 0 where
  pub logs : List ServiceLog
  pub alerting : Alerting

-- ingest.py: `_upsert_service`, none where it raises; a row that is new gets the name `new_name`.
unfoldable pub upsert_service :
    AlertContext → ℕ → Bool → String → String → ServiceReport → Services → Option Services
unfolding is_service was_down service_key service_text next_service
upsert_service c checks notify_global new_name host row s =
    let same = is_service host (reported_name row) in
    let existing = first_that same s.logs in
    let log = next_service c.now checks new_name host row existing in
    if not (is_set row.unit_name)
    then none
    else some (record {
      logs = upsert same (next_service c.now checks new_name host row) s.logs;
      alerting =
          handle_transition c (was_down existing) log.is_down (service_key log.name)
            (service_text host log (concat ("down (" ∷ log.current_state ∷ ")." ∷ [])))
            (some (service_text host log "back up.")) notify_global s.alerting;
    })
