-- ===== src/Poller/Server.antt =====
-- tasks/poller.py: `sync_server` and `_apply_host_status`.
-- Percentages are tenths; the other figures are what the client's numbers convert to.
pub mod Alarms
pub mod Spike
pub mod Sync
use alfaedge_pulse.Common.{
  ℕ, ◌+◌, ◌/◌, ◌%◌, max, String, Bool, true, false, not, ◌&&◌, Option, none, some, List, [], ◌∷◌,
  map, ltb, ◌==◌, if◌then◌else◌, keep,
}
use alfaedge_pulse.Common.Text.{join_commas, concat, decimal}
use alfaedge_pulse.Alerts.Dispatch.{AlertContext, Alerting, dispatch_alert, dispatch_recovery}
use alfaedge_pulse.Alerts.Log.{AlertKey, resolve_alert, has_open_alert}
use alfaedge_pulse.Poller.Severity.{Streaks, Thresholds, Severity, track_severity, is_over}
use alfaedge_pulse.Poller.Transition.{handle_transition}

pub data ServerStatus : Type 0 where
  online offline warning critical : ServerStatus

-- A row of `Proxmox Server`, with the fields that a sync reads or writes.
pub record Server : Type 0 where
  pub name : String
  pub server_name : String
  pub hostname : String
  pub is_pbs : Bool
  pub is_production : Bool
  pub status : ServerStatus
  pub last_error : String
  pub last_synced : Option ℕ
  pub is_critical : Bool
  pub backup_critical : Bool
  pub streaks : Streaks
  pub cpu_usage : Option ℕ
  pub memory_usage : ℕ
  pub memory_total : ℕ
  pub swap_usage : Option ℕ
  pub swap_total : Option ℕ
  pub storage_usage : ℕ
  pub storage_total : ℕ
  pub cores : ℕ
  pub uptime : ℕ
  pub load_average : ℕ × ℕ × ℕ

-- The figures of a `/nodes/{node}/status` response; cores and load average may be missing.
pub record HostReading : Type 0 where
  pub cpu : ℕ
  pub memory : ℕ
  pub memory_size : ℕ
  pub swap : Option ℕ
  pub swap_size : Option ℕ
  pub storage : ℕ
  pub storage_size : ℕ
  pub core_count : ℕ
  pub uptime_seconds : ℕ
  pub load : Option (ℕ × ℕ × ℕ)

abbrev pub severity_status : Severity → ServerStatus
severity_status s =
    if s.is_critical
    then ServerStatus.critical
    else if s.is_warning
    then ServerStatus.warning
    else ServerStatus.online

-- poller.py: `_apply_host_status`
pub apply_host_status : Server → HostReading → Thresholds → Server
apply_host_status server r t =
    let (streaks', severity) = track_severity server.streaks (max r.cpu r.memory) t in
    record server {
      cpu_usage = some r.cpu;
      cores = if r.core_count == 0 then server.cores else r.core_count;
      memory_usage = r.memory;
      memory_total = r.memory_size;
      swap_usage = r.swap;
      swap_total = r.swap_size;
      storage_usage = r.storage;
      storage_total = r.storage_size;
      uptime = r.uptime_seconds;
      load_average = elim r.load [ none ↦ server.load_average | some l ↦ l ];
      streaks = streaks';
      is_critical = severity.is_critical;
      status = severity_status severity;
    }

-- `round(value)` of a number of tenths: to the nearest whole, a half to the even one.
pub round_tenths : ℕ → ℕ
round_tenths v =
    let whole = v / 10 in
    let rest = v % 10 in
    if ltb rest 5
    then whole
    else if ltb 5 rest
    then whole + 1
    else if whole % 2 == 0
    then whole
    else whole + 1

metric_text : String × ℕ → String
metric_text (label, value) = concat (label ∷ " " ∷ decimal (round_tenths value) ∷ "%" ∷ [])

-- poller.py: `_format_over_threshold`
pub format_over_threshold : List (String × ℕ) → ℕ → String
unfolding metric_text round_tenths
format_over_threshold metrics threshold =
    join_commas (map metric_text (keep (λ m. is_over m.1 threshold) metrics))

-- What the `try` body leaves: the server, the alerts, and the text of a `ProxmoxAPIError`.
pub record Tried : Type 0 where
  pub server : Server
  pub alerting : Alerting
  pub error : Option String

pub record Synced : Type 0 where
  pub server : Server
  pub alerting : Alerting

abbrev pub is_offline : ServerStatus → Bool
is_offline ServerStatus.offline = true
is_offline _ = false

abbrev pub is_warning_status : ServerStatus → Bool
is_warning_status ServerStatus.warning = true
is_warning_status _ = false

pub server_key : Server → String → AlertKey
server_key server alert_type = record {
  reference_doctype = "Proxmox Server";
  reference_name = server.name;
  alert_type = alert_type;
}

-- The larger of the two stored readings stands at or over the critical line.
unfoldable pub was_over : Server → Thresholds → Bool
was_over server t = elim server.cpu_usage [
  | none ↦ false
  | some cpu ↦ is_over (max cpu server.memory_usage) t.critical_percent
]

-- The `except` clause and the line before it.
pub note_error : Server → Option String → Server
note_error server none = record server { last_error = "" }
note_error server (some e) = record server { status = ServerStatus.offline; last_error = e }

-- The `finally` clause, which saves the server.
pub save_server : ℕ → Server → Server
save_server now server = record server {
  is_critical = if not server.is_pbs && server.backup_critical then true else server.is_critical;
  last_synced = some now;
}

server_metrics : Server → List (String × ℕ)
server_metrics server =
    ("CPU", elim server.cpu_usage [ none ↦ 0 | some v ↦ v ]) ∷ ("RAM", server.memory_usage) ∷ []

pub over_text : Server → ℕ → String → String
over_text server percent suffix = concat (
    server.server_name
    ∷ ": "
    ∷ format_over_threshold (server_metrics server) percent
    ∷ " above "
    ∷ decimal percent
    ∷ suffix
    ∷ [])

pub below_text : Server → ℕ → String
below_text server percent =
    concat (server.server_name ∷ ": CPU/RAM usage back below " ∷ decimal percent ∷ "%" ∷ [])

-- The chain on the status before and after, at the end of `sync_server`.
pub offline_alert : AlertContext → ServerStatus → Server → Alerting → Alerting
offline_alert c old_status server a =
    let key = server_key server "Server Offline" in
    let down =
      concat (server.server_name ∷ ": server unreachable (" ∷ server.hostname ∷ ")" ∷ []) in
    let back =
      concat (server.server_name ∷ ": server back online (" ∷ server.hostname ∷ ")" ∷ []) in
    if not (is_offline old_status) && is_offline server.status
    then dispatch_alert c key down true a
    else if is_offline old_status && not (is_offline server.status)
    then dispatch_recovery c key back true (record a { log = resolve_alert key a.log })
    else if is_offline server.status && not (has_open_alert key a.log)
    then dispatch_alert c key down true a
    else a

-- The alerts of one sync, from the server before and after it and the resource flag without backups.
pub server_alerts : AlertContext → Thresholds → Server → Server → Bool → Alerting → Alerting
server_alerts c t old new new_resource_critical a =
    let after_critical =
      handle_transition c (was_over old t) new_resource_critical
        (server_key new "Critical Resource") (over_text new t.critical_percent "%")
        (some (below_text new t.critical_percent)) true a in
    let after_warning =
      handle_transition c (is_warning_status old.status) (is_warning_status new.status)
        (server_key new "Resource Warning")
        (over_text new t.warning_percent
          (concat ("% for " ∷ decimal t.confirmation_checks ∷ "+ checks" ∷ [])))
        none true after_critical in
    offline_alert c old.status new after_warning

-- poller.py: `sync_server`; `body` is what the `try` block does to the server and the alerts.
pub sync_server :
    AlertContext → Thresholds → (Server → Alerting → Tried) → Server → Alerting → Synced
unfolding note_error save_server server_alerts offline_alert was_over over_text below_text
    server_key server_metrics
sync_server c t body server a =
    let tried = body server a in
    let noted = note_error tried.server tried.error in
    let saved = save_server c.now noted in
    record {
      server = saved;
      alerting = server_alerts c t server saved noted.is_critical tried.alerting;
    }
