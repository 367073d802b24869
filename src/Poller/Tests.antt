-- ===== src/Poller/Tests.antt =====
-- Runs of the poller's code on small inputs.
use alfaedge_pulse.Poller.Server.Spike.{message_rows}
use alfaedge_pulse.Common.Text.{concat, decimal}
use alfaedge_pulse.Common.{
  ◌+◌, ◌-◌, ◌*◌, ◌≡◌, refl, Bool, true, false, not, ◌&&◌, none, some, List, [], ◌∷◌, arith, All,
}
use alfaedge_pulse.Alerts.Dispatch.{AlertContext, Alerting}
use alfaedge_pulse.Alerts.Channels.{AlertSettings, Gateway}
use alfaedge_pulse.Alerts.Log.{AlertKey, has_open_alert}
use alfaedge_pulse.Poller.Severity.{Thresholds, track_severity, is_over}
use alfaedge_pulse.Alerts.Log.Laws.{open_rows, key_rows}
use alfaedge_pulse.Poller.Severity.Confirmed.{
  severity_of, is_confirmed, polled, severity_of-is_confirmed,
}
use alfaedge_pulse.Poller.Transition.Incidents.{follow, follow_lem, number}
use alfaedge_pulse.Common.Text.{is_blank}
use alfaedge_pulse.Poller.Server.{
  HostReading, sync_server, Server, was_over, ServerStatus, server_key, Tried, is_offline,
  is_warning_status,
}
use alfaedge_pulse.Poller.Stall.{ServerSync}
use alfaedge_pulse.Poller.Backups.{overdue_key, BackupGuest, check_guest_backups, is_overdue, hour}
use alfaedge_pulse.Poller.Server.Sync.{
  sync_server_unreachable, read_host, sync_server_spike, sync_server_lem,
}
use alfaedge_pulse.Poller.Backups.Overdue.{check_guest_backups_lem}

abbrev gateway : Gateway
gateway = record {
  sendmail = λ mail. false;
  insert_message = λ doc. false;
  whatsapp_installed = false;
  template_exists = λ name. false;
  template_named = λ name. none;
  json_body = λ message. message;
}

abbrev settings : AlertSettings
settings = record {
  enable_email_alerts = false;
  email_recipients = none;
  enable_whatsapp_alerts = false;
  whatsapp_recipients = none;
  whatsapp_template = none;
  whatsapp_recovery_template = none;
}

abbrev pub context : AlertContext
context = record { gateway = gateway; settings = settings; now = 7 }

abbrev pub empty_alerting : Alerting
empty_alerting = record { log = []; out = record { mails = []; messages = []; errors = [] } }

abbrev full_disk : AlertKey
full_disk = record {
  reference_doctype = "Proxmox Datastore";
  reference_name = "alpha-local";
  alert_type = "Critical Resource";
}

abbrev pub limits : Thresholds
limits = record { warning_percent = 85; critical_percent = 95; confirmation_checks = 3 }

third_reading : (severity_of limits 970 (960 ∷ 950 ∷ 500 ∷ [])).is_critical ≡ true
unfolding severity_of polled track_severity
third_reading = refl

severity_of-is_confirmed_example :
    let critical = is_confirmed 3 95 (970 ∷ 960 ∷ 950 ∷ []) in
    let warning = is_confirmed 3 85 (970 ∷ 960 ∷ 950 ∷ []) in
    ((severity_of limits 970 (960 ∷ 950 ∷ [])).is_critical ≡ critical)
    × ((severity_of limits 970 (960 ∷ 950 ∷ [])).is_warning ≡ (warning && not critical))
severity_of-is_confirmed_example = severity_of-is_confirmed limits 970 (960 ∷ 950 ∷ [])

abbrev two_incidents : List Bool
two_incidents = true ∷ true ∷ false ∷ true ∷ []

follow_lem_example :
    let a = follow context full_disk "full" (some "ok") true false two_incidents empty_alerting in
    (open_rows full_disk a.log ≡ 1) × (key_rows full_disk a.log ≡ 3)
unfolding is_blank
follow_lem_example =
    follow_lem context full_disk "full" (some "ok") true false two_incidents empty_alerting refl

abbrev pub host : Server
host = record {
  name = "alpha";
  server_name = "Alpha";
  hostname = "10.0.0.1";
  is_pbs = false;
  is_production = true;
  status = ServerStatus.online;
  last_error = "";
  last_synced = none;
  is_critical = false;
  backup_critical = false;
  streaks = record { critical_streak = 0; warning_streak = 0 };
  cpu_usage = some 960;
  memory_usage = 400;
  memory_total = 64;
  swap_usage = none;
  swap_total = none;
  storage_usage = 300;
  storage_total = 900;
  cores = 8;
  uptime = 100;
  load_average = (1, 1, 1);
}

abbrev hot : HostReading
hot = record {
  cpu = 970;
  memory = 410;
  memory_size = 64;
  swap = none;
  swap_size = none;
  storage = 300;
  storage_size = 900;
  core_count = 8;
  uptime_seconds = 120;
  load = none;
}

sync_server_spike_example :
    let key = server_key host "Critical Resource" in
    let synced = sync_server context limits (read_host hot limits) host empty_alerting in
    let text = concat (
      host.server_name
      ∷ ": CPU/RAM usage back below "
      ∷ decimal limits.critical_percent
      ∷ "%"
      ∷ []) in
    (message_rows key text synced.alerting.log ≡ message_rows key text empty_alerting.log + 1)
    × (key_rows key synced.alerting.log ≡ key_rows key empty_alerting.log + 1)
    × (open_rows key synced.alerting.log ≡ 0)
unfolding was_over is_over
sync_server_spike_example =
    sync_server_spike context limits hot host empty_alerting refl refl (omega arith)

-- The Proxmox API does not answer.
abbrev no_answer : Server → Alerting → Tried
no_answer s a = record { server = s; alerting = a; error = some "timeout" }

sync_server_lem_example :
    let synced = sync_server context limits no_answer host empty_alerting in
    (open_rows (server_key host "Server Offline") synced.alerting.log
      ≡ number (is_offline synced.server.status))
    × (open_rows (server_key host "Resource Warning") synced.alerting.log
        ≡ number (is_warning_status synced.server.status))
sync_server_lem_example = sync_server_lem context limits no_answer host empty_alerting refl refl

abbrev late_backup : Server
late_backup = record host { is_critical = true; backup_critical = true; cpu_usage = some 100 }

sync_server_unreachable_example :
    let synced =
      sync_server context limits
        (λ s b. record { server = s; alerting = b; error = some "down" })
        late_backup
        empty_alerting in
    open_rows (server_key late_backup "Critical Resource") synced.alerting.log ≡ 1
unfolding was_over is_over
sync_server_unreachable_example =
    sync_server_unreachable context limits "down" late_backup empty_alerting refl refl refl

abbrev idle_server : ServerSync
idle_server = record { enabled = true; synced_at = none }

abbrev guest : BackupGuest
guest = record {
  name = "alpha-100";
  guest_name = "web";
  vmid = 100;
  is_running = true;
  tags = none;
  creation = 0;
  last_successful_backup = none;
}

check_guest_backups_lem_example :
    All
      (λ g.
        has_open_alert
          (overdue_key g)
          (check_guest_backups context (λ t. "then") 48 host (guest ∷ []) empty_alerting).log
        ≡ is_overdue (context.now - 48 * hour) g)
      (guest ∷ [])
check_guest_backups_lem_example =
    check_guest_backups_lem context (λ t. "then") 48 host (guest ∷ []) empty_alerting (omega arith)
      (tt, tt)
