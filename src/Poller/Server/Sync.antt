-- ===== src/Poller/Server/Sync.antt =====
-- `sync_server` as a whole: the incidents that follow the state of the server, and the two that
-- "Critical Resource" raises or clears beside the readings.
use alfaedge_pulse.Poller.Server.{below_text}
use alfaedge_pulse.Poller.Server.Spike.{message_rows, spike_messages}
use alfaedge_pulse.Common.Text.{concat, decimal}
use alfaedge_pulse.Common.{
  ℕ, ◌+◌, ◌<◌, max, String, ◌≡◌, refl, ap, ◌∙◌, true, false, Option, none, some, [], ◌∷◌, arith,
}
use alfaedge_pulse.Poller.Server.{
  server_key, HostReading, sync_server, save_server, Server, note_error, was_over, Tried,
  apply_host_status, is_offline, is_warning_status, server_alerts,
}
use alfaedge_pulse.Poller.Server.Alarms.{ended, critical_open, offline_open, warning_open}
use alfaedge_pulse.Poller.Severity.{Thresholds, is_over, track_severity}
use alfaedge_pulse.Alerts.Dispatch.{AlertContext, Alerting}
use alfaedge_pulse.Alerts.Log.Laws.{open_rows, key_rows}
use alfaedge_pulse.Poller.Transition.Incidents.{number}
use alfaedge_pulse.Poller.Server.Spike.{spike_rows}

note_error_key :
    (s : Server) (e : Option String) (now : ℕ) (t : String)
    → server_key (save_server now (note_error s e)) t ≡ server_key s t
unfolding server_key save_server note_error
note_error_key s none now t = refl
note_error_key s (some e) now t = refl

-- The `try` body of a sync that reads the host's status and nothing else.
abbrev pub read_host : HostReading → Thresholds → Server → Alerting → Tried
read_host r t server a = record {
  server = apply_host_status server r t;
  alerting = a;
  error = none;
}

-- A sync whose `try` body stored the reading of the host and did nothing else. The stored reading
-- and the new one both stand at or over the critical line, and the streak has not reached the
-- confirmation count: the log gets one more row for "Critical Resource", which says that usage is
-- back below the line, and no row for it is open.
pub sync_server_spike :
    (c : AlertContext) (t : Thresholds) (r : HostReading) (server : Server) (a : Alerting)
    → was_over server t ≡ true
    → is_over (max r.cpu r.memory) t.critical_percent ≡ true
    → server.streaks.critical_streak + 1 < t.confirmation_checks
    → let key = server_key server "Critical Resource" in
      let synced = sync_server c t (read_host r t) server a in
      let text = concat (
        server.server_name
        ∷ ": CPU/RAM usage back below "
        ∷ decimal t.critical_percent
        ∷ "%"
        ∷ []) in
      (message_rows key text synced.alerting.log ≡ message_rows key text a.log + 1)
      × (key_rows key synced.alerting.log ≡ key_rows key a.log + 1)
      × (open_rows key synced.alerting.log ≡ 0)
unfolding sync_server ended below_text
sync_server_spike c t r server a was over early =
    let saved = save_server c.now (note_error (apply_host_status server r t) none) in
    let off : (track_severity server.streaks (max r.cpu r.memory) t).1.is_critical ≡ false =
      unfold track_severity in ground (arith, over) in
    (
      unfold apply_host_status below_text in spike_messages c t server saved _ a was off,
      unfold apply_host_status in spike_rows c t server saved _ a was off,
      unfold apply_host_status in critical_open c t server saved _ a ∙ ground (arith, was, off),
    )

-- One sync, whatever the `try` body did: if the body left one open "Server Offline" alert exactly
-- if the server was offline before, there is one exactly if it is offline now; and so for
-- "Resource Warning" and the status Warning.
pub sync_server_lem :
    (c : AlertContext) (t : Thresholds) (body : Server → Alerting → Tried) (server : Server)
    (a : Alerting)
    → let tried = body server a in
      open_rows (server_key tried.server "Server Offline") tried.alerting.log
        ≡ number (is_offline server.status)
      → open_rows (server_key tried.server "Resource Warning") tried.alerting.log
        ≡ number (is_warning_status server.status)
      → let synced = sync_server c t body server a in
        (open_rows (server_key tried.server "Server Offline") synced.alerting.log
          ≡ number (is_offline synced.server.status))
        × (open_rows (server_key tried.server "Resource Warning") synced.alerting.log
            ≡ number (is_warning_status synced.server.status))
unfolding sync_server ended
sync_server_lem c t body server a offline_before warning_before =
    let tried = body server a in
    let noted = note_error tried.server tried.error in
    let saved = save_server c.now noted in
    let final = server_alerts c t server saved noted.is_critical tried.alerting in
    let same = note_error_key tried.server tried.error c.now in
    (
      ground (
        arith,
        ap (λ k. open_rows k tried.alerting.log) (same "Server Offline"),
        ap (λ k. open_rows k final.log) (same "Server Offline"),
        offline_open c t server saved noted.is_critical tried.alerting,
      ),
      ground (
        arith,
        ap (λ k. open_rows k tried.alerting.log) (same "Resource Warning"),
        ap (λ k. open_rows k final.log) (same "Resource Warning"),
        warning_open c t server saved noted.is_critical tried.alerting,
      ),
    )

-- A server that was saved as critical because of its backups and is now unreachable, with stored
-- readings below the critical line and no open "Critical Resource" alert, gets one.
pub sync_server_unreachable :
    (c : AlertContext) (t : Thresholds) (e : String) (server : Server) (a : Alerting)
    → server.is_critical ≡ true
    → was_over server t ≡ false
    → open_rows (server_key server "Critical Resource") a.log ≡ 0
    → let synced =
        sync_server c t (λ s b. record { server = s; alerting = b; error = some e }) server a in
      open_rows (server_key server "Critical Resource") synced.alerting.log ≡ 1
unfolding sync_server ended
sync_server_unreachable c t e server a flagged below none_open =
    critical_open c t server (save_server c.now (note_error server (some e))) server.is_critical a
    ∙ ground (arith, flagged, below, none_open)
