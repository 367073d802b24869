-- ===== src/Alerts/Summaries/Tests.antt =====
-- Runs of the digests and of the batch on small inputs.
use alfaedge_pulse.Alerts.Tests.{context, overdue, empty_outbox}
use alfaedge_pulse.Alerts.Summaries.Batch.{
  BatchContext, send_resource_alert_batch, BatchState, window_start, batch_mail, is_eligible,
}
use alfaedge_pulse.Alerts.Dispatch.{
  Alerting, is_member, digest_only_alert_types, batched_resource_alert_types,
}
use alfaedge_pulse.Alerts.Log.{AlertRow, AlertKey, same_key}
use alfaedge_pulse.Alerts.Channels.{Mail, is_cons}
use alfaedge_pulse.Alerts.Summaries.History.{
  is_missed, batch_events, BatchEvent, alert_raised, alert_recovered, batch_ran, alert_closed,
  state_since, batch_events-is_missed,
}
use alfaedge_pulse.Alerts.Summaries.Issues.{
  mail_of_digest, digest_groups, has_issues, send_health_digest_lem, digest_emails,
}
use alfaedge_pulse.Alerts.Summaries.{global_list, is_in_window, rows_between}
use alfaedge_pulse.Alerts.Summaries.Windows.{is_read_by, digest_windows_lem}
use alfaedge_pulse.Alerts.Summaries.Marks.{
  announced, batch_emails, is_due, send_resource_alert_batch_lem,
}
use alfaedge_pulse.Alerts.Recipients.{parse_recipient_list}
use alfaedge_pulse.Common.{
  ℕ, ◌+◌, ◌*◌, ◌/◌, ◌≤◌, String, ◌≡◌, refl, ◌↔◌, ◌⊎◌, true, false, ◌&&◌, ◌||◌, none, some, List, [],
  ◌∷◌, ◌++◌, arith, if◌then◌else◌, any, keep, count,
}
use alfaedge_pulse.Alerts.Summaries.Digest.{
  DigestContext, send_health_digest, morning_window, issue_count, one_day, day_start, midday_window,
  evening_window, evening_hour, one_hour, midday_hour,
}
use alfaedge_pulse.Common.Text.{split_commas, strip, is_blank}
use alfaedge_pulse.Common.Groups.{group_of}
use alfaedge_pulse.Alerts.Log.Laws.{open_rows}

abbrev host_down : AlertKey
host_down = record {
  reference_doctype = "Monitored Host";
  reference_name = "web-1";
  alert_type = "Host Unreachable";
}

abbrev row_at : AlertKey → String → ℕ → AlertRow
row_at k message t = record {
  key = k;
  message = message;
  channels_sent = "";
  sent_at = t;
  resolved = false;
}

-- 13:00 sharp on the second day.
abbrev at_one : ℕ
at_one = 133200000000

abbrev some_log : List AlertRow
some_log =
    row_at host_down "no answer" at_one
    ∷ row_at overdue "no backup" 700
    ∷ row_at host_down "again" 9
    ∷ []

abbrev digest_context : DigestContext
digest_context = record {
  alerts = record context { now = at_one };
  health_digest_template = none;
  service_row = λ name. none;
}

abbrev some_alerts : Alerting
some_alerts = record { log = some_log; out = empty_outbox }

abbrev batch_context : BatchContext
batch_context = record {
  alerts = record context { now = 700 };
  roles = record {
    guest_of_host = λ name. none;
    server_of_guest = λ name. some "alpha";
    role_of_server = λ name. some "Production";
  };
  recurring_to_global = false;
}

abbrev first_row : AlertRow
first_row = row_at host_down "no answer" at_one

host_down_is_digested : is_member "Host Unreachable" digest_only_alert_types ≡ true
unfolding is_member
host_down_is_digested = refl

digest_windows_lem_example :
    ((is_read_by first_row (morning_window at_one) ≡ true)
      ↔ ((at_one / one_day + 1 ≡ at_one / one_day) ⊎ (at_one ≡ day_start at_one)))
    × ((is_read_by first_row (midday_window at_one) || is_read_by first_row (evening_window at_one)
          ≡ true)
        ↔ ((day_start at_one ≤ at_one) × (at_one ≤ day_start at_one + evening_hour * one_hour)))
    × ((is_read_by first_row (midday_window at_one) && is_read_by first_row (evening_window at_one)
          ≡ true)
        ↔ (at_one ≡ day_start at_one + midday_hour * one_hour))
digest_windows_lem_example = digest_windows_lem first_row host_down_is_digested at_one (omega arith)

abbrev groups_of_some : List (AlertKey × List AlertRow)
groups_of_some = digest_groups digest_context 0 at_one "Midday Summary" some_alerts

send_health_digest_lem_example :
    let mail = mail_of_digest digest_context 0 at_one "Midday Summary" some_alerts in
    let a' = send_health_digest digest_context (0, at_one) "Midday Summary" some_alerts in
    (a'.out.mails ≡ (
      if has_issues digest_context 0 at_one "Midday Summary" some_alerts
        && (is_cons (digest_emails digest_context 0 at_one "Midday Summary" some_alerts)
            && context.gateway.sendmail mail)
      then [] ++ mail ∷ []
      else []))
    × (issue_count groups_of_some ≡ count (is_in_window digest_only_alert_types 0 at_one) some_log)
    × ((k : AlertKey)
        → group_of same_key k groups_of_some
          ≡ keep
              (λ row. same_key row.key k)
              (rows_between digest_only_alert_types 0 at_one some_log))
    × (a' ≡ (
        if has_issues digest_context 0 at_one "Midday Summary" some_alerts
        then record some_alerts { out = a'.out }
        else some_alerts))
send_health_digest_lem_example =
    send_health_digest_lem digest_context 0 at_one "Midday Summary" some_alerts

abbrev batch_state : BatchState
batch_state = state_since 600 some_alerts

send_resource_alert_batch_lem_example :
    let b' = send_resource_alert_batch batch_context batch_state in
    let groups = announced batch_context batch_state in
    let mail = batch_mail some_log (batch_emails batch_context) groups in
    (b'.alerting.out.mails ≡ (
      if any (is_due batch_context 600) some_log
        && (is_cons (batch_emails batch_context) && context.gateway.sendmail mail)
      then [] ++ mail ∷ []
      else []))
    × ((k : AlertKey)
        → group_of same_key k groups ≡ (
            if is_eligible batch_context k
            then keep
                (λ row. same_key row.key k)
                (rows_between batched_resource_alert_types 600 700 some_log)
            else []))
    × (b'.last_run ≡ some 700)
    × ((k : AlertKey) → open_rows k b'.alerting.log ≡ open_rows k some_log)
unfolding window_start
send_resource_alert_batch_lem_example = send_resource_alert_batch_lem batch_context batch_state

abbrev some_events : List BatchEvent
some_events =
    alert_raised overdue "no backup" true 710
    ∷ batch_ran 720
    ∷ alert_closed overdue 725
    ∷ alert_recovered overdue "backup done" true 730
    ∷ batch_ran 740
    ∷ []

none_missed_yet : any (is_missed batch_context 600 700) [] ≡ false
none_missed_yet = refl

mails_accepted : (mail : Mail) → context.gateway.sendmail mail ≡ true
mails_accepted mail = refl

has_addresses : is_cons (batch_emails batch_context) ≡ true
unfolding global_list parse_recipient_list split_commas strip is_blank
has_addresses = refl

batch_events-is_missed_example :
    let b' =
      batch_events batch_context some_events
        (state_since 700 (record { log = []; out = empty_outbox })) in
    (b'.last_run ≡ some 740) × (any (is_missed batch_context 600 740) b'.alerting.log ≡ false)
batch_events-is_missed_example =
    batch_events-is_missed batch_context 600 has_addresses mails_accepted some_events 700 700
      (record { log = []; out = empty_outbox }) (omega arith)
      (omega arith, (omega arith, (omega arith, (omega arith, (omega arith, tt))))) none_missed_yet
