-- ===== src/Alerts/Summaries/Digest.antt =====
-- alerts/digest.py: the three daily summaries of the host alerts that are not sent at once.
use alfaedge_pulse.Common.{
  ℕ, suc, ◌+◌, ◌-◌, ◌*◌, ◌%◌, String, Bool, ◌&&◌, Option, none, some, List, [], ◌∷◌, map, str_eq,
  ◌==◌, if◌then◌else◌, length, any,
}
use alfaedge_pulse.Alerts.Log.{AlertRow, AlertKey}
use alfaedge_pulse.Alerts.Dispatch.{Alerting, AlertContext, digest_only_alert_types, template_of}
use alfaedge_pulse.Common.Text.{concat, decimal, or_empty}
use alfaedge_pulse.Alerts.Channels.{Mail, Outbox, is_cons, is_set, send_whatsapp}
use alfaedge_pulse.Alerts.Summaries.{
  rows_between, global_list, send_summary, alert_groups, open_label, last_message,
}
use alfaedge_pulse.Common.Names.{join_with}

-- What a digest reads beside the log: the settings, its own template, and the row of
-- `Service Status Log` with a name, as its host and its service.
pub record DigestContext : Type 0 where
  pub alerts : AlertContext
  pub health_digest_template : Option String
  pub service_row : String → Option (String × String)

abbrev pub one_hour : ℕ
one_hour = 3600000000

abbrev pub one_day : ℕ
one_day = 86400000000

abbrev pub midday_hour : ℕ
midday_hour = 13

abbrev pub evening_hour : ℕ
evening_hour = 20

-- digest.py: `_day_start`
unfoldable pub day_start : ℕ → ℕ
day_start now = now - now % one_day

-- The windows of the three digests that run at a time.
unfoldable pub morning_window : ℕ → ℕ × ℕ
morning_window now = (day_start now - one_day, day_start now)

unfoldable pub midday_window : ℕ → ℕ × ℕ
midday_window now = (day_start now, day_start now + midday_hour * one_hour)

unfoldable pub evening_window : ℕ → ℕ × ℕ
evening_window now =
    (day_start now + midday_hour * one_hour, day_start now + evening_hour * one_hour)

-- digest.py: `_resolve_host_label`
pub resolve_host_label : (String → Option (String × String)) → AlertKey → String
resolve_host_label service_row k =
    if str_eq k.reference_doctype "Service Status Log"
    then (elim (service_row k.reference_name) [
      | none ↦ k.reference_name
      | some (host, service) ↦ concat (host ∷ " (" ∷ service ∷ ")" ∷ [])
    ])
    else k.reference_name

-- One entry of `section_by_key`.
pub digest_section : DigestContext → List AlertRow → AlertKey × List AlertRow → String
digest_section c log (k, rows) = concat (
    k.alert_type
    ∷ " — "
    ∷ resolve_host_label c.service_row k
    ∷ ": "
    ∷ decimal (length rows)
    ∷ " occurrence"
    ∷ (if length rows == 1 then "" else "s")
    ∷ " ("
    ∷ open_label k log
    ∷ ")\n   latest: "
    ∷ last_message rows
    ∷ [])

-- digest.py: `_issue_count`, over all keys.
unfoldable pub issue_count : List (AlertKey × List AlertRow) → ℕ
issue_count [] = 0
issue_count ((k, rows) ∷ groups) = length rows + issue_count groups

unfoldable pub same_host : AlertKey → AlertKey → Bool
same_host a b =
    str_eq a.reference_doctype b.reference_doctype && str_eq a.reference_name b.reference_name

-- digest.py: `_host_count`, over all keys: the size of the set of doctypes and names.
unfoldable pub host_count : List (AlertKey × List AlertRow) → ℕ
host_count [] = 0
host_count ((k, rows) ∷ groups) =
    let rest = host_count groups in if any (λ g. same_host k g.0) groups then rest else suc rest

pub counts_text : List (AlertKey × List AlertRow) → String
counts_text groups = concat (
    decimal (issue_count groups)
    ∷ " health issue(s) across "
    ∷ decimal (host_count groups)
    ∷ " host(s)"
    ∷ [])

pub digest_mail :
    DigestContext → List AlertRow → String → List String → List (AlertKey × List AlertRow) → Mail
digest_mail c log label to groups = record {
  mail_recipients = to;
  subject = concat ("alfaEdge Pulse — Host Health " ∷ label ∷ []);
  body = concat (
      label
      ∷ "\n"
      ∷ counts_text groups
      ∷ ":\n\n"
      ∷ join_with "\n\n" (map (digest_section c log) groups)
      ∷ []);
}

-- The WhatsApp part, with a text of one line.
unfoldable pub digest_text :
    DigestContext → String → List (AlertKey × List AlertRow) → Outbox → Outbox
digest_text c label groups out =
    let s = c.alerts.settings in
    let numbers = global_list s.enable_whatsapp_alerts s.whatsapp_recipients in
    let template_name = template_of c.alerts.gateway c.health_digest_template in
    if is_set template_name && is_cons numbers
    then (send_whatsapp c.alerts.gateway numbers (or_empty template_name)
        (concat (label ∷ ": " ∷ counts_text groups ∷ "." ∷ [])) out).1
    else out

-- The two channels of `_send_health_digest`, for the groups of its rows.
unfoldable pub send_digest :
    DigestContext → List AlertRow → String → List (AlertKey × List AlertRow) → Outbox → Outbox
send_digest c log label groups out =
    let s = c.alerts.settings in
    let emails = global_list s.enable_email_alerts s.email_recipients in
    let mailed =
      if is_cons emails
      then (send_summary c.alerts.gateway (digest_mail c log label emails groups)
          "alfaEdge Pulse: health digest email failed" out).1
      else out in
    digest_text c label groups mailed

-- digest.py: `_send_health_digest`
unfoldable pub send_health_digest : DigestContext → ℕ × ℕ → String → Alerting → Alerting
send_health_digest c (start, stop) label a =
    let rows = rows_between digest_only_alert_types start stop a.log in
    if is_cons rows
    then record a { out = send_digest c a.log label (alert_groups rows) a.out }
    else a

pub send_health_digest_morning : DigestContext → Alerting → Alerting
send_health_digest_morning c a =
    send_health_digest c (morning_window c.alerts.now) "Previous Day Summary" a

pub send_health_digest_midday : DigestContext → Alerting → Alerting
send_health_digest_midday c a = send_health_digest c (midday_window c.alerts.now) "Midday Summary" a

pub send_health_digest_evening : DigestContext → Alerting → Alerting
send_health_digest_evening c a =
    send_health_digest c (evening_window c.alerts.now) "Evening Summary" a
