-- ===== src/Alerts/Summaries/Batch.antt =====
-- alerts/resource_batch.py: the batch of every two minutes, and its marker of the last run.
use alfaedge_pulse.Common.{
  ℕ, ◌-◌, String, Bool, false, ◌&&◌, ◌||◌, Option, none, some, List, [], ◌∷◌, ◌++◌, map, str_eq,
  ltb, if◌then◌else◌, length, keep,
}
use alfaedge_pulse.Alerts.Summaries.{
  rows_between, global_list, alert_groups, send_summary, open_label, is_in_window, last_message,
}
use alfaedge_pulse.Alerts.Dispatch.{
  AlertContext, Alerting, batched_resource_alert_types, template_of,
}
use alfaedge_pulse.Alerts.Channels.{is_set, Mail, Outbox, is_cons, send_whatsapp}
use alfaedge_pulse.Alerts.Log.{AlertRow, AlertKey}
use alfaedge_pulse.Common.Text.{concat, or_empty, decimal, join_commas}
use alfaedge_pulse.Common.Names.{join_with, sort_texts}

-- The links and roles that the batch looks up in the database.
pub record RoleTables : Type 0 where
  pub guest_of_host : String → Option String
  pub server_of_guest : String → Option String
  pub role_of_server : String → Option String

-- What a run reads beside the log; `recurring_to_global` is the field `notify_global_recipients`.
pub record BatchContext : Type 0 where
  pub alerts : AlertContext
  pub roles : RoleTables
  pub recurring_to_global : Bool

-- The alerts, and the time under the cache key of the last run.
pub record BatchState : Type 0 where
  pub alerting : Alerting
  pub last_run : Option ℕ

-- `_MAX_LOOKBACK_MINUTES`, in microseconds.
abbrev pub max_lookback : ℕ
max_lookback = 600000000

-- resource_batch.py: `_guest_role`
unfoldable pub guest_role : RoleTables → String → Option String
guest_role t guest =
    let server = t.server_of_guest guest in
    if is_set server then t.role_of_server (or_empty server) else none

-- monitored_host.py: `get_host_role`
unfoldable pub get_host_role : RoleTables → String → Option String
get_host_role t host =
    let guest = t.guest_of_host host in if is_set guest then guest_role t (or_empty guest) else none

unfoldable pub is_production_role : Option String → Bool
is_production_role none = false
is_production_role (some role) = str_eq role "Production"

-- The three tests under which a key is added to `global_eligible`.
unfoldable pub is_eligible : BatchContext → AlertKey → Bool
is_eligible c k =
    str_eq k.reference_doctype "Monitored Host"
      && is_production_role (get_host_role c.roles k.reference_name)
    || str_eq k.reference_doctype "Proxmox Guest"
      && is_production_role (guest_role c.roles k.reference_name)
    || str_eq k.reference_doctype "Recurring Error" && c.recurring_to_global

-- One entry of `section_by_key`.
pub batch_section : List AlertRow → AlertKey × List AlertRow → String
batch_section log (k, rows) =
    let counted = if ltb 1 (length rows) then concat (decimal (length rows) ∷ "x, " ∷ []) else "" in
    concat (
      k.alert_type
      ∷ " — "
      ∷ k.reference_name
      ∷ " ("
      ∷ counted
      ∷ open_label k log
      ∷ "): "
      ∷ last_message rows
      ∷ [])

-- resource_batch.py: `_ordered_sections`
unfoldable pub ordered_sections : List AlertRow → List (AlertKey × List AlertRow) → String
ordered_sections log groups = join_with "\n" (map (batch_section log) groups)

pub batch_mail : List AlertRow → List String → List (AlertKey × List AlertRow) → Mail
batch_mail log to groups = record {
  mail_recipients = to;
  subject = "alfaEdge Pulse — Alert Summary";
  body = concat (
      decimal (length groups)
      ∷ " alert(s) in the last few minutes:\n\n"
      ∷ ordered_sections log groups
      ∷ []);
}

-- The e-mail part, for the eligible groups, with the channels that it marks.
unfoldable pub batch_email :
    BatchContext → List AlertRow → List (AlertKey × List AlertRow) → Outbox → List String × Outbox
batch_email c log eligible out =
    let s = c.alerts.settings in
    let emails = global_list s.enable_email_alerts s.email_recipients in
    if is_cons emails && is_cons eligible
    then (let (sent, out') =
          send_summary c.alerts.gateway (batch_mail log emails eligible)
            "alfaEdge Pulse: resource alert batch email failed" out in
        ((if sent then "Email" ∷ [] else []), out'))
    else ([], out)

unfoldable pub batch_text :
    BatchContext → List AlertRow → List (AlertKey × List AlertRow) → Outbox → List String × Outbox
batch_text c log eligible out =
    let s = c.alerts.settings in
    let numbers = global_list s.enable_whatsapp_alerts s.whatsapp_recipients in
    let template_name = template_of c.alerts.gateway s.whatsapp_template in
    if is_set template_name && (is_cons numbers && is_cons eligible)
    then (let (sent, out') =
          send_whatsapp c.alerts.gateway numbers (or_empty template_name)
            (ordered_sections log eligible) out in
        ((if sent then "WhatsApp" ∷ [] else []), out'))
    else ([], out)

-- The last loop: a row of the window, of an eligible key, that some channel was marked for.
unfoldable pub mark_row : BatchContext → ℕ → List String → AlertRow → AlertRow
mark_row c start channels row =
    let listed = is_in_window batched_resource_alert_types start c.alerts.now row in
    if listed && (is_eligible c row.key && is_cons channels)
    then record row { channels_sent = join_commas (sort_texts channels) }
    else row

-- The function from the groups on.
unfoldable pub send_batch : BatchContext → ℕ → List (AlertKey × List AlertRow) → Alerting → Alerting
send_batch c start groups a =
    let eligible = keep (λ g. is_eligible c g.0) groups in
    let (mailed, out) = batch_email c a.log eligible a.out in
    let (texted, out') = batch_text c a.log eligible out in
    record { log = map (mark_row c start (mailed ++ texted)) a.log; out = out' }

-- The start of the window: the last run, or ten minutes ago.
unfoldable pub window_start : ℕ → Option ℕ → ℕ
window_start now none = now - max_lookback
window_start now (some last) = last

-- resource_batch.py: `send_resource_alert_batch`
unfoldable pub send_resource_alert_batch : BatchContext → BatchState → BatchState
send_resource_alert_batch c b =
    let start = window_start c.alerts.now b.last_run in
    let rows = rows_between batched_resource_alert_types start c.alerts.now b.alerting.log in
    record {
      alerting =
          if is_cons rows then send_batch c start (alert_groups rows) b.alerting else b.alerting;
      last_run = some c.alerts.now;
    }
