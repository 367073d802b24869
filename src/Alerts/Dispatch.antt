-- ===== src/Alerts/Dispatch.antt =====
-- alerts/dispatch.py: `dispatch_alert`, `dispatch_recovery` and `send_test_alert`.
pub mod Laws
use alfaedge_pulse.Common.{
  ℕ, String, Bool, true, false, not, ◌&&◌, Option, none, some, List, [], ◌∷◌, ◌++◌, str_eq,
  if◌then◌else◌, any,
}
use alfaedge_pulse.Alerts.Channels.{
  Outbox, Gateway, is_set, resolve_whatsapp_template, AlertSettings, is_cons, send_email,
  send_whatsapp,
}
use alfaedge_pulse.Alerts.Log.{AlertKey, AlertRow}
use alfaedge_pulse.Alerts.Recipients.{recipients, parse_recipient_list}
use alfaedge_pulse.Common.Text.{join_commas, or_empty}

abbrev pub digest_only_alert_types : List String
digest_only_alert_types =
    "Service Down" ∷ "Worker Degraded" ∷ "Failed Job Threshold" ∷ "Long Running Job"
    ∷ "Scheduler Stalled" ∷ "Host Unreachable" ∷ []

abbrev pub batched_resource_alert_types : List String
batched_resource_alert_types =
    "High Load Average" ∷ "High Swap Usage" ∷ "Backup Overdue" ∷ "Recurring Error" ∷ []

-- `alert_type in DIGEST_ONLY_ALERT_TYPES`, and so for any such set.
unfoldable pub is_member : String → List String → Bool
is_member t types = any (str_eq t) types

-- The test of both functions: an alert type that no digest and no batch picks up.
unfoldable pub is_immediate : String → Bool
is_immediate t =
    not (is_member t digest_only_alert_types) && not (is_member t batched_resource_alert_types)

-- The state that alerting changes: the alert log and what the channels sent.
pub record Alerting : Type 0 where
  pub log : List AlertRow
  pub out : Outbox

-- What stays the same during one call: the gateway, the settings and the clock.
pub record AlertContext : Type 0 where
  pub gateway : Gateway
  pub settings : AlertSettings
  pub now : ℕ

-- The e-mail part of both functions; `channels_sent` grows by the channel's name.
pub email_channel :
    AlertContext → Option String → AlertKey → String → Bool → Outbox → List String × Outbox
email_channel c severity k message notify_global out =
    let to = recipients c.settings.enable_email_alerts c.settings.email_recipients notify_global in
    if is_cons to
    then (let (sent, out') = send_email c.gateway to k.alert_type message severity out in
        ((if sent then "Email" ∷ [] else []), out'))
    else ([], out)

-- `_resolve_whatsapp_template(...) if ... else None`
pub template_of : Gateway → Option String → Option String
template_of g setting =
    if is_set setting then resolve_whatsapp_template g (or_empty setting) else none

pub whatsapp_channel : AlertContext → Option String → String → Bool → Outbox → List String × Outbox
unfolding template_of
whatsapp_channel c setting message notify_global out =
    let numbers =
      recipients c.settings.enable_whatsapp_alerts c.settings.whatsapp_recipients notify_global in
    let template_name = template_of c.gateway setting in
    if is_cons numbers && is_set template_name
    then (let (sent, out') = send_whatsapp c.gateway numbers (or_empty template_name) message out in
        ((if sent then "WhatsApp" ∷ [] else []), out'))
    else ([], out)

-- The block under the test on the two sets: which channels sent, and their effect.
pub fan_out :
    AlertContext
    → Option String
    → Option String
    → AlertKey
    → String
    → Bool
    → Outbox
    → List String × Outbox
unfolding email_channel whatsapp_channel
fan_out c severity setting k message notify_global out =
    if is_immediate k.alert_type
    then (let (mailed, out') = email_channel c severity k message notify_global out in
        let (texted, out'') = whatsapp_channel c setting message notify_global out' in
        (mailed ++ texted, out''))
    else ([], out)

unfoldable pub log_row : AlertContext → AlertKey → String → List String → Bool → AlertRow
log_row c k message channels done = record {
  key = k;
  message = message;
  channels_sent = join_commas channels;
  sent_at = c.now;
  resolved = done;
}

-- dispatch.py: `dispatch_alert`
pub dispatch_alert : AlertContext → AlertKey → String → Bool → Alerting → Alerting
dispatch_alert c k message notify_global a =
    let (channels, out) =
      fan_out c none c.settings.whatsapp_template k message notify_global a.out in
    record { log = a.log ++ log_row c k message channels false ∷ []; out = out }

-- dispatch.py: `dispatch_recovery`
pub dispatch_recovery : AlertContext → AlertKey → String → Bool → Alerting → Alerting
dispatch_recovery c k message notify_global a =
    let (channels, out) =
      fan_out c (some "Resolved") c.settings.whatsapp_recovery_template k message notify_global
        a.out in
    record { log = a.log ++ log_row c k message channels true ∷ []; out = out }

-- dispatch.py: `send_test_alert`. A missing result means that the channel was not tried.
pub record TestResults : Type 0 where
  pub email : Option Bool
  pub whatsapp : Option Bool

test_message : String
test_message =
    "alfaEdge Pulse Test: this is a test alert to verify your notification channels are configured correctly."

test_email : AlertContext → Outbox → Option Bool × Outbox
unfolding test_message
test_email c out =
    if c.settings.enable_email_alerts && is_set c.settings.email_recipients
    then (let (sent, out') =
          send_email c.gateway (parse_recipient_list c.settings.email_recipients) "Test Alert"
            test_message none out in
        (some sent, out'))
    else (none, out)

test_whatsapp : AlertContext → Outbox → Option Bool × Outbox
unfolding test_message
test_whatsapp c out =
    let s = c.settings in
    let name = resolve_whatsapp_template c.gateway (or_empty s.whatsapp_template) in
    if s.enable_whatsapp_alerts && is_set s.whatsapp_recipients && is_set s.whatsapp_template
    then (if is_set name
        then (let (sent, out') =
              send_whatsapp c.gateway (parse_recipient_list s.whatsapp_recipients) (or_empty name)
                test_message out in
            (some sent, out'))
        else (some false, out))
    else (none, out)

pub send_test_alert : AlertContext → Outbox → TestResults × Outbox
unfolding test_email test_whatsapp
send_test_alert c out =
    let (mailed, out') = test_email c out in
    let (texted, out'') = test_whatsapp c out' in
    (record { email = mailed; whatsapp = texted }, out'')
