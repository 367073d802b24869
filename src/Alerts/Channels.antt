-- ===== src/Alerts/Channels.antt =====
-- alerts/dispatch.py: the two channels, e-mail and WhatsApp, and their result.
-- Frappe, its e-mail account and the app `frappe_whatsapp` are a `Gateway`: what each call does.
pub mod Laws
use alfaedge_pulse.Common.{
  ◌-◌, String, Bool, true, false, not, ◌&&◌, Option, none, some, List, [], ◌∷◌, ◌++◌, str_eq,
  if◌then◌else◌,
}
use Prim.Native.String.{◌++◌ as str_append}
use alfaedge_pulse.Common.Text.{or_empty, is_blank, before_colon}

pub record Mail : Type 0 where
  pub mail_recipients : List String
  pub subject : String
  pub body : String

-- A document of `WhatsApp Message`, with the fields that `_send_whatsapp` fills.
pub record WhatsappMessage : Type 0 where
  pub recipient : String
  pub direction : String
  pub content_type : String
  pub message_type : String
  pub template : String
  pub body_param : String
  pub text : String

-- `sendmail` and `insert_message` are true where the call returns and false where it raises;
-- `json_body` is `json.dumps({"1": message})`.
pub record Gateway : Type 0 where
  pub sendmail : Mail → Bool
  pub insert_message : WhatsappMessage → Bool
  pub whatsapp_installed : Bool
  pub template_exists : String → Bool
  pub template_named : String → Option String
  pub json_body : String → String

-- The fields of `Proxmox Monitor Settings` that the alerts read.
pub record AlertSettings : Type 0 where
  pub enable_email_alerts : Bool
  pub email_recipients : Option String
  pub enable_whatsapp_alerts : Bool
  pub whatsapp_recipients : Option String
  pub whatsapp_template : Option String
  pub whatsapp_recovery_template : Option String

-- What the channels have done: mails sent, documents inserted, entries of the error log.
pub record Outbox : Type 0 where
  pub mails : List Mail
  pub messages : List WhatsappMessage
  pub errors : List String

-- The truth value of a text that may be missing.
abbrev pub is_set : Option String → Bool
is_set none = false
is_set (some s) = not (is_blank s)

-- `severity or (...)` of `_send_email`
pub severity_label : Option String → String → String
severity_label severity alert_type =
    if is_set severity
    then or_empty severity
    else if str_eq alert_type "Resource Warning"
    then "Warning"
    else if str_eq alert_type "Test Alert"
    then "Test"
    else "Critical"

pub alert_mail : List String → String → String → Option String → Mail
alert_mail to alert_type message severity = record {
  mail_recipients = to;
  subject = str_append "Infra " (
      str_append (severity_label severity alert_type)
        (str_append " Alert - " (before_colon message)));
  body = message;
}

pub whatsapp_message : Gateway → String → String → String → WhatsappMessage
whatsapp_message g template_name message number = record {
  recipient = number;
  direction = "Outgoing";
  content_type = "text";
  message_type = "Template";
  template = template_name;
  body_param = g.json_body message;
  text = message;
}

-- dispatch.py: `_send_email`
pub send_email : Gateway → List String → String → String → Option String → Outbox → Bool × Outbox
send_email g [] alert_type message severity out = (false, out)
send_email g (r ∷ rs) alert_type message severity out =
    let mail = alert_mail (r ∷ rs) alert_type message severity in
    if g.sendmail mail
    then (true, record out { mails = out.mails ++ mail ∷ [] })
    else (false, record out { errors = out.errors ++ "Proxmox Monitor: email alert failed" ∷ [] })

-- dispatch.py: `_resolve_whatsapp_template`
pub resolve_whatsapp_template : Gateway → String → Option String
resolve_whatsapp_template g setting =
    if g.template_exists setting then some setting else g.template_named setting

-- The loop of `_send_whatsapp`: the first insert that raises ends it.
pub send_each : Gateway → String → String → List String → Outbox → Bool × Outbox
send_each g template_name message [] out = (true, out)
send_each g template_name message (n ∷ ns) out =
    let doc = whatsapp_message g template_name message n in
    let rest =
      send_each g template_name message ns (record out { messages = out.messages ++ doc ∷ [] }) in
    if g.insert_message doc then rest else (
      false,
      record out { errors = out.errors ++ "Proxmox Monitor: whatsapp alert failed" ∷ [] },
    )

abbrev pub is_cons {ℓ} : {A : Type ℓ} → List A → Bool
is_cons [] = false
is_cons (x ∷ xs) = true

-- dispatch.py: `_send_whatsapp`
pub send_whatsapp : Gateway → List String → String → String → Outbox → Bool × Outbox
send_whatsapp g numbers template_name message out =
    if g.whatsapp_installed
    then (let (sent, out') = send_each g template_name message numbers out in
        (sent && is_cons numbers, out'))
    else (false, out)
