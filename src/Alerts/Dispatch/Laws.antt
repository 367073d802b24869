-- ===== src/Alerts/Dispatch/Laws.antt =====
-- `dispatch_alert` and `dispatch_recovery`: the row of the log and the channels.
use alfaedge_pulse.Common.{
  ◌+◌, String, ◌≡◌, refl, Bool, true, false, ◌&&◌, ◌||◌, Option, none, some, List, [], ◌∷◌, ◌++◌,
  map, arith, str_eq, if◌then◌else◌, any-append, count-append,
}
use alfaedge_pulse.Alerts.Channels.{Outbox, alert_mail, Mail, WhatsappMessage, whatsapp_message}
use alfaedge_pulse.Alerts.Dispatch.{
  AlertContext, is_member, dispatch_alert, Alerting, email_channel, fan_out, dispatch_recovery,
  log_row, whatsapp_channel, is_immediate, template_of,
}
use alfaedge_pulse.Alerts.Log.{AlertKey, is_open_row, same_key}
use alfaedge_pulse.Alerts.Recipients.Laws.{recipients_off}
use alfaedge_pulse.Alerts.Log.Laws.{open_rows, open_rows-append, key_rows}
use alfaedge_pulse.Alerts.Recipients.{recipients}
use alfaedge_pulse.Alerts.Channels.Laws.{send_email_lem, send_whatsapp_lem}
use alfaedge_pulse.Common.Text.{or_empty}

module _ (c : AlertContext) (k : AlertKey) (message : String) (notify_global : Bool)
    (a : Alerting) where
  -- `dispatch_alert` adds one row to the log, whatever the channels do: unresolved, of this
  -- incident, with the message and the time.
  pub log-dispatch_alert :
      (dispatch_alert c k message notify_global a).log
      ≡ a.log
        ++ log_row c k message
            (fan_out c none c.settings.whatsapp_template k message notify_global a.out).0
            false
          ∷ []
  unfolding dispatch_alert
  log-dispatch_alert = refl

  pub log-dispatch_recovery :
      (dispatch_recovery c k message notify_global a).log
      ≡ a.log
        ++ log_row c k message
            (fan_out c
              (some "Resolved")
              c.settings.whatsapp_recovery_template
              k
              message
              notify_global
              a.out).0
            true
          ∷ []
  unfolding dispatch_recovery
  log-dispatch_recovery = refl

  -- The open rows of every incident after a dispatch.
  pub open_rows-dispatch_alert :
      (j : AlertKey)
      → open_rows j (dispatch_alert c k message notify_global a).log
        ≡ open_rows j a.log + (if same_key j k then 1 else 0)
  unfolding log_row is_open_row
  open_rows-dispatch_alert j = rw log-dispatch_alert (
      ground (
        arith,
        open_rows-append j a.log (
            log_row c k message
              (fan_out c none c.settings.whatsapp_template k message notify_global a.out).0 false),
      ))

  pub open_rows-dispatch_recovery :
      (j : AlertKey)
      → open_rows j (dispatch_recovery c k message notify_global a).log ≡ open_rows j a.log
  unfolding log_row is_open_row
  open_rows-dispatch_recovery j = rw log-dispatch_recovery (
      ground (
        arith,
        open_rows-append j a.log (
            log_row c k message
              (fan_out c (some "Resolved") c.settings.whatsapp_recovery_template k message
                notify_global a.out).0
              true),
      ))

module _ (c : AlertContext) (k : AlertKey) (message : String) (notify_global : Bool)
    (a : Alerting) where
  pub key_rows-dispatch_alert :
      (j : AlertKey)
      → key_rows j (dispatch_alert c k message notify_global a).log
        ≡ key_rows j a.log + (if same_key j k then 1 else 0)
  unfolding log_row
  key_rows-dispatch_alert j = rw (log-dispatch_alert, count-append) (ground arith)

  pub key_rows-dispatch_recovery :
      (j : AlertKey)
      → key_rows j (dispatch_recovery c k message notify_global a).log
        ≡ key_rows j a.log + (if same_key j k then 1 else 0)
  unfolding log_row
  key_rows-dispatch_recovery j = rw (log-dispatch_recovery, count-append) (ground arith)

module _ (c : AlertContext) (k : AlertKey) (message : String) where
  fan_out_quiet :
      (severity setting : Option String) (notify_global : Bool) (out : Outbox)
      → (is_immediate k.alert_type && notify_global) ≡ false
      → fan_out c severity setting k message notify_global out ≡ ([], out)
  unfolding fan_out
  fan_out_quiet severity setting false out h = ground (
    arith,
    recipients_off c.settings.enable_email_alerts c.settings.email_recipients false,
    recipients_off c.settings.enable_whatsapp_alerts c.settings.whatsapp_recipients false,
  )
  fan_out_quiet severity setting true out h = ground arith

  -- An alert of a digest or batched type, or one that is not for the global lists, is logged with
  -- no channel and sends nothing, and so is its recovery.
  pub dispatch_quiet :
      (notify_global : Bool) (a : Alerting)
      → (is_immediate k.alert_type && notify_global) ≡ false
      → (dispatch_alert c k message notify_global a
          ≡ record { log = a.log ++ log_row c k message [] false ∷ []; out = a.out })
        × (dispatch_recovery c k message notify_global a
            ≡ record { log = a.log ++ log_row c k message [] true ∷ []; out = a.out })
  unfolding dispatch_alert dispatch_recovery
  dispatch_quiet notify_global a h = (
    rw (fan_out_quiet none c.settings.whatsapp_template notify_global a.out h),
    rw (
        fan_out_quiet (some "Resolved") c.settings.whatsapp_recovery_template notify_global a.out
          h),
  )

-- The log names "Email" exactly when `mail` was sent, once, and "WhatsApp" only when all of `texts`
-- were inserted.
pub record Delivery (before after : Outbox) (channels : List String) (mail : Mail)
    (texts : List WhatsappMessage) : Type 0 where
  pub mailed :
      after.mails ≡ (if is_member "Email" channels then before.mails ++ mail ∷ [] else before.mails)
  pub texted : is_member "WhatsApp" channels ≡ true → after.messages ≡ before.messages ++ texts

module _ (c : AlertContext) (severity setting : Option String) (k : AlertKey) (message : String)
    (out : Outbox) where
  email_channel_lem :
      let (channels, out') = email_channel c severity k message true out in
      (out'.messages ≡ out.messages)
      × (out'.mails ≡ (
          if is_member "Email" channels
          then out.mails
            ++ alert_mail
                (recipients c.settings.enable_email_alerts c.settings.email_recipients true)
                k.alert_type
                message
                severity
              ∷ []
          else out.mails))
      × (is_member "WhatsApp" channels ≡ false)
  unfolding email_channel is_member
  email_channel_lem =
      let sent =
        send_email_lem c.gateway
          (recipients c.settings.enable_email_alerts c.settings.email_recipients true) k.alert_type
          message severity out in
      (ground (arith, sent), ground (arith, sent), ground arith)

  whatsapp_channel_lem :
      let (channels, out') = whatsapp_channel c setting message true out in
      (out'.mails ≡ out.mails)
      × (is_member "Email" channels ≡ false)
      × (is_member "WhatsApp" channels ≡ true
          → out'.messages
            ≡ out.messages
              ++ map
                  (whatsapp_message c.gateway (or_empty (template_of c.gateway setting)) message)
                  (recipients c.settings.enable_whatsapp_alerts c.settings.whatsapp_recipients
                    true))
  unfolding whatsapp_channel is_member
  whatsapp_channel_lem =
      let sent =
        send_whatsapp_lem c.gateway
          (recipients c.settings.enable_whatsapp_alerts c.settings.whatsapp_recipients true)
          (or_empty (template_of c.gateway setting)) message out in
      (ground (arith, sent), ground arith, λ h. ground (arith, sent))

  -- The WhatsApp messages of a dispatch that reaches every number.
  abbrev pub texts_of : List WhatsappMessage
  texts_of =
      map (whatsapp_message c.gateway (or_empty (template_of c.gateway setting)) message)
        (recipients c.settings.enable_whatsapp_alerts c.settings.whatsapp_recipients true)

  abbrev pub mail_of : Mail
  mail_of =
      alert_mail (recipients c.settings.enable_email_alerts c.settings.email_recipients true)
        k.alert_type message severity

is_member-append :
    (t : String) (xs ys : List String) → is_member t (xs ++ ys) ≡ (is_member t xs || is_member t ys)
unfolding is_member
is_member-append t xs ys = any-append (str_eq t) xs ys

module _ (c : AlertContext) (severity setting : Option String) (k : AlertKey) (message : String)
    (out : Outbox) where
  fan_out-Delivery :
      is_immediate k.alert_type ≡ true
      → let (channels, out') = fan_out c severity setting k message true out in
        Delivery out out' channels
          (mail_of c severity setting k message out)
          (texts_of c severity setting k message out)
  unfolding fan_out
  fan_out-Delivery h =
      let (mailed, out') = email_channel c severity k message true out in
      let (texted, out'') = whatsapp_channel c setting message true out' in
      let e = email_channel_lem c severity setting k message out in
      let w = whatsapp_channel_lem c severity setting k message out' in
      rw h (record {
        mailed = ground (arith, e, w, is_member-append "Email" mailed texted);
        texted = λ t. ground (arith, e, w, is_member-append "WhatsApp" mailed texted);
      })

-- An alert of an immediate type for the global lists adds one unresolved row, of this incident and
-- with the current time. The row names the channel "Email" exactly when the alert's mail to the
-- configured addresses was sent, once; where it names "WhatsApp", every configured number has its
-- message, in order.
pub dispatch_alert-Delivery :
    (c : AlertContext) (k : AlertKey) (message : String) (a : Alerting)
    → is_immediate k.alert_type ≡ true
    → let a' = dispatch_alert c k message true a in
      (channels : List String) × (a'.log ≡ a.log ++ log_row c k message channels false ∷ [])
      × Delivery a.out a'.out channels
          (mail_of c none c.settings.whatsapp_template k message a.out)
          (texts_of c none c.settings.whatsapp_template k message a.out)
unfolding dispatch_alert
dispatch_alert-Delivery c k message a h = (
  (fan_out c none c.settings.whatsapp_template k message true a.out).0,
  refl,
  fan_out-Delivery c none c.settings.whatsapp_template k message a.out h,
)

-- A recovery of an immediate type for the global lists adds one resolved row, and reports its
-- channels as an alert does; the mail's subject says "Resolved" and the template is the recovery's.
pub dispatch_recovery-Delivery :
    (c : AlertContext) (k : AlertKey) (message : String) (a : Alerting)
    → is_immediate k.alert_type ≡ true
    → let a' = dispatch_recovery c k message true a in
      (channels : List String) × (a'.log ≡ a.log ++ log_row c k message channels true ∷ [])
      × Delivery a.out a'.out channels
          (mail_of c (some "Resolved") c.settings.whatsapp_recovery_template k message a.out)
          (texts_of c (some "Resolved") c.settings.whatsapp_recovery_template k message a.out)
unfolding dispatch_recovery
dispatch_recovery-Delivery c k message a h = (
  (fan_out c (some "Resolved") c.settings.whatsapp_recovery_template k message true a.out).0,
  refl,
  fan_out-Delivery c (some "Resolved") c.settings.whatsapp_recovery_template k message a.out h,
)
