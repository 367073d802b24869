-- ===== src/Alerts/Tests.antt =====
-- Runs of the alert code on small inputs.
use alfaedge_pulse.Common.{
  String, ◌≡◌, refl, true, false, ◌&&◌, none, some, List, [], ◌∷◌, ◌++◌, str_eq, all,
}
use alfaedge_pulse.Alerts.Channels.{Gateway, AlertSettings, Outbox}
use alfaedge_pulse.Common.Text.{split_commas, strip, lower, is_blank, has_code, join_commas}
use alfaedge_pulse.Alerts.Dispatch.{
  is_immediate, Alerting, dispatch_alert, dispatch_recovery, AlertContext, log_row, is_member,
}
use alfaedge_pulse.Alerts.Log.{AlertKey}
use alfaedge_pulse.Alerts.Recipients.{
  recipients, merge_recipients, is_seen, same_codes, parse_recipient_list,
}
use alfaedge_pulse.Alerts.Dispatch.Laws.{
  dispatch_quiet, Delivery, mail_of, texts_of, dispatch_alert-Delivery,
}
use alfaedge_pulse.Alerts.Recipients.RoundTrip.{is_clean, parse_recipient_list-join}

abbrev pub gateway : Gateway
gateway = record {
  sendmail = λ mail. true;
  insert_message = λ doc. true;
  whatsapp_installed = true;
  template_exists = λ name. str_eq name "alert-en";
  template_named = λ name. none;
  json_body = λ message. message;
}

abbrev pub settings : AlertSettings
settings = record {
  enable_email_alerts = true;
  email_recipients = some "ops@x.io, OPS@x.io,, dev@x.io";
  enable_whatsapp_alerts = true;
  whatsapp_recipients = some "123";
  whatsapp_template = some "alert-en";
  whatsapp_recovery_template = none;
}

abbrev pub context : AlertContext
context = record { gateway = gateway; settings = settings; now = 7 }

abbrev offline : AlertKey
offline = record {
  reference_doctype = "Proxmox Server";
  reference_name = "alpha";
  alert_type = "Server Offline";
}

abbrev pub overdue : AlertKey
overdue = record {
  reference_doctype = "Proxmox Guest";
  reference_name = "alpha-104";
  alert_type = "Backup Overdue";
}

abbrev pub empty_outbox : Outbox
empty_outbox = record { mails = []; messages = []; errors = [] }

abbrev empty_alerting : Alerting
empty_alerting = record { log = []; out = empty_outbox }

two_addresses :
    recipients true (some "ops@x.io, OPS@x.io,, dev@x.io") true ≡ "ops@x.io" ∷ "dev@x.io" ∷ []
unfolding recipients merge_recipients is_seen same_codes split_commas strip lower is_blank
two_addresses = refl

offline_is_immediate : is_immediate "Server Offline" ≡ true
unfolding is_immediate is_member
offline_is_immediate = refl

overdue_is_deferred : (is_immediate "Backup Overdue" && true) ≡ false
unfolding is_immediate is_member
overdue_is_deferred = refl

dispatch_alert-Delivery_example :
    let a' = dispatch_alert context offline "alpha: server unreachable" true empty_alerting in
    (channels : List String) × (a'.log
      ≡ [] ++ log_row context offline "alpha: server unreachable" channels false ∷ [])
    × Delivery empty_outbox a'.out channels
        (mail_of context none (some "alert-en") offline "alpha: server unreachable" empty_outbox)
        (texts_of context none (some "alert-en") offline "alpha: server unreachable" empty_outbox)
dispatch_alert-Delivery_example =
    dispatch_alert-Delivery context offline "alpha: server unreachable" empty_alerting
      offline_is_immediate

dispatch_quiet_example :
    (dispatch_alert context overdue "no backup" true empty_alerting ≡ record {
      log = [] ++ log_row context overdue "no backup" [] false ∷ [];
      out = empty_outbox;
    })
    × (dispatch_recovery context overdue "no backup" true empty_alerting ≡ record {
      log = [] ++ log_row context overdue "no backup" [] true ∷ [];
      out = empty_outbox;
    })
dispatch_quiet_example =
    dispatch_quiet context overdue "no backup" true empty_alerting overdue_is_deferred

two_clean : all is_clean ("ops@x.io" ∷ "dev@x.io" ∷ []) ≡ true
unfolding has_code strip is_blank
two_clean = refl

parse_recipient_list-join_example :
    parse_recipient_list (some (join_commas ("ops@x.io" ∷ "dev@x.io" ∷ [])))
    ≡ "ops@x.io" ∷ "dev@x.io" ∷ []
parse_recipient_list-join_example =
    parse_recipient_list-join ("ops@x.io" ∷ "dev@x.io" ∷ []) two_clean
