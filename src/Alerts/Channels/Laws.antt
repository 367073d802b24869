-- ===== src/Alerts/Channels/Laws.antt =====
-- `_send_email` and `_send_whatsapp`: what they return and what they send.
use alfaedge_pulse.Common.{
  String, ◌≡◌, refl, sym, ◌∙◌, inl, inr, true, Option, List, [], ◌∷◌, ◌++◌, map, arith,
  if◌then◌else◌, Bool-cases,
}
use mathlib.Core.List.{append-nil, append_assoc}
use alfaedge_pulse.Alerts.Channels.{
  send_each, send_whatsapp, send_email, Gateway, Outbox, alert_mail, whatsapp_message,
}

-- `_send_email` returns true exactly when it has added its one mail, to these recipients, to what
-- was sent; else it has sent nothing. It sends no WhatsApp message.
pub send_email_lem :
    (g : Gateway) (to : List String) (alert_type message : String) (severity : Option String)
    (out : Outbox)
    → let (sent, out') = send_email g to alert_type message severity out in
      (out'.mails
        ≡ (if sent then out.mails ++ alert_mail to alert_type message severity ∷ [] else out.mails))
      × (out'.messages ≡ out.messages)
unfolding send_email
send_email_lem g [] alert_type message severity out = (refl, refl)
send_email_lem g (r ∷ rs) alert_type message severity out = (ground arith, ground arith)

send_each_lem :
    (g : Gateway) (template_name message : String) (numbers : List String) (out : Outbox)
    → let (sent, out') = send_each g template_name message numbers out in
      (out'.mails ≡ out.mails)
      × (sent ≡ true
          → out'.messages ≡ out.messages ++ map (whatsapp_message g template_name message) numbers)
unfolding send_each
send_each_lem g template_name message [] out = (refl, λ _. sym (append-nil out.messages))
send_each_lem g template_name message (n ∷ ns) out =
    let doc = whatsapp_message g template_name message n in
    let next = record out { messages = out.messages ++ doc ∷ [] } in
    let ih = send_each_lem g template_name message ns next in
    elim (Bool-cases (g.insert_message doc)) [
      | inl ok ↦ rw ok (ih.0, λ h. ih.1 h ∙ append_assoc out.messages (doc ∷ []) _)
      | inr failed ↦ rw failed (refl, λ h. cc)
    ]

-- When `_send_whatsapp` returns true, each number of the list has its message, in order; it sends
-- no mail.
pub send_whatsapp_lem :
    (g : Gateway) (numbers : List String) (template_name message : String) (out : Outbox)
    → let (sent, out') = send_whatsapp g numbers template_name message out in
      (out'.mails ≡ out.mails)
      × (sent ≡ true
          → out'.messages ≡ out.messages ++ map (whatsapp_message g template_name message) numbers)
unfolding send_whatsapp
send_whatsapp_lem g numbers template_name message out =
    let each = send_each_lem g template_name message numbers out in
    (ground (arith, each.0), λ h. ground (arith, each.1))
