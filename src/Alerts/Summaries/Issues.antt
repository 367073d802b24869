-- ===== src/Alerts/Summaries/Issues.antt =====
-- `_send_health_digest` of alerts/digest.py: its counts, its groups and its mail.
use alfaedge_pulse.Common.{
  ℕ, suc, ◌+◌, String, ◌≡◌, refl, ap, ◌∙◌, Bool, ◌&&◌, List, [], ◌∷◌, ◌++◌, arith, ltb,
  if◌then◌else◌, length, keep, count, length-append,
}
use alfaedge_pulse.Alerts.Summaries.{
  send_summary, alert_groups, global_list, rows_between, is_in_window,
}
use alfaedge_pulse.Common.Groups.{group_from, add_to_group, group_by, group_of, group_of-group_by}
use alfaedge_pulse.Alerts.Summaries.Digest.{
  DigestContext, issue_count, digest_text, counts_text, send_digest, digest_mail,
  send_health_digest,
}
use alfaedge_pulse.Alerts.Log.{AlertKey, AlertRow, same_key}
use alfaedge_pulse.Alerts.Channels.{Gateway, Mail, Outbox, is_cons}
use alfaedge_pulse.Alerts.Dispatch.{template_of, Alerting, digest_only_alert_types}
use alfaedge_pulse.Alerts.Log.Laws.{same_key_iff}
use alfaedge_pulse.Common.Text.{concat, or_empty}
use alfaedge_pulse.Alerts.Channels.Laws.{send_whatsapp_lem}
use alfaedge_pulse.Alerts.Summaries.Rows.{length-rows_between}

issue_count-add :
    (k : AlertKey) (row : AlertRow) (d : List (AlertKey × List AlertRow))
    → issue_count (add_to_group same_key k row d) ≡ suc (issue_count d)
unfolding issue_count add_to_group
issue_count-add k row [] = refl
issue_count-add k row ((j, rows) ∷ d) =
    ground (arith, issue_count-add k row d, length-append rows (row ∷ []))

issue_count-from :
    (rows : List AlertRow) (d : List (AlertKey × List AlertRow))
    → issue_count (group_from same_key (λ row. row.key) rows d) ≡ issue_count d + length rows
unfolding group_from
issue_count-from [] d = omega arith
issue_count-from (row ∷ rows) d = omega (
  arith,
  issue_count-from rows (add_to_group same_key row.key row d),
  issue_count-add row.key row d,
)

issue_count-groups : (rows : List AlertRow) → issue_count (alert_groups rows) ≡ length rows
unfolding alert_groups group_by issue_count
issue_count-groups rows = omega (arith, issue_count-from rows [])

-- Each group holds the rows of its incident, in the order of their times.
pub group_of-groups :
    (k : AlertKey) (rows : List AlertRow)
    → group_of same_key k (alert_groups rows) ≡ keep (λ row. same_key row.key k) rows
unfolding alert_groups
group_of-groups k rows = group_of-group_by same_key same_key_iff k (λ row. row.key) rows

module _ (c : DigestContext) (label : String) where
  mails-digest_text :
      (groups : List (AlertKey × List AlertRow)) (out : Outbox)
      → (digest_text c label groups out).mails ≡ out.mails
  unfolding digest_text
  mails-digest_text groups out =
      let s = c.alerts.settings in
      let numbers = global_list s.enable_whatsapp_alerts s.whatsapp_recipients in
      let template_name = template_of c.alerts.gateway c.health_digest_template in
      let text = concat (label ∷ ": " ∷ counts_text groups ∷ "." ∷ []) in
      ground
        (arith, (send_whatsapp_lem c.alerts.gateway numbers (or_empty template_name) text out).0)

mails-send_summary :
    (g : Gateway) (mail : Mail) (title : String) (out : Outbox)
    → (send_summary g mail title out).1.mails
      ≡ (if g.sendmail mail then out.mails ++ mail ∷ [] else out.mails)
unfolding send_summary
mails-send_summary g mail title out = ground arith

is_cons-length {ℓ} : {A : Type ℓ} (xs : List A) → is_cons xs ≡ ltb 0 (length xs)
is_cons-length [] = refl
is_cons-length (x ∷ xs) = ground arith

mails-send_digest :
    (c : DigestContext) (log : List AlertRow) (label : String)
    (groups : List (AlertKey × List AlertRow)) (out : Outbox)
    → let s = c.alerts.settings in
      let emails = global_list s.enable_email_alerts s.email_recipients in
      let mail = digest_mail c log label emails groups in
      (send_digest c log label groups out).mails ≡ (
        if is_cons emails && c.alerts.gateway.sendmail mail
        then out.mails ++ mail ∷ []
        else out.mails)
unfolding send_digest
mails-send_digest c log label groups out =
    let s = c.alerts.settings in
    let emails = global_list s.enable_email_alerts s.email_recipients in
    let mail = digest_mail c log label emails groups in
    let title : String = "alfaEdge Pulse: health digest email failed" in
    mails-digest_text c label groups _
    ∙ ground (arith, mails-send_summary c.alerts.gateway mail title out)

module _ (c : DigestContext) (start stop : ℕ) (label : String) (a : Alerting) where
  -- The addresses of the digest, the groups of its window, and its mail.
  abbrev pub digest_emails : List String
  digest_emails =
      global_list c.alerts.settings.enable_email_alerts c.alerts.settings.email_recipients

  abbrev pub digest_groups : List (AlertKey × List AlertRow)
  digest_groups = alert_groups (rows_between digest_only_alert_types start stop a.log)

  abbrev pub mail_of_digest : Mail
  mail_of_digest = digest_mail c a.log label digest_emails digest_groups

  -- Whether the log has a row for the digest.
  abbrev pub has_issues : Bool
  has_issues = ltb 0 (count (is_in_window digest_only_alert_types start stop) a.log)

  -- A digest sends its mail, once, exactly if the log has a row of a digest type in the window,
  -- e-mail has recipients and the mail server accepts it. The mail counts each such row once, and
  -- the group of each incident holds its rows of the window, as the query orders them. The log is
  -- not changed, and without such a row nothing else is.
  pub send_health_digest_lem :
      let a' = send_health_digest c (start, stop) label a in
      (a'.out.mails ≡ (
        if has_issues && (is_cons digest_emails && c.alerts.gateway.sendmail mail_of_digest)
        then a.out.mails ++ mail_of_digest ∷ []
        else a.out.mails))
      × (issue_count digest_groups ≡ count (is_in_window digest_only_alert_types start stop) a.log)
      × ((k : AlertKey)
          → group_of same_key k digest_groups
            ≡ keep
                (λ row. same_key row.key k)
                (rows_between digest_only_alert_types start stop a.log))
      × (a' ≡ (if has_issues then record a { out = a'.out } else a))
  unfolding send_health_digest
  send_health_digest_lem =
      let rows = rows_between digest_only_alert_types start stop a.log in
      let found =
        is_cons-length rows
        ∙ ap (ltb 0) (length-rows_between digest_only_alert_types start stop a.log) in
      (
        ground (arith, found, mails-send_digest c a.log label digest_groups a.out),
        issue_count-groups rows ∙ length-rows_between digest_only_alert_types start stop a.log,
        λ k. group_of-groups k rows,
        ground (arith, found),
      )
