-- ===== src/Alerts/Summaries/Marks.antt =====
-- One run of `send_resource_alert_batch` of alerts/resource_batch.py: its mail and its marks.
use alfaedge_pulse.Common.{
  ℕ, String, ◌≡◌, refl, sym, ap, ◌∙◌, ◌⊎◌, inl, inr, Bool, true, false, ◌&&◌, some, List, [], ◌∷◌,
  ◌++◌, map, arith, if◌then◌else◌, Bool-cases, any, keep,
}
use alfaedge_pulse.Alerts.Summaries.{
  alert_groups, is_in_window, rows_between, global_list, send_summary,
}
use alfaedge_pulse.Alerts.Channels.{is_cons, Outbox}
use alfaedge_pulse.Alerts.Summaries.Batch.{
  BatchContext, is_eligible, batch_email, batch_mail, batch_text, ordered_sections, mark_row,
  send_batch, BatchState, send_resource_alert_batch, window_start,
}
use alfaedge_pulse.Alerts.Log.{AlertRow, AlertKey, same_key, is_open_row}
use alfaedge_pulse.Alerts.Dispatch.{batched_resource_alert_types, template_of, Alerting}
use alfaedge_pulse.Common.Groups.{any-group_by, group_of, group_of-keep}
use alfaedge_pulse.Alerts.Summaries.Rows.{any-rows_between}
use alfaedge_pulse.Common.Text.{or_empty}
use alfaedge_pulse.Alerts.Log.Laws.{same_key_iff, open_rows}
use alfaedge_pulse.Alerts.Channels.Laws.{send_whatsapp_lem}
use alfaedge_pulse.Alerts.Summaries.Issues.{group_of-groups}

-- An eligible row of a batched type whose time lies in the window.
unfoldable pub is_due : BatchContext → ℕ → AlertRow → Bool
is_due c start row =
    is_in_window batched_resource_alert_types start c.alerts.now row && is_eligible c row.key

abbrev pub eligible_groups : BatchContext → ℕ → List AlertRow → List (AlertKey × List AlertRow)
eligible_groups c start log =
    keep (λ g. is_eligible c g.0)
      (alert_groups (rows_between batched_resource_alert_types start c.alerts.now log))

is_cons-any {ℓ} : {A : Type ℓ} (xs : List A) → is_cons xs ≡ any (λ _. true) xs
is_cons-any [] = refl
is_cons-any (x ∷ xs) = refl

is_cons-keep {ℓ} : {A : Type ℓ} (p : A → Bool) (xs : List A) → is_cons (keep p xs) ≡ any p xs
is_cons-keep p [] = refl
is_cons-keep p (x ∷ xs) = ground (arith, is_cons-keep p xs)

any-weaken {ℓ} :
    {A : Type ℓ} (p q : A → Bool) (xs : List A)
    → any (λ x. p x && q x) xs ≡ true
    → any (λ x. p x && true) xs ≡ true
any-weaken p q [] h = h
any-weaken p q (x ∷ xs) h = ground (arith, any-weaken p q xs)

-- There is a key to announce exactly if the log has a row that is due.
pub is_cons-eligible :
    (c : BatchContext) (start : ℕ) (log : List AlertRow)
    → is_cons (eligible_groups c start log) ≡ any (is_due c start) log
unfolding alert_groups is_due
is_cons-eligible c start log =
    let rows = rows_between batched_resource_alert_types start c.alerts.now log in
    is_cons-keep (λ g. is_eligible c g.0) (alert_groups rows)
    ∙ any-group_by same_key same_key_iff (is_eligible c) (λ row. row.key) rows
    ∙ any-rows_between batched_resource_alert_types start c.alerts.now log
        (λ row. is_eligible c row.key)

-- A due row is a row of the window.
is_cons-rows :
    (c : BatchContext) (start : ℕ) (log : List AlertRow)
    → is_cons (rows_between batched_resource_alert_types start c.alerts.now log) ≡ false
    → any (is_due c start) log ≡ false
unfolding is_due
is_cons-rows c start log h =
    let found =
      is_cons-any (rows_between batched_resource_alert_types start c.alerts.now log)
      ∙ any-rows_between batched_resource_alert_types start c.alerts.now log (λ _. true) in
    ground (
      arith,
      h,
      found,
      any-weaken (is_in_window batched_resource_alert_types start c.alerts.now)
          (λ row. is_eligible c row.key) log,
    )

-- The addresses of the batch, and whether its mail for these groups goes out.
abbrev pub batch_emails : BatchContext → List String
batch_emails c =
    global_list c.alerts.settings.enable_email_alerts c.alerts.settings.email_recipients

abbrev pub is_mailed : BatchContext → List AlertRow → List (AlertKey × List AlertRow) → Bool
is_mailed c log eligible =
    is_cons eligible
    && (is_cons (batch_emails c)
        && c.alerts.gateway.sendmail (batch_mail log (batch_emails c) eligible))

module _ (c : BatchContext) (log : List AlertRow) (eligible : List (AlertKey × List AlertRow))
    (out : Outbox) where
  batch_email_lem :
      let (channels, out') = batch_email c log eligible out in
      (out'.mails ≡ (
        if is_mailed c log eligible
        then out.mails ++ batch_mail log (batch_emails c) eligible ∷ []
        else out.mails))
      × (channels ≡ (if is_mailed c log eligible then "Email" ∷ [] else []))
  unfolding batch_email send_summary
  batch_email_lem = (ground arith, ground arith)

  batch_text_lem :
      let (channels, out') = batch_text c log eligible out in
      (out'.mails ≡ out.mails) × ((channels ≡ []) ⊎ (channels ≡ "WhatsApp" ∷ []))
  unfolding batch_text
  batch_text_lem =
      let s = c.alerts.settings in
      let numbers = global_list s.enable_whatsapp_alerts s.whatsapp_recipients in
      let name = or_empty (template_of c.alerts.gateway s.whatsapp_template) in
      let sent =
        send_whatsapp_lem c.alerts.gateway numbers name (ordered_sections log eligible) out in
      (ground (arith, sent.0), ground arith)

open_rows-mark :
    (c : BatchContext) (start : ℕ) (channels : List String) (k : AlertKey) (log : List AlertRow)
    → open_rows k (map (mark_row c start channels) log) ≡ open_rows k log
unfolding mark_row is_open_row
open_rows-mark c start channels k [] = refl
open_rows-mark c start channels k (row ∷ log) =
    ground (arith, open_rows-mark c start channels k log)

-- Without a due row no row is marked.
pub map-mark_row :
    (c : BatchContext) (start : ℕ) (channels : List String) (log : List AlertRow)
    → any (is_due c start) log ≡ false
    → map (mark_row c start channels) log ≡ log
unfolding mark_row is_due
map-mark_row c start channels [] h = refl
map-mark_row c start channels (row ∷ log) h = ground (arith, h, map-mark_row c start channels log)

module _ (c : BatchContext) (start : ℕ) (a : Alerting) where
  send_batch_lem :
      let groups =
        alert_groups (rows_between batched_resource_alert_types start c.alerts.now a.log) in
      let eligible = eligible_groups c start a.log in
      let a' = send_batch c start groups a in
      (a'.out.mails ≡ (
        if is_mailed c a.log eligible
        then a.out.mails ++ batch_mail a.log (batch_emails c) eligible ∷ []
        else a.out.mails))
      × (texted : List String) × ((texted ≡ []) ⊎ (texted ≡ "WhatsApp" ∷ []))
      × (a'.log
          ≡ map
              (mark_row c start
                ((if is_mailed c a.log eligible then "Email" ∷ [] else []) ++ texted))
              a.log)
  unfolding send_batch
  send_batch_lem =
      let eligible = eligible_groups c start a.log in
      let mailed = batch_email_lem c a.log eligible a.out in
      let out = (batch_email c a.log eligible a.out).1 in
      let texted = batch_text_lem c a.log eligible out in
      (
        texted.0 ∙ mailed.0,
        (batch_text c a.log eligible out).0,
        texted.1,
        ap (λ m. map (mark_row c start (m ++ (batch_text c a.log eligible out).0)) a.log) mailed.1,
      )

-- What a run leaves: its mail if there is one, and the marks of the channels that sent.
module _ (c : BatchContext) (b : BatchState) where
  -- The start of the run's window, and the groups that it announces.
  abbrev pub run_start : ℕ
  run_start = window_start c.alerts.now b.last_run

  abbrev pub announced : List (AlertKey × List AlertRow)
  announced = eligible_groups c run_start b.alerting.log

  abbrev pub IsRun : Alerting → Type 0
  IsRun a' =
      (a'.out.mails ≡ (
        if is_mailed c b.alerting.log announced
        then b.alerting.out.mails ++ batch_mail b.alerting.log (batch_emails c) announced ∷ []
        else b.alerting.out.mails))
      × (texted : List String) × ((texted ≡ []) ⊎ (texted ≡ "WhatsApp" ∷ []))
      × (a'.log
          ≡ map
              (mark_row c run_start
                ((if is_mailed c b.alerting.log announced then "Email" ∷ [] else []) ++ texted))
              b.alerting.log)

  IsRun-idle : any (is_due c run_start) b.alerting.log ≡ false → IsRun b.alerting
  IsRun-idle h = (
    ground (arith, is_cons-eligible c run_start b.alerting.log, h),
    [],
    inl refl,
    sym (map-mark_row c run_start _ b.alerting.log h),
  )

  pub send_resource_alert_batch-IsRun : IsRun (send_resource_alert_batch c b).alerting
  unfolding send_resource_alert_batch
  send_resource_alert_batch-IsRun =
      let rows = rows_between batched_resource_alert_types run_start c.alerts.now b.alerting.log in
      elim (Bool-cases (is_cons rows)) [
        | inl some_rows ↦ rw some_rows (send_batch_lem c run_start b.alerting)
        | inr no_rows ↦ rw no_rows (IsRun-idle (is_cons-rows c run_start b.alerting.log no_rows))
      ]

  -- One run of the batch, on every branch: it sends one mail exactly if a row is due (of a batched
  -- type, in the window, of an eligible key), e-mail has recipients and the mail server accepts it.
  -- The mail's groups are the rows of the window, by incident, for the eligible keys and no others.
  -- The marker is the time of the run, and no incident gains or loses an open row.
  pub send_resource_alert_batch_lem :
      let b' = send_resource_alert_batch c b in
      let mail = batch_mail b.alerting.log (batch_emails c) announced in
      (b'.alerting.out.mails ≡ (
        if any (is_due c run_start) b.alerting.log
          && (is_cons (batch_emails c) && c.alerts.gateway.sendmail mail)
        then b.alerting.out.mails ++ mail ∷ []
        else b.alerting.out.mails))
      × ((k : AlertKey)
          → group_of same_key k announced ≡ (
              if is_eligible c k
              then keep
                  (λ row. same_key row.key k)
                  (rows_between batched_resource_alert_types run_start c.alerts.now b.alerting.log)
              else []))
      × (b'.last_run ≡ some c.alerts.now)
      × ((k : AlertKey) → open_rows k b'.alerting.log ≡ open_rows k b.alerting.log)
  unfolding send_resource_alert_batch
  send_resource_alert_batch_lem =
      let rows = rows_between batched_resource_alert_types run_start c.alerts.now b.alerting.log in
      let ran = send_resource_alert_batch-IsRun in
      (
        rw (sym (is_cons-eligible c run_start b.alerting.log)) ran.0,
        λ k.
            group_of-keep same_key same_key_iff (is_eligible c) k (alert_groups rows)
            ∙ ap (λ g. if is_eligible c k then g else []) (group_of-groups k rows),
        refl,
        λ k. ap (open_rows k) ran.3 ∙ open_rows-mark c run_start _ k b.alerting.log,
      )
