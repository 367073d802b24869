-- ===== src/Alerts/Summaries/History.antt =====
-- Histories of alerts, recoveries and batches: alerts/dispatch.py with alerts/resource_batch.py.
use alfaedge_pulse.Common.{
  ℕ, ◌≤◌, String, ◌≡◌, refl, ap, ◌∙◌, ◌⊎◌, inl, inr, Bool, true, false, ◌&&◌, some, List, [], ◌∷◌,
  ◌++◌, map, arith, ltb, leb, if◌then◌else◌, Bool-cases, any, any-append,
}
use alfaedge_pulse.Alerts.Log.{AlertKey, resolve_alert, AlertRow, resolve_row}
use alfaedge_pulse.Common.Text.{is_blank, join_commas}
use alfaedge_pulse.Alerts.Summaries.Batch.{
  BatchContext, BatchState, send_resource_alert_batch, is_eligible, mark_row, batch_mail,
  window_start,
}
use alfaedge_pulse.Common.Names.{sort_texts, insert_text, text_before}
use alfaedge_pulse.Alerts.Dispatch.{
  is_member, dispatch_alert, batched_resource_alert_types, dispatch_recovery, Alerting, log_row,
}
use alfaedge_pulse.Alerts.Summaries.Marks.{
  is_due, batch_emails, is_mailed, send_resource_alert_batch-IsRun, eligible_groups,
  is_cons-eligible, map-mark_row,
}
use alfaedge_pulse.Alerts.Summaries.{is_in_window}
use alfaedge_pulse.Alerts.Channels.{is_cons, Mail}
use alfaedge_pulse.Alerts.Dispatch.Laws.{log-dispatch_alert, log-dispatch_recovery}

-- What happens to the alerts: an alert, a recovery, a resolved incident, or a run of the batch.
pub data BatchEvent : Type 0 where
  alert_raised : AlertKey → String → Bool → ℕ → BatchEvent
  alert_recovered : AlertKey → String → Bool → ℕ → BatchEvent
  alert_closed : AlertKey → ℕ → BatchEvent
  batch_ran : ℕ → BatchEvent

abbrev pub time_of : BatchEvent → ℕ
time_of (alert_raised k message notify_global t) = t
time_of (alert_recovered k message notify_global t) = t
time_of (alert_closed k t) = t
time_of (batch_ran t) = t

-- The times never go back.
abbrev pub IsInOrder : ℕ → List BatchEvent → Type 0
IsInOrder start [] = Unit
IsInOrder start (e ∷ es) = (start ≤ time_of e) × IsInOrder (time_of e) es

-- The time of the last batch, or `start` before the first.
abbrev pub last_batch : ℕ → List BatchEvent → ℕ
last_batch start [] = start
last_batch start (batch_ran t ∷ es) = last_batch t es
last_batch start (e ∷ es) = last_batch start es

abbrev pub at_time : BatchContext → ℕ → BatchContext
at_time c t = record c { alerts = record c.alerts { now = t } }

module _ (c : BatchContext) where
  pub batch_event : BatchEvent → BatchState → BatchState
  batch_event (alert_raised k message notify_global t) b = record b {
    alerting = dispatch_alert (at_time c t).alerts k message notify_global b.alerting;
  }
  batch_event (alert_recovered k message notify_global t) b = record b {
    alerting = dispatch_recovery (at_time c t).alerts k message notify_global b.alerting;
  }
  batch_event (alert_closed k t) b = record b {
    alerting = record b.alerting { log = resolve_alert k b.alerting.log };
  }
  batch_event (batch_ran t) b = send_resource_alert_batch (at_time c t) b

  pub batch_events : List BatchEvent → BatchState → BatchState
  batch_events [] b = b
  batch_events (e ∷ es) b = batch_events es (batch_event e b)

  -- An eligible row of a batched type that was sent at `since` or later and before `limit`, and that
  -- names no channel.
  unfoldable pub is_missed : ℕ → ℕ → AlertRow → Bool
  is_missed since limit row =
      is_member row.key.alert_type batched_resource_alert_types
      && (is_eligible c row.key
          && (leb since row.sent_at && (ltb row.sent_at limit && is_blank row.channels_sent)))

-- A new row is not before the last batch.
is_missed-later :
    (c : BatchContext) (since limit : ℕ) (log : List AlertRow) (row : AlertRow)
    → limit ≤ row.sent_at
    → any (is_missed c since limit) log ≡ false
    → any (is_missed c since limit) (log ++ row ∷ []) ≡ false
unfolding is_missed
is_missed-later c since limit log row late none_missed =
    ground (arith, any-append (is_missed c since limit) log (row ∷ []), late, none_missed)

is_missed-resolve :
    (c : BatchContext) (since limit : ℕ) (k : AlertKey) (log : List AlertRow)
    → any (is_missed c since limit) (resolve_alert k log) ≡ any (is_missed c since limit) log
unfolding resolve_alert resolve_row is_missed
is_missed-resolve c since limit k [] = refl
is_missed-resolve c since limit k (row ∷ log) =
    ground (arith, is_missed-resolve c since limit k log)

-- The channels of a run whose mail went out are not blank.
is_blank-channels :
    (texted : List String)
    → (texted ≡ []) ⊎ (texted ≡ "WhatsApp" ∷ [])
    → is_blank (join_commas (sort_texts ("Email" ∷ texted))) ≡ false
unfolding is_blank join_commas sort_texts insert_text text_before
is_blank-channels texted (inl none_texted) = rw none_texted refl
is_blank-channels texted (inr one_texted) = rw one_texted refl

-- The roles do not depend on the time.
is_eligible-at :
    (c : BatchContext) (now : ℕ) (k : AlertKey) → is_eligible (at_time c now) k ≡ is_eligible c k
unfolding is_eligible
is_eligible-at c now k = refl

module _ (c : BatchContext) (since start now : ℕ) where
  -- After a run that marks no row because none is due.
  is_missed-idle :
      (log : List AlertRow)
      → any (is_due (at_time c now) start) log ≡ false
      → any (is_missed c since start) log ≡ false
      → any (is_missed c since now) log ≡ false
  unfolding is_missed is_due is_in_window
  is_missed-idle [] idle h = refl
  is_missed-idle (row ∷ log) idle h =
      ground (arith, is_missed-idle log, is_eligible-at c now row.key, idle, h)

  -- A row that was not missed before the run is not missed after it: it is marked if it is due.
  is_missed-mark_row :
      (channels : List String) (row : AlertRow)
      → is_cons channels ≡ true
      → is_blank (join_commas (sort_texts channels)) ≡ false
      → is_missed c since start row ≡ false
      → is_missed c since now (mark_row (at_time c now) start channels row) ≡ false
  unfolding is_missed mark_row is_in_window
  is_missed-mark_row channels row sent named h =
      ground (arith, is_eligible-at c now row.key, sent, named, h)

  is_missed-mark :
      (channels : List String) (log : List AlertRow)
      → is_cons channels ≡ true
      → is_blank (join_commas (sort_texts channels)) ≡ false
      → any (is_missed c since start) log ≡ false
      → any (is_missed c since now) (map (mark_row (at_time c now) start channels) log) ≡ false
  is_missed-mark channels [] sent named h = refl
  is_missed-mark channels (row ∷ log) sent named h =
      ground (
        arith,
        is_missed-mark channels log sent named,
        is_missed-mark_row channels row sent named,
        h,
      )

abbrev pub state_since : ℕ → Alerting → BatchState
state_since start a = record { alerting = a; last_run = some start }

module _ (c : BatchContext) (since : ℕ) (on : is_cons (batch_emails c) ≡ true)
    (sends : (mail : Mail) → c.alerts.gateway.sendmail mail ≡ true) where
  is_mailed-due :
      (start now : ℕ) (log : List AlertRow)
      → any (is_due (at_time c now) start) log ≡ true
      → is_mailed (at_time c now) log (eligible_groups (at_time c now) start log) ≡ true
  is_mailed-due start now log due =
      let eligible = eligible_groups (at_time c now) start log in
      ground (
        arith,
        is_cons-eligible (at_time c now) start log,
        on,
        sends (batch_mail log (batch_emails c) eligible),
        due,
      )

  is_missed-batched :
      (start now : ℕ) (a : Alerting)
      → any (is_missed c since start) a.log ≡ false
      → any
          (is_missed c since now)
          (send_resource_alert_batch (at_time c now) (state_since start a)).alerting.log
        ≡ false
  unfolding window_start
  is_missed-batched start now a h =
      let d = at_time c now in
      let ran = send_resource_alert_batch-IsRun d (state_since start a) in
      elim (Bool-cases (any (is_due d start) a.log)) [
        | inl due ↦
            let marks =
              ran.3
              ∙ ap (λ m. map (mark_row d start ((if m then "Email" ∷ [] else []) ++ ran.1)) a.log)
                  (is_mailed-due start now a.log due) in
            ap (any (is_missed c since now)) marks
            ∙ is_missed-mark c since start now ("Email" ∷ ran.1) a.log refl
                (is_blank-channels ran.1 ran.2) h
        | inr idle ↦
            ap (any (is_missed c since now)) (ran.3 ∙ map-mark_row d start _ a.log idle)
            ∙ is_missed-idle c since start now a.log idle h
      ]

  is_missed-raised :
      (start t : ℕ) (k : AlertKey) (message : String) (notify_global : Bool) (a : Alerting)
      → start ≤ t
      → any (is_missed c since start) a.log ≡ false
      → (any
            (is_missed c since start)
            (dispatch_alert (at_time c t).alerts k message notify_global a).log
          ≡ false)
        × (any
              (is_missed c since start)
              (dispatch_recovery (at_time c t).alerts k message notify_global a).log
            ≡ false)
  unfolding log_row
  is_missed-raised start t k message notify_global a le h = (
    rw (log-dispatch_alert) (is_missed-later c since start a.log _ le h),
    rw (log-dispatch_recovery) (is_missed-later c since start a.log _ le h),
  )

  -- Take a history of alerts, recoveries, resolved incidents and runs of the batch, in the order of
  -- their times and none before the marker, while the roles do not change, e-mail has recipients and
  -- every mail is accepted. If each eligible row of a batched type sent from `since` to before the
  -- marker named a channel when it began, then so does each sent to before the last run of the
  -- history, whose time is the new marker.
  pub batch_events-is_missed :
      (es : List BatchEvent) (start now : ℕ) (a : Alerting)
      → start ≤ now
      → IsInOrder now es
      → any (is_missed c since start) a.log ≡ false
      → let b' = batch_events c es (state_since start a) in
        (b'.last_run ≡ some (last_batch start es))
        × (any (is_missed c since (last_batch start es)) b'.alerting.log ≡ false)
  unfolding batch_events batch_event send_resource_alert_batch
  batch_events-is_missed [] start now a le order h = (refl, h)
  batch_events-is_missed (alert_raised k message notify_global t ∷ es) start now a le order h =
      batch_events-is_missed es start t
        (dispatch_alert (at_time c t).alerts k message notify_global a) (omega arith) order.1
        (is_missed-raised start t k message notify_global a (omega arith) h).0
  batch_events-is_missed (alert_recovered k message notify_global t ∷ es) start now a le order h =
      batch_events-is_missed es start t
        (dispatch_recovery (at_time c t).alerts k message notify_global a) (omega arith) order.1
        (is_missed-raised start t k message notify_global a (omega arith) h).1
  batch_events-is_missed (alert_closed k t ∷ es) start now a le order h =
      batch_events-is_missed es start t (record a { log = resolve_alert k a.log }) (omega arith)
        order.1 (is_missed-resolve c since start k a.log ∙ h)
  batch_events-is_missed (batch_ran t ∷ es) start now a le order h =
      batch_events-is_missed es t t
        (send_resource_alert_batch (at_time c t) (state_since start a)).alerting (omega arith)
        order.1 (is_missed-batched start t a h)
