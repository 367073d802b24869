-- ===== src/Poller/Transition/Incidents.antt =====
-- `_handle_transition`, over single polls and over histories of polls.
use alfaedge_pulse.Common.{
  ℕ, ◌+◌, String, ◌≡◌, ◌≢◌, Bool, true, false, not, ◌&&◌, Option, some, List, [], ◌∷◌, arith, ◌==◌,
  if◌then◌else◌,
}
use alfaedge_pulse.Alerts.Dispatch.{AlertContext, Alerting, dispatch_recovery}
use alfaedge_pulse.Alerts.Log.{AlertKey, same_key, resolve_alert, has_open_alert}
use alfaedge_pulse.Poller.Transition.{handle_transition}
use alfaedge_pulse.Alerts.Log.Laws.{
  open_rows, open_rows-resolve, has_open_alert-eq, same_key_iff, key_rows, same_key_self,
  key_rows-resolve,
}
use alfaedge_pulse.Alerts.Dispatch.Laws.{
  open_rows-dispatch_alert, open_rows-dispatch_recovery, key_rows-dispatch_alert,
  key_rows-dispatch_recovery,
}
use alfaedge_pulse.Common.Text.{or_empty, is_blank}
use alfaedge_pulse.Alerts.Channels.{is_set}

-- A turn back from critical closes the incident and announces the recovery.
pub transition_recovers :
    (c : AlertContext) (k : AlertKey) (message recovery : String) (notify : Bool) (a : Alerting)
    → is_blank recovery ≡ false
    → handle_transition c true false k message (some recovery) notify a
      ≡ dispatch_recovery c k recovery notify (record { log = resolve_alert k a.log; out = a.out })
unfolding handle_transition
transition_recovers c k message recovery notify a h = rw h

-- How many open rows an incident has after one transition, from how many it had.
abbrev pub next_open : Bool → Bool → ℕ → ℕ
next_open was is n =
    if is && not was
    then n + 1
    else if was && not is
    then 0
    else if is && was && n == 0
    then 1
    else n

abbrev pub number : Bool → ℕ
number b = if b then 1 else 0

-- The state after a history, and how often it turned critical and turned back.
abbrev pub final : Bool → List Bool → Bool
final was [] = was
final was (is ∷ later) = final is later

abbrev pub rises : Bool → List Bool → ℕ
rises was [] = 0
rises was (is ∷ later) = number (is && not was) + rises is later

abbrev pub falls : Bool → List Bool → ℕ
falls was [] = 0
falls was (is ∷ later) = number (was && not is) + falls is later

module _ (c : AlertContext) (k : AlertKey) (message : String) (recovery : Option String)
    (notify : Bool) where
  -- `_handle_transition` changes the open rows of its own incident alone.
  pub open_rows-transition :
      (was is : Bool) (a : Alerting) (j : AlertKey)
      → open_rows j (handle_transition c was is k message recovery notify a).log
        ≡ (if same_key k j then next_open was is (open_rows k a.log) else open_rows j a.log)
  unfolding handle_transition
  open_rows-transition was is a j = ground (
    arith,
    open_rows-dispatch_alert c k message notify a j,
    open_rows-resolve k j a.log,
    open_rows-dispatch_recovery c k (or_empty recovery) notify
        (record a { log = resolve_alert k a.log }) j,
    has_open_alert-eq k a.log,
    same_key_iff k j,
    same_key_iff j k,
  )

  -- From one open row exactly if the state was critical, to one exactly if it is.
  pub transition-tracked :
      (was is : Bool) (a : Alerting)
      → open_rows k a.log ≡ number was
      → (open_rows k (handle_transition c was is k message recovery notify a).log ≡ number is)
        × ((j : AlertKey)
            → j ≢ k
            → open_rows j (handle_transition c was is k message recovery notify a).log
              ≡ open_rows j a.log)
  transition-tracked was is a h = (
    ground (arith, open_rows-transition was is a k, same_key_self k),
    λ j other. ground (arith, open_rows-transition was is a j, same_key_iff k j),
  )

  -- After a transition to critical the incident has an open row, from every log.
  pub transition_opens :
      (was : Bool) (a : Alerting)
      → has_open_alert k (handle_transition c was true k message recovery notify a).log ≡ true
  transition_opens was a = ground (
    arith,
    open_rows-transition was true a k,
    same_key_self k,
    has_open_alert-eq k (handle_transition c was true k message recovery notify a).log,
  )

  pub key_rows-transition :
      (was is : Bool) (a : Alerting)
      → open_rows k a.log ≡ number was
      → key_rows k (handle_transition c was is k message recovery notify a).log
        ≡ key_rows k a.log + number (is && not was) + number (was && not is && is_set recovery)
  unfolding handle_transition
  key_rows-transition was is a h = ground (
    arith,
    key_rows-dispatch_alert c k message notify a k,
    same_key_self k,
    key_rows-dispatch_recovery c k (or_empty recovery) notify
        (record a { log = resolve_alert k a.log }) k,
    key_rows-resolve k k a.log,
    has_open_alert-eq k a.log,
  )

  -- The rows of every other incident stay as many as they were.
  pub key_rows-transition_other :
      (was is : Bool) (a : Alerting) (j : AlertKey)
      → same_key j k ≡ false
      → key_rows j (handle_transition c was is k message recovery notify a).log ≡ key_rows j a.log
  unfolding handle_transition
  key_rows-transition_other was is a j other = ground (
    arith,
    key_rows-dispatch_alert c k message notify a j,
    key_rows-dispatch_recovery c k (or_empty recovery) notify
        (record a { log = resolve_alert k a.log }) j,
    key_rows-resolve k j a.log,
  )

  -- The polls of a history, oldest first, from the state `was` before them.
  pub follow : Bool → List Bool → Alerting → Alerting
  follow was [] a = a
  follow was (is ∷ later) a =
      follow is later (handle_transition c was is k message recovery notify a)

  follow-open_rows :
      (was : Bool) (history : List Bool) (a : Alerting)
      → open_rows k a.log ≡ number was
      → open_rows k (follow was history a).log ≡ number (final was history)
  unfolding follow
  follow-open_rows was [] a h = h
  follow-open_rows was (is ∷ later) a h =
      follow-open_rows is later _ (ground (arith, open_rows-transition was is a k, same_key_self k))

  follow-key_rows :
      (was : Bool) (history : List Bool) (a : Alerting)
      → open_rows k a.log ≡ number was
      → key_rows k (follow was history a).log
        ≡ key_rows k a.log + rises was history + (if is_set recovery then falls was history else 0)
  unfolding follow
  follow-key_rows was [] a h = ground arith
  follow-key_rows was (is ∷ later) a h =
      let next = handle_transition c was is k message recovery notify a in
      let tracked : open_rows k next.log ≡ number is =
        ground (arith, open_rows-transition was is a k, same_key_self k) in
      ground (arith, follow-key_rows is later next tracked, key_rows-transition was is a h)

  -- Over any history of polls that began with one open row exactly if the state was critical, there
  -- is one open row at the end exactly if the last state is critical, and the log has grown by one
  -- row for each turn to critical and, where recoveries are announced, one for each turn back.
  pub follow_lem :
      (was : Bool) (history : List Bool) (a : Alerting)
      → open_rows k a.log ≡ number was
      → (open_rows k (follow was history a).log ≡ number (final was history))
        × (key_rows k (follow was history a).log
            ≡ key_rows k a.log
              + rises was history
              + (if is_set recovery then falls was history else 0))
  follow_lem was history a h = (follow-open_rows was history a h, follow-key_rows was history a h)
