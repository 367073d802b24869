-- ===== src/Poller/Transition/Levels.antt =====
-- The level-triggered form of an alert, and its open rows.
use alfaedge_pulse.Common.{◌≤◌, max, String, ◌≡◌, ◌≢◌, Bool, Option, arith, if◌then◌else◌}
use alfaedge_pulse.Alerts.Dispatch.{AlertContext, Alerting}
use alfaedge_pulse.Alerts.Log.{AlertKey, has_open_alert, same_key, resolve_alert}
use alfaedge_pulse.Poller.Transition.{level_alert}
use alfaedge_pulse.Alerts.Log.Laws.{
  open_rows, same_key_self, has_open_alert-eq, open_rows-resolve, same_key_iff,
}
use alfaedge_pulse.Alerts.Dispatch.Laws.{open_rows-dispatch_alert, open_rows-dispatch_recovery}
use alfaedge_pulse.Common.Text.{or_empty}

module _ (c : AlertContext) (k : AlertKey) (message : String) (recovery : Option String)
    (notify : Bool) where
  open_rows-level_alert :
      (wanted : Bool) (a : Alerting) (j : AlertKey)
      → open_rows j (level_alert c wanted k message recovery notify a).log ≡ (
          if same_key k j
          then (if wanted then max (open_rows k a.log) 1 else 0)
          else open_rows j a.log)
  unfolding level_alert
  open_rows-level_alert wanted a j = ground (
    arith,
    open_rows-dispatch_alert c k message notify a j,
    open_rows-resolve k j a.log,
    open_rows-dispatch_recovery c k (or_empty recovery) notify
        (record a { log = resolve_alert k a.log }) j,
    has_open_alert-eq k a.log,
    same_key_iff k j,
    same_key_iff j k,
  )

  -- The alert is open afterwards exactly if it is wanted, with one open row if it had at most one;
  -- the other incidents keep their open rows.
  pub level_alert_lem :
      (wanted : Bool) (a : Alerting)
      → let a' = level_alert c wanted k message recovery notify a in
        (has_open_alert k a'.log ≡ wanted)
        × (open_rows k a.log ≤ 1 → open_rows k a'.log ≤ 1)
        × ((j : AlertKey) → j ≢ k → open_rows j a'.log ≡ open_rows j a.log)
  level_alert_lem wanted a =
      let own = open_rows-level_alert wanted a k in
      (
        ground (
          arith,
          own,
          same_key_self k,
          has_open_alert-eq k (level_alert c wanted k message recovery notify a).log,
        ),
        λ h. ground (arith, own, same_key_self k),
        λ j other. ground (arith, open_rows-level_alert wanted a j, same_key_iff k j),
      )
