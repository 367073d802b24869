-- ===== src/Logs/Check.antt =====
-- tasks/log_monitor.py: the second loop of `run_check`, and the schedule of `check_recurring_errors`.
use alfaedge_pulse.Common.{
  ℕ, ◌+◌, ◌*◌, max, String, Bool, true, false, not, ◌&&◌, Option, none, some, List, [], ◌∷◌, ltb,
  if◌then◌else◌,
}
use alfaedge_pulse.Alerts.Dispatch.{AlertContext, Alerting, dispatch_recovery}
use alfaedge_pulse.Logs.{
  RecurringError, ErrorGroup, LogState, breaching_of, recurring_key, store_breaches,
}
use alfaedge_pulse.Common.Text.{is_blank, or_empty, concat, decimal}
use alfaedge_pulse.Common.Dicts.{has_key}
use alfaedge_pulse.Alerts.Log.{resolve_alert, has_open_alert}

-- A row of `{"is_critical": 1, "ignored": 0}` whose signature does not breach.
unfoldable pub is_recovered : List (String × ErrorGroup) → RecurringError → Bool
is_recovered breaching e = e.is_critical && not e.ignored && not (has_key e.signature breaching)

unfoldable pub mark_recovered : ℕ → RecurringError → RecurringError
mark_recovered now e = record e { is_critical = false; window_count = 0; last_recovered = some now }

pub recovery_text : ℕ → ℕ → RecurringError → String
recovery_text threshold window e = concat (
    "Back to normal: "
    ∷ e.title
    ∷ " on "
    ∷ e.site_url
    ∷ " — under "
    ∷ decimal threshold
    ∷ "x in the last "
    ∷ decimal window
    ∷ " min"
    ∷ [])

module _ (c : AlertContext) (threshold window : ℕ) (breaching : List (String × ErrorGroup)) where
  unfoldable pub close_alert : RecurringError → Alerting → Alerting
  close_alert e a =
      let k = recurring_key e.name in
      let resolved : Alerting = record a { log = resolve_alert k a.log } in
      if has_open_alert k a.log
      then dispatch_recovery c k (recovery_text threshold window e) true resolved
      else a

  -- The loop over the rows of the query; a turn writes the row that it is about.
  unfoldable pub recover_errors : List RecurringError → Alerting → List RecurringError × Alerting
  recover_errors [] a = ([], a)
  recover_errors (e ∷ es) a =
      let closed = if is_recovered breaching e then close_alert e a else a in
      let (rest, after) = recover_errors es closed in
      ((if is_recovered breaching e then mark_recovered c.now e else e) ∷ rest, after)

-- log_monitor.py: `run_check`, for the rows that the query returned.
unfoldable pub run_check :
    AlertContext
    → (ℕ → String)
    → ℕ
    → ℕ
    → List (String × String)
    → List ErrorGroup
    → LogState
    → LogState
run_check c time_text threshold window host_by_site rows s =
    let breaching = breaching_of rows [] in
    let stored = store_breaches c time_text window host_by_site breaching s in
    let (errors, alerting) =
      recover_errors c threshold window breaching stored.errors stored.alerting in
    record { errors = errors; alerting = alerting }

-- `last_run and get_datetime(last_run) > add_to_date(now, minutes=-interval, seconds=10)`
is_recent : Option ℕ → ℕ → ℕ → Bool
is_recent none interval now = false
is_recent (some last) interval now = ltb (now + 10) (last + 60 * interval)

-- log_monitor.py: `check_recurring_errors`, its tests; times are in seconds.
pub is_check_due : Bool → Bool → Option String → Option ℕ → ℕ → ℕ → Bool
is_check_due enabled enable_recurring_alerts host last_run check_interval_minutes now =
    enabled
    && enable_recurring_alerts
    && not (is_blank (or_empty host))
    && not (is_recent last_run (max check_interval_minutes 1) now)
