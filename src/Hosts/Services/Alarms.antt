-- ===== src/Hosts/Services/Alarms.antt =====
-- `_upsert_service`: the row of a service and its alert.
use alfaedge_pulse.Common.{
  ℕ, ◌+◌, String, ◌≡◌, refl, Bool, true, false, ◌&&◌, Option, some, [], ◌∷◌, arith, str_eq, eq_iff,
  eq_refl, leb, if◌then◌else◌,
}
use alfaedge_pulse.Hosts.Services.{
  is_service, next_service, ServiceLog, ServiceReport, Services, reported_name, upsert_service,
  service_key, log_name, was_down, known_state, old_streak, service_text,
}
use alfaedge_pulse.Alerts.Dispatch.{AlertContext}
use alfaedge_pulse.Alerts.Channels.{is_set}
use alfaedge_pulse.Common.Tables.{first_that, upsert, first_that-upsert, first_that-upsert_other}
use alfaedge_pulse.Alerts.Log.Laws.{open_rows}
use alfaedge_pulse.Poller.Transition.Incidents.{number, transition-tracked}
use alfaedge_pulse.Poller.Transition.{handle_transition}
use alfaedge_pulse.Common.Text.{concat}

next_service-is_service :
    (now checks : ℕ) (new_name host : String) (row : ServiceReport) (o : Option ServiceLog)
    → is_service host (reported_name row) (next_service now checks new_name host row o) ≡ true
unfolding is_service next_service
next_service-is_service now checks new_name host row o =
    ground (arith, eq_refl host, eq_refl (reported_name row))

next_service_misses :
    (now checks : ℕ) (new_name host : String) (row : ServiceReport) (h n : String)
    → (str_eq host h && str_eq (reported_name row) n) ≡ false
    → (o : Option ServiceLog) → is_service h n (next_service now checks new_name host row o) ≡ false
unfolding is_service next_service
next_service_misses now checks new_name host row h n other o = ground arith

is_service_apart :
    (host name h n : String)
    → (str_eq host h && str_eq name n) ≡ false
    → (log : ServiceLog) → is_service host name log ≡ true
    → is_service h n log ≡ false
unfolding is_service
is_service_apart host name h n other log here = ground (
  arith,
  eq_iff log.monitored_host host,
  eq_iff log.service_name name,
  eq_iff log.monitored_host h,
  eq_iff log.service_name n,
  eq_iff host h,
  eq_iff name n,
)

module _ (c : AlertContext) (checks : ℕ) (notify : Bool) (new_name host : String)
    (row : ServiceReport) (s : Services) where
  -- A report that names its unit, where the alert of the service's row was open exactly if the row
  -- was down: the service has a row afterwards, with a streak that is one longer unless the service
  -- is active and 0 if it is, which is down exactly if the streak has reached the given number of
  -- checks, and whose alert is open exactly if it is down; every other service is found as before.
  pub upsert_service_lem :
      is_set row.unit_name ≡ true
      → let existing = first_that (is_service host (reported_name row)) s.logs in
        open_rows (service_key (log_name new_name existing)) s.alerting.log
          ≡ number (was_down existing)
        → (s' : Services) × (log : ServiceLog) × (upsert_service c checks notify new_name host row s
            ≡ some s')
          × (first_that (is_service host (reported_name row)) s'.logs ≡ some log)
          × (log.down_streak ≡ (
              if str_eq (known_state row.current_state) "active"
              then 0
              else old_streak existing + 1))
          × (log.is_down ≡ leb checks log.down_streak)
          × (open_rows (service_key log.name) s'.alerting.log ≡ number log.is_down)
          × ((h n : String)
              → (str_eq host h && str_eq (reported_name row) n) ≡ false
              → first_that (is_service h n) s'.logs ≡ first_that (is_service h n) s.logs)
  unfolding upsert_service
  upsert_service_lem named tracked =
      let same = is_service host (reported_name row) in
      let next = next_service c.now checks new_name host row in
      let existing = first_that same s.logs in
      let log = next existing in
      let alerting =
        handle_transition c (was_down existing) log.is_down (service_key log.name)
          (service_text host log (concat ("down (" ∷ log.current_state ∷ ")." ∷ [])))
          (some (service_text host log "back up.")) notify s.alerting in
      (
        record { logs = upsert same next s.logs; alerting = alerting },
        log,
        rw named refl,
        first_that-upsert same next s.logs (next_service-is_service c.now checks new_name host row),
        unfold next_service in refl,
        unfold next_service in refl,
        (transition-tracked c (service_key log.name) _ _ notify (was_down existing) log.is_down
            s.alerting (unfold next_service in tracked)).0,
        λ h n other.
            first_that-upsert_other same (is_service h n) next s.logs
              (next_service_misses c.now checks new_name host row h n other)
              (is_service_apart host (reported_name row) h n other),
      )
