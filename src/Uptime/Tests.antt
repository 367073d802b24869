-- ===== src/Uptime/Tests.antt =====
-- Runs of the uptime monitor on small inputs.
use alfaedge_pulse.Common.{
  ℕ, ◌<◌, String, ◌≡◌, refl, ◌≢◌, true, false, none, some, List, [], ◌∷◌, arith, length, keep, All,
}
use Prim.Native.String.{◌++◌ as str_append}
use alfaedge_pulse.Uptime.Reconcile.{is_unanimous, settle, Fleet, count_votes, site_down_key}
use alfaedge_pulse.Uptime.Checks.{Check, Site, is_counted, instance_verdict, newest_first}
use alfaedge_pulse.Uptime.Maintenance.{
  last_window_end, next_window, Window, active_window, occurrences, WindowType,
}
use alfaedge_pulse.Uptime.Reconcile.Sync.{
  vote, IsFlagged, others, settle-IsFlagged, settle_without_checks, settle-open_rows,
}
use alfaedge_pulse.Alerts.Channels.{Gateway, AlertSettings}
use alfaedge_pulse.Alerts.Dispatch.{AlertContext, dispatch_recovery}
use alfaedge_pulse.Alerts.Log.Laws.{open_rows}
use alfaedge_pulse.Uptime.Maintenance.Active.{in_window, active_window-first_that}
use alfaedge_pulse.Alerts.Log.{resolve_alert, AlertKey}
use alfaedge_pulse.Poller.Transition.Incidents.{number}
use alfaedge_pulse.Common.Tables.{first_that}

abbrev gateway : Gateway
gateway = record {
  sendmail = λ mail. false;
  insert_message = λ doc. false;
  whatsapp_installed = false;
  template_exists = λ name. false;
  template_named = λ name. none;
  json_body = λ message. message;
}

abbrev settings : AlertSettings
settings = record {
  enable_email_alerts = false;
  email_recipients = none;
  enable_whatsapp_alerts = false;
  whatsapp_recipients = none;
  whatsapp_template = none;
  whatsapp_recovery_template = none;
}

-- 03:00 on the third day, a Wednesday.
abbrev instant : ℕ
instant = 183600000000

abbrev context : AlertContext
context = record { gateway = gateway; settings = settings; now = instant }

-- Every day from 21:00 to 07:00.
abbrev nightly : Window
nightly = record {
  name = "w1";
  site_name = "shop";
  enabled = true;
  window_type = WindowType.daily;
  all_day = false;
  start_time = some 75600000000;
  end_time = some 25200000000;
  start_datetime = none;
  end_datetime = none;
  monday = false;
  tuesday = false;
  wednesday = false;
  thursday = false;
  friday = false;
  saturday = false;
  sunday = false;
}

nightly_runs : active_window (nightly ∷ []) instant ≡ some nightly
unfolding active_window occurrences
nightly_runs = refl

nightly_ended : last_window_end (nightly ∷ []) 200000000000 ≡ some 198000000000
unfolding last_window_end occurrences
nightly_ended = refl

next_night : next_window (nightly ∷ []) instant ≡ some (248400000000, 284400000000)
unfolding next_window occurrences
next_night = refl

active_window-first_that_example :
    active_window (nightly ∷ []) instant ≡ first_that (λ w. in_window w instant) (nightly ∷ [])
active_window-first_that_example =
    active_window-first_that (nightly ∷ []) instant (omega arith)
      (record { starts = omega arith; ends = omega arith }, tt)

abbrev shop_a : Site
shop_a = record {
  name = "a-shop";
  site_name = "shop";
  is_active = true;
  is_critical = true;
  current_status = "Down";
  last_checked = none;
}

abbrev shop_b : Site
shop_b = record shop_a { name = "b-shop" }

abbrev shops : List Site
shops = shop_a ∷ shop_b ∷ []

abbrev down_at : String → ℕ → Check
down_at site t = record {
  site = site;
  checked_at = t;
  is_up = false;
  raw_status = 0;
  response_time_ms = none;
  in_maintenance = false;
}

abbrev fleet : Fleet
fleet = record {
  sites = shops;
  checks = down_at "a-shop" 10 ∷ down_at "b-shop" 11 ∷ [];
  alerting = record { log = []; out = record { mails = []; messages = []; errors = [] } };
}

both_down : vote fleet.checks 1 none shops ≡ true
unfolding vote count_votes is_unanimous instance_verdict is_counted newest_first
both_down = refl

settle-IsFlagged_example :
    let fleet' = settle context 1 none "shop" shop_a shops fleet in
    IsFlagged shops (vote fleet.checks 1 none shops) fleet'.sites
    × (others shops fleet'.sites ≡ others shops fleet.sites)
    × (fleet'.checks ≡ fleet.checks)
settle-IsFlagged_example =
    settle-IsFlagged context 1 none "shop" shop_a shops fleet (λ _. refl, (λ _. refl, tt))

settle-open_rows_example :
    let first = record shop_a { is_critical = false } in
    let fleet' = settle context 1 none "shop" first shops fleet in
    (open_rows (site_down_key "a-shop") fleet'.alerting.log
      ≡ number (vote fleet.checks 1 none shops))
    × ((j : AlertKey) → j ≢ site_down_key "a-shop" → open_rows j fleet'.alerting.log ≡ 0)
settle-open_rows_example =
    settle-open_rows context 1 none "shop" (record shop_a { is_critical = false }) shops fleet refl

too_few : All (λ s. length (keep (is_counted s.name (some 20)) fleet.checks) < 3) shops
unfolding is_counted
too_few = (omega arith, (omega arith, tt))

settle_without_checks_example :
    (settle context 3 (some 20) "shop" shop_a shops fleet).alerting
    ≡ dispatch_recovery context
        (site_down_key "a-shop")
        (str_append "shop" " is back up.")
        true
        (record { log = resolve_alert (site_down_key "a-shop") []; out = fleet.alerting.out })
settle_without_checks_example =
    settle_without_checks context 3 (some 20) "shop" shop_a shops fleet refl too_few
