-- ===== src/Logs/Tests.antt =====
-- One error that breaches the threshold, and one that recovers.
use alfaedge_pulse.Common.{ℕ, ◌≤◌, String, refl, true, [], ◌∷◌}
use alfaedge_pulse.Poller.Tests.{context, empty_alerting}
use alfaedge_pulse.Logs.{
  ErrorGroup, LogState, RecurringError, breaching_of, new_error, name_of_error,
}
use alfaedge_pulse.Common.Dicts.{has_key, dict_set}
use alfaedge_pulse.Common.Text.{concat}
use alfaedge_pulse.Logs.Check.{run_check}
use alfaedge_pulse.Logs.Open.{open_for, run_check-opens}

abbrev crash : ErrorGroup
crash = record {
  signature = "s1";
  site_url = "shop.example.com";
  title = "KeyError";
  occurrences = 12;
  first_seen = 100;
  last_seen = 200;
  latest_log_id = "l9";
}

abbrev calm : RecurringError
calm = record (new_error "RE-s2" "s2") { is_critical = true }

abbrev before : LogState
before = record { errors = calm ∷ []; alerting = empty_alerting }

abbrev clock : ℕ → String
clock t = "noon"

run_check-opens_example :
    1 ≤ open_for "s1" (run_check context clock 5 10 [] (crash ∷ []) before).alerting
unfolding has_key breaching_of dict_set name_of_error new_error concat
run_check-opens_example =
    run_check-opens context clock 5 10 [] (crash ∷ []) before "s1" (refl, tt) refl
