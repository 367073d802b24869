-- ===== src/Hosts/Load.antt =====
-- host_health/ingest.py: `_upsert_resource_metrics` and the load and swap of `process_resources`.
-- Load averages are hundredths, swap sizes bytes, and percentages tenths.
use alfaedge_pulse.Common.{
  ℕ, ◌*◌, String, Bool, false, Option, none, some, List, [], ◌∷◌, ◌++◌, str_eq, ◌==◌, if◌then◌else◌,
  keep,
}
use alfaedge_pulse.Poller.Severity.{Streaks, or_default, Thresholds, track_severity}
use alfaedge_pulse.Common.Numbers.{round_ratio}
use alfaedge_pulse.Alerts.Dispatch.{AlertContext, Alerting}
use alfaedge_pulse.Common.Tables.{newest}
use alfaedge_pulse.Poller.Transition.{handle_transition}
use alfaedge_pulse.Hosts.Heartbeat.{host_key}
use alfaedge_pulse.Common.Text.{concat}
use alfaedge_pulse.Hosts.Disks.{cint}

-- A row of `Resource Metric Log`.
pub record ResourceMetric : Type 0 where
  pub monitored_host : String
  pub collected_at : ℕ
  pub cpu_core_count : ℕ
  pub load_avg_1min : ℕ
  pub load_avg_5min : ℕ
  pub load_avg_15min : ℕ
  pub load_normalized_percent : ℕ
  pub load_streaks : Streaks
  pub swap_used : Option ℕ
  pub swap_total : Option ℕ
  pub swap_usage_percent : Option ℕ
  pub swap_streaks : Streaks

pub record LoadReport : Type 0 where
  pub cpu_core_count : Option ℕ
  pub one_minute : ℕ
  pub five_minutes : ℕ
  pub fifteen_minutes : ℕ

pub record SwapReport : Type 0 where
  pub total : Option ℕ
  pub used : ℕ

-- `cint(load.get("cpu_core_count")) or 1`
pub core_count_of : LoadReport → ℕ
core_count_of load = or_default (cint load.cpu_core_count) 1

-- `round((load_avg_1min / cpu_core_count) * 100, 1)`
pub normalized_load : LoadReport → ℕ
unfolding core_count_of
normalized_load load = round_ratio (10 * load.one_minute) (core_count_of load)

-- None where no swap is configured.
pub swap_usage : SwapReport → Option ℕ
swap_usage swap =
    if cint swap.total == 0 then none else some (round_ratio (1000 * swap.used) (cint swap.total))

pub no_streaks : Streaks
no_streaks = record { warning_streak = 0; critical_streak = 0 }

pub prior_streaks : (ResourceMetric → Streaks) → Option ResourceMetric → Streaks
unfolding no_streaks
prior_streaks field none = no_streaks
prior_streaks field (some m) = field m

-- Without swap its streaks stay, and it is not critical.
pub track_swap : Streaks → Option ℕ → Thresholds → Streaks × Bool
track_swap streaks none t = (streaks, false)
track_swap streaks (some usage) t =
    let (streaks', severity) = track_severity streaks usage t in (streaks', severity.is_critical)

-- The two results.
pub record LoadFlags : Type 0 where
  pub is_load_critical : Bool
  pub is_swap_critical : Bool

-- ingest.py: `_upsert_resource_metrics`
pub upsert_resource_metrics :
    ℕ
    → Thresholds
    → Thresholds
    → String
    → LoadReport
    → SwapReport
    → List ResourceMetric
    → LoadFlags × List ResourceMetric
unfolding normalized_load swap_usage prior_streaks track_swap newest
upsert_resource_metrics now load_limits swap_limits host load swap metrics =
    let prior = newest (λ m. m.collected_at) (keep (λ m. str_eq m.monitored_host host) metrics) in
    let (load_streaks', load_severity) =
      track_severity (prior_streaks (λ m. m.load_streaks) prior) (normalized_load load)
        load_limits in
    let (swap_streaks', swap_critical) =
      track_swap (prior_streaks (λ m. m.swap_streaks) prior) (swap_usage swap) swap_limits in
    (
      record { is_load_critical = load_severity.is_critical; is_swap_critical = swap_critical },
      metrics
          ++ record {
            monitored_host = host;
            collected_at = now;
            cpu_core_count = core_count_of load;
            load_avg_1min = load.one_minute;
            load_avg_5min = load.five_minutes;
            load_avg_15min = load.fifteen_minutes;
            load_normalized_percent = normalized_load load;
            load_streaks = load_streaks';
            swap_used = if cint swap.total == 0 then none else some swap.used;
            swap_total = swap.total;
            swap_usage_percent = swap_usage swap;
            swap_streaks = swap_streaks';
          }
            ∷ [],
    )

-- The load and swap of ingest.py: `process_resources`, with the flags stored on the host.
unfoldable pub process_load :
    AlertContext
    → Thresholds
    → Thresholds
    → Bool
    → String
    → LoadReport
    → SwapReport
    → List ResourceMetric
    → LoadFlags
    → Alerting
    → List ResourceMetric × LoadFlags × Alerting
unfolding upsert_resource_metrics
process_load c load_limits swap_limits notify host load swap metrics was a =
    let (is, metrics') =
      upsert_resource_metrics c.now load_limits swap_limits host load swap metrics in
    (
      metrics',
      is,
      handle_transition c was.is_swap_critical is.is_swap_critical (host_key host "High Swap Usage")
          (concat (host ∷ ": swap usage has stayed at/above the critical threshold." ∷ []))
          (some (concat (host ∷ ": swap usage back to normal." ∷ []))) notify
          (handle_transition c was.is_load_critical is.is_load_critical
            (host_key host "High Load Average")
            (concat (host ∷ ": load average has stayed at/above the critical threshold." ∷ []))
            (some (concat (host ∷ ": load average back to normal." ∷ []))) notify a),
    )
