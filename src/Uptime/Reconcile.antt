-- ===== src/Uptime/Reconcile.antt =====
-- tasks/uptime_kuma_poller.py: the vote of the instances on each site, and the alert on its result.
pub mod Unanimity
pub mod Sync
use alfaedge_pulse.Common.{
  ℕ, ◌+◌, String, Bool, true, ◌&&◌, Option, none, some, List, [], ◌∷◌, map, str_eq, ltb, ◌==◌,
  if◌then◌else◌, any, all,
}
use Prim.Native.String.{◌++◌ as str_append}
use mathlib.Core.Bool.{xor}
use alfaedge_pulse.Common.Groups.{group_by, group_of}
use alfaedge_pulse.Alerts.Log.{AlertKey}
use alfaedge_pulse.Uptime.Checks.{Site, Check, instance_verdict}
use alfaedge_pulse.Alerts.Dispatch.{AlertContext, Alerting}
use alfaedge_pulse.Uptime.Maintenance.{Window, last_window_end, windows_by_site, active_window}
use alfaedge_pulse.Poller.Transition.{handle_transition}

-- The tables that the reconciliation reads and writes.
pub record Fleet : Type 0 where
  pub sites : List Site
  pub checks : List Check
  pub alerting : Alerting

pub record Votes : Type 0 where
  pub down_votes : ℕ
  pub total_votes : ℕ

pub add_vote : Option Bool → Votes → Votes
add_vote none v = v
add_vote (some down) v = record {
  down_votes = if down then v.down_votes + 1 else v.down_votes;
  total_votes = v.total_votes + 1;
}

-- The loop over the siblings: a paused one has no vote.
unfoldable pub count_votes : (Site → Option Bool) → List Site → Votes → Votes
unfolding add_vote
count_votes verdict [] v = v
count_votes verdict (s ∷ ss) v =
    count_votes verdict ss (if s.is_active then add_vote (verdict s) v else v)

abbrev pub no_votes : Votes
no_votes = record { down_votes = 0; total_votes = 0 }

-- `total_votes > 0 and down_votes == total_votes`
unfoldable pub is_unanimous : Votes → Bool
is_unanimous v = ltb 0 v.total_votes && v.down_votes == v.total_votes

pub is_named : String → List Site → Bool
is_named name siblings = any (λ s. str_eq s.name name) siblings

-- `set_value("Uptime Site", sibling.name, "is_critical", …)` for every sibling.
pub set_critical : List Site → Bool → List Site → List Site
set_critical siblings critical sites =
    map (λ s. if is_named s.name siblings then record s { is_critical = critical } else s) sites

pub site_down_key : String → AlertKey
site_down_key name = record {
  reference_doctype = "Uptime Site";
  reference_name = name;
  alert_type = "Site Down";
}

-- One turn of the loop, for a group that is not in a scheduled window.
pub settle : AlertContext → ℕ → Option ℕ → String → Site → List Site → Fleet → Fleet
unfolding count_votes add_vote is_unanimous set_critical is_named site_down_key
settle c window since site_name first siblings fleet =
    let votes =
      count_votes (λ s. instance_verdict fleet.checks s.name window since) siblings no_votes in
    let was_critical = first.is_critical in
    let is_critical = is_unanimous votes in
    record fleet {
      sites =
          if xor is_critical was_critical
          then set_critical siblings is_critical fleet.sites
          else fleet.sites;
      alerting =
          handle_transition c was_critical is_critical (site_down_key first.name)
            (str_append site_name " is down (flagged Down by all of its monitoring instances).")
            (some (str_append site_name " is back up.")) true fleet.alerting;
    }

-- One turn of the loop over the groups; a group is never empty.
pub reconcile_group :
    AlertContext → ℕ → List (String × List Window) → String × List Site → Fleet → Fleet
reconcile_group c window windows (site_name, []) fleet = fleet
reconcile_group c window windows (site_name, first ∷ rest) fleet =
    let site_windows = group_of str_eq site_name windows in
    let settled =
      settle c window (last_window_end site_windows c.now) site_name first (first ∷ rest) fleet in
    elim (active_window site_windows c.now) [ none ↦ settled | some w ↦ fleet ]

reconcile_groups :
    AlertContext → ℕ → List (String × List Window) → List (String × List Site) → Fleet → Fleet
reconcile_groups c window windows [] fleet = fleet
reconcile_groups c window windows (g ∷ gs) fleet =
    reconcile_groups c window windows gs (reconcile_group c window windows g fleet)

-- uptime_kuma_poller.py: `_reconcile_site_criticality`, over the rows of `Uptime Maintenance
-- Window`; the sites stand in the order of their names.
pub reconcile_site_criticality : AlertContext → ℕ → List Window → Fleet → Fleet
unfolding reconcile_groups reconcile_group
reconcile_site_criticality c window rows fleet =
    reconcile_groups c window (windows_by_site rows)
      (group_by str_eq (λ s. s.site_name) fleet.sites) fleet
