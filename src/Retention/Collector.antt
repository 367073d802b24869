-- ===== src/Retention/Collector.antt =====
-- proxmox_resource_history/collector.py: the samples of live polls, at most one per interval.
pub mod Spacing
use alfaedge_pulse.Retention.{◌>>=◌}
use alfaedge_pulse.Common.{
  All-map, All-any, ℕ, zero, suc, ◌+◌, ◌-◌, ◌*◌, ◌/◌, ◌%◌, ◌≤◌, ◌<◌, max, String, ◌≡◌, refl, sym,
  ap, ◌∙◌, ◌≢◌, ◌↔◌, ◌⊎◌, inl, inr, Bool, true, false, not, ◌&&◌, ◌||◌, Option, none, some, List,
  [], ◌∷◌, ◌++◌, map, foldl, arith, str_eq, eq_iff, eq_refl, ltb, leb, ◌==◌, if◌then◌else◌,
  Bool-cases, Option-cases, ltb→lt, lt→ltb, leb→le, le→leb, tests, length, take, any, all, keep,
  count, length-append, any-append, count-append, count-le-length, All, length-map,
}
use alfaedge_pulse.Common.Dicts.{dict_set, dict_get}
use alfaedge_pulse.Retention.Backfill.{HistoryTables}
use alfaedge_pulse.Retention.History.{HostRow, GuestRow, percent_of, gigabytes, present, flt}
use alfaedge_pulse.Common.Text.{concat, decimal}
use alfaedge_pulse.Poller.Severity.{or_default}
use alfaedge_pulse.Common.Numbers.{round_ratio}

-- `_Settings`, as `_get_settings` reads it.
pub record CollectorSettings : Type 0 where
  pub enabled : Bool
  pub interval_seconds : ℕ

abbrev pub default_interval_seconds : ℕ
default_interval_seconds = 60

unfoldable pub get_settings : Bool → ℕ → CollectorSettings
get_settings enabled setting = record {
  enabled = enabled;
  interval_seconds = or_default setting default_interval_seconds;
}

-- The two tables and the error log, and the keys of the gate with the times at which they expire.
pub record Collector : Type 0 where
  pub tables : HistoryTables
  pub gate : List (String × ℕ)

unfoldable pub is_gate_shut : ℕ → String → List (String × ℕ) → Bool
is_gate_shut now key gate = elim (dict_get key gate) [ none ↦ false | some expiry ↦ ltb now expiry ]

unfoldable pub poll_gap : ℕ → ℕ
poll_gap interval_seconds = max interval_seconds 1 * 1000000

-- collector.py: `_should_log`
unfoldable pub should_log : ℕ → String → ℕ → List (String × ℕ) → Bool × List (String × ℕ)
should_log now key interval_seconds gate =
    if is_gate_shut now key gate
    then (false, gate)
    else (true, dict_set key (now + poll_gap interval_seconds) gate)

pub note_failure : String → HistoryTables → HistoryTables
note_failure title t = record t { errors = t.errors ++ title ∷ [] }

-- collector.py: `_should_log_safe`; `reachable` says whether the calls of the cache return.
unfoldable pub should_log_safe : Bool → ℕ → String → ℕ → Collector → Bool × Collector
should_log_safe reachable now key interval_seconds c =
    if reachable
    then (let (sampled, gate) = should_log now key interval_seconds c.gate in
        (sampled, record c { gate = gate }))
    else (
      true,
      record c {
        tables =
            note_failure "Proxmox Resource History: cache gate failed, logging anyway" c.tables;
      },
    )

-- The figures of `/nodes/{node}/status` that a sample takes; a missing one is 0.
pub record NodeStatus : Type 0 where
  pub cpu : ℕ
  pub memory_used : ℕ
  pub memory_total : ℕ
  pub swap_used : ℕ
  pub swap_total : ℕ
  pub rootfs_used : ℕ
  pub rootfs_total : ℕ

pub live_host_row : String → ℕ → NodeStatus → HostRow
live_host_row server now s = record {
  server = server;
  collected_at = now;
  source = "Live Poll";
  cpu_usage = round_ratio s.cpu 100;
  memory_usage = percent_of s.memory_used (or_default s.memory_total 1);
  memory_used_gb = gigabytes s.memory_used;
  memory_total_gb = gigabytes s.memory_total;
  swap_usage = if s.swap_total == 0 then none else some (percent_of s.swap_used s.swap_total);
  swap_used_gb = if s.swap_total == 0 then none else some (gigabytes s.swap_used);
  swap_total_gb = if s.swap_total == 0 then none else some (gigabytes s.swap_total);
  storage_usage = percent_of s.rootfs_used (or_default s.rootfs_total 1);
  storage_used_gb = gigabytes s.rootfs_used;
  storage_total_gb = gigabytes s.rootfs_total;
}

unfoldable pub host_cache_key : String → String
host_cache_key server = concat ("alfaedge_pulse:res_hist_last:host:" ∷ server ∷ [])

-- collector.py: `log_host_metrics`; `inserts` says whether the insert of a row returns.
unfoldable pub log_host_metrics :
    Bool → (HostRow → Bool) → CollectorSettings → String → ℕ → NodeStatus → Collector → Collector
log_host_metrics reachable inserts settings server now status c =
    let (sampled, c') =
      should_log_safe reachable now (host_cache_key server) settings.interval_seconds c in
    let row = live_host_row server now status in
    if not (settings.enabled)
    then c
    else if not sampled
    then c'
    else if inserts row
    then record c' { tables = record c'.tables { hosts = c'.tables.hosts ++ row ∷ [] } }
    else record c' {
      tables =
          note_failure
            (concat ("Proxmox Resource History: failed to log host metrics for " ∷ server ∷ []))
            c'.tables;
    }

-- The arguments of `log_guest_metrics`; `swap_used` is there where `swap_total` is, as the poller
-- passes them.
pub record GuestSample : Type 0 where
  pub vmid : ℕ
  pub guest_type : String
  pub cpu : ℕ
  pub mem_used : ℕ
  pub mem_total : ℕ
  pub disk_pct : Option ℕ
  pub swap_used : Option ℕ
  pub swap_total : Option ℕ

pub live_guest_row : String → String → ℕ → GuestSample → GuestRow
live_guest_row server guest now s = record {
  guest = guest;
  server = server;
  vmid = s.vmid;
  guest_type = s.guest_type;
  collected_at = now;
  source = "Live Poll";
  cpu_usage = round_ratio s.cpu 100;
  memory_usage = if s.mem_total == 0 then 0 else percent_of s.mem_used s.mem_total;
  memory_used_gb = gigabytes s.mem_used;
  memory_total_gb = gigabytes s.mem_total;
  disk_usage = s.disk_pct;
  swap_usage_percent = do
    total ← present s.swap_total
    some (percent_of (flt s.swap_used) total);
  swap_used_gb = do
    total ← present s.swap_total
    some (gigabytes (flt s.swap_used));
  swap_total_gb = do
    total ← present s.swap_total
    some (gigabytes total);
}

-- collector.py: `log_guest_metrics`
pub log_guest_metrics :
    Bool → (GuestRow → Bool) → CollectorSettings → String → ℕ → GuestSample → Collector → Collector
unfolding live_guest_row
log_guest_metrics reachable inserts settings server now sample c =
    let guest = concat (server ∷ "-" ∷ decimal sample.vmid ∷ []) in
    let (sampled, c') =
      should_log_safe reachable now (concat ("alfaedge_pulse:res_hist_last:guest:" ∷ guest ∷ []))
        settings.interval_seconds c in
    let row = live_guest_row server guest now sample in
    if not (settings.enabled)
    then c
    else if not sampled
    then c'
    else if inserts row
    then record c' { tables = record c'.tables { guests = c'.tables.guests ++ row ∷ [] } }
    else record c' {
      tables =
          note_failure
            (concat ("Proxmox Resource History: failed to log guest metrics for " ∷ guest ∷ []))
            c'.tables;
    }
