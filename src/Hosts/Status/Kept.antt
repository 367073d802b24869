-- ===== src/Hosts/Status/Kept.antt =====
-- The "Host Unreachable" alerts of a host through `process_status` of host_health/ingest.py.
use mathlib.Core.Path.{subst}
use alfaedge_pulse.Hosts.Services.{Services, ServiceReport}
use alfaedge_pulse.Common.{
  ℕ, String, ◌≡◌, refl, ◌∙◌, inl, inr, Bool, true, false, Option, none, some, List, Option-cases,
}
use alfaedge_pulse.Hosts.Status.{
  store_sites, store_services, store_benches, HostState, process_status, finish_status,
  StatusResult, StatusSettings, StatusReport,
}
use alfaedge_pulse.Alerts.Dispatch.{AlertContext}
use alfaedge_pulse.Alerts.Log.{AlertKey}
use alfaedge_pulse.Hosts.Sites.{Shown, SiteReport}
use alfaedge_pulse.Hosts.Rounds.{Recorded, record_benches, bench_flags, scheduler_runs, latest_run}
use alfaedge_pulse.Hosts.Benches.{Remote}
use alfaedge_pulse.Alerts.Log.Laws.{open_rows}
use alfaedge_pulse.Hosts.Heartbeat.{host_key, mark_seen}
use alfaedge_pulse.Hosts.Workers.{BenchReport}
use alfaedge_pulse.Hosts.Rounds.Tracked.{record_services_other, bench_alerts_other}
use alfaedge_pulse.Hosts.Status.BenchAlerts.{set_scheduler_run-shape}

abbrev pub unreachable_key : HostState → AlertKey
unreachable_key h = host_key h.host.name "Host Unreachable"

-- The host keeps its name, its heartbeat and its open "Host Unreachable" rows.
abbrev Keeps : HostState → HostState → Type 0
Keeps h h' =
    (h'.host.name ≡ h.host.name)
    × (h'.host.is_online ≡ h.host.is_online)
    × (open_rows (unreachable_key h) h'.alerting.log ≡ open_rows (unreachable_key h) h.alerting.log)

abbrev KeepsIfStored : HostState → Option (Recorded × HostState) → Type 0
KeepsIfStored h none = Unit
KeepsIfStored h (some done) = Keeps h done.1

Keeps-trans : (h h' k : HostState) → Keeps h h' → Keeps h' k → Keeps h k
Keeps-trans h h' k one two = (
  two.0 ∙ one.0,
  two.1 ∙ one.1,
  subst
        (λ n.
          open_rows (host_key n "Host Unreachable") k.alerting.log
          ≡ open_rows (host_key n "Host Unreachable") h'.alerting.log)
        one.0 two.2
      ∙ one.2,
)

store_services-Keeps :
    (c : AlertContext) (checks : ℕ) (notify : Bool) (shown : Shown) (fresh : ServiceReport → String)
    (rows : Option (List ServiceReport)) (h : HostState)
    → Keeps h (store_services c checks notify shown fresh rows h).1
unfolding store_services
store_services-Keeps c checks notify shown fresh none h = (refl, refl, refl)
store_services-Keeps c checks notify shown fresh (some rows) h =
    let s : Services = record { logs = h.services; alerting = h.alerting } in
    (
      refl,
      refl,
      record_services_other c notify h.host.name checks shown fresh rows s "Host Unreachable",
    )

store_benches-KeepsIfStored :
    (r : Remote) (c : AlertContext) (s : StatusSettings) (notify : Bool) (shown : Shown)
    (rows : Option (List BenchReport)) (h : HostState)
    → KeepsIfStored h (store_benches r c s notify shown rows h)
unfolding store_benches
store_benches-KeepsIfStored r c s notify shown none h = (refl, refl, refl)
store_benches-KeepsIfStored r c s notify shown (some rows) h =
    let done = record_benches r c.now s.limits shown h.host.name rows h.benches in
    let flags' = bench_flags s.checks done.results in
    elim (Option-cases (scheduler_runs r done.results)) [
      | inl e ↦ rw (store_benches, e) tt
      | inr (runs, e) ↦
          let kept = set_scheduler_run-shape (latest_run runs) h.host in
          rw (store_benches, e)
            (
              kept.0,
              kept.2,
              bench_alerts_other c notify h.host.name h.flags flags' h.alerting "Host Unreachable"
                  refl refl refl,
            )
    ]

store_sites-Keeps :
    (shown : Shown) (rows : Option (List SiteReport)) (h : HostState)
    → Keeps h (store_sites shown rows h).1
unfolding store_sites
store_sites-Keeps shown none h = (refl, refl, refl)
store_sites-Keeps shown (some rows) h = (refl, refl, refl)

-- A report leaves the host online, and the "Host Unreachable" rows as they were.
abbrev pub IsReported : HostState → Option (StatusResult × HostState) → Type 0
IsReported h none = Unit
IsReported h (some done) =
    (done.1.host.name ≡ h.host.name)
    × (done.1.host.is_online ≡ true)
    × (open_rows (unreachable_key h) done.1.alerting.log
        ≡ open_rows (unreachable_key h) h.alerting.log)

pub process_status-IsReported :
    (r : Remote) (c : AlertContext) (s : StatusSettings) (production : Bool) (shown : Shown)
    (fresh : ServiceReport → String) (parses : Bool) (report : StatusReport) (h : HostState)
    → IsReported h (process_status r c s production shown fresh parses report h)
unfolding process_status finish_status
process_status-IsReported r c s production shown fresh false report h = tt
process_status-IsReported r c s production shown fresh true report h =
    let seen : HostState = record h { host = mark_seen c.now h.host } in
    let h1 = (store_services c s.checks production shown fresh report.services seen).1 in
    let one = store_services-Keeps c s.checks production shown fresh report.services seen in
    let two = store_benches-KeepsIfStored r c s production shown report.benches h1 in
    elim (Option-cases (store_benches r c s production shown report.benches h1)) [
      | inl e ↦ rw (process_status, e) tt
      | inr (done, e) ↦
          let benches : Keeps h1 done.1 = subst (KeepsIfStored h1) e two in
          let three = store_sites-Keeps shown report.sites done.1 in
          let last = (store_sites shown report.sites done.1).1 in
          let all_kept = Keeps-trans seen h1 last one (Keeps-trans h1 done.1 last benches three) in
          rw (process_status, e) (unfold mark_seen in all_kept)
    ]
