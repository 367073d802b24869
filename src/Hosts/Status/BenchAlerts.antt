-- ===== src/Hosts/Status/BenchAlerts.antt =====
-- `process_status` of host_health/ingest.py: the bench alerts and the flags of a host.
use mathlib.Core.Path.{subst, ap₂}
use alfaedge_pulse.Hosts.Benches.Failures.{parses, parses-some}
use alfaedge_pulse.Hosts.Rounds.{
  scheduler_runs, add_bench, add_run, BenchResults, Recorded, bench_alerts,
}
use alfaedge_pulse.Hosts.Workers.{WorkerHealth, BenchLimits, BenchTables, process_bench}
use alfaedge_pulse.Hosts.Status.{finish_status}
use alfaedge_pulse.Common.{
  ℕ, String, ◌≡◌, refl, sym, ap, ◌∙◌, inl, inr, Bool, true, Option, none, some, List, [], ◌∷◌,
  arith, Option-cases, length, all,
}
use alfaedge_pulse.Alerts.Dispatch.{AlertContext, Alerting}
use alfaedge_pulse.Hosts.Services.{ServiceReport, Services}
use alfaedge_pulse.Hosts.Heartbeat.{MonitoredHost, mark_seen}
use alfaedge_pulse.Hosts.Benches.{Remote}
use alfaedge_pulse.Hosts.Workers.{BenchReport}
use alfaedge_pulse.Hosts.Status.{
  StatusSettings, set_scheduler_run, store_benches, store_services, store_sites, process_status,
  HostState, StatusReport, StatusResult,
}
use alfaedge_pulse.Hosts.Rounds.{BenchFlags, record_benches, bench_flags, latest_run}
use alfaedge_pulse.Hosts.Rounds.Tracked.{IsTracked, record_services_other, bench_alerts-IsTracked}
use alfaedge_pulse.Hosts.Sites.{Shown, SiteReport}

store_services-shape :
    (c : AlertContext) (checks : ℕ) (notify : Bool) (shown : Shown) (fresh : ServiceReport → String)
    (rows : Option (List ServiceReport)) (h : HostState)
    → IsTracked h.host.name h.flags h.alerting
    → let h' = (store_services c checks notify shown fresh rows h).1 in
      IsTracked h.host.name h.flags h'.alerting
      × (h'.host ≡ h.host)
      × (h'.flags ≡ h.flags)
      × (h'.benches ≡ h.benches)
unfolding store_services
store_services-shape c checks notify shown fresh none h tracked = (tracked, refl, refl, refl)
store_services-shape c checks notify shown fresh (some rows) h tracked =
    let s : Services = record { logs = h.services; alerting = h.alerting } in
    let other = record_services_other c notify h.host.name checks shown fresh rows s in
    (
      (
        other "Worker Degraded" ∙ tracked.0,
        other "Failed Job Threshold" ∙ tracked.1,
        other "Long Running Job" ∙ tracked.2,
      ),
      refl,
      refl,
      refl,
    )

-- The flags after a report: those of its benches, or the old ones where it has none.
pub flags_after :
    Remote
    → AlertContext
    → StatusSettings
    → Shown
    → Option (List BenchReport)
    → HostState
    → BenchFlags
flags_after r c s shown none h = h.flags
flags_after r c s shown (some rows) h =
    bench_flags s.checks (record_benches r c.now s.limits shown h.host.name rows h.benches).results

pub set_scheduler_run-shape :
    (t : Option ℕ) (host : MonitoredHost)
    → ((set_scheduler_run t host).name ≡ host.name)
      × ((set_scheduler_run t host).last_seen ≡ host.last_seen)
      × ((set_scheduler_run t host).is_online ≡ host.is_online)
unfolding set_scheduler_run
set_scheduler_run-shape none host = (refl, refl, refl)
set_scheduler_run-shape (some t) host = (refl, refl, refl)

-- The last run of the scheduler of each bench is missing or parses.
abbrev pub runs_parse : Remote → Option (List BenchReport) → Bool
runs_parse r none = true
runs_parse r (some rows) = all (λ row. parses r row.scheduler_last_run) rows

scheduler_runs-bench :
    (r : Remote) (warning : String) (run : Option String) (later : BenchResults)
    (tried : Option WorkerHealth) (ts : List ℕ)
    → parses r run ≡ true
    → scheduler_runs r later.results ≡ some ts
    → (us : List ℕ) × (scheduler_runs r (add_bench warning run later tried).results ≡ some us)
unfolding add_bench scheduler_runs add_run
scheduler_runs-bench r warning run later none ts h e = (ts, e)
scheduler_runs-bench r warning run later (some health) ts h e =
    let (o, k) = parses-some r run h in
    elim (Option-cases o) [
      | inl missing ↦ (ts, rw (k, missing, e) refl)
      | inr (t, given) ↦ (t ∷ ts, rw (k, given, e) refl)
    ]

scheduler_runs-benches :
    (r : Remote) (now : ℕ) (limits : BenchLimits) (shown : Shown) (host : String)
    (rows : List BenchReport) (t : BenchTables)
    → all (λ row. parses r row.scheduler_last_run) rows ≡ true
    → (ts : List ℕ) × (scheduler_runs r (record_benches r now limits shown host rows t).results
        ≡ some ts)
unfolding record_benches
scheduler_runs-benches r now limits shown host [] t h = ([], unfold scheduler_runs in refl)
scheduler_runs-benches r now limits shown host (row ∷ rows) t h =
    let tried = process_bench r now host limits row t in
    let (ts, e) = scheduler_runs-benches r now limits shown host rows tried.1 (ground (arith, h)) in
    scheduler_runs-bench r _ row.scheduler_last_run _ tried.0 ts (ground (arith, h)) e

store_benches-shape :
    (r : Remote) (c : AlertContext) (s : StatusSettings) (notify : Bool) (shown : Shown)
    (rows : Option (List BenchReport)) (h : HostState)
    → runs_parse r rows ≡ true
    → IsTracked h.host.name h.flags h.alerting
    → (done : Recorded) × (h' : HostState) × (store_benches r c s notify shown rows h
        ≡ some (done, h'))
      × IsTracked h.host.name h'.flags h'.alerting
      × (h'.flags ≡ flags_after r c s shown rows h)
      × (h'.host.name ≡ h.host.name)
      × (h'.host.last_seen ≡ h.host.last_seen)
      × (h'.host.is_online ≡ h.host.is_online)
unfolding store_benches flags_after
store_benches-shape r c s notify shown none h parse tracked =
    (record { rows = 0; warnings = [] }, h, refl, tracked, refl, refl, refl, refl)
store_benches-shape r c s notify shown (some rows) h parse tracked =
    let done = record_benches r c.now s.limits shown h.host.name rows h.benches in
    let flags' = bench_flags s.checks done.results in
    let (runs, e) =
      scheduler_runs-benches r c.now s.limits shown h.host.name rows h.benches parse in
    let kept = set_scheduler_run-shape (latest_run runs) h.host in
    (
      record { rows = length done.results; warnings = done.warnings },
      record h {
        host = set_scheduler_run (latest_run runs) h.host;
        flags = flags';
        benches = done.tables;
        alerting = bench_alerts c notify h.host.name h.flags flags' h.alerting;
      },
      rw (store_benches, e) refl,
      bench_alerts-IsTracked c notify h.host.name h.flags flags' h.alerting tracked,
      refl,
      kept.0,
      kept.1,
      kept.2,
    )

flags_after-eq :
    (r : Remote) (c : AlertContext) (s : StatusSettings) (shown : Shown)
    (rows : Option (List BenchReport)) (g h : HostState)
    → g.host.name ≡ h.host.name
    → g.flags ≡ h.flags
    → g.benches ≡ h.benches
    → flags_after r c s shown rows g ≡ flags_after r c s shown rows h
unfolding flags_after
flags_after-eq r c s shown none g h name flags benches = flags
flags_after-eq r c s shown (some rows) g h name flags benches =
    ap₂ (λ n t. bench_flags s.checks (record_benches r c.now s.limits shown n rows t).results) name
      benches

IsTracked-eq :
    {m n : String} {f g : BenchFlags} (a b : Alerting)
    → m ≡ n
    → f ≡ g
    → a ≡ b
    → IsTracked m f a
    → IsTracked n g b
IsTracked-eq {n} {f} {g} a b p q e h =
    subst (λ x. IsTracked n g x) e
      (subst (λ x. IsTracked n x a) q (subst (λ x. IsTracked x f a) p h))

store_sites-shape :
    (shown : Shown) (rows : Option (List SiteReport)) (h : HostState)
    → let h' = (store_sites shown rows h).1 in
      (h'.host ≡ h.host) × (h'.flags ≡ h.flags) × (h'.alerting ≡ h.alerting)
unfolding store_sites
store_sites-shape shown none h = (refl, refl, refl)
store_sites-shape shown (some rows) h = (refl, refl, refl)

-- A status report whose time parses and whose benches' last scheduler runs are missing or parse, for
-- a host whose three bench alerts were open exactly if their flags were set: it is stored, the host
-- is online and seen now, its flags are those of the benches that the report lists (or the old ones
-- without benches), and its bench alerts follow them, whatever the services and the sites of the
-- report are.
pub process_status_lem :
    (r : Remote) (c : AlertContext) (s : StatusSettings) (production : Bool) (shown : Shown)
    (fresh : ServiceReport → String) (report : StatusReport) (h : HostState)
    → runs_parse r report.benches ≡ true
    → IsTracked h.host.name h.flags h.alerting
    → (result : StatusResult) × (h' : HostState) × (process_status r c s production shown fresh true
          report h
        ≡ some (result, h'))
      × IsTracked h.host.name h'.flags h'.alerting
      × (h'.flags ≡ flags_after r c s shown report.benches h)
      × (h'.host.last_seen ≡ some c.now)
      × (h'.host.is_online ≡ true)
unfolding process_status finish_status
process_status_lem r c s production shown fresh report h parse tracked =
    let seen : HostState = record h { host = mark_seen c.now h.host } in
    let h1 = store_services c s.checks production shown fresh report.services seen in
    let one =
      store_services-shape c s.checks production shown fresh report.services seen
        (unfold mark_seen in tracked) in
    let name : h1.1.host.name ≡ h.host.name = ap (λ m. m.name) one.1 ∙ unfold mark_seen in refl in
    let tracked' =
      IsTracked-eq h1.1.alerting h1.1.alerting (sym (ap (λ m. m.name) one.1)) (sym one.2) refl
        one.0 in
    let (done, h2, stored, tracked2, flags2, name2, seen2, online2) =
      store_benches-shape r c s production shown report.benches h1.1 parse tracked' in
    let h3 = finish_status shown report.sites h1.0 done h2 in
    let three = store_sites-shape shown report.sites h2 in
    (
      h3.0,
      h3.1,
      rw (process_status, stored) refl,
      IsTracked-eq h2.alerting h3.1.alerting name (sym three.1) (sym three.2) tracked2,
      three.1 ∙ flags2 ∙ flags_after-eq r c s shown report.benches h1.1 h name one.2 one.3,
      ap (λ m. m.last_seen) three.0
          ∙ seen2
          ∙ ap (λ m. m.last_seen) one.1
          ∙ unfold mark_seen in refl,
      ap (λ m. m.is_online) three.0
          ∙ online2
          ∙ ap (λ m. m.is_online) one.1
          ∙ unfold mark_seen in refl,
    )
