-- ===== src/Discovery/Run.antt =====
-- site_discovery/sync.py: `run_sync` and the schedule, `sync_sites`.
pub mod Stores
pub mod Outages
use alfaedge_pulse.Common.{
  All-map, All-any, ℕ, zero, suc, ◌+◌, ◌-◌, ◌*◌, ◌/◌, ◌%◌, ◌≤◌, ◌<◌, max, String, ◌≡◌, refl, sym,
  ap, ◌∙◌, ◌≢◌, ◌↔◌, ◌⊎◌, inl, inr, Bool, true, false, not, ◌&&◌, ◌||◌, Option, none, some, List,
  [], ◌∷◌, ◌++◌, map, foldl, arith, str_eq, eq_iff, eq_refl, ltb, leb, ◌==◌, if◌then◌else◌,
  Bool-cases, Option-cases, ltb→lt, lt→ltb, leb→le, le→leb, tests, length, take, any, all, keep,
  count, length-append, any-append, count-append, count-le-length, All, length-map,
}
use alfaedge_pulse.Discovery.{ProxmoxGuest, CfResult, NpmResult, CfRecord, SiteRow, AgentSite}
use alfaedge_pulse.Common.Text.{is_blank, first_chars}
use alfaedge_pulse.Common.Dicts.{has_key, dict_get, dict_change, dict_delete, dict_set}
use alfaedge_pulse.Discovery.Resolve.{resolve}
use alfaedge_pulse.Discovery.Fetch.{CfSettings}
use alfaedge_pulse.Common.Names.{has_text}

-- A row of `Instance Site`.
pub record InstanceSite : Type 0 where
  pub fields : SiteRow
  pub last_seen : ℕ

-- The fields of an `NPM Instance` that the sync writes.
pub record NpmState : Type 0 where
  pub synced : ℕ
  pub npm_error : Option String
  pub proxy_host_count : ℕ

pub record Discovered : Type 0 where
  pub sites : List (String × InstanceSite)
  pub npm_states : List (String × NpmState)
  pub settings : CfSettings

-- `existing[name].npm_instance in failed_npms`
unfoldable pub is_owned_by : List String → InstanceSite → Bool
is_owned_by failed_npms s = elim s.fields.npm_instance [
  | none ↦ false
  | some n ↦ has_text n failed_npms
]

unfoldable pub names_of_failed : List NpmResult → List String
names_of_failed npms = map (λ n. n.name) (keep (λ n. not n.ok) npms)

unfoldable pub is_cf_failed : CfResult → Bool
is_cf_failed cf = cf.enabled && not cf.ok

-- `set_value("Instance Site", domain, "last_seen", now)`
unfoldable pub touch : ℕ → InstanceSite → InstanceSite
touch now s = record s { last_seen = now }

module _ (now : ℕ) (cf_failed : Bool) (failed_npms : List String)
    (existing : List (String × InstanceSite)) where
  -- One turn of the loop over the resolved rows.
  pub store_row : String → SiteRow → List (String × InstanceSite) → List (String × InstanceSite)
  store_row domain row sites =
      let written : InstanceSite = record { fields = row; last_seen = now } in
      elim (dict_get domain existing) [
        | none ↦ dict_set domain written sites
        | some old ↦
            if cf_failed || is_owned_by failed_npms old
            then dict_change domain (touch now) sites
            else dict_set domain written sites
      ]

  pub store_rows :
      List (String × SiteRow) → List (String × InstanceSite) → List (String × InstanceSite)
  store_rows [] sites = sites
  store_rows ((domain, row) ∷ rows) sites = store_rows rows (store_row domain row sites)

-- `name in rows or (row.npm_instance and row.npm_instance in failed_npms)`
pub is_kept : List (String × SiteRow) → List String → String × InstanceSite → Bool
is_kept rows failed_npms (name, s) = has_key name rows || is_owned_by failed_npms s

-- The loop over the rows of before the run; the table and how many rows it deleted.
pub delete_gone :
    List (String × SiteRow)
    → List String
    → List (String × InstanceSite)
    → List (String × InstanceSite) × ℕ
    → List (String × InstanceSite) × ℕ
delete_gone rows failed_npms [] done = done
delete_gone rows failed_npms ((name, s) ∷ existing) (sites, deleted) =
    delete_gone rows failed_npms existing (
      if is_kept rows failed_npms (name, s)
      then (sites, deleted)
      else (dict_delete name sites, deleted + 1))

-- `error[:1000] if error else None`
shown_error : String → Option String
shown_error error = if is_blank error then none else some (first_chars 1000 error)

report_npm : ℕ → NpmResult → NpmState → NpmState
report_npm now n s = record {
  synced = now;
  npm_error = shown_error n.error;
  proxy_host_count = if n.ok then length n.hosts else s.proxy_host_count;
}

pub report_npms : ℕ → List NpmResult → List (String × NpmState) → List (String × NpmState)
report_npms now [] states = states
report_npms now (n ∷ ns) states = report_npms now ns (dict_change n.name (report_npm now n) states)

count_records : List (String × List CfRecord) → ℕ
count_records [] = 0
count_records ((name, recs) ∷ records) = length recs + count_records records

report_cloudflare : ℕ → CfResult → ℕ → CfSettings → CfSettings
report_cloudflare now cf site_count settings = record settings {
  last_synced = some now;
  site_count = site_count;
  last_error = shown_error cf.error;
  zone_count = if cf.ok then cf.zone_count else settings.zone_count;
  record_count = if cf.ok then count_records cf.records else settings.record_count;
}

-- What `run_sync` returns: the counts, the NPMs that answered, and those that failed.
pub record SyncSummary : Type 0 where
  pub site_total : ℕ
  pub deleted : ℕ
  pub npm_ok : List String
  pub npm_failed : List (String × String)
  pub cloudflare : String

summary_of : List NpmResult → CfResult → List (String × SiteRow) → ℕ → SyncSummary
summary_of npms cf rows deleted = record {
  site_total = length rows;
  deleted = deleted;
  npm_ok = map (λ n. n.name) (keep (λ n. n.ok) npms);
  npm_failed = map (λ n. (n.name, n.error)) (keep (λ n. not n.ok) npms);
  cloudflare = if cf.ok then "ok" else if not cf.enabled then "disabled" else cf.error;
}

-- `run_sync`, from the resolved rows on.
pub store_sync :
    ℕ → List NpmResult → CfResult → List (String × SiteRow) → Discovered → Discovered × SyncSummary
store_sync now npms cf rows state =
    let failed_npms = names_of_failed npms in
    let stored = store_rows now (is_cf_failed cf) failed_npms state.sites rows state.sites in
    let (sites, deleted) =
      if is_cf_failed cf
      then (stored, 0)
      else delete_gone rows failed_npms state.sites (stored, 0) in
    (
      record {
        sites = sites;
        npm_states = report_npms now npms state.npm_states;
        settings = report_cloudflare now cf (length rows) state.settings;
      },
      summary_of npms cf rows deleted,
    )

module _ (is_ip : String → Bool) (is_private : String → Option Bool) where
  -- sync.py: `run_sync`, for what the sources returned; none where `resolve` raises an error, before
  -- anything is written.
  pub run_sync :
      ℕ
      → List NpmResult
      → CfResult
      → List ProxmoxGuest
      → List AgentSite
      → Discovered
      → Option (Discovered × SyncSummary)
  run_sync now npms cf guests agent_sites state =
      elim (resolve is_ip is_private npms cf guests agent_sites) [
        | none ↦ none
        | some rows ↦ some (store_sync now npms cf rows state)
      ]

-- sync.py: `sync_sites`, its test; a time is in seconds, and its day starts at a multiple of 86400.
pub is_sync_due : ℕ → CfSettings → ℕ → Bool
is_sync_due now settings enabled_npms =
    let hour = if ltb 23 settings.sync_hour then 23 else settings.sync_hour in
    let synced_today : Bool = elim settings.last_synced [
      | none ↦ false
      | some last ↦ leb (now / 86400) (last / 86400)
    ] in
    (settings.enabled || ltb 0 enabled_npms) && not (ltb (now % 86400 / 3600) hour || synced_today)
