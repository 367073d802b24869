-- ===== src/Discovery/Run/Outages.antt =====
-- `run_sync` of sync.py: what a sync leaves of a domain's row.
use mathlib.Core.Option
use alfaedge_pulse.Discovery.{ProxmoxGuest, SiteRow, is_none, NpmResult, CfResult, AgentSite}
use alfaedge_pulse.Common.Names.{has_text}
use alfaedge_pulse.Discovery.Run.{touch}
use alfaedge_pulse.Common.{
  ℕ, String, ◌≡◌, refl, ap, ◌∙◌, inl, inr, Bool, true, false, not, ◌&&◌, ◌||◌, Option, none, some,
  List, [], ◌∷◌, arith, str_eq, eq_iff, if◌then◌else◌, Option-cases, any,
}
use alfaedge_pulse.Discovery.Run.{
  store_sync, run_sync, InstanceSite, is_owned_by, is_kept, Discovered, store_rows, is_cf_failed,
  delete_gone, names_of_failed,
}
use alfaedge_pulse.Discovery.Run.Stores.{
  after_rows, unless_gone, next_row, store_rows_lem, delete_gone_lem,
}
use alfaedge_pulse.Common.Dicts.{HasDistinctKeys, has_key, dict_get, has_key_missing, has_key_found}
use alfaedge_pulse.Discovery.Resolve.{resolve}
use alfaedge_pulse.Discovery.Resolve.Keys.{resolve-HasDistinctKeys}

-- The row of a domain that none of them lists.
unfoldable pub left_row : Bool → List String → Option InstanceSite → Option InstanceSite
left_row cf_failed failed none = none
left_row cf_failed failed (some old) =
    if cf_failed || is_owned_by failed old then some old else none

-- A domain's row after a sync, from the row that the sources give and the row of before.
unfoldable pub merged_row :
    ℕ → Bool → List String → Option SiteRow → Option InstanceSite → Option InstanceSite
merged_row now cf_failed failed none before = left_row cf_failed failed before
merged_row now cf_failed failed (some row) before = some (next_row now cf_failed failed row before)

module _ (now : ℕ) (failed : List String) (rows : List (String × SiteRow)) (domain : String)
    (existing : List (String × InstanceSite)) where
  after_outage :
      (x : Option SiteRow) (y : Option InstanceSite)
      → after_rows now true failed existing x y ≡ merged_row now true failed x y
  unfolding after_rows merged_row left_row
  after_outage none none = refl
  after_outage none (some old) = refl
  after_outage (some row) y = refl

  after_deletions :
      (x : Option SiteRow) (y : Option InstanceSite)
      → has_key domain rows ≡ not (is_none x)
      → unless_gone rows failed domain y (after_rows now false failed existing x y)
        ≡ merged_row now false failed x y
  unfolding unless_gone after_rows merged_row left_row is_kept is_none next_row
  after_deletions none none h = refl
  after_deletions none (some old) h = rw h refl
  after_deletions (some row) none h = refl
  after_deletions (some row) (some old) h = rw h refl

  is_listed : has_key domain rows ≡ not (is_none (dict_get domain rows))
  unfolding is_none
  is_listed = elim (Option-cases (dict_get domain rows)) [
    | inl e ↦ rw e (has_key_missing domain rows e)
    | inr (row, e) ↦ rw e (has_key_found domain row rows e)
  ]

  sites_after :
      (cf_failed : Bool)
      → HasDistinctKeys rows
      → HasDistinctKeys existing
      → dict_get domain
          (if cf_failed
            then (store_rows now cf_failed failed existing rows existing, 0)
            else delete_gone rows failed existing
                (store_rows now cf_failed failed existing rows existing, 0)).0
        ≡ merged_row now cf_failed failed (dict_get domain rows) (dict_get domain existing)
  sites_after true drows dsites =
      store_rows_lem now true failed existing domain rows existing drows refl
      ∙ after_outage (dict_get domain rows) (dict_get domain existing)
  sites_after false drows dsites =
      delete_gone_lem rows failed domain existing
        (store_rows now false failed existing rows existing) 0 dsites
      ∙ rw (store_rows_lem now false failed existing domain rows existing drows refl)
          (after_deletions (dict_get domain rows) (dict_get domain existing) is_listed)

pub store_sync-merged_row :
    (now : ℕ) (npms : List NpmResult) (cf : CfResult) (rows : List (String × SiteRow))
    (state : Discovered) (domain : String)
    → HasDistinctKeys rows
    → HasDistinctKeys state.sites
    → dict_get domain (store_sync now npms cf rows state).0.sites
      ≡ merged_row now
          (is_cf_failed cf)
          (names_of_failed npms)
          (dict_get domain rows)
          (dict_get domain state.sites)
unfolding store_sync merged_row
store_sync-merged_row now npms cf rows state domain drows dsites =
    sites_after now (names_of_failed npms) rows domain state.sites (is_cf_failed cf) drows dsites

-- The row names an NPM that failed.
abbrev pub is_on_failed : List NpmResult → InstanceSite → Bool
is_on_failed npms old = elim old.fields.npm_instance [
  | none ↦ false
  | some name ↦ any (λ n. not n.ok && str_eq n.name name) npms
]

-- Cloudflare is enabled and failed, or the row's NPM did.
abbrev pub is_frozen : CfResult → List NpmResult → InstanceSite → Bool
is_frozen cf npms old = (cf.enabled && not cf.ok) || is_on_failed npms old

-- A domain's row after a sync, from the row that the sources resolved to and the row of before.
abbrev pub row_after :
    ℕ → CfResult → List NpmResult → Option SiteRow → Option InstanceSite → Option InstanceSite
row_after now cf npms none none = none
row_after now cf npms none (some old) = if is_frozen cf npms old then some old else none
row_after now cf npms (some row) none = some (record { fields = row; last_seen = now })
row_after now cf npms (some row) (some old) =
    if is_frozen cf npms old
    then some (record old { last_seen = now })
    else some (record { fields = row; last_seen = now })

has_text-names_of_failed :
    (name : String) (npms : List NpmResult)
    → has_text name (names_of_failed npms) ≡ any (λ n. not n.ok && str_eq n.name name) npms
unfolding names_of_failed has_text
has_text-names_of_failed name [] = refl
has_text-names_of_failed name (n ∷ npms) =
    ground (arith, has_text-names_of_failed name npms, eq_iff n.name name, eq_iff name n.name)

is_owned_by-failed :
    (npms : List NpmResult) (old : InstanceSite)
    → is_owned_by (names_of_failed npms) old ≡ is_on_failed npms old
unfolding is_owned_by
is_owned_by-failed npms old = elim (Option-cases old.fields.npm_instance) [
  | inl e ↦ rw (is_owned_by, e) refl
  | inr (name, e) ↦ rw (is_owned_by, e) (has_text-names_of_failed name npms)
]

merged_row-row_after :
    (now : ℕ) (cf : CfResult) (npms : List NpmResult) (row : Option SiteRow)
    (before : Option InstanceSite)
    → merged_row now (is_cf_failed cf) (names_of_failed npms) row before
      ≡ row_after now cf npms row before
unfolding merged_row left_row next_row is_cf_failed touch
merged_row-row_after now cf npms none none = refl
merged_row-row_after now cf npms none (some old) =
    rw (merged_row, left_row, is_cf_failed, is_owned_by-failed npms old) refl
merged_row-row_after now cf npms (some row) none = refl
merged_row-row_after now cf npms (some row) (some old) = ground (arith, is_owned_by-failed npms old)

-- After a sync that resolved the rows `rows`, a table with distinct domains has at every domain its
-- `row_after`. A listed domain without a row of before gets its resolved row. A row of before keeps
-- all its fields where Cloudflare is enabled and failed, or the NPM that the row names failed, and
-- is only marked as seen if the domain is listed. Any other row of before takes the resolved
-- fields, or is deleted where its domain is not listed: so is one that names no NPM, even if every
-- NPM failed.
pub run_sync-row_after :
    (is_ip : String → Bool) (is_private : String → Option Bool) (now : ℕ) (npms : List NpmResult)
    (cf : CfResult) (guests : List ProxmoxGuest) (agent_sites : List AgentSite)
    (rows : List (String × SiteRow)) (state : Discovered) (domain : String)
    → resolve is_ip is_private npms cf guests agent_sites ≡ some rows
    → HasDistinctKeys state.sites
    → Option.map
        (λ done. dict_get domain done.0.sites)
        (run_sync is_ip is_private now npms cf guests agent_sites state)
      ≡ some (row_after now cf npms (dict_get domain rows) (dict_get domain state.sites))
unfolding run_sync
run_sync-row_after is_ip is_private now npms cf guests agent_sites rows state domain h dsites =
    rw (Option.map, run_sync, h)
      (ap some (
        store_sync-merged_row now npms cf rows state domain
          (resolve-HasDistinctKeys is_ip is_private npms cf guests agent_sites rows h) dsites
        ∙ merged_row-row_after now cf npms (dict_get domain rows) (dict_get domain state.sites)))
