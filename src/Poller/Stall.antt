-- ===== src/Poller/Stall.antt =====
-- tasks/poller.py: `_check_poller_stall` and `_resolve_disabled_server_alerts`.
use alfaedge_pulse.Common.{
  ℕ, ◌-◌, ◌*◌, ◌/◌, max, String, ◌≡◌, ◌≢◌, inl, inr, Bool, true, false, not, ◌&&◌, Option, none,
  some, List, [], ◌∷◌, ◌++◌, map, ltb, if◌then◌else◌, Bool-cases, any,
}
use mathlib.Core.List.{flat_map}
use alfaedge_pulse.Alerts.Log.{AlertKey, has_open_alert, AlertRow}
use alfaedge_pulse.Alerts.Dispatch.{AlertContext, Alerting, is_member}
use alfaedge_pulse.Common.Text.{concat, decimal}
use alfaedge_pulse.Poller.Severity.{or_default}
use alfaedge_pulse.Alerts.Log.Laws.{open_rows}
use alfaedge_pulse.Poller.Transition.{level_alert}
use alfaedge_pulse.Poller.Transition.Levels.{level_alert_lem}

pub stall_key : AlertKey
stall_key = record {
  reference_doctype = "Proxmox Monitor Settings";
  reference_name = "Proxmox Monitor Settings";
  alert_type = "Poller Stalled";
}

-- The two columns of `Proxmox Server` that the check reads.
pub record ServerSync : Type 0 where
  pub enabled : Bool
  pub synced_at : Option ℕ

pub newest_sync : List ServerSync → Option ℕ
newest_sync [] = none
newest_sync (s ∷ ss) =
    let rest = newest_sync ss in
    if s.enabled
    then elim s.synced_at [
      | none ↦ rest
      | some t ↦ elim rest [ none ↦ some t | some u ↦ some (max t u) ]
    ]
    else rest

abbrev pub poller_stall_seconds : ℕ
poller_stall_seconds = 300

-- `age is None or age > limit`, with times in microseconds.
pub is_stalled : ℕ → ℕ → Option ℕ → Bool
is_stalled now interval none = true
is_stalled now interval (some t) = ltb (max poller_stall_seconds (interval * 5) * 1000000) (now - t)

stall_text : ℕ → Option ℕ → String
stall_text now newest = concat (
    "alfaEdge Pulse: Proxmox polling has stopped ("
    ∷ elim newest [
      | none ↦ "no server has ever synced"
      | some t ↦ concat ("last sync " ∷ decimal ((now - t) / 60000000) ∷ " min ago" ∷ [])
    ]
    ∷ "). Dashboard data and backup checks are stale."
    ∷ [])

-- poller.py: `_check_poller_stall`, with the setting `poll_interval_seconds` as `cint` reads it.
-- With no enabled server an open alert is closed without an announcement.
pub check_poller_stall : AlertContext → ℕ → List ServerSync → Alerting → Alerting
unfolding stall_key newest_sync is_stalled stall_text
check_poller_stall c interval servers a =
    let newest = newest_sync servers in
    if not (any (λ s. s.enabled) servers)
    then level_alert c false stall_key "" none true a
    else level_alert c (is_stalled c.now (or_default interval 20) newest) stall_key
        (stall_text c.now newest) (some "alfaEdge Pulse: Proxmox polling has resumed.") true a

-- After the check the stall alert is open exactly if some server is enabled and the newest sync of
-- the enabled ones is missing or older than the limit; every other incident keeps its open rows.
pub check_poller_stall_lem :
    (c : AlertContext) (interval : ℕ) (servers : List ServerSync) (a : Alerting)
    → let a' = check_poller_stall c interval servers a in
      (has_open_alert stall_key a'.log ≡ (
        any (λ s. s.enabled) servers
        && is_stalled c.now (or_default interval 20) (newest_sync servers)))
      × ((j : AlertKey) → j ≢ stall_key → open_rows j a'.log ≡ open_rows j a.log)
unfolding check_poller_stall
check_poller_stall_lem c interval servers a = elim (Bool-cases (any (λ s. s.enabled) servers)) [
  | inl some_enabled ↦ simp some_enabled (
      let level =
        level_alert_lem c stall_key (stall_text c.now (newest_sync servers))
          (some "alfaEdge Pulse: Proxmox polling has resumed.") true
          (is_stalled c.now (or_default interval 20) (newest_sync servers)) a in
      (level.0, level.2))
  | inr disabled ↦
      simp disabled
        (let level = level_alert_lem c stall_key "" none true false a in (level.0, level.2))
]

-- The rows of `Proxmox Alert Log` that a disabled server, or one of its guests or datastores, has
-- open; `refs` holds the names of all of these.
is_disabled_row : List String → AlertRow → Bool
is_disabled_row refs row =
    not row.resolved
    && is_member row.key.reference_doctype
        ("Proxmox Server" ∷ "Proxmox Guest" ∷ "Proxmox Datastore" ∷ [])
    && is_member row.key.reference_name refs

-- poller.py: `_resolve_disabled_server_alerts`, over the names of the disabled servers and a map
-- from a server to the names of its guests and datastores.
pub resolve_disabled_server_alerts :
    List String → (String → List String) → List AlertRow → List AlertRow
unfolding is_disabled_row
resolve_disabled_server_alerts [] children log = log
resolve_disabled_server_alerts (d ∷ ds) children log =
    let refs = (d ∷ ds) ++ flat_map children (d ∷ ds) in
    map (λ row. if is_disabled_row refs row then record row { resolved = true } else row) log
