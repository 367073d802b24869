-- ===== src/Uptime/Checks.antt =====
-- tasks/uptime_kuma_poller.py: the readings of one instance and its verdict on a site.
pub mod Verdict
use alfaedge_pulse.Common.{
  ℕ, ◌*◌, String, Bool, true, not, ◌&&◌, ◌||◌, Option, none, some, List, [], ◌∷◌, ◌++◌, map, str_eq,
  ltb, leb, ◌==◌, if◌then◌else◌, length, take, keep, count,
}

-- A row of `Uptime Site`: one site on one instance.
pub record Site : Type 0 where
  pub name : String
  pub site_name : String
  pub is_active : Bool
  pub is_critical : Bool
  pub current_status : String
  pub last_checked : Option ℕ

-- A row of `Uptime Check Log`; `raw_status` is the number that the text there spells.
pub record Check : Type 0 where
  pub site : String
  pub checked_at : ℕ
  pub is_up : Bool
  pub raw_status : ℕ
  pub response_time_ms : Option ℕ
  pub in_maintenance : Bool

-- An entry of the dictionary that `fetch_metrics` returns.
pub record Reading : Type 0 where
  pub status : Option ℕ
  pub response_time : Option ℕ

-- The two tables that a reading changes.
pub record Readings : Type 0 where
  pub sites : List Site
  pub checks : List Check

abbrev pub status_up : ℕ
status_up = 1

abbrev pub status_down : ℕ
status_down = 0

-- `_STATUS_LABEL.get(status, "Pending")`
pub status_label : ℕ → String
status_label status =
    if status == status_up
    then "Up"
    else if status == status_down
    then "Down"
    else if status == 3
    then "Maintenance"
    else "Pending"

set_status : String → String → ℕ → Site → Site
set_status name label now site =
    if str_eq site.name name
    then record site { current_status = label; last_checked = some now }
    else site

new_check : Site → ℕ → Option ℕ → Bool → ℕ → Check
new_check site status response in_maintenance now = record {
  site = site.name;
  checked_at = now;
  is_up = status == status_up;
  raw_status = status;
  response_time_ms = response;
  in_maintenance = in_maintenance;
}

record_status : Site → ℕ → Option ℕ → Bool → ℕ → Readings → Readings
record_status site status response in_maintenance now db =
    let label = if in_maintenance then "Maintenance" else status_label status in
    record {
      sites = map (set_status site.name label now) db.sites;
      checks =
          if status == status_up || status == status_down
          then db.checks ++ new_check site status response in_maintenance now ∷ []
          else db.checks;
    }

-- uptime_kuma_poller.py: `_record_site_check`, with the reading that `metrics.get` found.
pub record_site_check : Site → Option Reading → Bool → ℕ → Readings → Readings
unfolding record_status set_status status_label new_check
record_site_check site none in_maintenance now db = db
record_site_check site (some reading) in_maintenance now db = elim reading.status [
  | none ↦ db
  | some status ↦ record_status site status reading.response_time in_maintenance now db
]

-- `filters["checked_at"] = [">", since]`, where there is a `since`.
abbrev pub is_after : Option ℕ → ℕ → Bool
is_after none t = true
is_after (some s) t = ltb s t

-- The filters of the query in `_instance_verdict`.
unfoldable pub is_counted : String → Option ℕ → Check → Bool
is_counted site since check =
    str_eq check.site site && not check.in_maintenance && is_after since check.checked_at

insert_newest : Check → List Check → List Check
insert_newest c [] = c ∷ []
insert_newest c (d ∷ ds) =
    if leb d.checked_at c.checked_at then c ∷ d ∷ ds else d ∷ insert_newest c ds

-- `order_by="checked_at desc"`
unfoldable pub newest_first : List Check → List Check
unfolding insert_newest
newest_first [] = []
newest_first (c ∷ cs) = insert_newest c (newest_first cs)

-- uptime_kuma_poller.py: `_instance_verdict`; more than half of the rows are down.
unfoldable pub instance_verdict : List Check → String → ℕ → Option ℕ → Option Bool
instance_verdict checks site window since =
    let rows = take window (newest_first (keep (is_counted site since) checks)) in
    if ltb (length rows) window
    then none
    else some (ltb (length rows) (2 * count (λ r. not r.is_up) rows))
