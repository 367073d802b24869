-- ===== src/Deletion.antt =====
-- proxmox_fleet_monitor/server_deletion.py: the database, and `_collect`, the plan of a deletion. A
-- row of any doctype has its name, its creation and its fields; a field without a value is absent.
pub mod Delete
pub mod Archive
pub mod Jobs
pub mod Chunks
pub mod Complete
pub mod Fidelity
pub mod Copies
pub mod Archived
pub mod Named
pub mod Pending
pub mod Linked
mod Tests
use alfaedge_pulse.Common.{
  All-map, All-any, ℕ, zero, suc, ◌+◌, ◌-◌, ◌*◌, ◌/◌, ◌%◌, ◌≤◌, ◌<◌, max, String, ◌≡◌, refl, sym,
  ap, ◌∙◌, ◌≢◌, ◌↔◌, ◌⊎◌, inl, inr, Bool, true, false, not, ◌&&◌, ◌||◌, Option, none, some, List,
  [], ◌∷◌, ◌++◌, map, foldl, arith, str_eq, eq_iff, eq_refl, ltb, leb, ◌==◌, if◌then◌else◌,
  Bool-cases, Option-cases, ltb→lt, lt→ltb, leb→le, le→leb, tests, length, take, any, all, keep,
  count, length-append, any-append, count-append, count-le-length, All, length-map,
}
use alfaedge_pulse.Common.Dicts.{dict_get}
use alfaedge_pulse.Common.Names.{sort_texts, has_text, is_empty}

pub record DbRow : Type 0 where
  pub doctype : String
  pub name : String
  pub creation : ℕ
  pub fields : List (String × String)

-- `{doctype: [names]}`
abbrev pub Plan : Type 0
Plan = List (String × List String)

-- A filter `{field: ["in", values]}`.
unfoldable pub field_in : String → List String → DbRow → Bool
field_in field values r = elim (dict_get field r.fields) [
  | none ↦ false
  | some v ↦ has_text v values
]

-- A filter `{field: value}`.
unfoldable pub field_is : String → String → DbRow → Bool
field_is field value r = field_in field (value ∷ []) r

-- `_names`
unfoldable pub names_of : String → (DbRow → Bool) → List DbRow → List String
names_of dt p db = map (λ r. r.name) (keep (λ r. str_eq r.doctype dt && p r) db)

-- `set(xs)`, each text once.
unfoldable pub distinct : List String → List String
distinct [] = []
distinct (x ∷ xs) = let rest = distinct xs in if has_text x rest then rest else x ∷ rest

-- `_union`
unfoldable pub union_of : String → List (DbRow → Bool) → List DbRow → List String
union_of dt filters db = sort_texts (distinct (names_of dt (λ r. any (λ p. p r) filters) db))

-- `["in", values] if values else None`: the filters to use.
unfoldable pub in_filters : String → List String → List (DbRow → Bool)
in_filters field values = if is_empty values then [] else field_in field values ∷ []

-- `_names(dt, {field: ["in", values]}) if values else []`
unfoldable pub names_in : String → String → List String → List DbRow → List String
names_in dt field values db = if is_empty values then [] else names_of dt (field_in field values) db

-- The tables of the records of a monitored host.
abbrev pub host_tables : List String
host_tables =
    "Service Status Log" ∷ "Frappe Worker Health Log" ∷ "Frappe Failed Job Log"
    ∷ "Frappe Active Job" ∷ "Resource Mount" ∷ "Resource Metric Log" ∷ "Resource Disk Sample" ∷ []

-- server_deletion.py: `_collect`
pub collect : String → List DbRow → Plan
collect server db =
    let guests = names_of "Proxmox Guest" (field_is "server" server) db in
    let datastores = names_of "Proxmox Datastore" (field_is "server" server) db in
    let hosts = names_in "Monitored Host" "proxmox_guest" guests db in
    let services = names_in "Service Status Log" "monitored_host" hosts db in
    let alert_refs = server ∷ guests ++ datastores ++ hosts ++ services in
    ("Proxmox Server", server ∷ [])
      ∷ ("Proxmox Guest", guests)
      ∷ ("Proxmox Datastore", datastores)
      ∷ (
        "Proxmox Backup Log",
        union_of "Proxmox Backup Log" (field_is "server" server ∷ in_filters "guest" guests) db,
      )
      ∷ (
        "Instance Site",
        union_of "Instance Site"
            (field_is "proxmox_server" server ∷ in_filters "proxmox_guest" guests) db,
      )
      ∷ ("NPM Instance", names_of "NPM Instance" (field_is "proxmox_server" server) db)
      ∷ (
        "Proxmox Host Metric Log",
        names_of "Proxmox Host Metric Log" (field_is "server" server) db,
      )
      ∷ (
        "Proxmox Guest Metric Log",
        names_of "Proxmox Guest Metric Log" (field_is "server" server) db,
      )
      ∷ ("Monitored Host", hosts)
      ∷ map (λ dt. (dt, names_in dt "monitored_host" hosts db)) host_tables
    ++ ("Proxmox Alert Log", names_of "Proxmox Alert Log" (field_in "reference_name" alert_refs) db)
      ∷ ("Recurring Error (unlinked)", names_in "Recurring Error" "monitored_host" hosts db)
      ∷ []
