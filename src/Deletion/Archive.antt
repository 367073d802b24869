-- ===== src/Deletion/Archive.antt =====
-- server_deletion.py: `_rows` and `_build_archive`, less the header of the payload.
use alfaedge_pulse.Common.{
  ℕ, zero, suc, String, ◌&&◌, Option, none, some, List, [], ◌∷◌, ◌++◌, map, str_eq, ltb,
  if◌then◌else◌, length, take, keep,
}
use alfaedge_pulse.Deletion.{DbRow, Plan}
use alfaedge_pulse.Deletion.Delete.{drop_names, is_named_row, child_tables, is_child_row, chunk}
use alfaedge_pulse.Common.Names.{is_empty, has_text}

-- `HISTORY_TABLES`
abbrev pub history_tables : List String
history_tables =
    "Proxmox Host Metric Log" ∷ "Proxmox Guest Metric Log" ∷ "Frappe Worker Health Log"
    ∷ "Frappe Failed Job Log" ∷ "Resource Metric Log" ∷ "Resource Disk Sample" ∷ []

-- A copy of a row, with its child tables.
pub record CopiedRow : Type 0 where
  pub row : DbRow
  pub children : List (String × List DbRow)

pub record History : Type 0 where
  pub count : ℕ
  pub first : Option ℕ
  pub last : Option ℕ

-- The records of a doctype in the payload.
pub data Archived : Type 0 where
  names_only : List String → Archived
  copies : List CopiedRow → Archived

pub record Payload : Type 0 where
  pub records : List (String × Archived)
  pub history_summary : List (String × History)
  pub summary : List (String × ℕ)

-- The loop over the chunks of the names.
unfoldable pub fetch_chunks : ℕ → String → List String → List DbRow → List DbRow
fetch_chunks zero dt names db = []
fetch_chunks (suc fuel) dt names db =
    let rest = fetch_chunks fuel dt (drop_names chunk names) db in
    if is_empty names then [] else keep (is_named_row dt (take chunk names)) db ++ rest

-- `_rows`
unfoldable pub rows_named : String → List String → List DbRow → List DbRow
rows_named dt names db = fetch_chunks (length names) dt names db

-- `select min(creation), max(creation)`
pub earliest_creation : List DbRow → Option ℕ
earliest_creation [] = none
earliest_creation (r ∷ rs) = elim (earliest_creation rs) [
  | none ↦ some r.creation
  | some c ↦ some (if ltb r.creation c then r.creation else c)
]

pub latest_creation : List DbRow → Option ℕ
latest_creation [] = none
latest_creation (r ∷ rs) = elim (latest_creation rs) [
  | none ↦ some r.creation
  | some c ↦ some (if ltb c r.creation then r.creation else c)
]

unfoldable pub history_of : String → List String → List DbRow → History
history_of dt names db =
    let rows = keep (is_named_row dt names) db in
    record { count = length names; first = earliest_creation rows; last = latest_creation rows }

-- The rows of a child table of one monitored host, under the name of the child's doctype.
unfoldable pub children_of : List DbRow → DbRow → String → String × List DbRow
children_of db r child =
    (child, keep (λ c. str_eq c.doctype child && is_child_row (r.name ∷ []) c) db)

unfoldable pub copy_of : List DbRow → String → DbRow → CopiedRow
copy_of db dt r = record {
  row = r;
  children = if str_eq dt "Monitored Host" then map (children_of db r) child_tables else [];
}

-- One turn of the loop of `_build_archive`.
unfoldable pub archive_table : List DbRow → String × List String → Payload → Payload
archive_table db (dt, names) p =
    let counted = record p { summary = p.summary ++ (dt, length names) ∷ [] } in
    if is_empty names
    then counted
    else if str_eq dt "Recurring Error (unlinked)"
    then record counted { records = p.records ++ (dt, names_only names) ∷ [] }
    else if has_text dt history_tables
    then record counted { history_summary = p.history_summary ++ (dt, history_of dt names db) ∷ [] }
    else record counted {
      records = p.records ++ (dt, copies (map (copy_of db dt) (rows_named dt names db))) ∷ [];
    }

unfoldable pub archive_tables : List DbRow → Plan → Payload → Payload
archive_tables db [] p = p
archive_tables db (e ∷ es) p = archive_tables db es (archive_table db e p)

-- server_deletion.py: `_build_archive`
unfoldable pub build_archive : Plan → List DbRow → Payload
build_archive plan db =
    archive_tables db plan (record { records = []; history_summary = []; summary = [] })
