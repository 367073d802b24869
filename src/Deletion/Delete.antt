-- ===== src/Deletion/Delete.antt =====
-- server_deletion.py: `_bulk_delete` and `_delete`.
use alfaedge_pulse.Common.{
  ℕ, zero, suc, String, Bool, ◌&&◌, List, [], ◌∷◌, map, str_eq, if◌then◌else◌, length, take,
}
use alfaedge_pulse.Common.Names.{has_text, is_empty}
use alfaedge_pulse.Deletion.{DbRow, Plan, field_in, field_is}
use alfaedge_pulse.Common.Tables.{delete_where}
use alfaedge_pulse.Common.Groups.{group_of}
use alfaedge_pulse.Common.Dicts.{dict_delete}

abbrev pub chunk : ℕ
chunk = 500

-- `names[i:]`
unfoldable pub drop_names : ℕ → List String → List String
drop_names zero xs = xs
drop_names (suc n) [] = []
drop_names (suc n) (x ∷ xs) = drop_names n xs

-- A row that `frappe.db.delete(doctype, {"name": ["in", names]})` deletes.
unfoldable pub is_named_row : String → List String → DbRow → Bool
is_named_row dt names r = str_eq r.doctype dt && has_text r.name names

-- The loop over the chunks of the names, for at most `fuel` of them.
unfoldable pub delete_chunks : ℕ → String → List String → List DbRow → List DbRow
delete_chunks zero dt names db = db
delete_chunks (suc fuel) dt names db =
    let db2 = delete_where (is_named_row dt (take chunk names)) db in
    let rest = delete_chunks fuel dt (drop_names chunk names) db2 in
    if is_empty names then db else rest

-- `_bulk_delete`: there are no more chunks than names.
unfoldable pub bulk_delete : String → List String → List DbRow → List DbRow
bulk_delete dt names db = delete_chunks (length names) dt names db

-- `plan[doctype]`
unfoldable pub planned : Plan → String → List String
planned plan dt = group_of str_eq dt plan

unfoldable pub delete_tables : Plan → List String → List DbRow → List DbRow
delete_tables plan [] db = db
delete_tables plan (dt ∷ dts) db = delete_tables plan dts (bulk_delete dt (planned plan dt) db)

abbrev pub log_tables : List String
log_tables =
    "Proxmox Alert Log" ∷ "Service Status Log" ∷ "Frappe Worker Health Log"
    ∷ "Frappe Failed Job Log" ∷ "Frappe Active Job" ∷ "Resource Mount" ∷ "Resource Metric Log"
    ∷ "Resource Disk Sample" ∷ "Proxmox Host Metric Log" ∷ "Proxmox Guest Metric Log"
    ∷ "Proxmox Backup Log" ∷ "Instance Site" ∷ []

abbrev pub owner_tables : List String
owner_tables =
    "Monitored Host" ∷ "NPM Instance" ∷ "Proxmox Datastore" ∷ "Proxmox Guest" ∷ "Proxmox Server"
    ∷ []

abbrev pub child_tables : List String
child_tables = "Expected Service" ∷ "Monitored Host Site" ∷ []

-- `frappe.db.delete(child, {"parent": ["in", hosts], "parenttype": "Monitored Host"})`
unfoldable pub is_child_row : List String → DbRow → Bool
is_child_row hosts r =
    has_text r.doctype child_tables
    && field_in "parent" hosts r
    && field_is "parenttype" "Monitored Host" r

-- `frappe.db.set_value("Recurring Error", {"name": ["in", names]}, "monitored_host", None)`
unfoldable pub unlink : List String → DbRow → DbRow
unlink names r =
    if is_named_row "Recurring Error" names r
    then record r { fields = dict_delete "monitored_host" r.fields }
    else r

-- An encrypted secret, of the record that it is stored for.
pub record Secret : Type 0 where
  pub of_doctype : String
  pub of_name : String

pub record Database : Type 0 where
  pub rows : List DbRow
  pub secrets : List Secret

unfoldable pub is_secret_of : String → List String → Secret → Bool
is_secret_of dt names s = str_eq s.of_doctype dt && has_text s.of_name names

-- The last loop: the records with their secrets.
unfoldable pub delete_owners : Plan → List String → Database → Database
delete_owners plan [] db = db
delete_owners plan (dt ∷ dts) db = delete_owners plan dts record {
  rows = bulk_delete dt (planned plan dt) db.rows;
  secrets =
      if is_empty (planned plan dt)
      then db.secrets
      else delete_where (is_secret_of dt (planned plan dt)) db.secrets;
}

-- server_deletion.py: `_delete`
unfoldable pub delete_planned : Plan → Database → Database
delete_planned plan db =
    let hosts = planned plan "Monitored Host" in
    let unlinked = planned plan "Recurring Error (unlinked)" in
    let linked = if is_empty unlinked then db.rows else map (unlink unlinked) db.rows in
    let logged = delete_tables plan log_tables linked in
    let orphaned = if is_empty hosts then logged else delete_where (is_child_row hosts) logged in
    delete_owners plan owner_tables (record db { rows = orphaned })
