-- ===== src/Deletion/Linked.antt =====
-- The links to the server of the rows that a deletion by its own plan leaves.
use alfaedge_pulse.Common.{
  All-map, All-any, String, ◌≡◌, refl, sym, ap, ◌∙◌, inl, inr, Bool, true, false, ◌&&◌, ◌||◌, List,
  [], ◌∷◌, map, arith, str_eq, eq_iff, Bool-cases, any, All,
}
use alfaedge_pulse.Deletion.Fidelity.{IsIn}
use alfaedge_pulse.Common.Tables.{delete_where}
use alfaedge_pulse.Deletion.{
  DbRow, field_is, Plan, collect, DbRow, DbRow, DbRow, DbRow, DbRow, DbRow, DbRow, DbRow, DbRow,
  DbRow, DbRow, DbRow, DbRow, DbRow, DbRow, DbRow, DbRow, DbRow, DbRow, DbRow, DbRow, DbRow, DbRow,
  DbRow, DbRow, DbRow, DbRow, DbRow, DbRow, DbRow, DbRow, DbRow, DbRow, DbRow, DbRow,
}
use alfaedge_pulse.Deletion.Delete.{
  unlink, Database, is_named_row, delete_planned, planned, owner_tables, log_tables, is_named_row,
  is_named_row, is_named_row, is_named_row, is_named_row, is_named_row, is_named_row, is_named_row,
  is_named_row, is_named_row, is_named_row, is_named_row, is_named_row, is_named_row, is_named_row,
  is_named_row, is_named_row, is_named_row, is_named_row, is_named_row, is_named_row, is_named_row,
  is_named_row, is_named_row, is_named_row, is_named_row, is_named_row, is_named_row, is_named_row,
  is_named_row, is_named_row, is_named_row, is_named_row, is_named_row, is_named_row,
}
use alfaedge_pulse.Deletion.Complete.{is_doomed, delete_planned_lem}
use alfaedge_pulse.Common.Names.{has_text}
use alfaedge_pulse.Common.Groups.{group_of}
use alfaedge_pulse.Deletion.Named.{named_of, planned_table, named_union}

-- The row is of one of the tables that hold what belongs to a server, and links to the server.
pub links_to : String → DbRow → Bool
links_to server r =
    (str_eq r.doctype "Proxmox Guest"
        || str_eq r.doctype "Proxmox Datastore"
        || str_eq r.doctype "Proxmox Backup Log"
        || str_eq r.doctype "Proxmox Host Metric Log"
        || str_eq r.doctype "Proxmox Guest Metric Log")
      && field_is "server" server r
    || (str_eq r.doctype "Instance Site" || str_eq r.doctype "NPM Instance")
      && field_is "proxmox_server" server r

doomed_log :
    (plan : Plan) (dt : String) (r : DbRow)
    → has_text dt log_tables ≡ true
    → str_eq r.doctype dt ≡ true
    → has_text r.name (planned plan dt) ≡ true
    → is_doomed plan r ≡ true
unfolding is_doomed
doomed_log plan dt r listed same named =
    ground (arith, planned_table plan dt log_tables r listed same named)

doomed_owner :
    (plan : Plan) (dt : String) (r : DbRow)
    → has_text dt owner_tables ≡ true
    → str_eq r.doctype dt ≡ true
    → has_text r.name (planned plan dt) ≡ true
    → is_doomed plan r ≡ true
unfolding is_doomed
doomed_owner plan dt r listed same named =
    ground (arith, planned_table plan dt owner_tables r listed same named)

module _ (server : String) (db : List DbRow) (r : DbRow) (in_db : IsIn db r) where
  guest_doomed :
      str_eq r.doctype "Proxmox Guest" ≡ true
      → field_is "server" server r ≡ true
      → is_doomed (collect server db) r ≡ true
  unfolding collect planned group_of has_text
  guest_doomed same linked =
      doomed_owner (collect server db) "Proxmox Guest" r refl same
        (named_of "Proxmox Guest" (field_is "server" server) db r in_db same linked)

  datastore_doomed :
      str_eq r.doctype "Proxmox Datastore" ≡ true
      → field_is "server" server r ≡ true
      → is_doomed (collect server db) r ≡ true
  unfolding collect planned group_of has_text
  datastore_doomed same linked =
      doomed_owner (collect server db) "Proxmox Datastore" r refl same
        (named_of "Proxmox Datastore" (field_is "server" server) db r in_db same linked)

  backup_doomed :
      str_eq r.doctype "Proxmox Backup Log" ≡ true
      → field_is "server" server r ≡ true
      → is_doomed (collect server db) r ≡ true
  unfolding collect planned group_of has_text
  backup_doomed same linked =
      doomed_log (collect server db) "Proxmox Backup Log" r refl same
        (named_union "Proxmox Backup Log" (field_is "server" server) _ db r in_db same linked)

  host_metric_doomed :
      str_eq r.doctype "Proxmox Host Metric Log" ≡ true
      → field_is "server" server r ≡ true
      → is_doomed (collect server db) r ≡ true
  unfolding collect planned group_of has_text
  host_metric_doomed same linked =
      doomed_log (collect server db) "Proxmox Host Metric Log" r refl same
        (named_of "Proxmox Host Metric Log" (field_is "server" server) db r in_db same linked)

  guest_metric_doomed :
      str_eq r.doctype "Proxmox Guest Metric Log" ≡ true
      → field_is "server" server r ≡ true
      → is_doomed (collect server db) r ≡ true
  unfolding collect planned group_of has_text
  guest_metric_doomed same linked =
      doomed_log (collect server db) "Proxmox Guest Metric Log" r refl same
        (named_of "Proxmox Guest Metric Log" (field_is "server" server) db r in_db same linked)

  site_doomed :
      str_eq r.doctype "Instance Site" ≡ true
      → field_is "proxmox_server" server r ≡ true
      → is_doomed (collect server db) r ≡ true
  unfolding collect planned group_of has_text
  site_doomed same linked =
      doomed_log (collect server db) "Instance Site" r refl same
        (named_union "Instance Site" (field_is "proxmox_server" server) _ db r in_db same linked)

  npm_doomed :
      str_eq r.doctype "NPM Instance" ≡ true
      → field_is "proxmox_server" server r ≡ true
      → is_doomed (collect server db) r ≡ true
  unfolding collect planned group_of has_text
  npm_doomed same linked =
      doomed_owner (collect server db) "NPM Instance" r refl same
        (named_of "NPM Instance" (field_is "proxmox_server" server) db r in_db same linked)

  published_doomed :
      ((str_eq r.doctype "Instance Site" || str_eq r.doctype "NPM Instance")
          && field_is "proxmox_server" server r)
        ≡ true
      → is_doomed (collect server db) r ≡ true
  published_doomed h =
      let linked : field_is "proxmox_server" server r ≡ true = ground (arith, h) in
      elim (Bool-cases (str_eq r.doctype "Instance Site")) [
        | inl d ↦ site_doomed d linked
        | inr d ↦ npm_doomed (ground (arith, h, d)) linked
      ]

  links_to-doomed : links_to server r ≡ true → is_doomed (collect server db) r ≡ true
  unfolding links_to
  links_to-doomed h = elim (Bool-cases (field_is "server" server r)) [
    | inl own ↦ elim (Bool-cases (str_eq r.doctype "Proxmox Guest")) [
      | inl d ↦ guest_doomed d own
      | inr d1 ↦ elim (Bool-cases (str_eq r.doctype "Proxmox Datastore")) [
        | inl d ↦ datastore_doomed d own
        | inr d2 ↦ elim (Bool-cases (str_eq r.doctype "Proxmox Backup Log")) [
          | inl d ↦ backup_doomed d own
          | inr d3 ↦ elim (Bool-cases (str_eq r.doctype "Proxmox Host Metric Log")) [
            | inl d ↦ host_metric_doomed d own
            | inr d4 ↦ elim (Bool-cases (str_eq r.doctype "Proxmox Guest Metric Log")) [
              | inl d ↦ guest_metric_doomed d own
              | inr d5 ↦ published_doomed (ground (arith, h, d1, d2, d3, d4, d5))
            ]
          ]
        ]
      ]
    ]
    | inr own ↦ published_doomed (ground (arith, h, own))
  ]

error-links_to :
    (server : String) (r : DbRow) → r.doctype ≡ "Recurring Error" → links_to server r ≡ false
unfolding links_to
error-links_to server r same = rw same refl

-- Unlinking touches no row that links to a server.
links_to-unlink :
    (server : String) (names : List String) (r : DbRow)
    → links_to server (unlink names r) ≡ true
    → unlink names r ≡ r
unfolding links_to unlink is_named_row
links_to-unlink server names r h = elim (Bool-cases (is_named_row "Recurring Error" names r)) [
  | inr b ↦ rw (unlink, b) refl
  | inl b ↦
      let same : r.doctype ≡ "Recurring Error" =
        (eq_iff r.doctype "Recurring Error").0 (ground (arith, b)) in
      let kept : (unlink names r).doctype ≡ r.doctype = rw (unlink, b) refl in
      let apart = error-links_to server (unlink names r) (kept ∙ same) in ground (arith, h, apart)
]

none_left :
    (server : String) (plan : Plan) (names : List String) (rows : List DbRow)
    → All (λ r. links_to server r ≡ true → is_doomed plan r ≡ true) rows
    → any (links_to server) (delete_where (is_doomed plan) (map (unlink names) rows)) ≡ false
unfolding delete_where
none_left server plan names [] h = refl
none_left server plan names (r ∷ rows) (dooms, h) =
    let rest = none_left server plan names rows h in
    elim (Bool-cases (links_to server (unlink names r))) [
      | inr b ↦ ground (arith, b, rest)
      | inl b ↦
          let same = links_to-unlink server names r b in
          let doomed : is_doomed plan (unlink names r) ≡ true = rw same (dooms (rw (sym same) b)) in
          ground (arith, doomed, rest)
    ]

-- After the deletion of a server by its own plan, no guest, datastore, backup log, metric log,
-- discovered site or NPM of the database links to the server.
pub delete_planned-links_to :
    (server : String) (db : Database)
    → any (links_to server) (delete_planned (collect server db.rows) db).rows ≡ false
unfolding IsIn
delete_planned-links_to server db =
    ap (any (links_to server)) (delete_planned_lem (collect server db.rows) db)
    ∙ none_left server (collect server db.rows) _ db.rows
        (All-map db.rows (λ r in_db. links_to-doomed server db.rows r in_db) (All-any db.rows))
