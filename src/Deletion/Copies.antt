-- ===== src/Deletion/Copies.antt =====
-- What the turns of `_build_archive` copy.
use mathlib.Core.List.{append-nil}
use alfaedge_pulse.Deletion.Archive.{
  names_only, copies, archive_table, Payload, archive_tables, copy_of, Archived, rows_named,
  history_tables,
}
use alfaedge_pulse.Common.{
  String, ◌≡◌, refl, sym, ap, ◌∙◌, inl, inr, Bool, true, false, ◌||◌, List, [], ◌∷◌, ◌++◌, map,
  arith, str_eq, eq_iff, if◌then◌else◌, Bool-cases, any, any-append,
}
use alfaedge_pulse.Deletion.{DbRow, Plan}
use alfaedge_pulse.Deletion.Delete.{planned, is_named_row}
use alfaedge_pulse.Common.Names.{is_empty, has_text}
use alfaedge_pulse.Common.Groups.{group_of}
use alfaedge_pulse.Deletion.Chunks.{is_named_row-nil}
use alfaedge_pulse.Deletion.Fidelity.{IsIn, is_same_row, copied}

abbrev pub unlinked_table : String
unlinked_table = "Recurring Error (unlinked)"

unfoldable pub holds_copy : List DbRow → DbRow → Archived → Bool
holds_copy db r (names_only names) = false
holds_copy db r (copies cs) = any (is_same_row db r) cs

-- The records of the payload hold a full copy of a row of the database.
pub is_archived : List DbRow → Payload → DbRow → Bool
is_archived db p r = any (λ e. holds_copy db r e.1) p.records

-- What the turn of a table adds to the records.
entry_of : List DbRow → String → List String → List (String × Archived)
entry_of db dt names =
    if is_empty names
    then []
    else if str_eq dt unlinked_table
    then (dt, names_only names) ∷ []
    else if has_text dt history_tables
    then []
    else (dt, copies (map (copy_of db dt) (rows_named dt names db))) ∷ []

archive_table-records :
    (db : List DbRow) (dt : String) (names : List String) (p : Payload)
    → (archive_table db (dt, names) p).records ≡ p.records ++ entry_of db dt names
unfolding archive_table entry_of
archive_table-records db dt names p = ground (arith, append-nil p.records)

is_archived-table :
    (db : List DbRow) (dt : String) (names : List String) (p : Payload) (r : DbRow)
    → is_archived db (archive_table db (dt, names) p) r
      ≡ (is_archived db p r || any (λ e. holds_copy db r e.1) (entry_of db dt names))
unfolding is_archived
is_archived-table db dt names p r =
    ap (any (λ e. holds_copy db r e.1)) (archive_table-records db dt names p)
    ∙ any-append (λ e. holds_copy db r e.1) p.records (entry_of db dt names)

-- A table's turn keeps what the records hold.
archive_table-keeps :
    (db : List DbRow) (e : String × List String) (p : Payload) (r : DbRow)
    → is_archived db p r ≡ true
    → is_archived db (archive_table db e p) r ≡ true
archive_table-keeps db (dt, names) p r h = is_archived-table db dt names p r ∙ rw h refl

archive_tables-keeps :
    (db : List DbRow) (es : Plan) (p : Payload) (r : DbRow)
    → is_archived db p r ≡ true
    → is_archived db (archive_tables db es p) r ≡ true
unfolding archive_tables
archive_tables-keeps db [] p r h = h
archive_tables-keeps db (e ∷ es) p r h =
    archive_tables-keeps db es (archive_table db e p) r (archive_table-keeps db e p r h)

entry_of-copies :
    (db : List DbRow) (dt : String) (names : List String) (r : DbRow)
    → IsIn db r
    → is_named_row dt names r ≡ true
    → str_eq dt unlinked_table ≡ false
    → has_text dt history_tables ≡ false
    → any (λ e. holds_copy db r e.1) (entry_of db dt names) ≡ true
unfolding entry_of holds_copy is_empty
entry_of-copies db dt [] r in_db named linked full = ground (arith, named, is_named_row-nil dt r)
entry_of-copies db dt (n ∷ names) r in_db named linked full =
    rw (linked, full, copied db dt (n ∷ names) r in_db named) refl

archive_table-copies :
    (db : List DbRow) (dt : String) (names : List String) (p : Payload) (r : DbRow)
    → IsIn db r
    → is_named_row dt names r ≡ true
    → str_eq dt unlinked_table ≡ false
    → has_text dt history_tables ≡ false
    → is_archived db (archive_table db (dt, names) p) r ≡ true
archive_table-copies db dt names p r in_db named linked full =
    is_archived-table db dt names p r
    ∙ ground (arith, entry_of-copies db dt names r in_db named linked full)

planned_here :
    (k dt : String) (names : List String) (plan : Plan)
    → str_eq k dt ≡ true
    → planned ((k, names) ∷ plan) dt ≡ names
unfolding planned group_of
planned_here k dt names plan e = rw e refl

planned_there :
    (k dt : String) (names : List String) (plan : Plan)
    → str_eq k dt ≡ false
    → planned ((k, names) ∷ plan) dt ≡ planned plan dt
unfolding planned group_of
planned_there k dt names plan e = rw e refl

pub archive_tables-copies :
    (db : List DbRow) (plan : Plan) (p : Payload) (dt : String) (r : DbRow)
    → IsIn db r
    → is_named_row dt (planned plan dt) r ≡ true
    → str_eq dt unlinked_table ≡ false
    → has_text dt history_tables ≡ false
    → is_archived db (archive_tables db plan p) r ≡ true
unfolding archive_tables planned group_of
archive_tables-copies db [] p dt r in_db named linked full =
    ground (arith, named, is_named_row-nil dt r)
archive_tables-copies db ((k, names) ∷ plan) p dt r in_db named linked full =
    elim (Bool-cases (str_eq k dt)) [
      | inl e ↦
          let same : k ≡ dt = (eq_iff k dt).0 e in
          archive_tables-keeps db plan _ r (
            archive_table-copies db k names p r in_db
              (rw same
                (ap (λ ns. is_named_row dt ns r) (sym (planned_here k dt names plan e)) ∙ named))
              (rw same linked) (rw same full))
      | inr e ↦
          archive_tables-copies db plan _ dt r in_db
            (ap (λ ns. is_named_row dt ns r) (sym (planned_there k dt names plan e)) ∙ named) linked
            full
    ]
