-- ===== src/Deletion/Archived.antt =====
-- What the archive of a deletion holds.
use alfaedge_pulse.Common.{
  All-map, All-any, String, ◌≡◌, refl, ◌⊎◌, inl, inr, Bool, true, false, not, ◌&&◌, List, [], ◌∷◌,
  ◌++◌, arith, eq_iff, Bool-cases, any, All,
}
use alfaedge_pulse.Deletion.Complete.{is_planned_in}
use alfaedge_pulse.Deletion.Delete.{is_named_row, log_tables, owner_tables, planned}
use alfaedge_pulse.Deletion.Fidelity.{IsIn, named_doctype}
use alfaedge_pulse.Deletion.Copies.{unlinked_table, is_archived, archive_tables-copies}
use alfaedge_pulse.Deletion.{DbRow, Plan}
use alfaedge_pulse.Common.Names.{has_text}
use alfaedge_pulse.Deletion.Archive.{build_archive, history_tables}

-- The tables of metric history, whose rows the archive only counts.
abbrev pub metric_tables : List String
metric_tables =
    "Proxmox Host Metric Log" ∷ "Proxmox Guest Metric Log" ∷ "Frappe Worker Health Log"
    ∷ "Frappe Failed Job Log" ∷ "Resource Metric Log" ∷ "Resource Disk Sample" ∷ []

abbrev pub IsHistory : DbRow → Type 0
IsHistory r = has_text r.doctype metric_tables ≡ true

archived-planned :
    (db : List DbRow) (plan : Plan) (dts : List String) (r : DbRow)
    → has_text unlinked_table dts ≡ false
    → IsIn db r
    → is_planned_in plan dts r ≡ true
    → IsHistory r ⊎ (is_archived db (build_archive plan db) r ≡ true)
unfolding is_planned_in build_archive has_text
archived-planned db plan [] r apart in_db h = ground (arith, h)
archived-planned db plan (dt ∷ dts) r apart in_db h =
    elim (Bool-cases (is_named_row dt (planned plan dt) r)) [
      | inr other ↦
          archived-planned db plan dts r (ground (arith, apart)) in_db (ground (arith, h, other))
      | inl named ↦ elim (Bool-cases (has_text dt history_tables)) [
        | inl history ↦ inl (rw (named_doctype dt (planned plan dt) r named) history)
        | inr full ↦ inr (
            archive_tables-copies db plan _ dt r in_db named
              (ground (arith, apart, eq_iff dt unlinked_table, eq_iff unlinked_table dt)) full)
      ]
    ]

-- Each row that the plan names is of a table of history, or copied.
build_archive-Complete :
    (plan : Plan) (db : List DbRow)
    → All
        (λ r.
          is_planned_in plan (log_tables ++ owner_tables) r ≡ true
          → IsHistory r ⊎ (is_archived db (build_archive plan db) r ≡ true))
        db
unfolding IsIn has_text
build_archive-Complete plan db =
    All-map db
      (λ r in_db planned_row.
        archived-planned db plan (log_tables ++ owner_tables) r refl in_db planned_row)
      (All-any db)

-- A row that the plan names, whose table the archive does not only count, and that the archive has no
-- full copy of.
pub is_lost : Plan → List DbRow → DbRow → Bool
is_lost plan db r =
    is_planned_in plan (log_tables ++ owner_tables) r
    && not (has_text r.doctype metric_tables)
    && not (is_archived db (build_archive plan db) r)

none_lost :
    (plan : Plan) (db rows : List DbRow)
    → All
        (λ r.
          is_planned_in plan (log_tables ++ owner_tables) r ≡ true
          → IsHistory r ⊎ (is_archived db (build_archive plan db) r ≡ true))
        rows
    → any (is_lost plan db) rows ≡ false
unfolding is_lost
none_lost plan db [] h = refl
none_lost plan db (r ∷ rows) (safe, h) =
    let rest = none_lost plan db rows h in
    elim (Bool-cases (is_planned_in plan (log_tables ++ owner_tables) r)) [
      | inr away ↦ rw (is_lost, away) rest
      | inl doomed ↦ elim (safe doomed) [
        | inl history ↦ rw (is_lost, doomed, history) rest
        | inr copied_row ↦ ground (arith, doomed, copied_row, rest)
      ]
    ]

-- Each row of the database that the plan names in one of the tables of logs or of owners, and whose
-- table is not one of metric history, has a copy in the archive with its doctype, its name, its
-- creation and all its fields; where it is a monitored host, the copy holds a full copy of each child
-- row of the host in the database.
pub build_archive-is_lost : (plan : Plan) (db : List DbRow) → any (is_lost plan db) db ≡ false
build_archive-is_lost plan db = none_lost plan db db (build_archive-Complete plan db)
