-- ===== src/Deletion/Complete.antt =====
-- What a deletion leaves of the database.
use alfaedge_pulse.Common.{
  String, ◌≡◌, refl, sym, ap, ◌∙◌, inl, inr, Bool, false, ◌||◌, List, [], ◌∷◌, map, arith,
  if◌then◌else◌, Option-cases, any,
}
use alfaedge_pulse.Deletion.Delete.{
  delete_tables, delete_owners, delete_planned, Database, unlink, is_child_row, is_named_row,
  log_tables, planned, owner_tables,
}
use alfaedge_pulse.Deletion.{field_in, Plan, DbRow}
use alfaedge_pulse.Common.Names.{is_empty, has_text}
use alfaedge_pulse.Common.Dicts.{dict_get}
use alfaedge_pulse.Common.Tables.{delete_where}
use alfaedge_pulse.Deletion.Chunks.{delete_where-never, bulk_delete_lem, delete_where-twice}

-- A table of the list plans the row.
unfoldable pub is_planned_in : Plan → List String → DbRow → Bool
is_planned_in plan dts r = any (λ dt. is_named_row dt (planned plan dt) r) dts

delete_tables_lem :
    (plan : Plan) (dts : List String) (db : List DbRow)
    → delete_tables plan dts db ≡ delete_where (is_planned_in plan dts) db
unfolding delete_tables is_planned_in
delete_tables_lem plan [] db = sym (delete_where-never _ db (λ r. refl))
delete_tables_lem plan (dt ∷ dts) db =
    delete_tables_lem plan dts _
    ∙ ap (delete_where (is_planned_in plan dts)) (bulk_delete_lem dt (planned plan dt) db)
    ∙ delete_where-twice _ _ (is_planned_in plan (dt ∷ dts)) db (λ r. refl)

delete_owners_lem :
    (plan : Plan) (dts : List String) (db : Database)
    → (delete_owners plan dts db).rows ≡ delete_where (is_planned_in plan dts) db.rows
unfolding delete_owners is_planned_in
delete_owners_lem plan [] db = sym (delete_where-never _ db.rows (λ r. refl))
delete_owners_lem plan (dt ∷ dts) db =
    delete_owners_lem plan dts _
    ∙ ap (delete_where (is_planned_in plan dts)) (bulk_delete_lem dt (planned plan dt) db.rows)
    ∙ delete_where-twice _ _ (is_planned_in plan (dt ∷ dts)) db.rows (λ r. refl)

-- A row that a deletion by the plan removes.
unfoldable pub is_doomed : Plan → DbRow → Bool
is_doomed plan r =
    is_planned_in plan log_tables r
    || is_child_row (planned plan "Monitored Host") r
    || is_planned_in plan owner_tables r

field_in-none : (field : String) (r : DbRow) → field_in field [] r ≡ false
unfolding field_in has_text
field_in-none field r = elim (Option-cases (dict_get field r.fields)) [
  | inl e ↦ rw (field_in, e) refl
  | inr (v, e) ↦ rw (field_in, e) refl
]

-- The rows of the children, whether or not there are hosts.
children_lem :
    (hosts : List String) (db : List DbRow)
    → (if is_empty hosts then db else delete_where (is_child_row hosts) db)
      ≡ delete_where (is_child_row hosts) db
unfolding is_empty is_child_row
children_lem [] db = sym (delete_where-never _ db (λ r. ground (arith, field_in-none "parent" r)))
children_lem (h ∷ hosts) db = refl

unlinked_lem :
    (names : List String) (db : List DbRow)
    → (if is_empty names then db else map (unlink names) db) ≡ map (unlink names) db
unfolding is_empty unlink is_named_row has_text
unlinked_lem [] [] = refl
unlinked_lem [] (r ∷ db) = ground (arith, unlinked_lem [] db)
unlinked_lem (x ∷ names) db = refl

-- A deletion leaves the rows that the plan does not doom, in their order, and changes none of them
-- but for the link of an error that it unlinks from its host.
pub delete_planned_lem :
    (plan : Plan) (db : Database)
    → (delete_planned plan db).rows
      ≡ delete_where
          (is_doomed plan)
          (map (unlink (planned plan "Recurring Error (unlinked)")) db.rows)
unfolding delete_planned is_doomed
delete_planned_lem plan db =
    delete_owners_lem plan owner_tables _
    ∙ ap (delete_where (is_planned_in plan owner_tables)) (
        children_lem (planned plan "Monitored Host") _
        ∙ ap (delete_where (is_child_row (planned plan "Monitored Host"))) (
            delete_tables_lem plan log_tables _
            ∙ ap (delete_where (is_planned_in plan log_tables))
                (unlinked_lem (planned plan "Recurring Error (unlinked)") db.rows)))
    ∙ ap (delete_where (is_planned_in plan owner_tables)) (
        delete_where-twice _ _
          (λ r. is_planned_in plan log_tables r || is_child_row (planned plan "Monitored Host") r) _
          (λ r. refl))
    ∙ delete_where-twice _ _ (is_doomed plan) _ (λ r. ground arith)
