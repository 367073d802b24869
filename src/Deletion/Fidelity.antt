-- ===== src/Deletion/Fidelity.antt =====
-- The copy of one row in the archive: `_rows` and the turn of `_build_archive` over its rows.
use mathlib.Core.Path.{subst}
use alfaedge_pulse.Deletion.{DbRow}
use alfaedge_pulse.Deletion.Archive.{CopiedRow, copy_of, children_of, rows_named}
use alfaedge_pulse.Deletion.Delete.{is_child_row, child_tables, is_named_row}
use alfaedge_pulse.Deletion.Chunks.{any-keep, any-rows_named}
use alfaedge_pulse.Common.Names.{has_text}
use alfaedge_pulse.Common.{
  All-any, String, ◌≡◌, refl, sym, ◌∙◌, inl, inr, Bool, true, false, not, ◌&&◌, ◌||◌, List, [], ◌∷◌,
  map, arith, str_eq, eq_iff, eq_refl, ◌==◌, Bool-cases, any, all, All,
}

-- The same fields, in the same order.
pub same_fields : List (String × String) → List (String × String) → Bool
same_fields [] [] = true
same_fields [] (y ∷ ys) = false
same_fields (x ∷ xs) [] = false
same_fields (x ∷ xs) (y ∷ ys) = str_eq x.0 y.0 && str_eq x.1 y.1 && same_fields xs ys

same_fields_self : (xs : List (String × String)) → same_fields xs xs ≡ true
unfolding same_fields
same_fields_self [] = refl
same_fields_self (x ∷ xs) = rw (eq_refl x.0, eq_refl x.1) (same_fields_self xs)

-- The two rows agree in the doctype, the name, the creation and every field.
unfoldable pub same_row : DbRow → DbRow → Bool
same_row r x =
    str_eq x.doctype r.doctype
    && str_eq x.name r.name
    && x.creation == r.creation
    && same_fields x.fields r.fields

same_row_self : (r : DbRow) → same_row r r ≡ true
unfolding same_row
same_row_self r = ground (arith, eq_refl r.doctype, eq_refl r.name, same_fields_self r.fields)

-- Each row of the database that is a child row of the monitored host is among the copy's children.
unfoldable pub holds_children : List DbRow → DbRow → CopiedRow → Bool
holds_children db r c =
    all (λ x. not (is_child_row (r.name ∷ []) x) || any (λ e. any (same_row x) e.1) c.children) db

-- A full copy of the row, with its child rows if it is a monitored host.
unfoldable pub is_same_row : List DbRow → DbRow → CopiedRow → Bool
is_same_row db r c =
    same_row r c.row && (not (str_eq r.doctype "Monitored Host") || holds_children db r c)

-- A search that the row would pass succeeds in the database.
unfoldable pub IsIn : List DbRow → DbRow → Type 0
IsIn db r = (p : DbRow → Bool) → p r ≡ true → any p db ≡ true

-- A child row in the database is among the children that are copied with the host.
child-copied :
    (db : List DbRow) (r x : DbRow)
    → IsIn db x
    → is_child_row (r.name ∷ []) x ≡ true
    → (tables : List String) → has_text x.doctype tables ≡ true
    → any (λ e. any (same_row x) e.1) (map (children_of db r) tables) ≡ true
unfolding IsIn children_of has_text
child-copied db r x in_db child [] listed = ground (arith, listed)
child-copied db r x in_db child (t ∷ ts) listed = elim (Bool-cases (str_eq x.doctype t)) [
  | inl e ↦
      let found =
        in_db (λ c. (str_eq c.doctype t && is_child_row (r.name ∷ []) c) && same_row x c)
          (rw (e, child, same_row_self x) refl) in
      ground (
        arith,
        any-keep (λ c. str_eq c.doctype t && is_child_row (r.name ∷ []) c) (same_row x) db,
        found,
      )
  | inr e ↦ ground (arith, e, listed, child-copied db r x in_db child ts)
]

child_listed :
    (hosts : List String) (x : DbRow)
    → is_child_row hosts x ≡ true
    → has_text x.doctype child_tables ≡ true
unfolding is_child_row
child_listed hosts x h = ground (arith, h)

children-copied :
    (db rows : List DbRow) (r : DbRow)
    → All (λ x. (p : DbRow → Bool) → p x ≡ true → any p db ≡ true) rows
    → all
        (λ x.
          not (is_child_row (r.name ∷ []) x)
          || any (λ e. any (same_row x) e.1) (map (children_of db r) child_tables))
        rows
      ≡ true
unfolding IsIn
children-copied db [] r h = refl
children-copied db (x ∷ xs) r h = elim (Bool-cases (is_child_row (r.name ∷ []) x)) [
  | inl e ↦ ground (
    arith,
    e,
    child-copied db r x h.0 e child_tables (child_listed (r.name ∷ []) x e),
    children-copied db xs r h.1,
  )
  | inr e ↦ ground (arith, e, children-copied db xs r h.1)
]

copy_of-holds_children :
    (db : List DbRow) (r x : DbRow)
    → x.name ≡ r.name
    → holds_children db r (copy_of db "Monitored Host" x) ≡ true
unfolding holds_children copy_of
copy_of-holds_children db r x named =
    subst
      (λ n.
        all
          (λ y.
            not (is_child_row (n ∷ []) y)
            || any (λ e. any (same_row y) e.1) (map (children_of db x) child_tables))
          db
        ≡ true)
      named (children-copied db db x (All-any db))

copy_of-is_same_row :
    (db : List DbRow) (dt : String) (r x : DbRow)
    → r.doctype ≡ dt
    → is_same_row db r (copy_of db dt x) ≡ same_row r x
unfolding is_same_row
copy_of-is_same_row db dt r x typed =
    let copied_row : (copy_of db dt x).row ≡ x = unfold copy_of in refl in
    elim (Bool-cases (same_row r x)) [
      | inr e ↦ rw (copied_row, e) refl
      | inl e ↦ elim (Bool-cases (str_eq r.doctype "Monitored Host")) [
        | inr other ↦ rw (copied_row, e, other) refl
        | inl host ↦
            let named : x.name ≡ r.name =
              unfold same_row in (eq_iff x.name r.name).0 (ground (arith, e)) in
            let held =
              subst (λ d. holds_children db r (copy_of db d x) ≡ true)
                (sym ((eq_iff r.doctype "Monitored Host").0 host) ∙ typed)
                (copy_of-holds_children db r x named) in
            rw (host, held, copied_row, e) refl
      ]
    ]

any-copies :
    (db rows : List DbRow) (dt : String) (r : DbRow)
    → r.doctype ≡ dt
    → any (is_same_row db r) (map (copy_of db dt) rows) ≡ any (same_row r) rows
any-copies db [] dt r typed = refl
any-copies db (x ∷ rows) dt r typed =
    ground (arith, copy_of-is_same_row db dt r x typed, any-copies db rows dt r typed)

pub named_doctype :
    (dt : String) (names : List String) (r : DbRow)
    → is_named_row dt names r ≡ true
    → r.doctype ≡ dt
unfolding is_named_row
named_doctype dt names r h = (eq_iff r.doctype dt).0 (ground (arith, h))

-- A row that is in the database and named in the plan is copied.
pub copied :
    (db : List DbRow) (dt : String) (names : List String) (r : DbRow)
    → IsIn db r
    → is_named_row dt names r ≡ true
    → any (is_same_row db r) (map (copy_of db dt) (rows_named dt names db)) ≡ true
unfolding IsIn
copied db dt names r in_db named =
    any-copies db (rows_named dt names db) dt r (named_doctype dt names r named)
    ∙ any-rows_named dt names _ db
    ∙ in_db _ (rw (named, same_row_self r) refl)
