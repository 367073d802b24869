-- ===== src/Deletion/Named.antt =====
-- Which rows of the database the names of a plan are.
use alfaedge_pulse.Common.{
  String, ◌≡◌, refl, sym, ◌∙◌, inl, inr, Bool, true, ◌&&◌, ◌||◌, List, [], ◌∷◌, arith, str_eq,
  eq_iff, eq_refl, Bool-cases, any,
}
use alfaedge_pulse.Deletion.Complete.{is_planned_in}
use alfaedge_pulse.Deletion.Fidelity.{IsIn}
use alfaedge_pulse.Deletion.{names_of, union_of, distinct, DbRow, Plan}
use alfaedge_pulse.Common.Names.{sort_texts, has_text, insert_text}
use alfaedge_pulse.Deletion.Delete.{is_named_row, planned}

has_text-insert :
    (x y : String) (ys : List String)
    → has_text x (insert_text y ys) ≡ (str_eq x y || has_text x ys)
unfolding has_text insert_text
has_text-insert x y [] = refl
has_text-insert x y (z ∷ ys) = ground (arith, has_text-insert x y ys)

has_text-sort : (x : String) (ys : List String) → has_text x (sort_texts ys) ≡ has_text x ys
unfolding sort_texts has_text
has_text-sort x [] = refl
has_text-sort x (y ∷ ys) = has_text-insert x y (sort_texts ys) ∙ ground (arith, has_text-sort x ys)

has_text-distinct : (x : String) (ys : List String) → has_text x (distinct ys) ≡ has_text x ys
unfolding distinct has_text
has_text-distinct x [] = refl
has_text-distinct x (y ∷ ys) = elim (Bool-cases (has_text y (distinct ys))) [
  | inr e ↦ rw (distinct, e) (ground (arith, has_text-distinct x ys))
  | inl e ↦ elim (Bool-cases (str_eq x y)) [
    | inl s ↦ rw (distinct, e, s) (rw ((eq_iff x y).0 s) e)
    | inr s ↦ rw (distinct, e, s) (has_text-distinct x ys)
  ]
]

-- A row of the database that passes the filter is among the names of its table.
names_of-has :
    (dt : String) (p : DbRow → Bool) (db : List DbRow) (x : String)
    → has_text x (names_of dt p db) ≡ any (λ r. (str_eq r.doctype dt && p r) && str_eq x r.name) db
unfolding names_of has_text
names_of-has dt p [] x = refl
names_of-has dt p (r ∷ db) x = ground (arith, names_of-has dt p db x)

pub named_of :
    (dt : String) (p : DbRow → Bool) (db : List DbRow) (r : DbRow)
    → IsIn db r
    → str_eq r.doctype dt ≡ true
    → p r ≡ true
    → has_text r.name (names_of dt p db) ≡ true
unfolding IsIn
named_of dt p db r in_db same passes =
    names_of-has dt p db r.name ∙ in_db _ (ground (arith, same, passes, eq_refl r.name))

pub named_union :
    (dt : String) (p : DbRow → Bool) (ps : List (DbRow → Bool)) (db : List DbRow) (r : DbRow)
    → IsIn db r
    → str_eq r.doctype dt ≡ true
    → p r ≡ true
    → has_text r.name (union_of dt (p ∷ ps) db) ≡ true
unfolding union_of
named_union dt p ps db r in_db same passes =
    has_text-sort r.name _
    ∙ has_text-distinct r.name _
    ∙ named_of dt _ db r in_db same (ground (arith, passes))

-- A table of the list whose plan names the row dooms it.
pub planned_table :
    (plan : Plan) (dt : String) (dts : List String) (r : DbRow)
    → has_text dt dts ≡ true
    → str_eq r.doctype dt ≡ true
    → has_text r.name (planned plan dt) ≡ true
    → is_planned_in plan dts r ≡ true
unfolding is_planned_in has_text is_named_row
planned_table plan dt [] r listed same named = ground (arith, listed)
planned_table plan dt (d ∷ dts) r listed same named = elim (Bool-cases (str_eq dt d)) [
  | inl e ↦
      let here : dt ≡ d = (eq_iff dt d).0 e in
      let same_here : str_eq r.doctype d ≡ true = rw (sym here) same in
      let named_here : has_text r.name (planned plan d) ≡ true = rw (sym here) named in
      ground (arith, same_here, named_here)
  | inr e ↦
      let later = planned_table plan dt dts r (ground (arith, listed, e)) same named in
      ground (arith, later)
]
