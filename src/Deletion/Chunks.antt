-- ===== src/Deletion/Chunks.antt =====
-- The loops in chunks over a list of names.
use alfaedge_pulse.Common.{
  ℕ, zero, suc, ◌≤◌, String, ◌≡◌, refl, sym, ◌∙◌, Bool, false, ◌&&◌, ◌||◌, List, [], ◌∷◌, arith,
  length, take, any, keep, any-append,
}
use mathlib.Core.Path.{ap₂}
use alfaedge_pulse.Common.Names.{has_text, is_empty}
use alfaedge_pulse.Deletion.Delete.{delete_chunks, is_named_row, drop_names, bulk_delete, chunk}
use alfaedge_pulse.Common.Tables.{delete_where}
use alfaedge_pulse.Deletion.Archive.{fetch_chunks, rows_named}
use alfaedge_pulse.Deletion.{DbRow}

-- Two deletions one after another.
pub delete_where-twice :
    (p q both : DbRow → Bool) (db : List DbRow)
    → ((r : DbRow) → both r ≡ (p r || q r))
    → delete_where q (delete_where p db) ≡ delete_where both db
unfolding delete_where
delete_where-twice p q both [] h = refl
delete_where-twice p q both (r ∷ db) h = ground (arith, h r, delete_where-twice p q both db h)

pub delete_where-never :
    (p : DbRow → Bool) (db : List DbRow) → ((r : DbRow) → p r ≡ false) → delete_where p db ≡ db
unfolding delete_where
delete_where-never p [] h = refl
delete_where-never p (r ∷ db) h = ground (arith, h r, delete_where-never p db h)

has_text-split :
    (x : String) (n : ℕ) (xs : List String)
    → has_text x xs ≡ (has_text x (take n xs) || has_text x (drop_names n xs))
unfolding has_text drop_names
has_text-split x zero xs = refl
has_text-split x (suc n) [] = refl
has_text-split x (suc n) (y ∷ ys) = ground (arith, has_text-split x n ys)

length-drop_names : (n : ℕ) (xs : List String) → length (drop_names n xs) ≤ length xs
unfolding drop_names
length-drop_names zero xs = omega arith
length-drop_names (suc n) [] = omega arith
length-drop_names (suc n) (x ∷ xs) = omega (arith, length-drop_names n xs)

length-chunk : (x : String) (xs : List String) → length (drop_names chunk (x ∷ xs)) ≤ length xs
unfolding drop_names
length-chunk x xs = length-drop_names 499 xs

is_named_row-split :
    (dt : String) (n : ℕ) (names : List String) (r : DbRow)
    → is_named_row dt names r
      ≡ (is_named_row dt (take n names) r || is_named_row dt (drop_names n names) r)
unfolding is_named_row
is_named_row-split dt n names r = ground (arith, has_text-split r.name n names)

pub is_named_row-nil : (dt : String) (r : DbRow) → is_named_row dt [] r ≡ false
unfolding is_named_row has_text
is_named_row-nil dt r = ground arith

delete_chunks_lem :
    (fuel : ℕ) (dt : String) (names : List String) (db : List DbRow)
    → length names ≤ fuel
    → delete_chunks fuel dt names db ≡ delete_where (is_named_row dt names) db
unfolding delete_chunks is_empty
delete_chunks_lem zero dt [] db h = sym (delete_where-never _ db (is_named_row-nil dt))
delete_chunks_lem zero dt (x ∷ xs) db h = ground (arith, h)
delete_chunks_lem (suc fuel) dt [] db h = sym (delete_where-never _ db (is_named_row-nil dt))
delete_chunks_lem (suc fuel) dt (x ∷ xs) db h =
    delete_chunks_lem fuel dt (drop_names chunk (x ∷ xs)) _ (omega (arith, h, length-chunk x xs))
    ∙ delete_where-twice _ _ (is_named_row dt (x ∷ xs)) db (is_named_row-split dt chunk (x ∷ xs))

-- The chunks of `_bulk_delete` delete every row of the table that is named, and no other.
pub bulk_delete_lem :
    (dt : String) (names : List String) (db : List DbRow)
    → bulk_delete dt names db ≡ delete_where (is_named_row dt names) db
unfolding bulk_delete
bulk_delete_lem dt names db = delete_chunks_lem (length names) dt names db (omega arith)

pub any-keep : (p q : DbRow → Bool) (db : List DbRow) → any q (keep p db) ≡ any (λ r. p r && q r) db
any-keep p q [] = refl
any-keep p q (r ∷ db) = ground (arith, any-keep p q db)

any-or :
    (p q both f : DbRow → Bool) (db : List DbRow)
    → ((r : DbRow) → both r ≡ (p r || q r))
    → any (λ r. both r && f r) db ≡ (any (λ r. p r && f r) db || any (λ r. q r && f r) db)
any-or p q both f [] h = refl
any-or p q both f (r ∷ db) h = ground (arith, h r, any-or p q both f db h)

any-never : (p : DbRow → Bool) (db : List DbRow) → ((r : DbRow) → p r ≡ false) → any p db ≡ false
any-never p [] h = refl
any-never p (r ∷ db) h = ground (arith, h r, any-never p db h)

fetch_chunks_lem :
    (fuel : ℕ) (dt : String) (names : List String) (f : DbRow → Bool) (db : List DbRow)
    → length names ≤ fuel
    → any f (fetch_chunks fuel dt names db) ≡ any (λ r. is_named_row dt names r && f r) db
unfolding fetch_chunks is_empty
fetch_chunks_lem zero dt [] f db h = sym (any-never _ db (λ r. rw (is_named_row-nil dt r) refl))
fetch_chunks_lem zero dt (x ∷ xs) f db h = ground (arith, h)
fetch_chunks_lem (suc fuel) dt [] f db h =
    sym (any-never _ db (λ r. rw (is_named_row-nil dt r) refl))
fetch_chunks_lem (suc fuel) dt (x ∷ xs) f db h =
    any-append f (keep (is_named_row dt (take chunk (x ∷ xs))) db) _
    ∙ ap₂ (λ a b. a || b) (any-keep _ f db)
        (fetch_chunks_lem fuel dt (drop_names chunk (x ∷ xs)) f db
          (omega (arith, h, length-chunk x xs)))
    ∙ sym (any-or _ _ (is_named_row dt (x ∷ xs)) f db (is_named_row-split dt chunk (x ∷ xs)))

-- The chunks of `_rows` hold every named row, and no other.
pub any-rows_named :
    (dt : String) (names : List String) (f : DbRow → Bool) (db : List DbRow)
    → any f (rows_named dt names db) ≡ any (λ r. is_named_row dt names r && f r) db
unfolding rows_named
any-rows_named dt names f db = fetch_chunks_lem (length names) dt names f db (omega arith)
