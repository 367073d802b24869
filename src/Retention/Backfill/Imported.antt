-- ===== src/Retention/Backfill/Imported.antt =====
-- Lemmas on one import, the loop of `_import_host_rrd` and `_import_guest_rrd`.
use mathlib.Core.List.{append-nil}
use alfaedge_pulse.Common.{
  All-map, All-any, ℕ, ◌≤◌, ◌≡◌, refl, ap, ◌∙◌, Bool, true, not, ◌&&◌, List, [], ◌∷◌, ◌++◌, arith,
  ltb, leb, ◌==◌, if◌then◌else◌, length, any, all, count, any-append, count-append, All,
}
use alfaedge_pulse.Retention.Backfill.{import_rows, import_rrd, times_from, has_time}

module _ {ℓ} {R : Type ℓ} (at : R → ℕ) where
  -- A row of this time.
  abbrev pub is_at : ℕ → R → Bool
  is_at t r = at r == t

  count-import_rows :
      (t cutoff : ℕ) (existing : List ℕ) (found : List R)
      → count (is_at t) (import_rows at cutoff existing found)
        ≡ (if leb cutoff t && (not (has_time t existing) && any (is_at t) found) then 1 else 0)
  unfolding import_rows has_time
  count-import_rows t cutoff existing [] = ground arith
  count-import_rows t cutoff existing (row ∷ found) = ground (
    arith,
    count-import_rows t cutoff existing found,
    count-import_rows t cutoff (at row ∷ existing) found,
  )

  -- Rows whose times are all there import nothing.
  import_rows-none :
      (cutoff : ℕ) (existing : List ℕ) (found : List R)
      → All (λ r. cutoff ≤ at r → has_time (at r) existing ≡ true) found
      → import_rows at cutoff existing found ≡ []
  unfolding import_rows
  import_rows-none cutoff existing [] h = refl
  import_rows-none cutoff existing (row ∷ found) h =
      ground (arith, import_rows-none cutoff existing found h.1, h.0)

  -- The imported rows of an owner are its own.
  all-import_rows :
      (p : R → Bool) (cutoff : ℕ) (existing : List ℕ) (found : List R)
      → all p found ≡ true
      → all p (import_rows at cutoff existing found) ≡ true
  unfolding import_rows
  all-import_rows p cutoff existing [] h = refl
  all-import_rows p cutoff existing (row ∷ found) h = ground (
    arith,
    all-import_rows p cutoff existing found,
    all-import_rows p cutoff (at row ∷ existing) found,
    h,
  )

any-count {ℓ} : {A : Type ℓ} (p : A → Bool) (xs : List A) → any p xs ≡ ltb 0 (count p xs)
any-count p [] = ground arith
any-count p (x ∷ xs) = ground (arith, any-count p xs)

module _ {ℓ} {R : Type ℓ} (at : R → ℕ) (is_owned : R → Bool) where
  -- A row of the owner, of this time.
  abbrev pub is_owned_at : ℕ → R → Bool
  is_owned_at t r = is_owned r && is_at at t r

  has_time-times_from :
      (t cutoff : ℕ) (rows : List R)
      → cutoff ≤ t
      → has_time t (times_from at is_owned cutoff rows) ≡ any (is_owned_at t) rows
  unfolding times_from has_time
  has_time-times_from t cutoff [] le = refl
  has_time-times_from t cutoff (r ∷ rows) le = ground (arith, has_time-times_from t cutoff rows le)

  -- Rows that are all the owner's are counted by their times.
  count-all :
      (t : ℕ) (rows : List R)
      → all is_owned rows ≡ true
      → count (is_owned_at t) rows ≡ count (is_at at t) rows
  count-all t [] h = refl
  count-all t (r ∷ rows) h = ground (arith, count-all t rows, h)

  module _ (cutoff : ℕ) (found : List R) where
    -- After an import the owner has one row of each time from the cutoff on that the found rows
    -- have, unless it had rows of that time before; then it has those.
    pub count-import_rrd :
        (rows : List R) (t : ℕ)
        → all is_owned found ≡ true
        → count (is_owned_at t) (import_rrd at is_owned cutoff found rows).1 ≡ (
            if leb cutoff t && (count (is_owned_at t) rows == 0 && any (is_at at t) found)
            then 1
            else count (is_owned_at t) rows)
    unfolding import_rrd
    count-import_rrd rows t owned =
        let existing = times_from at is_owned cutoff rows in
        let added = import_rows at cutoff existing found in
        ground (
          arith,
          count-append (is_owned_at t) rows added,
          count-all t added,
          all-import_rows at is_owned cutoff existing found owned,
          count-import_rows at t cutoff existing found,
          has_time-times_from t cutoff rows,
          any-count (is_owned_at t) rows,
        )

    -- Each found row from the cutoff on has a row of the owner of its time.
    abbrev pub IsImported : List R → Type 0
    IsImported rows = All (λ r. cutoff ≤ at r → any (is_owned_at (at r)) rows ≡ true) found

    pub IsImported-more : (rows more : List R) → IsImported rows → IsImported (rows ++ more)
    IsImported-more rows more h =
        All-map found
          (λ r old le. ground (arith, any-append (is_owned_at (at r)) rows more, old le)) h

    pub import_rrd-IsImported :
        (rows : List R)
        → all is_owned found ≡ true
        → IsImported (import_rrd at is_owned cutoff found rows).1
    import_rrd-IsImported rows owned =
        All-map found
          (λ r in_found le. ground (
            arith,
            any-count (is_owned_at (at r)) (import_rrd at is_owned cutoff found rows).1,
            count-import_rrd rows (at r) owned,
            in_found (is_at at (at r)) (ground arith),
            le,
          ))
          (All-any found)

    -- A second import of the same rows.
    pub import_rrd-again :
        (rows : List R) → IsImported rows → import_rrd at is_owned cutoff found rows ≡ (0, rows)
    unfolding import_rrd
    import_rrd-again rows h =
        let none_added =
          import_rows-none at cutoff (times_from at is_owned cutoff rows) found
            (All-map found (λ r old le. has_time-times_from (at r) cutoff rows le ∙ old le) h) in
        ap (λ added. (length added, rows ++ added)) none_added ∙ ap (λ r. (0, r)) (append-nil rows)
