-- ===== src/Retention/Termination.antt =====
-- The loop of a purge: its rounds and the rows that it leaves.
use alfaedge_pulse.Common.{
  ℕ, zero, suc, ◌+◌, ◌-◌, ◌≤◌, ◌<◌, ◌≡◌, refl, sym, ◌∙◌, inl, inr, Bool, not, Option, some, List,
  [], ◌∷◌, arith, ltb, ◌==◌, if◌then◌else◌, Bool-cases, length, keep, count, count-le-length,
}
use Prim.Native.Nat.{min}
use mathlib.Core.Path.{ap₂}
use alfaedge_pulse.Retention.{
  delete_first, purge, purge_table, HistoryRow, is_old, purge_batch_size,
}

module _ {ℓ} {A : Type ℓ} (old : A → Bool) where
  count-delete_first :
      (n : ℕ) (rows : List A) → count old (delete_first n old rows) ≡ count old rows - n
  unfolding delete_first
  count-delete_first zero rows = omega arith
  count-delete_first (suc n) [] = omega arith
  count-delete_first (suc n) (x ∷ xs) =
      ground (arith, count-delete_first n xs, count-delete_first (suc n) xs)

  -- Deleting old rows leaves the others.
  keep-delete_first :
      (n : ℕ) (rows : List A)
      → keep (λ x. not (old x)) (delete_first n old rows) ≡ keep (λ x. not (old x)) rows
  unfolding delete_first
  keep-delete_first zero rows = refl
  keep-delete_first (suc n) [] = refl
  keep-delete_first (suc n) (x ∷ xs) =
      ground (arith, keep-delete_first n xs, keep-delete_first (suc n) xs)

  -- A table without old rows is what is kept of it.
  keep_all : (rows : List A) → count old rows ≡ 0 → keep (λ x. not (old x)) rows ≡ rows
  keep_all [] h = refl
  keep_all (x ∷ xs) h = ground (arith, keep_all xs)

  purged_eq :
      {n n' : ℕ} {rows rows' : List A}
      → n ≡ n'
      → rows ≡ rows'
      → Path (Option (ℕ × List A)) (some (n, rows)) (some (n', rows'))
  purged_eq p q = ap₂ (λ n rows. some (n, rows)) p q

  -- One round, by what it finds: no old row, the last batch, or a full batch.
  purge_round :
      (n batch total : ℕ) (rows left kept : List A) (next : Option (ℕ × List A))
      → 0 < batch
      → (n ≡ 0 → kept ≡ rows)
      → (n ≤ batch → kept ≡ left)
      → (batch ≤ n → next ≡ some (total + n, kept))
      → (if min batch n == 0
          then some (total, rows)
          else if ltb (min batch n) batch
          then some (total + min batch n, left)
          else next)
        ≡ some (total + n, kept)
  purge_round n batch total rows left kept next pos empty last full =
      elim (Bool-cases (min batch n == 0)) [
        | inl none_left ↦ rw none_left (purged_eq (ground arith) (sym (empty (ground arith))))
        | inr some_left ↦ elim (Bool-cases (ltb (min batch n) batch)) [
          | inl few ↦ rw (some_left, few) (purged_eq (ground arith) (sym (last (ground arith))))
          | inr many ↦ rw (some_left, many) (full (ground arith))
        ]
      ]

  -- With a batch of at least one row and more rounds than old rows the loop ends: it has deleted
  -- every old row, counted them, and kept the others in their order.
  pub purge_lem :
      (rounds batch total : ℕ) (rows : List A)
      → 0 < batch
      → count old rows < rounds
      → purge rounds batch old total rows
        ≡ some (total + count old rows, keep (λ x. not (old x)) rows)
  unfolding purge
  purge_lem zero batch total rows pos h = absurd (omega arith)
  purge_lem (suc rounds) batch total rows pos h =
      let left = delete_first batch old rows in
      let rows_left = count-delete_first batch rows in
      let same = keep-delete_first batch rows in
      purge_round (count old rows) batch total rows left (keep (λ x. not (old x)) rows) _ pos
        (keep_all rows) (λ few. sym same ∙ keep_all left (omega arith))
        (λ many.
          purge_lem rounds batch (total + min batch (count old rows)) left pos (omega arith)
          ∙ ap₂ (λ n kept. some (n, kept)) (omega arith) same)

-- The purge of one table of history: it ends, and leaves the rows that are not older than the
-- cutoff.
pub purge_table_lem :
    (cutoff : ℕ) (rows : List HistoryRow)
    → purge_table cutoff rows
      ≡ some (count (is_old cutoff) rows, keep (λ x. not (is_old cutoff x)) rows)
unfolding purge_table
purge_table_lem cutoff rows =
    purge_lem (is_old cutoff) (length rows + 1) purge_batch_size 0 rows (omega arith)
      (ground (arith, count-le-length (is_old cutoff) rows))
    ∙ purged_eq (is_old cutoff) (omega arith) refl
