-- ===== src/Alerts/Summaries/Rows.antt =====
-- Lemmas on the rows of a window, of alerts/digest.py and alerts/resource_batch.py.
use alfaedge_pulse.Common.{
  ℕ, suc, String, ◌≡◌, refl, ◌∙◌, Bool, ◌&&◌, ◌||◌, List, [], ◌∷◌, arith, length, any, keep, count,
}
use alfaedge_pulse.Alerts.Summaries.{order_by_time, insert_by_time, rows_between, is_in_window}
use alfaedge_pulse.Alerts.Log.{AlertRow}

module _ (p : AlertRow → Bool) where
  any-insert_by_time :
      (row : AlertRow) (rows : List AlertRow)
      → any p (insert_by_time row rows) ≡ (p row || any p rows)
  unfolding insert_by_time
  any-insert_by_time row [] = refl
  any-insert_by_time row (r ∷ rs) = ground (arith, any-insert_by_time row rs)

  any-order_by_time : (rows : List AlertRow) → any p (order_by_time rows) ≡ any p rows
  unfolding order_by_time
  any-order_by_time [] = refl
  any-order_by_time (row ∷ rows) =
      rw (any-insert_by_time row (order_by_time rows), any-order_by_time rows) refl

length-insert_by_time :
    (row : AlertRow) (rows : List AlertRow) → length (insert_by_time row rows) ≡ suc (length rows)
unfolding insert_by_time
length-insert_by_time row [] = refl
length-insert_by_time row (r ∷ rs) = ground (arith, length-insert_by_time row rs)

length-order_by_time : (rows : List AlertRow) → length (order_by_time rows) ≡ length rows
unfolding order_by_time
length-order_by_time [] = refl
length-order_by_time (row ∷ rows) =
    omega (arith, length-insert_by_time row (order_by_time rows), length-order_by_time rows)

length-keep {ℓ} : {A : Type ℓ} (p : A → Bool) (xs : List A) → length (keep p xs) ≡ count p xs
length-keep p [] = refl
length-keep p (x ∷ xs) = ground (arith, length-keep p xs)

any-keep {ℓ} :
    {A : Type ℓ} (p q : A → Bool) (xs : List A) → any q (keep p xs) ≡ any (λ x. p x && q x) xs
any-keep p q [] = refl
any-keep p q (x ∷ xs) = ground (arith, any-keep p q xs)

module _ (types : List String) (start stop : ℕ) (log : List AlertRow) where
  -- A summary reads as many rows as the log has in its window.
  pub length-rows_between :
      length (rows_between types start stop log) ≡ count (is_in_window types start stop) log
  unfolding rows_between
  length-rows_between =
      length-order_by_time (keep (is_in_window types start stop) log)
      ∙ length-keep (is_in_window types start stop) log

  pub any-rows_between :
      (q : AlertRow → Bool)
      → any q (rows_between types start stop log)
        ≡ any (λ row. is_in_window types start stop row && q row) log
  unfolding rows_between
  any-rows_between q =
      any-order_by_time q (keep (is_in_window types start stop) log)
      ∙ any-keep (is_in_window types start stop) q log
