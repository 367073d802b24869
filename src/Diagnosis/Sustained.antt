-- ===== src/Diagnosis/Sustained.antt =====
-- What it means that a reading has held.
use alfaedge_pulse.Common.{
  ℕ, ◌≡◌, refl, ◌&&◌, Option, none, List, [], ◌∷◌, arith, leb, if◌then◌else◌, length, take, all,
}
use Prim.Native.Nat.{min}
use alfaedge_pulse.Diagnosis.Rows.{smallest, sustained, reaches, all_pass, min_of, readings}

leb-smallest :
    (limit v : ℕ) (ws : List ℕ) → leb limit (smallest v ws) ≡ (leb limit v && all (leb limit) ws)
unfolding smallest
leb-smallest limit v [] = ground arith
leb-smallest limit v (w ∷ ws) = ground (arith, leb-smallest limit (min v w) ws)

reaches-values :
    (limit : ℕ) (values : List ℕ)
    → reaches limit (if leb 3 (length (take 3 values)) then min_of (take 3 values) else none)
      ≡ (leb 3 (length values) && all (leb limit) (take 3 values))
unfolding reaches min_of
reaches-values limit [] = refl
reaches-values limit (v ∷ []) = refl
reaches-values limit (v ∷ w ∷ []) = refl
reaches-values limit (v ∷ w ∷ x ∷ values) = ground (arith, leb-smallest limit v (w ∷ x ∷ []))

-- The two ways in which the rules ask whether a reading held agree: the lowest of its last three
-- values is there and reaches a limit exactly if there are three values and each of the last three
-- reaches the limit.
pub sustained-all_pass {ℓ} :
    {A : Type ℓ} (field : A → Option ℕ) (limit : ℕ) (rows : List A)
    → reaches limit (sustained field rows) ≡ all_pass field (leb limit) rows
unfolding sustained all_pass
sustained-all_pass field limit rows = reaches-values limit (readings field rows)
