-- ===== src/Diagnosis/Critical.antt =====
-- The critical findings of a host, and the order of the findings.
use alfaedge_pulse.Common.{
  ◌≡◌, refl, inl, inr, Bool, true, false, not, List, [], ◌∷◌, ◌++◌, arith, Bool-cases, all, keep,
}
use alfaedge_pulse.Diagnosis.Rows.{critical, warning, FindingSeverity, Finding}
use alfaedge_pulse.Diagnosis.Evaluate.{insert_finding, rank, sort_findings}

unfoldable pub is_critical_severity : FindingSeverity → Bool
is_critical_severity critical = true
is_critical_severity warning = false

unfoldable pub is_critical : Finding → Bool
is_critical f = is_critical_severity f.severity

rank_critical : (s : FindingSeverity) → is_critical_severity s ≡ true → rank s ≡ 0
unfolding is_critical_severity rank
rank_critical critical h = refl
rank_critical warning h = ground (arith, h)

rank_warning : (s : FindingSeverity) → is_critical_severity s ≡ false → rank s ≡ 1
unfolding is_critical_severity rank
rank_warning critical h = ground (arith, h)
rank_warning warning h = refl

insert_critical :
    (f : Finding) (gs : List Finding) → is_critical f ≡ true → insert_finding f gs ≡ f ∷ gs
unfolding insert_finding is_critical
insert_critical f [] h = refl
insert_critical f (g ∷ gs) h = ground (arith, rank_critical f.severity h)

insert_warning :
    (f : Finding) (cs ws : List Finding)
    → is_critical f ≡ false
    → all is_critical cs ≡ true
    → all (λ g. not (is_critical g)) ws ≡ true
    → insert_finding f (cs ++ ws) ≡ cs ++ f ∷ ws
unfolding insert_finding is_critical
insert_warning f [] [] h hc hw = refl
insert_warning f [] (w ∷ ws) h hc hw =
    ground (arith, rank_warning f.severity h, rank_warning w.severity)
insert_warning f (c ∷ cs) ws h hc hw =
    ground
      (arith, rank_warning f.severity h, rank_critical c.severity, insert_warning f cs ws h, hw)

all-keep {ℓ} : {A : Type ℓ} (p : A → Bool) (xs : List A) → all p (keep p xs) ≡ true
all-keep p [] = refl
all-keep p (x ∷ xs) = ground (arith, all-keep p xs)

-- Sorting puts the critical findings first and leaves each of the two kinds in its order.
pub sort_findings_lem :
    (fs : List Finding)
    → sort_findings fs ≡ keep is_critical fs ++ keep (λ f. not (is_critical f)) fs
unfolding sort_findings
sort_findings_lem [] = refl
sort_findings_lem (f ∷ fs) =
    let cs = keep is_critical fs in
    let ws = keep (λ g. not (is_critical g)) fs in
    elim (Bool-cases (is_critical f)) [
      | inl e ↦ rw (sort_findings_lem fs, e) (insert_critical f (cs ++ ws) e)
      | inr e ↦
          rw (sort_findings_lem fs, e)
            (insert_warning f cs ws e (all-keep is_critical fs)
              (all-keep (λ g. not (is_critical g)) fs))
    ]
