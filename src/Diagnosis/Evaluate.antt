-- ===== src/Diagnosis/Evaluate.antt =====
-- host_health/diagnosis.py: `evaluate` puts the rules together.
use alfaedge_pulse.Common.{ℕ, String, List, [], ◌∷◌, ◌++◌, leb, if◌then◌else◌, take}
use alfaedge_pulse.Diagnosis.Rows.{
  critical, warning, IoRow, Finding, MemoryRow, FindingSeverity, sustained_samples,
}
use alfaedge_pulse.Diagnosis.Rules.{
  rule_oom, rule_memory_low, rule_swapping, rule_swap_full, rule_container_memory,
  rule_cpu_throttled,
}
use alfaedge_pulse.Diagnosis.Pressure.{rule_io, rule_disks, rule_memory_stall, rule_cpu}

-- `SEVERITY_ORDER`
unfoldable pub rank : FindingSeverity → ℕ
rank critical = 0
rank warning = 1

-- `findings.sort(key=…)`, which keeps the order of findings with the same key.
unfoldable pub insert_finding : Finding → List Finding → List Finding
insert_finding f [] = f ∷ []
insert_finding f (g ∷ gs) =
    let rest = insert_finding f gs in
    if leb (rank f.severity) (rank g.severity) then f ∷ g ∷ gs else g ∷ rest

unfoldable pub sort_findings : List Finding → List Finding
sort_findings [] = []
sort_findings (f ∷ fs) = insert_finding f (sort_findings fs)

-- The findings in the order of the rules.
unfoldable pub all_findings :
    ℕ → List (String × List IoRow) → MemoryRow → List MemoryRow → List Finding
all_findings kills io_by_device latest recent =
    rule_oom kills
    ++ rule_memory_low latest
    ++ rule_swapping recent
    ++ rule_swap_full latest
    ++ rule_container_memory latest
    ++ rule_cpu_throttled latest recent
    ++ rule_io recent io_by_device
    ++ rule_disks io_by_device
    ++ rule_memory_stall recent
    ++ rule_cpu recent

-- `evaluate`, on memory rows that stand newest first.
unfoldable pub evaluate : List MemoryRow → List (String × List IoRow) → ℕ → List Finding
unfolding all_findings sort_findings
evaluate [] io_by_device kills = []
evaluate (latest ∷ rows) io_by_device kills =
    sort_findings (all_findings kills io_by_device latest (take sustained_samples (latest ∷ rows)))
