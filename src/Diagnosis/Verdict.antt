-- ===== src/Diagnosis/Verdict.antt =====
-- `evaluate`: the critical findings of a host against its readings.
use alfaedge_pulse.Common.{
  ℕ, ◌*◌, ◌≤◌, String, ◌≡◌, refl, ◌∙◌, Bool, false, not, ◌&&◌, ◌||◌, Option, none, some, List, [],
  ◌∷◌, ◌++◌, arith, leb, ◌==◌, take, any, keep, any-append,
}
use alfaedge_pulse.Diagnosis.Critical.{is_critical, is_critical_severity, sort_findings_lem}
use alfaedge_pulse.Diagnosis.Rows.{
  critical, warning, reaches, Finding, MemoryRow, FindingSeverity, IoRow, all_pass, valid_rows,
}
use alfaedge_pulse.Diagnosis.Rules.{
  held_finding, rule_swap_full, rule_memory_low, rule_oom, rule_container_memory, severity_if,
  is_below, rule_cpu_throttled, rule_swapping, finding, swap_rate,
}
use alfaedge_pulse.Diagnosis.Pressure.{
  stall_finding, disk_finding, rule_memory_stall, rule_disks, rule_cpu, rule_io,
}
use alfaedge_pulse.Diagnosis.Evaluate.{evaluate, all_findings, insert_finding, sort_findings}
use alfaedge_pulse.Diagnosis.Sustained.{sustained-all_pass}
use alfaedge_pulse.Hosts.Disks.{cint}

oom-critical : (kills : ℕ) → any is_critical (rule_oom kills) ≡ not (kills == 0)
unfolding rule_oom is_critical is_critical_severity
oom-critical kills = ground arith

memory_low-critical :
    (r : MemoryRow)
    → any is_critical (rule_memory_low r) ≡ (
        not (cint r.mem_total_mb == 0)
        && is_below 5 (cint r.mem_available_mb) (cint r.mem_total_mb))
unfolding rule_memory_low is_critical is_critical_severity severity_if is_below
memory_low-critical r = ground arith

swap_full-critical : (r : MemoryRow) → any is_critical (rule_swap_full r) ≡ false
unfolding rule_swap_full is_critical is_critical_severity
swap_full-critical r = ground arith

container_memory-critical :
    (r : MemoryRow)
    → any is_critical (rule_container_memory r) ≡ (
        not (cint r.cgroup_mem_limit_mb == 0)
        && leb (97 * cint r.cgroup_mem_limit_mb) (cint r.cgroup_mem_current_mb * 100))
unfolding rule_container_memory is_critical is_critical_severity severity_if
container_memory-critical r = ground arith

held-critical :
    (warn crit : ℕ) (o : Option ℕ) (text : FindingSeverity → ℕ → Finding)
    → warn ≤ crit
    → ((s : FindingSeverity) (v : ℕ) → (text s v).severity ≡ s)
    → any is_critical (held_finding warn crit o text) ≡ reaches crit o
unfolding held_finding is_critical is_critical_severity severity_if reaches
held-critical warn crit none text le same = refl
held-critical warn crit (some v) text le same = ground (arith, same (severity_if (leb crit v)) v)

stall-critical :
    (b w : Bool) (full waiting : Finding)
    → full.severity ≡ critical
    → waiting.severity ≡ warning
    → any is_critical (stall_finding b w full waiting) ≡ b
unfolding stall_finding is_critical is_critical_severity
stall-critical b w full waiting hc hw = ground (arith, hc, hw)

swapping-critical :
    (recent : List MemoryRow)
    → any is_critical (rule_swapping recent) ≡ all_pass swap_rate (leb 100000) (valid_rows recent)
unfolding rule_swapping finding
swapping-critical recent =
    held-critical 10000 100000 _ _ (omega arith) (λ s v. refl)
    ∙ sustained-all_pass swap_rate 100000 (valid_rows recent)

cpu_throttled-critical :
    (latest : MemoryRow) (recent : List MemoryRow)
    → any is_critical (rule_cpu_throttled latest recent)
      ≡ all_pass (λ r. r.cpu_throttled_percent) (leb 3000) (valid_rows recent)
unfolding rule_cpu_throttled finding
cpu_throttled-critical latest recent =
    held-critical 1000 3000 _ _ (omega arith) (λ s v. refl)
    ∙ sustained-all_pass (λ r. r.cpu_throttled_percent) 3000 (valid_rows recent)

io-critical :
    (recent : List MemoryRow) (io_by_device : List (String × List IoRow))
    → any is_critical (rule_io recent io_by_device)
      ≡ all_pass (λ r. r.psi_io_full) (leb 1000) recent
unfolding rule_io finding
io-critical recent io_by_device =
    stall-critical _ _ _ _ refl refl ∙ sustained-all_pass (λ r. r.psi_io_full) 1000 recent

memory_stall-critical :
    (recent : List MemoryRow)
    → any is_critical (rule_memory_stall recent)
      ≡ all_pass (λ r. r.psi_memory_full) (leb 500) recent
unfolding rule_memory_stall finding
memory_stall-critical recent =
    stall-critical _ _ _ _ refl refl ∙ sustained-all_pass (λ r. r.psi_memory_full) 500 recent

cpu-critical : (recent : List MemoryRow) → any is_critical (rule_cpu recent) ≡ false
unfolding rule_cpu finding is_critical is_critical_severity
cpu-critical recent = ground arith

disk-critical :
    (device : String) (rows : List IoRow) → any is_critical (disk_finding device rows) ≡ false
unfolding disk_finding finding is_critical is_critical_severity
disk-critical device [] = refl
disk-critical device (row ∷ rows) = ground arith

disks-critical :
    (io_by_device : List (String × List IoRow)) → any is_critical (rule_disks io_by_device) ≡ false
unfolding rule_disks
disks-critical [] = refl
disks-critical ((device, rows) ∷ rest) =
    any-append is_critical (disk_finding device rows) (rule_disks rest)
    ∙ ground (arith, disk-critical device rows, disks-critical rest)

any-insert :
    (p : Finding → Bool) (f : Finding) (gs : List Finding)
    → any p (insert_finding f gs) ≡ (p f || any p gs)
unfolding insert_finding
any-insert p f [] = refl
any-insert p f (g ∷ gs) = ground (arith, any-insert p f gs)

pub any-sort : (p : Finding → Bool) (fs : List Finding) → any p (sort_findings fs) ≡ any p fs
unfolding sort_findings
any-sort p [] = refl
any-sort p (f ∷ fs) = ground (arith, any-insert p f (sort_findings fs), any-sort p fs)

all_findings-critical :
    (kills : ℕ) (io_by_device : List (String × List IoRow)) (latest : MemoryRow)
    (recent : List MemoryRow)
    → any is_critical (all_findings kills io_by_device latest recent) ≡ (
        any is_critical (rule_oom kills)
        || any is_critical (rule_memory_low latest)
        || any is_critical (rule_swapping recent)
        || any is_critical (rule_container_memory latest)
        || any is_critical (rule_cpu_throttled latest recent)
        || any is_critical (rule_io recent io_by_device)
        || any is_critical (rule_memory_stall recent))
unfolding all_findings
all_findings-critical kills io_by_device latest recent =
    rw
      (
        any-append, any-append, any-append, any-append, any-append, any-append, any-append,
        any-append, any-append, swap_full-critical, disks-critical, cpu-critical,
      )
      (ground arith)

-- A host with memory rows has a critical finding exactly if a process was killed for lack of memory,
-- less than 5 % of the memory is available, the container uses 97 % of its memory limit or more, or,
-- in each of its three newest rows, 1000 pages or more per second were swapped, the CPU was held
-- back 30 % of the time or more (both with valid rates), all tasks waited for the disk 10 % of the
-- time or more, or for memory 5 % of the time or more. The critical findings stand before the
-- others, each kind in the order of the rules.
pub evaluate_lem :
    (latest : MemoryRow) (rows : List MemoryRow) (io_by_device : List (String × List IoRow))
    (kills : ℕ)
    → let recent = take 3 (latest ∷ rows) in
      let found = all_findings kills io_by_device latest recent in
      (any is_critical (evaluate (latest ∷ rows) io_by_device kills) ≡ (
        not (kills == 0)
        || (not (cint latest.mem_total_mb == 0)
            && is_below 5 (cint latest.mem_available_mb) (cint latest.mem_total_mb))
        || all_pass swap_rate (leb 100000) (valid_rows recent)
        || (not (cint latest.cgroup_mem_limit_mb == 0)
            && leb (97 * cint latest.cgroup_mem_limit_mb) (cint latest.cgroup_mem_current_mb * 100))
        || all_pass (λ r. r.cpu_throttled_percent) (leb 3000) (valid_rows recent)
        || all_pass (λ r. r.psi_io_full) (leb 1000) recent
        || all_pass (λ r. r.psi_memory_full) (leb 500) recent))
      × (evaluate (latest ∷ rows) io_by_device kills
          ≡ keep is_critical found ++ keep (λ f. not (is_critical f)) found)
unfolding evaluate
evaluate_lem latest rows io_by_device kills =
    let recent = take 3 (latest ∷ rows) in
    let found = all_findings kills io_by_device latest recent in
    (
      any-sort is_critical found
          ∙ all_findings-critical kills io_by_device latest recent
          ∙ rw
              (
                oom-critical, memory_low-critical, swapping-critical, container_memory-critical,
                cpu_throttled-critical, io-critical, memory_stall-critical,
              )
              refl,
      sort_findings_lem found,
    )
