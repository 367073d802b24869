-- ===== src/Diagnosis/Rules.antt =====
-- host_health/diagnosis.py: the rules of `evaluate`, each with the findings that it adds.
use alfaedge_pulse.Diagnosis.Rows.{critical, warning}
use alfaedge_pulse.Common.{
  ℕ, ◌+◌, ◌*◌, String, Bool, not, ◌&&◌, ◌||◌, Option, none, some, List, [], ◌∷◌, ltb, leb, ◌==◌,
  if◌then◌else◌,
}
use alfaedge_pulse.Diagnosis.Rows.{
  FindingSeverity, MemoryRow, Finding, TopProcess, sustained, whole, valid_rows,
}
use alfaedge_pulse.Common.Text.{concat, decimal}
use alfaedge_pulse.Common.Numbers.{round_ratio}
use alfaedge_pulse.Hosts.Disks.{cint}

unfoldable pub finding : String → FindingSeverity → String → List String → String → Finding
finding id severity title detail advice = record {
  id = id;
  severity = severity;
  title = title;
  detail = concat detail;
  advice = advice;
}

-- A finding that is critical if the test holds.
unfoldable pub severity_if : Bool → FindingSeverity
severity_if b = if b then critical else warning

unfoldable pub rule_oom : ℕ → List Finding
unfolding finding
rule_oom kills =
    if kills == 0
    then []
    else finding "oom_kill" critical "Processes were killed for lack of memory"
        ("Linux killed a process " ∷ decimal kills ∷ " time(s) in the last 60 minutes." ∷ [])
        "Give the guest more memory or reduce what the largest processes use. Check the kernel log to see which process was killed."
      ∷ []

biggest_text : List TopProcess → String
biggest_text [] = ""
biggest_text (p ∷ ps) =
    concat (" Largest process: " ∷ p.name ∷ " using " ∷ whole p.rss_mb ∷ " MB." ∷ [])

-- Whether `part / total * 100` is below `percent`.
unfoldable pub is_below : ℕ → ℕ → ℕ → Bool
is_below percent part total = ltb (part * 100) (percent * total)

unfoldable pub rule_memory_low : MemoryRow → List Finding
unfolding finding biggest_text is_below severity_if
rule_memory_low r =
    let total = cint r.mem_total_mb in
    let available = cint r.mem_available_mb in
    if not (total == 0) && (is_below 5 available total || is_below 10 available total)
    then finding "memory_low" (severity_if (is_below 5 available total)) "Little memory left"
        (whole available
          ∷ " MB of "
          ∷ whole total
          ∷ " MB is available ("
          ∷ decimal (round_ratio (available * 100) total)
          ∷ "%)."
          ∷ biggest_text r.top_processes
          ∷ [])
        "Add memory, or lower what the largest processes use (for a database host, check the buffer pool size)."
      ∷ []
    else []

-- The pages per second in and out of swap.
pub swap_rate : MemoryRow → Option ℕ
swap_rate r = some (cint r.swap_in_per_s + cint r.swap_out_per_s)

-- A finding where a reading that has held reaches the first limit, critical from the second one on.
unfoldable pub held_finding : ℕ → ℕ → Option ℕ → (FindingSeverity → ℕ → Finding) → List Finding
unfolding severity_if
held_finding warn crit none text = []
held_finding warn crit (some v) text =
    if leb warn v then text (severity_if (leb crit v)) v ∷ [] else []

unfoldable pub rule_swapping : List MemoryRow → List Finding
unfolding finding held_finding
rule_swapping recent =
    held_finding 10000 100000 (sustained swap_rate (valid_rows recent)) (λ severity rate.
      finding "swapping" severity "The guest is swapping"
        ("At least "
          ∷ whole rate
          ∷ " pages per second have been moving in and out of swap for the last 3 samples. Memory that was pushed out has to be read back from disk, which slows everything."
          ∷ [])
        "Memory is too small for the load. Add memory or reduce usage; swapping on a database host usually shows up as slow queries.")

unfoldable pub rule_swap_full : MemoryRow → List Finding
unfolding finding
rule_swap_full r =
    let total = cint r.swap_total_mb in
    let used = cint r.swap_used_mb in
    if not (total == 0) && leb (80 * total) (used * 100)
    then finding "swap_full" warning "Swap is nearly full"
        (whole used ∷ " MB of " ∷ whole total ∷ " MB swap is in use." ∷ [])
        "Free memory or add swap. A full swap leads to out-of-memory kills."
      ∷ []
    else []

unfoldable pub rule_container_memory : MemoryRow → List Finding
unfolding finding severity_if
rule_container_memory r =
    let limit = cint r.cgroup_mem_limit_mb in
    let current = cint r.cgroup_mem_current_mb in
    if not (limit == 0) && leb (90 * limit) (current * 100)
    then finding "container_memory" (severity_if (leb (97 * limit) (current * 100)))
        "Container memory limit nearly reached"
        (whole current
          ∷ " MB of the "
          ∷ whole limit
          ∷ " MB limit set for this container is in use."
          ∷ [])
        "Raise the container's memory limit in Proxmox, or lower usage inside it."
      ∷ []
    else []

cores_text : Option String → String
cores_text none = "."
cores_text (some cores) = concat (" by a " ∷ cores ∷ " core limit." ∷ [])

unfoldable pub rule_cpu_throttled : MemoryRow → List MemoryRow → List Finding
unfolding finding held_finding cores_text
rule_cpu_throttled latest recent =
    held_finding 1000 3000 (sustained (λ r. r.cpu_throttled_percent) (valid_rows recent))
      (λ severity throttled.
        finding "cpu_throttled" severity "The container's CPU limit is holding it back"
          ("For the last 3 samples the CPU was held back at least "
            ∷ whole throttled
            ∷ "% of the time"
            ∷ cores_text latest.cpu_limit_cores
            ∷ [])
          "Raise the container's CPU limit in Proxmox if the machine is slow.")
