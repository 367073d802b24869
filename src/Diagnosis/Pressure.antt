-- ===== src/Diagnosis/Pressure.antt =====
-- host_health/diagnosis.py: the rules of `evaluate` on stalled tasks and busy disks.
use alfaedge_pulse.Common.{
  ℕ, String, Bool, ◌&&◌, Option, none, some, List, [], ◌∷◌, ◌++◌, leb, if◌then◌else◌, length,
}
use alfaedge_pulse.Diagnosis.Rows.{
  critical, warning, Finding, IoRow, MemoryRow, busiest_device, sustained_samples, whole, sustained,
  all_pass, reaches,
}
use alfaedge_pulse.Diagnosis.Rules.{finding}
use alfaedge_pulse.Common.Text.{concat}
use alfaedge_pulse.Hosts.Disks.{cint}

busiest_text : Option IoRow → String
busiest_text none = ""
busiest_text (some d) = concat (
    " Busiest disk: "
    ∷ d.device
    ∷ ", "
    ∷ whole (cint d.util_percent)
    ∷ "% busy with "
    ∷ whole (cint d.await_ms)
    ∷ " ms average wait."
    ∷ [])

-- `[rows[0] for rows in io_by_device.values() if rows]`
pub io_latest : List (String × List IoRow) → List IoRow
io_latest [] = []
io_latest ((device, []) ∷ rest) = io_latest rest
io_latest ((device, row ∷ rows) ∷ rest) = row ∷ io_latest rest

-- A critical finding where the first reading reaches its limit, else a warning where the second
-- one does.
unfoldable pub stall_finding : Bool → Bool → Finding → Finding → List Finding
stall_finding is_full is_some full some_waiting =
    if is_full then full ∷ [] else if is_some then some_waiting ∷ [] else []

-- The value of a reading that is there.
pub value_of : Option ℕ → ℕ
value_of none = 0
value_of (some v) = v

unfoldable pub rule_io : List MemoryRow → List (String × List IoRow) → List Finding
unfolding finding stall_finding busiest_text busiest_device
rule_io recent io_by_device =
    let full = sustained (λ r. r.psi_io_full) recent in
    let waiting = sustained (λ r. r.psi_io_some) recent in
    let where_busy = busiest_text (busiest_device (io_latest io_by_device)) in
    stall_finding (reaches 1000 full) (reaches 2500 waiting)
      (finding "io_stall" critical "Everything is waiting on the disk"
        ("For the last 3 samples, all tasks on this guest were stalled waiting for disk at least "
          ∷ whole (value_of full)
          ∷ "% of the time."
          ∷ where_busy
          ∷ [])
        "Storage is the bottleneck. Check which guest on the node is using the disk, and whether a disk or I/O limit applies. For MariaDB see the database section.")
      (finding "io_waiting" warning "Tasks are waiting on the disk"
        ("For the last 3 samples, some tasks were stalled waiting for disk at least "
          ∷ whole (value_of waiting)
          ∷ "% of the time."
          ∷ where_busy
          ∷ [])
        "Disk is slowing things down. Compare with the busiest disk below and with other guests on the same node.")

-- One device of the loop over `io_by_device`.
unfoldable pub disk_finding : String → List IoRow → List Finding
unfolding finding
disk_finding device [] = []
disk_finding device (row ∷ rows) =
    if leb sustained_samples (length (row ∷ rows))
      && all_pass (λ r. r.util_percent) (leb 9000) (row ∷ rows)
      && all_pass (λ r. r.await_ms) (leb 3000) (row ∷ rows)
    then finding (concat ("disk_saturated_" ∷ device ∷ [])) warning
        (concat ("Disk " ∷ device ∷ " is saturated" ∷ []))
        (whole (cint row.util_percent)
          ∷ "% busy with "
          ∷ whole (cint row.await_ms)
          ∷ " ms average wait over the last 3 samples. This disk is shared with other guests on the node."
          ∷ [])
        "Find the heaviest user of this disk (another guest, a backup, a scrub) or move the load."
      ∷ []
    else []

unfoldable pub rule_disks : List (String × List IoRow) → List Finding
unfolding disk_finding
rule_disks [] = []
rule_disks ((device, rows) ∷ rest) = disk_finding device rows ++ rule_disks rest

unfoldable pub rule_memory_stall : List MemoryRow → List Finding
unfolding finding stall_finding value_of
rule_memory_stall recent =
    let full = sustained (λ r. r.psi_memory_full) recent in
    let waiting = sustained (λ r. r.psi_memory_some) recent in
    stall_finding (reaches 500 full) (reaches 2000 waiting)
      (finding "memory_stall" critical "Everything is waiting on memory"
        ("All tasks were stalled for memory " ∷ whole (value_of full) ∷ "% of the time." ∷ [])
        "Add memory or reduce usage.")
      (finding "memory_waiting" warning "Tasks are waiting on memory"
        ("Some tasks were stalled for memory " ∷ whole (value_of waiting) ∷ "% of the time." ∷ [])
        "Memory is tight. Check swapping and the largest processes.")

unfoldable pub rule_cpu : List MemoryRow → List Finding
unfolding finding stall_finding value_of
rule_cpu recent =
    let waiting = sustained (λ r. r.psi_cpu_some) recent in
    if reaches 5000 waiting
    then finding "cpu_contention" warning "Tasks are waiting for CPU"
        ("Some tasks waited for CPU " ∷ whole (value_of waiting) ∷ "% of the time." ∷ [])
        "The guest has more work than CPU. Check the container's CPU limit and the node's load."
      ∷ []
    else []
