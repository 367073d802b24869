-- ===== src/Diagnosis/Rows.antt =====
-- host_health/diagnosis.py: the rows that the rules read and the helpers on them. Sizes in MB,
-- rates, times and percentages are in hundredths.
use alfaedge_pulse.Common.{
  ℕ, String, Bool, false, ◌&&◌, Option, none, some, List, [], ◌∷◌, ltb, leb, if◌then◌else◌, length,
  take, all, keep,
}
use Prim.Native.Nat.{min}
use alfaedge_pulse.Common.Text.{decimal}
use alfaedge_pulse.Common.Numbers.{round_ratio}
use alfaedge_pulse.Hosts.Disks.{cint}

pub data FindingSeverity : Type 0 where
  critical warning : FindingSeverity

pub record Finding : Type 0 where
  pub id : String
  pub severity : FindingSeverity
  pub title : String
  pub detail : String
  pub advice : String

pub record TopProcess : Type 0 where
  pub name : String
  pub rss_mb : ℕ

-- A row of `Memory Metric Log`, with none where a field is missing; `cpu_limit_cores` is the value
-- as it is printed, none also where it is 0.
pub record MemoryRow : Type 0 where
  pub rates_valid : Bool
  pub mem_total_mb : Option ℕ
  pub mem_available_mb : Option ℕ
  pub swap_total_mb : Option ℕ
  pub swap_used_mb : Option ℕ
  pub swap_in_per_s : Option ℕ
  pub swap_out_per_s : Option ℕ
  pub cgroup_mem_limit_mb : Option ℕ
  pub cgroup_mem_current_mb : Option ℕ
  pub cpu_limit_cores : Option String
  pub cpu_throttled_percent : Option ℕ
  pub psi_cpu_some : Option ℕ
  pub psi_memory_some : Option ℕ
  pub psi_memory_full : Option ℕ
  pub psi_io_some : Option ℕ
  pub psi_io_full : Option ℕ
  pub top_processes : List TopProcess

-- A row of `Disk IO Sample`.
pub record IoRow : Type 0 where
  pub device : String
  pub await_ms : Option ℕ
  pub util_percent : Option ℕ

abbrev pub sustained_samples : ℕ
sustained_samples = 3

-- `_valid`
unfoldable pub valid_rows : List MemoryRow → List MemoryRow
valid_rows rows = keep (λ r. r.rates_valid) rows

-- The smallest of some numbers, of which `v` is the first.
unfoldable pub smallest : ℕ → List ℕ → ℕ
smallest v [] = v
smallest v (w ∷ ws) = smallest (min v w) ws

unfoldable pub min_of : List ℕ → Option ℕ
min_of [] = none
min_of (v ∷ vs) = some (smallest v vs)

module _ {ℓ} {A : Type ℓ} where
  -- `[r.get(field) for r in rows if r.get(field) is not None]`
  unfoldable pub readings : (A → Option ℕ) → List A → List ℕ
  readings field [] = []
  readings field (r ∷ rows) =
      let rest = readings field rows in elim (field r) [ none ↦ rest | some v ↦ v ∷ rest ]

  -- `_sustained`
  unfoldable pub sustained : (A → Option ℕ) → List A → Option ℕ
  sustained field rows =
      let values = take sustained_samples (readings field rows) in
      if leb sustained_samples (length values) then min_of values else none

  -- `_all`
  unfoldable pub all_pass : (A → Option ℕ) → (ℕ → Bool) → List A → Bool
  all_pass field test rows =
      let values = readings field rows in
      leb sustained_samples (length values) && all test (take sustained_samples values)

-- `value is not None and value >= limit`
unfoldable pub reaches : ℕ → Option ℕ → Bool
reaches limit none = false
reaches limit (some v) = leb limit v

-- `{value:.0f}`
pub whole : ℕ → String
whole n = decimal (round_ratio n 100)

-- `max(io_latest, key=…, default=None)`: the first of several that are equally busy.
unfoldable pub busiest_device : List IoRow → Option IoRow
busiest_device [] = none
busiest_device (d ∷ ds) = elim (busiest_device ds) [
  | none ↦ some d
  | some e ↦ some (if ltb (cint d.util_percent) (cint e.util_percent) then e else d)
]
