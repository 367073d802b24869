-- ===== src/Diagnosis/Redis.antt =====
-- host_health/diagnosis.py: `evaluate_redis`. Sizes in MB, percentages, ratios, rates and times in
-- milliseconds are in hundredths; counts and seconds are whole.
use alfaedge_pulse.Common.{
  ℕ, ◌+◌, max, String, Bool, false, Option, none, some, List, [], ◌∷◌, str_eq, ltb, leb, ◌==◌,
  if◌then◌else◌, length, take, any, keep,
}
use alfaedge_pulse.Diagnosis.Rows.{readings, min_of, FindingSeverity, Finding}
use alfaedge_pulse.Diagnosis.Rules.{finding}
use alfaedge_pulse.Common.Names.{replace_code}
use alfaedge_pulse.Common.Text.{split_on, or_empty, concat}
use alfaedge_pulse.Hosts.Disks.{cint}

-- A row of `Redis Metric Log`, with none where a field is missing.
pub record RedisRow : Type 0 where
  pub rates_valid : Bool
  pub instance_label : Option String
  pub roles : Option String
  pub uptime_s : Option ℕ
  pub maxmemory_policy : Option String
  pub used_mb : Option ℕ
  pub rss_mb : Option ℕ
  pub maxmemory_mb : Option ℕ
  pub fragmentation_ratio : Option ℕ
  pub ops_per_s : Option ℕ
  pub hit_percent : Option ℕ
  pub evicted : Option ℕ
  pub connected_clients : Option ℕ
  pub max_clients : Option ℕ
  pub rejected : Option ℕ
  pub persistence_ok : Bool
  pub fork_ms : Option ℕ
  pub slowlog_recent_max_ms : Option ℕ
  pub slowlog_recent_commands : Option String

-- `_redis_name`
unfoldable pub redis_name : RedisRow → String
redis_name latest =
    let roles = replace_code 43 " and " (or_empty latest.roles) in
    concat (
      "Redis "
      ∷ elim latest.instance_label [ none ↦ "None" | some label ↦ label ]
      ∷ (if str_eq roles "" then "" else concat (" (" ∷ roles ∷ ")" ∷ []))
      ∷ [])

pub is_queue : RedisRow → Bool
is_queue latest = any (λ role. str_eq role "queue") (split_on 43 (or_empty latest.roles))

pub policy_of : RedisRow → String
policy_of latest = elim latest.maxmemory_policy [
  | none ↦ "unknown"
  | some policy ↦ if str_eq policy "" then "unknown" else policy
]

-- The greatest of some numbers, of which `v` is the first.
unfoldable pub greatest : ℕ → List ℕ → ℕ
greatest v [] = v
greatest v (w ∷ ws) = greatest (max v w) ws

max_of : List ℕ → Option ℕ
max_of [] = none
max_of (v ∷ vs) = some (greatest v vs)

-- `_max_over` and `_min_over`
unfoldable pub max_over {ℓ} : {A : Type ℓ} → (A → Option ℕ) → List A → Option ℕ
unfolding max_of
max_over field rows =
    let values = readings field rows in if length values == length rows then max_of values else none

unfoldable pub min_over {ℓ} : {A : Type ℓ} → (A → Option ℕ) → List A → Option ℕ
min_over field rows =
    let values = readings field rows in if length values == length rows then min_of values else none

unfoldable pub sum_over {ℓ} : {A : Type ℓ} → (A → Option ℕ) → List A → ℕ
sum_over field [] = 0
sum_over field (r ∷ rows) = cint (field r) + sum_over field rows

-- `value is not None and value < limit`
unfoldable pub is_under : ℕ → Option ℕ → Bool
is_under limit none = false
is_under limit (some v) = ltb v limit

-- The rows with rates that the rules on several samples read: none if there are too few.
unfoldable pub held_rows : List RedisRow → List RedisRow
held_rows rows =
    let valid = take 3 (keep (λ r. r.rates_valid) rows) in
    if leb 3 (length valid) then valid else []

unfoldable pub redis_finding :
    String → String → FindingSeverity → String → String → List String → String → Finding
unfolding finding
redis_finding id key severity name title detail advice =
    finding (concat (id ∷ key ∷ [])) severity (concat (name ∷ title ∷ [])) detail advice
