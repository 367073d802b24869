-- ===== src/Diagnosis/RedisRules.antt =====
-- host_health/diagnosis.py: the rules of `evaluate_redis` on one instance, each with the findings
-- that it adds.
use alfaedge_pulse.Common.{
  ℕ, ◌*◌, String, Bool, not, ◌&&◌, List, [], ◌∷◌, str_eq, ltb, leb, ◌==◌, if◌then◌else◌, length,
}
use alfaedge_pulse.Diagnosis.Rows.{critical, warning, Finding, whole, FindingSeverity}
use alfaedge_pulse.Diagnosis.Redis.{
  RedisRow, sum_over, max_over, redis_finding, min_over, is_queue, is_under, policy_of,
}
use alfaedge_pulse.Common.Text.{decimal, concat}
use alfaedge_pulse.Diagnosis.Texts.{mb_text, one_decimal, two_decimals}
use alfaedge_pulse.Diagnosis.Rules.{severity_if}
use alfaedge_pulse.Common.Numbers.{round_ratio}
use alfaedge_pulse.Hosts.Disks.{cint}

-- What the rules know of an instance: its key, its name, its newest row and its rows with rates.
pub record Instance : Type 0 where
  pub key : String
  pub name : String
  pub latest : RedisRow
  pub held : List RedisRow

count_text : Instance → String
count_text i = decimal (length i.held)

-- Few of the keys are found, by an instance in use.
pub misses_keys : Instance → Bool
unfolding max_over min_over is_under
misses_keys i =
    is_under 8000 (max_over (λ r. r.hit_percent) i.held)
    && leb 500 (cint (min_over (λ r. r.ops_per_s) i.held))

pub evicted_of : Instance → ℕ
unfolding sum_over
evicted_of i = sum_over (λ r. r.evicted) i.held

unfoldable pub evicts_queue : Instance → Finding
unfolding redis_finding count_text mb_text
evicts_queue i =
    redis_finding "redis_evict_queue_" i.key critical i.name
      " is deleting queued data to free memory"
      (decimal (evicted_of i)
        ∷ " key(s) were evicted in the last "
        ∷ count_text i
        ∷ " samples on the instance that holds the job queue (policy "
        ∷ policy_of i.latest
        ∷ ", limit "
        ∷ mb_text (cint i.latest.maxmemory_mb)
        ∷ ", in use "
        ∷ mb_text (cint i.latest.used_mb)
        ∷ "). Queued background jobs can be lost."
        ∷ [])
      "Set maxmemory-policy to noeviction on this instance and raise its memory limit (or remove the limit), so a full queue refuses new jobs instead of dropping existing ones."

unfoldable pub cache_small : Instance → Finding
unfolding redis_finding count_text mb_text
cache_small i =
    let limit = cint i.latest.maxmemory_mb in
    redis_finding "redis_cache_small_" i.key warning i.name " is too small for what it caches"
      ("It evicted "
        ∷ decimal (evicted_of i)
        ∷ " key(s) in the last "
        ∷ count_text i
        ∷ " samples and even the best of those samples found only "
        ∷ whole (cint (max_over (λ r. r.hit_percent) i.held))
        ∷ "% of the keys it was asked for. The limit is "
        ∷ mb_text limit
        ∷ "."
        ∷ [])
      (concat (
        "Raise maxmemory (try "
        ∷ (if limit == 0 then "a higher value" else mb_text (limit * 2))
        ∷ ") so hot keys stay cached."
        ∷ []))

unfoldable pub cache_hits : Instance → Finding
unfolding redis_finding count_text
cache_hits i =
    redis_finding "redis_cache_hits_" i.key warning i.name " finds few of the keys it is asked for"
      ("At best "
        ∷ whole (cint (max_over (λ r. r.hit_percent) i.held))
        ∷ "% of lookups found their key in each of the last "
        ∷ count_text i
        ∷ " samples, at about "
        ∷ whole (cint (min_over (λ r. r.ops_per_s) i.held))
        ∷ " commands per second."
        ∷ [])
      "Expect this after a restart or a cache clear. If it persists, the application is asking for keys that are not being stored or that expire too soon."

unfoldable pub rule_keys : Instance → List Finding
unfolding evicts_queue cache_small cache_hits
rule_keys i =
    if ltb 0 (evicted_of i) && is_queue i.latest
    then evicts_queue i ∷ []
    else if ltb 0 (evicted_of i) && misses_keys i
    then cache_small i ∷ []
    else if misses_keys i && not (is_queue i.latest) && leb 1800 (cint i.latest.uptime_s)
    then cache_hits i ∷ []
    else []

unfoldable pub full_hurts : Instance → Bool
full_hurts i = str_eq (policy_of i.latest) "noeviction"

unfoldable pub memory_full : Instance → FindingSeverity → Finding
unfolding redis_finding mb_text full_hurts
memory_full i severity =
    let limit = cint i.latest.maxmemory_mb in
    let used = cint i.latest.used_mb in
    redis_finding "redis_memory_full_" i.key severity i.name " is nearly at its memory limit"
      (mb_text used
        ∷ " of "
        ∷ mb_text limit
        ∷ " is in use ("
        ∷ decimal (round_ratio (used * 100) limit)
        ∷ "%), policy "
        ∷ policy_of i.latest
        ∷ "."
        ∷ [])
      (if full_hurts i
        then "With noeviction, writes start failing when it is full; raise maxmemory now."
        else "It will start evicting keys; raise maxmemory if the data should stay cached.")

unfoldable pub unbounded : ℕ → Instance → FindingSeverity → Finding
unfolding redis_finding mb_text
unbounded ram i severity =
    let rss = cint i.latest.rss_mb in
    redis_finding "redis_unbounded_" i.key severity i.name
      " has no memory limit and is using a lot of the guest's memory"
      ("It holds "
        ∷ mb_text rss
        ∷ ", "
        ∷ decimal (round_ratio (rss * 100) ram)
        ∷ "% of the guest's "
        ∷ mb_text ram
        ∷ ", and nothing stops it growing."
        ∷ [])
      "Set maxmemory to a value that leaves room for MariaDB and the web workers (for a cache, also a policy such as allkeys-lru)."

unfoldable pub rule_redis_memory : ℕ → Instance → List Finding
unfolding memory_full unbounded severity_if full_hurts
rule_redis_memory ram i =
    let limit = cint i.latest.maxmemory_mb in
    let used = cint i.latest.used_mb in
    let rss = cint i.latest.rss_mb in
    if not (limit == 0)
    then (if leb (90 * limit) (used * 100)
        then memory_full i (severity_if (leb (97 * limit) (used * 100) && full_hurts i)) ∷ []
        else [])
    else if not (ram == 0) && leb (40 * ram) (rss * 100)
    then unbounded ram i (severity_if (leb (60 * ram) (rss * 100))) ∷ []
    else []

unfoldable pub rule_fragmentation : Instance → List Finding
unfolding redis_finding mb_text one_decimal two_decimals
rule_fragmentation i =
    let frag = cint i.latest.fragmentation_ratio in
    let used = cint i.latest.used_mb in
    let rss = cint i.latest.rss_mb in
    if not (frag == 0) && leb 20000 rss && leb 150 frag
    then redis_finding "redis_fragmentation_" i.key warning i.name " wastes memory to fragmentation"
        ("The OS holds "
          ∷ mb_text rss
          ∷ " for "
          ∷ mb_text used
          ∷ " of data (ratio "
          ∷ one_decimal (round_ratio frag 10)
          ∷ ")."
          ∷ [])
        "A restart in a quiet period gives the memory back; enabling activedefrag does it gradually."
      ∷ []
    else if not (frag == 0) && ltb frag 100 && leb 5000 used
    then redis_finding "redis_swapped_" i.key critical (concat ("Part of " ∷ i.name ∷ []))
        " is in swap"
        ("Redis holds "
          ∷ mb_text used
          ∷ " but only "
          ∷ mb_text rss
          ∷ " is in memory (ratio "
          ∷ two_decimals frag
          ∷ "); the rest was pushed to disk."
          ∷ [])
        "Free memory on the guest or lower Redis's limit. Redis in swap is very slow."
      ∷ []
    else []
