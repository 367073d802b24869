-- ===== src/Diagnosis/RedisVerdict.antt =====
-- `evaluate_redis`: the findings of a Redis instance against its readings.
use alfaedge_pulse.Common.{
  ℕ, ◌*◌, String, ◌≡◌, refl, ◌∙◌, Bool, true, false, not, ◌&&◌, ◌||◌, List, [], ◌∷◌, ◌++◌, arith,
  ltb, leb, ◌==◌, if◌then◌else◌, any, keep, any-append,
}
use alfaedge_pulse.Diagnosis.Critical.{is_critical, is_critical_severity, sort_findings_lem}
use alfaedge_pulse.Diagnosis.RedisChecks.{
  rule_fork, rule_persistence, rule_clients, rule_slow, refused_of, instance_findings, instance_of,
  redis_findings, evaluate_redis,
}
use alfaedge_pulse.Diagnosis.Redis.{RedisRow, redis_finding, is_queue}
use alfaedge_pulse.Diagnosis.RedisRules.{
  rule_redis_memory, rule_fragmentation, rule_keys, Instance, evicts_queue, cache_small, evicted_of,
  cache_hits, full_hurts, memory_full, unbounded,
}
use alfaedge_pulse.Diagnosis.Rules.{finding, severity_if}
use alfaedge_pulse.Diagnosis.Verdict.{any-sort}
use alfaedge_pulse.Diagnosis.Rows.{Finding}
use alfaedge_pulse.Hosts.Disks.{
  cint, cint, cint, cint, cint, cint, cint, cint, cint, cint, cint, cint, cint, cint, cint, cint,
  cint, cint, cint, cint, cint, cint, cint, cint, cint, cint, cint, cint, cint, cint, cint, cint,
  cint, cint, cint, cint, cint, cint, cint, cint,
}

-- An instance that loses data or refuses work, or is about to.
pub is_failing : ℕ → List RedisRow → Instance → Bool
is_failing ram rows i =
    let limit = cint i.latest.maxmemory_mb in
    let used = cint i.latest.used_mb in
    let rss = cint i.latest.rss_mb in
    let frag = cint i.latest.fragmentation_ratio in
    (ltb 0 (evicted_of i) && is_queue i.latest)
    || (not (limit == 0) && leb (97 * limit) (used * 100) && full_hurts i)
    || (limit == 0 && not (ram == 0) && leb (60 * ram) (rss * 100))
    || (not (frag == 0) && ltb frag 100 && leb 5000 used)
    || not i.latest.persistence_ok
    || ltb 0 (refused_of rows)

keys-critical :
    (i : Instance) → any is_critical (rule_keys i) ≡ (ltb 0 (evicted_of i) && is_queue i.latest)
unfolding rule_keys evicts_queue cache_small cache_hits redis_finding finding is_critical
    is_critical_severity
keys-critical i = ground arith

memory_severity : (b : Bool) (f : Finding) → f.severity ≡ severity_if b → is_critical f ≡ b
unfolding severity_if is_critical is_critical_severity
memory_severity true f h = ground (arith, h)
memory_severity false f h = ground (arith, h)

redis_memory-shape :
    (limit ram used rss : ℕ) (hurts : Bool) (f g : Finding)
    → is_critical f ≡ (leb (97 * limit) (used * 100) && hurts)
    → is_critical g ≡ leb (60 * ram) (rss * 100)
    → any is_critical (
        if not (limit == 0)
        then (if leb (90 * limit) (used * 100) then f ∷ [] else [])
        else if not (ram == 0) && leb (40 * ram) (rss * 100)
        then g ∷ []
        else [])
      ≡ ((not (limit == 0) && leb (97 * limit) (used * 100) && hurts)
          || (limit == 0 && not (ram == 0) && leb (60 * ram) (rss * 100)))
redis_memory-shape limit ram used rss hurts f g hf hg = ground arith

redis_memory-critical :
    (ram : ℕ) (i : Instance)
    → let limit = cint i.latest.maxmemory_mb in
      any is_critical (rule_redis_memory ram i) ≡ (
        (not (limit == 0) && leb (97 * limit) (cint i.latest.used_mb * 100) && full_hurts i)
        || (limit == 0 && not (ram == 0) && leb (60 * ram) (cint i.latest.rss_mb * 100)))
unfolding rule_redis_memory memory_full unbounded redis_finding finding
redis_memory-critical ram i =
    let limit = cint i.latest.maxmemory_mb in
    let full = leb (97 * limit) (cint i.latest.used_mb * 100) && full_hurts i in
    let big = leb (60 * ram) (cint i.latest.rss_mb * 100) in
    redis_memory-shape limit ram (cint i.latest.used_mb) (cint i.latest.rss_mb) (full_hurts i)
      (memory_full i (severity_if full)) (unbounded ram i (severity_if big))
      (memory_severity full _ refl) (memory_severity big _ refl)

fragmentation-critical :
    (i : Instance)
    → let frag = cint i.latest.fragmentation_ratio in
      any is_critical (rule_fragmentation i)
      ≡ (not (frag == 0) && ltb frag 100 && leb 5000 (cint i.latest.used_mb))
unfolding rule_fragmentation redis_finding finding is_critical is_critical_severity
fragmentation-critical i = ground arith

persistence-critical :
    (i : Instance) → any is_critical (rule_persistence i) ≡ not i.latest.persistence_ok
unfolding rule_persistence redis_finding finding is_critical is_critical_severity
persistence-critical i = ground arith

clients-critical :
    (rows : List RedisRow) (i : Instance)
    → any is_critical (rule_clients rows i) ≡ ltb 0 (refused_of rows)
unfolding rule_clients redis_finding finding is_critical is_critical_severity
clients-critical rows i = ground arith

fork-critical : (i : Instance) → any is_critical (rule_fork i) ≡ false
unfolding rule_fork redis_finding finding is_critical is_critical_severity
fork-critical i = ground arith

slow-critical : (i : Instance) → any is_critical (rule_slow i) ≡ false
unfolding rule_slow redis_finding finding is_critical is_critical_severity
slow-critical i = ground arith

instance-critical :
    (ram : ℕ) (rows : List RedisRow) (i : Instance)
    → any is_critical (instance_findings ram rows i) ≡ is_failing ram rows i
unfolding instance_findings is_failing
instance-critical ram rows i =
    rw
      (
        any-append, any-append, any-append, any-append, any-append, any-append, keys-critical,
        redis_memory-critical, fragmentation-critical, persistence-critical, clients-critical,
        fork-critical, slow-critical,
      )
      (ground arith)

-- Some instance of the list is failing, by its rows.
pub any_failing : ℕ → List (String × List RedisRow) → Bool
unfolding is_failing
any_failing ram [] = false
any_failing ram ((label, []) ∷ rest) = any_failing ram rest
any_failing ram ((label, latest ∷ rows) ∷ rest) =
    is_failing ram (latest ∷ rows) (instance_of label latest rows) || any_failing ram rest

redis_findings-critical :
    (ram : ℕ) (instances : List (String × List RedisRow))
    → any is_critical (redis_findings ram instances) ≡ any_failing ram instances
unfolding redis_findings any_failing
redis_findings-critical ram [] = refl
redis_findings-critical ram ((label, []) ∷ rest) = redis_findings-critical ram rest
redis_findings-critical ram ((label, latest ∷ rows) ∷ rest) =
    any-append is_critical (instance_findings ram (latest ∷ rows) (instance_of label latest rows))
      (redis_findings ram rest)
    ∙ rw (instance-critical, redis_findings-critical ram rest) refl

-- A host has a critical Redis finding exactly if some instance with rows evicts keys of the job
-- queue, uses 97 % of its limit or more under noeviction, has no limit and holds 60 % or more of
-- the guest's memory, is in swap with 50 MB or more, cannot save, or refused a connection in its
-- three newest rows; the evictions count only with three rows whose rates are valid. The critical
-- findings stand before the others.
pub evaluate_redis_lem :
    (instances : List (String × List RedisRow)) (ram : ℕ)
    → (any is_critical (evaluate_redis instances ram) ≡ any_failing ram instances)
      × (evaluate_redis instances ram
          ≡ keep is_critical (redis_findings ram instances)
            ++ keep (λ f. not (is_critical f)) (redis_findings ram instances))
unfolding evaluate_redis
evaluate_redis_lem instances ram =
    let found = redis_findings ram instances in
    (any-sort is_critical found ∙ redis_findings-critical ram instances, sort_findings_lem found)
