-- ===== src/Hosts/Redis/Restarts.antt =====
-- The row of a Redis instance over a restart.
use alfaedge_pulse.Common.{
  ℕ, ◌+◌, ◌*◌, ◌≤◌, String, ◌≡◌, refl, inl, inr, true, false, Option, none, some, List, arith,
  Bool-cases,
}
use alfaedge_pulse.Hosts.Redis.{
  next_redis_sample, hit_percent_of, usable_counters, RedisInfo, RedisSample, is_restarted,
  redis_gap, redis_delta,
}
use alfaedge_pulse.Common.Numbers.{round_ratio-le}
use alfaedge_pulse.Hosts.Memory.{is_given}
use alfaedge_pulse.Hosts.Disks.{cint}

usable-restarted :
    (now uptime : ℕ) (previous : Option RedisSample)
    → is_restarted uptime previous ≡ true
    → usable_counters now uptime previous ≡ none
unfolding usable_counters
usable-restarted now uptime none h = refl
usable-restarted now uptime (some r) h = elim (Bool-cases (is_given (redis_gap now (some r)))) [
  | inl e ↦ rw (e, h) refl
  | inr e ↦ rw e refl
]

hit_percent_of-le :
    (hits misses : Option ℕ) (p : ℕ) → hit_percent_of hits misses ≡ some p → p ≤ 10000
unfolding hit_percent_of
hit_percent_of-le none misses p h = ground (arith, h)
hit_percent_of-le (some hits) none p h = ground (arith, h)
hit_percent_of-le (some hits) (some misses) p h =
    ground (arith, h, round_ratio-le (hits * 10000) (hits + misses) 10000)

-- The row after a restart, seen by an uptime smaller than that of the row before: its rates are
-- marked invalid and missing, and it counts no evicted key and no refused connection. In every row
-- the share of keys found is at most 100.00 percent.
pub next_redis_sample_lem :
    (now : ℕ) (host label : String) (roles : List String) (info : RedisInfo)
    (previous : Option RedisSample)
    → let r = next_redis_sample now host label roles info previous in
      (is_restarted (cint info.uptime_in_seconds) previous ≡ true
        → (r.rates_valid ≡ false)
          × (r.ops_per_s ≡ none)
          × (r.hit_percent ≡ none)
          × (r.evicted_per_s ≡ none)
          × (r.expired_per_s ≡ none)
          × (r.evicted ≡ 0)
          × (r.rejected ≡ 0))
      × ((p : ℕ) → r.hit_percent ≡ some p → p ≤ 10000)
unfolding next_redis_sample
next_redis_sample_lem now host label roles info previous = (
  λ restarted.
      let gone = usable-restarted now (cint info.uptime_in_seconds) previous restarted in
      rw gone (refl, refl, refl, refl, refl, refl, refl),
  let old = usable_counters now (cint info.uptime_in_seconds) previous in
      hit_percent_of-le (redis_delta (λ k. k.keyspace_hits) info.counters old)
        (redis_delta (λ k. k.keyspace_misses) info.counters old),
)
