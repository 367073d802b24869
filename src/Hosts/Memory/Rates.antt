-- ===== src/Hosts/Memory/Rates.antt =====
-- `_store_memory_sample`: the rates of a sample.
use alfaedge_pulse.Hosts.Samples.Bounds.{HasGrownBy, counter_delta-HasGrownBy}
use alfaedge_pulse.Common.{
  ℕ, ◌+◌, ◌≤◌, ◌<◌, String, ◌≡◌, refl, ◌∙◌, inl, inr, Bool, true, false, ◌&&◌, Option, none, some,
  arith, Option-cases,
}
use alfaedge_pulse.Hosts.Memory.{
  sample_gap, next_sample, MemoryReport, PressureReport, CgroupReport, MemorySample, KernelCounters,
  is_given, throttled_percent, previous_counters,
}
use alfaedge_pulse.Hosts.Samples.{gap_seconds, counter_delta, per_second}

sample_gap-some :
    (now gap : ℕ) (prev : MemorySample)
    → sample_gap now (some prev) ≡ some gap
    → (prev.collected_at + 5000000 ≤ now)
      × (now ≤ prev.collected_at + 900000000)
      × (prev.collected_at + gap ≡ now)
unfolding sample_gap gap_seconds
sample_gap-some now gap prev h = ground (arith, h)

no_gap : (now gap : ℕ) → sample_gap now none ≡ some gap → ⊥
unfolding sample_gap
no_gap now gap h = ground (arith, h)

and_true : (a b : Bool) → (a && b) ≡ true → (a ≡ true) × (b ≡ true)
and_true true b h = (refl, h)
and_true false b h = absurd (ground (arith, h))

per_second-given :
    (d : Option ℕ) (gap : ℕ) → 0 < gap → is_given (per_second d (some gap)) ≡ is_given d
unfolding per_second is_given
per_second-given none gap pos = refl
per_second-given (some d) gap pos = ground (arith, pos)

throttled-le : (d gap : Option ℕ) (p : ℕ) → throttled_percent d gap ≡ some p → p ≤ 1000
unfolding throttled_percent
throttled-le none gap p h = ground (arith, h)
throttled-le (some d) none p h = ground (arith, h)
throttled-le (some d) (some gap) p h = ground (arith, h)

given_delta :
    (new old : Option ℕ) → is_given (counter_delta new old) ≡ true → (d : ℕ) × HasGrownBy new old d
unfolding is_given
given_delta new old h = elim (Option-cases (counter_delta new old)) [
  | inl e ↦ absurd (ground (arith, rw e at h))
  | inr (d, e) ↦ (d, counter_delta-HasGrownBy new old d e)
]

sample_rates :
    (now : ℕ) (counters : KernelCounters) (o : Option MemorySample) (gap : Option ℕ)
    → sample_gap now o ≡ gap
    → let prev = previous_counters gap o in
      let swap_in = counter_delta counters.pswpin prev.pswpin_total in
      let swap_out = counter_delta counters.pswpout prev.pswpout_total in
      (is_given gap && is_given swap_in && is_given swap_out) ≡ true
      → (prev : MemorySample) × (o ≡ some prev)
        × (prev.collected_at + 5000000 ≤ now)
        × (now ≤ prev.collected_at + 900000000)
        × ((grown_in : ℕ) × HasGrownBy counters.pswpin prev.counters.pswpin grown_in)
        × ((grown_out : ℕ) × HasGrownBy counters.pswpout prev.counters.pswpout grown_out)
        × (is_given (per_second swap_in gap) ≡ true)
        × (is_given (per_second swap_out gap) ≡ true)
unfolding previous_counters is_given
sample_rates now counters o none e h = absurd (ground (arith, h))
sample_rates now counters none (some gap) e h = absurd (no_gap now gap e)
sample_rates now counters (some prev) (some gap) e h =
    let near = sample_gap-some now gap prev e in
    let given_in = counter_delta counters.pswpin prev.counters.pswpin in
    let given_out = counter_delta counters.pswpout prev.counters.pswpout in
    let pos : 0 < gap = omega (arith, near.0, near.2) in
    let both = and_true (is_given given_in) (is_given given_out) h in
    (
      prev,
      refl,
      near.0,
      near.1,
      given_delta counters.pswpin prev.counters.pswpin both.0,
      given_delta counters.pswpout prev.counters.pswpout both.1,
      per_second-given given_in gap pos ∙ both.0,
      per_second-given given_out gap pos ∙ both.1,
    )

-- A memory sample whose rates are valid has a previous sample that was taken from 5 to 900 seconds
-- before; both swap counters are in both samples and have grown by some number since, and both swap
-- rates are there. The
-- share of time that the CPU was held back is, with or without valid rates, at most 100.0 percent.
pub next_sample_lem :
    (now : ℕ) (host : String) (memory : MemoryReport) (pressure : PressureReport)
    (cgroup : CgroupReport) (counters : KernelCounters) (tops : Option String)
    (previous : Option MemorySample)
    → let r = next_sample now host memory pressure cgroup counters tops previous in
      (r.rates_valid ≡ true
        → (prev : MemorySample) × (previous ≡ some prev)
          × (prev.collected_at + 5000000 ≤ now)
          × (now ≤ prev.collected_at + 900000000)
          × ((grown_in : ℕ) × HasGrownBy counters.pswpin prev.counters.pswpin grown_in)
          × ((grown_out : ℕ) × HasGrownBy counters.pswpout prev.counters.pswpout grown_out)
          × (is_given r.swap_in_per_s ≡ true)
          × (is_given r.swap_out_per_s ≡ true))
      × ((p : ℕ) → r.cpu_throttled_percent ≡ some p → p ≤ 1000)
unfolding next_sample
next_sample_lem now host memory pressure cgroup counters tops previous =
    (sample_rates now counters previous (sample_gap now previous) refl, throttled-le _ _)
