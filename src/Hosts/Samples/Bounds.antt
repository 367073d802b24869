-- ===== src/Hosts/Samples/Bounds.antt =====
-- `_store_io_samples` of host_health/ingest.py: the rows that it stores and their rates.
use mathlib.Core.Path.{subst}
use alfaedge_pulse.Common.{
  ℕ, zero, suc, ◌+◌, ◌-◌, ◌≤◌, String, ◌≡◌, refl, ap, inl, inr, ◌&&◌, Option, none, some, List, [],
  ◌∷◌, ◌++◌, map, arith, leb, ◌==◌, Bool-cases, length, take, length-append, All, length-map,
}
use alfaedge_pulse.Hosts.Samples.{
  counter_delta, ◌>>=◌, Ranked, insert_ranked, busiest_first, IoSample, IoRates, IoDeltas,
  previous_sample, gap_seconds, io_deltas, io_rates, util_of, choose_gap, io_lists, add_device,
  store_io_samples, choose_deltas, rate_device, IoLists, choose_device, chosen_rows, IoCounters,
  IoDevice, IoChoice,
}
use alfaedge_pulse.Common.Text.{or_empty}
use alfaedge_pulse.Alerts.Channels.{is_set}

length-take : (n : ℕ) (xs : List Ranked) → length (take n xs) ≤ n
length-take zero xs = omega arith
length-take (suc n) [] = omega arith
length-take (suc n) (x ∷ xs) = omega (arith, length-take n xs)

All-insert {κ} :
    (P : Ranked → Type κ) (x : Ranked) (ys : List Ranked)
    → P x
    → All P ys
    → All P (insert_ranked x ys)
unfolding insert_ranked
All-insert P x [] p h = (p, tt)
All-insert P x (y ∷ ys) p h = elim (Bool-cases (leb y.0 x.0)) [
  | inl e ↦ rw e (p, h)
  | inr e ↦ rw e (h.0, All-insert P x ys p h.1)
]

All-busiest_first {κ} :
    (P : Ranked → Type κ) (xs : List Ranked) → All P xs → All P (busiest_first xs)
unfolding busiest_first
All-busiest_first P [] h = tt
All-busiest_first P (x ∷ xs) h = All-insert P x (busiest_first xs) h.0 (All-busiest_first P xs h.1)

All-take {κ} : (P : Ranked → Type κ) (n : ℕ) (xs : List Ranked) → All P xs → All P (take n xs)
All-take P zero xs h = tt
All-take P (suc n) [] h = tt
All-take P (suc n) (x ∷ xs) h = (h.0, All-take P n xs h.1)

All-append {κ} :
    (P : Ranked → Type κ) (xs ys : List Ranked) → All P xs → All P ys → All P (xs ++ ys)
All-append P [] ys h k = k
All-append P (x ∷ xs) ys h k = (h.0, All-append P xs ys h.1 k)

-- A counter is there, was there, and has grown by this much.
abbrev pub HasGrownBy : Option ℕ → Option ℕ → ℕ → Type 0
HasGrownBy (some current) (some previous) d = previous + d ≡ current
HasGrownBy none previous d = ⊥
HasGrownBy (some current) none d = ⊥

pub counter_delta-HasGrownBy :
    (new old : Option ℕ) (d : ℕ) → counter_delta new old ≡ some d → HasGrownBy new old d
unfolding counter_delta
counter_delta-HasGrownBy none old d h = cc
counter_delta-HasGrownBy (some n) none d h = cc
counter_delta-HasGrownBy (some n) (some o) d h = ground (arith, h)

-- Each counter of a device has grown by its difference.
abbrev pub HaveGrownBy : IoCounters → IoCounters → IoDeltas → Type 0
HaveGrownBy new old d =
    HasGrownBy new.reads old.reads d.reads
    × HasGrownBy new.writes old.writes d.writes
    × HasGrownBy new.sectors_read old.sectors_read d.sectors_read
    × HasGrownBy new.sectors_written old.sectors_written d.sectors_written
    × HasGrownBy new.read_ms old.read_ms d.read_ms
    × HasGrownBy new.write_ms old.write_ms d.write_ms
    × HasGrownBy new.io_ms old.io_ms d.io_ms
    × HasGrownBy new.weighted_ms old.weighted_ms d.weighted_ms

bind-some {ℓ κ} :
    {A : Type ℓ} {B : Type κ} (o : Option A) (f : A → Option B) (b : B)
    → (o >>= f) ≡ some b
    → (a : A) × (o ≡ some a) × (f a ≡ some b)
bind-some none f b h = cc
bind-some (some a) f b h = (a, refl, h)

get_deltas : {d e : IoDeltas} → some d ≡ some e → d ≡ e
get_deltas h = cc

io_deltas-HaveGrownBy :
    (new old : IoCounters) (d : IoDeltas) → io_deltas new old ≡ some d → HaveGrownBy new old d
unfolding io_deltas
io_deltas-HaveGrownBy new old d h =
    let (a1, e1, h1) = bind-some (counter_delta new.reads old.reads) _ d h in
    let (a2, e2, h2) = bind-some (counter_delta new.writes old.writes) _ d h1 in
    let (a3, e3, h3) = bind-some (counter_delta new.sectors_read old.sectors_read) _ d h2 in
    let (a4, e4, h4) = bind-some (counter_delta new.sectors_written old.sectors_written) _ d h3 in
    let (a5, e5, h5) = bind-some (counter_delta new.read_ms old.read_ms) _ d h4 in
    let (a6, e6, h6) = bind-some (counter_delta new.write_ms old.write_ms) _ d h5 in
    let (a7, e7, h7) = bind-some (counter_delta new.io_ms old.io_ms) _ d h6 in
    let (a8, e8, h8) = bind-some (counter_delta new.weighted_ms old.weighted_ms) _ d h7 in
    subst (HaveGrownBy new old) (get_deltas h8) (
      counter_delta-HasGrownBy new.reads old.reads a1 e1,
      counter_delta-HasGrownBy new.writes old.writes a2 e2,
      counter_delta-HasGrownBy new.sectors_read old.sectors_read a3 e3,
      counter_delta-HasGrownBy new.sectors_written old.sectors_written a4 e4,
      counter_delta-HasGrownBy new.read_ms old.read_ms a5 e5,
      counter_delta-HasGrownBy new.write_ms old.write_ms a6 e6,
      counter_delta-HasGrownBy new.io_ms old.io_ms a7 e7,
      counter_delta-HasGrownBy new.weighted_ms old.weighted_ms a8 e8,
    )

gap_seconds-some :
    (now before gap : ℕ)
    → gap_seconds now (some before) ≡ some gap
    → (before + 5000000 ≤ now) × (now ≤ before + 900000000) × (before + gap ≡ now)
unfolding gap_seconds
gap_seconds-some now before gap h = ground (arith, h)

-- A row with rates has a newest row of the same device before it, from 5 to 900 seconds ago, over
-- which each counter has grown by a difference; its rates are those of the gap and the differences,
-- with a busy time of at most 100.0 percent. A row without rates says nothing.
abbrev pub IsSound : ℕ → String → List IoSample → Ranked → Type 0
IsSound now host samples r =
    (rates : IoRates)
    → r.1.rates ≡ some rates
    → (rates.util_percent ≤ 1000)
      × ((prev : IoSample) × (gap : ℕ) × (d : IoDeltas) × (previous_sample now host r.1.device
              samples
            ≡ some prev)
          × (prev.collected_at + 5000000 ≤ now)
          × (now ≤ prev.collected_at + 900000000)
          × (prev.collected_at + gap ≡ now)
          × HaveGrownBy r.1.counters prev.counters d
          × (rates ≡ io_rates d gap))

util_of-le : (ms gap : ℕ) → util_of ms gap ≤ 1000
unfolding util_of
util_of-le ms gap = omega arith

rate_device-rated :
    (d : IoDeltas) (gap ms : ℕ) (r : IoRates)
    → rate_device d gap ≡ IoChoice.rated ms r
    → r ≡ io_rates d gap
unfolding rate_device
rate_device-rated d gap ms r h = elim (Bool-cases (d.reads + d.writes == 0 && d.io_ms == 0)) [
  | inl e ↦ let h' = (rw e at h) in cc
  | inr e ↦ let h' = (rw e at h) in cc
]

choose_deltas-rated :
    (o : Option IoDeltas) (gap ms : ℕ) (r : IoRates)
    → choose_deltas o gap ≡ IoChoice.rated ms r
    → (d : IoDeltas) × (o ≡ some d) × (r ≡ io_rates d gap)
unfolding choose_deltas
choose_deltas-rated none gap ms r h = cc
choose_deltas-rated (some d) gap ms r h = (d, refl, rate_device-rated d gap ms r h)

choose_gap-rated :
    (new : IoCounters) (prev : IoSample) (o : Option ℕ) (ms : ℕ) (r : IoRates)
    → choose_gap new prev o ≡ IoChoice.rated ms r
    → (gap : ℕ) × (d : IoDeltas) × (o ≡ some gap)
      × (io_deltas new prev.counters ≡ some d)
      × (r ≡ io_rates d gap)
unfolding choose_gap
choose_gap-rated new prev none ms r h = cc
choose_gap-rated new prev (some gap) ms r h =
    let (d, e, k) = choose_deltas-rated (io_deltas new prev.counters) gap ms r h in
    (gap, d, refl, e, k)

choose_device-rated :
    (now : ℕ) (new : IoCounters) (o : Option IoSample) (ms : ℕ) (r : IoRates)
    → choose_device now new o ≡ IoChoice.rated ms r
    → (prev : IoSample) × (gap : ℕ) × (d : IoDeltas) × (o ≡ some prev)
      × (gap_seconds now (some prev.collected_at) ≡ some gap)
      × (io_deltas new prev.counters ≡ some d)
      × (r ≡ io_rates d gap)
unfolding choose_device
choose_device-rated now new none ms r h = cc
choose_device-rated now new (some prev) ms r h =
    let (gap, d, e, k, l) =
      choose_gap-rated new prev (gap_seconds now (some prev.collected_at)) ms r h in
    (prev, gap, d, refl, e, k, l)

io_rates-util : (d : IoDeltas) (gap : ℕ) → (io_rates d gap).util_percent ≤ 1000
unfolding io_rates
io_rates-util d gap = util_of-le d.io_ms gap

-- Both lists hold sound rows.
abbrev AreSound : ℕ → String → List IoSample → IoLists → Type 0
AreSound now host samples l =
    All (IsSound now host samples) l.with_rates × All (IsSound now host samples) l.without_rates

add_device-AreSound :
    (now : ℕ) (host : String) (samples : List IoSample) (dev : IoDevice) (choice : IoChoice)
    (l : IoLists)
    → choose_device now dev.counters (previous_sample now host (or_empty dev.device) samples)
      ≡ choice
    → AreSound now host samples l
    → AreSound now host samples (add_device now host dev choice l)
unfolding add_device
add_device-AreSound now host samples dev IoChoice.skipped l e h = h
add_device-AreSound now host samples dev IoChoice.first_seen l e h =
    (h.0, (λ rates none_some. cc, h.1))
add_device-AreSound now host samples dev (IoChoice.rated ms r) l e h =
    let prev = previous_sample now host (or_empty dev.device) samples in
    let (p, gap, d, found, within, kept, eq) = choose_device-rated now dev.counters prev ms r e in
    let near = gap_seconds-some now p.collected_at gap within in
    (
      (
        λ rates some_rates.
            let same : rates ≡ io_rates d gap = cc in
            (
              rw same (io_rates-util d gap),
              (
                p,
                gap,
                d,
                found,
                near.0,
                near.1,
                near.2,
                io_deltas-HaveGrownBy dev.counters p.counters d kept,
                same,
              ),
            ),
        h.0,
      ),
      h.1,
    )

io_lists-AreSound :
    (now : ℕ) (host : String) (samples : List IoSample) (devices : List IoDevice)
    → AreSound now host samples (io_lists now host samples devices)
unfolding io_lists
io_lists-AreSound now host samples [] = (tt, tt)
io_lists-AreSound now host samples (dev ∷ devs) =
    let rest = io_lists-AreSound now host samples devs in
    elim (Bool-cases (is_set dev.device)) [
      | inl e ↦ rw e (add_device-AreSound now host samples dev _ _ refl rest)
      | inr e ↦ rw e rest
    ]

-- A report of disk I/O stores at most six rows, as many as it returns; each with rates comes from
-- the newest row of its device, taken from 5 to 900 seconds before, since which each counter is
-- there and has grown by the difference that the rates are computed from, and its busy time is at
-- most 100 percent: a reset counter or a gap never gives a rate.
pub store_io_samples_lem :
    (now : ℕ) (host : String) (devices : List IoDevice) (samples : List IoSample)
    → let chosen = chosen_rows (io_lists now host samples devices) in
      (store_io_samples now host devices samples
        ≡ (length chosen, samples ++ map (λ r. r.1) chosen))
      × (length chosen ≤ 6)
      × All (IsSound now host samples) chosen
unfolding store_io_samples chosen_rows
store_io_samples_lem now host devices samples =
    let l = io_lists now host samples devices in
    let sound = io_lists-AreSound now host samples devices in
    let P = IsSound now host samples in
    let first = take 6 (busiest_first l.with_rates) in
    let rest = busiest_first l.without_rates in
    let chosen = chosen_rows l in
    (
      ap (λ n. (n, samples ++ map (λ r. r.1) chosen)) (length-map (λ (r : Ranked). r.1) chosen),
      omega (
        arith,
        length-append first (take (6 - length first) rest),
        length-take 6 (busiest_first l.with_rates),
        length-take (6 - length first) rest,
      ),
      All-append P first (take (6 - length first) rest)
          (All-take P 6 (busiest_first l.with_rates) (All-busiest_first P l.with_rates sound.0))
          (All-take P (6 - length first) rest (All-busiest_first P l.without_rates sound.1)),
    )
