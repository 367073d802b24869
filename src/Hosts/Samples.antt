-- ===== src/Hosts/Samples.antt =====
-- host_health/ingest.py: the counters and `_store_io_samples`.
-- Times and gaps are in microseconds; rates are hundredths, percentages tenths.
pub mod Bounds
use Prim.Native.Nat.{min}
use alfaedge_pulse.Common.{
  ℕ, zero, suc, ◌+◌, ◌-◌, ◌*◌, ◌/◌, ◌%◌, ◌≤◌, ◌<◌, max, String, ◌≡◌, refl, sym, ap, ◌∙◌, ◌≢◌, ◌↔◌,
  ◌⊎◌, inl, inr, Bool, true, false, not, ◌&&◌, ◌||◌, Option, none, some, List, [], ◌∷◌, ◌++◌, map,
  foldl, arith, str_eq, eq_iff, eq_refl, ltb, leb, ◌==◌, if◌then◌else◌, Bool-cases, Option-cases,
  ltb→lt, lt→ltb, leb→le, le→leb, tests, length, take, any, all, keep, count, length-append,
  any-append, count-append, count-le-length, All, length-map,
}
use alfaedge_pulse.Common.Text.{or_empty}
use alfaedge_pulse.Common.Numbers.{round_ratio}
use alfaedge_pulse.Common.Tables.{newest}
use alfaedge_pulse.Alerts.Channels.{is_set}
use alfaedge_pulse.Hosts.Disks.{cint}

-- ingest.py: `_counter_delta`
unfoldable pub counter_delta : Option ℕ → Option ℕ → Option ℕ
counter_delta (some current) (some previous) =
    if leb previous current then some (current - previous) else none
counter_delta none previous = none
counter_delta (some current) none = none

-- ingest.py: `_per_second`
unfoldable pub per_second : Option ℕ → Option ℕ → Option ℕ
per_second (some delta) (some gap) =
    if gap == 0 then none else some (round_ratio (delta * 100000000) gap)
per_second none gap = none
per_second (some delta) none = none

-- ingest.py: `_gap_seconds`: from 5 to 900 seconds.
unfoldable pub gap_seconds : ℕ → Option ℕ → Option ℕ
gap_seconds now none = none
gap_seconds now (some before) =
    if leb 5000000 (now - before) && leb (now - before) 900000000 then some (now - before) else none

-- The counters of a device, in the order of `_IO_COUNTERS`.
pub record IoCounters : Type 0 where
  pub reads : Option ℕ
  pub writes : Option ℕ
  pub sectors_read : Option ℕ
  pub sectors_written : Option ℕ
  pub read_ms : Option ℕ
  pub write_ms : Option ℕ
  pub io_ms : Option ℕ
  pub weighted_ms : Option ℕ

pub record IoDeltas : Type 0 where
  pub reads : ℕ
  pub writes : ℕ
  pub sectors_read : ℕ
  pub sectors_written : ℕ
  pub read_ms : ℕ
  pub write_ms : ℕ
  pub io_ms : ℕ
  pub weighted_ms : ℕ

infixl 5 ◌>>=◌
abbrev pub ◌>>=◌ {ℓ κ} : {A : Type ℓ} {B : Type κ} → Option A → (A → Option B) → Option B
none >>= f = none
some a >>= f = f a

-- None if any of the differences is.
pub io_deltas : IoCounters → IoCounters → Option IoDeltas
unfolding counter_delta
io_deltas new old = do
  reads ← counter_delta new.reads old.reads
  writes ← counter_delta new.writes old.writes
  sectors_read ← counter_delta new.sectors_read old.sectors_read
  sectors_written ← counter_delta new.sectors_written old.sectors_written
  read_ms ← counter_delta new.read_ms old.read_ms
  write_ms ← counter_delta new.write_ms old.write_ms
  io_ms ← counter_delta new.io_ms old.io_ms
  weighted_ms ← counter_delta new.weighted_ms old.weighted_ms
  some (record {
    reads = reads;
    writes = writes;
    sectors_read = sectors_read;
    sectors_written = sectors_written;
    read_ms = read_ms;
    write_ms = write_ms;
    io_ms = io_ms;
    weighted_ms = weighted_ms;
  })

pub record IoRates : Type 0 where
  pub read_iops : Option ℕ
  pub write_iops : Option ℕ
  pub read_mb_s : ℕ
  pub write_mb_s : ℕ
  pub await_ms : ℕ
  pub util_percent : ℕ
  pub avg_queue : ℕ

-- `round(min(100.0, ms / (gap * 1000) * 100), 1)`
pub util_of : ℕ → ℕ → ℕ
util_of ms gap = min 1000 (round_ratio (ms * 1000000) gap)

-- The rates over a gap, from the differences; a sector has 512 bytes.
pub io_rates : IoDeltas → ℕ → IoRates
unfolding per_second util_of
io_rates d gap =
    let ops = d.reads + d.writes in
    record {
      read_iops = per_second (some d.reads) (some gap);
      write_iops = per_second (some d.writes) (some gap);
      read_mb_s = round_ratio (d.sectors_read * 51200) gap;
      write_mb_s = round_ratio (d.sectors_written * 51200) gap;
      await_ms = if ops == 0 then 0 else round_ratio (100 * (d.read_ms + d.write_ms)) ops;
      util_percent = util_of d.io_ms gap;
      avg_queue = round_ratio (d.weighted_ms * 100000) gap;
    }

-- A device of a report.
pub record IoDevice : Type 0 where
  pub device : Option String
  pub in_flight : Option ℕ
  pub counters : IoCounters

-- A row of `Disk IO Sample`.
pub record IoSample : Type 0 where
  pub monitored_host : String
  pub collected_at : ℕ
  pub device : String
  pub in_flight : Option ℕ
  pub counters : IoCounters
  pub rates : Option IoRates

-- What the loop does with a device: it skips it, keeps it without rates, or keeps it with rates and
-- the milliseconds by which it is ranked.
pub data IoChoice : Type 0 where
  skipped first_seen : IoChoice
  rated : ℕ → IoRates → IoChoice

rate_device : IoDeltas → ℕ → IoChoice
unfolding io_rates
rate_device d gap =
    if d.reads + d.writes == 0 && d.io_ms == 0 then skipped else rated d.io_ms (io_rates d gap)

choose_deltas : Option IoDeltas → ℕ → IoChoice
unfolding rate_device
choose_deltas none gap = first_seen
choose_deltas (some d) gap = rate_device d gap

choose_gap : IoCounters → IoSample → Option ℕ → IoChoice
unfolding choose_deltas io_deltas
choose_gap new prev none = first_seen
choose_gap new prev (some gap) = choose_deltas (io_deltas new prev.counters) gap

pub choose_device : ℕ → IoCounters → Option IoSample → IoChoice
unfolding choose_gap gap_seconds
choose_device now new none = first_seen
choose_device now new (some prev) = choose_gap new prev (gap_seconds now (some prev.collected_at))

-- The newest row of a device among those of the last 15 minutes.
pub previous_sample : ℕ → String → String → List IoSample → Option IoSample
unfolding newest
previous_sample now host device samples =
    newest (λ r. r.collected_at)
      (keep
        (λ r.
          str_eq r.monitored_host host
          && leb (now - 900000000) r.collected_at
          && str_eq r.device device)
        samples)

-- A row with the key of its list's sort.
abbrev pub Ranked : Type 0
Ranked = ℕ × IoSample

pub record IoLists : Type 0 where
  pub with_rates : List Ranked
  pub without_rates : List Ranked

add_device : ℕ → String → IoDevice → IoChoice → IoLists → IoLists
add_device now host dev skipped l = l
add_device now host dev first_seen l =
    let row : IoSample = record {
      monitored_host = host;
      collected_at = now;
      device = or_empty dev.device;
      in_flight = dev.in_flight;
      counters = dev.counters;
      rates = none;
    } in
    record l { without_rates = (cint dev.counters.io_ms, row) ∷ l.without_rates }
add_device now host dev (rated ms r) l =
    let row : IoSample = record {
      monitored_host = host;
      collected_at = now;
      device = or_empty dev.device;
      in_flight = dev.in_flight;
      counters = dev.counters;
      rates = some r;
    } in
    record l { with_rates = (ms, row) ∷ l.with_rates }

-- The loop over the devices of a report.
pub io_lists : ℕ → String → List IoSample → List IoDevice → IoLists
unfolding add_device choose_device previous_sample
io_lists now host samples [] = record { with_rates = []; without_rates = [] }
io_lists now host samples (dev ∷ devs) =
    let rest = io_lists now host samples devs in
    let choice =
      choose_device now dev.counters (previous_sample now host (or_empty dev.device) samples) in
    if is_set dev.device then add_device now host dev choice rest else rest

-- `sort(key=…, reverse=True)`, which keeps the order of equal keys.
insert_ranked : Ranked → List Ranked → List Ranked
insert_ranked x [] = x ∷ []
insert_ranked x (y ∷ ys) =
    let rest = insert_ranked x ys in if leb y.0 x.0 then x ∷ y ∷ ys else y ∷ rest

pub busiest_first : List Ranked → List Ranked
unfolding insert_ranked
busiest_first [] = []
busiest_first (x ∷ xs) = insert_ranked x (busiest_first xs)

abbrev pub max_io_devices_stored : ℕ
max_io_devices_stored = 6

-- The rows that are stored: the busiest with rates, then those without while there is room.
pub chosen_rows : IoLists → List Ranked
chosen_rows l =
    let chosen = take max_io_devices_stored (busiest_first l.with_rates) in
    chosen ++ take (max_io_devices_stored - length chosen) (busiest_first l.without_rates)

-- ingest.py: `_store_io_samples`
unfoldable pub store_io_samples : ℕ → String → List IoDevice → List IoSample → ℕ × List IoSample
unfolding io_lists chosen_rows busiest_first
store_io_samples now host devices samples =
    let chosen = map (λ r. r.1) (chosen_rows (io_lists now host samples devices)) in
    (length chosen, samples ++ chosen)
