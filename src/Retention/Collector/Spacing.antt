-- ===== src/Retention/Collector/Spacing.antt =====
-- The live polls of a host: `log_host_metrics` of collector.py over a list of polls.
use mathlib.Core.Path.{subst}
use mathlib.Core.List.{append-nil, append_assoc}
use alfaedge_pulse.Common.{
  All-map, ℕ, ◌+◌, ◌≤◌, ◌<◌, String, ◌≡◌, refl, sym, ap, ◌∙◌, inl, inr, Bool, true, false, not,
  ◌&&◌, ◌||◌, none, some, List, [], ◌∷◌, ◌++◌, arith, eq_refl, ltb, leb, if◌then◌else◌, Bool-cases,
  any, All,
}
use alfaedge_pulse.Retention.History.{HostRow}
use alfaedge_pulse.Common.Dicts.{dict_get, dict_get-set}
use alfaedge_pulse.Retention.Collector.{
  CollectorSettings, Collector, log_host_metrics, NodeStatus, should_log_safe, host_cache_key,
  live_host_row, should_log, note_failure, is_gate_shut, poll_gap,
}

-- The time at which the key of the gate expires; 0 without one.
abbrev pub expiry_of : String → List (String × ℕ) → ℕ
expiry_of key gate = elim (dict_get key gate) [ none ↦ 0 | some t ↦ t ]

-- The first row is not before `start`, and each next one is later by the gap or more.
abbrev pub IsApart : ℕ → ℕ → List HostRow → Type 0
IsApart gap start [] = Unit
IsApart gap start (row ∷ rows) =
    (start ≤ row.collected_at) × IsApart gap (row.collected_at + gap) rows

-- The first poll is not before `start`, and no later one is before the one it follows.
abbrev pub PollsInOrder : ℕ → List (ℕ × NodeStatus) → Type 0
PollsInOrder start [] = Unit
PollsInOrder start (poll ∷ polls) = (start ≤ poll.0) × PollsInOrder poll.0 polls

module _ (inserts : HostRow → Bool) (settings : CollectorSettings) (server : String) where
  pub log_host_polls : List (ℕ × NodeStatus) → Collector → Collector
  log_host_polls [] c = c
  log_host_polls ((now, status) ∷ polls) c =
      log_host_polls polls (log_host_metrics true inserts settings server now status c)

  abbrev pub gap : ℕ
  gap = poll_gap settings.interval_seconds

  abbrev pub host_expiry : Collector → ℕ
  host_expiry c = expiry_of (host_cache_key server) c.gate

  gap-pos : 0 < gap
  unfolding poll_gap
  gap-pos = omega arith

  -- Whether a poll takes a sample, and whether it stores it.
  abbrev is_sampled : ℕ → Collector → Bool
  is_sampled now c = settings.enabled && leb (host_expiry c) now

  abbrev is_stored : ℕ → NodeStatus → Collector → Bool
  is_stored now status c = is_sampled now c && inserts (live_host_row server now status)

  is_gate_shut-expiry :
      (now : ℕ) (c : Collector)
      → is_gate_shut now (host_cache_key server) c.gate ≡ not (leb (host_expiry c) now)
  unfolding is_gate_shut
  is_gate_shut-expiry now c = ground arith

  log_host_metrics-hosts :
      (now : ℕ) (status : NodeStatus) (c : Collector)
      → (log_host_metrics true inserts settings server now status c).tables.hosts
        ≡ c.tables.hosts
          ++ (if is_stored now status c then live_host_row server now status ∷ [] else [])
  unfolding log_host_metrics should_log_safe should_log note_failure
  log_host_metrics-hosts now status c =
      ground (arith, is_gate_shut-expiry now c, append-nil c.tables.hosts)

  log_host_metrics-expiry :
      (now : ℕ) (status : NodeStatus) (c : Collector)
      → host_expiry (log_host_metrics true inserts settings server now status c)
        ≡ (if is_sampled now c then now + gap else host_expiry c)
  unfolding log_host_metrics should_log_safe should_log
  log_host_metrics-expiry now status c = ground (
    arith,
    is_gate_shut-expiry now c,
    dict_get-set (host_cache_key server) (host_cache_key server) (now + gap) c.gate,
    eq_refl (host_cache_key server),
  )

  -- A poll lies before `start`, or within the interval that a row begins.
  abbrev pub is_covered_by : ℕ → List HostRow → ℕ × NodeStatus → Bool
  is_covered_by start rows (t, status) =
      ltb t start || any (λ row. leb row.collected_at t && ltb t (row.collected_at + gap)) rows

  later_polls :
      (start : ℕ) (polls : List (ℕ × NodeStatus))
      → PollsInOrder start polls
      → All (λ poll. start ≤ poll.0) polls
  later_polls start [] h = tt
  later_polls start (poll ∷ polls) h =
      (h.0, All-map polls (λ p le. omega (arith, h.0, le)) (later_polls poll.0 polls h.1))

  -- A poll after a new row that the next opening of the gate covers is covered with that row.
  is_covered_by-next :
      (start now : ℕ) (row : HostRow) (rows : List HostRow) (poll : ℕ × NodeStatus)
      → row.collected_at ≡ now
      → now ≤ poll.0
      → is_covered_by (now + gap) rows poll ≡ true
      → is_covered_by start (row ∷ rows) poll ≡ true
  is_covered_by-next start now row rows poll at le h = ground (arith, at, le, h)

  cover_polls :
      (start now : ℕ) (row : HostRow) (rows : List HostRow) (polls : List (ℕ × NodeStatus))
      → row.collected_at ≡ now
      → All (λ poll. now ≤ poll.0) polls
      → All (λ poll. is_covered_by (now + gap) rows poll ≡ true) polls
      → All (λ poll. is_covered_by start (row ∷ rows) poll ≡ true) polls
  cover_polls start now row rows [] at late h = tt
  cover_polls start now row rows (poll ∷ polls) at late h = (
    is_covered_by-next start now row rows poll at late.0 h.0,
    cover_polls start now row rows polls at late.1 h.1,
  )

  module _ (on : settings.enabled ≡ true) (stores : (row : HostRow) → inserts row ≡ true) where
    -- While sampling is enabled, the cache is reachable and each insert succeeds: polls of a host, in
    -- the order of their times, add rows that lie apart by the interval, the first not before the gate
    -- opens, and each poll is covered: it comes before the gate opens, or at the time of a new row or
    -- less than an interval after it.
    pub log_host_polls-IsApart :
        (start : ℕ) (polls : List (ℕ × NodeStatus)) (c : Collector)
        → PollsInOrder start polls
        → (new : List HostRow) × ((log_host_polls polls c).tables.hosts ≡ c.tables.hosts ++ new)
          × IsApart gap (host_expiry c) new
          × All (λ poll. is_covered_by (host_expiry c) new poll ≡ true) polls
    unfolding log_host_polls live_host_row
    log_host_polls-IsApart start [] c ordered = ([], sym (append-nil c.tables.hosts), tt, tt)
    log_host_polls-IsApart start ((now, status) ∷ polls) c ordered =
        let c' = log_host_metrics true inserts settings server now status c in
        let (new, grown, apart, covered) = log_host_polls-IsApart now polls c' ordered.1 in
        let row = live_host_row server now status in
        let hosts = log_host_metrics-hosts now status c in
        let expiry = log_host_metrics-expiry now status c in
        elim (Bool-cases (leb (host_expiry c) now)) [
          | inl due ↦
              let stored : is_stored now status c ≡ true = ground (arith, on, stores row, due) in
              let reset : host_expiry c' ≡ now + gap = ground (arith, expiry, on, due) in
              (
                row ∷ new,
                grown
                    ∙ ap (λ h. h ++ new)
                        (hosts ∙ ap (λ b. c.tables.hosts ++ (if b then row ∷ [] else [])) stored)
                    ∙ append_assoc c.tables.hosts (row ∷ []) new,
                (ground (arith, due), subst (λ s. IsApart gap s new) reset apart),
                (
                  ground (arith, gap-pos),
                  cover_polls (host_expiry c) now row new polls refl
                      (later_polls now polls ordered.1)
                      (subst (λ s. All (λ poll. is_covered_by s new poll ≡ true) polls) reset
                        covered),
                ),
              )
          | inr early ↦
              let skipped : is_stored now status c ≡ false = ground (arith, early) in
              let kept : host_expiry c' ≡ host_expiry c = ground (arith, expiry, early) in
              (
                new,
                grown
                    ∙ ap (λ h. h ++ new)
                        (hosts
                          ∙ ap (λ b. c.tables.hosts ++ (if b then row ∷ [] else [])) skipped
                          ∙ append-nil c.tables.hosts),
                subst (λ s. IsApart gap s new) kept apart,
                (
                  ground (arith, early),
                  subst (λ s. All (λ poll. is_covered_by s new poll ≡ true) polls) kept covered,
                ),
              )
        ]
