-- ===== src/Uptime/Maintenance/Ends.antt =====
-- `last_window_end`, `next_window` and `intervals` over the occurrences.
use alfaedge_pulse.Common.{
  ℕ, ◌-◌, ◌*◌, ◌≤◌, ◌<◌, max, ◌≡◌, refl, sym, ◌⊎◌, inl, inr, true, false, Option, none, some, List,
  [], ◌∷◌, ◌++◌, map, arith, ltb, leb, if◌then◌else◌, Bool-cases, ltb→lt, keep, All,
}
use mathlib.Core.List.{Perm, Mem, mem-cons, mem-cons_self, not-mem-nil}
use mathlib.Core.Logic.Or
use native.Mathlib.Bridge.{le_prop}
use mathlib.Core.List.Perm
use mathlib.Core.Path.{subst}
use alfaedge_pulse.Uptime.Maintenance.{
  last_window_end, Span, insert_span, Window, latest, span_leb, all_occurrences, search_days,
  day_length, sort_spans, earliest, intervals, upcoming, next_window,
}

-- The greatest of a list, or nothing for an empty one.
abbrev pub IsLatest : List ℕ → Option ℕ → Type 0
IsLatest es none = es ≡ []
IsLatest es (some m) = All (λ e. e ≤ m) es × Mem m es

All-le : (m n : ℕ) (es : List ℕ) → m ≤ n → All (λ e. e ≤ m) es → All (λ e. e ≤ n) es
All-le m n [] h p = tt
All-le m n (e ∷ es) h p = (omega arith, All-le m n es h p.1)

IsLatest-cons :
    (e : ℕ) (es : List ℕ) (o : Option ℕ)
    → IsLatest es o
    → IsLatest (e ∷ es) (elim o [ none ↦ some e | some m ↦ some (max e m) ])
IsLatest-cons e es none h = rw h ((omega arith, tt), mem-cons_self)
IsLatest-cons e es (some m) h =
    let top : (max e m ≡ m) ⊎ (max e m ≡ e) = omega arith in
    elim top [
      | inl q ↦
          subst (λ x. IsLatest (e ∷ es) (some x)) (sym q)
            ((omega arith, h.0), mem-cons.1 (Or.inr h.1))
      | inr q ↦
          subst (λ x. IsLatest (e ∷ es) (some x)) (sym q)
            ((omega arith, All-le m e es (omega arith) h.0), mem-cons_self)
    ]

latest-IsLatest : (es : List ℕ) → IsLatest es (latest es)
unfolding latest
latest-IsLatest [] = refl
latest-IsLatest (e ∷ es) = IsLatest-cons e es (latest es) (latest-IsLatest es)

-- The ends, at or before an instant, of the occurrences of the days before it.
abbrev pub past_ends : List Window → ℕ → List ℕ
past_ends windows at =
    map (λ span. span.1)
      (keep (λ span. leb span.1 at) (all_occurrences windows (at - search_days * day_length) at))

-- `last_window_end` is the greatest end, not after `at`, of the occurrences that overlap the eight
-- days before `at`, and nothing exactly if there is none.
pub last_window_end-IsLatest :
    (windows : List Window) (at : ℕ) → IsLatest (past_ends windows at) (last_window_end windows at)
unfolding last_window_end
last_window_end-IsLatest windows at = latest-IsLatest (past_ends windows at)

abbrev pub IsSorted : List Span → Type 0
IsSorted [] = Unit
IsSorted (p ∷ ps) = All (λ q. span_leb p q ≡ true) ps × IsSorted ps

insert_span-perm : (p : Span) (ps : List Span) → Perm (insert_span p ps) (p ∷ ps)
unfolding insert_span
insert_span-perm p [] = Perm.refl (p ∷ [])
insert_span-perm p (q ∷ qs) = elim (Bool-cases (span_leb p q)) [
  | inl le ↦ rw le (Perm.refl (p ∷ q ∷ qs))
  | inr gt ↦ rw gt (Perm.trans (Perm.cons q (insert_span-perm p qs)) (Perm.swap p q qs))
]

span_leb_total : (p q : Span) → span_leb p q ≡ false → span_leb q p ≡ true
unfolding span_leb
span_leb_total p q h = ground arith

span_leb_trans : (p q r : Span) → span_leb p q ≡ true → span_leb q r ≡ true → span_leb p r ≡ true
unfolding span_leb
span_leb_trans p q r h k = ground arith

All-span_leb :
    (p q : Span) (qs : List Span)
    → span_leb p q ≡ true
    → All (λ r. span_leb q r ≡ true) qs
    → All (λ r. span_leb p r ≡ true) qs
All-span_leb p q [] h k = tt
All-span_leb p q (r ∷ qs) h k = (span_leb_trans p q r h k.0, All-span_leb p q qs h k.1)

All-insert_span :
    (q p : Span) (ps : List Span)
    → span_leb q p ≡ true
    → All (λ r. span_leb q r ≡ true) ps
    → All (λ r. span_leb q r ≡ true) (insert_span p ps)
unfolding insert_span
All-insert_span q p [] h k = (h, tt)
All-insert_span q p (r ∷ ps) h k = elim (Bool-cases (span_leb p r)) [
  | inl le ↦ rw le (h, k)
  | inr gt ↦ rw gt (k.0, All-insert_span q p ps h k.1)
]

insert_span-IsSorted : (p : Span) (ps : List Span) → IsSorted ps → IsSorted (insert_span p ps)
unfolding insert_span
insert_span-IsSorted p [] h = (tt, tt)
insert_span-IsSorted p (q ∷ ps) h = elim (Bool-cases (span_leb p q)) [
  | inl le ↦ rw le ((le, All-span_leb p q ps le h.0), h)
  | inr gt ↦
      rw gt (All-insert_span q p ps (span_leb_total p q gt) h.0, insert_span-IsSorted p ps h.1)
]

sort_spans-perm : (ps : List Span) → Perm (sort_spans ps) ps
unfolding sort_spans
sort_spans-perm [] = Perm.refl []
sort_spans-perm (p ∷ ps) =
    Perm.trans (insert_span-perm p (sort_spans ps)) (Perm.cons p (sort_spans-perm ps))

sort_spans-IsSorted : (ps : List Span) → IsSorted (sort_spans ps)
unfolding sort_spans
sort_spans-IsSorted [] = tt
sort_spans-IsSorted (p ∷ ps) = insert_span-IsSorted p (sort_spans ps) (sort_spans-IsSorted ps)

-- `intervals` holds the occurrences of all the windows, each as often as they do, in the order of
-- their starts and then of their ends.
pub intervals-IsSorted :
    (windows : List Window) (start stop : ℕ)
    → Perm (intervals windows start stop) (all_occurrences windows start stop)
      × IsSorted (intervals windows start stop)
unfolding intervals
intervals-IsSorted windows start stop = (
  sort_spans-perm (all_occurrences windows start stop),
  sort_spans-IsSorted (all_occurrences windows start stop),
)

span_leb_refl : (p : Span) → span_leb p p ≡ true
unfolding span_leb
span_leb_refl p = ground arith

-- The least of a list of spans, or nothing for an empty one.
abbrev pub IsEarliest : List Span → Option Span → Type 0
IsEarliest ps none = ps ≡ []
IsEarliest ps (some m) = All (λ p. span_leb m p ≡ true) ps × Mem m ps

IsEarliest-cons :
    (p : Span) (ps : List Span) (o : Option Span)
    → IsEarliest ps o
    → IsEarliest (p ∷ ps) (elim o [ none ↦ some p | some q ↦ some (if span_leb p q then p else q) ])
IsEarliest-cons p ps none h = rw h ((span_leb_refl p, tt), mem-cons_self)
IsEarliest-cons p ps (some q) h = elim (Bool-cases (span_leb p q)) [
  | inl le ↦
      subst (λ b. IsEarliest (p ∷ ps) (some (if b then p else q))) (sym le)
        ((span_leb_refl p, All-span_leb p q ps le h.0), mem-cons_self)
  | inr gt ↦
      subst (λ b. IsEarliest (p ∷ ps) (some (if b then p else q))) (sym gt)
        ((span_leb_total p q gt, h.0), mem-cons.1 (Or.inr h.1))
]

earliest-IsEarliest : (ps : List Span) → IsEarliest ps (earliest ps)
unfolding earliest
earliest-IsEarliest [] = refl
earliest-IsEarliest (p ∷ ps) = IsEarliest-cons p ps (earliest ps) (earliest-IsEarliest ps)

All-append :
    (at : ℕ) (ps qs : List Span)
    → All (λ p. at < p.0) ps
    → All (λ p. at < p.0) qs
    → All (λ p. at < p.0) (ps ++ qs)
All-append at [] qs h k = k
All-append at (p ∷ ps) qs h k = (h.0, All-append at ps qs h.1 k)

keep-All : (at : ℕ) (ps : List Span) → All (λ p. at < p.0) (keep (λ p. ltb at p.0) ps)
keep-All at [] = tt
keep-All at (p ∷ ps) = elim (Bool-cases (ltb at p.0)) [
  | inl lt ↦ rw lt (ltb→lt _ _ lt, keep-All at ps)
  | inr ge ↦ rw ge (keep-All at ps)
]

upcoming-later : (windows : List Window) (at : ℕ) → All (λ p. at < p.0) (upcoming windows at)
unfolding upcoming
upcoming-later [] at = tt
upcoming-later (w ∷ ws) at = All-append at _ _ (keep-All at _) (upcoming-later ws at)

All-Mem : (at : ℕ) (p : Span) (ps : List Span) → All (λ q. at < q.0) ps → Mem p ps → at < p.0
All-Mem at p [] h m = absurd (not-mem-nil m)
All-Mem at p (q ∷ qs) h m = Or.elim le_prop (mem-cons.0 m) (λ e. rw e h.0) (All-Mem at p qs h.1)

abbrev pub StartsAfter : ℕ → Option Span → Type 0
StartsAfter at none = Unit
StartsAfter at (some p) = at < p.0

starts_after :
    (at : ℕ) (ps : List Span) (o : Option Span)
    → All (λ q. at < q.0) ps
    → IsEarliest ps o
    → StartsAfter at o
starts_after at ps none h e = tt
starts_after at ps (some p) h e = All-Mem at p ps h e.1

-- `next_window` starts after the instant, and is the first, by its start and then its end, of the
-- occurrences up to each window's horizon that do; it is nothing exactly if there is none.
pub next_window-IsEarliest :
    (windows : List Window) (at : ℕ)
    → StartsAfter at (next_window windows at)
      × IsEarliest (upcoming windows at) (next_window windows at)
unfolding next_window
next_window-IsEarliest windows at =
    let first = earliest-IsEarliest (upcoming windows at) in
    (starts_after at _ _ (upcoming-later windows at) first, first)
