-- ===== src/Uptime/Maintenance/Active.antt =====
-- `active_window` against the description of the three kinds of window by the clock.
use alfaedge_pulse.Common.{
  ℕ, ◌+◌, ◌-◌, ◌/◌, ◌%◌, ◌≤◌, ◌<◌, ◌≡◌, refl, ◌∙◌, Bool, false, ◌&&◌, Option, none, some, List, [],
  ◌∷◌, arith, ltb, leb, if◌then◌else◌, any, All,
}
use alfaedge_pulse.Uptime.Maintenance.{
  day_length, WindowType, has_days, Window, on_day, timed, once, is_ticked, covers, second,
  repeating, overlaps, active_window, occurrences_of, occurrences,
}
use alfaedge_pulse.Uptime.Maintenance.Days.{runs_at, any-repeating}
use alfaedge_pulse.Common.Tables.{first_that}

-- The description: a one-time window from its start up to its end; a daily one by its times; a
-- weekly one by its times on its days, or all of those days.
pub in_window_of : WindowType → Window → ℕ → Option ℕ → Option ℕ → Bool
in_window_of WindowType.one_time w at t_start t_end = elim w.start_datetime [
  | none ↦ false
  | some s ↦ elim w.end_datetime [ none ↦ false | some e ↦ leb s at && ltb at e ]
]
in_window_of WindowType.daily w at (some t_start) (some t_end) = runs_at w t_start t_end at
in_window_of WindowType.daily w at none t_end = false
in_window_of WindowType.daily w at (some t_start) none = false
in_window_of WindowType.weekly w at t_start t_end =
    if w.all_day then is_ticked w (at / day_length % 7) else elim t_start [
      | none ↦ false
      | some s ↦ elim t_end [ none ↦ false | some e ↦ runs_at w s e at ]
    ]

pub in_window : Window → ℕ → Bool
in_window w at = in_window_of w.window_type w at w.start_time w.end_time

-- A time of day that is set lies within the day.
abbrev pub IsTimeOfDay : Option ℕ → Type 0
IsTimeOfDay none = Unit
IsTimeOfDay (some t) = t < day_length

pub record IsTimed (w : Window) : Type 0 where
  pub starts : IsTimeOfDay w.start_time
  pub ends : IsTimeOfDay w.end_time

module _ (w : Window) (at : ℕ) (after_first : day_length ≤ at) where
  covers-once :
      (s e : Option ℕ)
      → any (covers at) (once at (at + second) s e) ≡ elim s [
        | none ↦ false
        | some s' ↦ elim e [ none ↦ false | some e' ↦ leb s' at && ltb at e' ]
      ]
  unfolding once overlaps
  covers-once none e = refl
  covers-once (some s) none = refl
  covers-once (some s) (some e) = ground arith

  covers-timed :
      (s e : Option ℕ)
      → IsTimeOfDay s
      → IsTimeOfDay e
      → any (covers at) (timed w at (at + second) s e)
        ≡ elim s [ none ↦ false | some s' ↦ elim e [ none ↦ false | some e' ↦ runs_at w s' e' at ] ]
  unfolding timed
  covers-timed none e hs he = refl
  covers-timed (some s) none hs he = refl
  covers-timed (some s) (some e) hs he = any-repeating w s e at after_first hs he

  covers_all_day :
      w.window_type ≡ WindowType.weekly
      → any (covers at) (repeating w 0 0 at (at + second)) ≡ is_ticked w (at / day_length % 7)
  covers_all_day weekly =
      any-repeating w 0 0 at after_first (omega arith) (omega arith)
      ∙ unfold runs_at on_day in ground (arith, weekly)

never_ticked : (w : Window) (i : ℕ) → has_days w ≡ false → is_ticked w i ≡ false
unfolding has_days is_ticked
never_ticked w i h = ground arith

never_runs :
    (w : Window) (s e at : ℕ)
    → w.window_type ≡ WindowType.weekly
    → has_days w ≡ false
    → runs_at w s e at ≡ false
unfolding runs_at on_day
never_runs w s e at weekly h = ground (
  arith,
  weekly,
  never_ticked w (at / day_length % 7) h,
  never_ticked w ((at / day_length - 1) % 7) h,
)

no_days_times :
    (w : Window) (at : ℕ) (s e : Option ℕ)
    → w.window_type ≡ WindowType.weekly
    → has_days w ≡ false
    → elim s as (λ _. Bool) [
      | none ↦ false
      | some s' ↦ elim e [ none ↦ false | some e' ↦ runs_at w s' e' at ]
    ]
      ≡ false
no_days_times w at none e weekly h = refl
no_days_times w at (some s) none weekly h = refl
no_days_times w at (some s) (some e) weekly h = never_runs w s e at weekly h

module _ (w : Window) (at : ℕ) (after_first : day_length ≤ at) (timed_in : IsTimed w) where
  covers_of :
      (kind : WindowType)
      → w.window_type ≡ kind
      → any (covers at) (occurrences_of kind w at (at + second))
        ≡ in_window_of kind w at w.start_time w.end_time
  unfolding occurrences_of in_window_of
  covers_of WindowType.one_time e = covers-once w at after_first w.start_datetime w.end_datetime
  covers_of WindowType.daily e =
      covers-timed w at after_first w.start_time w.end_time timed_in.starts timed_in.ends
      ∙ by_times w.start_time w.end_time
    where
      by_times :
          (s e : Option ℕ)
          → elim s [
            | none ↦ false
            | some s' ↦ elim e [ none ↦ false | some e' ↦ runs_at w s' e' at ]
          ]
            ≡ in_window_of WindowType.daily w at s e
      by_times none e = unfold in_window_of in refl
      by_times (some s) none = unfold in_window_of in refl
      by_times (some s) (some e) = unfold in_window_of in refl
  covers_of WindowType.weekly e =
      unfold in_window_of in
      ground (
        arith,
        covers_all_day w at after_first e,
        covers-timed w at after_first w.start_time w.end_time timed_in.starts timed_in.ends,
        never_ticked w (at / day_length % 7),
        no_days_times w at w.start_time w.end_time e,
      )

-- At any instant after the first day, `active_window` returns the first of the windows that runs by
-- the clock, and nothing exactly if none does, for windows whose times of day lie within a day.
pub active_window-first_that :
    (windows : List Window) (at : ℕ)
    → day_length ≤ at
    → All IsTimed windows
    → active_window windows at ≡ first_that (λ w. in_window w at) windows
unfolding active_window in_window occurrences
active_window-first_that [] at h timed_in = refl
active_window-first_that (w ∷ ws) at h timed_in =
    rw (covers_of w at h timed_in.0 w.window_type refl)
      (ground (arith, active_window-first_that ws at h timed_in.1))
