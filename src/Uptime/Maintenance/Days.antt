-- ===== src/Uptime/Maintenance/Days.antt =====
-- A window and an instant by the clock: its time of day and its weekdays.
use alfaedge_pulse.Common.{
  ℕ, zero, suc, ◌+◌, ◌-◌, ◌/◌, ◌%◌, ◌≤◌, ◌<◌, ◌≡◌, refl, ◌∙◌, ◌⊎◌, inl, inr, Bool, false, ◌&&◌,
  ◌||◌, arith, ltb, leb, if◌then◌else◌, any,
}
use alfaedge_pulse.Uptime.Maintenance.{
  Window, on_day, scan, overlaps, covers, second, span_of, day_length, repeating,
}

module _ (w : Window) (t_start t_end at : ℕ) where
  -- The occurrence that begins on the day covers the instant.
  covers_on : ℕ → Bool
  covers_on day = on_day w day && covers at (span_of t_start t_end day)

  covers_from : ℕ → ℕ → Bool
  covers_from day zero = false
  covers_from day (suc n) = covers_on day || covers_from (day + 1) n

  any-scan :
      (day n : ℕ)
      → any (covers at) (scan w t_start t_end at (at + second) day n) ≡ covers_from day n
  unfolding scan covers_from covers_on overlaps
  any-scan day zero = refl
  any-scan day (suc n) = ground (arith, any-scan (day + 1) n)

-- By the clock: inside the range of the same day, or, for a range that runs past midnight, after
-- its start today or before its end on the morning after a day of the window.
unfoldable pub runs_at : Window → ℕ → ℕ → ℕ → Bool
runs_at w t_start t_end at =
    let day = at / day_length in
    let time = at % day_length in
    if ltb t_start t_end
    then on_day w day && leb t_start time && ltb time t_end
    else on_day w day && leb t_start time || on_day w (day - 1) && ltb time t_end

module _ (w : Window) (t_start t_end at : ℕ) (after_first : day_length ≤ at)
    (start_in : t_start < day_length) (end_in : t_end < day_length) where
  covers_today : covers at (span_of t_start t_end (at / day_length)) ≡ (
      if ltb t_start t_end
      then leb t_start (at % day_length) && ltb (at % day_length) t_end
      else leb t_start (at % day_length))
  unfolding span_of
  covers_today = ground arith

  covers_yesterday :
      covers at (span_of t_start t_end (at / day_length - 1))
      ≡ (if ltb t_start t_end then false else ltb (at % day_length) t_end)
  unfolding span_of
  covers_yesterday = ground arith

  covers_tomorrow : covers at (span_of t_start t_end (at / day_length + 1)) ≡ false
  unfolding span_of
  covers_tomorrow = ground arith

  rounds :
      ((at + second) / day_length + 1 - (at / day_length - 1) ≡ 2)
      ⊎ ((at + second) / day_length + 1 - (at / day_length - 1) ≡ 3)
  rounds = omega arith

  today : at / day_length - 1 + 1 ≡ at / day_length
  today = omega arith

  runs-eq :
      (covers_on w t_start t_end at (at / day_length - 1)
        || covers_on w t_start t_end at (at / day_length))
      ≡ runs_at w t_start t_end at
  unfolding covers_on runs_at
  runs-eq = ground (arith, covers_today, covers_yesterday)

  covers_from-runs_at :
      covers_from w t_start t_end at
        (at / day_length - 1)
        ((at + second) / day_length + 1 - (at / day_length - 1))
      ≡ runs_at w t_start t_end at
  unfolding covers_from
  covers_from-runs_at = elim rounds [
    | inl two ↦ rw (two, today) (ground (arith, runs-eq))
    | inr three ↦
        rw (three, today) (unfold covers_on in rw covers_tomorrow (ground (arith, runs-eq)))
  ]

  pub any-repeating :
      any (covers at) (repeating w t_start t_end at (at + second)) ≡ runs_at w t_start t_end at
  unfolding repeating
  any-repeating = any-scan w t_start t_end at _ _ ∙ covers_from-runs_at
