-- ===== src/Alerts/Summaries/Windows.antt =====
-- The windows of the three digests of alerts/digest.py, by the clock.
use alfaedge_pulse.Common.{
  ℕ, ◌+◌, ◌-◌, ◌*◌, ◌/◌, ◌≤◌, ◌≡◌, ◌↔◌, ◌⊎◌, Bool, true, ◌&&◌, ◌||◌, arith, leb,
}
use alfaedge_pulse.Alerts.Summaries.Digest.{
  day_start, one_day, midday_window, morning_window, evening_window, midday_hour, evening_hour,
  one_hour,
}
use alfaedge_pulse.Alerts.Log.{AlertRow}
use alfaedge_pulse.Alerts.Dispatch.{is_member, digest_only_alert_types}
use alfaedge_pulse.Alerts.Summaries.{is_in_window}

day_start-eq : (now : ℕ) → (day_start now ≡ now / one_day * one_day)
unfolding day_start
day_start-eq now = omega arith

-- The instants from one midnight to the next, both counted.
yesterday_iff :
    (s q : ℕ)
    → 1 ≤ q
    → (leb (q * one_day - one_day) s && leb s (q * one_day) ≡ true)
      ↔ ((s / one_day + 1 ≡ q) ⊎ (s ≡ q * one_day))
yesterday_iff s q h = (λ x. grind arith, λ x. grind arith)

-- Whether a digest with these bounds reads a row.
abbrev pub is_read_by : AlertRow → ℕ × ℕ → Bool
is_read_by row (start, stop) = is_in_window digest_only_alert_types start stop row

module _ (row : AlertRow) (digested : is_member row.key.alert_type digest_only_alert_types ≡ true)
    (now : ℕ) where
  morning_window_iff :
      one_day ≤ now
      → (is_read_by row (morning_window now) ≡ true)
        ↔ ((row.sent_at / one_day + 1 ≡ now / one_day) ⊎ (row.sent_at ≡ day_start now))
  unfolding morning_window is_in_window
  morning_window_iff h =
      rw (digested, day_start-eq now) (yesterday_iff row.sent_at (now / one_day) (omega arith))

  midday_evening_iff :
      (is_read_by row (midday_window now) && is_read_by row (evening_window now) ≡ true)
      ↔ (row.sent_at ≡ day_start now + midday_hour * one_hour)
  unfolding midday_window evening_window is_in_window
  midday_evening_iff = (λ x. ground arith, λ x. ground arith)

  midday_or_evening_iff :
      (is_read_by row (midday_window now) || is_read_by row (evening_window now) ≡ true)
      ↔ ((day_start now ≤ row.sent_at) × (row.sent_at ≤ day_start now + evening_hour * one_hour))
  unfolding midday_window evening_window is_in_window
  midday_or_evening_iff = (λ x. (ground arith, ground arith), λ x. ground arith)

  -- For a row of a digest type and a day after the first: the morning digest of the day reads it
  -- exactly if it was sent on the day before or at the midnight that begins the day; the midday or
  -- the evening digest of the day reads it exactly if it was sent from that midnight to 20:00, and
  -- both do exactly if it was sent at 13:00 sharp.
  pub digest_windows_lem :
      one_day ≤ now
      → ((is_read_by row (morning_window now) ≡ true)
          ↔ ((row.sent_at / one_day + 1 ≡ now / one_day) ⊎ (row.sent_at ≡ day_start now)))
        × ((is_read_by row (midday_window now) || is_read_by row (evening_window now) ≡ true) ↔ (
            (day_start now ≤ row.sent_at)
            × (row.sent_at ≤ day_start now + evening_hour * one_hour)))
        × ((is_read_by row (midday_window now) && is_read_by row (evening_window now) ≡ true)
            ↔ (row.sent_at ≡ day_start now + midday_hour * one_hour))
  digest_windows_lem h = (morning_window_iff h, midday_or_evening_iff, midday_evening_iff)
