-- ===== src/Poller/Severity.antt =====
-- tasks/poller.py: `Thresholds`, `_get_thresholds` and `_track_severity`.
-- A reading is a percentage in tenths, as `round(…, 1)` leaves it.
pub mod Confirmed
use alfaedge_pulse.Common.{ℕ, ◌+◌, ◌*◌, Bool, not, ◌&&◌, leb, ◌==◌, if◌then◌else◌}

pub record Thresholds : Type 0 where
  pub warning_percent : ℕ
  pub critical_percent : ℕ
  pub confirmation_checks : ℕ

-- `cint(value) or default`
pub or_default : ℕ → ℕ → ℕ
or_default value default = if value == 0 then default else value

-- poller.py: `_get_thresholds`, over the three settings as `cint` reads them.
pub get_thresholds : ℕ → ℕ → ℕ → Thresholds
unfolding or_default
get_thresholds warning critical checks = record {
  warning_percent = or_default warning 85;
  critical_percent = or_default critical 95;
  confirmation_checks = or_default checks 3;
}

-- The two counters on a server, guest or datastore.
pub record Streaks : Type 0 where
  pub warning_streak : ℕ
  pub critical_streak : ℕ

pub record Severity : Type 0 where
  pub is_critical : Bool
  pub is_warning : Bool

-- `value >= percent`
unfoldable pub is_over : ℕ → ℕ → Bool
is_over value percent = leb (percent * 10) value

unfoldable pub next_streak : Bool → ℕ → ℕ
next_streak over streak = if over then streak + 1 else 0

-- poller.py: `_track_severity`
unfoldable pub track_severity : Streaks → ℕ → Thresholds → Streaks × Severity
unfolding is_over next_streak
track_severity doc value t =
    let critical_streak' = next_streak (is_over value t.critical_percent) doc.critical_streak in
    let warning_streak' = next_streak (is_over value t.warning_percent) doc.warning_streak in
    let critical = leb t.confirmation_checks critical_streak' in
    let warning = leb t.confirmation_checks warning_streak' in
    (
      record { warning_streak = warning_streak'; critical_streak = critical_streak' },
      record { is_critical = critical; is_warning = warning && not critical },
    )
