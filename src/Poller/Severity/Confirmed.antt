-- ===== src/Poller/Severity/Confirmed.antt =====
-- The streaks against the readings themselves, for any history of polls.
use alfaedge_pulse.Common.{
  ℕ, zero, suc, ◌≤◌, ◌≡◌, refl, Bool, not, ◌&&◌, List, [], ◌∷◌, arith, leb, length, take, all,
}
use mathlib.Core.Path.{ap₂}
use alfaedge_pulse.Poller.Severity.{
  Thresholds, track_severity, Streaks, is_over, next_streak, Severity,
}

abbrev pub fresh : Streaks
fresh = record { warning_streak = 0; critical_streak = 0 }

-- The counters after a history of polls, the newest reading first.
unfoldable pub polled : Thresholds → List ℕ → Streaks
polled t [] = fresh
polled t (v ∷ vs) = (track_severity (polled t vs) v t).0

-- The severity that the newest poll of a history returns.
unfoldable pub severity_of : Thresholds → ℕ → List ℕ → Severity
severity_of t v vs = (track_severity (polled t vs) v t).1

-- The last `n` readings exist and all stand at or over the line.
abbrev pub is_confirmed : ℕ → ℕ → List ℕ → Bool
is_confirmed n percent vs = leb n (length vs) && all (λ v. is_over v percent) (take n vs)

run_over : ℕ → List ℕ → ℕ
run_over percent [] = 0
run_over percent (v ∷ vs) = next_streak (is_over v percent) (run_over percent vs)

run_over-le :
    (n percent : ℕ) (vs : List ℕ) → leb n (run_over percent vs) ≡ is_confirmed n percent vs
unfolding run_over next_streak
run_over-le zero percent vs = ground arith
run_over-le (suc n) percent [] = ground arith
run_over-le (suc n) percent (v ∷ vs) = ground (arith, run_over-le n percent vs)

polled-eq :
    (t : Thresholds) (vs : List ℕ)
    → polled t vs ≡ record {
      warning_streak = run_over t.warning_percent vs;
      critical_streak = run_over t.critical_percent vs;
    }
unfolding polled run_over track_severity
polled-eq t [] = refl
polled-eq t (v ∷ vs) = rw (polled-eq t vs)

-- After any history of polls that began with zero counters, the newest poll reports Critical
-- exactly when the last `confirmation_checks` readings exist and all stand at or over the critical
-- line, and Warning exactly when that holds of the warning line and not of the critical one.
pub severity_of-is_confirmed :
    (t : Thresholds) (v : ℕ) (vs : List ℕ)
    → let critical = is_confirmed t.confirmation_checks t.critical_percent (v ∷ vs) in
      let warning = is_confirmed t.confirmation_checks t.warning_percent (v ∷ vs) in
      ((severity_of t v vs).is_critical ≡ critical)
      × ((severity_of t v vs).is_warning ≡ (warning && not critical))
unfolding severity_of track_severity run_over
severity_of-is_confirmed t v vs =
    let n = t.confirmation_checks in
    let c = run_over-le n t.critical_percent (v ∷ vs) in
    let w = run_over-le n t.warning_percent (v ∷ vs) in
    rw polled-eq (c, ap₂ (λ x y. x && not y) w c)

-- With the warning line at or below the critical one, the warning streak is never behind the
-- critical one: escalating does not reset it.
pub critical_streak-le :
    (t : Thresholds) (vs : List ℕ)
    → t.warning_percent ≤ t.critical_percent
    → (polled t vs).critical_streak ≤ (polled t vs).warning_streak
unfolding polled track_severity
critical_streak-le t [] h = omega arith
critical_streak-le t (v ∷ vs) h = ground (arith, critical_streak-le t vs h)
