-- ===== src/Uptime/Reconcile/Sync.antt =====
-- One turn of the reconciliation: a site, its alert, and the other sites.
use alfaedge_pulse.Common.{
  ℕ, ◌<◌, String, ◌≡◌, refl, ◌∙◌, ◌≢◌, inl, inr, Bool, true, false, not, Option, some, List, [],
  ◌∷◌, arith, if◌then◌else◌, Bool-cases, length, keep, All,
}
use mathlib.Core.Bool.{xor}
use mathlib.Core.Path.{ap₂}
use Prim.Native.String.{◌++◌ as str_append}
use alfaedge_pulse.Uptime.Reconcile.{
  set_critical, Fleet, is_named, is_unanimous, settle, count_votes, no_votes, site_down_key,
}
use alfaedge_pulse.Uptime.Checks.{Site, Check, instance_verdict, is_counted}
use alfaedge_pulse.Alerts.Dispatch.{AlertContext, dispatch_recovery}
use alfaedge_pulse.Alerts.Log.Laws.{open_rows}
use alfaedge_pulse.Poller.Transition.Incidents.{number, transition-tracked, transition_recovers}
use alfaedge_pulse.Alerts.Log.{AlertKey, resolve_alert}
use alfaedge_pulse.Uptime.Reconcile.Unanimity.{verdicts, is_unanimous-count_votes}
use alfaedge_pulse.Uptime.Checks.Verdict.{instance_verdict-none_iff}
use alfaedge_pulse.Poller.Transition.{handle_transition}
use alfaedge_pulse.Common.Text.{is_blank, is_blank-append}

-- The result of the vote on a group.
unfoldable pub vote : List Check → ℕ → Option ℕ → List Site → Bool
vote checks window since siblings =
    is_unanimous (count_votes (λ s. instance_verdict checks s.name window since) siblings no_votes)

-- All the rows that have these names carry the flag.
abbrev pub IsFlagged : List Site → Bool → List Site → Type 0
IsFlagged siblings critical sites =
    All (λ s. is_named s.name siblings ≡ true → s.is_critical ≡ critical) sites

set_critical-IsFlagged :
    (siblings : List Site) (critical : Bool) (sites : List Site)
    → IsFlagged siblings critical (set_critical siblings critical sites)
unfolding set_critical
set_critical-IsFlagged siblings critical [] = tt
set_critical-IsFlagged siblings critical (s ∷ ss) =
    (λ h. ground arith, set_critical-IsFlagged siblings critical ss)

flag_step :
    (siblings sites : List Site) (is was : Bool)
    → IsFlagged siblings was sites
    → IsFlagged siblings is (if xor is was then set_critical siblings is sites else sites)
unfolding xor
flag_step siblings sites true true h = h
flag_step siblings sites false false h = h
flag_step siblings sites true false h = set_critical-IsFlagged siblings true sites
flag_step siblings sites false true h = set_critical-IsFlagged siblings false sites

-- The rows that have none of these names.
abbrev pub others : List Site → List Site → List Site
others siblings sites = keep (λ s. not (is_named s.name siblings)) sites

others-set_critical :
    (siblings : List Site) (critical : Bool) (sites : List Site)
    → others siblings (set_critical siblings critical sites) ≡ others siblings sites
unfolding set_critical
others-set_critical siblings critical [] = refl
others-set_critical siblings critical (s ∷ ss) = elim (Bool-cases (is_named s.name siblings)) [
  | inl named ↦ simp (named, others-set_critical siblings critical ss)
  | inr other ↦ simp (other, others-set_critical siblings critical ss)
]

module _ (c : AlertContext) (window : ℕ) (since : Option ℕ) (site_name : String) (first : Site)
    (siblings : List Site) (fleet : Fleet) where
  -- One turn for a site on which no window is active. If its rows all carried the first one's flag
  -- before, they all carry the result of the vote after it, so that every instance agrees; the rows
  -- of other sites and the checks are as they were.
  pub settle-IsFlagged :
      IsFlagged siblings first.is_critical fleet.sites
      → let fleet' = settle c window since site_name first siblings fleet in
        IsFlagged siblings (vote fleet.checks window since siblings) fleet'.sites
        × (others siblings fleet'.sites ≡ others siblings fleet.sites)
        × (fleet'.checks ≡ fleet.checks)
  unfolding settle vote
  settle-IsFlagged h = (
    flag_step siblings fleet.sites (vote fleet.checks window since siblings) first.is_critical h,
    ground
        (arith, others-set_critical siblings (vote fleet.checks window since siblings) fleet.sites),
    refl,
  )

  -- If the site had one open "Site Down" alert exactly if it was critical, it has one open alert
  -- after the turn exactly if the vote is down; no other incident gains or loses an open alert.
  pub settle-open_rows :
      open_rows (site_down_key first.name) fleet.alerting.log ≡ number first.is_critical
      → let fleet' = settle c window since site_name first siblings fleet in
        (open_rows (site_down_key first.name) fleet'.alerting.log
          ≡ number (vote fleet.checks window since siblings))
        × ((j : AlertKey)
            → j ≢ site_down_key first.name
            → open_rows j fleet'.alerting.log ≡ open_rows j fleet.alerting.log)
  unfolding settle vote
  settle-open_rows h =
      transition-tracked c (site_down_key first.name) _ _ true first.is_critical
        (vote fleet.checks window since siblings) fleet.alerting h

no_verdicts :
    (checks : List Check) (window : ℕ) (since : Option ℕ) (siblings : List Site)
    → All (λ s. length (keep (is_counted s.name since) checks) < window) siblings
    → verdicts (λ s. instance_verdict checks s.name window since) siblings ≡ []
unfolding verdicts
no_verdicts checks window since [] h = refl
no_verdicts checks window since (s ∷ ss) h =
    rw ((instance_verdict-none_iff checks s.name window since).1 h.0)
      (ground (arith, no_verdicts checks window since ss h.1))

no_votes_no_alarm :
    (checks : List Check) (window : ℕ) (since : Option ℕ) (siblings : List Site)
    → All (λ s. length (keep (is_counted s.name since) checks) < window) siblings
    → vote checks window since siblings ≡ false
unfolding vote
no_votes_no_alarm checks window since siblings h =
    is_unanimous-count_votes (λ s. instance_verdict checks s.name window since) siblings
    ∙ rw (no_verdicts checks window since siblings h)

back_up_text : (site_name : String) → is_blank (str_append site_name " is back up.") ≡ false
back_up_text site_name = is_blank-append site_name " is back up." ∙ unfold is_blank in ground arith

-- A critical site none of whose instances has a full window of checks since the last scheduled
-- window ended is announced as back up, and its open alerts are closed, with no check seen up.
pub settle_without_checks :
    (c : AlertContext) (window : ℕ) (since : Option ℕ) (site_name : String) (first : Site)
    (siblings : List Site) (fleet : Fleet)
    → first.is_critical ≡ true
    → All (λ s. length (keep (is_counted s.name since) fleet.checks) < window) siblings
    → (settle c window since site_name first siblings fleet).alerting
      ≡ dispatch_recovery c
          (site_down_key first.name)
          (str_append site_name " is back up.")
          true
          (record {
            log = resolve_alert (site_down_key first.name) fleet.alerting.log;
            out = fleet.alerting.out;
          })
unfolding settle vote
settle_without_checks c window since site_name first siblings fleet critical h =
    ap₂
      (λ was is.
        handle_transition c was is (site_down_key first.name)
          (str_append site_name " is down (flagged Down by all of its monitoring instances).")
          (some (str_append site_name " is back up.")) true fleet.alerting)
      critical (no_votes_no_alarm fleet.checks window since siblings h)
    ∙ transition_recovers c (site_down_key first.name) _ (str_append site_name " is back up.") true
        fleet.alerting (back_up_text site_name)
