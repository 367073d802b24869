-- ===== src/Uptime/Checks/Verdict.antt =====
-- An instance's verdict and the checks that it rests on.
use alfaedge_pulse.Common.{
  ℕ, zero, suc, ◌+◌, ◌*◌, ◌<◌, String, ◌≡◌, refl, ap, ◌∙◌, ◌↔◌, inl, inr, Bool, true, false, not,
  ◌&&◌, ◌||◌, Option, none, some, List, [], ◌∷◌, ◌++◌, arith, ltb, ◌==◌, if◌then◌else◌, Bool-cases,
  length, take, keep, count,
}
use mathlib.Core.List.{append-nil}
use alfaedge_pulse.Uptime.Checks.{
  newest_first, instance_verdict, insert_newest, Check, is_counted, record_site_check, Site,
  Reading, Readings, status_up, record_status, status_down, new_check,
}

-- A check of another site, in a scheduled window, or not after the last window's end, does not
-- count: the verdict without it is the same, wherever it stands in the table.
pub instance_verdict-uncounted :
    (before after : List Check) (check : Check) (site : String) (window : ℕ) (since : Option ℕ)
    → is_counted site since check ≡ false
    → instance_verdict (before ++ check ∷ after) site window since
      ≡ instance_verdict (before ++ after) site window since
unfolding instance_verdict
instance_verdict-uncounted before after check site window since h =
    ap
      (λ rows.
        let rows' = take window (newest_first rows) in
        if ltb (length rows') window
        then none
        else some (ltb (length rows') (2 * count (λ r. not r.is_up) rows')))
      (keep-skip before)
  where
    keep-skip :
        (xs : List Check)
        → keep (is_counted site since) (xs ++ check ∷ after)
          ≡ keep (is_counted site since) (xs ++ after)
    keep-skip [] = rw h
    keep-skip (x ∷ xs) = rw (keep-skip xs)

length-insert_newest : (c : Check) (cs : List Check) → length (insert_newest c cs) ≡ length cs + 1
unfolding insert_newest
length-insert_newest c [] = omega arith
length-insert_newest c (d ∷ ds) = ground (arith, length-insert_newest c ds)

length-newest_first : (cs : List Check) → length (newest_first cs) ≡ length cs
unfolding newest_first
length-newest_first [] = refl
length-newest_first (c ∷ cs) =
    omega (arith, length-insert_newest c (newest_first cs), length-newest_first cs)

length-take_lt : (n : ℕ) (cs : List Check) → ltb (length (take n cs)) n ≡ ltb (length cs) n
length-take_lt zero cs = ground arith
length-take_lt (suc n) [] = refl
length-take_lt (suc n) (c ∷ cs) = ground (arith, length-take_lt n cs)

-- An instance has a verdict exactly when it has a full window of counted checks.
pub instance_verdict-none_iff :
    (checks : List Check) (site : String) (window : ℕ) (since : Option ℕ)
    → (instance_verdict checks site window since ≡ none)
      ↔ (length (keep (is_counted site since) checks) < window)
unfolding instance_verdict
instance_verdict-none_iff checks site window since =
    let rows = keep (is_counted site since) checks in
    (
      λ h. ground (arith, length-take_lt window (newest_first rows), length-newest_first rows),
      λ h. ground (arith, length-take_lt window (newest_first rows), length-newest_first rows),
    )

-- A reading that casts a vote: Up or Down, outside every scheduled window.
abbrev pub is_vote : Option ℕ → Bool → Bool
is_vote none in_maintenance = false
is_vote (some status) in_maintenance =
    (status == status_up || status == status_down) && not in_maintenance

module _ (name : String) (window : ℕ) (since : Option ℕ) where
  new_check-uncounted :
      (site : Site) (status : ℕ) (response : Option ℕ) (in_maintenance : Bool) (now : ℕ)
      → (status == status_up || status == status_down) ≡ true
      → is_vote (some status) in_maintenance ≡ false
      → is_counted name since (new_check site status response in_maintenance now) ≡ false
  unfolding is_counted new_check
  new_check-uncounted site status response in_maintenance now kept h = ground arith

  record_status-verdict :
      (site : Site) (status : ℕ) (response : Option ℕ) (in_maintenance : Bool) (now : ℕ)
      (db : Readings)
      → is_vote (some status) in_maintenance ≡ false
      → instance_verdict
          (record_status site status response in_maintenance now db).checks
          name
          window
          since
        ≡ instance_verdict db.checks name window since
  unfolding record_status
  record_status-verdict site status response in_maintenance now db h =
      elim (Bool-cases (status == status_up || status == status_down)) [
        | inl kept ↦ rw kept (
            instance_verdict-uncounted db.checks []
              (new_check site status response in_maintenance now) name window since
              (new_check-uncounted site status response in_maintenance now kept h)
            ∙ ap (λ rows. instance_verdict rows name window since) (append-nil db.checks))
        | inr dropped ↦ rw dropped
      ]

  -- A reading that casts no vote (Pending, Maintenance, missing, or taken in a scheduled window)
  -- changes no verdict of any instance on any site.
  pub record_site_check-verdict :
      (site : Site) (reading : Option Reading) (in_maintenance : Bool) (now : ℕ) (db : Readings)
      → is_vote (elim reading [ none ↦ none | some r ↦ r.status ]) in_maintenance ≡ false
      → instance_verdict
          (record_site_check site reading in_maintenance now db).checks
          name
          window
          since
        ≡ instance_verdict db.checks name window since
  unfolding record_site_check
  record_site_check-verdict site none in_maintenance now db h = refl
  record_site_check-verdict site (some r) in_maintenance now db h = by_status r.status refl
    where
      by_status :
          (s : Option ℕ)
          → r.status ≡ s
          → instance_verdict
              (elim s as (λ _. Readings) [
                | none ↦ db
                | some status ↦ record_status site status r.response_time in_maintenance now db
              ]).checks
              name
              window
              since
            ≡ instance_verdict db.checks name window since
      by_status none e = refl
      by_status (some status) e =
          record_status-verdict site status r.response_time in_maintenance now db (rw e at h)
