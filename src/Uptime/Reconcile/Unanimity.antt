-- ===== src/Uptime/Reconcile/Unanimity.antt =====
-- The vote of the instances that have a verdict.
use alfaedge_pulse.Common.{
  ◌+◌, ◌≡◌, refl, Bool, ◌&&◌, Option, none, some, List, [], ◌∷◌, arith, ltb, ◌==◌, if◌then◌else◌,
  length, all, count, count-le-length,
}
use alfaedge_pulse.Uptime.Reconcile.{is_unanimous, count_votes, no_votes, add_vote, Votes}
use alfaedge_pulse.Uptime.Checks.{Site}

-- The verdicts that count: of the active siblings that have one.
unfoldable pub verdicts : (Site → Option Bool) → List Site → List Bool
verdicts verdict [] = []
verdicts verdict (s ∷ ss) =
    let rest = verdicts verdict ss in
    if s.is_active then elim (verdict s) [ none ↦ rest | some down ↦ down ∷ rest ] else rest

count_votes_lem :
    (verdict : Site → Option Bool) (ss : List Site) (v : Votes)
    → ((count_votes verdict ss v).down_votes ≡ v.down_votes + count (λ b. b) (verdicts verdict ss))
      × ((count_votes verdict ss v).total_votes ≡ v.total_votes + length (verdicts verdict ss))
unfolding count_votes add_vote verdicts
count_votes_lem verdict [] v = omega arith
count_votes_lem verdict (s ∷ ss) v =
    ground (arith, count_votes_lem verdict ss (if s.is_active then add_vote (verdict s) v else v))

all_of_count : (bs : List Bool) → (count (λ b. b) bs == length bs) ≡ all (λ b. b) bs
all_of_count [] = refl
all_of_count (b ∷ bs) = ground (arith, all_of_count bs, count-le-length (λ x. x) bs)

-- A site is voted down exactly when at least one active instance has a verdict and all of those
-- that have one say down.
pub is_unanimous-count_votes :
    (verdict : Site → Option Bool) (siblings : List Site)
    → is_unanimous (count_votes verdict siblings no_votes)
      ≡ (ltb 0 (length (verdicts verdict siblings)) && all (λ b. b) (verdicts verdict siblings))
unfolding is_unanimous
is_unanimous-count_votes verdict siblings =
    ground
      (arith, count_votes_lem verdict siblings no_votes, all_of_count (verdicts verdict siblings))
