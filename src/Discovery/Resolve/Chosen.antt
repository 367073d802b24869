-- ===== src/Discovery/Resolve/Chosen.antt =====
-- The candidate that `resolve` chooses for a domain.
use mathlib.Core.Path.{subst}
use alfaedge_pulse.Common.{
  String, ◌≡◌, sym, inl, inr, Bool, true, Option, none, some, List, [], ◌∷◌, arith, Option-cases,
  keep,
}
use alfaedge_pulse.Discovery.{NpmResult}
use alfaedge_pulse.Discovery.Choice.{choose_among, if_single, choose_only, choose, Choice}
use alfaedge_pulse.Discovery.Resolve.Owners.{IsFromSource, AreListed, is_source}
use alfaedge_pulse.Discovery.Candidates.{Candidate}
use alfaedge_pulse.Discovery.Dns.{Lookup}
use alfaedge_pulse.Common.Dicts.{dict_get, dict_get-AtFound, AtFound}

module _ (npms : List NpmResult) where
  unfoldable pub IsChosen : String → Option Candidate → Type 0
  IsChosen domain none = Unit
  IsChosen domain (some c) = is_source npms domain c.owner.name ≡ true

  if_single-IsChosen :
      (domain : String) (undecided : Choice) (decided : String → Choice) (ms : List String)
      → IsChosen domain undecided.chosen
      → ((m : String) → IsChosen domain (decided m).chosen)
      → IsChosen domain (if_single undecided decided ms).chosen
  unfolding if_single
  if_single-IsChosen domain undecided decided [] u d = u
  if_single-IsChosen domain undecided decided (m ∷ []) u d = d m
  if_single-IsChosen domain undecided decided (m ∷ n ∷ ms) u d = u

  found-IsChosen :
      (domain m : String) (by_npm : List (String × Candidate))
      → AreListed npms domain by_npm
      → IsChosen domain (dict_get m by_npm)
  unfolding AreListed IsChosen IsFromSource
  found-IsChosen domain m by_npm good =
      let found = dict_get-AtFound (IsFromSource npms domain) m by_npm good in
      elim (Option-cases (dict_get m by_npm)) [
        | inl e ↦ rw e tt
        | inr (c, e) ↦ rw e (subst (AtFound (IsFromSource npms domain) m) e found)
      ]

  choose_only-chosen :
      (checked : Bool) (found : Lookup) (ips : List (String × List String)) (name : String)
      (c : Candidate)
      → (choose_only checked found ips name c).chosen ≡ some c
  unfolding choose_only
  choose_only-chosen checked found ips name c = ground arith

  choose_among-IsChosen :
      (checked : Bool) (found : Lookup) (ips : List (String × List String)) (domain : String)
      (names : List String) (by_npm : List (String × Candidate))
      → AreListed npms domain by_npm
      → IsChosen domain (choose_among checked found ips names by_npm).chosen
  unfolding choose_among IsChosen AreListed
  choose_among-IsChosen checked found ips domain names by_npm good =
      if_single-IsChosen domain _ _ (keep _ names) tt (λ m. found-IsChosen domain m by_npm good)

  pub choose-IsChosen :
      (checked : Bool) (found : Lookup) (ips : List (String × List String)) (domain : String)
      (by_npm : List (String × Candidate))
      → AreListed npms domain by_npm
      → IsChosen domain (choose checked found ips by_npm).chosen
  unfolding IsFromSource choose choose_only AreListed IsChosen
  choose-IsChosen checked found ips domain [] good = tt
  choose-IsChosen checked found ips domain ((name, c) ∷ []) (listed, good) =
      subst (IsChosen domain) (sym (choose_only-chosen checked found ips name c)) listed
  choose-IsChosen checked found ips domain (e ∷ f ∷ es) good =
      choose_among-IsChosen checked found ips domain _ (e ∷ f ∷ es) good
