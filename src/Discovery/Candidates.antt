-- ===== src/Discovery/Candidates.antt =====
-- site_discovery/sync.py: the NPM candidates of each domain, the first half of `resolve`. A domain's
-- candidates stand in a dictionary by the names of the NPMs.
use alfaedge_pulse.Common.{ℕ, String, ◌||◌, none, some, List, [], ◌∷◌, ◌++◌, if◌then◌else◌}
use alfaedge_pulse.Discovery.{NpmResult, ProxyHost}
use alfaedge_pulse.Common.Dicts.{dict_get, has_key, dict_set}
use alfaedge_pulse.Common.Names.{normalize_site}
use alfaedge_pulse.Common.Text.{is_blank}

-- `{"npm": n, **h}`
pub record Candidate : Type 0 where
  pub owner : NpmResult
  pub forward_host : String
  pub forward_port : ℕ

abbrev pub Candidates : Type 0
Candidates = List (String × List (String × Candidate))

-- `candidates[d]`
unfoldable pub candidates_of : String → Candidates → List (String × Candidate)
candidates_of d cs = elim (dict_get d cs) [ none ↦ [] | some by_npm ↦ by_npm ]

unfoldable pub add_domain : NpmResult → ProxyHost → String → Candidates → Candidates
add_domain n h given cs =
    let d = normalize_site (some given) in
    let by_npm = candidates_of d cs in
    let c : Candidate = record {
      owner = n;
      forward_host = h.forward_host;
      forward_port = h.forward_port;
    } in
    if is_blank d || has_key n.name by_npm then cs else dict_set d (by_npm ++ (n.name, c) ∷ []) cs

unfoldable pub add_domains : NpmResult → ProxyHost → List String → Candidates → Candidates
add_domains n h [] cs = cs
add_domains n h (d ∷ ds) cs = add_domains n h ds (add_domain n h d cs)

unfoldable pub add_hosts : NpmResult → List ProxyHost → Candidates → Candidates
add_hosts n [] cs = cs
add_hosts n (h ∷ hs) cs = add_hosts n hs (add_domains n h h.domains cs)

-- The loop over the NPMs.
unfoldable pub find_candidates : List NpmResult → Candidates → Candidates
find_candidates [] cs = cs
find_candidates (n ∷ ns) cs = find_candidates ns (if n.ok then add_hosts n n.hosts cs else cs)
