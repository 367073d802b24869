-- ===== src/Discovery/Resolve/Owners.antt =====
-- The NPM of a resolved row, and the hosts that it lists.
use alfaedge_pulse.Common.{
  All-map, All-any, String, ◌≡◌, refl, inl, inr, Bool, true, false, ◌&&◌, ◌||◌, some, List, [], ◌∷◌,
  str_eq, eq_refl, if◌then◌else◌, Bool-cases, Option-cases, any, All,
}
use mathlib.Core.Path.{subst}
use alfaedge_pulse.Discovery.{NpmResult, ProxyHost}
use alfaedge_pulse.Discovery.Candidates.{
  add_domain, candidates_of, Candidate, Candidates, add_hosts, add_domains, find_candidates,
}
use alfaedge_pulse.Common.Names.{normalize_site}
use alfaedge_pulse.Common.Dicts.{
  AllEntries, has_key, dict_set-AllEntries, append-AllEntries, dict_get-AtFound, dict_get, AtFound,
}
use alfaedge_pulse.Common.Text.{is_blank}

-- The NPM has a proxy host for the domain.
pub lists_domain : String → NpmResult → Bool
lists_domain domain n =
    any (λ h. any (λ x. str_eq (normalize_site (some x)) domain) h.domains) n.hosts

-- An NPM of the name answered and has a proxy host for the domain.
pub is_source : List NpmResult → String → String → Bool
is_source npms domain name = any (λ n. n.ok && str_eq n.name name && lists_domain domain n) npms

module _ (npms : List NpmResult) where
  unfoldable pub IsFromSource : String → String → Candidate → Type 0
  IsFromSource domain name c = is_source npms domain c.owner.name ≡ true

  unfoldable pub AreListed : String → List (String × Candidate) → Type 0
  AreListed domain by_npm = AllEntries (IsFromSource domain) by_npm

  candidates_of-AreListed :
      (domain : String) (cs : Candidates)
      → AllEntries AreListed cs
      → AreListed domain (candidates_of domain cs)
  unfolding candidates_of AreListed
  candidates_of-AreListed domain cs h =
      let found = dict_get-AtFound AreListed domain cs h in
      elim (Option-cases (dict_get domain cs)) [
        | inl e ↦ rw (candidates_of, e) tt
        | inr (by_npm, e) ↦ rw (candidates_of, e) (subst (AtFound AreListed domain) e found)
      ]

  add_domain-AreListed :
      (n : NpmResult) (h : ProxyHost) (given : String) (cs : Candidates)
      → is_source npms (normalize_site (some given)) n.name ≡ true
      → AllEntries AreListed cs
      → AllEntries AreListed (add_domain n h given cs)
  unfolding add_domain AreListed IsFromSource
  add_domain-AreListed n h given cs source good =
      let d = normalize_site (some given) in
      elim (Bool-cases (is_blank d || has_key n.name (candidates_of d cs))) [
        | inl skipped ↦ rw (add_domain, skipped) good
        | inr added ↦
            rw (add_domain, added)
              (dict_set-AllEntries AreListed d _ cs
                (append-AllEntries (IsFromSource d) (candidates_of d cs) _
                  (candidates_of-AreListed d cs good) (source, tt))
                good)
      ]

  -- Every domain of the list has the NPM of the name as a source.
  DomainsListed : String → List String → Type 0
  DomainsListed name ds = All (λ x. is_source npms (normalize_site (some x)) name ≡ true) ds

  add_domains-AreListed :
      (n : NpmResult) (h : ProxyHost) (ds : List String) (cs : Candidates)
      → DomainsListed n.name ds
      → AllEntries AreListed cs
      → AllEntries AreListed (add_domains n h ds cs)
  unfolding add_domains DomainsListed
  add_domains-AreListed n h [] cs sources good = good
  add_domains-AreListed n h (d ∷ ds) cs (source, sources) good =
      add_domains-AreListed n h ds (add_domain n h d cs) sources
        (add_domain-AreListed n h d cs source good)

  add_hosts-AreListed :
      (n : NpmResult) (hs : List ProxyHost) (cs : Candidates)
      → All (λ h. DomainsListed n.name h.domains) hs
      → AllEntries AreListed cs
      → AllEntries AreListed (add_hosts n hs cs)
  unfolding add_hosts
  add_hosts-AreListed n [] cs sources good = good
  add_hosts-AreListed n (h ∷ hs) cs (source, sources) good =
      add_hosts-AreListed n hs (add_domains n h h.domains cs) sources
        (add_domains-AreListed n h h.domains cs source good)

  HostsListed : NpmResult → Type 0
  HostsListed n = n.ok ≡ true → All (λ h. DomainsListed n.name h.domains) n.hosts

  taken_if :
      (ok : Bool) (taken kept : Candidates)
      → (ok ≡ true → AllEntries AreListed taken)
      → AllEntries AreListed kept
      → AllEntries AreListed (if ok then taken else kept)
  taken_if true taken kept f h = f refl
  taken_if false taken kept f h = h

  find_candidates-AreListed :
      (ns : List NpmResult) (cs : Candidates)
      → All HostsListed ns
      → AllEntries AreListed cs
      → AllEntries AreListed (find_candidates ns cs)
  unfolding find_candidates HostsListed
  find_candidates-AreListed [] cs sources good = good
  find_candidates-AreListed (n ∷ ns) cs (source, sources) good =
      find_candidates-AreListed ns _ sources (
        taken_if n.ok (add_hosts n n.hosts cs) cs
          (λ ok. add_hosts-AreListed n n.hosts cs (source ok) good) good)

  npms-HostsListed : All HostsListed npms
  unfolding HostsListed DomainsListed is_source lists_domain
  npms-HostsListed =
      All-map npms
        (λ n in_npms ok.
          All-map n.hosts
            (λ h in_hosts.
              All-map h.domains
                (λ x in_domains. in_npms _ (
                  rw (ok, eq_refl n.name)
                    (in_hosts _ (in_domains _ (eq_refl (normalize_site (some x)))))))
                (All-any h.domains))
            (All-any n.hosts))
        (All-any npms)

  pub candidates-AreListed : AllEntries AreListed (find_candidates npms [])
  candidates-AreListed = find_candidates-AreListed npms [] npms-HostsListed tt
