-- ===== src/Discovery/Resolve/Keys.antt =====
-- The domains of the rows that `resolve` returns.
use alfaedge_pulse.Common.{
  String, ◌≡◌, Bool, true, false, ◌&&◌, ◌||◌, Option, none, some, List, [], ◌∷◌, if◌then◌else◌,
}
use mathlib.Core.Path.{subst}
use alfaedge_pulse.Discovery.{
  ProxmoxGuest, CfRecord, NpmResult, CfResult, AgentSite, SiteRow, is_wildcard,
}
use alfaedge_pulse.Discovery.Resolve.{npm_rows, direct_rows, agent_rows, resolve, direct_row}
use alfaedge_pulse.Discovery.Candidates.{Candidates, find_candidates}
use alfaedge_pulse.Common.Dicts.{HasDistinctKeys, dict_set-HasDistinctKeys, dict_set, has_key}
use alfaedge_pulse.Discovery.Guests.{guest_by_ip}
use alfaedge_pulse.Discovery.Choice.{npm_ips_of}

npm_rows-HasDistinctKeys :
    (is_ip : String → Bool) (guests : List ProxmoxGuest) (cf : CfResult) (checked : Bool)
    (ips : List (String × List String)) (cs : Candidates) (rows : List (String × SiteRow))
    → HasDistinctKeys rows
    → HasDistinctKeys (npm_rows is_ip guests cf checked ips cs rows)
unfolding npm_rows
npm_rows-HasDistinctKeys is_ip guests cf checked ips [] rows h = h
npm_rows-HasDistinctKeys is_ip guests cf checked ips ((d, by_npm) ∷ cs) rows h =
    npm_rows-HasDistinctKeys is_ip guests cf checked ips cs _ (dict_set-HasDistinctKeys d _ rows h)

with_direct-HasDistinctKeys :
    (skipped : Bool) (row : Option SiteRow) (name : String) (rows : List (String × SiteRow))
    → HasDistinctKeys rows
    → HasDistinctKeys
        (if skipped then rows else elim row [ none ↦ rows | some r ↦ dict_set name r rows ])
with_direct-HasDistinctKeys true row name rows h = h
with_direct-HasDistinctKeys false none name rows h = h
with_direct-HasDistinctKeys false (some r) name rows h = dict_set-HasDistinctKeys name r rows h

direct_rows-HasDistinctKeys :
    (guest_at : List (String × String)) (records : List (String × List CfRecord))
    (rows : List (String × SiteRow))
    → HasDistinctKeys rows
    → HasDistinctKeys (direct_rows guest_at records rows)
unfolding direct_rows
direct_rows-HasDistinctKeys guest_at [] rows h = h
direct_rows-HasDistinctKeys guest_at ((name, recs) ∷ records) rows h =
    direct_rows-HasDistinctKeys guest_at records _ (
      with_direct-HasDistinctKeys (is_wildcard name || has_key name rows) (direct_row guest_at recs)
        name rows h)

agent_rows-HasDistinctKeys :
    (cf : CfResult) (checked : Bool) (sites : List AgentSite) (rows : List (String × SiteRow))
    → HasDistinctKeys rows
    → HasDistinctKeys (agent_rows cf checked sites rows)
unfolding agent_rows
agent_rows-HasDistinctKeys cf checked [] rows h = h
agent_rows-HasDistinctKeys cf checked (s ∷ sites) rows h =
    agent_rows-HasDistinctKeys cf checked sites _ (dict_set-HasDistinctKeys s.domain _ rows h)

ResolvesApart : Option (List (String × SiteRow)) → Type 0
ResolvesApart none = Unit
ResolvesApart (some rows) = HasDistinctKeys rows

resolve-ResolvesApart :
    (cf : CfResult) (sites : List AgentSite) (checked : Bool)
    (found : Option (List (String × String))) (listed : List (String × SiteRow))
    → HasDistinctKeys listed
    → ResolvesApart (
        if checked
        then elim found [
          | none ↦ none
          | some guest_at ↦
              some (agent_rows cf checked sites (direct_rows guest_at cf.records listed))
        ]
        else some (agent_rows cf checked sites listed))
unfolding ResolvesApart
resolve-ResolvesApart cf sites true none listed h = tt
resolve-ResolvesApart cf sites true (some guest_at) listed h =
    agent_rows-HasDistinctKeys cf true sites _
      (direct_rows-HasDistinctKeys guest_at cf.records listed h)
resolve-ResolvesApart cf sites false found listed h =
    agent_rows-HasDistinctKeys cf false sites listed h

pub resolve-HasDistinctKeys :
    (is_ip : String → Bool) (is_private : String → Option Bool) (npms : List NpmResult)
    (cf : CfResult) (guests : List ProxmoxGuest) (sites : List AgentSite)
    (rows : List (String × SiteRow))
    → resolve is_ip is_private npms cf guests sites ≡ some rows
    → HasDistinctKeys rows
unfolding resolve ResolvesApart
resolve-HasDistinctKeys is_ip is_private npms cf guests sites rows h = subst ResolvesApart h (
    resolve-ResolvesApart cf sites (cf.enabled && cf.ok) (guest_by_ip is_private guests []) _ (
      npm_rows-HasDistinctKeys is_ip guests cf (cf.enabled && cf.ok) (npm_ips_of npms [])
        (find_candidates npms []) [] tt))
