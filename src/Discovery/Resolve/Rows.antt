-- ===== src/Discovery/Resolve/Rows.antt =====
-- The NPM that a resolved row names, from the choice of a candidate to the rows.
use mathlib.Core.Path.{subst}
use alfaedge_pulse.Discovery.{
  ProxmoxGuest, NpmResult, CfResult, SiteRow, AgentSite, CfRecord, is_wildcard, is_none,
  is_unmatched,
}
use alfaedge_pulse.Common.{
  String, ◌≡◌, refl, inl, inr, Bool, true, false, ◌&&◌, ◌||◌, Option, none, some, List, [], ◌∷◌,
  if◌then◌else◌, Bool-cases, Option-cases,
}
use alfaedge_pulse.Discovery.Resolve.Owners.{is_source, AreListed, candidates-AreListed}
use alfaedge_pulse.Discovery.Resolve.{
  npm_rows, agent_row, with_chosen, resolve, direct_rows, npm_row, direct_row, seen_by_agent,
  agent_rows, chosen_row, plain_row, look_up,
}
use alfaedge_pulse.Common.Dicts.{
  AllEntries, dict_set-AllEntries, dict_set, dict_get, has_key, dict_get-AtFound, AtFound,
}
use alfaedge_pulse.Discovery.Candidates.{Candidates, Candidate, find_candidates}
use alfaedge_pulse.Discovery.Guests.{guest_by_ip}
use alfaedge_pulse.Discovery.Choice.{Choice, npm_ips_of}
use alfaedge_pulse.Discovery.Resolve.Chosen.{IsChosen, choose-IsChosen}
use alfaedge_pulse.Discovery.Dns.{is_address, Lookup}

module _ (npms : List NpmResult) where
  -- The NPM that the row names, if any, has the domain.
  HasName : String → Option String → Type 0
  HasName domain none = Unit
  HasName domain (some name) = is_source npms domain name ≡ true

  IsOwned : String → SiteRow → Type 0
  IsOwned domain row = HasName domain row.npm_instance

  IfOwned : String → Option SiteRow → Type 0
  IfOwned domain none = Unit
  IfOwned domain (some row) = IsOwned domain row

  with_chosen-IsOwned :
      (is_ip : String → Bool) (guests : List ProxmoxGuest) (domain : String) (choice : Choice)
      (row : SiteRow) (chosen : Option Candidate)
      → row.npm_instance ≡ none
      → IsChosen npms domain chosen
      → IsOwned domain (with_chosen is_ip guests choice row chosen)
  unfolding with_chosen chosen_row IsOwned HasName IsChosen
  with_chosen-IsOwned is_ip guests domain choice row none bare source = rw bare tt
  with_chosen-IsOwned is_ip guests domain choice row (some c) bare source = source

  npm_row-IsOwned :
      (is_ip : String → Bool) (guests : List ProxmoxGuest) (domain : String) (choice : Choice)
      (found : Lookup)
      → IsChosen npms domain choice.chosen
      → IsOwned domain (npm_row is_ip guests choice found)
  unfolding npm_row plain_row
  npm_row-IsOwned is_ip guests domain choice found source =
      with_chosen-IsOwned is_ip guests domain choice _ choice.chosen refl source

  npm_rows-IsOwned :
      (is_ip : String → Bool) (guests : List ProxmoxGuest) (cf : CfResult) (checked : Bool)
      (ips : List (String × List String)) (cs : Candidates) (rows : List (String × SiteRow))
      → AllEntries (AreListed npms) cs
      → AllEntries IsOwned rows
      → AllEntries IsOwned (npm_rows is_ip guests cf checked ips cs rows)
  unfolding npm_rows
  npm_rows-IsOwned is_ip guests cf checked ips [] rows good owned = owned
  npm_rows-IsOwned is_ip guests cf checked ips ((d, by_npm) ∷ cs) rows (listed, good) owned =
      npm_rows-IsOwned is_ip guests cf checked ips cs _ good (
        dict_set-AllEntries IsOwned d _ rows
          (npm_row-IsOwned is_ip guests d _ _
            (choose-IsChosen npms checked (look_up checked cf d) ips d by_npm listed))
          owned)

  direct_row-IsOwned :
      (guest_at : List (String × String)) (domain : String) (recs : List CfRecord)
      → IfOwned domain (direct_row guest_at recs)
  unfolding direct_row plain_row IsOwned HasName IfOwned
  direct_row-IsOwned guest_at domain [] = tt
  direct_row-IsOwned guest_at domain (r ∷ rs) = elim (Bool-cases (is_address r)) [
    | inr b ↦ rw (direct_row, b) (direct_row-IsOwned guest_at domain rs)
    | inl b ↦ elim (Option-cases (dict_get r.content guest_at)) [
      | inl e ↦ rw (direct_row, b, e) (direct_row-IsOwned guest_at domain rs)
      | inr (g, e) ↦ rw (direct_row, b, e) tt
    ]
  ]

  with_direct-IsOwned :
      (skipped : Bool) (row : Option SiteRow) (name : String) (rows : List (String × SiteRow))
      → IfOwned name row
      → AllEntries IsOwned rows
      → AllEntries IsOwned
          (if skipped then rows else elim row [ none ↦ rows | some r ↦ dict_set name r rows ])
  unfolding IfOwned
  with_direct-IsOwned true row name rows new owned = owned
  with_direct-IsOwned false none name rows new owned = owned
  with_direct-IsOwned false (some r) name rows new owned =
      dict_set-AllEntries IsOwned name r rows new owned

  direct_rows-IsOwned :
      (guest_at : List (String × String)) (records : List (String × List CfRecord))
      (rows : List (String × SiteRow))
      → AllEntries IsOwned rows
      → AllEntries IsOwned (direct_rows guest_at records rows)
  unfolding direct_rows
  direct_rows-IsOwned guest_at [] rows owned = owned
  direct_rows-IsOwned guest_at ((name, recs) ∷ records) rows owned =
      direct_rows-IsOwned guest_at records _ (
        with_direct-IsOwned (is_wildcard name || has_key name rows) (direct_row guest_at recs) name
          rows (direct_row-IsOwned guest_at name recs) owned)

  seen_by_agent-IsOwned :
      (domain : String) (s : AgentSite) (row : SiteRow)
      → IsOwned domain row
      → IsOwned domain (seen_by_agent s row)
  unfolding IsOwned seen_by_agent
  seen_by_agent-IsOwned domain s row owned =
      elim (Bool-cases (is_none row.proxmox_guest && is_unmatched row.status)) [
        | inl b ↦ rw (seen_by_agent, b) owned
        | inr b ↦ rw (seen_by_agent, b) owned
      ]

  with_agent-IsOwned :
      (cf : CfResult) (checked : Bool) (s : AgentSite) (found : Option SiteRow)
      → IfOwned s.domain found
      → IsOwned s.domain
          (elim found [ none ↦ agent_row cf checked s | some row ↦ seen_by_agent s row ])
  unfolding IfOwned IsOwned HasName agent_row plain_row
  with_agent-IsOwned cf checked s none owned = tt
  with_agent-IsOwned cf checked s (some row) owned = seen_by_agent-IsOwned s.domain s row owned

  found-IsOwned :
      (domain : String) (rows : List (String × SiteRow))
      → AllEntries IsOwned rows
      → IfOwned domain (dict_get domain rows)
  unfolding IfOwned
  found-IsOwned domain rows owned =
      let found = dict_get-AtFound IsOwned domain rows owned in
      elim (Option-cases (dict_get domain rows)) [
        | inl e ↦ rw e tt
        | inr (row, e) ↦ rw e (subst (AtFound IsOwned domain) e found)
      ]

  agent_rows-IsOwned :
      (cf : CfResult) (checked : Bool) (sites : List AgentSite) (rows : List (String × SiteRow))
      → AllEntries IsOwned rows
      → AllEntries IsOwned (agent_rows cf checked sites rows)
  unfolding agent_rows
  agent_rows-IsOwned cf checked [] rows owned = owned
  agent_rows-IsOwned cf checked (s ∷ sites) rows owned = agent_rows-IsOwned cf checked sites _ (
      dict_set-AllEntries IsOwned s.domain _ rows
        (with_agent-IsOwned cf checked s (dict_get s.domain rows)
          (found-IsOwned s.domain rows owned))
        owned)

  AllOwned : Option (List (String × SiteRow)) → Type 0
  AllOwned none = Unit
  AllOwned (some rows) = AllEntries IsOwned rows

  merged-AllOwned :
      (cf : CfResult) (sites : List AgentSite) (checked : Bool)
      (found : Option (List (String × String))) (listed : List (String × SiteRow))
      → AllEntries IsOwned listed
      → AllOwned (
          if checked
          then elim found [
            | none ↦ none
            | some guest_at ↦
                some (agent_rows cf checked sites (direct_rows guest_at cf.records listed))
          ]
          else some (agent_rows cf checked sites listed))
  unfolding AllOwned
  merged-AllOwned cf sites true none listed owned = tt
  merged-AllOwned cf sites true (some guest_at) listed owned =
      agent_rows-IsOwned cf true sites _ (direct_rows-IsOwned guest_at cf.records listed owned)
  merged-AllOwned cf sites false found listed owned = agent_rows-IsOwned cf false sites listed owned

  resolve-AllOwned :
      (is_ip : String → Bool) (is_private : String → Option Bool) (cf : CfResult)
      (guests : List ProxmoxGuest) (sites : List AgentSite)
      → AllOwned (resolve is_ip is_private npms cf guests sites)
  unfolding resolve
  resolve-AllOwned is_ip is_private cf guests sites =
      merged-AllOwned cf sites (cf.enabled && cf.ok) (guest_by_ip is_private guests []) _ (
        npm_rows-IsOwned is_ip guests cf (cf.enabled && cf.ok) (npm_ips_of npms [])
          (find_candidates npms []) [] (candidates-AreListed npms) tt)

-- The NPM that a resolved row names is one that answered in this run and has a proxy host for the
-- row's domain.
pub resolve-is_source :
    (is_ip : String → Bool) (is_private : String → Option Bool) (npms : List NpmResult)
    (cf : CfResult) (guests : List ProxmoxGuest) (sites : List AgentSite)
    (rows : List (String × SiteRow)) (domain name : String) (row : SiteRow)
    → resolve is_ip is_private npms cf guests sites ≡ some rows
    → dict_get domain rows ≡ some row
    → row.npm_instance ≡ some name
    → is_source npms domain name ≡ true
unfolding AllOwned IfOwned IsOwned HasName
resolve-is_source is_ip is_private npms cf guests sites rows domain name row h found named =
    let owned = subst (AllOwned npms) h (resolve-AllOwned npms is_ip is_private cf guests sites) in
    let here = subst (IfOwned npms domain) found (found-IsOwned npms domain rows owned) in
    subst (HasName npms domain) named here
