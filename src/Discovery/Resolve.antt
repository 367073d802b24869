-- ===== src/Discovery/Resolve.antt =====
-- site_discovery/sync.py: the rows that `resolve` makes of its three sources.
pub mod Keys
pub mod Owners
pub mod Chosen
pub mod Rows
use alfaedge_pulse.Common.{
  All-map, All-any, ℕ, zero, suc, ◌+◌, ◌-◌, ◌*◌, ◌/◌, ◌%◌, ◌≤◌, ◌<◌, max, String, ◌≡◌, refl, sym,
  ap, ◌∙◌, ◌≢◌, ◌↔◌, ◌⊎◌, inl, inr, Bool, true, false, not, ◌&&◌, ◌||◌, Option, none, some, List,
  [], ◌∷◌, ◌++◌, map, foldl, arith, str_eq, eq_iff, eq_refl, ltb, leb, ◌==◌, if◌then◌else◌,
  Bool-cases, Option-cases, ltb→lt, lt→ltb, leb→le, le→leb, tests, length, take, any, all, keep,
  count, length-append, any-append, count-append, count-le-length, All, length-map,
}
use alfaedge_pulse.Discovery.{
  ProxmoxGuest, npm, active, CfResult, CfRecord, SiteSource, NpmResult, AgentSite, SiteRow,
  SiteStatus, pulse_agent, not_in_cloudflare, is_wildcard, is_none, direct_dns, is_unmatched,
  is_status_active, unmatched,
}
use alfaedge_pulse.Discovery.Dns.{nothing_found, Lookup, cf_lookup, is_address}
use alfaedge_pulse.Discovery.Candidates.{Candidate, Candidates, find_candidates}
use alfaedge_pulse.Discovery.Choice.{Choice, npm_ips_of, choose}
use alfaedge_pulse.Common.Text.{concat, is_blank, or_empty, decimal}
use alfaedge_pulse.Discovery.Guests.{guest_for_target, guest_by_ip}
use alfaedge_pulse.Common.Names.{sort_texts, has_text}
use alfaedge_pulse.Common.Dicts.{dict_get, dict_set, has_key}

-- `f"{forward_host}{port}"`
unfoldable pub forward_text : Candidate → String
forward_text c =
    if c.forward_port == 0
    then c.forward_host
    else concat (c.forward_host ∷ ":" ∷ decimal c.forward_port ∷ [])

unfoldable pub leftover_note : Choice → Candidate → String
leftover_note choice c = concat (
    (if is_blank choice.note then "" else concat (choice.note ∷ " " ∷ []))
    ∷ "Forwards to "
    ∷ c.forward_host
    ∷ ", which no current VM/CT has — a leftover proxy host for a deleted container, or a "
    ∷ "container whose (DHCP) IP changed."
    ∷ [])

unfoldable pub plain_row :
    SiteSource → SiteStatus → String → Option String → Bool → Option String → SiteRow
plain_row source status note target proxied guest = record {
  source = source;
  status = status;
  note = note;
  cloudflare_target = or_empty target;
  cloudflare_proxied = proxied;
  proxmox_guest = guest;
  npm_instance = none;
  proxmox_server = none;
  forward_target = "";
  also_seen_in = [];
}

module _ (is_ip : String → Bool) (guests : List ProxmoxGuest) where
  unfoldable pub chosen_row : Choice → Candidate → SiteRow → SiteRow
  chosen_row choice c row =
      let guest = guest_for_target is_ip c.forward_host c.owner.server guests in
      let leftover = is_none guest && is_status_active choice.status in
      record row {
        npm_instance = some c.owner.name;
        proxmox_server = c.owner.server;
        forward_target = forward_text c;
        proxmox_guest = guest;
        status = if leftover then unmatched else choice.status;
        note = if leftover then leftover_note choice c else choice.note;
      }

  -- `if chosen:`
  unfoldable pub with_chosen : Choice → SiteRow → Option Candidate → SiteRow
  with_chosen choice row none = row
  with_chosen choice row (some c) = chosen_row choice c row

  -- The row of a domain of the proxy managers.
  unfoldable pub npm_row : Choice → Lookup → SiteRow
  npm_row choice found =
      let row = plain_row npm choice.status choice.note found.target found.proxied none in
      with_chosen choice row choice.chosen

-- `cf_lookup(cf.records, domain) if cf_checked else (None, False, False)`
unfoldable pub look_up : Bool → CfResult → String → Lookup
look_up cf_checked cf domain = if cf_checked then cf_lookup cf.records domain else nothing_found

module _ (is_ip : String → Bool) (guests : List ProxmoxGuest) (cf : CfResult) (cf_checked : Bool)
    (npm_ips : List (String × List String)) where
  unfoldable pub npm_rows : Candidates → List (String × SiteRow) → List (String × SiteRow)
  npm_rows [] rows = rows
  npm_rows ((domain, by_npm) ∷ cs) rows =
      let found = look_up cf_checked cf domain in
      let choice = choose cf_checked found npm_ips by_npm in
      npm_rows cs (dict_set domain (npm_row is_ip guests choice found) rows)

module _ (guest_at : List (String × String)) where
  -- The first address record that points at a guest.
  unfoldable pub direct_row : List CfRecord → Option SiteRow
  direct_row [] = none
  direct_row (r ∷ rs) =
      let rest = direct_row rs in
      if is_address r
      then elim (dict_get r.content guest_at) [
        | none ↦ rest
        | some g ↦ some (plain_row direct_dns active "" (some r.content) r.proxied (some g))
      ]
      else rest

  -- The loop over the names of Cloudflare's records.
  unfoldable pub direct_rows :
      List (String × List CfRecord) → List (String × SiteRow) → List (String × SiteRow)
  direct_rows [] rows = rows
  direct_rows ((name, recs) ∷ records) rows =
      let added : List (String × SiteRow) = elim (direct_row recs) [
        | none ↦ rows
        | some row ↦ dict_set name row rows
      ] in
      direct_rows records (if is_wildcard name || has_key name rows then rows else added)

-- The row of a domain that the agent reports too.
unfoldable pub seen_by_agent : AgentSite → SiteRow → SiteRow
seen_by_agent s row =
    let seen = sort_texts (
      if has_text "Pulse agent" row.also_seen_in
      then row.also_seen_in
      else "Pulse agent" ∷ row.also_seen_in) in
    if is_none row.proxmox_guest && is_unmatched row.status
    then record row {
      also_seen_in = seen;
      proxmox_guest = some s.guest;
      status = active;
      note = concat (row.note ∷ " Matched via the Pulse agent." ∷ []);
    }
    else record row { also_seen_in = seen }

module _ (cf : CfResult) (cf_checked : Bool) where
  unfoldable pub agent_row : AgentSite → SiteRow
  agent_row s =
      let found = look_up cf_checked cf s.domain in
      plain_row pulse_agent (if cf_checked && not found.found then not_in_cloudflare else active)
        "Reported by the Pulse agent on this instance." found.target found.proxied (some s.guest)

  -- The loop over the sites of the agents.
  unfoldable pub agent_rows : List AgentSite → List (String × SiteRow) → List (String × SiteRow)
  agent_rows [] rows = rows
  agent_rows (s ∷ sites) rows =
      let row : SiteRow = elim (dict_get s.domain rows) [
        | none ↦ agent_row s
        | some row ↦ seen_by_agent s row
      ] in
      agent_rows sites (dict_set s.domain row rows)

module _ (is_ip : String → Bool) (is_private : String → Option Bool) where
  -- sync.py: `resolve`; none where an address of a guest is malformed.
  unfoldable pub resolve :
      List NpmResult
      → CfResult
      → List ProxmoxGuest
      → List AgentSite
      → Option (List (String × SiteRow))
  resolve npms cf guests agent_sites =
      let cf_checked = cf.enabled && cf.ok in
      let npm_ips = npm_ips_of npms [] in
      let listed = npm_rows is_ip guests cf cf_checked npm_ips (find_candidates npms []) [] in
      if cf_checked
      then elim (guest_by_ip is_private guests []) [
        | none ↦ none
        | some guest_at ↦
            some (agent_rows cf cf_checked agent_sites (direct_rows guest_at cf.records listed))
      ]
      else some (agent_rows cf cf_checked agent_sites listed)
