-- ===== src/Discovery/Tests.antt =====
-- A small fleet: two NPMs, of which the second does not answer, and a domain with a CNAME record.
use alfaedge_pulse.Common.{
  String, ◌≡◌, refl, Bool, true, false, ◌||◌, Option, none, some, List, [], ◌∷◌, arith, str_eq,
  if◌then◌else◌,
}
use mathlib.Core.Option
use alfaedge_pulse.Discovery.Dns.Chains.{alias, address}
use alfaedge_pulse.Discovery.{
  ProxmoxGuest, active, npm, CfRecord, CfResult, SiteRow, NpmResult, is_status_active, is_unmatched,
  is_target_in, is_given_in, is_none, is_wildcard,
}
use alfaedge_pulse.Common.Names.{
  normalize_site, join_with, after_scheme, drop_scheme, is_scheme_code, before_path, lower_text,
  lower_in, sort_texts, insert_text, text_before, has_text, is_empty,
}
use alfaedge_pulse.Discovery.Run.{Discovered, InstanceSite, run_sync}
use alfaedge_pulse.Discovery.Resolve.Owners.{is_source}
use alfaedge_pulse.Discovery.Fetch.{CfSettings}
use alfaedge_pulse.Discovery.Resolve.{
  resolve, forward_text, leftover_note, plain_row, chosen_row, with_chosen, npm_row, look_up,
  npm_rows, direct_row, direct_rows, seen_by_agent, agent_row, agent_rows,
}
use alfaedge_pulse.Discovery.Dns.{
  cf_lookup, is_address, records_of, wildcard_records, wildcard_below, after_first, follow_hops,
  nothing_found,
}
use alfaedge_pulse.Common.Text.{
  strip, concat, split_on, push_front, strip_left, strip_right, is_space, is_blank,
}
use alfaedge_pulse.Discovery.Resolve.Rows.{resolve-is_source}
use alfaedge_pulse.Discovery.Dns.Chains.{cf_lookup-EndsAt, alias}
use alfaedge_pulse.Common.Dicts.{dict_get, dict_set, has_key}
use alfaedge_pulse.Common.Groups.{group_of}
use alfaedge_pulse.Discovery.Run.Outages.{run_sync-row_after}
use alfaedge_pulse.Discovery.Candidates.{
  candidates_of, add_domain, add_domains, add_hosts, find_candidates,
}
use alfaedge_pulse.Discovery.Choice.{
  npm_ips_of, target_text, who, if_single, ips_of, choose_only, why_ambiguous, choose_among, choose,
}
use alfaedge_pulse.Discovery.Guests.{
  guest_ips, is_on, preferred, first_label, has_name, guest_for_target, add_addresses, guest_by_ip,
}

abbrev is_ip : String → Bool
is_ip s = str_eq s "10.0.0.5" || str_eq s "203.0.113.7"

abbrev is_private : String → Option Bool
is_private s = if is_ip s then some (str_eq s "10.0.0.5") else none

abbrev edge : NpmResult
edge = record {
  name = "edge";
  server = some "pve1";
  public_ips = "203.0.113.7" ∷ [];
  ok = true;
  error = "";
  hosts =
      record { domains = "shop.example.com" ∷ []; forward_host = "10.0.0.5"; forward_port = 0 }
      ∷ [];
}

abbrev lost : NpmResult
lost = record {
  name = "lost";
  server = none;
  public_ips = [];
  ok = false;
  error = "timeout";
  hosts = [];
}

abbrev cname : CfRecord
cname = record { rtype = "CNAME"; content = "web.example.com"; proxied = true }

abbrev a_record : CfRecord
a_record = record { rtype = "A"; content = "203.0.113.7"; proxied = false }

abbrev records : List (String × List CfRecord)
records = ("*.example.com", cname ∷ []) ∷ ("web.example.com", a_record ∷ []) ∷ []

abbrev cf : CfResult
cf = record { enabled = true; ok = true; error = ""; records = records; zone_count = 1 }

abbrev guest : ProxmoxGuest
guest = record {
  name = "vm-101";
  server = some "pve1";
  node = none;
  guest_name = some "shop";
  ip_address = some "10.0.0.5";
  ips = [];
}

abbrev shop_row : SiteRow
shop_row = record {
  source = npm;
  status = active;
  note = "";
  cloudflare_target = "203.0.113.7";
  cloudflare_proxied = true;
  proxmox_guest = some "vm-101";
  npm_instance = some "edge";
  proxmox_server = some "pve1";
  forward_target = "10.0.0.5";
  also_seen_in = [];
}

abbrev lost_row : InstanceSite
lost_row = record { fields = record shop_row { npm_instance = some "lost" }; last_seen = 3 }

abbrev gone_row : InstanceSite
gone_row = record { fields = record shop_row { npm_instance = none }; last_seen = 4 }

abbrev settings : CfSettings
settings = record {
  enabled = true;
  zones = none;
  sync_hour = 3;
  last_synced = none;
  last_error = none;
  site_count = 0;
  zone_count = 0;
  record_count = 0;
}

abbrev state : Discovered
state = record {
  sites = ("old.example.com", gone_row) ∷ ("kept.example.com", lost_row) ∷ [];
  npm_states = [];
  settings = settings;
}

resolve_test :
    resolve is_ip is_private (edge ∷ lost ∷ []) cf (guest ∷ []) []
    ≡ some (("shop.example.com", shop_row) ∷ [])
unfolding is_status_active is_unmatched has_text is_target_in is_given_in is_empty is_none
    is_wildcard candidates_of add_domain add_domains add_hosts find_candidates npm_ips_of
    target_text who if_single ips_of choose_only why_ambiguous choose_among choose is_address
    wildcard_below after_first wildcard_records records_of follow_hops cf_lookup nothing_found
    guest_ips is_on preferred first_label has_name guest_for_target add_addresses guest_by_ip
    forward_text leftover_note plain_row chosen_row with_chosen npm_row look_up npm_rows direct_row
    direct_rows seen_by_agent agent_row agent_rows resolve dict_get dict_set normalize_site
    after_scheme drop_scheme is_scheme_code before_path lower_text lower_in sort_texts insert_text
    text_before split_on push_front strip strip_left strip_right is_space is_blank concat join_with
    group_of has_key
resolve_test = refl

run_sync-row_after_example :
    Option.map
      (λ done. dict_get "kept.example.com" done.0.sites)
      (run_sync is_ip is_private 9 (edge ∷ lost ∷ []) cf (guest ∷ []) [] state)
    ≡ some (some lost_row)
unfolding has_key dict_get
run_sync-row_after_example =
    run_sync-row_after is_ip is_private 9 (edge ∷ lost ∷ []) cf (guest ∷ []) []
      (("shop.example.com", shop_row) ∷ []) state "kept.example.com" resolve_test (refl, (refl, tt))

cf_lookup-EndsAt_example :
    cf_lookup records "shop.example.com"
    ≡ record { target = some "203.0.113.7"; proxied = true; found = true }
unfolding group_of is_address records_of wildcard_records wildcard_below after_first is_empty
    join_with concat split_on push_front
cf_lookup-EndsAt_example =
    cf_lookup-EndsAt records "shop.example.com" "203.0.113.7" 1
      (alias {r = cname} refl refl (address {a = a_record} refl refl)) (omega arith)

resolve-is_source_example : is_source (edge ∷ lost ∷ []) "shop.example.com" "edge" ≡ true
unfolding dict_get
resolve-is_source_example =
    resolve-is_source is_ip is_private (edge ∷ lost ∷ []) cf (guest ∷ []) []
      (("shop.example.com", shop_row) ∷ []) "shop.example.com" "edge" shop_row resolve_test refl
      refl

normalize_test : normalize_site (some " HTTP://Anson.example.org:443/a") ≡ "anson.example.org"
unfolding normalize_site strip
normalize_test = refl
