-- ===== src/Discovery/Fetch.antt =====
-- site_discovery/sync.py: `fetch_npms` and `fetch_cloudflare`. The clients are parameters; a text on
-- the left is the error that they raise.
use alfaedge_pulse.Common.{
  ℕ, String, ◌⊎◌, inl, inr, Bool, true, false, not, Option, List, [], ◌∷◌, map, str_eq,
  if◌then◌else◌, length, keep,
}
use alfaedge_pulse.Discovery.{CfRecord, ProxyHost, CfResult, NpmResult}
use alfaedge_pulse.Common.Text.{is_blank, strip, split_commas, or_empty}
use alfaedge_pulse.Common.Groups.{add_to_group}
use alfaedge_pulse.Common.Names.{replace_code}

-- An enabled `NPM Instance`.
pub record NpmInstance : Type 0 where
  pub name : String
  pub proxmox_server : Option String
  pub public_ips : Option String

-- `parse_ips`
pub parse_ips : Option String → List String
parse_ips value =
    keep (λ v. not (is_blank v)) (map strip (split_commas (replace_code 10 "," (or_empty value))))

module _ (list_proxy_hosts : NpmInstance → String ⊎ List ProxyHost) where
  fetch_npm : NpmInstance → NpmResult
  fetch_npm doc =
      let failed : String → NpmResult = λ error. record {
        name = doc.name;
        server = doc.proxmox_server;
        public_ips = parse_ips doc.public_ips;
        ok = false;
        error = error;
        hosts = [];
      } in
      elim (list_proxy_hosts doc) [
        | inl error ↦ failed error
        | inr hosts ↦ record (failed "") { ok = true; hosts = hosts }
      ]

  -- sync.py: `fetch_npms`
  pub fetch_npms : List NpmInstance → List NpmResult
  fetch_npms docs = map fetch_npm docs

-- The fields of the single `Cloudflare Settings` that the sync reads and writes.
pub record CfSettings : Type 0 where
  pub enabled : Bool
  pub zones : Option String
  pub sync_hour : ℕ
  pub last_synced : Option ℕ
  pub last_error : Option String
  pub site_count : ℕ
  pub zone_count : ℕ
  pub record_count : ℕ

-- The loop over a zone's records, each with its name.
add_records :
    List (String × CfRecord) → List (String × List CfRecord) → List (String × List CfRecord)
add_records [] d = d
add_records ((name, r) ∷ rs) d = add_records rs (add_to_group str_eq name r d)

module _ (list_zones : List String → String ⊎ List String)
    (list_records : String → String ⊎ List (String × CfRecord)) where
  -- The loop over the zones: an error keeps the records so far, and the result stays not ok.
  fetch_zones : List String → CfResult → CfResult
  fetch_zones [] result = record result { ok = true }
  fetch_zones (zone ∷ zones) result = elim (list_records zone) [
    | inl error ↦ record result { error = error }
    | inr rs ↦ fetch_zones zones (record result { records = add_records rs result.records })
  ]

  -- sync.py: `fetch_cloudflare`
  pub fetch_cloudflare : CfSettings → CfResult
  fetch_cloudflare settings =
      let result : CfResult = record {
        enabled = settings.enabled;
        ok = false;
        error = "";
        records = [];
        zone_count = 0;
      } in
      if not settings.enabled
      then result
      else elim (list_zones (split_commas (or_empty settings.zones))) [
        | inl error ↦ record result { error = error }
        | inr zones ↦ fetch_zones zones (record result { zone_count = length zones })
      ]
