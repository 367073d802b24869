-- ===== src/Discovery.antt =====
-- site_discovery/sync.py: the data of the daily discovery of sites, and its three sources.
use Prim.Native.Char.{code}
pub mod Dns
pub mod Guests
pub mod Candidates
pub mod Choice
pub mod Resolve
pub mod Fetch
pub mod Run
mod Tests
use alfaedge_pulse.Common.{
  All-map, All-any, ℕ, zero, suc, ◌+◌, ◌-◌, ◌*◌, ◌/◌, ◌%◌, ◌≤◌, ◌<◌, max, String, ◌≡◌, refl, sym,
  ap, ◌∙◌, ◌≢◌, ◌↔◌, ◌⊎◌, inl, inr, Bool, true, false, not, ◌&&◌, ◌||◌, Option, none, some, List,
  [], ◌∷◌, ◌++◌, map, foldl, arith, str_eq, eq_iff, eq_refl, ltb, leb, ◌==◌, if◌then◌else◌,
  Bool-cases, Option-cases, ltb→lt, lt→ltb, leb→le, le→leb, tests, length, take, any, all, keep,
  count, length-append, any-append, count-append, count-le-length, All, length-map,
}
use alfaedge_pulse.Common.Text.{is_blank}
use alfaedge_pulse.Common.Names.{has_text}

-- A record of Cloudflare, of type A, AAAA or CNAME.
pub record CfRecord : Type 0 where
  pub rtype : String
  pub content : String
  pub proxied : Bool

-- A proxy host of Nginx Proxy Manager; a missing port is 0.
pub record ProxyHost : Type 0 where
  pub domains : List String
  pub forward_host : String
  pub forward_port : ℕ

-- `NPMResult`
pub record NpmResult : Type 0 where
  pub name : String
  pub server : Option String
  pub public_ips : List String
  pub ok : Bool
  pub error : String
  pub hosts : List ProxyHost

-- `CFResult`: the records by their name.
pub record CfResult : Type 0 where
  pub enabled : Bool
  pub ok : Bool
  pub error : String
  pub records : List (String × List CfRecord)
  pub zone_count : ℕ

-- A `Proxmox Guest` with its addresses.
pub record ProxmoxGuest : Type 0 where
  pub name : String
  pub server : Option String
  pub node : Option String
  pub guest_name : Option String
  pub ip_address : Option String
  pub ips : List String

pub record AgentSite : Type 0 where
  pub domain : String
  pub guest : String

pub data SiteSource : Type 0 where
  npm : SiteSource
  direct_dns : SiteSource
  pulse_agent : SiteSource

pub data SiteStatus : Type 0 where
  active : SiteStatus
  not_in_cloudflare : SiteStatus
  dns_mismatch : SiteStatus
  ambiguous : SiteStatus
  unmatched : SiteStatus

-- The fields of an `Instance Site` that a sync writes; `also_seen_in` as its list of texts.
pub record SiteRow : Type 0 where
  source : SiteSource
  status : SiteStatus
  pub note : String
  pub cloudflare_target : String
  pub cloudflare_proxied : Bool
  pub proxmox_guest : Option String
  pub npm_instance : Option String
  pub proxmox_server : Option String
  pub forward_target : String
  pub also_seen_in : List String

pub is_status_active : SiteStatus → Bool
is_status_active active = true
is_status_active _ = false

pub is_unmatched : SiteStatus → Bool
is_unmatched unmatched = true
is_unmatched _ = false

-- `target and target in ips`
unfoldable pub is_target_in : Option String → List String → Bool
unfolding has_text
is_target_in none ips = false
is_target_in (some target) ips = not (is_blank target) && has_text target ips

-- `target in ips`
unfoldable pub is_given_in : Option String → List String → Bool
unfolding has_text
is_given_in none ips = false
is_given_in (some target) ips = has_text target ips

unfoldable pub is_none {ℓ} : {A : Type ℓ} → Option A → Bool
is_none none = true
is_none (some x) = false

-- `name.startswith("*.")`
unfoldable pub is_wildcard : String → Bool
is_wildcard (String.◌∷◌ c (String.◌∷◌ d s)) = code c == b'*' && code d == b'.'
is_wildcard _ = false
