-- ===== src/Discovery/Guests.antt =====
-- site_discovery/sync.py: `_guest_ips`, `_guest_for_target`, `load_guests` and `load_agent_sites`.
-- The library `ipaddress` and the Proxmox client are parameters.
use alfaedge_pulse.Common.{
  String, Bool, true, false, not, ◌||◌, Option, none, some, List, [], ◌∷◌, ◌++◌, map, str_eq,
  if◌then◌else◌, keep,
}
use alfaedge_pulse.Discovery.{ProxmoxGuest, AgentSite}
use alfaedge_pulse.Common.Text.{split_on, is_blank, strip, or_empty, has_code}
use alfaedge_pulse.Common.Names.{lower_text, normalize_site, has_text, is_empty}
use alfaedge_pulse.Common.Dicts.{has_key, dict_get}
use alfaedge_pulse.Common.Tables.{first_that}

-- `_guest_ips`
unfoldable pub guest_ips : ProxmoxGuest → List String
guest_ips g =
    let ip = strip (or_empty g.ip_address) in
    if is_empty g.ips then if is_blank ip then [] else ip ∷ [] else g.ips

-- `g.server == server`
unfoldable pub is_on : Option String → ProxmoxGuest → Bool
is_on none g = elim g.server [ none ↦ true | some s ↦ false ]
is_on (some server) g = elim g.server [ none ↦ false | some s ↦ str_eq s server ]

-- `(same_host or matches)[0].name`
unfoldable pub preferred : Option String → List ProxmoxGuest → Option String
preferred server matches = elim (first_that (is_on server) matches) [
  | some g ↦ some g.name
  | none ↦ elim matches [ [] ↦ none | g ∷ gs ↦ some g.name ]
]

unfoldable pub first_label : String → String
first_label target = elim (split_on b'.' target) [ [] ↦ "" | l ∷ ls ↦ l ]

unfoldable pub has_name : String → ProxmoxGuest → Bool
has_name target g =
    let name = lower_text (or_empty g.guest_name) in
    str_eq name target || str_eq name (first_label target)

module _ (is_ip : String → Bool) where
  -- `_guest_for_target`
  unfoldable pub guest_for_target : String → Option String → List ProxmoxGuest → Option String
  guest_for_target forward_host server guests =
      let target = lower_text (strip forward_host) in
      let by_ip = keep (λ g. has_text target (guest_ips g)) guests in
      let by_name = keep (has_name target) guests in
      if is_blank target
      then none
      else if not (is_empty by_ip)
      then preferred server by_ip
      else if is_ip target
      then none
      else preferred server by_name

-- `guest_by_ip`: `is_private` is none where `ipaddress` raises an error.
module _ (is_private : String → Option Bool) where
  unfoldable pub add_addresses :
      String → List String → List (String × String) → Option (List (String × String))
  add_addresses name [] d = some d
  add_addresses name (ip ∷ ips) d = elim (is_private ip) [
    | none ↦ none
    | some private ↦
        let added = if has_key ip d then d else d ++ (ip, name) ∷ [] in
        add_addresses name ips (if private then d else added)
  ]

  unfoldable pub guest_by_ip :
      List ProxmoxGuest → List (String × String) → Option (List (String × String))
  guest_by_ip [] d = some d
  guest_by_ip (g ∷ gs) d = elim (add_addresses g.name (guest_ips g) d) [
    | none ↦ none
    | some e ↦ guest_by_ip gs e
  ]

-- The addresses of a guest from the database alone.
stored_ips : ProxmoxGuest → ProxmoxGuest
stored_ips g =
    let ip = strip (or_empty g.ip_address) in record g { ips = if is_blank ip then [] else ip ∷ [] }

-- The client of one server: the node that it discovers and the addresses of a guest on a node,
-- none where it raises an error.
pub record PveClient : Type 0 where
  pub discover_node_name : Option String
  pub get_guest_ipv4s : String → ProxmoxGuest → Option (List String)

-- `g.node or default_node or client.discover_node_name()`, and the default that it leaves.
node_of : PveClient → Option String → Option String → Option (String × Option String)
node_of client default_node (some node) = some (node, default_node)
node_of client (some default) none = some (default, some default)
node_of client none none = elim client.discover_node_name [
  | none ↦ none
  | some node ↦ some (node, some node)
]

-- The loop over the guests of one server: the first error ends it, with the guests so far.
read_guests : PveClient → String → Option String → List ProxmoxGuest → List ProxmoxGuest
read_guests client server default_node [] = []
read_guests client server default_node (g ∷ gs) =
    let others = g ∷ read_guests client server default_node gs in
    if not (is_on (some server) g) then others else elim (node_of client default_node g.node) [
      | none ↦ g ∷ gs
      | some (node, default) ↦ elim (client.get_guest_ipv4s node g) [
        | none ↦ g ∷ gs
        | some ips ↦ record g { ips = g.ips ++ ips } ∷ read_guests client server default gs
      ]
    ]

read_servers : List (String × PveClient) → List ProxmoxGuest → List ProxmoxGuest
read_servers [] guests = guests
read_servers ((server, client) ∷ servers) guests =
    read_servers servers (read_guests client server none guests)

-- sync.py: `load_guests`, for the enabled PVE servers with their clients.
pub load_guests : List (String × PveClient) → List ProxmoxGuest → List ProxmoxGuest
load_guests servers guests = read_servers servers (map stored_ips guests)

-- A row of `Monitored Host Site`.
pub record HostSite : Type 0 where
  pub parent : String
  pub site_url : Option String
  pub site_name : Option String

-- `row.site_url or row.site_name`
pub name_of_site : HostSite → Option String
name_of_site row = if is_blank (or_empty row.site_url) then row.site_name else row.site_url

-- sync.py: `load_agent_sites`, for the hosts with their guests.
pub load_agent_sites : List (String × Option String) → List HostSite → List AgentSite
load_agent_sites guest_by_host [] = []
load_agent_sites guest_by_host (row ∷ rows) =
    let domain = normalize_site (name_of_site row) in
    let rest = load_agent_sites guest_by_host rows in
    elim (dict_get row.parent guest_by_host) [
      | none ↦ rest
      | some none ↦ rest
      | some (some guest) ↦
          if is_blank guest || is_blank domain || not (has_code b'.' domain)
          then rest
          else record { domain = domain; guest = guest } ∷ rest
    ]
