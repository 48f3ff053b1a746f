-- ===== src/Registry.antt =====
-- The registries of clients and agents that the control plane writes (internal/tunnel/registry.go):
-- their entries, and what parsing makes of them. JSON, base64, hexadecimal and the parsers of
-- addresses and prefixes are Go's libraries, parameters.
pub mod Apply
pub mod Keyed
pub mod Rows
pub mod Gone
pub mod Revoke
pub mod Reload
mod Tests
use selfremote.Common.{
  ℕ, Bool, true, false, not, ◌&&◌, ◌||◌, String, str_eq, List, [], ◌∷◌, ◌++◌, Option, none, some,
  ◌==◌, if◌then◌else◌, length, map,
}
use selfremote.Net.{Addr, invalid, Prefix}
use selfremote.Translate.Route.{RouteMap, parse_route_map}
use selfremote.Engine.{PeerConfig, role_client, role_agent}
use selfremote.Engine.Heap.{insert}

-- `enabled` is `none` where the file does not say.
pub record RegistryClient : Type 0 where
  pub name : String
  pub user : String
  pub public_key : String
  pub enabled : Option Bool
  pub totp_secret : String
  pub tunnel_ip : String
  pub agents : List String

pub record RegistryRoute : Type 0 where
  pub real : String
  pub virtual : String

pub record RegistryAgent : Type 0 where
  pub id : String
  pub name : String
  pub public_key : String
  pub enabled : Option Bool
  pub totp_secret : String
  pub tunnel_ip : String
  pub routes : List RegistryRoute

-- A parsed registry: configurations by the hexadecimal text of their keys.
abbrev pub Registry : Type 0
Registry = List (String × PeerConfig)

-- The outcome for one entry: passed over, an error for the whole file, or a configuration.
pub data Entry : Type 0 where
  skipped : Entry
  refused : Entry
  entry : List ℕ → PeerConfig → Entry

abbrev pub is_disabled : Option Bool → Bool
is_disabled none = false
is_disabled (some b) = not b

abbrev pub client_config : RegistryClient → List ℕ → Addr → PeerConfig
client_config c key ip = record {
  name = c.name;
  user = c.user;
  public_key = key;
  totp_secret = c.totp_secret;
  id = "";
  role = role_client;
  tunnel_ip = ip;
  routes = [];
  allow_agents = c.agents;
  enabled = true;
}

-- `parsePubKey`
unfoldable pub parse_pub_key : (String → Option (List ℕ)) → String → Option (List ℕ)
parse_pub_key decode_base64 raw = elim (decode_base64 raw) [
  | none ↦ none
  | some key ↦ if length key == 32 then some key else none
]

-- A tunnel address that may be left out.
unfoldable pub parse_tunnel_ip : (String → Option Addr) → String → Option Addr
parse_tunnel_ip parse_addr raw = if str_eq raw "" then some invalid else parse_addr raw

module _ (decode_base64 : String → Option (List ℕ)) (parse_addr : String → Option Addr) where
  -- One round of the loop of `ParseRegistry`.
  unfoldable pub parse_client : RegistryClient → Entry
  parse_client c =
      if is_disabled c.enabled then skipped else elim (parse_pub_key decode_base64 c.public_key) [
        | none ↦ refused
        | some key ↦
            if str_eq c.name "" then refused else elim (parse_tunnel_ip parse_addr c.tunnel_ip) [
              | none ↦ refused
              | some ip ↦ entry key (client_config c key ip)
            ]
      ]

-- `id`, or the name where there is none.
abbrev pub agent_id_of : RegistryAgent → String
agent_id_of a = if str_eq a.id "" then a.name else a.id

abbrev pub agent_config : RegistryAgent → List ℕ → Addr → List RouteMap → PeerConfig
agent_config a key ip routes = record {
  name = if str_eq a.name "" then agent_id_of a else a.name;
  user = "";
  public_key = key;
  totp_secret = a.totp_secret;
  id = agent_id_of a;
  role = role_agent;
  tunnel_ip = ip;
  routes = routes;
  allow_agents = [];
  enabled = not (is_disabled a.enabled);
}

module _ (decode_base64 : String → Option (List ℕ)) (parse_addr : String → Option Addr)
    (parse_prefix : String → Option Prefix) where
  unfoldable pub parse_routes : List RegistryRoute → Option (List RouteMap)
  parse_routes [] = some []
  parse_routes (r ∷ rs) = elim (parse_route_map parse_prefix r.real r.virtual) [
    | none ↦ none
    | some m ↦ elim (parse_routes rs) [ none ↦ none | some ms ↦ some (m ∷ ms) ]
  ]

  -- One round of the loop of `ParseAgentRegistry`.
  unfoldable pub parse_agent : RegistryAgent → Entry
  parse_agent a = elim (parse_pub_key decode_base64 a.public_key) [
    | none ↦ refused
    | some key ↦
        if str_eq (agent_id_of a) ""
        then refused
        else elim (parse_tunnel_ip parse_addr a.tunnel_ip) [
          | none ↦ refused
          | some ip ↦ elim (parse_routes a.routes) [
            | none ↦ refused
            | some routes ↦ entry key (agent_config a key ip routes)
          ]
        ]
  ]

-- The loop over the entries, with the map so far.
module _ (hex : List ℕ → String) where
  abbrev pub add_entry : Entry → Registry → Option Registry
  add_entry skipped out = some out
  add_entry refused out = none
  add_entry (entry key pc) out = some (insert str_eq (hex key) pc out)

  unfoldable pub collect : List Entry → Registry → Option Registry
  collect [] out = some out
  collect (x ∷ xs) out = elim (add_entry x out) [ none ↦ none | some out' ↦ collect xs out' ]

module _ (decode_base64 : String → Option (List ℕ)) (hex : List ℕ → String)
    (parse_addr : String → Option Addr) where
  -- `ParseRegistry` on the clients that JSON gives; `none` is an error.
  unfoldable pub parse_registry : List RegistryClient → Option Registry
  unfolding collect
  parse_registry clients = collect hex (map (parse_client decode_base64 parse_addr) clients) []

  -- `ParseAgentRegistry`
  unfoldable pub parse_agent_registry :
      (String → Option Prefix) → List RegistryAgent → Option Registry
  parse_agent_registry parse_prefix agents =
      collect hex (map (parse_agent decode_base64 parse_addr parse_prefix) agents) []
