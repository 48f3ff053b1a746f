-- ===== src/Registry/Tests.antt =====
-- A registry of one client, and a reload that revokes another.
use selfremote.Common.{ℕ, ◌≡◌, refl, false, String, List, [], ◌∷◌, Option, none, some, All}
use selfremote.Net.{Addr, Prefix, invalid}
use selfremote.Engine.{role_client, role_agent}
use selfremote.Engine.Heap.{lookup, insert}
use selfremote.Example.Heaped.{blank-IsHeaped}
use selfremote.Example.{blank, key, hex}
use selfremote.Registry.{
  Registry, RegistryClient, RegistryAgent, parse_registry, parse_agent_registry, collect,
  parse_client, parse_agent, parse_pub_key, parse_tunnel_ip, parse_routes, client_config,
  agent_config,
}
use selfremote.Registry.Apply.{apply_registry}
use selfremote.Registry.Keyed.{IsKeyed, parse_registry-IsKeyed, parse_agent_registry-IsKeyed}
use selfremote.Registry.Gone.{IsGone}
use selfremote.Registry.Revoke.{apply_registry-IsGone}

abbrev decode : String → Option (List ℕ)
decode text = some (key 3)

abbrev parse_addr : String → Option Addr
parse_addr text = none

abbrev parse_prefix : String → Option Prefix
parse_prefix text = none

abbrev client : RegistryClient
client = record {
  name = "desk";
  user = "bob";
  public_key = "AwAA";
  enabled = none;
  totp_secret = "";
  tunnel_ip = "";
  agents = [];
}

abbrev agent : RegistryAgent
agent = record {
  id = "lab";
  name = "";
  public_key = "AwAA";
  enabled = some false;
  totp_secret = "";
  tunnel_ip = "";
  routes = [];
}

abbrev registry : Registry
registry = ("k3", client_config client (key 3) invalid) ∷ []

read : parse_registry decode hex parse_addr (client ∷ []) ≡ some registry
unfolding parse_registry collect parse_client parse_pub_key parse_tunnel_ip insert
read = refl

parse_registry-IsKeyed_example : All (IsKeyed hex role_client) registry
parse_registry-IsKeyed_example =
    parse_registry-IsKeyed decode hex parse_addr (client ∷ []) registry read

abbrev agents : Registry
agents = ("k3", agent_config agent (key 3) invalid []) ∷ []

read_agents : parse_agent_registry decode hex parse_addr parse_prefix (agent ∷ []) ≡ some agents
unfolding parse_agent_registry collect parse_agent parse_pub_key parse_tunnel_ip parse_routes insert
read_agents = refl

parse_agent_registry-IsKeyed_example : All (IsKeyed hex role_agent) agents
parse_agent_registry-IsKeyed_example =
    parse_agent_registry-IsKeyed decode hex parse_addr parse_prefix (agent ∷ []) agents read_agents

-- The client of "k1" is not in the registry.
apply_registry-IsGone_example : IsGone "k1" 0 (apply_registry hex registry blank)
unfolding lookup
apply_registry-IsGone_example =
    apply_registry-IsGone hex registry blank "k1" 0 (refl, tt) blank-IsHeaped refl refl refl
