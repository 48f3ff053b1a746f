-- ===== src/Engine/Tables.antt =====
-- The server's lookup tables (internal/tunnel/relay.go, `rebuildTablesLocked`), built anew from the
-- peers in the order in which the map is walked.
pub mod Sorting
pub mod Roles
use selfremote.Common.{
  ℕ, Bool, String, List, [], ◌∷◌, reverse, Option, none, some, ltb, if◌then◌else◌,
}
use selfremote.Common.Text.{str_less}
use selfremote.Net.{Addr, Prefix, is_valid, addr_eq, prefix_eq}
use selfremote.Translate.Route.{RouteMap}
use selfremote.Engine.{
  Engine, PeerState, RouteEntry, role_client, role_agent, PeerRole, config_id, is_agent,
}
use selfremote.Engine.Heap.{lookup, insert}
use Sorting.{sort_by}

-- The first loop: both address tables, and the agents.
pub record Tally : Type 0 where
  pub by_ip : List (Addr × ℕ)
  pub by_agent_ip : List (Addr × ℕ)
  pub agents : List ℕ

abbrev pub note_ip : Addr → ℕ → List (Addr × ℕ) → List (Addr × ℕ)
note_ip ip p table = if is_valid ip then insert addr_eq ip p table else table

abbrev pub tally_peer : PeerRole → Addr → ℕ → Tally → Tally
tally_peer role_agent ip p t = record t {
  by_agent_ip = note_ip ip p t.by_agent_ip;
  agents = p ∷ t.agents;
}
tally_peer role_client ip p t = record t { by_ip = note_ip ip p t.by_ip }

unfoldable pub tally : (ℕ → PeerState) → List (String × ℕ) → Tally → Tally
tally heap [] t = t
tally heap ((k, p) ∷ ps) t = tally heap ps (tally_peer (heap p).cfg.role (heap p).cfg.tunnel_ip p t)

-- The table of the second loop: entries, seen prefixes with their owners, conflicts.
pub record Plan : Type 0 where
  pub entries : List RouteEntry
  pub seen : List (Prefix × String)
  pub conflicts : List (String × String × Prefix)

-- `if owner, dup := seen[m.Virtual]; dup`
abbrev pub plan_route : String → ℕ → Prefix → Option String → Plan → Plan
plan_route id p virtual (some owner) plan = record plan {
  conflicts = (id, owner, virtual) ∷ plan.conflicts;
}
plan_route id p virtual none plan = record plan {
  entries = (record { dest = virtual; peer = p }) ∷ plan.entries;
  seen = insert prefix_eq virtual id plan.seen;
}

unfoldable pub plan_routes : String → ℕ → List RouteMap → Plan → Plan
plan_routes id p [] plan = plan
plan_routes id p (m ∷ ms) plan =
    plan_routes id p ms (plan_route id p m.virtual (lookup prefix_eq m.virtual plan.seen) plan)

unfoldable pub plan_agents : (ℕ → PeerState) → List ℕ → Plan → Plan
unfolding plan_routes
plan_agents heap [] plan = plan
plan_agents heap (p ∷ ps) plan =
    plan_agents heap ps (plan_routes (config_id (heap p).cfg) p (heap p).cfg.routes plan)

-- `agents[i].cfg.id() < agents[j].cfg.id()`
abbrev pub agent_less : (ℕ → PeerState) → ℕ → ℕ → Bool
agent_less heap p q = str_less (config_id (heap p).cfg) (config_id (heap q).cfg)

-- `entries[i].prefix.Bits() > entries[j].prefix.Bits()`
abbrev pub longer : RouteEntry → RouteEntry → Bool
longer r s = ltb s.dest.bits r.dest.bits

-- The accumulators are built in reverse.
unfoldable pub rebuild_tables : Engine → Engine
unfolding tally plan_agents
rebuild_tables e =
    let t = tally e.heap e.peers (record { by_ip = []; by_agent_ip = []; agents = [] }) in
    let agents = sort_by (agent_less e.heap) (reverse t.agents) in
    let plan = plan_agents e.heap agents (record { entries = []; seen = []; conflicts = [] }) in
    record e {
      routes = sort_by longer (reverse plan.entries);
      clients_by_ip = t.by_ip;
      agents_by_ip = t.by_agent_ip;
      conflicts = reverse plan.conflicts;
    }
