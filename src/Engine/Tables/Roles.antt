-- ===== src/Engine/Tables/Roles.antt =====
-- After a rebuild the routes and the agents' addresses lead to agents, the clients' addresses to
-- clients.
use selfremote.Common.{
  ℕ, ◌≡◌, refl, Bool, true, false, String, List, [], ◌∷◌, reverse, Option, none, some, All,
  All-reverse, inl, inr, Bool-cases,
}
use selfremote.Net.{Addr, Prefix, is_valid, addr_eq, prefix_eq}
use selfremote.Translate.Route.{RouteMap}
use selfremote.Engine.{Engine, PeerState, role_client, role_agent, PeerRole, is_agent, config_id}
use selfremote.Engine.Heap.{lookup, insert}
use selfremote.Engine.Tables.{
  Tally, tally, tally_peer, note_ip, Plan, plan_route, plan_routes, plan_agents, rebuild_tables,
  agent_less, longer,
}
use selfremote.Engine.Tables.Sorting.{sort_by, All-sort_by}

abbrev pub HasRole : (ℕ → PeerState) → Bool → ℕ → Type 0
HasRole heap agent p = is_agent (heap p).cfg.role ≡ agent

pub record IsRouted (e : Engine) : Type 0 where
  pub rows : All (λ r. HasRole e.heap true r.peer) e.routes
  pub agents : All (λ row. HasRole e.heap true row.1) e.agents_by_ip
  pub clients : All (λ row. HasRole e.heap false row.1) e.clients_by_ip

module _ (heap : ℕ → PeerState) where
  All-insert :
      (role : Bool) (ip : Addr) (p : ℕ) (table : List (Addr × ℕ))
      → HasRole heap role p
      → All (λ row. HasRole heap role row.1) table
      → All (λ row. HasRole heap role row.1) (insert addr_eq ip p table)
  unfolding insert
  All-insert role ip p [] h hs = (h, tt)
  All-insert role ip p ((j, q) ∷ table) h hs = elim (Bool-cases (addr_eq j ip)) [
    | inl e ↦ rw e (h, hs.1)
    | inr e ↦ rw e (hs.0, All-insert role ip p table h hs.1)
  ]

  All-note :
      (role : Bool) (ip : Addr) (p : ℕ) (table : List (Addr × ℕ))
      → HasRole heap role p
      → All (λ row. HasRole heap role row.1) table
      → All (λ row. HasRole heap role row.1) (note_ip ip p table)
  All-note role ip p table h hs = elim (Bool-cases (is_valid ip)) [
    | inl e ↦ rw e (All-insert role ip p table h hs)
    | inr e ↦ rw e hs
  ]

  record IsTallied (t : Tally) : Type 0 where
    clients : All (λ row. HasRole heap false row.1) t.by_ip
    by_agent : All (λ row. HasRole heap true row.1) t.by_agent_ip
    agents : All (HasRole heap true) t.agents

  tally_peer-IsTallied :
      (role : PeerRole) (ip : Addr) (p : ℕ) (t : Tally)
      → (heap p).cfg.role ≡ role
      → IsTallied t
      → IsTallied (tally_peer role ip p t)
  tally_peer-IsTallied role_agent ip p t e s = record {
    clients = s.clients;
    by_agent = All-note true ip p t.by_agent_ip (rw e) s.by_agent;
    agents = (rw e, s.agents);
  }
  tally_peer-IsTallied role_client ip p t e s = record {
    clients = All-note false ip p t.by_ip (rw e) s.clients;
    by_agent = s.by_agent;
    agents = s.agents;
  }

  tally-IsTallied : (ps : List (String × ℕ)) (t : Tally) → IsTallied t → IsTallied (tally heap ps t)
  unfolding tally
  tally-IsTallied [] t s = s
  tally-IsTallied ((k, p) ∷ ps) t s =
      tally-IsTallied ps (tally_peer (heap p).cfg.role (heap p).cfg.tunnel_ip p t)
        (tally_peer-IsTallied (heap p).cfg.role (heap p).cfg.tunnel_ip p t refl s)

  abbrev Rows : Plan → Type 0
  Rows plan = All (λ r. HasRole heap true r.peer) plan.entries

  plan_route-Rows :
      (id : String) (p : ℕ) (virtual : Prefix) (found : Option String) (plan : Plan)
      → HasRole heap true p
      → Rows plan
      → Rows (plan_route id p virtual found plan)
  plan_route-Rows id p virtual none plan h hs = (h, hs)
  plan_route-Rows id p virtual (some owner) plan h hs = hs

  plan_routes-Rows :
      (id : String) (p : ℕ) (ms : List RouteMap) (plan : Plan)
      → HasRole heap true p
      → Rows plan
      → Rows (plan_routes id p ms plan)
  unfolding plan_routes
  plan_routes-Rows id p [] plan h hs = hs
  plan_routes-Rows id p (m ∷ ms) plan h hs =
      let found = lookup prefix_eq m.virtual plan.seen in
      plan_routes-Rows id p ms (plan_route id p m.virtual found plan) h
        (plan_route-Rows id p m.virtual found plan h hs)

  plan_agents-Rows :
      (ps : List ℕ) (plan : Plan)
      → All (HasRole heap true) ps
      → Rows plan
      → Rows (plan_agents heap ps plan)
  unfolding plan_agents
  plan_agents-Rows [] plan h hs = hs
  plan_agents-Rows (p ∷ ps) plan h hs =
      plan_agents-Rows ps (plan_routes (config_id (heap p).cfg) p (heap p).cfg.routes plan) h.1
        (plan_routes-Rows (config_id (heap p).cfg) p (heap p).cfg.routes plan h.0 hs)

-- Whatever the peers, after a rebuild every row of the routing table and every agent address
-- leads to a peer of the agent role, every client address to one of the client role.
pub rebuild_tables-IsRouted : (e : Engine) → IsRouted (rebuild_tables e)
unfolding rebuild_tables
rebuild_tables-IsRouted e =
    let t = tally e.heap e.peers (record { by_ip = []; by_agent_ip = []; agents = [] }) in
    let s =
      tally-IsTallied e.heap e.peers (record { by_ip = []; by_agent_ip = []; agents = [] })
        (record { clients = tt; by_agent = tt; agents = tt }) in
    let order = sort_by (agent_less e.heap) (reverse t.agents) in
    let ordered =
      All-sort_by (agent_less e.heap) (HasRole e.heap true) (reverse t.agents)
        (All-reverse (HasRole e.heap true) t.agents s.agents) in
    let empty : Plan = record { entries = []; seen = []; conflicts = [] } in
    let plan = plan_agents e.heap order empty in
    record {
      rows =
          All-sort_by longer (λ r. HasRole e.heap true r.peer) (reverse plan.entries)
            (All-reverse (λ r. HasRole e.heap true r.peer) plan.entries
              (plan_agents-Rows e.heap order empty ordered tt));
      agents = s.by_agent;
      clients = s.clients;
    }
