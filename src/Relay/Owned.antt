-- ===== src/Relay/Owned.antt =====
-- After a rebuild the tables lead to an agent only from addresses that it may send from.
use selfremote.Common.{
  ℕ, ◌≡◌, refl, subst, sym, ap, ◌∙◌, true, String, List, [], ◌∷◌, reverse, Option, none, some, All,
  All-reverse, All-weaken, inl, inr, arith, Bool-cases, Option-cases,
}
use selfremote.Net.{Addr, Prefix, contains, is_valid, addr_eq, prefix_eq}
use selfremote.Net.Laws.{eq_of_addr_eq, addr_eq_refl}
use selfremote.Translate.Route.{RouteMap}
use selfremote.Engine.{Engine, PeerState, RouteEntry, role_client, role_agent, PeerRole, config_id}
use selfremote.Engine.Heap.{lookup, insert}
use selfremote.Engine.Tables.{
  Tally, tally, tally_peer, Plan, plan_route, plan_routes, plan_agents, rebuild_tables, agent_less,
  longer,
}
use selfremote.Engine.Tables.Sorting.{sort_by, All-sort_by}
use selfremote.Relay.{any_virtual, allows_source, route_lookup, agent_for}

module _ (heap : ℕ → PeerState) where
  -- A row of the addresses is of the peer's own address.
  abbrev IsOwn : Addr × ℕ → Type 0
  IsOwn row = (row.0 ≡ (heap row.1).cfg.tunnel_ip) × (is_valid row.0 ≡ true)

  -- The peer has the prefix among its own.
  abbrev Has : ℕ → Prefix → Type 0
  Has p prefix = (a : Addr) → contains prefix a ≡ true → any_virtual (heap p).cfg.routes a ≡ true

  abbrev Rows : Plan → Type 0
  Rows plan = All (λ r. Has r.peer r.dest) plan.entries

  insert-IsOwn :
      (ip : Addr) (p : ℕ) (table : List (Addr × ℕ))
      → IsOwn (ip, p)
      → All IsOwn table
      → All IsOwn (insert addr_eq ip p table)
  unfolding insert
  insert-IsOwn ip p [] h hs = (h, tt)
  insert-IsOwn ip p ((j, q) ∷ table) h hs = elim (Bool-cases (addr_eq j ip)) [
    | inl e ↦
        let same : j ≡ ip = eq_of_addr_eq j ip e in
        rw e (subst (λ x. IsOwn (x, p)) (sym same) h, hs.1)
    | inr e ↦ rw e (hs.0, insert-IsOwn ip p table h hs.1)
  ]

  tally_peer-IsOwn :
      (role : PeerRole) (p : ℕ) (t : Tally)
      → All IsOwn t.by_agent_ip
      → All IsOwn (tally_peer role (heap p).cfg.tunnel_ip p t).by_agent_ip
  tally_peer-IsOwn role_client p t h = h
  tally_peer-IsOwn role_agent p t h = elim (Bool-cases (is_valid (heap p).cfg.tunnel_ip)) [
    | inl valid ↦ rw valid (insert-IsOwn (heap p).cfg.tunnel_ip p t.by_agent_ip (refl, valid) h)
    | inr unset ↦ rw unset h
  ]

  tally-IsOwn :
      (ps : List (String × ℕ)) (t : Tally)
      → All IsOwn t.by_agent_ip
      → All IsOwn (tally heap ps t).by_agent_ip
  unfolding tally
  tally-IsOwn [] t h = h
  tally-IsOwn ((k, p) ∷ ps) t h =
      tally-IsOwn ps (tally_peer (heap p).cfg.role (heap p).cfg.tunnel_ip p t)
        (tally_peer-IsOwn (heap p).cfg.role p t h)

  plan_route-Has :
      (id : String) (p : ℕ) (virtual : Prefix) (found : Option String) (plan : Plan)
      → Has p virtual
      → Rows plan
      → Rows (plan_route id p virtual found plan)
  plan_route-Has id p virtual none plan h hs = (h, hs)
  plan_route-Has id p virtual (some owner) plan h hs = hs

  plan_routes-Has :
      (id : String) (p : ℕ) (ms : List RouteMap) (plan : Plan)
      → All (λ m. Has p m.virtual) ms
      → Rows plan
      → Rows (plan_routes id p ms plan)
  unfolding plan_routes
  plan_routes-Has id p [] plan h hs = hs
  plan_routes-Has id p (m ∷ ms) plan h hs =
      let found = lookup prefix_eq m.virtual plan.seen in
      plan_routes-Has id p ms (plan_route id p m.virtual found plan) h.1
        (plan_route-Has id p m.virtual found plan h.0 hs)

  all_virtual :
      (ms : List RouteMap)
      → All (λ m. (a : Addr) → contains m.virtual a ≡ true → any_virtual ms a ≡ true) ms
  unfolding any_virtual
  all_virtual [] = tt
  all_virtual (m ∷ ms) = (
    λ a there. ground (arith, there),
    All-weaken (λ n own a there. ground (arith, own a there)) ms (all_virtual ms),
  )

  plan_agents-Has : (ps : List ℕ) (plan : Plan) → Rows plan → Rows (plan_agents heap ps plan)
  unfolding plan_agents
  plan_agents-Has [] plan hs = hs
  plan_agents-Has (p ∷ ps) plan hs =
      plan_agents-Has ps (plan_routes (config_id (heap p).cfg) p (heap p).cfg.routes plan) (
        plan_routes-Has (config_id (heap p).cfg) p (heap p).cfg.routes plan
          (all_virtual (heap p).cfg.routes) hs)

  lookup-allowed :
      (dst : Addr) (q : ℕ) (table : List (Addr × ℕ))
      → All IsOwn table
      → lookup addr_eq dst table ≡ some q
      → allows_source (heap q) dst ≡ true
  unfolding lookup allows_source
  lookup-allowed dst q [] h e = cc
  lookup-allowed dst q ((j, p) ∷ table) h e = elim (Bool-cases (addr_eq j dst)) [
    | inl here ↦
        let same : p ≡ q = ground (arith, here) in
        let ip : (heap q).cfg.tunnel_ip ≡ dst =
          ap (λ x. (heap x).cfg.tunnel_ip) (sym same) ∙ (sym h.0.0 ∙ eq_of_addr_eq j dst here) in
        let valid : is_valid (heap q).cfg.tunnel_ip ≡ true =
          ap is_valid (ap (λ x. (heap x).cfg.tunnel_ip) (sym same) ∙ sym h.0.0) ∙ h.0.1 in
        let own : addr_eq dst (heap q).cfg.tunnel_ip ≡ true =
          subst (λ x. addr_eq dst x ≡ true) (sym ip) (addr_eq_refl dst) in
        ground (arith, valid, own)
    | inr away ↦ lookup-allowed dst q table h.1 (ground (arith, away))
  ]

  route-allowed :
      (dst : Addr) (q : ℕ) (rows : List RouteEntry)
      → All (λ r. Has r.peer r.dest) rows
      → route_lookup rows dst ≡ some q
      → allows_source (heap q) dst ≡ true
  unfolding route_lookup allows_source
  route-allowed dst q [] h e = cc
  route-allowed dst q (r ∷ rows) h e = elim (Bool-cases (contains r.dest dst)) [
    | inl here ↦
        let same : r.peer ≡ q = ground (arith, here) in
        let own : any_virtual (heap q).cfg.routes dst ≡ true =
          subst (λ x. any_virtual (heap x).cfg.routes dst ≡ true) same (h.0 dst here) in
        ground (arith, own)
    | inr away ↦ route-allowed dst q rows h.1 (ground (arith, away))
  ]

-- The agent that a rebuilt table finds for an address may send from it.
pub agent_for-allowed :
    (e : Engine) (dst : Addr) (q : ℕ)
    → agent_for (rebuild_tables e) dst ≡ some q
    → allows_source (e.heap q) dst ≡ true
unfolding agent_for rebuild_tables
agent_for-allowed e dst q found =
    let start : Tally = record { by_ip = []; by_agent_ip = []; agents = [] } in
    let t = tally e.heap e.peers start in
    let order = sort_by (agent_less e.heap) (reverse t.agents) in
    let empty : Plan = record { entries = []; seen = []; conflicts = [] } in
    let plan = plan_agents e.heap order empty in
    let rows =
      All-sort_by longer (λ r. Has e.heap r.peer r.dest) (reverse plan.entries)
        (All-reverse (λ r. Has e.heap r.peer r.dest) plan.entries
          (plan_agents-Has e.heap order empty tt)) in
    elim (Option-cases (lookup addr_eq dst t.by_agent_ip)) [
      | inl nobody ↦
          route-allowed e.heap dst q (sort_by longer (reverse plan.entries)) rows
            (ground (arith, nobody))
      | inr (ag, at) ↦
          let same : ag ≡ q = ground (arith, at) in
          subst (λ x. allows_source (e.heap x) dst ≡ true) same
            (lookup-allowed e.heap dst ag t.by_agent_ip (tally-IsOwn e.heap e.peers start tt) at)
    ]
