-- ===== src/Relay.antt =====
-- The server's user-space relay (internal/tunnel/relay.go): which packets a client or an agent may
-- send to whom. The peers are pointers into the engine's heap.
pub mod Fold
pub mod Icmp
pub mod Safety
pub mod Returns
pub mod Longest
pub mod Owned
pub mod Replies
pub mod Apart
pub mod Tests
use selfremote.Common.{
  ℕ, ◌+◌, ◌*◌, ◌%◌, ◌^◌, Bool, true, false, not, ◌&&◌, ◌||◌, String, List, [], ◌∷◌, Option, none,
  some, ltb, ◌==◌, if◌then◌else◌, length,
}
use selfremote.Net.{Addr, is_valid, addr_eq, contains}
use selfremote.Packet.{Parse, ok, bad, hang, IpHeader, parse_header}
use selfremote.Translate.Route.{RouteMap}
use selfremote.Engine.{
  Engine, PeerState, RouteEntry, RelayCounters, PeerRole, role_client, role_agent, config_id,
  set_peer, send_to,
}
use selfremote.Engine.Heap.{lookup}
use Fold.{equal_fold}
use Icmp.{echo_reply}

-- `p.ClientAllowed(agentID)`
unfoldable pub allows : List String → String → Bool
unfolding equal_fold
allows [] agent_id = false
allows (id ∷ ids) agent_id = equal_fold id agent_id || allows ids agent_id

unfoldable pub client_allowed : PeerState → String → Bool
unfolding allows
client_allowed p agent_id = allows p.cfg.allow_agents agent_id

unfoldable pub any_virtual : List RouteMap → Addr → Bool
any_virtual [] src = false
any_virtual (m ∷ ms) src = contains m.virtual src || any_virtual ms src

-- `p.allowsSource(src)`
unfoldable pub allows_source : PeerState → Addr → Bool
unfolding any_virtual
allows_source p src =
    is_valid p.cfg.tunnel_ip && addr_eq src p.cfg.tunnel_ip || any_virtual p.cfg.routes src

-- `routeLookupLocked`: the first row whose prefix holds the address.
unfoldable pub route_lookup : List RouteEntry → Addr → Option ℕ
route_lookup [] dst = none
route_lookup (r ∷ rs) dst = if contains r.dest dst then some r.peer else route_lookup rs dst

-- The agent a client's packet is for: by the agent's own tunnel address, else by the routes.
unfoldable pub agent_for : Engine → Addr → Option ℕ
agent_for e dst = elim (lookup addr_eq dst e.agents_by_ip) [
  | some ag ↦ some ag
  | none ↦ route_lookup e.routes dst
]

unfoldable pub is_local_addr : Engine → Addr → Bool
is_local_addr e a = is_valid e.local_addr && addr_eq a e.local_addr

-- `Enabled && cur != nil && authed`
unfoldable pub is_live : PeerState → Bool
is_live p = p.cfg.enabled && (elim p.cur [ none ↦ false | some _ ↦ true ]) && p.authed

-- A counter is an atomic uint64.
abbrev pub inc : ℕ → ℕ
inc n = (n + 1) % 2 ^ 64

-- `logDrop`: at most one line in five seconds for each peer.
unfoldable pub log_drop : Engine → ℕ → ℕ → Engine
unfolding set_peer
log_drop e p now =
    let st = e.heap p in
    let quiet = not (st.drop_at == 0) && ltb now (st.drop_at + 5 * 10 ^ 9) in
    if quiet then e else set_peer e p (record st { drop_at = now })

pub data Drop : Type 0 where
  spoofs no_routes denials offlines malformations : Drop

unfoldable pub count_drop : Drop → RelayCounters → RelayCounters
count_drop spoofs c = record c { spoofed = inc c.spoofed }
count_drop no_routes c = record c { no_route = inc c.no_route }
count_drop denials c = record c { denied = inc c.denied }
count_drop offlines c = record c { offline = inc c.offline }
count_drop malformations c = record c { malformed = inc c.malformed }

-- A dropped packet: the counter of its reason, and the log.
unfoldable pub drop_packet : Engine → ℕ → ℕ → Drop → Engine
unfolding log_drop count_drop
drop_packet e p now why = log_drop (record e { relay = count_drop why e.relay }) p now

module _ (can_seal : ℕ → Bool) where
  -- `replyLocalICMP`
  unfoldable pub reply_local_icmp : Engine → ℕ → ℕ → List ℕ → IpHeader → Engine × Bool
  reply_local_icmp e p now pkt h = elim (echo_reply pkt h) [
    | none ↦ (e, false)
    | some reply ↦ ((send_to can_seal e p now reply).0, true)
  ]

  -- The delivery of a client's packet to the agent found, and its counters.
  unfoldable pub to_agent : Engine → ℕ → ℕ → List ℕ → Engine
  to_agent e ag now pkt =
      let (e', sent) = send_to can_seal e ag now pkt in
      if sent
      then record e' {
        relay = record e'.relay {
          forwarded = inc e'.relay.forwarded;
          to_agents = inc e'.relay.to_agents;
        };
      }
      else e'

  unfoldable pub to_client : Engine → ℕ → ℕ → List ℕ → Engine
  to_client e cl now pkt =
      let (e', sent) = send_to can_seal e cl now pkt in
      if sent
      then record e' {
        relay = record e'.relay {
          forwarded = inc e'.relay.forwarded;
          to_clients = inc e'.relay.to_clients;
        };
      }
      else e'

  unfoldable pub relay_from_client : Engine → ℕ → ℕ → List ℕ → IpHeader → Engine
  relay_from_client e p now pkt h =
      let st = e.heap p in
      if not (is_valid st.cfg.tunnel_ip) || not (addr_eq h.src st.cfg.tunnel_ip)
      then drop_packet e p now spoofs
      else if is_local_addr e h.dst
      then (let (e', answered) = reply_local_icmp e p now pkt h in
          if answered
          then record e' { relay = record e'.relay { local_icmp = inc e'.relay.local_icmp } }
          else e')
      else elim (agent_for e h.dst) [
        | none ↦ drop_packet e p now no_routes
        | some ag ↦
            if not (client_allowed st (config_id (e.heap ag).cfg))
            then drop_packet e p now denials
            else if not (is_live (e.heap ag))
            then drop_packet e p now offlines
            else to_agent e ag now pkt
      ]

  unfoldable pub relay_from_agent : Engine → ℕ → ℕ → List ℕ → IpHeader → Engine
  relay_from_agent e p now pkt h =
      let st = e.heap p in
      if not (allows_source st h.src)
      then drop_packet e p now spoofs
      else elim (lookup addr_eq h.dst e.clients_by_ip) [
        | none ↦ drop_packet e p now no_routes
        | some cl ↦
            if not (client_allowed (e.heap cl) (config_id st.cfg))
            then drop_packet e p now denials
            else if not (is_live (e.heap cl))
            then drop_packet e p now offlines
            else to_client e cl now pkt
      ]

  abbrev pub relay_parsed : Engine → ℕ → ℕ → List ℕ → IpHeader → PeerRole → Engine
  relay_parsed e p now pkt h role_agent = relay_from_agent e p now pkt h
  relay_parsed e p now pkt h role_client = relay_from_client e p now pkt h

  abbrev pub relay_outcome : Engine → ℕ → ℕ → List ℕ → Parse IpHeader → Parse Engine
  relay_outcome e p now pkt bad = ok (drop_packet e p now malformations)
  relay_outcome e p now pkt hang = hang
  relay_outcome e p now pkt (ok h) = ok (relay_parsed e p now pkt h (e.heap p).cfg.role)

  -- `relayFromPeer`; `hang` where the parse of the packet does not end.
  unfoldable pub relay_from_peer : ℕ → Engine → ℕ → ℕ → List ℕ → Parse Engine
  relay_from_peer fuel e p now pkt = relay_outcome e p now pkt (parse_header fuel pkt)
