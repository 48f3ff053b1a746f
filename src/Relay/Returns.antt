-- ===== src/Relay/Returns.antt =====
-- What the relay lets through from a site: only from the site's own addresses, and only to clients
-- whose access list names it.
use selfremote.Common.{
  ℕ, ◌≡◌, ◌⊎◌, inl, inr, ap, ◌∙◌, Bool, true, List, some, arith, Option-cases, Bool-cases,
}
use selfremote.Net.{addr_eq}
use selfremote.Packet.{IpHeader}
use selfremote.Engine.{Engine, config_id}
use selfremote.Engine.Heap.{lookup}
use selfremote.Relay.{
  Drop, spoofs, no_routes, denials, offlines, drop_packet, client_allowed, allows_source, is_live,
  to_client, relay_from_agent,
}
use selfremote.Relay.Safety.{SendsAtMost, IsDelivery, sent-drop, to_client-sends}

-- Why an agent's packet may reach a client.
pub record IsReturn (e : Engine) (p : ℕ) (h : IpHeader) (q : ℕ) : Type 0 where
  pub own_source : allows_source (e.heap p) h.src ≡ true
  pub target : lookup addr_eq h.dst e.clients_by_ip ≡ some q
  pub listed : client_allowed (e.heap q) (config_id (e.heap p).cfg) ≡ true
  pub live : is_live (e.heap q) ≡ true

module _ (can_seal : ℕ → Bool) (e : Engine) (p now : ℕ) (pkt : List ℕ) (h : IpHeader) where
  agent_cases :
      ((why : Drop) × (relay_from_agent can_seal e p now pkt h ≡ drop_packet e p now why))
      ⊎ ((q : ℕ) × IsReturn e p h q
          × (relay_from_agent can_seal e p now pkt h ≡ to_client can_seal e q now pkt))
  unfolding relay_from_agent
  agent_cases = elim (Bool-cases (allows_source (e.heap p) h.src)) [
    | inr foreign ↦ inl (spoofs, ground arith)
    | inl source ↦ elim (Option-cases (lookup addr_eq h.dst e.clients_by_ip)) [
      | inl nobody ↦ inl (no_routes, ground arith)
      | inr (q, target) ↦ elim (Bool-cases (client_allowed (e.heap q) (config_id (e.heap p).cfg))) [
        | inr unlisted ↦ inl (denials, ground arith)
        | inl listed ↦ elim (Bool-cases (is_live (e.heap q))) [
          | inr dead ↦ inl (offlines, ground arith)
          | inl live ↦ inr (
            q,
            record { own_source = source; target = target; listed = listed; live = live },
            ground arith,
          )
        ]
      ]
    ]
  ]

  -- An agent's packet makes the server send at most one frame: the packet itself, to a live client
  -- whose tunnel address is its destination and whose access list names the agent, and its source
  -- is the agent's own tunnel address or in a prefix that the agent publishes.
  pub relay_from_agent-safe :
      SendsAtMost
        (λ f. (q : ℕ) × IsReturn e p h q × IsDelivery e q pkt f)
        e
        (relay_from_agent can_seal e p now pkt h)
  relay_from_agent-safe = elim agent_cases [
    | inl (why, dropped) ↦ inl (ap (λ r. r.sent) dropped ∙ sent-drop e p now why)
    | inr (q, granted, delivered) ↦ elim (to_client-sends can_seal e q now pkt) [
      | inl silent ↦ inl (ap (λ r. r.sent) delivered ∙ silent)
      | inr (f, delivery, sent) ↦ inr (f, (q, granted, delivery), ap (λ r. r.sent) delivered ∙ sent)
    ]
  ]
