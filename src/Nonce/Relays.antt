-- ===== src/Nonce/Relays.antt =====
-- The relay (internal/tunnel/relay.go) and the nonces in use.
use selfremote.Common.{
  ℕ, refl, Bool, true, false, List, if◌then◌else◌, if_cases, option_cases, arith, Option-cases, inl,
  inr,
}
use selfremote.Net.{addr_eq}
use selfremote.Packet.{Parse, ok, bad, hang, IpHeader, parse_header}
use selfremote.Engine.{Engine, PeerRole, role_client, role_agent, send_to, RelayCounters}
use selfremote.Engine.Heap.{lookup}
use selfremote.Tick.Steps.{Pending}
use selfremote.Relay.{
  agent_for, inc, log_drop, Drop, spoofs, no_routes, denials, offlines, malformations, count_drop,
  drop_packet, reply_local_icmp, to_agent, to_client, relay_from_client, relay_from_agent,
  relay_parsed, relay_outcome, relay_from_peer,
}
use selfremote.Relay.Icmp.{echo_reply}
use selfremote.Nonce.Send.{Clean, Limited, touch-Clean, same-Clean, send_to-Clean}

-- What holds of the engine that a handler ends with, where the parse of the packet ends.
abbrev pub Ends : (Engine → Type 0) → Parse Engine → Type 0
Ends P (ok e) = P e
Ends P bad = Unit
Ends P hang = Unit

module _ (pend : List Pending) where
  drop_packet-Clean :
      (e : Engine) (p now : ℕ) (why : Drop) → Clean pend e → Clean pend (drop_packet e p now why)
  unfolding drop_packet log_drop
  drop_packet-Clean e p now why h =
      let counted = record e { relay = count_drop why e.relay } in
      let aside = same-Clean pend e counted refl refl in
      if_cases (Clean pend) _ counted _ (λ quiet. aside h)
        (λ loud. touch-Clean pend counted p (record (e.heap p) { drop_at = now }) refl (aside h))

module _ (can_seal : ℕ → Bool) (limited : Limited can_seal) (pend : List Pending) where
  reply_local_icmp-Clean :
      (e : Engine) (p now : ℕ) (pkt : List ℕ) (h : IpHeader)
      → Clean pend e
      → Clean pend (reply_local_icmp can_seal e p now pkt h).0
  unfolding reply_local_icmp
  reply_local_icmp-Clean e p now pkt h c =
      option_cases (λ (r : Engine × Bool). Clean pend r.0) (echo_reply pkt h) (e, false)
        (λ reply. ((send_to can_seal e p now reply).0, true)) (λ gone. c)
        (λ reply made. send_to-Clean can_seal limited pend e p now reply c)

  answered-Clean :
      (r : Engine × Bool)
      → Clean pend r.0
      → Clean pend (
          if r.1
          then record r.0 { relay = record r.0.relay { local_icmp = inc r.0.relay.local_icmp } }
          else r.0)
  answered-Clean (e, true) c = same-Clean pend e _ refl refl c
  answered-Clean (e, false) c = c

  counted-Clean :
      (r : Engine × Bool) (f : RelayCounters → RelayCounters)
      → Clean pend r.0
      → Clean pend (if r.1 then record r.0 { relay = f r.0.relay } else r.0)
  counted-Clean (e, true) f c = same-Clean pend e _ refl refl c
  counted-Clean (e, false) f c = c

  to_agent-Clean :
      (e : Engine) (ag now : ℕ) (pkt : List ℕ)
      → Clean pend e
      → Clean pend (to_agent can_seal e ag now pkt)
  unfolding to_agent
  to_agent-Clean e ag now pkt c =
      counted-Clean (send_to can_seal e ag now pkt)
        (λ r. record r { forwarded = inc r.forwarded; to_agents = inc r.to_agents })
        (send_to-Clean can_seal limited pend e ag now pkt c)

  to_client-Clean :
      (e : Engine) (cl now : ℕ) (pkt : List ℕ)
      → Clean pend e
      → Clean pend (to_client can_seal e cl now pkt)
  unfolding to_client
  to_client-Clean e cl now pkt c =
      counted-Clean (send_to can_seal e cl now pkt)
        (λ r. record r { forwarded = inc r.forwarded; to_clients = inc r.to_clients })
        (send_to-Clean can_seal limited pend e cl now pkt c)

  relay_from_client-Clean :
      (e : Engine) (p now : ℕ) (pkt : List ℕ) (h : IpHeader)
      → Clean pend e
      → Clean pend (relay_from_client can_seal e p now pkt h)
  unfolding relay_from_client
  relay_from_client-Clean e p now pkt h c =
      let away = λ (why : Drop). drop_packet-Clean pend e p now why c in
      let given = λ (ag : ℕ). to_agent-Clean e ag now pkt c in
      let here =
        answered-Clean (reply_local_icmp can_seal e p now pkt h)
          (reply_local_icmp-Clean e p now pkt h c) in
      elim (Option-cases (agent_for e h.dst)) [
        | inl gone ↦ ground (arith, here, away spoofs, away no_routes)
        | inr (ag, found) ↦
            ground (arith, here, found, away spoofs, away denials, away offlines, given ag)
      ]

  relay_from_agent-Clean :
      (e : Engine) (p now : ℕ) (pkt : List ℕ) (h : IpHeader)
      → Clean pend e
      → Clean pend (relay_from_agent can_seal e p now pkt h)
  unfolding relay_from_agent
  relay_from_agent-Clean e p now pkt h c =
      let away = λ (why : Drop). drop_packet-Clean pend e p now why c in
      let given = λ (cl : ℕ). to_client-Clean e cl now pkt c in
      elim (Option-cases (lookup addr_eq h.dst e.clients_by_ip)) [
        | inl gone ↦ ground (arith, away spoofs, away no_routes)
        | inr (cl, found) ↦
            ground (arith, found, away spoofs, away denials, away offlines, given cl)
      ]

  relay_parsed-Clean :
      (e : Engine) (p now : ℕ) (pkt : List ℕ) (h : IpHeader) (role : PeerRole)
      → Clean pend e
      → Clean pend (relay_parsed can_seal e p now pkt h role)
  relay_parsed-Clean e p now pkt h role_agent c = relay_from_agent-Clean e p now pkt h c
  relay_parsed-Clean e p now pkt h role_client c = relay_from_client-Clean e p now pkt h c

  relay_outcome-Clean :
      (e : Engine) (p now : ℕ) (pkt : List ℕ) (parsed : Parse IpHeader)
      → Clean pend e
      → Ends (Clean pend) (relay_outcome can_seal e p now pkt parsed)
  relay_outcome-Clean e p now pkt bad c = drop_packet-Clean pend e p now malformations c
  relay_outcome-Clean e p now pkt hang c = tt
  relay_outcome-Clean e p now pkt (ok h) c = relay_parsed-Clean e p now pkt h (e.heap p).cfg.role c

  pub relay_from_peer-Clean :
      (fuel : ℕ) (e : Engine) (p now : ℕ) (pkt : List ℕ)
      → Clean pend e
      → Ends (Clean pend) (relay_from_peer can_seal fuel e p now pkt)
  unfolding relay_from_peer
  relay_from_peer-Clean fuel e p now pkt c =
      relay_outcome-Clean e p now pkt (parse_header fuel pkt) c
