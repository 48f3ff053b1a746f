-- ===== src/Relay/Tests.antt =====
-- A server with one client and one site behind an agent, and the relay's theorems at it.
use selfremote.Common.{ℕ, ◌≡◌, ◌⊎◌, refl, subst, true, ◌++◌, arith, List, [], ◌∷◌, some}
use selfremote.Net.{v4, is_valid, addr_eq, contains}
use selfremote.Net.Bytes.{match_bits}
use selfremote.Engine.Heap.{lookup, insert}
use selfremote.Relay.Fold.{equal_fold}
use selfremote.Packet.{IpHeader, v4_header, parse_header}
use selfremote.Packet.Tests.{datagram}
use selfremote.Engine.{Engine, Sent, frame_of, frame_data, send_to, seal_on, set_peer, config_id}
use selfremote.Engine.Tables.{rebuild_tables, tally, plan_agents, plan_routes}
use selfremote.Engine.Tables.Roles.{IsRouted, rebuild_tables-IsRouted}
use selfremote.Engine.Tables.Sorting.{sort_by, sort_into, insert_by}
use selfremote.Relay.{
  is_local_addr, agent_for, client_allowed, allows, is_live, to_agent, relay_from_client,
  relay_from_agent, relay_from_peer, route_lookup,
}
use selfremote.Relay.Safety.{SendsAtMost, IsGranted, IsDelivery, IsEcho, relay_from_client-safe}
use selfremote.Relay.Returns.{IsReturn, relay_from_agent-safe}
use selfremote.Relay.Longest.{IsAnswer, route_lookup-IsAnswer}
use selfremote.Example.{blank, sealable, session}
use selfremote.Relay.Replies.{IsSent, CanSeal, relay_from_agent-IsSent}
use selfremote.Relay.Apart.{StaysApart, relay_from_peer-apart}

abbrev hub : Engine
hub = rebuild_tables blank

rebuild_tables-IsRouted_example : IsRouted hub
rebuild_tables-IsRouted_example = rebuild_tables-IsRouted blank

abbrev ping_header : IpHeader
ping_header = v4_header datagram 20

-- The client's packet is delivered: one frame, for the agent, and counted.
delivered : (relay_from_client sealable hub 0 5 datagram ping_header).relay.to_agents ≡ 1
unfolding relay_from_client rebuild_tables tally plan_agents plan_routes route_lookup sort_by
    sort_into insert_by send_to seal_on set_peer config_id is_valid addr_eq is_local_addr agent_for
    lookup insert contains match_bits client_allowed allows equal_fold is_live to_agent
delivered = refl

relay_from_client-safe_example :
    SendsAtMost
      (λ f.
        ((q : ℕ) × IsGranted hub 0 ping_header q × IsDelivery hub q datagram f)
        ⊎ IsEcho hub 0 datagram ping_header f)
      hub
      (relay_from_client sealable hub 0 5 datagram ping_header)
relay_from_client-safe_example = relay_from_client-safe sealable hub 0 5 datagram ping_header

-- The same datagram back: from the site to the client.
abbrev answer : List ℕ
answer = 0x45 ∷ 0 ∷ 0 ∷ 20 ∷ 0 ∷ 0 ∷ 0 ∷ 0 ∷ 64 ∷ 17 ∷ 0 ∷ 0 ∷ 10 ∷ 0 ∷ 0 ∷ 2 ∷ 10 ∷ 0 ∷ 0 ∷ 1 ∷ []

abbrev answer_header : IpHeader
answer_header = v4_header answer 20

relay_from_agent-safe_example :
    SendsAtMost
      (λ f. (q : ℕ) × IsReturn hub 1 answer_header q × IsDelivery hub q answer f)
      hub
      (relay_from_agent sealable hub 1 5 answer answer_header)
relay_from_agent-safe_example = relay_from_agent-safe sealable hub 1 5 answer answer_header

relay_from_peer-apart_example :
    SendsAtMost (StaysApart hub 1) hub (relay_from_agent sealable hub 1 5 answer answer_header)
relay_from_peer-apart_example =
    relay_from_peer-apart sealable 0 hub (relay_from_agent sealable hub 1 5 answer answer_header) 1
      5 answer (rebuild_tables-IsRouted blank)
      (unfold relay_from_peer parse_header rebuild_tables in refl)

route_lookup-IsAnswer_example :
    IsAnswer hub.routes
      (v4 (10 ∷ 0 ∷ 0 ∷ 2 ∷ []))
      (route_lookup hub.routes (v4 (10 ∷ 0 ∷ 0 ∷ 2 ∷ [])))
route_lookup-IsAnswer_example = route_lookup-IsAnswer blank (v4 (10 ∷ 0 ∷ 0 ∷ 2 ∷ []))

found_site : route_lookup hub.routes (v4 (10 ∷ 0 ∷ 0 ∷ 2 ∷ [])) ≡ some 1
unfolding rebuild_tables tally plan_agents plan_routes route_lookup sort_by sort_into insert_by
    config_id lookup contains match_bits
found_site = refl

-- The frame that carries the client's packet.
abbrev carried : Sent
carried = frame_of hub 1 session frame_data datagram

carried_on :
    (relay_from_client sealable hub 0 5 datagram ping_header).sent ≡ hub.sent ++ (carried ∷ [])
unfolding relay_from_client rebuild_tables tally plan_agents plan_routes route_lookup sort_by
    sort_into insert_by send_to seal_on set_peer config_id is_valid addr_eq is_local_addr agent_for
    lookup insert contains match_bits client_allowed allows equal_fold is_live to_agent
carried_on = refl

client_found : lookup addr_eq ping_header.src hub.clients_by_ip ≡ some 0
unfolding rebuild_tables tally lookup insert is_valid addr_eq
client_found = refl

can_answer : CanSeal sealable (blank.heap 0)
can_answer s cur =
    let same : session ≡ s = cc in subst (λ x. sealable x.send_nonce ≡ true) same refl

relay_from_agent-IsSent_example :
    IsSent (relay_from_client sealable hub 0 5 datagram ping_header) 0 answer (
      relay_from_agent sealable
        (relay_from_client sealable hub 0 5 datagram ping_header)
        1
        6
        answer
        answer_header)
unfolding is_live
relay_from_agent-IsSent_example =
    relay_from_agent-IsSent sealable blank 0 5 6 datagram answer ping_header answer_header carried
      carried_on (λ e. omega (arith, e)) refl refl client_found refl can_answer
