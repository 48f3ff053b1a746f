-- ===== src/Relay/Safety.antt =====
-- What the relay lets through: anti-spoofing, the access list, and only live peers.
use selfremote.Common.{
  ℕ, ◌≡◌, ◌⊎◌, inl, inr, refl, ap, ◌∙◌, Bool, true, false, List, [], ◌∷◌, ◌++◌, some, arith,
  Option-cases, Bool-cases,
}
use selfremote.Net.{is_valid, addr_eq}
use selfremote.Net.Laws.{eq_of_addr_eq}
use selfremote.Packet.{IpHeader}
use selfremote.Engine.{Engine, Session, Sent, frame_of, config_id, send_to, frame_data}
use selfremote.Relay.{
  Drop, drop_packet, client_allowed, agent_for, is_local_addr, is_live, reply_local_icmp, to_agent,
  to_client, relay_from_client, spoofs, no_routes, denials, offlines,
}
use selfremote.Relay.Icmp.{echo_reply}

-- A frame of IP data for peer `q`, sealed by the session it had, which was authenticated.
pub record IsDelivery (e : Engine) (q : ℕ) (pkt : List ℕ) (f : Sent) : Type 0 where
  pub session : Session
  pub current : (e.heap q).cur ≡ some session
  pub authed : (e.heap q).authed ≡ true
  pub frame : f ≡ frame_of e q session frame_data pkt

-- Nothing is sent, or one frame of which `P` holds.
abbrev pub SendsAtMost : (Sent → Type 0) → Engine → Engine → Type 0
SendsAtMost P e e' = (e'.sent ≡ e.sent) ⊎ ((f : Sent) × P f × (e'.sent ≡ e.sent ++ (f ∷ [])))

-- Why a client's packet may reach a peer: its source is the client's own tunnel address, the peer
-- is the agent its destination leads to, the client's access list names it, and it is live.
pub record IsGranted (e : Engine) (p : ℕ) (h : IpHeader) (q : ℕ) : Type 0 where
  pub own_source : h.src ≡ (e.heap p).cfg.tunnel_ip
  pub valid_source : is_valid h.src ≡ true
  pub target : agent_for e h.dst ≡ some q
  pub listed : client_allowed (e.heap p) (config_id (e.heap q).cfg) ≡ true
  pub live : is_live (e.heap q) ≡ true

-- The answer to a ping of the server itself goes back to the client that sent it.
pub record IsEcho (e : Engine) (p : ℕ) (pkt : List ℕ) (h : IpHeader) (f : Sent) : Type 0 where
  pub own_source : h.src ≡ (e.heap p).cfg.tunnel_ip
  pub to_server : is_local_addr e h.dst ≡ true
  pub reply : List ℕ
  pub answers : echo_reply pkt h ≡ some reply
  pub back : IsDelivery e p reply f

pub sent-drop : (e : Engine) (p now : ℕ) (why : Drop) → (drop_packet e p now why).sent ≡ e.sent
unfolding drop_packet
sent-drop e p now why = ground arith

module _ (can_seal : ℕ → Bool) (e : Engine) (q now : ℕ) (pkt : List ℕ) where
  -- The two ways of `sendTo`.
  pub send_to_cases :
      (send_to can_seal e q now pkt ≡ (e, false))
      ⊎ ((f : Sent) × IsDelivery e q pkt f
          × ((send_to can_seal e q now pkt).1 ≡ true)
          × ((send_to can_seal e q now pkt).0.sent ≡ e.sent ++ (f ∷ []))
          × ((send_to can_seal e q now pkt).0.relay ≡ e.relay))
  unfolding send_to
  send_to_cases = elim (Option-cases (e.heap q).cur) [
    | inl gone ↦ inl (ground arith)
    | inr (s, live) ↦ elim (Bool-cases (e.heap q).authed) [
      | inr out ↦ inl (ground arith)
      | inl authed ↦ elim (Bool-cases (can_seal s.send_nonce)) [
        | inr over ↦ inl (ground arith)
        | inl fine ↦ inr (
          frame_of e q s frame_data pkt,
          record { session = s; current = live; authed = authed; frame = refl },
          ground arith,
          ground arith,
          ground arith,
        )
      ]
    ]
  ]

  send_to-sends : SendsAtMost (IsDelivery e q pkt) e (send_to can_seal e q now pkt).0
  send_to-sends = elim send_to_cases [
    | inl none_sent ↦ inl (ap (λ r. r.0.sent) none_sent)
    | inr (f, delivery, _, sent, _) ↦ inr (f, delivery, sent)
  ]

  pub to_agent-sends : SendsAtMost (IsDelivery e q pkt) e (to_agent can_seal e q now pkt)
  unfolding to_agent
  to_agent-sends = elim (Bool-cases (send_to can_seal e q now pkt).1) [
    | inl yes_sent ↦ rw yes_sent send_to-sends
    | inr not_sent ↦ rw not_sent send_to-sends
  ]

  pub to_client-sends : SendsAtMost (IsDelivery e q pkt) e (to_client can_seal e q now pkt)
  unfolding to_client
  to_client-sends = elim (Bool-cases (send_to can_seal e q now pkt).1) [
    | inl yes_sent ↦ rw yes_sent send_to-sends
    | inr not_sent ↦ rw not_sent send_to-sends
  ]

module _ (can_seal : ℕ → Bool) (e : Engine) (p now : ℕ) (pkt : List ℕ) (h : IpHeader) where
  abbrev pub Own : Type 0
  Own = (h.src ≡ (e.heap p).cfg.tunnel_ip) × (is_valid (e.heap p).cfg.tunnel_ip ≡ true)

  -- A client's packet is dropped, or is the server's own, or is granted to an agent.
  pub client_cases :
      ((why : Drop) × (relay_from_client can_seal e p now pkt h ≡ drop_packet e p now why))
      ⊎ (Own
          × (is_local_addr e h.dst ≡ true)
          × ((relay_from_client can_seal e p now pkt h).sent
              ≡ (reply_local_icmp can_seal e p now pkt h).0.sent))
      ⊎ ((q : ℕ) × IsGranted e p h q
          × (relay_from_client can_seal e p now pkt h ≡ to_agent can_seal e q now pkt))
  unfolding relay_from_client
  client_cases = elim (Bool-cases (is_valid (e.heap p).cfg.tunnel_ip)) [
    | inr no_ip ↦ inl (spoofs, ground arith)
    | inl valid ↦ elim (Bool-cases (addr_eq h.src (e.heap p).cfg.tunnel_ip)) [
      | inr other ↦ inl (spoofs, ground arith)
      | inl same ↦
          let source = eq_of_addr_eq h.src (e.heap p).cfg.tunnel_ip same in
          elim (Bool-cases (is_local_addr e h.dst)) [
            | inl here ↦ inr (inl ((source, valid), here, ground arith))
            | inr away ↦ elim (Option-cases (agent_for e h.dst)) [
              | inl nobody ↦ inl (no_routes, ground arith)
              | inr (q, target) ↦
                  elim (Bool-cases (client_allowed (e.heap p) (config_id (e.heap q).cfg))) [
                    | inr unlisted ↦ inl (denials, ground arith)
                    | inl listed ↦ elim (Bool-cases (is_live (e.heap q))) [
                      | inr dead ↦ inl (offlines, ground arith)
                      | inl live ↦ inr (
                          inr (
                            q,
                            record {
                              own_source = source;
                              valid_source = ground arith;
                              target = target;
                              listed = listed;
                              live = live;
                            },
                            ground arith,
                          ))
                    ]
                  ]
            ]
          ]
    ]
  ]

  pub reply_local_icmp-sends :
      Own
      → is_local_addr e h.dst ≡ true
      → SendsAtMost (IsEcho e p pkt h) e (reply_local_icmp can_seal e p now pkt h).0
  unfolding reply_local_icmp
  reply_local_icmp-sends (source, valid) here = elim (Option-cases (echo_reply pkt h)) [
    | inl no_ping ↦ inl (ground arith)
    | inr (reply, ping) ↦
        let same : (reply_local_icmp can_seal e p now pkt h).0.sent
            ≡ (send_to can_seal e p now reply).0.sent =
          ground arith in
        elim (send_to-sends can_seal e p now reply) [
          | inl silent ↦ inl (same ∙ silent)
          | inr (f, back, sent) ↦ inr (
            f,
            record {
              own_source = source;
              to_server = here;
              reply = reply;
              answers = ping;
              back = back;
            },
            same ∙ sent,
          )
        ]
  ]

-- A client's packet makes the server send at most one frame. It carries the packet itself, to a
-- live agent that the packet's destination leads to and the client's access list names, and the
-- packet's source is the client's own tunnel address; or it answers a ping of the server's own
-- address, back to that client.
pub relay_from_client-safe :
    (can_seal : ℕ → Bool) (e : Engine) (p now : ℕ) (pkt : List ℕ) (h : IpHeader)
    → SendsAtMost
        (λ f. ((q : ℕ) × IsGranted e p h q × IsDelivery e q pkt f) ⊎ IsEcho e p pkt h f)
        e
        (relay_from_client can_seal e p now pkt h)
relay_from_client-safe can_seal e p now pkt h = elim (client_cases can_seal e p now pkt h) [
  | inl (why, dropped) ↦ inl (ap (λ r. r.sent) dropped ∙ sent-drop e p now why)
  | inr (inl (source, here, same)) ↦
      elim (reply_local_icmp-sends can_seal e p now pkt h source here) [
        | inl silent ↦ inl (same ∙ silent)
        | inr (f, echo, sent) ↦ inr (f, inr echo, same ∙ sent)
      ]
  | inr (inr (q, granted, delivered)) ↦ elim (to_agent-sends can_seal e q now pkt) [
    | inl silent ↦ inl (ap (λ r. r.sent) delivered ∙ silent)
    | inr (f, delivery, sent) ↦
        inr (f, inl (q, granted, delivery), ap (λ r. r.sent) delivered ∙ sent)
  ]
]
