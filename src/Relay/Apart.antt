-- ===== src/Relay/Apart.antt =====
-- The whole relay on routed tables: clients and sites do not reach their own kind.
use selfremote.Common.{ℕ, ◌≡◌, ◌⊎◌, inl, inr, refl, ap, sym, ◌∙◌, subst, Bool, false, not, List}
use selfremote.Packet.{Parse, ok, bad, hang, IpHeader, parse_header}
use selfremote.Engine.{Engine, Sent, PeerRole, role_client, role_agent, is_agent}
use selfremote.Engine.Tables.Roles.{IsRouted, HasRole}
use selfremote.Relay.{drop_packet, relay_from_peer, relay_outcome, relay_parsed, malformations}
use selfremote.Relay.Safety.{SendsAtMost, IsDelivery, sent-drop, relay_from_client-safe}
use selfremote.Relay.Returns.{relay_from_agent-safe}
use selfremote.Relay.Longest.{agent_for-HasRole, lookup-HasRole}

-- A frame to the other role, or back to the sender.
abbrev pub StaysApart : Engine → ℕ → Sent → Type 0
StaysApart e p f =
    (is_agent (e.heap f.peer).cfg.role ≡ not (is_agent (e.heap p).cfg.role)) ⊎ (f.peer ≡ p)

delivery_peer : (e : Engine) (q : ℕ) (pkt : List ℕ) (f : Sent) → IsDelivery e q pkt f → f.peer ≡ q
delivery_peer e q pkt f d = ap (λ r. r.peer) d.frame

module _ (can_seal : ℕ → Bool) (e : Engine) (routed : IsRouted e) (p now : ℕ) (pkt : List ℕ) where
  to_role :
      (role : PeerRole) (q : ℕ) (f : Sent)
      → (e.heap p).cfg.role ≡ role
      → HasRole e.heap (not (is_agent role)) q
      → IsDelivery e q pkt f
      → StaysApart e p f
  to_role role q f mine other d = inl (
      subst (λ x. HasRole e.heap (not (is_agent (e.heap p).cfg.role)) x)
        (sym (delivery_peer e q pkt f d)) (rw mine other))

  relay_parsed-apart :
      (h : IpHeader) (role : PeerRole)
      → (e.heap p).cfg.role ≡ role
      → SendsAtMost (StaysApart e p) e (relay_parsed can_seal e p now pkt h role)
  relay_parsed-apart h role_client mine = elim (relay_from_client-safe can_seal e p now pkt h) [
    | inl silent ↦ inl silent
    | inr (f, inl (q, granted, d), sent) ↦ inr (
      f,
      to_role role_client q f mine (agent_for-HasRole e h.dst q routed granted.target) d,
      sent,
    )
    | inr (f, inr echo, sent) ↦ inr (f, inr (ap (λ r. r.peer) echo.back.frame), sent)
  ]
  relay_parsed-apart h role_agent mine = elim (relay_from_agent-safe can_seal e p now pkt h) [
    | inl silent ↦ inl silent
    | inr (f, (q, granted, d), sent) ↦ inr (
      f,
      to_role role_agent q f mine
          (lookup-HasRole e.heap false h.dst q e.clients_by_ip routed.clients granted.target) d,
      sent,
    )
  ]

  outcome-apart :
      (r : Parse IpHeader) (e' : Engine)
      → relay_outcome can_seal e p now pkt r ≡ ok e'
      → SendsAtMost (StaysApart e p) e e'
  outcome-apart bad e' done =
      let same : drop_packet e p now malformations ≡ e' = cc in
      inl (ap (λ r. r.sent) (sym same) ∙ sent-drop e p now malformations)
  outcome-apart hang e' done = cc
  outcome-apart (ok h) e' done =
      let same : relay_parsed can_seal e p now pkt h (e.heap p).cfg.role ≡ e' = cc in
      subst (SendsAtMost (StaysApart e p) e) same (relay_parsed-apart h (e.heap p).cfg.role refl)

-- On routed tables, whatever a peer sends, the relay that answers sends at most one frame: to a
-- peer of the other role (a client's packet to a site, a site's to a client), or back to the sender.
pub relay_from_peer-apart :
    (can_seal : ℕ → Bool) (fuel : ℕ) (e e' : Engine) (p now : ℕ) (pkt : List ℕ)
    → IsRouted e
    → relay_from_peer can_seal fuel e p now pkt ≡ ok e'
    → SendsAtMost (StaysApart e p) e e'
unfolding relay_from_peer
relay_from_peer-apart can_seal fuel e e' p now pkt routed done =
    outcome-apart can_seal e routed p now pkt (parse_header fuel pkt) e' done
