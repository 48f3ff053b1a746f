-- ===== src/Relay/Replies.antt =====
-- A site answers whoever reached it: what the relay let through to an agent it lets through back.
use selfremote.Common.{
  ℕ, ◌≡◌, ◌≢◌, refl, sym, subst, ap, ◌∙◌, Bool, true, ◌&&◌, ◌||◌, List, [], ◌∷◌, ◌++◌, some, length,
  length-append, arith, ◌==◌, Option-cases, Bool-cases, inl, inr,
}
use selfremote.Net.{Addr, addr_eq, is_valid}
use selfremote.Packet.{IpHeader}
use selfremote.Engine.{
  Engine, PeerState, PeerConfig, Session, Sent, frame_of, frame_data, send_to, set_peer, config_id,
}
use selfremote.Engine.Heap.{lookup}
use selfremote.Engine.Tables.{rebuild_tables}
use selfremote.Relay.{
  any_virtual, relay_from_client, relay_from_agent, is_live, to_agent, to_client, client_allowed,
  allows_source,
}
use selfremote.Relay.Safety.{
  IsGranted, client_cases, sent-drop, to_agent-sends, reply_local_icmp-sends,
}
use selfremote.Relay.Owned.{agent_for-allowed}

-- One frame more was sent: the packet, sealed for `p` by its session.
pub record IsSent (e : Engine) (p : ℕ) (pkt : List ℕ) (e' : Engine) : Type 0 where
  pub session : Session
  pub current : (e.heap p).cur ≡ some session
  pub sent : e'.sent ≡ e.sent ++ (frame_of e p session frame_data pkt ∷ [])

-- The session of a peer, if it has one, seals under its next nonce.
abbrev pub CanSeal : (ℕ → Bool) → PeerState → Type 0
CanSeal can_seal st = (s : Session) → st.cur ≡ some s → can_seal s.send_nonce ≡ true

append-last {ℓ} : {A : Type ℓ} (xs : List A) (a b : A) → xs ++ (a ∷ []) ≡ xs ++ (b ∷ []) → a ≡ b
append-last [] a b e = cc
append-last (x ∷ xs) a b e = append-last xs a b (cc)

not_same : (xs : List Sent) (f : Sent) → xs ≢ xs ++ (f ∷ [])
not_same xs f e = omega (arith, ap length e, length-append xs (f ∷ []))

module _ (can_seal : ℕ → Bool) (e : Engine) (q now : ℕ) (pkt : List ℕ) where
  -- A delivery changes neither the configurations nor the table of clients, nor another peer.
  to_agent-keeps :
      ((x : ℕ) → ((to_agent can_seal e q now pkt).heap x).cfg ≡ (e.heap x).cfg)
      × ((x : ℕ) → q ≢ x → (to_agent can_seal e q now pkt).heap x ≡ e.heap x)
      × ((to_agent can_seal e q now pkt).clients_by_ip ≡ e.clients_by_ip)
  unfolding to_agent send_to set_peer
  to_agent-keeps = elim (Option-cases (e.heap q).cur) [
    | inl gone ↦ (λ x. ground (arith, gone), λ x other. ground (arith, gone), ground (arith, gone))
    | inr (s, cur) ↦ elim (Bool-cases (e.heap q).authed) [
      | inr out ↦ (
        λ x. ground (arith, cur, out),
        λ x other. ground (arith, cur, out),
        ground (arith, cur, out),
      )
      | inl authed ↦ elim (Bool-cases (can_seal s.send_nonce)) [
        | inr over ↦ (
          λ x. ground (arith, cur, authed, over),
          λ x other. ground (arith, cur, authed, over),
          ground (arith, cur, authed, over),
        )
        | inl fine ↦ (
          λ x. elim (Bool-cases (q == x)) [
            | inl same ↦
                let at : q ≡ x = ground (arith, same) in
                ground (arith, cur, authed, fine, same, ap (λ y. (e.heap y).cfg) at)
            | inr other ↦ ground (arith, cur, authed, fine, other)
          ],
          λ x other. ground (arith, cur, authed, fine, other),
          ground (arith, cur, authed, fine),
        )
      ]
    ]
  ]

allows_source-cfg :
    (a b : PeerState) (src : Addr) → a.cfg ≡ b.cfg → allows_source a src ≡ allows_source b src
unfolding allows_source
allows_source-cfg a b src e =
    ap
      (λ (c : PeerConfig).
        is_valid c.tunnel_ip && addr_eq src c.tunnel_ip || any_virtual c.routes src)
      e

-- A packet of a client that went on to another peer was granted to it.
passed_on :
    (can_seal : ℕ → Bool) (e : Engine) (p now : ℕ) (pkt : List ℕ) (h : IpHeader) (f : Sent)
    → (relay_from_client can_seal e p now pkt h).sent ≡ e.sent ++ (f ∷ [])
    → f.peer ≢ p
    → IsGranted e p h f.peer
      × (relay_from_client can_seal e p now pkt h ≡ to_agent can_seal e f.peer now pkt)
passed_on can_seal e p now pkt h f sent away = elim (client_cases can_seal e p now pkt h) [
  | inl (why, dropped) ↦
      absurd
        (not_same e.sent f (sym (sent-drop e p now why) ∙ (ap (λ r. r.sent) (sym dropped) ∙ sent)))
  | inr (inl (own, here, same)) ↦ elim (reply_local_icmp-sends can_seal e p now pkt h own here) [
    | inl silent ↦ absurd (not_same e.sent f (sym silent ∙ (sym same ∙ sent)))
    | inr (f', echo, replied) ↦
        let is_f : f ≡ f' = append-last e.sent f f' (sym sent ∙ (same ∙ replied)) in
        absurd (away (ap (λ x. x.peer) is_f ∙ ap (λ x. x.peer) echo.back.frame))
  ]
  | inr (inr (q, granted, delivered)) ↦ elim (to_agent-sends can_seal e q now pkt) [
    | inl silent ↦
        absurd (not_same e.sent f (sym silent ∙ (sym (ap (λ r. r.sent) delivered) ∙ sent)))
    | inr (f', delivery, out) ↦
        let is_f : f ≡ f' =
          append-last e.sent f f' (sym sent ∙ (ap (λ r. r.sent) delivered ∙ out)) in
        let is_q : q ≡ f.peer = sym (ap (λ x. x.peer) is_f ∙ ap (λ x. x.peer) delivery.frame) in
        subst
          (λ x.
            IsGranted e p h x
            × (relay_from_client can_seal e p now pkt h ≡ to_agent can_seal e x now pkt))
          is_q (granted, delivered)
  ]
]

to_client-IsSent :
    (can_seal : ℕ → Bool) (e : Engine) (p now : ℕ) (pkt : List ℕ)
    → is_live (e.heap p) ≡ true
    → CanSeal can_seal (e.heap p)
    → IsSent e p pkt (to_client can_seal e p now pkt)
unfolding to_client send_to is_live
to_client-IsSent can_seal e p now pkt live can = elim (Option-cases (e.heap p).cur) [
  | inl gone ↦ absurd (ground (arith, gone))
  | inr (s, cur) ↦
      let authed : (e.heap p).authed ≡ true = ground (arith, cur, live) in
      let fine : can_seal s.send_nonce ≡ true = can s cur in
      record { session = s; current = cur; sent = ground (arith, cur, authed, fine) }
]

-- A client's packet went through the relay to another peer, on tables that were rebuilt from the peers.
-- Then a packet of that peer with the two addresses exchanged is let through as well: the relay sends it
-- to the client, if the client is the one found under its address and is live, and its session can still
-- seal.
pub relay_from_agent-IsSent :
    (can_seal : ℕ → Bool) (before : Engine) (p now later : ℕ) (pkt answer : List ℕ)
    (h back : IpHeader) (f : Sent)
    → (relay_from_client can_seal (rebuild_tables before) p now pkt h).sent
      ≡ (rebuild_tables before).sent ++ (f ∷ [])
    → f.peer ≢ p
    → back.src ≡ h.dst
    → back.dst ≡ h.src
    → lookup addr_eq h.src (rebuild_tables before).clients_by_ip ≡ some p
    → is_live (before.heap p) ≡ true
    → CanSeal can_seal (before.heap p)
    → let e = relay_from_client can_seal (rebuild_tables before) p now pkt h in
      IsSent e p answer (relay_from_agent can_seal e f.peer later answer back)
unfolding relay_from_agent
relay_from_agent-IsSent can_seal before p now later pkt answer h back f sent away src dst found live
      can =
    let e = rebuild_tables before in
    let q = f.peer in
    let (granted, through) = passed_on can_seal e p now pkt h f sent away in
    let e' = to_agent can_seal e q now pkt in
    let (cfgs, others, table) = to_agent-keeps can_seal e q now pkt in
    let same_heap : e.heap ≡ before.heap = unfold rebuild_tables in refl in
    let client : e'.heap p ≡ e.heap p = others p away in
    let allowed : allows_source (e'.heap q) back.src ≡ true =
      ap (allows_source (e'.heap q)) src
      ∙ (allows_source-cfg (e'.heap q) (before.heap q) h.dst
            (cfgs q ∙ ap (λ m. (m q).cfg) same_heap)
          ∙ agent_for-allowed before h.dst q granted.target) in
    let at : lookup addr_eq back.dst e'.clients_by_ip ≡ some p =
      ap (λ a. lookup addr_eq a e'.clients_by_ip) dst ∙ (ap (lookup addr_eq h.src) table ∙ found) in
    let listed : client_allowed (e'.heap p) (config_id (e'.heap q).cfg) ≡ true =
      ap (λ st. client_allowed st (config_id (e'.heap q).cfg)) client
      ∙ (ap (λ c. client_allowed (e.heap p) (config_id c)) (cfgs q) ∙ granted.listed) in
    let alive : is_live (e'.heap p) ≡ true = ap is_live (client ∙ ap (λ m. m p) same_heap) ∙ live in
    let seals : CanSeal can_seal (e'.heap p) =
      subst (CanSeal can_seal) (sym (client ∙ ap (λ m. m p) same_heap)) can in
    let there : relay_from_agent can_seal e' q later answer back
        ≡ to_client can_seal e' p later answer =
      ground (arith, allowed, at, listed, alive) in
    subst (λ x. IsSent x p answer (relay_from_agent can_seal x q later answer back)) (sym through)
      (subst (IsSent e' p answer) (sym there)
        (to_client-IsSent can_seal e' p later answer alive seals))
