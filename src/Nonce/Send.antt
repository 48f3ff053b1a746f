-- ===== src/Nonce/Send.antt =====
-- The send path (internal/tunnel/engine.go) and the nonces in use.
use selfremote.Common.{
  ℕ, ◌+◌, ◌%◌, ◌^◌, ◌<◌, ◌≡◌, refl, sym, subst, Bool, true, false, List, [], ◌∷◌, ◌++◌, some,
  if◌then◌else◌, if_cases, option_cases,
}
use selfremote.Engine.{
  Engine, PeerState, Session, seal_on, send_sealed, send_to, frame_of, frame_size, frame_data,
  set_peer,
}
use selfremote.Tick.Steps.{Pending}
use selfremote.Nonce.{Once}
use selfremote.Nonce.Count.{Below, Below-same}
use selfremote.Nonce.Write.{write-Once, send-Once}

unfoldable pub Clean : List Pending → Engine → Type 0
unfolding Once
Clean pend e = Once e.heap e.sent pend

-- The Noise library does not encrypt under the last nonces: it keeps the counter from wrapping.
abbrev pub Limited : (ℕ → Bool) → Type 0
Limited can_seal = (n : ℕ) → can_seal n ≡ true → n + 1 < 2 ^ 64

module _ (pend : List Pending) where
  pub set_peer-Clean :
      (e : Engine) (p : ℕ) (st : PeerState)
      → Below (e.heap p).cur st.cur
      → Clean pend e
      → Clean pend (set_peer e p st)
  unfolding Clean set_peer
  set_peer-Clean e p st b h = write-Once e.heap e.sent pend p st b h

  -- Neither the peers nor the frames sent.
  pub same-Clean :
      (e e' : Engine) → e'.heap ≡ e.heap → e'.sent ≡ e.sent → Clean pend e → Clean pend e'
  unfolding Clean
  same-Clean e e' heap sent h =
      subst (λ f. Once e'.heap f pend) (sym sent) (subst (λ f. Once f e.sent pend) (sym heap) h)

  -- A write to other fields.
  pub touch-Clean :
      (e : Engine) (p : ℕ) (st : PeerState)
      → st.cur ≡ (e.heap p).cur
      → Clean pend e
      → Clean pend (set_peer e p st)
  touch-Clean e p st same h = set_peer-Clean e p st (Below-same (e.heap p).cur st.cur same) h

module _ (can_seal : ℕ → Bool) (limited : Limited can_seal) (pend : List Pending) where
  pub seal_on-Clean :
      (e : Engine) (p : ℕ) (s : Session) (now typ : ℕ) (payload : List ℕ)
      → (e.heap p).cur ≡ some s
      → Clean pend e
      → Clean pend (seal_on can_seal e p s now typ payload).0
  unfolding Clean seal_on set_peer
  seal_on-Clean e p s now typ payload live h =
      let st = e.heap p in
      let next : PeerState = record st {
        cur = some (record s { send_nonce = (s.send_nonce + 1) % 2 ^ 64 });
        last_send = now;
        bytes_out = (st.bytes_out + frame_size payload) % 2 ^ 64;
      } in
      if_cases (λ (r : Engine × Bool). Clean pend r.0) (can_seal s.send_nonce)
        (record (set_peer e p next) { sent = e.sent ++ (frame_of e p s typ payload ∷ []) }, true)
        (e, false)
        (λ fine.
          send-Once e.heap e.sent pend p s next (frame_of e p s typ payload) live
            (limited s.send_nonce fine) refl refl refl h)
        (λ over. h)

  pub send_sealed-Clean :
      (e : Engine) (p now typ : ℕ) (payload : List ℕ)
      → Clean pend e
      → Clean pend (send_sealed can_seal e p now typ payload)
  unfolding send_sealed
  send_sealed-Clean e p now typ payload h =
      option_cases (Clean pend) (e.heap p).cur e (λ s. (seal_on can_seal e p s now typ payload).0)
        (λ gone. h) (λ s live. seal_on-Clean e p s now typ payload live h)

  pub send_to-Clean :
      (e : Engine) (p now : ℕ) (pkt : List ℕ)
      → Clean pend e
      → Clean pend (send_to can_seal e p now pkt).0
  unfolding send_to
  send_to-Clean e p now pkt h =
      option_cases (λ (r : Engine × Bool). Clean pend r.0) (e.heap p).cur (e, false)
        (λ s. if (e.heap p).authed then seal_on can_seal e p s now frame_data pkt else (e, false))
        (λ gone. h)
        (λ s live.
          if_cases (λ (r : Engine × Bool). Clean pend r.0) (e.heap p).authed
            (seal_on can_seal e p s now frame_data pkt) (e, false)
            (λ authed. seal_on-Clean e p s now frame_data pkt live h) (λ out. h))
