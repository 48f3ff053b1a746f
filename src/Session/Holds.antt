-- ===== src/Session/Holds.antt =====
-- What a new session changes, and what the frames sent after it leave alone.
use selfremote.Common.{
  ℕ, ◌+◌, ◌*◌, ◌%◌, ◌^◌, ◌≡◌, ◌≢◌, inl, inr, refl, sym, ◌∙◌, ap, subst, Bool, not, ◌&&◌, String,
  List, Option, none, some, if◌then◌else◌, arith, Bool-cases, length,
}
use selfremote.Engine.{
  Engine, PeerState, Session, requires_mfa, set_peer, send_sealed, seal_on, frame_auth_challenge,
  frame_info,
}
use selfremote.Engine.Library.{Library}
use selfremote.Session.{new_session, with_session, install_session, write_raw, server_info, greet}

-- The session that becomes the previous one.
abbrev pub superseded : PeerState → Option Session → Option Session
superseded st none = st.prev
superseded st (some old) = some old

-- The peer holds a session of the cipher since `now`, after the session before, at the place, and
-- with the standing that it had at the gate.
pub record Holds (p cipher now : ℕ) (before : Option Session) (place : Option String)
    (standing : Bool) (e : Engine) : Type 0 where
  pub session : Session
  pub current : (e.heap p).cur ≡ some session
  pub agreed : session.cipher ≡ cipher
  pub begun : session.established ≡ now
  pub previous : (e.heap p).prev ≡ before
  pub placed : (e.heap p).addr ≡ place
  pub gate : (e.heap p).authed ≡ standing

abbrev pub SameOthers : ℕ → Engine → Engine → Type 0
SameOthers p e e' = (q : ℕ) → q ≢ p → e'.heap q ≡ e.heap q

pub SameOthers-trans :
    (p : ℕ) (a b c : Engine) → SameOthers p a b → SameOthers p b c → SameOthers p a c
SameOthers-trans p a b c f g q other = g q other ∙ f q other

pub set_peer-SameOthers : (e : Engine) (p : ℕ) (st : PeerState) → SameOthers p e (set_peer e p st)
unfolding set_peer
set_peer-SameOthers e p st q other = ground (arith, other)

module _ (p cipher now : ℕ) (before : Option Session) (place : Option String)
    (standing : Bool) where
  same_peer-Holds :
      (e e' : Engine)
      → e'.heap p ≡ e.heap p
      → Holds p cipher now before place standing e
      → Holds p cipher now before place standing e'
  same_peer-Holds e e' same h = record {
    session = h.session;
    current = ap (λ st. st.cur) same ∙ h.current;
    agreed = h.agreed;
    begun = h.begun;
    previous = ap (λ st. st.prev) same ∙ h.previous;
    placed = ap (λ st. st.addr) same ∙ h.placed;
    gate = ap (λ st. st.authed) same ∙ h.gate;
  }

  set_peer-Holds :
      (e : Engine) (st : PeerState)
      → st.cur ≡ (e.heap p).cur
      → st.prev ≡ (e.heap p).prev
      → st.addr ≡ (e.heap p).addr
      → st.authed ≡ (e.heap p).authed
      → Holds p cipher now before place standing e
      → Holds p cipher now before place standing (set_peer e p st)
  unfolding set_peer
  set_peer-Holds e st c v a g h = record {
    session = h.session;
    current = ground (arith, c, h.current);
    agreed = h.agreed;
    begun = h.begun;
    previous = ground (arith, v, h.previous);
    placed = ground (arith, a, h.placed);
    gate = ground (arith, g, h.gate);
  }

  send_sealed-Holds :
      (can_seal : ℕ → Bool) (e : Engine) (at typ : ℕ) (payload : List ℕ)
      → Holds p cipher now before place standing e
      → Holds p cipher now before place standing (send_sealed can_seal e p at typ payload)
        × SameOthers p e (send_sealed can_seal e p at typ payload)
  unfolding send_sealed seal_on set_peer
  send_sealed-Holds can_seal e at typ payload h =
      elim (Bool-cases (can_seal h.session.send_nonce)) [
        | inr over ↦
            let same : send_sealed can_seal e p at typ payload ≡ e =
              ground (arith, h.current, over) in
            (
              subst (Holds p cipher now before place standing) (sym same) h,
              λ q other. ap (λ x. x.heap q) same,
            )
        | inl fine ↦ (
          record {
            session = record h.session { send_nonce = (h.session.send_nonce + 1) % 2 ^ 64 };
            current = ground (arith, h.current, fine);
            agreed = h.agreed;
            begun = h.begun;
            previous = ground (arith, h.current, fine, h.previous);
            placed = ground (arith, h.current, fine, h.placed);
            gate = ground (arith, h.current, fine, h.gate);
          },
          λ q other. ground (arith, h.current, fine, other),
        )
      ]

with_session-Holds :
    (e : Engine) (p cipher now : ℕ) (st : PeerState) (c : Option Session)
    → Holds p cipher now
        (superseded st c)
        st.addr
        st.authed
        (set_peer e p (with_session e cipher now st c))
unfolding set_peer
with_session-Holds e p cipher now st none = record {
  session = new_session cipher now;
  current = ground arith;
  agreed = refl;
  begun = refl;
  previous = ground arith;
  placed = ground arith;
  gate = ground arith;
}
with_session-Holds e p cipher now st (some old) = record {
  session = new_session cipher now;
  current = ground arith;
  agreed = refl;
  begun = refl;
  previous = ground arith;
  placed = ground arith;
  gate = ground arith;
}

module _ (lib : Library) (p cipher now : ℕ) (before : Option Session) (place : Option String)
    (standing : Bool) where
  pub greet-Holds :
      (e : Engine)
      → Holds p cipher now before place standing e
      → Holds p cipher now before place standing (greet lib e p now)
        × SameOthers p e (greet lib e p now)
  unfolding greet
  greet-Holds e h =
      let st = e.heap p in
      let required = requires_mfa st && not st.authed in
      let armed_peer = record st {
        auth_attempts = 0;
        auth_deadline = now + 120 * 10 ^ 9;
        challenge_at = now;
      } in
      let armed = if required then set_peer e p armed_peer else e in
      let armed_holds : Holds p cipher now before place standing armed × SameOthers p e armed =
        elim (Bool-cases required) [
          | inl needed ↦ rw needed (
            set_peer-Holds p cipher now before place standing e armed_peer refl refl refl refl h,
            set_peer-SameOthers e p armed_peer,
          )
          | inr no_code ↦ rw no_code (h, λ q other. refl)
        ] in
      let challenge = lib.encode_challenge required in
      let challenged = send_sealed lib.can_seal armed p now frame_auth_challenge challenge in
      let second =
        send_sealed-Holds p cipher now before place standing lib.can_seal armed now
          frame_auth_challenge challenge armed_holds.0 in
      let info = server_info lib challenged p in
      let third =
        send_sealed-Holds p cipher now before place standing lib.can_seal challenged now frame_info
          info second.0 in
      (
        third.0,
        SameOthers-trans p e challenged (send_sealed lib.can_seal challenged p now frame_info info)
            (SameOthers-trans p e armed challenged armed_holds.1 second.1) third.1,
      )

  pub write_raw-Holds :
      (e : Engine) (bytes : List ℕ)
      → Holds p cipher now before place standing e
      → Holds p cipher now before place standing (write_raw e p bytes)
        × SameOthers p e (write_raw e p bytes)
  unfolding write_raw
  write_raw-Holds e bytes h =
      let st = e.heap p in
      let st' = record st { bytes_out = (st.bytes_out + length bytes) % 2 ^ 64 } in
      let held = set_peer-Holds p cipher now before place standing e st' refl refl refl refl h in
      (
        same_peer-Holds p cipher now before place standing (set_peer e p st') (write_raw e p bytes)
            refl held,
        set_peer-SameOthers e p st',
      )

pub install_session-Holds :
    (e : Engine) (p cipher now : ℕ)
    → Holds p cipher now
        (superseded (e.heap p) (e.heap p).cur)
        (e.heap p).addr
        (e.heap p).authed
        (install_session e p cipher now)
      × SameOthers p e (install_session e p cipher now)
unfolding install_session
install_session-Holds e p cipher now =
    let st = e.heap p in
    let st' = with_session e cipher now st st.cur in
    (
      same_peer-Holds p cipher now (superseded st st.cur) st.addr st.authed (set_peer e p st')
          (install_session e p cipher now) refl (with_session-Holds e p cipher now st st.cur),
      set_peer-SameOthers e p st',
    )
