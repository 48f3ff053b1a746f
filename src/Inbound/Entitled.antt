-- ===== src/Inbound/Entitled.antt =====
-- What a data frame may cause: nothing unless a session opens it, no packet before the second factor.
use selfremote.Common.{
  ℕ, ◌≡◌, ◌≢◌, ◌⊎◌, inl, inr, refl, ap, subst, false, List, Option, none, some, arith, Bool-cases,
  Option-cases,
}
use selfremote.Packet.{ok}
use selfremote.Frame.{Frame, short_frame, bad_version, frame, parse_frame, data_nonce}
use selfremote.Engine.{Engine, frame_data, set_peer, requires_mfa}
use selfremote.Engine.Library.{Library}
use selfremote.Inbound.Open.{Opened, open_frame, IsOpened, open_frame-IsOpened}
use selfremote.Inbound.{
  Source, heard, is_gated, deliver_data, after_open, endpoint_of, handle_data, with_nonce, on_frame,
  on_parsed, handle_packet,
}

-- No packet was sent or written, and none was counted by the relay.
pub record IsQuiet (e e' : Engine) : Type 0 where
  pub sent : e'.sent ≡ e.sent
  pub written : e'.written ≡ e.written
  pub relay : e'.relay ≡ e.relay

-- A session of the sender's opened the frame, the sender is through the gate, and what came of it
-- is the delivery of the plaintext.
pub record IsEntitled (lib : Library) (fuel : ℕ) (e : Engine) (from : Option Source) (nonce now : ℕ)
    (frm : List ℕ) (e' : Engine) : Type 0 where
  pub by : Opened
  pub opened : IsOpened lib nonce now frm e.heap by
  pub admitted : is_gated e.mode (e.heap by.peer) ≡ false
  pub delivered : deliver_data lib fuel (heard e from frm now by) by.peer now by.plain ≡ ok e'

heard-IsQuiet :
    (e : Engine) (from : Option Source) (frm : List ℕ) (now : ℕ) (o : Opened)
    → IsQuiet e (heard e from frm now o)
unfolding set_peer
heard-IsQuiet e none frm now o = record { sent = refl; written = refl; relay = refl }
heard-IsQuiet e (some from) frm now o = record { sent = refl; written = refl; relay = refl }

module _ (lib : Library) (fuel : ℕ) (e e' : Engine) (from : Option Source) (nonce now : ℕ)
    (frm : List ℕ) where
  after_open-IsEntitled :
      (r : Option Opened)
      → ((o : Opened) → r ≡ some o → IsOpened lib nonce now frm e.heap o)
      → after_open lib fuel e from frame_data now frm r ≡ ok e'
      → IsQuiet e e' ⊎ IsEntitled lib fuel e from nonce now frm e'
  unfolding is_gated requires_mfa
  after_open-IsEntitled none opens done =
      let same : e ≡ e' = cc in
      inl (subst (IsQuiet e) same (record { sent = refl; written = refl; relay = refl }))
  after_open-IsEntitled (some o) opens done = elim (Bool-cases (is_gated e.mode o.state)) [
    | inl gated ↦
        let same : heard e from frm now o ≡ e' = ground (arith, gated) in
        inl (subst (IsQuiet e) same (heard-IsQuiet e from frm now o))
    | inr free ↦
        let opened = opens o refl in
        inr (record {
          by = o;
          opened = opened;
          admitted = ground (arith, free, opened.same_cfg, opened.same_authed);
          delivered = ground (arith, free);
        })
  ]

-- A data frame makes the engine send, write or count a packet only if a session of a peer, the
-- current one or the one before it within its grace, opens the frame under a nonce that its window
-- takes, and the peer, where it answers to a responder and has a second factor, has passed it; then
-- all that comes of the frame is the delivery of its plaintext for that peer.
pub handle_data-IsEntitled :
    (lib : Library) (fuel : ℕ) (e e' : Engine) (from : Option Source) (nonce now : ℕ) (frm : List ℕ)
    → handle_data lib fuel e from frame_data nonce now frm ≡ ok e'
    → IsQuiet e e' ⊎ IsEntitled lib fuel e from nonce now frm e'
unfolding handle_data
handle_data-IsEntitled lib fuel e e' from nonce now frm done =
    after_open-IsEntitled lib fuel e e' from nonce now frm
      (open_frame lib nonce now frm e (endpoint_of from))
      (λ o made. open_frame-IsOpened lib nonce now frm e (endpoint_of from) o made) done

module _ (lib : Library) (fuel : ℕ) (e : Engine) (from : Option Source) (now : ℕ) (frm : List ℕ)
    (forged : (cipher nonce : ℕ) → lib.opened cipher nonce frm ≡ none) where
  open_frame-forged : (nonce : ℕ) → open_frame lib nonce now frm e (endpoint_of from) ≡ none
  open_frame-forged nonce =
      elim (Option-cases (open_frame lib nonce now frm e (endpoint_of from))) [
        | inl nobody ↦ nobody
        | inr (o, made) ↦
            let by = open_frame-IsOpened lib nonce now frm e (endpoint_of from) o made in
            let no = forged by.session.cipher nonce in let yes' = by.opens.decrypted in absurd (cc)
      ]

  handle_data-forged : (typ nonce : ℕ) → handle_data lib fuel e from typ nonce now frm ≡ ok e
  unfolding handle_data
  handle_data-forged typ nonce =
      ap (after_open lib fuel e from typ now frm) (open_frame-forged nonce)

  with_nonce-forged : (typ : ℕ) (n : Option ℕ) → with_nonce lib fuel e from typ now frm n ≡ ok e
  with_nonce-forged typ none = refl
  with_nonce-forged typ (some n) = handle_data-forged typ n

  on_parsed-forged :
      (f : Frame)
      → ((typ : ℕ) (payload : List ℕ) → f ≡ frame typ payload → (typ ≢ 1) × (typ ≢ 2))
      → on_parsed lib fuel e from now frm f ≡ ok e
  unfolding on_frame
  on_parsed-forged short_frame other = refl
  on_parsed-forged bad_version other = refl
  on_parsed-forged (frame typ payload) other =
      let (not_init, not_resp) = other typ payload refl in
      ground (arith, not_init, not_resp, with_nonce-forged typ (data_nonce payload))

-- A datagram that no cipher opens under any nonce, and that is no handshake message, leaves the
-- whole state as it was: no peer's address moves, no counter changes, nothing is sent.
pub handle_packet-forged :
    (lib : Library) (fuel : ℕ) (e : Engine) (from : Option Source) (now : ℕ) (frm : List ℕ)
    → ((cipher nonce : ℕ) → lib.opened cipher nonce frm ≡ none)
    → ((typ : ℕ) (payload : List ℕ) → parse_frame frm ≡ frame typ payload → (typ ≢ 1) × (typ ≢ 2))
    → handle_packet lib fuel e from now frm ≡ ok e
unfolding handle_packet
handle_packet-forged lib fuel e from now frm forged other =
    on_parsed-forged lib fuel e from now frm forged (parse_frame frm) other
