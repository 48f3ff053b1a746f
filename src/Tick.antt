-- ===== src/Tick.antt =====
-- The engine's timer (internal/tunnel/engine.go, `tick`): what falls due for each peer, the frames
-- that are written behind the loop.
pub mod Steps
pub mod Due
pub mod Sealed
pub mod Timely
mod Tests
use selfremote.Common.{
  ℕ, ◌+◌, ◌*◌, ◌%◌, ◌^◌, Bool, true, false, not, ◌&&◌, ◌||◌, String, List, [], ◌∷◌, ◌++◌, Option,
  none, some, ltb, leb, ◌==◌, if◌then◌else◌, length,
}
use selfremote.Engine.{
  Engine, is_server, is_agent_mode, PeerState, Session, Mode, server, gateway, client, agent,
  responder, dials, requires_mfa, reset_auth, set_peer, is_agent, frame_auth_challenge,
  frame_agent_info, frame_agent_cmd, frame_keepalive, frame_size,
}
use selfremote.Engine.Library.{Library}
use selfremote.Auth.Dialler.{handle_auth_challenge}
use selfremote.Session.{write_raw, retry_delay, start_client_handshake}
use selfremote.Registry.{Registry}
use Steps.{
  Pending, sealed_frame, raw_frame, Round, is_past, has_session, with_peer, write_pending, settle,
  expire, bury, waive, ask_again, count_bytes, give_up, is_rekey_due, has_handshake,
}
use selfremote.Registry.Reload.{Poll, reload_registry}

module _ (lib : Library) where
  unfoldable pub agent_info : Engine → ℕ → List ℕ
  unfolding count_bytes
  agent_info e now =
      lib.encode_announce e.forwarding (count_bytes (λ st. st.bytes_in) e.heap e.peers)
        (count_bytes (λ st. st.bytes_out) e.heap e.peers) now

  -- A frame sealed under the lock: whether it was, and the round with the frame in `sends`.
  unfoldable pub seal_later : Round → ℕ → Session → ℕ → ℕ → List ℕ → Round × Bool
  unfolding set_peer
  seal_later t p s now typ payload =
      let st = t.engine.heap p in
      let st' = record st {
        cur = some (record s { send_nonce = (s.send_nonce + 1) % 2 ^ 64 });
        last_send = now;
      } in
      let frame = sealed_frame p s.cipher typ s.send_nonce payload in
      if lib.can_seal s.send_nonce
      then (record (with_peer t p st') { sends = t.sends ++ (frame ∷ []) }, true)
      else (t, false)

  abbrev pub note_challenge : ℕ → ℕ → Round × Bool → Round
  note_challenge p now (t, true) = with_peer t p (record (t.engine.heap p) { challenge_at = now })
  note_challenge p now (t, false) = t

  abbrev pub challenge_again : Round → ℕ → ℕ → Session → Round
  challenge_again t p now s =
      note_challenge p now (seal_later t p s now frame_auth_challenge (lib.encode_challenge true))

  abbrev pub chase_gated : Round → ℕ → ℕ → Session → Round
  chase_gated t p now s =
      let st = t.engine.heap p in
      if leb st.auth_deadline now
      then with_peer t p (record st { cur = none; prev = none })
      else if is_past st.challenge_at (5 * 10 ^ 9) now
      then challenge_again t p now s
      else t

  -- The challenge of a peer with a second factor: sent again, or given up when its time is over.
  unfoldable pub chase : Round → ℕ → ℕ → Option Session → Round
  unfolding set_peer seal_later
  chase t p now none = t
  chase t p now (some s) =
      let st = t.engine.heap p in
      if responder t.engine.mode && requires_mfa st && not st.authed
      then chase_gated t p now s
      else t

  -- The agent's announce.
  unfoldable pub announce : Round → ℕ → ℕ → Option Session → Round
  unfolding seal_later agent_info
  announce t p now none = t
  announce t p now (some s) =
      let e = t.engine in
      let due =
        is_agent_mode e.mode && (e.heap p).authed && is_past e.announce_at (30 * 10 ^ 9) now in
      let t' = record t { engine = record e { announce_at = now } } in
      if due then (seal_later t' p s now frame_agent_info (agent_info e now)).0 else t

  abbrev pub with_handshake : Round → ℕ → ℕ → Engine × Option (List ℕ) → Round
  with_handshake t p now (e, some msg) = record t {
    engine = e;
    sends = t.sends ++ (raw_frame p msg ∷ []);
  }
  with_handshake t p now (e, none) =
      let st = e.heap p in
      with_peer (record t { engine = e }) p
        (record st {
          attempt = st.attempt + 1;
          next_attempt = now + retry_delay e (st.attempt + 1);
        })

  unfoldable pub dial : Round → ℕ → ℕ → Round
  unfolding give_up is_rekey_due start_client_handshake set_peer retry_delay
  dial t p now =
      let t' = give_up t p now (t.engine.heap p).hs in
      let st = t'.engine.heap p in
      let due = not (has_handshake st.hs) && leb st.next_attempt now in
      if not (dials t.engine.mode)
      then t
      else if due && is_rekey_due t'.engine now st.cur
      then with_handshake t' p now (start_client_handshake lib t'.engine p now)
      else t'

  -- A disabled agent is told so.
  unfoldable pub stand_down : Round → ℕ → ℕ → Option Session → Round
  unfolding set_peer seal_later
  stand_down t p now none = t
  stand_down t p now (some s) =
      let e = t.engine in
      let st = e.heap p in
      let reached = is_server e.mode && is_agent st.cfg.role && st.authed in
      let t' = with_peer t p (record st { cmd_at = now }) in
      if reached && not st.cfg.enabled && is_past st.cmd_at (30 * 10 ^ 9) now
      then (seal_later t' p s now frame_agent_cmd (lib.encode_agent_cmd "disable" "disabled")).0
      else t

  unfoldable pub keep_alive : Round → ℕ → ℕ → Option Session → Round
  unfolding seal_later
  keep_alive t p now none = t
  keep_alive t p now (some s) =
      let e = t.engine in
      let st = e.heap p in
      if not (has_handshake st.hs) && is_past st.last_send e.opts.keepalive_interval now
      then (seal_later t p s now frame_keepalive []).0
      else t

  abbrev pub cur_of : Round → ℕ → Option Session
  cur_of t p = (t.engine.heap p).cur

  -- The body of the loop for one peer.
  unfoldable pub tick_peer : Round → ℕ → ℕ → Round
  unfolding settle expire bury chase waive ask_again announce dial stand_down keep_alive
  tick_peer t p now =
      let t1 = bury (expire (settle t p) p now) p now in
      let t2 = chase t1 p now (cur_of t1 p) in
      let t3 = ask_again (waive t2 p now (cur_of t2 p)) p now in
      let t4 = dial (announce t3 p now (cur_of t3 p)) p now in
      let t5 = stand_down t4 p now (cur_of t4 p) in keep_alive t5 p now (cur_of t5 p)

  unfoldable pub tick_all : Round → List (String × ℕ) → ℕ → Round
  unfolding tick_peer
  tick_all t [] now = t
  tick_all t ((k, p) ∷ rows) now = tick_all (tick_peer t p now) rows now

  abbrev pub prompt_again : Engine → ℕ → Option ℕ → Engine
  prompt_again e now none = e
  prompt_again e now (some p) = handle_auth_challenge lib e p now (lib.encode_challenge true)

  -- Behind the loop: `OnReady`, the prompt, the frames.
  unfoldable pub close_round : Round → ℕ → Engine
  unfolding handle_auth_challenge write_pending
  close_round t now =
      let e = t.engine in
      let ready = if t.on_ready then record e { ready_calls = e.ready_calls + 1 } else e in
      write_pending (prompt_again ready now t.reprompt) t.sends

  -- `tick` behind the reload.
  unfoldable pub timer : Engine → ℕ → Engine
  unfolding tick_all close_round
  timer e now =
      let t : Round = record { engine = e; sends = []; on_ready = false; reprompt = none } in
      close_round (tick_all t e.peers now) now

  -- `tick`, with the two parsers of the registry files and what the reload finds of them.
  unfoldable pub tick :
      (List ℕ → Option Registry) → (List ℕ → Option Registry) → Engine → ℕ → Poll → Poll → Engine
  unfolding reload_registry timer
  tick parse parse_agents e now clients agents =
      timer (reload_registry lib parse parse_agents e now clients agents) now
