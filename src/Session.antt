-- ===== src/Session.antt =====
-- Sessions and handshakes (internal/tunnel/engine.go): `installSession`, both handshake handlers,
-- the initiator's message, and the server's information for a peer (internal/tunnel/auth.go).
pub mod Holds
pub mod Guard
mod Tests
use selfremote.Common.{
  ℕ, ◌+◌, ◌*◌, ◌%◌, ◌^◌, Bool, true, false, not, ◌&&◌, ◌||◌, String, str_eq, List, [], ◌∷◌, ◌++◌,
  Option, none, some, ltb, map, ◌==◌, if◌then◌else◌, length,
}
use selfremote.Common.Text.{str_less}
use selfremote.Net.{Prefix, prefix_eq}
use selfremote.Window.{new_window}
use selfremote.Engine.{
  Engine, PeerState, Session, RouteEntry, Raw, Mode, server, gateway, client, agent, set_peer,
  requires_mfa, is_server, send_sealed, frame_auth_challenge, frame_info,
}
use selfremote.Engine.Heap.{lookup, insert}
use selfremote.Engine.Library.{Library}
use selfremote.Engine.Tables.Sorting.{sort_by}

abbrev pub new_session : ℕ → ℕ → Session
new_session cipher now = record {
  cipher = cipher;
  established = now;
  send_nonce = 0;
  recv_count = 0;
  window = new_window;
}

abbrev pub begin_session : ℕ → ℕ → PeerState → PeerState
begin_session cipher now st = record st {
  cur = some (new_session cipher now);
  hs = none;
  attempt = 0;
  next_attempt = 0;
  last_recv = now;
  last_send = now;
}

-- `installSession`: the old session, if there is one, becomes the previous.
abbrev pub with_session : Engine → ℕ → ℕ → PeerState → Option Session → PeerState
with_session e cipher now st none = begin_session cipher now st
with_session e cipher now st (some old) = record (begin_session cipher now st) {
  prev = some old;
  prev_deadline = now + e.opts.session_grace;
}

unfoldable pub install_session : Engine → ℕ → ℕ → ℕ → Engine
unfolding set_peer
install_session e p cipher now =
    record (set_peer e p (with_session e cipher now (e.heap p) (e.heap p).cur)) {
      handshakes = (e.handshakes + 1) % 2 ^ 64;
    }

-- `writeWire` on a handshake message.
unfoldable pub write_raw : Engine → ℕ → List ℕ → Engine
unfolding set_peer
write_raw e p bytes =
    let st = e.heap p in
    record (set_peer e p (record st { bytes_out = (st.bytes_out + length bytes) % 2 ^ 64 })) {
      raw = e.raw ++ (record { peer = p; bytes = bytes; addr = st.addr } ∷ []);
    }

abbrev pub seen_prefix : Prefix → List Prefix → Bool
seen_prefix p [] = false
seen_prefix p (q ∷ qs) = prefix_eq q p || seen_prefix p qs

-- The loop over the routes in `serverInfoJSON`.
unfoldable pub enabled_sites : (ℕ → PeerState) → List RouteEntry → List Prefix → List Prefix
enabled_sites heap [] seen = []
enabled_sites heap (r ∷ rs) seen =
    let rest = enabled_sites heap rs seen in
    let rest' = enabled_sites heap rs (r.dest ∷ seen) in
    if not (heap r.peer).cfg.enabled || seen_prefix r.dest seen then rest else r.dest ∷ rest'

-- `retryDelay`
unfoldable pub retry_delay : Engine → ℕ → ℕ
retry_delay e attempt =
    if ltb attempt e.opts.handshake_attempts
    then e.opts.handshake_retry
    else e.opts.handshake_backoff

-- `anyPeerLocked`
abbrev pub first_peer : List (String × ℕ) → Option ℕ
first_peer [] = none
first_peer ((k, p) ∷ rows) = some p

module _ (lib : Library) where
  -- `serverInfoJSON`
  unfoldable pub server_info : Engine → ℕ → List ℕ
  unfolding enabled_sites
  server_info e p =
      let sites = sort_by str_less (map lib.print_prefix (enabled_sites e.heap e.routes [])) in
      lib.encode_server_info (requires_mfa (e.heap p)) e.mode
        (if is_server e.mode then sites else [])

  -- `peerByPub`
  unfoldable pub peer_by_pub : Engine → List ℕ → Option ℕ
  peer_by_pub e key = if length key == 32 then lookup str_eq (lib.hex key) e.peers else none

  -- The end of `handleHandshakeInit`: the challenge is armed and sent, then the information.
  unfoldable pub greet : Engine → ℕ → ℕ → Engine
  unfolding set_peer server_info
  greet e p now =
      let st = e.heap p in
      let required = requires_mfa st && not st.authed in
      let armed =
        if required
        then set_peer e p (record st {
          auth_attempts = 0;
          auth_deadline = now + 120 * 10 ^ 9;
          challenge_at = now;
        })
        else e in
      let challenged =
        send_sealed lib.can_seal armed p now frame_auth_challenge (lib.encode_challenge required) in
      send_sealed lib.can_seal challenged p now frame_info (server_info challenged p)

  -- The answer to a first message: the peer is where it came from, with the session agreed.
  abbrev pub accept_init : Engine → String → ℕ → ℕ → Option (List ℕ × ℕ) → Engine
  accept_init e addr p now none = e
  accept_init e addr p now (some (msg, cipher)) =
      let found = record (set_peer e p (record (e.heap p) { addr = some addr })) {
        addr2peer = insert str_eq addr p e.addr2peer;
      } in
      greet (write_raw (install_session found p cipher now) p msg) p now

  -- A locked-out peer is not answered.
  abbrev pub answer_init : Engine → String → List ℕ → ℕ → Option ℕ → Engine
  answer_init e addr payload now none = e
  answer_init e addr payload now (some p) =
      if requires_mfa (e.heap p) && ltb now (e.heap p).auth_locked_until
      then e
      else accept_init e addr p now (lib.respond payload)

  abbrev pub read_static : Engine → String → List ℕ → ℕ → Option (List ℕ) → Engine
  read_static e addr payload now none = e
  read_static e addr payload now (some key) = answer_init e addr payload now (peer_by_pub e key)

  -- `handleHandshakeInit`
  unfoldable pub handle_handshake_init : Engine → String → List ℕ → ℕ → Engine
  unfolding set_peer install_session write_raw greet peer_by_pub
  handle_handshake_init e addr payload now = read_static e addr payload now (lib.read_init payload)

  -- `startClientHandshakeLocked`: the message to write, or nothing on an error.
  abbrev pub started : Engine → ℕ → ℕ → Option (List ℕ × ℕ) → Engine × Option (List ℕ)
  started e p now none = (e, none)
  started e p now (some (msg, hs)) =
      (set_peer e p (record (e.heap p) { hs = some hs; hs_sent = now; last_send = now }), some msg)

  unfoldable pub start_client_handshake : Engine → ℕ → ℕ → Engine × Option (List ℕ)
  unfolding set_peer
  start_client_handshake e p now = started e p now (lib.initiate (e.heap p).cfg.public_key now)

  -- `handleHandshakeResp` behind the tests for a peer and a pending handshake.
  abbrev pub finish_handshake : Engine → ℕ → ℕ → Option ℕ → Engine
  finish_handshake e p now none =
      let st = e.heap p in
      set_peer e p (record st {
        hs = none;
        attempt = st.attempt + 1;
        next_attempt = now + retry_delay e (st.attempt + 1);
      })
  finish_handshake e p now (some cipher) =
      let installed = install_session e p cipher now in
      set_peer installed p (record (installed.heap p) { authed = false; auth_sent_at = 0 })

  abbrev pub resume_handshake : Engine → ℕ → List ℕ → ℕ → Option ℕ → Engine
  resume_handshake e p payload now none = e
  resume_handshake e p payload now (some hs) = finish_handshake e p now (lib.read_resp hs payload)

  abbrev pub resp_to : Engine → List ℕ → ℕ → Option ℕ → Engine
  resp_to e payload now none = e
  resp_to e payload now (some p) = resume_handshake e p payload now (e.heap p).hs

  unfoldable pub handle_handshake_resp : Engine → List ℕ → ℕ → Engine
  unfolding set_peer install_session retry_delay
  handle_handshake_resp e payload now = resp_to e payload now (first_peer e.peers)
