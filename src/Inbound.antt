-- ===== src/Inbound.antt =====
-- Datagrams as they arrive (internal/tunnel/engine.go): `handlePacket`, `handleData`, `deliverData`,
-- and the drops that are noted at the edge (internal/tunnel/hslimit.go, relay.go).
pub mod Open
pub mod Entitled
mod Tests
use selfremote.Common.{
  ℕ, ◌+◌, ◌*◌, ◌%◌, ◌^◌, Bool, true, false, not, ◌&&◌, ◌||◌, String, str_eq, List, [], ◌∷◌, ◌++◌,
  Option, none, some, ltb, leb, ◌==◌, if◌then◌else◌, length, drop,
}
use selfremote.Packet.{Parse, ok, bad, hang}
use selfremote.Translate.{to_local}
use selfremote.Frame.{Frame, short_frame, bad_version, frame, parse_frame, data_nonce}
use selfremote.Limiter.{allow, dropped_since}
use selfremote.Engine.{
  Engine, PeerState, is_server, is_agent_mode, Mode, gateway, server, client, agent, responder,
  dials, requires_mfa, reset_auth, set_peer, frame_data, frame_keepalive, frame_auth_challenge,
  frame_auth_resp, frame_auth_result, frame_info, frame_bye, frame_agent_info, frame_agent_cmd,
}
use selfremote.Engine.Heap.{insert}
use selfremote.Engine.Library.{Library}
use selfremote.Auth.{handle_auth_resp}
use selfremote.Auth.Dialler.{handle_auth_challenge, handle_auth_result, handle_info}
use selfremote.Agent.{handle_agent_info, handle_agent_cmd}
use selfremote.Relay.{relay_from_peer}
use selfremote.Session.{handle_handshake_init, handle_handshake_resp, server_info}
use Open.{Opened, open_frame}

-- Where a datagram came from: the endpoint and its address. A dialling mode reads from a connected
-- socket, which names no source.
pub record Source : Type 0 where
  pub endpoint : String
  pub ip : String

-- `noteHSDrop` without its log line: the count of drops starts again.
unfoldable pub note_hs_drop : Engine → ℕ → Engine
note_hs_drop e now =
    if e.hs_log_at == 0 || ltb (e.hs_log_at + 60 * 10 ^ 9) now
    then record e { hs_log_at = now; hs_limiter = (dropped_since e.hs_limiter).0 }
    else e

-- `dropAt` without its log line.
unfoldable pub drop_at_edge : Engine → ℕ → Engine
drop_at_edge e now =
    let counted = record e { agent_drops = (e.agent_drops + 1) % 2 ^ 64 } in
    if not (e.agent_drop_log == 0) && ltb now (e.agent_drop_log + 5 * 10 ^ 9)
    then counted
    else record counted { agent_drop_log = now }

abbrev pub write_device : Engine → List ℕ → Engine
write_device e pkt = record e { written = e.written ++ (pkt ∷ []) }

abbrev pub deliver_local : Engine → ℕ → Parse (List ℕ × Bool) → Parse Engine
deliver_local e now (ok (out, true)) = ok (write_device e out)
deliver_local e now (ok (out, false)) = ok (drop_at_edge e now)
deliver_local e now bad = ok (drop_at_edge e now)
deliver_local e now hang = hang

-- The state of the sender behind the lock: when it was heard, what it sent, where it is.
abbrev pub heard : Engine → Option Source → List ℕ → ℕ → Opened → Engine
heard e none frm now o =
    set_peer e o.peer
      (record o.state { last_recv = now; bytes_in = (o.state.bytes_in + length frm) % 2 ^ 64 })
heard e (some from) frm now o =
    record (set_peer e o.peer (record o.state {
      last_recv = now;
      bytes_in = (o.state.bytes_in + length frm) % 2 ^ 64;
      addr = some from.endpoint;
    })) { addr2peer = insert str_eq from.endpoint o.peer e.addr2peer }

-- A responder's peer with a second factor that has not passed it yet.
unfoldable pub is_gated : Mode → PeerState → Bool
is_gated mode st = responder mode && requires_mfa st && not st.authed

abbrev pub endpoint_of : Option Source → Option String
endpoint_of none = none
endpoint_of (some from) = some from.endpoint

abbrev pub on_bye : Engine → ℕ → Engine
on_bye e p = set_peer e p (reset_auth (record (e.heap p) { cur = none; prev = none }))

module _ (lib : Library) (fuel : ℕ) where
  abbrev pub deliver_in : Mode → Engine → ℕ → ℕ → List ℕ → Parse Engine
  deliver_in server e p now pkt = relay_from_peer lib.can_seal fuel e p now pkt
  deliver_in agent e p now pkt = deliver_local e now (to_local fuel e.translator pkt)
  deliver_in client e p now pkt = ok (write_device e pkt)
  deliver_in gateway e p now pkt = ok (write_device e pkt)

  -- `deliverData`
  unfoldable pub deliver_data : Engine → ℕ → ℕ → List ℕ → Parse Engine
  deliver_data e p now [] = ok e
  deliver_data e p now (b ∷ bs) = deliver_in e.mode e p now (b ∷ bs)

  abbrev pub on_auth_resp : Engine → ℕ → ℕ → List ℕ → Engine
  on_auth_resp e p now pt =
      handle_auth_resp lib.generate lib.can_seal lib.encode_answer (server_info lib) e p now
        (lib.decode_code pt)

  -- The control frames in `handleData`.
  unfoldable pub on_control : Engine → ℕ → ℕ → ℕ → List ℕ → Engine
  unfolding set_peer reset_auth
  on_control e p now typ pt =
      if typ == frame_keepalive
      then e
      else if typ == frame_bye
      then (if responder e.mode then on_bye e p else e)
      else if typ == frame_auth_resp
      then (if responder e.mode then on_auth_resp e p now pt else e)
      else if typ == frame_auth_challenge
      then (if dials e.mode then handle_auth_challenge lib e p now pt else e)
      else if typ == frame_auth_result
      then (if dials e.mode then handle_auth_result lib e p now pt else e)
      else if typ == frame_info
      then (if dials e.mode then handle_info lib e pt else e)
      else if typ == frame_agent_info
      then (if is_server e.mode then handle_agent_info lib e p now pt else e)
      else if is_agent_mode e.mode
      then handle_agent_cmd lib e p now pt
      else e

  abbrev pub after_open : Engine → Option Source → ℕ → ℕ → List ℕ → Option Opened → Parse Engine
  after_open e from typ now frm none = ok e
  after_open e from typ now frm (some o) =
      let told = heard e from frm now o in
      if typ == frame_data
      then (if is_gated e.mode o.state then ok told else deliver_data told o.peer now o.plain)
      else ok (on_control told o.peer now typ o.plain)

  -- `handleData` on a frame of the given type and nonce.
  unfoldable pub handle_data : Engine → Option Source → ℕ → ℕ → ℕ → List ℕ → Parse Engine
  unfolding deliver_data on_control is_gated
  handle_data e from typ nonce now frm =
      after_open e from typ now frm (open_frame lib nonce now frm e (endpoint_of from))

  abbrev pub with_nonce : Engine → Option Source → ℕ → ℕ → List ℕ → Option ℕ → Parse Engine
  with_nonce e from typ now frm none = ok e
  with_nonce e from typ now frm (some nonce) = handle_data e from typ nonce now frm

  -- A first message within its source's limit. A source is known where one is answered.
  abbrev pub on_init : Engine → Option Source → List ℕ → ℕ → Engine
  on_init e none payload now = e
  on_init e (some from) payload now =
      let (limiter, allowed) = allow e.hs_limiter from.ip now in
      let counted = record e { hs_limiter = limiter } in
      if allowed
      then handle_handshake_init lib counted from.endpoint payload now
      else note_hs_drop counted now

  -- `handlePacket` behind the parse of the frame; the reserved type 0x05 and unknown types do nothing.
  unfoldable pub on_frame : Engine → Option Source → ℕ → List ℕ → ℕ → List ℕ → Parse Engine
  unfolding handle_data note_hs_drop
  on_frame e from typ payload now frm =
      if typ == 0x01
      then ok (if responder e.mode then on_init e from payload now else e)
      else if typ == 0x02
      then ok (if dials e.mode then handle_handshake_resp lib e payload now else e)
      else if (leb frame_data typ && leb typ frame_keepalive)
          || (leb frame_auth_challenge typ && leb typ frame_agent_cmd)
      then with_nonce e from typ now frm (data_nonce payload)
      else ok e

  abbrev pub on_parsed : Engine → Option Source → ℕ → List ℕ → Frame → Parse Engine
  on_parsed e from now frm short_frame = ok e
  on_parsed e from now frm bad_version = ok e
  on_parsed e from now frm (frame typ payload) = on_frame e from typ payload now frm

  -- `handlePacket`
  unfoldable pub handle_packet : Engine → Option Source → ℕ → List ℕ → Parse Engine
  unfolding on_frame
  handle_packet e from now frm = on_parsed e from now frm (parse_frame frm)
