-- ===== src/Engine.antt =====
-- The state of a tunnel endpoint (internal/tunnel/tunnel.go, engine.go, registry.go): peers as
-- objects on a heap, the maps that point to them, and the send path. Times are nanoseconds, 0 the
-- zero time; a handler takes the one time that it acts at. Sealing is symbolic: what is sent names
-- the session, the frame type, the nonce and the plaintext. `hs` names a pending handshake.
pub mod Config
pub mod Heap
pub mod Names
pub mod Library
pub mod Tables
use selfremote.Common.{
  ℕ, ◌+◌, ◌%◌, ◌^◌, Bool, true, false, not, ◌&&◌, ◌||◌, String, str_eq, List, [], ◌∷◌, ◌++◌, Option,
  none, some, ltb, leb, ◌==◌, if◌then◌else◌, length,
}
use selfremote.Net.{Addr, Prefix}
use selfremote.Translate.Route.{RouteMap}
use selfremote.Window.{RecvWindow}
use selfremote.Translate.{Translator}
use selfremote.Limiter.{Limiter}
use Config.{PeerConfig, Mode, Options}
pub use Config.*
unfoldable pub use Config.{responder, dials, config_id, apply_defaults}
use Heap.{update}

-- `cipher` stands for the pair of cipher states of the session.
pub record Session : Type 0 where
  pub cipher : ℕ
  pub established : ℕ
  pub send_nonce : ℕ
  pub recv_count : ℕ
  pub window : RecvWindow

-- The fields of an announce that the server compares or shows.
pub record AgentInfo : Type 0 where
  pub id : String
  pub hostname : String
  pub version : String
  pub tunnel_ip : String
  pub serving : Bool
  pub uptime_s : ℕ
  pub routes : List String
  pub rx_bytes : ℕ
  pub tx_bytes : ℕ
  pub ts : String

pub record PeerState : Type 0 where
  pub cfg : PeerConfig
  pub addr : Option String
  pub cur : Option Session
  pub prev : Option Session
  pub prev_deadline : ℕ
  pub last_recv : ℕ
  pub last_send : ℕ
  pub drop_at : ℕ
  -- The dialling side: the pending handshake and its retries.
  pub hs : Option ℕ
  pub hs_sent : ℕ
  pub attempt : ℕ
  pub next_attempt : ℕ
  -- The server: what an agent announced last.
  pub info : Option AgentInfo
  pub announce_at : ℕ
  pub mismatch : Bool
  pub authed : Bool
  pub auth_attempts : ℕ
  pub last_auth_step : ℕ
  pub challenge_at : ℕ
  pub auth_deadline : ℕ
  pub auth_locked_until : ℕ
  pub auth_prompting : Bool
  pub auth_sent_at : ℕ
  pub cmd_at : ℕ
  pub bytes_in : ℕ
  pub bytes_out : ℕ
  pub is_static : Bool

unfoldable pub requires_mfa : PeerState → Bool
requires_mfa p = not (str_eq p.cfg.totp_secret "")

unfoldable pub reset_auth : PeerState → PeerState
reset_auth p = record p { authed = not (requires_mfa p) }

-- What leaves the engine: a sealed frame for a peer, with the address it goes to.
pub record Sent : Type 0 where
  pub peer : ℕ
  pub cipher : ℕ
  pub typ : ℕ
  pub nonce : ℕ
  pub payload : List ℕ
  pub addr : Option String

-- A handshake message as it is written.
pub record Raw : Type 0 where
  pub peer : ℕ
  pub bytes : List ℕ
  pub addr : Option String

pub record RelayCounters : Type 0 where
  pub forwarded : ℕ
  pub to_agents : ℕ
  pub to_clients : ℕ
  pub local_icmp : ℕ
  pub no_route : ℕ
  pub denied : ℕ
  pub spoofed : ℕ
  pub offline : ℕ
  pub malformed : ℕ

pub record RouteEntry : Type 0 where
  pub dest : Prefix
  pub peer : ℕ

-- What is remembered of a registry file: its time, whether it was read, whether it was missing.
pub record FileState : Type 0 where
  pub mod_time : ℕ
  pub was_read : Bool
  pub missing : Bool

pub record Engine : Type 0 where
  pub mode : Mode
  pub heap : ℕ → PeerState
  -- The maps, as association lists in the order of iteration; peers are pointers into the heap.
  pub peers : List (String × ℕ)
  pub next : ℕ
  pub addr2peer : List (String × ℕ)
  pub handshakes : ℕ
  pub routes : List RouteEntry
  pub clients_by_ip : List (Addr × ℕ)
  pub agents_by_ip : List (Addr × ℕ)
  pub local_addr : Addr
  pub conflicts : List (String × String × Prefix)
  pub relay : RelayCounters
  pub sent : List Sent
  pub raw : List Raw
  pub opts : Options
  -- The registry files, and the limit of handshakes.
  pub reg : FileState
  pub areg : FileState
  pub hs_limiter : Limiter
  pub hs_log_at : ℕ
  -- Agent mode: translation, the forwarding gate, the announce, the drops at the edge.
  pub translator : Translator
  pub forwarding : Bool
  pub announce_at : ℕ
  pub agent_drops : ℕ
  pub agent_drop_log : ℕ
  -- The dialling side: readiness, the calls of `OnReady`, `OnInfo` and the prompt, the fatal error.
  pub client_ready : Bool
  pub ready_calls : ℕ
  pub info_calls : ℕ
  pub prompts : List (ℕ × ℕ)
  pub fatal : Option String
  pub redials : ℕ
  -- Packets written to the device.
  pub written : List (List ℕ)

-- A write to the object `p` points to.
unfoldable pub set_peer : Engine → ℕ → PeerState → Engine
set_peer e p s = record e { heap = update e.heap p s }

-- The frame types of the wire format.
abbrev pub frame_data : ℕ
frame_data = 0x03

abbrev pub frame_keepalive : ℕ
frame_keepalive = 0x04

abbrev pub frame_auth_challenge : ℕ
frame_auth_challenge = 0x06

abbrev pub frame_auth_resp : ℕ
frame_auth_resp = 0x07

abbrev pub frame_auth_result : ℕ
frame_auth_result = 0x08

abbrev pub frame_info : ℕ
frame_info = 0x09

abbrev pub frame_bye : ℕ
frame_bye = 0x0a

abbrev pub frame_agent_info : ℕ
frame_agent_info = 0x0b

abbrev pub frame_agent_cmd : ℕ
frame_agent_cmd = 0x0c

-- Header of ten bytes, the ciphertext and its tag of sixteen.
abbrev pub frame_size : List ℕ → ℕ
frame_size payload = 10 + length payload + 16

abbrev pub frame_of : Engine → ℕ → Session → ℕ → List ℕ → Sent
frame_of e p s typ payload = record {
  peer = p;
  cipher = s.cipher;
  typ = typ;
  nonce = s.send_nonce;
  payload = payload;
  addr = (e.heap p).addr;
}

-- `sealDataFrame` with `cs.Encrypt` of the Noise library: `can_seal` says for which nonces the
-- library encrypts.
module _ (can_seal : ℕ → Bool) where
  -- The sealing under the lock, the session with its next nonce, and `writeWire`, which counts
  -- the bytes and writes the frame if the peer has an address.
  unfoldable pub seal_on : Engine → ℕ → Session → ℕ → ℕ → List ℕ → Engine × Bool
  unfolding set_peer
  seal_on e p s now typ payload =
      if can_seal s.send_nonce
      then (let st = e.heap p in
          let next : PeerState = record st {
            cur = some (record s { send_nonce = (s.send_nonce + 1) % 2 ^ 64 });
            last_send = now;
            bytes_out = (st.bytes_out + frame_size payload) % 2 ^ 64;
          } in
          (record (set_peer e p next) { sent = e.sent ++ (frame_of e p s typ payload ∷ []) }, true))
      else (e, false)

  -- `sendSealed`
  unfoldable pub send_sealed : Engine → ℕ → ℕ → ℕ → List ℕ → Engine
  unfolding seal_on
  send_sealed e p now typ payload = elim (e.heap p).cur [
    | none ↦ e
    | some s ↦ (seal_on e p s now typ payload).0
  ]

  -- `sendTo`: the server relay's send of one IP packet.
  unfoldable pub send_to : Engine → ℕ → ℕ → List ℕ → Engine × Bool
  unfolding seal_on
  send_to e p now pkt = elim (e.heap p).cur [
    | none ↦ (e, false)
    | some s ↦ if (e.heap p).authed then seal_on e p s now frame_data pkt else (e, false)
  ]
