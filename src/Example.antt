-- ===== src/Example.antt =====
-- A server with one client and one site behind an agent, and a library, to try the code at.
pub mod Heaped
use selfremote.Common.{
  ◌*◌, ◌^◌, ℕ, ◌≡◌, refl, Bool, true, false, String, List, [], ◌∷◌, Option, none, some, ltb, ◌==◌,
  if◌then◌else◌, drop,
}
use selfremote.Net.{Addr, Prefix, v4}
use selfremote.Window.{new_window}
use selfremote.Engine.{
  Options, Engine, PeerState, PeerConfig, PeerRole, role_client, role_agent, Session, server,
  RelayCounters, Mode,
}
use selfremote.Engine.Library.{Library, Answer}
use selfremote.Limiter.{new_limiter}

abbrev pub session : Session
session = record {
  cipher = 7;
  established = 1;
  send_nonce = 0;
  recv_count = 0;
  window = new_window;
}

-- The client at 10.0.0.1 may reach the site; the site's agent publishes 10.0.0.2/32.
abbrev pub config : PeerRole → Addr → PeerConfig
config role_client ip = record {
  name = "laptop";
  user = "ann";
  public_key = 1 ∷ [];
  totp_secret = "";
  id = "";
  role = role_client;
  tunnel_ip = ip;
  routes = [];
  allow_agents = "site" ∷ [];
  enabled = true;
}
config role_agent ip = record {
  name = "site";
  user = "";
  public_key = 2 ∷ [];
  totp_secret = "";
  id = "";
  role = role_agent;
  tunnel_ip = ip;
  routes =
      (record {
        real = record { addr = v4 (10 ∷ 0 ∷ 0 ∷ 2 ∷ []); bits = 32 };
        virtual = record { addr = v4 (10 ∷ 0 ∷ 0 ∷ 2 ∷ []); bits = 32 };
      })
      ∷ [];
  allow_agents = [];
  enabled = true;
}

abbrev pub state : PeerConfig → PeerState
state cfg = record {
  cfg = cfg;
  addr = some "203.0.113.9:4500";
  cur = some session;
  prev = none;
  prev_deadline = 0;
  last_recv = 0;
  last_send = 0;
  drop_at = 0;
  hs = none;
  hs_sent = 0;
  attempt = 0;
  next_attempt = 0;
  info = none;
  announce_at = 0;
  mismatch = false;
  authed = true;
  auth_attempts = 0;
  last_auth_step = 0;
  challenge_at = 0;
  auth_deadline = 0;
  auth_locked_until = 0;
  auth_prompting = false;
  auth_sent_at = 0;
  cmd_at = 0;
  bytes_in = 0;
  bytes_out = 0;
  is_static = false;
}

abbrev pub heap : ℕ → PeerState
heap p = if_agent (p == 1)
  where
    if_agent : Bool → PeerState
    if_agent true = state (config role_agent (v4 (10 ∷ 77 ∷ 0 ∷ 9 ∷ [])))
    if_agent false = state (config role_client (v4 (10 ∷ 0 ∷ 0 ∷ 1 ∷ [])))

abbrev no_counts : RelayCounters
no_counts = record {
  forwarded = 0;
  to_agents = 0;
  to_clients = 0;
  local_icmp = 0;
  no_route = 0;
  denied = 0;
  spoofed = 0;
  offline = 0;
  malformed = 0;
}

abbrev pub options : Options
options = record {
  clients_file = "clients.json";
  agents_file = "agents.json";
  agent_id = "";
  mfa_secret = "";
  has_prompt = true;
  handshake_retry = 2 * 10 ^ 9;
  handshake_backoff = 10 * 10 ^ 9;
  handshake_attempts = 5;
  keepalive_interval = 10 * 10 ^ 9;
  dead_timeout = 25 * 10 ^ 9;
  rekey_interval = 120 * 10 ^ 9;
  rekey_packets = 2 ^ 20;
  session_grace = 30 * 10 ^ 9;
}

abbrev pub blank : Engine
blank = record {
  mode = server;
  heap = heap;
  peers = ("k1", 0) ∷ ("k2", 1) ∷ [];
  next = 2;
  addr2peer = [];
  handshakes = 0;
  routes = [];
  clients_by_ip = [];
  agents_by_ip = [];
  local_addr = v4 (10 ∷ 77 ∷ 0 ∷ 1 ∷ []);
  conflicts = [];
  relay = no_counts;
  sent = [];
  raw = [];
  opts = options;
  reg = record { mod_time = 0; was_read = false; missing = false };
  areg = record { mod_time = 0; was_read = false; missing = false };
  hs_limiter = new_limiter;
  hs_log_at = 0;
  translator = record { maps = []; local_addrs = [] };
  forwarding = true;
  announce_at = 0;
  agent_drops = 0;
  agent_drop_log = 0;
  client_ready = false;
  ready_calls = 0;
  info_calls = 0;
  prompts = [];
  fatal = none;
  redials = 0;
  written = [];
}

abbrev pub sealable : ℕ → Bool
sealable n = ltb n 1000

-- A key of 32 bytes that starts with the given one.
abbrev pub key : ℕ → List ℕ
key n =
    n ∷ 0 ∷ 0 ∷ 0 ∷ 0 ∷ 0 ∷ 0 ∷ 0 ∷ 0 ∷ 0 ∷ 0 ∷ 0 ∷ 0 ∷ 0 ∷ 0 ∷ 0 ∷ 0 ∷ 0 ∷ 0 ∷ 0 ∷ 0 ∷ 0 ∷ 0 ∷ 0
    ∷ 0 ∷ 0 ∷ 0 ∷ 0 ∷ 0 ∷ 0 ∷ 0 ∷ 0 ∷ []

abbrev pub hex : List ℕ → String
hex [] = ""
hex (b ∷ bs) = if b == 1 then "k1" else if b == 2 then "k2" else "k3"

-- Cipher 7 opens every frame as it stands; a first message starts with its static key's first byte.
abbrev opened : ℕ → ℕ → List ℕ → Option (List ℕ)
opened cipher nonce frame = if cipher == 7 then some (drop 10 frame) else none

abbrev read_init : List ℕ → Option (List ℕ)
read_init [] = none
read_init (b ∷ bs) = some (key b)

abbrev pub library : Library
library = record {
  can_seal = sealable;
  opened = opened;
  read_init = read_init;
  respond = λ payload. some (2 ∷ [], 8);
  initiate = λ public_key now. some (1 ∷ [], 9);
  read_resp = λ hs payload. some 9;
  generate = λ secret step. some (step ∷ step ∷ step ∷ step ∷ step ∷ step ∷ []);
  hex = hex;
  print_prefix = λ p. "prefix";
  decode_code = λ pt. some pt;
  decode_challenge = λ pt. some true;
  decode_result = λ pt. some (true, "");
  decode_server_info = λ pt. some [];
  decode_agent_info = λ pt. none;
  decode_agent_cmd = λ pt. some ("disable", "");
  encode_answer = λ a. [];
  encode_challenge = λ required. [];
  encode_code = λ code. code;
  encode_server_info = λ required mode sites. [];
  encode_announce = λ serving rx tx now. [];
  encode_agent_cmd = λ cmd reason. [];
}

-- The client with a second factor that it has not passed.
abbrev pub guarded : PeerState
guarded =
    let st = state (config role_client (v4 (10 ∷ 0 ∷ 0 ∷ 1 ∷ []))) in
    record st {
      cfg = record st.cfg { totp_secret = "GEZDGNBV" };
      authed = false;
      auth_attempts = 2;
    }
