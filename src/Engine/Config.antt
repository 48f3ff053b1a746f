-- ===== src/Engine/Config.antt =====
-- What a tunnel endpoint is configured with (internal/tunnel/tunnel.go): modes, peers, options.
use selfremote.Common.{ℕ, ◌*◌, ◌^◌, Bool, true, false, String, str_eq, List, if◌then◌else◌, ◌==◌}
use selfremote.Net.{Addr}
use selfremote.Translate.Route.{RouteMap}

pub data Mode : Type 0 where
  gateway client agent server : Mode

unfoldable pub responder : Mode → Bool
responder gateway = true
responder server = true
responder _ = false

unfoldable pub dials : Mode → Bool
dials client = true
dials agent = true
dials _ = false

abbrev pub is_server : Mode → Bool
is_server server = true
is_server gateway = false
is_server client = false
is_server agent = false

abbrev pub is_agent_mode : Mode → Bool
is_agent_mode agent = true
is_agent_mode client = false
is_agent_mode server = false
is_agent_mode gateway = false

pub data PeerRole : Type 0 where
  role_client role_agent : PeerRole

abbrev pub is_agent : PeerRole → Bool
is_agent role_client = false
is_agent role_agent = true

pub record PeerConfig : Type 0 where
  pub name : String
  pub user : String
  pub public_key : List ℕ
  pub totp_secret : String
  pub id : String
  pub role : PeerRole
  pub tunnel_ip : Addr
  pub routes : List RouteMap
  pub allow_agents : List String
  pub enabled : Bool

-- `pc.id()`
unfoldable pub config_id : PeerConfig → String
config_id pc = if str_eq pc.id "" then pc.name else pc.id

-- The options that the code below reads. Durations are nanoseconds, as they are set, 0 if not.
pub record Options : Type 0 where
  pub clients_file : String
  pub agents_file : String
  pub agent_id : String
  pub mfa_secret : String
  pub has_prompt : Bool
  pub handshake_retry : ℕ
  pub handshake_backoff : ℕ
  pub handshake_attempts : ℕ
  pub keepalive_interval : ℕ
  pub dead_timeout : ℕ
  pub rekey_interval : ℕ
  pub rekey_packets : ℕ
  pub session_grace : ℕ

abbrev pub or_default : ℕ → ℕ → ℕ
or_default n d = if n == 0 then d else n

-- `o.applyDefaults()`
unfoldable pub apply_defaults : Options → Options
apply_defaults o = record o {
  handshake_retry = or_default o.handshake_retry (2 * 10 ^ 9);
  handshake_backoff = or_default o.handshake_backoff (10 * 10 ^ 9);
  handshake_attempts = or_default o.handshake_attempts 5;
  keepalive_interval = or_default o.keepalive_interval (10 * 10 ^ 9);
  dead_timeout = or_default o.dead_timeout (25 * 10 ^ 9);
  rekey_interval = or_default o.rekey_interval (120 * 10 ^ 9);
  rekey_packets = or_default o.rekey_packets (2 ^ 20);
  session_grace = or_default o.session_grace (30 * 10 ^ 9);
}
