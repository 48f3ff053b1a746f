-- ===== src/Registry/Apply.antt =====
-- A reload of a registry (internal/tunnel/registry_runtime.go): peers are added, changed and revoked.
use selfremote.Common.{
  ℕ, ◌+◌, Bool, true, false, not, ◌||◌, String, str_eq, List, [], ◌∷◌, ◌++◌, Option, none, some,
  if◌then◌else◌,
}
use selfremote.Engine.{Engine, PeerState, PeerConfig, is_agent, set_peer, reset_auth}
use selfremote.Engine.Heap.{lookup, insert, remove}

-- The zero `peerState` with a configuration.
abbrev pub new_peer : PeerConfig → Bool → PeerState
new_peer pc is_static = record {
  cfg = pc;
  addr = none;
  cur = none;
  prev = none;
  prev_deadline = 0;
  last_recv = 0;
  last_send = 0;
  drop_at = 0;
  hs = none;
  hs_sent = 0;
  attempt = 0;
  next_attempt = 0;
  info = none;
  announce_at = 0;
  mismatch = false;
  authed = str_eq pc.totp_secret "";
  auth_attempts = 0;
  last_auth_step = 0;
  challenge_at = 0;
  auth_deadline = 0;
  auth_locked_until = 0;
  auth_prompting = false;
  auth_sent_at = 0;
  cmd_at = 0;
  bytes_in = 0;
  bytes_out = 0;
  is_static = is_static;
}

-- `addPeerLocked`: a new object on the heap.
unfoldable pub add_peer : (List ℕ → String) → Engine → PeerConfig → Bool → Engine
add_peer hex e pc is_static = record (set_peer e e.next (new_peer pc is_static)) {
  peers = insert str_eq (hex pc.public_key) e.next e.peers;
  next = e.next + 1;
}

-- `dropPeerLocked`
unfoldable pub drop_peer : Engine → ℕ → Engine
drop_peer e p =
    let st = e.heap p in
    record (set_peer e p (record st { cur = none; prev = none; authed = false })) {
      addr2peer = elim st.addr [ none ↦ e.addr2peer | some a ↦ remove str_eq a e.addr2peer ];
    }

-- A revoked peer: dropped, and no longer in the map.
abbrev pub revoke : Engine → String → ℕ → Engine
revoke e k p =
    let dropped = drop_peer e p in record dropped { peers = remove str_eq k dropped.peers }

-- `if _, ok := m[k]; !ok`
abbrev pub revoke_missing : Engine → String → ℕ → Option PeerConfig → Engine
revoke_missing e k p none = revoke e k p
revoke_missing e k p (some _) = e

-- `p.static || p.cfg.Role == RoleAgent`
abbrev pub is_kept : PeerState → Bool
is_kept st = st.is_static || is_agent st.cfg.role

-- The first loop of `applyRegistryLocked`, over the peers as they were.
unfoldable pub revoke_clients : List (String × PeerConfig) → List (String × ℕ) → Engine → Engine
unfolding drop_peer
revoke_clients m [] e = e
revoke_clients m ((k, p) ∷ rows) e =
    let found = lookup str_eq k m in
    revoke_clients m rows (if is_kept (e.heap p) then e else revoke_missing e k p found)

-- A changed secret arms the gate again.
abbrev pub with_secret : PeerState → String → PeerState
with_secret st secret =
    if str_eq st.cfg.totp_secret secret
    then st
    else reset_auth (record st { cfg = record st.cfg { totp_secret = secret }; auth_attempts = 0 })

abbrev pub update_client : PeerState → PeerConfig → PeerState
update_client st pc =
    let st' = with_secret st pc.totp_secret in
    record st' {
      cfg = record st'.cfg {
        name = pc.name;
        user = pc.user;
        totp_secret = pc.totp_secret;
        tunnel_ip = pc.tunnel_ip;
        allow_agents = pc.allow_agents;
      };
    }

abbrev pub admit_at : (List ℕ → String) → Engine → PeerConfig → Option ℕ → Engine
admit_at hex e pc none = add_peer hex e pc false
admit_at hex e pc (some p) =
    if is_agent (e.heap p).cfg.role then e else set_peer e p (update_client (e.heap p) pc)

abbrev pub admit_client : (List ℕ → String) → Engine → String → PeerConfig → Engine
admit_client hex e k pc = admit_at hex e pc (lookup str_eq k e.peers)

-- The second loop.
unfoldable pub admit_clients : (List ℕ → String) → List (String × PeerConfig) → Engine → Engine
unfolding add_peer
admit_clients hex [] e = e
admit_clients hex ((k, pc) ∷ m) e = admit_clients hex m (admit_client hex e k pc)

-- `applyRegistryLocked`
unfoldable pub apply_registry : (List ℕ → String) → List (String × PeerConfig) → Engine → Engine
unfolding revoke_clients admit_clients
apply_registry hex m e = admit_clients hex m (revoke_clients m e.peers e)

-- A command for an agent, to be sent when the lock is released: enable or disable.
pub record AgentCmdOut : Type 0 where
  pub peer : ℕ
  pub enable : Bool

abbrev pub same_flag : Bool → Bool → Bool
same_flag true b = b
same_flag false b = not b

abbrev pub update_agent : PeerState → PeerConfig → PeerState
update_agent st pc =
    let st' = with_secret st pc.totp_secret in
    record st' {
      cfg = record st'.cfg {
        enabled = pc.enabled;
        name = pc.name;
        tunnel_ip = pc.tunnel_ip;
        routes = pc.routes;
      };
    }

abbrev pub review_found :
    String → ℕ → Engine × List AgentCmdOut → Option PeerConfig → Engine × List AgentCmdOut
review_found k p (e, out) none = (revoke e k p, out)
review_found k p (e, out) (some pc) = (
  set_peer e p (update_agent (e.heap p) pc),
  if same_flag (e.heap p).cfg.enabled pc.enabled
      then out
      else out ++ (record { peer = p; enable = pc.enabled } ∷ []),
)

-- One round of the first loop of `applyAgentRegistryLocked`.
abbrev pub review_agent :
    List (String × PeerConfig) → String → ℕ → Engine × List AgentCmdOut → Engine × List AgentCmdOut
review_agent m k p s =
    if (s.0.heap p).is_static || not (is_agent (s.0.heap p).cfg.role)
    then s
    else review_found k p s (lookup str_eq k m)

unfoldable pub review_agents :
    List (String × PeerConfig)
    → List (String × ℕ)
    → Engine × List AgentCmdOut
    → Engine × List AgentCmdOut
review_agents m [] s = s
review_agents m ((k, p) ∷ rows) s = review_agents m rows (review_agent m k p s)

abbrev pub admit_new : (List ℕ → String) → Engine → PeerConfig → Option ℕ → Engine
admit_new hex e pc none = add_peer hex e pc false
admit_new hex e pc (some _) = e

unfoldable pub admit_agents : (List ℕ → String) → List (String × PeerConfig) → Engine → Engine
admit_agents hex [] e = e
admit_agents hex ((k, pc) ∷ m) e = admit_agents hex m (admit_new hex e pc (lookup str_eq k e.peers))

-- `applyAgentRegistryLocked`
unfoldable pub apply_agent_registry :
    (List ℕ → String) → List (String × PeerConfig) → Engine → Engine × List AgentCmdOut
unfolding review_agents admit_agents
apply_agent_registry hex m e =
    let (reviewed, out) = review_agents m e.peers (e, []) in (admit_agents hex m reviewed, out)
