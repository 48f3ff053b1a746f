-- ===== src/Agent.antt =====
-- Site agents (internal/tunnel/agent.go): the announce and its comparison with the registry, the
-- control commands on both sides.
pub mod Same
mod Tests
use selfremote.Common.{
  ℕ, ◌+◌, ◌%◌, ◌^◌, Bool, true, false, not, ◌&&◌, String, str_eq, List, [], ◌∷◌, Option, none, some,
  ◌==◌, if◌then◌else◌, length, map,
}
use Prim.Native.String.{◌++◌ as str_append}
use selfremote.Common.Text.{str_less}
use selfremote.Net.{Prefix}
use selfremote.Translate.Route.{RouteMap}
use selfremote.Engine.{
  Engine, PeerState, PeerConfig, AgentInfo, set_peer, reset_auth, requires_mfa, config_id, is_agent,
  send_sealed, frame_agent_cmd,
}
use selfremote.Engine.Library.{Library}
use selfremote.Engine.Tables.Sorting.{sort_by}

abbrev pub equal_texts : List String → List String → Bool
equal_texts [] [] = true
equal_texts (a ∷ as') (b ∷ bs) = str_eq a b && equal_texts as' bs
equal_texts _ _ = false

-- `sameRoutes(a, b)`
unfoldable pub same_routes : List String → List String → Bool
same_routes a b =
    if length a == length b then equal_texts (sort_by str_less a) (sort_by str_less b) else false

-- `m.String()`
unfoldable pub route_string : (Prefix → String) → RouteMap → String
route_string print m = str_append (print m.real) (str_append "=" (print m.virtual))

-- `AgentRouteStrings`
unfoldable pub agent_route_strings : (Prefix → String) → List RouteMap → List String
unfolding route_string
agent_route_strings print [] = []
agent_route_strings print (m ∷ ms) = route_string print m ∷ agent_route_strings print ms

module _ (lib : Library) where
  abbrev pub note_info : Engine → ℕ → ℕ → Option AgentInfo → Engine
  note_info e p now none = e
  note_info e p now (some info) =
      let st = e.heap p in
      set_peer e p (record st {
        info = some info;
        announce_at = now;
        mismatch =
            not (same_routes (agent_route_strings lib.print_prefix st.cfg.routes) info.routes);
      })

  -- `handleAgentInfo`
  unfoldable pub handle_agent_info : Engine → ℕ → ℕ → List ℕ → Engine
  unfolding set_peer same_routes agent_route_strings
  handle_agent_info e p now pt = note_info e p now (lib.decode_agent_info pt)

  -- The four commands; any other is passed over.
  unfoldable pub obey : Engine → ℕ → ℕ → String → Engine
  unfolding set_peer
  obey e p now cmd =
      if str_eq cmd "disable"
      then record e { forwarding = false }
      else if str_eq cmd "enable"
      then record e { forwarding = true }
      else if str_eq cmd "kick"
      then set_peer e p (record (e.heap p) {
        cur = none;
        prev = none;
        authed = false;
        auth_sent_at = 0;
        next_attempt = now;
        hs = none;
      })
      else if str_eq cmd "stat"
      then record e { announce_at = 0 }
      else e

  abbrev pub obey_message : Engine → ℕ → ℕ → Option (String × String) → Engine
  obey_message e p now none = e
  obey_message e p now (some (cmd, reason)) = obey e p now cmd

  -- `handleAgentCmd`
  unfoldable pub handle_agent_cmd : Engine → ℕ → ℕ → List ℕ → Engine
  unfolding obey
  handle_agent_cmd e p now pt = obey_message e p now (lib.decode_agent_cmd pt)

  -- `sendAgentCmd`
  unfoldable pub send_agent_cmd : Engine → ℕ → ℕ → String → String → Engine
  send_agent_cmd e p now cmd reason =
      send_sealed lib.can_seal e p now frame_agent_cmd (lib.encode_agent_cmd cmd reason)

  -- `agentByIDLocked`
  unfoldable pub agent_by_id : (ℕ → PeerState) → List (String × ℕ) → String → Option ℕ
  agent_by_id heap [] id = none
  agent_by_id heap ((k, p) ∷ rows) id =
      let rest = agent_by_id heap rows id in
      if is_agent (heap p).cfg.role && str_eq (config_id (heap p).cfg) id then some p else rest

  -- `p.cur, p.prev = nil, nil` and `p.resetAuth()`
  abbrev pub drop_and_reset : PeerState → PeerState
  drop_and_reset st = reset_auth (record st { cur = none; prev = none })

  abbrev pub kick : Engine → ℕ → Option ℕ → Engine × Bool
  kick e now none = (e, false)
  kick e now (some p) = elim (e.heap p).cur [
    | none ↦ (e, true)
    | some _ ↦
        let told = send_agent_cmd e p now "kick" "reconnect" in
        (set_peer told p (drop_and_reset (told.heap p)), true)
  ]

  -- `KickAgent`
  unfoldable pub kick_agent : Engine → String → ℕ → Engine × Bool
  unfolding set_peer send_agent_cmd agent_by_id
  kick_agent e id now = kick e now (agent_by_id e.heap e.peers id)

  abbrev pub refresh : Engine → ℕ → Option ℕ → Engine × Bool
  refresh e now none = (e, false)
  refresh e now (some p) = (send_agent_cmd e p now "stat" "", true)

  -- `RefreshAgent`
  unfoldable pub refresh_agent : Engine → String → ℕ → Engine × Bool
  unfolding send_agent_cmd agent_by_id
  refresh_agent e id now = refresh e now (agent_by_id e.heap e.peers id)
