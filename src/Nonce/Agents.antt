-- ===== src/Nonce/Agents.antt =====
-- Site agents (internal/tunnel/agent.go) and the nonces in use.
use selfremote.Common.{
  ℕ, refl, Bool, true, false, not, String, List, Option, none, some, option_cases, arith,
}
use selfremote.Engine.{Engine, AgentInfo, set_peer, reset_auth, frame_agent_cmd}
use selfremote.Engine.Library.{Library}
use selfremote.Tick.Steps.{Pending}
use selfremote.Agent.{
  note_info, handle_agent_info, obey, obey_message, handle_agent_cmd, send_agent_cmd, agent_by_id,
  drop_and_reset, kick, kick_agent, refresh, refresh_agent, same_routes, agent_route_strings,
}
use selfremote.Nonce.Send.{
  Clean, Limited, set_peer-Clean, touch-Clean, same-Clean, send_sealed-Clean,
}

module _ (lib : Library) (pend : List Pending) where
  note_info-Clean :
      (e : Engine) (p now : ℕ) (info : Option AgentInfo)
      → Clean pend e
      → Clean pend (note_info lib e p now info)
  note_info-Clean e p now none c = c
  note_info-Clean e p now (some info) c =
      let st = e.heap p in
      touch-Clean pend e p
        (record st {
          info = some info;
          announce_at = now;
          mismatch =
              not (same_routes (agent_route_strings lib.print_prefix st.cfg.routes) info.routes);
        })
        refl c

  pub handle_agent_info-Clean :
      (e : Engine) (p now : ℕ) (pt : List ℕ)
      → Clean pend e
      → Clean pend (handle_agent_info lib e p now pt)
  unfolding handle_agent_info
  handle_agent_info-Clean e p now pt c = note_info-Clean e p now (lib.decode_agent_info pt) c

  obey-Clean :
      (e : Engine) (p now : ℕ) (cmd : String) → Clean pend e → Clean pend (obey lib e p now cmd)
  unfolding obey
  obey-Clean e p now cmd c =
      let st = record (e.heap p) {
        cur = none;
        prev = none;
        authed = false;
        auth_sent_at = 0;
        next_attempt = now;
        hs = none;
      } in
      ground (
        arith,
        c,
        same-Clean pend e (record e { forwarding = false }) refl refl c,
        same-Clean pend e (record e { forwarding = true }) refl refl c,
        same-Clean pend e (record e { announce_at = 0 }) refl refl c,
        set_peer-Clean pend e p st tt c,
      )

  obey_message-Clean :
      (e : Engine) (p now : ℕ) (message : Option (String × String))
      → Clean pend e
      → Clean pend (obey_message lib e p now message)
  obey_message-Clean e p now none c = c
  obey_message-Clean e p now (some (cmd, reason)) c = obey-Clean e p now cmd c

  pub handle_agent_cmd-Clean :
      (e : Engine) (p now : ℕ) (pt : List ℕ)
      → Clean pend e
      → Clean pend (handle_agent_cmd lib e p now pt)
  unfolding handle_agent_cmd
  handle_agent_cmd-Clean e p now pt c = obey_message-Clean e p now (lib.decode_agent_cmd pt) c

module _ (lib : Library) (limited : Limited lib.can_seal) (pend : List Pending) where
  pub send_agent_cmd-Clean :
      (e : Engine) (p now : ℕ) (cmd reason : String)
      → Clean pend e
      → Clean pend (send_agent_cmd lib e p now cmd reason)
  unfolding send_agent_cmd
  send_agent_cmd-Clean e p now cmd reason c =
      send_sealed-Clean lib.can_seal limited pend e p now frame_agent_cmd
        (lib.encode_agent_cmd cmd reason) c

  kick-Clean :
      (e : Engine) (now : ℕ) (p : Option ℕ) → Clean pend e → Clean pend (kick lib e now p).0
  unfolding reset_auth
  kick-Clean e now none c = c
  kick-Clean e now (some p) c =
      let told = send_agent_cmd lib e p now "kick" "reconnect" in
      option_cases (λ (r : Engine × Bool). Clean pend r.0) (e.heap p).cur (e, true)
        (λ s. (set_peer told p (drop_and_reset lib (told.heap p)), true)) (λ gone. c)
        (λ s live.
          set_peer-Clean pend told p (drop_and_reset lib (told.heap p)) tt
            (send_agent_cmd-Clean e p now "kick" "reconnect" c))

  pub kick_agent-Clean :
      (e : Engine) (id : String) (now : ℕ) → Clean pend e → Clean pend (kick_agent lib e id now).0
  unfolding kick_agent
  kick_agent-Clean e id now c = kick-Clean e now (agent_by_id lib e.heap e.peers id) c

  refresh-Clean :
      (e : Engine) (now : ℕ) (p : Option ℕ) → Clean pend e → Clean pend (refresh lib e now p).0
  refresh-Clean e now none c = c
  refresh-Clean e now (some p) c = send_agent_cmd-Clean e p now "stat" "" c

  pub refresh_agent-Clean :
      (e : Engine) (id : String) (now : ℕ)
      → Clean pend e
      → Clean pend (refresh_agent lib e id now).0
  unfolding refresh_agent
  refresh_agent-Clean e id now c = refresh-Clean e now (agent_by_id lib e.heap e.peers id) c
