-- ===== src/Nonce/Reloads.antt =====
-- A reload of the registries (internal/tunnel/registry_runtime.go) and the nonces in use.
use selfremote.Common.{
  ℕ, ◌≡◌, refl, Bool, false, not, ◌||◌, String, str_eq, List, [], ◌∷◌, Option, none, some,
  if◌then◌else◌, if_cases, arith,
}
use selfremote.Engine.{Engine, PeerState, PeerConfig, set_peer, reset_auth, is_agent, is_server}
use selfremote.Engine.Heap.{lookup}
use selfremote.Engine.Library.{Library}
use selfremote.Engine.Tables.{rebuild_tables}
use selfremote.Tick.Steps.{Pending}
use selfremote.Agent.{send_agent_cmd}
use selfremote.Registry.{Registry}
use selfremote.Registry.Apply.{
  new_peer, add_peer, drop_peer, revoke, revoke_missing, is_kept, revoke_clients, with_secret,
  update_client, admit_at, admit_client, admit_clients, apply_registry, AgentCmdOut, update_agent,
  review_found, review_agent, review_agents, admit_new, admit_agents, apply_agent_registry,
}
use selfremote.Registry.Reload.{
  Poll, read_if_changed, use_clients, read_clients, reload_clients, flush, use_agents, read_agents,
  reload_agents, reload_registry,
}
use selfremote.Nonce.Agents.{send_agent_cmd-Clean}
use selfremote.Nonce.Send.{Clean, Limited, set_peer-Clean, touch-Clean, same-Clean}

module _ (pend : List Pending) where
  with_secret-cur : (st : PeerState) (secret : String) → (with_secret st secret).cur ≡ st.cur
  unfolding reset_auth
  with_secret-cur st secret =
      if_cases (λ (x : PeerState). x.cur ≡ st.cur) (str_eq st.cfg.totp_secret secret) st
        (reset_auth (record st { cfg = record st.cfg { totp_secret = secret }; auth_attempts = 0 }))
        (λ same. refl) (λ other. refl)

  -- The first loop of the clients' registry.
  add_peer-Clean :
      (hex : List ℕ → String) (e : Engine) (pc : PeerConfig) (is_static : Bool)
      → Clean pend e
      → Clean pend (add_peer hex e pc is_static)
  unfolding add_peer
  add_peer-Clean hex e pc is_static c =
      same-Clean pend (set_peer e e.next (new_peer pc is_static)) (add_peer hex e pc is_static) refl
        refl (set_peer-Clean pend e e.next (new_peer pc is_static) tt c)

  revoke-Clean : (e : Engine) (k : String) (p : ℕ) → Clean pend e → Clean pend (revoke e k p)
  unfolding drop_peer
  revoke-Clean e k p c =
      let st = record (e.heap p) { cur = none; prev = none; authed = false } in
      same-Clean pend (set_peer e p st) (revoke e k p) refl refl (set_peer-Clean pend e p st tt c)

  revoke_missing-Clean :
      (e : Engine) (k : String) (p : ℕ) (found : Option PeerConfig)
      → Clean pend e
      → Clean pend (revoke_missing e k p found)
  revoke_missing-Clean e k p none c = revoke-Clean e k p c
  revoke_missing-Clean e k p (some pc) c = c

  revoke_clients-Clean :
      (m : List (String × PeerConfig)) (rows : List (String × ℕ)) (e : Engine)
      → Clean pend e
      → Clean pend (revoke_clients m rows e)
  unfolding revoke_clients
  revoke_clients-Clean m [] e c = c
  revoke_clients-Clean m ((k, p) ∷ rows) e c =
      let next = revoke_missing e k p (lookup str_eq k m) in
      revoke_clients-Clean m rows (if is_kept (e.heap p) then e else next) (
        if_cases (Clean pend) (is_kept (e.heap p)) e next (λ kept. c)
          (λ free. revoke_missing-Clean e k p (lookup str_eq k m) c))

  -- The second.
  admit_at-Clean :
      (hex : List ℕ → String) (e : Engine) (pc : PeerConfig) (found : Option ℕ)
      → Clean pend e
      → Clean pend (admit_at hex e pc found)
  admit_at-Clean hex e pc none c = add_peer-Clean hex e pc false c
  admit_at-Clean hex e pc (some p) c = ground (
    arith,
    c,
    touch-Clean pend e p (update_client (e.heap p) pc) (with_secret-cur (e.heap p) pc.totp_secret)
        c,
  )

  admit_clients-Clean :
      (hex : List ℕ → String) (m : List (String × PeerConfig)) (e : Engine)
      → Clean pend e
      → Clean pend (admit_clients hex m e)
  unfolding admit_clients
  admit_clients-Clean hex [] e c = c
  admit_clients-Clean hex ((k, pc) ∷ m) e c =
      admit_clients-Clean hex m (admit_client hex e k pc)
        (admit_at-Clean hex e pc (lookup str_eq k e.peers) c)

  pub rebuild_tables-Clean : (e : Engine) → Clean pend e → Clean pend (rebuild_tables e)
  unfolding rebuild_tables
  rebuild_tables-Clean e c = same-Clean pend e (rebuild_tables e) refl refl c

  use_clients-Clean :
      (hex : List ℕ → String) (e : Engine) (parsed : Option Registry)
      → Clean pend e
      → Clean pend (use_clients hex e parsed)
  unfolding apply_registry
  use_clients-Clean hex e none c = c
  use_clients-Clean hex e (some m) c =
      let applied = apply_registry hex m e in
      let c' =
        admit_clients-Clean hex m (revoke_clients m e.peers e)
          (revoke_clients-Clean m e.peers e c) in
      if_cases (Clean pend) (is_server e.mode) (rebuild_tables applied) applied
        (λ serving. rebuild_tables-Clean applied c') (λ other. c')

  read_clients-Clean :
      (hex : List ℕ → String) (parse : List ℕ → Option Registry) (e : Engine)
      (bytes : Option (List ℕ))
      → Clean pend e
      → Clean pend (read_clients hex parse e bytes)
  read_clients-Clean hex parse e none c = c
  read_clients-Clean hex parse e (some bytes) c = use_clients-Clean hex e (parse bytes) c

  reload_clients-Clean :
      (hex : List ℕ → String) (parse : List ℕ → Option Registry) (e : Engine) (poll : Poll)
      → Clean pend e
      → Clean pend (reload_clients hex parse e poll)
  unfolding reload_clients
  reload_clients-Clean hex parse e poll c =
      let (f, bytes) = read_if_changed e.reg poll in
      let noted = record e { reg = f } in
      if_cases (Clean pend) (str_eq e.opts.clients_file "") e (read_clients hex parse noted bytes)
        (λ off. c)
        (λ on. read_clients-Clean hex parse noted bytes (same-Clean pend e noted refl refl c))

  -- The agents' registry.
  review_found-Clean :
      (k : String) (p : ℕ) (s : Engine × List AgentCmdOut) (found : Option PeerConfig)
      → Clean pend s.0
      → Clean pend (review_found k p s found).0
  review_found-Clean k p (e, out) none c = revoke-Clean e k p c
  review_found-Clean k p (e, out) (some pc) c =
      touch-Clean pend e p (update_agent (e.heap p) pc) (with_secret-cur (e.heap p) pc.totp_secret)
        c

  review_agents-Clean :
      (m : List (String × PeerConfig)) (rows : List (String × ℕ)) (s : Engine × List AgentCmdOut)
      → Clean pend s.0
      → Clean pend (review_agents m rows s).0
  unfolding review_agents
  review_agents-Clean m [] s c = c
  review_agents-Clean m ((k, p) ∷ rows) s c = review_agents-Clean m rows (review_agent m k p s) (
      if_cases (λ (r : Engine × List AgentCmdOut). Clean pend r.0)
        ((s.0.heap p).is_static || not (is_agent (s.0.heap p).cfg.role)) s
        (review_found k p s (lookup str_eq k m)) (λ other. c)
        (λ mine. review_found-Clean k p s (lookup str_eq k m) c))

  admit_new-Clean :
      (hex : List ℕ → String) (e : Engine) (pc : PeerConfig) (found : Option ℕ)
      → Clean pend e
      → Clean pend (admit_new hex e pc found)
  admit_new-Clean hex e pc none c = add_peer-Clean hex e pc false c
  admit_new-Clean hex e pc (some p) c = c

  admit_agents-Clean :
      (hex : List ℕ → String) (m : List (String × PeerConfig)) (e : Engine)
      → Clean pend e
      → Clean pend (admit_agents hex m e)
  unfolding admit_agents
  admit_agents-Clean hex [] e c = c
  admit_agents-Clean hex ((k, pc) ∷ m) e c =
      admit_agents-Clean hex m (admit_new hex e pc (lookup str_eq k e.peers))
        (admit_new-Clean hex e pc (lookup str_eq k e.peers) c)

module _ (lib : Library) (limited : Limited lib.can_seal) (pend : List Pending) where
  flush-Clean :
      (e : Engine) (now : ℕ) (cmds : List AgentCmdOut)
      → Clean pend e
      → Clean pend (flush lib e now cmds)
  unfolding flush
  flush-Clean e now [] c = c
  flush-Clean e now (o ∷ cmds) c =
      let on = send_agent_cmd lib e o.peer now "enable" "enabled" in
      let off = send_agent_cmd lib e o.peer now "disable" "disabled" in
      flush-Clean (if o.enable then on else off) now cmds (
        if_cases (Clean pend) o.enable on off
          (λ up. send_agent_cmd-Clean lib limited pend e o.peer now "enable" "enabled" c)
          (λ down. send_agent_cmd-Clean lib limited pend e o.peer now "disable" "disabled" c))

  use_agents-Clean :
      (e : Engine) (now : ℕ) (parsed : Option Registry)
      → Clean pend e
      → Clean pend (use_agents lib e now parsed)
  unfolding apply_agent_registry
  use_agents-Clean e now none c = c
  use_agents-Clean e now (some m) c =
      let (applied, cmds) = apply_agent_registry lib.hex m e in
      let (reviewed, out) = review_agents m e.peers (e, []) in
      flush-Clean (rebuild_tables applied) now cmds (
        rebuild_tables-Clean pend applied (
          admit_agents-Clean pend lib.hex m reviewed
            (review_agents-Clean pend m e.peers (e, []) c)))

  read_agents-Clean :
      (parse : List ℕ → Option Registry) (e : Engine) (now : ℕ) (bytes : Option (List ℕ))
      → Clean pend e
      → Clean pend (read_agents lib parse e now bytes)
  read_agents-Clean parse e now none c = c
  read_agents-Clean parse e now (some bytes) c = use_agents-Clean e now (parse bytes) c

  reload_agents-Clean :
      (parse : List ℕ → Option Registry) (e : Engine) (now : ℕ) (poll : Poll)
      → Clean pend e
      → Clean pend (reload_agents lib parse e now poll)
  unfolding reload_agents
  reload_agents-Clean parse e now poll c =
      let (f, bytes) = read_if_changed e.areg poll in
      let noted = record e { areg = f } in
      if_cases (Clean pend) (str_eq e.opts.agents_file "") e (read_agents lib parse noted now bytes)
        (λ off. c)
        (λ on. read_agents-Clean parse noted now bytes (same-Clean pend e noted refl refl c))

  pub reload_registry-Clean :
      (parse parse_agents : List ℕ → Option Registry) (e : Engine) (now : ℕ) (clients agents : Poll)
      → Clean pend e
      → Clean pend (reload_registry lib parse parse_agents e now clients agents)
  unfolding reload_registry
  reload_registry-Clean parse parse_agents e now clients agents c =
      reload_agents-Clean parse_agents (reload_clients lib.hex parse e clients) now agents
        (reload_clients-Clean pend lib.hex parse e clients c)
