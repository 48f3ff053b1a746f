-- ===== src/Registry/Reload.antt =====
-- The polling of the registry files (internal/tunnel/registry_runtime.go, from `reloadRegistry` on).
-- A poll is what the file system says: `none` for a file that is not there, else its time and what
-- reading gives. `decode` is JSON's part of the parse.
use selfremote.Common.{
  ℕ, true, false, not, ◌&&◌, String, str_eq, List, [], ◌∷◌, Option, none, some, ltb, if◌then◌else◌,
}
use selfremote.Engine.{Engine, is_server, FileState}
use selfremote.Engine.Library.{Library}
use selfremote.Engine.Tables.{rebuild_tables}
use selfremote.Agent.{send_agent_cmd}
use selfremote.Registry.{Registry}
use selfremote.Registry.Apply.{apply_registry, apply_agent_registry, AgentCmdOut}

abbrev pub Poll : Type 0
Poll = Option (ℕ × Option (List ℕ))

-- `readIfChanged`: the state of the file, and its content where it is to be parsed.
unfoldable pub read_if_changed : FileState → Poll → FileState × Option (List ℕ)
read_if_changed f none = (record f { missing = true }, none)
read_if_changed f (some (time, content)) =
    let unchanged = f.was_read && not (ltb f.mod_time time) && not f.missing in
    let found = record f { missing = false } in
    if unchanged then (found, none) else elim content [
      | none ↦ (found, none)
      | some bytes ↦ (record found { mod_time = time; was_read = true }, some bytes)
    ]

-- A parsed file is applied and the tables are built anew; an error leaves the peers as they are.
abbrev pub use_clients : (List ℕ → String) → Engine → Option Registry → Engine
use_clients hex e none = e
use_clients hex e (some m) =
    let applied = apply_registry hex m e in
    if is_server e.mode then rebuild_tables applied else applied

abbrev pub read_clients :
    (List ℕ → String) → (List ℕ → Option Registry) → Engine → Option (List ℕ) → Engine
read_clients hex parse e none = e
read_clients hex parse e (some bytes) = use_clients hex e (parse bytes)

-- `reloadClients`; `parse` is `ParseRegistry`.
unfoldable pub reload_clients :
    (List ℕ → String) → (List ℕ → Option Registry) → Engine → Poll → Engine
unfolding read_if_changed apply_registry rebuild_tables
reload_clients hex parse e poll =
    let (f, bytes) = read_if_changed e.reg poll in
    if str_eq e.opts.clients_file "" then e else read_clients hex parse (record e { reg = f }) bytes

module _ (lib : Library) where
  -- The commands queued under the lock.
  unfoldable pub flush : Engine → ℕ → List AgentCmdOut → Engine
  flush e now [] = e
  flush e now (c ∷ cs) =
      let sent =
        if c.enable
        then send_agent_cmd lib e c.peer now "enable" "enabled"
        else send_agent_cmd lib e c.peer now "disable" "disabled" in
      flush sent now cs

  abbrev pub use_agents : Engine → ℕ → Option Registry → Engine
  use_agents e now none = e
  use_agents e now (some m) =
      let (applied, cmds) = apply_agent_registry lib.hex m e in
      flush (rebuild_tables applied) now cmds

  abbrev pub read_agents : (List ℕ → Option Registry) → Engine → ℕ → Option (List ℕ) → Engine
  read_agents parse e now none = e
  read_agents parse e now (some bytes) = use_agents e now (parse bytes)

  -- `reloadAgents`; `parse` is `ParseAgentRegistry`.
  unfoldable pub reload_agents : (List ℕ → Option Registry) → Engine → ℕ → Poll → Engine
  unfolding read_if_changed apply_agent_registry rebuild_tables flush
  reload_agents parse e now poll =
      let (f, bytes) = read_if_changed e.areg poll in
      if str_eq e.opts.agents_file ""
      then e
      else read_agents parse (record e { areg = f }) now bytes

  -- `reloadRegistry`
  unfoldable pub reload_registry :
      (List ℕ → Option Registry) → (List ℕ → Option Registry) → Engine → ℕ → Poll → Poll → Engine
  unfolding reload_clients reload_agents
  reload_registry parse parse_agents e now clients agents =
      reload_agents parse_agents (reload_clients lib.hex parse e clients) now agents
