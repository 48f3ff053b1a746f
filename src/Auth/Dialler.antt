-- ===== src/Auth/Dialler.antt =====
-- The dialling side of the MFA (internal/tunnel/auth.go, from `handleAuthChallenge` on). A prompt
-- runs beside the engine: that it was asked for is noted, and its answer is an event of its own.
use selfremote.Common.{
  ℕ, ◌+◌, ◌*◌, ◌/◌, ◌^◌, Bool, true, false, String, str_eq, List, [], ◌∷◌, ◌++◌, Option, none, some,
  leb, if◌then◌else◌,
}
use selfremote.Session.{first_peer}
use selfremote.Engine.{
  Mode, client, agent, server, gateway, frame_bye, Engine, is_agent_mode, set_peer, send_sealed,
  frame_auth_resp,
}
use selfremote.Engine.Library.{Library}
use selfremote.Auth.{trim_space}

-- `fail`: the first error stays.
unfoldable pub fail : Engine → String → Engine
fail e message = elim e.fatal [ none ↦ record e { fatal = some message } | some _ ↦ e ]

-- `clientMarkReady`
unfoldable pub client_mark_ready : Engine → ℕ → Engine
unfolding set_peer
client_mark_ready e p =
    let ready = set_peer e p (record (e.heap p) { authed = true }) in
    if e.client_ready
    then ready
    else record ready { client_ready = true; ready_calls = e.ready_calls + 1 }

module _ (lib : Library) where
  -- `p.authSentAt = time.Now()`, and the code on its way.
  unfoldable pub submit_code : Engine → ℕ → ℕ → List ℕ → Engine
  unfolding set_peer
  submit_code e p now code =
      let noted = set_peer e p (record (e.heap p) { auth_sent_at = now }) in
      send_sealed lib.can_seal noted p now frame_auth_resp (lib.encode_code code)

  abbrev pub submit_made : Engine → ℕ → ℕ → Option (List ℕ) → Engine
  submit_made e p now none = fail e "code"
  submit_made e p now (some code) = submit_code e p now code

  -- An agent answers by itself, from its secret.
  unfoldable pub agent_answer : Engine → ℕ → ℕ → Engine
  unfolding fail submit_code
  agent_answer e p now =
      if str_eq e.opts.mfa_secret ""
      then fail e "no mfa_secret"
      else submit_made e p now (lib.generate e.opts.mfa_secret (now / (30 * 10 ^ 9)))

  -- A client asks its user, unless a prompt is in flight.
  unfoldable pub ask_user : Engine → ℕ → Engine
  unfolding fail set_peer
  ask_user e p =
      let st = e.heap p in
      let asking = set_peer e p (record st { auth_prompting = true }) in
      if st.auth_prompting
      then e
      else if e.opts.has_prompt
      then record asking { prompts = e.prompts ++ ((p, st.auth_attempts + 1) ∷ []) }
      else fail asking "no prompt"

  -- `handleAuthChallenge` on a challenge that asks for a code.
  unfoldable pub challenge_required : Engine → ℕ → ℕ → Engine
  unfolding agent_answer ask_user
  challenge_required e p now = if is_agent_mode e.mode then agent_answer e p now else ask_user e p

  abbrev pub on_challenge : Engine → ℕ → ℕ → Option Bool → Engine
  on_challenge e p now none = e
  on_challenge e p now (some required) =
      if required then challenge_required e p now else client_mark_ready e p

  unfoldable pub handle_auth_challenge : Engine → ℕ → ℕ → List ℕ → Engine
  unfolding challenge_required client_mark_ready
  handle_auth_challenge e p now pt = on_challenge e p now (lib.decode_challenge pt)

  -- The prompt's answer; `none` is a user who gave up.
  unfoldable pub on_prompt : Engine → ℕ → ℕ → Option (List ℕ) → Engine
  unfolding set_peer fail submit_code
  on_prompt e p now answer =
      let done = set_peer e p (record (e.heap p) { auth_prompting = false }) in
      elim answer [
        | none ↦ fail done "cancelled"
        | some code ↦ submit_code done p now (trim_space code)
      ]

  -- A refused code: a fatal error at the third, else another prompt.
  unfoldable pub on_refusal : Engine → ℕ → ℕ → Engine
  unfolding set_peer fail challenge_required
  on_refusal e p now =
      let attempts = (e.heap p).auth_attempts + 1 in
      let noted = set_peer e p (record (e.heap p) { auth_attempts = attempts; auth_sent_at = 0 }) in
      if leb 3 attempts then fail noted "too many failures" else challenge_required noted p now

  abbrev pub on_result : Engine → ℕ → ℕ → Option (Bool × String) → Engine
  on_result e p now none = e
  on_result e p now (some (ok, message)) = if ok then client_mark_ready e p else on_refusal e p now

  unfoldable pub handle_auth_result : Engine → ℕ → ℕ → List ℕ → Engine
  unfolding client_mark_ready on_refusal
  handle_auth_result e p now pt = on_result e p now (lib.decode_result pt)

  -- `handleInfo`
  unfoldable pub handle_info : Engine → List ℕ → Engine
  handle_info e pt = elim (lib.decode_server_info pt) [
    | none ↦ e
    | some _ ↦ record e { info_calls = e.info_calls + 1 }
  ]

  abbrev pub bye_to : Engine → ℕ → Option ℕ → Engine
  bye_to e now none = e
  bye_to e now (some p) = send_sealed lib.can_seal e p now frame_bye []

  abbrev pub bye_in : Mode → Engine → ℕ → Engine
  bye_in client e now = bye_to e now (first_peer e.peers)
  bye_in agent e now = e
  bye_in server e now = e
  bye_in gateway e now = e

  -- `sendBye`
  unfoldable pub send_bye : Engine → ℕ → Engine
  send_bye e now = bye_in e.mode e now
