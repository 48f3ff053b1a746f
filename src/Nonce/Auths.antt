-- ===== src/Nonce/Auths.antt =====
-- The second factor (internal/tunnel/auth.go), both sides of it, and the nonces in use.
use selfremote.Common.{
  ℕ, ◌+◌, ◌*◌, ◌/◌, ◌^◌, refl, Bool, true, false, String, List, [], ◌∷◌, ◌++◌, Option, none, some,
  arith, Option-cases, inl, inr,
}
use selfremote.Engine.{
  Engine, Mode, client, agent, server, gateway, set_peer, send_sealed, frame_auth_result,
  frame_auth_resp, frame_info, frame_bye,
}
use selfremote.Engine.Library.{Library, Answer, confirmed, locked_out, mistaken}
use selfremote.Tick.Steps.{Pending}
use selfremote.Session.{first_peer}
use selfremote.Auth.{
  check_totp, trim_space, accept_code, refuse_code, passing, drop_session, on_pass, on_fail,
  on_check, handle_auth_resp,
}
use selfremote.Auth.Dialler.{
  fail, client_mark_ready, submit_code, submit_made, agent_answer, ask_user, challenge_required,
  on_challenge, handle_auth_challenge, on_prompt, on_refusal, on_result, handle_auth_result,
  handle_info, bye_to, bye_in, send_bye,
}
use selfremote.Nonce.Send.{
  Clean, Limited, set_peer-Clean, touch-Clean, same-Clean, send_sealed-Clean,
}

module _ (generate : String → ℕ → Option (List ℕ)) (can_seal : ℕ → Bool) (result : Answer → List ℕ)
    (info : Engine → ℕ → List ℕ) (limited : Limited can_seal) (pend : List Pending) where
  on_pass-Clean :
      (e : Engine) (p now step : ℕ)
      → Clean pend e
      → Clean pend (on_pass generate can_seal result info e p now step)
  on_pass-Clean e p now step c =
      let accepted = set_peer e p (accept_code step (e.heap p)) in
      let told = send_sealed can_seal accepted p now frame_auth_result (result confirmed) in
      send_sealed-Clean can_seal limited pend told p now frame_info (info told p) (
        send_sealed-Clean can_seal limited pend accepted p now frame_auth_result (result confirmed)
          (touch-Clean pend e p (accept_code step (e.heap p)) refl c))

  on_fail-Clean :
      (e : Engine) (p now : ℕ)
      → Clean pend e
      → Clean pend (on_fail generate can_seal result info e p now)
  on_fail-Clean e p now c =
      let refused = set_peer e p (refuse_code now (e.heap p)) in
      let told = send_sealed can_seal refused p now frame_auth_result (result mistaken) in
      let c' =
        send_sealed-Clean can_seal limited pend refused p now frame_auth_result (result mistaken)
          (touch-Clean pend e p (refuse_code now (e.heap p)) refl c) in
      ground (arith, c', set_peer-Clean pend told p (drop_session (told.heap p)) tt c')

  on_check-Clean :
      (e : Engine) (p now : ℕ) (found : Option ℕ)
      → Clean pend e
      → Clean pend (on_check generate can_seal result info e p now found)
  on_check-Clean e p now none c = on_fail-Clean e p now c
  on_check-Clean e p now (some step) c = on_pass-Clean e p now step c

  pub handle_auth_resp-Clean :
      (e : Engine) (p now : ℕ) (code : Option (List ℕ))
      → Clean pend e
      → Clean pend (handle_auth_resp generate can_seal result info e p now code)
  unfolding handle_auth_resp
  handle_auth_resp-Clean e p now none c = c
  handle_auth_resp-Clean e p now (some code) c =
      let st = e.heap p in
      let told = λ (a : Answer).
        send_sealed-Clean can_seal limited pend e p now frame_auth_result (result a) c in
      let found = passing (check_totp generate st.cfg.totp_secret code now) st in
      ground (arith, c, told confirmed, told locked_out, on_check-Clean e p now found c)

module _ (pend : List Pending) where
  fail-Clean : (e : Engine) (message : String) → Clean pend e → Clean pend (fail e message)
  unfolding fail
  fail-Clean e message c = elim (Option-cases e.fatal) [
    | inr (m, failed) ↦ ground (arith, failed, c)
    | inl first ↦
        ground (arith, first, same-Clean pend e (record e { fatal = some message }) refl refl c)
  ]

  client_mark_ready-Clean : (e : Engine) (p : ℕ) → Clean pend e → Clean pend (client_mark_ready e p)
  unfolding client_mark_ready
  client_mark_ready-Clean e p c =
      let ready = set_peer e p (record (e.heap p) { authed = true }) in
      let c' = touch-Clean pend e p (record (e.heap p) { authed = true }) refl c in
      ground (
        arith,
        c',
        same-Clean pend ready
            (record ready { client_ready = true; ready_calls = e.ready_calls + 1 }) refl refl c',
      )

  ask_user-Clean :
      (lib : Library) (e : Engine) (p : ℕ) → Clean pend e → Clean pend (ask_user lib e p)
  unfolding ask_user
  ask_user-Clean lib e p c =
      let st = e.heap p in
      let asking = set_peer e p (record st { auth_prompting = true }) in
      let c' = touch-Clean pend e p (record st { auth_prompting = true }) refl c in
      ground (
        arith,
        c,
        fail-Clean asking "no prompt" c',
        same-Clean pend asking
            (record asking { prompts = e.prompts ++ ((p, st.auth_attempts + 1) ∷ []) }) refl refl
            c',
      )

  pub handle_info-Clean :
      (lib : Library) (e : Engine) (pt : List ℕ) → Clean pend e → Clean pend (handle_info lib e pt)
  unfolding handle_info
  handle_info-Clean lib e pt c = elim (Option-cases (lib.decode_server_info pt)) [
    | inl other ↦ ground (arith, other, c)
    | inr (sites, made) ↦
        ground
          (arith, made, same-Clean pend e (record e { info_calls = e.info_calls + 1 }) refl refl c)
  ]

module _ (lib : Library) (limited : Limited lib.can_seal) (pend : List Pending) where
  submit_code-Clean :
      (e : Engine) (p now : ℕ) (code : List ℕ)
      → Clean pend e
      → Clean pend (submit_code lib e p now code)
  unfolding submit_code
  submit_code-Clean e p now code c =
      let noted = record (e.heap p) { auth_sent_at = now } in
      send_sealed-Clean lib.can_seal limited pend (set_peer e p noted) p now frame_auth_resp
        (lib.encode_code code) (touch-Clean pend e p noted refl c)

  submit_made-Clean :
      (e : Engine) (p now : ℕ) (code : Option (List ℕ))
      → Clean pend e
      → Clean pend (submit_made lib e p now code)
  submit_made-Clean e p now none c = fail-Clean pend e "code" c
  submit_made-Clean e p now (some code) c = submit_code-Clean e p now code c

  challenge_required-Clean :
      (e : Engine) (p now : ℕ) → Clean pend e → Clean pend (challenge_required lib e p now)
  unfolding challenge_required agent_answer
  challenge_required-Clean e p now c = ground (
    arith,
    fail-Clean pend e "no mfa_secret" c,
    ask_user-Clean pend lib e p c,
    submit_made-Clean e p now (lib.generate e.opts.mfa_secret (now / (30 * 10 ^ 9))) c,
  )

  on_challenge-Clean :
      (e : Engine) (p now : ℕ) (required : Option Bool)
      → Clean pend e
      → Clean pend (on_challenge lib e p now required)
  on_challenge-Clean e p now none c = c
  on_challenge-Clean e p now (some true) c = challenge_required-Clean e p now c
  on_challenge-Clean e p now (some false) c = client_mark_ready-Clean pend e p c

  pub handle_auth_challenge-Clean :
      (e : Engine) (p now : ℕ) (pt : List ℕ)
      → Clean pend e
      → Clean pend (handle_auth_challenge lib e p now pt)
  unfolding handle_auth_challenge
  handle_auth_challenge-Clean e p now pt c = on_challenge-Clean e p now (lib.decode_challenge pt) c

  pub on_prompt-Clean :
      (e : Engine) (p now : ℕ) (answer : Option (List ℕ))
      → Clean pend e
      → Clean pend (on_prompt lib e p now answer)
  unfolding on_prompt
  on_prompt-Clean e p now none c =
      fail-Clean pend (set_peer e p (record (e.heap p) { auth_prompting = false })) "cancelled"
        (touch-Clean pend e p (record (e.heap p) { auth_prompting = false }) refl c)
  on_prompt-Clean e p now (some code) c =
      submit_code-Clean (set_peer e p (record (e.heap p) { auth_prompting = false })) p now
        (trim_space code)
        (touch-Clean pend e p (record (e.heap p) { auth_prompting = false }) refl c)

  on_refusal-Clean : (e : Engine) (p now : ℕ) → Clean pend e → Clean pend (on_refusal lib e p now)
  unfolding on_refusal
  on_refusal-Clean e p now c =
      let st = record (e.heap p) {
        auth_attempts = (e.heap p).auth_attempts + 1;
        auth_sent_at = 0;
      } in
      let c' = touch-Clean pend e p st refl c in
      ground (
        arith,
        fail-Clean pend (set_peer e p st) "too many failures" c',
        challenge_required-Clean (set_peer e p st) p now c',
      )

  on_result-Clean :
      (e : Engine) (p now : ℕ) (result : Option (Bool × String))
      → Clean pend e
      → Clean pend (on_result lib e p now result)
  on_result-Clean e p now none c = c
  on_result-Clean e p now (some (true, message)) c = client_mark_ready-Clean pend e p c
  on_result-Clean e p now (some (false, message)) c = on_refusal-Clean e p now c

  pub handle_auth_result-Clean :
      (e : Engine) (p now : ℕ) (pt : List ℕ)
      → Clean pend e
      → Clean pend (handle_auth_result lib e p now pt)
  unfolding handle_auth_result
  handle_auth_result-Clean e p now pt c = on_result-Clean e p now (lib.decode_result pt) c

  bye_to-Clean :
      (e : Engine) (now : ℕ) (p : Option ℕ) → Clean pend e → Clean pend (bye_to lib e now p)
  bye_to-Clean e now none c = c
  bye_to-Clean e now (some p) c = send_sealed-Clean lib.can_seal limited pend e p now frame_bye [] c

  bye_in-Clean :
      (mode : Mode) (e : Engine) (now : ℕ) → Clean pend e → Clean pend (bye_in lib mode e now)
  bye_in-Clean client e now c = bye_to-Clean e now (first_peer e.peers) c
  bye_in-Clean agent e now c = c
  bye_in-Clean server e now c = c
  bye_in-Clean gateway e now c = c

  pub send_bye-Clean : (e : Engine) (now : ℕ) → Clean pend e → Clean pend (send_bye lib e now)
  unfolding send_bye
  send_bye-Clean e now c = bye_in-Clean e.mode e now c
