-- ===== src/Auth.antt =====
-- The second factor inside the tunnel, on the side that accepts connections
-- (internal/tunnel/auth.go): `checkTOTP` and `handleAuthResp`. The codes come from the TOTP library,
-- whose `GenerateCode` is a parameter: a secret and a time step give a code or an error. The frame's
-- JSON is decoded by Go's library: the handler takes what it makes of the payload. A code is its
-- bytes; blanks around it are the ASCII ones.
pub mod Gate
pub mod Lock
pub mod Dialler
mod Tests
use selfremote.Common.{
  ℕ, ◌+◌, ◌-◌, ◌*◌, ◌/◌, ◌%◌, ◌^◌, Bool, true, false, not, ◌&&◌, String, str_eq, List, [], ◌∷◌,
  Option, none, some, ltb, leb, ◌==◌, if◌then◌else◌, length, reverse, ◌||◌,
}
use selfremote.Net.Bytes.{bytes_eq}
use selfremote.Engine.Library.{Answer, confirmed, locked_out, mistaken}
use selfremote.Engine.{
  Engine, PeerState, requires_mfa, set_peer, send_sealed, frame_auth_result, frame_info,
}

abbrev is_blank : ℕ → Bool
is_blank c = c == 32 || leb 9 c && leb c 13

abbrev pub trim_left : List ℕ → List ℕ
trim_left [] = []
trim_left (c ∷ cs) = let rest = trim_left cs in if is_blank c then rest else c ∷ cs

-- `strings.TrimSpace`
abbrev pub trim_space : List ℕ → List ℕ
trim_space code = reverse (trim_left (reverse (trim_left code)))

module _ (generate : String → ℕ → Option (List ℕ)) where
  -- `for _, s := range []int64{step - 1, step, step + 1}`: an error of the library ends the search.
  unfoldable pub find_step : String → List ℕ → List ℕ → Option ℕ
  find_step secret code [] = none
  find_step secret code (s ∷ steps) =
      let rest = find_step secret code steps in
      elim (generate secret s) [
        | none ↦ none
        | some want ↦ if bytes_eq want code then some s else rest
      ]

  -- `checkTOTP` at `now` nanoseconds, not within the first thirty seconds of 1970.
  unfoldable pub check_totp : String → List ℕ → ℕ → Option ℕ
  unfolding find_step
  check_totp secret code now =
      let step = now / (30 * 10 ^ 9) in
      if not (length (trim_space code) == 6)
      then none
      else find_step secret (trim_space code) ((step - 1) ∷ step ∷ (step + 1) ∷ [])

-- The state of a peer after its code was accepted for a step, or refused.
abbrev pub accept_code : ℕ → PeerState → PeerState
accept_code step p = record p { authed = true; last_auth_step = step; auth_attempts = 0 }

abbrev pub refuse_code : ℕ → PeerState → PeerState
refuse_code now p =
    let attempts = p.auth_attempts + 1 in
    record p {
      auth_attempts = attempts;
      auth_locked_until = if leb 3 attempts then now + 30 * 10 ^ 9 else p.auth_locked_until;
    }

-- `pass := ok && step >= p.lastAuthStep`, with the step that passes.
abbrev pub passing : Option ℕ → PeerState → Option ℕ
passing none p = none
passing (some step) p = if leb p.last_auth_step step then some step else none

-- `p.cur, p.prev = nil, nil; p.authed = false`
abbrev pub drop_session : PeerState → PeerState
drop_session p = record p { cur = none; prev = none; authed = false }

module _ (generate : String → ℕ → Option (List ℕ)) (can_seal : ℕ → Bool) (result : Answer → List ℕ)
    (info : Engine → ℕ → List ℕ) where
  -- The reply to a code that passed: the result, then the server's information.
  abbrev pub on_pass : Engine → ℕ → ℕ → ℕ → Engine
  on_pass e p now step =
      let accepted = set_peer e p (accept_code step (e.heap p)) in
      let told = send_sealed can_seal accepted p now frame_auth_result (result confirmed) in
      send_sealed can_seal told p now frame_info (info told p)

  -- The reply to one that did not: the result, and at the third failure the session is dropped.
  abbrev pub on_fail : Engine → ℕ → ℕ → Engine
  on_fail e p now =
      let refused = set_peer e p (refuse_code now (e.heap p)) in
      let told = send_sealed can_seal refused p now frame_auth_result (result mistaken) in
      if leb 3 (refused.heap p).auth_attempts
      then set_peer told p (drop_session (told.heap p))
      else told

  abbrev pub on_check : Engine → ℕ → ℕ → Option ℕ → Engine
  on_check e p now none = on_fail e p now
  on_check e p now (some step) = on_pass e p now step

  -- `handleAuthResp`; `code` is the decoded code, `none` where the payload is no such JSON.
  unfoldable pub handle_auth_resp : Engine → ℕ → ℕ → Option (List ℕ) → Engine
  handle_auth_resp e p now code = elim code [
    | none ↦ e
    | some c ↦
        let st = e.heap p in
        if not (requires_mfa st)
        then e
        else if st.authed
        then send_sealed can_seal e p now frame_auth_result (result confirmed)
        else if ltb now st.auth_locked_until
        then send_sealed can_seal e p now frame_auth_result (result locked_out)
        else on_check e p now (passing (check_totp generate st.cfg.totp_secret c now) st)
  ]
