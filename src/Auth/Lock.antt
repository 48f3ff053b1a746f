-- ===== src/Auth/Lock.antt =====
-- The lock after the third wrong code.
use selfremote.Common.{
  ℕ, ◌+◌, ◌*◌, ◌^◌, ◌≤◌, ◌<◌, ◌≡◌, refl, ◌∙◌, arith, Bool, true, false, String, List, Option, none,
  some, leb, Bool-cases, inl, inr,
}
use selfremote.Engine.{Engine, PeerState, requires_mfa, set_peer, send_sealed, frame_auth_result}
use selfremote.Engine.Library.{Answer, locked_out, mistaken}
use selfremote.Auth.{check_totp, refuse_code, drop_session, on_fail, handle_auth_resp}
use selfremote.Auth.Gate.{send_sealed-SameAuth, set_peer-heap}

-- Shut and locked for thirty seconds: no session, not authenticated.
pub record IsLocked (st : PeerState) (now : ℕ) : Type 0 where
  pub current : st.cur ≡ none
  pub previous : st.prev ≡ none
  pub shut : st.authed ≡ false
  pub until : st.auth_locked_until ≡ now + 30 * 10 ^ 9

module _ (generate : String → ℕ → Option (List ℕ)) (can_seal : ℕ → Bool) (result : Answer → List ℕ)
    (info : Engine → ℕ → List ℕ) where
  on_fail-IsLocked :
      (e : Engine) (p now : ℕ)
      → 2 ≤ (e.heap p).auth_attempts
      → IsLocked ((on_fail generate can_seal result info e p now).heap p) now
  on_fail-IsLocked e p now third =
      let refused = set_peer e p (refuse_code now (e.heap p)) in
      let told = send_sealed can_seal refused p now frame_auth_result (result mistaken) in
      let same =
        send_sealed-SameAuth can_seal refused p now frame_auth_result (result mistaken) p in
      let here = set_peer-heap e p (refuse_code now (e.heap p)) in
      let gone = set_peer-heap told p (drop_session (told.heap p)) in
      let many : leb 3 (refused.heap p).auth_attempts ≡ true = rw here (ground (arith, third)) in
      let lock : (told.heap p).auth_locked_until ≡ now + 30 * 10 ^ 9 =
        same.lock ∙ rw here (ground (arith, third)) in
      rw many (rw gone (record { current = refl; previous = refl; shut = refl; until = lock }))

  locked-shut :
      (e : Engine) (p now : ℕ) (sent : Option (List ℕ))
      → (e.heap p).authed ≡ false
      → now < (e.heap p).auth_locked_until
      → ((handle_auth_resp generate can_seal result info e p now sent).heap p).authed ≡ false
  unfolding handle_auth_resp
  locked-shut e p now none out early = out
  locked-shut e p now (some c) out early =
      let same = send_sealed-SameAuth can_seal e p now frame_auth_result (result locked_out) p in
      elim (Bool-cases (requires_mfa (e.heap p))) [
        | inr free ↦ ground (arith, free)
        | inl gated ↦ ground (arith, gated, same.authed)
      ]

  -- The third wrong code in a row drops both sessions and locks the peer for thirty seconds, in
  -- which no response whatever, a right code included, authenticates it.
  pub handle_auth_resp-IsLocked :
      (e : Engine) (p now : ℕ) (c : List ℕ)
      → requires_mfa (e.heap p) ≡ true
      → (e.heap p).authed ≡ false
      → (e.heap p).auth_locked_until ≤ now
      → check_totp generate (e.heap p).cfg.totp_secret c now ≡ none
      → 2 ≤ (e.heap p).auth_attempts
      → IsLocked ((handle_auth_resp generate can_seal result info e p now (some c)).heap p) now
        × ((later : ℕ) (sent : Option (List ℕ))
            → later < now + 30 * 10 ^ 9
            → ((handle_auth_resp generate can_seal result info
                  (handle_auth_resp generate can_seal result info e p now (some c))
                  p
                  later
                  sent).heap
                p).authed
              ≡ false)
  unfolding handle_auth_resp
  handle_auth_resp-IsLocked e p now c gated out open' wrong third =
      let after = handle_auth_resp generate can_seal result info e p now (some c) in
      let failed : after ≡ on_fail generate can_seal result info e p now =
        ground (arith, gated, out, open', wrong) in
      let locked : IsLocked (after.heap p) now = rw failed (on_fail-IsLocked e p now third) in
      (
        locked,
        λ later sent early. locked-shut after p later sent locked.shut (rw locked.until early),
      )
