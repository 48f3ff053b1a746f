-- ===== src/Auth/Gate.antt =====
-- What the in-tunnel MFA guarantees: who gets in, with which codes, and when the door closes.
use selfremote.Common.{
  ℕ, ◌+◌, ◌-◌, ◌*◌, ◌/◌, ◌^◌, ◌≤◌, ◌≡◌, inl, inr, refl, ap, sym, ◌∙◌, subst, arith, Bool, true,
  false, String, List, [], ◌∷◌, Option, none, some, ltb, leb, ◌==◌, length, Bool-cases,
  Option-cases, All, ==_iff,
}
use selfremote.Net.Bytes.{bytes_eq, eq_of_bytes_eq}
use selfremote.Engine.{
  Engine, PeerState, requires_mfa, set_peer, send_sealed, seal_on, frame_auth_result, frame_info,
}
use selfremote.Engine.Library.{Answer, confirmed, locked_out, mistaken}
use selfremote.Auth.{
  find_step, check_totp, trim_space, accept_code, refuse_code, passing, drop_session, on_pass,
  on_fail, on_check, handle_auth_resp,
}

-- What sending to a peer leaves as it is in a peer's state.
pub record SameAuth (p p' : PeerState) : Type 0 where
  pub authed : p'.authed ≡ p.authed
  pub attempts : p'.auth_attempts ≡ p.auth_attempts
  pub step : p'.last_auth_step ≡ p.last_auth_step
  pub lock : p'.auth_locked_until ≡ p.auth_locked_until
  pub previous : p'.prev ≡ p.prev

same_auth : (p p' : PeerState) → p' ≡ p → SameAuth p p'
same_auth p p' e = record {
  authed = ap (λ s. s.authed) e;
  attempts = ap (λ s. s.auth_attempts) e;
  step = ap (λ s. s.last_auth_step) e;
  lock = ap (λ s. s.auth_locked_until) e;
  previous = ap (λ s. s.prev) e;
}

module _ (can_seal : ℕ → Bool) (e : Engine) (p now typ : ℕ) (payload : List ℕ) where
  pub send_sealed-SameAuth :
      (q : ℕ) → SameAuth (e.heap q) ((send_sealed can_seal e p now typ payload).heap q)
  unfolding send_sealed seal_on set_peer
  send_sealed-SameAuth q = elim (Option-cases (e.heap p).cur) [
    | inl gone ↦ same_auth (e.heap q) _ (ground arith)
    | inr (s, live) ↦ elim (Bool-cases (can_seal s.send_nonce)) [
      | inr over ↦ same_auth (e.heap q) _ (ground arith)
      | inl fine ↦ elim (Bool-cases (p == q)) [
        | inr other ↦ same_auth (e.heap q) _ (ground arith)
        | inl here ↦ record {
          authed = ground arith;
          attempts = ground arith;
          step = ground arith;
          lock = ground arith;
          previous = ground arith;
        }
      ]
    ]
  ]

pub set_peer-heap : (e : Engine) (p : ℕ) (s : PeerState) → (set_peer e p s).heap p ≡ s
unfolding set_peer
set_peer-heap e p s = ground arith

module _ (generate : String → ℕ → Option (List ℕ)) where
  -- A step found is one of those tried, and the library's code for it is the one submitted.
  find_step_lem :
      (Q : ℕ → Type 0) (secret : String) (code steps : List ℕ) (s : ℕ)
      → All Q steps
      → find_step generate secret code steps ≡ some s
      → Q s × (generate secret s ≡ some code)
  unfolding find_step
  find_step_lem Q secret code [] s h e = cc
  find_step_lem Q secret code (x ∷ steps) s h e = elim (Option-cases (generate secret x)) [
    | inl failed ↦ absurd (ground (arith, failed))
    | inr (want, made) ↦ elim (Bool-cases (bytes_eq want code)) [
      | inl same ↦
          let here : x ≡ s = ground (arith, made, same) in
          let equal : want ≡ code = eq_of_bytes_eq want code same in
          (subst Q here h.0, subst (λ n. generate secret n ≡ some code) here (made ∙ ap some equal))
      | inr other ↦ find_step_lem Q secret code steps s h.1 (ground (arith, made, other))
    ]
  ]

  -- What an accepted code is.
  pub record IsCode (secret : String) (code : List ℕ) (now step : ℕ) : Type 0 where
    pub six : length (trim_space code) ≡ 6
    pub right : generate secret step ≡ some (trim_space code)
    pub not_old : now / (30 * 10 ^ 9) ≤ step + 1
    pub not_early : step ≤ now / (30 * 10 ^ 9) + 1

  check_totp-IsCode :
      (secret : String) (code : List ℕ) (now step : ℕ)
      → check_totp generate secret code now ≡ some step
      → IsCode secret code now step
  unfolding check_totp
  check_totp-IsCode secret code now step e = elim (Bool-cases (length (trim_space code) == 6)) [
    | inr other ↦ absurd (ground (arith, other))
    | inl six ↦
        let n = now / (30 * 10 ^ 9) in
        let found : find_step generate secret (trim_space code) ((n - 1) ∷ n ∷ (n + 1) ∷ [])
            ≡ some step =
          ground (arith, six) in
        let (near, right) =
          find_step_lem (λ s. (n ≤ s + 1) × (s ≤ n + 1)) secret (trim_space code)
            ((n - 1) ∷ n ∷ (n + 1) ∷ []) step
            (
              (omega arith, omega arith),
              ((omega arith, omega arith), ((omega arith, omega arith), tt)),
            )
            found in
        record { six = (==_iff _ 6).0 six; right = right; not_old = near.0; not_early = near.1 }
  ]

-- How a peer came through the gate: a code of the peer's secret, for a step next to the present
-- one and no earlier than the last that was accepted, while the peer was not locked out.
pub record IsAdmitted (generate : String → ℕ → Option (List ℕ)) (st : PeerState) (now : ℕ)
    (sent : Option (List ℕ)) (step : ℕ) : Type 0 where
  pub code : List ℕ
  pub submitted : sent ≡ some code
  pub proves : IsCode generate st.cfg.totp_secret code now step
  pub fresh : st.last_auth_step ≤ step
  pub unlocked : st.auth_locked_until ≤ now

passing_lem :
    (found : Option ℕ) (st : PeerState) (step : ℕ)
    → passing found st ≡ some step
    → (found ≡ some step) × (st.last_auth_step ≤ step)
passing_lem none st step e = cc
passing_lem (some s) st step e = ground arith

module _ (generate : String → ℕ → Option (List ℕ)) (can_seal : ℕ → Bool) (result : Answer → List ℕ)
    (info : Engine → ℕ → List ℕ) (e : Engine) (p now : ℕ) where
  pub on_pass-step :
      (step : ℕ)
      → ((on_pass generate can_seal result info e p now step).heap p).last_auth_step ≡ step
  on_pass-step step =
      let accepted = set_peer e p (accept_code step (e.heap p)) in
      let told = send_sealed can_seal accepted p now frame_auth_result (result confirmed) in
      let first =
        send_sealed-SameAuth can_seal accepted p now frame_auth_result (result confirmed) p in
      let second = send_sealed-SameAuth can_seal told p now frame_info (info told p) p in
      second.step
      ∙ (first.step ∙ ap (λ s. s.last_auth_step) (set_peer-heap e p (accept_code step (e.heap p))))

  on_fail-authed :
      (e.heap p).authed ≡ false
      → ((on_fail generate can_seal result info e p now).heap p).authed ≡ false
  on_fail-authed out =
      let refused = set_peer e p (refuse_code now (e.heap p)) in
      let told = send_sealed can_seal refused p now frame_auth_result (result mistaken) in
      let same =
        send_sealed-SameAuth can_seal refused p now frame_auth_result (result mistaken) p in
      let still =
        same.authed ∙ (ap (λ s. s.authed) (set_peer-heap e p (refuse_code now (e.heap p))) ∙ out) in
      elim (Bool-cases (leb 3 (refused.heap p).auth_attempts)) [
        | inl third ↦
            rw third (ap (λ s. s.authed) (set_peer-heap told p (drop_session (told.heap p))))
        | inr fewer ↦ rw fewer still
      ]

  on_check-admits :
      (found : Option ℕ)
      → (e.heap p).authed ≡ false
      → ((on_check generate can_seal result info e p now found).heap p).authed ≡ true
      → (found
          ≡ some ((on_check generate can_seal result info e p now found).heap p).last_auth_step)
  on_check-admits none out in' = absurd (let f = on_fail-authed out in cc)
  on_check-admits (some step) out in' = ap some (sym (on_pass-step step))

-- A peer that was shut out and is authenticated after its response sent a code of six bytes that
-- the library makes of its secret for a step next to the present one, no earlier than the last
-- step accepted, at a time when it was not locked out; and that step is now the last accepted.
pub handle_auth_resp-IsAdmitted :
    (generate : String → ℕ → Option (List ℕ)) (can_seal : ℕ → Bool) (result : Answer → List ℕ)
    (info : Engine → ℕ → List ℕ) (e : Engine) (p now : ℕ) (sent : Option (List ℕ))
    → (e.heap p).authed ≡ false
    → ((handle_auth_resp generate can_seal result info e p now sent).heap p).authed ≡ true
    → IsAdmitted generate
        (e.heap p)
        now
        sent
        ((handle_auth_resp generate can_seal result info e p now sent).heap p).last_auth_step
unfolding handle_auth_resp
handle_auth_resp-IsAdmitted generate can_seal result info e p now none out in' = cc
handle_auth_resp-IsAdmitted generate can_seal result info e p now (some c) out in' =
    let st = e.heap p in
    let after = (handle_auth_resp generate can_seal result info e p now (some c)).heap p in
    elim (Bool-cases (requires_mfa st)) [
      | inr free ↦ absurd (ground (arith, free, out, in'))
      | inl gated ↦ elim (Bool-cases (ltb now st.auth_locked_until)) [
        | inl locked ↦
            let same =
              send_sealed-SameAuth can_seal e p now frame_auth_result (result locked_out) p in
            absurd (ground (arith, gated, out, locked, in', same.authed))
        | inr open' ↦
            let found = passing (check_totp generate st.cfg.totp_secret c now) st in
            let there : handle_auth_resp generate can_seal result info e p now (some c)
                ≡ on_check generate can_seal result info e p now found =
              ground (arith, gated, out, open') in
            let passed =
              on_check-admits generate can_seal result info e p now found out
                (ap (λ r. (r.heap p).authed) (sym there) ∙ in') in
            let right : found ≡ some after.last_auth_step =
              passed ∙ ap (λ r. some (r.heap p).last_auth_step) (sym there) in
            let (checked, fresh) =
              passing_lem (check_totp generate st.cfg.totp_secret c now) st after.last_auth_step
                right in
            record {
              code = c;
              submitted = refl;
              proves =
                  check_totp-IsCode generate st.cfg.totp_secret c now after.last_auth_step checked;
              fresh = fresh;
              unlocked = ground (arith, open');
            }
      ]
    ]
