-- ===== src/Auth/Tests.antt =====
-- A peer with a secret at the gate, and the theorems at it.
use selfremote.Common.{
  ℕ, false, ◌+◌, ◌*◌, ◌^◌, ◌<◌, ◌≡◌, refl, arith, String, List, [], ◌∷◌, Option, some,
}
use selfremote.Net.Bytes.{bytes_eq}
use selfremote.Engine.{Engine, requires_mfa, set_peer, seal_on, send_sealed}
use selfremote.Example.{blank, guarded, sealable}
use selfremote.Engine.Library.{Answer}
use selfremote.Auth.{handle_auth_resp, check_totp, find_step}
use selfremote.Auth.Gate.{IsAdmitted, handle_auth_resp-IsAdmitted}
use selfremote.Auth.Lock.{IsLocked, handle_auth_resp-IsLocked}

-- A code is the step's last digit, six times over.
abbrev generate : String → ℕ → Option (List ℕ)
generate secret step = some (step ∷ step ∷ step ∷ step ∷ step ∷ step ∷ [])

abbrev result : Answer → List ℕ
result _ = 1 ∷ []

abbrev info : Engine → ℕ → List ℕ
info _ _ = 2 ∷ []

abbrev gate : Engine
gate = set_peer blank 0 guarded

abbrev minute : ℕ
minute = 60 * 10 ^ 9

-- At the second step the code of the first is still good.
abbrev code_now : Option (List ℕ)
code_now = some (1 ∷ 1 ∷ 1 ∷ 1 ∷ 1 ∷ 1 ∷ [])

handle_auth_resp-IsAdmitted_example :
    IsAdmitted generate
      (gate.heap 0)
      minute
      code_now
      ((handle_auth_resp generate sealable result info gate 0 minute code_now).heap
        0).last_auth_step
unfolding handle_auth_resp set_peer check_totp find_step requires_mfa send_sealed seal_on bytes_eq
handle_auth_resp-IsAdmitted_example =
    handle_auth_resp-IsAdmitted generate sealable result info gate 0 minute code_now refl refl

abbrev wrong : List ℕ
wrong = 8 ∷ 1 ∷ 1 ∷ 1 ∷ 1 ∷ 1 ∷ []

handle_auth_resp-IsLocked_example :
    IsLocked
      ((handle_auth_resp generate sealable result info gate 0 minute (some wrong)).heap 0)
      minute
    × ((later : ℕ) (sent : Option (List ℕ))
        → later < minute + 30 * 10 ^ 9
        → ((handle_auth_resp generate sealable result info
              (handle_auth_resp generate sealable result info gate 0 minute (some wrong))
              0
              later
              sent).heap
            0).authed
          ≡ false)
unfolding set_peer check_totp find_step requires_mfa bytes_eq
handle_auth_resp-IsLocked_example =
    handle_auth_resp-IsLocked generate sealable result info gate 0 minute wrong refl refl
      (omega arith) refl (omega arith)
