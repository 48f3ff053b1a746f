-- ===== src/Engine/Library.antt =====
-- What the tunnel takes from code outside the repository: the Noise library, the TOTP library, and
-- Go's codecs of JSON, hexadecimal and prefixes. Each field is a function of what the code hands it.
use selfremote.Common.{ℕ, Bool, String, List, Option}
use selfremote.Net.{Prefix}
use selfremote.Engine.{AgentInfo, Mode}

-- What a submitted code is answered with.
pub data Answer : Type 0 where
  confirmed locked_out mistaken : Answer

pub record Library : Type 0 where
  -- Noise: for which nonces a cipher state encrypts; what a cipher makes of a frame under a nonce;
  -- the static key of a first handshake message; the reply to it with the ciphers agreed; a first
  -- message with the state that waits; the ciphers that the reply to it agrees.
  pub can_seal : ℕ → Bool
  pub opened : ℕ → ℕ → List ℕ → Option (List ℕ)
  pub read_init : List ℕ → Option (List ℕ)
  pub respond : List ℕ → Option (List ℕ × ℕ)
  pub initiate : List ℕ → ℕ → Option (List ℕ × ℕ)
  pub read_resp : ℕ → List ℕ → Option ℕ
  -- TOTP: the code of a secret for a step.
  pub generate : String → ℕ → Option (List ℕ)
  -- Codecs.
  pub hex : List ℕ → String
  pub print_prefix : Prefix → String
  pub decode_code : List ℕ → Option (List ℕ)
  pub decode_challenge : List ℕ → Option Bool
  pub decode_result : List ℕ → Option (Bool × String)
  pub decode_server_info : List ℕ → Option (List String)
  pub decode_agent_info : List ℕ → Option AgentInfo
  pub decode_agent_cmd : List ℕ → Option (String × String)
  pub encode_answer : Answer → List ℕ
  pub encode_challenge : Bool → List ℕ
  pub encode_code : List ℕ → List ℕ
  pub encode_server_info : Bool → Mode → List String → List ℕ
  pub encode_announce : Bool → ℕ → ℕ → ℕ → List ℕ
  pub encode_agent_cmd : String → String → List ℕ
