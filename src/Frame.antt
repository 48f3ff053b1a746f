-- ===== src/Frame.antt =====
-- The wire format (internal/tunnel/frame.go): headers, the explicit nonce, and sealing, with the
-- encryption of the Noise library as a parameter.
mod Tests
use selfremote.Common.{
  ℕ, zero, suc, ap, subst, ◌+◌, ◌*◌, ◌/◌, ◌%◌, ◌^◌, ◌<◌, ◌≡◌, refl, arith, Bool, List, [], ◌∷◌,
  ◌++◌, Option, none, some, ltb, not, ◌==◌, if◌then◌else◌, length, take, drop, Option-cases, inl,
  inr, get_or, true, false,
}

-- What `parseFrame` returns: an error, or the type and the payload.
pub data Frame : Type 0 where
  short_frame : Frame
  bad_version : Frame
  frame : ℕ → List ℕ → Frame

abbrev pub frame_version : ℕ
frame_version = 0x01

-- `frameHeader(typ)`
abbrev pub frame_header : ℕ → List ℕ
frame_header typ = frame_version ∷ typ ∷ []

unfoldable pub parse_frame : List ℕ → Frame
parse_frame b =
    if ltb (length b) 2
    then short_frame
    else if not (get_or b 0 0 == frame_version)
    then bad_version
    else frame (get_or b 1 0) (drop 2 b)

-- binary.BigEndian.PutUint64
unfoldable pub be64 : ℕ → List ℕ
be64 n =
    n / 2 ^ 56 % 256
    ∷ n / 2 ^ 48 % 256
    ∷ n / 2 ^ 40 % 256
    ∷ n / 2 ^ 32 % 256
    ∷ n / 2 ^ 24 % 256
    ∷ n / 2 ^ 16 % 256
    ∷ n / 2 ^ 8 % 256
    ∷ n % 256
    ∷ []

-- binary.BigEndian.Uint64 on the first `n` bytes.
abbrev pub read_be : ℕ → ℕ → List ℕ → ℕ
read_be zero acc bytes = acc
read_be (suc n) acc [] = acc
read_be (suc n) acc (b ∷ bytes) = read_be n (acc * 256 + b) bytes

-- `dataNonce(payload)`; `none` is the error of a short frame.
unfoldable pub data_nonce : List ℕ → Option ℕ
data_nonce payload = if ltb (length payload) 8 then none else some (read_be 8 0 payload)

-- The header of a data frame: version, type and nonce.
abbrev pub data_header : ℕ → ℕ → List ℕ
data_header typ nonce = frame_version ∷ typ ∷ be64 nonce

-- `sealDataFrame`: `encrypt nonce ad plaintext` is what the cipher state gives.
unfoldable pub seal_data_frame :
    (ℕ → List ℕ → List ℕ → Option (List ℕ)) → ℕ → ℕ → List ℕ → Option (List ℕ)
seal_data_frame encrypt typ nonce payload = elim (encrypt nonce (data_header typ nonce) payload) [
  | none ↦ none
  | some sealed ↦ some (data_header typ nonce ++ sealed)
]

read_be64 : (n : ℕ) (rest : List ℕ) → n < 2 ^ 64 → read_be 8 0 (be64 n ++ rest) ≡ n
unfolding be64
read_be64 n rest small = omega arith

-- What a receiver makes of a frame: the sender's type and nonce, and as associated data and
-- ciphertext (the first ten bytes and the others) just what was sealed and what came out of it.
pub record IsSealed (encrypt : ℕ → List ℕ → List ℕ → Option (List ℕ)) (typ nonce : ℕ)
    (payload wire : List ℕ) : Type 0 where
  pub parsed : parse_frame wire ≡ frame typ (drop 2 wire)
  pub numbered : data_nonce (drop 2 wire) ≡ some nonce
  pub opened : encrypt nonce (take 10 wire) payload ≡ some (drop 10 wire)

module _ (encrypt : ℕ → List ℕ → List ℕ → Option (List ℕ)) (typ nonce : ℕ) (payload : List ℕ)
    (small : nonce < 2 ^ 64) where
  header-IsSealed :
      (sealed : List ℕ)
      → encrypt nonce (data_header typ nonce) payload ≡ some sealed
      → IsSealed encrypt typ nonce payload (data_header typ nonce ++ sealed)
  unfolding parse_frame data_nonce be64
  header-IsSealed sealed made = record {
    parsed = ground arith;
    numbered = ground (arith, read_be64 nonce sealed small);
    opened = made;
  }

-- A frame that was sealed under a nonce of 64 bits is parsed to its type and nonce, and its first
-- ten bytes and the bytes behind them are the associated data and the ciphertext of the sealing.
pub seal_data_frame-IsSealed :
    (encrypt : ℕ → List ℕ → List ℕ → Option (List ℕ)) (typ nonce : ℕ) (payload wire : List ℕ)
    → nonce < 2 ^ 64
    → seal_data_frame encrypt typ nonce payload ≡ some wire
    → IsSealed encrypt typ nonce payload wire
unfolding seal_data_frame
seal_data_frame-IsSealed encrypt typ nonce payload wire small e =
    elim (Option-cases (encrypt nonce (data_header typ nonce) payload)) [
      | inl failed ↦ absurd (ground (arith, failed))
      | inr (sealed, made) ↦
          let same : data_header typ nonce ++ sealed ≡ wire = ground (arith, made) in
          subst (IsSealed encrypt typ nonce payload) same
            (header-IsSealed encrypt typ nonce payload small sealed made)
    ]
