-- ===== src/Window.antt =====
-- The sliding replay window of a session (internal/tunnel/engine.go, `recvWindow`), and the part of
-- `handleData` that asks it (`trySession`, with the decryption as a parameter).
pub mod Replay
mod Tests
use selfremote.Common.{
  ℕ, ◌-◌, ◌+◌, ◌*◌, ◌%◌, ◌^◌, Bool, true, false, List, [], ◌∷◌, Option, none, some, bit_and, bit_or,
  ltb, leb, ◌==◌, if◌then◌else◌,
}

-- A uint64 is a number below 2 ^ 64; `bitmap` has digit i set when (highest - i) was received.
pub record RecvWindow : Type 0 where
  pub init : Bool
  pub highest : ℕ
  pub bitmap : ℕ

abbrev pub new_window : RecvWindow
new_window = record { init = false; highest = 0; bitmap = 0 }

-- `x << s` on uint64: a shift by 64 or more leaves 0.
abbrev pub shl64 : ℕ → ℕ → ℕ
shl64 x s = x * 2 ^ s % 2 ^ 64

unfoldable pub acceptable : RecvWindow → ℕ → Bool
acceptable w n =
    if w.init
    then (if ltb w.highest n
        then true
        else if leb 64 (w.highest - n)
        then false
        else bit_and w.bitmap (shl64 1 (w.highest - n)) == 0)
    else true

unfoldable pub commit : RecvWindow → ℕ → RecvWindow
commit w n =
    if w.init
    then (if ltb w.highest n
        then record w {
          highest = n;
          bitmap = if leb 64 (n - w.highest) then 1 else bit_or (shl64 w.bitmap (n - w.highest)) 1;
        }
        else record w { bitmap = bit_or w.bitmap (shl64 1 (w.highest - n)) })
    else record { init = true; highest = n; bitmap = 1 }

-- The receiving half of a session: the window and the count of accepted packets.
pub record Receiver : Type 0 where
  pub window : RecvWindow
  pub recv_count : ℕ

-- A frame of data as it arrives: the nonce in its header, and its bytes.
pub record Arrival : Type 0 where
  pub nonce : ℕ
  pub frame : List ℕ

-- `trySession`: `decrypt n frame` is what the cipher makes of the frame under nonce `n`.
unfoldable pub try_session :
    (ℕ → List ℕ → Option (List ℕ)) → Receiver → ℕ → List ℕ → Receiver × Option (List ℕ)
try_session decrypt s nonce frame =
    if acceptable s.window nonce
    then (elim (decrypt nonce frame) [
      | none ↦ (s, none)
      | some b ↦ (
        record { window = commit s.window nonce; recv_count = (s.recv_count + 1) % 2 ^ 64 },
        some b,
      )
    ])
    else (s, none)

-- The nonces that a receiver accepts out of a stream of frames, in order of arrival.
pub receive : (ℕ → List ℕ → Option (List ℕ)) → Receiver → List Arrival → List ℕ
receive decrypt s [] = []
receive decrypt s (a ∷ arrivals) =
    let (s', out) = try_session decrypt s a.nonce a.frame in
    let rest = receive decrypt s' arrivals in elim out [ none ↦ rest | some _ ↦ a.nonce ∷ rest ]
