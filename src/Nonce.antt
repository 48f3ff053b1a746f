-- ===== src/Nonce.antt =====
-- The nonces of sealed frames over a whole run of an endpoint (internal/tunnel): the frames sent and
-- those still to be written, counted by cipher and nonce.
pub mod Count
pub mod Write
pub mod Send
pub mod Relays
pub mod Auths
pub mod Sessions
pub mod Reloads
pub mod Opened
pub mod Agents
pub mod Packets
pub mod Round
pub mod Timer
pub mod Reach
mod Tests
use selfremote.Common.{
  ℕ, ◌+◌, ◌≤◌, ◌≡◌, ◌≢◌, Bool, ◌&&◌, List, [], ◌∷◌, Option, none, some, ◌==◌, if◌then◌else◌,
}
use selfremote.Engine.{PeerState, Session, Sent, Engine}
use selfremote.Tick.Steps.{Pending, sealed_frame, raw_frame}

abbrev pub hit : ℕ → ℕ → ℕ → ℕ → ℕ
hit c n c' n' = if c == c' && n == n' then 1 else 0

-- How many of the frames are sealed by a cipher under a nonce.
unfoldable pub uses : ℕ → ℕ → List Sent → ℕ
uses c n [] = 0
uses c n (f ∷ fs) = hit c n f.cipher f.nonce + uses c n fs

unfoldable pub pends : ℕ → ℕ → List Pending → ℕ
pends c n [] = 0
pends c n (raw_frame p bytes ∷ fs) = pends c n fs
pends c n (sealed_frame p c' typ n' payload ∷ fs) = hit c n c' n' + pends c n fs

-- No cipher seals twice under a nonce; a session's next nonces are unused; no two peers share a
-- cipher to send with.
pub record IsOnce (used : ℕ → ℕ → ℕ) (cur : ℕ → Option Session) : Type 0 where
  pub once : (c n : ℕ) → used c n ≤ 1
  pub ahead :
      (p : ℕ) (s : Session) → cur p ≡ some s → (n : ℕ) → s.send_nonce ≤ n → used s.cipher n ≡ 0
  pub apart :
      (p q : ℕ) (s t : Session) → cur p ≡ some s → cur q ≡ some t → p ≢ q → s.cipher ≢ t.cipher

-- The frames sent and those to be written.
unfoldable pub Once : (ℕ → PeerState) → List Sent → List Pending → Type 0
unfolding uses pends
Once heap sent pend = IsOnce (λ c n. uses c n sent + pends c n pend) (λ p. (heap p).cur)
