-- ===== src/Nonce/Opened.antt =====
-- Which session opens a datagram (internal/tunnel/engine.go) and the nonces in use.
use selfremote.Common.{
  ℕ, refl, String, List, [], ◌∷◌, Option, none, some, ltb, if◌then◌else◌, if_cases,
}
use selfremote.Window.{Receiver, try_session}
use selfremote.Engine.{Engine, PeerState, Session, responder}
use selfremote.Engine.Library.{Library}
use selfremote.Inbound.Open.{
  Opened, try_one, after_try, found_prev, found_cur, try_peer, try_sender, try_others, presumed,
  known_at, open_frame, same_peer,
}
use selfremote.Nonce.Count.{Below, Below-refl}

-- What a session that was tried leaves of a peer's own.
abbrev Kept : Option Session → Option (Session × List ℕ) → Type 0
Kept c none = Unit
Kept c (some (s', b)) = Below c (some s')

abbrev pub IsCalm : (ℕ → PeerState) → Option Opened → Type 0
IsCalm heap none = Unit
IsCalm heap (some o) = Below (heap o.peer).cur o.state.cur

-- A frame that is opened moves a window, not the session's next nonce.
module _ (lib : Library) (nonce now : ℕ) (frm : List ℕ) where
  after_try-Kept :
      (s : Session) (r : Receiver × Option (List ℕ))
      → Kept (some s) (after_try lib nonce now frm s r)
  after_try-Kept s (r, none) = tt
  after_try-Kept s (r, some b) = (refl, refl)

  try_one-Kept : (c : Option Session) → Kept c (try_one lib nonce now frm c)
  try_one-Kept none = tt
  try_one-Kept (some s) = after_try-Kept s (
      try_session (lib.opened s.cipher) (record { window = s.window; recv_count = s.recv_count })
        nonce frm)

  found_prev-IsCalm :
      (heap : ℕ → PeerState) (q : ℕ) (found : Option (Session × List ℕ))
      → IsCalm heap (found_prev lib nonce now frm q (heap q) found)
  found_prev-IsCalm heap q none = tt
  found_prev-IsCalm heap q (some (s, b)) = Below-refl (heap q).cur

  found_cur-IsCalm :
      (heap : ℕ → PeerState) (q : ℕ) (found : Option (Session × List ℕ))
      → Kept (heap q).cur found
      → IsCalm heap (found_cur lib nonce now frm q (heap q) found)
  found_cur-IsCalm heap q (some (s, b)) kept = kept
  found_cur-IsCalm heap q none kept =
      let tried = try_one lib nonce now frm (heap q).prev in
      if_cases (IsCalm heap) (ltb now (heap q).prev_deadline)
        (found_prev lib nonce now frm q (heap q) tried) none
        (λ grace. found_prev-IsCalm heap q tried) (λ late. tt)

  try_peer-IsCalm :
      (heap : ℕ → PeerState) (q : ℕ) → IsCalm heap (try_peer lib nonce now frm q (heap q))
  unfolding try_peer
  try_peer-IsCalm heap q =
      found_cur-IsCalm heap q (try_one lib nonce now frm (heap q).cur) (try_one-Kept (heap q).cur)

  try_sender-IsCalm :
      (heap : ℕ → PeerState) (p : Option ℕ) → IsCalm heap (try_sender lib nonce now frm heap p)
  try_sender-IsCalm heap none = tt
  try_sender-IsCalm heap (some p) = try_peer-IsCalm heap p

  first-IsCalm :
      (heap : ℕ → PeerState) (x rest : Option Opened)
      → IsCalm heap x
      → IsCalm heap rest
      → IsCalm heap (elim x [ none ↦ rest | some o ↦ some o ])
  first-IsCalm heap none rest here there = there
  first-IsCalm heap (some o) rest here there = here

  try_others-IsCalm :
      (heap : ℕ → PeerState) (p : Option ℕ) (rows : List (String × ℕ))
      → IsCalm heap (try_others lib nonce now frm heap p rows)
  unfolding try_others
  try_others-IsCalm heap p [] = tt
  try_others-IsCalm heap p ((k, q) ∷ rows) =
      let rest = try_others lib nonce now frm heap p rows in
      let tried = try_peer lib nonce now frm q (heap q) in
      let c = try_others-IsCalm heap p rows in
      if_cases (IsCalm heap) (same_peer p q) rest (elim tried [ none ↦ rest | some o ↦ some o ])
        (λ same. c) (λ other. first-IsCalm heap tried rest (try_peer-IsCalm heap q) c)

  pub open_frame-IsCalm :
      (e : Engine) (from : Option String) → IsCalm e.heap (open_frame lib nonce now frm e from)
  unfolding open_frame
  open_frame-IsCalm e from =
      let p = presumed lib nonce now frm e (known_at lib nonce now frm e from) in
      let others = try_others lib nonce now frm e.heap p e.peers in
      let rest = if responder e.mode then others else none in
      first-IsCalm e.heap (try_sender lib nonce now frm e.heap p) rest (try_sender-IsCalm e.heap p)
        (if_cases (IsCalm e.heap) (responder e.mode) others none
          (λ answers. try_others-IsCalm e.heap p e.peers) (λ dialling. tt))
