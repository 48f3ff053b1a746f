-- ===== src/Inbound/Open.antt =====
-- Which session opens a data frame (internal/tunnel/engine.go, the first half of `handleData`).
use selfremote.Common.{
  ℕ, ◌≡◌, ◌⊎◌, inl, inr, refl, ◌∙◌, ap, subst, Bool, true, false, String, str_eq, List, [], ◌∷◌,
  Option, none, some, ltb, ◌==◌, if◌then◌else◌, arith, Option-cases, Bool-cases,
}
use selfremote.Window.{Receiver, try_session, acceptable}
use selfremote.Engine.{Engine, PeerState, Session, responder, dials}
use selfremote.Engine.Heap.{lookup}
use selfremote.Engine.Library.{Library}
use selfremote.Session.{first_peer}

-- A frame that was opened: by which peer, its state after that, the plaintext.
pub record Opened : Type 0 where
  pub peer : ℕ
  pub state : PeerState
  pub plain : List ℕ

abbrev pub same_peer : Option ℕ → ℕ → Bool
same_peer none q = false
same_peer (some p) q = p == q

module _ (lib : Library) (nonce now : ℕ) (frm : List ℕ) where
  -- `trySession`: on a failure the session is as it was.
  abbrev pub after_try : Session → Receiver × Option (List ℕ) → Option (Session × List ℕ)
  after_try s (r, none) = none
  after_try s (r, some b) = some (record s { window = r.window; recv_count = r.recv_count }, b)

  abbrev pub try_one : Option Session → Option (Session × List ℕ)
  try_one none = none
  try_one (some s) = after_try s (
      try_session (lib.opened s.cipher) (record { window = s.window; recv_count = s.recv_count })
        nonce frm)

  abbrev pub found_prev : ℕ → PeerState → Option (Session × List ℕ) → Option Opened
  found_prev q st none = none
  found_prev q st (some (s, b)) =
      some (record { peer = q; state = record st { prev = some s }; plain = b })

  abbrev pub found_cur : ℕ → PeerState → Option (Session × List ℕ) → Option Opened
  found_cur q st (some (s, b)) =
      some (record { peer = q; state = record st { cur = some s }; plain = b })
  found_cur q st none = if ltb now st.prev_deadline then found_prev q st (try_one st.prev) else none

  -- `tryPeer`: the session, then the one before it until its grace has passed.
  unfoldable pub try_peer : ℕ → PeerState → Option Opened
  unfolding try_session
  try_peer q st = found_cur q st (try_one st.cur)

  abbrev pub try_sender : (ℕ → PeerState) → Option ℕ → Option Opened
  try_sender heap none = none
  try_sender heap (some p) = try_peer p (heap p)

  -- The loop over the peers other than the presumed sender.
  unfoldable pub try_others : (ℕ → PeerState) → Option ℕ → List (String × ℕ) → Option Opened
  try_others heap p [] = none
  try_others heap p ((k, q) ∷ rows) =
      let rest = try_others heap p rows in
      if same_peer p q then rest else elim (try_peer q (heap q)) [ none ↦ rest | some o ↦ some o ]

  abbrev pub known_at : Engine → Option String → Option ℕ
  known_at e none = none
  known_at e (some endpoint) = lookup str_eq endpoint e.addr2peer

  -- The presumed sender: who was last at the source, or the one peer of a dialling mode.
  abbrev pub presumed : Engine → Option ℕ → Option ℕ
  presumed e (some p) = some p
  presumed e none = if dials e.mode then first_peer e.peers else none

  unfoldable pub open_frame : Engine → Option String → Option Opened
  unfolding try_peer try_others
  open_frame e from =
      let p = presumed e (known_at e from) in
      let others = try_others e.heap p e.peers in
      elim (try_sender e.heap p) [
        | some o ↦ some o
        | none ↦ if responder e.mode then others else none
      ]

  -- A session that opens the frame: its window takes the nonce, its cipher the frame.
  pub record Opens (s : Session) (plain : List ℕ) : Type 0 where
    pub fresh : acceptable s.window nonce ≡ true
    pub decrypted : lib.opened s.cipher nonce frm ≡ some plain

  -- The peer's session, or the one before it in its grace, opens the frame; the state differs from
  -- the peer's in that session's window and count.
  pub record IsOpened (heap : ℕ → PeerState) (o : Opened) : Type 0 where
    pub session : Session
    pub place :
        ((heap o.peer).cur ≡ some session)
        ⊎ (((heap o.peer).prev ≡ some session) × (ltb now (heap o.peer).prev_deadline ≡ true))
    pub opens : Opens session o.plain
    pub same_cfg : o.state.cfg ≡ (heap o.peer).cfg
    pub same_authed : o.state.authed ≡ (heap o.peer).authed

  try_one-Opens :
      (c : Option Session) (s' : Session) (b : List ℕ)
      → try_one c ≡ some (s', b)
      → (s : Session) × (c ≡ some s) × Opens s b
  unfolding try_session
  try_one-Opens none s' b e = cc
  try_one-Opens (some s) s' b e = elim (Bool-cases (acceptable s.window nonce)) [
    | inr stale ↦ absurd (ground (arith, stale))
    | inl fresh ↦ elim (Option-cases (lib.opened s.cipher nonce frm)) [
      | inl failed ↦ absurd (ground (arith, fresh, failed))
      | inr (plain, made) ↦
          let same : plain ≡ b = ground (arith, fresh, made) in
          (s, refl, record { fresh = fresh; decrypted = made ∙ ap some same })
    ]
  ]

  found_prev-IsOpened :
      (heap : ℕ → PeerState) (q : ℕ) (r : Option (Session × List ℕ)) (o : Opened)
      → try_one (heap q).prev ≡ r
      → ltb now (heap q).prev_deadline ≡ true
      → found_prev q (heap q) r ≡ some o
      → IsOpened heap o
  found_prev-IsOpened heap q none o tried early e = cc
  found_prev-IsOpened heap q (some (s', b)) o tried early e =
      let (s, at, opens) = try_one-Opens (heap q).prev s' b tried in
      let found : Opened = record {
        peer = q;
        state = record (heap q) { prev = some s' };
        plain = b;
      } in
      let same : found ≡ o = cc in
      subst (IsOpened heap) same (record {
        session = s;
        place = inr (at, early);
        opens = opens;
        same_cfg = refl;
        same_authed = refl;
      })

  found_cur-IsOpened :
      (heap : ℕ → PeerState) (q : ℕ) (r : Option (Session × List ℕ)) (o : Opened)
      → try_one (heap q).cur ≡ r
      → found_cur q (heap q) r ≡ some o
      → IsOpened heap o
  found_cur-IsOpened heap q (some (s', b)) o tried e =
      let (s, at, opens) = try_one-Opens (heap q).cur s' b tried in
      let found : Opened = record {
        peer = q;
        state = record (heap q) { cur = some s' };
        plain = b;
      } in
      let same : found ≡ o = cc in
      subst (IsOpened heap) same
        (record { session = s; place = inl at; opens = opens; same_cfg = refl; same_authed = refl })
  found_cur-IsOpened heap q none o tried e = elim (Bool-cases (ltb now (heap q).prev_deadline)) [
    | inr late ↦ absurd (ground (arith, late))
    | inl early ↦
        found_prev-IsOpened heap q (try_one (heap q).prev) o refl early (ground (arith, early))
  ]

  try_peer-IsOpened :
      (heap : ℕ → PeerState) (q : ℕ) (o : Opened) → try_peer q (heap q) ≡ some o → IsOpened heap o
  unfolding try_peer
  try_peer-IsOpened heap q o e = found_cur-IsOpened heap q (try_one (heap q).cur) o refl e

  try_others-IsOpened :
      (heap : ℕ → PeerState) (p : Option ℕ) (rows : List (String × ℕ)) (o : Opened)
      → try_others heap p rows ≡ some o
      → IsOpened heap o
  unfolding try_others
  try_others-IsOpened heap p [] o e = cc
  try_others-IsOpened heap p ((k, q) ∷ rows) o e = elim (Bool-cases (same_peer p q)) [
    | inl same ↦ try_others-IsOpened heap p rows o (ground (arith, same))
    | inr other ↦ elim (Option-cases (try_peer q (heap q))) [
      | inl failed ↦ try_others-IsOpened heap p rows o (ground (arith, other, failed))
      | inr (found, made) ↦ try_peer-IsOpened heap q o (ground (arith, other, made))
    ]
  ]

  try_sender-IsOpened :
      (heap : ℕ → PeerState) (p : Option ℕ) (o : Opened)
      → try_sender heap p ≡ some o
      → IsOpened heap o
  try_sender-IsOpened heap none o e = cc
  try_sender-IsOpened heap (some p) o e = try_peer-IsOpened heap p o e

  pub open_frame-IsOpened :
      (e : Engine) (from : Option String) (o : Opened)
      → open_frame e from ≡ some o
      → IsOpened e.heap o
  unfolding open_frame
  open_frame-IsOpened e from o made =
      let p = presumed e (known_at e from) in
      elim (Option-cases (try_sender e.heap p)) [
        | inr (found, tried) ↦ try_sender-IsOpened e.heap p o (ground (arith, tried))
        | inl failed ↦ elim (Bool-cases (responder e.mode)) [
          | inr dialling ↦ absurd (ground (arith, failed, dialling))
          | inl answering ↦
              try_others-IsOpened e.heap p e.peers o (ground (arith, failed, answering))
        ]
      ]
