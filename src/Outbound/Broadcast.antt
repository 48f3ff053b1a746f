-- ===== src/Outbound/Broadcast.antt =====
-- What `sendData` sends, against a list of frames drawn up beforehand.
use selfremote.Common.{
  ℕ, ◌≡◌, ◌≢◌, refl, sym, ◌∙◌, ap, Bool, ◌&&◌, String, List, [], ◌∷◌, ◌++◌, Option, none, some, All,
  if◌then◌else◌, arith, Bool-cases, Option-cases, inl, inr,
}
use mathlib.Core.List.{append_assoc, append-nil}
use selfremote.Engine.{Engine, PeerState, Session, Sent, frame_data, send_to, set_peer, seal_on}
use selfremote.Registry.Rows.{Others, Unique, IsHeaped}
use selfremote.Outbound.{send_all, send_data}

module _ (can_seal : ℕ → Bool) (pkt : List ℕ) where
  abbrev frame_for : PeerState → ℕ → Option Session → List Sent
  frame_for st q none = []
  frame_for st q (some s) =
      if st.authed && can_seal s.send_nonce
      then record {
        peer = q;
        cipher = s.cipher;
        typ = frame_data;
        nonce = s.send_nonce;
        payload = pkt;
        addr = st.addr;
      }
        ∷ []
      else []

  -- One data frame of the packet for each authenticated peer with a session that can still seal,
  -- in the order of the map, each under its session's next nonce.
  abbrev pub due : (ℕ → PeerState) → List (String × ℕ) → List Sent
  due heap [] = []
  due heap ((k, q) ∷ rows) = frame_for (heap q) q (heap q).cur ++ due heap rows

  due-same :
      (heap heap' : ℕ → PeerState) (rows : List (String × ℕ))
      → All (λ row. heap' row.1 ≡ heap row.1) rows
      → due heap' rows ≡ due heap rows
  due-same heap heap' [] h = refl
  due-same heap heap' ((k, q) ∷ rows) h =
      ap (λ st. frame_for st q st.cur ++ due heap' rows) h.0
      ∙ ap (λ fs. frame_for (heap q) q (heap q).cur ++ fs) (due-same heap heap' rows h.1)

  send_to-sent :
      (e : Engine) (p now : ℕ)
      → (send_to can_seal e p now pkt).0.sent ≡ e.sent ++ frame_for (e.heap p) p (e.heap p).cur
  unfolding send_to seal_on
  send_to-sent e p now = elim (Option-cases (e.heap p).cur) [
    | inl gone ↦ ground (arith, gone, append-nil e.sent)
    | inr (s, live) ↦ elim (Bool-cases (e.heap p).authed) [
      | inr out ↦ ground (arith, live, out, append-nil e.sent)
      | inl authed ↦ elim (Bool-cases (can_seal s.send_nonce)) [
        | inr over ↦ ground (arith, live, authed, over, append-nil e.sent)
        | inl fine ↦ ground (arith, live, authed, fine)
      ]
    ]
  ]

  send_to-others :
      (e : Engine) (p q now : ℕ) → q ≢ p → (send_to can_seal e p now pkt).0.heap q ≡ e.heap q
  unfolding send_to seal_on set_peer
  send_to-others e p q now other = elim (Option-cases (e.heap p).cur) [
    | inl gone ↦ ground (arith, gone)
    | inr (s, live) ↦ elim (Bool-cases (e.heap p).authed) [
      | inr out ↦ ground (arith, live, out)
      | inl authed ↦ elim (Bool-cases (can_seal s.send_nonce)) [
        | inr over ↦ ground (arith, live, authed, over)
        | inl fine ↦ ground (arith, live, authed, fine, other)
      ]
    ]
  ]

  rows-same :
      (e : Engine) (k : String) (p now : ℕ) (rows : List (String × ℕ))
      → Others k p rows
      → All (λ row. (send_to can_seal e p now pkt).0.heap row.1 ≡ e.heap row.1) rows
  rows-same e k p now [] others = tt
  rows-same e k p now (row ∷ rows) others =
      (send_to-others e p row.1 now others.0.1, rows-same e k p now rows others.1)

  send_all-due :
      (rows : List (String × ℕ)) (e : Engine) (now : ℕ)
      → Unique rows
      → (send_all can_seal rows e now pkt).sent ≡ e.sent ++ due e.heap rows
  unfolding send_all
  send_all-due [] e now u = sym (append-nil e.sent)
  send_all-due ((k, p) ∷ rows) e now u =
      let after = (send_to can_seal e p now pkt).0 in
      send_all-due rows after now u.1
      ∙ (ap (λ fs. after.sent ++ fs)
            (due-same e.heap after.heap rows (rows-same e k p now rows u.0))
          ∙ (ap (λ fs. fs ++ due e.heap rows) (send_to-sent e p now)
              ∙ append_assoc e.sent (frame_for (e.heap p) p (e.heap p).cur) (due e.heap rows)))

-- On a well-formed map of peers a packet for all of them is sent as one data frame to each peer
-- that is authenticated and has a session whose next nonce can be sealed, under that nonce, in the
-- order of the map, and to no other peer: no frame depends on those sent before it.
pub send_data-due :
    (can_seal : ℕ → Bool) (e : Engine) (now : ℕ) (pkt : List ℕ)
    → IsHeaped e
    → (send_data can_seal e now pkt).sent ≡ e.sent ++ due can_seal pkt e.heap e.peers
unfolding send_data
send_data-due can_seal e now pkt h = send_all-due can_seal pkt e.peers e now h.unique
