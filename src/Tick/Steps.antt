-- ===== src/Tick/Steps.antt =====
-- The loop of `tick` (internal/tunnel/engine.go): its state, and what falls due without a frame.
use selfremote.Common.{
  ℕ, ◌+◌, ◌*◌, ◌%◌, ◌^◌, Bool, true, false, not, ◌&&◌, ◌||◌, String, List, [], ◌∷◌, ◌++◌, Option,
  none, some, ltb, leb, ◌==◌, if◌then◌else◌,
}
use selfremote.Engine.{
  Engine, PeerState, Session, responder, dials, requires_mfa, reset_auth, set_peer, frame_size,
}
use selfremote.Session.{write_raw, retry_delay}

-- A message that was made under the lock and is written behind the loop.
pub data Pending : Type 0 where
  sealed_frame : (peer cipher typ nonce : ℕ) (payload : List ℕ) → Pending
  raw_frame : (peer : ℕ) (bytes : List ℕ) → Pending

-- The state of the loop: the engine, `sends`, `onReady`, `repromptPeer`.
pub record Round : Type 0 where
  pub engine : Engine
  pub sends : List Pending
  pub on_ready : Bool
  pub reprompt : Option ℕ

-- `now.Sub(x) > d`; the zero time is longer ago than any interval.
abbrev pub is_past : ℕ → ℕ → ℕ → Bool
is_past x d now = x == 0 || ltb (x + d) now

abbrev pub has_session : Option Session → Bool
has_session none = false
has_session (some _) = true

abbrev pub with_peer : Round → ℕ → PeerState → Round
with_peer t p st = record t { engine = set_peer t.engine p st }

-- `writeWire` on a pending message.
unfoldable pub write_pending : Engine → List Pending → Engine
unfolding set_peer write_raw
write_pending e [] = e
write_pending e (raw_frame p bytes ∷ sends) = write_pending (write_raw e p bytes) sends
write_pending e (sealed_frame p cipher typ nonce payload ∷ sends) =
    let st = e.heap p in
    let st' = record st { bytes_out = (st.bytes_out + frame_size payload) % 2 ^ 64 } in
    write_pending
      (record (set_peer e p st') {
        sent =
            e.sent
            ++ (record {
              peer = p;
              cipher = cipher;
              typ = typ;
              nonce = nonce;
              payload = payload;
              addr = st.addr;
            }
                ∷ []);
      })
      sends

-- A peer that needs no code is authenticated by its handshake.
unfoldable pub settle : Round → ℕ → Round
unfolding set_peer
settle t p =
    let st = t.engine.heap p in
    if responder t.engine.mode && has_session st.cur && not st.authed && not (requires_mfa st)
    then with_peer t p (record st { authed = true })
    else t

-- The previous session after its grace.
unfoldable pub expire : Round → ℕ → ℕ → Round
unfolding set_peer
expire t p now =
    let st = t.engine.heap p in
    if has_session st.prev && ltb st.prev_deadline now
    then with_peer t p (record st { prev = none })
    else t

-- A peer that was not heard for `DeadTimeout`. Of the re-dial its request is counted.
unfoldable pub bury : Round → ℕ → ℕ → Round
unfolding set_peer reset_auth
bury t p now =
    let e = t.engine in
    let st = e.heap p in
    let dead = record (reset_auth (record st { cur = none; prev = none })) {
      auth_sent_at = 0;
      next_attempt = now;
    } in
    let e' = record (set_peer e p dead) {
      redials = if dials e.mode then e.redials + 1 else e.redials;
    } in
    if has_session st.cur && is_past st.last_recv e.opts.dead_timeout now
    then record t { engine = e' }
    else t

-- The client goes on after `authGrace` if it was not asked for a code.
unfoldable pub waive : Round → ℕ → ℕ → Option Session → Round
unfolding set_peer
waive t p now none = t
waive t p now (some s) =
    let e = t.engine in
    let st = e.heap p in
    let idle = dials e.mode && not st.authed && not st.auth_prompting in
    let ready = record (set_peer e p (record st { authed = true })) { client_ready = true } in
    if idle && st.auth_sent_at == 0 && is_past s.established (3 * 10 ^ 9) now
    then record t { engine = ready; on_ready = t.on_ready || not e.client_ready }
    else t

-- A submitted code that was not answered in eight seconds.
unfoldable pub ask_again : Round → ℕ → ℕ → Round
unfolding set_peer
ask_again t p now =
    let e = t.engine in
    let st = e.heap p in
    let idle = dials e.mode && has_session st.cur && not st.authed && not st.auth_prompting in
    if idle && not (st.auth_sent_at == 0) && ltb (st.auth_sent_at + 8 * 10 ^ 9) now
    then record (with_peer t p (record st { auth_sent_at = 0 })) { reprompt = some p }
    else t

-- `agentInfoJSONLocked`: the counts over all peers. The identity is the process's own.
unfoldable pub count_bytes : (PeerState → ℕ) → (ℕ → PeerState) → List (String × ℕ) → ℕ
count_bytes f heap [] = 0
count_bytes f heap ((k, p) ∷ rows) = (f (heap p) + count_bytes f heap rows) % 2 ^ 64

-- A pending handshake that was not answered in time.
unfoldable pub give_up : Round → ℕ → ℕ → Option ℕ → Round
unfolding set_peer retry_delay
give_up t p now none = t
give_up t p now (some hs) =
    let e = t.engine in
    let st = e.heap p in
    if is_past st.hs_sent e.opts.handshake_retry now
    then with_peer t p (record st {
      hs = none;
      attempt = st.attempt + 1;
      next_attempt = now + retry_delay e (st.attempt + 1);
    })
    else t

-- No session, or one that is to be replaced by its age or its packets.
unfoldable pub is_rekey_due : Engine → ℕ → Option Session → Bool
is_rekey_due e now none = true
is_rekey_due e now (some s) =
    is_past s.established e.opts.rekey_interval now
    || leb e.opts.rekey_packets ((s.send_nonce + s.recv_count) % 2 ^ 64)

abbrev pub has_handshake : Option ℕ → Bool
has_handshake none = false
has_handshake (some _) = true
