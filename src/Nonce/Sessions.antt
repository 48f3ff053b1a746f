-- ===== src/Nonce/Sessions.antt =====
-- Handshakes (internal/tunnel/engine.go) and the nonces in use.
use selfremote.Common.{
  ℕ, ◌+◌, ◌*◌, ◌%◌, ◌^◌, ◌≡◌, refl, sym, ◌∙◌, subst, false, not, ◌&&◌, String, str_eq, List, [],
  Option, none, some, ◌==◌, length, if◌then◌else◌, if_cases, arith,
}
use selfremote.Engine.{
  Engine, PeerState, Session, requires_mfa, set_peer, send_sealed, frame_auth_challenge, frame_info,
}
use selfremote.Engine.Heap.{update, insert}
use selfremote.Engine.Library.{Library}
use selfremote.Session.{
  new_session, with_session, install_session, write_raw, retry_delay, first_peer, server_info,
  peer_by_pub, greet, accept_init, answer_init, read_static, handle_handshake_init,
  finish_handshake, resume_handshake, resp_to, handle_handshake_resp,
}
use selfremote.Tick.Steps.{Pending}
use selfremote.Nonce.Write.{IsFresh, install-Once}
use selfremote.Nonce.Send.{Clean, Limited, touch-Clean, same-Clean, send_sealed-Clean}

-- The ciphers that a handshake agrees are those of no frame sent and of no other session: both sides
-- draw new keys for it.
pub record IsRandom (lib : Library) (e : Engine) : Type 0 where
  pub answered :
      (payload msg : List ℕ) (cipher : ℕ)
      → lib.respond payload ≡ some (msg, cipher)
      → IsFresh e.heap e.sent cipher
  pub completed :
      (hs : ℕ) (payload : List ℕ) (cipher : ℕ)
      → lib.read_resp hs payload ≡ some cipher
      → IsFresh e.heap e.sent cipher

touch-IsFresh :
    (e : Engine) (p cipher : ℕ) (st : PeerState)
    → st.cur ≡ (e.heap p).cur
    → IsFresh e.heap e.sent cipher
    → IsFresh (update e.heap p st) e.sent cipher
touch-IsFresh e p cipher st same f = record {
  unused = f.unused;
  new = λ q t here. f.new q t (
      if_cases (λ (x : PeerState). (x.cur ≡ some t) → (e.heap q).cur ≡ some t) (p == q) st
        (e.heap q)
        (λ eq made. subst (λ x. (e.heap x).cur ≡ some t) (ground (arith, eq)) (sym same ∙ made))
        (λ other made. made) here);
}

with_session-cur :
    (e : Engine) (cipher now : ℕ) (st : PeerState) (old : Option Session)
    → (with_session e cipher now st old).cur ≡ some (new_session cipher now)
with_session-cur e cipher now st none = refl
with_session-cur e cipher now st (some s) = refl

install_session-Clean :
    (e : Engine) (p cipher now : ℕ)
    → IsFresh e.heap e.sent cipher
    → Clean [] e
    → Clean [] (install_session e p cipher now)
unfolding install_session set_peer Clean
install_session-Clean e p cipher now fresh c =
    install-Once e.heap e.sent p cipher (new_session cipher now)
      (with_session e cipher now (e.heap p) (e.heap p).cur) fresh refl
      (with_session-cur e cipher now (e.heap p) (e.heap p).cur) c

pub write_raw-Clean :
    (pend : List Pending) (e : Engine) (p : ℕ) (bytes : List ℕ)
    → Clean pend e
    → Clean pend (write_raw e p bytes)
unfolding write_raw
write_raw-Clean pend e p bytes c =
    let st = e.heap p in
    let st' = record st { bytes_out = (st.bytes_out + length bytes) % 2 ^ 64 } in
    same-Clean pend (set_peer e p st') (write_raw e p bytes) refl refl
      (touch-Clean pend e p st' refl c)

module _ (lib : Library) (limited : Limited lib.can_seal) where
  greet-Clean : (e : Engine) (p now : ℕ) → Clean [] e → Clean [] (greet lib e p now)
  unfolding greet
  greet-Clean e p now c =
      let st = e.heap p in
      let required = requires_mfa st && not st.authed in
      let st' = record st {
        auth_attempts = 0;
        auth_deadline = now + 120 * 10 ^ 9;
        challenge_at = now;
      } in
      let armed = if required then set_peer e p st' else e in
      let challenged =
        send_sealed lib.can_seal armed p now frame_auth_challenge (lib.encode_challenge required) in
      send_sealed-Clean lib.can_seal limited [] challenged p now frame_info
        (server_info lib challenged p)
        (send_sealed-Clean lib.can_seal limited [] armed p now frame_auth_challenge
          (lib.encode_challenge required)
          (if_cases (Clean []) required (set_peer e p st') e (λ on. touch-Clean [] e p st' refl c)
            (λ off. c)))

  accept_init-Clean :
      (e : Engine) (addr : String) (p now : ℕ) (reply : Option (List ℕ × ℕ))
      → ((msg : List ℕ) (cipher : ℕ) → reply ≡ some (msg, cipher) → IsFresh e.heap e.sent cipher)
      → Clean [] e
      → Clean [] (accept_init lib e addr p now reply)
  unfolding set_peer
  accept_init-Clean e addr p now none fresh c = c
  accept_init-Clean e addr p now (some (msg, cipher)) fresh c =
      let st = record (e.heap p) { addr = some addr } in
      let found = record (set_peer e p st) { addr2peer = insert str_eq addr p e.addr2peer } in
      let installed = install_session found p cipher now in
      greet-Clean (write_raw installed p msg) p now (
        write_raw-Clean [] installed p msg (
          install_session-Clean found p cipher now
            (touch-IsFresh e p cipher st refl (fresh msg cipher refl))
            (same-Clean [] (set_peer e p st) found refl refl (touch-Clean [] e p st refl c))))

  answer_init-Clean :
      (e : Engine) (addr : String) (payload : List ℕ) (now : ℕ) (p : Option ℕ)
      → IsRandom lib e
      → Clean [] e
      → Clean [] (answer_init lib e addr payload now p)
  answer_init-Clean e addr payload now none r c = c
  answer_init-Clean e addr payload now (some p) r c =
      ground (arith, accept_init-Clean e addr p now (lib.respond payload) (r.answered payload) c)

  read_static-Clean :
      (e : Engine) (addr : String) (payload : List ℕ) (now : ℕ) (key : Option (List ℕ))
      → IsRandom lib e
      → Clean [] e
      → Clean [] (read_static lib e addr payload now key)
  read_static-Clean e addr payload now none r c = c
  read_static-Clean e addr payload now (some key) r c =
      answer_init-Clean e addr payload now (peer_by_pub lib e key) r c

  pub handle_handshake_init-Clean :
      (e : Engine) (addr : String) (payload : List ℕ) (now : ℕ)
      → IsRandom lib e
      → Clean [] e
      → Clean [] (handle_handshake_init lib e addr payload now)
  unfolding handle_handshake_init
  handle_handshake_init-Clean e addr payload now r c =
      read_static-Clean e addr payload now (lib.read_init payload) r c

  finish_handshake-Clean :
      (e : Engine) (p now : ℕ) (agreed : Option ℕ)
      → ((cipher : ℕ) → agreed ≡ some cipher → IsFresh e.heap e.sent cipher)
      → Clean [] e
      → Clean [] (finish_handshake lib e p now agreed)
  finish_handshake-Clean e p now none fresh c =
      let st = e.heap p in
      touch-Clean [] e p
        (record st {
          hs = none;
          attempt = st.attempt + 1;
          next_attempt = now + retry_delay e (st.attempt + 1);
        })
        refl c
  finish_handshake-Clean e p now (some cipher) fresh c =
      let installed = install_session e p cipher now in
      touch-Clean [] installed p (record (installed.heap p) { authed = false; auth_sent_at = 0 })
        refl (install_session-Clean e p cipher now (fresh cipher refl) c)

  resume_handshake-Clean :
      (e : Engine) (p : ℕ) (payload : List ℕ) (now : ℕ) (hs : Option ℕ)
      → IsRandom lib e
      → Clean [] e
      → Clean [] (resume_handshake lib e p payload now hs)
  resume_handshake-Clean e p payload now none r c = c
  resume_handshake-Clean e p payload now (some hs) r c =
      finish_handshake-Clean e p now (lib.read_resp hs payload) (r.completed hs payload) c

  resp_to-Clean :
      (e : Engine) (payload : List ℕ) (now : ℕ) (p : Option ℕ)
      → IsRandom lib e
      → Clean [] e
      → Clean [] (resp_to lib e payload now p)
  resp_to-Clean e payload now none r c = c
  resp_to-Clean e payload now (some p) r c =
      resume_handshake-Clean e p payload now (e.heap p).hs r c

  pub handle_handshake_resp-Clean :
      (e : Engine) (payload : List ℕ) (now : ℕ)
      → IsRandom lib e
      → Clean [] e
      → Clean [] (handle_handshake_resp lib e payload now)
  unfolding handle_handshake_resp
  handle_handshake_resp-Clean e payload now r c =
      resp_to-Clean e payload now (first_peer e.peers) r c
