-- ===== src/Session/Guard.antt =====
-- Who gets a session.
use selfremote.Common.{
  ℕ, ◌≡◌, ◌⊎◌, inl, inr, refl, subst, false, ◌&&◌, String, str_eq, List, Option, none, some, ltb,
  arith, Bool-cases,
}
use selfremote.Engine.{Engine, requires_mfa, set_peer}
use selfremote.Engine.Heap.{insert}
use selfremote.Engine.Library.{Library}
use selfremote.Session.{
  install_session, write_raw, peer_by_pub, greet, accept_init, answer_init, read_static,
  handle_handshake_init,
}
use selfremote.Session.Holds.{
  superseded, Holds, SameOthers, SameOthers-trans, set_peer-SameOthers, greet-Holds,
  write_raw-Holds, install_session-Holds,
}

-- A first message that was accepted: its static key is a registered peer's, who is not locked out
-- and whom the library answered; that peer, and no other, has the session agreed.
pub record IsEstablished (lib : Library) (e : Engine) (addr : String) (payload : List ℕ) (now : ℕ)
    (e' : Engine) : Type 0 where
  pub key : List ℕ
  pub read : lib.read_init payload ≡ some key
  pub peer : ℕ
  pub known : peer_by_pub lib e key ≡ some peer
  pub unlocked : requires_mfa (e.heap peer) && ltb now (e.heap peer).auth_locked_until ≡ false
  pub message : List ℕ
  pub cipher : ℕ
  pub answered : lib.respond payload ≡ some (message, cipher)
  pub holds :
      Holds peer cipher now
        (superseded (e.heap peer) (e.heap peer).cur)
        (some addr)
        (e.heap peer).authed
        e'
  pub others : SameOthers peer e e'

module _ (lib : Library) (e : Engine) (addr : String) (payload : List ℕ) (p now : ℕ) where
  accept_init-Holds :
      (msg : List ℕ) (cipher : ℕ)
      → Holds p cipher now
          (superseded (e.heap p) (e.heap p).cur)
          (some addr)
          (e.heap p).authed
          (accept_init lib e addr p now (some (msg, cipher)))
        × SameOthers p e (accept_init lib e addr p now (some (msg, cipher)))
  unfolding set_peer
  accept_init-Holds msg cipher =
      let st = e.heap p in
      let before = superseded st st.cur in
      let st' = record st { addr = some addr } in
      let found = record (set_peer e p st') { addr2peer = insert str_eq addr p e.addr2peer } in
      let there : found.heap p ≡ st' = ground arith in
      let first = install_session-Holds found p cipher now in
      let installed = install_session found p cipher now in
      let held =
        subst (λ s. Holds p cipher now (superseded s s.cur) s.addr s.authed installed) there
          first.0 in
      let written =
        write_raw-Holds lib p cipher now before (some addr) st.authed installed msg held in
      let greeted =
        greet-Holds lib p cipher now before (some addr) st.authed (write_raw installed p msg)
          written.0 in
      let others : SameOthers p e (write_raw installed p msg) =
        SameOthers-trans p e installed (write_raw installed p msg)
          (SameOthers-trans p e found installed (set_peer-SameOthers e p st') first.1) written.1 in
      (
        greeted.0,
        SameOthers-trans p e (write_raw installed p msg)
            (greet lib (write_raw installed p msg) p now) others greeted.1,
      )

  accept_init-Guarded :
      (key : List ℕ) (r : Option (List ℕ × ℕ))
      → lib.read_init payload ≡ some key
      → peer_by_pub lib e key ≡ some p
      → requires_mfa (e.heap p) && ltb now (e.heap p).auth_locked_until ≡ false
      → lib.respond payload ≡ r
      → (accept_init lib e addr p now r ≡ e)
        ⊎ IsEstablished lib e addr payload now (accept_init lib e addr p now r)
  accept_init-Guarded key none read known unlocked answered = inl refl
  accept_init-Guarded key (some (msg, cipher)) read known unlocked answered =
      let held = accept_init-Holds msg cipher in
      inr (record {
        key = key;
        read = read;
        peer = p;
        known = known;
        unlocked = unlocked;
        message = msg;
        cipher = cipher;
        answered = answered;
        holds = held.0;
        others = held.1;
      })

module _ (lib : Library) (e : Engine) (addr : String) (payload : List ℕ) (now : ℕ) where
  answer_init-Guarded :
      (key : List ℕ) (found : Option ℕ)
      → lib.read_init payload ≡ some key
      → peer_by_pub lib e key ≡ found
      → (answer_init lib e addr payload now found ≡ e)
        ⊎ IsEstablished lib e addr payload now (answer_init lib e addr payload now found)
  answer_init-Guarded key none read known = inl refl
  answer_init-Guarded key (some p) read known =
      elim (Bool-cases (requires_mfa (e.heap p) && ltb now (e.heap p).auth_locked_until)) [
        | inl locked ↦ inl (rw locked refl)
        | inr unlocked ↦ rw unlocked (
            accept_init-Guarded lib e addr payload p now key (lib.respond payload) read known
              unlocked refl)
      ]

  read_static-Guarded :
      (r : Option (List ℕ))
      → lib.read_init payload ≡ r
      → (read_static lib e addr payload now r ≡ e)
        ⊎ IsEstablished lib e addr payload now (read_static lib e addr payload now r)
  read_static-Guarded none read = inl refl
  read_static-Guarded (some key) read = answer_init-Guarded key (peer_by_pub lib e key) read refl

-- A first handshake message changes nothing, or it was accepted: its static key is a registered
-- peer's, who is not locked out and whom the library answered. Then that peer has the session agreed,
-- at the address the message came from, with the session it had before as the previous one and with
-- its standing at the gate of the second factor unchanged; and no other peer's state is touched.
pub handle_handshake_init-IsEstablished :
    (lib : Library) (e : Engine) (addr : String) (payload : List ℕ) (now : ℕ)
    → (handle_handshake_init lib e addr payload now ≡ e)
      ⊎ IsEstablished lib e addr payload now (handle_handshake_init lib e addr payload now)
unfolding handle_handshake_init
handle_handshake_init-IsEstablished lib e addr payload now =
    read_static-Guarded lib e addr payload now (lib.read_init payload) refl
