-- ===== src/Nonce/Round.antt =====
-- What the timer does to one peer (internal/tunnel/engine.go, the loop of `tick`) and the nonces in
-- use: those of the frames sent and of the frames that are to be written when the lock is released.
use selfremote.Common.{
  ℕ, ◌+◌, ◌%◌, ◌^◌, ◌≡◌, refl, sym, subst, Bool, true, false, not, ◌||◌, ◌&&◌, List, [], ◌∷◌, ◌++◌,
  Option, none, some, if◌then◌else◌, if_cases, arith,
}
use selfremote.Engine.{
  PeerState, Session, dials, reset_auth, set_peer, frame_auth_challenge, frame_agent_info,
  frame_agent_cmd, frame_keepalive,
}
use selfremote.Engine.Library.{Library}
use selfremote.Session.{retry_delay}
use selfremote.Tick.Steps.{
  sealed_frame, Round, is_past, has_session, with_peer, settle, expire, bury, waive, ask_again,
  give_up,
}
use selfremote.Tick.{
  agent_info, seal_later, note_challenge, chase, announce, stand_down, keep_alive,
}
use selfremote.Nonce.Count.{Below}
use selfremote.Nonce.Write.{put_off-Once}
use selfremote.Nonce.Send.{Clean, Limited, set_peer-Clean, touch-Clean, same-Clean}

unfoldable pub Sound : Round → Type 0
Sound t = Clean t.sends t.engine

same-Sound :
    (t t' : Round)
    → t'.engine.heap ≡ t.engine.heap
    → t'.engine.sent ≡ t.engine.sent
    → t'.sends ≡ t.sends
    → Sound t
    → Sound t'
unfolding Sound
same-Sound t t' heap sent sends h =
    same-Clean t'.sends t.engine t'.engine heap sent (subst (λ fs. Clean fs t.engine) (sym sends) h)

drop-Sound :
    (t : Round) (p : ℕ) (st : PeerState)
    → Below (t.engine.heap p).cur st.cur
    → Sound t
    → Sound (with_peer t p st)
unfolding Sound
drop-Sound t p st b h = set_peer-Clean t.sends t.engine p st b h

pub touch-Sound :
    (t : Round) (p : ℕ) (st : PeerState)
    → st.cur ≡ (t.engine.heap p).cur
    → Sound t
    → Sound (with_peer t p st)
unfolding Sound
touch-Sound t p st same h = touch-Clean t.sends t.engine p st same h

pub settle-Sound : (t : Round) (p : ℕ) → Sound t → Sound (settle t p)
unfolding settle
settle-Sound t p h =
    ground (arith, h, touch-Sound t p (record (t.engine.heap p) { authed = true }) refl h)

pub expire-Sound : (t : Round) (p now : ℕ) → Sound t → Sound (expire t p now)
unfolding expire
expire-Sound t p now h =
    ground (arith, h, touch-Sound t p (record (t.engine.heap p) { prev = none }) refl h)

pub bury-Sound : (t : Round) (p now : ℕ) → Sound t → Sound (bury t p now)
unfolding bury reset_auth
bury-Sound t p now h =
    let e = t.engine in
    let dead = record (reset_auth (record (e.heap p) { cur = none; prev = none })) {
      auth_sent_at = 0;
      next_attempt = now;
    } in
    let e' = record (set_peer e p dead) {
      redials = if dials e.mode then e.redials + 1 else e.redials;
    } in
    if_cases Sound
      (has_session (e.heap p).cur && is_past (e.heap p).last_recv e.opts.dead_timeout now)
      (record t { engine = e' }) t
      (λ silent.
        same-Sound (with_peer t p dead) (record t { engine = e' }) refl refl refl
          (drop-Sound t p dead tt h))
      (λ heard. h)

pub waive-Sound : (t : Round) (p now : ℕ) (c : Option Session) → Sound t → Sound (waive t p now c)
unfolding waive
waive-Sound t p now none h = h
waive-Sound t p now (some s) h =
    let e = t.engine in
    let st = record (e.heap p) { authed = true } in
    let ready = record (set_peer e p st) { client_ready = true } in
    ground (
      arith,
      h,
      same-Sound (with_peer t p st)
          (record t { engine = ready; on_ready = t.on_ready || not e.client_ready }) refl refl refl
          (touch-Sound t p st refl h),
    )

pub ask_again-Sound : (t : Round) (p now : ℕ) → Sound t → Sound (ask_again t p now)
unfolding ask_again
ask_again-Sound t p now h =
    let st = record (t.engine.heap p) { auth_sent_at = 0 } in
    ground (
      arith,
      h,
      same-Sound (with_peer t p st) (record (with_peer t p st) { reprompt = some p }) refl refl refl
          (touch-Sound t p st refl h),
    )

pub give_up-Sound : (t : Round) (p now : ℕ) (hs : Option ℕ) → Sound t → Sound (give_up t p now hs)
unfolding give_up
give_up-Sound t p now none h = h
give_up-Sound t p now (some x) h =
    let st = t.engine.heap p in
    ground (
      arith,
      h,
      touch-Sound t p
          (record st {
            hs = none;
            attempt = st.attempt + 1;
            next_attempt = now + retry_delay t.engine (st.attempt + 1);
          })
          refl h,
    )

-- A frame put off.
module _ (lib : Library) (limited : Limited lib.can_seal) where
  seal_later-Sound :
      (t : Round) (p : ℕ) (s : Session) (now typ : ℕ) (payload : List ℕ)
      → (t.engine.heap p).cur ≡ some s
      → Sound t
      → Sound (seal_later lib t p s now typ payload).0
  unfolding seal_later Sound Clean set_peer
  seal_later-Sound t p s now typ payload live h =
      let st = record (t.engine.heap p) {
        cur = some (record s { send_nonce = (s.send_nonce + 1) % 2 ^ 64 });
        last_send = now;
      } in
      let frame = sealed_frame p s.cipher typ s.send_nonce payload in
      if_cases (λ (r : Round × Bool). Sound r.0) (lib.can_seal s.send_nonce)
        (record (with_peer t p st) { sends = t.sends ++ (frame ∷ []) }, true) (t, false)
        (λ fine.
          put_off-Once t.engine.heap t.engine.sent t.sends p s st typ payload live
            (limited s.send_nonce fine) refl h)
        (λ over. h)

  note_challenge-Sound :
      (p now : ℕ) (r : Round × Bool) → Sound r.0 → Sound (note_challenge lib p now r)
  note_challenge-Sound p now (t, true) h =
      touch-Sound t p (record (t.engine.heap p) { challenge_at = now }) refl h
  note_challenge-Sound p now (t, false) h = h

  pub chase-Sound :
      (t : Round) (p now : ℕ) (c : Option Session)
      → (t.engine.heap p).cur ≡ c
      → Sound t
      → Sound (chase lib t p now c)
  unfolding chase
  chase-Sound t p now none live h = h
  chase-Sound t p now (some s) live h = ground (
    arith,
    h,
    drop-Sound t p (record (t.engine.heap p) { cur = none; prev = none }) tt h,
    note_challenge-Sound p now
        (seal_later lib t p s now frame_auth_challenge (lib.encode_challenge true))
        (seal_later-Sound t p s now frame_auth_challenge (lib.encode_challenge true) live h),
  )

  pub announce-Sound :
      (t : Round) (p now : ℕ) (c : Option Session)
      → (t.engine.heap p).cur ≡ c
      → Sound t
      → Sound (announce lib t p now c)
  unfolding announce
  announce-Sound t p now none live h = h
  announce-Sound t p now (some s) live h =
      let e = t.engine in
      let t' = record t { engine = record e { announce_at = now } } in
      ground (
        arith,
        h,
        seal_later-Sound t' p s now frame_agent_info (agent_info lib e now) live
            (same-Sound t t' refl refl refl h),
      )

  pub stand_down-Sound :
      (t : Round) (p now : ℕ) (c : Option Session)
      → (t.engine.heap p).cur ≡ c
      → Sound t
      → Sound (stand_down lib t p now c)
  unfolding stand_down set_peer
  stand_down-Sound t p now none live h = h
  stand_down-Sound t p now (some s) live h =
      let st = record (t.engine.heap p) { cmd_at = now } in
      let t' = with_peer t p st in
      let live' : (t'.engine.heap p).cur ≡ some s = ground (arith, live) in
      if_cases Sound _
        (seal_later lib t' p s now frame_agent_cmd (lib.encode_agent_cmd "disable" "disabled")).0 t
        (λ due.
          seal_later-Sound t' p s now frame_agent_cmd (lib.encode_agent_cmd "disable" "disabled")
            live' (touch-Sound t p st refl h))
        (λ quiet. h)

  pub keep_alive-Sound :
      (t : Round) (p now : ℕ) (c : Option Session)
      → (t.engine.heap p).cur ≡ c
      → Sound t
      → Sound (keep_alive lib t p now c)
  unfolding keep_alive
  keep_alive-Sound t p now none live h = h
  keep_alive-Sound t p now (some s) live h =
      ground (arith, h, seal_later-Sound t p s now frame_keepalive [] live h)
