-- ===== src/Nonce/Timer.antt =====
-- The engine's timer (internal/tunnel/engine.go, `tick`) and the nonces in use, from the reload to the
-- frames that are written when the lock is released.
use selfremote.Common.{
  ℕ, ◌+◌, ◌%◌, ◌^◌, refl, true, false, String, List, [], ◌∷◌, ◌++◌, Option, none, some,
  if◌then◌else◌, if_cases, arith,
}
use selfremote.Engine.{Engine, Sent, set_peer, frame_size}
use selfremote.Engine.Heap.{update}
use selfremote.Engine.Library.{Library}
use selfremote.Session.{retry_delay, write_raw, start_client_handshake, started}
use selfremote.Registry.{Registry}
use selfremote.Registry.Reload.{Poll, reload_registry}
use selfremote.Tick.Steps.{
  Pending, sealed_frame, raw_frame, Round, write_pending, settle, expire, bury, waive, ask_again,
  give_up,
}
use selfremote.Tick.{
  chase, announce, with_handshake, dial, stand_down, cur_of, tick_peer, tick_all, prompt_again,
  close_round, timer, tick,
}
use selfremote.Nonce.{uses, pends}
use selfremote.Nonce.Count.{Below-refl}
use selfremote.Nonce.Write.{uses-append, pends-raw, write-Once, recount-Once}
use selfremote.Nonce.Send.{Clean, Limited, same-Clean}
use selfremote.Nonce.Sessions.{write_raw-Clean}
use selfremote.Nonce.Auths.{handle_auth_challenge-Clean}
use selfremote.Nonce.Reloads.{reload_registry-Clean}
use selfremote.Nonce.Round.{
  Sound, touch-Sound, settle-Sound, expire-Sound, bury-Sound, waive-Sound, ask_again-Sound,
  give_up-Sound, chase-Sound, announce-Sound, stand_down-Sound, keep_alive-Sound,
}

-- The frames that were put off are written.
write_pending-Clean :
    (sends : List Pending) (e : Engine) → Clean sends e → Clean [] (write_pending e sends)
unfolding write_pending Clean uses pends set_peer
write_pending-Clean [] e c = c
write_pending-Clean (raw_frame p bytes ∷ sends) e c =
    write_pending-Clean sends (write_raw e p bytes) (
      write_raw-Clean sends e p bytes
        (recount-Once e.heap e.sent e.sent (raw_frame p bytes ∷ sends) sends (λ k n. refl) c))
write_pending-Clean (sealed_frame p cipher typ nonce payload ∷ sends) e c =
    let st = e.heap p in
    let st' = record st { bytes_out = (st.bytes_out + frame_size payload) % 2 ^ 64 } in
    let frame : Sent = record {
      peer = p;
      cipher = cipher;
      typ = typ;
      nonce = nonce;
      payload = payload;
      addr = st.addr;
    } in
    write_pending-Clean sends (record (set_peer e p st') { sent = e.sent ++ (frame ∷ []) })
      (write-Once e.heap (e.sent ++ (frame ∷ [])) sends p st' (Below-refl st.cur) (
        recount-Once e.heap e.sent (e.sent ++ (frame ∷ []))
          (sealed_frame p cipher typ nonce payload ∷ sends) sends
          (λ k n. let r = uses-append k n e.sent frame in omega (arith, r)) c))

module _ (lib : Library) (limited : Limited lib.can_seal) where
  with_handshake-Sound :
      (t : Round) (p now : ℕ) (made : Option (List ℕ × ℕ))
      → Sound t
      → Sound (with_handshake lib t p now (started lib t.engine p now made))
  unfolding Sound Clean set_peer
  with_handshake-Sound t p now none h =
      let st = t.engine.heap p in
      touch-Sound t p
        (record st {
          attempt = st.attempt + 1;
          next_attempt = now + retry_delay t.engine (st.attempt + 1);
        })
        refl h
  with_handshake-Sound t p now (some (msg, hs)) h =
      let e = t.engine in
      let st = record (e.heap p) { hs = some hs; hs_sent = now; last_send = now } in
      recount-Once (update e.heap p st) e.sent e.sent t.sends (t.sends ++ (raw_frame p msg ∷ []))
        (λ k n. let r = pends-raw k n t.sends p msg in omega (arith, r))
        (write-Once e.heap e.sent t.sends p st (Below-refl (e.heap p).cur) h)

  dial-Sound : (t : Round) (p now : ℕ) → Sound t → Sound (dial lib t p now)
  unfolding dial start_client_handshake
  dial-Sound t p now h =
      let t' = give_up t p now (t.engine.heap p).hs in
      let h' = give_up-Sound t p now (t.engine.heap p).hs h in
      ground (
        arith,
        h,
        h',
        with_handshake-Sound t' p now (lib.initiate (t'.engine.heap p).cfg.public_key now) h',
      )

  tick_peer-Sound : (t : Round) (p now : ℕ) → Sound t → Sound (tick_peer lib t p now)
  unfolding tick_peer
  tick_peer-Sound t p now h =
      let t1 = bury (expire (settle t p) p now) p now in
      let t2 = chase lib t1 p now (cur_of lib t1 p) in
      let t3 = ask_again (waive t2 p now (cur_of lib t2 p)) p now in
      let t4 = dial lib (announce lib t3 p now (cur_of lib t3 p)) p now in
      let t5 = stand_down lib t4 p now (cur_of lib t4 p) in
      let h1 =
        bury-Sound (expire (settle t p) p now) p now
          (expire-Sound (settle t p) p now (settle-Sound t p h)) in
      let h2 = chase-Sound lib limited t1 p now (cur_of lib t1 p) refl h1 in
      let h3 =
        ask_again-Sound (waive t2 p now (cur_of lib t2 p)) p now
          (waive-Sound t2 p now (cur_of lib t2 p) h2) in
      let h4 =
        dial-Sound (announce lib t3 p now (cur_of lib t3 p)) p now
          (announce-Sound lib limited t3 p now (cur_of lib t3 p) refl h3) in
      let h5 = stand_down-Sound lib limited t4 p now (cur_of lib t4 p) refl h4 in
      keep_alive-Sound lib limited t5 p now (cur_of lib t5 p) refl h5

  tick_all-Sound :
      (rows : List (String × ℕ)) (t : Round) (now : ℕ) → Sound t → Sound (tick_all lib t rows now)
  unfolding tick_all
  tick_all-Sound [] t now h = h
  tick_all-Sound ((k, p) ∷ rows) t now h =
      tick_all-Sound rows (tick_peer lib t p now) now (tick_peer-Sound t p now h)

  prompt_again-Clean :
      (pend : List Pending) (e : Engine) (now : ℕ) (p : Option ℕ)
      → Clean pend e
      → Clean pend (prompt_again lib e now p)
  prompt_again-Clean pend e now none c = c
  prompt_again-Clean pend e now (some p) c =
      handle_auth_challenge-Clean lib limited pend e p now (lib.encode_challenge true) c

  close_round-Clean : (t : Round) (now : ℕ) → Sound t → Clean [] (close_round lib t now)
  unfolding close_round Sound
  close_round-Clean t now h =
      let e = t.engine in
      let called = record e { ready_calls = e.ready_calls + 1 } in
      let ready = if t.on_ready then called else e in
      write_pending-Clean t.sends (prompt_again lib ready now t.reprompt) (
        prompt_again-Clean t.sends ready now t.reprompt (
          if_cases (Clean t.sends) t.on_ready called e
            (λ on. same-Clean t.sends e called refl refl h) (λ off. h)))

  timer-Clean : (e : Engine) (now : ℕ) → Clean [] e → Clean [] (timer lib e now)
  unfolding timer Sound
  timer-Clean e now c =
      let t : Round = record { engine = e; sends = []; on_ready = false; reprompt = none } in
      close_round-Clean (tick_all lib t e.peers now) now (tick_all-Sound e.peers t now c)

  pub tick-Clean :
      (parse parse_agents : List ℕ → Option Registry) (e : Engine) (now : ℕ) (clients agents : Poll)
      → Clean [] e
      → Clean [] (tick lib parse parse_agents e now clients agents)
  unfolding tick
  tick-Clean parse parse_agents e now clients agents c =
      timer-Clean (reload_registry lib parse parse_agents e now clients agents) now
        (reload_registry-Clean lib limited [] parse parse_agents e now clients agents c)
