-- ===== src/Tick/Sealed.antt =====
-- The steps of the timer that seal a frame keep a responder's peer timely.
use selfremote.Common.{
  ℕ, ◌+◌, ◌*◌, ◌%◌, ◌^◌, ◌≡◌, refl, Bool, true, false, not, ◌&&◌, List, [], Option, none, some, leb,
  if◌then◌else◌, if_cases, arith,
}
use selfremote.Engine.{
  PeerState, Session, responder, requires_mfa, set_peer, frame_auth_challenge, frame_agent_cmd,
  frame_keepalive,
}
use selfremote.Engine.Library.{Library}
use selfremote.Tick.Steps.{Round, is_past, has_session, with_peer}
use selfremote.Tick.{
  seal_later, note_challenge, challenge_again, chase_gated, chase, stand_down, keep_alive,
}
use selfremote.Tick.Due.{IsTimely, IsStep-trans, Reaches, IsAlive, stay, write}

module _ (p now : ℕ) where
  timely :
      (dead : ℕ) (st : PeerState)
      → IsAlive dead now st
      → has_session st.cur && not st.authed && leb st.auth_deadline now ≡ false
      → IsTimely dead now st
  timely dead st h d = record { grace = h.0.1; alive = h.1; settled = h.0.0; in_time = d }

  module _ (lib : Library) (dead : ℕ) where
    seal_later-IsTimely :
        (t : Round) (s : Session) (typ : ℕ) (payload : List ℕ)
        → (t.engine.heap p).cur ≡ some s
        → IsTimely dead now (t.engine.heap p)
        → Reaches (IsTimely dead now) p t (seal_later lib t p s now typ payload).0
    unfolding seal_later requires_mfa
    seal_later-IsTimely t s typ payload cur h =
        let st = t.engine.heap p in
        if_cases (λ (r : Round × Bool). Reaches (IsTimely dead now) p t r.0)
          (lib.can_seal s.send_nonce) _ (t, false)
          (λ c.
            let sealed : IsTimely dead now (record st {
              cur = some (record s { send_nonce = (s.send_nonce + 1) % 2 ^ 64 });
              last_send = now;
            }) =
              record {
                grace = h.grace;
                alive = ground (arith, cur, h.alive);
                settled = ground (arith, cur, h.settled);
                in_time = ground (arith, cur, h.in_time);
              } in
            let (reached, step) = write (IsTimely dead now) p t _ sealed in
            (
              reached,
              record {
                mode = step.mode;
                opts = step.opts;
                prompt = step.prompt;
                others = step.others;
              },
            ))
          (λ c. stay (IsTimely dead now) p t h)

    note_challenge-IsTimely :
        (t : Round) (r : Round × Bool)
        → Reaches (IsTimely dead now) p t r.0
        → Reaches (IsTimely dead now) p t (note_challenge lib p now r)
    unfolding requires_mfa
    note_challenge-IsTimely t (t', false) reached = reached
    note_challenge-IsTimely t (t', true) (h, step) =
        let st = record (t'.engine.heap p) { challenge_at = now } in
        let (noted, last) =
          write (IsTimely dead now) p t' st (record {
            grace = h.grace;
            alive = h.alive;
            settled = h.settled;
            in_time = h.in_time;
          }) in
        (noted, IsStep-trans p t t' (with_peer t' p st) step last)

    challenge_again-IsTimely :
        (t : Round) (s : Session)
        → (t.engine.heap p).cur ≡ some s
        → IsTimely dead now (t.engine.heap p)
        → Reaches (IsTimely dead now) p t (challenge_again lib t p now s)
    challenge_again-IsTimely t s cur h =
        note_challenge-IsTimely t
          (seal_later lib t p s now frame_auth_challenge (lib.encode_challenge true))
          (seal_later-IsTimely t s frame_auth_challenge (lib.encode_challenge true) cur h)

    chase_gated-IsTimely :
        (t : Round) (s : Session)
        → (t.engine.heap p).cur ≡ some s
        → IsAlive dead now (t.engine.heap p)
        → Reaches (IsTimely dead now) p t (chase_gated lib t p now s)
    chase_gated-IsTimely t s cur h =
        let st = t.engine.heap p in
        let gone = record st { cur = none; prev = none } in
        if_cases (Reaches (IsTimely dead now) p t) (leb st.auth_deadline now) (with_peer t p gone)
          (if is_past st.challenge_at (5 * 10 ^ 9) now then challenge_again lib t p now s else t)
          (λ over.
            write (IsTimely dead now) p t gone
              (record { grace = refl; alive = refl; settled = refl; in_time = refl }))
          (λ early.
            let ready = timely dead st h (ground (arith, early)) in
            if_cases (Reaches (IsTimely dead now) p t) (is_past st.challenge_at (5 * 10 ^ 9) now)
              (challenge_again lib t p now s) t (λ again. challenge_again-IsTimely t s cur ready)
              (λ quiet. stay (IsTimely dead now) p t ready))

    pub chase-IsTimely :
        (t : Round) (c : Option Session)
        → responder t.engine.mode ≡ true
        → (t.engine.heap p).cur ≡ c
        → IsAlive dead now (t.engine.heap p)
        → Reaches (IsTimely dead now) p t (chase lib t p now c)
    unfolding chase
    chase-IsTimely t none answers cur h =
        stay (IsTimely dead now) p t (timely dead (t.engine.heap p) h (ground (arith, cur)))
    chase-IsTimely t (some s) answers cur h =
        let st = t.engine.heap p in
        if_cases (Reaches (IsTimely dead now) p t)
          (responder t.engine.mode && requires_mfa st && not st.authed) (chase_gated lib t p now s)
          t (λ gated. chase_gated-IsTimely t s cur h)
          (λ idle.
            stay (IsTimely dead now) p t (timely dead st h (ground (arith, idle, answers, h.0.0))))

    pub stand_down-IsTimely :
        (t : Round) (c : Option Session)
        → (t.engine.heap p).cur ≡ c
        → IsTimely dead now (t.engine.heap p)
        → Reaches (IsTimely dead now) p t (stand_down lib t p now c)
    unfolding stand_down set_peer requires_mfa
    stand_down-IsTimely t none cur h = stay (IsTimely dead now) p t h
    stand_down-IsTimely t (some s) cur h =
        let st = t.engine.heap p in
        let P = IsTimely dead now in
        if_cases (Reaches P p t) _ _ t
          (λ due.
            let t' = with_peer t p (record st { cmd_at = now }) in
            let (noted, first) =
              write P p t (record st { cmd_at = now })
                (record {
                  grace = h.grace;
                  alive = h.alive;
                  settled = h.settled;
                  in_time = h.in_time;
                }) in
            let (reached, step) =
              seal_later-IsTimely t' s frame_agent_cmd (lib.encode_agent_cmd "disable" "disabled")
                (ground (arith, cur)) noted in
            (reached, IsStep-trans p t t' _ first step))
          (λ idle. stay P p t h)

    pub keep_alive-IsTimely :
        (t : Round) (c : Option Session)
        → (t.engine.heap p).cur ≡ c
        → IsTimely dead now (t.engine.heap p)
        → Reaches (IsTimely dead now) p t (keep_alive lib t p now c)
    unfolding keep_alive
    keep_alive-IsTimely t none cur h = stay (IsTimely dead now) p t h
    keep_alive-IsTimely t (some s) cur h =
        if_cases (Reaches (IsTimely dead now) p t) _ _ t
          (λ due. seal_later-IsTimely t s frame_keepalive [] cur h)
          (λ idle. stay (IsTimely dead now) p t h)
