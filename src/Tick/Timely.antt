-- ===== src/Tick/Timely.antt =====
-- A whole tick of a responder.
use selfremote.Common.{
  ℕ, ◌+◌, ◌≡◌, ◌≢◌, refl, sym, ◌∙◌, ap, subst, Bool, true, false, String, List, [], ◌∷◌, Option,
  none, some, arith, All, ◌==◌, if◌then◌else◌, if_cases, ==_iff,
}
use selfremote.Engine.{
  Engine, PeerState, Session, Mode, gateway, server, client, agent, responder, dials, requires_mfa,
  set_peer, is_agent_mode,
}
use selfremote.Engine.Heap.{update}
use selfremote.Engine.Library.{Library}
use selfremote.Registry.Rows.{Others, Unique, IsHeaped}
use selfremote.Session.{write_raw}
use selfremote.Tick.Steps.{
  Round, Pending, sealed_frame, raw_frame, write_pending, settle, expire, bury, waive, ask_again,
}
use selfremote.Tick.{
  chase, announce, dial, stand_down, keep_alive, tick_peer, tick_all, close_round, prompt_again,
  timer,
}
use selfremote.Tick.Due.{
  IsTimely, IsStep-trans, Reaches, IsAlive, settle-IsSettled, expire-IsFresh, bury-IsAlive,
}
use selfremote.Tick.Sealed.{chase-IsTimely, stand_down-IsTimely, keep_alive-IsTimely}

answers-only : (m : Mode) → responder m ≡ true → (dials m ≡ false) × (is_agent_mode m ≡ false)
unfolding responder dials
answers-only gateway e = (refl, refl)
answers-only server e = (refl, refl)
answers-only client e = cc
answers-only agent e = cc

-- A responder's tick does none of what a dialling mode does.
module _ (lib : Library) (t : Round) (p now : ℕ) (answers : responder t.engine.mode ≡ true) where
  waive_idle : (c : Option Session) → waive t p now c ≡ t
  unfolding waive
  waive_idle none = refl
  waive_idle (some s) = ground (arith, (answers-only t.engine.mode answers).0)

  ask_idle : ask_again t p now ≡ t
  unfolding ask_again
  ask_idle = ground (arith, (answers-only t.engine.mode answers).0)

  announce_idle : (c : Option Session) → announce lib t p now c ≡ t
  unfolding announce
  announce_idle none = refl
  announce_idle (some s) = ground (arith, (answers-only t.engine.mode answers).1)

  dial_idle : dial lib t p now ≡ t
  unfolding dial
  dial_idle = ground (arith, (answers-only t.engine.mode answers).0)

module _ (lib : Library) (p now : ℕ) where
  bury-step :
      (t : Round)
      → responder t.engine.mode ≡ true
      → Reaches
          (IsAlive t.engine.opts.dead_timeout now)
          p
          t
          (bury (expire (settle t p) p now) p now)
  bury-step t answers =
      let t1 = settle t p in
      let t2 = expire t1 p now in
      let (settled, first) = settle-IsSettled p now t answers in
      let (fresh, second) = expire-IsFresh p now t1 settled in
      let (alive, third) = bury-IsAlive p now t2 fresh in
      let opts = second.opts ∙ first.opts in
      (
        subst (λ o. IsAlive o.dead_timeout now ((bury t2 p now).engine.heap p)) opts alive,
        IsStep-trans p t t2 (bury t2 p now) (IsStep-trans p t t1 t2 first second) third,
      )

  -- What a dialling mode does between the challenge and the commands.
  abbrev dialled : Round → Round
  dialled t =
      let t3 = ask_again (waive t p now (t.engine.heap p).cur) p now in
      dial lib (announce lib t3 p now (t3.engine.heap p).cur) p now

  dialled_idle : (t : Round) → responder t.engine.mode ≡ true → dialled t ≡ t
  dialled_idle t answers =
      let waived = waive_idle lib t p now answers (t.engine.heap p).cur in
      let asked : ask_again (waive t p now (t.engine.heap p).cur) p now ≡ t =
        ap (λ x. ask_again x p now) waived ∙ ask_idle lib t p now answers in
      ap (λ x. dial lib (announce lib x p now (x.engine.heap p).cur) p now) asked
      ∙ (ap (λ x. dial lib x p now) (announce_idle lib t p now answers (t.engine.heap p).cur)
          ∙ dial_idle lib t p now answers)

  abbrev told : Round → Round
  told t =
      let t5 = stand_down lib t p now (t.engine.heap p).cur in
      keep_alive lib t5 p now (t5.engine.heap p).cur

  told-IsTimely :
      (dead : ℕ) (t : Round)
      → IsTimely dead now (t.engine.heap p)
      → Reaches (IsTimely dead now) p t (told t)
  told-IsTimely dead t h =
      let t5 = stand_down lib t p now (t.engine.heap p).cur in
      let (first, step) = stand_down-IsTimely p now lib dead t (t.engine.heap p).cur refl h in
      let (second, last) =
        keep_alive-IsTimely p now lib dead t5 (t5.engine.heap p).cur refl first in
      (second, IsStep-trans p t t5 (told t) step last)

  tick_peer-IsTimely :
      (t : Round)
      → responder t.engine.mode ≡ true
      → Reaches (IsTimely t.engine.opts.dead_timeout now) p t (tick_peer lib t p now)
  unfolding tick_peer
  tick_peer-IsTimely t answers =
      let dead = t.engine.opts.dead_timeout in
      let t1 = bury (expire (settle t p) p now) p now in
      let (alive, first) = bury-step t answers in
      let answers1 : responder t1.engine.mode ≡ true = ap responder first.mode ∙ answers in
      let t2 = chase lib t1 p now (t1.engine.heap p).cur in
      let (chased, second) =
        chase-IsTimely p now lib dead t1 (t1.engine.heap p).cur answers1 refl alive in
      let answers2 : responder t2.engine.mode ≡ true = ap responder second.mode ∙ answers1 in
      let (reached, third) = told-IsTimely dead t2 chased in
      let after : Reaches (IsTimely dead now) p t (told t2) =
        (reached, IsStep-trans p t t2 (told t2) (IsStep-trans p t t1 t2 first second) third) in
      subst (λ x. Reaches (IsTimely dead now) p t (told x)) (sym (dialled_idle t2 answers2)) after

module _ (lib : Library) (now : ℕ) where
  -- The loop: every peer of the rows is timely, and the objects outside are as they were.
  record IsSwept (t t' : Round) (rows : List (String × ℕ)) : Type 0 where
    reached : All (λ row. IsTimely t.engine.opts.dead_timeout now (t'.engine.heap row.1)) rows
    prompt : t'.reprompt ≡ t.reprompt
    outside : (q : ℕ) → All (λ row. row.1 ≢ q) rows → t'.engine.heap q ≡ t.engine.heap q

  Others-apart :
      (k : String) (p : ℕ) (rows : List (String × ℕ))
      → Others k p rows
      → All (λ row. row.1 ≢ p) rows
  Others-apart k p [] h = tt
  Others-apart k p (row ∷ rows) h = (h.0.1, Others-apart k p rows h.1)

  tick_all-IsSwept :
      (t : Round) (rows : List (String × ℕ))
      → responder t.engine.mode ≡ true
      → Unique rows
      → IsSwept t (tick_all lib t rows now) rows
  unfolding tick_all
  tick_all-IsSwept t [] answers u = record { reached = tt; prompt = refl; outside = λ q away. refl }
  tick_all-IsSwept t ((k, p) ∷ rows) answers u =
      let t1 = tick_peer lib t p now in
      let t' = tick_all lib t1 rows now in
      let (here', step) = tick_peer-IsTimely lib p now t answers in
      let rest = tick_all-IsSwept t1 rows (ap responder step.mode ∙ answers) u.1 in
      let kept : t'.engine.heap p ≡ t1.engine.heap p = rest.outside p (Others-apart k p rows u.0) in
      record {
        reached = (
          subst (IsTimely t.engine.opts.dead_timeout now) (sym kept) here',
          subst (λ o. All (λ row. IsTimely o.dead_timeout now (t'.engine.heap row.1)) rows)
              step.opts rest.reached,
        );
        prompt = rest.prompt ∙ step.prompt;
        outside = λ q away. rest.outside q away.1 ∙ step.others q (λ e. away.0 (sym e));
      }

  counted :
      (dead : ℕ) (heap : ℕ → PeerState) (p q bytes : ℕ)
      → IsTimely dead now (heap q)
      → IsTimely dead now (update heap p (record (heap p) { bytes_out = bytes }) q)
  unfolding requires_mfa
  counted dead heap p q bytes h =
      if_cases (IsTimely dead now) (p == q) (record (heap p) { bytes_out = bytes }) (heap q)
        (λ same.
          let there = subst (λ r. IsTimely dead now (heap r)) (sym ((==_iff p q).0 same)) h in
          record {
            grace = there.grace;
            alive = there.alive;
            settled = there.settled;
            in_time = there.in_time;
          })
        (λ other. h)

  write_pending-IsTimely :
      (dead : ℕ) (q : ℕ) (e : Engine) (sends : List Pending)
      → IsTimely dead now (e.heap q)
      → IsTimely dead now ((write_pending e sends).heap q)
  unfolding write_pending write_raw set_peer
  write_pending-IsTimely dead q e [] h = h
  write_pending-IsTimely dead q e (raw_frame p bytes ∷ sends) h =
      write_pending-IsTimely dead q (write_raw e p bytes) sends (counted dead e.heap p q _ h)
  write_pending-IsTimely dead q e (sealed_frame p cipher typ nonce payload ∷ sends) h =
      write_pending-IsTimely dead q _ sends (counted dead e.heap p q _ h)

  ready-heap :
      (e : Engine) (ready : Bool) (q : ℕ)
      → (if ready then record e { ready_calls = e.ready_calls + 1 } else e).heap q ≡ e.heap q
  ready-heap e true q = refl
  ready-heap e false q = refl

  close_round-IsTimely :
      (dead : ℕ) (t : Round) (rows : List (String × ℕ))
      → t.reprompt ≡ none
      → All (λ row. IsTimely dead now (t.engine.heap row.1)) rows
      → All (λ row. IsTimely dead now ((close_round lib t now).heap row.1)) rows
  unfolding close_round
  close_round-IsTimely dead t [] quiet h = tt
  close_round-IsTimely dead t ((k, q) ∷ rows) quiet h =
      let ready =
        if t.on_ready
        then record t.engine { ready_calls = t.engine.ready_calls + 1 }
        else t.engine in
      let start = subst (IsTimely dead now) (sym (ready-heap t.engine t.on_ready q)) h.0 in
      let closed =
        subst
          (λ o. IsTimely dead now ((write_pending (prompt_again lib ready now o) t.sends).heap q))
          (sym quiet) (write_pending-IsTimely dead q ready t.sends start) in
      (closed, close_round-IsTimely dead t rows quiet h.1)

-- After a responder's timer, on a well-formed map of peers, every peer's previous session is within
-- its grace, and every live session was heard of within `DeadTimeout`; its peer is authenticated, or
-- has a second factor to pass and the time for it is not over.
pub timer-IsTimely :
    (lib : Library) (e : Engine) (now : ℕ)
    → responder e.mode ≡ true
    → IsHeaped e
    → All (λ row. IsTimely e.opts.dead_timeout now ((timer lib e now).heap row.1)) e.peers
unfolding timer
timer-IsTimely lib e now answers h =
    let t : Round = record { engine = e; sends = []; on_ready = false; reprompt = none } in
    let swept = tick_all-IsSwept lib now t e.peers answers h.unique in
    close_round-IsTimely lib now e.opts.dead_timeout (tick_all lib t e.peers now) e.peers
      swept.prompt swept.reached
