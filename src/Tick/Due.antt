-- ===== src/Tick/Due.antt =====
-- What holds of a responder's peers behind its timer.
use selfremote.Common.{
  ℕ, ◌≡◌, ◌≢◌, refl, sym, ◌∙◌, subst, true, false, not, ◌&&◌, ltb, leb, if_cases, arith,
}
use selfremote.Engine.{PeerState, responder, requires_mfa, reset_auth, set_peer}
use selfremote.Tick.Steps.{Round, is_past, has_session, with_peer, settle, expire, bury}

-- The previous session is within its grace; a live session was heard of within `DeadTimeout`; and its
-- peer is authenticated, or has a second factor to pass and the time for it is not over.
pub record IsTimely (dead now : ℕ) (st : PeerState) : Type 0 where
  pub grace : has_session st.prev && ltb st.prev_deadline now ≡ false
  pub alive : has_session st.cur && is_past st.last_recv dead now ≡ false
  pub settled : has_session st.cur && not st.authed && not (requires_mfa st) ≡ false
  pub in_time : has_session st.cur && not st.authed && leb st.auth_deadline now ≡ false

-- A step for one peer: the others, the mode and the options are as they were.
pub record IsStep (p : ℕ) (t t' : Round) : Type 0 where
  pub mode : t'.engine.mode ≡ t.engine.mode
  pub opts : t'.engine.opts ≡ t.engine.opts
  pub prompt : t'.reprompt ≡ t.reprompt
  pub others : (q : ℕ) → q ≢ p → t'.engine.heap q ≡ t.engine.heap q

pub IsStep-refl : (p : ℕ) (t : Round) → IsStep p t t
IsStep-refl p t = record { mode = refl; opts = refl; prompt = refl; others = λ q other. refl }

pub IsStep-trans : (p : ℕ) (a b c : Round) → IsStep p a b → IsStep p b c → IsStep p a c
IsStep-trans p a b c f g = record {
  mode = g.mode ∙ f.mode;
  opts = g.opts ∙ f.opts;
  prompt = g.prompt ∙ f.prompt;
  others = λ q other. g.others q other ∙ f.others q other;
}

with_peer-IsStep : (t : Round) (p : ℕ) (st : PeerState) → IsStep p t (with_peer t p st)
unfolding set_peer
with_peer-IsStep t p st = record {
  mode = refl;
  opts = refl;
  prompt = refl;
  others = λ q other. ground (arith, other);
}

-- A step for a peer after which its state has the property.
abbrev pub Reaches : (PeerState → Type 0) → ℕ → Round → Round → Type 0
Reaches P p t t' = P (t'.engine.heap p) × IsStep p t t'

module _ (P : PeerState → Type 0) (p : ℕ) where
  pub stay : (t : Round) → P (t.engine.heap p) → Reaches P p t t
  stay t h = (h, IsStep-refl p t)

  pub write : (t : Round) (st : PeerState) → P st → Reaches P p t (with_peer t p st)
  unfolding set_peer
  write t st h =
      let there : (with_peer t p st).engine.heap p ≡ st = ground arith in
      (subst P (sym there) h, with_peer-IsStep t p st)

abbrev pub IsSettled : PeerState → Type 0
IsSettled st = has_session st.cur && not st.authed && not (requires_mfa st) ≡ false

abbrev pub IsFresh : ℕ → PeerState → Type 0
IsFresh now st = IsSettled st × (has_session st.prev && ltb st.prev_deadline now ≡ false)

abbrev pub IsAlive : ℕ → ℕ → PeerState → Type 0
IsAlive dead now st = IsFresh now st × (has_session st.cur && is_past st.last_recv dead now ≡ false)

module _ (p now : ℕ) where
  pub settle-IsSettled :
      (t : Round) → responder t.engine.mode ≡ true → Reaches IsSettled p t (settle t p)
  unfolding settle requires_mfa
  settle-IsSettled t answers =
      let st = t.engine.heap p in
      if_cases (Reaches IsSettled p t) _ _ t (λ c. write IsSettled p t _ (ground (arith, c)))
        (λ c. stay IsSettled p t (ground (arith, c, answers)))

  pub expire-IsFresh :
      (t : Round) → IsSettled (t.engine.heap p) → Reaches (IsFresh now) p t (expire t p now)
  unfolding expire requires_mfa
  expire-IsFresh t h =
      if_cases (Reaches (IsFresh now) p t) _ _ t
        (λ c. write (IsFresh now) p t _ (ground (arith, h), ground (arith, c)))
        (λ c. stay (IsFresh now) p t (h, c))

  pub bury-IsAlive :
      (t : Round)
      → IsFresh now (t.engine.heap p)
      → Reaches (IsAlive t.engine.opts.dead_timeout now) p t (bury t p now)
  unfolding bury requires_mfa reset_auth
  bury-IsAlive t h =
      let dead = t.engine.opts.dead_timeout in
      if_cases (Reaches (IsAlive dead now) p t) _ _ t
        (λ c.
          let (reached, step) =
            write (IsAlive dead now) p t _ ((ground arith, ground arith), ground arith) in
          (
            reached,
            record {
              mode = step.mode;
              opts = step.opts;
              prompt = step.prompt;
              others = step.others;
            },
          ))
        (λ c. stay (IsAlive dead now) p t (h, c))
