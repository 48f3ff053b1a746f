-- ===== src/Nonce/Write.antt =====
-- What a write to a peer, a frame sent and a frame put off do to the nonces in use.
use selfremote.Common.{
  ℕ, ◌+◌, ◌%◌, ◌^◌, ◌<◌, ◌≡◌, ◌≢◌, refl, sym, ◌∙◌, subst, ap, List, [], ◌∷◌, ◌++◌, Option, some,
  ◌==◌, if_cases, arith,
}
use selfremote.Engine.{PeerState, Session, Sent}
use selfremote.Engine.Heap.{update}
use selfremote.Tick.Steps.{Pending, sealed_frame, raw_frame}
use selfremote.Nonce.{hit, uses, pends, IsOnce, Once}
use selfremote.Nonce.Count.{Below, Below-refl, calm, issue, install}

pub uses-append :
    (c n : ℕ) (fs : List Sent) (f : Sent)
    → uses c n (fs ++ (f ∷ [])) ≡ uses c n fs + hit c n f.cipher f.nonce
unfolding uses
uses-append c n [] f = omega arith
uses-append c n (g ∷ fs) f = let r = uses-append c n fs f in omega (arith, r)

pub pends-append :
    (c n : ℕ) (fs : List Pending) (p c' typ n' : ℕ) (payload : List ℕ)
    → pends c n (fs ++ (sealed_frame p c' typ n' payload ∷ [])) ≡ pends c n fs + hit c n c' n'
unfolding pends
pends-append c n [] p c' typ n' payload = omega arith
pends-append c n (sealed_frame q d t m b ∷ fs) p c' typ n' payload =
    let r = pends-append c n fs p c' typ n' payload in omega (arith, r)
pends-append c n (raw_frame q b ∷ fs) p c' typ n' payload = pends-append c n fs p c' typ n' payload

pub pends-raw :
    (c n : ℕ) (fs : List Pending) (p : ℕ) (b : List ℕ)
    → pends c n (fs ++ (raw_frame p b ∷ [])) ≡ pends c n fs
unfolding pends
pends-raw c n [] p b = refl
pends-raw c n (sealed_frame q d t m a ∷ fs) p b = let r = pends-raw c n fs p b in omega (arith, r)
pends-raw c n (raw_frame q a ∷ fs) p b = pends-raw c n fs p b

update-here : (heap : ℕ → PeerState) (p : ℕ) (st : PeerState) → update heap p st p ≡ st
update-here heap p st = ground arith

update-other :
    (heap : ℕ → PeerState) (p : ℕ) (st : PeerState) (q : ℕ) → q ≢ p → update heap p st q ≡ heap q
update-other heap p st q other = ground arith

write-Below :
    (heap : ℕ → PeerState) (p : ℕ) (st : PeerState)
    → Below (heap p).cur st.cur
    → (q : ℕ) → Below (heap q).cur (update heap p st q).cur
write-Below heap p st b q =
    if_cases (λ (x : PeerState). Below (heap q).cur x.cur) (p == q) st (heap q)
      (λ here. subst (λ x. Below (heap x).cur st.cur) (ground (arith, here)) b)
      (λ other. Below-refl (heap q).cur)

-- A write that seals nothing.
pub write-Once :
    (heap : ℕ → PeerState) (sent : List Sent) (pend : List Pending) (p : ℕ) (st : PeerState)
    → Below (heap p).cur st.cur
    → Once heap sent pend
    → Once (update heap p st) sent pend
unfolding Once
write-Once heap sent pend p st b h =
    calm (λ c n. uses c n sent + pends c n pend) (λ c n. uses c n sent + pends c n pend)
      (λ q. (heap q).cur) (λ q. (update heap p st q).cur) (λ c n. omega arith)
      (write-Below heap p st b) h

abbrev pub next_of : Session → Session
next_of s = record s { send_nonce = (s.send_nonce + 1) % 2 ^ 64 }

next-lem :
    (s t : Session) (o : Option Session)
    → s.send_nonce + 1 < 2 ^ 64
    → o ≡ some (next_of s)
    → o ≡ some t
    → (t.cipher ≡ s.cipher) × (t.send_nonce ≡ s.send_nonce + 1)
next-lem s t o small made here =
    let same : t ≡ next_of s = cc in
    (ap (λ x. x.cipher) same, ap (λ x. x.send_nonce) same ∙ omega (arith, small))

-- One frame more, of the peer's session under its next nonce, sent or put off.
issued :
    (heap : ℕ → PeerState) (used used' : ℕ → ℕ → ℕ) (p : ℕ) (s : Session) (st : PeerState)
    → (heap p).cur ≡ some s
    → s.send_nonce + 1 < 2 ^ 64
    → st.cur ≡ some (next_of s)
    → ((c n : ℕ) → used' c n ≡ used c n + hit c n s.cipher s.send_nonce)
    → IsOnce used (λ q. (heap q).cur)
    → IsOnce used' (λ q. (update heap p st q).cur)
issued heap used used' p s st live small made one h =
    issue used used' (λ q. (heap q).cur) (λ q. (update heap p st q).cur) p s live
      (λ c n. let e = one c n in omega (arith, e))
      (λ q other. ap (λ x. x.cur) (update-other heap p st q other))
      (λ t here.
        next-lem s t st.cur small made (ap (λ x. x.cur) (sym (update-here heap p st)) ∙ here))
      h

pub send-Once :
    (heap : ℕ → PeerState) (sent : List Sent) (pend : List Pending) (p : ℕ) (s : Session)
    (st : PeerState) (f : Sent)
    → (heap p).cur ≡ some s
    → s.send_nonce + 1 < 2 ^ 64
    → st.cur ≡ some (next_of s)
    → f.cipher ≡ s.cipher
    → f.nonce ≡ s.send_nonce
    → Once heap sent pend
    → Once (update heap p st) (sent ++ (f ∷ [])) pend
unfolding Once
send-Once heap sent pend p s st f live small made same_c same_n h =
    issued heap (λ c n. uses c n sent + pends c n pend)
      (λ c n. uses c n (sent ++ (f ∷ [])) + pends c n pend) p s st live small made
      (λ c n.
        let r = uses-append c n sent f in
        let e : hit c n f.cipher f.nonce ≡ hit c n s.cipher s.send_nonce =
          ap (λ x. hit c n x f.nonce) same_c ∙ ap (λ x. hit c n s.cipher x) same_n in
        omega (arith, r, e))
      h

pub put_off-Once :
    (heap : ℕ → PeerState) (sent : List Sent) (pend : List Pending) (p : ℕ) (s : Session)
    (st : PeerState) (typ : ℕ) (payload : List ℕ)
    → (heap p).cur ≡ some s
    → s.send_nonce + 1 < 2 ^ 64
    → st.cur ≡ some (next_of s)
    → Once heap sent pend
    → Once (update heap p st) sent (pend ++ (sealed_frame p s.cipher typ s.send_nonce payload ∷ []))
unfolding Once
put_off-Once heap sent pend p s st typ payload live small made h =
    issued heap (λ c n. uses c n sent + pends c n pend)
      (λ c n.
        uses c n sent + pends c n (pend ++ (sealed_frame p s.cipher typ s.send_nonce payload ∷ [])))
      p s st live small made
      (λ c n. let r = pends-append c n pend p s.cipher typ s.send_nonce payload in omega (arith, r))
      h

-- The same frames, some of them written meanwhile.
pub recount-Once :
    (heap : ℕ → PeerState) (sent sent' : List Sent) (pend pend' : List Pending)
    → ((c n : ℕ) → uses c n sent' + pends c n pend' ≡ uses c n sent + pends c n pend)
    → Once heap sent pend
    → Once heap sent' pend'
unfolding Once
recount-Once heap sent sent' pend pend' same h =
    calm (λ c n. uses c n sent + pends c n pend) (λ c n. uses c n sent' + pends c n pend')
      (λ q. (heap q).cur) (λ q. (heap q).cur) (λ c n. let e = same c n in omega (arith, e))
      (λ q. Below-refl (heap q).cur) h

-- A cipher that no frame and no session has.
pub record IsFresh (heap : ℕ → PeerState) (sent : List Sent) (cipher : ℕ) : Type 0 where
  pub unused : (n : ℕ) → uses cipher n sent ≡ 0
  pub new : (q : ℕ) (t : Session) → (heap q).cur ≡ some t → t.cipher ≢ cipher

pub install-Once :
    (heap : ℕ → PeerState) (sent : List Sent) (p cipher : ℕ) (s : Session) (st : PeerState)
    → IsFresh heap sent cipher
    → s.cipher ≡ cipher
    → st.cur ≡ some s
    → Once heap sent []
    → Once (update heap p st) sent []
unfolding Once pends
install-Once heap sent p cipher s st fresh named made h =
    install (λ c n. uses c n sent + 0) (λ c n. uses c n sent + 0) (λ q. (heap q).cur)
      (λ q. (update heap p st q).cur) p cipher (λ c n. omega arith)
      (λ n. let z = fresh.unused n in omega (arith, z)) fresh.new
      (λ q other. ap (λ x. x.cur) (update-other heap p st q other))
      (λ t here.
        let there : st.cur ≡ some t = ap (λ x. x.cur) (sym (update-here heap p st)) ∙ here in
        let same : s ≡ t = cc in ap (λ x. x.cipher) (sym same) ∙ named)
      h
