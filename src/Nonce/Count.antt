-- ===== src/Nonce/Count.antt =====
-- What keeps the nonces apart: a session that stays, one that seals a frame, one that is new.
use selfremote.Common.{
  ℕ, ◌+◌, ◌≤◌, ◌≡◌, ◌≢◌, inl, inr, refl, sym, ◌∙◌, subst, ◌&&◌, Option, none, some, ◌==◌, arith,
  Bool-cases,
}
use selfremote.Engine.{Session}
use selfremote.Nonce.{hit, IsOnce}

-- What a session becomes that seals nothing: nothing, or one that goes on from the same nonce.
abbrev pub Below : Option Session → Option Session → Type 0
Below old none = Unit
Below none (some s) = ⊥
Below (some s) (some s') = (s'.cipher ≡ s.cipher) × (s'.send_nonce ≡ s.send_nonce)

pub Below-refl : (o : Option Session) → Below o o
Below-refl none = tt
Below-refl (some s) = (refl, refl)

pub Below-same : (o o' : Option Session) → o' ≡ o → Below o o'
Below-same o o' e = subst (λ x. Below o x) (sym e) (Below-refl o)

Below-back :
    (o o' : Option Session) (s' : Session)
    → Below o o'
    → o' ≡ some s'
    → (s : Session) × (o ≡ some s) × (s'.cipher ≡ s.cipher) × (s'.send_nonce ≡ s.send_nonce)
Below-back o none s' b e = cc
Below-back none (some t) s' b e = absurd b
Below-back (some s) (some t) s' b e =
    let same : t ≡ s' = cc in
    (
      s,
      refl,
      subst (λ x. x.cipher ≡ s.cipher) same b.0,
      subst (λ x. x.send_nonce ≡ s.send_nonce) same b.1,
    )

pub calm :
    (used used' : ℕ → ℕ → ℕ) (cur cur' : ℕ → Option Session)
    → ((c n : ℕ) → used' c n ≤ used c n)
    → ((q : ℕ) → Below (cur q) (cur' q))
    → IsOnce used cur
    → IsOnce used' cur'
calm used used' cur cur' fewer below h = record {
  once = λ c n. let a = fewer c n in let b = h.once c n in omega arith;
  ahead = λ p s' here n le.
      let (s, old, same, next) = Below-back (cur p) (cur' p) s' (below p) here in
      let a = fewer s'.cipher n in
      let b = h.ahead p s old n (omega (arith, next, le)) in
      let b' = subst (λ c. used c n ≡ 0) (sym same) b in omega (arith, a, b');
  apart = λ p q s' t' here there other same.
      let (s, old, sc, sn) = Below-back (cur p) (cur' p) s' (below p) here in
      let (t, old', tc, tn) = Below-back (cur q) (cur' q) t' (below q) there in
      h.apart p q s t old old' other (sym sc ∙ (same ∙ tc));
}

pub issue :
    (used used' : ℕ → ℕ → ℕ) (cur cur' : ℕ → Option Session) (p : ℕ) (s : Session)
    → cur p ≡ some s
    → ((c n : ℕ) → used' c n ≤ used c n + hit c n s.cipher s.send_nonce)
    → ((q : ℕ) → q ≢ p → cur' q ≡ cur q)
    → ((t : Session) → cur' p ≡ some t → (t.cipher ≡ s.cipher) × (t.send_nonce ≡ s.send_nonce + 1))
    → IsOnce used cur
    → IsOnce used' cur'
issue used used' cur cur' p s live more others next h = record {
  once = λ c n.
      let a = more c n in
      let b = h.once c n in
      elim (Bool-cases (c == s.cipher && n == s.send_nonce)) [
        | inr miss ↦ ground (arith, a, b, miss)
        | inl same ↦
            let cs : c ≡ s.cipher = ground (arith, same) in
            let z = h.ahead p s live n (ground (arith, same)) in
            let z' = subst (λ x. used x n ≡ 0) (sym cs) z in ground (arith, a, z', same)
      ];
  ahead = λ q t here n le. elim (Bool-cases (q == p)) [
    | inl same ↦
        let qp : q ≡ p = ground (arith, same) in
        let (tc, tn) = next t (subst (λ x. cur' x ≡ some t) qp here) in
        let a =
          subst (λ x. used' x n ≤ used x n + hit x n s.cipher s.send_nonce) (sym tc)
            (more s.cipher n) in
        let b = subst (λ x. used x n ≡ 0) (sym tc) (h.ahead p s live n (omega (arith, tn, le))) in
        ground (arith, a, b, tn, le)
    | inr other ↦
        let qp : q ≢ p = ground (arith, other) in
        let old : cur q ≡ some t = sym (others q qp) ∙ here in
        let far : t.cipher ≢ s.cipher = h.apart q p t s old live qp in
        let a = more t.cipher n in let b = h.ahead q t old n le in ground (arith, a, b, far)
  ];
  apart = λ q r t u here there other. elim (Bool-cases (q == p)) [
    | inl same ↦
        let qp : q ≡ p = ground (arith, same) in
        let rp : r ≢ p = ground (arith, other, qp) in
        let (tc, tn) = next t (subst (λ x. cur' x ≡ some t) qp here) in
        λ e. h.apart p r s u live (sym (others r rp) ∙ there) (λ x. rp (sym x)) (sym tc ∙ e)
    | inr far ↦
        let qp : q ≢ p = ground (arith, far) in
        elim (Bool-cases (r == p)) [
          | inl same ↦
              let rp : r ≡ p = ground (arith, same) in
              let (uc, un) = next u (subst (λ x. cur' x ≡ some u) rp there) in
              λ e. h.apart q p t s (sym (others q qp) ∙ here) live qp (e ∙ uc)
          | inr far' ↦
              let rp : r ≢ p = ground (arith, far') in
              h.apart q r t u (sym (others q qp) ∙ here) (sym (others r rp) ∙ there) other
        ]
  ];
}

pub install :
    (used used' : ℕ → ℕ → ℕ) (cur cur' : ℕ → Option Session) (p c : ℕ)
    → ((c n : ℕ) → used' c n ≤ used c n)
    → ((n : ℕ) → used c n ≡ 0)
    → ((q : ℕ) (t : Session) → cur q ≡ some t → t.cipher ≢ c)
    → ((q : ℕ) → q ≢ p → cur' q ≡ cur q)
    → ((t : Session) → cur' p ≡ some t → t.cipher ≡ c)
    → IsOnce used cur
    → IsOnce used' cur'
install used used' cur cur' p c fewer unused new others mine h = record {
  once = λ c n. let a = fewer c n in let b = h.once c n in omega (arith, a, b);
  ahead = λ q t here n le. elim (Bool-cases (q == p)) [
    | inl same ↦
        let tc = mine t (subst (λ x. cur' x ≡ some t) (ground (arith, same)) here) in
        let a = fewer t.cipher n in
        let b = subst (λ x. used x n ≡ 0) (sym tc) (unused n) in omega (arith, a, b)
    | inr other ↦
        let qp : q ≢ p = ground (arith, other) in
        let a = fewer t.cipher n in
        let b = h.ahead q t (sym (others q qp) ∙ here) n le in omega (arith, a, b)
  ];
  apart = λ q r t u here there other. elim (Bool-cases (q == p)) [
    | inl same ↦
        let qp : q ≡ p = ground (arith, same) in
        let rp : r ≢ p = ground (arith, other, qp) in
        let tc = mine t (subst (λ x. cur' x ≡ some t) qp here) in
        λ e. new r u (sym (others r rp) ∙ there) (sym e ∙ tc)
    | inr far ↦
        let qp : q ≢ p = ground (arith, far) in
        elim (Bool-cases (r == p)) [
          | inl same ↦
              let uc = mine u (subst (λ x. cur' x ≡ some u) (ground (arith, same)) there) in
              λ e. new q t (sym (others q qp) ∙ here) (e ∙ uc)
          | inr far' ↦
              let rp : r ≢ p = ground (arith, far') in
              h.apart q r t u (sym (others q qp) ∙ here) (sym (others r rp) ∙ there) other
        ]
  ];
}
