-- ===== src/Sites/Tables.antt =====
-- Tables of sites whose published prefixes stay apart, and what keeps them so.
use selfremote.Common.{
  ℕ, ◌-◌, ◌<◌, ◌≡◌, ◌≢◌, inl, inr, refl, sym, ◌∙◌, subst, ap, false, List, [], ◌∷◌, ◌++◌, Option,
  some, option_cases, arith, All, All-weaken, All-flip, Bool-cases, min,
}
use selfremote.Net.{Prefix, Addr, invalid, v4, v6, overlaps, contains_addr}
use selfremote.Net.Bytes.{match_bits}
use selfremote.Routes.{AgentRoute, effective, overlaps_any, reserved_prefixes}
use selfremote.Routes.Blocks.{IsFree}
use selfremote.Routes.Apart.{StayApart, overlaps_any-append}
use selfremote.Sites.{Site, Sites, Codec, effective_prefixes, is_self, other_effective_prefixes}

match_bits_sym : (n : ℕ) (xs ys : List ℕ) → match_bits n xs ys ≡ match_bits n ys xs
unfolding match_bits
match_bits_sym n [] [] = refl
match_bits_sym n [] (y ∷ ys) = refl
match_bits_sym n (x ∷ xs) [] = refl
match_bits_sym n (x ∷ xs) (y ∷ ys) = ground (arith, match_bits_sym (n - 8) xs ys)

contains_addr_sym : (a b : Addr) (n : ℕ) → contains_addr a n b ≡ contains_addr b n a
contains_addr_sym invalid invalid n = refl
contains_addr_sym invalid (v4 b) n = refl
contains_addr_sym invalid (v6 b) n = refl
contains_addr_sym (v4 a) invalid n = refl
contains_addr_sym (v4 a) (v4 b) n = match_bits_sym n a b
contains_addr_sym (v4 a) (v6 b) n = refl
contains_addr_sym (v6 a) invalid n = refl
contains_addr_sym (v6 a) (v4 b) n = refl
contains_addr_sym (v6 a) (v6 b) n = match_bits_sym n a b

overlaps_sym : (p q : Prefix) → overlaps p q ≡ overlaps q p
unfolding overlaps
overlaps_sym p q =
    let e : min p.bits q.bits ≡ min q.bits p.bits = omega arith in
    contains_addr_sym p.addr q.addr (min p.bits q.bits) ∙ ap (λ n. contains_addr q.addr n p.addr) e

-- No prefix of the one list overlaps one of the other.
abbrev pub Clear : List Prefix → List Prefix → Type 0
Clear ps qs = All (λ p. All (λ q. overlaps p q ≡ false) qs) ps

pub Clear-sym : (ps qs : List Prefix) → Clear ps qs → Clear qs ps
Clear-sym ps qs h =
    All-weaken (λ q. All-weaken (λ p clear. overlaps_sym q p ∙ clear) ps) qs
      (All-flip (λ p q. overlaps p q ≡ false) ps qs h)

free-All :
    (p : Prefix) (qs : List Prefix) → overlaps_any p qs ≡ false → All (λ q. overlaps p q ≡ false) qs
unfolding overlaps_any
free-All p [] h = tt
free-All p (q ∷ qs) h = (ground arith, free-All p qs (ground arith))

append-All :
    (p : Prefix) (xs ys : List Prefix)
    → overlaps_any p (xs ++ ys) ≡ false
    → (overlaps_any p xs ≡ false) × (overlaps_any p ys ≡ false)
unfolding overlaps_any
append-All p [] ys h = (refl, h)
append-All p (x ∷ xs) ys h = ground (arith, append-All p xs ys)

module _ (codec : Codec) where
  abbrev pub published : Site → List Prefix
  published s = effective_prefixes codec s.routes

  -- Two rows are of different sites, which publish nothing in common.
  pub record IsFar (s t : Site) : Type 0 where
    pub other : s.id ≢ t.id
    pub clear : Clear (published s) (published t)

  abbrev pub AllFar : List Site → Type 0
  AllFar [] = Unit
  AllFar (s ∷ rows) = All (λ t. IsFar s t) rows × AllFar rows

  -- The numbers are given out, no site publishes a reserved prefix, and no two sites meet.
  pub record IsTable (t : Sites) : Type 0 where
    pub below : All (λ (s : Site). s.id < t.next) t.rows
    pub own : All (λ s. All (λ p. overlaps_any p reserved_prefixes ≡ false) (published s)) t.rows
    pub far : AllFar t.rows

  -- A prefix free of what the other sites publish.
  other-All :
      (p : Prefix) (self : Option ℕ) (rows : List Site)
      → overlaps_any p (other_effective_prefixes codec self rows) ≡ false
      → All
          (λ t. is_self codec self t.id ≡ false → All (λ q. overlaps p q ≡ false) (published t))
          rows
  unfolding other_effective_prefixes
  other-All p self [] h = tt
  other-All p self (s ∷ rows) h = elim (Bool-cases (is_self codec self s.id)) [
    | inl mine ↦ (λ not_mine. cc, other-All p self rows (ground (arith, mine)))
    | inr other ↦
        let parts =
          append-All p (published s) (other_effective_prefixes codec self rows)
            (ground (arith, other)) in
        (λ off. free-All p (published s) parts.0, other-All p self rows parts.1)
  ]

  module _ (faithful : (p q : Prefix) → codec.parse_prefix (codec.print p) ≡ some q → q ≡ p) where
    assigned-IsFree :
        (used : List Prefix) (out : List AgentRoute)
        → StayApart codec.print used out
        → All (λ v. IsFree v used) (effective_prefixes codec out)
    unfolding effective_prefixes
    assigned-IsFree used [] h = tt
    assigned-IsFree used (r ∷ rs) (v, shown, free, more) =
        let rest =
          All-weaken
            (λ x g. record {
              of_used = overlaps_any-append x used (v ∷ []) g.of_used;
              of_reserved = g.of_reserved;
            })
            (effective_prefixes codec rs) (assigned-IsFree (used ++ (v ∷ [])) rs more) in
        let later = effective_prefixes codec rs in
        option_cases (All (λ v. IsFree v used)) (codec.parse_prefix (effective r)) later
          (λ p. p ∷ later) (λ wrong. rest)
          (λ p read.
            let same = faithful v p (subst (λ t. codec.parse_prefix t ≡ some p) shown read) in
            (subst (λ x. IsFree x used) (sym same) free, rest))

    -- What an assignment hands out is clear of the prefixes of the other sites, and of the reserved.
    pub assigned-Clear :
        (self : Option ℕ) (rows : List Site) (out : List AgentRoute)
        → StayApart codec.print (other_effective_prefixes codec self rows) out
        → All
            (λ t.
              is_self codec self t.id ≡ false → Clear (effective_prefixes codec out) (published t))
            rows
    assigned-Clear self rows out h =
        let ps = effective_prefixes codec out in
        let each =
          All-weaken
            (λ (v : Prefix) (g : IsFree v (other_effective_prefixes codec self rows)).
              other-All v self rows g.of_used)
            ps (assigned-IsFree (other_effective_prefixes codec self rows) out h) in
        All-weaken (λ t g off. All-weaken (λ p clear. clear off) ps g) rows
          (All-flip
            (λ p (t : Site).
              is_self codec self t.id ≡ false → All (λ q. overlaps p q ≡ false) (published t))
            ps rows each)

    pub assigned-own :
        (used : List Prefix) (out : List AgentRoute)
        → StayApart codec.print used out
        → All (λ p. overlaps_any p reserved_prefixes ≡ false) (effective_prefixes codec out)
    assigned-own used out h =
        All-weaken (λ v g. g.of_reserved) (effective_prefixes codec out)
          (assigned-IsFree used out h)
