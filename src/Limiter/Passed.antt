-- ===== src/Limiter/Passed.antt =====
-- How many handshakes of one source the limiter lets through, among those of other sources.
use selfremote.Common.{
  ℕ, ◌+◌, ◌-◌, ◌*◌, ◌≤◌, ◌≡◌, refl, subst, sym, ap, ◌∙◌, arith, false, ◌&&◌, String, str_eq, List,
  [], ◌∷◌, Option, none, some, ltb, if◌then◌else◌, length, All, All-weaken, Option-cases,
  Bool-cases, inl, inr,
}
use selfremote.Engine.Heap.{lookup, insert}
use selfremote.Engine.Names.{lookup-insert, lookup-All, All-insert, str_eq_sound}
use selfremote.Limiter.{
  token, hs_burst, hs_rate_ip, Bucket, Limiter, new_limiter, evict, bucket_of, refill, take_token,
  allow,
}
use selfremote.Limiter.Bounds.{allow-bucket}

-- The limiter after handshakes of any sources at their times.
unfoldable pub after : Limiter → List (String × ℕ) → Limiter
after l [] = l
after l ((ip, now) ∷ arrivals) = after (allow l ip now).0 arrivals

-- How many handshakes of one of the sources are let through.
unfoldable pub passed : Limiter → String → List (String × ℕ) → ℕ
passed l ip [] = 0
passed l ip ((from, now) ∷ arrivals) =
    let (l', ok) = allow l from now in
    let rest = passed l' ip arrivals in if str_eq from ip && ok then rest + 1 else rest

-- The times are in order, from `from` to `until`.
abbrev pub InOrder : ℕ → ℕ → List (String × ℕ) → Type 0
InOrder from until [] = from ≤ until
InOrder from until ((ip, t) ∷ arrivals) = (from ≤ t) × InOrder t until arrivals

-- No handshake finds so many sources on record that buckets are deleted for a new one.
unfoldable pub NeverFull : Limiter → List (String × ℕ) → Type 0
NeverFull l [] = Unit
NeverFull l ((ip, now) ∷ arrivals) =
    (length l.buckets ≤ 4096) × NeverFull (allow l ip now).0 arrivals

-- A bucket was last looked at in the past, and holds no more than it can.
abbrev IsFair : ℕ → String × Bucket → Type 0
IsFair now (ip, b) = (b.last ≤ now) × (b.tokens ≤ hs_burst)

All-evict :
    (now : ℕ) (bs : List (String × Bucket)) → All (IsFair now) bs → All (IsFair now) (evict bs)
unfolding evict
All-evict now [] h = tt
All-evict now (b ∷ bs) h = elim (Bool-cases (ltb (length bs) 2048)) [
  | inl few ↦ rw few h.1
  | inr many ↦ rw many (All-evict now bs h.1)
]

-- The tokens that a source can use at a time: those of its bucket, or of the one it would be given.
abbrev available : Option Bucket → ℕ → ℕ
available none now = hs_burst
available (some b) now = (refill b now).tokens

-- What `bucket_of` finds or makes.
record IsFound (l : Limiter) (ip : String) (now : ℕ) : Type 0 where
  rows : List (String × Bucket)
  bucket : Bucket
  made : bucket_of l.buckets ip now (lookup str_eq ip l.buckets) ≡ (rows, bucket)
  filled : (refill bucket now).tokens ≡ available (lookup str_eq ip l.buckets) now
  fair : IsFair now (ip, bucket)
  fair_rows : All (IsFair now) rows
  others :
      (other : String)
      → length l.buckets ≤ 4096
      → str_eq ip other ≡ false
      → lookup str_eq other rows ≡ lookup str_eq other l.buckets

bucket_of-IsFound :
    (l : Limiter) (ip : String) (now : ℕ) → All (IsFair now) l.buckets → IsFound l ip now
unfolding refill
bucket_of-IsFound l ip now h = elim (Option-cases (lookup str_eq ip l.buckets)) [
  | inr (b, known) ↦ record {
    rows = l.buckets;
    bucket = b;
    made = ap (bucket_of l.buckets ip now) known;
    filled = sym (ap (λ o. available o now) known);
    fair = lookup-All (IsFair now) ip b l.buckets h known;
    fair_rows = h;
    others = λ other few apart. refl;
  }
  | inl new ↦
      let kept = if ltb 4096 (length l.buckets) then evict l.buckets else l.buckets in
      let fresh : Bucket = record { tokens = hs_burst; last = now } in
      record {
        rows = insert str_eq ip fresh kept;
        bucket = fresh;
        made = ap (bucket_of l.buckets ip now) new;
        filled = ground (arith, sym (ap (λ o. available o now) new));
        fair = (omega arith, omega arith);
        fair_rows =
            All-insert (IsFair now) ip fresh kept (omega arith, omega arith)
              (elim (Bool-cases (ltb 4096 (length l.buckets))) [
                | inl full ↦ rw full (All-evict now l.buckets h)
                | inr roomy ↦ rw roomy h
              ]);
        others = λ other few apart.
            let same : kept ≡ l.buckets = ground (arith, few) in
            lookup-insert other ip fresh kept
            ∙ (ap (λ b. if b then some fresh else lookup str_eq other kept) apart
                ∙ ap (lookup str_eq other) same);
      }
]

-- A bucket that was looked at: it is fair, and what it gave it has no longer.
take_token-refill :
    (b : Bucket) (ip : String) (now : ℕ)
    → IsFair now (ip, b)
    → IsFair now (ip, (take_token (refill b now)).0)
      × ((if (take_token (refill b now)).1 then token else 0)
            + (refill (take_token (refill b now)).0 now).tokens
          ≤ (refill b now).tokens)
unfolding refill take_token
take_token-refill b ip now fair = (ground (arith, fair.0, fair.1), ground (arith, fair.0, fair.1))

-- Tokens come in at the rate of the limit only.
available-le :
    (o : Option Bucket) (from now : ℕ)
    → from ≤ now
    → available o now ≤ available o from + (now - from) * hs_rate_ip
unfolding refill
available-le none from now order = omega arith
available-le (some b) from now order = ground (arith, order)

allow-IsFair :
    (l : Limiter) (ip : String) (now : ℕ)
    → All (IsFair now) l.buckets
    → All (IsFair now) (allow l ip now).0.buckets
allow-IsFair l ip now h =
    let b = bucket_of-IsFound l ip now h in
    let (_, _, same) = allow-bucket l ip now b.rows b.bucket b.made in
    subst (All (IsFair now)) (sym same) (
      All-insert (IsFair now) ip (take_token (refill b.bucket now)).0 b.rows
        (take_token-refill b.bucket ip now b.fair).0 b.fair_rows)

later-IsFair :
    (from now : ℕ) (bs : List (String × Bucket))
    → from ≤ now
    → All (IsFair from) bs
    → All (IsFair now) bs
later-IsFair from now bs order h =
    All-weaken (λ (row : String × Bucket) g. (omega (arith, order, g.0), g.1)) bs h

-- What the source itself gets is taken from what is available to it; other sources take nothing.
allow-available :
    (l : Limiter) (from ip : String) (now : ℕ)
    → All (IsFair now) l.buckets
    → length l.buckets ≤ 4096
    → (if str_eq from ip && (allow l from now).1 then token else 0)
        + available (lookup str_eq ip (allow l from now).0.buckets) now
      ≤ available (lookup str_eq ip l.buckets) now
allow-available l from ip now h few =
    let b = bucket_of-IsFound l from now h in
    let taken = take_token (refill b.bucket now) in
    let (ok, own, rows) = allow-bucket l from now b.rows b.bucket b.made in
    elim (Bool-cases (str_eq from ip)) [
      | inl same ↦
          let name : from ≡ ip = str_eq_sound from ip same in
          let at : lookup str_eq ip (allow l from now).0.buckets ≡ some taken.0 =
            ap (λ x. lookup str_eq x (allow l from now).0.buckets) (sym name) ∙ own in
          let before : (refill b.bucket now).tokens ≡ available (lookup str_eq ip l.buckets) now =
            b.filled ∙ ap (λ x. available (lookup str_eq x l.buckets) now) name in
          omega (
            arith,
            (take_token-refill b.bucket from now b.fair).1,
            before,
            ap (λ o. available o now) at,
            ap (λ x. if x && (allow l from now).1 then token else 0) same,
            ap (λ x. if x then token else 0) ok,
          )
      | inr other ↦
          let at : lookup str_eq ip (allow l from now).0.buckets ≡ lookup str_eq ip l.buckets =
            ap (lookup str_eq ip) rows
            ∙ (lookup-insert ip from taken.0 b.rows
                ∙ (ap (λ x. if x then some taken.0 else lookup str_eq ip b.rows) other
                    ∙ b.others ip few other)) in
          omega (
            arith,
            ap (λ o. available o now) at,
            ap (λ x. if x && (allow l from now).1 then token else 0) other,
          )
    ]

passed-available :
    (l : Limiter) (ip : String) (from until : ℕ) (arrivals : List (String × ℕ))
    → All (IsFair from) l.buckets
    → NeverFull l arrivals
    → InOrder from until arrivals
    → passed l ip arrivals * token
      ≤ available (lookup str_eq ip l.buckets) from + (until - from) * hs_rate_ip
unfolding passed NeverFull
passed-available l ip from until [] h few order = omega arith
passed-available l ip from until ((source, now) ∷ arrivals) h few order =
    let fair = later-IsFair from now l.buckets order.0 h in
    let l' = (allow l source now).0 in
    let ok = str_eq source ip && (allow l source now).1 in
    let count : passed l ip ((source, now) ∷ arrivals) * token
        ≡ passed l' ip arrivals * token + (if ok then token else 0) =
      elim (Bool-cases ok) [
        | inl through ↦ rw through (omega arith)
        | inr not_through ↦ rw not_through (omega arith)
      ] in
    omega (
      arith,
      count,
      passed-available l' ip now until arrivals (allow-IsFair l source now fair) few.1 order.1,
      allow-available l source ip now fair few.0,
      available-le (lookup str_eq ip l.buckets) from now order.0,
      InOrder-le now until arrivals order.1,
      order.0,
    )
  where
    InOrder-le :
        (from until : ℕ) (arrivals : List (String × ℕ)) → InOrder from until arrivals → from ≤ until
    InOrder-le from until [] h = h
    InOrder-le from until ((ip, s) ∷ arrivals) h =
        omega (arith, h.0, InOrder-le s until arrivals h.1)

after-IsFair :
    (l : Limiter) (first from : ℕ) (arrivals : List (String × ℕ))
    → All (IsFair first) l.buckets
    → InOrder first from arrivals
    → All (IsFair from) (after l arrivals).buckets
unfolding after
after-IsFair l first from [] h order = later-IsFair first from l.buckets order h
after-IsFair l first from ((ip, now) ∷ arrivals) h order =
    after-IsFair (allow l ip now).0 now from arrivals
      (allow-IsFair l ip now (later-IsFair first now l.buckets order.0 h)) order.1

available-burst :
    (l : Limiter) (ip : String) (now : ℕ)
    → All (IsFair now) l.buckets
    → available (lookup str_eq ip l.buckets) now ≤ hs_burst
unfolding refill
available-burst l ip now h = elim (Option-cases (lookup str_eq ip l.buckets)) [
  | inl new ↦ omega (arith, ap (λ o. available o now) new)
  | inr (b, known) ↦
      let fair = lookup-All (IsFair now) ip b l.buckets h known in
      ground (arith, ap (λ o. available o now) known, fair.1)
]

-- Handshakes of any sources arrive in order of time, some before `from` and some from then until
-- `until`. If none of the later ones finds more than 4096 sources on record, then of those of any one
-- source at most thirty are let through, and five more for each second of that time.
pub passed-le :
    (before arrivals : List (String × ℕ)) (ip : String) (from until : ℕ)
    → InOrder 0 from before
    → InOrder from until arrivals
    → NeverFull (after new_limiter before) arrivals
    → passed (after new_limiter before) ip arrivals * token ≤ hs_burst + (until - from) * hs_rate_ip
passed-le before arrivals ip from until first order few =
    let l = after new_limiter before in
    let h = after-IsFair new_limiter 0 from before tt first in
    omega
      (arith, passed-available l ip from until arrivals h few order, available-burst l ip from h)
