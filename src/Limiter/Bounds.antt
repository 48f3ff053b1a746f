-- ===== src/Limiter/Bounds.antt =====
-- How much the limiter lets through, and how much it keeps.
use selfremote.Common.{
  ℕ, ◌+◌, ◌≤◌, ◌≡◌, ap, ◌∙◌, arith, String, str_eq, List, [], ◌∷◌, some, ltb, if◌then◌else◌, length,
  Option-cases, inl, inr,
}
use selfremote.Engine.Heap.{lookup, insert}
use selfremote.Engine.Names.{lookup-insert, str_eq_refl}
use selfremote.Limiter.{hs_burst, Bucket, Limiter, evict, bucket_of, refill, take_token, allow}

length-insert :
    (ip : String) (b : Bucket) (bs : List (String × Bucket))
    → length (insert str_eq ip b bs) ≤ length bs + 1
unfolding insert
length-insert ip b [] = omega arith
length-insert ip b ((j, c) ∷ bs) = ground (arith, length-insert ip b bs)

length-insert_same :
    (ip : String) (b c : Bucket) (bs : List (String × Bucket))
    → lookup str_eq ip bs ≡ some c
    → length (insert str_eq ip b bs) ≡ length bs
unfolding insert lookup
length-insert_same ip b c [] e = cc
length-insert_same ip b c ((j, d) ∷ bs) e = ground (arith, length-insert_same ip b c bs)

length-evict : (bs : List (String × Bucket)) → length (evict bs) ≤ 2048
unfolding evict
length-evict [] = omega arith
length-evict (b ∷ bs) = ground (arith, length-evict bs)

pub allow-bucket :
    (l : Limiter) (ip : String) (now : ℕ) (bs : List (String × Bucket)) (b : Bucket)
    → bucket_of l.buckets ip now (lookup str_eq ip l.buckets) ≡ (bs, b)
    → ((allow l ip now).1 ≡ (take_token (refill b now)).1)
      × (lookup str_eq ip (allow l ip now).0.buckets ≡ some (take_token (refill b now)).0)
      × ((allow l ip now).0.buckets ≡ insert str_eq ip (take_token (refill b now)).0 bs)
unfolding allow
allow-bucket l ip now bs b e =
    let same : (allow l ip now).0.buckets ≡ insert str_eq ip (take_token (refill b now)).0 bs =
      ap (λ r. insert str_eq ip (take_token (refill r.1 now)).0 r.0) e in
    (
      ap (λ r. (take_token (refill r.1 now)).1) e,
      ap (lookup str_eq ip) same
          ∙ (lookup-insert ip ip (take_token (refill b now)).0 bs ∙ ground (arith, str_eq_refl ip)),
      same,
    )

-- The limiter never keeps more than 4097 buckets.
pub allow-le :
    (l : Limiter) (ip : String) (now : ℕ)
    → length l.buckets ≤ 4097
    → length (allow l ip now).0.buckets ≤ 4097
allow-le l ip now few = elim (Option-cases (lookup str_eq ip l.buckets)) [
  | inr (b, known) ↦
      let (_, _, after) =
        allow-bucket l ip now l.buckets b (ap (bucket_of l.buckets ip now) known) in
      omega (
        arith,
        ap length after,
        length-insert_same ip (take_token (refill b now)).0 b l.buckets known,
      )
  | inl new ↦
      let kept = if ltb 4096 (length l.buckets) then evict l.buckets else l.buckets in
      let fresh : Bucket = record { tokens = hs_burst; last = now } in
      let (_, _, after) =
        allow-bucket l ip now (insert str_eq ip fresh kept) fresh
          (ap (bucket_of l.buckets ip now) new) in
      let there : lookup str_eq ip (insert str_eq ip fresh kept) ≡ some fresh =
        lookup-insert ip ip fresh kept ∙ ground (arith, str_eq_refl ip) in
      let small : length kept ≤ 4096 = ground (arith, length-evict l.buckets) in
      omega (
        arith,
        small,
        ap length after,
        length-insert ip fresh kept,
        length-insert_same ip (take_token (refill fresh now)).0 fresh (insert str_eq ip fresh kept)
            there,
      )
]
