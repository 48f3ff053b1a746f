-- ===== src/Limiter.antt =====
-- The rate limit of handshakes by source (internal/tunnel/hslimit.go): token buckets. Tokens are
-- counted exactly, in units of 10^-9, where the code has a float64.
pub mod Bounds
pub mod Passed
mod Tests
use selfremote.Common.{
  ℕ, ◌+◌, ◌-◌, ◌*◌, ◌%◌, ◌^◌, Bool, true, false, String, str_eq, List, [], ◌∷◌, Option, none, some,
  ltb, if◌then◌else◌, length, min,
}
use selfremote.Engine.Heap.{lookup, insert}

abbrev pub token : ℕ
token = 10 ^ 9

-- `hsBurst`
abbrev pub hs_burst : ℕ
hs_burst = 30 * token

-- `hsRateIP`: tokens a second, the units that a nanosecond adds.
abbrev pub hs_rate_ip : ℕ
hs_rate_ip = 5

pub record Bucket : Type 0 where
  pub tokens : ℕ
  pub last : ℕ

pub record Limiter : Type 0 where
  pub buckets : List (String × Bucket)
  pub dropped : ℕ

abbrev pub new_limiter : Limiter
new_limiter = record { buckets = []; dropped = 0 }

-- Buckets are deleted until fewer than 2048 are left.
unfoldable pub evict : List (String × Bucket) → List (String × Bucket)
evict [] = []
evict (b ∷ bs) = let rest = evict bs in if ltb (length bs) 2048 then bs else rest

-- The bucket of a source, made where there is none, and the map that it is in.
abbrev pub bucket_of :
    List (String × Bucket) → String → ℕ → Option Bucket → List (String × Bucket) × Bucket
bucket_of bs ip now (some b) = (bs, b)
bucket_of bs ip now none =
    let kept = if ltb 4096 (length bs) then evict bs else bs in
    let fresh : Bucket = record { tokens = hs_burst; last = now } in
    (insert str_eq ip fresh kept, fresh)

-- What has come in since the last time; time may stand still.
unfoldable pub refill : Bucket → ℕ → Bucket
refill b now =
    if ltb b.last now
    then record { tokens = min (b.tokens + (now - b.last) * hs_rate_ip) hs_burst; last = now }
    else b

-- The test, and the token that is taken.
unfoldable pub take_token : Bucket → Bucket × Bool
take_token b =
    if ltb b.tokens token then (b, false) else (record b { tokens = b.tokens - token }, true)

-- `l.allow(ip)` at `now`.
unfoldable pub allow : Limiter → String → ℕ → Limiter × Bool
unfolding evict refill take_token
allow l ip now =
    let (bs, b) = bucket_of l.buckets ip now (lookup str_eq ip l.buckets) in
    let (b', ok) = take_token (refill b now) in
    (
      record {
        buckets = insert str_eq ip b' bs;
        dropped = if ok then l.dropped else (l.dropped + 1) % 2 ^ 64;
      },
      ok,
    )

-- `l.droppedSince()`
unfoldable pub dropped_since : Limiter → Limiter × ℕ
dropped_since l = (record l { dropped = 0 }, l.dropped)
