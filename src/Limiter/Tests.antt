-- ===== src/Limiter/Tests.antt =====
-- A source that sends handshakes.
use selfremote.Common.{◌+◌, ◌-◌, ◌*◌, ◌≤◌, ◌≡◌, ℕ, String, List, refl, arith, [], ◌∷◌, length}
use selfremote.Engine.Heap.{lookup, insert}
use selfremote.Limiter.{token, hs_burst, hs_rate_ip, new_limiter, allow, refill, take_token, evict}
use selfremote.Limiter.Bounds.{allow-le}
use selfremote.Limiter.Passed.{passed, after, NeverFull, passed-le}

-- Two sources, one of which came before.
abbrev earlier : List (String × ℕ)
earlier = ("203.0.113.9", 10) ∷ []

abbrev arrivals : List (String × ℕ)
arrivals = ("203.0.113.9", 20) ∷ ("198.51.100.7", 25) ∷ ("203.0.113.9", 30) ∷ []

both_passed : passed (after new_limiter earlier) "203.0.113.9" arrivals ≡ 2
unfolding passed after allow lookup insert refill take_token evict
both_passed = refl

roomy : NeverFull (after new_limiter earlier) arrivals
unfolding NeverFull after allow lookup insert refill take_token evict
roomy = (omega arith, (omega arith, (omega arith, tt)))

passed-le_example :
    passed (after new_limiter earlier) "203.0.113.9" arrivals * token
    ≤ hs_burst + (40 - 20) * hs_rate_ip
passed-le_example =
    passed-le earlier arrivals "203.0.113.9" 20 40 (omega arith, omega arith)
      (omega arith, (omega arith, (omega arith, omega arith))) roomy

allow-le_example : length (allow new_limiter "203.0.113.9" 10).0.buckets ≤ 4097
allow-le_example = allow-le new_limiter "203.0.113.9" 10 (omega arith)
