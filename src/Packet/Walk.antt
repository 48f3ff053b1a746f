-- ===== src/Packet/Walk.antt =====
-- When the walk over the IPv6 extension headers ends, and when it never does.
use selfremote.Common.{
  ℕ, zero, suc, ◌+◌, ◌-◌, ◌*◌, ◌%◌, ◌/◌, ◌≤◌, ◌<◌, ◌≡◌, refl, ◌≢◌, true, List, arith, length,
  if◌then◌else◌,
}
use native.Mathlib.Decide.{dec_lt}
use selfremote.Packet.{hang, byte_at, is_option_header, walk, walk_fuel, parse_header}

-- An option header of length byte 255 whose next-header byte names an option header again: the
-- length `pkt[off+1]+1` is a byte sum and wraps to 0, so the walk comes back to the same header.
pub record IsTrap (pkt : List ℕ) (off : ℕ) : Type 0 where
  pub inside : off + 2 ≤ length pkt
  pub wraps : byte_at pkt (off + 1) % 256 ≡ 255
  pub again : is_option_header (byte_at pkt off) ≡ true

walk_trapped :
    (fuel : ℕ) (pkt : List ℕ) (nh off : ℕ)
    → IsTrap pkt off
    → is_option_header nh ≡ true
    → walk fuel pkt nh off ≡ hang
unfolding walk
walk_trapped zero pkt nh off t h = refl
walk_trapped (suc fuel) pkt nh off t h =
    let still : off + (byte_at pkt (off + 1) + 1) % 256 * 8 ≡ off = omega (arith, t.wraps) in
    ground (arith, t.inside, still, walk_trapped fuel pkt (byte_at pkt off) off t t.again)

-- Some packets keep the parser in its loop for ever: an IPv6 packet of at least 42 bytes whose
-- first extension header is such a trap is not parsed within any number of rounds.
pub parse_header-hang :
    (fuel : ℕ) (pkt : List ℕ)
    → 40 ≤ length pkt
    → byte_at pkt 0 / 16 ≡ 6
    → is_option_header (byte_at pkt 6) ≡ true
    → IsTrap pkt 40
    → parse_header fuel pkt ≡ hang
unfolding parse_header
parse_header-hang fuel pkt long version first t =
    ground (arith, walk_trapped fuel pkt (byte_at pkt 6) 40 t first)

-- Rounds that the walk may still need: two for each byte ahead, one more before an option header.
abbrev rounds : List ℕ → ℕ → ℕ → ℕ
rounds pkt nh off = 2 * (length pkt - off) + (if is_option_header nh then 2 else 1)

module _ (pkt : List ℕ) (free : (off : ℕ) → ¬ IsTrap pkt off) where
  moves :
      (off : ℕ)
      → off + 2 ≤ length pkt
      → is_option_header (byte_at pkt off) ≡ true
      → 0 < (byte_at pkt (off + 1) + 1) % 256
  moves off inside again = elim (dec_lt 0 ((byte_at pkt (off + 1) + 1) % 256)) [
    | yes h ↦ h
    | no h ↦ absurd (free off (record { inside = inside; wraps = omega arith; again = again }))
  ]

  walk_ends : (fuel nh off : ℕ) → rounds pkt nh off ≤ fuel → walk fuel pkt nh off ≢ hang
  unfolding walk
  walk_ends zero nh off enough e = ground arith
  walk_ends (suc fuel) nh off enough e = ground (
    arith,
    moves off,
    walk_ends fuel (byte_at pkt off) (off + (byte_at pkt (off + 1) + 1) % 256 * 8),
    walk_ends fuel (byte_at pkt off) (off + 8),
  )

  -- Without such a trap anywhere in the packet the parser ends, within two rounds a byte.
  pub parse_header-ends : parse_header (walk_fuel pkt) pkt ≢ hang
  unfolding parse_header
  parse_header-ends = ground (arith, walk_ends (walk_fuel pkt) (byte_at pkt 6) 40)
