-- ===== src/Packet/Bounds.antt =====
-- What a parsed header says of the packet: every offset lies inside, the addresses are read where
-- the header says, and the transport header stands behind them.
use selfremote.Common.{
  ℕ, zero, suc, ◌+◌, ◌*◌, ◌/◌, ◌%◌, ◌≤◌, ◌≡◌, refl, sym, subst, ◌⊎◌, inl, inr, Option, some, List,
  arith, length, true, false,
}
use selfremote.Net.{as_bytes}
use selfremote.Packet.{
  Parse, ok, bad, hang, byte_at, slice, IpHeader, walk, parse_header, v6_header, v4_header,
  header_length, width,
}

-- Where the walk stops, inside the packet and not before its start.
walk_bounds :
    (fuel : ℕ) (pkt : List ℕ) (nh off o proto : ℕ)
    → walk fuel pkt nh off ≡ ok (some o, proto)
    → (off ≤ o) × (o ≤ length pkt)
unfolding walk
walk_bounds zero pkt nh off o proto e = cc
walk_bounds (suc fuel) pkt nh off o proto e = ground (
  arith,
  walk_bounds fuel pkt (byte_at pkt off) (off + (byte_at pkt (off + 1) + 1) % 256 * 8) o proto,
  walk_bounds fuel pkt (byte_at pkt off) (off + 8) o proto,
)

pub record IsParsed (pkt : List ℕ) (h : IpHeader) : Type 0 where
  pub src_fits : h.src_off + width h ≤ length pkt
  pub dst_fits : h.dst_off + width h ≤ length pkt
  pub adjacent : h.src_off + width h ≡ h.dst_off
  pub behind_sum : h.is_v4 ≡ true → 12 ≤ h.src_off
  pub src_read : as_bytes h.src ≡ slice pkt h.src_off (width h)
  pub dst_read : as_bytes h.dst ≡ slice pkt h.dst_off (width h)
  pub transport : (o : ℕ) → h.l4_off ≡ some o → (h.dst_off + width h ≤ o) × (o ≤ length pkt)

v6-IsParsed :
    (pkt : List ℕ) (h : IpHeader) (w : Parse (Option ℕ × ℕ))
    → ((o proto : ℕ) → w ≡ ok (some o, proto) → (40 ≤ o) × (o ≤ length pkt))
    → 40 ≤ length pkt
    → v6_header pkt w ≡ ok h
    → IsParsed pkt h
unfolding as_bytes
v6-IsParsed pkt h (ok (l4, proto)) bounds long e = record {
  src_fits = ground arith;
  dst_fits = ground arith;
  adjacent = ground arith;
  behind_sum = λ p. ground arith;
  src_read = ground arith;
  dst_read = ground arith;
  transport = λ o p. ground (arith, bounds o proto);
}
v6-IsParsed pkt h bad bounds long e = cc
v6-IsParsed pkt h hang bounds long e = cc

v4-IsParsed :
    (pkt : List ℕ)
    → 20 ≤ header_length pkt
    → header_length pkt ≤ length pkt
    → IsParsed pkt (v4_header pkt (header_length pkt))
unfolding as_bytes
v4-IsParsed pkt least long = record {
  src_fits = omega arith;
  dst_fits = omega arith;
  adjacent = refl;
  behind_sum = λ p. omega arith;
  src_read = refl;
  dst_read = refl;
  transport = λ o p. ground arith;
}

-- The two ways to succeed.
pub parse_header_cases :
    (fuel : ℕ) (pkt : List ℕ) (h : IpHeader)
    → parse_header fuel pkt ≡ ok h
    → (h ≡ v4_header pkt (header_length pkt))
        × (byte_at pkt 0 / 16 ≡ 4)
        × (20 ≤ header_length pkt)
        × (header_length pkt ≤ length pkt)
      ⊎ (40 ≤ length pkt) × (v6_header pkt (walk fuel pkt (byte_at pkt 6) 40) ≡ ok h)
unfolding parse_header
parse_header_cases fuel pkt h e = ground arith

-- A parse that succeeds reads inside the packet: both addresses are the bytes at their offsets,
-- source before destination and behind the IPv4 checksum, and a transport header found lies behind
-- the addresses and within the packet.
pub parse_header-IsParsed :
    (fuel : ℕ) (pkt : List ℕ) (h : IpHeader) → parse_header fuel pkt ≡ ok h → IsParsed pkt h
parse_header-IsParsed fuel pkt h e = elim (parse_header_cases fuel pkt h e) [
  | inl (same, version, least, long) ↦ subst (IsParsed pkt) (sym same) (v4-IsParsed pkt least long)
  | inr (long, six) ↦
      v6-IsParsed pkt h (walk fuel pkt (byte_at pkt 6) 40) (walk_bounds fuel pkt (byte_at pkt 6) 40)
        long six
]

v6_header-family :
    (pkt : List ℕ) (w : Parse (Option ℕ × ℕ)) (h : IpHeader)
    → v6_header pkt w ≡ ok h
    → h.is_v4 ≡ false
v6_header-family pkt (ok (l4, proto)) h e = ground arith
v6_header-family pkt bad h e = cc
v6_header-family pkt hang h e = cc

-- What the parser tested of an IPv4 packet.
pub v4_facts :
    (fuel : ℕ) (pkt : List ℕ) (h : IpHeader)
    → parse_header fuel pkt ≡ ok h
    → h.is_v4 ≡ true
    → (byte_at pkt 0 / 16 ≡ 4)
      × (20 ≤ header_length pkt)
      × (header_length pkt ≤ length pkt)
      × ((o : ℕ) → h.l4_off ≡ some o → o ≡ header_length pkt)
v4_facts fuel pkt h e four = elim (parse_header_cases fuel pkt h e) [
  | inl (same, version, least, long) ↦ (version, least, long, λ o p. ground arith)
  | inr (long, six) ↦
      let other = v6_header-family pkt (walk fuel pkt (byte_at pkt 6) 40) h six in cc
]
