-- ===== src/Packet.antt =====
-- IP packets (internal/tunnel/addrmap.go, the IP layer): the header view and the walk over the
-- IPv6 extension headers. A packet is the list of its bytes.
pub mod Checksum
pub mod Walk
pub mod Bounds
pub mod Tests
use selfremote.Common.{
  ℕ, zero, suc, ◌+◌, ◌*◌, ◌/◌, ◌%◌, Bool, true, false, ◌||◌, Option, none, some, List, bit_and, ltb,
  leb, ◌==◌, if◌then◌else◌, length, get_or, take, drop,
}
use selfremote.Net.{Addr, invalid, v4, v6}

-- `hang` is no Go value: the loop over the extension headers did not end within its fuel.
pub data Parse {ℓ} (A : Type ℓ) : Type ℓ where
  ok : A → Parse A
  bad : Parse A
  hang : Parse A

-- pkt[i]; every use stands behind a test of the length.
abbrev pub byte_at : List ℕ → ℕ → ℕ
byte_at pkt i = get_or pkt i 0

-- pkt[from:from+n]
abbrev pub slice : List ℕ → ℕ → ℕ → List ℕ
slice pkt from n = take n (drop from pkt)

-- binary.BigEndian.Uint16(pkt[i:])
abbrev pub be16 : List ℕ → ℕ → ℕ
be16 pkt i = byte_at pkt i * 256 + byte_at pkt (i + 1)

pub record IpHeader : Type 0 where
  pub is_v4 : Bool
  pub src : Addr
  pub dst : Addr
  pub src_off : ℕ
  pub dst_off : ℕ
  -- `none` is the -1 of the source.
  pub l4_off : Option ℕ
  pub l4_proto : ℕ

-- Bytes of an address of the packet's version.
abbrev pub width : IpHeader → ℕ
width h = if h.is_v4 then 4 else 16

-- Hop-by-hop, routing and destination options.
unfoldable pub is_option_header : ℕ → Bool
is_option_header nh = nh == 0 || nh == 43 || nh == 60

-- The loop `for { switch nh { … } }`: the offset of the transport header and its protocol.
unfoldable pub walk : ℕ → List ℕ → ℕ → ℕ → Parse (Option ℕ × ℕ)
walk zero pkt nh off = hang
walk (suc fuel) pkt nh off =
    let option_off = off + (byte_at pkt (off + 1) + 1) % 256 * 8 in
    let option = walk fuel pkt (byte_at pkt off) option_off in
    let fragment = walk fuel pkt (byte_at pkt off) (off + 8) in
    if is_option_header nh
    then (if ltb (length pkt) (off + 2)
        then bad
        else if leb (length pkt) option_off
        then bad
        else option)
    else if nh == 44
    then (if ltb (length pkt) (off + 8)
        then bad
        else if bit_and (be16 pkt (off + 2)) 0xfff8 / 8 == 0
        then (if leb (length pkt) (off + 8) then bad else fragment)
        else ok (none, 0))
    else ok (if leb off (length pkt) then some off else none, nh)

-- Rounds that are enough wherever the loop ends at all.
abbrev pub walk_fuel : List ℕ → ℕ
walk_fuel pkt = 2 * length pkt + 2

abbrev pub v6_header : List ℕ → Parse (Option ℕ × ℕ) → Parse IpHeader
v6_header pkt (ok (l4_off, proto)) = ok (record {
  is_v4 = false;
  src = v6 (slice pkt 8 16);
  dst = v6 (slice pkt 24 16);
  src_off = 8;
  dst_off = 24;
  l4_off = l4_off;
  l4_proto = proto;
})
v6_header pkt bad = bad
v6_header pkt hang = hang

abbrev pub v4_header : List ℕ → ℕ → IpHeader
v4_header pkt ihl = record {
  is_v4 = true;
  src = v4 (slice pkt 12 4);
  dst = v4 (slice pkt 16 4);
  src_off = 12;
  dst_off = 16;
  l4_off = if bit_and (be16 pkt 6) 0x1fff == 0 then some ihl else none;
  l4_proto = byte_at pkt 9;
}

-- int(pkt[0]&0x0f) * 4
abbrev pub header_length : List ℕ → ℕ
header_length pkt = bit_and (byte_at pkt 0) 0x0f * 4

-- parseIPHeader, with the rounds of its loop as fuel.
unfoldable pub parse_header : ℕ → List ℕ → Parse IpHeader
parse_header fuel pkt =
    if ltb (length pkt) 20
    then bad
    else if byte_at pkt 0 / 16 == 4
    then (if ltb (header_length pkt) 20 || ltb (length pkt) (header_length pkt)
        then bad
        else ok (v4_header pkt (header_length pkt)))
    else if byte_at pkt 0 / 16 == 6
    then (if ltb (length pkt) 40 then bad else v6_header pkt (walk fuel pkt (byte_at pkt 6) 40))
    else bad
