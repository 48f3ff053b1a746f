-- ===== src/Translate/HeaderValid.antt =====
-- `rewriteAddr` leaves a right IPv4 header checksum.
use selfremote.Common.{
  ℕ, zero, suc, ◌*◌, ◌<◌, ◌≡◌, refl, ap, subst, ◌∙◌, Bool, true, List, [], ◌∷◌, arith, length, take,
  All, bit_and,
}
use mathlib.Core.Path.{ap₂}
use selfremote.Net.{Addr, as_bytes}
use selfremote.Net.Bytes.{IsByte}
use selfremote.Packet.{IpHeader, ok, parse_header, byte_at, header_length}
use selfremote.Packet.Bounds.{parse_header-IsParsed, v4_facts}
use selfremote.Packet.Checksum.{ones_complement}
use selfremote.Translate.{rewrite_addr, refresh_header, fix_transport, edge_off, edge_addr}
use selfremote.Translate.Edit.{write_at, length-write_at, write_at-IsByte}
use selfremote.Translate.Frame.{
  written_first, rewrite_addr-v4, length-fix_transport, fix_transport_before,
}
use selfremote.Translate.HeaderSum.{refresh_header-valid}

-- Lists that agree in their first `n` places.
take-eq :
    (n : ℕ) (xs ys : List ℕ)
    → length xs ≡ length ys
    → ((i : ℕ) → i < n → i < length ys → byte_at xs i ≡ byte_at ys i)
    → take n xs ≡ take n ys
take-eq zero xs ys same h = refl
take-eq (suc n) [] [] same h = refl
take-eq (suc n) [] (y ∷ ys) same h = absurd (omega arith)
take-eq (suc n) (x ∷ xs) [] same h = absurd (omega arith)
take-eq (suc n) (x ∷ xs) (y ∷ ys) same h =
    ap₂ (λ a r. a ∷ r) (h 0 (omega arith) (omega arith))
      (take-eq n xs ys (omega arith) (λ i small inside. h (suc i) (omega arith) (omega arith)))

-- After `rewriteAddr` on a parsed IPv4 packet of octets the header checksum is right: the checksum
-- of the whole header, its own field included, is 0.
pub rewrite_addr-valid :
    (fuel : ℕ) (pkt : List ℕ) (h : IpHeader) (to_dst : Bool) (new : Addr)
    → parse_header fuel pkt ≡ ok h
    → h.is_v4 ≡ true
    → All IsByte pkt
    → All IsByte (as_bytes new)
    → ones_complement (take (header_length pkt) (rewrite_addr h pkt to_dst new).0) ≡ 0
rewrite_addr-valid fuel pkt h to_dst new parsed four bytes octets =
    let (version, least, long, behind) = v4_facts fuel pkt h parsed four in
    let w : List ℕ = write_at (edge_off h to_dst) (as_bytes new) pkt in
    let p = parse_header-IsParsed fuel pkt h parsed in
    let first : byte_at w 0 ≡ byte_at pkt 0 = written_first pkt h p four to_dst new in
    let len : length w ≡ length pkt = length-write_at (edge_off h to_dst) (as_bytes new) pkt in
    let same : header_length w ≡ header_length pkt = ap (λ b. bit_and b 0x0f * 4) first in
    let valid =
      refresh_header-valid w (write_at-IsByte (edge_off h to_dst) (as_bytes new) pkt octets bytes)
        (ground (arith, first, version)) (omega (arith, same)) (omega (arith, same, len)) in
    rw (rewrite_addr-v4 pkt h p four to_dst new) (
      ap ones_complement (
        take-eq (header_length pkt) (fix_transport h (edge_addr h to_dst) new (refresh_header w))
          (refresh_header w) (length-fix_transport (refresh_header w) h (edge_addr h to_dst) new)
          (λ i small inside.
            fix_transport_before (refresh_header w) h (edge_addr h to_dst) new i inside
              (λ o e. omega (arith, behind o e))))
      ∙ subst (λ n. ones_complement (take n (refresh_header w)) ≡ 0) same valid)
