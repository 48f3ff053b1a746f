-- ===== src/Translate/Frame.antt =====
-- What `rewriteAddr` writes, byte by byte.
use selfremote.Common.{
  ℕ, ◌+◌, ◌/◌, ◌%◌, ◌≤◌, ◌<◌, ◌≡◌, ◌≢◌, refl, ap, ◌∙◌, Bool, true, List, [], ◌∷◌, some, arith,
  if◌then◌else◌, length, get_or, take, Option-cases, Bool-cases, inl, inr, ◌⊎◌,
}
use selfremote.Net.{Addr, as_bytes}
use selfremote.Packet.{IpHeader, ok, parse_header, byte_at, be16, header_length, width}
use selfremote.Packet.Bounds.{IsParsed, parse_header-IsParsed}
use selfremote.Packet.Checksum.{ones_complement, checksum_delta}
use selfremote.Translate.{
  refresh_header, fix_transport, l4_checksum_offset, rewrite_addr, edge_off, edge_addr,
}
use selfremote.Translate.Edit.{write_at, length-write_at, get_or-write_at}

module _ (pkt : List ℕ) where
  pub length-refresh_header : length (refresh_header pkt) ≡ length pkt
  unfolding refresh_header
  length-refresh_header = simp length-write_at

  -- Only the two bytes of the header checksum change.
  pub refresh_header_other :
      (i : ℕ) → i < length pkt → i ≢ 10 → i ≢ 11 → byte_at (refresh_header pkt) i ≡ byte_at pkt i
  unfolding refresh_header
  refresh_header_other i inside h10 h11 =
      let cleared : List ℕ = write_at 10 (0 ∷ 0 ∷ []) pkt in
      let sum = ones_complement (take (header_length pkt) cleared) in
      ground (
        arith,
        length-write_at 10 (0 ∷ 0 ∷ []) pkt,
        get_or-write_at 10 i (sum / 256 ∷ sum % 256 ∷ []) cleared,
        get_or-write_at 10 i (0 ∷ 0 ∷ []) pkt,
      )

  module _ (h : IpHeader) (old new : Addr) where
    pub length-fix_transport : length (fix_transport h old new pkt) ≡ length pkt
    unfolding fix_transport
    length-fix_transport = elim (Option-cases h.l4_off) [
      | inl e ↦ ground arith
      | inr (o, e) ↦ elim (Option-cases (l4_checksum_offset h.l4_proto)) [
        | inl f ↦ ground arith
        | inr (co, f) ↦
            let v = checksum_delta (be16 pkt (o + co)) (as_bytes old) (as_bytes new) in
            ground (arith, length-write_at (o + co) (v / 256 ∷ v % 256 ∷ []) pkt)
      ]
    ]

    -- Nothing before the transport header changes.
    pub fix_transport_before :
        (i : ℕ)
        → i < length pkt
        → ((o : ℕ) → h.l4_off ≡ some o → i < o)
        → byte_at (fix_transport h old new pkt) i ≡ byte_at pkt i
    unfolding fix_transport
    fix_transport_before i inside before = elim (Option-cases h.l4_off) [
      | inl e ↦ ground arith
      | inr (o, e) ↦
          let early = before o e in
          elim (Option-cases (l4_checksum_offset h.l4_proto)) [
            | inl f ↦ ground arith
            | inr (co, f) ↦
                let v = checksum_delta (be16 pkt (o + co)) (as_bytes old) (as_bytes new) in
                ground (arith, get_or-write_at (o + co) i (v / 256 ∷ v % 256 ∷ []) pkt)
          ]
    ]

-- Where `rewriteAddr` succeeds: the packet keeps its length, reads the new address at the place of
-- the old one, and keeps every other byte in front of the transport header, but for the two of the
-- IPv4 header checksum.
pub record IsRewritten (h : IpHeader) (to_dst : Bool) (new : Addr) (pkt pkt' : List ℕ)
    : Type 0 where
  pub same_length : length pkt' ≡ length pkt
  pub address :
      (j : ℕ) → j < width h → byte_at pkt' (edge_off h to_dst + j) ≡ get_or (as_bytes new) j 0
  pub others :
      (i : ℕ)
      → i < h.dst_off + width h
      → (h.is_v4 ≡ true → (i ≢ 10) × (i ≢ 11))
      → (i < edge_off h to_dst) ⊎ (edge_off h to_dst + width h ≤ i)
      → byte_at pkt' i ≡ byte_at pkt i

module _ (pkt : List ℕ) (h : IpHeader) (p : IsParsed pkt h) (to_dst : Bool) (new : Addr) where
  written : List ℕ
  written = write_at (edge_off h to_dst) (as_bytes new) pkt

  headed : List ℕ
  headed = if h.is_v4 then refresh_header written else written

  length-written : length written ≡ length pkt
  unfolding written
  length-written = length-write_at (edge_off h to_dst) (as_bytes new) pkt

  length-headed : length headed ≡ length pkt
  unfolding headed
  length-headed = ground (arith, length-written, length-refresh_header written)

  headed_other :
      (i : ℕ)
      → i < length pkt
      → (h.is_v4 ≡ true → (i ≢ 10) × (i ≢ 11))
      → byte_at headed i ≡ byte_at written i
  unfolding headed
  headed_other i inside spared = elim (Bool-cases h.is_v4) [
    | inl four ↦
        let (h10, h11) = spared four in
        ground
          (arith, length-written, refresh_header_other written i (rw length-written inside) h10 h11)
    | inr six ↦ ground arith
  ]

  result : List ℕ
  result = fix_transport h (edge_addr h to_dst) new headed

  result_byte :
      (i : ℕ)
      → i < h.dst_off + width h
      → (h.is_v4 ≡ true → (i ≢ 10) × (i ≢ 11))
      → byte_at result i ≡ byte_at written i
  unfolding result
  result_byte i early spared =
      fix_transport_before headed h (edge_addr h to_dst) new i
        (rw length-headed (omega (arith, p.dst_fits))) (λ o e. omega (arith, p.transport o e))
      ∙ headed_other i (omega (arith, p.dst_fits)) spared

  edge_in :
      (edge_off h to_dst + width h ≤ h.dst_off + width h)
      × (h.is_v4 ≡ true → 12 ≤ edge_off h to_dst)
  edge_in = (ground (arith, p.adjacent), λ four. ground (arith, p.adjacent, p.behind_sum four))

  result-IsRewritten : length (as_bytes new) ≡ width h → IsRewritten h to_dst new pkt result
  result-IsRewritten size = record {
    same_length =
        unfold result in length-fix_transport headed h (edge_addr h to_dst) new ∙ length-headed;
    address = λ j small.
        result_byte (edge_off h to_dst + j) (omega (arith, edge_in.0))
          (λ four. let far = edge_in.1 four in (omega arith, omega arith))
        ∙ (unfold written in
            ground (
              arith,
              edge_in.0,
              p.dst_fits,
              get_or-write_at (edge_off h to_dst) (edge_off h to_dst + j) (as_bytes new) pkt,
            ));
    others = λ i early spared aside.
        result_byte i early spared
        ∙ (unfold written in
            ground (arith, p.dst_fits, get_or-write_at (edge_off h to_dst) i (as_bytes new) pkt));
  }

  rewrite_addr-result : rewrite_addr h pkt to_dst new ≡ (result, true)
  unfolding rewrite_addr result headed written
  rewrite_addr-result = ground (arith, edge_in.0, p.dst_fits)

module _ (pkt : List ℕ) (h : IpHeader) (p : IsParsed pkt h) (four : h.is_v4 ≡ true) (to_dst : Bool)
    (new : Addr) where
  -- The version and the header length stay.
  pub written_first : byte_at (write_at (edge_off h to_dst) (as_bytes new) pkt) 0 ≡ byte_at pkt 0
  written_first = ground (
    arith,
    (edge_in pkt h p to_dst new).1 four,
    p.dst_fits,
    get_or-write_at (edge_off h to_dst) 0 (as_bytes new) pkt,
  )

  pub rewrite_addr-v4 :
      (rewrite_addr h pkt to_dst new).0
      ≡ fix_transport h
          (edge_addr h to_dst)
          new
          (refresh_header (write_at (edge_off h to_dst) (as_bytes new) pkt))
  unfolding result headed written
  rewrite_addr-v4 = ap (λ r. r.0) (rewrite_addr-result pkt h p to_dst new) ∙ ground arith

-- Rewriting an address of a parsed packet succeeds for an address of the packet's version; the
-- result has the same length and that address, and up to the end of the addresses no other byte
-- is changed but those of the IPv4 checksum.
pub rewrite_addr-IsRewritten :
    (fuel : ℕ) (pkt : List ℕ) (h : IpHeader) (to_dst : Bool) (new : Addr)
    → parse_header fuel pkt ≡ ok h
    → length (as_bytes new) ≡ width h
    → ((rewrite_addr h pkt to_dst new).1 ≡ true)
      × IsRewritten h to_dst new pkt (rewrite_addr h pkt to_dst new).0
rewrite_addr-IsRewritten fuel pkt h to_dst new parsed size =
    let p = parse_header-IsParsed fuel pkt h parsed in
    rw (rewrite_addr-result pkt h p to_dst new) (refl, result-IsRewritten pkt h p to_dst new size)
