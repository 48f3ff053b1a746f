-- ===== src/Packet/Tests.antt =====
-- Packets to run the parser on, and its theorems at them.
use selfremote.Common.{
  ℕ, zero, suc, ◌+◌, ◌%◌, ◌<◌, ◌≡◌, ◌≢◌, refl, Bool, true, not, List, [], ◌∷◌, ◌++◌, arith, All,
  ◌==◌, ltb, all_below, all_below_sound, ◌&&◌,
}
use selfremote.Net.Bytes.{IsByte}
use selfremote.Packet.{
  ok, hang, IpHeader, parse_header, walk_fuel, byte_at, v4_header, is_option_header,
}
use selfremote.Packet.Checksum.{checksum_delta}
use selfremote.Packet.Checksum.Laws.{checksum_delta-keeps, word_sum}
use selfremote.Packet.Walk.{IsTrap, parse_header-hang, parse_header-ends}
use selfremote.Packet.Bounds.{IsParsed, parse_header-IsParsed}

abbrev pub all_octets : List ℕ → Bool
all_octets [] = true
all_octets (x ∷ xs) = ltb x 256 && all_octets xs

pub all_octets_sound : (xs : List ℕ) → all_octets xs ≡ true → All IsByte xs
all_octets_sound [] h = tt
all_octets_sound (x ∷ xs) h = (ground arith, all_octets_sound xs (ground arith))

abbrev zeros : ℕ → List ℕ
zeros zero = []
zeros (suc n) = 0 ∷ zeros n

-- UDP from 10.0.0.1 to 10.0.0.2.
abbrev pub datagram : List ℕ
datagram =
    0x45 ∷ 0 ∷ 0 ∷ 28 ∷ 0 ∷ 0 ∷ 0 ∷ 0 ∷ 64 ∷ 17 ∷ 0 ∷ 0 ∷ 10 ∷ 0 ∷ 0 ∷ 1 ∷ 10 ∷ 0 ∷ 0 ∷ 2 ∷ 0 ∷ 1
    ∷ 0 ∷ 2 ∷ 0 ∷ 8 ∷ 0xab ∷ 0xcd ∷ []

abbrev pub datagram_header : IpHeader
datagram_header = v4_header datagram 20

pub datagram_parsed : parse_header 0 datagram ≡ ok datagram_header
unfolding parse_header
datagram_parsed = refl

-- An IPv6 header, then hop-by-hop options of the length given.
abbrev options : ℕ → List ℕ
options len = 0x60 ∷ (zeros 39 ++ (0 ∷ len ∷ zeros 6))

parse_header-hang_example : parse_header 1000 (options 255) ≡ hang
parse_header-hang_example =
    parse_header-hang 1000 (options 255) (omega arith) refl (unfold is_option_header in refl)
      (record { inside = omega arith; wraps = refl; again = unfold is_option_header in refl })

free_byte : ℕ → Bool
free_byte off = not (byte_at (options 0) (off + 1) % 256 == 255)

options_free : (off : ℕ) → ¬ IsTrap (options 0) off
unfolding free_byte all_below
options_free off t =
    let low : off < 48 = omega (arith, t.inside) in
    ground (arith, t.wraps, all_below_sound 48 free_byte off refl low)

parse_header-ends_example : parse_header (walk_fuel (options 0)) (options 0) ≢ hang
parse_header-ends_example = parse_header-ends (options 0) options_free

parse_header-IsParsed_example : IsParsed datagram datagram_header
parse_header-IsParsed_example = parse_header-IsParsed 0 datagram datagram_header datagram_parsed

checksum_delta-keeps_example :
    (checksum_delta 0xabcd (10 ∷ 0 ∷ 0 ∷ 2 ∷ []) (192 ∷ 168 ∷ 1 ∷ 2 ∷ [])
        + word_sum (192 ∷ 168 ∷ 1 ∷ 2 ∷ []))
      % 0xffff
    ≡ (0xabcd + word_sum (10 ∷ 0 ∷ 0 ∷ 2 ∷ [])) % 0xffff
checksum_delta-keeps_example =
    checksum_delta-keeps 0xabcd (10 ∷ 0 ∷ 0 ∷ 2 ∷ []) (192 ∷ 168 ∷ 1 ∷ 2 ∷ []) (omega arith)
      (all_octets_sound (10 ∷ 0 ∷ 0 ∷ 2 ∷ []) refl) (all_octets_sound (192 ∷ 168 ∷ 1 ∷ 2 ∷ []) refl)
      refl refl (omega arith)
