-- ===== src/Translate/Tests.antt =====
-- The translation theorems at a concrete packet and a concrete map.
use selfremote.Common.{◌≡◌, refl, true, [], ◌∷◌, take}
use selfremote.Net.{Addr, v4, Prefix, is4, contains, as_bytes}
use selfremote.Net.Bytes.{match_bits}
use selfremote.Packet.{header_length}
use selfremote.Packet.Checksum.{ones_complement}
use selfremote.Packet.Tests.{all_octets_sound, datagram, datagram_header, datagram_parsed}
use selfremote.Translate.{remap_addr, rewrite_addr}
use selfremote.Translate.Frame.{IsRewritten, rewrite_addr-IsRewritten}
use selfremote.Translate.HeaderValid.{rewrite_addr-valid}
use selfremote.Translate.RoundTrip.{remap_addr-back}

-- 10.201.7.0/24 stands for 192.168.1.0/24.
abbrev real : Prefix
real = record { addr = v4 (192 ∷ 168 ∷ 1 ∷ 0 ∷ []); bits = 24 }

abbrev virtual : Prefix
virtual = record { addr = v4 (10 ∷ 201 ∷ 7 ∷ 0 ∷ []); bits = 24 }

abbrev host : Addr
host = v4 (10 ∷ 201 ∷ 7 ∷ 33 ∷ [])

abbrev target_host : Addr
target_host = v4 (192 ∷ 168 ∷ 1 ∷ 33 ∷ [])

host_inside : contains virtual host ≡ true
unfolding contains match_bits
host_inside = refl

remap_addr-back_example :
    (contains real (remap_addr host virtual real) ≡ true)
    × (remap_addr (remap_addr host virtual real) real virtual ≡ host)
remap_addr-back_example =
    remap_addr-back real virtual host refl (unfold is4 in refl)
      (refl, all_octets_sound (10 ∷ 201 ∷ 7 ∷ 33 ∷ []) refl)
      (refl, all_octets_sound (192 ∷ 168 ∷ 1 ∷ 0 ∷ []) refl)
      (refl, all_octets_sound (10 ∷ 201 ∷ 7 ∷ 0 ∷ []) refl) host_inside

rewrite_addr-IsRewritten_example :
    ((rewrite_addr datagram_header datagram true target_host).1 ≡ true)
    × IsRewritten datagram_header true target_host datagram
        (rewrite_addr datagram_header datagram true target_host).0
rewrite_addr-IsRewritten_example =
    rewrite_addr-IsRewritten 0 datagram datagram_header true target_host datagram_parsed
      (unfold as_bytes in refl)

rewrite_addr-valid_example :
    ones_complement
      (take (header_length datagram) (rewrite_addr datagram_header datagram true target_host).0)
    ≡ 0
rewrite_addr-valid_example =
    rewrite_addr-valid 0 datagram datagram_header true target_host datagram_parsed refl
      (all_octets_sound datagram refl)
      (unfold as_bytes in all_octets_sound (192 ∷ 168 ∷ 1 ∷ 33 ∷ []) refl)
