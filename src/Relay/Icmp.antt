-- ===== src/Relay/Icmp.antt =====
-- The answer to a ping of the server's own address (internal/tunnel/relay.go, `replyLocalICMP`).
use selfremote.Common.{
  ℕ, ◌+◌, ◌/◌, ◌%◌, ◌^◌, not, ◌&&◌, List, [], ◌∷◌, ◌++◌, Option, none, some, ltb, ◌==◌,
  if◌then◌else◌, length, take, drop,
}
use selfremote.Net.{as_bytes}
use selfremote.Packet.{IpHeader, byte_at}
use selfremote.Packet.Checksum.{ones_complement}
use selfremote.Translate.Edit.{write_at, put16}

-- binary.BigEndian.PutUint32
abbrev pub be32 : ℕ → List ℕ
be32 n = n / 2 ^ 24 % 256 ∷ n / 2 ^ 16 % 256 ∷ n / 2 ^ 8 % 256 ∷ n % 256 ∷ []

-- Source and destination swapped.
abbrev pub swapped : List ℕ → IpHeader → List ℕ
swapped pkt h = write_at h.dst_off (as_bytes h.src) (write_at h.src_off (as_bytes h.dst) pkt)

unfoldable pub echo_reply_v4 : List ℕ → IpHeader → ℕ → List ℕ
echo_reply_v4 pkt h l4 =
    let cleared = write_at (l4 + 2) (0 ∷ 0 ∷ []) (write_at l4 (0 ∷ []) (swapped pkt h)) in
    let summed = put16 (l4 + 2) (ones_complement (drop l4 cleared)) cleared in
    let bare = write_at 10 (0 ∷ 0 ∷ []) summed in put16 10 (ones_complement (take l4 bare)) bare

unfoldable pub echo_reply_v6 : List ℕ → IpHeader → ℕ → List ℕ
echo_reply_v6 pkt h l4 =
    let cleared = write_at (l4 + 2) (0 ∷ 0 ∷ []) (write_at l4 (129 ∷ []) (swapped pkt h)) in
    let body = drop l4 cleared in
    let pseudo =
      as_bytes h.dst ++ (as_bytes h.src ++ (be32 (length body) ++ (0 ∷ 0 ∷ 0 ∷ 58 ∷ body))) in
    put16 (l4 + 2) (ones_complement pseudo) cleared

-- The reply, or `none` where the packet is no echo request.
unfoldable pub echo_reply : List ℕ → IpHeader → Option (List ℕ)
unfolding echo_reply_v4 echo_reply_v6
echo_reply pkt h = elim h.l4_off [
  | none ↦ none
  | some l4 ↦
      if ltb (length pkt) (l4 + 8)
      then none
      else if h.is_v4 && h.l4_proto == 1 && byte_at pkt l4 == 8
      then some (echo_reply_v4 pkt h l4)
      else if not h.is_v4 && h.l4_proto == 58 && byte_at pkt l4 == 128
      then some (echo_reply_v6 pkt h l4)
      else none
]
