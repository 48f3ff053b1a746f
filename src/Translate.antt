-- ===== src/Translate.antt =====
-- Address translation at a site's edge (internal/tunnel/addrmap.go): route maps, `remapAddr`, the
-- rewriting of a packet with its checksums, and the `Translator` that an agent runs.
pub mod Remap
pub mod Addresses
pub mod Route
pub mod Edit
pub mod RoundTrip
pub mod Frame
mod HeaderSum
pub mod HeaderValid
mod Tests
use selfremote.Common.{
  ℕ, ◌+◌, ◌/◌, ◌%◌, Bool, true, false, ◌||◌, ◌&&◌, not, List, [], ◌∷◌, Option, none, some, ltb, leb,
  ◌==◌, if◌then◌else◌, length, take,
}
use selfremote.Net.{Addr, v4, v6, Prefix, is4, addr_eq, as_bytes, contains, masked, prefix_eq}
use selfremote.Packet.{Parse, ok, bad, hang, IpHeader, be16, header_length, parse_header, width}
use selfremote.Packet.Checksum.{ones_complement, checksum_delta}
use Remap.{remap_bytes}
use Edit.{write_at, put16}
use Route.{RouteMap, is_identity, same}

-- `remapAddr(addr, from, to)`
unfoldable pub remap_addr : Addr → Prefix → Prefix → Addr
remap_addr addr from to =
    let bytes = remap_bytes from.bits (as_bytes addr) (as_bytes (masked to).addr) in
    if is4 addr then v4 bytes else v6 bytes

-- `l4ChecksumOffset`: TCP, UDP and ICMPv6; `none` is -1.
unfoldable pub l4_checksum_offset : ℕ → Option ℕ
l4_checksum_offset proto =
    if proto == 6
    then some 16
    else if proto == 17
    then some 6
    else if proto == 58
    then some 2
    else none

-- The header checksum, computed anew over the header with its own field cleared.
unfoldable pub refresh_header : List ℕ → List ℕ
refresh_header pkt =
    let cleared = write_at 10 (0 ∷ 0 ∷ []) pkt in
    put16 10 (ones_complement (take (header_length pkt) cleared)) cleared

-- The transport checksum, updated for the change of the pseudo-header.
unfoldable pub fix_transport : IpHeader → Addr → Addr → List ℕ → List ℕ
fix_transport h old new pkt = elim h.l4_off [
  | none ↦ pkt
  | some l4 ↦ elim (l4_checksum_offset h.l4_proto) [
    | none ↦ pkt
    | some co ↦
        if leb (l4 + co + 2) (length pkt)
        then put16 (l4 + co) (checksum_delta (be16 pkt (l4 + co)) (as_bytes old) (as_bytes new)) pkt
        else pkt
  ]
]

abbrev pub edge_off : IpHeader → Bool → ℕ
edge_off h to_dst = if to_dst then h.dst_off else h.src_off

abbrev pub edge_addr : IpHeader → Bool → Addr
edge_addr h to_dst = if to_dst then h.dst else h.src

-- `h.rewriteAddr(pkt, toDst, newAddr)`: the packet as it is left, and the result.
unfoldable pub rewrite_addr : IpHeader → List ℕ → Bool → Addr → List ℕ × Bool
rewrite_addr h pkt to_dst new =
    if ltb (length pkt) (edge_off h to_dst + width h)
    then (pkt, false)
    else (let written = write_at (edge_off h to_dst) (as_bytes new) pkt in
        let headed = if h.is_v4 then refresh_header written else written in
        (fix_transport h (edge_addr h to_dst) new headed, true))

pub record Translator : Type 0 where
  pub maps : List RouteMap
  pub local_addrs : List Addr

-- The two tests of `NewTranslator` on a map.
abbrev pub is_error : RouteMap → Bool
is_error m =
    not (same (is4 m.real.addr) (is4 m.virtual.addr)) || not (m.real.bits == m.virtual.bits)

any_error : List RouteMap → Bool
any_error [] = false
any_error (m ∷ ms) = is_error m || any_error ms

-- `NewTranslator`; `none` is its error.
unfoldable pub new_translator : List RouteMap → List Addr → Option Translator
unfolding any_error
new_translator maps local =
    if any_error maps then none else some (record { maps = maps; local_addrs = local })

unfoldable pub all_identity : List RouteMap → Bool
all_identity [] = true
all_identity (m ∷ ms) = is_identity m && all_identity ms

-- `t.Empty()`, on a translator that is not nil.
unfoldable pub is_empty : Translator → Bool
unfolding all_identity
is_empty t = all_identity t.maps

unfoldable pub is_local : List Addr → Addr → Bool
is_local [] a = false
is_local (l ∷ ls) a = addr_eq l a || is_local ls a

-- The first map whose prefix on the given side holds the address.
unfoldable pub find_map : Bool → List RouteMap → Addr → Option RouteMap
find_map to_local [] addr = none
find_map to_local (m ∷ ms) addr =
    if contains (if to_local then m.virtual else m.real) addr
    then some m
    else find_map to_local ms addr

abbrev pub target : Bool → RouteMap → Addr → Addr
target to_local m addr =
    if to_local then remap_addr addr m.virtual m.real else remap_addr addr m.real m.virtual

-- A failed rewrite returns no packet.
abbrev pub or_nil : List ℕ × Bool → List ℕ × Bool
or_nil (pkt, done) = if done then (pkt, true) else ([], false)

-- The body of `rewrite` behind the parse. The nil packet is `[]`.
unfoldable pub rewrite_parsed : Translator → List ℕ → Bool → IpHeader → List ℕ × Bool
rewrite_parsed t pkt to_local h =
    let addr = edge_addr h to_local in
    elim t.maps [
      | [] ↦ (pkt, false)
      | _ ∷ _ ↦ elim (find_map to_local t.maps addr) [
        | none ↦ if is_local t.local_addrs addr then (pkt, true) else ([], false)
        | some m ↦
            if addr_eq (target to_local m addr) addr
            then (pkt, true)
            else or_nil (rewrite_addr h pkt to_local (target to_local m addr))
      ]
    ]

-- `t.rewrite`: `to_local` for `ToLocal`, otherwise `ToTunnel`.
unfoldable pub rewrite : ℕ → Translator → List ℕ → Bool → Parse (List ℕ × Bool)
rewrite fuel t pkt to_local = elim (parse_header fuel pkt) [
  | ok h ↦ ok (rewrite_parsed t pkt to_local h)
  | bad ↦ ok ([], false)
  | hang ↦ hang
]

unfoldable pub to_local : ℕ → Translator → List ℕ → Parse (List ℕ × Bool)
unfolding rewrite
to_local fuel t pkt = rewrite fuel t pkt true

unfoldable pub to_tunnel : ℕ → Translator → List ℕ → Parse (List ℕ × Bool)
unfolding rewrite
to_tunnel fuel t pkt = rewrite fuel t pkt false
