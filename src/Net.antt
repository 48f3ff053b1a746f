-- ===== src/Net.antt =====
-- What the program uses of Go's net/netip: addresses, prefixes, `Contains`, `Masked`, `Overlaps`.
-- An address is its bytes, most significant first: four of them or sixteen. Zones are left out.
pub mod Bytes
pub mod Laws
use selfremote.Common.{
  ℕ, ◌-◌, Bool, true, false, ◌&&◌, List, [], ◌∷◌, leb, ◌==◌, if◌then◌else◌, min,
}
use Bytes.{bytes_eq, match_bits, mask_bits}

-- `invalid` is the zero `netip.Addr`.
pub data Addr : Type 0 where
  invalid : Addr
  v4 : List ℕ → Addr
  v6 : List ℕ → Addr

unfoldable pub is_valid : Addr → Bool
is_valid invalid = false
is_valid (v4 _) = true
is_valid (v6 _) = true

unfoldable pub is4 : Addr → Bool
is4 invalid = false
is4 (v4 _) = true
is4 (v6 _) = false

-- `==` on addresses.
unfoldable pub addr_eq : Addr → Addr → Bool
unfolding bytes_eq
addr_eq invalid invalid = true
addr_eq (v4 a) (v4 b) = bytes_eq a b
addr_eq (v6 a) (v6 b) = bytes_eq a b
addr_eq _ _ = false

-- `As4` and `As16` of an address of that family.
unfoldable pub as_bytes : Addr → List ℕ
as_bytes invalid = []
as_bytes (v4 a) = a
as_bytes (v6 a) = a

pub record Prefix : Type 0 where
  pub addr : Addr
  pub bits : ℕ

unfoldable pub prefix_eq : Prefix → Prefix → Bool
unfolding addr_eq
prefix_eq p q = addr_eq p.addr q.addr && p.bits == q.bits

abbrev pub contains_addr : Addr → ℕ → Addr → Bool
contains_addr invalid bits a = false
contains_addr (v4 p) bits (v4 a) = match_bits bits p a
contains_addr (v6 p) bits (v6 a) = match_bits bits p a
contains_addr _ bits _ = false

-- `p.Contains(a)`
unfoldable pub contains : Prefix → Addr → Bool
contains p a = contains_addr p.addr p.bits a

abbrev pub masked_addr : Addr → ℕ → Addr
masked_addr invalid bits = invalid
masked_addr (v4 a) bits = v4 (mask_bits bits a)
masked_addr (v6 a) bits = v6 (mask_bits bits a)

-- `p.Masked()`
unfoldable pub masked : Prefix → Prefix
masked p = record { addr = masked_addr p.addr p.bits; bits = p.bits }

-- `p.Overlaps(q)`: the two agree on the shorter length.
unfoldable pub overlaps : Prefix → Prefix → Bool
overlaps p q = contains_addr p.addr (min p.bits q.bits) q.addr
