-- ===== src/Net/Laws.antt =====
-- Equality of addresses as a test, and what stands in a prefix.
use selfremote.Common.{◌≡◌, refl, true}
use selfremote.Net.{Addr, invalid, v4, v6, addr_eq}
use selfremote.Net.Bytes.{bytes_eq_refl, eq_of_bytes_eq}

pub addr_eq_refl : (a : Addr) → addr_eq a a ≡ true
unfolding addr_eq
addr_eq_refl invalid = refl
addr_eq_refl (v4 a) = bytes_eq_refl a
addr_eq_refl (v6 a) = bytes_eq_refl a

pub eq_of_addr_eq : (a b : Addr) → addr_eq a b ≡ true → a ≡ b
unfolding addr_eq
eq_of_addr_eq invalid invalid h = refl
eq_of_addr_eq (v4 a) (v4 b) h = cc (eq_of_bytes_eq a b h)
eq_of_addr_eq (v6 a) (v6 b) h = cc (eq_of_bytes_eq a b h)
eq_of_addr_eq invalid (v4 b) h = cc
eq_of_addr_eq invalid (v6 b) h = cc
eq_of_addr_eq (v4 a) invalid h = cc
eq_of_addr_eq (v4 a) (v6 b) h = cc
eq_of_addr_eq (v6 a) invalid h = cc
eq_of_addr_eq (v6 a) (v4 b) h = cc
