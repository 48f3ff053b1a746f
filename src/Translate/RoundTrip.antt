-- ===== src/Translate/RoundTrip.antt =====
-- Translation of addresses: into the other prefix, and back to where it came from.
use selfremote.Common.{
  ℕ, ◌≡◌, ap, sym, subst, refl, ◌/◌, ◌-◌, ◌*◌, ◌^◌, true, List, [], ◌∷◌, arith, length, All,
}
use selfremote.Net.{Addr, invalid, v4, v6, Prefix, is4, contains, masked, as_bytes}
use selfremote.Net.Bytes.{IsByte, match_bits, mask_bits}
use selfremote.Translate.{remap_addr}
use selfremote.Translate.Remap.{remap_bytes}
use selfremote.Translate.Addresses.{remap_bytes-match, remap_bytes-back}
use native.Mathlib.Nat.{mul-div_left, one-le-pow}

-- Four bytes or sixteen.
abbrev pub IsAddr : Addr → Type 0
IsAddr invalid = ⊥
IsAddr (v4 b) = (length b ≡ 4) × All IsByte b
IsAddr (v6 b) = (length b ≡ 16) × All IsByte b

mask_bits-IsByte : (bits : ℕ) (xs : List ℕ) → All IsByte xs → All IsByte (mask_bits bits xs)
unfolding mask_bits
mask_bits-IsByte bits [] h = tt
mask_bits-IsByte bits (x ∷ xs) h = (ground arith, mask_bits-IsByte (bits - 8) xs h.1)

length-mask_bits : (bits : ℕ) (xs : List ℕ) → length (mask_bits bits xs) ≡ length xs
unfolding mask_bits
length-mask_bits bits [] = refl
length-mask_bits bits (x ∷ xs) = omega (arith, length-mask_bits (bits - 8) xs)

cleared-div : (x k : ℕ) → x / 2 ^ k * 2 ^ k / 2 ^ k ≡ x / 2 ^ k
cleared-div x k = mul-div_left (x / 2 ^ k) (one-le-pow k 2 (omega arith))

match_bits-mask :
    (bits : ℕ) (xs ys : List ℕ) → match_bits bits (mask_bits bits xs) ys ≡ match_bits bits xs ys
unfolding match_bits mask_bits
match_bits-mask bits [] ys = refl
match_bits-mask bits (x ∷ xs) [] = refl
match_bits-mask bits (x ∷ xs) (y ∷ ys) =
    ground (arith, cleared-div x (8 - bits), match_bits-mask (bits - 8) xs ys)

module _ (bits : ℕ) (a r v : List ℕ) (ha : All IsByte a) (hr : All IsByte r)
    (hv : All IsByte v) where
  bytes_inside :
      length a ≡ length r → match_bits bits r (remap_bytes bits a (mask_bits bits r)) ≡ true
  bytes_inside same = rw (← match_bits-mask) (
      remap_bytes-match bits a (mask_bits bits r) (rw length-mask_bits same) ha
        (mask_bits-IsByte bits r hr))

  bytes_back :
      length a ≡ length r
      → length v ≡ length a
      → match_bits bits v a ≡ true
      → remap_bytes bits (remap_bytes bits a (mask_bits bits r)) (mask_bits bits v) ≡ a
  bytes_back same_r same_v inside =
      remap_bytes-back bits a (mask_bits bits r) (mask_bits bits v) (rw length-mask_bits same_r)
        (rw length-mask_bits same_v) ha (mask_bits-IsByte bits r hr) (mask_bits-IsByte bits v hv)
        (rw match_bits-mask inside)

abbrev Back : Addr → ℕ → Addr → Addr → Type 0
Back a bits r v =
    let real : Prefix = record { addr = r; bits = bits } in
    let virtual : Prefix = record { addr = v; bits = bits } in
    (contains real (remap_addr a virtual real) ≡ true)
    × (remap_addr (remap_addr a virtual real) real virtual ≡ a)

remap_addr-Back :
    (a : Addr) (bits : ℕ) (r v : Addr)
    → IsAddr a
    → IsAddr r
    → IsAddr v
    → is4 r ≡ is4 v
    → contains (record { addr = v; bits = bits }) a ≡ true
    → Back a bits r v
unfolding remap_addr contains masked as_bytes is4
remap_addr-Back (v4 a) bits (v4 r) (v4 v) ha hr hv family inside = (
  bytes_inside bits a r v ha.1 hr.1 hv.1 (omega arith),
  ap v4 (bytes_back bits a r v ha.1 hr.1 hv.1 (omega arith) (omega arith) inside),
)
remap_addr-Back (v6 a) bits (v6 r) (v6 v) ha hr hv family inside = (
  bytes_inside bits a r v ha.1 hr.1 hv.1 (omega arith),
  ap v6 (bytes_back bits a r v ha.1 hr.1 hv.1 (omega arith) (omega arith) inside),
)
remap_addr-Back invalid bits r v ha hr hv family inside = absurd ha
remap_addr-Back (v4 a) bits invalid v ha hr hv family inside = absurd hr
remap_addr-Back (v4 a) bits (v4 r) invalid ha hr hv family inside = absurd hv
remap_addr-Back (v4 a) bits (v4 r) (v6 v) ha hr hv family inside = cc
remap_addr-Back (v4 a) bits (v6 r) invalid ha hr hv family inside = absurd hv
remap_addr-Back (v4 a) bits (v6 r) (v4 v) ha hr hv family inside = cc
remap_addr-Back (v4 a) bits (v6 r) (v6 v) ha hr hv family inside = cc
remap_addr-Back (v6 a) bits invalid v ha hr hv family inside = absurd hr
remap_addr-Back (v6 a) bits (v4 r) invalid ha hr hv family inside = absurd hv
remap_addr-Back (v6 a) bits (v4 r) (v4 v) ha hr hv family inside = cc
remap_addr-Back (v6 a) bits (v4 r) (v6 v) ha hr hv family inside = cc
remap_addr-Back (v6 a) bits (v6 r) invalid ha hr hv family inside = absurd hv
remap_addr-Back (v6 a) bits (v6 r) (v4 v) ha hr hv family inside = cc

-- An address of the virtual prefix, translated, lies in the real prefix, and translating it back
-- gives the address again; the two prefixes are of one family and have one length.
pub remap_addr-back :
    (real virtual : Prefix) (a : Addr)
    → real.bits ≡ virtual.bits
    → is4 real.addr ≡ is4 virtual.addr
    → IsAddr a
    → IsAddr real.addr
    → IsAddr virtual.addr
    → contains virtual a ≡ true
    → (contains real (remap_addr a virtual real) ≡ true)
      × (remap_addr (remap_addr a virtual real) real virtual ≡ a)
remap_addr-back real virtual a same_bits family ha hr hv inside =
    subst
      (λ bits.
        (contains (record { addr = real.addr; bits = bits })
            (remap_addr a virtual (record { addr = real.addr; bits = bits }))
          ≡ true)
        × (remap_addr (remap_addr a virtual (record { addr = real.addr; bits = bits }))
              (record { addr = real.addr; bits = bits }) virtual
            ≡ a))
      (sym same_bits) (remap_addr-Back a virtual.bits real.addr virtual.addr ha hr hv family inside)
