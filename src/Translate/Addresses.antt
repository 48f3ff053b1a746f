-- ===== src/Translate/Addresses.antt =====
-- What `remap_bytes` keeps of each of its two addresses.
use selfremote.Common.{
  ℕ, suc, ◌-◌, ◌/◌, ◌%◌, ◌^◌, ◌<◌, ◌≡◌, ap, refl, true, List, [], ◌∷◌, arith, leb, ◌==◌,
  if◌then◌else◌, length, All,
}
use selfremote.Net.Bytes.{IsByte, match_bits}
use selfremote.Translate.Remap.{mix_byte, remap_bytes, mix_byte-div, mix_byte-mod, mix_byte-IsByte}
use native.Mathlib.Decide.{dec_lt}
use native.Mathlib.Nat.{div-add-mod'}

-- One byte of the result: it agrees with `o` in the first `bits` bits, and is a byte.
abbrev pub remap_byte : ℕ → ℕ → ℕ → ℕ
remap_byte bits a o = if leb 8 bits then o else if bits == 0 then a else mix_byte bits a o

module _ (bits a o : ℕ) (ha : IsByte a) (ho : IsByte o) where
  remap_byte-IsByte : IsByte (remap_byte bits a o)
  remap_byte-IsByte = ground (arith, mix_byte-IsByte bits a o)

  remap_byte-div : bits < 8 → remap_byte bits a o / 2 ^ (8 - bits) ≡ o / 2 ^ (8 - bits)
  remap_byte-div h = ground (arith, mix_byte-div bits a o, whole)
    where
      whole : bits ≡ 0 → 2 ^ (8 - bits) ≡ 256
      whole e = rw e

  remap_byte-mod : bits < 8 → remap_byte bits a o % 2 ^ (8 - bits) ≡ a % 2 ^ (8 - bits)
  remap_byte-mod h = ground (arith, mix_byte-mod bits a o, whole)
    where
      whole : bits ≡ 0 → 2 ^ (8 - bits) ≡ 256
      whole e = rw e

-- The quotient and the remainder of a byte determine it.
byte_of_parts : (x y u : ℕ) → x / u ≡ y / u → x % u ≡ y % u → x ≡ y
byte_of_parts x y u d m = ground (arith, div-add-mod' x u, div-add-mod' y u)

pub remap_bytes-match :
    (bits : ℕ) (as' os : List ℕ)
    → length as' ≡ length os
    → All IsByte as'
    → All IsByte os
    → match_bits bits os (remap_bytes bits as' os) ≡ true
unfolding match_bits remap_bytes
remap_bytes-match bits [] [] same ha ho = refl
remap_bytes-match bits [] (o ∷ os) same ha ho = absurd (omega arith)
remap_bytes-match bits (a ∷ as') [] same ha ho = absurd (omega arith)
remap_bytes-match bits (a ∷ as') (o ∷ os) same ha ho = ground (
  arith,
  remap_byte-div bits a o ha.0 ho.0,
  remap_bytes-match (bits - 8) as' os (omega arith) ha.1 ho.1,
)

pub remap_bytes-IsByte :
    (bits : ℕ) (as' os : List ℕ)
    → All IsByte as'
    → All IsByte os
    → All IsByte (remap_bytes bits as' os)
unfolding remap_bytes
remap_bytes-IsByte bits [] os ha ho = tt
remap_bytes-IsByte bits (a ∷ as') [] ha ho = tt
remap_bytes-IsByte bits (a ∷ as') (o ∷ os) ha ho =
    (remap_byte-IsByte bits a o ha.0 ho.0, remap_bytes-IsByte (bits - 8) as' os ha.1 ho.1)

pub length-remap_bytes :
    (bits : ℕ) (as' os : List ℕ)
    → length as' ≡ length os
    → length (remap_bytes bits as' os) ≡ length os
unfolding remap_bytes
length-remap_bytes bits [] [] same = refl
length-remap_bytes bits [] (o ∷ os) same = absurd (omega arith)
length-remap_bytes bits (a ∷ as') [] same = absurd (omega arith)
length-remap_bytes bits (a ∷ as') (o ∷ os) same =
    ap suc (length-remap_bytes (bits - 8) as' os (omega arith))

match_bits-zero :
    (xs ys : List ℕ)
    → length xs ≡ length ys
    → All IsByte xs
    → All IsByte ys
    → match_bits 0 xs ys ≡ true
unfolding match_bits
match_bits-zero [] [] same hx hy = refl
match_bits-zero [] (y ∷ ys) same hx hy = absurd (omega arith)
match_bits-zero (x ∷ xs) [] same hx hy = absurd (omega arith)
match_bits-zero (x ∷ xs) (y ∷ ys) same hx hy = ground arith

-- The tails agree too: on the bits that are left, none if the cut lies in the first byte.
match_bits-tail :
    (bits x y : ℕ) (xs ys : List ℕ)
    → length xs ≡ length ys
    → All IsByte xs
    → All IsByte ys
    → match_bits bits (x ∷ xs) (y ∷ ys) ≡ true
    → match_bits (bits - 8) xs ys ≡ true
unfolding match_bits
match_bits-tail bits x y xs ys same hx hy m = elim (dec_lt bits 8) [
  | yes h ↦
      let none_left : bits - 8 ≡ 0 = omega arith in rw none_left (match_bits-zero xs ys same hx hy)
  | no h ↦ ground arith
]

-- There and back: an address of the prefix `os` comes back from its image under `vs`.
pub remap_bytes-back :
    (bits : ℕ) (as' vs os : List ℕ)
    → length as' ≡ length vs
    → length os ≡ length as'
    → All IsByte as'
    → All IsByte vs
    → All IsByte os
    → match_bits bits os as' ≡ true
    → remap_bytes bits (remap_bytes bits as' vs) os ≡ as'
unfolding match_bits remap_bytes
remap_bytes-back bits [] [] [] same sameo ha hv ho m = refl
remap_bytes-back bits [] (v ∷ vs) os same sameo ha hv ho m = absurd (omega arith)
remap_bytes-back bits (a ∷ as') [] os same sameo ha hv ho m = absurd (omega arith)
remap_bytes-back bits [] [] (o ∷ os) same sameo ha hv ho m = absurd (omega arith)
remap_bytes-back bits (a ∷ as') (v ∷ vs) [] same sameo ha hv ho m = absurd (omega arith)
remap_bytes-back bits (a ∷ as') (v ∷ vs) (o ∷ os) same sameo ha hv ho m =
    let x = remap_byte bits a v in
    let hx = remap_byte-IsByte bits a v ha.0 hv.0 in
    let tails = match_bits-tail bits o a os as' (omega arith) ho.1 ha.1 m in
    ground (
      arith,
      byte_of_parts (remap_byte bits x o) a (2 ^ (8 - bits)),
      remap_byte-div bits x o hx ho.0,
      remap_byte-mod bits x o hx ho.0,
      remap_byte-mod bits a v ha.0 hv.0,
      remap_bytes-back (bits - 8) as' vs os (omega arith) (omega arith) ha.1 hv.1 ho.1 tails,
    )
