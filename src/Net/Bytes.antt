-- ===== src/Net/Bytes.antt =====
-- Byte strings compared and masked by their leading bits.
use selfremote.Common.{
  ℕ, ◌-◌, ◌*◌, ◌/◌, ◌^◌, ◌<◌, ◌≡◌, refl, Bool, true, false, ◌&&◌, List, [], ◌∷◌, arith, leb, ◌==◌,
  if◌then◌else◌,
}

abbrev pub IsByte : ℕ → Type 0
IsByte b = b < 256

unfoldable pub bytes_eq : List ℕ → List ℕ → Bool
bytes_eq [] [] = true
bytes_eq (x ∷ xs) (y ∷ ys) = x == y && bytes_eq xs ys
bytes_eq _ _ = false

-- The first `bits` bits of the two agree.
unfoldable pub match_bits : ℕ → List ℕ → List ℕ → Bool
match_bits bits [] [] = true
match_bits bits (x ∷ xs) (y ∷ ys) =
    let rest = match_bits (bits - 8) xs ys in
    if leb 8 bits then x == y && rest else x / 2 ^ (8 - bits) == y / 2 ^ (8 - bits)
match_bits bits _ _ = false

-- All bits behind the first `bits` are cleared.
unfoldable pub mask_bits : ℕ → List ℕ → List ℕ
mask_bits bits [] = []
mask_bits bits (x ∷ xs) =
    let rest = mask_bits (bits - 8) xs in
    (if leb 8 bits then x else x / 2 ^ (8 - bits) * 2 ^ (8 - bits)) ∷ rest

pub bytes_eq_refl : (xs : List ℕ) → bytes_eq xs xs ≡ true
unfolding bytes_eq
bytes_eq_refl [] = refl
bytes_eq_refl (x ∷ xs) = ground (arith, bytes_eq_refl xs)

pub eq_of_bytes_eq : (xs ys : List ℕ) → bytes_eq xs ys ≡ true → xs ≡ ys
unfolding bytes_eq
eq_of_bytes_eq [] [] h = refl
eq_of_bytes_eq [] (y ∷ ys) h = cc
eq_of_bytes_eq (x ∷ xs) [] h = cc
eq_of_bytes_eq (x ∷ xs) (y ∷ ys) h = ground (arith, eq_of_bytes_eq xs ys)
