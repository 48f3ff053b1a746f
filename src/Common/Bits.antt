-- ===== src/Common/Bits.antt =====
-- `&` and `|` at variables: the digit of a number, and what the two operations do to it.
use Prim.Native.Nat.{
  ℕ, zero, suc, ◌+◌, ◌-◌, ◌*◌, ◌/◌, ◌%◌, ◌^◌, ◌≤◌, ◌<◌, min, max, bit_and, bit_or, digits,
  bit_and-bitwise, bit_or-bitwise,
}
use mathlib.Core.Path.{◌≡◌, refl, ap, sym, subst, ◌∙◌}
use mathlib.Core.Bool.{Bool, true, ◌&&◌}
use native.Mathlib.Omega.{arith}
use native.Mathlib.Nat.{
  pow-suc, one-le-pow, mod-lt, mod-add-div', add-mul-mod_self_right, mod-eq_of_lt,
}
use selfremote.Common.Tests.{◌==◌, ==_iff, ltb, if◌then◌else◌}

-- Digit `k` of `b`, lowest first.
pub bit : ℕ → ℕ → ℕ
bit b zero = b % 2
bit b (suc k) = bit (b / 2) k

pub bit-le-one : (b k : ℕ) → bit b k ≤ 1
unfolding bit
bit-le-one b zero = omega arith
bit-le-one b (suc k) = bit-le-one (b / 2) k

-- Fuel beyond the first operand changes nothing.
module _ (z : ℕ → ℕ) (f : ℕ → ℕ → ℕ) where
  one_more : (a b fuel : ℕ) → a ≤ fuel → digits z f (suc fuel) a b ≡ digits z f fuel a b
  one_more zero b zero enough = refl
  one_more zero b (suc fuel) enough = refl
  one_more (suc a) b zero enough = absurd (omega arith)
  one_more (suc a) b (suc fuel) enough =
      omega (arith, one_more (suc a / 2) (b / 2) fuel (omega arith))

  spare : (extra fuel a b : ℕ) → a ≤ fuel → digits z f (extra + fuel) a b ≡ digits z f fuel a b
  spare zero fuel a b enough = ap (λ n. digits z f n a b) (omega arith)
  spare (suc extra) fuel a b enough =
      let next : suc extra + fuel ≡ suc (extra + fuel) = omega arith in
      ap (λ n. digits z f n a b) next
      ∙ (one_more a b (extra + fuel) (omega arith) ∙ spare extra fuel a b enough)

  -- The fuel left behind the lowest digit.
  halved : (a b : ℕ) → digits z f a (suc a / 2) b ≡ digits z f (suc a / 2) (suc a / 2) b
  halved a b =
      let whole : a - suc a / 2 + suc a / 2 ≡ a = omega arith in
      subst (λ n. digits z f n (suc a / 2) b ≡ digits z f (suc a / 2) (suc a / 2) b) whole
        (spare (a - suc a / 2) (suc a / 2) (suc a / 2) b (omega arith))

bit_and-halves : (a b : ℕ) → bit_and a b ≡ bit_and (a / 2) (b / 2) * 2 + min (a % 2) (b % 2)
bit_and-halves zero b = omega (arith, bit_and-bitwise 0 (b / 2), bit_and-bitwise 0 b)
bit_and-halves (suc a) b =
    let low = halved (λ _. zero) min a (b / 2) in
    omega (arith, low, bit_and-bitwise (suc a / 2) (b / 2), bit_and-bitwise (suc a) b)

bit_or-halves : (a b : ℕ) → bit_or a b ≡ bit_or (a / 2) (b / 2) * 2 + max (a % 2) (b % 2)
bit_or-halves zero b = omega (arith, bit_or-bitwise 0 (b / 2), bit_or-bitwise 0 b)
bit_or-halves (suc a) b =
    let low = halved (λ y. y) max a (b / 2) in
    omega (arith, low, bit_or-bitwise (suc a / 2) (b / 2), bit_or-bitwise (suc a) b)

pub bit-bit_or : (a b k : ℕ) → bit (bit_or a b) k ≡ max (bit a k) (bit b k)
unfolding bit
bit-bit_or a b zero = omega (arith, bit_or-halves a b)
bit-bit_or a b (suc k) =
    let half : bit_or a b / 2 ≡ bit_or (a / 2) (b / 2) = omega (arith, bit_or-halves a b) in
    rw half (bit-bit_or (a / 2) (b / 2) k)

digits-zero : (fuel a : ℕ) → digits (λ _. zero) min fuel a 0 ≡ 0
digits-zero zero zero = refl
digits-zero zero (suc a) = refl
digits-zero (suc fuel) zero = refl
digits-zero (suc fuel) (suc a) = omega (arith, digits-zero fuel (suc a / 2))

pub bit_and-zero : (a : ℕ) → bit_and a 0 ≡ 0
bit_and-zero a = bit_and-bitwise a 0 ∙ digits-zero a a

-- `x & (1 << k)`
pub bit_and-pow : (k b : ℕ) → bit_and b (2 ^ k) ≡ bit b k * 2 ^ k
unfolding bit
bit_and-pow zero b = omega (arith, bit_and-halves b 1, bit_and-zero (b / 2))
bit_and-pow (suc k) b =
    let p : 2 ^ suc k ≡ 2 ^ k * 2 = pow-suc 2 k in
    let h : (2 ^ k * 2) / 2 ≡ 2 ^ k = omega arith in
    rw p (rw (bit_and-halves b (2 ^ k * 2)) (rw h (rw (bit_and-pow k (b / 2)) (omega arith))))

double_bit : (x k : ℕ) → bit (x * 2) (suc k) ≡ bit x k
unfolding bit
double_bit x k = let e : (x * 2) / 2 ≡ x = omega arith in rw e

-- A left shift by `s`.
pub bit-shift : (s a k : ℕ) → bit (a * 2 ^ s) k ≡ (if ltb k s then 0 else bit a (k - s))
unfolding bit
bit-shift zero a k = let e : a * 2 ^ 0 ≡ a = omega arith in rw e (ground arith)
bit-shift (suc s) a zero = let p : 2 ^ suc s ≡ 2 ^ s * 2 = pow-suc 2 s in rw p (ground arith)
bit-shift (suc s) a (suc k) =
    let p : a * 2 ^ suc s ≡ (a * 2 ^ s) * 2 = grind (arith, pow-suc 2 s) in
    rw p (rw double_bit (rw (bit-shift s a k) (ground arith)))

pub bit-zero : (k : ℕ) → bit 0 k ≡ 0
unfolding bit
bit-zero zero = refl
bit-zero (suc k) = bit-zero k

half_mod : (a m : ℕ) → 0 < m → (a % (m * 2)) / 2 ≡ a / 2 % m
half_mod a m h =
    let q = a / (m * 2) in
    let r = a % (m * 2) in
    let small : r < m * 2 = mod-lt a (omega arith) in
    let whole : a / 2 ≡ r / 2 + q * m = omega (arith, mod-add-div' a (m * 2)) in
    rw whole (rw (add-mul-mod_self_right (r / 2) q m) (sym (mod-eq_of_lt (omega arith))))

-- Truncation to `n` digits.
pub bit-mod : (n a k : ℕ) → bit (a % 2 ^ n) k ≡ (if ltb k n then bit a k else 0)
unfolding bit
bit-mod zero a k = let e : a % 2 ^ 0 ≡ 0 = omega arith in rw e (ground (arith, bit-zero k))
bit-mod (suc n) a zero = let p : 2 ^ suc n ≡ 2 ^ n * 2 = pow-suc 2 n in rw p (ground arith)
bit-mod (suc n) a (suc k) =
    let p : 2 ^ suc n ≡ 2 ^ n * 2 = pow-suc 2 n in
    let q : (a % (2 ^ n * 2)) / 2 ≡ a / 2 % 2 ^ n =
      half_mod a (2 ^ n) (one-le-pow n 2 (omega arith)) in
    rw p (rw q (rw (bit-mod n (a / 2) k) (ground arith)))

-- A single one.
pub bit-one : (k : ℕ) → bit 1 k ≡ (if k == 0 then 1 else 0)
unfolding bit
bit-one zero = refl
bit-one (suc k) = ground (arith, bit-zero k)

-- A property of every number below `n`, by evaluation.
unfoldable pub all_below : ℕ → (ℕ → Bool) → Bool
all_below zero p = true
all_below (suc n) p = p n && all_below n p

-- A table that is all true is true at each of its places.
pub all_below_sound : (n : ℕ) (p : ℕ → Bool) (x : ℕ) → all_below n p ≡ true → x < n → p x ≡ true
unfolding all_below
all_below_sound zero p x table inside = absurd (omega arith)
all_below_sound (suc n) p x table inside =
    let earlier = all_below_sound n p x in ground (arith, earlier)

-- `b & 0x0f` on a byte.
pub low_nibble : (b : ℕ) → b < 256 → bit_and b 0x0f ≡ b % 16
unfolding all_below
low_nibble b h =
    (==_iff _ (b % 16)).0 (all_below_sound 256 (λ x. bit_and x 0x0f == x % 16) b refl h)
