-- ===== src/Packet/Checksum/Laws.antt =====
-- The checksum against sums of words modulo 0xffff.
use selfremote.Common.{
  ℕ, ◌+◌, ◌-◌, ◌*◌, ◌/◌, ◌%◌, ◌^◌, ◌≤◌, ◌<◌, ◌≡◌, refl, arith, List, [], ◌∷◌, length, All,
}
use selfremote.Common.Order.{lt_wf}
use selfremote.Net.Bytes.{IsByte}
use selfremote.Packet.Checksum.{
  word, add_words, fold_carry, complement, ones_complement, add_deltas, checksum_delta,
}
use mathlib.Core.WellFounded.{Acc}

-- The words of a byte string added up as numbers.
unfoldable pub word_sum : List ℕ → ℕ
word_sum [] = 0
word_sum (x ∷ []) = x * 256
word_sum (x ∷ y ∷ rest) = word x y + word_sum rest

carry_mod : (sum : ℕ) → (sum / 2 ^ 16 + sum % 2 ^ 16) % 0xffff ≡ sum % 0xffff
carry_mod sum = omega arith

fold_carry-le : (sum : ℕ) (w : Acc ◌<◌ sum) → fold_carry sum w ≤ 0xffff
unfolding fold_carry
fold_carry-le sum (Acc.intro _ smaller) = grind (
  arith,
  λ (p : sum / 2 ^ 16 + sum % 2 ^ 16 < sum).
      fold_carry-le (sum / 2 ^ 16 + sum % 2 ^ 16) (smaller _ p),
)

fold_carry-mod : (sum : ℕ) (w : Acc ◌<◌ sum) → fold_carry sum w % 0xffff ≡ sum % 0xffff
unfolding fold_carry
fold_carry-mod sum (Acc.intro _ smaller) = grind (
  arith,
  carry_mod sum,
  λ (p : sum / 2 ^ 16 + sum % 2 ^ 16 < sum).
      fold_carry-mod (sum / 2 ^ 16 + sum % 2 ^ 16) (smaller _ p),
)

fold_carry_pos : (sum : ℕ) (w : Acc ◌<◌ sum) → 0 < sum → 0 < fold_carry sum w
unfolding fold_carry
fold_carry_pos sum (Acc.intro _ smaller) h = grind (
  arith,
  λ (p : sum / 2 ^ 16 + sum % 2 ^ 16 < sum).
      fold_carry_pos (sum / 2 ^ 16 + sum % 2 ^ 16) (smaller _ p),
)

pub ones_complement-eq : (b : List ℕ) → ones_complement b ≡ complement (add_words 0 b)
unfolding ones_complement
ones_complement-eq b = refl

pub complement-le : (sum : ℕ) → complement sum ≤ 0xffff
unfolding complement
complement-le sum = omega arith

pub complement-mod : (sum : ℕ) → (complement sum + sum) % 0xffff ≡ 0
unfolding complement
complement-mod sum =
    let w = lt_wf.apply sum in omega (arith, fold_carry-le sum w, fold_carry-mod sum w)

-- The sum of a block whose checksum is right.
pub complement-eq-zero : (sum : ℕ) → 0 < sum → sum % 0xffff ≡ 0 → complement sum ≡ 0
unfolding complement
complement-eq-zero sum pos whole =
    let w = lt_wf.apply sum in
    omega (arith, fold_carry-le sum w, fold_carry-mod sum w, fold_carry_pos sum w pos)

pub add_words-eq :
    (sum : ℕ) (b : List ℕ) → sum + word_sum b < 2 ^ 32 → add_words sum b ≡ sum + word_sum b
unfolding add_words word_sum
add_words-eq sum [] h = omega arith
add_words-eq sum (x ∷ []) h = omega arith
add_words-eq sum (x ∷ y ∷ rest) h =
    let fits : (sum + word x y) % 2 ^ 32 ≡ sum + word x y = omega arith in
    rw fits (omega (arith, add_words-eq (sum + word x y) rest (omega arith)))

pub word_sum-le : (b : List ℕ) → All IsByte b → word_sum b ≤ 0x10000 * length b
unfolding word_sum
word_sum-le [] h = omega arith
word_sum-le (x ∷ []) h = omega arith
word_sum-le (x ∷ y ∷ rest) h = omega (arith, word_sum-le rest h.1.1)

add_deltas-eq :
    (sum : ℕ) (old new : List ℕ)
    → All IsByte old
    → All IsByte new
    → length old ≡ length new
    → length old % 2 ≡ 0
    → sum + 0x10000 * length old < 2 ^ 32
    → 2 * (add_deltas sum old new + word_sum old) ≡ 2 * (sum + word_sum new) + 0xffff * length old
unfolding add_deltas word_sum
add_deltas-eq sum [] [] ho hn same even small = omega arith
add_deltas-eq sum [] (c ∷ new) ho hn same even small = absurd (omega arith)
add_deltas-eq sum (a ∷ []) new ho hn same even small = absurd (omega arith)
add_deltas-eq sum (a ∷ b ∷ old) [] ho hn same even small = absurd (omega arith)
add_deltas-eq sum (a ∷ b ∷ old) (c ∷ []) ho hn same even small = absurd (omega arith)
add_deltas-eq sum (a ∷ b ∷ old) (c ∷ d ∷ new) ho hn same even small =
    let next = sum + (0xffff - word a b) + word c d in
    let fits : ((sum + (0xffff - word a b)) % 2 ^ 32 + word c d) % 2 ^ 32 ≡ next = omega arith in
    rw fits (
      omega
        (arith, add_deltas-eq next old new ho.1.1 hn.1.1 (omega arith) (omega arith) (omega arith)))

-- Replacing bytes of a checksummed block by others of the same even length, and the checksum by
-- its incremental update, keeps the sum of checksum and bytes modulo 0xffff, for blocks up to an
-- address's sixteen bytes (any length that the 32-bit sum can hold).
pub checksum_delta-keeps :
    (cur : ℕ) (old new : List ℕ)
    → cur ≤ 0xffff
    → All IsByte old
    → All IsByte new
    → length old ≡ length new
    → length old % 2 ≡ 0
    → length old < 0xffff
    → (checksum_delta cur old new + word_sum new) % 0xffff ≡ (cur + word_sum old) % 0xffff
unfolding checksum_delta
checksum_delta-keeps cur old new small ho hn same even few = omega (
  arith,
  complement-mod (add_deltas (0xffff - cur) old new),
  add_deltas-eq (0xffff - cur) old new ho hn same even (omega arith),
)
