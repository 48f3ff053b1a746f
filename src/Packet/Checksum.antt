-- ===== src/Packet/Checksum.antt =====
-- The Internet checksum of addrmap.go: `onesComplement` (RFC 1071) and `checksumDelta` (RFC 1624).
pub mod Laws
use selfremote.Common.{ℕ, ◌+◌, ◌-◌, ◌*◌, ◌/◌, ◌%◌, ◌^◌, ◌<◌, arith, List, [], ◌∷◌}
use selfremote.Common.Order.{lt_wf}
use mathlib.Core.Logic.{dite}
use mathlib.Core.WellFounded.{Acc}
use native.Mathlib.Decide.{dec_lt}

-- A 16-bit word of two bytes.
abbrev pub word : ℕ → ℕ → ℕ
word x y = x * 256 + y

-- The sum of the words in a uint32; an odd last byte is the high half of a word.
unfoldable pub add_words : ℕ → List ℕ → ℕ
add_words sum [] = sum
add_words sum (x ∷ []) = (sum + x * 256) % 2 ^ 32
add_words sum (x ∷ y ∷ rest) = add_words ((sum + word x y) % 2 ^ 32) rest

pub carry_shrinks : (sum : ℕ) → 0xffff < sum → sum / 2 ^ 16 + sum % 2 ^ 16 < sum
carry_shrinks sum h = omega arith

-- `for sum > 0xffff { sum = (sum >> 16) + (sum & 0xffff) }`
unfoldable pub fold_carry : (sum : ℕ) → Acc ◌<◌ sum → ℕ
fold_carry sum (Acc.intro _ smaller) =
    dite (dec_lt 0xffff sum)
      (λ h. fold_carry (sum / 2 ^ 16 + sum % 2 ^ 16) (smaller _ (carry_shrinks sum h))) (λ _. sum)

-- `^uint16(sum)` of the folded sum.
unfoldable pub complement : ℕ → ℕ
unfolding fold_carry lt_wf dec_lt
complement sum = 0xffff - fold_carry sum (lt_wf.apply sum) % 2 ^ 16

unfoldable pub ones_complement : List ℕ → ℕ
unfolding add_words complement
ones_complement b = complement (add_words 0 b)

-- The loop over `oldB` and `newB`, which have the same length.
unfoldable pub add_deltas : ℕ → List ℕ → List ℕ → ℕ
add_deltas sum (a ∷ b ∷ old) (c ∷ d ∷ new) =
    add_deltas (((sum + (0xffff - word a b)) % 2 ^ 32 + word c d) % 2 ^ 32) old new
add_deltas sum _ _ = sum

unfoldable pub checksum_delta : ℕ → List ℕ → List ℕ → ℕ
unfolding add_deltas complement
checksum_delta cur old new = complement (add_deltas (0xffff - cur) old new)
