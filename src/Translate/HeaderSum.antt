-- ===== src/Translate/HeaderSum.antt =====
-- The IPv4 header checksum after a rewrite is right.
use selfremote.Common.{
  ℕ, zero, suc, ◌+◌, ◌*◌, ◌/◌, ◌%◌, ◌^◌, ◌≤◌, ◌<◌, ◌≡◌, ◌≢◌, refl, ap, ◌∙◌, List, [], ◌∷◌, arith,
  length, take, length-take, All, low_nibble,
}
use selfremote.Net.Bytes.{IsByte}
use selfremote.Packet.{byte_at, header_length}
use selfremote.Packet.Checksum.{word, ones_complement, complement, add_words}
use selfremote.Packet.Checksum.Laws.{
  word_sum, add_words-eq, word_sum-le, complement-mod, complement-le, complement-eq-zero,
  ones_complement-eq,
}
use selfremote.Translate.{refresh_header}
use selfremote.Translate.Edit.{write_at, get_or-write_at, write_at-IsByte}

take-IsByte : (n : ℕ) (xs : List ℕ) → All IsByte xs → All IsByte (take n xs)
take-IsByte zero xs h = tt
take-IsByte (suc n) [] h = tt
take-IsByte (suc n) (x ∷ xs) h = (h.0, take-IsByte n xs h.1)

-- The later of two writes of two bytes at one place stays.
write_at_twice :
    (off a b c d : ℕ) (pkt : List ℕ)
    → write_at off (a ∷ b ∷ []) (write_at off (c ∷ d ∷ []) pkt) ≡ write_at off (a ∷ b ∷ []) pkt
unfolding write_at
write_at_twice off a b c d [] = refl
write_at_twice zero a b c d (x ∷ []) = refl
write_at_twice zero a b c d (x ∷ y ∷ []) = refl
write_at_twice zero a b c d (x ∷ y ∷ z ∷ pkt) = refl
write_at_twice (suc off) a b c d (x ∷ pkt) = ap (λ r. x ∷ r) (write_at_twice off a b c d pkt)

-- A word written at an even place adds its value to the sum of words.
word_sum-write_at :
    (off n a b : ℕ) (pkt : List ℕ)
    → off % 2 ≡ 0
    → off + 2 ≤ n
    → n ≤ length pkt
    → word_sum (take n (write_at off (a ∷ b ∷ []) pkt))
      ≡ word_sum (take n (write_at off (0 ∷ 0 ∷ []) pkt)) + word a b
unfolding word_sum write_at
word_sum-write_at off n a b [] even inside fits = absurd (omega arith)
word_sum-write_at off n a b (x ∷ []) even inside fits = absurd (omega arith)
word_sum-write_at off zero a b (x ∷ y ∷ pkt) even inside fits = absurd (omega arith)
word_sum-write_at off (suc zero) a b (x ∷ y ∷ pkt) even inside fits = absurd (omega arith)
word_sum-write_at zero (suc (suc n)) a b (x ∷ y ∷ []) even inside fits = omega arith
word_sum-write_at zero (suc (suc n)) a b (x ∷ y ∷ z ∷ pkt) even inside fits = omega arith
word_sum-write_at (suc zero) (suc (suc n)) a b (x ∷ y ∷ pkt) even inside fits = absurd (omega arith)
word_sum-write_at (suc (suc off)) (suc (suc n)) a b (x ∷ y ∷ pkt) even inside fits =
    omega (arith, word_sum-write_at off n a b pkt (omega arith) (omega arith) (omega arith))

word_sum_first : (n : ℕ) (xs : List ℕ) → 1 ≤ n → byte_at xs 0 * 256 ≤ word_sum (take n xs)
unfolding word_sum
word_sum_first zero xs h = absurd (omega arith)
word_sum_first (suc n) [] h = omega arith
word_sum_first (suc zero) (x ∷ xs) h = omega arith
word_sum_first (suc (suc n)) (x ∷ []) h = omega arith
word_sum_first (suc (suc n)) (x ∷ y ∷ xs) h = omega arith

pub byte_at-IsByte : (pkt : List ℕ) (i : ℕ) → All IsByte pkt → IsByte (byte_at pkt i)
byte_at-IsByte [] i h = omega arith
byte_at-IsByte (x ∷ pkt) zero h = h.0
byte_at-IsByte (x ∷ pkt) (suc i) h = byte_at-IsByte pkt i h.1

header_length-le : (pkt : List ℕ) → All IsByte pkt → header_length pkt ≤ 60
header_length-le pkt h = omega (arith, low_nibble (byte_at pkt 0) (byte_at-IsByte pkt 0 h))

module _ (pkt : List ℕ) (bytes : All IsByte pkt) (n : ℕ) (least : 20 ≤ n) (most : n ≤ 60)
    (long : n ≤ length pkt) where
  cleared : List ℕ
  cleared = write_at 10 (0 ∷ 0 ∷ []) pkt

  rest_sum : ℕ
  rest_sum = word_sum (take n cleared)

  plain_sum : (xs : List ℕ) → All IsByte xs → add_words 0 (take n xs) ≡ word_sum (take n xs)
  plain_sum xs h =
      let small : 0 + word_sum (take n xs) < 2 ^ 32 =
        omega (arith, word_sum-le (take n xs) (take-IsByte n xs h), length-take {0} n xs) in
      omega (arith, add_words-eq 0 (take n xs) small)

  rest_sum_pos : byte_at pkt 0 ≢ 0 → 0 < rest_sum
  unfolding rest_sum cleared
  rest_sum_pos first =
      let same : byte_at (write_at 10 (0 ∷ 0 ∷ []) pkt) 0 ≡ byte_at pkt 0 =
        ground (arith, get_or-write_at 10 0 (0 ∷ 0 ∷ []) pkt) in
      omega (arith, same, word_sum_first n (write_at 10 (0 ∷ 0 ∷ []) pkt) (omega arith))

  filled : ℕ → List ℕ
  filled c = write_at 10 (c / 256 ∷ c % 256 ∷ []) pkt

  filled-IsByte : (c : ℕ) → c ≤ 0xffff → All IsByte (filled c)
  unfolding filled
  filled-IsByte c small =
      write_at-IsByte 10 (c / 256 ∷ c % 256 ∷ []) pkt (omega arith, (omega arith, tt)) bytes

  filled_sum : (c : ℕ) → word_sum (take n (filled c)) ≡ rest_sum + c
  unfolding filled rest_sum cleared
  filled_sum c =
      omega (arith, word_sum-write_at 10 n (c / 256) (c % 256) pkt refl (omega arith) long)

  cleared_sum : ones_complement (take n cleared) ≡ complement rest_sum
  unfolding rest_sum cleared
  cleared_sum =
      ones_complement-eq (take n cleared)
      ∙ ap complement (
          plain_sum cleared
            (write_at-IsByte 10 (0 ∷ 0 ∷ []) pkt (omega arith, (omega arith, tt)) bytes))

  -- The complement of the other words, written into the checksum field, completes the sum.
  sum_complete : byte_at pkt 0 ≢ 0 → ones_complement (take n (filled (complement rest_sum))) ≡ 0
  sum_complete first =
      ones_complement-eq (take n (filled (complement rest_sum)))
      ∙ ap complement (
          plain_sum (filled (complement rest_sum))
            (filled-IsByte (complement rest_sum) (complement-le rest_sum)))
      ∙ ap complement (filled_sum (complement rest_sum))
      ∙ complement-eq-zero (rest_sum + complement rest_sum) (omega (arith, rest_sum_pos first))
          (omega (arith, complement-mod rest_sum))

  refreshed : header_length pkt ≡ n → refresh_header pkt ≡ filled (complement rest_sum)
  unfolding refresh_header filled cleared
  refreshed e = rw e (
      rw cleared_sum
        (write_at_twice 10 (complement rest_sum / 256) (complement rest_sum % 256) 0 0 pkt))

-- After `refresh_header` the sum over the header is right: the checksum of the whole header, its own
-- field included, is 0. The header is of 20 to 60 bytes, as its length field says.
pub refresh_header-valid :
    (pkt : List ℕ)
    → All IsByte pkt
    → byte_at pkt 0 ≢ 0
    → 20 ≤ header_length pkt
    → header_length pkt ≤ length pkt
    → ones_complement (take (header_length pkt) (refresh_header pkt)) ≡ 0
refresh_header-valid pkt bytes first least long =
    let n = header_length pkt in
    rw (refreshed pkt bytes n least (header_length-le pkt bytes) long refl)
      (sum_complete pkt bytes n least (header_length-le pkt bytes) long first)
