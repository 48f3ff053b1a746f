-- ===== src/Translate/Edit.antt =====
-- Writes into a packet (`copy`, `PutUint16`), and what a later read sees.
use selfremote.Common.{
  ℕ, zero, suc, ◌+◌, ◌-◌, ◌/◌, ◌%◌, ◌<◌, ◌≡◌, refl, ap, List, [], ◌∷◌, arith, ltb, leb,
  if◌then◌else◌, length, get_or, ◌&&◌, All,
}
use selfremote.Net.Bytes.{IsByte}

-- `copy(pkt[off:], bytes)`; what does not fit is cut off.
unfoldable pub write_at : ℕ → List ℕ → List ℕ → List ℕ
write_at off bytes [] = []
write_at zero [] (x ∷ pkt) = x ∷ pkt
write_at zero (b ∷ bytes) (x ∷ pkt) = b ∷ write_at zero bytes pkt
write_at (suc off) bytes (x ∷ pkt) = x ∷ write_at off bytes pkt

-- binary.BigEndian.PutUint16(pkt[off:], v)
abbrev pub put16 : ℕ → ℕ → List ℕ → List ℕ
put16 off v pkt = write_at off (v / 256 ∷ v % 256 ∷ []) pkt

pub length-write_at : (off : ℕ) (bytes pkt : List ℕ) → length (write_at off bytes pkt) ≡ length pkt
unfolding write_at
length-write_at off bytes [] = refl
length-write_at zero [] (x ∷ pkt) = refl
length-write_at zero (b ∷ bytes) (x ∷ pkt) = ap suc (length-write_at zero bytes pkt)
length-write_at (suc off) bytes (x ∷ pkt) = ap suc (length-write_at off bytes pkt)

-- A read inside the write sees it, any other read what was there.
pub get_or-write_at :
    (off i : ℕ) (bytes pkt : List ℕ)
    → i < length pkt
    → get_or (write_at off bytes pkt) i 0 ≡ (
        if leb off i && ltb i (off + length bytes)
        then get_or bytes (i - off) 0
        else get_or pkt i 0)
unfolding write_at
get_or-write_at off i bytes [] h = absurd (omega arith)
get_or-write_at zero i [] (x ∷ pkt) h = ground arith
get_or-write_at zero zero (b ∷ bytes) (x ∷ pkt) h = ground arith
get_or-write_at zero (suc i) (b ∷ bytes) (x ∷ pkt) h =
    ground (arith, get_or-write_at zero i bytes pkt (omega arith))
get_or-write_at (suc off) zero bytes (x ∷ pkt) h = ground arith
get_or-write_at (suc off) (suc i) bytes (x ∷ pkt) h =
    ground (arith, get_or-write_at off i bytes pkt (omega arith))

pub write_at-IsByte :
    (off : ℕ) (bytes pkt : List ℕ)
    → All IsByte bytes
    → All IsByte pkt
    → All IsByte (write_at off bytes pkt)
unfolding write_at
write_at-IsByte off bytes [] hb hp = tt
write_at-IsByte zero [] (x ∷ pkt) hb hp = hp
write_at-IsByte zero (b ∷ bytes) (x ∷ pkt) hb hp = (hb.0, write_at-IsByte zero bytes pkt hb.1 hp.1)
write_at-IsByte (suc off) bytes (x ∷ pkt) hb hp = (hp.0, write_at-IsByte off bytes pkt hb hp.1)
