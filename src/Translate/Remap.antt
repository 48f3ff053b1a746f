-- ===== src/Translate/Remap.antt =====
-- `remapAddr` (internal/tunnel/addrmap.go) byte by byte: the leading bits of one address, the
-- rest of another.
use selfremote.Common.{
  ℕ, ◌-◌, ◌+◌, ◌*◌, ◌/◌, ◌%◌, ◌^◌, ◌<◌, ◌≡◌, ◌∙◌, refl, Bool, true, ◌&&◌, List, [], ◌∷◌, arith,
  bit_and, bit_or, leb, ◌==◌, ==_iff, if◌then◌else◌, all_below, all_below_sound,
}
use native.Mathlib.Nat.{
  one-le-pow, mul-add-div_right, div-eq_of_lt, mod-lt, mod-mod, mul-add-mod_self_right,
  div-lt_iff_lt-mul,
}
use selfremote.Net.Bytes.{IsByte}

-- `mask := uint8(0xFF) << uint(8-lo)`
abbrev pub mask_of : ℕ → ℕ
mask_of lo = 0xff * 2 ^ (8 - lo) % 2 ^ 8

-- `(o & mask) | (a &^ mask)`
unfoldable pub mix_byte : ℕ → ℕ → ℕ → ℕ
mix_byte lo a o = bit_or (bit_and o (mask_of lo)) (bit_and a (0xff - mask_of lo))

-- The three cases of the loop's `switch`; `bits` is `lo`, which falls by 8 with each byte.
unfoldable pub remap_bytes : ℕ → List ℕ → List ℕ → List ℕ
remap_bytes bits (a ∷ as') (o ∷ os) =
    (if leb 8 bits then o else if bits == 0 then a else mix_byte bits a o)
    ∷ remap_bytes (bits - 8) as' os
remap_bytes bits _ _ = []

-- At every cut of a byte the masks are a quotient and a remainder, and `|` joins the two.
abbrev splits_byte : ℕ → ℕ → Bool
splits_byte lo b =
    let unit = 2 ^ (8 - lo) in
    bit_and b (mask_of lo) == b / unit * unit
    && bit_and b (0xff - mask_of lo) == b % unit
    && bit_or (b / unit * unit) (b % unit) == b

splits_table : all_below 8 (λ lo. all_below 256 (splits_byte lo)) ≡ true
unfolding all_below
splits_table = refl

splits_all : (lo b : ℕ) → lo < 8 → b < 256 → splits_byte lo b ≡ true
splits_all lo b hl hb =
    all_below_sound 256 (splits_byte lo) b
      (all_below_sound 8 (λ l. all_below 256 (splits_byte l)) lo splits_table hl) hb

units_table : all_below 8 (λ lo. 2 ^ lo * 2 ^ (8 - lo) == 256) ≡ true
unfolding all_below
units_table = refl

module _ (lo a o : ℕ) (cut : lo < 8) (ha : IsByte a) (ho : IsByte o) where
  unit_pos : 0 < 2 ^ (8 - lo)
  unit_pos = one-le-pow (8 - lo) 2 (omega arith)

  joined : ℕ
  joined = o / 2 ^ (8 - lo) * 2 ^ (8 - lo) + a % 2 ^ (8 - lo)

  joined-div : joined / 2 ^ (8 - lo) ≡ o / 2 ^ (8 - lo)
  unfolding joined
  joined-div =
      mul-add-div_right unit_pos (o / 2 ^ (8 - lo)) (a % 2 ^ (8 - lo))
      ∙ omega (arith, div-eq_of_lt (mod-lt a unit_pos))

  joined-mod : joined % 2 ^ (8 - lo) ≡ a % 2 ^ (8 - lo)
  unfolding joined
  joined-mod =
      mul-add-mod_self_right (o / 2 ^ (8 - lo)) (2 ^ (8 - lo)) (a % 2 ^ (8 - lo))
      ∙ mod-mod a (2 ^ (8 - lo))

  joined-IsByte : IsByte joined
  unfolding joined
  joined-IsByte =
      let whole : 2 ^ lo * 2 ^ (8 - lo) ≡ 256 =
        (==_iff _ 256).0 (all_below_sound 8 (λ l. 2 ^ l * 2 ^ (8 - l) == 256) lo units_table cut) in
      let few : o / 2 ^ (8 - lo) < 2 ^ lo = (div-lt_iff_lt-mul unit_pos).1 (omega (arith, whole)) in
      let small : a % 2 ^ (8 - lo) < 2 ^ (8 - lo) = mod-lt a unit_pos in grind arith

  mix_byte-joined : mix_byte lo a o ≡ joined
  unfolding mix_byte
  mix_byte-joined = ground (
    arith,
    joined-div,
    joined-mod,
    splits_all lo o cut ho,
    splits_all lo a cut ha,
    splits_all lo joined cut joined-IsByte,
  )

  -- The mixed byte has the quotient of `o` and the remainder of `a`.
  pub mix_byte-div : mix_byte lo a o / 2 ^ (8 - lo) ≡ o / 2 ^ (8 - lo)
  mix_byte-div = rw mix_byte-joined joined-div

  pub mix_byte-mod : mix_byte lo a o % 2 ^ (8 - lo) ≡ a % 2 ^ (8 - lo)
  mix_byte-mod = rw mix_byte-joined joined-mod

  pub mix_byte-IsByte : IsByte (mix_byte lo a o)
  mix_byte-IsByte = rw mix_byte-joined joined-IsByte
