-- ===== src/Routes/Blocks.antt =====
-- The allocation of a virtual prefix: what it gives is free, and it fails only when nothing is.
use selfremote.Common.{
  ℕ, zero, suc, ◌+◌, ◌-◌, ◌*◌, ◌^◌, ◌≤◌, ◌<◌, ◌≡◌, refl, ap, sym, subst, arith, true, false, ◌||◌,
  List, none, some, ltb, if◌then◌else◌, Bool-cases, Option-cases, inl, inr, ◌⊎◌, ◌∙◌, all_below,
  all_below_sound,
}
use native.Mathlib.Nat.{mul-le-mul_left}
use selfremote.Net.{Prefix, masked}
use selfremote.Routes.{
  overlaps_any, reserved_prefixes, candidate, is_free, find_block, block_fuel, alloc_virtual_prefix,
}

-- Free of the prefixes used, and of the reserved ones.
pub record IsFree (v : Prefix) (used : List Prefix) : Type 0 where
  pub of_used : overlaps_any v used ≡ false
  pub of_reserved : overlaps_any v reserved_prefixes ≡ false

pub find_block-IsFree :
    (fuel bits off : ℕ) (used : List Prefix) (v : Prefix)
    → find_block fuel bits off used ≡ some v
    → IsFree v used × (v.bits ≡ bits)
unfolding find_block masked
find_block-IsFree zero bits off used v e = cc
find_block-IsFree (suc fuel) bits off used v e = elim (Bool-cases (ltb off (2 ^ 16))) [
  | inr over ↦ absurd (ground (arith, over))
  | inl inside ↦ elim (Bool-cases (is_free (candidate bits off) used)) [
    | inl free ↦
        let here : candidate bits off ≡ v = ground (arith, inside, free) in
        let took : IsFree (candidate bits off) used = record {
          of_used = ground (arith, free);
          of_reserved = ground (arith, free);
        } in
        subst (λ w. IsFree w used × (w.bits ≡ bits)) here (took, refl)
    | inr taken ↦
        find_block-IsFree fuel bits (off + 2 ^ (32 - bits)) used v (ground (arith, inside, taken))
  ]
]

-- Every block from `off` on is taken, where the rounds are enough.
find_block-full :
    (fuel bits off : ℕ) (used : List Prefix) (k : ℕ)
    → find_block fuel bits off used ≡ none
    → k < fuel
    → off + k * 2 ^ (32 - bits) < 2 ^ 16
    → is_free (candidate bits (off + k * 2 ^ (32 - bits))) used ≡ false
unfolding find_block
find_block-full zero bits off used k e few inside = absurd (omega arith)
find_block-full (suc fuel) bits off used zero e few inside =
    let same : off ≡ off + 0 * 2 ^ (32 - bits) = omega arith in
    subst (λ o. is_free (candidate bits o) used ≡ false) same
      (elim (Bool-cases (is_free (candidate bits off) used)) [
        | inl free ↦ absurd (ground (arith, inside, free))
        | inr taken ↦ taken
      ])
find_block-full (suc fuel) bits off used (suc j) e few inside =
    let unit = 2 ^ (32 - bits) in
    let next : off + unit + j * unit ≡ off + suc j * unit = grind arith in
    let low : ltb off (2 ^ 16) ≡ true = ground (arith, inside) in
    elim (Bool-cases (is_free (candidate bits off) used)) [
      | inl free ↦ absurd (ground (arith, low, free))
      | inr taken ↦
          subst (λ o. is_free (candidate bits o) used ≡ false) next
            (find_block-full fuel bits (off + unit) used j (ground (arith, low, taken))
              (omega arith) (rw next inside))
    ]

units_table : all_below 29 (λ bits. ltb bits 8 || ltb 15 (2 ^ (32 - bits))) ≡ true
unfolding all_below
units_table = refl

block_size : (bits : ℕ) → 8 ≤ bits → bits ≤ 28 → 16 ≤ 2 ^ (32 - bits)
block_size bits least most =
    let wide =
      all_below_sound 29 (λ b. ltb b 8 || ltb 15 (2 ^ (32 - b))) bits units_table (omega arith) in
    ground (arith, wide)

few_blocks : (unit k : ℕ) → 16 ≤ unit → k * unit < 2 ^ 16 → k < block_fuel
few_blocks unit k big inside =
    let least : k * 16 ≤ k * unit = mul-le-mul_left k big in omega (arith, least)

in_range :
    (real : Prefix) (used : List Prefix) (fuel : ℕ)
    → 8 ≤ real.bits
    → real.bits ≤ 28
    → (if ltb real.bits 8 || ltb 28 real.bits then none else find_block fuel real.bits 0 used)
      ≡ find_block fuel real.bits 0 used
in_range real used fuel least most = ground arith

-- For a prefix of 8 to 28 bits the allocation fails only when every block of the pool overlaps a
-- prefix in use or a reserved one; what it gives otherwise has the length asked for and overlaps
-- none of either.
pub alloc_virtual_prefix_lem :
    (real : Prefix) (used : List Prefix)
    → 8 ≤ real.bits
    → real.bits ≤ 28
    → ((alloc_virtual_prefix real used ≡ none)
        × ((k : ℕ)
            → k * 2 ^ (32 - real.bits) < 2 ^ 16
            → is_free (candidate real.bits (k * 2 ^ (32 - real.bits))) used ≡ false))
      ⊎ ((v : Prefix) × (alloc_virtual_prefix real used ≡ some v)
          × IsFree v used
          × (v.bits ≡ real.bits))
unfolding alloc_virtual_prefix
alloc_virtual_prefix_lem real used least most =
    let same : alloc_virtual_prefix real used ≡ find_block block_fuel real.bits 0 used =
      in_range real used block_fuel least most in
    elim (Option-cases (find_block block_fuel real.bits 0 used)) [
      | inl full ↦ inl (
        same ∙ full,
        λ k inside.
            let few =
              few_blocks (2 ^ (32 - real.bits)) k (block_size real.bits least most) inside in
            let start : 0 + k * 2 ^ (32 - real.bits) ≡ k * 2 ^ (32 - real.bits) = omega arith in
            subst (λ o. is_free (candidate real.bits o) used ≡ false) start
              (find_block-full block_fuel real.bits 0 used k full few (rw start inside)),
      )
      | inr (v, found) ↦
          let (free, long) = find_block-IsFree block_fuel real.bits 0 used v found in
          inr (v, same ∙ found, free, long)
    ]

pub alloc_virtual_prefix-IsFree :
    (real : Prefix) (used : List Prefix) (v : Prefix)
    → alloc_virtual_prefix real used ≡ some v
    → IsFree v used
unfolding alloc_virtual_prefix
alloc_virtual_prefix-IsFree real used v e =
    elim (Bool-cases (ltb real.bits 8 || ltb 28 real.bits)) [
      | inl outside ↦
          let gone : alloc_virtual_prefix real used ≡ none =
            ap (λ b. if b then none else find_block block_fuel real.bits 0 used) outside in
          cc
      | inr inside ↦
          let same : alloc_virtual_prefix real used ≡ find_block block_fuel real.bits 0 used =
            ap (λ b. if b then none else find_block block_fuel real.bits 0 used) inside in
          (find_block-IsFree block_fuel real.bits 0 used v (sym same ∙ e)).0
    ]
