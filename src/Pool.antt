-- ===== src/Pool.antt =====
-- The addresses of the tunnel network (internal/webapp/ipalloc.go): `allocIP` on the last byte of
-- 10.77.0.x, which is all that the text of such an address holds.
mod Tests
use selfremote.Common.{
  ℕ, zero, suc, ◌+◌, ◌-◌, ◌≤◌, ◌<◌, ◌≡◌, ◌≢◌, ◌⊎◌, inl, inr, refl, arith, Bool, true, false, List,
  [], ◌∷◌, Option, none, some, if◌then◌else◌, member, ◌==◌, ltb, Bool-cases,
}

abbrev pub client_ip_first : ℕ
client_ip_first = 2

abbrev pub client_ip_last : ℕ
client_ip_last = 99

abbrev pub agent_ip_first : ℕ
agent_ip_first = 100

abbrev pub agent_ip_last : ℕ
agent_ip_last = 254

-- The loop from `i` on, over the addresses left.
unfoldable pub alloc_from : ℕ → List ℕ → ℕ → Option (ℕ × List ℕ)
alloc_from zero in_use i = none
alloc_from (suc left) in_use i =
    let rest = alloc_from left in_use (i + 1) in
    if member i in_use then rest else some (i, i ∷ in_use)

-- `allocIP(inUse, first, last)`: the address and the map with it reserved, or the error.
unfoldable pub alloc_ip : List ℕ → ℕ → ℕ → Option (ℕ × List ℕ)
unfolding alloc_from
alloc_ip in_use first last = alloc_from (last + 1 - first) in_use first

-- The lowest free address of a range, reserved.
pub record IsLowestFree (in_use : List ℕ) (first last : ℕ) (ip : ℕ) (after : List ℕ) : Type 0 where
  pub lower : first ≤ ip
  pub upper : ip ≤ last
  pub free : member ip in_use ≡ false
  pub lowest : (j : ℕ) → first ≤ j → j < ip → member j in_use ≡ true
  pub reserved : after ≡ ip ∷ in_use

alloc_from_cases :
    (left : ℕ) (in_use : List ℕ) (i : ℕ)
    → ((alloc_from left in_use i ≡ none)
        × ((j : ℕ) → i ≤ j → j < i + left → member j in_use ≡ true))
      ⊎ ((ip : ℕ) × (alloc_from left in_use i ≡ some (ip, ip ∷ in_use))
          × (i ≤ ip)
          × (ip < i + left)
          × (member ip in_use ≡ false)
          × ((j : ℕ) → i ≤ j → j < ip → member j in_use ≡ true))
unfolding alloc_from
alloc_from_cases zero in_use i = inl (refl, λ j low high. absurd (omega arith))
alloc_from_cases (suc left) in_use i = elim (Bool-cases (member i in_use)) [
  | inr free ↦
      inr (
        i,
        ground (arith, free),
        omega arith,
        omega arith,
        free,
        λ j low high. absurd (omega arith),
      )
  | inl taken ↦ elim (alloc_from_cases left in_use (i + 1)) [
    | inl (full, all) ↦
        inl (ground (arith, taken, full), λ j low high. ground (arith, taken, all j))
    | inr (ip, found, low, high, free, all) ↦ inr (
      ip,
      ground (arith, taken, found),
      omega arith,
      omega arith,
      free,
      λ j from below. ground (arith, taken, all j),
    )
  ]
]

-- On any range the allocation gives the lowest free address of it, reserved in the map for the
-- next one, or fails when every address of the range is in use.
pub alloc_ip-IsLowestFree :
    (in_use : List ℕ) (first last : ℕ)
    → ((alloc_ip in_use first last ≡ none)
        × ((j : ℕ) → first ≤ j → j ≤ last → member j in_use ≡ true))
      ⊎ ((ip : ℕ) × (after : List ℕ) × (alloc_ip in_use first last ≡ some (ip, after))
          × IsLowestFree in_use first last ip after)
unfolding alloc_ip
alloc_ip-IsLowestFree in_use first last = elim (alloc_from_cases (last + 1 - first) in_use first) [
  | inl (full, all) ↦ inl (full, λ j low high. all j low (omega arith))
  | inr (ip, found, low, high, free, all) ↦ inr (
    ip,
    ip ∷ in_use,
    found,
    record { lower = low; upper = omega arith; free = free; lowest = all; reserved = refl },
  )
]
