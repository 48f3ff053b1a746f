-- ===== src/Routes.antt =====
-- Which prefixes a site publishes (internal/webapp/routes.go): the allocation of virtual prefixes and
-- `assignRoutesPure`. Parsing and printing of prefixes are Go's net/netip, parameters.
pub mod Blocks
pub mod Apart
mod Tests
use selfremote.Common.{
  ℕ, zero, suc, ◌+◌, ◌-◌, ◌*◌, ◌^◌, Bool, true, false, not, ◌&&◌, ◌||◌, String, str_eq, List, [],
  ◌∷◌, ◌++◌, Option, none, some, ltb, if◌then◌else◌,
}
use selfremote.Net.{Prefix, v4, masked, overlaps}
use selfremote.Relay.Icmp.{be32}

pub data RouteMode : Type 0 where
  mode_auto mode_real mode_virtual : RouteMode

-- `normalizeRouteMode`
unfoldable pub normalize_route_mode : String → RouteMode
normalize_route_mode v =
    if str_eq v "real" then mode_real else if str_eq v "virtual" then mode_virtual else mode_auto

pub record AgentRoute : Type 0 where
  pub real : String
  pub virtual : String

-- `r.Effective()`
unfoldable pub effective : AgentRoute → String
effective r = if str_eq r.virtual "" then r.real else r.virtual

-- 10.201.0.0
abbrev pub virtual_pool_base : ℕ
virtual_pool_base = 10 * 2 ^ 24 + 201 * 2 ^ 16

abbrev pub reserved_prefixes : List Prefix
reserved_prefixes = record { addr = v4 (10 ∷ 77 ∷ 0 ∷ 0 ∷ []); bits = 24 } ∷ []

abbrev pub pool_prefixes : List Prefix
pool_prefixes = record { addr = v4 (10 ∷ 201 ∷ 0 ∷ 0 ∷ []); bits = 16 } ∷ []

unfoldable pub overlaps_any : Prefix → List Prefix → Bool
overlaps_any p [] = false
overlaps_any p (q ∷ qs) = overlaps p q || overlaps_any p qs

-- The block of the pool at `off`.
abbrev pub candidate : ℕ → ℕ → Prefix
candidate bits off = masked (record { addr = v4 (be32 (virtual_pool_base + off)); bits = bits })

abbrev pub is_free : Prefix → List Prefix → Bool
is_free cand used = not (overlaps_any cand used) && not (overlaps_any cand reserved_prefixes)

-- The loop over the blocks, with its rounds as fuel; `off` stays far below 2 ^ 32.
unfoldable pub find_block : ℕ → ℕ → ℕ → List Prefix → Option Prefix
find_block zero bits off used = none
find_block (suc fuel) bits off used =
    let rest = find_block fuel bits (off + 2 ^ (32 - bits)) used in
    if ltb off (2 ^ 16)
    then (if is_free (candidate bits off) used then some (candidate bits off) else rest)
    else none

-- The smallest block is of sixteen addresses: at most 4096 rounds, and the last test.
abbrev pub block_fuel : ℕ
block_fuel = 4097

-- `allocVirtualPrefix`; `none` is an error.
unfoldable pub alloc_virtual_prefix : Prefix → List Prefix → Option Prefix
alloc_virtual_prefix real used =
    if ltb real.bits 8 || ltb 28 real.bits then none else find_block block_fuel real.bits 0 used

abbrev pub is_real_mode : RouteMode → Bool
is_real_mode mode_real = true
is_real_mode mode_auto = false
is_real_mode mode_virtual = false

-- `wantVirtual`
abbrev pub wants_virtual : RouteMode → Bool → Bool
wants_virtual mode_virtual conflict = true
wants_virtual mode_auto conflict = conflict
wants_virtual mode_real conflict = false

module _ (parse_prefix : String → Option Prefix) (print : Prefix → String) where
  -- A mapping given by hand.
  unfoldable pub assign_manual : List Prefix → Prefix → String → Option (AgentRoute × Prefix)
  assign_manual used p virtual = elim (parse_prefix virtual) [
    | none ↦ none
    | some v ↦
        if overlaps_any v used || overlaps_any v reserved_prefixes
        then none
        else some (record { real = print p; virtual = print v }, v)
  ]

  unfoldable pub assign_by_mode : RouteMode → List Prefix → Prefix → Option (AgentRoute × Prefix)
  assign_by_mode mode used p =
      let reserved = overlaps_any p reserved_prefixes || overlaps_any p pool_prefixes in
      let conflict = reserved || overlaps_any p used in
      if is_real_mode mode && conflict
      then none
      else if wants_virtual mode conflict
      then (elim (alloc_virtual_prefix p (used ++ (p ∷ []))) [
        | none ↦ none
        | some v ↦ some (record { real = print p; virtual = print v }, v)
      ])
      else some (record { real = print p; virtual = "" }, p)

  -- The body of the loop: the mapping handed out and the prefix it takes; `none` is an error.
  unfoldable pub assign_route : RouteMode → List Prefix → AgentRoute → Option (AgentRoute × Prefix)
  unfolding assign_manual assign_by_mode
  assign_route mode used rt = elim (parse_prefix rt.real) [
    | none ↦ none
    | some p ↦
        if str_eq rt.virtual "" then assign_by_mode mode used p else assign_manual used p rt.virtual
  ]

  -- `assignRoutesPure`
  unfoldable pub assign_routes :
      RouteMode → List AgentRoute → List Prefix → Option (List AgentRoute)
  assign_routes mode [] used = some []
  assign_routes mode (rt ∷ reals) used = elim (assign_route mode used rt) [
    | none ↦ none
    | some (r, v) ↦ elim (assign_routes mode reals (used ++ (v ∷ []))) [
      | none ↦ none
      | some rest ↦ some (r ∷ rest)
    ]
  ]
