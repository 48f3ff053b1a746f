-- ===== src/Routes/Tests.antt =====
-- Two sites with the same network, and the theorems at them.
use selfremote.Common.{
  ℕ, ◌*◌, ◌-◌, ◌^◌, ◌<◌, ◌≡◌, ◌⊎◌, refl, arith, false, String, str_eq, List, [], ◌∷◌, Option, none,
  some, if◌then◌else◌,
}
use selfremote.Net.{Prefix, v4, overlaps, masked}
use selfremote.Net.Bytes.{match_bits, mask_bits}
use selfremote.Routes.{
  AgentRoute, mode_auto, assign_routes, assign_route, assign_by_mode, alloc_virtual_prefix,
  find_block, overlaps_any, candidate, is_free,
}
use selfremote.Routes.Blocks.{IsFree, alloc_virtual_prefix_lem}
use selfremote.Routes.Apart.{StayApart, assign_routes-StayApart}

abbrev home : Prefix
home = record { addr = v4 (192 ∷ 168 ∷ 1 ∷ 0 ∷ []); bits = 24 }

abbrev parse_prefix : String → Option Prefix
parse_prefix s = if str_eq s "192.168.1.0/24" then some home else none

abbrev print : Prefix → String
print _ = "192.168.1.0/24"

abbrev reals : List AgentRoute
reals = record { real = "192.168.1.0/24"; virtual = "" } ∷ []

abbrev given_out : List AgentRoute
given_out = record { real = "192.168.1.0/24"; virtual = "192.168.1.0/24" } ∷ []

-- The second site is given a virtual prefix.
second_site : assign_routes parse_prefix print mode_auto reals (home ∷ []) ≡ some given_out
unfolding assign_routes assign_route assign_by_mode alloc_virtual_prefix find_block overlaps_any
    overlaps masked match_bits mask_bits
second_site = refl

assign_routes-StayApart_example : StayApart print (home ∷ []) given_out
assign_routes-StayApart_example =
    assign_routes-StayApart parse_prefix print (λ p. refl) mode_auto reals (home ∷ []) given_out
      second_site

alloc_virtual_prefix_lem_example :
    ((alloc_virtual_prefix home (home ∷ []) ≡ none)
      × ((k : ℕ)
          → k * 2 ^ (32 - home.bits) < 2 ^ 16
          → is_free (candidate home.bits (k * 2 ^ (32 - home.bits))) (home ∷ []) ≡ false))
    ⊎ ((v : Prefix) × (alloc_virtual_prefix home (home ∷ []) ≡ some v)
        × IsFree v (home ∷ [])
        × (v.bits ≡ home.bits))
alloc_virtual_prefix_lem_example =
    alloc_virtual_prefix_lem home (home ∷ []) (omega arith) (omega arith)
