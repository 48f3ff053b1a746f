-- ===== src/Translate/Route.antt =====
-- `RouteMap` and `ParseRouteMap` (internal/tunnel/addrmap.go). The parser of prefixes is Go's
-- `netip.ParsePrefix`, a parameter.
use selfremote.Common.{
  Bool, true, false, not, Option, none, some, String, str_eq, ◌==◌, if◌then◌else◌,
}
use selfremote.Net.{Prefix, is4, masked, prefix_eq}

pub record RouteMap : Type 0 where
  pub real : Prefix
  pub virtual : Prefix

unfoldable pub is_identity : RouteMap → Bool
is_identity m = prefix_eq m.real m.virtual

-- `a == b` on Booleans.
abbrev pub same : Bool → Bool → Bool
same true b = b
same false b = not b

-- `ParseRouteMap(real, virtual)`; `none` is an error.
unfoldable pub parse_route_map : (String → Option Prefix) → String → String → Option RouteMap
parse_route_map parse_prefix real virtual = elim (parse_prefix real) [
  | none ↦ none
  | some rp ↦
      if str_eq virtual ""
      then some (record { real = masked rp; virtual = masked rp })
      else elim (parse_prefix virtual) [
        | none ↦ none
        | some vp ↦
            if not (same (is4 (masked rp).addr) (is4 (masked vp).addr))
            then none
            else if not ((masked rp).bits == (masked vp).bits)
            then none
            else some (record { real = masked rp; virtual = masked vp })
      ]
]
