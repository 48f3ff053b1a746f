-- ===== src/Sites/Check.antt =====
-- `validateRouteSet` (internal/webapp/agents.go), with the panics of `netip.MustParsePrefix`.
use selfremote.Common.{
  Bool, false, ◌||◌, String, str_eq, List, [], ◌∷◌, Option, none, some, if◌then◌else◌,
}
use selfremote.Net.{Prefix, v4, overlaps}
use selfremote.Net.Bytes.{bytes_eq}
use selfremote.Routes.{AgentRoute, effective}
use selfremote.Sites.{Codec, Site}

pub data Verdict : Type 0 where
  valid invalid panics : Verdict

-- The network of the tunnel, 10.77.0.0/24.
abbrev pub tunnel_net : Prefix
tunnel_net = record { addr = v4 (10 ∷ 77 ∷ 0 ∷ 0 ∷ []); bits = 24 }

abbrev pub go_on : Verdict → Verdict → Verdict
go_on valid rest = rest
go_on invalid rest = invalid
go_on panics rest = panics

abbrev pub seen_text : String → List String → Bool
seen_text s [] = false
seen_text s (x ∷ xs) = str_eq x s || seen_text s xs

abbrev pub is_same_site : Option Site → Site → Bool
is_same_site none o = false
is_same_site (some self) o = bytes_eq o.agent_id self.agent_id

module _ (codec : Codec) where
  -- The loop over another site's routes.
  unfoldable pub clash : Prefix → List AgentRoute → Verdict
  unfolding effective
  clash eff [] = valid
  clash eff (r ∷ rs) =
      let rest = clash eff rs in
      elim (codec.parse_prefix (effective r)) [
        | none ↦ panics
        | some p ↦ if overlaps eff p then invalid else rest
      ]

  unfoldable pub clash_others : Prefix → Option Site → List Site → Verdict
  unfolding clash
  clash_others eff self [] = valid
  clash_others eff self (o ∷ others) =
      let rest = clash_others eff self others in
      if is_same_site self o then rest else go_on (clash eff o.routes) rest

  -- `validateRouteSet(routes, others, self)`, with the texts seen so far.
  unfoldable pub validate_route_set :
      List AgentRoute → List Site → Option Site → List String → Verdict
  unfolding effective clash_others
  validate_route_set [] others self seen = valid
  validate_route_set (r ∷ rs) others self seen = elim (codec.parse_prefix (effective r)) [
    | none ↦ panics
    | some eff ↦
        let rest = validate_route_set rs others self (codec.print eff ∷ seen) in
        if overlaps eff tunnel_net
        then invalid
        else if seen_text (codec.print eff) seen
        then invalid
        else go_on (clash_others eff self others) rest
  ]
