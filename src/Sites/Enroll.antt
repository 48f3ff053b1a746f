-- ===== src/Sites/Enroll.antt =====
-- The enrolment of a site's machine (internal/webapp/enroll.go), and the requests that change single
-- sites: this, and the posts on the pages of sites.
use selfremote.Common.{
  ℕ, ◌*◌, ◌^◌, Bool, not, ◌&&◌, String, List, [], ◌∷◌, ◌++◌, Option, none, some, ltb, ◌==◌,
  if◌then◌else◌, length,
}
use selfremote.Auth.{trim_space}
use selfremote.Throttle.{Throttle, allowed, note_try}
use selfremote.Routes.{AgentRoute}
use selfremote.Sites.{
  Site, Sites, Codec, World, Reply, throttled, bad_request, forbidden, conflict, failed,
  unavailable, done, change, sync, pending_site, site_by_code,
}
use selfremote.Sites.Forms.{normalize_install_code, parse_agent_routes}
use selfremote.Sites.Create.{SiteForm, handle_agent_create, assign}
use selfremote.Sites.Handle.{
  Post, PackageForm, handle_agent_new_code, handle_agent_state, handle_agent_kick,
  handle_agent_rotate_mfa, handle_agent_revoke, handle_agent_package, handle_route_mode, bind,
}

-- `newEnrollLimiter`: twenty wrong codes of an address in an hour.
abbrev pub enroll_limiter : Throttle
enroll_limiter = record { tries = []; window = 3600 * 10 ^ 9; most = 20 }

-- The body of the request as JSON gives it.
pub record EnrollRequest : Type 0 where
  pub code : List ℕ
  pub public_key : List ℕ
  pub routes : List (List ℕ)

-- `strings.Join(..., "\n")`
abbrev pub join_lines : List (List ℕ) → List ℕ
join_lines [] = []
join_lines (line ∷ []) = line
join_lines (line ∷ l ∷ lines) = line ++ (10 ∷ join_lines (l ∷ lines))

module _ (codec : Codec) where
  -- From the machine's key on: the site takes it, and the answer is made up.
  abbrev pub answered : World → Sites → Option Sites → Sites × Reply
  answered w t none = (t, conflict)
  answered w t (some t') = (
    sync w t',
    if not w.hub_key then unavailable else if w.server_addr then done else unavailable,
  )

  abbrev pub take_key : World → ℕ → List ℕ → Sites → Sites × Reply
  take_key w id key t = answered w t (bind codec w id (codec.encode_base64 key) t)

  -- A failure to store the prefixes is logged only.
  abbrev pub store_routes : World → ℕ → List ℕ → Sites → Option (List AgentRoute) → Sites × Reply
  store_routes w id key t none = (t, conflict)
  store_routes w id key t (some routes) =
      take_key w id key (if w.second_ok then change id (λ s. record s { routes = routes }) t else t)

  abbrev pub reported : World → ℕ → List ℕ → Sites → Option (List AgentRoute) → Sites × Reply
  reported w id key t none = (t, bad_request)
  reported w id key t (some []) = (t, bad_request)
  reported w id key t (some (r ∷ rs)) =
      store_routes w id key t (assign codec w t (some id) (r ∷ rs))

  -- The prefixes of the site, or those that the machine reports.
  abbrev pub use_routes :
      World → EnrollRequest → ℕ → List ℕ → Sites → List AgentRoute → Sites × Reply
  use_routes w q id key t (r ∷ rs) = take_key w id key t
  use_routes w q id key t [] = reported w id key t (parse_agent_routes codec (join_lines q.routes))

  abbrev pub on_code : World → EnrollRequest → String → List ℕ → Sites → Option Site → Sites × Reply
  on_code w q ip key t none = (record t { limiter = note_try t.limiter ip w.now }, forbidden)
  on_code w q ip key t (some s) =
      if not (s.enroll_expires == 0) && ltb s.enroll_expires w.now
      then (t, forbidden)
      else use_routes w q s.id key t s.routes

  abbrev pub on_key : World → EnrollRequest → String → Sites → Option (List ℕ) → Sites × Reply
  on_key w q ip t none = (t, bad_request)
  on_key w q ip t (some key) =
      if not (length key == 32)
      then (t, bad_request)
      else if not w.found_ok
      then (t, failed)
      else on_code w q ip key t (pending_site codec (normalize_install_code q.code) t.rows)

  abbrev pub on_body : World → String → Sites → Option EnrollRequest → Sites × Reply
  on_body w ip t none = (t, bad_request)
  on_body w ip t (some q) = on_key w q ip t (codec.decode_base64 (trim_space q.public_key))

  -- `handleEnroll` from an address; `none` is a body that is not the JSON.
  unfoldable pub handle_enroll : World → String → Option EnrollRequest → Sites → Sites × Reply
  unfolding allowed note_try normalize_install_code site_by_code parse_agent_routes assign change
      bind sync
  handle_enroll w ip body t =
      let (limiter, fine) = allowed t.limiter ip w.now in
      let counted = record t { limiter = limiter } in
      if fine then on_body w ip counted body else (counted, throttled)

-- The posts on the pages of sites, and the enrolment of a machine. The first registration, which imports
-- the pre-provisioned sites, is another.
pub data Request : Type 0 where
  create : Post → SiteForm → Request
  new_code : Post → List ℕ → Request
  set_state : Post → List ℕ → Bool → Request
  kick_site : Post → List ℕ → Request
  rotate_mfa : Post → List ℕ → Request
  revoke_site : Post → List ℕ → Request
  build_package : Post → List ℕ → PackageForm → Request
  route_mode : Post → String → Request
  enroll : String → Option EnrollRequest → Request

-- The server's routing of a request to its handler.
unfoldable pub serve : Codec → World → Request → Sites → Sites × Reply
unfolding handle_agent_create handle_agent_new_code handle_agent_state handle_agent_kick
    handle_agent_rotate_mfa handle_agent_revoke handle_agent_package handle_route_mode handle_enroll
serve codec w (create p f) t = handle_agent_create codec w p f t
serve codec w (new_code p id) t = handle_agent_new_code codec w p id t
serve codec w (set_state p id enable) t = handle_agent_state codec w p id enable t
serve codec w (kick_site p id) t = handle_agent_kick codec w p id t
serve codec w (rotate_mfa p id) t = handle_agent_rotate_mfa codec w p id t
serve codec w (revoke_site p id) t = handle_agent_revoke codec w p id t
serve codec w (build_package p id f) t = handle_agent_package codec w p id f t
serve codec w (route_mode p mode) t = handle_route_mode codec w p mode t
serve codec w (enroll ip body) t = handle_enroll codec w ip body t
