-- ===== src/Sites/Apart.antt =====
-- Every request leaves the sites apart.
use selfremote.Common.{
  ℕ, ◌<◌, ◌≡◌, refl, sym, subst, false, String, str_eq, List, [], ◌∷◌, Option, none, some,
  if◌then◌else◌, if_cases, arith, All, All-weaken,
}
use selfremote.Auth.{trim_space}
use selfremote.Net.{Prefix}
use selfremote.Throttle.{allowed}
use selfremote.Routes.{AgentRoute, overlaps_any, reserved_prefixes}
use selfremote.Sites.{
  Site, Sites, Codec, World, throttled, failed, done, change, delete_site, sync, pending_site,
}
use selfremote.Sites.Forms.{install_code, parse_agent_routes, normalize_install_code}
use selfremote.Sites.Create.{assign}
use selfremote.Sites.Handle.{
  rotate_code, handle_agent_new_code, handle_agent_state, handle_agent_kick, rotate_secret,
  handle_agent_rotate_mfa, handle_agent_revoke, bind, handle_agent_package,
}
use selfremote.Sites.Enroll.{
  EnrollRequest, join_lines, answered, take_key, store_routes, reported, use_routes, on_code,
  on_key, on_body, handle_enroll, Request, create, new_code, set_state, kick_site, rotate_mfa,
  revoke_site, build_package, route_mode, enroll, serve,
}
use selfremote.Sites.Tables.{published, AllFar, IsTable}
use selfremote.Sites.Updates.{OnSome, routes-IsTable, delete-IsTable, sync-IsTable, bind-IsTable}
use selfremote.Sites.Posts.{
  Kept, with_site-Kept, touched-Kept, rotate_code-Kept, rotate_secret-Kept, package-Kept,
  handle_route_mode-Kept,
}
use selfremote.Sites.Creation.{IsClear, assign-IsClear, handle_agent_create-Kept}

module _ (codec : Codec) (visible : (p : Prefix) → str_eq (codec.print p) "" ≡ false)
    (faithful : (p q : Prefix) → codec.parse_prefix (codec.print p) ≡ some q → q ≡ p) where
  -- The enrolment of a machine.
  answered-Kept :
      (w : World) (t : Sites) (o : Option Sites)
      → OnSome (IsTable codec) o
      → IsTable codec t
      → Kept codec (answered codec w t o)
  answered-Kept w t none h' h = h
  answered-Kept w t (some t') h' h = sync-IsTable codec w t' h'

  take_key-Kept :
      (w : World) (id : ℕ) (key : List ℕ) (t : Sites)
      → IsTable codec t
      → Kept codec (take_key codec w id key t)
  take_key-Kept w id key t h =
      answered-Kept w t (bind codec w id (codec.encode_base64 key) t)
        (bind-IsTable codec w id (codec.encode_base64 key) t h) h

  store_routes-Kept :
      (w : World) (id : ℕ) (key : List ℕ) (t : Sites) (o : Option (List AgentRoute))
      → ((out : List AgentRoute) → o ≡ some out → IsClear codec (some id) t out)
      → IsTable codec t
      → Kept codec (store_routes codec w id key t o)
  store_routes-Kept w id key t none clear h = h
  store_routes-Kept w id key t (some routes) clear h =
      let stored = change id (λ s. record s { routes = routes }) t in
      let c = clear routes refl in
      take_key-Kept w id key (if w.second_ok then stored else t) (
        if_cases (IsTable codec) w.second_ok stored t
          (λ fine.
            routes-IsTable codec id routes t c.own
              (All-weaken (λ u g other. g (ground (arith, other))) t.rows c.clear) h)
          (λ lost. h))

  reported-Kept :
      (w : World) (id : ℕ) (key : List ℕ) (t : Sites) (o : Option (List AgentRoute))
      → IsTable codec t
      → Kept codec (reported codec w id key t o)
  reported-Kept w id key t none h = h
  reported-Kept w id key t (some []) h = h
  reported-Kept w id key t (some (r ∷ rs)) h =
      store_routes-Kept w id key t (assign codec w t (some id) (r ∷ rs))
        (λ out e. assign-IsClear codec visible faithful w t (some id) (r ∷ rs) out e) h

  use_routes-Kept :
      (w : World) (q : EnrollRequest) (id : ℕ) (key : List ℕ) (t : Sites) (rs : List AgentRoute)
      → IsTable codec t
      → Kept codec (use_routes codec w q id key t rs)
  use_routes-Kept w q id key t (r ∷ rs) h = take_key-Kept w id key t h
  use_routes-Kept w q id key t [] h =
      reported-Kept w id key t (parse_agent_routes codec (join_lines q.routes)) h

  on_code-Kept :
      (w : World) (q : EnrollRequest) (ip : String) (key : List ℕ) (t : Sites) (o : Option Site)
      → IsTable codec t
      → Kept codec (on_code codec w q ip key t o)
  on_code-Kept w q ip key t none h = record { below = h.below; own = h.own; far = h.far }
  on_code-Kept w q ip key t (some s) h =
      ground (arith, h, use_routes-Kept w q s.id key t s.routes h)

  on_key-Kept :
      (w : World) (q : EnrollRequest) (ip : String) (t : Sites) (o : Option (List ℕ))
      → IsTable codec t
      → Kept codec (on_key codec w q ip t o)
  on_key-Kept w q ip t none h = h
  on_key-Kept w q ip t (some key) h = ground (
    arith,
    h,
    on_code-Kept w q ip key t (pending_site codec (normalize_install_code q.code) t.rows) h,
  )

  on_body-Kept :
      (w : World) (ip : String) (t : Sites) (o : Option EnrollRequest)
      → IsTable codec t
      → Kept codec (on_body codec w ip t o)
  on_body-Kept w ip t none h = h
  on_body-Kept w ip t (some q) h =
      on_key-Kept w q ip t (codec.decode_base64 (trim_space q.public_key)) h

  handle_enroll-Kept :
      (w : World) (ip : String) (body : Option EnrollRequest) (t : Sites)
      → IsTable codec t
      → Kept codec (handle_enroll codec w ip body t)
  unfolding handle_enroll
  handle_enroll-Kept w ip body t h =
      let (limiter, fine) = allowed t.limiter ip w.now in
      let counted = record t { limiter = limiter } in
      let h' : IsTable codec counted = record { below = h.below; own = h.own; far = h.far } in
      if_cases (Kept codec) fine (on_body codec w ip counted body) (counted, throttled)
        (λ on. on_body-Kept w ip counted body h') (λ off. h')

  -- Every request.
  serve-IsTable :
      (w : World) (q : Request) (t : Sites) → IsTable codec t → IsTable codec (serve codec w q t).0
  unfolding serve handle_agent_new_code handle_agent_state handle_agent_kick handle_agent_rotate_mfa
      handle_agent_revoke handle_agent_package
  serve-IsTable w (create p f) t h = handle_agent_create-Kept codec visible faithful w p f t h
  serve-IsTable w (new_code p id) t h =
      with_site-Kept codec w p id t (λ s. rotate_code codec w t s (install_code w))
        (λ s. rotate_code-Kept codec w t s (install_code w) h) h
  serve-IsTable w (set_state p id enable) t h =
      with_site-Kept codec w p id t _
        (λ s.
          touched-Kept codec w s.id (λ x. record x { enabled = enable }) t (λ x. refl) (λ x. refl)
            h)
        h
  serve-IsTable w (kick_site p id) t h =
      with_site-Kept codec w p id t (λ s. (t, if w.first_ok then done else failed)) (λ s. h) h
  serve-IsTable w (rotate_mfa p id) t h =
      with_site-Kept codec w p id t (λ s. rotate_secret codec w t s w.secret)
        (λ s. rotate_secret-Kept codec w t s w.secret h) h
  serve-IsTable w (revoke_site p id) t h =
      with_site-Kept codec w p id t
        (λ s. if w.first_ok then (sync w (delete_site s.id t), done) else (t, failed))
        (λ s.
          if_cases (Kept codec) w.first_ok (sync w (delete_site s.id t), done) (t, failed)
            (λ fine. sync-IsTable codec w (delete_site s.id t) (delete-IsTable codec s.id t h))
            (λ over. h))
        h
  serve-IsTable w (build_package p id f) t h =
      with_site-Kept codec w p id t _ (λ s. package-Kept codec w f t s h) h
  serve-IsTable w (route_mode p mode) t h = handle_route_mode-Kept codec w p mode t h
  serve-IsTable w (enroll ip body) t h = handle_enroll-Kept w ip body t h

-- Requests one after the other, each with what it meets.
unfoldable pub serve_all : Codec → List (World × Request) → Sites → Sites
unfolding serve
serve_all codec [] t = t
serve_all codec ((w, q) ∷ rest) t = serve_all codec rest (serve codec w q t).0

-- A table without sites is one to start from.
pub empty-IsTable : (codec : Codec) (t : Sites) → t.rows ≡ [] → IsTable codec t
empty-IsTable codec t empty = record {
  below = subst (All (λ (s : Site). s.id < t.next)) (sym empty) tt;
  own =
      subst (All (λ s. All (λ p. overlaps_any p reserved_prefixes ≡ false) (published codec s)))
        (sym empty) tt;
  far = subst (AllFar codec) (sym empty) tt;
}

-- Take a table, such as an empty one, in which no site publishes a prefix that overlaps the tunnel's
-- network, no two sites publish prefixes that overlap, and the numbers of the rows differ and are below
-- the next one. After any creations of sites, posts on their pages and enrolments, in any order and
-- whatever the database answers, it is still such a table. A text of a prefix is not empty, and where
-- it is parsed it gives that prefix. A registration, which imports pre-provisioned sites, is not among
-- these requests.
pub serve_all-IsTable :
    (codec : Codec)
    → ((p : Prefix) → str_eq (codec.print p) "" ≡ false)
    → ((p q : Prefix) → codec.parse_prefix (codec.print p) ≡ some q → q ≡ p)
    → (requests : List (World × Request)) (t : Sites) → IsTable codec t
    → IsTable codec (serve_all codec requests t)
unfolding serve_all
serve_all-IsTable codec visible faithful [] t h = h
serve_all-IsTable codec visible faithful ((w, q) ∷ rest) t h =
    serve_all-IsTable codec visible faithful rest (serve codec w q t).0
      (serve-IsTable codec visible faithful w q t h)
