-- ===== src/Sites/Authority.antt =====
-- Which post or enrolment may change which sites (internal/webapp/agents.go, enroll.go).
use selfremote.Common.{
  ℕ, ◌+◌, ◌≡◌, ◌⊎◌, inl, inr, refl, ◌∙◌, ap, Bool, true, false, not, ◌&&◌, String, List, [], ◌∷◌,
  Option, none, some, map, if◌then◌else◌, if_cases, arith, Option-cases, Bool-cases,
}
use selfremote.Auth.{trim_space}
use selfremote.Throttle.{allowed}
use selfremote.Routes.{AgentRoute}
use selfremote.Sites.{
  Site, Sites, Codec, World, Reply, failed, conflict, done, without, delete_site, sync,
  site_by_agent_id, add_site,
}
use selfremote.Sites.Forms.{install_code, lower, valid_agent_id, parse_agent_routes}
use selfremote.Sites.Check.{Verdict, valid, invalid, panics, validate_route_set}
use selfremote.Sites.Create.{
  SiteForm, assign, alloc_agent_ip, new_site, added, store_site, judged, create_assigned,
  create_parsed, handle_agent_create,
}
use selfremote.Sites.Handle.{
  Post, check_csrf, rotate_code, handle_agent_new_code, handle_agent_state, handle_agent_kick,
  rotate_secret, handle_agent_rotate_mfa, handle_agent_revoke, handle_agent_package,
  handle_route_mode,
}
use selfremote.Sites.Enroll.{
  EnrollRequest, on_body, handle_enroll, Request, create, new_code, set_state, kick_site,
  rotate_mfa, revoke_site, build_package, route_mode, enroll, serve,
}
use selfremote.Sites.Owner.{
  Spared, sync-Spares, sync-rows, without-twice, IsOwnPost, check_csrf-token, with_site-IsOwnPost,
  with_site-rows, written-Spares, rotate_code-Spares, rotate_secret-Spares, package-Spares,
}
use selfremote.Sites.ByCode.{IsEnrolment, on_body-ByCode}

-- A new row for the user who posts it, with the session's token.
pub record IsCreation (p : Post) (t t' : Sites) : Type 0 where
  pub token : p.session ≡ some p.csrf
  pub site : Site
  pub mine : site.user_id ≡ p.user
  pub grown : t'.rows ≡ site ∷ t.rows

module _ (codec : Codec) (w : World) (p : Post) (t : Sites) where
  abbrev Grown : Sites × Reply → Type 0
  Grown r =
      (r.0.rows ≡ t.rows) ⊎ ((site : Site) × (site.user_id ≡ p.user) × (r.0.rows ≡ site ∷ t.rows))

  added-Grown :
      (s : Site)
      → s.user_id ≡ p.user
      → Grown (added codec w t (if w.first_ok then add_site codec s t else none))
  unfolding add_site
  added-Grown s mine = elim (Bool-cases w.first_ok) [
    | inr over ↦ inl (ground (arith, over))
    | inl fine ↦ elim (Option-cases (site_by_agent_id codec s.agent_id t.rows)) [
      | inr (x, present) ↦ inl (ground (arith, fine, present))
      | inl absent ↦
          let t' = record t { rows = record s { id = t.next } ∷ t.rows; next = t.next + 1 } in
          let there : added codec w t (if w.first_ok then add_site codec s t else none)
              ≡ (sync w t', done) =
            ground (arith, fine, absent) in
          inr (
            record s { id = t.next },
            mine,
            ap (λ (r : Sites × Reply). r.0.rows) there ∙ sync-rows w t',
          )
    ]
  ]

  store_site-Grown :
      (agent_id name : List ℕ) (routes : List AgentRoute) (code : Option (List ℕ)) (ip : Option ℕ)
      → Grown (store_site codec w p t agent_id name routes code ip)
  store_site-Grown agent_id name routes none ip = inl refl
  store_site-Grown agent_id name routes (some code) none = inl refl
  store_site-Grown agent_id name routes (some code) (some ip) =
      added-Grown (new_site codec w p agent_id name routes code ip) refl

  judged-Grown : (v : Verdict) (r : Sites × Reply) → Grown r → Grown (judged codec v t r)
  judged-Grown valid r h = h
  judged-Grown invalid r h = inl refl
  judged-Grown panics r h = inl refl

  create_assigned-Grown :
      (agent_id name : List ℕ) (o : Option (List AgentRoute))
      → Grown (create_assigned codec w p t agent_id name o)
  create_assigned-Grown agent_id name none = inl refl
  create_assigned-Grown agent_id name (some routes) =
      let ip = alloc_agent_ip codec w t in
      judged-Grown (validate_route_set codec routes t.rows none [])
        (store_site codec w p t agent_id name routes (install_code w) ip)
        (store_site-Grown agent_id name routes (install_code w) ip)

  create_parsed-Grown :
      (agent_id name : List ℕ) (o : Option (List AgentRoute))
      → Grown (create_parsed codec w p t agent_id name o)
  create_parsed-Grown agent_id name none = inl refl
  create_parsed-Grown agent_id name (some []) = inl refl
  create_parsed-Grown agent_id name (some (r ∷ rs)) =
      let o = assign codec w t none (r ∷ rs) in
      let exists : Bool = elim (site_by_agent_id codec agent_id t.rows) [
        | none ↦ false
        | some _ ↦ true
      ] in
      if_cases Grown (w.found_ok && exists) (t, conflict)
        (if not w.listed_ok then (t, failed) else create_assigned codec w p t agent_id name o)
        (λ known. inl refl)
        (λ new.
          if_cases Grown (not w.listed_ok) (t, failed) (create_assigned codec w p t agent_id name o)
            (λ lost. inl refl) (λ listed. create_assigned-Grown agent_id name o))

  handle_agent_create-IsCreation :
      (f : SiteForm)
      → ((handle_agent_create codec w p f t).0.rows ≡ t.rows)
        ⊎ IsCreation p t (handle_agent_create codec w p f t).0
  unfolding handle_agent_create
  handle_agent_create-IsCreation f =
      let agent_id = map lower (trim_space f.agent_id) in
      let parsed = parse_agent_routes codec f.routes in
      elim (Bool-cases (check_csrf p)) [
        | inr bad ↦ inl (ground (arith, bad))
        | inl good ↦ elim (Bool-cases (valid_agent_id agent_id)) [
          | inr wrong ↦ inl (ground (arith, good, wrong))
          | inl fine ↦
              let made = create_parsed codec w p t agent_id (trim_space f.name) parsed in
              let there : handle_agent_create codec w p f t ≡ made = ground (arith, good, fine) in
              let rows = ap (λ (r : Sites × Reply). r.0.rows) there in
              elim (create_parsed-Grown agent_id (trim_space f.name) parsed) [
                | inl same ↦ inl (rows ∙ same)
                | inr (s, mine, grown) ↦ inr (record {
                  token = check_csrf-token codec p good;
                  site = s;
                  mine = mine;
                  grown = rows ∙ grown;
                })
              ]
        ]
      ]

handle_enroll-IsEnrolment :
    (codec : Codec) (w : World) (ip : String) (body : Option EnrollRequest) (t : Sites)
    → ((handle_enroll codec w ip body t).0.rows ≡ t.rows)
      ⊎ IsEnrolment codec w ip body t (handle_enroll codec w ip body t).0
unfolding handle_enroll
handle_enroll-IsEnrolment codec w ip none t = inl (ground arith)
handle_enroll-IsEnrolment codec w ip (some q) t =
    let counted = record t { limiter = (allowed t.limiter ip w.now).0 } in
    elim (Bool-cases (allowed t.limiter ip w.now).1) [
      | inr over ↦ inl (ground (arith, over))
      | inl fine ↦
          let there : handle_enroll codec w ip (some q) t ≡ on_body codec w ip counted (some q) =
            ground (arith, fine) in
          elim (on_body-ByCode codec w ip counted q) [
            | inl same ↦ inl (ap (λ (r : Sites × Reply). r.0.rows) there ∙ same)
            | inr (key, s, decoded, sized, coded, early, others) ↦ inr (record {
              request = q;
              sent = refl;
              unthrottled = fine;
              key = key;
              decoded = decoded;
              sized = sized;
              site = s;
              coded = coded;
              in_time = early;
              others = ap (λ (r : Sites × Reply). without s.id r.0.rows) there ∙ others;
            })
          ]
    ]

-- What a request must be to change the rows of the table: the creation of a site, a post of its owner
-- or an administrator, an enrolment. The kick of a site and the route mode change none.
abbrev pub IsAuthorised : Codec → World → Sites → Sites → Request → Type 0
IsAuthorised codec w t t' (create p f) = IsCreation p t t'
IsAuthorised codec w t t' (new_code p id) = IsOwnPost codec p id t t'
IsAuthorised codec w t t' (set_state p id enable) = IsOwnPost codec p id t t'
IsAuthorised codec w t t' (kick_site p id) = ⊥
IsAuthorised codec w t t' (rotate_mfa p id) = IsOwnPost codec p id t t'
IsAuthorised codec w t t' (revoke_site p id) = IsOwnPost codec p id t t'
IsAuthorised codec w t t' (build_package p id f) = IsOwnPost codec p id t t'
IsAuthorised codec w t t' (route_mode p mode) = ⊥
IsAuthorised codec w t t' (enroll ip body) = IsEnrolment codec w ip body t t'

-- A creation of a site, a post on a page of sites or an enrolment leaves the rows of the table as they
-- are, or it is entitled to what it changes: it posts the session's token and adds one row, of its own
-- user; or it posts the token for a site of its own user, or as an administrator, and no row of another
-- site changes; or it is an enrolment, from an address that is not over its limit, with a key of 32 bytes
-- and the unexpired install code of a site, and no row of another site changes. A registration, which
-- imports pre-provisioned sites, is not among these requests.
pub serve-IsAuthorised :
    (codec : Codec) (w : World) (q : Request) (t : Sites)
    → ((serve codec w q t).0.rows ≡ t.rows) ⊎ IsAuthorised codec w t (serve codec w q t).0 q
unfolding serve handle_agent_new_code handle_agent_state handle_agent_kick handle_agent_rotate_mfa
    handle_agent_revoke handle_agent_package handle_route_mode
serve-IsAuthorised codec w (create p f) t = handle_agent_create-IsCreation codec w p t f
serve-IsAuthorised codec w (new_code p id) t =
    with_site-IsOwnPost codec w p id t (λ s. rotate_code codec w t s (install_code w))
      (λ s. rotate_code-Spares codec w t s (install_code w))
serve-IsAuthorised codec w (set_state p id enable) t =
    with_site-IsOwnPost codec w p id t _
      (λ s. written-Spares codec w s.id (λ x. record x { enabled = enable }) t (λ x. refl))
serve-IsAuthorised codec w (kick_site p id) t =
    inl (with_site-rows codec w p id t (λ s. (t, if w.first_ok then done else failed)) (λ s. refl))
serve-IsAuthorised codec w (rotate_mfa p id) t =
    with_site-IsOwnPost codec w p id t (λ s. rotate_secret codec w t s w.secret)
      (λ s. rotate_secret-Spares codec w t s w.secret)
serve-IsAuthorised codec w (revoke_site p id) t =
    with_site-IsOwnPost codec w p id t
      (λ s. if w.first_ok then (sync w (delete_site s.id t), done) else (t, failed))
      (λ s.
        if_cases (Spared s.id t) w.first_ok (sync w (delete_site s.id t), done) (t, failed)
          (λ fine. sync-Spares w s.id t (delete_site s.id t) (without-twice s.id t.rows))
          (λ over. refl))
serve-IsAuthorised codec w (build_package p id f) t =
    with_site-IsOwnPost codec w p id t _ (λ s. package-Spares codec w f t s)
serve-IsAuthorised codec w (route_mode p mode) t = inl (ground arith)
serve-IsAuthorised codec w (enroll ip body) t = handle_enroll-IsEnrolment codec w ip body t
