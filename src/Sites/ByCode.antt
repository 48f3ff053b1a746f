-- ===== src/Sites/ByCode.antt =====
-- What an enrolment may change (internal/webapp/enroll.go).
use selfremote.Common.{
  ℕ, ◌≡◌, ◌⊎◌, inl, inr, refl, ◌∙◌, ap, subst, true, false, not, ◌&&◌, String, List, [], ◌∷◌,
  Option, none, some, ltb, ◌==◌, length, if◌then◌else◌, if_cases, arith, Option-cases, Bool-cases,
}
use selfremote.Auth.{trim_space}
use selfremote.Throttle.{allowed}
use selfremote.Routes.{AgentRoute}
use selfremote.Sites.{Site, Sites, Codec, World, Reply, change, without, bound, pending_site}
use selfremote.Sites.Forms.{parse_agent_routes, normalize_install_code}
use selfremote.Sites.Create.{assign}
use selfremote.Sites.Handle.{bind}
use selfremote.Sites.Enroll.{
  EnrollRequest, join_lines, answered, take_key, store_routes, reported, use_routes, on_body,
}
use selfremote.Sites.Owner.{Spares, Spared, change-Spares, sync-Spares, bind_cases}

module _ (codec : Codec) where
  -- A machine whose address is not over its limit, with a key of 32 bytes and the install code of the
  -- site, which has not expired.
  pub record IsEnrolment (w : World) (ip : String) (body : Option EnrollRequest) (t t' : Sites)
      : Type 0 where
    pub request : EnrollRequest
    pub sent : body ≡ some request
    pub unthrottled : (allowed t.limiter ip w.now).1 ≡ true
    pub key : List ℕ
    pub decoded : codec.decode_base64 (trim_space request.public_key) ≡ some key
    pub sized : length key ≡ 32
    pub site : Site
    pub coded : pending_site codec (normalize_install_code request.code) t.rows ≡ some site
    pub in_time : not (site.enroll_expires == 0) && ltb site.enroll_expires w.now ≡ false
    pub others : Spares site.id t t'

  answered-Spared :
      (w : World) (id : ℕ) (t t' : Sites) (o : Option Sites)
      → Spares id t t'
      → ((x : Sites) → o ≡ some x → Spares id t x)
      → Spared id t (answered codec w t' o)
  answered-Spared w id t t' none h f = h
  answered-Spared w id t t' (some x) h f = sync-Spares w id t x (f x refl)

  take_key-Spared :
      (w : World) (id : ℕ) (key : List ℕ) (t t' : Sites)
      → Spares id t t'
      → Spared id t (take_key codec w id key t')
  take_key-Spared w id key t t' h =
      let k = codec.encode_base64 key in
      answered-Spared w id t t' (bind codec w id k t') h (λ x e. elim (bind_cases codec w id k t') [
        | inl taken ↦ absurd (ground (arith, taken, e))
        | inr (made, spares) ↦
            let same : change id (bound k w.now) t' ≡ x = ground (arith, made, e) in
            subst (λ y. Spares id t y) same (spares ∙ h)
      ])

  store_routes-Spared :
      (w : World) (id : ℕ) (key : List ℕ) (t : Sites) (o : Option (List AgentRoute))
      → Spared id t (store_routes codec w id key t o)
  store_routes-Spared w id key t none = refl
  store_routes-Spared w id key t (some routes) =
      let stored = change id (λ s. record s { routes = routes }) t in
      take_key-Spared w id key t (if w.second_ok then stored else t) (
        if_cases (Spares id t) w.second_ok stored t
          (λ fine. change-Spares id (λ s. record s { routes = routes }) t (λ s. refl))
          (λ lost. refl))

  reported-Spared :
      (w : World) (id : ℕ) (key : List ℕ) (t : Sites) (o : Option (List AgentRoute))
      → Spared id t (reported codec w id key t o)
  reported-Spared w id key t none = refl
  reported-Spared w id key t (some []) = refl
  reported-Spared w id key t (some (r ∷ rs)) =
      store_routes-Spared w id key t (assign codec w t (some id) (r ∷ rs))

  use_routes-Spared :
      (w : World) (q : EnrollRequest) (id : ℕ) (key : List ℕ) (t : Sites) (rs : List AgentRoute)
      → Spared id t (use_routes codec w q id key t rs)
  use_routes-Spared w q id key t (r ∷ rs) = take_key-Spared w id key t t refl
  use_routes-Spared w q id key t [] =
      reported-Spared w id key t (parse_agent_routes codec (join_lines q.routes))

  -- The rows stay, or the site that changes was reached by its code.
  abbrev pub ByCode : World → EnrollRequest → Sites → Sites × Reply → Type 0
  ByCode w q t r =
      (r.0.rows ≡ t.rows)
      ⊎ ((key : List ℕ) × (site : Site) × (codec.decode_base64 (trim_space q.public_key) ≡ some key)
          × (length key ≡ 32)
          × (pending_site codec (normalize_install_code q.code) t.rows ≡ some site)
          × (not (site.enroll_expires == 0) && ltb site.enroll_expires w.now ≡ false)
          × Spared site.id t r)

  pub on_body-ByCode :
      (w : World) (ip : String) (t : Sites) (q : EnrollRequest)
      → ByCode w q t (on_body codec w ip t (some q))
  on_body-ByCode w ip t q = elim (Option-cases (codec.decode_base64 (trim_space q.public_key))) [
    | inl wrong ↦ inl (ground (arith, wrong))
    | inr (key, decoded) ↦ elim (Bool-cases (length key == 32)) [
      | inr size ↦ inl (ground (arith, decoded, size))
      | inl size ↦ elim (Bool-cases w.found_ok) [
        | inr lost ↦ inl (ground (arith, decoded, size, lost))
        | inl asked ↦
            elim (Option-cases (pending_site codec (normalize_install_code q.code) t.rows)) [
              | inl unknown ↦ inl (ground (arith, decoded, size, asked, unknown))
              | inr (s, coded) ↦
                  elim (Bool-cases (not (s.enroll_expires == 0) && ltb s.enroll_expires w.now)) [
                    | inl late ↦ inl (ground (arith, decoded, size, asked, coded, late))
                    | inr early ↦
                        let there : on_body codec w ip t (some q)
                            ≡ use_routes codec w q s.id key t s.routes =
                          ground (arith, decoded, size, asked, coded, early) in
                        inr (
                          key,
                          s,
                          decoded,
                          ground (arith, size),
                          coded,
                          early,
                          ap (λ (r : Sites × Reply). without s.id r.0.rows) there
                              ∙ use_routes-Spared w q s.id key t s.routes,
                        )
                  ]
            ]
      ]
    ]
  ]
