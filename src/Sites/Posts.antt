-- ===== src/Sites/Posts.antt =====
-- The handlers of a site keep the published prefixes apart (internal/webapp/agents.go).
use selfremote.Common.{
  ℕ, ◌+◌, ◌≡◌, refl, not, ◌&&◌, String, List, Option, none, some, ltb, length, if◌then◌else◌,
  if_cases, arith,
}
use selfremote.Routes.{normalize_route_mode}
use selfremote.Sites.{
  Site, Sites, Codec, World, Reply, bad_csrf, forbidden, refused, failed, unavailable, done, change,
  sync, reset_key, with_code, site_by_agent_id,
}
use selfremote.Sites.Handle.{
  Post, PackageForm, check_csrf, may_touch, on_found, with_site, rotate_code, rotate_secret, bind,
  with_bound, mint, mode_text, handle_route_mode, install_code_ttl,
}
use selfremote.Sites.Tables.{IsTable}
use selfremote.Sites.Updates.{OnSome, touch-IsTable, sync-IsTable, bind-IsTable}

module _ (codec : Codec) where
  abbrev pub Kept : Sites × Reply → Type 0
  Kept r = IsTable codec r.0

  pub with_site-Kept :
      (w : World) (p : Post) (id : List ℕ) (t : Sites) (act : Site → Sites × Reply)
      → ((s : Site) → Kept (act s))
      → IsTable codec t
      → Kept (with_site codec w p id t act)
  unfolding with_site
  with_site-Kept w p id t act kept h =
      let found = if w.found_ok then site_by_agent_id codec id t.rows else none in
      if_cases Kept (check_csrf p) (on_found codec p t act found) (t, bad_csrf)
        (λ good. found-Kept found) (λ bad. h)
    where
      found-Kept : (found : Option Site) → Kept (on_found codec p t act found)
      found-Kept none = h
      found-Kept (some s) =
          if_cases Kept (may_touch p s) (act s) (t, forbidden) (λ mine. kept s) (λ other. h)

  -- One statement that keeps the table, then the publication.
  pub touched-Kept :
      (w : World) (id : ℕ) (f : Site → Site) (t : Sites)
      → ((s : Site) → (f s).id ≡ s.id)
      → ((s : Site) → (f s).routes ≡ s.routes)
      → IsTable codec t
      → Kept (if w.first_ok then (sync w (change id f t), done) else (t, failed))
  touched-Kept w id f t keeps same h =
      if_cases Kept w.first_ok (sync w (change id f t), done) (t, failed)
        (λ fine. sync-IsTable codec w (change id f t) (touch-IsTable codec id f t keeps same h))
        (λ over. h)

  pub rotate_code-Kept :
      (w : World) (t : Sites) (s : Site) (code : Option (List ℕ))
      → IsTable codec t
      → Kept (rotate_code codec w t s code)
  rotate_code-Kept w t s none h = h
  rotate_code-Kept w t s (some code) h =
      let detached = change s.id reset_key t in
      let f = with_code code (w.now + install_code_ttl) in
      let h' = touch-IsTable codec s.id reset_key t (λ x. refl) (λ x. refl) h in
      let coded = change s.id f detached in
      if_cases Kept w.first_ok (if w.second_ok then (sync w coded, done) else (detached, failed))
        (t, failed)
        (λ fine.
          if_cases Kept w.second_ok (sync w coded, done) (detached, failed)
            (λ stored.
              sync-IsTable codec w coded
                (touch-IsTable codec s.id f detached (λ x. refl) (λ x. refl) h'))
            (λ lost. h'))
        (λ over. h)

  pub rotate_secret-Kept :
      (w : World) (t : Sites) (s : Site) (secret : Option (List ℕ))
      → IsTable codec t
      → Kept (rotate_secret codec w t s secret)
  rotate_secret-Kept w t s none h = h
  rotate_secret-Kept w t s (some secret) h =
      touched-Kept w s.id (λ x. record x { totp_secret = secret }) t (λ x. refl) (λ x. refl) h

  with_bound-Kept :
      (w : World) (t : Sites) (o : Option Sites)
      → OnSome (IsTable codec) o
      → IsTable codec t
      → Kept (with_bound codec w t o)
  with_bound-Kept w t none h' h = h
  with_bound-Kept w t (some t') h' h = sync-IsTable codec w t' h'

  pub mint-Kept :
      (w : World) (t : Sites) (s : Site) (key : Option (List ℕ))
      → IsTable codec t
      → Kept (mint codec w t s key)
  mint-Kept w t s none h = h
  mint-Kept w t s (some key) h =
      with_bound-Kept w t (bind codec w s.id (codec.encode_base64 key) t)
        (bind-IsTable codec w s.id (codec.encode_base64 key) t h) h

  pub package-Kept :
      (w : World) (f : PackageForm) (t : Sites) (s : Site)
      → IsTable codec t
      → Kept (
          if not f.platform_ok
          then (t, refused)
          else if ltb (length f.passphrase) 10
          then (t, refused)
          else if not (w.server_addr && w.hub_key)
          then (t, unavailable)
          else mint codec w t s w.key)
  package-Kept w f t s h = ground (arith, h, mint-Kept w t s w.key h)

  pub handle_route_mode-Kept :
      (w : World) (p : Post) (mode : String) (t : Sites)
      → IsTable codec t
      → Kept (handle_route_mode codec w p mode t)
  unfolding handle_route_mode
  handle_route_mode-Kept w p mode t h =
      let stored = record t { route_mode = mode_text codec (normalize_route_mode mode) } in
      if_cases Kept (check_csrf p) (if w.first_ok then (stored, done) else (t, failed))
        (t, bad_csrf)
        (λ good.
          if_cases Kept w.first_ok (stored, done) (t, failed)
            (λ fine. record { below = h.below; own = h.own; far = h.far }) (λ over. h))
        (λ bad. h)
