-- ===== src/Sites/Handle.antt =====
-- The handlers of the pages of a site (internal/webapp/agents.go). A reload of clients.json that some of
-- them ask for as well does not touch the table. Handlers do not run between each other's statements.
use selfremote.Common.{
  ℕ, ◌+◌, ◌*◌, ◌^◌, Bool, false, not, ◌&&◌, ◌||◌, String, List, Option, none, some, ltb, ◌==◌,
  if◌then◌else◌, length,
}
use selfremote.Net.Bytes.{bytes_eq}
use selfremote.Routes.{normalize_route_mode, mode_real, mode_virtual, mode_auto, RouteMode}
use selfremote.Sites.{
  Site, Sites, Codec, World, Reply, bad_csrf, not_found, forbidden, refused, failed, unavailable,
  done, change, delete_site, sync, reset_key, with_code, bound, site_by_agent_id, key_taken,
}
use selfremote.Sites.Forms.{install_code}

-- Who posts a form: the token in it, the token of the session, the user.
pub record Post : Type 0 where
  pub csrf : List ℕ
  pub session : Option (List ℕ)
  pub user : ℕ
  pub is_admin : Bool

-- `checkCSRF`
unfoldable pub check_csrf : Post → Bool
check_csrf p = elim p.session [ none ↦ false | some token ↦ bytes_eq p.csrf token ]

abbrev pub install_code_ttl : ℕ
install_code_ttl = 3600 * 10 ^ 9

-- The owner, or an administrator.
unfoldable pub may_touch : Post → Site → Bool
may_touch p s = s.user_id == p.user || p.is_admin

-- The form behind a deployment package; its platform is known or not.
pub record PackageForm : Type 0 where
  pub platform_ok : Bool
  pub passphrase : List ℕ

module _ (codec : Codec) where
  abbrev pub on_found : Post → Sites → (Site → Sites × Reply) → Option Site → Sites × Reply
  on_found p t act none = (t, not_found)
  on_found p t act (some s) = if may_touch p s then act s else (t, forbidden)

  -- The start that the handlers of a site share: the token, the site, its owner.
  unfoldable pub with_site : World → Post → List ℕ → Sites → (Site → Sites × Reply) → Sites × Reply
  unfolding check_csrf site_by_agent_id may_touch
  with_site w p id t act =
      let found = if w.found_ok then site_by_agent_id codec id t.rows else none in
      if check_csrf p then on_found p t act found else (t, bad_csrf)

  abbrev pub rotate_code : World → Sites → Site → Option (List ℕ) → Sites × Reply
  rotate_code w t s none = (t, failed)
  rotate_code w t s (some code) =
      let detached = change s.id reset_key t in
      let coded = change s.id (with_code code (w.now + install_code_ttl)) detached in
      if w.first_ok
      then (if w.second_ok then (sync w coded, done) else (detached, failed))
      else (t, failed)

  -- `handleAgentNewCode`
  unfoldable pub handle_agent_new_code : World → Post → List ℕ → Sites → Sites × Reply
  unfolding with_site change sync
  handle_agent_new_code w p id t = with_site w p id t (λ s. rotate_code w t s (install_code w))

  -- `handleAgentState`
  unfoldable pub handle_agent_state : World → Post → List ℕ → Bool → Sites → Sites × Reply
  unfolding with_site change sync
  handle_agent_state w p id enable t = with_site w p id t (λ s.
      if w.first_ok
      then (sync w (change s.id (λ x. record x { enabled = enable }) t), done)
      else (t, failed))

  -- `handleAgentKick`: the hub is asked.
  unfoldable pub handle_agent_kick : World → Post → List ℕ → Sites → Sites × Reply
  unfolding with_site
  handle_agent_kick w p id t = with_site w p id t (λ s. (t, if w.first_ok then done else failed))

  abbrev pub rotate_secret : World → Sites → Site → Option (List ℕ) → Sites × Reply
  rotate_secret w t s none = (t, failed)
  rotate_secret w t s (some secret) =
      if w.first_ok
      then (sync w (change s.id (λ x. record x { totp_secret = secret }) t), done)
      else (t, failed)

  -- `handleAgentRotateMFA`
  unfoldable pub handle_agent_rotate_mfa : World → Post → List ℕ → Sites → Sites × Reply
  unfolding with_site change sync
  handle_agent_rotate_mfa w p id t = with_site w p id t (λ s. rotate_secret w t s w.secret)

  -- `handleAgentRevoke`
  unfoldable pub handle_agent_revoke : World → Post → List ℕ → Sites → Sites × Reply
  unfolding with_site sync
  handle_agent_revoke w p id t =
      with_site w p id t
        (λ s. if w.first_ok then (sync w (delete_site s.id t), done) else (t, failed))

  -- `s.bindAgentEnrollment`: the key is no other site's.
  unfoldable pub bind : World → ℕ → List ℕ → Sites → Option Sites
  unfolding change key_taken
  bind w id key t =
      if w.first_ok && not (key_taken codec id key t.rows)
      then some (change id (bound key w.now) t)
      else none

  abbrev pub with_bound : World → Sites → Option Sites → Sites × Reply
  with_bound w t none = (t, failed)
  with_bound w t (some t') = (sync w t', if w.second_ok then done else failed)

  abbrev pub mint : World → Sites → Site → Option (List ℕ) → Sites × Reply
  mint w t s none = (t, failed)
  mint w t s (some key) = with_bound w t (bind w s.id (codec.encode_base64 key) t)

  -- `handleAgentPackage`, up to the archive: `second_ok` is whether that is made.
  unfoldable pub handle_agent_package : World → Post → List ℕ → PackageForm → Sites → Sites × Reply
  unfolding with_site bind sync
  handle_agent_package w p id f t = with_site w p id t (λ s.
      if not f.platform_ok
      then (t, refused)
      else if ltb (length f.passphrase) 10
      then (t, refused)
      else if not (w.server_addr && w.hub_key)
      then (t, unavailable)
      else mint w t s w.key)

  abbrev pub mode_text : RouteMode → String
  mode_text mode_real = "real"
  mode_text mode_virtual = "virtual"
  mode_text mode_auto = "auto"

  -- `handleRouteMode`
  unfoldable pub handle_route_mode : World → Post → String → Sites → Sites × Reply
  unfolding check_csrf normalize_route_mode
  handle_route_mode w p mode t =
      let stored = record t { route_mode = mode_text (normalize_route_mode mode) } in
      if check_csrf p then (if w.first_ok then (stored, done) else (t, failed)) else (t, bad_csrf)
