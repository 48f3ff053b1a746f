-- ===== src/Sites/Create.antt =====
-- The creation of a site (internal/webapp/agents.go, `handleAgentCreate`), with the routes and the
-- address it is given.
use selfremote.Common.{
  ℕ, ◌+◌, Bool, true, false, not, ◌&&◌, List, [], ◌∷◌, ◌++◌, Option, none, some, if◌then◌else◌, map,
}
use selfremote.Auth.{trim_space}
use selfremote.Pool.{alloc_ip, agent_ip_first, agent_ip_last}
use selfremote.Routes.{AgentRoute, assign_routes}
use selfremote.Sites.{
  Site, Sites, Codec, World, Reply, bad_csrf, refused, conflict, failed, panicked, done, sync,
  site_ips, site_by_agent_id, add_site, other_effective_prefixes, route_mode_of,
}
use selfremote.Sites.Forms.{install_code, lower, valid_agent_id, is_blank_text, parse_agent_routes}
use selfremote.Sites.Check.{Verdict, valid, invalid, panics, validate_route_set}
use selfremote.Sites.Handle.{Post, check_csrf, install_code_ttl}

-- What the form of a new site holds.
pub record SiteForm : Type 0 where
  pub name : List ℕ
  pub agent_id : List ℕ
  pub routes : List ℕ

module _ (codec : Codec) where
  -- `assignRoutes`; `none` is an error.
  unfoldable pub assign : World → Sites → Option ℕ → List AgentRoute → Option (List AgentRoute)
  unfolding route_mode_of assign_routes other_effective_prefixes
  assign w t self reals =
      let used = other_effective_prefixes codec self t.rows in
      if w.relisted_ok
      then assign_routes codec.parse_prefix codec.print (route_mode_of w t) reals used
      else none

  -- `allocAgentIP`
  unfoldable pub alloc_agent_ip : World → Sites → Option ℕ
  unfolding site_ips alloc_ip
  alloc_agent_ip w t =
      if w.in_use_ok
      then (elim (alloc_ip (w.devices ++ site_ips t.rows) agent_ip_first agent_ip_last) [
        | none ↦ none
        | some (ip, _) ↦ some ip
      ])
      else none

  abbrev pub new_site : World → Post → List ℕ → List ℕ → List AgentRoute → List ℕ → ℕ → Site
  new_site w p agent_id name routes code ip = record {
    id = 0;
    user_id = p.user;
    agent_id = agent_id;
    name = if is_blank_text name then agent_id else name;
    public_key = none;
    tunnel_ip = some ip;
    totp_secret = [];
    enabled = true;
    routes = routes;
    enroll_code = code;
    enroll_expires = w.now + install_code_ttl;
    enrolled_at = 0;
  }

  abbrev pub added : World → Sites → Option Sites → Sites × Reply
  added w t none = (t, conflict)
  added w t (some t') = (sync w t', done)

  -- The end of `handleAgentCreate`: the code, the address, the row.
  abbrev pub store_site :
      World
      → Post
      → Sites
      → List ℕ
      → List ℕ
      → List AgentRoute
      → Option (List ℕ)
      → Option ℕ
      → Sites × Reply
  store_site w p t agent_id name routes none ip = (t, failed)
  store_site w p t agent_id name routes (some code) none = (t, refused)
  store_site w p t agent_id name routes (some code) (some ip) =
      added w t
        (if w.first_ok then add_site codec (new_site w p agent_id name routes code ip) t else none)

  abbrev pub judged : Verdict → Sites → Sites × Reply → Sites × Reply
  judged valid t next = next
  judged invalid t next = (t, refused)
  judged panics t next = (t, panicked)

  abbrev pub create_assigned :
      World → Post → Sites → List ℕ → List ℕ → Option (List AgentRoute) → Sites × Reply
  create_assigned w p t agent_id name none = (t, refused)
  create_assigned w p t agent_id name (some routes) =
      judged (validate_route_set codec routes t.rows none []) t
        (store_site w p t agent_id name routes (install_code w) (alloc_agent_ip w t))

  abbrev pub create_parsed :
      World → Post → Sites → List ℕ → List ℕ → Option (List AgentRoute) → Sites × Reply
  create_parsed w p t agent_id name none = (t, refused)
  create_parsed w p t agent_id name (some []) = (t, refused)
  create_parsed w p t agent_id name (some (r ∷ rs)) =
      let exists : Bool = elim (site_by_agent_id codec agent_id t.rows) [
        | none ↦ false
        | some _ ↦ true
      ] in
      if w.found_ok && exists
      then (t, conflict)
      else if not w.listed_ok
      then (t, failed)
      else create_assigned w p t agent_id name (assign w t none (r ∷ rs))

  -- `handleAgentCreate`
  unfoldable pub handle_agent_create : World → Post → SiteForm → Sites → Sites × Reply
  unfolding check_csrf valid_agent_id parse_agent_routes site_by_agent_id assign validate_route_set
      alloc_agent_ip add_site sync
  handle_agent_create w p f t =
      let agent_id = map lower (trim_space f.agent_id) in
      if not (check_csrf p)
      then (t, bad_csrf)
      else if not (valid_agent_id agent_id)
      then (t, refused)
      else create_parsed w p t agent_id (trim_space f.name) (parse_agent_routes codec f.routes)
