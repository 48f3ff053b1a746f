-- ===== src/Sites/Creation.antt =====
-- The creation of a site keeps the published prefixes apart (internal/webapp/agents.go).
use selfremote.Common.{
  ℕ, ◌≡◌, refl, false, not, str_eq, List, [], ◌∷◌, Option, none, some, map, if◌then◌else◌, if_cases,
  arith, All, All-weaken, Option-cases, Bool-cases, inl, inr,
}
use selfremote.Auth.{trim_space}
use selfremote.Net.{Prefix}
use selfremote.Routes.{AgentRoute, overlaps_any, reserved_prefixes}
use selfremote.Routes.Apart.{assign_routes-StayApart}
use selfremote.Sites.{
  Sites, Codec, World, Reply, bad_csrf, refused, site_by_agent_id, add_site, effective_prefixes,
  other_effective_prefixes, route_mode_of, is_self,
}
use selfremote.Sites.Forms.{install_code, lower, valid_agent_id, parse_agent_routes}
use selfremote.Sites.Check.{Verdict, valid, invalid, panics, validate_route_set}
use selfremote.Sites.Create.{
  SiteForm, assign, alloc_agent_ip, new_site, added, store_site, judged, create_assigned,
  create_parsed, handle_agent_create,
}
use selfremote.Sites.Handle.{Post, check_csrf}
use selfremote.Sites.Tables.{Clear, published, IsTable, assigned-Clear, assigned-own}
use selfremote.Sites.Updates.{OnSome, sync-IsTable, add_site-IsTable}
use selfremote.Sites.Posts.{Kept}

module _ (codec : Codec) where
  -- What an assignment for a site hands out is its own.
  pub record IsClear (self : Option ℕ) (t : Sites) (out : List AgentRoute) : Type 0 where
    pub own : All (λ p. overlaps_any p reserved_prefixes ≡ false) (effective_prefixes codec out)
    pub clear :
        All
          (λ u.
            is_self codec self u.id ≡ false
            → Clear (effective_prefixes codec out) (published codec u))
          t.rows

  module _ (visible : (p : Prefix) → str_eq (codec.print p) "" ≡ false)
      (faithful : (p q : Prefix) → codec.parse_prefix (codec.print p) ≡ some q → q ≡ p) where
    pub assign-IsClear :
        (w : World) (t : Sites) (self : Option ℕ) (reals out : List AgentRoute)
        → assign codec w t self reals ≡ some out
        → IsClear self t out
    unfolding assign
    assign-IsClear w t self reals out e =
        let used = other_effective_prefixes codec self t.rows in
        elim (Bool-cases w.relisted_ok) [
          | inr over ↦ absurd (ground (arith, over))
          | inl fine ↦
              let apart =
                assign_routes-StayApart codec.parse_prefix codec.print visible (route_mode_of w t)
                  reals used out (ground (arith, fine)) in
              record {
                own = assigned-own codec faithful used out apart;
                clear = assigned-Clear codec faithful self t.rows out apart;
              }
        ]

    -- The creation of a site.
    added-Kept :
        (w : World) (t : Sites) (o : Option Sites)
        → OnSome (IsTable codec) o
        → IsTable codec t
        → Kept codec (added codec w t o)
    added-Kept w t none h' h = h
    added-Kept w t (some t') h' h = sync-IsTable codec w t' h'

    store_site-Kept :
        (w : World) (p : Post) (t : Sites) (agent_id name : List ℕ) (routes : List AgentRoute)
        (code : Option (List ℕ)) (ip : Option ℕ)
        → IsClear none t routes
        → IsTable codec t
        → Kept codec (store_site codec w p t agent_id name routes code ip)
    store_site-Kept w p t agent_id name routes none ip c h = h
    store_site-Kept w p t agent_id name routes (some code) none c h = h
    store_site-Kept w p t agent_id name routes (some code) (some ip) c h =
        let s = new_site codec w p agent_id name routes code ip in
        added-Kept w t (if w.first_ok then add_site codec s t else none)
          (if_cases (OnSome (IsTable codec)) w.first_ok (add_site codec s t) none
            (λ fine.
              add_site-IsTable codec s t c.own (All-weaken (λ u clear. clear refl) t.rows c.clear)
                h)
            (λ over. tt))
          h

    judged-Kept :
        (v : Verdict) (t : Sites) (r : Sites × Reply)
        → Kept codec r
        → IsTable codec t
        → Kept codec (judged codec v t r)
    judged-Kept valid t r h' h = h'
    judged-Kept invalid t r h' h = h
    judged-Kept panics t r h' h = h

    create_assigned-Kept :
        (w : World) (p : Post) (t : Sites) (agent_id name : List ℕ) (o : Option (List AgentRoute))
        → ((out : List AgentRoute) → o ≡ some out → IsClear none t out)
        → IsTable codec t
        → Kept codec (create_assigned codec w p t agent_id name o)
    create_assigned-Kept w p t agent_id name none clear h = h
    create_assigned-Kept w p t agent_id name (some routes) clear h =
        let ip = alloc_agent_ip codec w t in
        judged-Kept (validate_route_set codec routes t.rows none []) t
          (store_site codec w p t agent_id name routes (install_code w) ip)
          (store_site-Kept w p t agent_id name routes (install_code w) ip (clear routes refl) h) h

    create_parsed-Kept :
        (w : World) (p : Post) (t : Sites) (agent_id name : List ℕ) (o : Option (List AgentRoute))
        → IsTable codec t
        → Kept codec (create_parsed codec w p t agent_id name o)
    create_parsed-Kept w p t agent_id name none h = h
    create_parsed-Kept w p t agent_id name (some []) h = h
    create_parsed-Kept w p t agent_id name (some (r ∷ rs)) h =
        let o = assign codec w t none (r ∷ rs) in
        let stored =
          create_assigned-Kept w p t agent_id name o
            (λ out e. assign-IsClear w t none (r ∷ rs) out e) h in
        elim (Option-cases (site_by_agent_id codec agent_id t.rows)) [
          | inl absent ↦ ground (arith, absent, h, stored)
          | inr (x, present) ↦ ground (arith, present, h, stored)
        ]

    pub handle_agent_create-Kept :
        (w : World) (p : Post) (f : SiteForm) (t : Sites)
        → IsTable codec t
        → Kept codec (handle_agent_create codec w p f t)
    unfolding handle_agent_create
    handle_agent_create-Kept w p f t h =
        let agent_id = map lower (trim_space f.agent_id) in
        let parsed = parse_agent_routes codec f.routes in
        let made = create_parsed codec w p t agent_id (trim_space f.name) parsed in
        if_cases (Kept codec) (not (check_csrf p)) (t, bad_csrf)
          (if not (valid_agent_id agent_id) then (t, refused) else made) (λ bad. h)
          (λ good.
            if_cases (Kept codec) (not (valid_agent_id agent_id)) (t, refused) made (λ wrong. h)
              (λ fine. create_parsed-Kept w p t agent_id (trim_space f.name) parsed h))
