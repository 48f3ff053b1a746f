-- ===== src/Sites/Owner.antt =====
-- Who may change the table of sites.
use selfremote.Common.{
  ℕ, ◌+◌, ◌≡◌, ◌⊎◌, inl, inr, refl, sym, ◌∙◌, ap, true, not, ◌&&◌, List, [], ◌∷◌, Option, none,
  some, map, ltb, ◌==◌, length, if◌then◌else◌, if_cases, arith, Option-cases, Bool-cases, ==_iff,
}
use selfremote.Net.Bytes.{eq_of_bytes_eq}
use selfremote.Sites.{
  Site, Sites, Codec, World, Reply, bad_csrf, forbidden, refused, failed, unavailable, done, change,
  without, sync, reset_key, with_code, bound, site_by_agent_id, key_taken,
}
use selfremote.Sites.Handle.{
  Post, PackageForm, check_csrf, may_touch, on_found, with_site, rotate_code, rotate_secret, bind,
  with_bound, mint, install_code_ttl,
}

-- The other sites are as they were.
abbrev pub Spares : ℕ → Sites → Sites → Type 0
Spares id t t' = without id t'.rows ≡ without id t.rows

abbrev pub Spared : ℕ → Sites → Sites × Reply → Type 0
Spared id t r = Spares id t r.0

without-map :
    (id : ℕ) (f : Site → Site) (rows : List Site)
    → ((s : Site) → (f s).id ≡ s.id)
    → without id (map (λ (s : Site). if s.id == id then f s else s) rows) ≡ without id rows
unfolding without
without-map id f [] keeps = refl
without-map id f (s ∷ rows) keeps =
    let rest = without-map id f rows keeps in
    let k = keeps s in
    elim (Bool-cases (s.id == id)) [
      | inl here ↦ ground (arith, here, k, rest)
      | inr other ↦ ground (arith, other, rest)
    ]

pub change-Spares :
    (id : ℕ) (f : Site → Site) (t : Sites)
    → ((s : Site) → (f s).id ≡ s.id)
    → Spares id t (change id f t)
unfolding change
change-Spares id f t keeps = without-map id f t.rows keeps

pub without-twice : (id : ℕ) (rows : List Site) → without id (without id rows) ≡ without id rows
unfolding without
without-twice id [] = refl
without-twice id (s ∷ rows) = ground (arith, without-twice id rows)

pub sync-rows : (w : World) (t : Sites) → (sync w t).rows ≡ t.rows
unfolding sync
sync-rows w t =
    if_cases (λ (x : Sites). x.rows ≡ t.rows) w.synced_ok _ t (λ wrote. refl) (λ failed. refl)

pub sync-Spares : (w : World) (id : ℕ) (t t' : Sites) → Spares id t t' → Spares id t (sync w t')
sync-Spares w id t t' h = ap (without id) (sync-rows w t') ∙ h

module _ (codec : Codec) where
  pub check_csrf-token : (p : Post) → check_csrf p ≡ true → p.session ≡ some p.csrf
  unfolding check_csrf
  check_csrf-token p e = elim (Option-cases p.session) [
    | inl gone ↦ absurd (ground (arith, gone, e))
    | inr (token, held) ↦
        let same = eq_of_bytes_eq p.csrf token (ground (arith, held, e)) in
        held ∙ ap some (sym same)
  ]

  may_touch-owner :
      (p : Post) (s : Site) → may_touch p s ≡ true → (s.user_id ≡ p.user) ⊎ (p.is_admin ≡ true)
  unfolding may_touch
  may_touch-owner p s e = elim (Bool-cases (s.user_id == p.user)) [
    | inl own ↦ inl ((==_iff s.user_id p.user).0 own)
    | inr other ↦ inr (ground (arith, other, e))
  ]

  -- A form with the session's token, by the site's owner or an administrator.
  pub record IsOwnPost (p : Post) (id : List ℕ) (t t' : Sites) : Type 0 where
    pub token : p.session ≡ some p.csrf
    pub site : Site
    pub found : site_by_agent_id codec id t.rows ≡ some site
    pub mine : (site.user_id ≡ p.user) ⊎ (p.is_admin ≡ true)
    pub others : Spares site.id t t'

  abbrev IsChange : Post → List ℕ → Sites → Sites × Reply → Type 0
  IsChange p id t r = (r.0.rows ≡ t.rows) ⊎ IsOwnPost p id t r.0

  pub with_site-IsOwnPost :
      (w : World) (p : Post) (id : List ℕ) (t : Sites) (act : Site → Sites × Reply)
      → ((s : Site) → Spares s.id t (act s).0)
      → IsChange p id t (with_site codec w p id t act)
  unfolding with_site
  with_site-IsOwnPost w p id t act spares = elim (Bool-cases (check_csrf p)) [
    | inr bad ↦ inl (ground (arith, bad))
    | inl good ↦ elim (Bool-cases w.found_ok) [
      | inr lost ↦ inl (ground (arith, good, lost))
      | inl asked ↦ elim (Option-cases (site_by_agent_id codec id t.rows)) [
        | inl absent ↦ inl (ground (arith, good, asked, absent))
        | inr (s, found) ↦ elim (Bool-cases (may_touch p s)) [
          | inr other ↦ inl (ground (arith, good, asked, found, other))
          | inl mine ↦ inr (record {
            token = check_csrf-token p good;
            site = s;
            found = found;
            mine = may_touch-owner p s mine;
            others =
                let kept = spares s in
                let there : with_site codec w p id t act ≡ act s =
                  ground (arith, good, asked, found, mine) in
                ap (λ (r : Sites × Reply). without s.id r.0.rows) there ∙ kept;
          })
        ]
      ]
    ]
  ]

  -- An act that writes no row.
  pub with_site-rows :
      (w : World) (p : Post) (id : List ℕ) (t : Sites) (act : Site → Sites × Reply)
      → ((s : Site) → (act s).0.rows ≡ t.rows)
      → (with_site codec w p id t act).0.rows ≡ t.rows
  unfolding with_site
  with_site-rows w p id t act same =
      let found = if w.found_ok then site_by_agent_id codec id t.rows else none in
      if_cases (λ (r : Sites × Reply). r.0.rows ≡ t.rows) (check_csrf p)
        (on_found codec p t act found) (t, bad_csrf) (λ good. found-rows found) (λ bad. refl)
    where
      found-rows : (found : Option Site) → (on_found codec p t act found).0.rows ≡ t.rows
      found-rows none = refl
      found-rows (some s) =
          if_cases (λ (r : Sites × Reply). r.0.rows ≡ t.rows) (may_touch p s) (act s) (t, forbidden)
            (λ mine. same s) (λ other. refl)

  pub written-Spares :
      (w : World) (id : ℕ) (f : Site → Site) (t : Sites)
      → ((s : Site) → (f s).id ≡ s.id)
      → Spared id t (if w.first_ok then (sync w (change id f t), done) else (t, failed))
  written-Spares w id f t keeps =
      if_cases (Spared id t) w.first_ok (sync w (change id f t), done) (t, failed)
        (λ fine. sync-Spares w id t (change id f t) (change-Spares id f t keeps)) (λ over. refl)

  pub rotate_code-Spares :
      (w : World) (t : Sites) (s : Site) (code : Option (List ℕ))
      → Spares s.id t (rotate_code codec w t s code).0
  rotate_code-Spares w t s none = refl
  rotate_code-Spares w t s (some code) =
      let detached = change s.id reset_key t in
      let f = with_code code (w.now + install_code_ttl) in
      let one = change-Spares s.id reset_key t (λ x. refl) in
      let two = change-Spares s.id f detached (λ x. refl) ∙ one in
      let both = sync-Spares w s.id t (change s.id f detached) two in
      if_cases (Spared s.id t) w.first_ok
        (if w.second_ok then (sync w (change s.id f detached), done) else (detached, failed))
        (t, failed)
        (λ fine.
          if_cases (Spared s.id t) w.second_ok (sync w (change s.id f detached), done)
            (detached, failed) (λ stored. both) (λ lost. one))
        (λ over. refl)

  pub rotate_secret-Spares :
      (w : World) (t : Sites) (s : Site) (secret : Option (List ℕ))
      → Spares s.id t (rotate_secret codec w t s secret).0
  rotate_secret-Spares w t s none = refl
  rotate_secret-Spares w t s (some secret) =
      written-Spares w s.id (λ x. record x { totp_secret = secret }) t (λ x. refl)

  pub bind_cases :
      (w : World) (id : ℕ) (key : List ℕ) (t : Sites)
      → (bind codec w id key t ≡ none)
        ⊎ ((bind codec w id key t ≡ some (change id (bound key w.now) t))
            × Spares id t (change id (bound key w.now) t))
  unfolding bind
  bind_cases w id key t = elim (Bool-cases (w.first_ok && not (key_taken codec id key t.rows))) [
    | inr over ↦ inl (ground (arith, over))
    | inl fine ↦ inr (ground (arith, fine), change-Spares id (bound key w.now) t (λ s. refl))
  ]

  mint-Spares :
      (w : World) (t : Sites) (s : Site) (key : Option (List ℕ))
      → Spares s.id t (mint codec w t s key).0
  mint-Spares w t s none = refl
  mint-Spares w t s (some key) =
      let k = codec.encode_base64 key in
      elim (bind_cases w s.id k t) [
        | inl taken ↦ ap (λ o. without s.id (with_bound codec w t o).0.rows) taken
        | inr (made, spares) ↦
            ap (λ o. without s.id (with_bound codec w t o).0.rows) made
            ∙ sync-Spares w s.id t (change s.id (bound k w.now) t) spares
      ]

  pub package-Spares :
      (w : World) (f : PackageForm) (t : Sites) (s : Site)
      → Spares s.id t
          (if not f.platform_ok
            then (t, refused)
            else if ltb (length f.passphrase) 10
            then (t, refused)
            else if not (w.server_addr && w.hub_key)
            then (t, unavailable)
            else mint codec w t s w.key).0
  package-Spares w f t s = ground (arith, mint-Spares w t s w.key)
