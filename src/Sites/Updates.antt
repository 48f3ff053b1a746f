-- ===== src/Sites/Updates.antt =====
-- The statements on the table of sites keep the published prefixes apart.
use selfremote.Common.{
  ℕ, ◌+◌, ◌<◌, ◌≡◌, ◌≢◌, refl, sym, ◌∙◌, subst, ap, false, not, ◌&&◌, List, [], ◌∷◌, Option, none,
  some, map, ◌==◌, if◌then◌else◌, if_cases, arith, All, All-weaken,
}
use selfremote.Routes.{AgentRoute, overlaps_any, reserved_prefixes}
use selfremote.Sites.{
  Site, Sites, Codec, World, change, without, delete_site, sync, add_site, effective_prefixes,
  site_by_agent_id, bound, key_taken,
}
use selfremote.Sites.Handle.{bind}
use selfremote.Sites.Tables.{Clear, Clear-sym, published, IsFar, AllFar, IsTable}

-- What holds of a table, where there is one.
abbrev pub OnSome : (Sites → Type 0) → Option Sites → Type 0
OnSome P none = Unit
OnSome P (some t) = P t

All-map :
    (P : Site → Type 0) (g : Site → Site) (rows : List Site)
    → All (λ s. P (g s)) rows
    → All P (map g rows)
All-map P g [] h = tt
All-map P g (s ∷ rows) h = (h.0, All-map P g rows h.1)

All-both :
    (P Q R : Site → Type 0)
    → ((s : Site) → P s → Q s → R s)
    → (rows : List Site) → All P rows
    → All Q rows
    → All R rows
All-both P Q R f [] hp hq = tt
All-both P Q R f (s ∷ rows) hp hq = (f s hp.0 hq.0, All-both P Q R f rows hp.1 hq.1)

without-All : (P : Site → Type 0) (id : ℕ) (rows : List Site) → All P rows → All P (without id rows)
unfolding without
without-All P id [] h = tt
without-All P id (s ∷ rows) h =
    let rest = without-All P id rows h.1 in
    if_cases (All P) (s.id == id) (without id rows) (s ∷ without id rows) (λ here. rest)
      (λ other. (h.0, rest))

module _ (codec : Codec) where
  abbrev Own : Site → Type 0
  Own s = All (λ p. overlaps_any p reserved_prefixes ≡ false) (published codec s)

  map-AllFar :
      (g : Site → Site) (Q : Site → Type 0)
      → ((s u : Site) → Q s → Q u → IsFar codec s u → IsFar codec (g s) (g u))
      → (rows : List Site) → All Q rows
      → AllFar codec rows
      → AllFar codec (map g rows)
  map-AllFar g Q step [] q h = tt
  map-AllFar g Q step (s ∷ rows) q h = (
    All-map (IsFar codec (g s)) g rows (
        All-both Q (IsFar codec s) (λ u. IsFar codec (g s) (g u)) (λ u qu far. step s u q.0 qu far)
          rows q.1 h.0),
    map-AllFar g Q step rows q.1 h.1,
  )

  -- One site is written, which keeps its number.
  change-IsTable :
      (id : ℕ) (f : Site → Site) (t : Sites) (Q : Site → Type 0)
      → ((s : Site) → (f s).id ≡ s.id)
      → All Q t.rows
      → ((s : Site) → Own s → Own (f s))
      → ((s u : Site)
          → Q s
          → Q u
          → s.id ≡ id
          → u.id ≢ id
          → IsFar codec s u
          → Clear (published codec (f s)) (published codec u))
      → IsTable codec t
      → IsTable codec (change id f t)
  unfolding change
  change-IsTable id f t Q keeps facts own clear h =
      let g = λ (s : Site). if s.id == id then f s else s in
      let numbered = λ (s : Site).
        if_cases (λ (x : Site). x.id ≡ s.id) (s.id == id) (f s) s (λ here. keeps s)
          (λ other. refl) in
      record {
        below =
            All-map (λ s. s.id < t.next) g t.rows
              (All-weaken (λ s lt. let e = numbered s in omega (arith, e, lt)) t.rows h.below);
        own = All-map Own g t.rows (
            All-weaken (λ s o. if_cases Own (s.id == id) (f s) s (λ here. own s o) (λ other. o))
              t.rows h.own);
        far =
            map-AllFar g Q
              (λ s u qs qu far. record {
                other = λ same. far.other (sym (numbered s) ∙ (same ∙ numbered u));
                clear =
                    if_cases (λ (x : Site). Clear (published codec x) (published codec (g u)))
                      (s.id == id) (f s) s
                      (λ here.
                        if_cases (λ (y : Site). Clear (published codec (f s)) (published codec y))
                          (u.id == id) (f u) u
                          (λ there. absurd (far.other (ground (arith, here, there))))
                          (λ away.
                            clear s u qs qu (ground (arith, here)) (ground (arith, away)) far))
                      (λ off.
                        if_cases (λ (y : Site). Clear (published codec s) (published codec y))
                          (u.id == id) (f u) u
                          (λ there. Clear-sym (published codec (f u)) (published codec s) (
                            clear u s qu qs (ground (arith, there)) (ground (arith, off)) (record {
                              other = λ same. far.other (sym same);
                              clear = Clear-sym (published codec s) (published codec u) far.clear;
                            })))
                          (λ away. far.clear));
              })
              t.rows facts h.far;
      }

  -- One that keeps its routes as well.
  pub touch-IsTable :
      (id : ℕ) (f : Site → Site) (t : Sites)
      → ((s : Site) → (f s).id ≡ s.id)
      → ((s : Site) → (f s).routes ≡ s.routes)
      → IsTable codec t
      → IsTable codec (change id f t)
  touch-IsTable id f t keeps same h =
      let shown = λ (s : Site). ap (λ rs. effective_prefixes codec rs) (same s) in
      change-IsTable id f t (λ s. s.id < t.next) keeps h.below
        (λ s o. subst (All (λ p. overlaps_any p reserved_prefixes ≡ false)) (sym (shown s)) o)
        (λ s u qs qu here away far.
          subst (λ ps. Clear ps (published codec u)) (sym (shown s)) far.clear)
        h

  -- New routes that are clear of the other sites'.
  pub routes-IsTable :
      (id : ℕ) (routes : List AgentRoute) (t : Sites)
      → All (λ p. overlaps_any p reserved_prefixes ≡ false) (effective_prefixes codec routes)
      → All (λ u. u.id ≢ id → Clear (effective_prefixes codec routes) (published codec u)) t.rows
      → IsTable codec t
      → IsTable codec (change id (λ s. record s { routes = routes }) t)
  routes-IsTable id routes t own clear h =
      change-IsTable id (λ s. record s { routes = routes }) t
        (λ u. u.id ≢ id → Clear (effective_prefixes codec routes) (published codec u)) (λ s. refl)
        clear (λ s o. own) (λ s u qs qu here away far. qu away) h

  pub delete-IsTable : (id : ℕ) (t : Sites) → IsTable codec t → IsTable codec (delete_site id t)
  unfolding without
  delete-IsTable id t h = record {
    below = without-All (λ s. s.id < t.next) id t.rows h.below;
    own = without-All Own id t.rows h.own;
    far = kept t.rows h.far;
  }
    where
      kept : (rows : List Site) → AllFar codec rows → AllFar codec (without id rows)
      kept [] far = tt
      kept (s ∷ rows) far =
          if_cases (AllFar codec) (s.id == id) (without id rows) (s ∷ without id rows)
            (λ here. kept rows far.1)
            (λ other. (without-All (IsFar codec s) id rows far.0, kept rows far.1))

  pub sync-IsTable : (w : World) (t : Sites) → IsTable codec t → IsTable codec (sync w t)
  unfolding sync
  sync-IsTable w t h =
      if_cases (IsTable codec) w.synced_ok _ t
        (λ wrote. record { below = h.below; own = h.own; far = h.far }) (λ failed. h)

  pub add_site-IsTable :
      (s : Site) (t : Sites)
      → All (λ p. overlaps_any p reserved_prefixes ≡ false) (published codec s)
      → All (λ u. Clear (published codec s) (published codec u)) t.rows
      → IsTable codec t
      → OnSome (IsTable codec) (add_site codec s t)
  unfolding add_site
  add_site-IsTable s t own clear h =
      let fresh = record s { id = t.next } in
      let t' = record t { rows = fresh ∷ t.rows; next = t.next + 1 } in
      let table : IsTable codec t' = record {
        below = (omega arith, All-weaken (λ u lt. omega (arith, lt)) t.rows h.below);
        own = (own, h.own);
        far = (
          All-both (λ u. u.id < t.next) (λ u. Clear (published codec s) (published codec u))
              (IsFar codec fresh)
              (λ u lt c. record { other = λ same. omega (arith, lt, same); clear = c }) t.rows
              h.below clear,
          h.far,
        );
      } in
      elim (site_by_agent_id codec s.agent_id t.rows)
        as (λ o. OnSome (IsTable codec) (elim o [ some _ ↦ none | none ↦ some t' ])) [
          | some _ ↦ tt
          | none ↦ table
        ]

  pub bind-IsTable :
      (w : World) (id : ℕ) (key : List ℕ) (t : Sites)
      → IsTable codec t
      → OnSome (IsTable codec) (bind codec w id key t)
  unfolding bind
  bind-IsTable w id key t h =
      if_cases (OnSome (IsTable codec)) (w.first_ok && not (key_taken codec id key t.rows))
        (some (change id (bound key w.now) t)) none
        (λ fine. touch-IsTable id (bound key w.now) t (λ s. refl) (λ s. refl) h) (λ over. tt)
