-- ===== src/Routes/Apart.antt =====
-- Published prefixes stay apart.
use selfremote.Common.{
  ◌≡◌, refl, ap, subst, arith, Bool, false, ◌&&◌, ◌||◌, String, str_eq, List, [], ◌∷◌, ◌++◌, Option,
  some, Bool-cases, Option-cases, inl, inr,
}
use selfremote.Net.{Prefix}
use selfremote.Routes.{
  RouteMode, mode_auto, mode_real, mode_virtual, AgentRoute, effective, overlaps_any,
  reserved_prefixes, pool_prefixes, alloc_virtual_prefix, is_real_mode, wants_virtual,
  assign_manual, assign_by_mode, assign_route, assign_routes,
}
use selfremote.Routes.Blocks.{IsFree, alloc_virtual_prefix-IsFree}

pub overlaps_any-append :
    (v : Prefix) (xs ys : List Prefix)
    → overlaps_any v (xs ++ ys) ≡ false
    → overlaps_any v xs ≡ false
unfolding overlaps_any
overlaps_any-append v [] ys h = refl
overlaps_any-append v (x ∷ xs) ys h = ground (arith, overlaps_any-append v xs ys)

module _ (print : Prefix → String) where
  -- Each mapping is published as a prefix that is free of the prefixes in use, of the reserved
  -- ones, and of those published before it.
  abbrev pub StayApart : List Prefix → List AgentRoute → Type 0
  StayApart used [] = Unit
  StayApart used (r ∷ rs) =
      (v : Prefix) × (effective r ≡ print v) × IsFree v used × StayApart (used ++ (v ∷ [])) rs

module _ (parse_prefix : String → Option Prefix) (print : Prefix → String)
    (visible : (p : Prefix) → str_eq (print p) "" ≡ false) where
  manual-IsFree :
      (used : List Prefix) (p : Prefix) (virtual : String) (r : AgentRoute) (v : Prefix)
      → assign_manual parse_prefix print used p virtual ≡ some (r, v)
      → (effective r ≡ print v) × IsFree v used
  unfolding assign_manual effective
  manual-IsFree used p virtual r v e = elim (Option-cases (parse_prefix virtual)) [
    | inl wrong ↦ absurd (ground (arith, wrong))
    | inr (w, read) ↦ elim (Bool-cases (overlaps_any w used || overlaps_any w reserved_prefixes)) [
      | inl taken ↦ absurd (ground (arith, read, taken))
      | inr free ↦
          let same : w ≡ v = ground (arith, read, free) in
          let made : r ≡ (record { real = print p; virtual = print w }) =
            ground (arith, read, free) in
          (
            rw made (ground (arith, same, visible w)),
            subst (λ x. IsFree x used) same
                (record { of_used = ground (arith, free); of_reserved = ground (arith, free) }),
          )
    ]
  ]

  by_mode-IsFree :
      (mode : RouteMode) (used : List Prefix) (p : Prefix) (r : AgentRoute) (v : Prefix)
      → assign_by_mode parse_prefix print mode used p ≡ some (r, v)
      → (effective r ≡ print v) × IsFree v used
  unfolding assign_by_mode effective
  by_mode-IsFree mode used p r v e =
      let reserved = overlaps_any p reserved_prefixes || overlaps_any p pool_prefixes in
      let conflict = reserved || overlaps_any p used in
      elim (Bool-cases (is_real_mode mode && conflict)) [
        | inl refused ↦ absurd (ground (arith, refused))
        | inr kept ↦ elim (Bool-cases (wants_virtual mode conflict)) [
          | inl wanted ↦ elim (Option-cases (alloc_virtual_prefix p (used ++ (p ∷ [])))) [
            | inl full ↦ absurd (ground (arith, kept, wanted, full))
            | inr (w, found) ↦
                let same : w ≡ v = ground (arith, kept, wanted, found) in
                let made : r ≡ (record { real = print p; virtual = print w }) =
                  ground (arith, kept, wanted, found) in
                let free = alloc_virtual_prefix-IsFree p (used ++ (p ∷ [])) w found in
                (
                  rw made (ground (arith, same, visible w)),
                  subst (λ x. IsFree x used) same
                      (record {
                        of_used = overlaps_any-append w used (p ∷ []) free.of_used;
                        of_reserved = free.of_reserved;
                      }),
                )
          ]
          | inr plain ↦
              let same : p ≡ v = ground (arith, kept, plain) in
              let made : r ≡ (record { real = print p; virtual = "" }) =
                ground (arith, kept, plain) in
              let clear = no_conflict mode conflict kept plain in
              (
                rw made (ap print same),
                subst (λ x. IsFree x used) same
                    (record {
                      of_used = ground (arith, clear);
                      of_reserved = ground (arith, clear);
                    }),
              )
        ]
      ]
    where
      no_conflict :
          (m : RouteMode) (c : Bool)
          → (is_real_mode m && c) ≡ false
          → wants_virtual m c ≡ false
          → c ≡ false
      no_conflict mode_auto c k w = w
      no_conflict mode_real c k w = k
      no_conflict mode_virtual c k w = cc

  route-IsFree :
      (mode : RouteMode) (used : List Prefix) (rt r : AgentRoute) (v : Prefix)
      → assign_route parse_prefix print mode used rt ≡ some (r, v)
      → (effective r ≡ print v) × IsFree v used
  unfolding assign_route
  route-IsFree mode used rt r v e = elim (Option-cases (parse_prefix rt.real)) [
    | inl wrong ↦ absurd (ground (arith, wrong))
    | inr (p, read) ↦ elim (Bool-cases (str_eq rt.virtual "")) [
      | inl plain ↦ by_mode-IsFree mode used p r v (ground (arith, read, plain))
      | inr manual ↦ manual-IsFree used p rt.virtual r v (ground (arith, read, manual))
    ]
  ]

  -- Where the assignment of a site's prefixes succeeds, in any mode, it publishes for each a prefix
  -- that overlaps none of those other sites publish, none reserved, and none of the site's own
  -- published before it.
  pub assign_routes-StayApart :
      (mode : RouteMode) (reals : List AgentRoute) (used : List Prefix) (out : List AgentRoute)
      → assign_routes parse_prefix print mode reals used ≡ some out
      → StayApart print used out
  unfolding assign_routes
  assign_routes-StayApart mode [] used out e =
      let same : [] ≡ out = ground arith in subst (StayApart print used) same tt
  assign_routes-StayApart mode (rt ∷ reals) used out e =
      elim (Option-cases (assign_route parse_prefix print mode used rt)) [
        | inl wrong ↦ absurd (ground (arith, wrong))
        | inr ((r, v), first) ↦
            elim (Option-cases (assign_routes parse_prefix print mode reals (used ++ (v ∷ [])))) [
              | inl stuck ↦ absurd (ground (arith, first, stuck))
              | inr (rest, more) ↦
                  let same : (r ∷ rest) ≡ out = ground (arith, first, more) in
                  let (shown, free) = route-IsFree mode used rt r v first in
                  subst (StayApart print used) same (
                    v,
                    shown,
                    free,
                    assign_routes-StayApart mode reals (used ++ (v ∷ [])) rest more,
                  )
            ]
      ]
