-- ===== src/Agent/Same.antt =====
-- The comparison of routes against its specification: the same routes in some order.
use selfremote.Common.{
  ◌≡◌, ◌↔◌, refl, sym, subst, ap, ◌∙◌, true, String, str_eq, List, [], ◌∷◌, length, suc, arith,
}
use mathlib.Core.Logic.{∥∥₁_elim}
use mathlib.Core.List.{Perm, Permᴰ}
use mathlib.Core.List.Perm
use selfremote.Common.Text.{str_less}
use selfremote.Common.Text.Laws.{str_less_trans, str_less_asym, str_less_total}
use selfremote.Engine.Names.{str_eq_sound, str_eq_refl}
use selfremote.Engine.Tables.Sorting.{sort_by}
use selfremote.Engine.Tables.Sorting.Canonical.{sort_by-same, sort_by-Perm}
use selfremote.Agent.{equal_texts, same_routes}

equal_texts_sound : (a b : List String) → equal_texts a b ≡ true → a ≡ b
equal_texts_sound [] [] e = refl
equal_texts_sound [] (y ∷ b) e = cc
equal_texts_sound (x ∷ a) [] e = cc
equal_texts_sound (x ∷ a) (y ∷ b) e =
    let same : str_eq x y ≡ true = ground (arith, e) in
    let rest : equal_texts a b ≡ true = ground (arith, e) in
    ap (λ z. z ∷ a) (str_eq_sound x y same) ∙ ap (λ l. y ∷ l) (equal_texts_sound a b rest)

equal_texts_refl : (a : List String) → equal_texts a a ≡ true
equal_texts_refl [] = refl
equal_texts_refl (x ∷ a) = ground (arith, str_eq_refl x, equal_texts_refl a)

length-Permᴰ : (a b : List String) → Permᴰ a b → length a ≡ length b
length-Permᴰ a b Permᴰ.nil = refl
length-Permᴰ (x ∷ a) (y ∷ b) (Permᴰ.cons e d) = ap suc (length-Permᴰ a b d)
length-Permᴰ (x ∷ y ∷ a) (y' ∷ x' ∷ b) (Permᴰ.swap e f) = refl
length-Permᴰ a c (Permᴰ.trans {l₂ = b} d d') = length-Permᴰ a b d ∙ length-Permᴰ b c d'

same_routes-Perm : (a b : List String) → same_routes a b ≡ true → Perm a b
unfolding same_routes
same_routes-Perm a b e =
    let equal : equal_texts (sort_by str_less a) (sort_by str_less b) ≡ true = ground (arith, e) in
    let sorted = equal_texts_sound (sort_by str_less a) (sort_by str_less b) equal in
    Perm.trans (Perm.symm (sort_by-Perm str_less a))
      (subst (λ l. Perm l b) (sym sorted) (sort_by-Perm str_less b))

Permᴰ-same_routes : (a b : List String) → Permᴰ a b → same_routes a b ≡ true
unfolding same_routes
Permᴰ-same_routes a b d =
    let long = length-Permᴰ a b d in
    let sorted = sort_by-same str_less str_less_trans str_less_asym str_less_total a b d in
    let equal : equal_texts (sort_by str_less a) (sort_by str_less b) ≡ true =
      subst (λ l. equal_texts (sort_by str_less a) l ≡ true) sorted
        (equal_texts_refl (sort_by str_less a)) in
    ground (arith, long, equal)

-- Two lists of routes compare as the same exactly when one is a permutation of the other.
pub same_routes-IsPerm : (a b : List String) → (same_routes a b ≡ true) ↔ Perm a b
same_routes-IsPerm a b =
    (λ e. same_routes-Perm a b e, λ p. ∥∥₁_elim p (hlevel) (Permᴰ-same_routes a b))
