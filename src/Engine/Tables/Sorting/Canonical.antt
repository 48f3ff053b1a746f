-- ===== src/Engine/Tables/Sorting/Canonical.antt =====
-- Sorting by a strict total order: the result is a permutation, and the same for all permutations.
use selfremote.Common.{
  ◌≡◌, refl, sym, ◌∙◌, ap, subst, Bool, true, false, List, [], ◌∷◌, ◌++◌, Bool-cases, inl, inr,
  arith,
}
use mathlib.Core.List.{Perm, Permᴰ, append-nil, perm_middle}
use mathlib.Core.List.Perm
use selfremote.Engine.Tables.Sorting.{insert_by, sort_into, sort_by}

module _ {ℓ} {A : Type ℓ} (less : A → A → Bool) where
  insert_by-Perm : (x : A) (ys : List A) → Perm (insert_by less x ys) (x ∷ ys)
  unfolding insert_by
  insert_by-Perm x [] = Perm.refl (x ∷ [])
  insert_by-Perm x (y ∷ ys) = elim (Bool-cases (less x y)) [
    | inl e ↦ rw e (Perm.refl (x ∷ y ∷ ys))
    | inr e ↦ rw e (Perm.trans (Perm.cons y (insert_by-Perm x ys)) (Perm.swap x y ys))
  ]

  sort_into-Perm : (sorted xs : List A) → Perm (sort_into less sorted xs) (xs ++ sorted)
  unfolding sort_into
  sort_into-Perm sorted [] = Perm.refl sorted
  sort_into-Perm sorted (x ∷ xs) =
      Perm.trans (sort_into-Perm (insert_by less x sorted) xs)
        (Perm.trans (Perm.append_left xs (insert_by-Perm x sorted)) (perm_middle xs sorted))

  module _ (trans : (x y z : A) → less x y ≡ true → less y z ≡ true → less x z ≡ true)
      (asym : (x y : A) → less x y ≡ true → less y x ≡ false)
      (total : (x y : A) → less x y ≡ false → less y x ≡ false → x ≡ y) where
    insert_by-less :
        (x y : A) (zs : List A)
        → less x y ≡ true
        → insert_by less x (insert_by less y zs) ≡ insert_by less y (insert_by less x zs)
    unfolding insert_by
    insert_by-less x y [] h = ground (arith, h, asym x y h)
    insert_by-less x y (z ∷ zs) h = elim (Bool-cases (less y z)) [
      | inl second ↦ ground (arith, h, asym x y h, second, trans x y z h second)
      | inr past ↦ elim (Bool-cases (less x z)) [
        | inl first ↦ ground (arith, h, asym x y h, past, first)
        | inr beyond ↦ ground (arith, h, past, beyond, insert_by-less x y zs h)
      ]
    ]

    insert_by_comm :
        (x y : A) (zs : List A)
        → insert_by less x (insert_by less y zs) ≡ insert_by less y (insert_by less x zs)
    insert_by_comm x y zs = elim (Bool-cases (less x y)) [
      | inl h ↦ insert_by-less x y zs h
      | inr n ↦ elim (Bool-cases (less y x)) [
        | inl h ↦ sym (insert_by-less y x zs h)
        | inr m ↦ let same = total x y n m in rw same refl
      ]
    ]

    sort_into-same :
        (sorted xs ys : List A) → Permᴰ xs ys → sort_into less sorted xs ≡ sort_into less sorted ys
    unfolding sort_into
    sort_into-same sorted xs ys Permᴰ.nil = refl
    sort_into-same sorted (x ∷ xs) (y ∷ ys) (Permᴰ.cons e d) =
        ap (λ z. sort_into less (insert_by less z sorted) xs) e
        ∙ sort_into-same (insert_by less y sorted) xs ys d
    sort_into-same sorted (x ∷ y ∷ l) (y' ∷ x' ∷ m) (Permᴰ.swap e f) =
        ap (λ s. sort_into less s l) (insert_by_comm y x sorted)
        ∙ (ap (λ z. sort_into less (insert_by less x (insert_by less z sorted)) l) f
            ∙ ap (λ z. sort_into less (insert_by less z (insert_by less y' sorted)) l) e)
    sort_into-same sorted xs zs (Permᴰ.trans {l₂ = ys} d d') =
        sort_into-same sorted xs ys d ∙ sort_into-same sorted ys zs d'

    pub sort_by-same : (xs ys : List A) → Permᴰ xs ys → sort_by less xs ≡ sort_by less ys
    unfolding sort_by
    sort_by-same xs ys d = sort_into-same [] xs ys d

  pub sort_by-Perm : (xs : List A) → Perm (sort_by less xs) xs
  unfolding sort_by
  sort_by-Perm xs = subst (Perm (sort_into less [] xs)) (append-nil xs) (sort_into-Perm [] xs)
