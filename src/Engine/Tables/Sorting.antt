-- ===== src/Engine/Tables/Sorting.antt =====
-- `sort.Slice`, as a stable insertion sort: Go leaves the order of equal elements open, and this is
-- one of the orders that it allows.
pub mod Canonical
use selfremote.Common.{
  ◌≡◌, Bool, true, false, List, [], ◌∷◌, All, if◌then◌else◌, Bool-cases, inl, inr,
}

module _ {ℓ} {A : Type ℓ} (less : A → A → Bool) where
  unfoldable pub insert_by : A → List A → List A
  insert_by x [] = x ∷ []
  insert_by x (y ∷ ys) = let rest = insert_by x ys in if less x y then x ∷ y ∷ ys else y ∷ rest

  unfoldable pub sort_into : List A → List A → List A
  unfolding insert_by
  sort_into sorted [] = sorted
  sort_into sorted (x ∷ xs) = sort_into (insert_by x sorted) xs

  unfoldable pub sort_by : List A → List A
  unfolding sort_into
  sort_by xs = sort_into [] xs

  -- No element stands before one that is less.
  abbrev pub IsSorted : List A → Type 0
  IsSorted [] = Unit
  IsSorted (x ∷ xs) = All (λ y. less y x ≡ false) xs × IsSorted xs

  All-insert_by {κ} :
      (P : A → Type κ) (x : A) (ys : List A) → P x → All P ys → All P (insert_by x ys)
  unfolding insert_by
  All-insert_by P x [] h hs = (h, tt)
  All-insert_by P x (y ∷ ys) h hs = elim (Bool-cases (less x y)) [
    | inl e ↦ rw e (h, hs)
    | inr e ↦ rw e (hs.0, All-insert_by P x ys h hs.1)
  ]

  All-sort_into {κ} :
      (P : A → Type κ) (sorted xs : List A) → All P sorted → All P xs → All P (sort_into sorted xs)
  unfolding sort_into
  All-sort_into P sorted [] h hs = h
  All-sort_into P sorted (x ∷ xs) h hs =
      All-sort_into P (insert_by x sorted) xs (All-insert_by P x sorted hs.0 h) hs.1

  pub All-sort_by {κ} : (P : A → Type κ) (xs : List A) → All P xs → All P (sort_by xs)
  unfolding sort_by
  All-sort_by P xs hs = All-sort_into P [] xs tt hs

  module _ (irrefl : (x y : A) → less x y ≡ true → less y x ≡ false)
      (trans : (x y z : A) → less y x ≡ false → less z y ≡ false → less z x ≡ false) where
    All-trans :
        (x y : A) (zs : List A)
        → less y x ≡ false
        → All (λ z. less z y ≡ false) zs
        → All (λ z. less z x ≡ false) zs
    All-trans x y [] h hs = tt
    All-trans x y (z ∷ zs) h hs = (trans x y z h hs.0, All-trans x y zs h hs.1)

    insert_by-IsSorted : (x : A) (ys : List A) → IsSorted ys → IsSorted (insert_by x ys)
    unfolding insert_by
    insert_by-IsSorted x [] s = (tt, tt)
    insert_by-IsSorted x (y ∷ ys) s = elim (Bool-cases (less x y)) [
      | inl e ↦ rw e ((irrefl x y e, All-trans x y ys (irrefl x y e) s.0), s)
      | inr e ↦ rw e (All-insert_by (λ z. less z y ≡ false) x ys e s.0, insert_by-IsSorted x ys s.1)
    ]

    sort_into-IsSorted : (sorted xs : List A) → IsSorted sorted → IsSorted (sort_into sorted xs)
    unfolding sort_into
    sort_into-IsSorted sorted [] s = s
    sort_into-IsSorted sorted (x ∷ xs) s =
        sort_into-IsSorted (insert_by x sorted) xs (insert_by-IsSorted x sorted s)

    pub sort_by-IsSorted : (xs : List A) → IsSorted (sort_by xs)
    unfolding sort_by
    sort_by-IsSorted xs = sort_into-IsSorted [] xs tt
