-- ===== src/Engine/Names.antt =====
-- Laws of the maps whose keys are texts.
use selfremote.Common.{
  ◌≡◌, refl, ap, sym, subst, true, false, String, str_eq, eq_iff, List, [], ◌∷◌, none, some, All,
  arith, Bool-cases, inl, inr, if◌then◌else◌,
}
use selfremote.Engine.Heap.{lookup, insert, remove}

pub str_eq_sound : (a b : String) → str_eq a b ≡ true → a ≡ b
str_eq_sound a b e = (eq_iff a b).0 e

pub str_eq_refl : (a : String) → str_eq a a ≡ true
str_eq_refl a = (eq_iff a a).1 refl

module _ {V : Type 0} where
  pub lookup-insert :
      (j k : String) (v : V) (m : List (String × V))
      → lookup str_eq j (insert str_eq k v m) ≡ (if str_eq k j then some v else lookup str_eq j m)
  unfolding lookup insert
  lookup-insert j k v [] = refl
  lookup-insert j k v ((i, w) ∷ m) = elim (Bool-cases (str_eq i k)) [
    | inl same ↦
        let here : i ≡ k = str_eq_sound i k same in
        subst
          (λ x.
            lookup str_eq j (insert str_eq x v ((i, w) ∷ m))
            ≡ (if str_eq x j then some v else lookup str_eq j ((i, w) ∷ m)))
          here (ground (arith, str_eq_refl i))
    | inr other ↦ elim (Bool-cases (str_eq i j)) [
      | inr away ↦ ground (arith, other, away, lookup-insert j k v m)
      | inl found ↦ elim (Bool-cases (str_eq k j)) [
        | inr not_k ↦ ground (arith, other, found, not_k)
        | inl is_k ↦ let clash : str_eq i k ≡ true = rw (str_eq_sound k j is_k) found in cc
      ]
    ]
  ]

  pub lookup-remove :
      (j k : String) (m : List (String × V))
      → lookup str_eq j (remove str_eq k m) ≡ (if str_eq k j then none else lookup str_eq j m)
  unfolding lookup remove
  lookup-remove j k [] = ground arith
  lookup-remove j k ((i, w) ∷ m) = elim (Bool-cases (str_eq i k)) [
    | inl same ↦
        let here : i ≡ k = str_eq_sound i k same in
        ground (arith, same, lookup-remove j k m, ap (λ x. str_eq x j) here)
    | inr other ↦ elim (Bool-cases (str_eq k j)) [
      | inr not_k ↦ ground (arith, other, not_k, lookup-remove j k m)
      | inl is_k ↦
          let same : str_eq i j ≡ false = rw (← str_eq_sound k j is_k) other in
          ground (arith, other, is_k, same, lookup-remove j k m)
    ]
  ]

  pub All-insert {ℓ} :
      (P : String × V → Type ℓ) (k : String) (v : V) (m : List (String × V))
      → P (k, v)
      → All P m
      → All P (insert str_eq k v m)
  unfolding insert
  All-insert P k v [] h hs = (h, tt)
  All-insert P k v ((i, w) ∷ m) h hs = elim (Bool-cases (str_eq i k)) [
    | inl same ↦ rw same (subst (λ x. P (x, v)) (sym (str_eq_sound i k same)) h, hs.1)
    | inr other ↦ rw other (hs.0, All-insert P k v m h hs.1)
  ]

  pub All-remove {ℓ} :
      (P : String × V → Type ℓ) (k : String) (m : List (String × V))
      → All P m
      → All P (remove str_eq k m)
  unfolding remove
  All-remove P k [] hs = tt
  All-remove P k ((i, w) ∷ m) hs = elim (Bool-cases (str_eq i k)) [
    | inl same ↦ rw same (All-remove P k m hs.1)
    | inr other ↦ rw other (hs.0, All-remove P k m hs.1)
  ]

  pub lookup-All {ℓ} :
      (P : String × V → Type ℓ) (k : String) (v : V) (m : List (String × V))
      → All P m
      → lookup str_eq k m ≡ some v
      → P (k, v)
  unfolding lookup
  lookup-All P k v [] hs e = cc
  lookup-All P k v ((i, w) ∷ m) hs e = elim (Bool-cases (str_eq i k)) [
    | inl same ↦
        let value : w ≡ v = ground arith in
        subst (λ x. P (k, x)) value (subst (λ x. P (x, w)) (str_eq_sound i k same) hs.0)
    | inr other ↦ lookup-All P k v m hs.1 (ground arith)
  ]
