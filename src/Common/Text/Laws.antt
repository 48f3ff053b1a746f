-- ===== src/Common/Text/Laws.antt =====
-- Go's order on texts is strict and total.
use Prim.Native.Nat.{ℕ}
use Prim.Native.Char.{code}
use Prim.Native.String.{String}
use native.Mathlib.Omega.{arith}
use text.Mathlib.TextEquality.{Char-path}
use mathlib.Core.Path.{◌≡◌, refl, ap, ◌∙◌}
use mathlib.Core.Logic.{inl, inr}
use mathlib.Core.Bool.{true, false}
use mathlib.Core.List.{List, [], ◌∷◌}
use selfremote.Common.Tests.{◌==◌, Bool-cases}
use selfremote.Common.Text.{codes, codes_less, str_less}

codes_less_trans :
    (xs ys zs : List ℕ)
    → codes_less xs ys ≡ true
    → codes_less ys zs ≡ true
    → codes_less xs zs ≡ true
unfolding codes_less
codes_less_trans [] [] zs h k = cc
codes_less_trans [] (y ∷ ys) [] h k = cc
codes_less_trans [] (y ∷ ys) (z ∷ zs) h k = refl
codes_less_trans (x ∷ xs) [] zs h k = cc
codes_less_trans (x ∷ xs) (y ∷ ys) [] h k = cc
codes_less_trans (x ∷ xs) (y ∷ ys) (z ∷ zs) h k = elim (Bool-cases (x == y)) [
  | inr differ ↦ ground (arith, differ, h, k)
  | inl same ↦ elim (Bool-cases (y == z)) [
    | inr differ ↦ ground (arith, same, differ, h, k)
    | inl equal ↦
        let first : codes_less xs ys ≡ true = ground (arith, same, h) in
        let second : codes_less ys zs ≡ true = ground (arith, equal, k) in
        ground (arith, same, equal, codes_less_trans xs ys zs first second)
  ]
]

codes_less_asym : (xs ys : List ℕ) → codes_less xs ys ≡ true → codes_less ys xs ≡ false
unfolding codes_less
codes_less_asym [] [] h = cc
codes_less_asym [] (y ∷ ys) h = refl
codes_less_asym (x ∷ xs) [] h = cc
codes_less_asym (x ∷ xs) (y ∷ ys) h = elim (Bool-cases (x == y)) [
  | inr differ ↦ ground (arith, differ, h)
  | inl same ↦
      let rest : codes_less xs ys ≡ true = ground (arith, same, h) in
      ground (arith, same, codes_less_asym xs ys rest)
]

codes_less_total :
    (s t : String)
    → codes_less (codes s) (codes t) ≡ false
    → codes_less (codes t) (codes s) ≡ false
    → s ≡ t
unfolding codes_less
codes_less_total String.[] String.[] h k = refl
codes_less_total String.[] (String.◌∷◌ c t) h k = cc
codes_less_total (String.◌∷◌ c s) String.[] h k = cc
codes_less_total (String.◌∷◌ c s) (String.◌∷◌ d t) h k =
    let same : code c ≡ code d = ground (arith, h, k) in
    let first : codes_less (codes s) (codes t) ≡ false = ground (arith, same, h) in
    let second : codes_less (codes t) (codes s) ≡ false = ground (arith, same, k) in
    ap (λ x. String.◌∷◌ x s) (Char-path c d same)
    ∙ ap (String.◌∷◌ d) (codes_less_total s t first second)

pub str_less_trans :
    (a b c : String) → str_less a b ≡ true → str_less b c ≡ true → str_less a c ≡ true
unfolding str_less
str_less_trans a b c h k = codes_less_trans (codes a) (codes b) (codes c) h k

pub str_less_asym : (a b : String) → str_less a b ≡ true → str_less b a ≡ false
unfolding str_less
str_less_asym a b h = codes_less_asym (codes a) (codes b) h

pub str_less_total : (a b : String) → str_less a b ≡ false → str_less b a ≡ false → a ≡ b
unfolding str_less
str_less_total a b h k = codes_less_total a b h k
