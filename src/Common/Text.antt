-- ===== src/Common/Text.antt =====
-- The characters of a text, and Go's `<` on strings (on valid UTF-8 the order of code points).
pub mod Laws
use Prim.Native.Nat.{ℕ}
use Prim.Native.Char.{code}
use Prim.Native.String.{String}
use mathlib.Core.Bool.{Bool, true, false}
use mathlib.Core.List.{List, [], ◌∷◌}
use selfremote.Common.Tests.{ltb, ◌==◌, if◌then◌else◌}

abbrev pub codes : String → List ℕ
codes String.[] = []
codes (String.◌∷◌ c s) = code c ∷ codes s

unfoldable pub codes_less : List ℕ → List ℕ → Bool
codes_less [] [] = false
codes_less [] (y ∷ ys) = true
codes_less (x ∷ xs) [] = false
codes_less (x ∷ xs) (y ∷ ys) = let rest = codes_less xs ys in if x == y then rest else ltb x y

unfoldable pub str_less : String → String → Bool
unfolding codes_less
str_less s t = codes_less (codes s) (codes t)
