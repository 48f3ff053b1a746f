-- ===== src/Relay/Fold.antt =====
-- `strings.EqualFold` on ASCII: letters compare without case. Other characters compare exactly.
use selfremote.Common.{ℕ, ◌+◌, Bool, ◌&&◌, String, List, [], ◌∷◌, leb, if◌then◌else◌}
use selfremote.Common.Text.{codes}
use selfremote.Net.Bytes.{bytes_eq}

abbrev pub fold_code : ℕ → ℕ
fold_code c = if leb 65 c && leb c 90 then c + 32 else c

abbrev pub fold_codes : List ℕ → List ℕ
fold_codes [] = []
fold_codes (c ∷ cs) = fold_code c ∷ fold_codes cs

unfoldable pub equal_fold : String → String → Bool
equal_fold s t = bytes_eq (fold_codes (codes s)) (fold_codes (codes t))
