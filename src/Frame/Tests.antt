-- ===== src/Frame/Tests.antt =====
-- A frame sealed by a cipher that only counts.
use selfremote.Common.{ℕ, refl, arith, List, [], ◌∷◌, ◌++◌, Option, some}
use selfremote.Frame.{seal_data_frame, be64, IsSealed, seal_data_frame-IsSealed}

abbrev encrypt : ℕ → List ℕ → List ℕ → Option (List ℕ)
encrypt nonce ad plain = some (plain ++ (nonce ∷ []))

abbrev wire : List ℕ
wire = 1 ∷ 3 ∷ 0 ∷ 0 ∷ 0 ∷ 0 ∷ 0 ∷ 0 ∷ 1 ∷ 4 ∷ 9 ∷ 260 ∷ []

seal_data_frame-IsSealed_example : IsSealed encrypt 3 260 (9 ∷ []) wire
unfolding seal_data_frame be64
seal_data_frame-IsSealed_example =
    seal_data_frame-IsSealed encrypt 3 260 (9 ∷ []) wire (omega arith) refl
