-- ===== src/Window/Tests.antt =====
-- Runs of the window, and the theorems at concrete inputs.
use selfremote.Common.{
  ℕ, ◌≡◌, refl, true, false, List, [], ◌∷◌, Option, none, some, ◌==◌, if◌then◌else◌,
}
use selfremote.Window.{Arrival, new_window, acceptable, commit, receive, try_session}
use selfremote.Window.Replay.{after, acceptable-is_new, receive-IsDistinct, IsDistinct}

abbrev reordered : List ℕ
reordered = 9 ∷ 70 ∷ 5 ∷ 100 ∷ 7 ∷ []

late_but_new : acceptable (after reordered) 69 ≡ true
unfolding acceptable after commit
late_but_new = refl

replayed : acceptable (after reordered) 70 ≡ false
unfolding acceptable after commit
replayed = refl

too_old : acceptable (after reordered) 36 ≡ false
unfolding acceptable after commit
too_old = refl

acceptable-is_new_example : acceptable (after reordered) 70 ≡ false
acceptable-is_new_example = acceptable-is_new reordered 70

-- A forged frame under nonce 3, which fails, then the genuine one, its replay, and two more.
abbrev arrivals : List Arrival
arrivals =
    record { nonce = 3; frame = 0 ∷ [] }
    ∷ record { nonce = 3; frame = 1 ∷ [] }
    ∷ record { nonce = 3; frame = 1 ∷ [] }
    ∷ record { nonce = 1; frame = 1 ∷ [] }
    ∷ record { nonce = 1; frame = 2 ∷ [] }
    ∷ []

abbrev decrypt : ℕ → List ℕ → Option (List ℕ)
decrypt n [] = none
decrypt n (tag ∷ body) = if tag == 0 then none else some body

received_once :
    receive decrypt (record { window = new_window; recv_count = 0 }) arrivals ≡ 3 ∷ 1 ∷ []
unfolding receive try_session acceptable commit
received_once = refl

receive-IsDistinct_example :
    IsDistinct (receive decrypt (record { window = new_window; recv_count = 0 }) arrivals)
receive-IsDistinct_example = receive-IsDistinct decrypt arrivals
