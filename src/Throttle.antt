-- ===== src/Throttle.antt =====
-- The limits of tries at the web control plane: internal/webapp/auth.go, `loginLimiter` by user
-- name, and internal/webapp/security.go, `ipLimiter` by source. Times are nanoseconds.
pub mod Window
pub mod Login
pub mod Guesses
mod Tests
use selfremote.Common.{
  ℕ, ◌+◌, ◌*◌, ◌^◌, Bool, true, false, String, str_eq, List, [], ◌∷◌, ◌++◌, Option, none, some, ltb,
  if◌then◌else◌, length,
}
use selfremote.Engine.Heap.{lookup, insert, remove}

-- The times of the tries by key, with the window and the most tries in it: five minutes and five
-- for the user names, as configured for the sources.
pub record Throttle : Type 0 where
  pub tries : List (String × List ℕ)
  pub window : ℕ
  pub most : ℕ

abbrev pub login_limiter : Throttle
login_limiter = record { tries = []; window = 300 * 10 ^ 9; most = 5 }

abbrev pub new_ip_limiter : ℕ → ℕ → Throttle
new_ip_limiter limit window = record { tries = []; window = window; most = limit }

-- The loop that keeps the times within the window.
unfoldable pub recent : ℕ → ℕ → List ℕ → List ℕ
recent window now [] = []
recent window now (t ∷ ts) =
    let rest = recent window now ts in if ltb now (t + window) then t ∷ rest else rest

-- `m[key]`, the empty slice where the key is missing.
abbrev pub or_empty : Option (List ℕ) → List ℕ
or_empty none = []
or_empty (some ts) = ts

abbrev pub tries_of : Throttle → String → List ℕ
tries_of l key = or_empty (lookup str_eq key l.tries)

-- `allowed`, `allow`
unfoldable pub allowed : Throttle → String → ℕ → Throttle × Bool
unfolding recent
allowed l key now =
    let kept = recent l.window now (tries_of l key) in
    (record l { tries = insert str_eq key kept l.tries }, ltb (length kept) l.most)

-- `record`
unfoldable pub note_try : Throttle → String → ℕ → Throttle
note_try l key now = record l { tries = insert str_eq key (tries_of l key ++ (now ∷ [])) l.tries }

-- `reset`
unfoldable pub reset : Throttle → String → Throttle
reset l key = record l { tries = remove str_eq key l.tries }
