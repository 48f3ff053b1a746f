-- ===== src/Agent/Tests.antt =====
-- The routes of an agent in two orders.
use selfremote.Common.{◌≡◌, ◌↔◌, String, true, [], ◌∷◌}
use mathlib.Core.List.{Perm}
use selfremote.Agent.{same_routes}
use selfremote.Agent.Same.{same_routes-IsPerm}

same_routes-IsPerm_example :
    (same_routes ("b" ∷ "a" ∷ "a" ∷ []) ("a" ∷ "b" ∷ "a" ∷ []) ≡ true)
    ↔ Perm {A = String} ("b" ∷ "a" ∷ "a" ∷ []) ("a" ∷ "b" ∷ "a" ∷ [])
same_routes-IsPerm_example = same_routes-IsPerm ("b" ∷ "a" ∷ "a" ∷ []) ("a" ∷ "b" ∷ "a" ∷ [])
