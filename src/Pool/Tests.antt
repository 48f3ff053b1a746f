-- ===== src/Pool/Tests.antt =====
-- The addresses of clients, two of them in use.
use selfremote.Common.{ℕ, ◌≤◌, ◌≡◌, ◌⊎◌, refl, true, List, [], ◌∷◌, none, some, member}
use selfremote.Pool.{alloc_ip, client_ip_first, client_ip_last, IsLowestFree, alloc_ip-IsLowestFree}

abbrev two_in_use : List ℕ
two_in_use = 2 ∷ 3 ∷ []

third : alloc_ip two_in_use client_ip_first client_ip_last ≡ some (4, 4 ∷ two_in_use)
unfolding alloc_ip
third = refl

alloc_ip-IsLowestFree_example :
    ((alloc_ip two_in_use 2 99 ≡ none) × ((j : ℕ) → 2 ≤ j → j ≤ 99 → member j two_in_use ≡ true))
    ⊎ ((ip : ℕ) × (after : List ℕ) × (alloc_ip two_in_use 2 99 ≡ some (ip, after))
        × IsLowestFree two_in_use 2 99 ip after)
alloc_ip-IsLowestFree_example = alloc_ip-IsLowestFree two_in_use 2 99
