-- ===== src/Registry/Rows.antt =====
-- The peers' map and the heap: every row has a key and an object of its own.
use selfremote.Common.{
  ℕ, ◌+◌, ◌<◌, ◌≡◌, ◌≢◌, ap, sym, Bool, true, false, String, str_eq, List, [], ◌∷◌, Option, none,
  some, All, arith, Bool-cases, inl, inr,
}
use selfremote.Engine.{Engine, PeerState, PeerConfig, set_peer, is_agent}
use selfremote.Engine.Heap.{lookup, insert, remove}
use selfremote.Engine.Names.{All-insert, All-remove, str_eq_sound, str_eq_refl}
use selfremote.Registry.Apply.{
  add_peer, drop_peer, revoke, revoke_missing, admit_at, revoke_clients, is_kept, admit_client,
  admit_clients, update_client, apply_registry,
}

-- No other row has the key or the object of this one.
abbrev pub Others : String → ℕ → List (String × ℕ) → Type 0
Others k p rows = All (λ row. (str_eq row.0 k ≡ false) × (row.1 ≢ p)) rows

abbrev pub Unique : List (String × ℕ) → Type 0
Unique [] = Unit {0}
Unique ((k, p) ∷ rows) = Others k p rows × Unique rows

-- The objects of the map are allocated, and each belongs to one key.
pub record IsHeaped (e : Engine) : Type 0 where
  pub below : All (λ row. row.1 < e.next) e.peers
  pub unique : Unique e.peers

Unique-insert :
    (k : String) (n : ℕ) (rows : List (String × ℕ))
    → All (λ row. row.1 < n) rows
    → lookup str_eq k rows ≡ none
    → Unique rows
    → Unique (insert str_eq k n rows)
unfolding lookup insert
Unique-insert k n [] b absent u = (tt, tt)
Unique-insert k n ((j, q) ∷ rows) b absent u = elim (Bool-cases (str_eq j k)) [
  | inl same ↦ absurd (ground arith)
  | inr other ↦
      let flip : str_eq k j ≡ false = elim (Bool-cases (str_eq k j)) [
        | inr differ ↦ differ
        | inl yes' ↦ let back : str_eq j k ≡ true = rw (str_eq_sound k j yes') (str_eq_refl j) in cc
      ] in
      rw other (
        All-insert (λ row. (str_eq row.0 j ≡ false) × (row.1 ≢ q)) k n rows
            (flip, λ e. omega (arith, b.0)) u.0,
        Unique-insert k n rows b.1 (ground arith) u.1,
      )
]

Unique-remove :
    (k : String) (rows : List (String × ℕ)) → Unique rows → Unique (remove str_eq k rows)
unfolding remove
Unique-remove k [] u = tt
Unique-remove k ((j, q) ∷ rows) u = elim (Bool-cases (str_eq j k)) [
  | inl same ↦ rw same (Unique-remove k rows u.1)
  | inr other ↦ rw other (
    All-remove (λ row. (str_eq row.0 j ≡ false) × (row.1 ≢ q)) k rows u.0,
    Unique-remove k rows u.1,
  )
]

below-suc :
    (n : ℕ) (rows : List (String × ℕ))
    → All (λ row. row.1 < n) rows
    → All (λ row. row.1 < n + 1) rows
below-suc n [] b = tt
below-suc n ((k, p) ∷ rows) b = (omega (arith, b.0), below-suc n rows b.1)

pub revoke-IsHeaped : (e : Engine) (k : String) (p : ℕ) → IsHeaped e → IsHeaped (revoke e k p)
unfolding drop_peer set_peer
revoke-IsHeaped e k p h = record {
  below = All-remove (λ row. row.1 < e.next) k e.peers h.below;
  unique = Unique-remove k e.peers h.unique;
}

-- A new peer goes under a key that is not in the map.
pub add_peer-IsHeaped :
    (hex : List ℕ → String) (e : Engine) (pc : PeerConfig) (is_static : Bool)
    → lookup str_eq (hex pc.public_key) e.peers ≡ none
    → IsHeaped e
    → IsHeaped (add_peer hex e pc is_static)
unfolding add_peer set_peer
add_peer-IsHeaped hex e pc is_static absent h = record {
  below =
      All-insert (λ row. row.1 < e.next + 1) (hex pc.public_key) e.next e.peers (omega arith)
        (below-suc e.next e.peers h.below);
  unique = Unique-insert (hex pc.public_key) e.next e.peers h.below absent h.unique;
}

pub set_peer-IsHeaped :
    (e : Engine) (p : ℕ) (s : PeerState) → IsHeaped e → IsHeaped (set_peer e p s)
unfolding set_peer
set_peer-IsHeaped e p s h = record { below = h.below; unique = h.unique }

missing-IsHeaped :
    (e : Engine) (k : String) (p : ℕ) (found : Option PeerConfig)
    → IsHeaped e
    → IsHeaped (revoke_missing e k p found)
missing-IsHeaped e k p none h = revoke-IsHeaped e k p h
missing-IsHeaped e k p (some _) h = h

revoke_clients-IsHeaped :
    (m : List (String × PeerConfig)) (rows : List (String × ℕ)) (e : Engine)
    → IsHeaped e
    → IsHeaped (revoke_clients m rows e)
unfolding revoke_clients
revoke_clients-IsHeaped m [] e h = h
revoke_clients-IsHeaped m ((k, p) ∷ rows) e h = elim (Bool-cases (is_kept (e.heap p))) [
  | inl kept ↦ rw kept (revoke_clients-IsHeaped m rows e h)
  | inr own ↦ rw own (
      revoke_clients-IsHeaped m rows (revoke_missing e k p (lookup str_eq k m))
        (missing-IsHeaped e k p (lookup str_eq k m) h))
]

admit_at-IsHeaped :
    (hex : List ℕ → String) (e : Engine) (pc : PeerConfig) (found : Option ℕ)
    → lookup str_eq (hex pc.public_key) e.peers ≡ found
    → IsHeaped e
    → IsHeaped (admit_at hex e pc found)
admit_at-IsHeaped hex e pc none there h = add_peer-IsHeaped hex e pc false there h
admit_at-IsHeaped hex e pc (some p) there h = elim (Bool-cases (is_agent (e.heap p).cfg.role)) [
  | inl agent ↦ rw agent h
  | inr client ↦ rw client (set_peer-IsHeaped e p (update_client (e.heap p) pc) h)
]

admit_clients-IsHeaped :
    (hex : List ℕ → String) (m : List (String × PeerConfig)) (e : Engine)
    → All (λ row. row.0 ≡ hex row.1.public_key) m
    → IsHeaped e
    → IsHeaped (admit_clients hex m e)
unfolding admit_clients
admit_clients-IsHeaped hex [] e keyed h = h
admit_clients-IsHeaped hex ((k, pc) ∷ m) e keyed h =
    admit_clients-IsHeaped hex m (admit_client hex e k pc) keyed.1 (
      admit_at-IsHeaped hex e pc (lookup str_eq k e.peers)
        (ap (λ j. lookup str_eq j e.peers) (sym keyed.0)) h)

-- A reload of a keyed registry of clients keeps the map of peers well-formed: every row has a key
-- and an allocated object that no other row has.
pub apply_registry-IsHeaped :
    (hex : List ℕ → String) (m : List (String × PeerConfig)) (e : Engine)
    → All (λ row. row.0 ≡ hex row.1.public_key) m
    → IsHeaped e
    → IsHeaped (apply_registry hex m e)
unfolding apply_registry
apply_registry-IsHeaped hex m e keyed h =
    admit_clients-IsHeaped hex m (revoke_clients m e.peers e) keyed
      (revoke_clients-IsHeaped m e.peers e h)
