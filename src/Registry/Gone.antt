-- ===== src/Registry/Gone.antt =====
-- What a reload of the registry (internal/tunnel/registry_runtime.go) does to a revoked client: it stays
-- without sessions, place and row.
use selfremote.Common.{
  ℕ, ◌<◌, ◌≡◌, ◌≢◌, refl, subst, ◌∙◌, false, String, str_eq, List, [], ◌∷◌, Option, none, some, All,
  arith, Bool-cases, inl, inr, ◌==◌,
}
use selfremote.Engine.{Engine, PeerState, PeerConfig, set_peer, is_agent}
use selfremote.Engine.Heap.{lookup}
use selfremote.Engine.Names.{All-insert, All-remove, lookup-insert, lookup-remove, lookup-All}
use selfremote.Registry.Apply.{
  add_peer, drop_peer, revoke, revoke_missing, revoke_clients, is_kept, admit_at, admit_clients,
  update_client,
}

-- The key is not in the map, and the object has no session, is shut out, and no row leads to it.
pub record IsGone (k : String) (p : ℕ) (e : Engine) : Type 0 where
  pub absent : lookup str_eq k e.peers ≡ none
  pub current : (e.heap p).cur ≡ none
  pub previous : (e.heap p).prev ≡ none
  pub shut : (e.heap p).authed ≡ false
  pub allocated : p < e.next
  pub unreachable : All (λ row. row.1 ≢ p) e.peers

module _ (k : String) (p : ℕ) where
  revoke-keeps : (e : Engine) (j : String) (q : ℕ) → IsGone k p e → IsGone k p (revoke e j q)
  unfolding drop_peer set_peer
  revoke-keeps e j q g = record {
    absent = lookup-remove k j e.peers ∙ ground (arith, g.absent);
    current = ground (arith, g.current);
    previous = ground (arith, g.previous);
    shut = ground (arith, g.shut);
    allocated = g.allocated;
    unreachable = All-remove (λ row. row.1 ≢ p) j e.peers g.unreachable;
  }

  missing-keeps :
      (e : Engine) (j : String) (q : ℕ) (found : Option PeerConfig)
      → IsGone k p e
      → IsGone k p (revoke_missing e j q found)
  missing-keeps e j q none g = revoke-keeps e j q g
  missing-keeps e j q (some _) g = g

  pub loop-keeps :
      (m : List (String × PeerConfig)) (rows : List (String × ℕ)) (e : Engine)
      → IsGone k p e
      → IsGone k p (revoke_clients m rows e)
  unfolding revoke_clients
  loop-keeps m [] e g = g
  loop-keeps m ((j, q) ∷ rows) e g = elim (Bool-cases (is_kept (e.heap q))) [
    | inl kept ↦ rw kept (loop-keeps m rows e g)
    | inr own ↦ rw own (
        loop-keeps m rows (revoke_missing e j q (lookup str_eq j m))
          (missing-keeps e j q (lookup str_eq j m) g))
  ]

  add_peer-keeps :
      (hex : List ℕ → String) (e : Engine) (pc : PeerConfig)
      → str_eq (hex pc.public_key) k ≡ false
      → IsGone k p e
      → IsGone k p (add_peer hex e pc false)
  unfolding add_peer set_peer
  add_peer-keeps hex e pc other g =
      let apart : (e.next == p) ≡ false = ground (arith, g.allocated) in
      record {
        absent =
            lookup-insert k (hex pc.public_key) e.next e.peers ∙ ground (arith, other, g.absent);
        current = ground (arith, apart, g.current);
        previous = ground (arith, apart, g.previous);
        shut = ground (arith, apart, g.shut);
        allocated = omega (arith, g.allocated);
        unreachable =
            All-insert (λ row. row.1 ≢ p) (hex pc.public_key) e.next e.peers
              (λ same. omega (arith, g.allocated, same)) g.unreachable;
      }

  update-keeps :
      (e : Engine) (q : ℕ) (s : PeerState) → q ≢ p → IsGone k p e → IsGone k p (set_peer e q s)
  unfolding set_peer
  update-keeps e q s other g =
      let apart : (q == p) ≡ false = ground (arith, other) in
      record {
        absent = g.absent;
        current = ground (arith, apart, g.current);
        previous = ground (arith, apart, g.previous);
        shut = ground (arith, apart, g.shut);
        allocated = g.allocated;
        unreachable = g.unreachable;
      }

  admit_at-keeps :
      (hex : List ℕ → String) (e : Engine) (pc : PeerConfig) (found : Option ℕ)
      → str_eq (hex pc.public_key) k ≡ false
      → ((q : ℕ) → found ≡ some q → q ≢ p)
      → IsGone k p e
      → IsGone k p (admit_at hex e pc found)
  admit_at-keeps hex e pc none other apart g = add_peer-keeps hex e pc other g
  admit_at-keeps hex e pc (some q) other apart g =
      elim (Bool-cases (is_agent (e.heap q).cfg.role)) [
        | inl agent ↦ rw agent g
        | inr client ↦ rw client (update-keeps e q (update_client (e.heap q) pc) (apart q refl) g)
      ]

  pub admit_clients-keeps :
      (hex : List ℕ → String) (m : List (String × PeerConfig)) (e : Engine)
      → All (λ row. row.0 ≡ hex row.1.public_key) m
      → All (λ row. str_eq row.0 k ≡ false) m
      → IsGone k p e
      → IsGone k p (admit_clients hex m e)
  unfolding admit_clients
  admit_clients-keeps hex [] e keyed others g = g
  admit_clients-keeps hex ((j, pc) ∷ m) e keyed others g =
      admit_clients-keeps hex m (admit_at hex e pc (lookup str_eq j e.peers)) keyed.1 others.1 (
        admit_at-keeps hex e pc (lookup str_eq j e.peers)
          (subst (λ x. str_eq x k ≡ false) keyed.0 others.0)
          (λ q found. lookup-All (λ row. row.1 ≢ p) j q e.peers g.unreachable found) g)
