-- ===== src/Registry/Revoke.antt =====
-- Revocation: a client that the registry no longer lists loses its sessions and its place.
use selfremote.Common.{
  ℕ, ◌<◌, ◌≡◌, ◌≢◌, ap, sym, subst, ◌∙◌, true, false, String, str_eq, List, [], ◌∷◌, Option, none,
  some, All, arith, Bool-cases, inl, inr, if◌then◌else◌,
}
use selfremote.Engine.{Engine, PeerConfig, set_peer}
use selfremote.Engine.Heap.{lookup, remove}
use selfremote.Engine.Names.{All-remove, str_eq_sound, str_eq_refl, lookup-remove, lookup-All}
use selfremote.Registry.Apply.{
  drop_peer, revoke, revoke_missing, revoke_clients, is_kept, apply_registry,
}
use selfremote.Registry.Rows.{Unique, Others, IsHeaped}
use selfremote.Registry.Gone.{IsGone, loop-keeps, admit_clients-keeps}

-- A client's object as the first loop finds it: under its key only, and not yet revoked.
record IsHeld (k : String) (p : ℕ) (e : Engine) : Type 0 where
  own : is_kept (e.heap p) ≡ false
  allocated : p < e.next
  only : All (λ row. row.1 ≡ p → str_eq row.0 k ≡ true) e.peers

remove-unreachable :
    (k : String) (p : ℕ) (rows : List (String × ℕ))
    → All (λ row. row.1 ≡ p → str_eq row.0 k ≡ true) rows
    → All (λ row. row.1 ≢ p) (remove str_eq k rows)
unfolding remove
remove-unreachable k p [] h = tt
remove-unreachable k p ((j, q) ∷ rows) h = elim (Bool-cases (str_eq j k)) [
  | inl same ↦ rw same (remove-unreachable k p rows h.1)
  | inr other ↦ rw other ((λ e. let clash = h.0 e in cc), remove-unreachable k p rows h.1)
]

module _ (k : String) (p : ℕ) where
  revoke-IsGone : (e : Engine) → IsHeld k p e → IsGone k p (revoke e k p)
  unfolding drop_peer set_peer
  revoke-IsGone e h = record {
    absent = lookup-remove k k e.peers ∙ ground (arith, str_eq_refl k);
    current = ground arith;
    previous = ground arith;
    shut = ground arith;
    allocated = h.allocated;
    unreachable = remove-unreachable k p e.peers h.only;
  }

  missing-IsHeld :
      (e : Engine) (j : String) (q : ℕ) (found : Option PeerConfig)
      → q ≢ p
      → IsHeld k p e
      → IsHeld k p (revoke_missing e j q found)
  unfolding drop_peer set_peer
  missing-IsHeld e j q none apart h = record {
    own = ground (arith, apart, h.own);
    allocated = h.allocated;
    only = All-remove (λ row. row.1 ≡ p → str_eq row.0 k ≡ true) j e.peers h.only;
  }
  missing-IsHeld e j q (some _) apart h = h

  -- The first loop revokes the object when it comes to its row.
  loop-IsGone :
      (m : List (String × PeerConfig)) (rows : List (String × ℕ)) (e : Engine)
      → lookup str_eq k m ≡ none
      → lookup str_eq k rows ≡ some p
      → All (λ row. row.1 ≡ p → str_eq row.0 k ≡ true) rows
      → IsHeld k p e
      → IsGone k p (revoke_clients m rows e)
  unfolding revoke_clients lookup
  loop-IsGone m [] e unlisted there only h = cc
  loop-IsGone m ((j, q) ∷ rows) e unlisted there only h = elim (Bool-cases (str_eq j k)) [
    | inl same ↦
        let object : q ≡ p = ground (arith, same) in
        let name : j ≡ k = str_eq_sound j k same in
        let step : (if is_kept (e.heap q) then e else revoke_missing e j q (lookup str_eq j m))
            ≡ revoke e k p =
          ap (λ x. if is_kept (e.heap x) then e else revoke_missing e j x (lookup str_eq j m))
            object
          ∙ (ap (λ b. if b then e else revoke_missing e j p (lookup str_eq j m)) h.own
              ∙ (ap (λ i. revoke_missing e i p (lookup str_eq i m)) name
                  ∙ ap (revoke_missing e k p) unlisted)) in
        subst (λ x. IsGone k p (revoke_clients m rows x)) (sym step)
          (loop-keeps k p m rows (revoke e k p) (revoke-IsGone e h))
    | inr other ↦
        let apart : q ≢ p = λ e'. (let clash = only.0 e' in cc) in
        let next = revoke_missing e j q (lookup str_eq j m) in
        elim (Bool-cases (is_kept (e.heap q))) [
          | inl kept ↦ rw kept (loop-IsGone m rows e unlisted (ground (arith, other)) only.1 h)
          | inr own ↦ rw own (
              loop-IsGone m rows next unlisted (ground (arith, other)) only.1
                (missing-IsHeld e j q (lookup str_eq j m) apart h))
        ]
  ]

-- The rows of a well-formed map that lead to the object of a key.
Unique-only :
    (k : String) (p : ℕ) (rows : List (String × ℕ))
    → Unique rows
    → lookup str_eq k rows ≡ some p
    → All (λ row. row.1 ≡ p → str_eq row.0 k ≡ true) rows
unfolding lookup
Unique-only k p [] u there = tt
Unique-only k p ((j, q) ∷ rows) u there = elim (Bool-cases (str_eq j k)) [
  | inl same ↦ (λ e. same, others_apart rows u.0 (ground (arith, same)))
  | inr other ↦ (
    λ e. absurd (not_here rows (ground (arith, other)) u.0 e),
    Unique-only k p rows u.1 (ground (arith, other)),
  )
]
  where
    others_apart :
        (rest : List (String × ℕ))
        → Others j q rest
        → q ≡ p
        → All (λ row. row.1 ≡ p → str_eq row.0 k ≡ true) rest
    others_apart [] o e = tt
    others_apart (row ∷ rest) o e = (λ e'. absurd (o.0.1 (e' ∙ sym e)), others_apart rest o.1 e)

    not_here :
        (rest : List (String × ℕ)) → lookup str_eq k rest ≡ some p → Others j q rest → q ≡ p → ⊥
    not_here rest found o e =
        (lookup-All (λ row. (str_eq row.0 j ≡ false) × (row.1 ≢ q)) k p rest o found).1 (sym e)

unlisted_rows :
    (k : String) (m : List (String × PeerConfig))
    → lookup str_eq k m ≡ none
    → All (λ row. str_eq row.0 k ≡ false) m
unfolding lookup
unlisted_rows k [] e = tt
unlisted_rows k ((j, pc) ∷ m) e = elim (Bool-cases (str_eq j k)) [
  | inl same ↦ absurd (ground (arith, same))
  | inr other ↦ (other, unlisted_rows k m (ground (arith, other)))
]

-- A client of the registry that a reload does not list any more is revoked at once: its key is no
-- longer in the map, no row of the map leads to its object, and the object has no session, current
-- or superseded, and is not authenticated.
pub apply_registry-IsGone :
    (hex : List ℕ → String) (m : List (String × PeerConfig)) (e : Engine) (k : String) (p : ℕ)
    → All (λ row. row.0 ≡ hex row.1.public_key) m
    → IsHeaped e
    → lookup str_eq k e.peers ≡ some p
    → is_kept (e.heap p) ≡ false
    → lookup str_eq k m ≡ none
    → IsGone k p (apply_registry hex m e)
unfolding apply_registry
apply_registry-IsGone hex m e k p keyed h there own unlisted =
    let only = Unique-only k p e.peers h.unique there in
    let held : IsHeld k p e = record {
      own = own;
      allocated = lookup-All (λ row. row.1 < e.next) k p e.peers h.below there;
      only = only;
    } in
    admit_clients-keeps k p hex m (revoke_clients m e.peers e) keyed (unlisted_rows k m unlisted)
      (loop-IsGone k p m e.peers e unlisted there only held)
