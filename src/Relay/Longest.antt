-- ===== src/Relay/Longest.antt =====
-- Routing on the rebuilt tables: the longest prefix wins, and clients and agents stay apart.
use selfremote.Common.{
  ℕ, ◌≤◌, ◌≡◌, refl, subst, Bool, true, false, List, [], ◌∷◌, Option, none, some, All, arith,
  Bool-cases, Option-cases, inl, inr, All-weaken,
}
use mathlib.Core.List.{Mem, mem-cons_of_mem, mem-cons_self}
use selfremote.Net.{Addr, contains, addr_eq}
use selfremote.Engine.{Engine, PeerState, RouteEntry}
use selfremote.Engine.Heap.{lookup}
use selfremote.Engine.Tables.{rebuild_tables, longer}
use selfremote.Engine.Tables.Sorting.{IsSorted, sort_by-IsSorted}
use selfremote.Engine.Tables.Roles.{IsRouted, HasRole}
use selfremote.Relay.{route_lookup, agent_for}

routes_IsSorted : (e : Engine) → IsSorted longer (rebuild_tables e).routes
unfolding rebuild_tables
routes_IsSorted e = sort_by-IsSorted longer (λ x y h. ground arith) (λ x y z h k. ground arith) _

-- A longest match among the rows: one of the rows leads to `q` and its prefix holds the destination,
-- and no row whose prefix holds it has more bits.
pub record IsLongest (rows : List RouteEntry) (dst : Addr) (q : ℕ) : Type 0 where
  pub row : RouteEntry
  pub listed : Mem row rows
  pub leads : row.peer ≡ q
  pub holds : contains row.dest dst ≡ true
  pub longest : All (λ r. contains r.dest dst ≡ true → r.dest.bits ≤ row.dest.bits) rows

-- What a lookup is to answer: a longest match, or that no prefix holds the destination.
abbrev pub IsAnswer : List RouteEntry → Addr → Option ℕ → Type 0
IsAnswer rows dst none = All (λ r. contains r.dest dst ≡ false) rows
IsAnswer rows dst (some q) = IsLongest rows dst q

-- A row that does not hold the destination changes no answer.
away-IsAnswer :
    (r : RouteEntry) (rows : List RouteEntry) (dst : Addr) (found : Option ℕ)
    → contains r.dest dst ≡ false
    → IsAnswer rows dst found
    → IsAnswer (r ∷ rows) dst found
away-IsAnswer r rows dst none away a = (away, a)
away-IsAnswer r rows dst (some q) away a = record {
  row = a.row;
  listed = mem-cons_of_mem r a.listed;
  leads = a.leads;
  holds = a.holds;
  longest = (λ here. cc, a.longest);
}

rows-IsAnswer :
    (rows : List RouteEntry) (dst : Addr)
    → IsSorted longer rows
    → IsAnswer rows dst (route_lookup rows dst)
unfolding route_lookup
rows-IsAnswer [] dst s = tt
rows-IsAnswer (r ∷ rows) dst s = elim (Bool-cases (contains r.dest dst)) [
  | inl here ↦ rw here (record {
    row = r;
    listed = mem-cons_self;
    leads = refl;
    holds = here;
    longest = (λ _. omega arith, All-weaken (λ y le _. ground arith) rows s.0);
  })
  | inr away ↦
      rw away (away-IsAnswer r rows dst (route_lookup rows dst) away (rows-IsAnswer rows dst s.1))
]

-- On rebuilt tables a lookup gives the peer of a row of the table whose prefix holds the destination,
-- none that holds it being longer; it gives nothing only where no row's prefix holds the destination.
pub route_lookup-IsAnswer :
    (e : Engine) (dst : Addr)
    → IsAnswer (rebuild_tables e).routes dst (route_lookup (rebuild_tables e).routes dst)
route_lookup-IsAnswer e dst = rows-IsAnswer (rebuild_tables e).routes dst (routes_IsSorted e)

module _ (heap : ℕ → PeerState) where
  pub lookup-HasRole :
      (role : Bool) (dst : Addr) (q : ℕ) (table : List (Addr × ℕ))
      → All (λ row. HasRole heap role row.1) table
      → lookup addr_eq dst table ≡ some q
      → HasRole heap role q
  unfolding lookup
  lookup-HasRole role dst q [] h e = cc
  lookup-HasRole role dst q ((j, p) ∷ table) h e = elim (Bool-cases (addr_eq j dst)) [
    | inl here ↦ let same : p ≡ q = ground arith in subst (HasRole heap role) same h.0
    | inr away ↦ lookup-HasRole role dst q table h.1 (ground arith)
  ]

  route-HasRole :
      (dst : Addr) (q : ℕ) (rows : List RouteEntry)
      → All (λ r. HasRole heap true r.peer) rows
      → route_lookup rows dst ≡ some q
      → HasRole heap true q
  unfolding route_lookup
  route-HasRole dst q [] h e = cc
  route-HasRole dst q (r ∷ rows) h e = elim (Bool-cases (contains r.dest dst)) [
    | inl here ↦ let same : r.peer ≡ q = ground arith in subst (HasRole heap true) same h.0
    | inr away ↦ route-HasRole dst q rows h.1 (ground arith)
  ]

-- On routed tables a client's packet can only be for a peer of the agent role.
pub agent_for-HasRole :
    (e : Engine) (dst : Addr) (q : ℕ)
    → IsRouted e
    → agent_for e dst ≡ some q
    → HasRole e.heap true q
unfolding agent_for
agent_for-HasRole e dst q r found = elim (Option-cases (lookup addr_eq dst e.agents_by_ip)) [
  | inl nobody ↦ route-HasRole e.heap dst q e.routes r.rows (ground arith)
  | inr (ag, at) ↦
      let same : ag ≡ q = ground arith in
      subst (HasRole e.heap true) same
        (lookup-HasRole e.heap true dst ag e.agents_by_ip r.agents at)
]
