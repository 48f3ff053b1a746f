-- ===== src/Registry/Keyed.antt =====
-- What every entry of a parsed registry is.
use selfremote.Common.{
  ℕ, ◌≡◌, refl, ap, sym, subst, ◌∙◌, String, str_eq, List, [], ◌∷◌, Option, some, All, arith, map,
  length, Bool-cases, Option-cases, inl, inr,
}
use selfremote.Net.{Addr, Prefix}
use selfremote.Engine.{PeerConfig, PeerRole, role_client, role_agent}
use selfremote.Engine.Names.{All-insert}
use selfremote.Engine.Heap.{insert}
use selfremote.Registry.{
  RegistryClient, RegistryAgent, Registry, Entry, skipped, refused, entry, is_disabled,
  agent_config, agent_id_of, parse_pub_key, parse_tunnel_ip, parse_client, parse_routes,
  parse_agent, add_entry, collect, parse_registry, parse_agent_registry,
}

-- A configuration of a role, under the text of its own key of 32 bytes.
pub record IsKeyed (hex : List ℕ → String) (role : PeerRole) (row : String × PeerConfig)
    : Type 0 where
  pub keyed : row.0 ≡ hex row.1.public_key
  pub long : length row.1.public_key ≡ 32
  pub of_role : row.1.role ≡ role

parse_pub_key-length :
    (decode : String → Option (List ℕ)) (raw : String) (key : List ℕ)
    → parse_pub_key decode raw ≡ some key
    → length key ≡ 32
unfolding parse_pub_key
parse_pub_key-length decode raw key e = elim (Option-cases (decode raw)) [
  | inl wrong ↦ absurd (ground (arith, wrong))
  | inr (k, read) ↦ ground (arith, read)
]

abbrev EntryIs : (List ℕ → PeerConfig → Type 0) → Entry → Type 0
EntryIs P skipped = Unit {0}
EntryIs P refused = Unit {0}
EntryIs P (entry key pc) = P key pc

-- The key of an entry is the configuration's, and of the right length.
abbrev IsOwn : PeerRole → List ℕ → PeerConfig → Type 0
IsOwn role key pc = (key ≡ pc.public_key) × (length key ≡ 32) × (pc.role ≡ role)

module _ (decode : String → Option (List ℕ)) (parse_addr : String → Option Addr) where
  client-IsOwn :
      (c : RegistryClient) → EntryIs (IsOwn role_client) (parse_client decode parse_addr c)
  unfolding parse_client
  client-IsOwn c = elim (Bool-cases (is_disabled c.enabled)) [
    | inl off ↦ rw off tt
    | inr on ↦ elim (Option-cases (parse_pub_key decode c.public_key)) [
      | inl wrong ↦ rw (on, wrong) tt
      | inr (key, read) ↦ elim (Bool-cases (str_eq c.name "")) [
        | inl nameless ↦ rw (on, read, nameless) tt
        | inr named ↦ elim (Option-cases (parse_tunnel_ip parse_addr c.tunnel_ip)) [
          | inl bad_ip ↦ rw (on, read, named, bad_ip) tt
          | inr (ip, good) ↦
              rw (on, read, named, good)
                (refl, parse_pub_key-length decode c.public_key key read, refl)
        ]
      ]
    ]
  ]

  agent-IsOwn :
      (parse_prefix : String → Option Prefix) (a : RegistryAgent)
      → EntryIs (IsOwn role_agent) (parse_agent decode parse_addr parse_prefix a)
  unfolding parse_agent
  agent-IsOwn parse_prefix a = elim (Option-cases (parse_pub_key decode a.public_key)) [
    | inl wrong ↦ is_refused (ground (arith, wrong))
    | inr (key, read) ↦ elim (Bool-cases (str_eq (agent_id_of a) "")) [
      | inl nameless ↦ is_refused (ground (arith, read, nameless))
      | inr named ↦ elim (Option-cases (parse_tunnel_ip parse_addr a.tunnel_ip)) [
        | inl bad_ip ↦ is_refused (ground (arith, read, named, bad_ip))
        | inr (ip, good) ↦
            elim (Option-cases (parse_routes decode parse_addr parse_prefix a.routes)) [
              | inl bad ↦ is_refused (ground (arith, read, named, good, bad))
              | inr (routes, fine) ↦
                  let made : parse_agent decode parse_addr parse_prefix a
                      ≡ entry key (agent_config a key ip routes) =
                    ground (arith, read, named, good, fine) in
                  subst (EntryIs (IsOwn role_agent)) (sym made)
                    (refl, parse_pub_key-length decode a.public_key key read, refl)
            ]
      ]
    ]
  ]
    where
      is_refused :
          parse_agent decode parse_addr parse_prefix a ≡ refused
          → EntryIs (IsOwn role_agent) (parse_agent decode parse_addr parse_prefix a)
      is_refused e = subst (EntryIs (IsOwn role_agent)) (sym e) tt

module _ (hex : List ℕ → String) (role : PeerRole) where
  add_entry-IsKeyed :
      (x : Entry) (out out' : Registry)
      → EntryIs (IsOwn role) x
      → All (IsKeyed hex role) out
      → add_entry hex x out ≡ some out'
      → All (IsKeyed hex role) out'
  add_entry-IsKeyed skipped out out' own h e = subst (All (IsKeyed hex role)) (ground arith) h
  add_entry-IsKeyed refused out out' own h e = cc
  add_entry-IsKeyed (entry key pc) out out' own h e =
      let same : insert str_eq (hex key) pc out ≡ out' = ground arith in
      subst (All (IsKeyed hex role)) same (
        All-insert (IsKeyed hex role) (hex key) pc out
          (record { keyed = ap hex own.0; long = ap length (sym own.0) ∙ own.1; of_role = own.2 })
          h)

  collect-IsKeyed :
      (xs : List Entry) (out out' : Registry)
      → All (EntryIs (IsOwn role)) xs
      → All (IsKeyed hex role) out
      → collect hex xs out ≡ some out'
      → All (IsKeyed hex role) out'
  unfolding collect
  collect-IsKeyed [] out out' own h e = subst (All (IsKeyed hex role)) (ground arith) h
  collect-IsKeyed (x ∷ xs) out out' own h e = elim (Option-cases (add_entry hex x out)) [
    | inl wrong ↦ absurd (ground (arith, wrong))
    | inr (next, added) ↦
        collect-IsKeyed xs next out' own.1 (add_entry-IsKeyed x out next own.0 h added)
          (ground (arith, added))
  ]

All-map :
    {A B : Type 0} (f : A → B) (P : B → Type 0) (xs : List A)
    → ((x : A) → P (f x))
    → All P (map f xs)
All-map f P [] h = tt
All-map f P (x ∷ xs) h = (h x, All-map f P xs h)

module _ (decode : String → Option (List ℕ)) (hex : List ℕ → String)
    (parse_addr : String → Option Addr) where
  -- Every entry of a parsed registry of clients is a client's, under the text of its own key of 32
  -- bytes.
  pub parse_registry-IsKeyed :
      (clients : List RegistryClient) (m : Registry)
      → parse_registry decode hex parse_addr clients ≡ some m
      → All (IsKeyed hex role_client) m
  unfolding parse_registry
  parse_registry-IsKeyed clients m e =
      collect-IsKeyed hex role_client (map (parse_client decode parse_addr) clients) [] m
        (All-map (parse_client decode parse_addr) (EntryIs (IsOwn role_client)) clients
          (client-IsOwn decode parse_addr))
        tt e

  -- Every entry of a parsed registry of agents is an agent's, under the text of its own key of 32
  -- bytes.
  pub parse_agent_registry-IsKeyed :
      (parse_prefix : String → Option Prefix) (agents : List RegistryAgent) (m : Registry)
      → parse_agent_registry decode hex parse_addr parse_prefix agents ≡ some m
      → All (IsKeyed hex role_agent) m
  unfolding parse_agent_registry
  parse_agent_registry-IsKeyed parse_prefix agents m e =
      collect-IsKeyed hex role_agent (map (parse_agent decode parse_addr parse_prefix) agents) [] m
        (All-map (parse_agent decode parse_addr parse_prefix) (EntryIs (IsOwn role_agent)) agents
          (agent-IsOwn decode parse_addr parse_prefix))
        tt e
