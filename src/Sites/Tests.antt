-- ===== src/Sites/Tests.antt =====
-- Two users, each with a site of the same network: the second is given a virtual prefix.
use selfremote.Common.{
  ℕ, ◌≡◌, ◌⊎◌, inl, inr, refl, sym, ◌∙◌, arith, Bool, true, false, String, str_eq, List, [], ◌∷◌,
  Option, none, some, if◌then◌else◌, ==_iff, length,
}
use selfremote.Net.{Prefix, v4, prefix_eq, is4, masked, overlaps}
use selfremote.Routes.{assign_route, overlaps_any, alloc_virtual_prefix, find_block}
use selfremote.Net.Laws.{eq_of_addr_eq}
use selfremote.Net.Bytes.{bytes_eq, mask_bits, match_bits}
use selfremote.Sites.{Sites, Codec, World}
use selfremote.Sites.Create.{SiteForm}
use selfremote.Sites.Handle.{Post}
use selfremote.Sites.Enroll.{Request, create, set_state, serve, enroll_limiter}
use selfremote.Sites.Tables.{IsTable}
use selfremote.Sites.Apart.{serve_all, empty-IsTable, serve_all-IsTable}
use selfremote.Sites.Authority.{IsAuthorised, serve-IsAuthorised}

abbrev home : Prefix
home = record { addr = v4 (192 ∷ 168 ∷ 1 ∷ 0 ∷ []); bits = 24 }

abbrev virtual : Prefix
virtual = record { addr = v4 (10 ∷ 201 ∷ 0 ∷ 0 ∷ []); bits = 24 }

unfoldable parse_prefix : String → Option Prefix
parse_prefix s =
    if str_eq s "192.168.1.0/24"
    then some home
    else if str_eq s "10.201.0.0/24"
    then some virtual
    else none

abbrev named : Bool → Bool → String
named true _ = "192.168.1.0/24"
named false true = "10.201.0.0/24"
named false false = "invalid Prefix"

unfoldable print : Prefix → String
print p = named (prefix_eq p home) (prefix_eq p virtual)

abbrev codec : Codec
codec = record {
  text = λ bytes. if bytes_eq bytes (104 ∷ []) then "192.168.1.0/24" else "";
  parse_prefix = parse_prefix;
  print = print;
  decode_base64 = λ bytes. some bytes;
  encode_base64 = λ bytes. bytes;
  collate = bytes_eq;
}

eq_of_prefix_eq : (p q : Prefix) → prefix_eq p q ≡ true → p ≡ q
unfolding prefix_eq
eq_of_prefix_eq p q e =
    let a = eq_of_addr_eq p.addr q.addr (ground (arith, e)) in
    let b = (==_iff p.bits q.bits).0 (ground (arith, e)) in cc

named-visible : (b c : Bool) → str_eq (named b c) "" ≡ false
named-visible true c = refl
named-visible false true = refl
named-visible false false = refl

visible : (p : Prefix) → str_eq (print p) "" ≡ false
unfolding print
visible p = named-visible (prefix_eq p home) (prefix_eq p virtual)

named-parse :
    (b c : Bool) (q : Prefix)
    → parse_prefix (named b c) ≡ some q
    → ((b ≡ true) × (q ≡ home)) ⊎ ((c ≡ true) × (q ≡ virtual))
unfolding parse_prefix
named-parse true c q e = inl (refl, cc)
named-parse false true q e = inr (refl, cc)
named-parse false false q e = cc

faithful : (p q : Prefix) → parse_prefix (print p) ≡ some q → q ≡ p
unfolding print
faithful p q e = elim (named-parse (prefix_eq p home) (prefix_eq p virtual) q e) [
  | inl (here, made) ↦ made ∙ sym (eq_of_prefix_eq p home here)
  | inr (here, made) ↦ made ∙ sym (eq_of_prefix_eq p virtual here)
]

abbrev world : World
world = record {
  now = 5;
  code = some (0 ∷ 1 ∷ 2 ∷ 3 ∷ 4 ∷ 5 ∷ 6 ∷ 7 ∷ []);
  secret = none;
  key = none;
  found_ok = true;
  listed_ok = true;
  relisted_ok = true;
  setting_ok = true;
  in_use_ok = true;
  first_ok = true;
  second_ok = true;
  synced_ok = true;
  devices = [];
  hub_key = true;
  server_addr = true;
}

abbrev by : ℕ → Post
by user = record { csrf = 1 ∷ []; session = some (1 ∷ []); user = user; is_admin = false }

abbrev form : ℕ → SiteForm
form c = record { name = []; agent_id = c ∷ []; routes = 104 ∷ [] }

abbrev start : Sites
start = record {
  rows = [];
  next = 1;
  route_mode = "auto";
  published = [];
  limiter = enroll_limiter;
}

abbrev requests : List (World × Request)
requests =
    (world, create (by 1) (form 97))
    ∷ (world, create (by 2) (form 98))
    ∷ (world, set_state (by 2) (97 ∷ []) false)
    ∷ []

unfoldable after : Sites
unfolding serve_all
after = serve_all codec requests start

two_sites : length after.rows ≡ 2
unfolding after bytes_eq parse_prefix is4 assign_route print prefix_eq masked mask_bits overlaps_any
    overlaps match_bits alloc_virtual_prefix find_block
two_sites = refl

serve_all-IsTable_example : IsTable codec (serve_all codec requests start)
serve_all-IsTable_example =
    serve_all-IsTable codec visible faithful requests start (empty-IsTable codec start refl)

serve-IsAuthorised_example :
    ((serve codec world (set_state (by 2) (97 ∷ []) false) after).0.rows ≡ after.rows)
    ⊎ IsAuthorised codec world after
        (serve codec world (set_state (by 2) (97 ∷ []) false) after).0
        (set_state (by 2) (97 ∷ []) false)
serve-IsAuthorised_example = serve-IsAuthorised codec world (set_state (by 2) (97 ∷ []) false) after
