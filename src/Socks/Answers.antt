-- ===== src/Socks/Answers.antt =====
-- How the proxy (cmd/sr/socks.go) is to answer a SOCKS5 client that asks for a target, and that the end
-- of `handleSOCKS5` does so.
use selfremote.Common.{
  ℕ, ◌≡◌, ◌⊎◌, inl, inr, refl, subst, ◌∙◌, ap, true, ◌==◌, List, [], ◌∷◌, ◌++◌, map, Option, none,
  some, if◌then◌else◌, Bool-cases, length, arith,
}
use selfremote.Net.{Addr, v4, v6}
use selfremote.Socks.{
  Network, Dial, connected, dial_error, Dns, Response, bytes, Handled, dns_lookup, contains_text,
  refused_text, dial_message, err_reply_code,
}
use selfremote.Sites.Forms.{lower, starts_with}
use mathlib.Core.Path.{ap₂}
use selfremote.Socks.Socks5.{socks_dialled, socks_connect, socks_found}

-- What a client asks for: an address or a name.
pub data Target : Type 0 where
  ip4 ip6 host : List ℕ → Target

abbrev pub IsTarget : Target → Type 0
IsTarget (ip4 a) = length a ≡ 4
IsTarget (ip6 a) = length a ≡ 16
IsTarget (host name) = Unit

-- What the protocol answers: no authentication, then a reply with a code and no address.
abbrev pub answered : ℕ → List Response
answered code = bytes (5 ∷ 0 ∷ []) ∷ bytes (5 ∷ code ∷ 0 ∷ 1 ∷ 0 ∷ 0 ∷ 0 ∷ 0 ∷ 0 ∷ 0 ∷ []) ∷ []

-- The word stands somewhere in the text.
abbrev pub Mentions : List ℕ → List ℕ → Type 0
Mentions word text = (front : List ℕ) × (back : List ℕ) × (text ≡ front ++ (word ++ back))

-- The dial of an address and a port. Where it is answered: code 0, and what the client sent is copied.
-- Where it fails: no copying, and code 5 if the error, which starts with `shown`, mentions a refusal in
-- any case of the letters, and otherwise code 4.
pub record IsDialled (net : Network) (names : Dns) (ip : Addr) (port : ℕ) (shown rest : List ℕ)
    (h : Handled) : Type 0 where
  pub target : h.dialled ≡ some (ip, port)
  pub kept : h.dns ≡ names
  pub on_connected : net.dial ip port ≡ connected → (h.written ≡ answered 0) × (h.piped ≡ some rest)
  pub on_error :
      (text : List ℕ)
      → net.dial ip port ≡ dial_error text
      → ((Mentions refused_text (map lower (dial_message shown text)) × (h.written ≡ answered 5))
          ⊎ ((¬ Mentions refused_text (map lower (dial_message shown text)))
              × (h.written ≡ answered 4)))
        × (h.piped ≡ none)

-- A name that is not found: code 4, and nothing is dialled.
pub record IsUnknown (names : Dns) (h : Handled) : Type 0 where
  pub target : h.dialled ≡ none
  pub kept : h.dns ≡ names
  pub written : h.written ≡ answered 4
  pub piped : h.piped ≡ none

-- How a name is served once it was looked up.
abbrev pub IsNamed : Network → Dns × Option Addr → ℕ → List ℕ → List ℕ → Handled → Type 0
IsNamed net (names, none) port shown rest h = IsUnknown names h
IsNamed net (names, some ip) port shown rest h = IsDialled net names ip port shown rest h

-- How a target is served, a name by what the lookup gives for it.
abbrev pub IsServed : Network → Dns → ℕ → Target → ℕ → List ℕ → Handled → Type 0
IsServed net dns now (ip4 a) port rest h =
    IsDialled net dns (v4 a) port (net.print_addr_port (v4 a) port) rest h
IsServed net dns now (ip6 a) port rest h =
    IsDialled net dns (v6 a) port (net.print_addr_port (v6 a) port) rest h
IsServed net dns now (host name) port rest h =
    IsNamed net (dns_lookup net dns name now) port (net.join_host_port name port) rest h

-- What the handshake comes to once its target is read.
abbrev pub served : Network → Dns → ℕ → Target → ℕ → List ℕ → Handled
served net dns now (ip4 a) port rest =
    socks_connect net dns (v4 a) port (net.print_addr_port (v4 a) port) rest
served net dns now (ip6 a) port rest =
    socks_connect net dns (v6 a) port (net.print_addr_port (v6 a) port) rest
served net dns now (host name) port rest =
    socks_found net (dns_lookup net dns name now) port (net.join_host_port name port) rest

-- The test for a word finds it, and only where it is.
starts_with-split :
    (word text : List ℕ) → starts_with word text ≡ true → (back : List ℕ) × (text ≡ word ++ back)
starts_with-split [] text h = (text, refl)
starts_with-split (c ∷ word) [] h = cc
starts_with-split (c ∷ word) (d ∷ text) h = elim (Bool-cases (c == d)) [
  | inl same ↦
      let (back, e) = starts_with-split word text (ground (arith, same, h)) in
      (back, ap₂ (λ x xs. x ∷ xs) (ground (arith, same)) e)
  | inr other ↦ absurd (ground (arith, other, h))
]

starts_with-append : (word back : List ℕ) → starts_with word (word ++ back) ≡ true
starts_with-append [] back = refl
starts_with-append (c ∷ word) back = ground (arith, starts_with-append word back)

contains_text-split : (word text : List ℕ) → contains_text word text ≡ true → Mentions word text
unfolding contains_text
contains_text-split word [] h = let (back, e) = starts_with-split word [] h in ([], back, e)
contains_text-split word (c ∷ text) h = elim (Bool-cases (starts_with word (c ∷ text))) [
  | inl here ↦ let (back, e) = starts_with-split word (c ∷ text) here in ([], back, e)
  | inr away ↦
      let (front, back, e) = contains_text-split word text (ground (arith, away, h)) in
      (c ∷ front, back, ap (λ xs. c ∷ xs) e)
]

contains_text-append :
    (word front back : List ℕ) → contains_text word (front ++ (word ++ back)) ≡ true
unfolding contains_text
contains_text-append word [] back = at (word ++ back) (starts_with-append word back)
  where
    at : (text : List ℕ) → starts_with word text ≡ true → contains_text word text ≡ true
    at [] h = h
    at (c ∷ text) h = ground (arith, h)
contains_text-append word (c ∷ front) back = ground (arith, contains_text-append word front back)

module _ (net : Network) (dns : Dns) (ip : Addr) (port : ℕ) (shown rest : List ℕ) where
  reply_of :
      (text : List ℕ)
      → (Mentions refused_text (map lower (dial_message shown text))
          × (answered (err_reply_code (dial_message shown text)) ≡ answered 5))
        ⊎ ((¬ Mentions refused_text (map lower (dial_message shown text)))
            × (answered (err_reply_code (dial_message shown text)) ≡ answered 4))
  unfolding err_reply_code
  reply_of text =
      let message = map lower (dial_message shown text) in
      elim (Bool-cases (contains_text refused_text message)) [
        | inl there ↦ inl (
          contains_text-split refused_text message there,
          ap (λ b. answered (if b then 5 else 4)) there,
        )
        | inr absent ↦ inr (
          λ m.
              (let found : contains_text refused_text message ≡ true =
                  ap (contains_text refused_text) m.2 ∙ contains_text-append refused_text m.0 m.1 in
                cc),
          ap (λ b. answered (if b then 5 else 4)) absent,
        )
      ]

  socks_dialled-IsDialled :
      (d : Dial)
      → net.dial ip port ≡ d
      → IsDialled net dns ip port shown rest (socks_dialled net dns ip port shown rest d)
  socks_dialled-IsDialled connected e = record {
    target = refl;
    kept = refl;
    on_connected = λ _. (refl, refl);
    on_error = λ text failed. cc;
  }
  socks_dialled-IsDialled (dial_error text) e = record {
    target = refl;
    kept = refl;
    on_connected = λ made. cc;
    on_error = λ text' failed.
        let same : text ≡ text' = cc in
        (
          subst
              (λ x.
                (Mentions refused_text (map lower (dial_message shown x))
                  × (answered (err_reply_code (dial_message shown text)) ≡ answered 5))
                ⊎ ((¬ Mentions refused_text (map lower (dial_message shown x)))
                    × (answered (err_reply_code (dial_message shown text)) ≡ answered 4)))
              same (reply_of text),
          refl,
        );
  }

socks_found-IsNamed :
    (net : Network) (found : Dns × Option Addr) (port : ℕ) (shown rest : List ℕ)
    → IsNamed net found port shown rest (socks_found net found port shown rest)
socks_found-IsNamed net (names, none) port shown rest = record {
  target = refl;
  kept = refl;
  written = refl;
  piped = refl;
}
socks_found-IsNamed net (names, some ip) port shown rest =
    socks_dialled-IsDialled net names ip port shown rest (net.dial ip port) refl

pub served-IsServed :
    (net : Network) (dns : Dns) (now : ℕ) (target : Target) (port : ℕ) (rest : List ℕ)
    → IsServed net dns now target port rest (served net dns now target port rest)
served-IsServed net dns now (ip4 a) port rest =
    socks_dialled-IsDialled net dns (v4 a) port (net.print_addr_port (v4 a) port) rest
      (net.dial (v4 a) port) refl
served-IsServed net dns now (ip6 a) port rest =
    socks_dialled-IsDialled net dns (v6 a) port (net.print_addr_port (v6 a) port) rest
      (net.dial (v6 a) port) refl
served-IsServed net dns now (host name) port rest =
    socks_found-IsNamed net (dns_lookup net dns name now) port (net.join_host_port name port) rest
