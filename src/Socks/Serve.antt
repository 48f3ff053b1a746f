-- ===== src/Socks/Serve.antt =====
-- A SOCKS5 client that asks for a connection as the protocol writes it (RFC 1928) is given that one.
use selfremote.Common.{
  ℕ, zero, suc, ◌+◌, ◌/◌, ◌%◌, ◌≡◌, refl, sym, subst, ◌∙◌, ap, List, [], ◌∷◌, ◌++◌, some, length,
  length-append, take, drop, arith,
}
use selfremote.Net.{v4, v6}
use selfremote.Socks.{Network, Dns, read_full, dns_lookup}
use selfremote.Socks.Socks5.{
  port_of, socks_connect, socks_found, socks_v4, socks_v6, socks_named, socks_request,
  socks_greeted, handle_socks5,
}
use selfremote.Socks.Http.{handle}
use selfremote.Socks.Answers.{Target, ip4, ip6, host, IsTarget, IsServed, served, served-IsServed}

abbrev pub encode_port : ℕ → List ℕ
encode_port port = port / 256 ∷ port % 256 ∷ []

-- The type of the address, the address and the port, as the client writes them.
abbrev pub encode_target : Target → ℕ → List ℕ
encode_target (ip4 a) port = 1 ∷ (a ++ encode_port port)
encode_target (ip6 a) port = 4 ∷ (a ++ encode_port port)
encode_target (host name) port = 3 ∷ length name ∷ (name ++ encode_port port)

-- The greeting with the methods, the request, and what the client sends behind them.
abbrev pub encode : List ℕ → Target → ℕ → List ℕ → List ℕ
encode methods target port rest =
    5 ∷ length methods ∷ (methods ++ (5 ∷ 1 ∷ 0 ∷ (encode_target target port ++ rest)))

read_full-append : (n : ℕ) (xs ys : List ℕ) → length xs ≡ n → read_full n (xs ++ ys) ≡ some (xs, ys)
unfolding read_full
read_full-append zero [] ys e = refl
read_full-append zero (x ∷ xs) ys e = absurd (omega (arith, e))
read_full-append (suc n) [] ys e = absurd (omega (arith, e))
read_full-append (suc n) (x ∷ xs) ys e = ground (arith, read_full-append n xs ys (omega (arith, e)))

take-append : (n : ℕ) (xs ys : List ℕ) → length xs ≡ n → take n (xs ++ ys) ≡ xs
take-append zero [] ys e = refl
take-append zero (x ∷ xs) ys e = absurd (omega (arith, e))
take-append (suc n) [] ys e = absurd (omega (arith, e))
take-append (suc n) (x ∷ xs) ys e = ap (λ r. x ∷ r) (take-append n xs ys (omega (arith, e)))

drop-append : (n : ℕ) (xs ys : List ℕ) → length xs ≡ n → drop n (xs ++ ys) ≡ ys
drop-append zero [] ys e = refl
drop-append zero (x ∷ xs) ys e = absurd (omega (arith, e))
drop-append (suc n) [] ys e = absurd (omega (arith, e))
drop-append (suc n) (x ∷ xs) ys e = drop-append n xs ys (omega (arith, e))

module _ (net : Network) where
  port_of-encode :
      (n port : ℕ) (xs : List ℕ)
      → length xs ≡ n
      → port_of net (drop n (xs ++ encode_port port)) ≡ port
  port_of-encode n port xs e =
      ap (port_of net) (drop-append n xs (encode_port port) e) ∙ omega arith

  module _ (dns : Dns) (now port : ℕ) (rest : List ℕ) where
    v4-served :
        (a : List ℕ)
        → length a ≡ 4
        → socks_v4 net dns (read_full 6 ((a ++ encode_port port) ++ rest))
          ≡ served net dns now (ip4 a) port rest
    v4-served a e =
        let b = a ++ encode_port port in
        let n : length b ≡ 6 = length-append a (encode_port port) ∙ omega (arith, e) in
        ap (socks_v4 net dns) (read_full-append 6 b rest n)
        ∙ (ap
              (λ x.
                socks_connect net dns (v4 x) (port_of net (drop 4 b))
                  (net.print_addr_port (v4 x) (port_of net (drop 4 b))) rest)
              (take-append 4 a (encode_port port) e)
            ∙ ap (λ q. socks_connect net dns (v4 a) q (net.print_addr_port (v4 a) q) rest)
                (port_of-encode 4 port a e))

    v6-served :
        (a : List ℕ)
        → length a ≡ 16
        → socks_v6 net dns (read_full 18 ((a ++ encode_port port) ++ rest))
          ≡ served net dns now (ip6 a) port rest
    v6-served a e =
        let b = a ++ encode_port port in
        let n : length b ≡ 18 = length-append a (encode_port port) ∙ omega (arith, e) in
        ap (socks_v6 net dns) (read_full-append 18 b rest n)
        ∙ (ap
              (λ x.
                socks_connect net dns (v6 x) (port_of net (drop 16 b))
                  (net.print_addr_port (v6 x) (port_of net (drop 16 b))) rest)
              (take-append 16 a (encode_port port) e)
            ∙ ap (λ q. socks_connect net dns (v6 a) q (net.print_addr_port (v6 a) q) rest)
                (port_of-encode 16 port a e))

    host-served :
        (name : List ℕ)
        → socks_named net dns now
            (length name)
            (read_full (length name + 2) ((name ++ encode_port port) ++ rest))
          ≡ served net dns now (host name) port rest
    host-served name =
        let l = length name in
        let b = name ++ encode_port port in
        let n : length b ≡ l + 2 = length-append name (encode_port port) in
        ap (socks_named net dns now l) (read_full-append (l + 2) b rest n)
        ∙ (ap
              (λ x.
                socks_found net (dns_lookup net dns x now) (port_of net (drop l b))
                  (net.join_host_port x (port_of net (drop l b))) rest)
              (take-append l name (encode_port port) refl)
            ∙ ap
                (λ q.
                  socks_found net (dns_lookup net dns name now) q (net.join_host_port name q) rest)
                (port_of-encode l port name refl))

    target-served :
        (target : Target)
        → IsTarget target
        → socks_request net dns now (read_full 4 (5 ∷ 1 ∷ 0 ∷ (encode_target target port ++ rest)))
          ≡ served net dns now target port rest
    unfolding read_full
    target-served (ip4 a) e = v4-served a e
    target-served (ip6 a) e = v6-served a e
    target-served (host name) e = host-served name

-- A client that greets with any methods and asks for a connection to an IPv4 or IPv6 address, of its
-- family's length, or to a name, as the protocol writes it, is served that target and port. Exactly that
-- is dialled, the address of a name being what the lookup gives; where the dial is answered, the reply
-- says so, and what is copied first is what the client sent behind its request; where it fails, the reply
-- says whether the error mentions a refusal; a name that is not found is unreachable and not dialled.
pub handle-IsServed :
    (net : Network) (dns : Dns) (now : ℕ) (methods : List ℕ) (target : Target) (port : ℕ)
    (rest : List ℕ)
    → IsTarget target
    → IsServed net dns now target port rest (handle net dns now (encode methods target port rest))
unfolding handle handle_socks5
handle-IsServed net dns now methods target port rest fits =
    let n = length methods in
    let tail = 5 ∷ 1 ∷ 0 ∷ (encode_target target port ++ rest) in
    let whole : length (5 ∷ n ∷ methods) ≡ 2 + n = omega arith in
    subst (IsServed net dns now target port rest)
      (sym (
        ap (socks_greeted net dns now) (read_full-append (2 + n) (5 ∷ n ∷ methods) tail whole)
        ∙ target-served net dns now port rest target fits))
      (served-IsServed net dns now target port rest)
