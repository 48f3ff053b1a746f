-- ===== src/Socks/Http.antt =====
-- The HTTP handshake (cmd/sr/socks.go, `handleHTTP`), and `handle`, which chooses between the two.
use selfremote.Common.{ℕ, List, [], ◌∷◌, Option, none, some, ◌==◌, if◌then◌else◌}
use selfremote.Net.{Addr}
use selfremote.Socks.{
  Dial, connected, dial_error, HttpRequest, Network, Dns, http, Handled, ended, dns_lookup,
}
use selfremote.Socks.Socks5.{handle_socks5}

module _ (net : Network) where
  abbrev pub http_dialled : Dns → Addr → ℕ → List ℕ → Dial → Handled
  http_dialled dns ip port rest connected = record {
    written = http 200 ∷ [];
    dialled = some (ip, port);
    piped = some rest;
    dns = dns;
  }
  http_dialled dns ip port rest (dial_error text) = record {
    written = http 502 ∷ [];
    dialled = some (ip, port);
    piped = none;
    dns = dns;
  }

  abbrev pub http_found : Dns × Option Addr → ℕ → List ℕ → Handled
  http_found (dns, none) port rest = ended (http 502 ∷ []) dns
  http_found (dns, some ip) port rest = http_dialled dns ip port rest (net.dial ip port)

  abbrev pub http_connect : Dns → ℕ → List ℕ → Option ℕ → List ℕ → Handled
  http_connect dns now host none rest = ended (http 400 ∷ []) dns
  http_connect dns now host (some port) rest = elim (net.parse_addr host) [
    | some ip ↦ http_dialled dns ip port rest (net.dial ip port)
    | none ↦ http_found (dns_lookup net dns host now) port rest
  ]

  -- The host and the text of the port, which is "443" where the field has none.
  abbrev pub host_and_port : List ℕ → List ℕ × List ℕ
  host_and_port field = elim (net.split_host_port field) [
    | some parts ↦ parts
    | none ↦ (field, 52 ∷ 52 ∷ 51 ∷ [])
  ]

  abbrev pub http_request : Dns → ℕ → Option (HttpRequest × List ℕ) → Handled
  http_request dns now none = ended [] dns
  http_request dns now (some (r, rest)) =
      let parts = host_and_port r.host in
      if r.is_connect
      then http_connect dns now parts.0 (net.parse_port parts.1) rest
      else ended (http 501 ∷ []) dns

  -- `handleHTTP`
  unfoldable pub handle_http : Dns → ℕ → List ℕ → Handled
  unfolding dns_lookup
  handle_http dns now input = http_request dns now (net.read_request input)

  -- `handle`: the first byte decides.
  unfoldable pub handle : Dns → ℕ → List ℕ → Handled
  unfolding handle_socks5 handle_http
  handle dns now [] = ended [] dns
  handle dns now (b ∷ bs) =
      if b == 5 then handle_socks5 net dns now (b ∷ bs) else handle_http dns now (b ∷ bs)
