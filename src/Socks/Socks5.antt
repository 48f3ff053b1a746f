-- ===== src/Socks/Socks5.antt =====
-- The SOCKS5 handshake (cmd/sr/socks.go, `handleSOCKS5`).
use selfremote.Common.{
  ℕ, ◌+◌, ◌*◌, not, List, [], ◌∷◌, Option, none, some, ◌==◌, if◌then◌else◌, take, drop,
}
use selfremote.Net.{Addr, v4, v6}
use selfremote.Socks.{
  Dial, connected, dial_error, Network, Dns, Handled, ended, read_full, rep_success,
  rep_host_unreach, rep_cmd_not_support, rep_addr_not_support, err_reply_code, socks_reply, no_auth,
  dial_message, dns_lookup,
}

module _ (net : Network) where
  -- The end of `handleSOCKS5`: the dial and the reply.
  abbrev pub socks_dialled : Dns → Addr → ℕ → List ℕ → List ℕ → Dial → Handled
  socks_dialled dns ip port disp rest connected = record {
    written = no_auth ∷ socks_reply rep_success ∷ [];
    dialled = some (ip, port);
    piped = some rest;
    dns = dns;
  }
  socks_dialled dns ip port disp rest (dial_error text) = record {
    written = no_auth ∷ socks_reply (err_reply_code (dial_message disp text)) ∷ [];
    dialled = some (ip, port);
    piped = none;
    dns = dns;
  }

  abbrev pub socks_connect : Dns → Addr → ℕ → List ℕ → List ℕ → Handled
  socks_connect dns ip port disp rest = socks_dialled dns ip port disp rest (net.dial ip port)

  abbrev pub port_of : List ℕ → ℕ
  port_of (a ∷ b ∷ _) = a * 256 + b
  port_of _ = 0

  abbrev pub socks_v4 : Dns → Option (List ℕ × List ℕ) → Handled
  socks_v4 dns none = ended (no_auth ∷ []) dns
  socks_v4 dns (some (b, rest)) =
      let ip = v4 (take 4 b) in
      let port = port_of (drop 4 b) in socks_connect dns ip port (net.print_addr_port ip port) rest

  abbrev pub socks_v6 : Dns → Option (List ℕ × List ℕ) → Handled
  socks_v6 dns none = ended (no_auth ∷ []) dns
  socks_v6 dns (some (b, rest)) =
      let ip = v6 (take 16 b) in
      let port = port_of (drop 16 b) in socks_connect dns ip port (net.print_addr_port ip port) rest

  abbrev pub socks_found : Dns × Option Addr → ℕ → List ℕ → List ℕ → Handled
  socks_found (dns, none) port disp rest = ended (no_auth ∷ socks_reply rep_host_unreach ∷ []) dns
  socks_found (dns, some ip) port disp rest = socks_connect dns ip port disp rest

  abbrev pub socks_named : Dns → ℕ → ℕ → Option (List ℕ × List ℕ) → Handled
  socks_named dns now l none = ended (no_auth ∷ []) dns
  socks_named dns now l (some (b, rest)) =
      let name = take l b in
      let port = port_of (drop l b) in
      socks_found (dns_lookup net dns name now) port (net.join_host_port name port) rest

  abbrev pub socks_host : Dns → ℕ → List ℕ → Handled
  socks_host dns now [] = ended (no_auth ∷ []) dns
  socks_host dns now (l ∷ rest) = socks_named dns now l (read_full (l + 2) rest)

  -- The switch over the type of the address.
  abbrev pub socks_target : Dns → ℕ → ℕ → List ℕ → Handled
  socks_target dns now atyp rest =
      if atyp == 1
      then socks_v4 dns (read_full 6 rest)
      else if atyp == 4
      then socks_v6 dns (read_full 18 rest)
      else if atyp == 3
      then socks_host dns now rest
      else ended (no_auth ∷ socks_reply rep_addr_not_support ∷ []) dns

  abbrev pub socks_request : Dns → ℕ → Option (List ℕ × List ℕ) → Handled
  socks_request dns now (some (version ∷ cmd ∷ _ ∷ atyp ∷ [], rest)) =
      if not (version == 5)
      then ended (no_auth ∷ []) dns
      else if not (cmd == 1)
      then ended (no_auth ∷ socks_reply rep_cmd_not_support ∷ []) dns
      else socks_target dns now atyp rest
  socks_request dns now _ = ended (no_auth ∷ []) dns

  abbrev pub socks_greeted : Dns → ℕ → Option (List ℕ × List ℕ) → Handled
  socks_greeted dns now none = ended [] dns
  socks_greeted dns now (some (greet, rest)) = socks_request dns now (read_full 4 rest)

  -- `handleSOCKS5` on all that the client sends.
  unfoldable pub handle_socks5 : Dns → ℕ → List ℕ → Handled
  unfolding read_full dns_lookup err_reply_code
  handle_socks5 dns now (version ∷ nm ∷ rest) =
      socks_greeted dns now (read_full (2 + nm) (version ∷ nm ∷ rest))
  handle_socks5 dns now _ = ended [] dns
