-- ===== src/Socks/Tests.antt =====
-- A client that asks for 10.0.0.2:443, with a TLS record behind its request.
use selfremote.Common.{◌≡◌, refl, false, List, [], ◌∷◌, none, some, ℕ}
use selfremote.Net.{v4}
use selfremote.Socks.{Network, Dns, Handled, connected, read_full, no_auth, socks_reply}
use selfremote.Socks.Socks5.{handle_socks5}
use selfremote.Socks.Http.{handle}
use selfremote.Socks.Answers.{ip4, IsServed}
use selfremote.Socks.Serve.{encode, handle-IsServed}

abbrev net : Network
net = record {
  dial = λ ip port. connected;
  query = λ name. none;
  parse_addr = λ text. none;
  print_addr_port = λ ip port. [];
  join_host_port = λ name port. [];
  read_request = λ input. none;
  split_host_port = λ text. none;
  parse_port = λ text. none;
}

abbrev dns : Dns
dns = record { has_server = false; cache = [] }

abbrev site : List ℕ
site = 10 ∷ 0 ∷ 0 ∷ 2 ∷ []

abbrev connection : Handled
connection = record {
  written = no_auth ∷ socks_reply 0 ∷ [];
  dialled = some (v4 site, 443);
  piped = some (22 ∷ 3 ∷ []);
  dns = dns;
}

-- One method, no authentication.
serves :
    handle net dns 5 (5 ∷ 1 ∷ 0 ∷ 5 ∷ 1 ∷ 0 ∷ 1 ∷ 10 ∷ 0 ∷ 0 ∷ 2 ∷ 1 ∷ 187 ∷ 22 ∷ 3 ∷ [])
    ≡ connection
unfolding handle handle_socks5 read_full
serves = refl

handle-IsServed_example :
    IsServed net dns 5
      (ip4 site)
      443
      (22 ∷ 3 ∷ [])
      (handle net dns 5 (encode (0 ∷ []) (ip4 site) 443 (22 ∷ 3 ∷ [])))
handle-IsServed_example = handle-IsServed net dns 5 (0 ∷ []) (ip4 site) 443 (22 ∷ 3 ∷ []) refl
