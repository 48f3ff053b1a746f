-- ===== src/Socks.antt =====
-- The local proxy (cmd/sr/socks.go): what its two handshakes share, up to the copying of the bytes, and
-- the names it looks up. What is written to the client always arrives. Texts are
-- bytes; times are nanoseconds. Go's parsers and the network stack are parameters.
pub mod Socks5
pub mod Http
pub mod Answers
pub mod Serve
mod Tests
use selfremote.Common.{
  ℕ, zero, suc, ◌+◌, ◌*◌, ◌^◌, Bool, true, false, not, ◌&&◌, ◌||◌, List, [], ◌∷◌, ◌++◌, map, Option,
  none, some, ltb, ◌==◌, if◌then◌else◌, length, take, drop, max,
}
use selfremote.Engine.Heap.{lookup, insert}
use selfremote.Net.{Addr, v4, v6}
use selfremote.Net.Bytes.{bytes_eq}
use selfremote.Sites.Forms.{lower, starts_with}

-- What a dial gives: a connection, or the text of an error.
pub data Dial : Type 0 where
  connected : Dial
  dial_error : List ℕ → Dial

-- An HTTP request as it was read: whether it is a CONNECT, and its host field.
pub record HttpRequest : Type 0 where
  pub is_connect : Bool
  pub host : List ℕ

pub record Network : Type 0 where
  pub dial : Addr → ℕ → Dial
  pub query : List ℕ → Option (Addr × ℕ)
  pub parse_addr : List ℕ → Option Addr
  pub print_addr_port : Addr → ℕ → List ℕ
  pub join_host_port : List ℕ → ℕ → List ℕ
  -- The request at the start of a text, and the bytes behind it.
  pub read_request : List ℕ → Option (HttpRequest × List ℕ)
  -- A host and a port that are joined by a colon.
  pub split_host_port : List ℕ → Option (List ℕ × List ℕ)
  -- A decimal number of 16 bits.
  pub parse_port : List ℕ → Option ℕ

pub record DnsEntry : Type 0 where
  pub ip : Addr
  pub exp : ℕ

-- `tunnelDNS`: whether a server is set, and the answers kept with the times they hold until.
pub record Dns : Type 0 where
  pub has_server : Bool
  pub cache : List (List ℕ × DnsEntry)

pub data Response : Type 0 where
  bytes : List ℕ → Response
  http : ℕ → Response

-- How a handshake ends: what was written, the target that was dialled, the bytes of the client that
-- are copied to it first where a connection was made, and the names kept.
pub record Handled : Type 0 where
  pub written : List Response
  pub dialled : Option (Addr × ℕ)
  pub piped : Option (List ℕ)
  pub dns : Dns

abbrev pub ended : List Response → Dns → Handled
ended written dns = record { written = written; dialled = none; piped = none; dns = dns }

-- `io.ReadFull`; `none` where the client's bytes are too few.
unfoldable pub read_full : ℕ → List ℕ → Option (List ℕ × List ℕ)
read_full zero bs = some ([], bs)
read_full (suc n) [] = none
read_full (suc n) (b ∷ bs) = elim (read_full n bs) [
  | none ↦ none
  | some (xs, rest) ↦ some (b ∷ xs, rest)
]

-- `strings.TrimSuffix(..., ".")` on a text.
unfoldable pub trim_dot : List ℕ → List ℕ
trim_dot [] = []
trim_dot (c ∷ []) = if c == 46 then [] else c ∷ []
trim_dot (c ∷ d ∷ cs) = c ∷ trim_dot (d ∷ cs)

unfoldable pub contains_text : List ℕ → List ℕ → Bool
contains_text sub [] = starts_with sub []
contains_text sub (c ∷ cs) = starts_with sub (c ∷ cs) || contains_text sub cs

abbrev pub rep_success : ℕ
rep_success = 0

abbrev pub rep_host_unreach : ℕ
rep_host_unreach = 4

abbrev pub rep_conn_refused : ℕ
rep_conn_refused = 5

abbrev pub rep_cmd_not_support : ℕ
rep_cmd_not_support = 7

abbrev pub rep_addr_not_support : ℕ
rep_addr_not_support = 8

-- "refused"
abbrev pub refused_text : List ℕ
refused_text = 114 ∷ 101 ∷ 102 ∷ 117 ∷ 115 ∷ 101 ∷ 100 ∷ []

-- `errReplyCode`: both of its other branches give the same code.
unfoldable pub err_reply_code : List ℕ → ℕ
unfolding contains_text
err_reply_code message =
    if contains_text refused_text (map lower message) then rep_conn_refused else rep_host_unreach

-- `writeSocksReply`
abbrev pub socks_reply : ℕ → Response
socks_reply code = bytes (5 ∷ code ∷ 0 ∷ 1 ∷ 0 ∷ 0 ∷ 0 ∷ 0 ∷ 0 ∷ 0 ∷ [])

abbrev pub no_auth : Response
no_auth = bytes (5 ∷ 0 ∷ [])

-- The error of `dialTarget`: "连接 ", what was asked for, ": " and the network's text.
abbrev pub dial_message : List ℕ → List ℕ → List ℕ
dial_message disp text = (232 ∷ 191 ∷ 158 ∷ 230 ∷ 142 ∷ 165 ∷ 32 ∷ []) ++ (disp ++ (58 ∷ 32 ∷ text))

module _ (net : Network) where
  abbrev pub remember : Dns → List ℕ → ℕ → Option (Addr × ℕ) → Dns × Option Addr
  remember dns host now none = (dns, none)
  remember dns host now (some (ip, ttl)) = (
    record dns {
      cache =
          insert bytes_eq host (record { ip = ip; exp = now + max ttl (60 * 10 ^ 9) }) dns.cache;
    },
    some ip,
  )

  abbrev pub cached : Dns → List ℕ → ℕ → Option DnsEntry → Dns × Option Addr
  cached dns host now none = remember dns host now (net.query host)
  cached dns host now (some found) =
      if ltb now found.exp then (dns, some found.ip) else remember dns host now (net.query host)

  -- `tunnelDNS.lookup`; `none` is an error.
  unfoldable pub dns_lookup : Dns → List ℕ → ℕ → Dns × Option Addr
  unfolding lookup insert trim_dot
  dns_lookup dns host now = elim (net.parse_addr host) [
    | some ip ↦ (dns, some ip)
    | none ↦
        let name = trim_dot (map lower host) in
        if dns.has_server then cached dns name now (lookup bytes_eq name dns.cache) else (dns, none)
  ]
