-- ===== src/Lib.antt =====
-- The tunnel of selfremote: clients reach sites through a hub server that relays IP packets.
--
-- The parts and how they interact. A datagram of a peer is opened by one of the peer's sessions,
-- whose replay window judges the nonce; the decrypted IP packet goes to the server's relay, which
-- parses its header, checks who may send what to whom on tables that are rebuilt from the peers,
-- and seals the packet for the peer it chose. A peer with a second factor must first pass the gate
-- of the MFA. At a site's edge an agent translates between virtual and real addresses.
-- The web control plane keeps the table of the sites and publishes it to the server's file of
-- peers. On a client's machine a SOCKS and HTTP proxy dials through the tunnel.
--
-- Which file models which part (paths from the repository's root):
--   Common: numbers, lists, bits and texts that the parts share.
--   Net: addresses and prefixes as Go's net/netip has them, without zones.
--   Window: internal/tunnel/engine.go, `recvWindow` (`acceptable`, `commit`) and `trySession`.
--   Packet: internal/tunnel/addrmap.go, `parseIPHeader`; Packet/Checksum: `onesComplement` and
--     `checksumDelta`.
--   Translate: internal/tunnel/addrmap.go, `RouteMap`, `ParseRouteMap`, `Translator`, `remapAddr`,
--     `rewriteAddr`.
--   Engine: the state of internal/tunnel/engine.go, tunnel.go and registry.go, and the send path;
--     Engine/Tables: internal/tunnel/relay.go, `rebuildTablesLocked`.
--   Relay: internal/tunnel/relay.go, from `relayFromPeer` on.
--   Engine/Config: internal/tunnel/tunnel.go, modes and options; Engine/Library: what is taken from
--     code outside the repository.
--   Session: internal/tunnel/engine.go, both handshake handlers and `installSession`.
--   Inbound: internal/tunnel/engine.go, `handlePacket`, `handleData` and `deliverData`;
--     Inbound/Open: which session opens a frame.
--   Outbound: internal/tunnel/engine.go, `sendFromTun` and `sendData`.
--   Tick: internal/tunnel/engine.go, `tick`; Tick/Steps: its parts that send nothing.
--   Limiter: internal/tunnel/hslimit.go.
--   Registry: internal/tunnel/registry.go, the parsers; Registry/Apply and Registry/Reload:
--     internal/tunnel/registry_runtime.go.
--   Agent: internal/tunnel/agent.go; Auth/Dialler: the client's side of internal/tunnel/auth.go.
--   Sites: internal/webapp/db.go, agents.go, enroll.go, the table of sites; Sites/Forms and
--     Sites/Check: agents.go, what is typed and `validateRouteSet`; Sites/Handle and Sites/Create:
--     the handlers of agents.go; Sites/Enroll: enroll.go, `handleEnroll`, and these requests together.
--   Socks: cmd/sr/socks.go, `tunnelDNS.lookup` and the answers; Socks/Socks5: `handleSOCKS5`;
--     Socks/Http: `handleHTTP` and `handle`.
--   Throttle: internal/webapp/auth.go, `loginLimiter`, and security.go, `ipLimiter`; Throttle/Login:
--     auth.go, `handleLoginPost`.
--   Nonce: the frames of a whole run, of every handler and the timer, counted by cipher and nonce.
--   Example: a server with two peers that the tests share.
--   Frame: internal/tunnel/frame.go.
--   Auth: internal/tunnel/auth.go, `checkTOTP` and `handleAuthResp`.
--   Pool: internal/webapp/ipalloc.go, `allocIP`.
--   Routes: internal/webapp/routes.go, `allocVirtualPrefix` and `assignRoutesPure`.
--
-- State. A `*peerState` is a number, an address on the heap of the `Engine` record; Go's maps are
-- association lists in the order of iteration; times are nanoseconds with 0 for the zero time, and
-- a handler runs at one time. Each handler is one step: other handlers do not run between the parts
-- of it that hold the lock. What the engine writes to the network are the lists `sent`, sealed
-- frames, and `raw`, handshake messages; `written` is what it writes to the device. Sealing is
-- symbolic: a frame names its session, type, nonce and plaintext. The record `Library` holds the
-- functions of the Noise and TOTP libraries and of the codecs that the code calls: for which nonces
-- a cipher encrypts, what it makes of a received frame, the messages of a handshake, the codes of a
-- secret, the JSON payloads. The parsers of addresses, prefixes and base64 are parameters as well.
--
-- Integers of fixed width keep their wrap-around: counters and nonces modulo 2 ^ 64, the checksum's
-- sum modulo 2 ^ 32, the extension header's length modulo 2 ^ 8. Packet bytes are numbers; a
-- theorem that needs them below 256 says so.
--
-- Loops. The folding of the checksum's carries is recursion on `Acc`. The walk over IPv6 extension
-- headers takes fuel, two rounds a byte and two more (`walk_fuel`), and gives `hang` when it runs
-- out of it. The search for a free block has fuel for the most blocks of a pool, 4096, and the last
-- test.
--
-- Simplified: `strings.EqualFold` folds ASCII letters only; `sort.Slice` is a stable insertion sort,
-- one of the orders that Go allows; a log line is left out, its rate limit is not. The tokens of the
-- handshake limit are counted exactly, in units of 10 ^ -9, where the source rounds to float64. The
-- frames that `sendData` and `tick` seal in a loop are written in the order of the loop; of a
-- re-dial only the request is counted, and of the prompt for a code that it was asked for.
-- Lower and upper case are those of ASCII. A SQL table is a list of rows, each statement of a
-- request may fail on its own, and a request runs alone. What a proxied client sends is there when
-- it is read.
--
-- Not modelled: the Noise library itself, start-up and shutdown of the engine, devices and sockets,
-- the rest of the web control plane (pages, devices, the text of packages, and the registration of
-- users with the import of pre-provisioned sites, which stores their routes unchecked), the command
-- line, the copying of proxied bytes and the DNS messages of the proxy, deployment.
pub mod Common
pub mod Net
pub mod Packet
pub mod Translate
pub mod Window
pub mod Engine
pub mod Relay
pub mod Agent
pub mod Auth
pub mod Example
pub mod Frame
pub mod Inbound
pub mod Limiter
pub mod Nonce
pub mod Outbound
pub mod Pool
pub mod Registry
pub mod Routes
pub mod Session
pub mod Sites
pub mod Socks
pub mod Throttle
pub mod Tick
