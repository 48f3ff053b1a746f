-- ===== src/Nonce/Tests.antt =====
-- A gateway that was just made: a client shakes hands, then a packet of the device is sent.
use selfremote.Common.{◌≡◌, ◌≤◌, refl, arith, List, [], ◌∷◌, Option, none, some}
use selfremote.Packet.{Parse, ok, bad, hang}
use selfremote.Engine.{
  Engine, gateway, seal_on, send_sealed, send_to, set_peer, responder, requires_mfa,
}
use selfremote.Engine.Heap.{lookup}
use selfremote.Engine.Library.{Library}
use selfremote.Example.{blank, library, heap}
use selfremote.Frame.{parse_frame}
use selfremote.Limiter.{allow}
use selfremote.Session.{handle_handshake_init, install_session, write_raw, greet, peer_by_pub}
use selfremote.Inbound.{Source, handle_packet}
use selfremote.Outbound.{send_from_tun, send_data, send_all}
use selfremote.Nonce.{uses}
use selfremote.Nonce.Send.{Limited}
use selfremote.Nonce.Reach.{Run, here, next, packet, device, IsNoise, IsStart, Run-once}

abbrev start : Engine
start = record blank { mode = gateway; heap = λ p. record (heap p) { cur = none } }

abbrev from : Option Source
from = some (record { endpoint = "198.51.100.7:9"; ip = "198.51.100.7" })

abbrev reached : Engine → Parse Engine → Engine
reached e (ok e') = e'
reached e bad = e
reached e hang = e

unfoldable greeted : Engine
unfolding handle_packet
greeted = reached start (handle_packet library 10 start from 5 (1 ∷ 1 ∷ 1 ∷ []))

unfoldable told : Engine
unfolding send_from_tun greeted
told = reached greeted (send_from_tun library.can_seal 10 greeted 6 (69 ∷ []))

-- From then on no handshake is answered.
abbrev quiet : Library
quiet = record library { respond = λ payload. none; read_resp = λ hs payload. none }

limited : Limited library.can_seal
limited n fine = ground (arith, fine)

greets : handle_packet library 10 start from 5 (1 ∷ 1 ∷ 1 ∷ []) ≡ ok greeted
unfolding greeted handle_packet parse_frame handle_handshake_init install_session write_raw greet
    peer_by_pub seal_on send_sealed set_peer lookup responder requires_mfa allow
greets = refl

tells : send_from_tun quiet.can_seal 10 greeted 6 (69 ∷ []) ≡ ok told
unfolding told send_from_tun greeted parse_frame responder allow lookup handle_handshake_init
    requires_mfa send_sealed
tells = refl

-- Two frames greet the client; the packet is sent under the next nonce.
told-uses : uses 8 2 told.sent ≡ 1
unfolding told greeted uses parse_frame handle_handshake_init install_session write_raw greet
    peer_by_pub seal_on send_sealed send_to set_peer send_data send_all lookup responder
    requires_mfa allow
told-uses = refl

start-IsNoise : IsNoise library start
unfolding uses
start-IsNoise = record {
  limited = limited;
  random = record {
    answered = λ payload msg cipher made. record { unused = λ n. refl; new = λ q s live. cc };
    completed = λ hs payload cipher made. record { unused = λ n. refl; new = λ q s live. cc };
  };
}

greeted-IsNoise : IsNoise quiet greeted
greeted-IsNoise = record {
  limited = limited;
  random = record {
    answered = λ payload msg cipher made. absurd (ground (arith, made));
    completed = λ hs payload cipher made. absurd (ground (arith, made));
  };
}

abbrev trace : List (Library × Engine)
trace = (library, start) ∷ (quiet, greeted) ∷ []

trace-Run : Run start trace told
trace-Run =
    next library start greeted told ((quiet, greeted) ∷ [])
      (packet 10 start greeted from 5 (1 ∷ 1 ∷ 1 ∷ []) greets)
      (next quiet greeted told told [] (device 10 greeted told 6 (69 ∷ []) tells) (here told))

start-IsStart : IsStart start
start-IsStart = record { silent = refl; idle = λ p. refl }

Run-once_example : uses 8 2 told.sent ≤ 1
Run-once_example =
    Run-once start told trace start-IsStart (start-IsNoise, (greeted-IsNoise, tt)) trace-Run 8 2
