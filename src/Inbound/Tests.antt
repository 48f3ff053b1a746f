-- ===== src/Inbound/Tests.antt =====
-- Frames at a server: one of the client's before it has passed the second factor, and a forged one.
use selfremote.Common.{ℕ, ◌≡◌, ◌≢◌, ◌⊎◌, refl, arith, true, List, [], ◌∷◌, Option, none, some}
use selfremote.Packet.{ok}
use selfremote.Frame.{frame, parse_frame}
use selfremote.Engine.{Engine, gateway, frame_data, requires_mfa, responder, dials}
use selfremote.Engine.Heap.{lookup}
use selfremote.Engine.Library.{Library}
use selfremote.Window.{try_session, acceptable, commit}
use selfremote.Inbound.Open.{Opened, open_frame, try_peer, try_others}
use selfremote.Example.{blank, session, library}
use selfremote.Inbound.{
  Source, handle_data, handle_packet, is_gated, heard, write_device, deliver_data,
}
use selfremote.Inbound.Entitled.{IsQuiet, IsEntitled, handle_data-IsEntitled, handle_packet-forged}

abbrev from : Option Source
from = some (record { endpoint = "203.0.113.9:4500"; ip = "203.0.113.9" })

-- A gateway, whose packets go to its device.
abbrev edge : Engine
edge = record blank { mode = gateway }

abbrev datagram : List ℕ
datagram = 1 ∷ 3 ∷ 0 ∷ 0 ∷ 0 ∷ 0 ∷ 0 ∷ 0 ∷ 0 ∷ 9 ∷ 69 ∷ []

abbrev by : Opened
by = record {
  peer = 0;
  state = record (edge.heap 0) {
    cur = some (record session {
      window = record { init = true; highest = 9; bitmap = 1 };
      recv_count = 1;
    });
  };
  plain = 69 ∷ [];
}

abbrev delivered : Engine
delivered = write_device (heard edge from datagram 5 by) (69 ∷ [])

runs : handle_data library 100 edge from frame_data 9 5 datagram ≡ ok delivered
unfolding handle_data open_frame try_peer try_others try_session acceptable commit is_gated
    requires_mfa deliver_data lookup responder dials
runs = refl

handle_data-IsEntitled_example :
    IsQuiet edge delivered ⊎ IsEntitled library 100 edge from 9 5 datagram delivered
handle_data-IsEntitled_example =
    handle_data-IsEntitled library 100 edge delivered from 9 5 datagram runs

abbrev deaf : Library
deaf = record library { opened = λ cipher nonce frm. none }

is_data :
    (typ : ℕ) (payload : List ℕ) → parse_frame datagram ≡ frame typ payload → (typ ≢ 1) × (typ ≢ 2)
unfolding parse_frame
is_data typ payload e =
    let same : 3 ≡ typ = cc in (λ h. omega (arith, same, h), λ h. omega (arith, same, h))

handle_packet-forged_example : handle_packet deaf 100 edge from 5 datagram ≡ ok edge
handle_packet-forged_example =
    handle_packet-forged deaf 100 edge from 5 datagram (λ cipher nonce. refl) is_data
