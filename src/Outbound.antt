-- ===== src/Outbound.antt =====
-- Packets from the device to the peers (internal/tunnel/engine.go): `sendFromTun` and `sendData`.
pub mod Broadcast
mod Tests
use selfremote.Common.{ℕ, Bool, true, false, String, List, [], ◌∷◌, if◌then◌else◌}
use selfremote.Packet.{Parse, ok, bad, hang}
use selfremote.Translate.{to_tunnel}
use selfremote.Engine.{Engine, Mode, server, gateway, client, agent, send_to}
use selfremote.Inbound.{drop_at_edge}

module _ (can_seal : ℕ → Bool) where
  -- The loop of `sendData`: `sendTo`'s steps for each peer. The source writes the frames behind the
  -- loop, in the same order; a write reads the peer's address and counts the bytes.
  unfoldable pub send_all : List (String × ℕ) → Engine → ℕ → List ℕ → Engine
  send_all [] e now pkt = e
  send_all ((k, p) ∷ rows) e now pkt = send_all rows (send_to can_seal e p now pkt).0 now pkt

  unfoldable pub send_data : Engine → ℕ → List ℕ → Engine
  unfolding send_all
  send_data e now pkt = send_all e.peers e now pkt

  abbrev pub send_translated : Engine → ℕ → Parse (List ℕ × Bool) → Parse Engine
  send_translated e now (ok (out, true)) = ok (send_data e now out)
  send_translated e now (ok (out, false)) = ok (drop_at_edge e now)
  send_translated e now bad = ok (drop_at_edge e now)
  send_translated e now hang = hang

  abbrev pub send_in : Mode → ℕ → Engine → ℕ → List ℕ → Parse Engine
  send_in agent fuel e now pkt =
      if e.forwarding then send_translated e now (to_tunnel fuel e.translator pkt) else ok e
  send_in client fuel e now pkt = ok (send_data e now pkt)
  send_in server fuel e now pkt = ok (send_data e now pkt)
  send_in gateway fuel e now pkt = ok (send_data e now pkt)

  -- `sendFromTun`
  unfoldable pub send_from_tun : ℕ → Engine → ℕ → List ℕ → Parse Engine
  unfolding send_data
  send_from_tun fuel e now [] = ok e
  send_from_tun fuel e now (b ∷ bs) = send_in e.mode fuel e now (b ∷ bs)
