-- ===== src/Outbound/Tests.antt =====
-- A packet for both peers.
use selfremote.Common.{◌≡◌, ◌++◌, [], ◌∷◌}
use selfremote.Example.Heaped.{blank-IsHeaped}
use selfremote.Example.{blank, sealable}
use selfremote.Outbound.{send_data}
use selfremote.Outbound.Broadcast.{due, send_data-due}

send_data-due_example :
    (send_data sealable blank 5 (1 ∷ [])).sent
    ≡ blank.sent ++ due sealable (1 ∷ []) blank.heap blank.peers
send_data-due_example = send_data-due sealable blank 5 (1 ∷ []) blank-IsHeaped
