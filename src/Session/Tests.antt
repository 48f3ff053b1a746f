-- ===== src/Session/Tests.antt =====
-- A client that shakes hands with the server.
use selfremote.Common.{◌≡◌, ◌⊎◌, [], ◌∷◌}
use selfremote.Example.{blank, library}
use selfremote.Session.{handle_handshake_init}
use selfremote.Session.Guard.{IsEstablished, handle_handshake_init-IsEstablished}

handle_handshake_init-IsEstablished_example :
    (handle_handshake_init library blank "198.51.100.7:9" (1 ∷ []) 5 ≡ blank)
    ⊎ IsEstablished library blank "198.51.100.7:9"
        (1 ∷ [])
        5
        (handle_handshake_init library blank "198.51.100.7:9" (1 ∷ []) 5)
handle_handshake_init-IsEstablished_example =
    handle_handshake_init-IsEstablished library blank "198.51.100.7:9" (1 ∷ []) 5
