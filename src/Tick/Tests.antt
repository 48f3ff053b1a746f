-- ===== src/Tick/Tests.antt =====
-- The timer at a server with two peers.
use selfremote.Common.{refl, All, ◌*◌, ◌^◌}
use selfremote.Engine.{responder}
use selfremote.Example.Heaped.{blank-IsHeaped}
use selfremote.Example.{blank, library}
use selfremote.Tick.{timer}
use selfremote.Tick.Due.{IsTimely}
use selfremote.Tick.Timely.{timer-IsTimely}

timer-IsTimely_example :
    All
      (λ row. IsTimely (25 * 10 ^ 9) (60 * 10 ^ 9) ((timer library blank (60 * 10 ^ 9)).heap row.1))
      blank.peers
unfolding responder
timer-IsTimely_example = timer-IsTimely library blank (60 * 10 ^ 9) refl blank-IsHeaped
