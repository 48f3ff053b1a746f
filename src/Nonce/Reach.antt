-- ===== src/Nonce/Reach.antt =====
-- A whole run of an endpoint (internal/tunnel/engine.go, `Run` and its loops): the events in any
-- order, each handled as one step, and what they leave of the nonces in use.
use selfremote.Common.{
  ℕ, ◌≤◌, ◌≡◌, refl, sym, subst, String, List, [], ◌∷◌, Option, none, All, arith,
}
use selfremote.Packet.{Parse, ok}
use selfremote.Engine.{Engine}
use selfremote.Engine.Library.{Library}
use selfremote.Engine.Tables.{rebuild_tables}
use selfremote.Registry.{Registry}
use selfremote.Registry.Reload.{Poll, reload_registry}
use selfremote.Auth.Dialler.{on_prompt, send_bye}
use selfremote.Agent.{kick_agent, refresh_agent}
use selfremote.Inbound.{Source, handle_packet}
use selfremote.Outbound.{send_from_tun}
use selfremote.Tick.{tick}
use selfremote.Nonce.{uses, pends, Once}
use selfremote.Nonce.Send.{Clean, Limited}
use selfremote.Nonce.Relays.{Ends}
use selfremote.Nonce.Auths.{on_prompt-Clean, send_bye-Clean}
use selfremote.Nonce.Sessions.{IsRandom}
use selfremote.Nonce.Agents.{kick_agent-Clean, refresh_agent-Clean}
use selfremote.Nonce.Reloads.{reload_registry-Clean, rebuild_tables-Clean}
use selfremote.Nonce.Packets.{handle_packet-Clean, send_from_tun-Clean}
use selfremote.Nonce.Timer.{tick-Clean}

-- What an engine does from one state to the next: the load of the registries when it starts, a
-- datagram, a packet of the device, the timer, a prompt's answer, the two commands of the control
-- socket for an agent, the end. The library answers as it likes at each step.
pub data Step (lib : Library) : Engine → Engine → Type 0 where
  loaded :
      (parse parse_agents : List ℕ → Option Registry) (e : Engine) (now : ℕ) (clients agents : Poll)
      → Step lib e (rebuild_tables (reload_registry lib parse parse_agents e now clients agents))
  packet :
      (fuel : ℕ) (e e' : Engine) (from : Option Source) (now : ℕ) (frm : List ℕ)
      → handle_packet lib fuel e from now frm ≡ ok e'
      → Step lib e e'
  device :
      (fuel : ℕ) (e e' : Engine) (now : ℕ) (pkt : List ℕ)
      → send_from_tun lib.can_seal fuel e now pkt ≡ ok e'
      → Step lib e e'
  timed :
      (parse parse_agents : List ℕ → Option Registry) (e : Engine) (now : ℕ) (clients agents : Poll)
      → Step lib e (tick lib parse parse_agents e now clients agents)
  prompted :
      (e : Engine) (p now : ℕ) (answer : Option (List ℕ))
      → Step lib e (on_prompt lib e p now answer)
  kicked : (e : Engine) (id : String) (now : ℕ) → Step lib e (kick_agent lib e id now).0
  refreshed : (e : Engine) (id : String) (now : ℕ) → Step lib e (refresh_agent lib e id now).0
  ended : (e : Engine) (now : ℕ) → Step lib e (send_bye lib e now)

-- A run, with the library and the state of each of its steps.
pub data Run : Engine → List (Library × Engine) → Engine → Type 0 where
  here : (e : Engine) → Run e [] e
  next :
      (lib : Library) (e m e' : Engine) (trace : List (Library × Engine))
      → Step lib e m
      → Run m trace e'
      → Run e ((lib, e) ∷ trace) e'

-- What the Noise library keeps to at a state.
pub record IsNoise (lib : Library) (e : Engine) : Type 0 where
  pub limited : Limited lib.can_seal
  pub random : IsRandom lib e

-- An engine that was just made: nothing sent, no session.
pub record IsStart (e : Engine) : Type 0 where
  pub silent : e.sent ≡ []
  pub idle : (p : ℕ) → (e.heap p).cur ≡ none

IsStart-Clean : (e : Engine) → IsStart e → Clean [] e
unfolding Clean Once pends uses
IsStart-Clean e h =
    let empty : (c n : ℕ) → uses c n e.sent ≡ 0 =
      λ c n. subst (λ fs. uses c n fs ≡ 0) (sym h.silent) refl in
    record {
      once = λ c n. let z = empty c n in omega (arith, z);
      ahead = λ p s live n le. let z = h.idle p in cc;
      apart = λ p q s t live live' other same. let z = h.idle p in cc;
    }

Ends-ok : (P : Engine → Type 0) (r : Parse Engine) (e : Engine) → r ≡ ok e → Ends P r → P e
Ends-ok P r e made h = subst (Ends P) made h

step-Clean :
    (lib : Library) (e e' : Engine) → IsNoise lib e → Step lib e e' → Clean [] e → Clean [] e'
step-Clean lib e _ h (loaded parse parse_agents _ now clients agents) c =
    rebuild_tables-Clean [] (reload_registry lib parse parse_agents e now clients agents)
      (reload_registry-Clean lib h.limited [] parse parse_agents e now clients agents c)
step-Clean lib e e' h (packet fuel _ _ from now frm made) c =
    Ends-ok (Clean []) (handle_packet lib fuel e from now frm) e' made
      (handle_packet-Clean lib fuel h.limited e from now frm h.random c)
step-Clean lib e e' h (device fuel _ _ now pkt made) c =
    Ends-ok (Clean []) (send_from_tun lib.can_seal fuel e now pkt) e' made
      (send_from_tun-Clean lib.can_seal h.limited fuel e now pkt c)
step-Clean lib e _ h (timed parse parse_agents _ now clients agents) c =
    tick-Clean lib h.limited parse parse_agents e now clients agents c
step-Clean lib e _ h (prompted _ p now answer) c = on_prompt-Clean lib h.limited [] e p now answer c
step-Clean lib e _ h (kicked _ id now) c = kick_agent-Clean lib h.limited [] e id now c
step-Clean lib e _ h (refreshed _ id now) c = refresh_agent-Clean lib h.limited [] e id now c
step-Clean lib e _ h (ended _ now) c = send_bye-Clean lib h.limited [] e now c

Run-Clean :
    (e e' : Engine) (trace : List (Library × Engine))
    → All (λ (at : Library × Engine). IsNoise at.0 at.1) trace
    → Run e trace e'
    → Clean [] e
    → Clean [] e'
Run-Clean e _ _ h (here _) c = c
Run-Clean e e' _ h (next lib _ m _ trace s r) c =
    Run-Clean m e' trace h.1 r (step-Clean lib e m h.0 s c)

-- In any run from an engine just made, whatever arrives in whatever order, no two frames that were
-- sent are sealed by the same cipher under the same nonce: there is at most one for each pair. The
-- Noise library does not encrypt under the last nonce, and each handshake agrees a cipher that no
-- frame sent and no other session has.
pub Run-once :
    (e e' : Engine) (trace : List (Library × Engine))
    → IsStart e
    → All (λ (at : Library × Engine). IsNoise at.0 at.1) trace
    → Run e trace e'
    → (cipher nonce : ℕ) → uses cipher nonce e'.sent ≤ 1
unfolding Clean Once pends
Run-once e e' trace start h r cipher nonce =
    let c = (Run-Clean e e' trace h r (IsStart-Clean e start)).once cipher nonce in omega (arith, c)
