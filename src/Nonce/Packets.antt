-- ===== src/Nonce/Packets.antt =====
-- Datagrams from the network and packets from the device (internal/tunnel/engine.go), and the nonces
-- in use.
use selfremote.Common.{
  ℕ, ◌+◌, ◌%◌, ◌^◌, refl, Bool, true, false, String, str_eq, List, [], ◌∷◌, Option, none, some,
  ◌==◌, length, if◌then◌else◌, if_cases, arith,
}
use selfremote.Packet.{Parse, ok, bad, hang}
use selfremote.Translate.{to_local, to_tunnel}
use selfremote.Frame.{Frame, short_frame, bad_version, frame, parse_frame, data_nonce}
use selfremote.Limiter.{allow, dropped_since}
use selfremote.Engine.{
  Engine, Mode, client, agent, server, gateway, set_peer, reset_auth, frame_data, send_to,
}
use selfremote.Engine.Heap.{insert}
use selfremote.Engine.Library.{Library}
use selfremote.Session.{server_info, handle_handshake_init}
use selfremote.Inbound.Open.{Opened, open_frame}
use selfremote.Inbound.{
  Source, note_hs_drop, drop_at_edge, write_device, deliver_local, heard, is_gated, endpoint_of,
  on_bye, deliver_in, deliver_data, on_control, after_open, handle_data, with_nonce, on_init,
  on_frame, on_parsed, handle_packet,
}
use selfremote.Outbound.{send_all, send_data, send_translated, send_in, send_from_tun}
use selfremote.Nonce.Count.{Below}
use selfremote.Nonce.Send.{Clean, Limited, set_peer-Clean, same-Clean, send_to-Clean}
use selfremote.Nonce.Relays.{Ends, relay_from_peer-Clean}
use selfremote.Nonce.Auths.{
  handle_auth_resp-Clean, handle_auth_challenge-Clean, handle_auth_result-Clean, handle_info-Clean,
}
use selfremote.Nonce.Agents.{handle_agent_info-Clean, handle_agent_cmd-Clean}
use selfremote.Nonce.Sessions.{IsRandom, handle_handshake_init-Clean, handle_handshake_resp-Clean}
use selfremote.Nonce.Opened.{IsCalm, open_frame-IsCalm}

note_hs_drop-Clean : (e : Engine) (now : ℕ) → Clean [] e → Clean [] (note_hs_drop e now)
unfolding note_hs_drop
note_hs_drop-Clean e now c =
    let noted = record e { hs_log_at = now; hs_limiter = (dropped_since e.hs_limiter).0 } in
    ground (arith, c, same-Clean [] e noted refl refl c)

drop_at_edge-Clean : (e : Engine) (now : ℕ) → Clean [] e → Clean [] (drop_at_edge e now)
unfolding drop_at_edge
drop_at_edge-Clean e now c =
    let counted = record e { agent_drops = (e.agent_drops + 1) % 2 ^ 64 } in
    ground (
      arith,
      same-Clean [] e counted refl refl c,
      same-Clean [] e (record counted { agent_drop_log = now }) refl refl c,
    )

deliver_local-Clean :
    (e : Engine) (now : ℕ) (out : Parse (List ℕ × Bool))
    → Clean [] e
    → Ends (Clean []) (deliver_local e now out)
deliver_local-Clean e now (ok (out, true)) c = same-Clean [] e (write_device e out) refl refl c
deliver_local-Clean e now (ok (out, false)) c = drop_at_edge-Clean e now c
deliver_local-Clean e now bad c = drop_at_edge-Clean e now c
deliver_local-Clean e now hang c = tt

heard-Clean :
    (e : Engine) (from : Option Source) (frm : List ℕ) (now : ℕ) (o : Opened)
    → Below (e.heap o.peer).cur o.state.cur
    → Clean [] e
    → Clean [] (heard e from frm now o)
heard-Clean e none frm now o b c =
    set_peer-Clean [] e o.peer
      (record o.state { last_recv = now; bytes_in = (o.state.bytes_in + length frm) % 2 ^ 64 }) b c
heard-Clean e (some from) frm now o b c =
    let st = record o.state {
      last_recv = now;
      bytes_in = (o.state.bytes_in + length frm) % 2 ^ 64;
      addr = some from.endpoint;
    } in
    same-Clean [] (set_peer e o.peer st)
      (record (set_peer e o.peer st) { addr2peer = insert str_eq from.endpoint o.peer e.addr2peer })
      refl refl (set_peer-Clean [] e o.peer st b c)

on_bye-Clean : (e : Engine) (p : ℕ) → Clean [] e → Clean [] (on_bye e p)
unfolding reset_auth
on_bye-Clean e p c =
    set_peer-Clean [] e p (reset_auth (record (e.heap p) { cur = none; prev = none })) tt c

module _ (lib : Library) (fuel : ℕ) (limited : Limited lib.can_seal) where
  deliver_in-Clean :
      (mode : Mode) (e : Engine) (p now : ℕ) (pkt : List ℕ)
      → Clean [] e
      → Ends (Clean []) (deliver_in lib fuel mode e p now pkt)
  deliver_in-Clean server e p now pkt c =
      relay_from_peer-Clean lib.can_seal limited [] fuel e p now pkt c
  deliver_in-Clean agent e p now pkt c =
      deliver_local-Clean e now (to_local fuel e.translator pkt) c
  deliver_in-Clean client e p now pkt c = same-Clean [] e (write_device e pkt) refl refl c
  deliver_in-Clean gateway e p now pkt c = same-Clean [] e (write_device e pkt) refl refl c

  deliver_data-Clean :
      (e : Engine) (p now : ℕ) (pkt : List ℕ)
      → Clean [] e
      → Ends (Clean []) (deliver_data lib fuel e p now pkt)
  unfolding deliver_data
  deliver_data-Clean e p now [] c = c
  deliver_data-Clean e p now (b ∷ bs) c = deliver_in-Clean e.mode e p now (b ∷ bs) c

  on_control-Clean :
      (e : Engine) (p now typ : ℕ) (pt : List ℕ)
      → Clean [] e
      → Clean [] (on_control lib fuel e p now typ pt)
  unfolding on_control
  on_control-Clean e p now typ pt c = ground (
    arith,
    c,
    on_bye-Clean e p c,
    handle_auth_resp-Clean lib.generate lib.can_seal lib.encode_answer (server_info lib) limited []
        e p now (lib.decode_code pt) c,
    handle_auth_challenge-Clean lib limited [] e p now pt c,
    handle_auth_result-Clean lib limited [] e p now pt c,
    handle_info-Clean [] lib e pt c,
    handle_agent_info-Clean lib [] e p now pt c,
    handle_agent_cmd-Clean lib [] e p now pt c,
  )

  after_open-Clean :
      (e : Engine) (from : Option Source) (typ now : ℕ) (frm : List ℕ) (o : Option Opened)
      → IsCalm e.heap o
      → Clean [] e
      → Ends (Clean []) (after_open lib fuel e from typ now frm o)
  after_open-Clean e from typ now frm none calm c = c
  after_open-Clean e from typ now frm (some o) calm c =
      let told = heard e from frm now o in
      let c' = heard-Clean e from frm now o calm c in
      let delivered = deliver_data lib fuel told o.peer now o.plain in
      if_cases (Ends (Clean [])) (typ == frame_data)
        (if is_gated e.mode o.state then ok told else delivered)
        (ok (on_control lib fuel told o.peer now typ o.plain))
        (λ packet.
          if_cases (Ends (Clean [])) (is_gated e.mode o.state) (ok told) delivered (λ gated. c')
            (λ free. deliver_data-Clean told o.peer now o.plain c'))
        (λ control. on_control-Clean told o.peer now typ o.plain c')

  with_nonce-Clean :
      (e : Engine) (from : Option Source) (typ now : ℕ) (frm : List ℕ) (nonce : Option ℕ)
      → Clean [] e
      → Ends (Clean []) (with_nonce lib fuel e from typ now frm nonce)
  unfolding handle_data
  with_nonce-Clean e from typ now frm none c = c
  with_nonce-Clean e from typ now frm (some nonce) c =
      after_open-Clean e from typ now frm (open_frame lib nonce now frm e (endpoint_of from))
        (open_frame-IsCalm lib nonce now frm e (endpoint_of from)) c

  on_init-Clean :
      (e : Engine) (from : Option Source) (payload : List ℕ) (now : ℕ)
      → IsRandom lib e
      → Clean [] e
      → Clean [] (on_init lib fuel e from payload now)
  on_init-Clean e none payload now r c = c
  on_init-Clean e (some from) payload now r c =
      let (limiter, allowed) = allow e.hs_limiter from.ip now in
      let counted = record e { hs_limiter = limiter } in
      let c' = same-Clean [] e counted refl refl c in
      if_cases (Clean []) allowed (handle_handshake_init lib counted from.endpoint payload now)
        (note_hs_drop counted now)
        (λ fine.
          handle_handshake_init-Clean lib limited counted from.endpoint payload now
            (record { answered = r.answered; completed = r.completed }) c')
        (λ over. note_hs_drop-Clean counted now c')

  on_frame-Clean :
      (e : Engine) (from : Option Source) (typ : ℕ) (payload : List ℕ) (now : ℕ) (frm : List ℕ)
      → IsRandom lib e
      → Clean [] e
      → Ends (Clean []) (on_frame lib fuel e from typ payload now frm)
  unfolding on_frame
  on_frame-Clean e from typ payload now frm r c = ground (
    arith,
    c,
    on_init-Clean e from payload now r c,
    handle_handshake_resp-Clean lib limited e payload now r c,
    with_nonce-Clean e from typ now frm (data_nonce payload) c,
  )

  on_parsed-Clean :
      (e : Engine) (from : Option Source) (now : ℕ) (frm : List ℕ) (parsed : Frame)
      → IsRandom lib e
      → Clean [] e
      → Ends (Clean []) (on_parsed lib fuel e from now frm parsed)
  on_parsed-Clean e from now frm short_frame r c = c
  on_parsed-Clean e from now frm bad_version r c = c
  on_parsed-Clean e from now frm (frame typ payload) r c =
      on_frame-Clean e from typ payload now frm r c

  pub handle_packet-Clean :
      (e : Engine) (from : Option Source) (now : ℕ) (frm : List ℕ)
      → IsRandom lib e
      → Clean [] e
      → Ends (Clean []) (handle_packet lib fuel e from now frm)
  unfolding handle_packet
  handle_packet-Clean e from now frm r c = on_parsed-Clean e from now frm (parse_frame frm) r c

module _ (can_seal : ℕ → Bool) (limited : Limited can_seal) where
  send_all-Clean :
      (rows : List (String × ℕ)) (e : Engine) (now : ℕ) (pkt : List ℕ)
      → Clean [] e
      → Clean [] (send_all can_seal rows e now pkt)
  unfolding send_all
  send_all-Clean [] e now pkt c = c
  send_all-Clean ((k, p) ∷ rows) e now pkt c =
      send_all-Clean rows (send_to can_seal e p now pkt).0 now pkt
        (send_to-Clean can_seal limited [] e p now pkt c)

  send_data-Clean :
      (e : Engine) (now : ℕ) (pkt : List ℕ) → Clean [] e → Clean [] (send_data can_seal e now pkt)
  unfolding send_data
  send_data-Clean e now pkt c = send_all-Clean e.peers e now pkt c

  send_translated-Clean :
      (e : Engine) (now : ℕ) (out : Parse (List ℕ × Bool))
      → Clean [] e
      → Ends (Clean []) (send_translated can_seal e now out)
  send_translated-Clean e now (ok (out, true)) c = send_data-Clean e now out c
  send_translated-Clean e now (ok (out, false)) c = drop_at_edge-Clean e now c
  send_translated-Clean e now bad c = drop_at_edge-Clean e now c
  send_translated-Clean e now hang c = tt

  send_in-Clean :
      (mode : Mode) (fuel : ℕ) (e : Engine) (now : ℕ) (pkt : List ℕ)
      → Clean [] e
      → Ends (Clean []) (send_in can_seal mode fuel e now pkt)
  send_in-Clean agent fuel e now pkt c =
      if_cases (Ends (Clean [])) e.forwarding
        (send_translated can_seal e now (to_tunnel fuel e.translator pkt)) (ok e)
        (λ on. send_translated-Clean e now (to_tunnel fuel e.translator pkt) c) (λ off. c)
  send_in-Clean client fuel e now pkt c = send_data-Clean e now pkt c
  send_in-Clean server fuel e now pkt c = send_data-Clean e now pkt c
  send_in-Clean gateway fuel e now pkt c = send_data-Clean e now pkt c

  pub send_from_tun-Clean :
      (fuel : ℕ) (e : Engine) (now : ℕ) (pkt : List ℕ)
      → Clean [] e
      → Ends (Clean []) (send_from_tun can_seal fuel e now pkt)
  unfolding send_from_tun
  send_from_tun-Clean fuel e now [] c = c
  send_from_tun-Clean fuel e now (b ∷ bs) c = send_in-Clean e.mode fuel e now (b ∷ bs) c
