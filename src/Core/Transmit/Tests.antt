-- ===== src/Core/Transmit/Tests.antt =====
-- Transmission at concrete inputs.
use ps_libmctp_win.Prelude.{
  ℕ, ◌≡◌, refl, inl, inr, true, false, ◌∷◌, none, some, List, [], ◌++◌, get_elem?, replicate, arith,
}
use ps_libmctp_win.Core.State.{Rc, success, eio, ebusy, freed, Bus, Platform, Trace, World, done}
use ps_libmctp_win.Core.Transmit.{build_pkt, take_msg, send_loop, message_tx_on_bus}
use ps_libmctp_win.Core.Transmit.Progress.{IsSending, IsReady, Keeps, send_loop_total}
use ps_libmctp_win.Core.Transmit.Fragments.{HasRoom, view, next_view, view-build_pkt}
use ps_libmctp_win.Core.Transmit.Parts.{TakesAll, fragments, sent}
use ps_libmctp_win.Core.Transmit.Messages.{IsBus, CanSend, addressed, message_tx_on_bus_sends}
use ps_libmctp_win.Core.Transmit.Totality.{message_tx_on_bus_total}
use ps_libmctp_win.Core.Transmit.Single.{offered}
use ps_libmctp_win.Core.Transmit.Stall.{refused_packet_stalls}
use ps_libmctp_win.Core.Examples.{platform, bus, sending, world}

abbrev msg : List ℕ
msg = replicate 100 7

sending-IsSending : IsSending sending msg
sending-IsSending = record {
  whole = refl;
  small = omega arith;
  part = inl (omega arith);
  mtu = omega arith;
  mtu_small = omega arith;
}

sending-HasRoom : HasRoom sending
sending-HasRoom = record {
  room = omega arith;
  room_small = omega arith;
  seq_small = omega arith;
  tag_small = omega arith;
}

view-build_pkt_example : view (build_pkt sending msg) ≡ next_view sending msg
view-build_pkt_example = view-build_pkt sending msg sending-IsSending sending-HasRoom

send_loop_total_example :
    (out : Bus × Trace) × (send_loop platform true 0 38 sending [] ≡ some out)
    × IsReady out.0
    × Keeps sending out.0
send_loop_total_example =
    send_loop_total platform true 0 38 sending [] sending-IsSending (omega arith)

bus-CanSend : CanSend bus
bus-CanSend = record {
  enabled = refl;
  idle = refl;
  mtu_ok = omega arith;
  room = omega arith;
  room_small = omega arith;
  seq_small = omega arith;
}

takes_all : TakesAll platform
takes_all tr i pkt = refl

message_tx_on_bus_sends_example :
    (w' : World) × (message_tx_on_bus platform 0 9 8 true 5 msg world ≡ done success w')
    × (sent w'.trace ≡ sent [] ++ fragments 101 64 (addressed 9 8 true 5) true 3 msg)
    × ((bus' : Bus) × (get_elem? w'.mctp.busses 0 ≡ some bus') × (bus'.tx_msg ≡ none))
message_tx_on_bus_sends_example =
    message_tx_on_bus_sends platform 0 9 8 true 5 msg world bus takes_all refl bus-CanSend
      (omega arith) (omega arith)

bus-IsBus : IsBus bus
bus-IsBus = record { ready = tt; mtu_ok = inr (omega arith); mtu_small = omega arith }

message_tx_on_bus_total_example :
    (rc : Rc) × (w' : World) × (message_tx_on_bus platform 0 9 8 true 5 msg world ≡ done rc w')
message_tx_on_bus_total_example =
    message_tx_on_bus_total platform 0 9 8 true 5 msg world bus refl bus-IsBus (omega arith)

-- A binding that has failed.
abbrev failing : Platform
failing = record platform { tx = λ tr i pkt. eio }

refused_packet_stalls_example :
    (w' : World) × (bus' : Bus) × (message_tx_on_bus failing 0 9 8 true 5 msg world
      ≡ done success w')
    × (get_elem? w'.mctp.busses 0 ≡ some bus')
    × (bus'.tx_msg ≡ some msg)
    × (bus'.tx_msgpos ≡ 64)
    × (w'.trace ≡ offered failing true 0 (build_pkt (take_msg bus 9 8 true 5 msg) msg) [])
    × (message_tx_on_bus failing 0 9 12 false 2 (1 ∷ []) w'
        ≡ done ebusy (record w' { trace = freed ∷ w'.trace }))
refused_packet_stalls_example =
    refused_packet_stalls failing 0 9 8 true 5 msg world bus 9 12 false 2 (1 ∷ []) refl bus-CanSend
      (omega arith) (omega arith) (omega arith) (omega arith) (λ tr pkt. refl)
