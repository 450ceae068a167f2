-- ===== src/Core/Exchange/Tests.antt =====
-- A message of seventy bytes goes from 8 to 9 in two packets.
use ps_libmctp_win.Prelude.{
  ℕ, ◌+◌, ◌≡◌, ◌∙◌, sym, refl, true, false, none, some, List, [], ◌∷◌, ◌++◌, map, All, replicate,
  length-replicate, get_elem?, arith,
}
use ps_libmctp_win.Header.{read_hdr, tag_owner_of, tag_of, flags_of, seq_of}
use ps_libmctp_win.Packet.{Pktbuf}
use ps_libmctp_win.Core.State.{success, Bus, World, done}
use ps_libmctp_win.Core.Transmit.{message_tx_on_bus}
use ps_libmctp_win.Core.Transmit.Fragments.{view}
use ps_libmctp_win.Core.Transmit.Parts.{TakesAll, fragments, sent}
use ps_libmctp_win.Core.Transmit.Messages.{CanSend, addressed, message_tx_on_bus_sends}
use ps_libmctp_win.Core.Reassembly.{find_from}
use ps_libmctp_win.Core.Reassembly.Bounds.{IsPkt}
use ps_libmctp_win.Core.Receive.Views.{deliveries, rx_all}
use ps_libmctp_win.Core.Receive.Start.{Grants, IsIdle}
use ps_libmctp_win.Core.Exchange.{message_arrives}
use ps_libmctp_win.Core.Examples.{platform, bus, world}

abbrev msg : List ℕ
msg = replicate 70 7

abbrev arrived : ℕ → ℕ → Pktbuf
arrived flags len = record {
  start = 0;
  end = len + 4;
  size = 68;
  mctp_hdr_off = 0;
  alloc = true;
  bytes = 1 ∷ 9 ∷ 8 ∷ flags ∷ replicate 64 7;
}

abbrev packets : List Pktbuf
packets = arrived 0xb5 64 ∷ arrived 0x45 6 ∷ []

packets-views : map view packets ≡ fragments 71 64 (addressed 8 9 false 5) true 3 msg
unfolding view fragments read_hdr tag_owner_of tag_of flags_of seq_of
packets-views = refl

packets-IsPkt : All IsPkt packets
packets-IsPkt = (ground arith, (ground arith, tt))

bus-CanSend : CanSend bus
bus-CanSend = record {
  enabled = refl;
  idle = refl;
  mtu_ok = omega arith;
  room = omega arith;
  room_small = omega arith;
  seq_small = omega arith;
}

takes_all : TakesAll platform
takes_all tr i pkt = refl

grants : Grants platform
grants tr n = (replicate n 0, refl, length-replicate n 0)

world-IsIdle : IsIdle 0 bus (addressed 8 9 false 5) 0 world
unfolding find_from
world-IsIdle = record {
  bus_at = refl;
  policy = refl;
  has_rx = refl;
  has_mctp = refl;
  from = omega arith;
  local = refl;
  absent = refl;
  free = refl;
  small = omega arith;
}

sending :
    (w' : World) × (message_tx_on_bus platform 0 8 9 false 5 msg world ≡ done success w')
    × (sent w'.trace ≡ sent [] ++ fragments 71 64 (addressed 8 9 false 5) true 3 msg)
    × ((bus' : Bus) × (get_elem? w'.mctp.busses 0 ≡ some bus') × (bus'.tx_msg ≡ none))
sending =
    message_tx_on_bus_sends platform 0 8 9 false 5 msg world bus takes_all refl bus-CanSend
      (omega arith) (omega arith)

message_arrives_example :
    (v' : World) × (rx_all platform 0 packets world ≡ done tt v')
    × (deliveries v'.trace ≡ deliveries [] ++ ((8, false, 5, msg) ∷ []))
unfolding sent
message_arrives_example =
    message_arrives platform 0 8 9 false 5 msg world sending.0 bus platform 0 bus packets world
      takes_all refl bus-CanSend (omega arith) (omega arith) refl sending.1
      (packets-views ∙ sym sending.2) packets-IsPkt grants world-IsIdle (omega arith) refl
