-- ===== src/Core/Receive/Relay/Tests.antt =====
-- A bridge that gets a packet from 8 to 20 on its first bus.
use ps_libmctp_win.Prelude.{◌≡◌, refl, true, [], ◌∷◌, ◌++◌, replicate, length-replicate, arith}
use ps_libmctp_win.Packet.{Pktbuf}
use ps_libmctp_win.Header.{read_hdr, tag_owner_of, tag_of, flags_of}
use ps_libmctp_win.Core.State.{success, bridge, freed, World, done}
use ps_libmctp_win.Core.Transmit.{message_tx_on_bus}
use ps_libmctp_win.Core.Transmit.Parts.{TakesAll, fragments, sent}
use ps_libmctp_win.Core.Transmit.Messages.{CanSend, addressed}
use ps_libmctp_win.Core.Reassembly.Bounds.{IsPkt}
use ps_libmctp_win.Core.Receive.{bus_rx}
use ps_libmctp_win.Core.Receive.Steps.{noted}
use ps_libmctp_win.Core.Receive.Start.{Grants}
use ps_libmctp_win.Core.Receive.Relay.{with_blocks, bridge_relays}
use ps_libmctp_win.Core.Examples.{platform, bus, mctp, packet}

abbrev between : World
between = record {
  mctp = record mctp {
    n_busses = 2;
    busses = bus ∷ record bus { tx_seq = 1 } ∷ [];
    route_policy = bridge;
  };
  trace = [];
}

abbrev whole : Pktbuf
whole = packet (1 ∷ 20 ∷ 8 ∷ 0xcd ∷ 11 ∷ 12 ∷ []) 6

whole-IsPkt : IsPkt whole
whole-IsPkt = ground arith

grants : Grants platform
grants tr n = (replicate n 0, refl, length-replicate n 0)

takes_all : TakesAll platform
takes_all tr i pkt = refl

bus-CanSend : CanSend (record bus { tx_seq = 1 })
bus-CanSend = record {
  enabled = refl;
  idle = refl;
  mtu_ok = omega arith;
  room = omega arith;
  room_small = omega arith;
  seq_small = omega arith;
}

bridge_relays_example :
    (w' : World) × (message_tx_on_bus platform 1 8 20 true 5
        (11 ∷ 12 ∷ [])
        (with_blocks 2 (with_blocks 2 (noted whole between)))
      ≡ done success w')
    × (bus_rx platform 0 whole between ≡ done tt (record w' { trace = freed ∷ w'.trace }))
    × (sent w'.trace ≡ sent [] ++ fragments 3 64 (addressed 8 20 true 5) true 1 (11 ∷ 12 ∷ []))
unfolding read_hdr tag_owner_of tag_of flags_of
bridge_relays_example =
    bridge_relays platform grants true whole between takes_all refl refl refl refl bus-CanSend
      whole-IsPkt (λ e. absurd (omega (arith, e))) refl (omega arith)
