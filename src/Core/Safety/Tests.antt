-- ===== src/Core/Safety/Tests.antt =====
-- An endpoint that receives the packets of a message, and one with arbitrary bytes.
use ps_libmctp_win.Prelude.{true, ℕ, ◌≡◌, refl, List, [], ◌∷◌, arith, replicate}
use ps_libmctp_win.Packet.{Pktbuf}
use ps_libmctp_win.Core.State.{World, done}
use ps_libmctp_win.Core.Receive.Views.{rx_all}
use ps_libmctp_win.Core.Examples.{platform, world, packet}
use ps_libmctp_win.Core.Safety.{IsEndpoint}
use ps_libmctp_win.Core.Control.{control_handler}
use ps_libmctp_win.Core.Safety.Examples.{platform-AllocatesSize, world-IsEndpoint, packet-IsBuf}
use ps_libmctp_win.Core.Safety.Address.{set_endpoint_id_lem}
use ps_libmctp_win.Core.Safety.Receives.{rx_all_safe}

abbrev packets : List Pktbuf
packets =
    packet (1 ∷ 9 ∷ 8 ∷ 0x80 ∷ replicate 12 7) 16
    ∷ packet (1 ∷ 9 ∷ 8 ∷ 0x50 ∷ replicate 12 7) 10
    ∷ packet (replicate 16 0xff) 16
    ∷ packet (replicate 16 0) 2
    ∷ []

rx_all_safe_example :
    (w' : World) × (rx_all platform 0 packets world ≡ done tt w') × IsEndpoint w'.mctp
rx_all_safe_example = rx_all_safe platform platform-AllocatesSize packets world world-IsEndpoint (
  packet-IsBuf _ 16 refl (omega arith),
  (
    packet-IsBuf _ 10 refl (omega arith),
    (packet-IsBuf _ 16 refl (omega arith), (packet-IsBuf _ 2 refl (omega arith), tt)),
  ),
)

-- A request to set the address to 20.
abbrev set_20 : List ℕ
set_20 = 0 ∷ 0x80 ∷ 1 ∷ 0 ∷ 20 ∷ []

set_endpoint_id_lem_example :
    (w' : World) × (v' : IsEndpoint w'.mctp) × (control_handler platform 0 8 true 3 set_20 world
      ≡ done true w')
    × (v'.bus.eid ≡ 20)
    × (w'.mctp ≡ record (world.mctp) { busses = w'.mctp.busses })
set_endpoint_id_lem_example =
    set_endpoint_id_lem platform platform-AllocatesSize 8 3 set_20 world world-IsEndpoint refl refl
      refl refl
