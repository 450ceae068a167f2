-- ===== src/Core/Setup/Tests.antt =====
-- An instance after `mctp_setup`, and busses on it.
use ps_libmctp_win.Prelude.{◌≡◌, refl, true, some, [], get_elem?, replicate, arith}
use ps_libmctp_win.Packet.{Binding}
use ps_libmctp_win.Core.State.{einval, Rc, success, Bus, endpoint, World, done, fault}
use ps_libmctp_win.Core.Transmit.Messages.{CanSend}
use ps_libmctp_win.Core.Reassembly.{ctx_drop}
use ps_libmctp_win.Core.Types.{add_type, has_type_from}
use ps_libmctp_win.Core.Setup.{setup, mctp_setup, zero_ctx, register_bus, bridge_busses}
use ps_libmctp_win.Core.Setup.Start.{register_bus_lem}
use ps_libmctp_win.Core.Setup.Bridge.{bridge_busses_faults}
use ps_libmctp_win.Core.Examples.{platform, binding}

abbrev started_binding : Binding
started_binding = record binding { has_start = true }

abbrev fresh : World
fresh = record { mctp = setup; trace = [] }

setup-control : (setup.control.num_msg_types ≡ 1) × (setup.control.msg_types ≡ replicate 10 0)
unfolding setup add_type has_type_from
setup-control = (refl, refl)

mctp_setup_small : (w : World) → mctp_setup 900 899 w ≡ done einval w
unfolding mctp_setup
mctp_setup_small w = refl

mctp_setup_fresh : (w : World) → mctp_setup 900 900 w ≡ done success (record w { mctp = setup })
unfolding mctp_setup
mctp_setup_fresh w = refl

register_bus_lem_example :
    (w' : World) × (bus : Bus) × (register_bus platform started_binding 9 fresh ≡ done success w')
    × (get_elem? w'.mctp.busses 0 ≡ some bus)
    × CanSend bus
    × (bus.eid ≡ 9)
    × (bus.has_mctp ≡ true)
    × (w'.mctp.n_busses ≡ 1)
    × (w'.mctp.route_policy ≡ endpoint)
    × (w'.mctp.msg_ctxs ≡ fresh.mctp.msg_ctxs)
unfolding setup
register_bus_lem_example =
    register_bus_lem platform started_binding 9 fresh refl (omega arith) refl refl refl
      (omega arith) (omega arith) (omega arith)

bridge_busses_faults_example :
    (rc : Rc) × (w' : World) × (x : Bus) × (y : Bus) × (bridge_busses platform started_binding
        binding fresh
      ≡ done rc w')
    × (get_elem? w'.mctp.busses 0 ≡ some x)
    × (get_elem? w'.mctp.busses 1 ≡ some y)
    × (ctx_drop x 0 zero_ctx fresh ≡ fault)
    × (ctx_drop y 0 zero_ctx fresh ≡ fault)
unfolding setup
bridge_busses_faults_example =
    bridge_busses_faults platform started_binding binding fresh 0 zero_ctx fresh refl (omega arith)
      refl refl
