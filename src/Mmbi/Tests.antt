-- ===== src/Mmbi/Tests.antt =====
-- A message of five bytes goes from 8 to 9 over two devices; the first attempt to write fails.
use ps_libmctp_win.Prelude.{
  ℕ, ◌+◌, ◌≡◌, ◌⊎◌, ◌∙◌, ap, sym, refl, true, false, none, some, List, [], ◌∷◌, ◌++◌, length,
  replicate, length-replicate, get_elem?, arith, ◌==◌, if◌then◌else◌, take, drop, ◌<◌,
}
use ps_libmctp_win.Packet.{Pktbuf, pktbuf_init}
use ps_libmctp_win.Header.{hdr_bytes, make_flags}
use ps_libmctp_win.Core.State.{
  Rc, success, emsgsize, Bus, World, Trace, done, endpoint, reassembly_ctxs,
}
use ps_libmctp_win.Core.Transmit.{build_pkt, take_msg, next_payload, next_flags}
use ps_libmctp_win.Core.Transmit.Messages.{CanSend, addressed}
use ps_libmctp_win.Core.Reassembly.{find_from}
use ps_libmctp_win.Core.Reassembly.Bounds.{IsPkt}
use ps_libmctp_win.Core.Receive.Views.{deliveries}
use ps_libmctp_win.Core.Receive.Start.{Grants, IsIdle}
use ps_libmctp_win.Core.Setup.{zero_ctx}
use ps_libmctp_win.Core.Examples.{binding, bus, mctp, world, packet, platform}
use ps_libmctp_win.Mmbi.{
  Mmbi, Device, bytes_read, mmbi_platform, mmbi_tx, mmbi_rx, wire, write_loop, fresh_mmbi,
}
use ps_libmctp_win.Mmbi.Wire.{view_bytes}
use ps_libmctp_win.Mmbi.Write.{
  Writes, Ends, put, outcome, on_device, mmbi_tx_device, mmbi_tx_region,
}
use ps_libmctp_win.Mmbi.Send.{
  accepted, device_bytes, send_code, accepted-single, mmbi_send-single, whole, packet_of, calls,
  mmbi_send_lem,
}
use ps_libmctp_win.Mmbi.Exchange.{mmbi_message_arrives}
use ps_libmctp_win.Mmbi.Legacy.{mmbi_rx_ignores}
use ps_libmctp_win.Core.Safety.{IsEndpoint}
use ps_libmctp_win.Core.Blocks.{allocs, frees, bus_blocks}
use ps_libmctp_win.Mmbi.Release.{destroy_leaves}
use ps_libmctp_win.Mmbi.Safety.{Call, send, poll, call_all, GivesSize, context_calls_safe}
use ps_libmctp_win.Mmbi.Context.{
  Context, is_success, context_destroy, context_init, context_poll, mmbi_send,
}
use ps_libmctp_win.Mmbi.Context.Open.{OpensAt, all_blocks, context_init_lem, context_init_fails}

abbrev msg : List ℕ
msg = 1 ∷ 2 ∷ 3 ∷ 4 ∷ 5 ∷ []

abbrev bytes : List ℕ
bytes = 1 ∷ 9 ∷ 8 ∷ 0xf0 ∷ msg

abbrev device : Device
device = record {
  write_file = λ tr k buf. (k == 1, length buf);
  peek = λ tr. none;
  read_file = λ tr most. bytes_read bytes;
  open_device = λ k. k == 2;
  storage = λ k. some (replicate 65540 0);
  alloc = λ tr. true;
  msg_alloc = λ tr n. some (replicate n 0);
  now = λ tr. 100;
}

abbrev mmbi : Mmbi
mmbi = record fresh_mmbi { binding = binding; has_device = true }

abbrev ctx : Context
ctx = record { mmbi = mmbi; has_rx_cb = true; debug = false }

abbrev bus_a : Bus
bus_a = record bus { eid = 8 }

abbrev world_a : World
world_a = record world { mctp = record mctp { busses = bus_a ∷ [] } }

abbrev sent_packet : Pktbuf
sent_packet = packet_of device ctx bus_a 9 msg

device-Grants : Grants (mmbi_platform device mmbi)
device-Grants tr n = (replicate n 0, refl, length-replicate n 0)

bus_a-CanSend : CanSend bus_a
bus_a-CanSend = record {
  enabled = refl;
  idle = refl;
  mtu_ok = omega arith;
  room = omega arith;
  room_small = omega arith;
  seq_small = omega arith;
}

world-IsIdle : IsIdle 0 bus (addressed 8 9 false 0) 0 world
unfolding find_from
world-IsIdle = record {
  bus_at = refl;
  policy = refl;
  has_rx = refl;
  has_mctp = refl;
  from = omega arith;
  local = refl;
  absent = refl;
  free = refl;
  small = omega arith;
}

packet-IsPkt : IsPkt (packet bytes 9)
packet-IsPkt = record {
  at_start = refl;
  has_hdr = omega arith;
  stored = omega arith;
  small = omega arith;
}

mmbi_tx_device_example :
    (rc : Rc) × (mmbi_tx device mmbi [] (packet bytes 9) ≡ (rc, mmbi))
    × Writes device [] bytes 3 0 (on_device device [] (packet bytes 9)) rc
    × Ends device [] bytes (on_device device [] (packet bytes 9)) rc
mmbi_tx_device_example =
    mmbi_tx_device device [] mmbi (packet bytes 9) packet-IsPkt (omega arith) refl

-- A device that takes two bytes at the first attempt, and all at the second.
abbrev partial : Device
partial = record device { write_file = λ tr k buf. (true, if k == 0 then 2 else length buf) }

partial-stream : on_device partial [] (packet bytes 9) ≡ 1 ∷ 9 ∷ bytes
unfolding put write_loop
partial-stream = refl

abbrev sent_tr : Trace
sent_tr = calls device ctx bus_a 9 msg world_a

mmbi_send_lem_example :
    (w' : World) × (rc : Rc) × (out : List ℕ) × (mmbi_send device (some ctx) 9 msg world_a
      ≡ done success w')
    × ((bus' : Bus) × (get_elem? w'.mctp.busses 0 ≡ some bus') × (bus'.tx_msg ≡ none))
    × (view_bytes (wire sent_packet) ≡ whole (addressed 8 9 false 0) 3 msg)
    × (length (wire sent_packet) ≡ 9)
    × (device_bytes device w'.trace ≡ device_bytes device [] ++ out)
    × Writes device sent_tr (wire sent_packet) 3 0 out rc
    × Ends device sent_tr (wire sent_packet) out rc
    × (accepted w'.trace ≡ accepted [] ++ (if is_success rc then wire sent_packet ∷ [] else []))
mmbi_send_lem_example =
    mmbi_send_lem device ctx 9 msg world_a bus_a device-Grants refl refl refl bus_a-CanSend
      (omega arith) (omega arith) (omega arith)

wire-sent_packet :
    (if is_success (send_code device ctx bus_a 9 msg world_a) then wire sent_packet ∷ [] else [])
    ≡ bytes ∷ []
unfolding build_pkt take_msg next_payload next_flags make_flags hdr_bytes pktbuf_init outcome
    write_loop
wire-sent_packet = refl

mmbi_message_arrives_example :
    (v' : World) × (context_poll device (some ctx) world ≡ done success v')
    × (deliveries v'.trace ≡ deliveries [] ++ ((8, false, 0, msg) ∷ []))
unfolding accepted
mmbi_message_arrives_example =
    let s =
      mmbi_send-single device ctx 9 msg world_a bus_a device-Grants refl refl bus_a-CanSend
        (omega arith) in
    mmbi_message_arrives device ctx 9 msg world_a s.0 bus_a device ctx bytes world bus device-Grants
      refl refl refl bus_a-CanSend (omega arith) (omega arith) refl s.1
      (ap accepted s.2 ∙ accepted-single device ctx bus_a 9 msg world_a refl ∙ wire-sent_packet)
      device-Grants world-IsIdle
      record { device = refl; available = refl; reads = refl; granted = refl } (omega arith) refl

abbrev regions : Mmbi
regions = record fresh_mmbi {
  tx_storage = some (replicate 12 7);
  rx_storage = some (bytes ++ replicate 3 0);
  memory_size = 12;
}

mmbi_tx_region_example :
    (12 < 9) × (mmbi_tx device regions [] (packet (bytes ++ (0 ∷ [])) 9) ≡ (emsgsize, regions))
    ⊎ ((region' : List ℕ) × (mmbi_tx device regions [] (packet (bytes ++ (0 ∷ [])) 9)
          ≡ (success, record regions { tx_storage = some region' }))
        × (take 9 region' ≡ bytes)
        × (drop 9 region' ≡ replicate 3 7))
mmbi_tx_region_example =
    mmbi_tx_region device regions [] (packet (bytes ++ (0 ∷ [])) 9) (replicate 12 7)
      record { at_start = refl; has_hdr = omega arith; stored = omega arith; small = omega arith }
      refl refl refl

mmbi_rx_ignores_example :
    (rc : Rc) × (w' : World) × (mmbi_rx device platform 0 (some regions) 9 world ≡ done rc w')
    × (w'.mctp ≡ world.mctp)
    × (deliveries w'.trace ≡ deliveries [])
unfolding find_from
mmbi_rx_ignores_example =
    mmbi_rx_ignores device platform 0 regions (bytes ++ replicate 3 0) 9 world bus refl refl
      (omega arith) (omega arith) refl refl

device-GivesSize : GivesSize device
device-GivesSize tr n block e =
    sym (ap (λ o. elim o [ none ↦ 0 | some b ↦ length b ]) e) ∙ length-replicate n 0

opens_third : OpensAt device 0 5 (replicate 65540 0)
opens_third = record {
  attempt = 2;
  from = omega arith;
  before = omega arith;
  opens = refl;
  stored = refl;
  first = λ j l u. ne_third j u;
}
  where
    ne_third : (j : ℕ) → j < 2 → (j == 2) ≡ false
    ne_third j h = ground arith

context_init_lem_example :
    (c : Context) × (w' : World) × (b : Bus) × (context_init device (all_blocks device) 9 world
      ≡ done (some c) w')
    × (c.mmbi.has_device ≡ true)
    × (get_elem? w'.mctp.busses 0 ≡ some b)
    × CanSend b
    × (b.eid ≡ 9)
    × (b.has_mctp ≡ true)
    × (w'.mctp.n_busses ≡ 1)
    × (w'.mctp.route_policy ≡ endpoint)
    × (w'.mctp.has_message_rx ≡ true)
    × (w'.mctp.msg_ctxs ≡ replicate reassembly_ctxs zero_ctx)
context_init_lem_example =
    context_init_lem device 9 world opens_third (omega (arith, length-replicate {A = ℕ} 65540 0))

context_init_fails_example :
    (w' : World) × (context_init
        (record device { open_device = λ k. false })
        (all_blocks device)
        9
        world
      ≡ done none w')
context_init_fails_example =
    context_init_fails (record device { open_device = λ k. false }) 9 (all_blocks device) world
      (λ j h. refl)

abbrev calls_made : List Call
calls_made = send 8 msg ∷ poll ∷ poll ∷ send 8 [] ∷ poll ∷ []

context_calls_safe_example :
    (c : Context) × (w1 : World) × (w2 : World) × (context_init device (all_blocks device) 9 world
      ≡ done (some c) w1)
    × (call_all device c calls_made w1 ≡ done tt w2)
    × IsEndpoint w2.mctp
context_calls_safe_example =
    context_calls_safe device 9 world calls_made opens_third device-GivesSize
      (omega arith, (tt, (tt, (omega arith, (tt, tt)))))

destroy_leaves_example :
    (c : Context) × (w1 : World) × (w2 : World) × (w3 : World) × (tr : Trace) × (context_init device
        (all_blocks device)
        9
        world
      ≡ done (some c) w1)
    × (call_all device c calls_made w1 ≡ done tt w2)
    × (context_destroy (some c) w2 ≡ done tr w3)
    × (frees tr + bus_blocks (take 1 w2.mctp.busses) ≡ allocs tr)
destroy_leaves_example =
    destroy_leaves device 9 world calls_made opens_third device-GivesSize refl
      (omega arith, (tt, (tt, (omega arith, (tt, tt)))))
