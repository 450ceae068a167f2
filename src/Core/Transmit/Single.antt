-- ===== src/Core/Transmit/Single.antt =====
-- A message that fits one packet: what `mctp_message_tx` does, whatever the binding answers.
use ps_libmctp_win.Prelude.{
  ℕ, suc, ◌-◌, ◌≤◌, ◌<◌, ◌==◌, ◌≡◌, ◌≢◌, ◌∙◌, ap, refl, Bool, true, false, none, some, List, ◌∷◌,
  length, get_elem?, set, arith, size_mod, leb, is_some, if◌then◌else◌, get_elem?-set_self,
  lt_length-get_elem?,
}
use ps_libmctp_win.Packet.{Pktbuf, pktbuf_init}
use ps_libmctp_win.Core.State.{
  Rc, success, ebusy, Bus, tx_enabled, Platform, Trace, World, done, allocated, captured,
  transmitted, freed, msg_dup, get_bus-bind, bind-done, pure, gets, ◌>>=◌,
}
use ps_libmctp_win.Core.Transmit.{
  build_pkt, packet_tx, tx_complete, after_tx, send_step, send_loop, send_fuel, send_tx_queue,
  is_enabled, is_constructed, take_msg, message_tx_on_bus, message_tx_alloced, message_tx,
  find_bus_for_eid,
}
use ps_libmctp_win.Core.Transmit.Progress.{IsSending, next_bus, next_payload_lem, next_tx_pkt-some}
use ps_libmctp_win.Core.Transmit.Fragments.{mtu, unsent, HasRoom}
use ps_libmctp_win.Core.Transmit.Parts.{tx_complete-last, length-build_pkt}
use ps_libmctp_win.Core.Transmit.Messages.{
  CanSend, take_msg-IsReady, message_tx_on_bus-takes, tag_masked, send_tx_queue-done,
}
use ps_libmctp_win.Core.Reassembly.Bounds.{IsPkt}
use ps_libmctp_win.Core.Receive.Start.{Grants}
use ps_libmctp_win.Core.Receive.Whole.{msg_dup-done}

-- The packet that is built lies in the binding's storage, with a whole header.
pub build_pkt-IsPkt :
    (bus : Bus) (msg : List ℕ)
    → IsSending bus msg
    → HasRoom bus
    → length bus.binding.tx_storage < size_mod
    → IsPkt (build_pkt bus msg)
unfolding build_pkt pktbuf_init
build_pkt-IsPkt bus msg v r small = record {
  at_start = refl;
  has_hdr = omega (arith, next_payload_lem v, r.room, r.room_small, v.mtu);
  stored = omega (arith, next_payload_lem v, r.room, r.room_small, v.mtu, length-build_pkt bus msg);
  small = omega (arith, small, length-build_pkt bus msg);
}

-- Any answer but -EBUSY ends the packet.
after_tx-ends :
    (rc : Rc) (bus : Bus) (tr : Trace)
    → rc ≢ ebusy
    → (again : Bool) × (after_tx rc bus tr
        ≡ (again, (tx_complete bus tr).0, (tx_complete bus tr).1))
unfolding after_tx
after_tx-ends success bus tr n = (true, refl)
after_tx-ends ebusy bus tr n = absurd (n refl)
after_tx-ends _ bus tr n = (false, refl)

module _ (p : Platform) (has_capture : Bool) (i : ℕ) where
  abbrev pub before : Pktbuf → Trace → Trace
  before pkt tr = if has_capture then captured true pkt ∷ tr else tr

  -- The trace when the packet was offered to the binding.
  abbrev pub offered : Pktbuf → Trace → Trace
  offered pkt tr = transmitted i pkt (p.tx (before pkt tr) i pkt) ∷ before pkt tr

  send_step-ends :
      (bus : Bus) (msg : List ℕ) (tr : Trace)
      → bus.tx_msg ≡ some msg
      → bus.state ≡ tx_enabled
      → p.tx (before (build_pkt bus msg) tr) i (build_pkt bus msg) ≢ ebusy
      → let c = tx_complete (next_bus bus (build_pkt bus msg)) (offered (build_pkt bus msg) tr) in
        (again : Bool) × (send_step p has_capture i bus tr ≡ (again, c.0, c.1))
  unfolding send_step packet_tx
  send_step-ends bus msg tr e on n =
      let pkt = build_pkt bus msg in
      let a = after_tx-ends (p.tx (before pkt tr) i pkt) (next_bus bus pkt) (offered pkt tr) n in
      (a.0, rw (next_tx_pkt-some bus e, send_step, packet_tx, ap is_enabled on) a.1)

  send_loop-one :
      (fuel : ℕ) (bus bus' : Bus) (tr tr' : Trace) (again : Bool)
      → is_some bus.tx_msg ≡ true
      → bus.state ≡ tx_enabled
      → send_step p has_capture i bus tr ≡ (again, bus', tr')
      → bus'.tx_msg ≡ none
      → send_loop p has_capture i (suc (suc fuel)) bus tr ≡ some (bus', tr')
  unfolding send_loop
  send_loop-one fuel bus bus' tr tr' true e on s idle =
      rw (send_loop, e, ap is_enabled on, s, ap is_some idle)
  send_loop-one fuel bus bus' tr tr' false e on s idle = rw (send_loop, e, ap is_enabled on, s)

  -- The loop for a message in one packet.
  send_loop-single :
      (bus : Bus) (msg : List ℕ) (tr : Trace)
      → bus.tx_msg ≡ some msg
      → IsSending bus msg
      → bus.state ≡ tx_enabled
      → leb (length (unsent bus msg)) (mtu bus) ≡ true
      → p.tx (before (build_pkt bus msg) tr) i (build_pkt bus msg) ≢ ebusy
      → (bus' : Bus) × (send_loop p has_capture i (send_fuel bus) bus tr
          ≡ some (bus', freed ∷ offered (build_pkt bus msg) tr))
        × (bus'.tx_msg ≡ none)
  send_loop-single bus msg tr e v on fits n =
      let pkt = build_pkt bus msg in
      let c = tx_complete (next_bus bus pkt) (offered pkt tr) in
      let last = tx_complete-last bus msg pkt (offered pkt tr) e v fits in
      let s = send_step-ends bus msg tr e on n in
      (
        c.0,
        send_loop-one bus.tx_msglen bus c.0 tr c.1 s.0 (ap is_some e) on s.1 last.0
            ∙ ap (λ t. some (c.0, t)) last.1,
        last.0,
      )

module _ (p : Platform) where
  pub message_tx_alloced-first :
      (eid : ℕ) (to : Bool) (tag : ℕ) (msg : List ℕ) (w : World) (bus : Bus)
      → get_elem? w.mctp.busses 0 ≡ some bus
      → (w.mctp.n_busses == 0) ≡ false
      → tag < 8
      → message_tx_alloced p eid to tag msg w ≡ message_tx_on_bus p 0 bus.eid eid to tag msg w
  unfolding message_tx_alloced find_bus_for_eid
  message_tx_alloced-first eid to tag msg w bus at used small =
      rw (tag_masked tag small, ◌>>=◌, gets, find_bus_for_eid, used) (get_bus-bind 0 _ w at)

  -- `mctp_message_tx` with a copy of the message, on the first bus.
  message_tx-copies :
      (grants : Grants p) (eid : ℕ) (to : Bool) (tag : ℕ) (msg : List ℕ) (w : World) (bus : Bus)
      → get_elem? w.mctp.busses 0 ≡ some bus
      → (w.mctp.n_busses == 0) ≡ false
      → tag < 8
      → message_tx p eid to tag msg w
        ≡ message_tx_on_bus p 0 bus.eid eid to tag msg
            (record w { trace = allocated (length msg) ∷ w.trace })
  unfolding message_tx
  message_tx-copies grants eid to tag msg w bus at used small =
      bind-done (msg_dup p msg) _ w (msg_dup-done p grants msg w)
      ∙ message_tx_alloced-first eid to tag msg _ bus at used small

  -- The bus that a message is put on.
  abbrev pub loaded : Bus → ℕ → Bool → ℕ → List ℕ → Bus
  loaded bus eid to tag msg = take_msg bus bus.eid eid to tag msg

  -- The trace when the packet for a message is offered to the binding.
  abbrev pub single_trace : Bus → ℕ → Bool → ℕ → List ℕ → World → Trace
  single_trace bus eid to tag msg w =
      freed
      ∷ offered p w.mctp.has_capture 0 (build_pkt (loaded bus eid to tag msg) msg)
          (allocated (length msg) ∷ w.trace)

  -- `mctp_message_tx` of a message that fits one packet, on an idle bus: one packet is offered to
  -- the binding, and unless that is busy the message is over, whatever the binding answers.
  pub message_tx-single :
      (grants : Grants p) (eid : ℕ) (to : Bool) (tag : ℕ) (msg : List ℕ) (w : World) (bus : Bus)
      → get_elem? w.mctp.busses 0 ≡ some bus
      → (w.mctp.n_busses == 0) ≡ false
      → CanSend bus
      → tag < 8
      → length msg ≤ bus.binding.pkt_size - 4
      → ((tr : Trace) (pkt : Pktbuf) → p.tx tr 0 pkt ≢ ebusy)
      → (w' : World) × (message_tx p eid to tag msg w ≡ done success w')
        × (w'.trace ≡ single_trace bus eid to tag msg w)
        × ((bus' : Bus) × (get_elem? w'.mctp.busses 0 ≡ some bus') × (bus'.tx_msg ≡ none))
  unfolding take_msg
  message_tx-single grants eid to tag msg w bus at used c small fits never = (
    w',
    message_tx-copies grants eid to tag msg w bus at used small
        ∙ message_tx_on_bus-takes p 0 bus.eid eid to tag msg w1 bus at (ap is_constructed c.enabled)
            (tag_masked tag small) c.mtu_ok (omega (arith, c.room_small)) (ap is_some c.idle)
        ∙ bind-done (send_tx_queue p 0) (λ _. pure success) w0
            (send_tx_queue-done p 0 w0 bus0 at0 s.1),
    refl,
    (s.0, get_elem?-set_self w0.mctp.busses 0 s.0 (lt_length-get_elem? w0.mctp.busses 0 at0), s.2),
  )
    where
      w1 : World
      w1 = record w { trace = allocated (length msg) ∷ w.trace }

      bus0 : Bus
      bus0 = loaded bus eid to tag msg

      w0 : World
      w0 = record w1 { mctp = record (w.mctp) { busses = set w.mctp.busses 0 bus0 } }

      at0 : get_elem? w0.mctp.busses 0 ≡ some bus0
      at0 = get_elem?-set_self w.mctp.busses 0 bus0 (lt_length-get_elem? w.mctp.busses 0 at)

      s :
          (bus' : Bus) × (send_loop p w.mctp.has_capture 0 (send_fuel bus0) bus0 w1.trace
            ≡ some (bus', single_trace bus eid to tag msg w))
          × (bus'.tx_msg ≡ none)
      s =
          send_loop-single p w.mctp.has_capture 0 bus0 msg w1.trace refl
            (take_msg-IsReady p bus bus.eid eid to tag msg c.mtu_ok (omega (arith, c.room_small))
              (omega (arith, c.room_small)))
            c.enabled (ground (arith, fits)) (never _ _)

      w' : World
      w' = record w0 {
        mctp = record (w0.mctp) { busses = set w0.mctp.busses 0 s.0 };
        trace = single_trace bus eid to tag msg w;
      }
