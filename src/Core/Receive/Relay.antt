-- ===== src/Core/Receive/Relay.antt =====
-- What a bridge does with a message in one packet.
mod Tests
use ps_libmctp_win.Prelude.{
  ℕ, zero, suc, ◌+◌, ◌-◌, ◌≤◌, ◌<◌, ◌≡◌, ◌≢◌, ◌∙◌, ap, refl, Bool, true, false, none, some, List,
  ◌∷◌, ◌++◌, length, get_elem?, arith, ◌==◌, ltb, ◌&&◌, ◌||◌, if◌then◌else◌, ne→==-false,
  le→ltb-false, size_mod, subst, sym, slice, sub_size, Bool-cases, inl, inr,
}
use ps_libmctp_win.Packet.{Pktbuf, pktbuf_size, data_off}
use ps_libmctp_win.Header.{Hdr, flags_of, tag_of, tag_owner_of}
use ps_libmctp_win.Core.State.{
  Rc, success, Bus, bridge, Platform, World, Trace, done, allocated, freed, captured, get_bus-bind,
  emit_if-bind, bind-done, ◌>>=◌, ◌>>◌, gets, msg_dup,
}
use ps_libmctp_win.Core.Transmit.{message_tx_on_bus}
use ps_libmctp_win.Core.Transmit.Parts.{TakesAll, fragments, sent}
use ps_libmctp_win.Core.Transmit.Messages.{CanSend, addressed, message_tx_on_bus_sends}
use ps_libmctp_win.Core.Reassembly.Bounds.{IsPkt, payload, length-payload}
use ps_libmctp_win.Core.Receive.{forward_from, rx, rx_single, rx_switch, bus_rx}
use ps_libmctp_win.Core.Receive.Steps.{hdr_of, noted}
use ps_libmctp_win.Core.Receive.Start.{Grants}
use ps_libmctp_win.Core.Receive.Whole.{msg_dup-done, rx_single-passes}

-- The two busses of a bridge: the one that a packet came in on, and the other.
abbrev pub own : Bool → ℕ
own true = 0
own false = 1

abbrev pub other : Bool → ℕ
other true = 1
other false = 0

abbrev pub with_blocks : ℕ → World → World
with_blocks n w = record w { trace = allocated n ∷ w.trace }

module _ (p : Platform) (grants : Grants p) where
  -- One copy goes to the other bus.
  forward_from-other :
      (side : Bool) (src dest : ℕ) (to : Bool) (tag : ℕ) (msg : List ℕ) (w : World) {rc : Rc}
      {w' : World}
      → message_tx_on_bus p (other side) src dest to tag msg (with_blocks (length msg) w)
        ≡ done rc w'
      → forward_from p 2 0 (own side) src dest to tag msg w ≡ done tt w'
  unfolding forward_from
  forward_from-other true src dest to tag msg w run =
      bind-done (msg_dup p msg) _ w (msg_dup-done p grants msg w)
      ∙ bind-done (message_tx_on_bus p 1 src dest to tag msg) _ (with_blocks (length msg) w) run
  forward_from-other false src dest to tag msg w run =
      bind-done (msg_dup p msg) _ w (msg_dup-done p grants msg w)
      ∙ bind-done (message_tx_on_bus p 0 src dest to tag msg) _ (with_blocks (length msg) w) run

  rx-relays :
      (side : Bool) (src dest : ℕ) (to : Bool) (tag : ℕ) (msg : List ℕ) (w : World) (bus : Bus)
      → get_elem? w.mctp.busses (own side) ≡ some bus
      → w.mctp.n_busses ≡ 2
      → w.mctp.route_policy ≡ bridge
      → rx p (own side) src dest to tag msg w ≡ forward_from p 2 0 (own side) src dest to tag msg w
  unfolding rx
  rx-relays side src dest to tag msg w bus at two policy =
      get_bus-bind (own side) _ w at ∙ rw (policy, two)

  bus_rx-passes :
      (i : ℕ) (pkt : Pktbuf) (w : World) (bus : Bus)
      → get_elem? w.mctp.busses i ≡ some bus
      → w.mctp.route_policy ≡ bridge
      → IsPkt pkt
      → (hdr_of pkt).src ≢ 0xff
      → bus_rx p i pkt w ≡ rx_switch p i (hdr_of pkt) pkt (noted pkt w)
  unfolding bus_rx
  bus_rx-passes i pkt w bus at policy v from =
      get_bus-bind i _ w at
      ∙ rw
          (
            le→ltb-false (pktbuf_size pkt) 4 (omega arith),
            ne→==-false (hdr_of pkt).src 0xff from,
            policy,
          )
          (emit_if-bind w.mctp.has_capture (captured false pkt) _ _)

  rx_switch-whole :
      (i : ℕ) (hdr : Hdr) (pkt : Pktbuf) (w : World)
      → flags_of hdr.flags_seq_tag ≡ 192
      → rx_switch p i hdr pkt w ≡ rx_single p i hdr pkt w
  unfolding rx_switch
  rx_switch-whole i hdr pkt w whole = rw whole

  -- The message of a whole packet is its payload.
  rx_single-payload :
      (i : ℕ) (hdr : Hdr) (pkt : Pktbuf) (w : World) {w' : World}
      → IsPkt pkt
      → rx p i hdr.src hdr.dest
          (tag_owner_of hdr.flags_seq_tag)
          (tag_of hdr.flags_seq_tag)
          (payload pkt)
          (with_blocks (length (payload pkt)) w)
        ≡ done tt w'
      → rx_single p i hdr pkt w ≡ done tt (record w' { trace = freed ∷ w'.trace })
  rx_single-payload i hdr pkt w {w'} v run = rx_single-passes p grants i hdr pkt w (
      subst
        (λ l.
          rx p i hdr.src hdr.dest (tag_owner_of hdr.flags_seq_tag) (tag_of hdr.flags_seq_tag) l
            (with_blocks (length l) w)
          ≡ done tt w')
        same run)
    where
      same :
          payload pkt
          ≡ slice pkt.bytes (data_off pkt) (sub_size (sub_size pkt.end pkt.mctp_hdr_off) 4)
      same =
          ap (λ k. slice pkt.bytes (data_off pkt) (sub_size (sub_size pkt.end k) 4))
            (sym v.at_start)

  sent-noted :
      (n : ℕ) (pkt : Pktbuf) (w : World)
      → sent (with_blocks n (with_blocks n (noted pkt w))).trace ≡ sent w.trace
  unfolding sent
  sent-noted n pkt w = elim (Bool-cases w.mctp.has_capture) [ inl on ↦ rw on | inr off ↦ rw off ]

  -- Over an allocator that grants every request, a bridge whose other bus can send, over a binding
  -- that takes every packet, relays a message that comes in one packet, with a source that is not
  -- the broadcast address: `mctp_bus_rx` runs one transmission, on the other bus, of a copy of the payload with
  -- the source, destination, tag owner bit and tag of the packet, whatever its destination is. The
  -- packets that go out are the parts of that message, for the packet size and from the sequence
  -- number of the other bus.
  pub bridge_relays :
      (side : Bool) (pkt : Pktbuf) (w : World) {from_bus to_bus : Bus}
      → TakesAll p
      → w.mctp.n_busses ≡ 2
      → w.mctp.route_policy ≡ bridge
      → get_elem? w.mctp.busses (own side) ≡ some from_bus
      → get_elem? w.mctp.busses (other side) ≡ some to_bus
      → CanSend to_bus
      → IsPkt pkt
      → (hdr_of pkt).src ≢ 0xff
      → flags_of (hdr_of pkt).flags_seq_tag ≡ 192
      → tag_of (hdr_of pkt).flags_seq_tag < 8
      → let hdr = hdr_of pkt in
        let to = tag_owner_of hdr.flags_seq_tag in
        let tag = tag_of hdr.flags_seq_tag in
        let n = length (payload pkt) in
        (w' : World) × (message_tx_on_bus p
            (other side)
            hdr.src
            hdr.dest
            to
            tag
            (payload pkt)
            (with_blocks n (with_blocks n (noted pkt w)))
          ≡ done success w')
        × (bus_rx p (own side) pkt w ≡ done tt (record w' { trace = freed ∷ w'.trace }))
        × (sent w'.trace
            ≡ sent w.trace
              ++ fragments
                  (suc n)
                  (to_bus.binding.pkt_size - 4)
                  (addressed hdr.src hdr.dest to tag)
                  true
                  to_bus.tx_seq
                  (payload pkt))
  bridge_relays side pkt w {from_bus} {to_bus} takes two policy at_own at_other c v from whole
        small =
      let hdr = hdr_of pkt in
      let to = tag_owner_of hdr.flags_seq_tag in
      let tag = tag_of hdr.flags_seq_tag in
      let n = length (payload pkt) in
      let w0 = with_blocks n (noted pkt w) in
      let t =
        message_tx_on_bus_sends p (other side) hdr.src hdr.dest to tag (payload pkt)
          (with_blocks n w0) to_bus takes at_other c small (omega (arith, length-payload pkt v)) in
      (
        t.0,
        t.1,
        bus_rx-passes (own side) pkt w from_bus at_own policy v from
            ∙ rx_switch-whole (own side) hdr pkt (noted pkt w) whole
            ∙ rx_single-payload (own side) hdr pkt (noted pkt w) v (
                rx-relays side hdr.src hdr.dest to tag (payload pkt) w0 from_bus at_own two policy
                ∙ forward_from-other side hdr.src hdr.dest to tag (payload pkt) w0 t.1),
        t.2
            ∙ ap
                (λ l.
                  l
                  ++ fragments (suc n) (to_bus.binding.pkt_size - 4)
                      (addressed hdr.src hdr.dest to tag) true to_bus.tx_seq (payload pkt))
                (sent-noted n pkt w),
      )
