-- ===== src/Core/Transmit/Stall.antt =====
-- A message of several packets whose first packet the binding refuses for good.
use ps_libmctp_win.Prelude.{
  ℕ, suc, ◌-◌, ◌<◌, ◌≡◌, ◌∙◌, ap, refl, Bool, true, false, some, List, ◌∷◌, length, get_elem?, set,
  arith, size_mod, leb, is_some, get_elem?-set_self, lt_length-get_elem?,
}
use ps_libmctp_win.Packet.{Pktbuf}
use ps_libmctp_win.Core.State.{
  Rc, success, ebusy, Bus, tx_enabled, Platform, Trace, World, done, freed, get_bus-bind, bind-done,
  pure,
}
use ps_libmctp_win.Core.Transmit.{
  build_pkt, packet_tx, tx_complete, after_tx, send_step, send_loop, send_tx_queue, is_enabled,
  is_constructed, take_msg, message_tx_on_bus, body_size, btu,
}
use ps_libmctp_win.Core.Transmit.Progress.{IsSending, next_bus, next_tx_pkt-some}
use ps_libmctp_win.Core.Transmit.Fragments.{mtu, unsent}
use ps_libmctp_win.Core.Transmit.Parts.{advanced, tx_complete-more}
use ps_libmctp_win.Core.Transmit.Messages.{
  CanSend, take_msg-IsReady, message_tx_on_bus-takes, tag_masked, send_tx_queue-done,
}
use ps_libmctp_win.Core.Transmit.Single.{offered, before}

-- An answer that is neither 0 nor -EBUSY.
abbrev pub is_hard : Rc → Bool
is_hard success = false
is_hard ebusy = false
is_hard _ = true

after_tx-hard :
    (rc : Rc) (bus : Bus) (tr : Trace)
    → is_hard rc ≡ true
    → after_tx rc bus tr ≡ (false, (tx_complete bus tr).0, (tx_complete bus tr).1)
unfolding after_tx
after_tx-hard success bus tr h = cc
after_tx-hard ebusy bus tr h = cc
after_tx-hard _ bus tr h = refl

module _ (p : Platform) (i : ℕ) where
  send_step-stalls :
      (has_capture : Bool) (bus : Bus) (msg : List ℕ) (tr : Trace)
      → bus.tx_msg ≡ some msg
      → IsSending bus msg
      → bus.tx_seq < 4
      → bus.state ≡ tx_enabled
      → leb (length (unsent bus msg)) (mtu bus) ≡ false
      → ((tr : Trace) (pkt : Pktbuf) → is_hard (p.tx tr i pkt) ≡ true)
      → send_step p has_capture i bus tr
        ≡ (false, advanced bus (build_pkt bus msg), offered p has_capture i (build_pkt bus msg) tr)
  unfolding send_step packet_tx
  send_step-stalls has_capture bus msg tr e v seq on more hard =
      let pkt = build_pkt bus msg in
      rw (next_tx_pkt-some bus e, send_step, packet_tx, ap is_enabled on)
        (after_tx-hard (p.tx (before p has_capture i pkt tr) i pkt) (next_bus bus pkt)
            (offered p has_capture i pkt tr) (hard (before p has_capture i pkt tr) pkt)
          ∙ ap (λ (c : Bus × Trace). (false, c.0, c.1))
              (tx_complete-more bus msg pkt (offered p has_capture i pkt tr) e v seq more))

  -- The loop stops after the packet.
  send_loop-stops :
      (has_capture : Bool) (fuel : ℕ) (bus : Bus) (tr : Trace) {out : Bus × Trace}
      → is_some bus.tx_msg ≡ true
      → bus.state ≡ tx_enabled
      → send_step p has_capture i bus tr ≡ (false, out.0, out.1)
      → send_loop p has_capture i (suc fuel) bus tr ≡ some out
  unfolding send_loop
  send_loop-stops has_capture fuel bus tr e on s = rw (send_loop, e, ap is_enabled on, s)

  -- If the binding answers every packet on a started, idle bus with an error other than -EBUSY,
  -- then for a message of more than one packet with a tag below 8 and a length that is a `size_t`,
  -- `mctp_message_tx_on_bus` returns 0 though nothing was taken: one packet was offered, and
  -- the message stays on the bus as if that packet had been sent. Every message with a tag below 8
  -- that is then passed to `mctp_message_tx_on_bus` is released and refused with -EBUSY, with no
  -- packet offered, and the instance stays as it is.
  pub refused_packet_stalls :
      (src dest : ℕ) (to : Bool) (tag : ℕ) (msg : List ℕ) (w : World) (bus : Bus)
      → (src2 dest2 : ℕ) (to2 : Bool) (tag2 : ℕ) (msg2 : List ℕ)
      → get_elem? w.mctp.busses i ≡ some bus
      → CanSend bus
      → tag < 8
      → tag2 < 8
      → bus.binding.pkt_size - 4 < length msg
      → length msg < size_mod
      → ((tr : Trace) (pkt : Pktbuf) → is_hard (p.tx tr i pkt) ≡ true)
      → (w' : World) × (bus' : Bus) × (message_tx_on_bus p i src dest to tag msg w
          ≡ done success w')
        × (get_elem? w'.mctp.busses i ≡ some bus')
        × (bus'.tx_msg ≡ some msg)
        × (bus'.tx_msgpos ≡ bus.binding.pkt_size - 4)
        × (w'.trace
            ≡ offered p w.mctp.has_capture i
                (build_pkt (take_msg bus src dest to tag msg) msg)
                w.trace)
        × (message_tx_on_bus p i src2 dest2 to2 tag2 msg2 w'
            ≡ done ebusy (record w' { trace = freed ∷ w'.trace }))
  unfolding take_msg message_tx_on_bus
  refused_packet_stalls src dest to tag msg w bus src2 dest2 to2 tag2 msg2 at c small small2 long
        fits hard =
      (
        w',
        bus',
        message_tx_on_bus-takes p i src dest to tag msg w bus at (ap is_constructed c.enabled)
              (tag_masked tag small) c.mtu_ok (omega (arith, c.room_small)) (ap is_some c.idle)
            ∙ bind-done (send_tx_queue p i) (λ _. pure success) w0
                (send_tx_queue-done p i w0 bus0 at0 (
                  send_loop-stops w.mctp.has_capture (suc (length msg)) bus0 w.trace refl c.enabled
                    (send_step-stalls w.mctp.has_capture bus0 msg w.trace refl sending c.seq_small
                      c.enabled more hard))),
        at',
        refl,
        omega arith,
        refl,
        get_bus-bind i _ w' at' ∙ rw (ap is_constructed c.enabled, tag_masked tag2 small2, roomy),
      )
    where
      bus0 : Bus
      bus0 = take_msg bus src dest to tag msg

      w0 : World
      w0 = record w { mctp = record (w.mctp) { busses = set w.mctp.busses i bus0 } }

      at0 : get_elem? w0.mctp.busses i ≡ some bus0
      at0 = get_elem?-set_self w.mctp.busses i bus0 (lt_length-get_elem? w.mctp.busses i at)

      bus' : Bus
      bus' = advanced bus0 (build_pkt bus0 msg)

      w' : World
      w' = record w0 {
        mctp = record (w0.mctp) { busses = set w0.mctp.busses i bus' };
        trace = offered p w.mctp.has_capture i (build_pkt bus0 msg) w.trace;
      }

      at' : get_elem? w'.mctp.busses i ≡ some bus'
      at' = get_elem?-set_self w0.mctp.busses i bus' (lt_length-get_elem? w0.mctp.busses i at0)

      sending : IsSending bus0 msg
      sending =
          take_msg-IsReady p bus src dest to tag msg c.mtu_ok (omega (arith, c.room_small)) fits

      more : leb (length (unsent bus0 msg)) (mtu bus0) ≡ false
      more = ground (arith, long)

      roomy : leb btu (body_size bus.binding.pkt_size) ≡ true
      roomy = ground (arith, c.mtu_ok, c.room_small)
