-- ===== src/Core/Transmit/Totality.antt =====
-- Every branch of `mctp_message_tx_on_bus`.
use ps_libmctp_win.Prelude.{
  ℕ, ◌≤◌, ◌<◌, ◌==◌, ◌≡◌, inl, inr, ◌∙◌, refl, Bool, true, false, some, List, ◌∷◌, length,
  get_elem?, set, arith, size_mod, Bool-cases, leb, is_some, bit_and, get_elem?-set_self,
  lt_length-get_elem?,
}
use ps_libmctp_win.Core.State.{
  Rc, Bus, Platform, Trace, World, done, success, get_bus-bind, bind-done, pure, enxio, einval,
  ebusy, freed,
}
use ps_libmctp_win.Core.Transmit.{
  send_loop, send_fuel, send_tx_queue, take_msg, message_tx_on_bus, is_constructed, body_size, btu,
}
use ps_libmctp_win.Core.Transmit.Progress.{IsReady, send_loop_total, Keeps}
use ps_libmctp_win.Core.Transmit.Messages.{
  IsBus, take_msg-IsReady, message_tx_on_bus-takes, send_tx_queue-done,
}

-- What a call on a bus may change of the instance: that bus, which stays fit for the next call.
abbrev pub Moves : ℕ → Bus → World → World → Type 0
Moves i bus w w' =
    (bus' : Bus) × (get_elem? w'.mctp.busses i ≡ some bus')
    × IsBus bus'
    × Keeps bus bus'
    × (w'.mctp ≡ record (w.mctp) { busses = w'.mctp.busses })

module _ (p : Platform) where
  -- The call returns, and moves the bus at most.
  pub message_tx_on_bus-keeps :
      (i src dest : ℕ) (to : Bool) (tag : ℕ) (msg : List ℕ) (w : World) (bus : Bus)
      → get_elem? w.mctp.busses i ≡ some bus
      → IsBus bus
      → length msg < size_mod
      → (rc : Rc) × (w' : World) × (message_tx_on_bus p i src dest to tag msg w ≡ done rc w')
        × Moves i bus w w'
  unfolding message_tx_on_bus take_msg
  message_tx_on_bus-keeps i src dest to tag msg w bus b v l =
      elim (Bool-cases (is_constructed bus.state)) [
        | inl unstarted ↦ (enxio, refused, get_bus-bind i _ w b ∙ rw unstarted, stays)
        | inr started ↦ elim (Bool-cases (bit_and tag 7 == tag)) [
          | inl good ↦ elim (Bool-cases (is_some bus.tx_msg)) [
            | inl busy ↦ (
              ebusy,
              refused,
              get_bus-bind i _ w b ∙ rw (started, good, roomy (started_mtu started), busy),
              stays,
            )
            | inr idle ↦ (
              success,
              w' (started_mtu started),
              message_tx_on_bus-takes p i src dest to tag msg w bus b started good
                    (started_mtu started) v.mtu_small idle
                  ∙ bind-done (send_tx_queue p i) (λ _. pure success) w0
                      (send_tx_queue-done p i w0 bus0 at0 (s (started_mtu started)).1),
              moved (started_mtu started),
            )
          ]
          | inr bad ↦ (einval, refused, get_bus-bind i _ w b ∙ rw (started, bad), stays)
        ]
      ]
    where
      refused : World
      refused = record w { trace = freed ∷ w.trace }

      stays : Moves i bus w refused
      stays = (bus, b, v, (refl, refl, refl, refl), refl)

      started_mtu : is_constructed bus.state ≡ false → 68 ≤ bus.binding.pkt_size
      started_mtu h = ground (arith, v.mtu_ok)

      roomy : 68 ≤ bus.binding.pkt_size → leb btu (body_size bus.binding.pkt_size) ≡ true
      roomy h = ground (arith, v.mtu_small)

      bus0 : Bus
      bus0 = take_msg bus src dest to tag msg

      w0 : World
      w0 = record w { mctp = record (w.mctp) { busses = set w.mctp.busses i bus0 } }

      at0 : get_elem? w0.mctp.busses i ≡ some bus0
      at0 = get_elem?-set_self w.mctp.busses i bus0 (lt_length-get_elem? w.mctp.busses i b)

      s :
          (h : 68 ≤ bus.binding.pkt_size)
          → (r : Bus × Trace) × (send_loop p w.mctp.has_capture i (send_fuel bus0) bus0 w.trace
              ≡ some r)
            × IsReady r.0
            × Keeps bus0 r.0
      s h =
          send_loop_total p w.mctp.has_capture i (send_fuel bus0) bus0 w.trace
            (take_msg-IsReady p bus src dest to tag msg h v.mtu_small l) (omega arith)

      w' : 68 ≤ bus.binding.pkt_size → World
      w' h = record w0 {
        mctp = record (w0.mctp) { busses = set w0.mctp.busses i (s h).0.0 };
        trace = (s h).0.1;
      }

      moved : (h : 68 ≤ bus.binding.pkt_size) → Moves i bus w (w' h)
      moved h =
          let r = s h in
          (
            r.0.0,
            get_elem?-set_self w0.mctp.busses i r.0.0 (lt_length-get_elem? w0.mctp.busses i at0),
            record {
              ready = r.2;
              mtu_ok = inr (omega (arith, r.3.1, h));
              mtu_small = omega (arith, r.3.1, v.mtu_small);
            },
            r.3,
            refl,
          )

  -- `mctp_message_tx_on_bus` returns, whatever the binding answers and whichever branch is taken, if
  -- the bus is between two calls and the length of the message is a `size_t`: no assertion fails, and
  -- the loop ends.
  pub message_tx_on_bus_total :
      (i src dest : ℕ) (to : Bool) (tag : ℕ) (msg : List ℕ) (w : World) (bus : Bus)
      → get_elem? w.mctp.busses i ≡ some bus
      → IsBus bus
      → length msg < size_mod
      → (rc : Rc) × (w' : World) × (message_tx_on_bus p i src dest to tag msg w ≡ done rc w')
  message_tx_on_bus_total i src dest to tag msg w bus b v l =
      let r = message_tx_on_bus-keeps i src dest to tag msg w bus b v l in (r.0, r.1, r.2)
