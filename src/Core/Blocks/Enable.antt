-- ===== src/Core/Blocks/Enable.antt =====
-- mctp_binding_set_tx_enabled on an endpoint: it returns, and keeps the blocks settled.
use ps_libmctp_win.Prelude.{
  ℕ, suc, ◌≡◌, ◌≤◌, ◌<◌, ◌⊎◌, inl, inr, ◌∙◌, refl, ap, Bool, true, false, Option, none, some, List,
  get_elem?, set, arith, Bool-cases, not, ltb, ◌||◌,
}
use ps_libmctp_win.Core.State.{BusState, constructed, tx_enabled, tx_disabled, Bus, World, Platform}
use ps_libmctp_win.Core.Transmit.{
  is_constructed, btu, packet_size, set_tx_enabled, set_tx_enabled_from, send_tx_queue, send_fuel,
}
use ps_libmctp_win.Core.Transmit.Progress.{
  IsReadyWith, rounds_left, rounds_with, send_loop_total, Keeps as KeepsBus,
}
use ps_libmctp_win.Core.Transmit.Messages.{IsBus, send_tx_queue-done}
use ps_libmctp_win.Core.Safety.{IsEndpoint, Keeps, get_bus-Keeps, with_bus}
use ps_libmctp_win.Core.Blocks.{
  Frame, frame, Settled, After, After-done, After-get_bus, After-map, bus_blocks-same,
}
use ps_libmctp_win.Core.Blocks.Queue.{send_tx_queue-Owes}

module _ (p : Platform) where
  -- A bus whose state is written.
  enabled_as : BusState → Bus → World → World
  enabled_as st bus w = record w {
    mctp = record (w.mctp) { busses = set w.mctp.busses 0 (record bus { state = st }) };
  }

  enabled_as-Settled :
      (st : BusState) (n : ℕ) (bus : Bus) (w : World)
      → get_elem? w.mctp.busses 0 ≡ some bus
      → Settled n w
      → Settled n (enabled_as st bus w)
  unfolding enabled_as
  enabled_as-Settled st n bus w at o = (
    o.0,
    omega (
      arith,
      o.1,
      bus_blocks-same w.mctp.n_busses w.mctp.busses 0 (record bus { state = st }) at refl,
    ),
  )

  pub set_tx_enabled-Settled :
      (on : Bool) (n : ℕ) (w : World)
      → 0 < n
      → Settled n w
      → After (λ u. Settled n) (set_tx_enabled p 0 on w)
  unfolding set_tx_enabled set_tx_enabled_from enabled_as
  set_tx_enabled-Settled on n w l o = After-get_bus 0 _ w (λ bus at. by_state bus at bus.state on)
    where
      by_state :
          (bus : Bus)
          → get_elem? w.mctp.busses 0 ≡ some bus
          → (st : BusState) (on : Bool)
          → After (λ u. Settled n) (set_tx_enabled_from p st 0 bus on w)
      by_state bus at constructed on =
          elim (Bool-cases (not on || ltb bus.binding.pkt_size (packet_size btu))) [
            | inl kept ↦ rw (set_tx_enabled_from, kept) (After-done tt w o)
            | inr wide ↦
                rw (set_tx_enabled_from, wide)
                  (After-done tt _ (enabled_as-Settled tx_enabled n bus w at o))
          ]
      by_state bus at tx_enabled true = After-done tt w o
      by_state bus at tx_enabled false =
          After-done tt _ (enabled_as-Settled tx_disabled n bus w at o)
      by_state bus at tx_disabled true =
          let w1 = enabled_as tx_enabled bus w in
          let o1 = enabled_as-Settled tx_enabled n bus w at o in
          After-map (λ a w' o'. (ap (λ (g : Frame). g.1) o'.0 ∙ o1.0, o'.1))
            (send_tx_queue-Owes p 0 0 (frame w1) w1 (omega (arith, o1.0, l)) (refl, o1.1))
      by_state bus at tx_disabled false = After-done tt w o

-- The state of a bus with the MTU does not matter between two calls.
IsBus-state :
    (bus : Bus) (st : BusState)
    → 68 ≤ bus.binding.pkt_size
    → IsBus bus
    → IsBus (record bus { state = st })
IsBus-state bus st wide h = record {
  ready = ready_for bus.tx_msg h.ready;
  mtu_ok = inr wide;
  mtu_small = h.mtu_small;
}
  where
    ready_for :
        (o : Option (List ℕ)) → IsReadyWith o bus → IsReadyWith o (record bus { state = st })
    ready_for none r = tt
    ready_for (some msg) r = record {
      whole = r.whole;
      small = r.small;
      part = r.part;
      mtu = r.mtu;
      mtu_small = r.mtu_small;
    }

rounds_left-small : (bus : Bus) → rounds_left bus < send_fuel bus
rounds_left-small bus = small bus.tx_msg
  where
    small : (o : Option (List ℕ)) → rounds_with o bus < suc (suc bus.tx_msglen)
    small none = omega arith
    small (some msg) = omega arith

module _ (p : Platform) where
  send_tx_queue-Keeps : (w : World) → IsEndpoint w.mctp → Keeps (send_tx_queue p 0) w
  send_tx_queue-Keeps w v =
      let s =
        send_loop_total p w.mctp.has_capture 0 (send_fuel v.bus) v.bus w.trace v.is_bus.ready
          (rounds_left-small v.bus) in
      (
        tt,
        record w { mctp = record (w.mctp) { busses = set w.mctp.busses 0 s.0.0 }; trace = s.0.1 },
        send_tx_queue-done p 0 w v.bus v.bus_at s.1,
        with_bus w.mctp s.0.0 v
            record {
              ready = s.2;
              mtu_ok = kept_mtu s.0.0 s.3 v.is_bus.mtu_ok;
              mtu_small = omega (arith, s.3.1, v.is_bus.mtu_small);
            }
            (s.3.2 ∙ v.linked),
      )
    where
      kept_mtu :
          (bus' : Bus)
          → KeepsBus v.bus bus'
          → (is_constructed v.bus.state ≡ true) ⊎ (68 ≤ v.bus.binding.pkt_size)
          → (is_constructed bus'.state ≡ true) ⊎ (68 ≤ bus'.binding.pkt_size)
      kept_mtu bus' k (inl fresh) = inl (ap is_constructed k.0 ∙ fresh)
      kept_mtu bus' k (inr wide) = inr (omega (arith, k.1, wide))

  pub set_tx_enabled-Keeps :
      (on : Bool) (w : World) → IsEndpoint w.mctp → Keeps (set_tx_enabled p 0 on) w
  unfolding set_tx_enabled set_tx_enabled_from enabled_as
  set_tx_enabled-Keeps on w v = get_bus-Keeps _ w v (by_state v.bus.state on refl)
    where
      wide : is_constructed v.bus.state ≡ false → 68 ≤ v.bus.binding.pkt_size
      wide started = ground (arith, v.is_bus.mtu_ok)

      restated :
          (st : BusState) → 68 ≤ v.bus.binding.pkt_size → IsEndpoint (enabled_as p st v.bus w).mctp
      restated st big =
          with_bus w.mctp (record v.bus { state = st }) v (IsBus-state v.bus st big v.is_bus)
            v.linked

      by_state :
          (st : BusState) (on : Bool)
          → v.bus.state ≡ st
          → Keeps (set_tx_enabled_from p st 0 v.bus on) w
      by_state constructed on e =
          elim (Bool-cases (not on || ltb v.bus.binding.pkt_size (packet_size btu))) [
            | inl kept ↦ (tt, w, rw (set_tx_enabled_from, kept), v)
            | inr fits ↦ (
              tt,
              enabled_as p tx_enabled v.bus w,
              rw (set_tx_enabled_from, fits),
              restated tx_enabled (ground arith),
            )
          ]
      by_state tx_enabled true e = (tt, w, refl, v)
      by_state tx_enabled false e = (
        tt,
        enabled_as p tx_disabled v.bus w,
        refl,
        restated tx_disabled (wide (ap is_constructed e)),
      )
      by_state tx_disabled true e =
          send_tx_queue-Keeps (enabled_as p tx_enabled v.bus w)
            (restated tx_enabled (wide (ap is_constructed e)))
      by_state tx_disabled false e = (tt, w, refl, v)
