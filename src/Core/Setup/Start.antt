-- ===== src/Core/Setup/Start.antt =====
-- What starting a binding does to its bus.
use ps_libmctp_win.Prelude.{
  ℕ, ◌+◌, ◌≤◌, ◌<◌, ◌≡◌, ◌⊎◌, inl, inr, ◌∙◌, ap, refl, Bool, true, some, ◌∷◌, set, get_elem?, ltb,
  ◌==◌, Bool-cases, arith, length, get_elem?-set_self, lt_length-get_elem?, size_mod,
}
use ps_libmctp_win.Packet.{Binding}
use ps_libmctp_win.Core.State.{
  Rc, success, constructed, tx_enabled, Bus, endpoint, Platform, World, done, ◌>>=◌, get_trace,
  started, get_bus-bind, bind-done, require-bind,
}
use ps_libmctp_win.Core.Transmit.{set_tx_enabled, set_tx_enabled_from}
use ps_libmctp_win.Core.Transmit.Messages.{CanSend}
use ps_libmctp_win.Core.Setup.{zero_bus, start_bus, register_bus}

-- The bus that is registered, and the instance that it is registered with.
abbrev pub registered_bus : Binding → ℕ → Bus
registered_bus binding eid = record zero_bus {
  has_mctp = true;
  binding = binding;
  eid = eid;
  state = tx_enabled;
}

abbrev pub registered : Binding → ℕ → World → World
registered binding eid w = record w {
  mctp = record (w.mctp) {
    n_busses = 1;
    busses =
        set
          (set w.mctp.busses 0 (record zero_bus { has_mctp = true; binding = binding; eid = eid }))
          0 (registered_bus binding eid);
    route_policy = endpoint;
  };
  trace = started 0 success ∷ w.trace;
}

pub registered_bus-CanSend :
    (binding : Binding) (eid : ℕ)
    → 68 ≤ binding.pkt_size
    → binding.pkt_header + binding.pkt_size ≤ length binding.tx_storage
    → binding.pkt_header + binding.pkt_size < size_mod
    → CanSend (registered_bus binding eid)
registered_bus-CanSend binding eid mtu room small = record {
  enabled = refl;
  idle = refl;
  mtu_ok = mtu;
  room = room;
  room_small = small;
  seq_small = omega arith;
}

module _ (p : Platform) where
  abbrev pub with_bus : ℕ → Bus → World → World
  with_bus i b w = record w { mctp = record (w.mctp) { busses = set w.mctp.busses i b } }

  -- A bus that has not been started and has the MTU is enabled; one that has not the MTU is left.
  pub set_tx_enabled-constructed :
      (i : ℕ) (w : World) (bus : Bus)
      → get_elem? w.mctp.busses i ≡ some bus
      → bus.state ≡ constructed
      → (68 ≤ bus.binding.pkt_size)
          × (set_tx_enabled p i true w ≡ done tt (with_bus i (record bus { state = tx_enabled }) w))
        ⊎ (bus.binding.pkt_size < 68) × (set_tx_enabled p i true w ≡ done tt w)
  unfolding set_tx_enabled set_tx_enabled_from
  set_tx_enabled-constructed i w bus at st = elim (Bool-cases (ltb bus.binding.pkt_size 68)) [
    | inl short ↦ inr (ground arith, get_bus-bind i _ w at ∙ rw (st, short))
    | inr long ↦ inl (ground arith, get_bus-bind i _ w at ∙ rw (st, long))
  ]

  -- `binding->start` when it enables the bus.
  pub start_bus-enables :
      (i : ℕ) (binding : Binding) (w : World) (rc : Rc) {w' : World}
      → binding.has_start ≡ true
      → p.start w.trace i ≡ (true, rc)
      → set_tx_enabled p i true (record w { trace = started i rc ∷ w.trace }) ≡ done tt w'
      → start_bus p i binding w ≡ done rc w'
  unfolding start_bus
  start_bus-enables i binding w rc {w'} on says enabled =
      rw (on, ◌>>=◌, get_trace, says, enabled) (ap (λ (s : Bool × Rc). done s.1 w') says)

  pub register_bus-done :
      (binding : Binding) (eid : ℕ) (w : World)
      → w.mctp.n_busses ≡ 0
      → 0 < length w.mctp.busses
      → binding.has_tx_storage ≡ true
      → binding.has_start ≡ true
      → p.start w.trace 0 ≡ (true, success)
      → 68 ≤ binding.pkt_size
      → (register_bus p binding eid w ≡ done success (registered binding eid w))
        × (get_elem? (registered binding eid w).mctp.busses 0 ≡ some (registered_bus binding eid))
  unfolding register_bus
  register_bus-done binding eid w fresh long storage on says mtu =
      elim (set_tx_enabled-constructed 0 w1 fresh_bus at1 refl) [
        | inl (wide, enabled) ↦ (
          require-bind (w.mctp.n_busses == 0) _ w (ap (λ n. n == 0) fresh)
              ∙ require-bind binding.has_tx_storage _
                  (record w { mctp = record (w.mctp) { n_busses = 1 } }) storage
              ∙ bind-done (start_bus p 0 binding) _ w0
                  (start_bus-enables 0 binding w0 success on says enabled),
          get_elem?-set_self w1.mctp.busses 0 (registered_bus binding eid) at_len,
        )
        | inr (short, left) ↦ absurd (omega arith)
      ]
    where
      fresh_bus : Bus
      fresh_bus = record zero_bus { has_mctp = true; binding = binding; eid = eid }

      w0 : World
      w0 = record w {
        mctp = record (w.mctp) {
          n_busses = 1;
          busses = set w.mctp.busses 0 fresh_bus;
          route_policy = endpoint;
        };
      }

      w1 : World
      w1 = record w0 { trace = started 0 success ∷ w.trace }

      at1 : get_elem? w1.mctp.busses 0 ≡ some fresh_bus
      at1 = get_elem?-set_self w.mctp.busses 0 fresh_bus long

      at_len : 0 < length w1.mctp.busses
      at_len = lt_length-get_elem? w1.mctp.busses 0 at1

  -- On an instance that has no bus and room for one, `mctp_register_bus` of a binding with storage
  -- for a packet, a packet size of at least 68 bytes and a start function that enables it and
  -- returns 0 returns 0, makes the instance an endpoint with one bus, bus 0, and leaves that linked
  -- to it, with the given address, started and idle with room for a packet. The reassembly contexts are left alone.
  pub register_bus_lem :
      (binding : Binding) (eid : ℕ) (w : World)
      → w.mctp.n_busses ≡ 0
      → 0 < length w.mctp.busses
      → binding.has_tx_storage ≡ true
      → binding.has_start ≡ true
      → p.start w.trace 0 ≡ (true, success)
      → 68 ≤ binding.pkt_size
      → binding.pkt_header + binding.pkt_size ≤ length binding.tx_storage
      → binding.pkt_header + binding.pkt_size < size_mod
      → (w' : World) × (bus : Bus) × (register_bus p binding eid w ≡ done success w')
        × (get_elem? w'.mctp.busses 0 ≡ some bus)
        × CanSend bus
        × (bus.eid ≡ eid)
        × (bus.has_mctp ≡ true)
        × (w'.mctp.n_busses ≡ 1)
        × (w'.mctp.route_policy ≡ endpoint)
        × (w'.mctp.msg_ctxs ≡ w.mctp.msg_ctxs)
  register_bus_lem binding eid w fresh long storage on says mtu room small =
      let r = register_bus-done binding eid w fresh long storage on says mtu in
      (
        registered binding eid w,
        registered_bus binding eid,
        r.0,
        r.1,
        registered_bus-CanSend binding eid mtu room small,
        refl,
        refl,
        refl,
        refl,
        refl,
      )
