-- ===== src/Core/Setup/Bridge.antt =====
-- The busses that `mctp_bridge_busses` leaves are not linked to their instance.
use ps_libmctp_win.Prelude.{
  ℕ, ◌<◌, ◌≡◌, ◌≢◌, inl, inr, ◌∙◌, ap, ap₂, refl, Bool, true, false, some, ◌∷◌, set, get_elem?,
  ◌==◌, if◌then◌else◌, Bool-cases, arith, length, length-set, get_elem?-set_self, get_elem?-set_ne,
  lt_length-get_elem?,
}
use ps_libmctp_win.Packet.{Binding}
use ps_libmctp_win.Core.State.{
  Rc, success, is_negative, constructed, tx_enabled, Bus, MsgCtx, bridge, Platform, World, done,
  fault, ◌>>=◌, pure, get_trace, started, bind-done, require-bind,
}
use ps_libmctp_win.Core.Reassembly.{ctx_drop}
use ps_libmctp_win.Core.Setup.{zero_bus, start_bus, bridge_busses}
use ps_libmctp_win.Core.Setup.Start.{with_bus, set_tx_enabled-constructed, start_bus-enables}

-- Bus `i` is there, and its `mctp` pointer is NULL.
abbrev pub IsUnlinked : ℕ → World → Type 0
IsUnlinked i w = (b : Bus) × (get_elem? w.mctp.busses i ≡ some b) × (b.has_mctp ≡ false)

abbrev IsFresh : ℕ → World → Type 0
IsFresh i w =
    (b : Bus) × (get_elem? w.mctp.busses i ≡ some b)
    × (b.has_mctp ≡ false)
    × (b.state ≡ constructed)

module _ (p : Platform) where
  start_bus-off :
      (i : ℕ) (binding : Binding) (w : World)
      → binding.has_start ≡ false
      → start_bus p i binding w ≡ done success w
  unfolding start_bus
  start_bus-off i binding w off = rw off

  start_bus-quiet :
      (i : ℕ) (binding : Binding) (w : World)
      → binding.has_start ≡ true
      → (p.start w.trace i).0 ≡ false
      → start_bus p i binding w
        ≡ done
            (p.start w.trace i).1
            (record w { trace = started i (p.start w.trace i).1 ∷ w.trace })
  unfolding start_bus
  start_bus-quiet i binding w on quiet = rw (on, ◌>>=◌, get_trace, quiet)

  -- Starting a new bus returns, and changes this bus only, which stays without its link.
  abbrev Starts : ℕ → Binding → World → Type 0
  Starts i binding w =
      (rc : Rc) × (w' : World) × (start_bus p i binding w ≡ done rc w')
      × IsUnlinked i w'
      × ((j : ℕ) → i ≢ j → get_elem? w'.mctp.busses j ≡ get_elem? w.mctp.busses j)

  start_bus-Starts : (i : ℕ) (binding : Binding) (w : World) → IsFresh i w → Starts i binding w
  start_bus-Starts i binding w (b, at, unlinked, new) = elim (Bool-cases binding.has_start) [
    | inr off ↦ (success, w, start_bus-off i binding w off, (b, at, unlinked), λ j ne. refl)
    | inl on ↦ elim (Bool-cases (p.start w.trace i).0) [
      | inr quiet ↦ (rc, w1, start_bus-quiet i binding w on quiet, (b, at, unlinked), λ j ne. refl)
      | inl loud ↦ elim (set_tx_enabled-constructed p i w1 b at new) [
        | inl (wide, enabled) ↦ (
          rc,
          with_bus p i started_bus w1,
          start_bus-enables p i binding w rc on (ap₂ (λ (x : Bool) (y : Rc). (x, y)) loud refl)
              enabled,
          (
            started_bus,
            get_elem?-set_self w.mctp.busses i started_bus (lt_length-get_elem? w.mctp.busses i at),
            unlinked,
          ),
          λ j ne. get_elem?-set_ne w.mctp.busses i j started_bus ne,
        )
        | inr (short, left) ↦ (
          rc,
          w1,
          start_bus-enables p i binding w rc on (ap₂ (λ (x : Bool) (y : Rc). (x, y)) loud refl)
              left,
          (b, at, unlinked),
          λ j ne. refl,
        )
      ]
    ]
  ]
    where
      rc : Rc
      rc = (p.start w.trace i).1

      w1 : World
      w1 = record w { trace = started i rc ∷ w.trace }

      started_bus : Bus
      started_bus = record b { state = tx_enabled }

  ctx_drop-fault :
      (b : Bus) (k : ℕ) (c : MsgCtx) (v : World) → b.has_mctp ≡ false → ctx_drop b k c v ≡ fault
  unfolding ctx_drop
  ctx_drop-fault b k c v e = rw (e, ◌>>=◌)

  -- On an instance without busses whose array has two places, `mctp_bridge_busses` of two bindings
  -- with storage returns, whatever their start functions do, and releasing a reassembly context of
  -- either bus afterwards faults, since `mctp_msg_ctx_drop` reads through the bus's NULL pointer.
  pub bridge_busses_faults :
      (b1 b2 : Binding) (w : World) (k : ℕ) (c : MsgCtx) (v : World)
      → w.mctp.n_busses ≡ 0
      → 1 < length w.mctp.busses
      → b1.has_tx_storage ≡ true
      → b2.has_tx_storage ≡ true
      → (rc : Rc) × (w' : World) × (x : Bus) × (y : Bus) × (bridge_busses p b1 b2 w ≡ done rc w')
        × (get_elem? w'.mctp.busses 0 ≡ some x)
        × (get_elem? w'.mctp.busses 1 ≡ some y)
        × (ctx_drop x k c v ≡ fault)
        × (ctx_drop y k c v ≡ fault)
  unfolding bridge_busses
  bridge_busses_faults b1 b2 w k c v fresh two st1 st2 = elim (Bool-cases (is_negative s0.0)) [
    | inl bad ↦ (
      s0.0,
      s0.1,
      u0.0,
      bus1,
      begun ∙ stopped bad,
      u0.1,
      kept,
      ctx_drop-fault u0.0 k c v u0.2,
      ctx_drop-fault bus1 k c v refl,
    )
    | inr good ↦
        let s1 = start_bus-Starts 1 b2 s0.1 (bus1, kept, refl, refl) in
        (
          s1.0,
          s1.1,
          u0.0,
          s1.3.0,
          begun ∙ goes_on good ∙ s1.2,
          s1.4 0 (omega arith) ∙ u0.1,
          s1.3.1,
          ctx_drop-fault u0.0 k c v u0.2,
          ctx_drop-fault s1.3.0 k c v s1.3.2,
        )
  ]
    where
      bus0 : Bus
      bus0 = record zero_bus { binding = b1 }

      bus1 : Bus
      bus1 = record zero_bus { binding = b2 }

      w0 : World
      w0 = record w {
        mctp = record (w.mctp) {
          busses = set (set w.mctp.busses 0 bus0) 1 bus1;
          n_busses = 2;
          route_policy = bridge;
        };
      }

      at0 : get_elem? w0.mctp.busses 0 ≡ some bus0
      at0 =
          get_elem?-set_ne (set w.mctp.busses 0 bus0) 1 0 bus1 (omega arith)
          ∙ get_elem?-set_self w.mctp.busses 0 bus0 (omega arith)

      at1 : get_elem? w0.mctp.busses 1 ≡ some bus1
      at1 =
          get_elem?-set_self (set w.mctp.busses 0 bus0) 1 bus1
            (omega (arith, length-set w.mctp.busses 0 bus0))

      s0 : Starts 0 b1 w0
      s0 = start_bus-Starts 0 b1 w0 (bus0, at0, refl, refl)

      u0 : IsUnlinked 0 s0.1
      u0 = s0.3

      kept : get_elem? s0.1.mctp.busses 1 ≡ some bus1
      kept = s0.4 1 (omega arith) ∙ at1

      begun :
          bridge_busses p b1 b2 w ≡ (if is_negative s0.0 then pure s0.0 else start_bus p 1 b2) s0.1
      begun =
          require-bind b1.has_tx_storage _ w st1
          ∙ require-bind b2.has_tx_storage _ w st2
          ∙ require-bind (w.mctp.n_busses == 0) _ w (ap (λ n. n == 0) fresh)
          ∙ bind-done (start_bus p 0 b1) _ w0 s0.2

      stopped :
          is_negative s0.0 ≡ true
          → (if is_negative s0.0 then pure s0.0 else start_bus p 1 b2) s0.1 ≡ done s0.0 s0.1
      stopped h = rw h

      goes_on :
          is_negative s0.0 ≡ false
          → (if is_negative s0.0 then pure s0.0 else start_bus p 1 b2) s0.1 ≡ start_bus p 1 b2 s0.1
      goes_on h = rw h
