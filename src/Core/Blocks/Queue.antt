-- ===== src/Core/Blocks/Queue.antt =====
-- The blocks of mctp_send_tx_queue: a message that has been sent is released.
use ps_libmctp_win.Prelude.{
  ℕ, zero, suc, ◌+◌, ◌<◌, ◌≡◌, inl, inr, ◌∙◌, ap, refl, subst, Bool, true, false, none, some, List,
  ◌∷◌, get_elem?, set, arith, Bool-cases, Option-cases, some-injective, is_some, ◌&&◌, sym,
  if◌then◌else◌,
}
use ps_libmctp_win.Packet.{Pktbuf}
use ps_libmctp_win.Core.State.{Rc, Bus, Platform, Trace, World, done, freed}
use ps_libmctp_win.Core.Transmit.{
  packet_tx, tx_complete, after_tx, send_step, send_loop, send_fuel, send_tx_queue, next_tx_pkt,
  build_pkt, is_enabled,
}
use ps_libmctp_win.Core.Transmit.Progress.{after_tx-cases, next_tx_pkt-some, next_bus}
use ps_libmctp_win.Core.Blocks.{
  allocs, frees, one, OwesWith, Frame, After, After-by, After-done, After-fault, After-spins,
  bus_blocks-set,
}

-- What a bus holds has been moved to the trace, or kept.
abbrev Settles : Bus → Trace → Bus → Trace → Type 0
Settles bus tr bus' tr' =
    (frees tr' + one bus'.tx_msg ≡ frees tr + one bus.tx_msg) × (allocs tr' ≡ allocs tr)

tx_complete-Settles :
    (bus : Bus) (tr : Trace) → Settles bus tr (tx_complete bus tr).0 (tx_complete bus tr).1
unfolding tx_complete
tx_complete-Settles bus tr = ground arith

after_tx-Settles :
    (rc : Rc) (bus : Bus) (tr : Trace)
    → Settles bus tr (after_tx rc bus tr).1 (after_tx rc bus tr).2
after_tx-Settles rc bus tr = elim (after_tx-cases rc bus tr) [
  | inl kept ↦ rw kept (refl, refl)
  | inr (again, sent) ↦ rw sent (tx_complete-Settles bus tr)
]

module _ (p : Platform) (has_capture : Bool) (i : ℕ) where
  packet_tx-blocks :
      (bus : Bus) (pkt : Pktbuf) (tr : Trace)
      → (frees (packet_tx p has_capture i bus pkt tr).1 ≡ frees tr)
        × (allocs (packet_tx p has_capture i bus pkt tr).1 ≡ allocs tr)
  unfolding packet_tx
  packet_tx-blocks bus pkt tr = ground arith

  send_step-Settles :
      (bus : Bus) (tr : Trace)
      → Settles bus tr (send_step p has_capture i bus tr).1 (send_step p has_capture i bus tr).2
  unfolding send_step next_tx_pkt
  send_step-Settles bus tr = elim (Option-cases bus.tx_msg) [
    | inl empty ↦ subst (λ o. Settles bus tr o.1 o.2) (sym (stays empty)) (refl, refl)
    | inr (msg, e) ↦ rw (send_step, next_tx_pkt-some bus e) (sent msg e)
  ]
    where
      stays : bus.tx_msg ≡ none → send_step p has_capture i bus tr ≡ (false, bus, tr)
      stays empty = simp (send_step, next_tx_pkt, empty)

      sent :
          (msg : List ℕ)
          → bus.tx_msg ≡ some msg
          → let bus' = next_bus bus (build_pkt bus msg) in
            let answer = packet_tx p has_capture i bus' (build_pkt bus msg) tr in
            let out = after_tx answer.0 bus' answer.1 in Settles bus tr out.1 out.2
      sent msg e =
          let bus' = next_bus bus (build_pkt bus msg) in
          let answer = packet_tx p has_capture i bus' (build_pkt bus msg) tr in
          let moved = packet_tx-blocks bus' (build_pkt bus msg) tr in
          let out = after_tx-Settles answer.0 bus' answer.1 in
          (out.0 ∙ ap (λ n. n + one bus.tx_msg) moved.0, out.1 ∙ moved.1)

  send_loop-Settles :
      (fuel : ℕ) (bus : Bus) (tr : Trace) {out : Bus × Trace}
      → send_loop p has_capture i fuel bus tr ≡ some out
      → Settles bus tr out.0 out.1
  unfolding send_loop
  send_loop-Settles zero bus tr e = cc
  send_loop-Settles (suc fuel) bus tr {out} e =
      elim (Bool-cases (is_some bus.tx_msg && is_enabled bus.state)) [
        | inl on ↦ elim (Bool-cases step.0) [
          | inl again ↦
              let rest = send_loop-Settles fuel step.1 step.2 (ran on again) in
              (rest.0 ∙ (send_step-Settles bus tr).0, rest.1 ∙ (send_step-Settles bus tr).1)
          | inr stop ↦
              subst (λ o. Settles bus tr o.0 o.1) (stopped on stop) (send_step-Settles bus tr)
        ]
        | inr off ↦ subst (λ o. Settles bus tr o.0 o.1) (idle off) (refl, refl)
      ]
    where
      step : Bool × Bus × Trace
      step = send_step p has_capture i bus tr

      unrolled : send_loop p has_capture i (suc fuel) bus tr ≡ (
          if is_some bus.tx_msg && is_enabled bus.state
          then (if step.0
              then send_loop p has_capture i fuel step.1 step.2
              else some (step.1, step.2))
          else some (bus, tr))
      unrolled = refl

      ran :
          (is_some bus.tx_msg && is_enabled bus.state) ≡ true
          → step.0 ≡ true
          → send_loop p has_capture i fuel step.1 step.2 ≡ some out
      ran on again = sym (unrolled ∙ rw (on, again) refl) ∙ e

      stopped :
          (is_some bus.tx_msg && is_enabled bus.state) ≡ true
          → step.0 ≡ false
          → (step.1, step.2) ≡ out
      stopped on stop = some-injective _ _ (sym (unrolled ∙ rw (on, stop) refl) ∙ e)

      idle : (is_some bus.tx_msg && is_enabled bus.state) ≡ false → (bus, tr) ≡ out
      idle off = some-injective _ _ (sym (unrolled ∙ rw off refl) ∙ e)

-- What the loop leaves is written back.
module _ (p : Platform) where
  pub send_tx_queue-Owes :
      (i k : ℕ) (fr : Frame) (w : World)
      → i < w.mctp.n_busses
      → OwesWith k fr w
      → After (λ u. OwesWith k fr) (send_tx_queue p i w)
  unfolding send_tx_queue
  send_tx_queue-Owes i k fr w l h = elim (Option-cases (get_elem? w.mctp.busses i)) [
    | inl gone ↦ After-by (rw (send_tx_queue, gone)) After-fault
    | inr (bus, at) ↦
        elim (Option-cases (send_loop p w.mctp.has_capture i (send_fuel bus) bus w.trace)) [
          | inl more ↦ After-by (rw (send_tx_queue, at, more)) After-spins
          | inr (out, run) ↦ After-by (rw (send_tx_queue, at, run)) (sent bus at out run)
        ]
  ]
    where
      sent :
          (bus : Bus)
          → get_elem? w.mctp.busses i ≡ some bus
          → (out : Bus × Trace)
          → send_loop p w.mctp.has_capture i (send_fuel bus) bus w.trace ≡ some out
          → After
              (λ u. OwesWith k fr)
              (done tt record w {
                mctp = record (w.mctp) { busses = set w.mctp.busses i out.0 };
                trace = out.1;
              })
      sent bus at out run =
          let s = send_loop-Settles p w.mctp.has_capture i (send_fuel bus) bus w.trace run in
          After-done tt _ (
            h.0,
            omega (arith, h.1, s.0, s.1, bus_blocks-set w.mctp.n_busses w.mctp.busses i out.0 l at),
          )

  pub refuse-Owes :
      (rc : Rc) (k : ℕ) (fr : Frame) (w : World)
      → OwesWith (suc k) fr w
      → After (λ rc. OwesWith k fr) (done rc (record w { trace = freed ∷ w.trace }))
  refuse-Owes rc k fr w h = After-done rc _ (h.0, omega (arith, h.1))
