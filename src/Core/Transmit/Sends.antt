-- ===== src/Core/Transmit/Sends.antt =====
-- With a binding that takes every packet, the loop of `mctp_send_tx_queue` sends a message whole.
use ps_libmctp_win.Prelude.{
  is_some, ℕ, zero, suc, ◌+◌, ◌<◌, ◌==◌, ◌≡◌, ◌∙◌, ap, sym, Bool, true, false, Option, none, some,
  List, [], ◌∷◌, ◌++◌, length, take, arith, Bool-cases, inl, inr, leb, if◌then◌else◌, append_assoc,
  drop-drop, length-drop, leb-false→lt, ne→==-false,
}
use ps_libmctp_win.Packet.{Pktbuf}
use ps_libmctp_win.Header.{flag_bits}
use ps_libmctp_win.Core.State.{Bus, Platform, Trace, success, transmitted, captured, tx_enabled}
use ps_libmctp_win.Core.Transmit.{
  build_pkt, packet_tx, tx_complete, after_tx, send_step, send_loop, is_enabled,
}
use ps_libmctp_win.Core.Transmit.Progress.{IsSending, next_bus, next_tx_pkt-some, send_loop-again}
use ps_libmctp_win.Core.Transmit.Fragments.{
  View, view, mtu, unsent, HasRoom, next_view, view-build_pkt, unsent-length,
}
use ps_libmctp_win.Core.Transmit.Parts.{
  fragments, sent, advanced, tx_complete-last, tx_complete-more, route, TakesAll, fragments-last,
  fragments-more, length-build_pkt,
}

module _ (p : Platform) (takes : TakesAll p) (has_capture : Bool) (i : ℕ) where
  -- The trace after a packet.
  after : Pktbuf → Trace → Trace
  after pkt tr = transmitted i pkt success ∷ (if has_capture then captured true pkt ∷ tr else tr)

  sent-after : (pkt : Pktbuf) (tr : Trace) → sent (after pkt tr) ≡ sent tr ++ (view pkt ∷ [])
  unfolding after sent
  sent-after pkt tr = ground arith

  packet_tx-taken :
      (bus : Bus) (pkt : Pktbuf) (tr : Trace)
      → bus.state ≡ tx_enabled
      → packet_tx p has_capture i bus pkt tr ≡ (success, after pkt tr)
  unfolding packet_tx after
  packet_tx-taken bus pkt tr on =
      rw (ap is_enabled on, takes (if has_capture then captured true pkt ∷ tr else tr) i pkt)

  send_step-taken :
      (bus : Bus) {msg : List ℕ} (tr : Trace)
      → bus.tx_msg ≡ some msg
      → bus.state ≡ tx_enabled
      → let pkt = build_pkt bus msg in
        let (bus', tr') = tx_complete (next_bus bus pkt) (after pkt tr) in
        send_step p has_capture i bus tr ≡ (true, bus', tr')
  unfolding send_step after_tx
  send_step-taken bus {msg} tr e on = rw (
    next_tx_pkt-some bus e,
    send_step,
    packet_tx-taken (next_bus bus (build_pkt bus msg)) (build_pkt bus msg) tr on,
  )

  -- The bus and the trace when the binding has taken a packet.
  abbrev completed : Bus → List ℕ → Trace → Bus × Trace
  completed bus msg tr =
      tx_complete (next_bus bus (build_pkt bus msg)) (after (build_pkt bus msg) tr)

  send_loop-round :
      (fuel : ℕ) (bus : Bus) {msg : List ℕ} (tr : Trace)
      → bus.tx_msg ≡ some msg
      → bus.state ≡ tx_enabled
      → send_loop p has_capture i (suc fuel) bus tr
        ≡ send_loop p has_capture i fuel (completed bus msg tr).0 (completed bus msg tr).1
  send_loop-round fuel bus tr e on =
      send_loop-again p has_capture i fuel bus tr (ap is_some e) (ap is_enabled on)
        (ap (λ t. t.0) (send_step-taken bus tr e on))
      ∙ ap (λ t. send_loop p has_capture i fuel t.1 t.2) (send_step-taken bus tr e on)

  send_loop-idle :
      (fuel : ℕ) (bus : Bus) (tr : Trace)
      → bus.tx_msg ≡ none
      → send_loop p has_capture i (suc fuel) bus tr ≡ some (bus, tr)
  unfolding send_loop
  send_loop-idle fuel bus tr e = ground arith

  sent-packet :
      (bus : Bus) (msg : List ℕ) (tr : Trace)
      → IsSending bus msg
      → HasRoom bus
      → sent (after (build_pkt bus msg) tr) ≡ sent tr ++ (next_view bus msg ∷ [])
  sent-packet bus msg tr v r =
      sent-after (build_pkt bus msg) tr
      ∙ ap (λ (u : View). sent tr ++ (u ∷ [])) (view-build_pkt bus msg v r)

  abbrev pub Sent : Option (Bus × Trace) → Trace → List View → Type 0
  Sent out tr views =
      (r : Bus × Trace) × (out ≡ some r) × (r.0.tx_msg ≡ none) × (sent r.1 ≡ sent tr ++ views)

  -- The last packet frees the message, and the loop ends.
  sends_last :
      (fuel : ℕ) (bus : Bus) (msg : List ℕ) (tr : Trace)
      → bus.tx_msg ≡ some msg
      → IsSending bus msg
      → HasRoom bus
      → bus.state ≡ tx_enabled
      → leb (length (unsent bus msg)) (mtu bus) ≡ true
      → Sent (send_loop p has_capture i (suc (suc fuel)) bus tr) tr (next_view bus msg ∷ [])
  unfolding sent
  sends_last fuel bus msg tr e v r on h =
      let c = completed bus msg tr in
      let last =
        tx_complete-last bus msg (build_pkt bus msg) (after (build_pkt bus msg) tr) e v h in
      (
        c,
        send_loop-round (suc fuel) bus tr e on ∙ send_loop-idle fuel c.0 c.1 last.0,
        last.0,
        ap sent last.1 ∙ sent-packet bus msg tr v r,
      )

  next_view-flags :
      (bus : Bus) (msg : List ℕ) (b : Bool)
      → leb (length (unsent bus msg)) (mtu bus) ≡ b
      → next_view bus msg ≡ record (route bus) {
        flags = flag_bits (bus.tx_msgpos == 0) b;
        seq = bus.tx_seq;
        payload = take (mtu bus) (unsent bus msg);
      }
  next_view-flags bus msg b h =
      λ i. record (next_view bus msg) { flags = flag_bits (bus.tx_msgpos == 0) (h i) }

  -- What a packet that is not the last leaves is a message that is partly sent.
  advanced-IsSending :
      (bus : Bus) (msg : List ℕ) (pkt : Pktbuf)
      → IsSending bus msg
      → leb (length (unsent bus msg)) (mtu bus) ≡ false
      → IsSending (advanced bus pkt) msg
  advanced-IsSending bus msg pkt v h = ground (arith, unsent-length bus v)

  advanced-HasRoom :
      (bus : Bus) (msg : List ℕ) → HasRoom bus → HasRoom (advanced bus (build_pkt bus msg))
  advanced-HasRoom bus msg r = record {
    room = omega (arith, r.room, length-build_pkt bus msg);
    room_small = r.room_small;
    seq_small = omega arith;
    tag_small = r.tag_small;
  }

  -- The parts behind the next packet.
  abbrev rest_views : ℕ → Bus → List ℕ → List View
  rest_views fuel bus msg =
      let bus' = advanced bus (build_pkt bus msg) in
      fragments fuel (mtu bus') (route bus') (bus'.tx_msgpos == 0) bus'.tx_seq (unsent bus' msg)

  fragments-next :
      (fuel : ℕ) (bus : Bus) (msg : List ℕ)
      → IsSending bus msg
      → leb (length (unsent bus msg)) (mtu bus) ≡ false
      → fragments (suc fuel) (mtu bus) (route bus) (bus.tx_msgpos == 0) bus.tx_seq (unsent bus msg)
        ≡ next_view bus msg ∷ rest_views fuel bus msg
  fragments-next fuel bus msg v more = rw (
    fragments-more fuel (mtu bus) (route bus) (bus.tx_msgpos == 0) bus.tx_seq (unsent bus msg) more,
    ← next_view-flags bus msg false more,
    drop-drop msg bus.tx_msgpos (mtu bus),
    not_start,
  )
    where
      not_start : (bus.tx_msgpos + mtu bus == 0) ≡ false
      not_start = ne→==-false (bus.tx_msgpos + mtu bus) 0 (omega (arith, v.mtu))

  -- With fuel for every packet, a message that fits the binding's packets is sent whole: the loop
  -- ends with no message left, and what was transmitted is the parts of what was left to send.
  pub send_loop_sends :
      (fuel : ℕ) (bus : Bus) (msg : List ℕ) (tr : Trace)
      → bus.tx_msg ≡ some msg
      → IsSending bus msg
      → HasRoom bus
      → bus.state ≡ tx_enabled
      → length (unsent bus msg) < fuel
      → Sent
          (send_loop p has_capture i (suc fuel) bus tr)
          tr
          (fragments fuel (mtu bus) (route bus) (bus.tx_msgpos == 0) bus.tx_seq (unsent bus msg))
  send_loop_sends zero bus msg tr e v r on h = absurd (omega arith)
  send_loop_sends (suc fuel) bus msg tr e v r on h =
      elim (Bool-cases (leb (length (unsent bus msg)) (mtu bus))) [
        | inl last ↦
            rw
              (
                fragments-last fuel (mtu bus) (route bus) (bus.tx_msgpos == 0) bus.tx_seq
                    (unsent bus msg) last,
                ← next_view-flags bus msg true last,
              )
              (sends_last fuel bus msg tr e v r on last)
        | inr more ↦
            let bus' = advanced bus (build_pkt bus msg) in
            let ih =
              send_loop_sends fuel bus' msg (after (build_pkt bus msg) tr) e
                (advanced-IsSending bus msg (build_pkt bus msg) v more) (advanced-HasRoom bus msg r)
                on
                (omega (
                  arith,
                  length-drop (bus.tx_msgpos + mtu bus) msg,
                  length-drop bus.tx_msgpos msg,
                  leb-false→lt (length (unsent bus msg)) (mtu bus) more,
                  v.mtu,
                )) in
            (
              ih.0,
              send_loop-round (suc fuel) bus tr e on
                  ∙ ap (λ (c : Bus × Trace). send_loop p has_capture i (suc fuel) c.0 c.1)
                      (tx_complete-more bus msg (build_pkt bus msg) (after (build_pkt bus msg) tr) e
                        v r.seq_small more)
                  ∙ ih.1,
              ih.2,
              ih.3
                  ∙ ap (λ (l : List View). l ++ rest_views fuel bus msg)
                      (sent-packet bus msg tr v r)
                  ∙ append_assoc (sent tr) (next_view bus msg ∷ []) (rest_views fuel bus msg)
                  ∙ ap (λ (l : List View). sent tr ++ l) (sym (fragments-next fuel bus msg v more)),
            )
      ]
