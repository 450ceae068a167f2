-- ===== src/Core/Transmit/Progress.antt =====
-- The loop of `mctp_send_tx_queue` ends: each round moves on in the message or stops.
use ps_libmctp_win.Prelude.{
  is_some, ℕ, zero, suc, ◌+◌, ◌-◌, ◌≤◌, ◌<◌, min, ◌≡◌, ◌⊎◌, inl, inr, refl, ap, ◌∙◌, sym, subst,
  Bool, true, false, Option, none, some, List, length, arith, size_mod, Bool-cases, Option-cases,
}
use ps_libmctp_win.Packet.{Pktbuf}
use ps_libmctp_win.Core.State.{Rc, Bus, Platform, Trace, success, ebusy}
use ps_libmctp_win.Core.Transmit.{
  next_payload, next_tx_pkt, build_pkt, packet_tx, tx_complete, after_tx, send_step, send_loop,
  is_some, is_enabled,
}

-- A bus that holds a message of `len` bytes has sent a proper part of it, or nothing yet.
pub record IsSending (bus : Bus) (msg : List ℕ) : Type 0 where
  pub whole : bus.tx_msglen ≡ length msg
  pub small : bus.tx_msglen < size_mod
  pub part : (bus.tx_msgpos < bus.tx_msglen) ⊎ (bus.tx_msgpos ≡ 0)
  pub mtu : 68 ≤ bus.binding.pkt_size
  pub mtu_small : bus.binding.pkt_size < size_mod

abbrev pub IsReadyWith : Option (List ℕ) → Bus → Type 0
IsReadyWith none bus = Unit
IsReadyWith (some msg) bus = IsSending bus msg

-- Between two calls: no message is held, or one that is partly sent.
abbrev pub IsReady : Bus → Type 0
IsReady bus = IsReadyWith bus.tx_msg bus

IsReady-held : (bus : Bus) {msg : List ℕ} → bus.tx_msg ≡ some msg → IsSending bus msg → IsReady bus
IsReady-held bus e v = subst (λ o. IsReadyWith o bus) (sym e) v

pub IsSending-held :
    (bus : Bus) {msg : List ℕ} → bus.tx_msg ≡ some msg → IsReady bus → IsSending bus msg
IsSending-held bus e v = subst (λ o. IsReadyWith o bus) e v

-- The payload of a packet: what is left of the message, up to the size that a packet takes.
pub next_payload_lem :
    {bus : Bus} {msg : List ℕ}
    → IsSending bus msg
    → next_payload bus ≡ min (bus.tx_msglen - bus.tx_msgpos) (bus.binding.pkt_size - 4)
unfolding next_payload
next_payload_lem v = ground arith

abbrev pub rounds_with : Option (List ℕ) → Bus → ℕ
rounds_with none bus = 0
rounds_with (some msg) bus = bus.tx_msglen - bus.tx_msgpos + 1

-- A bound on the rounds that the loop still makes.
abbrev pub rounds_left : Bus → ℕ
rounds_left bus = rounds_with bus.tx_msg bus

rounds_left-some :
    (bus : Bus) {msg : List ℕ}
    → bus.tx_msg ≡ some msg
    → rounds_left bus ≡ bus.tx_msglen - bus.tx_msgpos + 1
rounds_left-some bus e = ap (λ o. rounds_with o bus) e

-- `mctp_tx_complete` after a packet.
tx_complete-IsReady :
    (bus : Bus) (msg : List ℕ) (tr : Trace)
    → bus.tx_msg ≡ some msg
    → IsSending bus msg
    → bus.tx_pktlen ≡ next_payload bus
    → let (bus', tr') = tx_complete bus tr in
      IsReady bus' × (rounds_left bus' ≤ bus.tx_msglen - bus.tx_msgpos)
unfolding tx_complete
tx_complete-IsReady bus msg tr e v l = ground (arith, next_payload_lem v)

-- What the loop does with an answer of the binding: keep the packet, or count it as sent.
pub after_tx-cases :
    (rc : Rc) (bus : Bus) (tr : Trace)
    → (after_tx rc bus tr ≡ (false, bus, tr))
      ⊎ ((again : Bool) × (after_tx rc bus tr
            ≡ (again, (tx_complete bus tr).0, (tx_complete bus tr).1)))
unfolding after_tx
after_tx-cases success bus tr = inr (true, refl)
after_tx-cases ebusy bus tr = inl refl
after_tx-cases _ bus tr = inr (false, refl)

-- The state, the sizes, the link and the address that a transmission leaves alone.
abbrev pub Keeps : Bus → Bus → Type 0
Keeps bus bus' =
    (bus'.state ≡ bus.state)
    × (bus'.binding.pkt_size ≡ bus.binding.pkt_size)
    × (bus'.has_mctp ≡ bus.has_mctp)
    × (bus'.eid ≡ bus.eid)

abbrev pub next_bus : Bus → Pktbuf → Bus
next_bus bus pkt = record bus {
  tx_pktlen = next_payload bus;
  binding = record bus.binding { tx_storage = pkt.bytes };
}

pub next_tx_pkt-some :
    (bus : Bus) {msg : List ℕ}
    → bus.tx_msg ≡ some msg
    → next_tx_pkt bus ≡ some (build_pkt bus msg, next_bus bus (build_pkt bus msg))
unfolding next_tx_pkt
next_tx_pkt-some bus e = rw e

tx_complete-Keeps : (bus : Bus) (tr : Trace) → Keeps bus (tx_complete bus tr).0
unfolding tx_complete
tx_complete-Keeps bus tr = ground arith

module _ (p : Platform) (has_capture : Bool) (i : ℕ) where
  abbrev Advances : Bus → Bool × Bus × Trace → Type 0
  Advances bus (again, bus', tr') =
      IsReady bus'
      × Keeps bus bus'
      × (again ≡ true → rounds_left bus' ≤ bus.tx_msglen - bus.tx_msgpos)

  after_tx-Advances :
      (rc : Rc) (bus : Bus) (msg : List ℕ) (tr : Trace)
      → bus.tx_msg ≡ some msg
      → IsSending bus msg
      → bus.tx_pktlen ≡ next_payload bus
      → Advances bus (after_tx rc bus tr)
  after_tx-Advances rc bus msg tr e v l = elim (after_tx-cases rc bus tr) [
    | inl kept ↦ rw kept (IsReady-held bus e v, (refl, refl, refl, refl), λ h. cc)
    | inr (again, sent) ↦ rw sent (
      (tx_complete-IsReady bus msg tr e v l).0,
      tx_complete-Keeps bus tr,
      λ h. (tx_complete-IsReady bus msg tr e v l).1,
    )
  ]

  -- One round for a bus with a message.
  pub send_step-Advances :
      (bus : Bus) (msg : List ℕ) (tr : Trace)
      → bus.tx_msg ≡ some msg
      → IsSending bus msg
      → Advances bus (send_step p has_capture i bus tr)
  unfolding send_step next_payload
  send_step-Advances bus msg tr e v =
      rw (next_tx_pkt-some bus e, send_step)
        (after_tx-Advances (packet_tx p has_capture i bus' pkt tr).0 bus' msg
          (packet_tx p has_capture i bus' pkt tr).1 e v' paid)
    where
      pkt : Pktbuf
      pkt = build_pkt bus msg

      bus' : Bus
      bus' = next_bus bus pkt

      v' : IsSending bus' msg
      v' = record {
        whole = v.whole;
        small = v.small;
        part = v.part;
        mtu = v.mtu;
        mtu_small = v.mtu_small;
      }

      paid : bus'.tx_pktlen ≡ next_payload bus'
      paid = refl

  -- A round that asks for another one.
  pub send_loop-again :
      (fuel : ℕ) (bus : Bus) (tr : Trace)
      → is_some bus.tx_msg ≡ true
      → is_enabled bus.state ≡ true
      → (send_step p has_capture i bus tr).0 ≡ true
      → send_loop p has_capture i (suc fuel) bus tr
        ≡ send_loop p has_capture i fuel
            (send_step p has_capture i bus tr).1
            (send_step p has_capture i bus tr).2
  unfolding send_loop
  send_loop-again fuel bus tr held on again = rw (held, on, again)

  -- For a bus between two calls, and with more fuel than the bytes left of its message plus one,
  -- the loop of `mctp_send_tx_queue` ends, whatever the binding answers, and leaves a bus that
  -- holds no message or one that is partly sent, in the same state, with the same packet
  -- size, link to its instance and address.
  pub send_loop_total :
      (fuel : ℕ) (bus : Bus) (tr : Trace)
      → IsReady bus
      → rounds_left bus < fuel
      → (out : Bus × Trace) × (send_loop p has_capture i fuel bus tr ≡ some out)
        × IsReady out.0
        × Keeps bus out.0
  unfolding send_loop
  send_loop_total zero bus tr v h = absurd (omega arith)
  send_loop_total (suc fuel) bus tr v h = elim (Option-cases bus.tx_msg) [
    | inl empty ↦ ((bus, tr), ground arith, v, (refl, refl, refl, refl))
    | inr (msg, e) ↦ elim (Bool-cases (is_enabled bus.state)) [
      | inl on ↦ elim (Bool-cases (send_step p has_capture i bus tr).0) [
        | inl again ↦
            let s = send_step p has_capture i bus tr in
            let adv = send_step-Advances bus msg tr e (IsSending-held bus e v) in
            let ih =
              send_loop_total fuel s.1 s.2 adv.0
                (omega (arith, adv.2 again, rounds_left-some bus e)) in
            (ih.0, send_loop-again fuel bus tr (ap is_some e) on again ∙ ih.1, ih.2, ground arith)
        | inr stop ↦ (
          ((send_step p has_capture i bus tr).1, (send_step p has_capture i bus tr).2),
          ground arith,
          (send_step-Advances bus msg tr e (IsSending-held bus e v)).0,
          (send_step-Advances bus msg tr e (IsSending-held bus e v)).1,
        )
      ]
      | inr off ↦ ((bus, tr), ground arith, v, (refl, refl, refl, refl))
    ]
  ]
