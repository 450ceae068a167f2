-- ===== src/Core/Receive/Whole.antt =====
-- A whole message, from its first packet on.
use ps_libmctp_win.Prelude.{
  write_at-whole, ℕ, zero, suc, ◌≤◌, ◌<◌, ◌≡◌, inl, inr, ◌∙◌, ap, sym, subst, refl, Bool, true,
  some, List, [], ◌∷◌, ◌++◌, length, take, drop, slice, arith, Bool-cases, leb, map, All,
  leb-false→lt, length-take, length-drop, take-append-drop, sub_size, ap₂,
}
use ps_libmctp_win.Packet.{Pktbuf, data_off}
use ps_libmctp_win.Header.{Hdr, tag_owner_of, tag_of, flags_of}
use ps_libmctp_win.Core.State.{Bus, Platform, World, Trace, done, freed, delivered, emit, bind-done}
use ps_libmctp_win.Core.Transmit.Fragments.{View, view}
use ps_libmctp_win.Core.Transmit.Parts.{fragments}
use ps_libmctp_win.Core.Reassembly.Bounds.{IsPkt}
use ps_libmctp_win.Core.Receive.{bus_rx, rx, rx_switch, dest_is_local}
use ps_libmctp_win.Core.Receive.Steps.{
  hdr_of, noted, IsPlain, answered, bus_rx-accepted, rx-delivers,
}
use ps_libmctp_win.Core.Receive.Views.{
  deliveries, rx_all, reads, payload-carried, deliveries-noted, deliveries-delivered,
}
use ps_libmctp_win.Core.Receive.{rx_single}
use ps_libmctp_win.Core.State.{msg_dup, msg_alloc, allocated}
use ps_libmctp_win.Core.Receive.Message.{
  map-nil, head-eq, tail-eq, fragments-end, fragments-next, fragments-ne_nil, rx_all-one,
  rx_all-more, Delivers-rest,
}
use ps_libmctp_win.Core.Receive.Start.{Grants, IsIdle, first}

deliveries-allocated : (n : ℕ) (tr : Trace) → deliveries (allocated n ∷ tr) ≡ deliveries tr
unfolding deliveries
deliveries-allocated n tr = refl

module _ (p : Platform) (grants : Grants p) where
  pub msg_alloc-done :
      (n : ℕ) (w : World) (block : List ℕ)
      → p.msg_alloc w.trace n ≡ some block
      → msg_alloc p n w ≡ done (some block) (record w { trace = allocated n ∷ w.trace })
  unfolding msg_alloc
  msg_alloc-done n w block e = rw (e, msg_alloc)

  pub msg_dup-done :
      (msg : List ℕ) (w : World)
      → msg_dup p msg w ≡ done (some msg) (record w { trace = allocated (length msg) ∷ w.trace })
  unfolding msg_dup
  msg_dup-done msg w =
      let g = grants w.trace (length msg) in
      bind-done (msg_alloc p (length msg)) _ w (msg_alloc-done (length msg) w g.0 g.1)
      ∙ ap (λ (l : List ℕ). done (some l) (record w { trace = allocated (length msg) ∷ w.trace }))
          (write_at-whole g.0 msg g.2)

  pub rx_single-passes :
      (i : ℕ) (hdr : Hdr) (pkt : Pktbuf) (w : World) {w' : World}
      → let part =
          slice pkt.bytes (data_off pkt) (sub_size (sub_size pkt.end pkt.mctp_hdr_off) 4) in
        rx p i hdr.src hdr.dest
            (tag_owner_of hdr.flags_seq_tag)
            (tag_of hdr.flags_seq_tag)
            part
            (record w { trace = allocated (length part) ∷ w.trace })
          ≡ done tt w'
        → rx_single p i hdr pkt w ≡ done tt (record w' { trace = freed ∷ w'.trace })
  unfolding rx_single
  rx_single-passes i hdr pkt w e =
      let part = slice pkt.bytes (data_off pkt) (sub_size (sub_size pkt.end pkt.mctp_hdr_off) 4) in
      bind-done (msg_dup p part) _ w (msg_dup-done part w)
      ∙ bind-done
          (rx p i hdr.src hdr.dest (tag_owner_of hdr.flags_seq_tag) (tag_of hdr.flags_seq_tag) part)
          (λ _. emit freed) (record w { trace = allocated (length part) ∷ w.trace }) e

module _ (p : Platform) (grants : Grants p) (i : ℕ) (bus : Bus) (r : View) (most : ℕ) where
  rx_switch-single :
      (pkt : Pktbuf) (w : World)
      → flags_of (hdr_of pkt).flags_seq_tag ≡ 192
      → rx_switch p i (hdr_of pkt) pkt w ≡ rx_single p i (hdr_of pkt) pkt w
  unfolding rx_switch
  rx_switch-single pkt w e = rw e

  -- The messages that are delivered by these packets.
  abbrev pub DeliversMessage : List ℕ → List Pktbuf → World → Type 0
  DeliversMessage msg pkts w =
      (w' : World) × (rx_all p i pkts w ≡ done tt w')
      × (deliveries w'.trace ≡ deliveries w.trace ++ ((r.src, r.tag_owner, r.tag, msg) ∷ []))

  -- A message in one packet.
  pub single :
      {seq k : ℕ} {msg : List ℕ} (pkt : Pktbuf) (w : World)
      → IsIdle i bus r k w
      → IsPkt pkt
      → view pkt ≡ record r { flags = 192; seq = seq; payload = msg }
      → IsPlain msg
      → (w' : World) × (bus_rx p i pkt w ≡ done tt w')
        × (deliveries w'.trace ≡ deliveries w.trace ++ ((r.src, r.tag_owner, r.tag, msg) ∷ []))
  single {seq} {k} {msg} pkt w h v e plain = (w', run, delivery)
    where
      hdr : Hdr
      hdr = hdr_of pkt

      to : Bool
      to = tag_owner_of hdr.flags_seq_tag

      tag : ℕ
      tag = tag_of hdr.flags_seq_tag

      part : List ℕ
      part = slice pkt.bytes (data_off pkt) (sub_size (sub_size pkt.end pkt.mctp_hdr_off) 4)

      carried : part ≡ msg
      carried = ap (slice pkt.bytes (data_off pkt)) (omega arith) ∙ payload-carried pkt v e

      w1 : World
      w1 = record (noted pkt w) { trace = allocated (length part) ∷ (noted pkt w).trace }

      w' : World
      w' = record w1 {
        mctp = answered to hdr.src hdr.dest tag w1.mctp;
        trace = freed ∷ delivered hdr.src to tag part ∷ w1.trace;
      }

      local : dest_is_local bus hdr.dest ≡ true
      local = rw ((reads pkt e).1) h.local

      run : bus_rx p i pkt w ≡ done tt w'
      run =
          bus_rx-accepted p i bus pkt w
            record {
              bus_at = h.bus_at;
              policy = h.policy;
              from = λ q. h.from (sym (reads pkt e).0 ∙ q);
              local = local;
            }
            v
          ∙ rx_switch-single pkt (noted pkt w) (reads pkt e).4
          ∙ rx_single-passes p grants i hdr pkt (noted pkt w) (
              rx-delivers p i bus hdr.src hdr.dest to tag part w1 h.bus_at h.policy local
                (subst IsPlain (sym carried) plain) h.has_rx)

      delivery : deliveries w'.trace ≡ deliveries w.trace ++ ((r.src, r.tag_owner, r.tag, msg) ∷ [])
      delivery =
          deliveries-delivered hdr.src to tag part w1.trace
          ∙ ap₂ (λ l x. l ++ (x ∷ []))
              (deliveries-allocated (length part) (noted pkt w).trace ∙ deliveries-noted pkt w)
              (λ j. ((reads pkt e).0 j, (reads pkt e).2 j, (reads pkt e).3 j, carried j))

  -- The allocator grants every request, and an endpoint with a message callback, on a bus that is
  -- linked to its instance, has a free context and none for this message. Then the packets that a
  -- message is cut into, with at least one byte of payload in each full one, received in order,
  -- come to exactly one delivery, of the whole message with its source, tag owner bit and tag. The
  -- source is not the broadcast address, the message is for this endpoint, it is at most as long
  -- as the largest message, and it is no control request.
  pub delivers_message :
      (n : ℕ) (pkts : List Pktbuf) (seq : ℕ) {k : ℕ} (msg : List ℕ) (w : World)
      → 0 < most
      → map view pkts ≡ fragments n most r true seq msg
      → All IsPkt pkts
      → IsIdle i bus r k w
      → length msg < n
      → length msg ≤ w.mctp.max_message_size
      → IsPlain msg
      → DeliversMessage msg pkts w
  delivers_message zero pkts seq msg w pos e vs h fuel room plain = absurd (omega arith)
  delivers_message (suc n) [] seq msg w pos e vs h fuel room plain =
      absurd (fragments-ne_nil n most r true seq msg (sym e))
  delivers_message (suc n) (pkt ∷ pkts) seq msg w pos e vs h fuel room plain =
      elim (Bool-cases (leb (length msg) most)) [
        | inl last ↦
            let split = e ∙ fragments-end n most r true seq msg last in
            let s = single pkt w h vs.0 (head-eq split) plain in
            (s.0, rx_all-one p i bus r most pkt pkts w (map-nil view pkts (tail-eq split)) s.1, s.2)
        | inr more ↦
            let split = e ∙ fragments-next n most r true seq msg more in
            let longer = leb-false→lt (length msg) most more in
            let full : length (take most msg) ≡ most =
              omega (arith, length-take most msg, longer) in
            let m = first p grants i bus r most pkt w h vs.0 (head-eq split) full (omega arith) in
            let whole = take-append-drop most msg in
            let ih =
              Delivers-rest p i bus r most n pkts (drop most msg) m.2 pos (tail-eq split) vs.1 m.4
                (omega (arith, length-drop most msg, longer))
                (omega (arith, m.6, full, length-drop most msg, longer))
                (subst IsPlain (sym whole) plain) in
            (
              ih.0,
              rx_all-more p i bus r most pkt pkts w m.3 ∙ ih.1,
              ih.2 ∙ ap₂ (λ l x. l ++ ((r.src, r.tag_owner, r.tag, x) ∷ [])) m.5 whole,
            )
      ]
