-- ===== src/Core/Receive/Final.antt =====
-- The last packet of a message delivers it and frees its context.
use ps_libmctp_win.Prelude.{
  ℕ, ◌+◌, ◌≤◌, ◌≡◌, ◌∙◌, ap, sym, subst, refl, Bool, none, some, List, [], ◌∷◌, ◌++◌, length, take,
  get_elem?, set, arith, write_at, get_elem?-set_self, lt_length-get_elem?, ap₂, length-set,
}
use ps_libmctp_win.Packet.{Pktbuf}
use ps_libmctp_win.Header.{tag_owner_of, tag_of}
use ps_libmctp_win.Core.State.{Bus, MsgCtx, Platform, World, done, freed, delivered, bind-done}
use ps_libmctp_win.Core.Transmit.Fragments.{View, view}
use ps_libmctp_win.Core.Reassembly.{ctx_drop, ctx_add_pkt, pkt_len}
use ps_libmctp_win.Core.Reassembly.Bounds.{
  IsHolding, IsPkt, payload, length-payload, extended, ctx_add_pkt-room,
}
use ps_libmctp_win.Core.Receive.{bus_rx, rx, rx_end, ctx_msg}
use ps_libmctp_win.Core.Receive.Steps.{
  hdr_of, noted, IsPlain, answered, rx-delivers, rx_next-found, rx_end-adds, ctx_drop-done,
}
use ps_libmctp_win.Core.Receive.Views.{
  deliveries, IsReceiving, IsFreed, reads, size-view, payload-carried, deliveries-noted,
  deliveries-delivered, msg_ctxs-answered, rx_switch-end, accepted, looked_up,
}

module _ (p : Platform) (i : ℕ) (bus : Bus) (r : View) (most : ℕ) where
  -- The last packet of the message.
  pub final :
      {seq k : ℕ} {c : MsgCtx} {bytes pre part : List ℕ} (pkt : Pktbuf) (w : World)
      → IsReceiving i bus r most seq k c bytes pre w
      → IsPkt pkt
      → view pkt ≡ record r { flags = 64; seq = seq; payload = part }
      → length part ≤ most
      → length pre + length part ≤ c.buf_alloc_size
      → IsPlain (pre ++ part)
      → (w' : World) × (bus_rx p i pkt w ≡ done tt w')
        × (deliveries w'.trace
            ≡ deliveries w.trace ++ ((r.src, r.tag_owner, r.tag, pre ++ part) ∷ []))
        × IsFreed k w'
  final {seq} {k} {c} {bytes} {pre} {part} pkt w h v e small room plain =
      (w', run, delivery, (record c' { buf = none }, emptied, refl))
    where
      c' : MsgCtx
      c' = extended c bytes pkt

      to : Bool
      to = tag_owner_of (hdr_of pkt).flags_seq_tag

      tag : ℕ
      tag = tag_of (hdr_of pkt).flags_seq_tag

      w1 : World
      w1 = record (noted pkt w) { mctp = record (w.mctp) { msg_ctxs = set w.mctp.msg_ctxs k c' } }

      w2 : World
      w2 = record w1 {
        mctp = answered to c.src c.dest tag w1.mctp;
        trace = delivered c.src to tag (ctx_msg c') ∷ w1.trace;
      }

      w' : World
      w' = record w2 {
        mctp = record (w2.mctp) { msg_ctxs = set w2.mctp.msg_ctxs k (record c' { buf = none }) };
        trace = freed ∷ w2.trace;
      }

      carried : payload pkt ≡ part
      carried = payload-carried pkt v e

      grown : pkt_len pkt ≡ length part
      grown = sym (length-payload pkt v) ∙ ap (λ (l : List ℕ). length l) carried

      added :
          (ctx_add_pkt c pkt ≡ some (extended c bytes pkt))
          × IsHolding (extended c bytes pkt) (write_at bytes c.buf_size (payload pkt))
          × (take (c.buf_size + pkt_len pkt) (write_at bytes c.buf_size (payload pkt))
              ≡ take c.buf_size bytes ++ payload pkt)
      added = ctx_add_pkt-room c bytes pkt h.holding v (omega (arith, h.filled, grown, room))

      whole : ctx_msg c' ≡ pre ++ part
      whole = added.2 ∙ ap₂ ◌++◌ h.received carried

      run : bus_rx p i pkt w ≡ done tt w'
      run =
          accepted p i bus r most pkt w h v e refl refl
          ∙ rx_switch-end p i bus r most pkt (noted pkt w) (reads pkt e).4
          ∙ rx_next-found p i bus (λ b k c. rx_end p i b (hdr_of pkt) pkt k c) (hdr_of pkt) k c
              (noted pkt w) h.bus_at (looked_up p i bus r most pkt w h e) h.at
          ∙ rx_end-adds p i bus (hdr_of pkt) pkt k c c' (noted pkt w) (h.next ∙ sym (reads pkt e).5)
              (omega (arith, size-view pkt v e, h.fragment, small)) added.0
          ∙ bind-done (rx p i c.src c.dest to tag (ctx_msg c')) (λ _. ctx_drop bus k c') w1
              (rx-delivers p i bus c.src c.dest to tag (ctx_msg c') w1 h.bus_at h.policy
                (rw h.dest h.local) (subst IsPlain (sym whole) plain) h.has_rx)
          ∙ ctx_drop-done bus k c' w2 h.has_mctp

      delivery :
          deliveries w'.trace
          ≡ deliveries w.trace ++ ((r.src, r.tag_owner, r.tag, pre ++ part) ∷ [])
      delivery =
          deliveries-delivered c.src to tag (ctx_msg c') (noted pkt w).trace
          ∙ ap₂ (λ l x. l ++ (x ∷ [])) (deliveries-noted pkt w)
              (λ j. (h.src j, (reads pkt e).2 j, (reads pkt e).3 j, whole j))

      emptied : get_elem? w'.mctp.msg_ctxs k ≡ some (record c' { buf = none })
      emptied =
          get_elem?-set_self w2.mctp.msg_ctxs k (record c' { buf = none })
            (rw (msg_ctxs-answered to c.src c.dest tag w1.mctp, length-set w.mctp.msg_ctxs k c')
              (lt_length-get_elem? w.mctp.msg_ctxs k h.at))
