-- ===== src/Core/Receive/Middle.antt =====
-- A packet in the middle of a message extends what its context holds.
use ps_libmctp_win.Prelude.{
  ℕ, ◌+◌, ◌%◌, ◌≤◌, ◌≡◌, ◌∙◌, ap, sym, refl, true, some, List, ◌++◌, length, take, set, arith,
  write_at, get_elem?-set_self, lt_length-get_elem?, ap₂, length-append,
}
use ps_libmctp_win.Packet.{Pktbuf}
use ps_libmctp_win.Header.{seq_of}
use ps_libmctp_win.Core.State.{Bus, MsgCtx, Platform, World, done}
use ps_libmctp_win.Core.Transmit.Fragments.{View, view}
use ps_libmctp_win.Core.Reassembly.{is_ctx_for, ctx_add_pkt, pkt_len}
use ps_libmctp_win.Core.Reassembly.Bounds.{
  IsHolding, IsPkt, payload, length-payload, extended, ctx_add_pkt-room,
}
use ps_libmctp_win.Core.Reassembly.Lookup.{find_from-set}
use ps_libmctp_win.Core.Receive.{bus_rx, rx_middle}
use ps_libmctp_win.Core.Receive.Steps.{hdr_of, noted, rx_next-found, rx_middle-adds}
use ps_libmctp_win.Core.Receive.Views.{
  deliveries, IsReceiving, reads, size-view, payload-carried, deliveries-noted, rx_switch-middle,
  accepted, looked_up,
}

module _ (p : Platform) (i : ℕ) (bus : Bus) (r : View) (most : ℕ) where
  -- A packet in the middle of the message.
  pub middle :
      {seq k : ℕ} {c : MsgCtx} {bytes pre part : List ℕ} (pkt : Pktbuf) (w : World)
      → IsReceiving i bus r most seq k c bytes pre w
      → IsPkt pkt
      → view pkt ≡ record r { flags = 0; seq = seq; payload = part }
      → length part ≡ most
      → length pre + most ≤ c.buf_alloc_size
      → (c' : MsgCtx) × (bytes' : List ℕ) × (w' : World) × (bus_rx p i pkt w ≡ done tt w')
        × IsReceiving i bus r most ((seq + 1) % 4) k c' bytes' (pre ++ part) w'
        × (deliveries w'.trace ≡ deliveries w.trace)
        × (c'.buf_alloc_size ≡ c.buf_alloc_size)
  middle {seq} {k} {c} {bytes} {pre} {part} pkt w h v e full room = (
    c',
    write_at bytes c.buf_size (payload pkt),
    w',
    run,
    receiving,
    deliveries-noted pkt w,
    refl,
  )
    where
      carried : payload pkt ≡ part
      carried = payload-carried pkt v e

      grown : pkt_len pkt ≡ length part
      grown = sym (length-payload pkt v) ∙ ap (λ (l : List ℕ). length l) carried

      fits : c.buf_size + pkt_len pkt ≤ c.buf_alloc_size
      fits = omega (arith, h.filled, grown, full, room)

      added :
          (ctx_add_pkt c pkt ≡ some (extended c bytes pkt))
          × IsHolding (extended c bytes pkt) (write_at bytes c.buf_size (payload pkt))
          × (take (c.buf_size + pkt_len pkt) (write_at bytes c.buf_size (payload pkt))
              ≡ take c.buf_size bytes ++ payload pkt)
      added = ctx_add_pkt-room c bytes pkt h.holding v fits

      c' : MsgCtx
      c' = record (extended c bytes pkt) { last_seq = seq_of (hdr_of pkt).flags_seq_tag }

      w' : World
      w' = record (noted pkt w) { mctp = record (w.mctp) { msg_ctxs = set w.mctp.msg_ctxs k c' } }

      run : bus_rx p i pkt w ≡ done tt w'
      run =
          accepted p i bus r most pkt w h v e refl refl
          ∙ rx_switch-middle p i bus r most pkt (noted pkt w) (reads pkt e).4
          ∙ rx_next-found p i bus (λ b k c. rx_middle p b (hdr_of pkt) pkt k c) (hdr_of pkt) k c
              (noted pkt w) h.bus_at (looked_up p i bus r most pkt w h e) h.at
          ∙ rx_middle-adds p i bus (hdr_of pkt) pkt k c (extended c bytes pkt) (noted pkt w)
              (h.next ∙ sym (reads pkt e).5)
              (size-view pkt v e ∙ ap (λ n. n + 4) full ∙ sym h.fragment) added.0

      matching : is_ctx_for r.src r.dest r.tag c' ≡ true
      matching = ground (arith, h.src, h.dest, h.tag)

      receiving :
          IsReceiving i bus r most
            ((seq + 1) % 4)
            k
            c'
            (write_at bytes c.buf_size (payload pkt))
            (pre ++ part)
            w'
      receiving = record {
        bus_at = h.bus_at;
        policy = h.policy;
        has_rx = h.has_rx;
        has_mctp = h.has_mctp;
        from = h.from;
        local = h.local;
        found = find_from-set (is_ctx_for r.src r.dest r.tag) k w.mctp.msg_ctxs c' h.found matching;
        at = get_elem?-set_self w.mctp.msg_ctxs k c' (lt_length-get_elem? w.mctp.msg_ctxs k h.at);
        holding = record {
          block = added.1.block;
          sized = added.1.sized;
          within = added.1.within;
          small = added.1.small;
        };
        received = added.2 ∙ ap₂ ◌++◌ h.received carried;
        filled = omega (arith, h.filled, grown, length-append pre part);
        fragment = h.fragment;
        next = ap (λ s. (s + 1) % 4) (reads pkt e).5;
        src = h.src;
        dest = h.dest;
        tag = h.tag;
      }
