-- ===== src/Core/Receive/Start.antt =====
-- The first packet of a message starts its context.
use ps_libmctp_win.Prelude.{
  ℕ, ◌+◌, ◌%◌, ◌≤◌, ◌<◌, ◌≡◌, ◌≢◌, ◌∙◌, ap, sym, refl, true, Option, none, some, List, ◌∷◌, length,
  take, get_elem?, set, arith, write_at, get_elem?-set_self, is_some, lt_length-get_elem?,
  length-set,
}
use ps_libmctp_win.Prelude.{size_mod}
use ps_libmctp_win.Core.State.{allocated, msg_alloc}
use ps_libmctp_win.Core.Reassembly.{find_from, is_unused, fill_ctx, ctx_create}
use ps_libmctp_win.Core.Receive.{start_ctx, rx_start, pick_ctx, take_free, make_ctx, begin_ctx}
use ps_libmctp_win.Header.{Hdr}
use ps_libmctp_win.Packet.{Pktbuf, pktbuf_size}
use ps_libmctp_win.Header.{tag_of, flags_of, seq_of}
use ps_libmctp_win.Core.State.{
  Bus, MsgCtx, endpoint, Platform, World, Trace, done, bind-done, get_bus-bind, ◌>>=◌,
}
use ps_libmctp_win.Core.Transmit.Fragments.{View, view}
use ps_libmctp_win.Core.Reassembly.{ctx_lookup, is_ctx_for, put_ctx, ctx_add_pkt, pkt_len}
use ps_libmctp_win.Core.Reassembly.Bounds.{
  IsHolding, IsPkt, payload, length-payload, extended, ctx_add_pkt-room,
}
use ps_libmctp_win.Core.Reassembly.Lookup.{find_from-set, find_from-set_new, find_from-some}
use ps_libmctp_win.Core.Receive.{bus_rx, rx_switch, dest_is_local}
use ps_libmctp_win.Core.Receive.Steps.{hdr_of, noted, bus_rx-accepted}
use ps_libmctp_win.Core.Receive.Views.{
  deliveries, IsReceiving, reads, size-view, payload-carried, deliveries-noted,
}

-- The allocator grants every request, with a block of the size that was asked for.
abbrev pub Grants : Platform → Type 0
Grants p =
    (tr : Trace) (n : ℕ) → (block : List ℕ) × (p.msg_alloc tr n ≡ some block) × (length block ≡ n)

-- An endpoint that has no context for the message yet, and a free one, slot `k`.
pub record IsIdle (i : ℕ) (bus : Bus) (r : View) (k : ℕ) (w : World) : Type 0 where
  pub bus_at : get_elem? w.mctp.busses i ≡ some bus
  pub policy : w.mctp.route_policy ≡ endpoint
  pub has_rx : w.mctp.has_message_rx ≡ true
  pub has_mctp : bus.has_mctp ≡ true
  pub from : r.src ≢ 0xff
  pub local : dest_is_local bus r.dest ≡ true
  pub absent : ctx_lookup r.src r.dest r.tag w.mctp.msg_ctxs ≡ none
  pub free : find_from is_unused 0 w.mctp.msg_ctxs ≡ some k
  pub small : w.mctp.max_message_size < size_mod

module _ (p : Platform) where
  created : ℕ → ℕ → ℕ → ℕ → MsgCtx → List ℕ → World → World
  created src dest tag k c block w =
      let c' = fill_ctx src dest tag w.mctp.max_message_size (some block) c in
      record w {
        mctp = record (w.mctp) { msg_ctxs = set w.mctp.msg_ctxs k c' };
        trace = allocated w.mctp.max_message_size ∷ w.trace;
      }

  ctx_create-done :
      (src dest tag k : ℕ) (c : MsgCtx) (block : List ℕ) (w : World)
      → p.msg_alloc w.trace w.mctp.max_message_size ≡ some block
      → ctx_create p src dest tag k c w
        ≡ done
            (some (fill_ctx src dest tag w.mctp.max_message_size (some block) c))
            (created src dest tag k c block w)
  unfolding ctx_create msg_alloc created
  ctx_create-done src dest tag k c block w granted = ground arith

  -- The context for a new message.
  start_ctx-new :
      (hdr : Hdr) (k : ℕ) (c : MsgCtx) (block : List ℕ) (w : World)
      → ctx_lookup hdr.src hdr.dest (tag_of hdr.flags_seq_tag) w.mctp.msg_ctxs ≡ none
      → find_from is_unused 0 w.mctp.msg_ctxs ≡ some k
      → get_elem? w.mctp.msg_ctxs k ≡ some c
      → p.msg_alloc w.trace w.mctp.max_message_size ≡ some block
      → start_ctx p hdr w
        ≡ done
            (some (
              k,
              fill_ctx hdr.src hdr.dest
                  (tag_of hdr.flags_seq_tag)
                  w.mctp.max_message_size
                  (some block)
                  c,
            ))
            (created hdr.src hdr.dest (tag_of hdr.flags_seq_tag) k c block w)
  unfolding start_ctx pick_ctx take_free make_ctx
  start_ctx-new hdr k c block w absent free at granted = rw (
    absent,
    free,
    at,
    ctx_create-done hdr.src hdr.dest (tag_of hdr.flags_seq_tag) k c block w granted,
    ◌>>=◌,
  )

module _ (p : Platform) (grants : Grants p) (i : ℕ) (bus : Bus) (r : View) (most : ℕ) where
  rx_switch-start :
      (pkt : Pktbuf) (w : World)
      → flags_of (hdr_of pkt).flags_seq_tag ≡ 128
      → rx_switch p i (hdr_of pkt) pkt w ≡ rx_start p i (hdr_of pkt) pkt w
  unfolding rx_switch
  rx_switch-start pkt w e = rw e

  rx_start-begins :
      (hdr : Hdr) (pkt : Pktbuf) (w : World) {started : Option (ℕ × MsgCtx)} {w' : World}
      → get_elem? w.mctp.busses i ≡ some bus
      → start_ctx p hdr w ≡ done started w'
      → rx_start p i hdr pkt w ≡ begin_ctx p bus hdr pkt started w'
  unfolding rx_start
  rx_start-begins hdr pkt w b e =
      get_bus-bind i _ w b ∙ bind-done (start_ctx p hdr) (λ s. begin_ctx p bus hdr pkt s) w e

  begin_ctx-adds :
      (hdr : Hdr) (pkt : Pktbuf) (k : ℕ) (c c' : MsgCtx) (w : World)
      → ctx_add_pkt (record c { fragment_size = pktbuf_size pkt }) pkt ≡ some c'
      → begin_ctx p bus hdr pkt (some (k, c)) w
        ≡ put_ctx k (record c' { last_seq = seq_of hdr.flags_seq_tag }) w
  unfolding begin_ctx
  begin_ctx-adds hdr pkt k c c' w e = rw (e, begin_ctx)

  -- The first packet of a message starts a context that holds its payload.
  pub first :
      {seq k : ℕ} {part : List ℕ} (pkt : Pktbuf) (w : World)
      → IsIdle i bus r k w
      → IsPkt pkt
      → view pkt ≡ record r { flags = 128; seq = seq; payload = part }
      → length part ≡ most
      → most ≤ w.mctp.max_message_size
      → (c' : MsgCtx) × (bytes' : List ℕ) × (w' : World) × (bus_rx p i pkt w ≡ done tt w')
        × IsReceiving i bus r most ((seq + 1) % 4) k c' bytes' part w'
        × (deliveries w'.trace ≡ deliveries w.trace)
        × (c'.buf_alloc_size ≡ w.mctp.max_message_size)
  unfolding fill_ctx created deliveries
  first {seq} {k} {part} pkt w h v e full room =
      (c', write_at block 0 (payload pkt), w', run, receiving, quiet, refl)
    where
      hdr : Hdr
      hdr = hdr_of pkt

      tag : ℕ
      tag = tag_of hdr.flags_seq_tag

      size : ℕ
      size = w.mctp.max_message_size

      slot : (c : MsgCtx) × (get_elem? w.mctp.msg_ctxs k ≡ some c) × (is_unused c ≡ true)
      slot = find_from-some is_unused w.mctp.msg_ctxs h.free

      granted :
          (block : List ℕ) × (p.msg_alloc (noted pkt w).trace size ≡ some block)
          × (length block ≡ size)
      granted = grants (noted pkt w).trace size

      block : List ℕ
      block = granted.0

      c1 : MsgCtx
      c1 = fill_ctx hdr.src hdr.dest tag size (some block) slot.0

      sized : MsgCtx
      sized = record c1 { fragment_size = pktbuf_size pkt }

      c' : MsgCtx
      c' = record (extended sized block pkt) { last_seq = seq_of hdr.flags_seq_tag }

      w1 : World
      w1 = created p hdr.src hdr.dest tag k slot.0 block (noted pkt w)

      w' : World
      w' = record w1 { mctp = record (w1.mctp) { msg_ctxs = set w1.mctp.msg_ctxs k c' } }

      carried : payload pkt ≡ part
      carried = payload-carried pkt v e

      grown : pkt_len pkt ≡ length part
      grown = sym (length-payload pkt v) ∙ ap (λ (l : List ℕ). length l) carried

      holding : IsHolding sized block
      holding = record { block = refl; sized = granted.2; within = omega arith; small = h.small }

      added :
          (ctx_add_pkt sized pkt ≡ some (extended sized block pkt))
          × IsHolding (extended sized block pkt) (write_at block 0 (payload pkt))
          × (take (0 + pkt_len pkt) (write_at block 0 (payload pkt)) ≡ payload pkt)
      added = ctx_add_pkt-room sized block pkt holding v (omega (arith, grown, full, room))

      run : bus_rx p i pkt w ≡ done tt w'
      run =
          bus_rx-accepted p i bus pkt w
            record {
              bus_at = h.bus_at;
              policy = h.policy;
              from = λ q. h.from (sym (reads pkt e).0 ∙ q);
              local = rw ((reads pkt e).1) h.local;
            }
            v
          ∙ rx_switch-start pkt (noted pkt w) (reads pkt e).4
          ∙ rx_start-begins hdr pkt (noted pkt w) h.bus_at (
              start_ctx-new p hdr k slot.0 block (noted pkt w)
                (rw ((reads pkt e).0, (reads pkt e).1, (reads pkt e).3) h.absent) h.free slot.1
                granted.1)
          ∙ begin_ctx-adds hdr pkt k c1 (extended sized block pkt) w1 added.0

      matching :
          (c : MsgCtx)
          → is_some c.buf ≡ true
          → c.src ≡ hdr.src
          → c.dest ≡ hdr.dest
          → c.tag ≡ tag
          → is_ctx_for r.src r.dest r.tag c ≡ true
      matching c b s d t = ground (arith, (reads pkt e).0, (reads pkt e).1, (reads pkt e).3)

      in_range : k < length w.mctp.msg_ctxs
      in_range = lt_length-get_elem? w.mctp.msg_ctxs k slot.1

      receiving :
          IsReceiving i bus r most ((seq + 1) % 4) k c' (write_at block 0 (payload pkt)) part w'
      receiving = record {
        bus_at = h.bus_at;
        policy = h.policy;
        has_rx = h.has_rx;
        has_mctp = h.has_mctp;
        from = h.from;
        local = h.local;
        found =
            find_from-set (is_ctx_for r.src r.dest r.tag) k (set w.mctp.msg_ctxs k c1) c'
              (find_from-set_new (is_ctx_for r.src r.dest r.tag) k w.mctp.msg_ctxs c1 h.absent
                in_range (matching c1 refl refl refl refl))
              (matching c' refl refl refl refl);
        at =
            get_elem?-set_self (set w.mctp.msg_ctxs k c1) k c'
              (rw (length-set w.mctp.msg_ctxs k c1) in_range);
        holding = record {
          block = refl;
          sized = added.1.sized;
          within = added.1.within;
          small = added.1.small;
        };
        received = added.2 ∙ carried;
        filled = omega (arith, grown);
        fragment = size-view pkt v e ∙ ap (λ n. n + 4) full;
        next = ap (λ s. (s + 1) % 4) (reads pkt e).5;
        src = (reads pkt e).0;
        dest = (reads pkt e).1;
        tag = (reads pkt e).3;
      }

      quiet : deliveries w'.trace ≡ deliveries w.trace
      quiet = deliveries-noted pkt w
