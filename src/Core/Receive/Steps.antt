-- ===== src/Core/Receive/Steps.antt =====
-- What one packet or one message does on the paths where it is accepted, as equations.
use ps_libmctp_win.Prelude.{
  ℕ, ◌≤◌, ◌≡◌, ◌≢◌, ◌∙◌, Bool, true, false, none, some, List, ◌∷◌, length, get_elem?, set, arith,
  leb, ◌==◌, ◌&&◌, if◌then◌else◌, ==_iff, ne→==-false, le→ltb-false,
}
use ps_libmctp_win.Packet.{Pktbuf, pktbuf_size}
use ps_libmctp_win.Header.{Hdr, read_hdr, tag_of, seq_of, tag_owner_of}
use ps_libmctp_win.Core.State.{
  Bus, MsgCtx, endpoint, Mctp, Platform, World, done, M, freed, captured, delivered, ◌>>◌,
  get_bus-bind, emit_if-bind,
}
use ps_libmctp_win.Core.Tags.{clear_tag, dealloc_tag}
use ps_libmctp_win.Core.Reassembly.{ctx_lookup, ctx_add_pkt, ctx_drop, put_ctx}
use ps_libmctp_win.Core.Reassembly.Bounds.{IsPkt}
use ps_libmctp_win.Core.Control.{ctrl_hdr_size}
use ps_libmctp_win.Core.Receive.{
  dest_is_local, is_request, rx_local, rx, rx_next, rx_switch, rx_middle, rx_end, exp_seq, ctx_msg,
  bus_rx,
}

abbrev pub hdr_of : Pktbuf → Hdr
hdr_of pkt = read_hdr pkt.bytes pkt.mctp_hdr_off

-- The trace with the packet captured, if there is a capture callback.
abbrev pub noted : Pktbuf → World → World
noted pkt w = record w {
  trace = if w.mctp.has_capture then captured false pkt ∷ w.trace else w.trace;
}

-- An endpoint's bus that a packet is meant for.
pub record Accepts (i : ℕ) (bus : Bus) (hdr : Hdr) (w : World) : Type 0 where
  pub bus_at : get_elem? w.mctp.busses i ≡ some bus
  pub policy : w.mctp.route_policy ≡ endpoint
  pub from : hdr.src ≢ 0xff
  pub local : dest_is_local bus hdr.dest ≡ true

-- The instance when a response to an allocated tag has been noted.
abbrev pub answered : Bool → ℕ → ℕ → ℕ → Mctp → Mctp
answered true src dest tag m = m
answered false src dest tag m =
    if dest == 0 then m else record m { req_tags = clear_tag dest src tag m.req_tags }

-- The message is no control request, so it is for the message callback.
abbrev pub IsPlain : List ℕ → Type 0
IsPlain msg = (leb ctrl_hdr_size (length msg) && is_request msg) ≡ false

module _ (p : Platform) (i : ℕ) (bus : Bus) where
  pub bus_rx-accepted :
      (pkt : Pktbuf) (w : World)
      → Accepts i bus (hdr_of pkt) w
      → IsPkt pkt
      → bus_rx p i pkt w ≡ rx_switch p i (hdr_of pkt) pkt (noted pkt w)
  unfolding bus_rx
  bus_rx-accepted pkt w a v =
      get_bus-bind i _ w a.bus_at
      ∙ rw
          (
            le→ltb-false (pktbuf_size pkt) 4 (omega arith),
            ne→==-false (hdr_of pkt).src 0xff a.from,
            a.policy,
            a.local,
          )
          (emit_if-bind w.mctp.has_capture (captured false pkt) _ _)

  pub rx-delivers :
      (src dest : ℕ) (to : Bool) (tag : ℕ) (msg : List ℕ) (w : World)
      → get_elem? w.mctp.busses i ≡ some bus
      → w.mctp.route_policy ≡ endpoint
      → dest_is_local bus dest ≡ true
      → IsPlain msg
      → w.mctp.has_message_rx ≡ true
      → rx p i src dest to tag msg w
        ≡ done tt record w {
          mctp = answered to src dest tag w.mctp;
          trace = delivered src to tag msg ∷ w.trace;
        }
  unfolding rx rx_local dealloc_tag
  rx-delivers src dest true tag msg w b e l plain has = ground arith
  rx-delivers src dest false tag msg w b e l plain has = ground arith

  pub rx_next-found :
      (handle : Bus → ℕ → MsgCtx → M (Unit {0})) (hdr : Hdr) (k : ℕ) (c : MsgCtx) (w : World)
      → get_elem? w.mctp.busses i ≡ some bus
      → ctx_lookup hdr.src hdr.dest (tag_of hdr.flags_seq_tag) w.mctp.msg_ctxs ≡ some k
      → get_elem? w.mctp.msg_ctxs k ≡ some c
      → rx_next p handle i hdr w ≡ handle bus k c w
  unfolding rx_next
  rx_next-found handle hdr k c w b e g = ground arith

  -- The next packet of a message, in sequence and of the first packet's size.
  pub rx_middle-adds :
      (hdr : Hdr) (pkt : Pktbuf) (k : ℕ) (c c' : MsgCtx) (w : World)
      → exp_seq c ≡ seq_of hdr.flags_seq_tag
      → pktbuf_size pkt ≡ c.fragment_size
      → ctx_add_pkt c pkt ≡ some c'
      → rx_middle p bus hdr pkt k c w
        ≡ put_ctx k (record c' { last_seq = seq_of hdr.flags_seq_tag }) w
  unfolding rx_middle
  rx_middle-adds hdr pkt k c c' w s f a = ground arith

  -- The last packet of a message, in sequence and no larger than the first.
  pub rx_end-adds :
      (hdr : Hdr) (pkt : Pktbuf) (k : ℕ) (c c' : MsgCtx) (w : World)
      → exp_seq c ≡ seq_of hdr.flags_seq_tag
      → pktbuf_size pkt ≤ c.fragment_size
      → ctx_add_pkt c pkt ≡ some c'
      → rx_end p i bus hdr pkt k c w
        ≡ (put_ctx k c'
              >> rx p i c'.src c'.dest
                  (tag_owner_of hdr.flags_seq_tag)
                  (tag_of hdr.flags_seq_tag)
                  (ctx_msg c')
              >> ctx_drop bus k c')
            w
  unfolding rx_end
  rx_end-adds hdr pkt k c c' w s f a = rw (
    (==_iff (exp_seq c) (seq_of hdr.flags_seq_tag)).1 s,
    le→ltb-false c.fragment_size (pktbuf_size pkt) f,
    a,
  )

-- A context is dropped on a bus whose pointer to the instance is set.
pub ctx_drop-done :
    (bus : Bus) (k : ℕ) (c : MsgCtx) (w : World)
    → bus.has_mctp ≡ true
    → ctx_drop bus k c w
      ≡ done tt record w {
        mctp = record (w.mctp) { msg_ctxs = set w.mctp.msg_ctxs k (record c { buf = none }) };
        trace = freed ∷ w.trace;
      }
unfolding ctx_drop
ctx_drop-done bus k c w e = ground arith
