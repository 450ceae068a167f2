-- ===== src/Core/Receive/Views.antt =====
-- What the receiver reads of a packet, and the state of an endpoint in the middle of a message.
use ps_libmctp_win.Prelude.{
  ℕ, ◌+◌, ◌≡◌, ◌≢◌, ◌∙◌, ap, sym, refl, Bool, true, false, none, some, List, [], ◌∷◌, ◌++◌, length,
  take, slice, get_elem?, arith,
}
use ps_libmctp_win.Packet.{Pktbuf, data_off, pktbuf_size}
use ps_libmctp_win.Header.{tag_owner_of, tag_of, flags_of, seq_of}
use ps_libmctp_win.Core.State.{
  Bus, MsgCtx, endpoint, Mctp, Platform, World, Trace, M, freed, delivered, pure, ◌>>◌,
}
use ps_libmctp_win.Core.Transmit.Fragments.{View, view}
use ps_libmctp_win.Core.Reassembly.{ctx_lookup}
use ps_libmctp_win.Core.Reassembly.Bounds.{IsHolding, IsPkt, payload, length-payload}
use ps_libmctp_win.Core.Receive.{
  bus_rx, rx_next, rx_middle, rx_end, rx_switch, exp_seq, dest_is_local,
}
use ps_libmctp_win.Core.Receive.Steps.{hdr_of, noted, answered, bus_rx-accepted}

-- A message that has been handed to the message callback: source, tag owner, tag, bytes.
abbrev pub Delivery : Type 0
Delivery = ℕ × Bool × ℕ × List ℕ

-- The deliveries of a trace, the first one first.
unfoldable pub deliveries : Trace → List Delivery
deliveries [] = []
deliveries (delivered src to tag msg ∷ tr) = deliveries tr ++ ((src, to, tag, msg) ∷ [])
deliveries (_ ∷ tr) = deliveries tr

-- Packets as they come in on bus `i`.
unfoldable pub rx_all : Platform → ℕ → List Pktbuf → M (Unit {0})
rx_all p i [] = pure tt
rx_all p i (pkt ∷ pkts) = bus_rx p i pkt >> rx_all p i pkts

-- What the receiver reads as the payload is the payload that it copies.
payload-view : (pkt : Pktbuf) → IsPkt pkt → (view pkt).payload ≡ payload pkt
unfolding view
payload-view pkt v = ap (slice pkt.bytes (data_off pkt)) (omega arith)

-- A started endpoint whose message callback is set, with a context that has received `pre` and
-- expects the packet with sequence number `seq`.
pub record IsReceiving (i : ℕ) (bus : Bus) (r : View) (most seq : ℕ) (k : ℕ) (c : MsgCtx)
    (bytes pre : List ℕ) (w : World) : Type 0 where
  pub bus_at : get_elem? w.mctp.busses i ≡ some bus
  pub policy : w.mctp.route_policy ≡ endpoint
  pub has_rx : w.mctp.has_message_rx ≡ true
  pub has_mctp : bus.has_mctp ≡ true
  pub from : r.src ≢ 0xff
  pub local : dest_is_local bus r.dest ≡ true
  pub found : ctx_lookup r.src r.dest r.tag w.mctp.msg_ctxs ≡ some k
  pub at : get_elem? w.mctp.msg_ctxs k ≡ some c
  pub holding : IsHolding c bytes
  pub received : take c.buf_size bytes ≡ pre
  pub filled : c.buf_size ≡ length pre
  pub fragment : c.fragment_size ≡ most + 4
  pub next : exp_seq c ≡ seq
  pub src : c.src ≡ r.src
  pub dest : c.dest ≡ r.dest
  pub tag : c.tag ≡ r.tag

-- The fields that the receiver takes out of a packet are those of its view.
pub reads :
    (pkt : Pktbuf) {v : View}
    → view pkt ≡ v
    → ((hdr_of pkt).src ≡ v.src)
      × ((hdr_of pkt).dest ≡ v.dest)
      × (tag_owner_of (hdr_of pkt).flags_seq_tag ≡ v.tag_owner)
      × (tag_of (hdr_of pkt).flags_seq_tag ≡ v.tag)
      × (flags_of (hdr_of pkt).flags_seq_tag ≡ v.flags)
      × (seq_of (hdr_of pkt).flags_seq_tag ≡ v.seq)
unfolding view
reads pkt e = (
  ap (λ (v : View). v.src) e,
  ap (λ (v : View). v.dest) e,
  ap (λ (v : View). v.tag_owner) e,
  ap (λ (v : View). v.tag) e,
  ap (λ (v : View). v.flags) e,
  ap (λ (v : View). v.seq) e,
)

pub payload-carried : (pkt : Pktbuf) {v : View} → IsPkt pkt → view pkt ≡ v → payload pkt ≡ v.payload
payload-carried pkt v e = sym (payload-view pkt v) ∙ ap (λ (u : View). u.payload) e

-- The number of bytes of a packet.
pub size-view :
    (pkt : Pktbuf) {v : View} → IsPkt pkt → view pkt ≡ v → pktbuf_size pkt ≡ length v.payload + 4
size-view pkt v e = omega (
  arith,
  ap (λ (v : View). length v.payload) e,
  ap (λ (l : List ℕ). length l) (payload-view pkt v),
  length-payload pkt v,
)

pub deliveries-noted :
    (pkt : Pktbuf) (w : World) → deliveries (noted pkt w).trace ≡ deliveries w.trace
unfolding deliveries
deliveries-noted pkt w = ground arith

pub deliveries-delivered :
    (src : ℕ) (to : Bool) (tag : ℕ) (msg : List ℕ) (tr : Trace)
    → deliveries (freed ∷ delivered src to tag msg ∷ tr)
      ≡ deliveries tr ++ ((src, to, tag, msg) ∷ [])
unfolding deliveries
deliveries-delivered src to tag msg tr = refl

pub msg_ctxs-answered :
    (to : Bool) (src dest tag : ℕ) (m : Mctp) → (answered to src dest tag m).msg_ctxs ≡ m.msg_ctxs
msg_ctxs-answered true src dest tag m = refl
msg_ctxs-answered false src dest tag m = ground arith

-- Slot `k` is free.
abbrev pub IsFreed : ℕ → World → Type 0
IsFreed k w = (c : MsgCtx) × (get_elem? w.mctp.msg_ctxs k ≡ some c) × (c.buf ≡ none)

module _ (p : Platform) (i : ℕ) (bus : Bus) (r : View) (most : ℕ) where
  pub rx_switch-middle :
      (pkt : Pktbuf) (w : World)
      → flags_of (hdr_of pkt).flags_seq_tag ≡ 0
      → rx_switch p i (hdr_of pkt) pkt w
        ≡ rx_next p (λ b k c. rx_middle p b (hdr_of pkt) pkt k c) i (hdr_of pkt) w
  unfolding rx_switch
  rx_switch-middle pkt w e = rw e

  pub rx_switch-end :
      (pkt : Pktbuf) (w : World)
      → flags_of (hdr_of pkt).flags_seq_tag ≡ 64
      → rx_switch p i (hdr_of pkt) pkt w
        ≡ rx_next p (λ b k c. rx_end p i b (hdr_of pkt) pkt k c) i (hdr_of pkt) w
  unfolding rx_switch
  rx_switch-end pkt w e = rw e

  -- A packet of the message is taken to the message's context.
  pub accepted :
      {seq k : ℕ} {c : MsgCtx} {bytes pre : List ℕ} {v : View} (pkt : Pktbuf) (w : World)
      → IsReceiving i bus r most seq k c bytes pre w
      → IsPkt pkt
      → view pkt ≡ v
      → v.src ≡ r.src
      → v.dest ≡ r.dest
      → bus_rx p i pkt w ≡ rx_switch p i (hdr_of pkt) pkt (noted pkt w)
  accepted pkt w h v e src dest =
      bus_rx-accepted p i bus pkt w
        record {
          bus_at = h.bus_at;
          policy = h.policy;
          from = λ q. h.from (sym src ∙ sym (reads pkt e).0 ∙ q);
          local = rw ((reads pkt e).1, dest) h.local;
        }
        v

  pub looked_up :
      {seq k : ℕ} {c : MsgCtx} {bytes pre part : List ℕ} {f s : ℕ} (pkt : Pktbuf) (w : World)
      → IsReceiving i bus r most seq k c bytes pre w
      → view pkt ≡ record r { flags = f; seq = s; payload = part }
      → ctx_lookup
          (hdr_of pkt).src
          (hdr_of pkt).dest
          (tag_of (hdr_of pkt).flags_seq_tag)
          w.mctp.msg_ctxs
        ≡ some k
  looked_up pkt w h e = rw ((reads pkt e).0, (reads pkt e).1, (reads pkt e).3) h.found
