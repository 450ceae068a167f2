-- ===== src/Core/Receive.antt =====
-- Reception in src/core.c: mctp_bus_rx takes a packet, mctp_rx a complete message.
pub mod Steps
pub mod Views
pub mod Middle
pub mod Final
pub mod Message
pub mod Start
pub mod Whole
pub mod Reject
pub mod Relay
mod Tests
use ps_libmctp_win.Prelude.{
  ℕ, zero, suc, ◌+◌, ◌%◌, Bool, true, false, Option, none, some, List, [], ◌∷◌, length, get_elem?,
  take, slice, write_at, bit_and, sub_size, ltb, leb, ◌==◌, not, ◌||◌, ◌&&◌, if◌then◌else◌, is_some,
}
use ps_libmctp_win.Packet.{Pktbuf, hdr_size, data_off, pktbuf_size}
use ps_libmctp_win.Header.{
  Hdr, read_hdr, flags_of, tag_of, seq_of, tag_owner_of, eid_null, eid_broadcast,
}
use ps_libmctp_win.Core.State.{
  Rc, Bus, MsgCtx, RoutePolicy, endpoint, bridge, Mctp, Platform, World, done, fault, M, ◌>>=◌,
  ◌>>◌, pure, gets, emit, require, get_bus, freed, captured, delivered, control_delivered, msg_dup,
}
use ps_libmctp_win.Core.Transmit.{message_tx_on_bus}
use ps_libmctp_win.Core.Tags.{dealloc_tag}
use ps_libmctp_win.Core.Reassembly.{
  ctx_lookup, find_from, is_unused, put_ctx, ctx_reset, ctx_add_pkt, ctx_drop, ctx_create,
}
use ps_libmctp_win.Core.Control.{
  control_handler, ctrl_hdr_size, ic_msg_type, rq_dgram_inst, command_code,
}

-- `mctp_rx_dest_is_local`
abbrev pub dest_is_local : Bus → ℕ → Bool
dest_is_local bus dest = dest == bus.eid || dest == eid_null || dest == eid_broadcast

abbrev pub is_endpoint : RoutePolicy → Bool
is_endpoint endpoint = true
is_endpoint bridge = false

-- `mctp_ctrl_cmd_is_request` and `mctp_ctrl_cmd_is_transport`
abbrev pub is_request : List ℕ → Bool
is_request msg = ic_msg_type msg == 0 && not (bit_and (rq_dgram_inst msg) 0x80 == 0)

abbrev pub is_transport : List ℕ → Bool
is_transport msg = leb 0xf0 (command_code msg) && leb (command_code msg) 0xff

-- The sequence number that the next packet of a context must have.
abbrev pub exp_seq : MsgCtx → ℕ
exp_seq c = (c.last_seq + 1) % 4

-- The message that a context has received.
abbrev pub ctx_msg : MsgCtx → List ℕ
ctx_msg c = elim c.buf [ none ↦ [] | some bytes ↦ take c.buf_size bytes ]

module _ (p : Platform) where
  -- `mctp_ctrl_handle_msg`
  unfoldable pub ctrl_handle_msg : ℕ → ℕ → ℕ → Bool → List ℕ → M Bool
  ctrl_handle_msg i src msg_tag tag_owner msg =
      if is_transport msg
      then (do
        bus ← get_bus i
        if bus.binding.has_control_rx
            then (emit (control_delivered src tag_owner msg_tag msg) >> pure true)
            else pure false)
      else control_handler p i src tag_owner msg_tag msg

  -- The endpoint's part of `mctp_rx`.
  unfoldable pub rx_local : ℕ → ℕ → ℕ → Bool → ℕ → List ℕ → M (Unit {0})
  rx_local i src dest tag_owner msg_tag msg = do
    (if tag_owner then pure tt else dealloc_tag dest src msg_tag)
    handled ←
        (if leb ctrl_hdr_size (length msg) && is_request msg
          then ctrl_handle_msg i src msg_tag tag_owner msg
          else pure false)
    has_rx ← gets (λ m. m.has_message_rx)
    if not handled && has_rx then emit (delivered src tag_owner msg_tag msg) else pure tt

  -- The bridge's part of `mctp_rx`: the `n` busses from index `k` on, but for the message's own.
  unfoldable pub forward_from : ℕ → ℕ → ℕ → ℕ → ℕ → Bool → ℕ → List ℕ → M (Unit {0})
  forward_from zero k i src dest tag_owner msg_tag msg = pure tt
  forward_from (suc n) k i src dest tag_owner msg_tag msg =
      let rest = forward_from n (suc k) i src dest tag_owner msg_tag msg in
      if k == i then rest else (do
        copy ← msg_dup p msg
        elim copy [
          | none ↦ pure tt
          | some c ↦ message_tx_on_bus p k src dest tag_owner msg_tag c >> rest
        ])

  -- `mctp_rx`
  unfoldable pub rx : ℕ → ℕ → ℕ → Bool → ℕ → List ℕ → M (Unit {0})
  rx i src dest tag_owner msg_tag msg = do
    m ← gets (λ m. m)
    bus ← get_bus i
    if is_endpoint m.route_policy
        then (if dest_is_local bus dest then rx_local i src dest tag_owner msg_tag msg else pure tt)
        else forward_from m.n_busses 0 i src dest tag_owner msg_tag msg

  -- A message in one packet.
  unfoldable pub rx_single : ℕ → Hdr → Pktbuf → M (Unit {0})
  rx_single i hdr pkt = do
    copy ←
        msg_dup p
          (slice pkt.bytes (data_off pkt) (sub_size (sub_size pkt.end pkt.mctp_hdr_off) hdr_size))
    elim copy [
      | none ↦ pure tt
      | some msg ↦
          rx i hdr.src hdr.dest (tag_owner_of hdr.flags_seq_tag) (tag_of hdr.flags_seq_tag) msg
          >> emit freed
    ]

  -- `mctp_msg_ctx_create` in the free slot `k`, which holds `c`.
  unfoldable pub make_ctx : Hdr → ℕ → Option MsgCtx → M (Option (ℕ × MsgCtx))
  make_ctx hdr k none = pure none
  make_ctx hdr k (some c) = do
    made ← ctx_create p hdr.src hdr.dest (tag_of hdr.flags_seq_tag) k c
    elim made [ none ↦ pure none | some c' ↦ pure (some (k, c')) ]

  unfoldable pub take_free : Hdr → List MsgCtx → Option ℕ → M (Option (ℕ × MsgCtx))
  take_free hdr ctxs none = pure none
  take_free hdr ctxs (some k) = make_ctx hdr k (get_elem? ctxs k)

  -- `mctp_msg_ctx_reset` of the context that was found.
  unfoldable pub restart : ℕ → Option MsgCtx → M (Option (ℕ × MsgCtx))
  restart k none = pure none
  restart k (some c) = pure (some (k, ctx_reset c))

  unfoldable pub pick_ctx : Hdr → List MsgCtx → Option ℕ → M (Option (ℕ × MsgCtx))
  pick_ctx hdr ctxs none = take_free hdr ctxs (find_from is_unused 0 ctxs)
  pick_ctx hdr ctxs (some k) = restart k (get_elem? ctxs k)

  -- The context for the first packet of a message, with its index: one of the same source,
  -- destination and tag is started again, or a free one is taken.
  unfoldable pub start_ctx : Hdr → M (Option (ℕ × MsgCtx))
  start_ctx hdr = do
    ctxs ← gets (λ m. m.msg_ctxs)
    pick_ctx hdr ctxs (ctx_lookup hdr.src hdr.dest (tag_of hdr.flags_seq_tag) ctxs)

  -- The first packet goes into its context, of which it sets the fragment size.
  unfoldable pub begin_ctx : Bus → Hdr → Pktbuf → Option (ℕ × MsgCtx) → M (Unit {0})
  begin_ctx bus hdr pkt none = pure tt
  begin_ctx bus hdr pkt (some (k, c)) =
      let sized = record c { fragment_size = pktbuf_size pkt } in
      elim (ctx_add_pkt sized pkt) [
        | none ↦ ctx_drop bus k sized
        | some c' ↦ put_ctx k (record c' { last_seq = seq_of hdr.flags_seq_tag })
      ]

  -- The first packet of a longer message.
  unfoldable pub rx_start : ℕ → Hdr → Pktbuf → M (Unit {0})
  rx_start i hdr pkt = do bus ← get_bus i; started ← start_ctx hdr; begin_ctx bus hdr pkt started

  -- The last packet of a longer message, for the context `c` with index `k`.
  unfoldable pub rx_end : ℕ → Bus → Hdr → Pktbuf → ℕ → MsgCtx → M (Unit {0})
  rx_end i bus hdr pkt k c =
      if not (exp_seq c == seq_of hdr.flags_seq_tag) || ltb c.fragment_size (pktbuf_size pkt)
      then ctx_drop bus k c
      else elim (ctx_add_pkt c pkt) [
        | none ↦ ctx_drop bus k c
        | some c' ↦ do
          put_ctx k c'
          rx i c'.src c'.dest (tag_owner_of hdr.flags_seq_tag) (tag_of hdr.flags_seq_tag)
              (ctx_msg c')
          ctx_drop bus k c'
      ]

  -- A packet in the middle of a longer message.
  unfoldable pub rx_middle : Bus → Hdr → Pktbuf → ℕ → MsgCtx → M (Unit {0})
  rx_middle bus hdr pkt k c =
      if not (exp_seq c == seq_of hdr.flags_seq_tag) || not (pktbuf_size pkt == c.fragment_size)
      then ctx_drop bus k c
      else elim (ctx_add_pkt c pkt) [
        | none ↦ ctx_drop bus k c
        | some c' ↦ put_ctx k (record c' { last_seq = seq_of hdr.flags_seq_tag })
      ]

  -- A packet that goes on with a message, at its context if there is one.
  unfoldable pub rx_next : (Bus → ℕ → MsgCtx → M (Unit {0})) → ℕ → Hdr → M (Unit {0})
  rx_next handle i hdr = do
    bus ← get_bus i
    ctxs ← gets (λ m. m.msg_ctxs)
    elim (ctx_lookup hdr.src hdr.dest (tag_of hdr.flags_seq_tag) ctxs) [
      | none ↦ pure tt
      | some k ↦ elim (get_elem? ctxs k) [ none ↦ pure tt | some c ↦ handle bus k c ]
    ]

  -- The switch of `mctp_bus_rx` on the start and end flags.
  unfoldable pub rx_switch : ℕ → Hdr → Pktbuf → M (Unit {0})
  rx_switch i hdr pkt =
      let flags = flags_of hdr.flags_seq_tag in
      if flags == 192
      then rx_single i hdr pkt
      else if flags == 128
      then rx_start i hdr pkt
      else if flags == 64
      then rx_next (λ bus k c. rx_end i bus hdr pkt k c) i hdr
      else rx_next (λ bus k c. rx_middle bus hdr pkt k c) i hdr

  -- `mctp_bus_rx` for the binding of bus `i`
  unfoldable pub bus_rx : ℕ → Pktbuf → M (Unit {0})
  bus_rx i pkt = do
    bus ← get_bus i
    m ← gets (λ m. m)
    let hdr = read_hdr pkt.bytes pkt.mctp_hdr_off
    if ltb (pktbuf_size pkt) hdr_size
        then pure tt
        else (if m.has_capture then emit (captured false pkt) else pure tt)
          >> (if hdr.src == eid_broadcast
                || (is_endpoint m.route_policy && not (dest_is_local bus hdr.dest))
              then pure tt
              else rx_switch i hdr pkt)
