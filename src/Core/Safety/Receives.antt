-- ===== src/Core/Safety/Receives.antt =====
-- The reception of packets on an endpoint.
use ps_libmctp_win.Prelude.{
  ℕ, ◌≤◌, ◌<◌, ◌≡◌, inl, inr, ◌==◌, ◌∙◌, refl, Bool, true, false, List, [], ◌∷◌, length, size_mod,
  arith, get_elem?, if◌then◌else◌, Option-cases, Bool-cases, All, All-get_elem?, ltb, not, ◌||◌,
  ◌&&◌,
}
use ps_libmctp_win.Packet.{Pktbuf, pktbuf_size}
use ps_libmctp_win.Header.{Hdr, tag_of, seq_of, flags_of, tag_owner_of, eid_broadcast}
use ps_libmctp_win.Core.State.{
  Bus, MsgCtx, World, Platform, AllocatesSize, done, M, ◌>>=◌, ◌>>◌, pure, gets, captured,
  bind-done, get_bus-bind, emit_if-bind,
}
use ps_libmctp_win.Core.Reassembly.{ctx_lookup, ctx_drop, put_ctx}
use ps_libmctp_win.Core.Reassembly.Bounds.{IsPkt}
use ps_libmctp_win.Core.Receive.{
  rx, rx_start, rx_end, rx_middle, rx_next, rx_switch, bus_rx, dest_is_local, is_endpoint, exp_seq,
  ctx_msg, start_ctx, begin_ctx,
}
use ps_libmctp_win.Core.Receive.Steps.{hdr_of, noted}
use ps_libmctp_win.Core.Receive.Views.{rx_all}
use ps_libmctp_win.Core.Safety.{IsCtx, IsEndpoint, Keeps, Returns-by, Ensures-bind}
use ps_libmctp_win.Core.Safety.Contexts.{
  put_ctx-Keeps, ctx_drop-Keeps, IsCtx-seq, ctx_add_pkt-IsCtx, start_ctx-KeepsGood, begin_ctx-Keeps,
}
use ps_libmctp_win.Core.Safety.Whole.{rx-Keeps, rx_single-Keeps}

-- A packet buffer with its header at its start.
pub record IsBuf (pkt : Pktbuf) : Type 0 where
  pub at_start : pkt.mctp_hdr_off ≡ pkt.start
  pub ordered : pkt.start ≤ pkt.end
  pub stored : pkt.end ≤ length pkt.bytes
  pub small : length pkt.bytes < size_mod

module _ (p : Platform) (sized : AllocatesSize p) where
  rx_start-Keeps :
      (hdr : Hdr) (pkt : Pktbuf) (w : World)
      → IsEndpoint w.mctp
      → IsPkt pkt
      → Keeps (rx_start p 0 hdr pkt) w
  unfolding rx_start
  rx_start-Keeps hdr pkt w v h = Returns-by (get_bus-bind 0 _ w v.bus_at) (
      Ensures-bind (start_ctx p hdr) (λ s. begin_ctx p v.bus hdr pkt s) w
        (start_ctx-KeepsGood p sized hdr w v)
        (λ s w' g. begin_ctx-Keeps p sized v.bus hdr pkt s w' g.0 v.linked h g.1))

  rx_middle-Keeps :
      (bus : Bus) (hdr : Hdr) (pkt : Pktbuf) (k : ℕ) (c : MsgCtx) (w : World)
      → IsEndpoint w.mctp
      → bus.has_mctp ≡ true
      → IsPkt pkt
      → IsCtx c
      → Keeps (rx_middle p bus hdr pkt k c) w
  unfolding rx_middle
  rx_middle-Keeps bus hdr pkt k c w v linked h g =
      elim (Bool-cases
        (not (exp_seq c == seq_of hdr.flags_seq_tag) || not (pktbuf_size pkt == c.fragment_size))) [
          | inl misfit ↦ Returns-by (rw (rx_middle, misfit)) (ctx_drop-Keeps bus k c w v linked)
          | inr fits ↦ elim (ctx_add_pkt-IsCtx c pkt h g) [
            | inl full ↦ Returns-by (rw (rx_middle, fits, full)) (ctx_drop-Keeps bus k c w v linked)
            | inr (c', added, g') ↦ Returns-by (rw (rx_middle, fits, added)) (
                put_ctx-Keeps k (record c' { last_seq = seq_of hdr.flags_seq_tag }) w v
                  (IsCtx-seq c' (seq_of hdr.flags_seq_tag) g'))
          ]
        ]

  rx_end-Keeps :
      (bus : Bus) (hdr : Hdr) (pkt : Pktbuf) (k : ℕ) (c : MsgCtx) (w : World)
      → IsEndpoint w.mctp
      → bus.has_mctp ≡ true
      → IsPkt pkt
      → IsCtx c
      → Keeps (rx_end p 0 bus hdr pkt k c) w
  unfolding rx_end
  rx_end-Keeps bus hdr pkt k c w v linked h g =
      elim (Bool-cases
        (not (exp_seq c == seq_of hdr.flags_seq_tag) || ltb c.fragment_size (pktbuf_size pkt))) [
          | inl misfit ↦ Returns-by (rw (rx_end, misfit)) (ctx_drop-Keeps bus k c w v linked)
          | inr fits ↦ elim (ctx_add_pkt-IsCtx c pkt h g) [
            | inl full ↦ Returns-by (rw (rx_end, fits, full)) (ctx_drop-Keeps bus k c w v linked)
            | inr (c', added, g') ↦
                let to = tag_owner_of hdr.flags_seq_tag in
                let tag = tag_of hdr.flags_seq_tag in
                Returns-by (rw (rx_end, fits, added)) (
                  Ensures-bind (put_ctx k c' >> rx p 0 c'.src c'.dest to tag (ctx_msg c'))
                    (λ _. ctx_drop bus k c') w
                    (Ensures-bind (put_ctx k c') (λ _. rx p 0 c'.src c'.dest to tag (ctx_msg c')) w
                      (put_ctx-Keeps k c' w v g')
                      (λ u w1 v1. rx-Keeps p sized c'.src c'.dest to tag (ctx_msg c') w1 v1))
                    (λ u w2 v2. ctx_drop-Keeps bus k c' w2 v2 linked))
          ]
        ]

  rx_next-Keeps :
      (handle : Bus → ℕ → MsgCtx → M (Unit {0})) (hdr : Hdr) (w : World)
      → (v : IsEndpoint w.mctp) → ((k : ℕ) (c : MsgCtx) → IsCtx c → Keeps (handle v.bus k c) w)
      → Keeps (rx_next p handle 0 hdr) w
  unfolding rx_next
  rx_next-Keeps handle hdr w v each =
      elim (Option-cases (ctx_lookup hdr.src hdr.dest (tag_of hdr.flags_seq_tag) w.mctp.msg_ctxs)) [
        | inl absent ↦ (tt, w, get_bus-bind 0 _ w v.bus_at ∙ rw (◌>>=◌, gets, absent), v)
        | inr (k, found) ↦ elim (Option-cases (get_elem? w.mctp.msg_ctxs k)) [
          | inl gone ↦ (tt, w, get_bus-bind 0 _ w v.bus_at ∙ rw (◌>>=◌, gets, found, gone), v)
          | inr (c, at) ↦
              Returns-by (get_bus-bind 0 _ w v.bus_at ∙ rw (◌>>=◌, gets, found, at))
                (each k c (All-get_elem? IsCtx w.mctp.msg_ctxs k v.ctxs at))
        ]
      ]

  rx_switch-Keeps :
      (hdr : Hdr) (pkt : Pktbuf) (w : World)
      → IsEndpoint w.mctp
      → IsPkt pkt
      → Keeps (rx_switch p 0 hdr pkt) w
  unfolding rx_switch
  rx_switch-Keeps hdr pkt w v h = elim (Bool-cases (flags_of hdr.flags_seq_tag == 192)) [
    | inl f1 ↦ Returns-by (rw (rx_switch, f1)) (rx_single-Keeps p sized hdr pkt w v)
    | inr n1 ↦ elim (Bool-cases (flags_of hdr.flags_seq_tag == 128)) [
      | inl f2 ↦ Returns-by (rw (rx_switch, n1, f2)) (rx_start-Keeps hdr pkt w v h)
      | inr n2 ↦ elim (Bool-cases (flags_of hdr.flags_seq_tag == 64)) [
        | inl f3 ↦ Returns-by (rw (rx_switch, n1, n2, f3)) (
            rx_next-Keeps (λ bus k c. rx_end p 0 bus hdr pkt k c) hdr w v
              (λ k c g. rx_end-Keeps v.bus hdr pkt k c w v v.linked h g))
        | inr n3 ↦ Returns-by (rw (rx_switch, n1, n2, n3)) (
            rx_next-Keeps (λ bus k c. rx_middle p bus hdr pkt k c) hdr w v
              (λ k c g. rx_middle-Keeps v.bus hdr pkt k c w v v.linked h g))
      ]
    ]
  ]

  dropped-Keeps :
      (drops : Bool) (pkt : Pktbuf) (w : World)
      → IsEndpoint w.mctp
      → IsPkt pkt
      → Keeps (if drops then pure tt else rx_switch p 0 (hdr_of pkt) pkt) w
  dropped-Keeps true pkt w v h = (tt, w, refl, v)
  dropped-Keeps false pkt w v h = rx_switch-Keeps (hdr_of pkt) pkt w v h

  pub bus_rx-Keeps :
      (pkt : Pktbuf) (w : World) → IsEndpoint w.mctp → IsBuf pkt → Keeps (bus_rx p 0 pkt) w
  unfolding bus_rx
  bus_rx-Keeps pkt w v b = elim (Bool-cases (ltb (pktbuf_size pkt) 4)) [
    | inl short ↦ (tt, w, get_bus-bind 0 _ w v.bus_at ∙ rw short, v)
    | inr whole ↦
        Returns-by
          (get_bus-bind 0 _ w v.bus_at
            ∙ rw whole (emit_if-bind w.mctp.has_capture (captured false pkt) _ w))
          (dropped-Keeps
            ((hdr_of pkt).src == eid_broadcast
              || (is_endpoint w.mctp.route_policy && not (dest_is_local v.bus (hdr_of pkt).dest)))
            pkt (noted pkt w) v
            record {
              at_start = b.at_start;
              has_hdr = ground (arith, b.ordered, b.stored, b.small);
              stored = b.stored;
              small = b.small;
            })
  ]

  -- No sequence of packets makes an endpoint fail an assertion, read through a NULL pointer or loop:
  -- for an allocator whose blocks have the size that was asked for, `mctp_bus_rx` on the endpoint's
  -- linked bus takes every packet whose bounds lie in its buffer, whatever its bytes are. It leaves
  -- an endpoint: the bus is fit for the next call, and each reassembly context holds no block, or
  -- one of its size with the message within it.
  pub rx_all_safe :
      (pkts : List Pktbuf) (w : World)
      → IsEndpoint w.mctp
      → All IsBuf pkts
      → (w' : World) × (rx_all p 0 pkts w ≡ done tt w') × IsEndpoint w'.mctp
  unfolding rx_all
  rx_all_safe [] w v h = (w, refl, v)
  rx_all_safe (pkt ∷ pkts) w v (b, bs) =
      let r = bus_rx-Keeps pkt w v b in
      let rest = rx_all_safe pkts r.1 r.3 bs in
      (rest.0, bind-done (bus_rx p 0 pkt) (λ _. rx_all p 0 pkts) w r.2 ∙ rest.1, rest.2)
