-- ===== src/Core/Receive/Reject.antt =====
-- The packets that `mctp_bus_rx` refuses.
mod Tests
use ps_libmctp_win.Prelude.{
  ℕ, zero, suc, ◌+◌, ◌-◌, ◌%◌, ◌≤◌, ◌<◌, ◌≡◌, ◌≢◌, ◌⊎◌, inl, inr, ◌∙◌, ap, sym, refl, Bool, true,
  false, Option, none, some, List, [], ◌∷◌, get_elem?, set, arith, Bool-cases, ltb, leb, ◌==◌,
  ==_iff, ne→==-false, lt→ltb, le→ltb-false, not, ◌||◌, ◌&&◌, if◌then◌else◌, get_elem?-set_self,
  get_elem?-set_ne, lt_length-get_elem?,
}
use ps_libmctp_win.Packet.{Pktbuf, pktbuf_size}
use ps_libmctp_win.Header.{Hdr, tag_of, flags_of, seq_of}
use ps_libmctp_win.Core.State.{
  Bus, MsgCtx, endpoint, Platform, World, done, M, freed, captured, emit_if-bind, get_bus-bind,
  ◌>>=◌, ◌>>◌,
}
use ps_libmctp_win.Core.Transmit.Fragments.{view}
use ps_libmctp_win.Core.Reassembly.{ctx_lookup, ctx_drop}
use ps_libmctp_win.Core.Reassembly.Bounds.{IsPkt}
use ps_libmctp_win.Core.Receive.{
  bus_rx, rx_next, rx_middle, rx_end, rx_switch, exp_seq, dest_is_local, is_endpoint,
}
use ps_libmctp_win.Core.Receive.Steps.{
  hdr_of, noted, Accepts, bus_rx-accepted, rx_next-found, ctx_drop-done,
}
use ps_libmctp_win.Core.Receive.Views.{
  deliveries, deliveries-noted, IsFreed, rx_switch-middle, rx_switch-end,
}

-- A packet that does not go on with what the context has received: out of sequence, or in the middle
-- of the message with another size than the first packet's, or at its end and larger than that.
abbrev pub Misfits : MsgCtx → Pktbuf → Type 0
Misfits c pkt =
    let f = (hdr_of pkt).flags_seq_tag in
    (flags_of f ≡ 0) × ((exp_seq c ≢ seq_of f) ⊎ (pktbuf_size pkt ≢ c.fragment_size))
    ⊎ (flags_of f ≡ 64) × ((exp_seq c ≢ seq_of f) ⊎ (c.fragment_size < pktbuf_size pkt))

or_true : (b : Bool) → (b || true) ≡ true
or_true true = refl
or_true false = refl

module _ (p : Platform) (i : ℕ) (bus : Bus) where
  rx_middle-misfit :
      (pkt : Pktbuf) (k : ℕ) (c : MsgCtx) (w : World)
      → ((exp_seq c ≢ seq_of (hdr_of pkt).flags_seq_tag) ⊎ (pktbuf_size pkt ≢ c.fragment_size))
      → rx_middle p bus (hdr_of pkt) pkt k c w ≡ ctx_drop bus k c w
  unfolding rx_middle
  rx_middle-misfit pkt k c w (inl s) =
      rw (ne→==-false (exp_seq c) (seq_of (hdr_of pkt).flags_seq_tag) s)
  rx_middle-misfit pkt k c w (inr f) =
      rw (ne→==-false (pktbuf_size pkt) c.fragment_size f, or_true _)

  rx_end-misfit :
      (pkt : Pktbuf) (k : ℕ) (c : MsgCtx) (w : World)
      → ((exp_seq c ≢ seq_of (hdr_of pkt).flags_seq_tag) ⊎ (c.fragment_size < pktbuf_size pkt))
      → rx_end p i bus (hdr_of pkt) pkt k c w ≡ ctx_drop bus k c w
  unfolding rx_end
  rx_end-misfit pkt k c w (inl s) =
      rw (ne→==-false (exp_seq c) (seq_of (hdr_of pkt).flags_seq_tag) s)
  rx_end-misfit pkt k c w (inr f) = rw (lt→ltb c.fragment_size (pktbuf_size pkt) f, or_true _)

  -- For a packet with a whole header that an endpoint accepts, on a bus that is linked to its
  -- instance, and that belongs to a context but does not go on with it (out of sequence, or of the
  -- wrong size), `mctp_bus_rx` frees that context, delivers nothing and changes nothing else of
  -- the instance.
  pub bus_rx_rejects :
      (pkt : Pktbuf) (w : World) (k : ℕ) (c : MsgCtx)
      → Accepts i bus (hdr_of pkt) w
      → IsPkt pkt
      → bus.has_mctp ≡ true
      → ctx_lookup
          (hdr_of pkt).src
          (hdr_of pkt).dest
          (tag_of (hdr_of pkt).flags_seq_tag)
          w.mctp.msg_ctxs
        ≡ some k
      → get_elem? w.mctp.msg_ctxs k ≡ some c
      → Misfits c pkt
      → (w' : World) × (bus_rx p i pkt w ≡ done tt w')
        × IsFreed k w'
        × (w'.mctp ≡ record (w.mctp) { msg_ctxs = set w.mctp.msg_ctxs k (record c { buf = none }) })
        × (w'.trace ≡ freed ∷ (noted pkt w).trace)
        × (deliveries w'.trace ≡ deliveries w.trace)
  unfolding deliveries
  bus_rx_rejects pkt w k c a v linked found at bad = (
    w',
    bus_rx-accepted p i bus pkt w a v ∙ refused bad,
    (
      record c { buf = none },
      get_elem?-set_self w.mctp.msg_ctxs k (record c { buf = none })
          (lt_length-get_elem? w.mctp.msg_ctxs k at),
      refl,
    ),
    refl,
    refl,
    deliveries-noted pkt w,
  )
    where
      w' : World
      w' = record (noted pkt w) {
        mctp = record (w.mctp) { msg_ctxs = set w.mctp.msg_ctxs k (record c { buf = none }) };
        trace = freed ∷ (noted pkt w).trace;
      }

      dropped : ctx_drop bus k c (noted pkt w) ≡ done tt w'
      dropped = ctx_drop-done bus k c (noted pkt w) linked

      refused : Misfits c pkt → rx_switch p i (hdr_of pkt) pkt (noted pkt w) ≡ done tt w'
      refused (inl (f, m)) =
          rx_switch-middle p i bus (view pkt) 0 pkt (noted pkt w) f
          ∙ rx_next-found p i bus _ (hdr_of pkt) k c (noted pkt w) a.bus_at found at
          ∙ rx_middle-misfit pkt k c (noted pkt w) m
          ∙ dropped
      refused (inr (f, m)) =
          rx_switch-end p i bus (view pkt) 0 pkt (noted pkt w) f
          ∙ rx_next-found p i bus _ (hdr_of pkt) k c (noted pkt w) a.bus_at found at
          ∙ rx_end-misfit pkt k c (noted pkt w) m
          ∙ dropped

  bus_rx-short :
      (pkt : Pktbuf) (w : World)
      → get_elem? w.mctp.busses i ≡ some bus
      → ltb (pktbuf_size pkt) 4 ≡ true
      → bus_rx p i pkt w ≡ done tt w
  unfolding bus_rx
  bus_rx-short pkt w at short = get_bus-bind i _ w at ∙ rw short

  -- The test for a packet that is dropped.
  abbrev drops : Pktbuf → World → Bool
  drops pkt w =
      (hdr_of pkt).src == 0xff
      || (is_endpoint w.mctp.route_policy && not (dest_is_local bus (hdr_of pkt).dest))

  bus_rx-dropped :
      (pkt : Pktbuf) (w : World)
      → get_elem? w.mctp.busses i ≡ some bus
      → ltb (pktbuf_size pkt) 4 ≡ false
      → drops pkt w ≡ true
      → bus_rx p i pkt w ≡ done tt (noted pkt w)
  unfolding bus_rx
  bus_rx-dropped pkt w at whole dropped =
      get_bus-bind i _ w at
      ∙ rw (whole, dropped) (emit_if-bind w.mctp.has_capture (captured false pkt) _ w)

  unwanted :
      (pkt : Pktbuf) (w : World)
      → ltb (pktbuf_size pkt) 4 ≡ false
      → (pktbuf_size pkt < 4)
        ⊎ ((hdr_of pkt).src ≡ 0xff)
        ⊎ (w.mctp.route_policy ≡ endpoint) × (dest_is_local bus (hdr_of pkt).dest ≡ false)
      → drops pkt w ≡ true
  unwanted pkt w whole (inl short) = absurd (ground arith)
  unwanted pkt w whole (inr (inl from)) = rw ((==_iff (hdr_of pkt).src 0xff).1 from)
  unwanted pkt w whole (inr (inr (e, away))) = rw (e, away, or_true _)

  -- On a bus that is there, a packet that is shorter than a header, comes from the broadcast
  -- address, or is not for this endpoint leaves the instance as it is, and nothing is delivered.
  pub bus_rx_ignores :
      (pkt : Pktbuf) (w : World)
      → get_elem? w.mctp.busses i ≡ some bus
      → (pktbuf_size pkt < 4)
        ⊎ ((hdr_of pkt).src ≡ 0xff)
        ⊎ (w.mctp.route_policy ≡ endpoint) × (dest_is_local bus (hdr_of pkt).dest ≡ false)
      → (w' : World) × (bus_rx p i pkt w ≡ done tt w')
        × (w'.mctp ≡ w.mctp)
        × (deliveries w'.trace ≡ deliveries w.trace)
  bus_rx_ignores pkt w at bad = elim (Bool-cases (ltb (pktbuf_size pkt) 4)) [
    | inl short ↦ (w, bus_rx-short pkt w at short, refl, refl)
    | inr whole ↦ (
      noted pkt w,
      bus_rx-dropped pkt w at whole (unwanted pkt w whole bad),
      refl,
      deliveries-noted pkt w,
    )
  ]
