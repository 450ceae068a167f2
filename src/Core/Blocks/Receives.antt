-- ===== src/Core/Blocks/Receives.antt =====
-- The blocks of mctp_bus_rx.
use ps_libmctp_win.Prelude.{
  ℕ, ◌+◌, ◌≡◌, inl, inr, ◌∙◌, refl, sym, ap, false, Option, none, some, List, [], ◌∷◌, get_elem?,
  set, slice, sub_size, arith, Option-cases, get_elem?-set_self, Bool-cases, lt_length-get_elem?,
  ◌==◌, ltb, not, ◌||◌,
}
use ps_libmctp_win.Packet.{Pktbuf, pktbuf_size, data_off, hdr_size}
use ps_libmctp_win.Header.{Hdr, flags_of, tag_of, seq_of, tag_owner_of}
use ps_libmctp_win.Core.State.{
  MsgCtx, Bus, World, Platform, M, ◌>>=◌, ◌>>◌, pure, gets, emit, freed, msg_dup, captured,
}
use ps_libmctp_win.Core.Reassembly.{ctx_lookup, ctx_add_pkt, ctx_drop}
use ps_libmctp_win.Core.Receive.{
  rx, rx_single, start_ctx, begin_ctx, rx_start, rx_end, rx_middle, rx_next, rx_switch, bus_rx,
  exp_seq, ctx_msg,
}
use ps_libmctp_win.Core.Receive.Views.{rx_all}
use ps_libmctp_win.Core.Blocks.{
  one, OwesWith, Frame, frame, Settled, After, After-done, After-get_bus, After-bind,
}
use ps_libmctp_win.Core.Blocks.Neutral.{
  IsNeutral, IsBalanced, neutral_rules, balanced_rules, if-IsBalanced, emit-IsNeutral,
}
use ps_libmctp_win.Core.Blocks.Sends.{msg_dup-Owes}
use ps_libmctp_win.Core.Blocks.Contexts.{
  put_ctx-Owes, ctx_drop-Owes, ctx_add_pkt-one, lookup-one, start_ctx-Owes, begin_ctx-Owes,
}
use ps_libmctp_win.Core.Blocks.Handles.{rx-IsNeutral}

emit-captured : (pkt : Pktbuf) → IsNeutral (emit (captured false pkt))
emit-captured pkt = emit-IsNeutral _ (λ tr. (refl, refl))

module _ (p : Platform) where
  rx_single-IsBalanced : (i : ℕ) (hdr : Hdr) (pkt : Pktbuf) → IsBalanced (rx_single p i hdr pkt)
  unfolding rx_single
  rx_single-IsBalanced i hdr pkt = record {
    settle = λ n w o.
        After-bind (msg_dup p whole) _ w (msg_dup-Owes p whole 0 (frame w) w (refl, o.1))
          (copied n (frame w) o.0);
  }
    where
      whole : List ℕ
      whole = slice pkt.bytes (data_off pkt) (sub_size (sub_size pkt.end pkt.mctp_hdr_off) hdr_size)

      handle : List ℕ → M (Unit {0})
      handle msg =
          rx p i hdr.src hdr.dest (tag_owner_of hdr.flags_seq_tag) (tag_of hdr.flags_seq_tag) msg

      take_copy : Option (List ℕ) → M (Unit {0})
      take_copy copy = elim copy [ none ↦ pure tt | some msg ↦ handle msg >> emit freed ]

      copied :
          (n : ℕ) (fr : Frame)
          → fr.1 ≡ n
          → (copy : Option (List ℕ)) (w : World) → OwesWith (one copy + 0) fr w
          → After (λ u. Settled n) (take_copy copy w)
      copied n fr e none w o = After-done tt w (ap (λ (g : Frame). g.1) o.0 ∙ e, omega (arith, o.1))
      copied n fr e (some msg) w o =
          After-bind (handle msg) (λ _. emit freed) w
            ((rx-IsNeutral p i hdr.src hdr.dest (tag_owner_of hdr.flags_seq_tag)
                (tag_of hdr.flags_seq_tag) msg).run
              1 fr w (o.0, omega (arith, o.1)))
            (λ u w' o'. After-done tt _ (ap (λ (g : Frame). g.1) o'.0 ∙ e, omega (arith, o'.1)))

  rx_start-IsBalanced : (i : ℕ) (hdr : Hdr) (pkt : Pktbuf) → IsBalanced (rx_start p i hdr pkt)
  unfolding rx_start
  rx_start-IsBalanced i hdr pkt = record {
    settle = λ n w o. After-get_bus i _ w (λ bus at.
        After-bind (start_ctx p hdr) (begin_ctx p bus hdr pkt) w (start_ctx-Owes p n hdr w o)
          (λ started w' h. begin_ctx-Owes p n bus hdr pkt started w' h));
  }

  rx_middle-Owes :
      (n : ℕ) (bus : Bus) (hdr : Hdr) (pkt : Pktbuf) (k : ℕ) (c : MsgCtx) (w : World)
      → get_elem? w.mctp.msg_ctxs k ≡ some c
      → one c.buf ≡ 1
      → Settled n w
      → After (λ u. Settled n) (rx_middle p bus hdr pkt k c w)
  unfolding rx_middle
  rx_middle-Owes n bus hdr pkt k c w at full o =
      elim (Bool-cases
        (not (exp_seq c == seq_of hdr.flags_seq_tag) || not (pktbuf_size pkt == c.fragment_size))) [
          | inl wrong ↦ rw (rx_middle, wrong) (ctx_drop-Owes n bus k c w (c, at, full) o)
          | inr fits ↦ elim (Option-cases (ctx_add_pkt c pkt)) [
            | inl no_room ↦
                rw (rx_middle, fits, no_room) (ctx_drop-Owes n bus k c w (c, at, full) o)
            | inr (c', added) ↦
                rw (rx_middle, fits, added)
                  (put_ctx-Owes n k (record c' { last_seq = seq_of hdr.flags_seq_tag }) w
                    (c, at, sym (ctx_add_pkt-one c pkt added)) o)
          ]
        ]

  rx_end-Owes :
      (n : ℕ) (i : ℕ) (bus : Bus) (hdr : Hdr) (pkt : Pktbuf) (k : ℕ) (c : MsgCtx) (w : World)
      → get_elem? w.mctp.msg_ctxs k ≡ some c
      → one c.buf ≡ 1
      → Settled n w
      → After (λ u. Settled n) (rx_end p i bus hdr pkt k c w)
  unfolding rx_end
  rx_end-Owes n i bus hdr pkt k c w at full o =
      elim (Bool-cases
        (not (exp_seq c == seq_of hdr.flags_seq_tag) || ltb c.fragment_size (pktbuf_size pkt))) [
          | inl wrong ↦ rw (rx_end, wrong) (ctx_drop-Owes n bus k c w (c, at, full) o)
          | inr fits ↦ elim (Option-cases (ctx_add_pkt c pkt)) [
            | inl no_room ↦ rw (rx_end, fits, no_room) (ctx_drop-Owes n bus k c w (c, at, full) o)
            | inr (c', added) ↦
                rw (rx_end, fits, added)
                  (After-bind (handle c') (λ _. ctx_drop bus k c') (placed c')
                    ((rx-IsNeutral p i c'.src c'.dest (tag_owner_of hdr.flags_seq_tag)
                        (tag_of hdr.flags_seq_tag) (ctx_msg c')).run
                      0 (frame (placed c')) (placed c')
                      (refl, (put_ctx-Owes n k c' w (c, at, same c' added) o).holds.1))
                    (λ u w' o'.
                      ctx_drop-Owes n bus k c' w'
                        (
                          c',
                          ap (λ (g : Frame). get_elem? g.0 k) o'.0
                              ∙ get_elem?-set_self w.mctp.msg_ctxs k c'
                                  (lt_length-get_elem? w.mctp.msg_ctxs k at),
                          ctx_add_pkt-one c pkt added ∙ full,
                        )
                        (ap (λ (g : Frame). g.1) o'.0 ∙ o.0, o'.1)))
          ]
        ]
    where
      handle : MsgCtx → M (Unit {0})
      handle c' =
          rx p i c'.src c'.dest (tag_owner_of hdr.flags_seq_tag) (tag_of hdr.flags_seq_tag)
            (ctx_msg c')

      placed : MsgCtx → World
      placed c' = record w { mctp = record (w.mctp) { msg_ctxs = set w.mctp.msg_ctxs k c' } }

      same : (c' : MsgCtx) → ctx_add_pkt c pkt ≡ some c' → one c.buf ≡ one c'.buf
      same c' added = sym (ctx_add_pkt-one c pkt added)

  -- What is done with a context that holds a block.
  rx_next-IsBalanced :
      (handle : Bus → ℕ → MsgCtx → M (Unit {0})) (i : ℕ) (hdr : Hdr)
      → ((n : ℕ) (bus : Bus) (k : ℕ) (c : MsgCtx) (w : World)
          → get_elem? w.mctp.msg_ctxs k ≡ some c
          → one c.buf ≡ 1
          → Settled n w
          → After (λ u. Settled n) (handle bus k c w))
      → IsBalanced (rx_next p handle i hdr)
  unfolding rx_next
  rx_next-IsBalanced handle i hdr step = record {
    settle = λ n w o. After-get_bus i _ w (λ bus on.
        elim (Option-cases
          (ctx_lookup hdr.src hdr.dest (tag_of hdr.flags_seq_tag) w.mctp.msg_ctxs)) [
            | inl unknown ↦ rw (◌>>=◌, gets, unknown) (After-done tt w o)
            | inr (k, found) ↦
                let (c, at, full) =
                  lookup-one hdr.src hdr.dest (tag_of hdr.flags_seq_tag) w.mctp.msg_ctxs found in
                rw (◌>>=◌, gets, found, at) (step n bus k c w at full o)
          ]);
  }

  rx_switch-IsBalanced : (i : ℕ) (hdr : Hdr) (pkt : Pktbuf) → IsBalanced (rx_switch p i hdr pkt)
  unfolding rx_switch
  rx_switch-IsBalanced i hdr pkt =
      if-IsBalanced (flags_of hdr.flags_seq_tag == 192) _ _ (rx_single-IsBalanced i hdr pkt) (
        if-IsBalanced (flags_of hdr.flags_seq_tag == 128) _ _ (rx_start-IsBalanced i hdr pkt) (
          if-IsBalanced (flags_of hdr.flags_seq_tag == 64) _ _
            (rx_next-IsBalanced (λ bus k c. rx_end p i bus hdr pkt k c) i hdr
              (λ n bus k c w. rx_end-Owes n i bus hdr pkt k c w))
            (rx_next-IsBalanced (λ bus k c. rx_middle p bus hdr pkt k c) i hdr
              (λ n bus k c w. rx_middle-Owes n bus hdr pkt k c w))))

  pub bus_rx-IsBalanced : (i : ℕ) (pkt : Pktbuf) → IsBalanced (bus_rx p i pkt)
  unfolding bus_rx
  bus_rx-IsBalanced i pkt =
      search (balanced_rules, neutral_rules, emit-captured, rx_switch-IsBalanced) depth 9

  pub rx_all-Owes :
      (n i : ℕ) (pkts : List Pktbuf) (w : World)
      → Settled n w
      → After (λ u. Settled n) (rx_all p i pkts w)
  unfolding rx_all
  rx_all-Owes n i [] w o = After-done tt w o
  rx_all-Owes n i (pkt ∷ pkts) w o =
      After-bind (bus_rx p i pkt) (λ _. rx_all p i pkts) w ((bus_rx-IsBalanced i pkt).settle n w o)
        (λ u w' o'. rx_all-Owes n i pkts w' o')
