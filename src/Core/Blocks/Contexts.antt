-- ===== src/Core/Blocks/Contexts.antt =====
-- The blocks of the reassembly contexts: each is allocated for a free slot, and released once, by
-- mctp_msg_ctx_drop.
use ps_libmctp_win.Prelude.{
  ℕ, ◌≡◌, inl, inr, ◌∙◌, refl, sym, Option, none, some, List, get_elem?, arith, Option-cases,
  get_elem?-set_self, lt_length-get_elem?,
}
use ps_libmctp_win.Packet.{Pktbuf, pktbuf_size}
use ps_libmctp_win.Header.{Hdr, tag_of, seq_of}
use ps_libmctp_win.Core.State.{MsgCtx, Bus, World, Platform, M, ◌>>=◌, pure, gets, msg_alloc}
use ps_libmctp_win.Core.Reassembly.{
  ctx_lookup, find_from, is_unused, is_ctx_for, put_ctx, fill_ctx, ctx_reset, ctx_add_pkt, ctx_drop,
  ctx_create,
}
use ps_libmctp_win.Core.Reassembly.Lookup.{find_from-some}
use ps_libmctp_win.Core.Receive.{make_ctx, take_free, restart, pick_ctx, start_ctx, begin_ctx}
use ps_libmctp_win.Core.Blocks.{
  one, Settled, After, After-done, After-require, After-bind, ctx_blocks-set,
}

-- Slot `k` holds a block, or none.
abbrev pub SlotHas : ℕ → ℕ → World → Type 0
SlotHas n k w = (c : MsgCtx) × (get_elem? w.mctp.msg_ctxs k ≡ some c) × (one c.buf ≡ n)

pub put_ctx-Owes :
    (n : ℕ) (k : ℕ) (c : MsgCtx) (w : World)
    → SlotHas (one c.buf) k w
    → Settled n w
    → After (λ u. Settled n) (put_ctx k c w)
put_ctx-Owes n k c w (c0, at, same) o =
    After-done tt _ (o.0, omega (arith, o.1, same, ctx_blocks-set w.mctp.msg_ctxs k c at))

pub ctx_drop-Owes :
    (n : ℕ) (bus : Bus) (k : ℕ) (c : MsgCtx) (w : World)
    → SlotHas 1 k w
    → Settled n w
    → After (λ u. Settled n) (ctx_drop bus k c w)
unfolding ctx_drop
ctx_drop-Owes n bus k c w (c0, at, full) o = After-require bus.has_mctp _ w (
    After-done tt _ (
      o.0,
      omega (arith, o.1, full, ctx_blocks-set w.mctp.msg_ctxs k (record c { buf = none }) at),
    ))

-- A packet that is added keeps the context's block.
pub ctx_add_pkt-one :
    (c : MsgCtx) (pkt : Pktbuf) {c' : MsgCtx} → ctx_add_pkt c pkt ≡ some c' → one c'.buf ≡ one c.buf
unfolding ctx_add_pkt
ctx_add_pkt-one c pkt e = ground arith

-- A context that was found or made stands in a slot with a block, and has one itself.
abbrev pub IsStarted : ℕ → Option (ℕ × MsgCtx) → World → Type 0
IsStarted n none w = Settled n w
IsStarted n (some (k, c)) w = Settled n w × SlotHas 1 k w × (one c.buf ≡ 1)

abbrev IsMade : ℕ → ℕ → Option MsgCtx → World → Type 0
IsMade n k none w = Settled n w
IsMade n k (some c) w = IsStarted n (some (k, c)) w

pub lookup-one :
    (src dest tag : ℕ) (cs : List MsgCtx) {k : ℕ}
    → ctx_lookup src dest tag cs ≡ some k
    → (c : MsgCtx) × (get_elem? cs k ≡ some c) × (one c.buf ≡ 1)
lookup-one src dest tag cs e =
    let (c, at, is) = find_from-some (is_ctx_for src dest tag) cs e in (c, at, ground arith)

unused-one :
    (cs : List MsgCtx) {k : ℕ}
    → find_from is_unused 0 cs ≡ some k
    → (c : MsgCtx) × (get_elem? cs k ≡ some c) × (one c.buf ≡ 0)
unused-one cs e = let (c, at, is) = find_from-some is_unused cs e in (c, at, ground arith)

module _ (p : Platform) where
  ctx_create-Owes :
      (n : ℕ) (src dest tag k : ℕ) (c : MsgCtx) (w : World)
      → SlotHas 0 k w
      → Settled n w
      → After (IsMade n k) (ctx_create p src dest tag k c w)
  unfolding ctx_create msg_alloc fill_ctx
  ctx_create-Owes n src dest tag k c w (c0, at, empty) o =
      elim (Option-cases (p.msg_alloc w.trace w.mctp.max_message_size)) [
        | inl refused ↦
            rw (◌>>=◌, gets, msg_alloc, refused)
              (After-done none _
                (o.0, omega (arith, o.1, empty, ctx_blocks-set w.mctp.msg_ctxs k (filled none) at)))
        | inr (block, granted) ↦
            rw (◌>>=◌, gets, msg_alloc, granted)
              (After-done (some (filled (some block))) _ (
                (
                  o.0,
                  omega (
                    arith,
                    o.1,
                    empty,
                    ctx_blocks-set w.mctp.msg_ctxs k (filled (some block)) at,
                  ),
                ),
                (
                  filled (some block),
                  get_elem?-set_self w.mctp.msg_ctxs k (filled (some block))
                      (lt_length-get_elem? w.mctp.msg_ctxs k at),
                  refl,
                ),
                refl,
              ))
      ]
    where
      filled : Option (List ℕ) → MsgCtx
      filled buf = fill_ctx src dest tag w.mctp.max_message_size buf c

  make_ctx-Owes :
      (n : ℕ) (hdr : Hdr) (k : ℕ) (w : World)
      → SlotHas 0 k w
      → Settled n w
      → After (IsStarted n) (make_ctx p hdr k (get_elem? w.mctp.msg_ctxs k) w)
  unfolding make_ctx
  make_ctx-Owes n hdr k w (c, at, empty) o = rw at (
      After-bind (ctx_create p hdr.src hdr.dest (tag_of hdr.flags_seq_tag) k c) _ w
        (ctx_create-Owes n hdr.src hdr.dest (tag_of hdr.flags_seq_tag) k c w (c, at, empty) o) made)
    where
      taken : Option MsgCtx → M (Option (ℕ × MsgCtx))
      taken r = elim r [ none ↦ pure none | some c' ↦ pure (some (k, c')) ]

      made : (r : Option MsgCtx) (w' : World) → IsMade n k r w' → After (IsStarted n) (taken r w')
      made none w' h = After-done none w' h
      made (some c') w' h = After-done (some (k, c')) w' h

  pick_ctx-Owes :
      (n : ℕ) (hdr : Hdr) (slot : Option ℕ) (w : World)
      → ctx_lookup hdr.src hdr.dest (tag_of hdr.flags_seq_tag) w.mctp.msg_ctxs ≡ slot
      → Settled n w
      → After (IsStarted n) (pick_ctx p hdr w.mctp.msg_ctxs slot w)
  unfolding pick_ctx take_free restart ctx_reset
  pick_ctx-Owes n hdr none w e o = elim (Option-cases (find_from is_unused 0 w.mctp.msg_ctxs)) [
    | inl full ↦ rw full (After-done none w o)
    | inr (k, free) ↦ rw free (make_ctx-Owes n hdr k w (unused-one w.mctp.msg_ctxs free) o)
  ]
  pick_ctx-Owes n hdr (some k) w e o =
      let (c, at, full) =
        lookup-one hdr.src hdr.dest (tag_of hdr.flags_seq_tag) w.mctp.msg_ctxs e in
      rw at (After-done (some (k, ctx_reset c)) w (o, (c, at, full), full))

  pub start_ctx-Owes :
      (n : ℕ) (hdr : Hdr) (w : World) → Settled n w → After (IsStarted n) (start_ctx p hdr w)
  unfolding start_ctx
  start_ctx-Owes n hdr w o =
      pick_ctx-Owes n hdr (ctx_lookup hdr.src hdr.dest (tag_of hdr.flags_seq_tag) w.mctp.msg_ctxs) w
        refl o

  pub begin_ctx-Owes :
      (n : ℕ) (bus : Bus) (hdr : Hdr) (pkt : Pktbuf) (started : Option (ℕ × MsgCtx)) (w : World)
      → IsStarted n started w
      → After (λ u. Settled n) (begin_ctx p bus hdr pkt started w)
  unfolding begin_ctx
  begin_ctx-Owes n bus hdr pkt none w o = After-done tt w o
  begin_ctx-Owes n bus hdr pkt (some (k, c)) w (o, slot, full) =
      elim (Option-cases (ctx_add_pkt (record c { fragment_size = pktbuf_size pkt }) pkt)) [
        | inl no_room ↦ rw (begin_ctx, no_room) (ctx_drop-Owes n bus k _ w slot o)
        | inr (c', added) ↦
            rw (begin_ctx, added)
              (put_ctx-Owes n k (record c' { last_seq = seq_of hdr.flags_seq_tag }) w
                (slot.0, slot.1, slot.2 ∙ sym (ctx_add_pkt-one _ pkt added ∙ full)) o)
      ]
