-- ===== src/Core/Safety/Contexts.antt =====
-- The reassembly contexts of an endpoint.
use ps_libmctp_win.Prelude.{
  ℕ, ◌≡◌, ◌⊎◌, inl, inr, refl, Bool, true, none, some, Option, List, ◌∷◌, arith, get_elem?,
  Option-cases, Bool-cases, set, All-set, All-get_elem?, add_size, ltb, ◌||◌, subst, sym,
}
use ps_libmctp_win.Packet.{Pktbuf, pktbuf_size}
use ps_libmctp_win.Header.{Hdr, tag_of, seq_of}
use ps_libmctp_win.Core.State.{
  Bus, MsgCtx, World, Platform, AllocatesSize, M, ◌>>=◌, pure, gets, msg_alloc, allocated,
  alloc_failed, Event,
}
use ps_libmctp_win.Core.Reassembly.{
  ctx_lookup, find_from, is_unused, put_ctx, fill_ctx, ctx_reset, ctx_add_pkt, ctx_drop, ctx_create,
  pkt_len,
}
use ps_libmctp_win.Core.Reassembly.Bounds.{IsHolding, IsPkt, extended, ctx_add_pkt_lem}
use ps_libmctp_win.Core.Receive.{make_ctx, take_free, restart, pick_ctx, start_ctx, begin_ctx}
use ps_libmctp_win.Core.Receive.Steps.{ctx_drop-done}
use ps_libmctp_win.Core.Safety.{
  IsCtx, IsCtxWith, IsEndpoint, Ensures, Keeps, Returns-by, Ensures-bind, with_ctxs,
}

pub put_ctx-Keeps :
    (k : ℕ) (c : MsgCtx) (w : World) → IsEndpoint w.mctp → IsCtx c → Keeps (put_ctx k c) w
put_ctx-Keeps k c w v h = (
  tt,
  _,
  refl,
  with_ctxs w.mctp (set w.mctp.msg_ctxs k c) v (All-set IsCtx w.mctp.msg_ctxs k c v.ctxs h),
)

pub ctx_drop-Keeps :
    (bus : Bus) (k : ℕ) (c : MsgCtx) (w : World)
    → IsEndpoint w.mctp
    → bus.has_mctp ≡ true
    → Keeps (ctx_drop bus k c) w
ctx_drop-Keeps bus k c w v linked =
    let freed_ctx = record c { buf = none } in
    (
      tt,
      _,
      ctx_drop-done bus k c w linked,
      with_ctxs w.mctp (set w.mctp.msg_ctxs k freed_ctx) v
          (All-set IsCtx w.mctp.msg_ctxs k freed_ctx v.ctxs tt),
    )

-- The other fields of a context do not matter.
pub IsCtx-fragment : (c : MsgCtx) (n : ℕ) → IsCtx c → IsCtx (record c { fragment_size = n })
IsCtx-fragment c n h = go c.buf h
  where
    go : (o : Option (List ℕ)) → IsCtxWith o c → IsCtxWith o (record c { fragment_size = n })
    go none r = tt
    go (some bytes) r = record {
      block = r.block;
      sized = r.sized;
      within = r.within;
      small = r.small;
    }

pub IsCtx-seq : (c : MsgCtx) (n : ℕ) → IsCtx c → IsCtx (record c { last_seq = n })
IsCtx-seq c n h = go c.buf h
  where
    go : (o : Option (List ℕ)) → IsCtxWith o c → IsCtxWith o (record c { last_seq = n })
    go none r = tt
    go (some bytes) r = record {
      block = r.block;
      sized = r.sized;
      within = r.within;
      small = r.small;
    }

ctx_reset-IsCtx : (c : MsgCtx) → IsCtx c → IsCtx (ctx_reset c)
unfolding ctx_reset
ctx_reset-IsCtx c h = go c.buf h
  where
    go :
        (o : Option (List ℕ))
        → IsCtxWith o c
        → IsCtxWith o (record c { buf_size = 0; fragment_size = 0 })
    go none r = tt
    go (some bytes) r = record {
      block = r.block;
      sized = r.sized;
      within = omega arith;
      small = r.small;
    }

IsCtx-held : (c : MsgCtx) {bytes : List ℕ} → IsHolding c bytes → IsCtx c
IsCtx-held c h = subst (λ o. IsCtxWith o c) (sym h.block) h

-- The test for a packet that a context has no room for.
abbrev overflows : MsgCtx → ℕ → Bool
overflows c len =
    ltb (add_size len c.buf_size) c.buf_size || ltb c.buf_alloc_size (add_size c.buf_size len)

-- A packet that is added leaves a context in bounds.
pub ctx_add_pkt-IsCtx :
    (c : MsgCtx) (pkt : Pktbuf)
    → IsPkt pkt
    → IsCtx c
    → (ctx_add_pkt c pkt ≡ none) ⊎ ((c' : MsgCtx) × (ctx_add_pkt c pkt ≡ some c') × IsCtx c')
unfolding ctx_add_pkt
ctx_add_pkt-IsCtx c pkt v h = elim (Option-cases c.buf) [
  | inl free ↦ elim (Bool-cases (overflows c (pkt_len pkt))) [
    | inl full ↦ inl (rw (ctx_add_pkt, full))
    | inr room ↦ inr (
      record c { buf = none; buf_size = add_size c.buf_size (pkt_len pkt) },
      rw (ctx_add_pkt, room, free),
      tt,
    )
  ]
  | inr (bytes, held) ↦ elim (ctx_add_pkt_lem c bytes pkt (subst (λ o. IsCtxWith o c) held h) v) [
    | inl full ↦ inl full.1
    | inr room ↦ inr (extended c bytes pkt, room.0, IsCtx-held (extended c bytes pkt) room.1)
  ]
]

-- A context that was found or made, if any.
abbrev pub IsGood : Option (ℕ × MsgCtx) → Type 0
IsGood none = Unit
IsGood (some (k, c)) = IsCtx c

module _ (p : Platform) (sized : AllocatesSize p) where
  -- The world when a context has been written to slot `k`.
  placed : ℕ → MsgCtx → Event → World → World
  placed k c e w = record {
    mctp = record (w.mctp) { msg_ctxs = set w.mctp.msg_ctxs k c };
    trace = e ∷ w.trace;
  }

  placed-IsEndpoint :
      (k : ℕ) (c : MsgCtx) (e : Event) (w : World)
      → IsEndpoint w.mctp
      → IsCtx c
      → IsEndpoint (placed k c e w).mctp
  unfolding placed
  placed-IsEndpoint k c e w v h =
      with_ctxs w.mctp (set w.mctp.msg_ctxs k c) v (All-set IsCtx w.mctp.msg_ctxs k c v.ctxs h)

  abbrev IsMade : Option MsgCtx → Type 0
  IsMade none = Unit
  IsMade (some c) = IsCtx c

  ctx_create-IsMade :
      (src dest tag k : ℕ) (c : MsgCtx) (w : World)
      → IsEndpoint w.mctp
      → Ensures (ctx_create p src dest tag k c) w (λ r w'. IsEndpoint w'.mctp × IsMade r)
  unfolding ctx_create msg_alloc fill_ctx placed
  ctx_create-IsMade src dest tag k c w v =
      let size = w.mctp.max_message_size in
      elim (Option-cases (p.msg_alloc w.trace size)) [
        | inl refused ↦
            let c' = fill_ctx src dest tag size none c in
            (
              none,
              placed k c' (alloc_failed size) w,
              rw (ctx_create, ◌>>=◌, gets, msg_alloc, refused),
              (placed-IsEndpoint k c' (alloc_failed size) w v tt, tt),
            )
        | inr (block, granted) ↦
            let c' = fill_ctx src dest tag size (some block) c in
            let held : IsHolding c' block = record {
              block = refl;
              sized = sized w.trace size block granted;
              within = omega arith;
              small = v.max_small;
            } in
            (
              some c',
              placed k c' (allocated size) w,
              rw (ctx_create, ◌>>=◌, gets, msg_alloc, granted),
              (placed-IsEndpoint k c' (allocated size) w v held, held),
            )
      ]

  -- The step leaves an endpoint, and its result is a context in bounds.
  abbrev KeepsGood : M (Option (ℕ × MsgCtx)) → World → Type 0
  KeepsGood m w = Ensures m w (λ r w'. IsEndpoint w'.mctp × IsGood r)

  indexed-KeepsGood :
      (k : ℕ) (made : Option MsgCtx) (w : World)
      → IsEndpoint w.mctp × IsMade made
      → KeepsGood (elim made [ none ↦ pure none | some c' ↦ pure (some (k, c')) ]) w
  indexed-KeepsGood k none w (v, h) = (none, w, refl, (v, tt))
  indexed-KeepsGood k (some c) w (v, h) = (some (k, c), w, refl, (v, h))

  make_ctx-KeepsGood :
      (hdr : Hdr) (k : ℕ) (found : Option MsgCtx) (w : World)
      → IsEndpoint w.mctp
      → KeepsGood (make_ctx p hdr k found) w
  unfolding make_ctx
  make_ctx-KeepsGood hdr k none w v = (none, w, refl, (v, tt))
  make_ctx-KeepsGood hdr k (some c) w v =
      Ensures-bind (ctx_create p hdr.src hdr.dest (tag_of hdr.flags_seq_tag) k c) _ w
        (ctx_create-IsMade hdr.src hdr.dest (tag_of hdr.flags_seq_tag) k c w v)
        (λ made w' h. indexed-KeepsGood k made w' h)

  take_free-KeepsGood :
      (hdr : Hdr) (slot : Option ℕ) (w : World)
      → IsEndpoint w.mctp
      → KeepsGood (take_free p hdr w.mctp.msg_ctxs slot) w
  unfolding take_free
  take_free-KeepsGood hdr none w v = (none, w, refl, (v, tt))
  take_free-KeepsGood hdr (some k) w v = make_ctx-KeepsGood hdr k (get_elem? w.mctp.msg_ctxs k) w v

  pick_ctx-KeepsGood :
      (hdr : Hdr) (slot : Option ℕ) (w : World)
      → IsEndpoint w.mctp
      → KeepsGood (pick_ctx p hdr w.mctp.msg_ctxs slot) w
  unfolding pick_ctx restart
  pick_ctx-KeepsGood hdr none w v =
      take_free-KeepsGood hdr (find_from is_unused 0 w.mctp.msg_ctxs) w v
  pick_ctx-KeepsGood hdr (some k) w v = elim (Option-cases (get_elem? w.mctp.msg_ctxs k)) [
    | inl gone ↦ (none, w, rw (restart, gone), (v, tt))
    | inr (c, at) ↦ (
      some (k, ctx_reset c),
      w,
      rw (restart, at),
      (v, ctx_reset-IsCtx c (All-get_elem? IsCtx w.mctp.msg_ctxs k v.ctxs at)),
    )
  ]

  pub start_ctx-KeepsGood :
      (hdr : Hdr) (w : World) → IsEndpoint w.mctp → KeepsGood (start_ctx p hdr) w
  unfolding start_ctx
  start_ctx-KeepsGood hdr w v =
      pick_ctx-KeepsGood hdr
        (ctx_lookup hdr.src hdr.dest (tag_of hdr.flags_seq_tag) w.mctp.msg_ctxs) w v

  pub begin_ctx-Keeps :
      (bus : Bus) (hdr : Hdr) (pkt : Pktbuf) (started : Option (ℕ × MsgCtx)) (w : World)
      → IsEndpoint w.mctp
      → bus.has_mctp ≡ true
      → IsPkt pkt
      → IsGood started
      → Keeps (begin_ctx p bus hdr pkt started) w
  unfolding begin_ctx
  begin_ctx-Keeps bus hdr pkt none w v linked h g = (tt, w, refl, v)
  begin_ctx-Keeps bus hdr pkt (some (k, c)) w v linked h g =
      let sized = record c { fragment_size = pktbuf_size pkt } in
      elim (ctx_add_pkt-IsCtx sized pkt h (IsCtx-fragment c (pktbuf_size pkt) g)) [
        | inl full ↦ Returns-by (rw (begin_ctx, full)) (ctx_drop-Keeps bus k sized w v linked)
        | inr (c', added, g') ↦ Returns-by (rw (begin_ctx, added)) (
            put_ctx-Keeps k (record c' { last_seq = seq_of hdr.flags_seq_tag }) w v
              (IsCtx-seq c' (seq_of hdr.flags_seq_tag) g'))
      ]
