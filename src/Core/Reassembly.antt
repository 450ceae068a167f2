-- ===== src/Core/Reassembly.antt =====
-- Message reassembly in src/core.c: the mctp_msg_ctx_* functions.
pub mod Bounds
pub mod Lookup
use ps_libmctp_win.Prelude.{
  ℕ, suc, ◌+◌, Bool, true, false, Option, none, some, List, [], ◌∷◌, length, set, slice, write_at,
  add_size, sub_size, ltb, ◌==◌, ◌&&◌, ◌||◌, if◌then◌else◌, is_some,
}
use ps_libmctp_win.Packet.{Pktbuf, hdr_size, data_off, pktbuf_size}
use ps_libmctp_win.Core.State.{
  MsgCtx, Bus, Mctp, Platform, World, M, ◌>>=◌, ◌>>◌, pure, gets, modify, emit, require, get_bus,
  freed, msg_alloc,
}

abbrev pub is_ctx_for : ℕ → ℕ → ℕ → MsgCtx → Bool
is_ctx_for src dest tag c = is_some c.buf && c.src == src && c.dest == dest && c.tag == tag

-- The index of the first item that passes a test, counted from `i`.
unfoldable pub find_from {ℓ} : {A : Type ℓ} → (A → Bool) → ℕ → List A → Option ℕ
find_from test i [] = none
find_from test i (x ∷ xs) = if test x then some i else find_from test (suc i) xs

-- `mctp_msg_ctx_lookup`: the index of the context.
abbrev pub ctx_lookup : ℕ → ℕ → ℕ → List MsgCtx → Option ℕ
ctx_lookup src dest tag = find_from (is_ctx_for src dest tag) 0

abbrev pub is_unused : MsgCtx → Bool
is_unused c = if is_some c.buf then false else true

abbrev pub put_ctx : ℕ → MsgCtx → M (Unit {0})
put_ctx k c = modify (λ m. record m { msg_ctxs = set m.msg_ctxs k c })

-- The context of `mctp_msg_ctx_create` when its buffer has been asked for. The fields that the
-- function does not write keep what the slot held.
unfoldable pub fill_ctx : ℕ → ℕ → ℕ → ℕ → Option (List ℕ) → MsgCtx → MsgCtx
fill_ctx src dest tag alloc_size buf c = record c {
  src = src;
  dest = dest;
  tag = tag;
  buf_size = 0;
  buf_alloc_size = alloc_size;
  buf = buf;
}

-- `mctp_msg_ctx_reset`
unfoldable pub ctx_reset : MsgCtx → MsgCtx
ctx_reset c = record c { buf_size = 0; fragment_size = 0 }

-- The number of payload bytes of a packet.
abbrev pub pkt_len : Pktbuf → ℕ
pkt_len pkt = sub_size (pktbuf_size pkt) hdr_size

-- `mctp_msg_ctx_add_pkt`; `none` is -1.
unfoldable pub ctx_add_pkt : MsgCtx → Pktbuf → Option MsgCtx
ctx_add_pkt c pkt =
    let len = pkt_len pkt in
    if ltb (add_size len c.buf_size) c.buf_size || ltb c.buf_alloc_size (add_size c.buf_size len)
    then none
    else some (record c {
      buf = elim c.buf [
        | none ↦ none
        | some bytes ↦ some (write_at bytes c.buf_size (slice pkt.bytes (data_off pkt) len))
      ];
      buf_size = add_size c.buf_size len;
    })

-- `mctp_msg_ctx_drop`: the block is released with the instance that the bus points at.
unfoldable pub ctx_drop : Bus → ℕ → MsgCtx → M (Unit {0})
ctx_drop bus k c = do require bus.has_mctp; emit freed; put_ctx k (record c { buf = none })

module _ (p : Platform) where
  -- `mctp_msg_ctx_create` in the free slot `k`.
  unfoldable pub ctx_create : ℕ → ℕ → ℕ → ℕ → MsgCtx → M (Option MsgCtx)
  ctx_create src dest tag k c = do
    size ← gets (λ m. m.max_message_size)
    buf ← msg_alloc p size
    put_ctx k (fill_ctx src dest tag size buf c)
    pure (if is_some buf then some (fill_ctx src dest tag size buf c) else none)
