-- ===== src/Core/Reassembly/Bounds.antt =====
-- A reassembly context never writes outside its block, and holds the bytes that it was given.
use ps_libmctp_win.Prelude.{
  ℕ, ◌+◌, ◌-◌, ◌≤◌, ◌<◌, ◌≡◌, ◌⊎◌, inl, inr, ◌∙◌, refl, subst, ltb-false→le, none, some, List, ◌++◌,
  length, slice, take, write_at, arith, size_mod, Bool-cases, ltb, length-write_at, take-write_at,
  length-slice,
}
use ps_libmctp_win.Packet.{Pktbuf, data_off}
use ps_libmctp_win.Core.State.{MsgCtx}
use ps_libmctp_win.Core.Reassembly.{pkt_len, ctx_add_pkt}

-- A context whose block holds `bytes`.
pub record IsHolding (c : MsgCtx) (bytes : List ℕ) : Type 0 where
  pub block : c.buf ≡ some bytes
  pub sized : length bytes ≡ c.buf_alloc_size
  pub within : c.buf_size ≤ c.buf_alloc_size
  pub small : c.buf_alloc_size < size_mod

-- A packet with a whole header at its start.
pub record IsPkt (pkt : Pktbuf) : Type 0 where
  pub at_start : pkt.mctp_hdr_off ≡ pkt.start
  pub has_hdr : pkt.start + 4 ≤ pkt.end
  pub stored : pkt.end ≤ length pkt.bytes
  pub small : length pkt.bytes < size_mod

-- The payload of a packet.
abbrev pub payload : Pktbuf → List ℕ
payload pkt = slice pkt.bytes (data_off pkt) (pkt_len pkt)

pub pkt_len_lem : {pkt : Pktbuf} → IsPkt pkt → pkt_len pkt ≡ pkt.end - pkt.start - 4
pkt_len_lem v = omega arith

pub length-payload : (pkt : Pktbuf) → IsPkt pkt → length (payload pkt) ≡ pkt_len pkt
length-payload pkt v = length-slice pkt.bytes (data_off pkt) (pkt_len pkt) (omega arith)

-- The context with a packet's payload behind what it holds.
abbrev pub extended : MsgCtx → List ℕ → Pktbuf → MsgCtx
extended c bytes pkt = record c {
  buf = some (write_at bytes c.buf_size (payload pkt));
  buf_size = c.buf_size + pkt_len pkt;
}

-- For a context that holds a block of its size and a packet with a whole header:
-- `mctp_msg_ctx_add_pkt` refuses a payload that the block has no room for, and copies any other
-- behind the bytes held so far, within the block.
pub ctx_add_pkt_lem :
    (c : MsgCtx) (bytes : List ℕ) (pkt : Pktbuf)
    → IsHolding c bytes
    → IsPkt pkt
    → (c.buf_alloc_size < c.buf_size + pkt_len pkt) × (ctx_add_pkt c pkt ≡ none)
      ⊎ ((ctx_add_pkt c pkt ≡ some (extended c bytes pkt))
          × IsHolding (extended c bytes pkt) (write_at bytes c.buf_size (payload pkt))
          × (take (c.buf_size + pkt_len pkt) (write_at bytes c.buf_size (payload pkt))
              ≡ take c.buf_size bytes ++ payload pkt))
unfolding ctx_add_pkt
ctx_add_pkt_lem c bytes pkt h v =
    elim (Bool-cases (ltb c.buf_alloc_size (c.buf_size + pkt_len pkt))) [
      | inl big ↦ inl (ground arith, ground (arith, pkt_len_lem v))
      | inr fits ↦ inr (
        ground arith,
        record {
          block = refl;
          sized = length-write_at bytes c.buf_size (payload pkt) ∙ h.sized;
          within = ltb-false→le c.buf_alloc_size (c.buf_size + pkt_len pkt) fits;
          small = h.small;
        },
        subst
            (λ n.
              take (c.buf_size + n) (write_at bytes c.buf_size (payload pkt))
              ≡ take c.buf_size bytes ++ payload pkt)
            (length-payload pkt v)
            (take-write_at bytes c.buf_size (payload pkt) (
              omega (
                arith,
                h.sized,
                length-payload pkt v,
                ltb-false→le c.buf_alloc_size (c.buf_size + pkt_len pkt) fits,
              ))),
      )
    ]

-- The payload goes in where there is room for it.
pub ctx_add_pkt-room :
    (c : MsgCtx) (bytes : List ℕ) (pkt : Pktbuf)
    → IsHolding c bytes
    → IsPkt pkt
    → c.buf_size + pkt_len pkt ≤ c.buf_alloc_size
    → (ctx_add_pkt c pkt ≡ some (extended c bytes pkt))
      × IsHolding (extended c bytes pkt) (write_at bytes c.buf_size (payload pkt))
      × (take (c.buf_size + pkt_len pkt) (write_at bytes c.buf_size (payload pkt))
          ≡ take c.buf_size bytes ++ payload pkt)
ctx_add_pkt-room c bytes pkt h v room = elim (ctx_add_pkt_lem c bytes pkt h v) [
  | inl big ↦ absurd (omega (arith, big.0))
  | inr fits ↦ fits
]
