-- ===== src/Packet.antt =====
-- Packet buffers: `struct mctp_pktbuf` and the mctp_pktbuf_* functions of src/core.c.
-- The storage that follows the struct is a list of bytes; a pointer into it is an offset.
pub mod Bounds
mod Tests
use ps_libmctp_win.Prelude.{
  ℕ, ◌+◌, ◌-◌, ◌%◌, ◌^◌, ◌≤◌, Bool, true, false, Option, none, some, List, [], replicate, length,
  slice, write_at, add_size, sub_size, ltb, leb, if◌then◌else◌,
}

-- `struct mctp_binding`, as far as the core reads it. `tx_storage` is the data region of the packet
-- buffer that the binding lends for transmission. A function pointer that may be NULL is a flag.
pub record Binding : Type 0 where
  pub version : ℕ
  pub pkt_size : ℕ
  pub pkt_header : ℕ
  pub pkt_trailer : ℕ
  pub has_tx_storage : Bool
  pub tx_storage : List ℕ
  pub has_start : Bool
  pub has_control_rx : Bool

pub record Pktbuf : Type 0 where
  pub start : ℕ
  pub end : ℕ
  pub size : ℕ
  pub mctp_hdr_off : ℕ
  pub alloc : Bool
  pub bytes : List ℕ

-- sizeof(struct mctp_hdr)
abbrev pub hdr_size : ℕ
hdr_size = 4

-- The room that a binding's packets take.
abbrev pub storage_size : Binding → ℕ
storage_size b = add_size (add_size b.pkt_size b.pkt_header) b.pkt_trailer

-- `mctp_pktbuf_init` over a storage whose data region holds `bytes`.
unfoldable pub pktbuf_init : Binding → List ℕ → Pktbuf
pktbuf_init b bytes = record {
  start = b.pkt_header;
  end = b.pkt_header;
  size = storage_size b;
  mctp_hdr_off = b.pkt_header;
  alloc = false;
  bytes = bytes;
}

-- `mctp_pktbuf_alloc`; `storage_ok` says whether the allocator returned a block, which the function
-- then clears.
unfoldable pub pktbuf_alloc : Binding → ℕ → Bool → Option Pktbuf
unfolding pktbuf_init
pktbuf_alloc b len storage_ok =
    if ltb (storage_size b) len then none else if storage_ok then some allocated else none
  where
    fresh : Pktbuf
    fresh = pktbuf_init b (replicate (storage_size b) 0)

    allocated : Pktbuf
    allocated = record fresh { alloc = true; end = add_size fresh.start len }

-- The byte offset of `mctp_pktbuf_hdr` and of `mctp_pktbuf_data`.
abbrev pub hdr_off : Pktbuf → ℕ
hdr_off pkt = pkt.mctp_hdr_off

abbrev pub data_off : Pktbuf → ℕ
data_off pkt = pkt.mctp_hdr_off + hdr_size

abbrev pub pktbuf_size : Pktbuf → ℕ
pktbuf_size pkt = sub_size pkt.end pkt.start

-- The assertion of `mctp_pktbuf_alloc_start` is the `none`; the offset of the new start otherwise.
unfoldable pub pktbuf_alloc_start : Pktbuf → ℕ → Option (ℕ × Pktbuf)
pktbuf_alloc_start pkt n =
    if leb n pkt.start then some (pkt.start - n, record pkt { start = pkt.start - n }) else none

unfoldable pub pktbuf_alloc_end : Pktbuf → ℕ → Option (ℕ × Pktbuf)
pktbuf_alloc_end pkt n =
    if leb n (sub_size pkt.size pkt.end)
    then some (pkt.end, record pkt { end = add_size pkt.end n })
    else none

-- `mctp_pktbuf_push`: 0 and the buffer with the bytes copied to its end, or -1 (`none`).
unfoldable pub pktbuf_push : Pktbuf → List ℕ → Option Pktbuf
pktbuf_push pkt src =
    if ltb pkt.size (add_size pkt.end (length src))
    then none
    else some
        (record pkt { end = add_size pkt.end (length src); bytes = write_at pkt.bytes pkt.end src })

-- `mctp_pktbuf_pop`: the offset of the bytes taken off the end.
unfoldable pub pktbuf_pop : Pktbuf → ℕ → Option (ℕ × Pktbuf)
pktbuf_pop pkt len =
    if ltb (pktbuf_size pkt) len
    then none
    else some (sub_size pkt.end len, record pkt { end = sub_size pkt.end len })

-- What lies between `start` and `end`.
abbrev pub contents : Pktbuf → List ℕ
contents pkt = slice pkt.bytes pkt.start (pkt.end - pkt.start)
