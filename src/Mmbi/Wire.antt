-- ===== src/Mmbi/Wire.antt =====
-- Packets on the wire of the MMBI binding: what is written is read back as the same packet.
use ps_libmctp_win.Prelude.{
  drop-take, ℕ, ◌+◌, ◌-◌, ◌≤◌, ◌<◌, ◌≡◌, ◌∙◌, ap, ap₂, sym, refl, true, some, List, length, take,
  drop, slice, write_at, get_or, replicate, arith, length-slice, length-write_at, length-replicate,
  get_or-take, get_or-drop, slice-write_at, drop-drop,
}
use ps_libmctp_win.Header.{read_hdr}
use ps_libmctp_win.Packet.{
  Binding, Pktbuf, hdr_off, data_off, pktbuf_size, storage_size, pktbuf_alloc, pktbuf_init,
}
use ps_libmctp_win.Core.State.{success, Platform, World, done, pure, bind-done}
use ps_libmctp_win.Core.Transmit.Fragments.{View, view, view_of}
use ps_libmctp_win.Core.Receive.{bus_rx}
use ps_libmctp_win.Core.Reassembly.Bounds.{IsPkt}
use ps_libmctp_win.Mmbi.{Mmbi, wire, receive_bytes}

-- The view of the packet whose bytes are these.
unfoldable pub view_bytes : List ℕ → View
view_bytes bytes = view_of (read_hdr bytes 0) (drop 4 bytes)

get_or-slice :
    (xs : List ℕ) (off n k : ℕ) → k < n → get_or (slice xs off n) k 0 ≡ get_or xs (off + k) 0
get_or-slice xs off n k h = get_or-take n (drop off xs) k 0 h ∙ get_or-drop off xs k 0

get_or-zero : (xs : List ℕ) (off : ℕ) → get_or xs (off + 0) 0 ≡ get_or xs off 0
get_or-zero xs off = ap (λ k. get_or xs k 0) zero_lem
  where
    zero_lem : off + 0 ≡ off
    zero_lem = omega arith

-- The header lies in the first four bytes.
read_hdr-slice : (xs : List ℕ) (off n : ℕ) → 4 ≤ n → read_hdr (slice xs off n) 0 ≡ read_hdr xs off
unfolding read_hdr
read_hdr-slice xs off n h = λ i. record {
  ver = (get_or-slice xs off n 0 (omega arith) ∙ get_or-zero xs off) i;
  dest = get_or-slice xs off n 1 (omega arith) i;
  src = get_or-slice xs off n 2 (omega arith) i;
  flags_seq_tag = get_or-slice xs off n 3 (omega arith) i;
}

drop-slice :
    (xs : List ℕ) (off n : ℕ) → 4 ≤ n → drop 4 (slice xs off n) ≡ slice xs (off + 4) (n - 4)
drop-slice xs off n h =
    ap (λ m. drop 4 (take m (drop off xs))) (omega arith)
    ∙ drop-take 4 (n - 4) (drop off xs)
    ∙ ap (take (n - 4)) (drop-drop xs off 4)

-- The receiver of a packet reads what is on the wire.
pub view-wire : (pkt : Pktbuf) → IsPkt pkt → view_bytes (wire pkt) ≡ view pkt
unfolding view view_bytes
view-wire pkt v = ap₂ view_of (read_hdr-slice pkt.bytes pkt.mctp_hdr_off (pktbuf_size pkt) long) (
    drop-slice pkt.bytes pkt.mctp_hdr_off (pktbuf_size pkt) long
    ∙ ap (slice pkt.bytes (data_off pkt)) (omega (arith, v.at_start, v.has_hdr, v.stored, v.small)))
  where
    long : 4 ≤ pktbuf_size pkt
    long = omega (arith, v.at_start, v.has_hdr, v.stored, v.small)

pub length-wire : (pkt : Pktbuf) → IsPkt pkt → length (wire pkt) ≡ pkt.end - pkt.start
length-wire pkt v =
    length-slice pkt.bytes (hdr_off pkt) (pktbuf_size pkt)
      (omega (arith, v.at_start, v.has_hdr, v.stored, v.small))
    ∙ omega (arith, v.at_start, v.has_hdr, v.stored, v.small)

-- The packet that `mctp_mmbi_poll` makes of the bytes that it has read.
abbrev pub arrived : Binding → List ℕ → Pktbuf
arrived b bytes = record {
  start = b.pkt_header;
  end = b.pkt_header + length bytes;
  size = storage_size b;
  mctp_hdr_off = b.pkt_header;
  alloc = true;
  bytes = write_at (replicate (storage_size b) 0) b.pkt_header bytes;
}

-- The bytes are a header at least, and fit a packet of the binding.
pub record Fits (b : Binding) (bytes : List ℕ) : Type 0 where
  pub has_hdr : 4 ≤ length bytes
  pub room : b.pkt_header + length bytes ≤ storage_size b

pub arrived-IsPkt : (b : Binding) (bytes : List ℕ) → Fits b bytes → IsPkt (arrived b bytes)
arrived-IsPkt b bytes f = record {
  at_start = refl;
  has_hdr = omega (arith, f.has_hdr);
  stored = omega (arith, stored, f.room);
  small = omega (arith, stored);
}
  where
    stored : length (arrived b bytes).bytes ≡ storage_size b
    stored =
        length-write_at (replicate (storage_size b) 0) b.pkt_header bytes
        ∙ length-replicate (storage_size b) 0

wire-arrived : (b : Binding) (bytes : List ℕ) → Fits b bytes → wire (arrived b bytes) ≡ bytes
wire-arrived b bytes f =
    ap (slice (arrived b bytes).bytes b.pkt_header) (omega (arith, f.room))
    ∙ slice-write_at (replicate (storage_size b) 0) b.pkt_header bytes
        (omega (arith, length-replicate {A = ℕ} (storage_size b) 0, f.room))

pub view-arrived :
    (b : Binding) (bytes : List ℕ) → Fits b bytes → view (arrived b bytes) ≡ view_bytes bytes
view-arrived b bytes f =
    sym (view-wire (arrived b bytes) (arrived-IsPkt b bytes f))
    ∙ ap view_bytes (wire-arrived b bytes f)

pktbuf_alloc-Fits :
    (b : Binding) (bytes : List ℕ)
    → Fits b bytes
    → pktbuf_alloc b (length bytes) true
      ≡ some (record (arrived b bytes) { bytes = replicate (storage_size b) 0 })
unfolding pktbuf_alloc pktbuf_init
pktbuf_alloc-Fits b bytes f = ground (arith, f.room)

-- The core receives the packet that holds the bytes, if its buffer is allocated.
pub receive_bytes-passes :
    (p : Platform) (i : ℕ) (m : Mmbi) (bytes : List ℕ) (w : World) {w' : World}
    → Fits m.binding bytes
    → bus_rx p i (arrived m.binding bytes) w ≡ done tt w'
    → receive_bytes p i m true bytes w ≡ done success w'
unfolding receive_bytes
receive_bytes-passes p i m bytes w {w'} f e =
    rw (receive_bytes, pktbuf_alloc-Fits m.binding bytes f)
      (bind-done (bus_rx p i (arrived m.binding bytes)) (λ _. pure success) w e)
