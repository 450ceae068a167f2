-- ===== src/Packet/Bounds.antt =====
-- The bounds of a packet buffer, and that its operations keep them and move the right bytes.
use ps_libmctp_win.Prelude.{
  ℕ, ◌+◌, ◌-◌, ◌≤◌, ◌<◌, ◌≡◌, ◌↔◌, ◌⊎◌, add_size, ◌++◌, none, some, List, true, false, refl, ap,
  length, slice, write_at, arith, size_mod, sub_size, slice-add, ◌∙◌, length-write_at,
  length-replicate, replicate, slice-write_at_end, mod-eq_of_lt, Bool-cases, ltb, inl, inr,
}
use ps_libmctp_win.Packet.{
  Binding, Pktbuf, storage_size, pktbuf_init, pktbuf_alloc, pktbuf_size, pktbuf_push, pktbuf_pop,
  contents,
}

-- `start` to `end` lies in the storage, which holds `size` bytes.
pub record IsValid (pkt : Pktbuf) : Type 0 where
  pub ordered : pkt.start ≤ pkt.end
  pub within : pkt.end ≤ pkt.size
  pub stored : pkt.size ≤ length pkt.bytes
  pub small : pkt.size < size_mod

-- The sizes of a binding do not wrap when they are added.
abbrev pub IsSized : Binding → Type 0
IsSized b = b.pkt_size + b.pkt_header + b.pkt_trailer < size_mod

-- For a binding whose sizes do not wrap and a length that does not wrap past the header room, when
-- the allocator returns a block: `mctp_pktbuf_alloc` fails exactly when the length alone is more
-- than the storage. Otherwise the packet has that length, and it fits its storage exactly when the
-- header room and the length together do.
pub pktbuf_alloc_bounds :
    (b : Binding) (len : ℕ)
    → IsSized b
    → b.pkt_header + len < size_mod
    → (storage_size b < len) × (pktbuf_alloc b len true ≡ none)
      ⊎ (len ≤ storage_size b)
        × ((pkt : Pktbuf) × (pktbuf_alloc b len true ≡ some pkt)
            × (pktbuf_size pkt ≡ len)
            × (IsValid pkt ↔ (b.pkt_header + len ≤ storage_size b)))
unfolding pktbuf_alloc pktbuf_init
pktbuf_alloc_bounds b len s l = elim (Bool-cases (ltb (storage_size b) len)) [
  | inl over ↦ inl (ground arith, rw over)
  | inr fits ↦ inr (
    ground arith,
    (pktbuf, rw fits, ground arith, ground (arith, length-replicate {A = ℕ} (storage_size b) 0)),
  )
]
  where
    pktbuf : Pktbuf
    pktbuf = record {
      start = b.pkt_header;
      end = add_size b.pkt_header len;
      size = storage_size b;
      mctp_hdr_off = b.pkt_header;
      alloc = true;
      bytes = replicate (storage_size b) 0;
    }

-- If the end of a valid buffer and the bytes to add do not wrap: `mctp_pktbuf_push` fails when the
-- bytes do not fit, and otherwise returns a valid buffer with the same start, whose contents have
-- grown by those bytes.
pub pktbuf_push_lem :
    (pkt : Pktbuf) (src : List ℕ)
    → IsValid pkt
    → pkt.end + length src < size_mod
    → (pkt.size < pkt.end + length src) × (pktbuf_push pkt src ≡ none)
      ⊎ ((pkt' : Pktbuf) × (pktbuf_push pkt src ≡ some pkt')
          × IsValid pkt'
          × (pkt'.start ≡ pkt.start)
          × (contents pkt' ≡ contents pkt ++ src))
unfolding pktbuf_push
pktbuf_push_lem pkt src v h = elim (Bool-cases (ltb pkt.size (add_size pkt.end (length src)))) [
  | inl big ↦ inl (ground arith, rw big)
  | inr fits ↦
      inr
        (grown, rw fits, ground (arith, length-write_at pkt.bytes pkt.end src), refl, extended fits)
]
  where
    grown : Pktbuf
    grown = record pkt {
      end = add_size pkt.end (length src);
      bytes = write_at pkt.bytes pkt.end src;
    }

    extended :
        ltb pkt.size (add_size pkt.end (length src)) ≡ false → contents grown ≡ contents pkt ++ src
    extended fits =
        rw (mod-eq_of_lt h)
          (slice-write_at_end pkt.bytes pkt.start pkt.end src v.ordered (ground arith))

-- `mctp_pktbuf_pop` of a valid buffer fails when the buffer holds fewer bytes than asked for, and
-- otherwise returns the offset of the bytes taken and a valid buffer, of which they are the part
-- cut off.
pub pktbuf_pop_lem :
    (pkt : Pktbuf) (len : ℕ)
    → IsValid pkt
    → (pkt.end < pkt.start + len) × (pktbuf_pop pkt len ≡ none)
      ⊎ ((pkt' : Pktbuf) × (pktbuf_pop pkt len ≡ some (pkt.end - len, pkt'))
          × IsValid pkt'
          × (contents pkt ≡ contents pkt' ++ slice pkt.bytes pkt'.end len))
unfolding pktbuf_pop
pktbuf_pop_lem pkt len v = elim (Bool-cases (ltb (pktbuf_size pkt) len)) [
  | inl short ↦ inl (ground arith, rw short)
  | inr enough ↦ inr (cut, rw enough (ground arith), ground arith, rest enough)
]
  where
    cut : Pktbuf
    cut = record pkt { end = sub_size pkt.end len }

    rest :
        ltb (pktbuf_size pkt) len ≡ false
        → contents pkt ≡ contents cut ++ slice pkt.bytes cut.end len
    rest enough =
        ap (slice pkt.bytes pkt.start) parted
        ∙ slice-add pkt.bytes pkt.start (cut.end - pkt.start) len
        ∙ ap (λ o. contents cut ++ slice pkt.bytes o len) (ground arith)
      where
        parted : pkt.end - pkt.start ≡ cut.end - pkt.start + len
        parted = ground arith
