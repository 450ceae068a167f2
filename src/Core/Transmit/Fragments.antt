-- ===== src/Core/Transmit/Fragments.antt =====
-- What is transmitted: the packets that a message is cut into, as the receiver reads them.
use ps_libmctp_win.Prelude.{
  ℕ, ◌+◌, ◌-◌, ◌≤◌, ◌<◌, ◌==◌, ap₂, slice-write_at, length-write_at, length-take, ◌≡◌, refl, Bool,
  List, length, take, drop, slice, arith, size_mod, leb, write_at, sub_size, add_size, length-drop,
  take-min-length, ap, ◌∙◌, bit_and,
}
use ps_libmctp_win.Packet.{Pktbuf, pktbuf_init, data_off}
use ps_libmctp_win.Header.{
  Hdr, read_hdr, hdr_bytes, flags_of, tag_of, seq_of, tag_owner_of, make_flags, flag_bits,
}
use ps_libmctp_win.Header.Roundtrip.{make_flags_read, read_hdr-write_at}
use ps_libmctp_win.Core.State.{Bus}
use ps_libmctp_win.Core.Transmit.{build_pkt, next_payload, next_flags}
use ps_libmctp_win.Core.Transmit.Progress.{IsSending, next_payload_lem}

-- A packet as `mctp_bus_rx` reads it.
pub record View : Type 0 where
  pub src : ℕ
  pub dest : ℕ
  pub tag_owner : Bool
  pub tag : ℕ
  pub flags : ℕ
  pub seq : ℕ
  pub payload : List ℕ

abbrev pub view_of : Hdr → List ℕ → View
view_of hdr payload = record {
  src = hdr.src;
  dest = hdr.dest;
  tag_owner = tag_owner_of hdr.flags_seq_tag;
  tag = tag_of hdr.flags_seq_tag;
  flags = flags_of hdr.flags_seq_tag;
  seq = seq_of hdr.flags_seq_tag;
  payload = payload;
}

unfoldable pub view : Pktbuf → View
view pkt =
    view_of (read_hdr pkt.bytes pkt.mctp_hdr_off)
      (slice pkt.bytes (data_off pkt) (sub_size pkt.end (data_off pkt)))

-- The binding's storage has room for a packet, and the fields of the flags byte are in range.
pub record HasRoom (bus : Bus) : Type 0 where
  pub room : bus.binding.pkt_header + bus.binding.pkt_size ≤ length bus.binding.tx_storage
  pub room_small : bus.binding.pkt_header + bus.binding.pkt_size < size_mod
  pub seq_small : bus.tx_seq < 4
  pub tag_small : bus.tx_tag < 8

abbrev pub mtu : Bus → ℕ
mtu bus = bus.binding.pkt_size - 4

abbrev pub unsent : Bus → List ℕ → List ℕ
unsent bus msg = drop bus.tx_msgpos msg

-- The view of a bus's next packet.
abbrev pub next_view : Bus → List ℕ → View
next_view bus msg = record {
  src = bus.tx_src;
  dest = bus.tx_dest;
  tag_owner = bus.tx_to;
  tag = bus.tx_tag;
  flags = flag_bits (bus.tx_msgpos == 0) (leb (length (unsent bus msg)) (mtu bus));
  seq = bus.tx_seq;
  payload = take (mtu bus) (unsent bus msg);
}

pub unsent-length :
    (bus : Bus) {msg : List ℕ}
    → IsSending bus msg
    → length (unsent bus msg) ≡ bus.tx_msglen - bus.tx_msgpos
unsent-length bus {msg} v = omega (arith, length-drop bus.tx_msgpos msg, v.whole)

-- The payload is the next part of the message.
next_part :
    (bus : Bus) (msg : List ℕ)
    → IsSending bus msg
    → slice msg bus.tx_msgpos (next_payload bus) ≡ take (mtu bus) (unsent bus msg)
next_part bus msg v =
    ap (λ k. take k (unsent bus msg)) (rw (next_payload_lem v, unsent-length bus v))
    ∙ take-min-length (mtu bus) (unsent bus msg)

-- The end flag is set when the rest of the message fits.
next_flags_lem :
    (bus : Bus) (msg : List ℕ)
    → IsSending bus msg
    → next_flags bus
      ≡ make_flags bus.tx_to bus.tx_tag
          (bus.tx_msgpos == 0)
          (leb (length (unsent bus msg)) (mtu bus))
          bus.tx_seq
unfolding next_flags
next_flags_lem bus msg v =
    ap (λ e. make_flags bus.tx_to bus.tx_tag (bus.tx_msgpos == 0) e bus.tx_seq) at_end
  where
    at_end :
        leb bus.tx_msglen (add_size bus.tx_msgpos (next_payload bus))
        ≡ leb (length (unsent bus msg)) (mtu bus)
    at_end = rw (unsent-length bus v, next_payload_lem v) (ground arith)

sent_hdr : Bus → Hdr
sent_hdr bus = record {
  ver = bit_and bus.binding.version 15;
  dest = bus.tx_dest;
  src = bus.tx_src;
  flags_seq_tag = next_flags bus;
}

-- The header that is read from the flags byte has the fields of the bus.
view_of-sent_hdr :
    (bus : Bus) (msg payload : List ℕ)
    → IsSending bus msg
    → HasRoom bus
    → payload ≡ take (mtu bus) (unsent bus msg)
    → view_of (sent_hdr bus) payload ≡ next_view bus msg
unfolding sent_hdr
view_of-sent_hdr bus msg payload v r e = rw (next_flags_lem bus msg v) fields
  where
    read :
        let f =
          make_flags bus.tx_to bus.tx_tag
            (bus.tx_msgpos == 0)
            (leb (length (unsent bus msg)) (mtu bus))
            bus.tx_seq in
        (flags_of f ≡ flag_bits (bus.tx_msgpos == 0) (leb (length (unsent bus msg)) (mtu bus)))
        × (tag_of f ≡ bus.tx_tag)
        × (seq_of f ≡ bus.tx_seq)
        × (tag_owner_of f ≡ bus.tx_to)
    read =
        make_flags_read bus.tx_to bus.tx_tag (bus.tx_msgpos == 0)
          (leb (length (unsent bus msg)) (mtu bus)) bus.tx_seq r.tag_small r.seq_small

    fields :
        view_of
          (record (sent_hdr bus) {
            flags_seq_tag =
                make_flags bus.tx_to bus.tx_tag
                  (bus.tx_msgpos == 0)
                  (leb (length (unsent bus msg)) (mtu bus))
                  bus.tx_seq;
          })
          payload
        ≡ next_view bus msg
    fields = λ i. record {
      src = bus.tx_src;
      dest = bus.tx_dest;
      tag_owner = read.3 i;
      tag = read.1 i;
      flags = read.0 i;
      seq = read.2 i;
      payload = e i;
    }

-- For a bus that is sending a message, with room for a packet in the binding's storage, a tag
-- below 8 and a sequence number below 4: the packet that `mctp_next_tx_pkt` builds is read by the
-- receiver as the next part of the message with the message's addresses, tag and sequence number,
-- the start flag on the first part and the end flag on the last.
pub view-build_pkt :
    (bus : Bus) (msg : List ℕ)
    → IsSending bus msg
    → HasRoom bus
    → view (build_pkt bus msg) ≡ next_view bus msg
unfolding view build_pkt pktbuf_init sent_hdr
view-build_pkt bus msg v r =
    ap₂ view_of
      (read_hdr-write_at bus.binding.tx_storage off (sent_hdr bus) part
        (omega (arith, part-length, next_payload_lem v)))
      payload
    ∙ view_of-sent_hdr bus msg (take (mtu bus) (unsent bus msg)) v r refl
  where
    off : ℕ
    off = bus.binding.pkt_header

    part : List ℕ
    part = slice msg bus.tx_msgpos (next_payload bus)

    stored : List ℕ
    stored = write_at bus.binding.tx_storage off (hdr_bytes (sent_hdr bus))

    part-length : length part ≡ next_payload bus
    part-length = omega (
      arith,
      length-take (next_payload bus) (unsent bus msg),
      unsent-length bus v,
      next_payload_lem v,
    )

    sizes : sub_size (add_size (add_size off 4) (next_payload bus)) (off + 4) ≡ length part
    sizes = omega (arith, part-length, next_payload_lem v)

    payload :
        slice
          (write_at stored (off + 4) part)
          (off + 4)
          (sub_size (add_size (add_size off 4) (next_payload bus)) (off + 4))
        ≡ take (mtu bus) (unsent bus msg)
    payload =
        ap (slice (write_at stored (off + 4) part) (off + 4)) sizes
        ∙ slice-write_at stored (off + 4) part (
            omega (
              arith,
              length-write_at bus.binding.tx_storage off (hdr_bytes (sent_hdr bus)),
              part-length,
              next_payload_lem v,
            ))
        ∙ next_part bus msg v
