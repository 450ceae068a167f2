-- ===== src/Header.antt =====
-- `struct mctp_hdr` of include/libmctp.h, its flags byte, and how src/core.c reads and writes it in
-- the data region of a packet.
pub mod Roundtrip
mod Tests
use ps_libmctp_win.Prelude.{
  ℕ, ◌+◌, ◌*◌, ◌/◌, ◌%◌, Bool, true, false, List, [], ◌∷◌, get_or, bit_and, bit_or, ◌==◌,
  if◌then◌else◌, write_at, not,
}

-- The constants of include/libmctp.h.
abbrev pub eid_null : ℕ
eid_null = 0

abbrev pub eid_broadcast : ℕ
eid_broadcast = 0xff

abbrev pub flag_som : ℕ
flag_som = 128

abbrev pub flag_eom : ℕ
flag_eom = 64

abbrev pub tag_mask : ℕ
tag_mask = 7

abbrev pub seq_mask : ℕ
seq_mask = 3

-- The header of a packet as the receiver reads it.
pub record Hdr : Type 0 where
  pub ver : ℕ
  pub dest : ℕ
  pub src : ℕ
  pub flags_seq_tag : ℕ

unfoldable pub read_hdr : List ℕ → ℕ → Hdr
read_hdr bytes off = record {
  ver = get_or bytes off 0;
  dest = get_or bytes (off + 1) 0;
  src = get_or bytes (off + 2) 0;
  flags_seq_tag = get_or bytes (off + 3) 0;
}

unfoldable pub hdr_bytes : Hdr → List ℕ
hdr_bytes h = h.ver ∷ h.dest ∷ h.src ∷ h.flags_seq_tag ∷ []

-- What `mctp_bus_rx` takes out of the flags byte.
unfoldable pub flags_of : ℕ → ℕ
flags_of f = bit_and f (bit_or flag_som flag_eom)

unfoldable pub tag_of : ℕ → ℕ
tag_of f = bit_and f tag_mask

unfoldable pub seq_of : ℕ → ℕ
seq_of f = bit_and (f / 16) seq_mask

unfoldable pub tag_owner_of : ℕ → Bool
tag_owner_of f = not (bit_and (f / 8) 1 == 0)

abbrev bit : Bool → ℕ
bit true = 1
bit false = 0

-- The flags byte that `mctp_next_tx_pkt` builds. The fields are bytes, and so is the result.
unfoldable pub make_flags : Bool → ℕ → Bool → Bool → ℕ → ℕ
make_flags to tag som eom seq =
    let f0 = bit_or (bit to * 8) tag % 256 in
    let f1 = if som then bit_or f0 flag_som else f0 in
    let f2 = if eom then bit_or f1 flag_eom else f1 in bit_or f2 (seq * 16) % 256

-- The two bits of `flags_of` for a packet that starts or ends a message.
abbrev pub flag_bits : Bool → Bool → ℕ
flag_bits true true = 192
flag_bits true false = 128
flag_bits false true = 64
flag_bits false false = 0
