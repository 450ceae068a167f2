-- ===== src/Header/Tests.antt =====
-- Headers with concrete fields.
use ps_libmctp_win.Prelude.{◌≡◌, refl, true, ◌==◌, bit_and, arith}
use ps_libmctp_win.Header.{Hdr, flags_of, tag_of, seq_of, tag_owner_of, make_flags}
use ps_libmctp_win.Header.Roundtrip.{make_flags_read, make_flags_of_read}

-- The only packet of a request with tag 3, sequence number 2.
make_flags-only : make_flags true 3 true true 2 ≡ 0xeb
unfolding make_flags
make_flags-only = refl

make_flags_read_example :
    let f = make_flags true 3 true true 2 in
    (flags_of f ≡ 192) × (tag_of f ≡ 3) × (seq_of f ≡ 2) × (tag_owner_of f ≡ true)
make_flags_read_example = make_flags_read true 3 true true 2 (omega arith) (omega arith)

make_flags_of_read_example :
    make_flags
      (tag_owner_of 0xeb)
      (tag_of 0xeb)
      (bit_and 0xeb 128 == 128)
      (bit_and 0xeb 64 == 64)
      (seq_of 0xeb)
    ≡ 0xeb
make_flags_of_read_example = make_flags_of_read 0xeb (omega arith)

abbrev hdr : Hdr
hdr = record { ver = 1; dest = 8; src = 9; flags_seq_tag = 0xeb }
