-- ===== src/Header/Roundtrip.antt =====
-- The flags byte is written and read without loss.
use ps_libmctp_win.Prelude.{
  ℕ, ◌+◌, ◌*◌, ◌/◌, ◌%◌, ◌<◌, ◌≡◌, refl, ap, ◌∙◌, Bool, true, false, ◌&&◌, not, ◌==◌, ==_iff,
  checks_below, checks_below-at, arith, bit_and, List, ◌≤◌, length, write_at, get_or,
  get_or-write_at, get_or-write_at_lt,
}
use ps_libmctp_win.Header.{
  flags_of, tag_of, seq_of, tag_owner_of, make_flags, flag_bits, Hdr, read_hdr, hdr_bytes,
}

same : Bool → Bool → Bool
same true b = b
same false b = not b

abbrev reads_back : Bool → Bool → Bool → ℕ → Bool
reads_back to som eom x =
    let f = make_flags to (x % 8) som eom (x / 8) in
    (flags_of f == flag_bits som eom)
    && (tag_of f == x % 8)
    && (seq_of f == x / 8)
    && same (tag_owner_of f) to

reads_back_table : (to som eom : Bool) → checks_below 32 (reads_back to som eom) ≡ true
unfolding checks_below make_flags flags_of tag_of seq_of tag_owner_of same
reads_back_table true true true = refl
reads_back_table true true false = refl
reads_back_table true false true = refl
reads_back_table true false false = refl
reads_back_table false true true = refl
reads_back_table false true false = refl
reads_back_table false false true = refl
reads_back_table false false false = refl

read_of_table :
    (to som eom : Bool) (x tag seq : ℕ)
    → x % 8 ≡ tag
    → x / 8 ≡ seq
    → reads_back to som eom x ≡ true
    → let f = make_flags to tag som eom seq in
      (flags_of f ≡ flag_bits som eom) × (tag_of f ≡ tag) × (seq_of f ≡ seq) × (tag_owner_of f ≡ to)
unfolding same
read_of_table to som eom x tag seq p q h = rw (← p, ← q) (ground arith)

-- What `mctp_next_tx_pkt` writes into the flags byte, for a tag below 8 and a sequence number below
-- 4, is what `mctp_bus_rx` reads from it: the start and end flags, the tag, the sequence number and
-- the tag owner bit.
pub make_flags_read :
    (to : Bool) (tag : ℕ) (som eom : Bool) (seq : ℕ)
    → tag < 8
    → seq < 4
    → let f = make_flags to tag som eom seq in
      (flags_of f ≡ flag_bits som eom) × (tag_of f ≡ tag) × (seq_of f ≡ seq) × (tag_owner_of f ≡ to)
make_flags_read to tag som eom seq ht hs =
    read_of_table to som eom (seq * 8 + tag) tag seq (omega arith) (omega arith) (
      checks_below-at 32 (reads_back to som eom) (seq * 8 + tag) (reads_back_table to som eom)
        (omega arith))

is_reread : ℕ → Bool
is_reread x =
    make_flags (tag_owner_of x) (tag_of x) (bit_and x 128 == 128) (bit_and x 64 == 64) (seq_of x)
    == x

is_reread_table : checks_below 256 is_reread ≡ true
unfolding is_reread checks_below make_flags tag_of seq_of tag_owner_of
is_reread_table = refl

-- Every byte is the flags byte that the fields read from it make: no bit of it is lost.
pub make_flags_of_read :
    (f : ℕ)
    → f < 256
    → make_flags (tag_owner_of f) (tag_of f) (bit_and f 128 == 128) (bit_and f 64 == 64) (seq_of f)
      ≡ f
unfolding is_reread
make_flags_of_read f h = (==_iff _ f).0 (checks_below-at 256 is_reread f is_reread_table h)

pub read_hdr-write_at :
    (bytes : List ℕ) (off : ℕ) (h : Hdr) (payload : List ℕ)
    → off + 4 + length payload ≤ length bytes
    → read_hdr (write_at (write_at bytes off (hdr_bytes h)) (off + 4) payload) off ≡ h
unfolding read_hdr hdr_bytes
read_hdr-write_at bytes off h payload fits = λ i. record {
  ver = (ap (λ k. get_or stored k 0) start ∙ field 0 (omega arith) (omega arith)) i;
  dest = field 1 (omega arith) (omega arith) i;
  src = field 2 (omega arith) (omega arith) i;
  flags_seq_tag = field 3 (omega arith) (omega arith) i;
}
  where
    stored : List ℕ
    stored = write_at (write_at bytes off (hdr_bytes h)) (off + 4) payload

    start : off ≡ off + 0
    start = omega arith

    field :
        (k : ℕ) → k < 4 → off + k < off + 4 → get_or stored (off + k) 0 ≡ get_or (hdr_bytes h) k 0
    field k p q =
        get_or-write_at_lt (write_at bytes off (hdr_bytes h)) (off + 4) payload (off + k) 0 q
        ∙ get_or-write_at bytes off (hdr_bytes h) k 0 p (omega arith)
