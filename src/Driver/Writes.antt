-- ===== src/Driver/Writes.antt =====
-- `RingBufferWrite` on a valid ring.
use ps_libmctp_win.Prelude.{
  ℕ, ◌+◌, ◌-◌, ◌%◌, ◌≤◌, ◌<◌, ◌≡◌, inl, inr, ◌∙◌, ap, sym, min, true, List, ◌++◌, length, take,
  slice, write_at, ltb, leb, ◌==◌, if◌then◌else◌, arith, Bool-cases, leb→le, leb-false→lt,
  length-write_at, mod-eq_of_lt, append-nil,
}
use ps_libmctp_win.Driver.{RingBuffer, ring_buffer_write, ulong_mod, add_ulong, sub_ulong}
use ps_libmctp_win.Driver.Ring.{IsRing, wrap, queue, step_index}
use ps_libmctp_win.Driver.Chunks.{grown, wrote_once, wrote_twice}

module _ (size : ℕ) (r : RingBuffer) (v : IsRing size r) where
  inside : r.write_idx < size
  inside = ground (arith, v.write_at_end, v.read_in, v.available)

  grown-IsRing :
      (bytes : List ℕ) (n : ℕ)
      → length bytes ≡ length r.buffer
      → n ≤ size - r.data_available
      → IsRing size (grown size r v bytes n)
  grown-IsRing bytes n e free = ground (arith, v.available, v.sized)

  -- The fields that the two branches compute are those of the grown ring.
  moved_once :
      (bytes : List ℕ) (n : ℕ)
      → n ≤ size - r.data_available
      → n ≤ size - r.write_idx
      → record r {
        buffer = bytes;
        write_idx = add_ulong r.write_idx n % size;
        data_available = add_ulong r.data_available n;
      }
        ≡ grown size r v bytes n
  moved_once bytes n free h = λ i. record r {
    buffer = bytes;
    write_idx = (index ∙ step_index size r.write_idx n inside h ∙ ends) i;
    data_available = total i;
  }
    where
      index : add_ulong r.write_idx n % size ≡ (r.write_idx + n) % size
      index =
          ap (λ k. k % size)
            (mod-eq_of_lt {n = r.write_idx + n} {m = ulong_mod} (omega (arith, v.small, inside)))

      ends : wrap size (r.write_idx + n) ≡ wrap size (r.read_idx + (r.data_available + n))
      ends = ground (arith, v.write_at_end, v.read_in, v.available)

      total : add_ulong r.data_available n ≡ r.data_available + n
      total = omega (arith, v.small, v.available)

  moved_twice :
      (bytes : ℕ → List ℕ) (n : ℕ)
      → n ≤ size - r.data_available
      → size - r.write_idx < n
      → record r {
        buffer = bytes (sub_ulong n (size - r.write_idx));
        write_idx = sub_ulong n (size - r.write_idx);
        data_available = add_ulong r.data_available n;
      }
        ≡ grown size r v (bytes (n - (size - r.write_idx))) n
  moved_twice bytes n free over = λ i. record r {
    buffer = bytes (second i);
    write_idx = (second ∙ ends) i;
    data_available = total i;
  }
    where
      second : sub_ulong n (size - r.write_idx) ≡ n - (size - r.write_idx)
      second = omega (arith, v.small, inside)

      ends : n - (size - r.write_idx) ≡ wrap size (r.read_idx + (r.data_available + n))
      ends = ground (arith, v.write_at_end, v.read_in, v.available)

      total : add_ulong r.data_available n ≡ r.data_available + n
      total = omega (arith, v.small, v.available)

  -- For a valid ring and at least `len` bytes of data, `RingBufferWrite` takes as many of them as fit,
  -- up to `len`, reports that number, and leaves a valid ring, whose queue has grown by exactly these
  -- bytes in order.
  pub ring_buffer_write_lem :
      (src : List ℕ) (len : ℕ)
      → len ≤ length src
      → let n = min len (size - r.data_available) in
        (r' : RingBuffer) × (ring_buffer_write size r src len ≡ (n, r'))
        × IsRing size r'
        × (queue size r' ≡ queue size r ++ take n src)
  unfolding ring_buffer_write
  ring_buffer_write_lem src len long = elim (Bool-cases (n == 0)) [
    | inl none_left ↦ (
      r,
      rw (free, asked, none_left) (ap (λ k. (k, r)) (zero_is none_left)),
      v,
      sym (append-nil (queue size r)) ∙ ap (λ k. queue size r ++ take k src) (zero_is none_left),
    )
    | inr some_left ↦ elim (Bool-cases (leb n (size - r.write_idx))) [
      | inl once ↦ (
        grown size r v (write_at r.buffer r.write_idx (take n src)) n,
        rw (free, asked, first, some_left, once)
            (ap (λ k. (n, k)) (moved_once _ n (omega arith) (leb→le n _ once))),
        grown-IsRing _ n (length-write_at r.buffer r.write_idx (take n src)) (omega arith),
        wrote_once size r v src n (omega arith) (omega arith) (leb→le n _ once),
      )
      | inr twice ↦
          let over : size - r.write_idx < n = leb-false→lt n (size - r.write_idx) twice in
          (
            grown size r v
                (write_at (write_at r.buffer r.write_idx (take (size - r.write_idx) src)) 0
                  (slice src (size - r.write_idx) (n - (size - r.write_idx))))
                n,
            rw (free, asked, first, some_left, twice)
                (ap (λ k. (n, k))
                  (moved_twice
                    (λ m.
                      write_at (write_at r.buffer r.write_idx (take (size - r.write_idx) src)) 0
                        (slice src (size - r.write_idx) m))
                    n (omega arith) over)),
            grown-IsRing _ n
                (length-write_at (write_at r.buffer r.write_idx (take (size - r.write_idx) src)) 0 _
                  ∙ length-write_at r.buffer r.write_idx _)
                (omega arith),
            wrote_twice size r v src n (omega arith) (omega arith) over,
          )
    ]
  ]
    where
      n : ℕ
      n = min len (size - r.data_available)

      free : sub_ulong size r.data_available ≡ size - r.data_available
      free = omega (arith, v.small, v.available)

      asked : (if ltb (size - r.data_available) len then size - r.data_available else len) ≡ n
      asked = ground arith

      first : sub_ulong size r.write_idx ≡ size - r.write_idx
      first = omega (arith, v.small, inside)

      zero_is : (n == 0) ≡ true → 0 ≡ n
      zero_is e = ground arith
