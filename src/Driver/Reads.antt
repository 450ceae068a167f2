-- ===== src/Driver/Reads.antt =====
-- `RingBufferRead` takes bytes off the front of the queue.
use ps_libmctp_win.Prelude.{
  ℕ, ◌+◌, ◌-◌, ◌%◌, ◌≤◌, ◌<◌, ◌≡◌, inl, inr, ◌∙◌, ap, ap₂, sym, min, true, List, ◌++◌, take, drop,
  slice, get_or, ltb, leb, ◌==◌, if◌then◌else◌, arith, Bool-cases, leb→le, leb-false→lt, tabulate,
  tabulate-ext, tabulate-add, take-tabulate, drop-tabulate, slice_table,
}
use ps_libmctp_win.Driver.{RingBuffer, ring_buffer_read, add_ulong, sub_ulong}
use ps_libmctp_win.Driver.Ring.{IsRing, wrap, byte_at, queue, step_index}

module _ (size : ℕ) (r : RingBuffer) (v : IsRing size r) where
  -- Copying out of one stretch of the buffer, and out of two.
  read_once :
      (n : ℕ) → n ≤ size - r.read_idx → slice r.buffer r.read_idx n ≡ tabulate 0 n (byte_at size r)
  read_once n h =
      slice_table r.buffer r.read_idx n 0 (omega (arith, v.sized, v.read_in))
      ∙ tabulate-ext r.read_idx 0 n (λ k. get_or r.buffer k 0) (byte_at size r)
          (λ k p. ap (λ m. get_or r.buffer m 0) (here k p))
    where
      here : (k : ℕ) → k < n → r.read_idx + k ≡ wrap size (r.read_idx + (0 + k))
      here k p = ground arith

  read_twice :
      (n : ℕ)
      → size - r.read_idx ≤ n
      → n ≤ size
      → slice r.buffer r.read_idx (size - r.read_idx) ++ slice r.buffer 0 (n - (size - r.read_idx))
        ≡ tabulate 0 n (byte_at size r)
  read_twice n h q =
      ap₂ (λ (a b : List ℕ). a ++ b) (read_once first (omega arith))
        (slice_table r.buffer 0 (n - first) 0 (omega (arith, v.sized))
          ∙ tabulate-ext 0 (0 + first) (n - first) (λ k. get_or r.buffer k 0) (byte_at size r)
              (λ k p. ap (λ m. get_or r.buffer m 0) (here k p)))
      ∙ sym (tabulate-add 0 first (n - first) (byte_at size r))
      ∙ ap (λ m. tabulate 0 m (byte_at size r)) parts
    where
      first : ℕ
      first = size - r.read_idx

      parts : first + (n - first) ≡ n
      parts = omega arith

      here : (k : ℕ) → k < n - first → 0 + k ≡ wrap size (r.read_idx + (0 + first + k))
      here k p = ground (arith, v.read_in)

  -- The ring without its oldest `n` bytes.
  abbrev pub after_read : ℕ → RingBuffer
  after_read n = record r {
    read_idx = wrap size (r.read_idx + n);
    data_available = r.data_available - n;
  }

  pub after_read-queue :
      (n : ℕ) → n ≤ r.data_available → queue size (after_read n) ≡ drop n (queue size r)
  after_read-queue n h =
      tabulate-ext 0 (0 + n) (r.data_available - n) (byte_at size (after_read n)) (byte_at size r)
        (λ k p. ap (λ m. get_or r.buffer m 0) (here k p))
      ∙ sym (drop-tabulate n 0 r.data_available (byte_at size r) h)
    where
      here :
          (k : ℕ)
          → k < r.data_available - n
          → wrap size (wrap size (r.read_idx + n) + (0 + k)) ≡ wrap size (r.read_idx + (0 + n + k))
      here k p = ground (arith, v.read_in, v.available)

  pub after_read-IsRing : (n : ℕ) → n ≤ r.data_available → IsRing size (after_read n)
  after_read-IsRing n h = ground arith

  -- For a valid ring, `RingBufferRead` takes as many of the oldest bytes as there are, up to the length asked for.
  pub ring_buffer_read_eq :
      (len : ℕ)
      → let n = min len r.data_available in
        ring_buffer_read size r len ≡ (n, take n (queue size r), after_read n)
  unfolding ring_buffer_read
  ring_buffer_read_eq len =
      rw (asked, first)
        (elim (Bool-cases (n == 0)) [
          | inl none_left ↦ rw none_left (λ i.
              (zero_is none_left i, take (zero_is none_left i) (queue size r), unread none_left i))
          | inr some_left ↦ elim (Bool-cases (leb n (size - r.read_idx))) [
            | inl once ↦
                rw (some_left, once)
                  (λ i. (
                    n,
                    (read_once n (leb→le n (size - r.read_idx) once) ∙ taken) i,
                    moved (leb→le n (size - r.read_idx) once) i,
                  ))
            | inr twice ↦
                rw (some_left, twice)
                  (λ i. (
                    n,
                    (ap (λ m. slice r.buffer r.read_idx (size - r.read_idx) ++ slice r.buffer 0 m)
                            (second (leb-false→lt n (size - r.read_idx) twice))
                          ∙ read_twice n (omega (arith, leb-false→lt n (size - r.read_idx) twice))
                              (omega (arith, v.available))
                          ∙ taken)
                        i,
                    moved_round (leb-false→lt n (size - r.read_idx) twice) i,
                  ))
          ]
        ])
    where
      n : ℕ
      n = min len r.data_available

      asked : (if ltb r.data_available len then r.data_available else len) ≡ n
      asked = ground arith

      first : sub_ulong size r.read_idx ≡ size - r.read_idx
      first = omega (arith, v.small, v.read_in)

      second : size - r.read_idx < n → sub_ulong n (size - r.read_idx) ≡ n - (size - r.read_idx)
      second h = omega (arith, v.small, v.available)

      taken : tabulate 0 n (byte_at size r) ≡ take n (queue size r)
      taken = sym (take-tabulate n 0 r.data_available (byte_at size r) (omega arith))

      zero_is : (n == 0) ≡ true → 0 ≡ n
      zero_is e = ground arith

      unread : (n == 0) ≡ true → r ≡ after_read n
      unread e = ground (arith, v.read_in)

      moved :
          n ≤ size - r.read_idx
          → record r {
            read_idx = add_ulong r.read_idx n % size;
            data_available = sub_ulong r.data_available n;
          }
            ≡ after_read n
      moved h = ground (arith, step_index size r.read_idx n v.read_in h, v.small, v.available)

      moved_round :
          size - r.read_idx < n
          → record r {
            read_idx = sub_ulong n (size - r.read_idx);
            data_available = sub_ulong r.data_available n;
          }
            ≡ after_read n
      moved_round h = ground (arith, v.small, v.available, v.read_in)
