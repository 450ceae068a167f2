-- ===== src/Driver/Chunks.antt =====
-- The queue of a ring after bytes were copied behind its last one, in one stretch or in two.
use ps_libmctp_win.Prelude.{
  ℕ, ◌+◌, ◌-◌, ◌≤◌, ◌<◌, ◌≡◌, inl, inr, ◌∙◌, ap, ap₂, sym, List, ◌++◌, length, take, drop, slice,
  get_or, write_at, ltb, arith, Bool-cases, ltb→lt, ltb-false→le, tabulate-ext, tabulate-add,
  take_table, get_or-write_at, get_or-write_at_lt, get_or-write_at_ge, get_or-take, get_or-drop,
  length-write_at, length-take, length-slice,
}
use ps_libmctp_win.Driver.{RingBuffer}
use ps_libmctp_win.Driver.Ring.{IsRing, wrap, byte_at, queue}

module _ (size : ℕ) (r : RingBuffer) (v : IsRing size r) where
  -- The ring with `n` bytes more.
  abbrev pub grown : List ℕ → ℕ → RingBuffer
  grown bytes n = record r {
    buffer = bytes;
    write_idx = wrap size (r.read_idx + (r.data_available + n));
    data_available = r.data_available + n;
  }

  grown-queue :
      (bytes src : List ℕ) (n : ℕ)
      → n ≤ length src
      → ((k : ℕ)
          → k < r.data_available
          → get_or bytes (wrap size (r.read_idx + k)) 0 ≡ byte_at size r k)
      → ((k : ℕ)
          → k < n
          → get_or bytes (wrap size (r.read_idx + (r.data_available + k))) 0 ≡ get_or src k 0)
      → queue size (grown bytes n) ≡ queue size r ++ take n src
  grown-queue bytes src n long old new =
      tabulate-add 0 r.data_available n (byte_at size (grown bytes n))
      ∙ ap₂ (λ (a b : List ℕ). a ++ b)
          (tabulate-ext 0 0 r.data_available (byte_at size (grown bytes n)) (byte_at size r) (λ k p.
            ap (byte_at size (grown bytes n)) (none_before k)
            ∙ old k p
            ∙ ap (byte_at size r) (sym (none_before k))))
          (tabulate-ext (0 + r.data_available) 0 n (byte_at size (grown bytes n))
              (λ k. get_or src k 0)
              (λ k p.
                ap (byte_at size (grown bytes n)) (behind k)
                ∙ new k p
                ∙ ap (λ m. get_or src m 0) (sym (none_before k)))
            ∙ sym (take_table src n 0 long))
    where
      none_before : (k : ℕ) → 0 + k ≡ k
      none_before k = omega arith

      behind : (k : ℕ) → 0 + r.data_available + k ≡ r.data_available + k
      behind k = omega arith

  -- A write into one stretch of the buffer.
  pub wrote_once :
      (src : List ℕ) (n : ℕ)
      → n ≤ length src
      → n ≤ size - r.data_available
      → n ≤ size - r.write_idx
      → queue size (grown (write_at r.buffer r.write_idx (take n src)) n)
        ≡ queue size r ++ take n src
  wrote_once src n long free fits = grown-queue _ src n long old new
    where
      size_taken : length (take n src) ≡ n
      size_taken = omega (arith, length-take n src)

      old :
          (k : ℕ)
          → k < r.data_available
          → get_or (write_at r.buffer r.write_idx (take n src)) (wrap size (r.read_idx + k)) 0
            ≡ byte_at size r k
      old k p = elim (Bool-cases (ltb (wrap size (r.read_idx + k)) r.write_idx)) [
        | inl before ↦ get_or-write_at_lt r.buffer r.write_idx (take n src) _ 0 (ltb→lt _ _ before)
        | inr behind ↦
            get_or-write_at_ge r.buffer r.write_idx (take n src) _ 0
              (ground (arith, size_taken, v.write_at_end, v.read_in))
      ]

      here : (k : ℕ) → k < n → wrap size (r.read_idx + (r.data_available + k)) ≡ r.write_idx + k
      here k p = ground (arith, v.write_at_end, v.read_in)

      new :
          (k : ℕ)
          → k < n
          → get_or
              (write_at r.buffer r.write_idx (take n src))
              (wrap size (r.read_idx + (r.data_available + k)))
              0
            ≡ get_or src k 0
      new k p =
          ap (λ m. get_or (write_at r.buffer r.write_idx (take n src)) m 0) (here k p)
          ∙ get_or-write_at r.buffer r.write_idx (take n src) k 0 (omega (arith, size_taken))
              (ground (arith, size_taken, v.write_at_end, v.read_in, v.sized))
          ∙ get_or-take n src k 0 p

  -- A write that goes round the end of the buffer.
  pub wrote_twice :
      (src : List ℕ) (n : ℕ)
      → n ≤ length src
      → n ≤ size - r.data_available
      → size - r.write_idx < n
      → let first = size - r.write_idx in
        queue size (
          grown
            (write_at
              (write_at r.buffer r.write_idx (take first src))
              0
              (slice src first (n - first)))
            n)
        ≡ queue size r ++ take n src
  wrote_twice src n long free over = grown-queue _ src n long old new
    where
      first : ℕ
      first = size - r.write_idx

      front : List ℕ
      front = write_at r.buffer r.write_idx (take first src)

      whole : List ℕ
      whole = write_at front 0 (slice src first (n - first))

      front_size : length (take first src) ≡ first
      front_size = omega (arith, length-take first src)

      rest_size : length (slice src first (n - first)) ≡ n - first
      rest_size = length-slice src first (n - first) (omega arith)

      end_idx : r.write_idx ≡ r.read_idx + r.data_available
      end_idx = ground (arith, v.write_at_end, v.read_in)

      old :
          (k : ℕ)
          → k < r.data_available
          → get_or whole (wrap size (r.read_idx + k)) 0 ≡ byte_at size r k
      old k p =
          get_or-write_at_ge front 0 (slice src first (n - first)) _ 0
            (ground (arith, rest_size, end_idx, v.read_in))
          ∙ get_or-write_at_lt r.buffer r.write_idx (take first src) _ 0
              (ground (arith, end_idx, v.write_at_end, v.read_in))

      near : (k : ℕ) → k < first → wrap size (r.read_idx + (r.data_available + k)) ≡ r.write_idx + k
      near k p = ground (arith, end_idx)

      far :
          (k : ℕ)
          → first ≤ k
          → k < n
          → wrap size (r.read_idx + (r.data_available + k)) ≡ 0 + (k - first)
      far k p q = ground (arith, end_idx)

      new :
          (k : ℕ)
          → k < n
          → get_or whole (wrap size (r.read_idx + (r.data_available + k))) 0 ≡ get_or src k 0
      new k p = elim (Bool-cases (ltb k first)) [
        | inl early ↦
            let q : k < first = ltb→lt k first early in
            ap (λ m. get_or whole m 0) (near k q)
            ∙ get_or-write_at_ge front 0 (slice src first (n - first)) (r.write_idx + k) 0
                (omega (arith, rest_size, end_idx, v.available))
            ∙ get_or-write_at r.buffer r.write_idx (take first src) k 0 (omega (arith, front_size))
                (omega (arith, front_size, v.sized, end_idx))
            ∙ get_or-take first src k 0 q
        | inr late ↦
            let q : first ≤ k = ltb-false→le k first late in
            let back : first + (k - first) ≡ k = omega arith in
            ap (λ m. get_or whole m 0) (far k q p)
            ∙ get_or-write_at front 0 (slice src first (n - first)) (k - first) 0
                (omega (arith, rest_size))
                (omega (
                  arith,
                  rest_size,
                  length-write_at r.buffer r.write_idx (take first src),
                  v.sized,
                  v.available,
                  end_idx,
                ))
            ∙ get_or-take (n - first) (drop first src) (k - first) 0 (omega arith)
            ∙ get_or-drop first src (k - first) 0
            ∙ ap (λ m. get_or src m 0) back
      ]
