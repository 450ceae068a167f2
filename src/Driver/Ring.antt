-- ===== src/Driver/Ring.antt =====
-- A ring buffer of the driver is a bounded queue of bytes.
use ps_libmctp_win.Prelude.{
  ℕ, ◌+◌, ◌-◌, ◌%◌, ◌≤◌, ◌<◌, ◌≡◌, inl, inr, ◌∙◌, ap, List, length, get_or, ltb, if◌then◌else◌,
  arith, Bool-cases, ltb→lt, ltb-false→le, tabulate, length-tabulate, mod-eq_of_lt,
}
use native.Mathlib.Nat.{mod_self}
use ps_libmctp_win.Driver.{RingBuffer, ulong_mod}

-- The index `k` places round a ring, for `k` below twice its size.
abbrev pub wrap : ℕ → ℕ → ℕ
wrap size k = if ltb k size then k else k - size

-- The indices are in the buffer, and the write index is behind the bytes that are available.
pub record IsRing (size : ℕ) (r : RingBuffer) : Type 0 where
  pub sized : length r.buffer ≡ size
  pub small : size + size < ulong_mod
  pub read_in : r.read_idx < size
  pub available : r.data_available ≤ size
  pub write_at_end : r.write_idx ≡ wrap size (r.read_idx + r.data_available)

module _ (size : ℕ) where
  -- The byte `k` places behind the read index.
  abbrev pub byte_at : RingBuffer → ℕ → ℕ
  byte_at r k = get_or r.buffer (wrap size (r.read_idx + k)) 0

  -- The bytes that are available, the oldest first.
  abbrev pub queue : RingBuffer → List ℕ
  queue r = tabulate 0 r.data_available (byte_at r)

  pub length-queue : (r : RingBuffer) → length (queue r) ≡ r.data_available
  length-queue r = length-tabulate 0 r.data_available (byte_at r)

  -- The index that the driver computes with `%`.
  pub step_index : (i n : ℕ) → i < size → n ≤ size - i → (i + n) % size ≡ wrap size (i + n)
  step_index i n h q = elim (Bool-cases (ltb (i + n) size)) [
    | inl inside ↦ rw inside (mod-eq_of_lt (ltb→lt (i + n) size inside))
    | inr round ↦
        let whole : i + n ≡ size = omega (arith, ltb-false→le (i + n) size round) in
        let none_left : 0 ≡ i + n - size = omega arith in
        rw round (ap (λ k. k % size) whole ∙ mod_self size ∙ none_left)
  ]
