-- ===== src/Prelude/Bits.antt =====
-- Bit masks and `size_t` arithmetic.
use Prim.Native.Nat.{ℕ, zero, suc, ◌+◌, ◌-◌, ◌%◌, ◌^◌, ◌<◌}
use mathlib.Core.Path.{◌≡◌}
use mathlib.Core.Bool.{Bool, true, ◌&&◌}
use native.Mathlib.Omega.{arith}

abbrev pub size_mod : ℕ
size_mod = 2 ^ 64

-- `size_t` addition and subtraction wrap.
abbrev pub add_size : ℕ → ℕ → ℕ
add_size a b = (a + b) % size_mod

abbrev pub sub_size : ℕ → ℕ → ℕ
sub_size a b = (a + size_mod - b) % size_mod

-- A test of every number below a bound, to prove facts about one byte by evaluation.
unfoldable pub checks_below : ℕ → (ℕ → Bool) → Bool
checks_below zero test = true
checks_below (suc bound) test = checks_below bound test && test bound

pub checks_below-at :
    (bound : ℕ) (test : ℕ → Bool) (k : ℕ)
    → checks_below bound test ≡ true
    → k < bound
    → test k ≡ true
unfolding checks_below
checks_below-at zero test k all small = absurd (omega arith)
checks_below-at (suc bound) test k all small = ground (arith, checks_below-at bound test k)
