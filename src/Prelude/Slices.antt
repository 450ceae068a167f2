-- ===== src/Prelude/Slices.antt =====
-- Memory regions as lists of bytes: reading a part of one, and `memcpy` into one.
use Prim.Native.Nat.{ℕ, zero, suc, ◌+◌, ◌-◌, ◌≤◌, ◌<◌, min}
use mathlib.Core.Path.{◌≡◌, refl, ap, subst, sym, ◌∙◌}
use mathlib.Core.List.{List, [], ◌∷◌, ◌++◌}
use native.Mathlib.Omega.{arith}
use ps_libmctp_win.Prelude.Lists.{length, get_or, take, drop, length-take, length-drop}

zero_add : (n : ℕ) → 0 + n ≡ n
zero_add n = omega arith

suc_add : (m n : ℕ) → suc m + n ≡ suc (m + n)
suc_add m n = omega arith

module _ {ℓ} {A : Type ℓ} where
  -- `n` items from `off` on.
  abbrev pub slice : List A → ℕ → ℕ → List A
  slice xs off n = take n (drop off xs)

  -- Copying `ys` over the region `xs` from `off` on; what would fall outside is dropped.
  abbrev pub write_at : List A → ℕ → List A → List A
  write_at [] off ys = []
  write_at (x ∷ xs) zero [] = x ∷ xs
  write_at (x ∷ xs) zero (y ∷ ys) = y ∷ write_at xs zero ys
  write_at (x ∷ xs) (suc off) ys = x ∷ write_at xs off ys

  pub length-write_at :
      (xs : List A) (off : ℕ) (ys : List A) → length (write_at xs off ys) ≡ length xs
  length-write_at [] off ys = refl
  length-write_at (x ∷ xs) zero [] = refl
  length-write_at (x ∷ xs) zero (y ∷ ys) = ap suc (length-write_at xs zero ys)
  length-write_at (x ∷ xs) (suc off) ys = ap suc (length-write_at xs off ys)

  pub length-slice : (xs : List A) (off n : ℕ) → off + n ≤ length xs → length (slice xs off n) ≡ n
  length-slice xs off n h = omega (arith, length-take n (drop off xs), length-drop off xs)

  write_at-zero_lem :
      (xs ys : List A) → length ys ≤ length xs → write_at xs 0 ys ≡ ys ++ drop (length ys) xs
  write_at-zero_lem [] [] h = refl
  write_at-zero_lem [] (y ∷ ys) h = absurd (omega arith)
  write_at-zero_lem (x ∷ xs) [] h = refl
  write_at-zero_lem (x ∷ xs) (y ∷ ys) h = ap (λ t. y ∷ t) (write_at-zero_lem xs ys (omega arith))

  take-append-length : (ys zs : List A) → take (length ys) (ys ++ zs) ≡ ys
  take-append-length [] zs = refl
  take-append-length (y ∷ ys) zs = ap (λ t. y ∷ t) (take-append-length ys zs)

  -- What was copied in range is read back.
  pub slice-write_at :
      (xs : List A) (off : ℕ) (ys : List A)
      → off + length ys ≤ length xs
      → slice (write_at xs off ys) off (length ys) ≡ ys
  slice-write_at [] zero [] h = refl
  slice-write_at [] zero (y ∷ ys) h = absurd (omega arith)
  slice-write_at [] (suc off) ys h = absurd (omega arith)
  slice-write_at (x ∷ xs) zero ys h =
      rw (write_at-zero_lem (x ∷ xs) ys (omega arith))
        (take-append-length ys (drop (length ys) (x ∷ xs)))
  slice-write_at (x ∷ xs) (suc off) ys h = slice-write_at xs off ys (omega arith)

  -- Copying just past the first `off` items extends what the region holds.
  pub take-write_at :
      (xs : List A) (off : ℕ) (ys : List A)
      → off + length ys ≤ length xs
      → take (off + length ys) (write_at xs off ys) ≡ take off xs ++ ys
  take-write_at [] zero [] h = refl
  take-write_at [] zero (y ∷ ys) h = absurd (omega arith)
  take-write_at [] (suc off) ys h = absurd (omega arith)
  take-write_at (x ∷ xs) zero ys h =
      rw (zero_add (length ys), write_at-zero_lem (x ∷ xs) ys (omega arith))
        (take-append-length ys (drop (length ys) (x ∷ xs)))
  take-write_at (x ∷ xs) (suc off) ys h =
      rw (suc_add off (length ys)) (ap (λ t. x ∷ t) (take-write_at xs off ys (omega arith)))
    where
      suc_add : (m n : ℕ) → suc m + n ≡ suc (m + n)
      suc_add m n = omega arith

  -- Copying leaves the items before it alone.
  pub take-write_at_le :
      (xs : List A) (n off : ℕ) (ys : List A) → n ≤ off → take n (write_at xs off ys) ≡ take n xs
  take-write_at_le [] n off ys h = refl
  take-write_at_le (x ∷ xs) zero off ys h = refl
  take-write_at_le (x ∷ xs) (suc n) zero ys h = absurd (omega arith)
  take-write_at_le (x ∷ xs) (suc n) (suc off) ys h =
      ap (λ t. x ∷ t) (take-write_at_le xs n off ys (omega arith))

  -- Copying just past a slice extends the slice.
  pub slice-write_at_extend :
      (xs : List A) (off n : ℕ) (ys : List A)
      → off + n + length ys ≤ length xs
      → slice (write_at xs (off + n) ys) off (n + length ys) ≡ slice xs off n ++ ys
  slice-write_at_extend xs zero n ys h = rw (zero_add n) (take-write_at xs n ys (omega arith))
  slice-write_at_extend [] (suc off) n ys h = absurd (omega arith)
  slice-write_at_extend (x ∷ xs) (suc off) n ys h =
      rw (suc_add off n) (slice-write_at_extend xs off n ys (omega arith))

  slice-write_at_sum :
      (xs : List A) (s n : ℕ) (ys : List A)
      → s + n + length ys ≤ length xs
      → slice (write_at xs (s + n) ys) s (s + n + length ys - s) ≡ slice xs s (s + n - s) ++ ys
  slice-write_at_sum xs s n ys h = rw (grown, kept) (slice-write_at_extend xs s n ys h)
    where
      grown : s + n + length ys - s ≡ n + length ys
      grown = omega arith

      kept : s + n - s ≡ n
      kept = omega arith

  -- The same, for a part given by its two ends.
  pub slice-write_at_end :
      (xs : List A) (s e : ℕ) (ys : List A)
      → s ≤ e
      → e + length ys ≤ length xs
      → slice (write_at xs e ys) s (e + length ys - s) ≡ slice xs s (e - s) ++ ys
  slice-write_at_end xs s e ys p q =
      subst (λ t. slice (write_at xs t ys) s (t + length ys - s) ≡ slice xs s (t - s) ++ ys) whole
        (slice-write_at_sum xs s (e - s) ys (omega arith))
    where
      whole : s + (e - s) ≡ e
      whole = omega arith

  pub take-add : (xs : List A) (a b : ℕ) → take (a + b) xs ≡ take a xs ++ take b (drop a xs)
  take-add xs zero b = rw (zero_add b) refl
  take-add [] (suc a) b = rw (suc_add a b) (nil b)
    where
      nil : (m : ℕ) → [] ≡ take {A = A} m []
      nil zero = refl
      nil (suc m) = refl
  take-add (x ∷ xs) (suc a) b = rw (suc_add a b) (ap (λ t. x ∷ t) (take-add xs a b))

  pub drop-drop : (xs : List A) (a b : ℕ) → drop b (drop a xs) ≡ drop (a + b) xs
  drop-drop xs zero b = ap (λ t. drop t xs) (omega arith)
  drop-drop [] (suc a) zero = rw (suc_add a 0)
  drop-drop [] (suc a) (suc b) = rw (suc_add a (suc b))
  drop-drop (x ∷ xs) (suc a) b = rw (suc_add a b) (drop-drop xs a b)

  pub drop-take : (a n : ℕ) (xs : List A) → drop a (take (a + n) xs) ≡ take n (drop a xs)
  drop-take zero n xs = rw (zero_add n) refl
  drop-take (suc a) n [] = rw (suc_add a n) (nil n)
    where
      nil : (m : ℕ) → [] ≡ take {A = A} m []
      nil zero = refl
      nil (suc m) = refl
  drop-take (suc a) n (x ∷ xs) = rw (suc_add a n) (drop-take a n xs)

  -- A slice splits at any place.
  pub slice-add :
      (xs : List A) (off a b : ℕ) → slice xs off (a + b) ≡ slice xs off a ++ slice xs (off + a) b
  slice-add xs off a b = rw (← drop-drop xs off a) (take-add (drop off xs) a b)

  pub get_or-write_at :
      (xs : List A) (off : ℕ) (ys : List A) (k : ℕ) (d : A)
      → k < length ys
      → off + length ys ≤ length xs
      → get_or (write_at xs off ys) (off + k) d ≡ get_or ys k d
  get_or-write_at [] off [] k d h q = absurd (omega arith)
  get_or-write_at [] off (y ∷ ys) k d h q = absurd (omega arith)
  get_or-write_at (x ∷ xs) zero [] k d h q = absurd (omega arith)
  get_or-write_at (x ∷ xs) zero (y ∷ ys) zero d h q = refl
  get_or-write_at (x ∷ xs) zero (y ∷ ys) (suc k) d h q = rw (zero_add (suc k)) (
      ap (λ j. get_or (write_at xs 0 ys) j d) (sym (zero_add k))
      ∙ get_or-write_at xs 0 ys k d (omega arith) (omega arith))
  get_or-write_at (x ∷ xs) (suc off) ys k d h q =
      rw (suc_add off k) (get_or-write_at xs off ys k d h (omega arith))

  pub get_or-write_at_lt :
      (xs : List A) (off : ℕ) (ys : List A) (j : ℕ) (d : A)
      → j < off
      → get_or (write_at xs off ys) j d ≡ get_or xs j d
  get_or-write_at_lt [] off ys j d h = refl
  get_or-write_at_lt (x ∷ xs) zero ys j d h = absurd (omega arith)
  get_or-write_at_lt (x ∷ xs) (suc off) ys zero d h = refl
  get_or-write_at_lt (x ∷ xs) (suc off) ys (suc j) d h =
      get_or-write_at_lt xs off ys j d (omega arith)

  -- Taking more than there is, is taking all.
  pub take-min-length : (n : ℕ) (xs : List A) → take (min (length xs) n) xs ≡ take n xs
  take-min-length zero [] = refl
  take-min-length (suc n) [] = ap (λ k. take {A = A} k []) least
    where
      least : min 0 (suc n) ≡ 0
      least = omega arith
  take-min-length zero (x ∷ xs) = ap (λ k. take k (x ∷ xs)) least
    where
      least : min (suc (length xs)) 0 ≡ 0
      least = omega arith
  take-min-length (suc n) (x ∷ xs) =
      ap (λ k. take k (x ∷ xs)) shorter ∙ ap (λ t. x ∷ t) (take-min-length n xs)
    where
      shorter : min (suc (length xs)) (suc n) ≡ suc (min (length xs) n)
      shorter = omega arith

  -- Filling a region of the same size.
  pub write_at-whole : (xs ys : List A) → length xs ≡ length ys → write_at xs 0 ys ≡ ys
  write_at-whole [] [] h = refl
  write_at-whole [] (y ∷ ys) h = absurd (omega arith)
  write_at-whole (x ∷ xs) [] h = absurd (omega arith)
  write_at-whole (x ∷ xs) (y ∷ ys) h = ap (λ t. y ∷ t) (write_at-whole xs ys (omega arith))
