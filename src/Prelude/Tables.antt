-- ===== src/Prelude/Tables.antt =====
-- Lists given by what stands at each index.
use Prim.Native.Nat.{ℕ, zero, suc, ◌+◌, ◌-◌, ◌≤◌, ◌<◌}
use mathlib.Core.Path.{◌≡◌, refl, ap, ap₂, sym, ◌∙◌}
use mathlib.Core.List.{List, [], ◌∷◌, ◌++◌}
use native.Mathlib.Omega.{arith}
use ps_libmctp_win.Prelude.Lists.{length, get_or, take, drop}
use ps_libmctp_win.Prelude.Slices.{slice, write_at}

suc_at : (m n : ℕ) → suc (m + n) ≡ suc m + n
suc_at m n = omega arith

module _ {ℓ} {A : Type ℓ} where
  -- `f i`, `f (i + 1)` and so on, `n` of them.
  abbrev pub tabulate : ℕ → ℕ → (ℕ → A) → List A
  tabulate i zero f = []
  tabulate i (suc n) f = f i ∷ tabulate (suc i) n f

  pub length-tabulate : (i n : ℕ) (f : ℕ → A) → length (tabulate i n f) ≡ n
  length-tabulate i zero f = refl
  length-tabulate i (suc n) f = ap suc (length-tabulate (suc i) n f)

  -- Two tables with the same entries, the second `d` places on.
  pub tabulate-ext :
      (i j n : ℕ) (f g : ℕ → A)
      → ((k : ℕ) → k < n → f (i + k) ≡ g (j + k))
      → tabulate i n f ≡ tabulate j n g
  tabulate-ext i j zero f g h = refl
  tabulate-ext i j (suc n) f g h =
      ap₂ (λ x (l : List A). x ∷ l) (ap f (first i) ∙ h 0 (omega arith) ∙ sym (ap g (first j)))
        (tabulate-ext (suc i) (suc j) n f g
          (λ k p. ap f (later i k) ∙ h (suc k) (omega arith) ∙ sym (ap g (later j k))))
    where
      first : (m : ℕ) → m ≡ m + 0
      first m = omega arith

      later : (m k : ℕ) → suc m + k ≡ m + suc k
      later m k = omega arith

  pub tabulate-add :
      (i a b : ℕ) (f : ℕ → A) → tabulate i (a + b) f ≡ tabulate i a f ++ tabulate (i + a) b f
  tabulate-add i zero b f = ap₂ (λ m n. tabulate m n f) (omega arith) (omega arith)
  tabulate-add i (suc a) b f =
      ap (λ n. tabulate i n f) (sym (suc_at a b))
      ∙ ap (λ l. f i ∷ l)
          (tabulate-add (suc i) a b f
            ∙ ap (λ m. tabulate (suc i) a f ++ tabulate m b f) (omega arith))

  pub take-tabulate : (k i n : ℕ) (f : ℕ → A) → k ≤ n → take k (tabulate i n f) ≡ tabulate i k f
  take-tabulate zero i n f h = refl
  take-tabulate (suc k) i zero f h = absurd (omega arith)
  take-tabulate (suc k) i (suc n) f h =
      ap (λ l. f i ∷ l) (take-tabulate k (suc i) n f (omega arith))

  pub drop-tabulate :
      (k i n : ℕ) (f : ℕ → A) → k ≤ n → drop k (tabulate i n f) ≡ tabulate (i + k) (n - k) f
  drop-tabulate zero i n f h = ap₂ (λ m l. tabulate m l f) (omega arith) (omega arith)
  drop-tabulate (suc k) i zero f h = absurd (omega arith)
  drop-tabulate (suc k) i (suc n) f h =
      drop-tabulate k (suc i) n f (omega arith)
      ∙ ap₂ (λ m l. tabulate m l f) (omega arith) (omega arith)

  pub take_table :
      (xs : List A) (n : ℕ) (d : A) → n ≤ length xs → take n xs ≡ tabulate 0 n (λ k. get_or xs k d)
  take_table xs zero d h = refl
  take_table [] (suc n) d h = absurd (omega arith)
  take_table (x ∷ xs) (suc n) d h =
      ap (λ l. x ∷ l)
        (take_table xs n d (omega arith)
          ∙ tabulate-ext 0 1 n (λ k. get_or xs k d) (λ k. get_or (x ∷ xs) k d) (λ k p. step k))
    where
      step : (k : ℕ) → get_or xs (0 + k) d ≡ get_or (x ∷ xs) (1 + k) d
      step k = ap (λ m. get_or xs m d) (omega arith) ∙ ap (λ m. get_or (x ∷ xs) m d) (next k)
        where
          next : (m : ℕ) → suc m ≡ 1 + m
          next m = omega arith

  -- A region by its entries.
  pub slice_table :
      (xs : List A) (off n : ℕ) (d : A)
      → off + n ≤ length xs
      → slice xs off n ≡ tabulate off n (λ k. get_or xs k d)
  slice_table xs zero n d h = take_table xs n d (omega arith)
  slice_table [] (suc off) n d h = absurd (omega arith)
  slice_table (x ∷ xs) (suc off) n d h =
      slice_table xs off n d (omega arith)
      ∙ tabulate-ext off (suc off) n (λ k. get_or xs k d) (λ k. get_or (x ∷ xs) k d)
          (λ k p. ap (λ m. get_or (x ∷ xs) m d) (suc_at off k))

  -- What stands behind the bytes that were copied.
  pub get_or-write_at_ge :
      (xs : List A) (off : ℕ) (ys : List A) (j : ℕ) (d : A)
      → off + length ys ≤ j
      → get_or (write_at xs off ys) j d ≡ get_or xs j d
  get_or-write_at_ge [] off ys j d h = refl
  get_or-write_at_ge (x ∷ xs) zero [] j d h = refl
  get_or-write_at_ge (x ∷ xs) zero (y ∷ ys) zero d h = absurd (omega arith)
  get_or-write_at_ge (x ∷ xs) zero (y ∷ ys) (suc j) d h =
      get_or-write_at_ge xs 0 ys j d (omega arith)
  get_or-write_at_ge (x ∷ xs) (suc off) ys zero d h = absurd (omega arith)
  get_or-write_at_ge (x ∷ xs) (suc off) ys (suc j) d h =
      get_or-write_at_ge xs off ys j d (omega arith)

  pub get_or-take :
      (n : ℕ) (xs : List A) (k : ℕ) (d : A) → k < n → get_or (take n xs) k d ≡ get_or xs k d
  get_or-take zero xs k d h = absurd (omega arith)
  get_or-take (suc n) [] k d h = refl
  get_or-take (suc n) (x ∷ xs) zero d h = refl
  get_or-take (suc n) (x ∷ xs) (suc k) d h = get_or-take n xs k d (omega arith)

  pub get_or-drop :
      (n : ℕ) (xs : List A) (k : ℕ) (d : A) → get_or (drop n xs) k d ≡ get_or xs (n + k) d
  get_or-drop zero xs k d = ap (λ m. get_or xs m d) (omega arith)
  get_or-drop (suc n) [] k d = refl
  get_or-drop (suc n) (x ∷ xs) k d =
      get_or-drop n xs k d ∙ ap (λ m. get_or (x ∷ xs) m d) (suc_at n k)
