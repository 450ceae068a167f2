-- ===== src/Core/Types/Without.antt =====
-- Lists of message types with one of them left out.
use ps_libmctp_win.Prelude.{
  ℕ, zero, suc, ◌+◌, ◌-◌, ◌<◌, ◌≤◌, ◌≡◌, inl, inr, ◌∙◌, ap, refl, true, false, List, [], ◌∷◌, ◌++◌,
  get_or, take, drop, length, ◌==◌, if◌then◌else◌, arith, Bool-cases,
}
use ps_libmctp_win.Core.Types.Sets.{has}

-- The list without a type, and the lists that have no type twice.
unfoldable pub without : ℕ → List ℕ → List ℕ
without t [] = []
without t (x ∷ xs) = if x == t then without t xs else x ∷ without t xs

abbrev pub IsDistinct : List ℕ → Type 0
IsDistinct [] = Unit
IsDistinct (x ∷ xs) = (has x xs ≡ false) × IsDistinct xs

pub without-absent : (t : ℕ) (xs : List ℕ) → has t xs ≡ false → without t xs ≡ xs
unfolding without has
without-absent t [] h = refl
without-absent t (x ∷ xs) h = ground (arith, without-absent t xs)

pub has-without : (t : ℕ) (xs : List ℕ) → has t (without t xs) ≡ false
unfolding without has
has-without t [] = refl
has-without t (x ∷ xs) = elim (Bool-cases (x == t)) [
  | inl same ↦ rw same (has-without t xs)
  | inr other ↦ rw (other, other) (has-without t xs)
]

pub has-get_or :
    (t : ℕ) (xs : List ℕ) (j : ℕ) → has t xs ≡ false → j < length xs → (get_or xs j 0 == t) ≡ false
unfolding has
has-get_or t [] j h l = absurd (omega arith)
has-get_or t (x ∷ xs) zero h l = ground arith
has-get_or t (x ∷ xs) (suc j) h l = has-get_or t xs j (tail h) (omega arith)
  where
    tail : (if x == t then true else has t xs) ≡ false → has t xs ≡ false
    tail e = ground arith

pub get_or-append :
    (xs ys : List ℕ) (k : ℕ) → length xs ≤ k → get_or (xs ++ ys) k 0 ≡ get_or ys (k - length xs) 0
get_or-append [] ys k h = ap (λ n. get_or ys n 0) (omega arith)
get_or-append (x ∷ xs) ys zero h = absurd (omega arith)
get_or-append (x ∷ xs) ys (suc k) h =
    get_or-append xs ys k (omega arith) ∙ ap (λ n. get_or ys n 0) (omega arith)

pub take-take_le : (k n : ℕ) (xs : List ℕ) → k ≤ n → take k (take n xs) ≡ take k xs
take-take_le zero n xs h = refl
take-take_le (suc k) zero xs h = absurd (omega arith)
take-take_le (suc k) (suc n) [] h = refl
take-take_le (suc k) (suc n) (x ∷ xs) h = ap (λ l. x ∷ l) (take-take_le k n xs (omega arith))

-- A list that is split around an item.
pub take-split :
    (before after : List ℕ) (x : ℕ) → take (length before) (before ++ (x ∷ after)) ≡ before
take-split [] after x = refl
take-split (y ∷ before) after x = ap (λ l. y ∷ l) (take-split before after x)

pub drop-split :
    (before after : List ℕ) (x : ℕ) → drop (length before + 1) (before ++ (x ∷ after)) ≡ after
drop-split [] after x = refl
drop-split (y ∷ before) after x =
    ap (λ k. drop k (y ∷ (before ++ (x ∷ after)))) next ∙ drop-split before after x
  where
    next : suc (length before) + 1 ≡ suc (length before + 1)
    next = omega arith
