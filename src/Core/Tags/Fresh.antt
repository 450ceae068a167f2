-- ===== src/Core/Tags/Fresh.antt =====
-- `mctp_alloc_tag` never hands out a tag that a live request of the same endpoints holds.
use ps_libmctp_win.Prelude.{
  leb, ℕ, ◌+◌, ◌*◌, ◌/◌, ◌%◌, ◌^◌, ◌<◌, ◌≡◌, ◌∙◌, ap, sym, refl, Bool, true, false, Option, some,
  List, [], ◌∷◌, All, bit_and, bit_or, ◌==◌, not, ◌&&◌, ◌||◌, if◌then◌else◌, arith, checks_below,
  checks_below-at,
}
use ps_libmctp_win.Core.State.{ReqTag}
use ps_libmctp_win.Core.Tags.{matches, is_spare, scan_tags}

-- A live entry of the endpoint pair with this tag.
abbrev pub holds : ℕ → ℕ → ℕ → ℕ → ReqTag → Bool
holds now local remote tag r = not (r.local == 0) && leb now r.expiry && matches local remote tag r

unfoldable pub is_used : ℕ → ℕ → ℕ → ℕ → List ReqTag → Bool
is_used now local remote tag [] = false
is_used now local remote tag (r ∷ rs) =
    holds now local remote tag r || is_used now local remote tag rs

-- The bit of a tag is not set.
abbrev pub is_free : ℕ → ℕ → Bool
is_free used tag = bit_and used (2 ^ tag) == 0

same : Bool → Bool → Bool
same true b = b
same false b = not b

same→≡ : (a b : Bool) → same a b ≡ true → a ≡ b
unfolding same
same→≡ true b h = sym h
same→≡ false true h = ground arith
same→≡ false false h = refl

marks : ℕ → Bool
marks x =
    let s = x % 8 in
    let t = x / 8 % 8 in
    let used = x / 64 in
    same (is_free (bit_or used (2 ^ s) % 256) t) (is_free used t && not (s == t))

marks_table : checks_below 16384 marks ≡ true
unfolding checks_below marks same
marks_table = refl

marked_of :
    (x : ℕ) {used s t : ℕ}
    → x / 64 ≡ used
    → x % 8 ≡ s
    → x / 8 % 8 ≡ t
    → marks x ≡ true
    → is_free (bit_or used (2 ^ s) % 256) t ≡ (is_free used t && not (s == t))
unfolding marks
marked_of x p q r h = rw (← p, ← q, ← r) (same→≡ _ _ h)

-- Marking the tag `s` as used changes the bit of `s` only.
marked :
    (used s t : ℕ)
    → used < 256
    → s < 8
    → t < 8
    → is_free (bit_or used (2 ^ s) % 256) t ≡ (is_free used t && not (s == t))
marked used s t hu hs ht =
    marked_of (used * 64 + t * 8 + s) (omega arith) (omega arith) (omega arith)
      (checks_below-at 16384 marks (used * 64 + t * 8 + s) marks_table (omega arith))

de_morgan : (a b c : Bool) → (a && not b && not c) ≡ (a && not (b || c))
de_morgan true true c = refl
de_morgan true false c = refl
de_morgan false b c = refl

module _ (now local remote : ℕ) where
  -- The mask after one entry.
  abbrev marked_used : ℕ → ReqTag → ℕ
  marked_used used r =
      if is_spare now r
      then used
      else if r.local == local && r.remote == remote
      then bit_or used (2 ^ r.tag) % 256
      else used

  marked_used-small : (used : ℕ) (r : ReqTag) → used < 256 → marked_used used r < 256
  marked_used-small used r h = ground arith

  marked_used-free :
      (used t : ℕ) (r : ReqTag)
      → r.tag < 8
      → used < 256
      → t < 8
      → is_free (marked_used used r) t ≡ (is_free used t && not (holds now local remote t r))
  marked_used-free used t r v h ht = ground (arith, marked used r.tag t h v ht)

  -- The bits that the first loop of `mctp_alloc_tag` leaves clear.
  pub scan_tags-used :
      (i : ℕ) (spare : Option ℕ) (used t : ℕ) (rs : List ReqTag)
      → All (λ r. r.tag < 8) rs
      → used < 256
      → t < 8
      → is_free (scan_tags now local remote i spare used rs).1 t
        ≡ (is_free used t && not (is_used now local remote t rs))
  unfolding scan_tags is_used
  scan_tags-used i spare used t [] v h ht = ground arith
  scan_tags-used i spare used t (r ∷ rs) v h ht =
      scan_tags-used (i + 1) (if is_spare now r then some i else spare) (marked_used used r) t rs
        v.1 (marked_used-small used r h) ht
      ∙ ap (λ b. b && not (is_used now local remote t rs)) (marked_used-free used t r v.0 h ht)
      ∙ de_morgan (is_free used t) (holds now local remote t r) (is_used now local remote t rs)
