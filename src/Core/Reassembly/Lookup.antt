-- ===== src/Core/Reassembly/Lookup.antt =====
-- The search for a context, when a slot is written.
use ps_libmctp_win.Prelude.{
  ℕ, zero, suc, ◌+◌, ◌<◌, ◌≡◌, ◌∙◌, refl, sym, ap, inl, inr, Bool, true, none, some, List, [], ◌∷◌,
  length, get_elem?, set, arith, Bool-cases,
}
use ps_libmctp_win.Core.Reassembly.{find_from}

module _ {ℓ} {A : Type ℓ} (test : A → Bool) where
  find_from-set_at :
      (i k : ℕ) (xs : List A) (v : A)
      → find_from test i xs ≡ some (i + k)
      → test v ≡ true
      → find_from test i (set xs k v) ≡ some (i + k)
  unfolding find_from
  find_from-set_at i k [] v h t = h
  find_from-set_at i zero (x ∷ xs) v h t = rw t (ap some (omega arith))
  find_from-set_at i (suc k) (x ∷ xs) v h t = ground (arith, find_from-set_at (suc i) k xs v)

  -- Writing an item that passes the test where the search has stopped does not move the search.
  pub find_from-set :
      (k : ℕ) (xs : List A) (v : A)
      → find_from test 0 xs ≡ some k
      → test v ≡ true
      → find_from test 0 (set xs k v) ≡ some k
  find_from-set k xs v h t = find_from-set_at 0 k xs v (h ∙ ap some whole) t ∙ ap some (sym whole)
    where
      whole : k ≡ 0 + k
      whole = omega arith

  find_from-new_at :
      (i k : ℕ) (xs : List A) (v : A)
      → find_from test i xs ≡ none
      → k < length xs
      → test v ≡ true
      → find_from test i (set xs k v) ≡ some (i + k)
  unfolding find_from
  find_from-new_at i k [] v h l t = absurd (omega arith)
  find_from-new_at i zero (x ∷ xs) v h l t = rw t (ap some (omega arith))
  find_from-new_at i (suc k) (x ∷ xs) v h l t = ground (arith, find_from-new_at (suc i) k xs v)

  -- Where the search finds nothing, it finds an item that is written and passes the test.
  pub find_from-set_new :
      (k : ℕ) (xs : List A) (v : A)
      → find_from test 0 xs ≡ none
      → k < length xs
      → test v ≡ true
      → find_from test 0 (set xs k v) ≡ some k
  find_from-set_new k xs v h l t = find_from-new_at 0 k xs v h l t ∙ ap some (omega arith)

  find_from-some_at :
      (i : ℕ) (xs : List A) {j : ℕ}
      → find_from test i xs ≡ some j
      → (k : ℕ) × (j ≡ i + k) × ((x : A) × (get_elem? xs k ≡ some x) × (test x ≡ true))
  unfolding find_from
  find_from-some_at i [] h = cc
  find_from-some_at i (x ∷ xs) h = elim (Bool-cases (test x)) [
    | inl here ↦ (0, ground arith, (x, refl, here))
    | inr later ↦
        let r = find_from-some_at (suc i) xs (rw later at h) in (suc r.0, omega (arith, r.1), r.2)
  ]

  -- What the search finds stands in the list and passes the test.
  pub find_from-some :
      (xs : List A) {k : ℕ}
      → find_from test 0 xs ≡ some k
      → (x : A) × (get_elem? xs k ≡ some x) × (test x ≡ true)
  find_from-some xs {k} h =
      let r = find_from-some_at 0 xs h in
      (r.2.0, ap (get_elem? xs) (omega (arith, r.1)) ∙ r.2.1, r.2.2)
