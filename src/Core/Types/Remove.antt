-- ===== src/Core/Types/Remove.antt =====
-- mctp_control_remove_type against the list without the type.
use ps_libmctp_win.Prelude.{
  ℕ, zero, suc, ◌+◌, ◌-◌, ◌<◌, ◌≤◌, ◌≡◌, inl, inr, ◌∙◌, ap, ap₂, sym, refl, subst, true, false,
  List, [], ◌∷◌, ◌++◌, append_assoc, get_or, take, drop, drop-take, slice, write_at, length,
  length-take, length-append, length-slice, length-write_at, take-write_at, get_or-take, ltb, ◌==◌,
  ==_iff, arith, Bool-cases,
}
use ps_libmctp_win.Core.State.{Control}
use ps_libmctp_win.Core.Types.{drop_type, remove_from, remove_type}
use ps_libmctp_win.Core.Types.Sets.{IsTypes, types, has}
use ps_libmctp_win.Core.Types.Without.{
  without, IsDistinct, without-absent, has-without, has-get_or, get_or-append, take-take_le,
  take-split, drop-split,
}

length-types : (c : Control) → IsTypes c → length (types c) ≡ c.num_msg_types
length-types c v = omega (arith, length-take c.num_msg_types c.msg_types, v.sized, v.within)

-- The items of the reported list are those of the array.
types-get_or :
    (c : Control) (before after : List ℕ) (k : ℕ)
    → types c ≡ before ++ after
    → length before ≤ k
    → k < c.num_msg_types
    → get_or c.msg_types k 0 ≡ get_or after (k - length before) 0
types-get_or c before after k e l u =
    sym (get_or-take c.num_msg_types c.msg_types k 0 u)
    ∙ ap (λ l. get_or l k 0) e
    ∙ get_or-append before after k l

-- The loop changes nothing where the type does not occur.
remove_from-absent :
    (n i t : ℕ) (c : Control)
    → ((k : ℕ) → i ≤ k → k < c.num_msg_types → (get_or c.msg_types k 0 == t) ≡ false)
    → remove_from n i t c ≡ c
unfolding remove_from
remove_from-absent zero i t c h = refl
remove_from-absent (suc n) i t c h = elim (Bool-cases (ltb i c.num_msg_types)) [
  | inl inside ↦
      rw (remove_from, inside, h i (omega arith) (ground arith))
        (remove_from-absent n (i + 1) t c (λ k l u. h k (omega arith) u))
  | inr done_ ↦ rw (remove_from, done_)
]

-- The array when the type behind `before` has been dropped.
drop_type-types :
    (c : Control) (before after : List ℕ) (x : ℕ)
    → IsTypes c
    → types c ≡ before ++ (x ∷ after)
    → IsTypes (drop_type (length before) c)
      × (types (drop_type (length before) c) ≡ before ++ after)
unfolding drop_type
drop_type-types c before after x v e = (
  record {
    sized = length-write_at c.msg_types b moved ∙ v.sized;
    within = omega (arith, v.within);
  },
  ap (λ k. take k (write_at c.msg_types b moved)) (omega (arith, count, moved_len))
      ∙ take-write_at c.msg_types b moved (omega (arith, count, moved_len, v.sized, v.within))
      ∙ ap₂ (λ (a b : List ℕ). a ++ b) kept rest,
)
  where
    b : ℕ
    b = length before

    moved : List ℕ
    moved = slice c.msg_types (b + 1) (c.num_msg_types - (b + 1))

    count : c.num_msg_types ≡ b + suc (length after)
    count = sym (length-types c v) ∙ ap length e ∙ length-append before (x ∷ after)

    moved_len : length moved ≡ length after
    moved_len =
        length-slice c.msg_types (b + 1) (c.num_msg_types - (b + 1))
          (omega (arith, count, v.sized, v.within))
        ∙ omega (arith, count)

    kept : take b c.msg_types ≡ before
    kept =
        sym (take-take_le b c.num_msg_types c.msg_types (omega (arith, count)))
        ∙ ap (take b) e
        ∙ take-split before after x

    whole : b + 1 + (c.num_msg_types - (b + 1)) ≡ c.num_msg_types
    whole = omega (arith, count)

    rest : moved ≡ after
    rest =
        sym (drop-take (b + 1) (c.num_msg_types - (b + 1)) c.msg_types)
        ∙ ap (λ k. drop (b + 1) (take k c.msg_types)) whole
        ∙ ap (drop (b + 1)) e
        ∙ drop-split before after x

-- The loop from behind `before` on.
remove_from-types :
    (n t : ℕ) (c : Control) (before after : List ℕ)
    → IsTypes c
    → types c ≡ before ++ after
    → IsDistinct after
    → length after ≤ n
    → let c' = remove_from n (length before) t c in
      IsTypes c' × (types c' ≡ before ++ without t after)
unfolding remove_from without drop_type
remove_from-types n t c before [] v e d l =
    subst (λ c'. IsTypes c' × (types c' ≡ before ++ [])) (sym over) (v, e)
  where
    over : remove_from n (length before) t c ≡ c
    over =
        remove_from-absent n (length before) t c
          (λ k l u. absurd (omega (arith, length-types c v, ap length e, length-append before [])))
remove_from-types zero t c before (x ∷ after) v e d l = absurd (omega arith)
remove_from-types (suc n) t c before (x ∷ after) v e d l = elim (Bool-cases (x == t)) [
  | inl same ↦
      let dropped = drop_type-types c before after x v e in
      rw
        (
          remove_from,
          inside,
          at_x ∙ same,
          without,
          same,
          left same,
          without-absent t after (gone same),
        )
        dropped
  | inr other ↦
      let next =
        remove_from-types n t c (before ++ (x ∷ [])) after v (e ∙ shifted after) d.1
          (omega arith) in
      rw (remove_from, inside, at_x ∙ other, without, other)
        (subst (λ k. Kept k) longer (next.0, next.1 ∙ sym (shifted (without t after))))
]
  where
    count : c.num_msg_types ≡ length before + suc (length after)
    count = sym (length-types c v) ∙ ap length e ∙ length-append before (x ∷ after)

    inside : ltb (length before) c.num_msg_types ≡ true
    inside = ground (arith, count)

    at_x : (get_or c.msg_types (length before) 0 == t) ≡ (x == t)
    at_x =
        ap (λ y. y == t)
          (types-get_or c before (x ∷ after) (length before) e (omega arith) (omega (arith, count))
            ∙ ap (λ k. get_or (x ∷ after) k 0) first)
      where
        first : length before - length before ≡ 0
        first = omega arith

    gone : (x == t) ≡ true → has t after ≡ false
    gone same = ap (λ y. has y after) (sym ((==_iff x t).0 same)) ∙ d.0

    left :
        (x == t) ≡ true
        → remove_from n (length before + 1) t (drop_type (length before) c)
          ≡ drop_type (length before) c
    left same = remove_from-absent n (length before + 1) t (drop_type (length before) c) (λ k l u.
        ap (λ y. y == t)
          (types-get_or (drop_type (length before) c) before after k
            (drop_type-types c before after x v e).1 (omega arith) u)
        ∙ has-get_or t after (k - length before) (gone same) (omega (arith, count, l, u)))

    shifted : (ys : List ℕ) → before ++ (x ∷ ys) ≡ (before ++ (x ∷ [])) ++ ys
    shifted ys = sym (append_assoc before (x ∷ []) ys)

    longer : length (before ++ (x ∷ [])) ≡ length before + 1
    longer = length-append before (x ∷ [])

    Kept : ℕ → Type 0
    Kept k =
        IsTypes (remove_from n k t c)
        × (types (remove_from n k t c) ≡ before ++ (x ∷ without t after))

-- On a valid list without duplicates, `mctp_control_remove_type` leaves a valid list with the same
-- types in the same order but for the given one, which is not listed any more.
pub remove_type_lem :
    (t : ℕ) (c : Control)
    → IsTypes c
    → IsDistinct (types c)
    → IsTypes (remove_type t c)
      × (types (remove_type t c) ≡ without t (types c))
      × (has t (types (remove_type t c)) ≡ false)
unfolding remove_type
remove_type_lem t c v d =
    let r =
      remove_from-types c.num_msg_types t c [] (types c) v refl d
        (omega (arith, length-types c v)) in
    (r.0, r.1, ap (has t) r.1 ∙ has-without t (types c))
