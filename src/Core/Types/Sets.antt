-- ===== src/Core/Types/Sets.antt =====
-- The reported message types are a set: mctp_control_add_type and mctp_control_remove_type against
-- membership.
use ps_libmctp_win.Prelude.{
  ℕ, zero, suc, ◌+◌, ◌<◌, ◌≤◌, ◌≡◌, ◌≢◌, ◌⊎◌, inl, inr, ◌∙◌, ap, sym, refl, Bool, true, false, List,
  [], ◌∷◌, ◌++◌, get_or, set, length-set, take, drop, slice, length, ◌==◌, if◌then◌else◌, arith,
  Bool-cases,
}
use ps_libmctp_win.Core.State.{success, enospc, Control, control_max_types}
use ps_libmctp_win.Core.Types.{has_type_from, add_type}

-- The array has its size, and the count is within it.
pub record IsTypes (c : Control) : Type 0 where
  pub sized : length c.msg_types ≡ control_max_types
  pub within : c.num_msg_types ≤ control_max_types

-- The types that are reported.
abbrev pub types : Control → List ℕ
types c = take c.num_msg_types c.msg_types

-- The test of a list for a type.
unfoldable pub has : ℕ → List ℕ → Bool
has t [] = false
has t (x ∷ xs) = if x == t then true else has t xs

drop-get_or : (xs : List ℕ) (i : ℕ) → i < length xs → drop i xs ≡ get_or xs i 0 ∷ drop (suc i) xs
drop-get_or [] i h = absurd (omega arith)
drop-get_or (x ∷ xs) zero h = refl
drop-get_or (x ∷ xs) (suc i) h = drop-get_or xs i (omega arith)

-- The loop tests the types from `i` on.
has_type_from-has :
    (n i t : ℕ) (c : Control)
    → i + n ≤ length c.msg_types
    → has_type_from n i t c ≡ has t (slice c.msg_types i n)
unfolding has_type_from has
has_type_from-has zero i t c h = refl
has_type_from-has (suc n) i t c h =
    ap (λ b. if get_or c.msg_types i 0 == t then true else b)
      (has_type_from-has n (i + 1) t c (omega arith))
    ∙ ap (λ k. has t (get_or c.msg_types i 0 ∷ take n (drop k c.msg_types))) next
    ∙ sym (ap (λ l. has t (take (suc n) l)) (drop-get_or c.msg_types i (omega arith)))
  where
    next : i + 1 ≡ suc i
    next = omega arith

take-set :
    (xs : List ℕ) (i v : ℕ) → i < length xs → take (suc i) (set xs i v) ≡ take i xs ++ (v ∷ [])
take-set [] i v h = absurd (omega arith)
take-set (x ∷ xs) zero v h = refl
take-set (x ∷ xs) (suc i) v h = ap (λ l. x ∷ l) (take-set xs i v (omega arith))

-- On a valid list, `mctp_control_add_type` changes nothing and returns 0 when the type is listed
-- already, changes nothing and returns -ENOSPC when the list is full, and otherwise returns 0 and a
-- valid list with the type at its end.
pub add_type_lem :
    (t : ℕ) (c : Control)
    → IsTypes c
    → (has t (types c) ≡ true) × (add_type t c ≡ (success, c))
      ⊎ (has t (types c) ≡ false)
        × (c.num_msg_types ≡ control_max_types)
        × (add_type t c ≡ (enospc, c))
      ⊎ (has t (types c) ≡ false)
        × (c' : Control) × (add_type t c ≡ (success, c'))
        × IsTypes c'
        × (types c' ≡ types c ++ (t ∷ []))
unfolding add_type
add_type_lem t c v = elim (Bool-cases (has t (types c))) [
  | inl old ↦ inl (old, rw (tested, old))
  | inr new ↦ elim (Bool-cases (c.num_msg_types == control_max_types)) [
    | inl full ↦ inr (inl (new, ground arith, rw (tested, new, full)))
    | inr room ↦ inr (
        inr (
          new,
          grown,
          rw (tested, new, room),
          record {
            sized = length-set c.msg_types c.num_msg_types t ∙ v.sized;
            within = omega (arith, v.within, ne_of room);
          },
          ap (λ k. take k (set c.msg_types c.num_msg_types t)) next
              ∙ take-set c.msg_types c.num_msg_types t
                  (omega (arith, v.sized, v.within, ne_of room)),
        ))
  ]
]
  where
    tested : has_type_from c.num_msg_types 0 t c ≡ has t (types c)
    tested = has_type_from-has c.num_msg_types 0 t c (omega (arith, v.sized, v.within))

    grown : Control
    grown = record c {
      msg_types = set c.msg_types c.num_msg_types t;
      num_msg_types = c.num_msg_types + 1;
    }

    next : c.num_msg_types + 1 ≡ suc c.num_msg_types
    next = omega arith

    ne_of : (c.num_msg_types == control_max_types) ≡ false → c.num_msg_types ≢ 10
    ne_of h = ground arith
