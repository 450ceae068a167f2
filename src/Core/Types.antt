-- ===== src/Core/Types.antt =====
-- The message types that an endpoint reports: mctp_control_add_type and mctp_control_remove_type of
-- src/control.c.
pub mod Sets
pub mod Without
pub mod Remove
use ps_libmctp_win.Prelude.{
  ℕ, zero, suc, ◌+◌, ◌-◌, Bool, true, false, get_or, set, slice, write_at, ltb, ◌==◌, if◌then◌else◌,
}
use ps_libmctp_win.Core.State.{Rc, success, enospc, Control, control_max_types}

-- The loop over the `n` types from index `i` on.
unfoldable pub has_type_from : ℕ → ℕ → ℕ → Control → Bool
has_type_from zero i msg_type c = false
has_type_from (suc n) i msg_type c =
    if get_or c.msg_types i 0 == msg_type then true else has_type_from n (i + 1) msg_type c

-- `mctp_control_add_type`
unfoldable pub add_type : ℕ → Control → Rc × Control
add_type msg_type c =
    if has_type_from c.num_msg_types 0 msg_type c
    then (success, c)
    else if c.num_msg_types == control_max_types
    then (enospc, c)
    else (
      success,
      record c {
        msg_types = set c.msg_types c.num_msg_types msg_type;
        num_msg_types = c.num_msg_types + 1;
      },
    )

-- The `memmove` of the types behind index `i` and the shorter count.
unfoldable pub drop_type : ℕ → Control → Control
drop_type i c = record c {
  msg_types = write_at c.msg_types i (slice c.msg_types (i + 1) (c.num_msg_types - (i + 1)));
  num_msg_types = c.num_msg_types - 1;
}

-- The loop of `mctp_control_remove_type` from index `i` on. The index moves on after a removal too,
-- and the bound is read again, so `n` rounds are enough.
unfoldable pub remove_from : ℕ → ℕ → ℕ → Control → Control
remove_from zero i msg_type c = c
remove_from (suc n) i msg_type c =
    let rest =
      remove_from n (i + 1) msg_type
        (if get_or c.msg_types i 0 == msg_type then drop_type i c else c) in
    if ltb i c.num_msg_types then rest else c

-- `mctp_control_remove_type`
unfoldable pub remove_type : ℕ → Control → Control
remove_type msg_type c = remove_from c.num_msg_types 0 msg_type c
