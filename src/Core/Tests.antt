-- ===== src/Core/Tests.antt =====
-- Tags and message types at concrete inputs.
use ps_libmctp_win.Prelude.{◌≡◌, ◌⊎◌, refl, true, false, List, [], ◌∷◌, replicate, arith}
use ps_libmctp_win.Core.State.{success, enospc, ReqTag, Control, World}
use ps_libmctp_win.Core.Types.{add_type, remove_type}
use ps_libmctp_win.Core.Types.Without.{without}
use ps_libmctp_win.Core.Types.Remove.{remove_type_lem}
use ps_libmctp_win.Core.Types.Sets.{IsTypes, types, has, add_type_lem}
use ps_libmctp_win.Core.Examples.{mctp}

-- 9 waits for 8 with tag 0; an entry with tag 1 has expired.
abbrev tags : List ReqTag
tags =
    record { local = 9; remote = 8; tag = 0; expiry = 5000 }
    ∷ record { local = 9; remote = 8; tag = 1; expiry = 99 }
    ∷ []

abbrev waiting : World
waiting = record { mctp = record mctp { req_tags = tags }; trace = [] }

abbrev control : Control
control = record { msg_types = 0 ∷ 5 ∷ replicate 8 0; num_msg_types = 2 }

control-IsTypes : IsTypes control
control-IsTypes = record { sized = refl; within = omega arith }

add_type_lem_example :
    (has 126 (0 ∷ 5 ∷ []) ≡ true) × (add_type 126 control ≡ (success, control))
    ⊎ (has 126 (0 ∷ 5 ∷ []) ≡ false)
      × (control.num_msg_types ≡ 10)
      × (add_type 126 control ≡ (enospc, control))
    ⊎ (has 126 (0 ∷ 5 ∷ []) ≡ false)
      × (c' : Control) × (add_type 126 control ≡ (success, c'))
      × IsTypes c'
      × (types c' ≡ 0 ∷ 5 ∷ 126 ∷ [])
add_type_lem_example = add_type_lem 126 control control-IsTypes

remove_type_lem_example :
    IsTypes (remove_type 0 control)
    × (types (remove_type 0 control) ≡ without 0 (types control))
    × (has 0 (types (remove_type 0 control)) ≡ false)
unfolding has
remove_type_lem_example = remove_type_lem 0 control control-IsTypes (refl, (refl, tt))
