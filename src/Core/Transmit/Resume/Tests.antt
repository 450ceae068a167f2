-- ===== src/Core/Transmit/Resume/Tests.antt =====
-- The last 36 of 100 bytes.
use ps_libmctp_win.Prelude.{
  ℕ, ◌≡◌, refl, inl, true, false, none, some, List, [], ◌∷◌, ◌++◌, get_elem?, drop, replicate,
  arith,
}
use ps_libmctp_win.Core.State.{Bus, tx_disabled, World, done}
use ps_libmctp_win.Core.Transmit.{set_tx_enabled}
use ps_libmctp_win.Core.Transmit.Parts.{fragments, sent}
use ps_libmctp_win.Core.Transmit.Messages.{addressed}
use ps_libmctp_win.Core.Transmit.Resume.{set_tx_enabled_resumes}
use ps_libmctp_win.Core.Examples.{platform, mctp, sending}

abbrev msg : List ℕ
msg = replicate 100 7

abbrev stopped : Bus
stopped = record sending { state = tx_disabled }

abbrev paused : World
paused = record { mctp = record mctp { busses = stopped ∷ [] }; trace = [] }

set_tx_enabled_resumes_example :
    (w' : World) × (set_tx_enabled platform 0 true paused ≡ done tt w')
    × (sent w'.trace ≡ sent [] ++ fragments 101 64 (addressed 9 8 false 5) false 3 (drop 64 msg))
    × ((bus' : Bus) × (get_elem? w'.mctp.busses 0 ≡ some bus') × (bus'.tx_msg ≡ none))
set_tx_enabled_resumes_example =
    set_tx_enabled_resumes platform 0 paused stopped msg (λ tr i pkt. refl) refl refl refl
      record {
        whole = refl;
        small = omega arith;
        part = inl (omega arith);
        mtu = omega arith;
        mtu_small = omega arith;
      }
      record {
        room = omega arith;
        room_small = omega arith;
        seq_small = omega arith;
        tag_small = omega arith;
      }
