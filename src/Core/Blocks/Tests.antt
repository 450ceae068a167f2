-- ===== src/Core/Blocks/Tests.antt =====
-- A life of an endpoint: a message is begun and never ended, one is sent, and one waits on a disabled
-- bus.
use ps_libmctp_win.Prelude.{false, ◌+◌, ◌≡◌, refl, List, [], ◌∷◌, replicate, arith}
use ps_libmctp_win.Core.State.{World, done}
use ps_libmctp_win.Core.Setup.{cleanup}
use ps_libmctp_win.Core.Examples.{platform, world, packet}
use ps_libmctp_win.Core.Safety.Examples.{platform-AllocatesSize, world-IsEndpoint, packet-IsBuf}
use ps_libmctp_win.Core.Blocks.{allocs, frees, held}
use ps_libmctp_win.Core.Blocks.Calls.{Call, receive, send, enable, call_all, cleanup_balances}

abbrev life : List Call
life =
    receive (packet (1 ∷ 9 ∷ 8 ∷ 0x80 ∷ replicate 12 7) 16)
    ∷ send 8 false 2 (replicate 100 5)
    ∷ enable false
    ∷ send 8 false 3 (1 ∷ 2 ∷ [])
    ∷ []

cleanup_balances_example :
    (w' : World) × (call_all platform life world ≡ done tt w')
    × (frees w'.trace + held w'.mctp ≡ allocs w'.trace)
    × (frees (cleanup w') ≡ allocs (cleanup w'))
cleanup_balances_example =
    cleanup_balances platform platform-AllocatesSize life world world-IsEndpoint (omega arith) refl
      (packet-IsBuf _ 16 refl (omega arith), (omega arith, (tt, (omega arith, tt))))
