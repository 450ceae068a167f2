-- ===== src/Core/Control/Tests.antt =====
-- Requests to the endpoint of the tests, which has the EID 9 and one bus.
use ps_libmctp_win.Prelude.{◌≡◌, refl, true, [], ◌∷◌, ◌++◌, length-replicate, arith, replicate}
use ps_libmctp_win.Core.State.{World, done}
use ps_libmctp_win.Core.Transmit.Parts.{sent, TakesAll}
use ps_libmctp_win.Core.Receive.Start.{Grants}
use ps_libmctp_win.Core.Control.{control_handler}
use ps_libmctp_win.Core.Control.Answers.{Answer, assigns, answer, reply}
use ps_libmctp_win.Core.Control.Responds.{IsServing}
use ps_libmctp_win.Core.Control.Replies.{control_request_answered}
use ps_libmctp_win.Core.Examples.{platform, bus, world}

takes_all : TakesAll platform
takes_all tr i pkt = refl

grants : Grants platform
grants tr n = (replicate n 0, refl, length-replicate n 0)

world-IsServing : IsServing bus world
world-IsServing = record {
  bus_at = refl;
  used = refl;
  has_mctp = refl;
  can_send = record {
    enabled = refl;
    idle = refl;
    mtu_ok = omega arith;
    room = omega arith;
    room_small = omega arith;
    seq_small = omega arith;
  };
  control = record { sized = refl; within = omega arith };
}

-- Set Endpoint ID to 20, in a request with the instance number 3.
abbrev assigned : Answer
assigned = record { code = 0; content = 0 ∷ 20 ∷ 0 ∷ []; eid = 20 }

answer-assigned : answer 9 (0 ∷ []) 1 (0 ∷ 20 ∷ []) ≡ assigned
unfolding answer assigns
answer-assigned = refl

control_request_answered_example :
    (w' : World) × (control_handler platform 0 8 true 5 (0 ∷ 0x83 ∷ 1 ∷ 0 ∷ 20 ∷ []) world
      ≡ done true w')
    × (sent w'.trace ≡ sent [] ++ (reply bus 8 5 0x83 1 (answer 9 (0 ∷ []) 1 (0 ∷ 20 ∷ [])) ∷ []))
control_request_answered_example =
    control_request_answered platform takes_all grants 8 5 (omega arith) bus world world-IsServing
      0x83 1 (0 ∷ 20 ∷ []) refl

-- A command that is not known.
answer-unsupported : (answer 9 (0 ∷ []) 7 []).code ≡ 5
unfolding answer
answer-unsupported = refl
