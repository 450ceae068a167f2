-- ===== src/Core/Blocks/Calls.antt =====
-- Sequences of calls on an endpoint, and the blocks that mctp_cleanup releases at their end.
use ps_libmctp_win.Prelude.{
  ℕ, ◌+◌, ◌≡◌, ◌<◌, ◌∙◌, refl, ap, Bool, List, [], ◌∷◌, length, size_mod, All, arith,
}
use ps_libmctp_win.Packet.{Pktbuf}
use ps_libmctp_win.Core.State.{World, Platform, AllocatesSize, M, ◌>>◌, pure, done, bind-done}
use ps_libmctp_win.Core.Transmit.{set_tx_enabled, message_tx}
use ps_libmctp_win.Core.Receive.{bus_rx}
use ps_libmctp_win.Core.Setup.{cleanup}
use ps_libmctp_win.Core.Safety.{IsEndpoint, Keeps, Ensures-bind}
use ps_libmctp_win.Core.Safety.Sends.{message_tx-Keeps}
use ps_libmctp_win.Core.Safety.Receives.{IsBuf, bus_rx-Keeps}
use ps_libmctp_win.Core.Blocks.{
  allocs, frees, held, Frame, frame, Settled, After, After-done, After-bind, After-map, of_After,
}
use ps_libmctp_win.Core.Blocks.Neutral.{IsBalanced}
use ps_libmctp_win.Core.Blocks.Sends.{message_tx-Owes}
use ps_libmctp_win.Core.Blocks.Receives.{bus_rx-IsBalanced}
use ps_libmctp_win.Core.Blocks.Cleanup.{cleanup-blocks}
use ps_libmctp_win.Core.Blocks.Enable.{set_tx_enabled-Settled, set_tx_enabled-Keeps}

-- What the binding or the user of an endpoint calls.
pub data Call : Type 0 where
  receive : Pktbuf → Call
  send : ℕ → Bool → ℕ → List ℕ → Call
  enable : Bool → Call

abbrev pub call : Platform → Call → M (Unit {0})
call p (receive pkt) = bus_rx p 0 pkt
call p (send eid to tag msg) = message_tx p eid to tag msg >> pure tt
call p (enable on) = set_tx_enabled p 0 on

unfoldable pub call_all : Platform → List Call → M (Unit {0})
call_all p [] = pure tt
call_all p (c ∷ cs) = call p c >> call_all p cs

-- A packet lies in its buffer, and a length is a `size_t`.
abbrev pub IsFit : Call → Type 0
IsFit (receive pkt) = IsBuf pkt
IsFit (send eid to tag msg) = length msg < size_mod
IsFit (enable on) = Unit

module _ (p : Platform) where
  pub message_tx-IsBalanced :
      (eid : ℕ) (to : Bool) (tag : ℕ) (msg : List ℕ) → IsBalanced (message_tx p eid to tag msg)
  message_tx-IsBalanced eid to tag msg = record {
    settle = λ n w o.
        After-map (λ a w' o'. (ap (λ (g : Frame). g.1) o'.0 ∙ o.0, o'.1))
          (message_tx-Owes p eid to tag msg 0 (frame w) w (refl, o.1));
  }

module _ (p : Platform) (sized : AllocatesSize p) where
  call-Keeps : (c : Call) (w : World) → IsEndpoint w.mctp → IsFit c → Keeps (call p c) w
  call-Keeps (receive pkt) w v h = bus_rx-Keeps p sized pkt w v h
  call-Keeps (send eid to tag msg) w v h =
      Ensures-bind (message_tx p eid to tag msg) (λ _. pure tt) w
        (message_tx-Keeps p sized eid to tag msg w v h) (λ rc w' v'. (tt, w', refl, v'))
  call-Keeps (enable on) w v h = set_tx_enabled-Keeps p on w v

  call-Settled :
      (c : Call) (n : ℕ) (w : World) → 0 < n → Settled n w → After (λ u. Settled n) (call p c w)
  call-Settled (receive pkt) n w l o = (bus_rx-IsBalanced p 0 pkt).settle n w o
  call-Settled (send eid to tag msg) n w l o =
      After-bind (message_tx p eid to tag msg) (λ _. pure tt) w
        ((message_tx-IsBalanced p eid to tag msg).settle n w o) (λ rc w' o'. After-done tt w' o')
  call-Settled (enable on) n w l o = set_tx_enabled-Settled p on n w l o

  call_all-Settled :
      (cs : List Call) (n : ℕ) (w : World)
      → IsEndpoint w.mctp
      → 0 < n
      → Settled n w
      → All IsFit cs
      → (w' : World) × (call_all p cs w ≡ done tt w') × IsEndpoint w'.mctp × Settled n w'
  unfolding call_all
  call_all-Settled [] n w v l o h = (w, refl, v, o)
  call_all-Settled (c ∷ cs) n w v l o (h, hs) =
      let (u, w1, run, v1) = call-Keeps c w v h in
      let rest = call_all-Settled cs n w1 v1 l (of_After (call-Settled c n w l o) run) hs in
      (rest.0, bind-done (call p c) (λ _. call_all p cs) w run ∙ rest.1, rest.2, rest.3)

  -- The message blocks balance over the life of an endpoint: for an allocator whose blocks have the
  -- size that was asked for, on an endpoint with a bus in use for which each block
  -- allocated so far has been released or is held, any sequence of receptions of packets whose
  -- bounds lie in their buffers, of `mctp_message_tx` with lengths that are a `size_t`, and of
  -- `mctp_binding_set_tx_enabled` runs to its end, whatever the binding and the allocator answer and
  -- whatever the packets hold; each block allocated is then released or held, and `mctp_cleanup`
  -- releases those that are held, so that as many are released as were allocated.
  pub cleanup_balances :
      (cs : List Call) (w : World)
      → IsEndpoint w.mctp
      → 0 < w.mctp.n_busses
      → frees w.trace + held w.mctp ≡ allocs w.trace
      → All IsFit cs
      → (w' : World) × (call_all p cs w ≡ done tt w')
        × (frees w'.trace + held w'.mctp ≡ allocs w'.trace)
        × (frees (cleanup w') ≡ allocs (cleanup w'))
  cleanup_balances cs w v l o h =
      let r = call_all-Settled cs w.mctp.n_busses w v l (refl, omega (arith, o)) h in
      let c = cleanup-blocks r.0 in (r.0, r.1, omega (arith, r.3.1), omega (arith, r.3.1, c.0, c.1))
