-- ===== src/Core/Exchange.antt =====
-- From one endpoint to another: what mctp_message_tx_on_bus sends, mctp_bus_rx delivers.
mod Tests
use ps_libmctp_win.Prelude.{
  ℕ, suc, ◌+◌, ◌-◌, ◌≤◌, ◌<◌, ◌≡◌, ◌∙◌, sym, ap, Bool, true, none, some, List, [], ◌∷◌, ◌++◌,
  length, map, All, get_elem?, arith, size_mod,
}
use ps_libmctp_win.Packet.{Pktbuf}
use ps_libmctp_win.Core.State.{
  Rc, success, Bus, Trace, Platform, World, Outcome, done, fault, spins,
}
use ps_libmctp_win.Core.Transmit.{message_tx_on_bus}
use ps_libmctp_win.Core.Transmit.Fragments.{View, view}
use ps_libmctp_win.Core.Transmit.Parts.{TakesAll, fragments, sent}
use ps_libmctp_win.Core.Transmit.Messages.{CanSend, addressed, message_tx_on_bus_sends}
use ps_libmctp_win.Core.Reassembly.Bounds.{IsPkt}
use ps_libmctp_win.Core.Receive.Steps.{IsPlain}
use ps_libmctp_win.Core.Receive.Start.{Grants, IsIdle}
use ps_libmctp_win.Core.Receive.Whole.{DeliversMessage, delivers_message}

abbrev pub trace_of : {A : Type 0} → Trace → Outcome A → Trace
trace_of tr (done a w) = w.trace
trace_of tr fault = tr
trace_of tr spins = tr

-- A started, idle bus whose binding takes every packet and has room for them sends a message with
-- a tag below 8, before anything else was sent. When the packets that arrive at another endpoint
-- are read as those that were sent, that endpoint hands exactly this message to its callback, with
-- its source, tag owner bit and tag. The conditions on that endpoint: its allocator grants every
-- request, its callback is set, its bus is linked to its instance, and it has a free context, no
-- context for this message and room for it. The source is not the broadcast address, the message
-- is for that endpoint and no control request.
pub message_arrives :
    (p : Platform) (i src dest : ℕ) (to : Bool) (tag : ℕ) (msg : List ℕ) (w w' : World) (bus : Bus)
    (q : Platform) (j : ℕ) (bus' : Bus) {k : ℕ} (pkts : List Pktbuf) (v : World)
    → TakesAll p
    → get_elem? w.mctp.busses i ≡ some bus
    → CanSend bus
    → tag < 8
    → length msg < size_mod
    → w.trace ≡ []
    → message_tx_on_bus p i src dest to tag msg w ≡ done success w'
    → map view pkts ≡ sent w'.trace
    → All IsPkt pkts
    → (grants : Grants q) → IsIdle j bus' (addressed src dest to tag) k v
    → length msg ≤ v.mctp.max_message_size
    → IsPlain msg
    → DeliversMessage q grants j bus'
        (addressed src dest to tag)
        (bus.binding.pkt_size - 4)
        msg
        pkts
        v
unfolding sent
message_arrives p i src dest to tag msg w w' bus q j bus' pkts v takes at can small fits quiet run
      wire vs grants idle room plain =
    delivers_message q grants j bus' (addressed src dest to tag) (bus.binding.pkt_size - 4)
      (suc (length msg)) pkts bus.tx_seq msg v (omega (arith, can.mtu_ok))
      (wire ∙ ap sent same_trace ∙ s.2 ∙ ap (λ tr. sent tr ++ parts) quiet) vs idle (omega arith)
      room plain
  where
    parts : List View
    parts =
        fragments (suc (length msg)) (bus.binding.pkt_size - 4) (addressed src dest to tag) true
          bus.tx_seq msg

    s :
        (u : World) × (message_tx_on_bus p i src dest to tag msg w ≡ done success u)
        × (sent u.trace ≡ sent w.trace ++ parts)
        × ((b : Bus) × (get_elem? u.mctp.busses i ≡ some b) × (b.tx_msg ≡ none))
    s = message_tx_on_bus_sends p i src dest to tag msg w bus takes at can small fits

    same_trace : w'.trace ≡ s.0.trace
    same_trace = ap (trace_of []) (sym run ∙ s.1)
