-- ===== src/Core/Transmit/Resume.antt =====
-- A binding that stopped in the middle of a message and is enabled again.
mod Tests
use ps_libmctp_win.Prelude.{
  ℕ, suc, ◌+◌, ◌-◌, ◌≤◌, ◌<◌, ◌≡◌, ◌∙◌, ap, refl, Bool, true, false, Option, none, some, List, [],
  ◌∷◌, ◌++◌, length, drop, get_elem?, set, ◌==◌, arith, get_elem?-set_self, lt_length-get_elem?,
}
use ps_libmctp_win.Core.State.{
  Bus, tx_enabled, tx_disabled, Platform, Trace, World, done, M, ◌>>=◌, ◌>>◌, get_bus-bind,
}
use ps_libmctp_win.Core.Transmit.{
  send_loop, send_fuel, send_tx_queue, set_tx_enabled, set_tx_enabled_from,
}
use ps_libmctp_win.Core.Transmit.Progress.{IsSending}
use ps_libmctp_win.Core.Transmit.Fragments.{View, HasRoom, mtu, unsent, unsent-length}
use ps_libmctp_win.Core.Transmit.Parts.{TakesAll, fragments, sent, route}
use ps_libmctp_win.Core.Transmit.Sends.{Sent, send_loop_sends}
use ps_libmctp_win.Core.Transmit.Messages.{send_tx_queue-done}

module _ (p : Platform) where
  set_tx_enabled-queue :
      (i : ℕ) (w : World) (bus : Bus)
      → get_elem? w.mctp.busses i ≡ some bus
      → bus.state ≡ tx_disabled
      → set_tx_enabled p i true w
        ≡ send_tx_queue p i (record w {
          mctp = record (w.mctp) {
            busses = set w.mctp.busses i (record bus { state = tx_enabled });
          };
        })
  unfolding set_tx_enabled set_tx_enabled_from
  set_tx_enabled-queue i w bus at off = get_bus-bind i _ w at ∙ rw off

  -- When `mctp_binding_set_tx_enabled` enables a disabled binding that takes every packet and whose
  -- bus holds a message that is partly sent, with room for its packets, the rest of the message goes
  -- out: the packets are the parts of what was left, from the next sequence number on, with the
  -- start flag only if nothing had been sent, and the bus is idle then.
  pub set_tx_enabled_resumes :
      (i : ℕ) (w : World) (bus : Bus) (msg : List ℕ)
      → TakesAll p
      → get_elem? w.mctp.busses i ≡ some bus
      → bus.state ≡ tx_disabled
      → bus.tx_msg ≡ some msg
      → IsSending bus msg
      → HasRoom bus
      → (w' : World) × (set_tx_enabled p i true w ≡ done tt w')
        × (sent w'.trace
            ≡ sent w.trace
              ++ fragments
                  (suc bus.tx_msglen)
                  (mtu bus)
                  (route bus)
                  (bus.tx_msgpos == 0)
                  bus.tx_seq
                  (unsent bus msg))
        × ((bus' : Bus) × (get_elem? w'.mctp.busses i ≡ some bus') × (bus'.tx_msg ≡ none))
  set_tx_enabled_resumes i w bus msg takes at off held v r = (
    w',
    set_tx_enabled-queue i w bus at off ∙ send_tx_queue-done p i w0 bus0 at0 s.1,
    s.3,
    (
      s.0.0,
      get_elem?-set_self w0.mctp.busses i s.0.0 (lt_length-get_elem? w0.mctp.busses i at0),
      s.2,
    ),
  )
    where
      bus0 : Bus
      bus0 = record bus { state = tx_enabled }

      w0 : World
      w0 = record w { mctp = record (w.mctp) { busses = set w.mctp.busses i bus0 } }

      at0 : get_elem? w0.mctp.busses i ≡ some bus0
      at0 = get_elem?-set_self w.mctp.busses i bus0 (lt_length-get_elem? w.mctp.busses i at)

      s :
          Sent p takes w.mctp.has_capture i
            (send_loop p w.mctp.has_capture i (send_fuel bus0) bus0 w.trace)
            w.trace
            (fragments
              (suc bus.tx_msglen)
              (mtu bus)
              (route bus)
              (bus.tx_msgpos == 0)
              bus.tx_seq
              (unsent bus msg))
      s =
          send_loop_sends p takes w.mctp.has_capture i (suc bus.tx_msglen) bus0 msg w.trace held
            record {
              whole = v.whole;
              small = v.small;
              part = v.part;
              mtu = v.mtu;
              mtu_small = v.mtu_small;
            }
            record {
              room = r.room;
              room_small = r.room_small;
              seq_small = r.seq_small;
              tag_small = r.tag_small;
            }
            refl (omega (arith, unsent-length bus v))

      w' : World
      w' = record w0 {
        mctp = record (w0.mctp) { busses = set w0.mctp.busses i s.0.0 };
        trace = s.0.1;
      }
