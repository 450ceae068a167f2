-- ===== src/Core/Transmit/Messages.antt =====
-- `mctp_message_tx_on_bus`: it always returns, and with a binding that takes every packet it sends
-- the message whole.
use ps_libmctp_win.Prelude.{
  ℕ, suc, ◌+◌, ◌-◌, ◌≤◌, ◌<◌, ◌==◌, ◌≡◌, ◌⊎◌, inr, ◌∙◌, ap, refl, Bool, true, false, none, some,
  List, [], ◌++◌, length, get_elem?, set, arith, size_mod, leb, is_some, bit_and,
  get_elem?-set_self, lt_length-get_elem?, checks_below, checks_below-at,
}
use ps_libmctp_win.Core.State.{
  Bus, tx_enabled, Platform, Trace, World, done, success, ◌>>◌, get_bus-bind, bind-done, pure,
}
use ps_libmctp_win.Core.Transmit.{
  send_loop, send_fuel, send_tx_queue, take_msg, message_tx_on_bus, is_constructed, body_size, btu,
}
use ps_libmctp_win.Core.Transmit.Progress.{IsSending, IsReady}
use ps_libmctp_win.Core.Transmit.Fragments.{View, HasRoom}
use ps_libmctp_win.Core.Transmit.Parts.{TakesAll, fragments, sent}
use ps_libmctp_win.Core.Transmit.Sends.{send_loop_sends}

-- A bus between calls: a message it holds is partly sent, and one that is started has the MTU that
-- `mctp_binding_set_tx_enabled` asks for.
pub record IsBus (bus : Bus) : Type 0 where
  pub ready : IsReady bus
  pub mtu_ok : (is_constructed bus.state ≡ true) ⊎ (68 ≤ bus.binding.pkt_size)
  pub mtu_small : bus.binding.pkt_size < size_mod

module _ (p : Platform) where
  -- `mctp_send_tx_queue` when its loop ends.
  pub send_tx_queue-done :
      (i : ℕ) (w : World) (bus : Bus) {out : Bus × Trace}
      → get_elem? w.mctp.busses i ≡ some bus
      → send_loop p w.mctp.has_capture i (send_fuel bus) bus w.trace ≡ some out
      → send_tx_queue p i w
        ≡ done tt record w {
          mctp = record (w.mctp) { busses = set w.mctp.busses i out.0 };
          trace = out.1;
        }
  unfolding send_tx_queue
  send_tx_queue-done i w bus b e = ground arith

  pub take_msg-IsReady :
      (bus : Bus) (src dest : ℕ) (to : Bool) (tag : ℕ) (msg : List ℕ)
      → 68 ≤ bus.binding.pkt_size
      → bus.binding.pkt_size < size_mod
      → length msg < size_mod
      → IsSending (take_msg bus src dest to tag msg) msg
  unfolding take_msg
  take_msg-IsReady bus src dest to tag msg m s l = record {
    whole = refl;
    small = l;
    part = inr refl;
    mtu = m;
    mtu_small = s;
  }

  -- The path of `mctp_message_tx_on_bus` on which the message is taken.
  pub message_tx_on_bus-takes :
      (i src dest : ℕ) (to : Bool) (tag : ℕ) (msg : List ℕ) (w : World) (bus : Bus)
      → get_elem? w.mctp.busses i ≡ some bus
      → is_constructed bus.state ≡ false
      → (bit_and tag 7 == tag) ≡ true
      → 68 ≤ bus.binding.pkt_size
      → bus.binding.pkt_size < size_mod
      → is_some bus.tx_msg ≡ false
      → message_tx_on_bus p i src dest to tag msg w
        ≡ (send_tx_queue p i >> pure success) (record w {
          mctp = record (w.mctp) {
            busses = set w.mctp.busses i (take_msg bus src dest to tag msg);
          };
        })
  unfolding message_tx_on_bus
  message_tx_on_bus-takes i src dest to tag msg w bus b st t m s idle =
      get_bus-bind i _ w b ∙ rw (st, t, roomy, idle)
    where
      roomy : leb btu (body_size bus.binding.pkt_size) ≡ true
      roomy = ground arith

-- A started bus without a message, with room for a packet in the binding's storage.
pub record CanSend (bus : Bus) : Type 0 where
  pub enabled : bus.state ≡ tx_enabled
  pub idle : bus.tx_msg ≡ none
  pub mtu_ok : 68 ≤ bus.binding.pkt_size
  pub room : bus.binding.pkt_header + bus.binding.pkt_size ≤ length bus.binding.tx_storage
  pub room_small : bus.binding.pkt_header + bus.binding.pkt_size < size_mod
  pub seq_small : bus.tx_seq < 4

-- The addresses and the tag that every packet of a message carries.
abbrev pub addressed : ℕ → ℕ → Bool → ℕ → View
addressed src dest to tag = record {
  src = src;
  dest = dest;
  tag_owner = to;
  tag = tag;
  flags = 0;
  seq = 0;
  payload = [];
}

pub tag_masked : (t : ℕ) → t < 8 → (bit_and t 7 == t) ≡ true
unfolding checks_below
tag_masked t h = checks_below-at 8 (λ x. bit_and x 7 == x) t table h
  where
    table : checks_below 8 (λ x. bit_and x 7 == x) ≡ true
    table = refl

module _ (p : Platform) where
  -- For a binding that takes every packet, with a packet size of at least 68 bytes and a storage
  -- with room for a packet: `mctp_message_tx_on_bus` returns 0 for a message with a tag below 8 on
  -- a started, idle bus, the bus is idle again, and the packets that went out are the parts of the
  -- message, with start and end flags, consecutive sequence numbers and the payload size of the
  -- binding.
  pub message_tx_on_bus_sends :
      (i src dest : ℕ) (to : Bool) (tag : ℕ) (msg : List ℕ) (w : World) (bus : Bus)
      → TakesAll p
      → get_elem? w.mctp.busses i ≡ some bus
      → CanSend bus
      → tag < 8
      → length msg < size_mod
      → (w' : World) × (message_tx_on_bus p i src dest to tag msg w ≡ done success w')
        × (sent w'.trace
            ≡ sent w.trace
              ++ fragments
                  (suc (length msg))
                  (bus.binding.pkt_size - 4)
                  (addressed src dest to tag)
                  true
                  bus.tx_seq
                  msg)
        × ((bus' : Bus) × (get_elem? w'.mctp.busses i ≡ some bus') × (bus'.tx_msg ≡ none))
  unfolding take_msg
  message_tx_on_bus_sends i src dest to tag msg w bus takes b c t l = (
    w',
    message_tx_on_bus-takes p i src dest to tag msg w bus b (ap is_constructed c.enabled)
          (tag_masked tag t) c.mtu_ok (omega (arith, c.room_small)) (ap is_some c.idle)
        ∙ bind-done (send_tx_queue p i) (λ _. pure success) w0
            (send_tx_queue-done p i w0 bus0 at0 s.1),
    s.3,
    (
      s.0.0,
      get_elem?-set_self w0.mctp.busses i s.0.0 (lt_length-get_elem? w0.mctp.busses i at0),
      s.2,
    ),
  )
    where
      bus0 : Bus
      bus0 = take_msg bus src dest to tag msg

      w0 : World
      w0 = record w { mctp = record (w.mctp) { busses = set w.mctp.busses i bus0 } }

      at0 : get_elem? w0.mctp.busses i ≡ some bus0
      at0 = get_elem?-set_self w.mctp.busses i bus0 (lt_length-get_elem? w.mctp.busses i b)

      sending : IsSending bus0 msg
      sending = take_msg-IsReady p bus src dest to tag msg c.mtu_ok (omega (arith, c.room_small)) l

      roomy : HasRoom bus0
      roomy = record {
        room = c.room;
        room_small = c.room_small;
        seq_small = c.seq_small;
        tag_small = t;
      }

      s :
          (r : Bus × Trace) × (send_loop p w.mctp.has_capture i (send_fuel bus0) bus0 w.trace
            ≡ some r)
          × (r.0.tx_msg ≡ none)
          × (sent r.1
              ≡ sent w.trace
                ++ fragments
                    (suc (length msg))
                    (bus.binding.pkt_size - 4)
                    (addressed src dest to tag)
                    true
                    bus.tx_seq
                    msg)
      s =
          send_loop_sends p takes w.mctp.has_capture i (suc (length msg)) bus0 msg w.trace refl
            sending roomy c.enabled (omega arith)

      w' : World
      w' = record w0 {
        mctp = record (w0.mctp) { busses = set w0.mctp.busses i s.0.0 };
        trace = s.0.1;
      }
