-- ===== src/Core/Control/Responds.antt =====
-- The end that the handlers of src/control.c share: a response goes out in one packet.
use ps_libmctp_win.Prelude.{
  ℕ, suc, ◌-◌, ◌≤◌, ◌<◌, ◌==◌, ◌≡◌, ◌∙◌, ap, true, false, some, List, [], ◌∷◌, ◌++◌, length,
  write_at-whole, get_elem?, set, arith, get_elem?-set_self, lt_length-get_elem?,
}
use ps_libmctp_win.Core.State.{
  Bus, Platform, World, done, allocated, msg_alloc, pure, bind-done, ◌>>=◌, ◌>>◌,
}
use ps_libmctp_win.Core.Transmit.{message_tx_alloced}
use ps_libmctp_win.Core.Transmit.Fragments.{View}
use ps_libmctp_win.Core.Transmit.Parts.{TakesAll, fragments, sent}
use ps_libmctp_win.Core.Transmit.Messages.{CanSend, addressed, message_tx_on_bus_sends}
use ps_libmctp_win.Core.Transmit.Single.{message_tx_alloced-first}
use ps_libmctp_win.Core.Types.Sets.{IsTypes}
use ps_libmctp_win.Core.Receive.Start.{Grants}
use ps_libmctp_win.Core.Control.{respond}

-- An endpoint that can answer: its first bus is registered, started and idle, with a valid list of
-- types.
pub record IsServing (bus : Bus) (w : World) : Type 0 where
  pub bus_at : get_elem? w.mctp.busses 0 ≡ some bus
  pub used : (w.mctp.n_busses == 0) ≡ false
  pub has_mctp : bus.has_mctp ≡ true
  pub can_send : CanSend bus
  pub control : IsTypes w.mctp.control

-- The endpoint with another EID.
abbrev pub renamed : ℕ → Bus → Bus
renamed eid bus = record bus { eid = eid }

abbrev pub with_bus : Bus → World → World
with_bus bus w = record w { mctp = record (w.mctp) { busses = set w.mctp.busses 0 bus } }

pub renamed-IsServing :
    (eid : ℕ) (bus : Bus) (w : World)
    → IsServing bus w
    → IsServing (renamed eid bus) (with_bus (renamed eid bus) w)
renamed-IsServing eid bus w s = record {
  bus_at =
      get_elem?-set_self w.mctp.busses 0 (renamed eid bus)
        (lt_length-get_elem? w.mctp.busses 0 s.bus_at);
  used = s.used;
  has_mctp = s.has_mctp;
  can_send = record {
    enabled = s.can_send.enabled;
    idle = s.can_send.idle;
    mtu_ok = s.can_send.mtu_ok;
    room = s.can_send.room;
    room_small = s.can_send.room_small;
    seq_small = s.can_send.seq_small;
  };
  control = s.control;
}

module _ (p : Platform) (takes : TakesAll p) (grants : Grants p) (src tag : ℕ)
    (small : tag < 8) where
  -- One packet from the bus to the requester, with the given bytes.
  abbrev pub response : Bus → List ℕ → View
  response bus resp = record (addressed bus.eid src false tag) {
    flags = 192;
    seq = bus.tx_seq;
    payload = resp;
  }

  single-response :
      (bus : Bus) (resp : List ℕ)
      → 68 ≤ bus.binding.pkt_size
      → length resp ≤ 64
      → fragments
          (suc (length resp))
          (bus.binding.pkt_size - 4)
          (addressed bus.eid src false tag)
          true
          bus.tx_seq
          resp
        ≡ response bus resp ∷ []
  unfolding fragments
  single-response bus resp mtu fits = ground arith

  abbrev with_block : ℕ → World → World
  with_block n w = record w { trace = allocated n ∷ w.trace }

  -- A block is granted, and the response is sent from it.
  respond-runs :
      (bus : Bus) (resp : List ℕ) (w : World)
      → bus.has_mctp ≡ true
      → respond p bus src tag resp w
        ≡ (message_tx_alloced p src false tag resp >> pure 0) (with_block (length resp) w)
  unfolding respond msg_alloc
  respond-runs bus resp w on =
      let g = grants w.trace (length resp) in
      rw (on, ◌>>=◌, msg_alloc, g.1, write_at-whole g.0 resp g.2)

  pub respond_sends :
      (bus : Bus) (resp : List ℕ) (w : World)
      → IsServing bus w
      → length resp ≤ 64
      → (w' : World) × (respond p bus src tag resp w ≡ done 0 w')
        × (sent w'.trace ≡ sent w.trace ++ (response bus resp ∷ []))
  unfolding sent
  respond_sends bus resp w s fits =
      let w1 = with_block (length resp) w in
      let tx =
        message_tx_on_bus_sends p 0 bus.eid src false tag resp w1 bus takes s.bus_at s.can_send
          small (omega (arith, fits)) in
      (
        tx.0,
        respond-runs bus resp w s.has_mctp
            ∙ bind-done (message_tx_alloced p src false tag resp) (λ _. pure 0) w1
                (message_tx_alloced-first p src false tag resp w1 bus s.bus_at s.used small ∙ tx.1),
        tx.2 ∙ ap (λ l. sent w.trace ++ l) (single-response bus resp s.can_send.mtu_ok fits),
      )
