-- ===== src/Core/Transmit.antt =====
-- Transmission in src/core.c: a message is cut into packets, which the binding takes one by one.
pub mod Progress
pub mod Fragments
pub mod Parts
pub mod Sends
pub mod Messages
pub mod Totality
pub mod Resume
pub mod Single
pub mod Stall
mod Tests
use ps_libmctp_win.Prelude.{
  ℕ, zero, suc, ◌+◌, Bool, true, false, Option, none, some, List, [], ◌∷◌, length, slice, write_at,
  get_elem?, set, is_some, bit_and, add_size, sub_size, ltb, leb, ◌==◌, not, ◌&&◌, ◌||◌,
  if◌then◌else◌,
}
use ps_libmctp_win.Packet.{Binding, Pktbuf, hdr_size, pktbuf_init, data_off}
use ps_libmctp_win.Header.{hdr_bytes, make_flags, seq_mask, tag_mask}
use ps_libmctp_win.Core.State.{
  Rc, success, minus_one, einval, ebusy, enxio, enomem, BusState, constructed, tx_enabled,
  tx_disabled, Bus, Mctp, Platform, Trace, captured, transmitted, freed, World, Outcome, done,
  fault, spins, M, ◌>>=◌, ◌>>◌, pure, gets, emit, require, get_bus, put_bus, msg_dup,
}

-- MCTP_BTU, and MCTP_BODY_SIZE and MCTP_PACKET_SIZE
abbrev pub btu : ℕ
btu = 64

abbrev pub body_size : ℕ → ℕ
body_size unit = sub_size unit hdr_size

abbrev pub packet_size : ℕ → ℕ
packet_size unit = add_size unit hdr_size

-- `bus->state == mctp_bus_state_tx_enabled`
abbrev pub is_enabled : BusState → Bool
is_enabled tx_enabled = true
is_enabled _ = false

abbrev pub is_constructed : BusState → Bool
is_constructed constructed = true
is_constructed _ = false

-- The payload that the next packet takes.
unfoldable pub next_payload : Bus → ℕ
next_payload bus =
    let rest = sub_size bus.tx_msglen bus.tx_msgpos in
    let most = body_size bus.binding.pkt_size in if ltb most rest then most else rest

unfoldable pub next_flags : Bus → ℕ
next_flags bus =
    make_flags bus.tx_to bus.tx_tag (bus.tx_msgpos == 0)
      (leb bus.tx_msglen (add_size bus.tx_msgpos (next_payload bus))) bus.tx_seq

-- The packet of `mctp_next_tx_pkt` for the message `msg`, in the binding's storage.
unfoldable pub build_pkt : Bus → List ℕ → Pktbuf
build_pkt bus msg = record pkt {
  end = add_size (add_size pkt.start hdr_size) (next_payload bus);
  bytes = write_at with_hdr (data_off pkt) (slice msg bus.tx_msgpos (next_payload bus));
}
  where
    pkt : Pktbuf
    pkt = pktbuf_init bus.binding bus.binding.tx_storage

    with_hdr : List ℕ
    with_hdr = write_at pkt.bytes pkt.mctp_hdr_off (
        hdr_bytes record {
          ver = bit_and bus.binding.version 15;
          dest = bus.tx_dest;
          src = bus.tx_src;
          flags_seq_tag = next_flags bus;
        })

-- `mctp_next_tx_pkt`. The packet lies in the binding's storage, which keeps what is written there.
unfoldable pub next_tx_pkt : Bus → Option (Pktbuf × Bus)
next_tx_pkt bus = elim bus.tx_msg [
  | none ↦ none
  | some msg ↦ some (
    build_pkt bus msg,
    record bus {
      tx_pktlen = next_payload bus;
      binding = record bus.binding { tx_storage = (build_pkt bus msg).bytes };
    },
  )
]

module _ (p : Platform) (has_capture : Bool) (i : ℕ) where
  -- `mctp_packet_tx` for the bus with index `i`
  unfoldable pub packet_tx : Bus → Pktbuf → Trace → Rc × Trace
  packet_tx bus pkt tr =
      if is_enabled bus.state
      then (let tr' = if has_capture then captured true pkt ∷ tr else tr in
          (p.tx tr' i pkt, transmitted i pkt (p.tx tr' i pkt) ∷ tr'))
      else (minus_one, tr)

-- `mctp_tx_complete`
unfoldable pub tx_complete : Bus → Trace → Bus × Trace
tx_complete bus tr = elim bus.tx_msg [
  | none ↦ (bus, tr)
  | some msg ↦
      let moved = record bus {
        tx_seq = bit_and (bus.tx_seq + 1) seq_mask;
        tx_msgpos = add_size bus.tx_msgpos bus.tx_pktlen;
      } in
      if leb moved.tx_msglen moved.tx_msgpos
      then (record moved { tx_msg = none }, freed ∷ tr)
      else (moved, tr)
]

-- What the loop of `mctp_send_tx_queue` does on the binding's answer; the flag asks for another
-- round.
unfoldable pub after_tx : Rc → Bus → Trace → Bool × Bus × Trace
after_tx success bus tr = let (bus', tr') = tx_complete bus tr in (true, bus', tr')
after_tx ebusy bus tr = (false, bus, tr)
after_tx _ bus tr = let (bus', tr') = tx_complete bus tr in (false, bus', tr')

module _ (p : Platform) (has_capture : Bool) (i : ℕ) where
  -- One round of the loop, for a bus with a message.
  unfoldable pub send_step : Bus → Trace → Bool × Bus × Trace
  send_step bus tr = elim (next_tx_pkt bus) [
    | none ↦ (false, bus, tr)
    | some (pkt, bus') ↦
        let (rc, tr') = packet_tx p has_capture i bus' pkt tr in after_tx rc bus' tr'
  ]

  -- The loop of `mctp_send_tx_queue`; `none` means that the fuel ran out.
  unfoldable pub send_loop : ℕ → Bus → Trace → Option (Bus × Trace)
  send_loop zero bus tr = none
  send_loop (suc fuel) bus tr =
      let (again, bus', tr') = send_step bus tr in
      let rest = send_loop fuel bus' tr' in
      if is_some bus.tx_msg && is_enabled bus.state
      then (if again then rest else some (bus', tr'))
      else some (bus, tr)

-- Each round moves on in the message, so its length bounds the rounds.
abbrev pub send_fuel : Bus → ℕ
send_fuel bus = suc (suc bus.tx_msglen)

-- The bus with a message to send; `tx_seq` goes on from the message before.
unfoldable pub take_msg : Bus → ℕ → ℕ → Bool → ℕ → List ℕ → Bus
take_msg bus src dest tag_owner msg_tag msg = record bus {
  tx_msg = some msg;
  tx_msglen = length msg;
  tx_msgpos = 0;
  tx_src = src;
  tx_dest = dest;
  tx_to = tag_owner;
  tx_tag = msg_tag;
}

-- `find_bus_for_eid`: the index of the bus, always the first.
unfoldable pub find_bus_for_eid : Mctp → ℕ → Option ℕ
find_bus_for_eid m dest = if m.n_busses == 0 then none else some 0

module _ (p : Platform) where
  -- `mctp_send_tx_queue`
  unfoldable pub send_tx_queue : ℕ → M (Unit {0})
  send_tx_queue i w = elim (get_elem? w.mctp.busses i) [
    | none ↦ fault
    | some bus ↦ elim (send_loop p w.mctp.has_capture i (send_fuel bus) bus w.trace) [
      | none ↦ spins
      | some (bus', tr') ↦
          done tt
            record w { mctp = record (w.mctp) { busses = set w.mctp.busses i bus' }; trace = tr' }
    ]
  ]

  -- `mctp_binding_set_tx_enabled` for the binding of bus `i`
  unfoldable pub set_tx_enabled_from : BusState → ℕ → Bus → Bool → M (Unit {0})
  set_tx_enabled_from constructed i bus enable =
      if not enable || ltb bus.binding.pkt_size (packet_size btu)
      then pure tt
      else put_bus i (record bus { state = tx_enabled })
  set_tx_enabled_from tx_enabled i bus enable =
      if enable then pure tt else put_bus i (record bus { state = tx_disabled })
  set_tx_enabled_from tx_disabled i bus enable =
      if enable
      then (do put_bus i (record bus { state = tx_enabled }); send_tx_queue i)
      else pure tt

  unfoldable pub set_tx_enabled : ℕ → Bool → M (Unit {0})
  set_tx_enabled i enable = do bus ← get_bus i; set_tx_enabled_from bus.state i bus enable

  -- The `err` label of `mctp_message_tx_on_bus`: the message is released.
  abbrev pub refuse : Rc → M Rc
  refuse rc = do emit freed; pure rc

  -- `mctp_message_tx_on_bus` for bus `i`
  unfoldable pub message_tx_on_bus : ℕ → ℕ → ℕ → Bool → ℕ → List ℕ → M Rc
  message_tx_on_bus i src dest tag_owner msg_tag msg = do
    bus ← get_bus i
    if is_constructed bus.state
        then refuse enxio
        else if not (bit_and msg_tag tag_mask == msg_tag)
        then refuse einval
        else require (leb btu (body_size bus.binding.pkt_size))
          >> (if is_some bus.tx_msg then refuse ebusy else (do
            put_bus i (take_msg bus src dest tag_owner msg_tag msg)
            send_tx_queue i
            pure success))

  -- `mctp_message_tx_alloced`
  unfoldable pub message_tx_alloced : ℕ → Bool → ℕ → List ℕ → M Rc
  message_tx_alloced eid tag_owner msg_tag msg =
      if not (bit_and msg_tag tag_mask == msg_tag) then refuse einval else (do
        found ← gets (λ m. find_bus_for_eid m eid)
        elim found [
          | none ↦ refuse success
          | some i ↦ do bus ← get_bus i; message_tx_on_bus i bus.eid eid tag_owner msg_tag msg
        ])

  -- `mctp_message_tx`
  unfoldable pub message_tx : ℕ → Bool → ℕ → List ℕ → M Rc
  message_tx eid tag_owner msg_tag msg = do
    copy ← msg_dup p msg
    elim copy [ none ↦ pure enomem | some block ↦ message_tx_alloced eid tag_owner msg_tag block ]

  -- `mctp_is_tx_ready`
  unfoldable pub is_tx_ready : ℕ → M Bool
  is_tx_ready eid = do
    found ← gets (λ m. find_bus_for_eid m eid)
    elim found [ none ↦ pure true | some i ↦ do bus ← get_bus i; pure (not (is_some bus.tx_msg)) ]
