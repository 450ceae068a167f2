-- ===== src/Mmbi/Send.antt =====
-- What mctp_mmbi_send writes to a device.
use ps_libmctp_win.Prelude.{
  ℕ, ◌+◌, ◌-◌, ◌≤◌, ◌<◌, ◌≡◌, ◌==◌, ◌^◌, ◌⊎◌, inl, inr, ◌∙◌, ap, refl, Bool, true, false, none,
  some, List, [], ◌∷◌, ◌++◌, length, get_elem?, arith, size_mod, if◌then◌else◌, leb, take_all,
  append-nil,
}
use ps_libmctp_win.Header.{flag_bits}
use ps_libmctp_win.Packet.{Pktbuf, pktbuf_size}
use ps_libmctp_win.Core.State.{
  Rc, success, eio, Bus, Platform, Trace, World, done, transmitted, allocated, freed,
}
use ps_libmctp_win.Core.Transmit.{build_pkt, take_msg}
use ps_libmctp_win.Core.Transmit.Progress.{IsSending}
use ps_libmctp_win.Core.Transmit.Fragments.{View, view, HasRoom, next_view, view-build_pkt}
use ps_libmctp_win.Core.Transmit.Messages.{CanSend, addressed, take_msg-IsReady}
use ps_libmctp_win.Core.Transmit.Single.{
  build_pkt-IsPkt, message_tx-single, loaded, single_trace, before,
}
use ps_libmctp_win.Core.Reassembly.Bounds.{IsPkt}
use ps_libmctp_win.Core.Receive.Views.{size-view}
use ps_libmctp_win.Core.Receive.Start.{Grants}
use ps_libmctp_win.Mmbi.{Mmbi, Device, wire, mmbi_platform}
use ps_libmctp_win.Mmbi.Wire.{view_bytes, view-wire, length-wire}
use ps_libmctp_win.Mmbi.Write.{
  Writes, Ends, Writes-Ends, on_device, on_device-Writes, tx_code, tx_code-cases, mmbi_tx-code,
  mmbi_tx-ne_ebusy,
}
use ps_libmctp_win.Mmbi.Context.{Context, is_success, mmbi_send}

-- The packets that `mctp_mmbi_tx` returned 0 for, in bytes, first packet first. What attempts that
-- failed have written is not among them.
unfoldable pub accepted : Trace → List (List ℕ)
accepted [] = []
accepted (transmitted i pkt success ∷ tr) = accepted tr ++ (wire pkt ∷ [])
accepted (_ ∷ tr) = accepted tr

-- All bytes that the calls of WriteFile have put onto the device, in their order.
unfoldable pub device_bytes : Device → Trace → List ℕ
device_bytes dev [] = []
device_bytes dev (transmitted i pkt rc ∷ tr) = device_bytes dev tr ++ on_device dev tr pkt
device_bytes dev (_ ∷ tr) = device_bytes dev tr

-- A message in one packet, as its receiver reads it.
abbrev pub whole : View → ℕ → List ℕ → View
whole r seq msg = record r { flags = 192; seq = seq; payload = msg }

module _ (dev : Device) (ctx : Context) where
  -- The packet for a message, and the calls before it is written.
  abbrev pub packet_of : Bus → ℕ → List ℕ → Pktbuf
  packet_of bus dst msg = build_pkt (loaded (mmbi_platform dev ctx.mmbi) bus dst false 0 msg) msg

  abbrev pub calls : Bus → ℕ → List ℕ → World → Trace
  calls bus dst msg w =
      before (mmbi_platform dev ctx.mmbi) w.mctp.has_capture 0 (packet_of bus dst msg)
        (allocated (length msg) ∷ w.trace)

  packet_of-whole :
      (bus : Bus) (dst : ℕ) (msg : List ℕ)
      → CanSend bus
      → length bus.binding.tx_storage < size_mod
      → length msg ≤ bus.binding.pkt_size - 4
      → IsPkt (packet_of bus dst msg)
        × (view (packet_of bus dst msg) ≡ whole (addressed bus.eid dst false 0) bus.tx_seq msg)
        × (pktbuf_size (packet_of bus dst msg) ≡ length msg + 4)
  unfolding take_msg
  packet_of-whole bus dst msg c small fits =
      (holds, reads, size-view (packet_of bus dst msg) holds reads)
    where
      bus0 : Bus
      bus0 = loaded (mmbi_platform dev ctx.mmbi) bus dst false 0 msg

      sending : IsSending bus0 msg
      sending =
          take_msg-IsReady (mmbi_platform dev ctx.mmbi) bus bus.eid dst false 0 msg c.mtu_ok
            (omega (arith, c.room_small)) (omega (arith, c.room_small))

      roomy : HasRoom bus0
      roomy = record {
        room = c.room;
        room_small = c.room_small;
        seq_small = c.seq_small;
        tag_small = omega arith;
      }

      last : leb (length msg) (bus.binding.pkt_size - 4) ≡ true
      last = ground arith

      one_part : next_view bus0 msg ≡ whole (addressed bus.eid dst false 0) bus.tx_seq msg
      one_part = λ i. record (whole (addressed bus.eid dst false 0) bus.tx_seq msg) {
        flags = flag_bits true (last i);
        payload = take_all (bus.binding.pkt_size - 4) msg fits i;
      }

      holds : IsPkt (packet_of bus dst msg)
      holds = build_pkt-IsPkt bus0 msg sending roomy small

      reads : view (packet_of bus dst msg) ≡ whole (addressed bus.eid dst false 0) bus.tx_seq msg
      reads = view-build_pkt bus0 msg sending roomy ∙ one_part

  accepted-offered :
      (rc : Rc) (i : ℕ) (pkt : Pktbuf) (tr : Trace)
      → (rc ≡ success) ⊎ (rc ≡ eio)
      → accepted (freed ∷ transmitted i pkt rc ∷ tr)
        ≡ accepted tr ++ (if is_success rc then wire pkt ∷ [] else [])
  unfolding accepted
  accepted-offered rc i pkt tr (inl e) = rw e
  accepted-offered rc i pkt tr (inr e) = rw (e, append-nil (accepted tr))

  accepted-before :
      (p : Platform) (cap : Bool) (i : ℕ) (pkt : Pktbuf) (n : ℕ) (tr : Trace)
      → accepted (before p cap i pkt (allocated n ∷ tr)) ≡ accepted tr
  unfolding accepted
  accepted-before p true i pkt n tr = refl
  accepted-before p false i pkt n tr = refl

  device_bytes-before :
      (p : Platform) (cap : Bool) (i : ℕ) (pkt : Pktbuf) (n : ℕ) (tr : Trace)
      → device_bytes dev (before p cap i pkt (allocated n ∷ tr)) ≡ device_bytes dev tr
  unfolding device_bytes
  device_bytes-before p true i pkt n tr = refl
  device_bytes-before p false i pkt n tr = refl

  -- The return code of the attempts to write the packet of a message.
  abbrev pub send_code : Bus → ℕ → List ℕ → World → Rc
  send_code bus dst msg w = tx_code dev (calls bus dst msg w) (packet_of bus dst msg)

  module _ (bus : Bus) (dst : ℕ) (msg : List ℕ) (w : World) (on : ctx.mmbi.has_device ≡ true) where
    pub accepted-single :
        accepted (single_trace (mmbi_platform dev ctx.mmbi) bus dst false 0 msg w)
        ≡ accepted w.trace
          ++ (if is_success (send_code bus dst msg w)
              then wire (packet_of bus dst msg) ∷ []
              else [])
    accepted-single =
        let p = mmbi_platform dev ctx.mmbi in
        let pkt = packet_of bus dst msg in
        let tr = calls bus dst msg w in
        let code = ap (λ (o : Rc × Mmbi). o.0) (mmbi_tx-code dev tr ctx.mmbi pkt on) in
        ap (λ rc. accepted (freed ∷ transmitted 0 pkt rc ∷ tr)) code
        ∙ accepted-offered (tx_code dev tr pkt) 0 pkt tr (tx_code-cases dev tr pkt)
        ∙ ap
            (λ (l : List (List ℕ)).
              l ++ (if is_success (tx_code dev tr pkt) then wire pkt ∷ [] else []))
            (accepted-before p w.mctp.has_capture 0 pkt (length msg) w.trace)

  device_bytes-single :
      (bus : Bus) (dst : ℕ) (msg : List ℕ) (w : World)
      → device_bytes dev (single_trace (mmbi_platform dev ctx.mmbi) bus dst false 0 msg w)
        ≡ device_bytes dev w.trace ++ on_device dev (calls bus dst msg w) (packet_of bus dst msg)
  unfolding device_bytes
  device_bytes-single bus dst msg w =
      ap (λ (l : List ℕ). l ++ on_device dev (calls bus dst msg w) (packet_of bus dst msg))
        (device_bytes-before (mmbi_platform dev ctx.mmbi) w.mctp.has_capture 0
          (packet_of bus dst msg) (length msg) w.trace)

  -- The message is sent in one packet, whatever WriteFile answers.
  pub mmbi_send-single :
      (dst : ℕ) (msg : List ℕ) (w : World) (bus : Bus)
      → Grants (mmbi_platform dev ctx.mmbi)
      → get_elem? w.mctp.busses 0 ≡ some bus
      → w.mctp.n_busses ≡ 1
      → CanSend bus
      → length msg ≤ bus.binding.pkt_size - 4
      → (w' : World) × (mmbi_send dev (some ctx) dst msg w ≡ done success w')
        × (w'.trace ≡ single_trace (mmbi_platform dev ctx.mmbi) bus dst false 0 msg w)
        × ((bus' : Bus) × (get_elem? w'.mctp.busses 0 ≡ some bus') × (bus'.tx_msg ≡ none))
  unfolding mmbi_send
  mmbi_send-single dst msg w bus grants at one c fits =
      message_tx-single (mmbi_platform dev ctx.mmbi) grants dst false 0 msg w bus at
        (ap (λ n. n == 0) one) c (omega arith) fits (λ tr pkt. mmbi_tx-ne_ebusy dev tr ctx.mmbi pkt)

  pub packet_of-wire :
      (bus : Bus) (dst : ℕ) (msg : List ℕ)
      → CanSend bus
      → length bus.binding.tx_storage < size_mod
      → length msg ≤ bus.binding.pkt_size - 4
      → (view_bytes (wire (packet_of bus dst msg))
          ≡ whole (addressed bus.eid dst false 0) bus.tx_seq msg)
        × (length (wire (packet_of bus dst msg)) ≡ length msg + 4)
  packet_of-wire bus dst msg c small fits =
      let (v, reads, size) = packet_of-whole bus dst msg c small fits in
      (
        view-wire (packet_of bus dst msg) v ∙ reads,
        length-wire (packet_of bus dst msg) v
            ∙ omega (arith, size, v.at_start, v.has_hdr, v.stored, v.small),
      )

  -- On an instance whose first bus can send, over a device and with an allocator that grants every
  -- request, `mctp_mmbi_send` of a message that fits one packet, of less than 2 ^ 32 bytes with its
  -- header, returns 0 and leaves the bus idle, whatever comes of the packet. The packet is read as
  -- the whole message from this endpoint to `dst`. Its bytes go to the device in up to three
  -- attempts: the first that writes them all is the last, and then they stand at the end of the
  -- bytes on the device, behind what earlier attempts have written of them. If no attempt does, the
  -- device is left with the parts that the three have written, and the packet is not accepted.
  pub mmbi_send_lem :
      (dst : ℕ) (msg : List ℕ) (w : World) (bus : Bus)
      → Grants (mmbi_platform dev ctx.mmbi)
      → ctx.mmbi.has_device ≡ true
      → get_elem? w.mctp.busses 0 ≡ some bus
      → w.mctp.n_busses ≡ 1
      → CanSend bus
      → length bus.binding.tx_storage < size_mod
      → length msg ≤ bus.binding.pkt_size - 4
      → length msg + 4 < 2 ^ 32
      → let bytes = wire (packet_of bus dst msg) in
        (w' : World) × (rc : Rc) × (out : List ℕ) × (mmbi_send dev (some ctx) dst msg w
          ≡ done success w')
        × ((bus' : Bus) × (get_elem? w'.mctp.busses 0 ≡ some bus') × (bus'.tx_msg ≡ none))
        × (view_bytes bytes ≡ whole (addressed bus.eid dst false 0) bus.tx_seq msg)
        × (length bytes ≡ length msg + 4)
        × (device_bytes dev w'.trace ≡ device_bytes dev w.trace ++ out)
        × Writes dev (calls bus dst msg w) bytes 3 0 out rc
        × Ends dev (calls bus dst msg w) bytes out rc
        × (accepted w'.trace ≡ accepted w.trace ++ (if is_success rc then bytes ∷ [] else []))
  mmbi_send_lem dst msg w bus grants on at one c small fits short =
      let s = mmbi_send-single dst msg w bus grants at one c fits in
      let (v, reads, size) = packet_of-whole bus dst msg c small fits in
      let (seen, len) = packet_of-wire bus dst msg c small fits in
      let tr = calls bus dst msg w in
      let writes = on_device-Writes dev tr (packet_of bus dst msg) v (omega (arith, size, short)) in
      (
        s.0,
        send_code bus dst msg w,
        on_device dev tr (packet_of bus dst msg),
        s.1,
        s.3,
        seen,
        len,
        ap (device_bytes dev) s.2 ∙ device_bytes-single bus dst msg w,
        writes,
        Writes-Ends dev tr writes,
        ap accepted s.2 ∙ accepted-single bus dst msg w on,
      )
