-- ===== src/Mmbi/Exchange.antt =====
-- From one context to another: what mctp_mmbi_send writes to a device, mctp_mmbi_context_poll delivers.
use ps_libmctp_win.Prelude.{
  ℕ, ◌+◌, ◌-◌, ◌≤◌, ◌<◌, ◌≡◌, ◌==◌, ◌∙◌, ap, sym, Bool, true, false, some, List, [], ◌∷◌, ◌++◌,
  length, get_elem?, arith, size_mod, if◌then◌else◌, lt→ltb, get_or,
}
use ps_libmctp_win.Packet.{Pktbuf, storage_size}
use ps_libmctp_win.Core.State.{success, Bus, Platform, World, done, ◌>>=◌, get_trace}
use ps_libmctp_win.Core.Transmit.Fragments.{View}
use ps_libmctp_win.Core.Transmit.Messages.{CanSend, addressed}
use ps_libmctp_win.Core.Receive.Steps.{IsPlain}
use ps_libmctp_win.Core.Receive.Views.{deliveries}
use ps_libmctp_win.Core.Receive.Start.{Grants, IsIdle}
use ps_libmctp_win.Core.Receive.Whole.{single}
use ps_libmctp_win.Mmbi.{
  Mmbi, Device, bytes_read, wire, bytes_avail, max_to_read, mmbi_platform, mmbi_poll, receive_bytes,
  after_read_file,
}
use ps_libmctp_win.Mmbi.Wire.{
  view_bytes, Fits, arrived, arrived-IsPkt, view-arrived, receive_bytes-passes,
}
use ps_libmctp_win.Mmbi.Context.{Context, is_success, mmbi_send, context_poll}
use ps_libmctp_win.Core.Exchange.{trace_of}
use ps_libmctp_win.Mmbi.Send.{
  accepted, whole, packet_of, packet_of-wire, send_code, accepted-single, mmbi_send-single,
}

only_item : (b : Bool) (x y : List ℕ) → (if b then x ∷ [] else []) ≡ y ∷ [] → x ≡ y
only_item true x y e = ap (λ l. get_or l 0 []) e
only_item false x y e = absurd (cc)

-- The device has these bytes for `mctp_mmbi_poll` to read, and a packet buffer is allocated.
pub record HasBytes (dev : Device) (m : Mmbi) (v : World) (bytes : List ℕ) : Type 0 where
  pub device : m.has_device ≡ true
  pub available : (bytes_avail (dev.peek v.trace) == 0) ≡ false
  pub reads : dev.read_file v.trace (max_to_read m) ≡ bytes_read bytes
  pub granted : dev.alloc v.trace ≡ true

mmbi_poll-receives :
    (dev : Device) (p : Platform) (m : Mmbi) (bytes : List ℕ) (v : World)
    → HasBytes dev m v bytes
    → 0 < length bytes
    → mmbi_poll dev p 0 m v ≡ receive_bytes p 0 m true bytes v
unfolding mmbi_poll after_read_file
mmbi_poll-receives dev p m bytes v h some_bytes = simp (
  mmbi_poll,
  ◌>>=◌,
  get_trace,
  h.device,
  h.available,
  h.reads,
  after_read_file,
  lt→ltb 0 (length bytes) some_bytes,
  h.granted,
)

-- What a context with these bytes to read delivers.
pub poll_delivers :
    (dev : Device) (ctx : Context) {r : View} {seq k : ℕ} {msg : List ℕ} (bytes : List ℕ)
    (v : World) (bus : Bus)
    → (grants : Grants (mmbi_platform dev ctx.mmbi)) → IsIdle 0 bus r k v
    → HasBytes dev ctx.mmbi v bytes
    → Fits ctx.mmbi.binding bytes
    → view_bytes bytes ≡ whole r seq msg
    → IsPlain msg
    → (v' : World) × (context_poll dev (some ctx) v ≡ done success v')
      × (deliveries v'.trace ≡ deliveries v.trace ++ ((r.src, r.tag_owner, r.tag, msg) ∷ []))
unfolding context_poll
poll_delivers dev ctx {r} bytes v bus grants idle has fits e plain =
    let p = mmbi_platform dev ctx.mmbi in
    let b = ctx.mmbi.binding in
    let s =
      single p grants 0 bus r 0 (arrived b bytes) v idle (arrived-IsPkt b bytes fits)
        (view-arrived b bytes fits ∙ e) plain in
    (
      s.0,
      mmbi_poll-receives dev p ctx.mmbi bytes v has (omega (arith, fits.has_hdr))
          ∙ receive_bytes-passes p 0 ctx.mmbi bytes v fits s.1,
      s.2,
    )

-- Context A sends a message that fits one packet over its device before it sent anything else: its
-- first bus can send, and its allocator grants every request. If the binding accepted the packet
-- with these bytes, and context B, an endpoint that `dst` addresses with room for such
-- packets, has exactly these bytes to read, then `mctp_mmbi_context_poll` on B returns 0 and hands
-- the message to B's handler once, with A's address. The conditions on B: its allocator grants every
-- request, its handler is set, its bus is linked to its instance, and it has a free context and none
-- for the message. A's address is not the broadcast address, and the message is no control request.
pub mmbi_message_arrives :
    (dev_a : Device) (ctx_a : Context) (dst : ℕ) (msg : List ℕ) (w w' : World) (bus_a : Bus)
    (dev_b : Device) (ctx_b : Context) (bytes : List ℕ) (v : World) (bus_b : Bus) {k : ℕ}
    → Grants (mmbi_platform dev_a ctx_a.mmbi)
    → ctx_a.mmbi.has_device ≡ true
    → get_elem? w.mctp.busses 0 ≡ some bus_a
    → w.mctp.n_busses ≡ 1
    → CanSend bus_a
    → length bus_a.binding.tx_storage < size_mod
    → length msg ≤ bus_a.binding.pkt_size - 4
    → w.trace ≡ []
    → mmbi_send dev_a (some ctx_a) dst msg w ≡ done success w'
    → accepted w'.trace ≡ bytes ∷ []
    → Grants (mmbi_platform dev_b ctx_b.mmbi)
    → IsIdle 0 bus_b (addressed bus_a.eid dst false 0) k v
    → HasBytes dev_b ctx_b.mmbi v bytes
    → ctx_b.mmbi.binding.pkt_header + bus_a.binding.pkt_size ≤ storage_size ctx_b.mmbi.binding
    → IsPlain msg
    → (v' : World) × (context_poll dev_b (some ctx_b) v ≡ done success v')
      × (deliveries v'.trace ≡ deliveries v.trace ++ ((bus_a.eid, false, 0, msg) ∷ []))
unfolding accepted
mmbi_message_arrives dev_a ctx_a dst msg w w' bus_a dev_b ctx_b bytes v bus_b grants_a on at one c
      small fits quiet run written grants_b idle has room plain =
    poll_delivers dev_b ctx_b bytes v bus_b grants_b idle has
      record { has_hdr = omega (arith, len); room = omega (arith, len, room, fits, c.mtu_ok) }
      (ap view_bytes (sym same) ∙ seen.0) plain
  where
    pkt : Pktbuf
    pkt = packet_of dev_a ctx_a bus_a dst msg

    taken : Bool
    taken = is_success (send_code dev_a ctx_a bus_a dst msg w)

    seen :
        (view_bytes (wire pkt) ≡ whole (addressed bus_a.eid dst false 0) bus_a.tx_seq msg)
        × (length (wire pkt) ≡ length msg + 4)
    seen = packet_of-wire dev_a ctx_a bus_a dst msg c small fits

    same : wire pkt ≡ bytes
    same =
        let s = mmbi_send-single dev_a ctx_a dst msg w bus_a grants_a at one c fits in
        only_item taken (wire pkt) bytes (
          ap (λ tr. accepted tr ++ (if taken then wire pkt ∷ [] else [])) (sym quiet)
          ∙ sym (accepted-single dev_a ctx_a bus_a dst msg w on)
          ∙ ap accepted (sym s.2)
          ∙ ap accepted (ap (trace_of []) (sym s.1 ∙ run))
          ∙ written)

    len : length bytes ≡ length msg + 4
    len = ap (λ (l : List ℕ). length l) (sym same) ∙ seen.1
