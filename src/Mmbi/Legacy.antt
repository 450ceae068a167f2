-- ===== src/Mmbi/Legacy.antt =====
-- mctp_mmbi_rx, the reception from a memory region.
use ps_libmctp_win.Prelude.{
  ◌⊎◌, ltb-false→le, ℕ, zero, suc, ◌+◌, ◌≤◌, ◌<◌, ◌≡◌, ◌∙◌, refl, Bool, true, false, none, some,
  List, length, take, write_at, get_or, get_elem?, replicate, arith, size_mod, Bool-cases, inl, inr,
  ltb, get_or-write_at_lt, length-take, ◌==◌, ◌&&◌, ◌||◌, not,
}
use ps_libmctp_win.Header.{Hdr, read_hdr, flags_of, tag_of, eid_broadcast}
use ps_libmctp_win.Packet.{
  Binding, Pktbuf, pktbuf_size, storage_size, pktbuf_alloc, pktbuf_push, pktbuf_init,
}
use ps_libmctp_win.Core.State.{
  Rc, success, minus_one, enomem, emsgsize, Bus, RoutePolicy, endpoint, bridge, Platform, World,
  Outcome, done, ◌>>=◌, pure, captured, emit_if-bind, get_bus-bind, bind-done, get_trace, gets,
}
use ps_libmctp_win.Core.Reassembly.{ctx_lookup}
use ps_libmctp_win.Core.Receive.{is_endpoint, bus_rx, rx_switch, rx_next, dest_is_local}
use ps_libmctp_win.Core.Receive.Steps.{hdr_of, noted}
use ps_libmctp_win.Core.Receive.Views.{deliveries, deliveries-noted}
use ps_libmctp_win.Mmbi.{Mmbi, Device, mmbi_rx, mmbi_rx_region, region_packet}

get_or-replicate : (n k : ℕ) → get_or {A = ℕ} (replicate n 0) k 0 ≡ 0
get_or-replicate zero k = refl
get_or-replicate (suc n) zero = refl
get_or-replicate (suc n) (suc k) = get_or-replicate n k

-- The header of a packet with nothing but zeros before its data.
abbrev zeros : Hdr
zeros = record { ver = 0; dest = 0; src = 0; flags_seq_tag = 0 }

-- The packet of mctp_mmbi_rx: the bytes go behind `length bytes` zeros.
abbrev pushed : Binding → List ℕ → Pktbuf
pushed b bytes = record {
  start = b.pkt_header;
  end = b.pkt_header + length bytes + length bytes;
  size = storage_size b;
  mctp_hdr_off = b.pkt_header;
  alloc = true;
  bytes = write_at (replicate (storage_size b) 0) (b.pkt_header + length bytes) bytes;
}

pushed-zeros : (b : Binding) (bytes : List ℕ) → 4 ≤ length bytes → hdr_of (pushed b bytes) ≡ zeros
unfolding read_hdr
pushed-zeros b bytes long = λ i. record {
  ver = zero_at b.pkt_header (omega (arith, long)) i;
  dest = zero_at (b.pkt_header + 1) (omega (arith, long)) i;
  src = zero_at (b.pkt_header + 2) (omega (arith, long)) i;
  flags_seq_tag = zero_at (b.pkt_header + 3) (omega (arith, long)) i;
}
  where
    zero_at : (o : ℕ) → o < b.pkt_header + length bytes → get_or (pushed b bytes).bytes o 0 ≡ 0
    zero_at o h =
        get_or-write_at_lt (replicate (storage_size b) 0) (b.pkt_header + length bytes) bytes o 0 h
        ∙ get_or-replicate (storage_size b) o

-- The packet before the bytes are pushed.
abbrev blank : Binding → ℕ → Pktbuf
blank b len = record {
  start = b.pkt_header;
  end = b.pkt_header + len;
  size = storage_size b;
  mctp_hdr_off = b.pkt_header;
  alloc = true;
  bytes = replicate (storage_size b) 0;
}

pktbuf_alloc-blank :
    (b : Binding) (len : ℕ) (granted : Bool)
    → b.pkt_header + len < size_mod
    → (pktbuf_alloc b len granted ≡ none) ⊎ (pktbuf_alloc b len granted ≡ some (blank b len))
unfolding pktbuf_alloc pktbuf_init
pktbuf_alloc-blank b len false small = inl (ground arith)
pktbuf_alloc-blank b len true small = ground arith

pktbuf_push-blank :
    (b : Binding) (bytes : List ℕ)
    → b.pkt_header + length bytes + length bytes < size_mod
    → (pktbuf_push (blank b (length bytes)) bytes ≡ none)
      ⊎ (pktbuf_push (blank b (length bytes)) bytes ≡ some (pushed b bytes))
unfolding pktbuf_push
pktbuf_push-blank b bytes small = ground arith

module _ (p : Platform) (i : ℕ) (bus : Bus) where
  local_zero : dest_is_local bus 0 ≡ true
  local_zero = ground arith

  kept :
      (r : RoutePolicy)
      → (zeros.src == eid_broadcast || (is_endpoint r && not (dest_is_local bus zeros.dest)))
        ≡ false
  kept endpoint = rw local_zero
  kept bridge = refl

  rx_switch-zeros :
      (pkt : Pktbuf) (w : World)
      → get_elem? w.mctp.busses i ≡ some bus
      → ctx_lookup 0 0 0 w.mctp.msg_ctxs ≡ none
      → rx_switch p i zeros pkt w ≡ done tt w
  unfolding rx_switch rx_next flags_of tag_of
  rx_switch-zeros pkt w at absent = get_bus-bind i _ w at ∙ rw (◌>>=◌, gets, absent)

  -- The core ignores a packet with such a header, if no message has been begun with it.
  bus_rx-zeros :
      (pkt : Pktbuf) (w : World)
      → get_elem? w.mctp.busses i ≡ some bus
      → hdr_of pkt ≡ zeros
      → ctx_lookup 0 0 0 w.mctp.msg_ctxs ≡ none
      → (w' : World) × (bus_rx p i pkt w ≡ done tt w')
        × (w'.mctp ≡ w.mctp)
        × (deliveries w'.trace ≡ deliveries w.trace)
  unfolding bus_rx
  bus_rx-zeros pkt w at z absent = elim (Bool-cases (ltb (pktbuf_size pkt) 4)) [
    | inl short ↦ (w, get_bus-bind i _ w at ∙ rw short, refl, refl)
    | inr whole ↦ (
      noted pkt w,
      get_bus-bind i _ w at
          ∙ rw (whole, z, kept w.mctp.route_policy)
              (emit_if-bind w.mctp.has_capture (captured false pkt) _ w
                ∙ rx_switch-zeros pkt (noted pkt w) at absent),
      refl,
      deliveries-noted pkt w,
    )
  ]

-- A call that returns with the instance as it was, and nothing delivered.
abbrev Ignored : Outcome Rc → World → Type 0
Ignored o w =
    (rc : Rc) × (w' : World) × (o ≡ done rc w')
    × (w'.mctp ≡ w.mctp)
    × (deliveries w'.trace ≡ deliveries w.trace)

region_packet-Ignored :
    (dev : Device) (p : Platform) (i : ℕ) (m : Mmbi) (bytes : List ℕ) (granted : Bool) (w : World)
    (bus : Bus)
    → 4 ≤ length bytes
    → m.binding.pkt_header + length bytes + length bytes < size_mod
    → get_elem? w.mctp.busses i ≡ some bus
    → ctx_lookup 0 0 0 w.mctp.msg_ctxs ≡ none
    → Ignored (region_packet dev p i m bytes granted w) w
unfolding region_packet
region_packet-Ignored dev p i m bytes granted w bus long small at absent =
    elim (pktbuf_alloc-blank m.binding (length bytes) granted (omega (arith, small))) [
      | inl e ↦ (enomem, w, rw (region_packet, e), refl, refl)
      | inr e ↦ elim (pktbuf_push-blank m.binding bytes small) [
        | inl f ↦ (minus_one, w, rw (region_packet, e, f), refl, refl)
        | inr f ↦
            let r =
              bus_rx-zeros p i bus (pushed m.binding bytes) w at (pushed-zeros m.binding bytes long)
                absent in
            (
              success,
              r.0,
              rw (region_packet, e, f)
                  (bind-done (bus_rx p i (pushed m.binding bytes)) (λ _. pure success) w r.1),
              r.2,
              r.3,
            )
      ]
    ]

mmbi_rx-passes :
    (dev : Device) (p : Platform) (i : ℕ) (m : Mmbi) (region : List ℕ) (len : ℕ) (w : World)
    → m.rx_storage ≡ some region
    → ltb m.memory_size len ≡ false
    → mmbi_rx dev p i (some m) len w
      ≡ region_packet dev p i m (take len region) (dev.alloc w.trace) w
unfolding mmbi_rx mmbi_rx_region
mmbi_rx-passes dev p i m region len w has fits =
    simp (mmbi_rx, has, mmbi_rx_region, fits, ◌>>=◌, get_trace)

-- `mctp_mmbi_rx` of at least four bytes never hands anything to the core's receivers: for a region
-- of the given size, sizes of the binding that do not wrap, and an instance on whose bus no message
-- from address 0 to address 0 has been begun, it returns, the instance is as it was, and nothing is
-- delivered, whatever the bytes are.
pub mmbi_rx_ignores :
    (dev : Device) (p : Platform) (i : ℕ) (m : Mmbi) (region : List ℕ) (len : ℕ) (w : World)
    (bus : Bus)
    → m.rx_storage ≡ some region
    → length region ≡ m.memory_size
    → m.binding.pkt_header + len + len < size_mod
    → 4 ≤ len
    → get_elem? w.mctp.busses i ≡ some bus
    → ctx_lookup 0 0 0 w.mctp.msg_ctxs ≡ none
    → (rc : Rc) × (w' : World) × (mmbi_rx dev p i (some m) len w ≡ done rc w')
      × (w'.mctp ≡ w.mctp)
      × (deliveries w'.trace ≡ deliveries w.trace)
unfolding mmbi_rx mmbi_rx_region
mmbi_rx_ignores dev p i m region len w bus has size small long at absent =
    elim (Bool-cases (ltb m.memory_size len)) [
      | inl big ↦ (emsgsize, w, rw (has, mmbi_rx_region, big), refl, refl)
      | inr fits ↦
          let len_eq : length (take len region) ≡ len =
            omega (arith, length-take len region, size, ltb-false→le m.memory_size len fits) in
          let r =
            region_packet-Ignored dev p i m (take len region) (dev.alloc w.trace) w bus
              (omega (arith, len_eq, long)) (omega (arith, len_eq, small)) at absent in
          (r.0, r.1, mmbi_rx-passes dev p i m region len w has fits ∙ r.2, r.3, r.4)
    ]
