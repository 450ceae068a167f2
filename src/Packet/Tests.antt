-- ===== src/Packet/Tests.antt =====
-- Packet buffers at concrete sizes.
use ps_libmctp_win.Prelude.{
  ◌+◌, ◌≤◌, ◌<◌, ◌≡◌, ◌↔◌, ◌⊎◌, refl, none, some, [], ◌∷◌, ◌++◌, slice, replicate, true, arith,
}
use ps_libmctp_win.Packet.{
  Binding, Pktbuf, pktbuf_init, pktbuf_alloc, pktbuf_size, pktbuf_push, pktbuf_pop, contents,
}
use ps_libmctp_win.Packet.Bounds.{IsValid, pktbuf_alloc_bounds, pktbuf_push_lem, pktbuf_pop_lem}

abbrev binding : Binding
binding = record {
  version = 1;
  pkt_size = 68;
  pkt_header = 4;
  pkt_trailer = 0;
  has_tx_storage = true;
  tx_storage = [];
  has_start = true;
  has_control_rx = true;
}

abbrev fresh : Pktbuf
fresh = record {
  start = 4;
  end = 11;
  size = 72;
  mctp_hdr_off = 4;
  alloc = true;
  bytes = replicate 72 0;
}

-- The allocation takes the header room from the storage, and does not ask for it.
abbrev too_long : Pktbuf
too_long = record fresh { end = 76 }

pktbuf_alloc-7 : pktbuf_alloc binding 7 true ≡ some fresh
unfolding pktbuf_alloc pktbuf_init
pktbuf_alloc-7 = refl

pktbuf_alloc-72 : pktbuf_alloc binding 72 true ≡ some too_long
unfolding pktbuf_alloc pktbuf_init
pktbuf_alloc-72 = refl

pktbuf_alloc_bounds_example :
    (72 < 72) × (pktbuf_alloc binding 72 true ≡ none)
    ⊎ (72 ≤ 72)
      × ((pkt : Pktbuf) × (pktbuf_alloc binding 72 true ≡ some pkt)
          × (pktbuf_size pkt ≡ 72)
          × (IsValid pkt ↔ (4 + 72 ≤ 72)))
pktbuf_alloc_bounds_example = pktbuf_alloc_bounds binding 72 (omega arith) (omega arith)

fresh-IsValid : IsValid fresh
fresh-IsValid = record {
  ordered = omega arith;
  within = omega arith;
  stored = omega arith;
  small = omega arith;
}

pktbuf_push_lem_example :
    (72 < 11 + 3) × (pktbuf_push fresh (1 ∷ 2 ∷ 3 ∷ []) ≡ none)
    ⊎ ((pkt' : Pktbuf) × (pktbuf_push fresh (1 ∷ 2 ∷ 3 ∷ []) ≡ some pkt')
        × IsValid pkt'
        × (pkt'.start ≡ 4)
        × (contents pkt' ≡ contents fresh ++ (1 ∷ 2 ∷ 3 ∷ [])))
pktbuf_push_lem_example = pktbuf_push_lem fresh (1 ∷ 2 ∷ 3 ∷ []) fresh-IsValid (omega arith)

pktbuf_pop_lem_example :
    (11 < 4 + 2) × (pktbuf_pop fresh 2 ≡ none)
    ⊎ ((pkt' : Pktbuf) × (pktbuf_pop fresh 2 ≡ some (9, pkt'))
        × IsValid pkt'
        × (contents fresh ≡ contents pkt' ++ slice fresh.bytes pkt'.end 2))
pktbuf_pop_lem_example = pktbuf_pop_lem fresh 2 fresh-IsValid
