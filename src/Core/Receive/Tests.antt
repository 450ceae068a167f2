-- ===== src/Core/Receive/Tests.antt =====
-- Reassembly and reception at concrete inputs.
use ps_libmctp_win.Prelude.{
  ℕ, ◌+◌, ◌<◌, ◌≡◌, ◌⊎◌, refl, true, false, none, some, List, [], ◌∷◌, ◌++◌, map, All, take,
  write_at, replicate, length-replicate, arith,
}
use ps_libmctp_win.Packet.{Pktbuf}
use ps_libmctp_win.Header.{read_hdr, tag_owner_of, tag_of, flags_of, seq_of}
use ps_libmctp_win.Core.State.{MsgCtx, World, done}
use ps_libmctp_win.Core.Transmit.Fragments.{View, view}
use ps_libmctp_win.Core.Transmit.Parts.{fragments}
use ps_libmctp_win.Core.Transmit.Messages.{addressed}
use ps_libmctp_win.Core.Reassembly.{find_from, pkt_len, ctx_add_pkt}
use ps_libmctp_win.Core.Reassembly.Bounds.{IsHolding, IsPkt, payload, extended, ctx_add_pkt_lem}
use ps_libmctp_win.Core.Receive.Views.{deliveries, rx_all}
use ps_libmctp_win.Core.Receive.Start.{Grants, IsIdle}
use ps_libmctp_win.Core.Receive.Whole.{delivers_message}
use ps_libmctp_win.Core.Examples.{platform, bus, free_ctx, world, packet}

-- Three packets from 8 to 9 with tag 5, two bytes of payload at most: 11, 12 | 13, 14 | 15.
abbrev packets : List Pktbuf
packets =
    packet (1 ∷ 9 ∷ 8 ∷ 0x85 ∷ 11 ∷ 12 ∷ []) 6
    ∷ packet (1 ∷ 9 ∷ 8 ∷ 0x15 ∷ 13 ∷ 14 ∷ []) 6
    ∷ packet (1 ∷ 9 ∷ 8 ∷ 0x65 ∷ 15 ∷ []) 5
    ∷ []

abbrev msg : List ℕ
msg = 11 ∷ 12 ∷ 13 ∷ 14 ∷ 15 ∷ []

abbrev from_8 : View
from_8 = addressed 8 9 false 5

packets-views : map view packets ≡ fragments 6 2 from_8 true 0 msg
unfolding view fragments read_hdr tag_owner_of tag_of flags_of seq_of
packets-views = refl

packets-IsPkt : All IsPkt packets
packets-IsPkt = (ground arith, (ground arith, (ground arith, tt)))

world-IsIdle : IsIdle 0 bus from_8 0 world
unfolding find_from
world-IsIdle = record {
  bus_at = refl;
  policy = refl;
  has_rx = refl;
  has_mctp = refl;
  from = omega arith;
  local = refl;
  absent = refl;
  free = refl;
  small = omega arith;
}

grants : Grants platform
grants tr n = (replicate n 0, refl, length-replicate n 0)

delivers_message_example :
    (w' : World) × (rx_all platform 0 packets world ≡ done tt w')
    × (deliveries w'.trace ≡ deliveries [] ++ ((8, false, 5, msg) ∷ []))
delivers_message_example =
    delivers_message platform grants 0 bus from_8 2 6 packets 0 msg world (omega arith)
      packets-views packets-IsPkt world-IsIdle (omega arith) (omega arith) refl

-- A context that has received two of eight bytes.
abbrev ctx : MsgCtx
ctx = record free_ctx {
  buf = some (11 ∷ 12 ∷ replicate 6 0);
  src = 8;
  dest = 9;
  tag = 5;
  buf_size = 2;
  buf_alloc_size = 8;
  fragment_size = 6;
}

abbrev second : Pktbuf
second = packet (1 ∷ 9 ∷ 8 ∷ 0x15 ∷ 13 ∷ 14 ∷ []) 6

ctx-IsHolding : IsHolding ctx (11 ∷ 12 ∷ replicate 6 0)
ctx-IsHolding = record { block = refl; sized = refl; within = omega arith; small = omega arith }

ctx_add_pkt_lem_example :
    (8 < 2 + pkt_len second) × (ctx_add_pkt ctx second ≡ none)
    ⊎ ((ctx_add_pkt ctx second ≡ some (extended ctx (11 ∷ 12 ∷ replicate 6 0) second))
        × IsHolding
            (extended ctx (11 ∷ 12 ∷ replicate 6 0) second)
            (write_at (11 ∷ 12 ∷ replicate 6 0) 2 (payload second))
        × (take (2 + pkt_len second) (write_at (11 ∷ 12 ∷ replicate 6 0) 2 (payload second))
            ≡ take 2 (11 ∷ 12 ∷ replicate 6 0) ++ payload second))
ctx_add_pkt_lem_example =
    ctx_add_pkt_lem ctx (11 ∷ 12 ∷ replicate 6 0) second ctx-IsHolding packets-IsPkt.1.0
