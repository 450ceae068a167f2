-- ===== src/Core/Receive/Reject/Tests.antt =====
-- A packet that skips a sequence number, and one for another endpoint.
use ps_libmctp_win.Prelude.{◌≡◌, refl, inl, inr, none, some, [], ◌∷◌, set, replicate, arith}
use ps_libmctp_win.Packet.{Pktbuf}
use ps_libmctp_win.Header.{read_hdr, tag_of, flags_of, seq_of}
use ps_libmctp_win.Core.State.{MsgCtx, World, done, freed}
use ps_libmctp_win.Core.Reassembly.{find_from}
use ps_libmctp_win.Core.Reassembly.Bounds.{IsPkt}
use ps_libmctp_win.Core.Receive.{bus_rx}
use ps_libmctp_win.Core.Receive.Steps.{hdr_of, noted, Accepts}
use ps_libmctp_win.Core.Receive.Views.{deliveries, IsFreed}
use ps_libmctp_win.Core.Receive.Reject.{Misfits, bus_rx_rejects, bus_rx_ignores}
use ps_libmctp_win.Core.Examples.{platform, bus, free_ctx, mctp, packet}

-- 8 has sent the first packet of a message with tag 5.
abbrev ctx : MsgCtx
ctx = record free_ctx {
  buf = some (11 ∷ 12 ∷ replicate 6 0);
  src = 8;
  dest = 9;
  tag = 5;
  last_seq = 0;
  buf_size = 2;
  buf_alloc_size = 8;
  fragment_size = 6;
}

abbrev receiving : World
receiving = record { mctp = record mctp { msg_ctxs = free_ctx ∷ ctx ∷ [] }; trace = [] }

-- Sequence number 2 comes after 0.
abbrev skipping : Pktbuf
skipping = packet (1 ∷ 9 ∷ 8 ∷ 0x25 ∷ 13 ∷ 14 ∷ []) 6

skipping-Accepts : Accepts 0 bus (hdr_of skipping) receiving
unfolding read_hdr
skipping-Accepts = record { bus_at = refl; policy = refl; from = omega arith; local = refl }

skipping-Misfits : Misfits ctx skipping
unfolding read_hdr flags_of seq_of
skipping-Misfits = inl (refl, inl (omega arith))

skipping-IsPkt : IsPkt skipping
skipping-IsPkt = ground arith

bus_rx_rejects_example :
    (w' : World) × (bus_rx platform 0 skipping receiving ≡ done tt w')
    × IsFreed 1 w'
    × (w'.mctp ≡ record (receiving.mctp) {
      msg_ctxs = set receiving.mctp.msg_ctxs 1 (record ctx { buf = none });
    })
    × (w'.trace ≡ freed ∷ (noted skipping receiving).trace)
    × (deliveries w'.trace ≡ deliveries [])
unfolding find_from read_hdr tag_of
bus_rx_rejects_example =
    bus_rx_rejects platform 0 bus skipping receiving 1 ctx skipping-Accepts skipping-IsPkt refl refl
      refl skipping-Misfits

abbrev astray : Pktbuf
astray = packet (1 ∷ 10 ∷ 8 ∷ 0xc5 ∷ 13 ∷ 14 ∷ []) 6

bus_rx_ignores_example :
    (w' : World) × (bus_rx platform 0 astray receiving ≡ done tt w')
    × (w'.mctp ≡ receiving.mctp)
    × (deliveries w'.trace ≡ deliveries [])
unfolding read_hdr
bus_rx_ignores_example =
    bus_rx_ignores platform 0 bus astray receiving refl (inr (inr (refl, refl)))
