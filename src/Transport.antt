-- ===== src/Transport.antt =====
-- The transport helper, src/transport.c: the same life as the context of src/mmbi.c, with one attempt
-- to open the device.
pub mod Init
mod Tests
use ps_libmctp_win.Prelude.{ℕ, Bool, true, false, Option, none, some, List, if◌then◌else◌}
use ps_libmctp_win.Core.State.{Rc, minus_one, World, Trace, done, Outcome, M, ◌>>=◌, ◌>>◌, pure}
use ps_libmctp_win.Core.Transmit.{set_tx_enabled, message_tx}
use ps_libmctp_win.Core.Setup.{mctp_init, register_bus, unregister_bus, set_rx_all, cleanup}
use ps_libmctp_win.Mmbi.{Mmbi, Device, mmbi_init, init_device, mmbi_platform, mmbi_poll}
use ps_libmctp_win.Mmbi.Context.{Blocks, is_success}

-- `struct mctp_transport`. The user's pointer is handed on unread, and the instance is the state of `M`.
pub record Transport : Type 0 where
  pub mmbi : Mmbi
  pub has_rx_cb : Bool

-- `transport_rx_handler`: the call of the user's callback that a delivery of the core leads to.
unfoldable pub rx_handler : Option Transport → ℕ → Bool → ℕ → List ℕ → Option (ℕ × List ℕ)
rx_handler none eid tag_owner msg_tag msg = none
rx_handler (some ctx) eid tag_owner msg_tag msg = if ctx.has_rx_cb then some (eid, msg) else none

module _ (dev : Device) where
  -- What follows the initialisation of the device.
  unfoldable pub link : Rc × Mmbi → ℕ → M (Option Transport)
  link (rc, m) eid =
      if is_success rc
      then (do
        register_bus (mmbi_platform dev m) m.binding eid
        set_tx_enabled (mmbi_platform dev m) 0 true
        set_rx_all true
        pure (some record { mmbi = m; has_rx_cb = false }))
      else pure none

  unfoldable pub open_transport : ℕ → Option Mmbi → M (Option Transport)
  open_transport eid none = pure none
  open_transport eid (some m) = link (init_device (dev.open_device 0) (dev.storage 0) m) eid

  -- `mctp_transport_init`
  unfoldable pub transport_init : Blocks → ℕ → M (Option Transport)
  transport_init blocks eid =
      if blocks.context
      then (do
        made ← mctp_init blocks.mctp
        if made then open_transport eid (mmbi_init blocks.mmbi) else pure none)
      else pure none

  -- `mctp_transport_send`
  unfoldable pub transport_send : Option Transport → ℕ → List ℕ → M Rc
  transport_send none dst_eid msg = pure minus_one
  transport_send (some ctx) dst_eid msg =
      message_tx (mmbi_platform dev ctx.mmbi) dst_eid false 0 msg

  -- `mctp_transport_poll`
  unfoldable pub transport_poll : Option Transport → M Rc
  transport_poll none = pure minus_one
  transport_poll (some ctx) = mmbi_poll dev (mmbi_platform dev ctx.mmbi) 0 ctx.mmbi

-- `mctp_transport_set_rx_callback`
unfoldable pub set_rx_callback : Option Transport → Bool → Option Transport
set_rx_callback none cb = none
set_rx_callback (some ctx) cb = some (record ctx { has_rx_cb = cb })

-- `mctp_transport_destroy`: the blocks that are released.
unfoldable pub transport_destroy : Option Transport → World → Outcome Trace
transport_destroy none w = done w.trace w
transport_destroy (some ctx) w = (unregister_bus >> (λ w'. done (cleanup w') w')) w
