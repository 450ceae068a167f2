-- ===== src/Mmbi/Context.antt =====
-- The high-level API of src/mmbi.c, mctp_mmbi_context_*: an instance with one bus on a device. The
-- instance is the state of `M`; the fields of the context beside it are a record.
pub mod Open
use ps_libmctp_win.Prelude.{
  ℕ, zero, suc, ◌+◌, Bool, true, false, Option, none, some, List, [], ◌∷◌, ◌++◌, if◌then◌else◌,
}
use ps_libmctp_win.Core.State.{
  Rc, success, minus_one, Platform, World, Trace, delivered, Event, done, fault, spins, Outcome, M,
  ◌>>=◌, ◌>>◌, pure, modify,
}
use ps_libmctp_win.Core.Transmit.{set_tx_enabled, message_tx}
use ps_libmctp_win.Core.Setup.{mctp_init, register_bus, unregister_bus, set_rx_all, cleanup}
use ps_libmctp_win.Mmbi.{Mmbi, Device, mmbi_init, init_device, mmbi_platform, mmbi_poll}

-- `struct mctp_mmbi_context`. The user's pointer is handed on unread.
pub record Context : Type 0 where
  pub mmbi : Mmbi
  pub has_rx_cb : Bool
  pub debug : Bool

-- Whether the blocks for the context, the instance and the binding were allocated.
pub record Blocks : Type 0 where
  pub context : Bool
  pub mctp : Bool
  pub mmbi : Bool

-- `rc == 0`
abbrev pub is_success : Rc → Bool
is_success success = true
is_success _ = false

module _ (dev : Device) where
  -- The loop that opens the device, with `left` attempts left.
  unfoldable pub open_loop : ℕ → ℕ → Mmbi → Mmbi
  open_loop zero attempt m = m
  open_loop (suc left) attempt m =
      let (rc, m') = init_device (dev.open_device attempt) (dev.storage attempt) m in
      let rest = open_loop left (attempt + 1) m' in if is_success rc then m' else rest

  -- The end of `mctp_mmbi_context_init`, for a binding with a device.
  unfoldable pub attach : Mmbi → ℕ → M (Option Context)
  attach m eid = do
    register_bus (mmbi_platform dev m) m.binding eid
    set_tx_enabled (mmbi_platform dev m) 0 true
    set_rx_all true
    pure (some record { mmbi = m; has_rx_cb = false; debug = false })

  -- What follows `mctp_mmbi_init`: five attempts to open the device.
  unfoldable pub open_context : ℕ → Option Mmbi → M (Option Context)
  open_context eid none = pure none
  open_context eid (some m) =
      let opened = open_loop 5 0 m in if opened.has_device then attach opened eid else pure none

  -- `mctp_mmbi_context_init`
  unfoldable pub context_init : Blocks → ℕ → M (Option Context)
  context_init blocks eid =
      if blocks.context
      then (do
        made ← mctp_init blocks.mctp
        if made then open_context eid (mmbi_init blocks.mmbi) else pure none)
      else pure none

  -- `mctp_mmbi_send`
  unfoldable pub mmbi_send : Option Context → ℕ → List ℕ → M Rc
  mmbi_send none dst_eid msg = pure minus_one
  mmbi_send (some ctx) dst_eid msg = message_tx (mmbi_platform dev ctx.mmbi) dst_eid false 0 msg

  -- `mctp_mmbi_context_poll`
  unfoldable pub context_poll : Option Context → M Rc
  context_poll none = pure minus_one
  context_poll (some ctx) = mmbi_poll dev (mmbi_platform dev ctx.mmbi) 0 ctx.mmbi

-- `mctp_mmbi_set_rx_callback` and `mctp_mmbi_set_debug`
unfoldable pub set_rx_callback : Option Context → Bool → Option Context
set_rx_callback none cb = none
set_rx_callback (some ctx) cb = some (record ctx { has_rx_cb = cb })

unfoldable pub set_debug : Option Context → Bool → Option Context
set_debug none enable = none
set_debug (some ctx) enable = some (record ctx { debug = enable })

-- `mmbi_internal_rx`: the call of the user's callback, with the source and the message, that a
-- delivery of the core leads to.
unfoldable pub internal_rx : Option Context → ℕ → Bool → ℕ → List ℕ → Option (ℕ × List ℕ)
internal_rx none eid tag_owner msg_tag msg = none
internal_rx (some ctx) eid tag_owner msg_tag msg = if ctx.has_rx_cb then some (eid, msg) else none

-- `mctp_mmbi_context_destroy`: the blocks that are released.
unfoldable pub context_destroy : Option Context → World → Outcome Trace
context_destroy none w = done w.trace w
context_destroy (some ctx) w = (unregister_bus >> (λ w'. done (cleanup w') w')) w
