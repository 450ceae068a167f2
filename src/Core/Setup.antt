-- ===== src/Core/Setup.antt =====
-- The life of an instance in src/core.c: mctp_setup, the setters, mctp_register_bus,
-- mctp_bridge_busses, mctp_unregister_bus and mctp_cleanup.
pub mod Start
pub mod Bridge
pub mod Hooks
mod Tests
use ps_libmctp_win.Prelude.{
  ℕ, zero, suc, ◌+◌, Bool, true, false, Option, none, some, List, [], ◌∷◌, ◌++◌, set, get_elem?,
  replicate, is_some, ◌==◌, ltb, if◌then◌else◌,
}
use ps_libmctp_win.Packet.{Binding}
use ps_libmctp_win.Core.State.{
  Rc, success, einval, is_negative, BusState, constructed, Bus, MsgCtx, ReqTag, Control, endpoint,
  bridge, Mctp, Platform, World, Trace, M, ◌>>=◌, ◌>>◌, pure, gets, modify, emit, get_trace,
  require, started, freed, max_busses, reassembly_ctxs, n_req_tags, control_max_types,
}
use ps_libmctp_win.Core.Transmit.{set_tx_enabled}
use ps_libmctp_win.Core.Types.{add_type}

-- What memset leaves.
abbrev pub zero_binding : Binding
zero_binding = record {
  version = 0;
  pkt_size = 0;
  pkt_header = 0;
  pkt_trailer = 0;
  has_tx_storage = false;
  tx_storage = [];
  has_start = false;
  has_control_rx = false;
}

abbrev pub zero_bus : Bus
zero_bus = record {
  eid = 0;
  binding = zero_binding;
  state = constructed;
  has_mctp = false;
  tx_msg = none;
  tx_msgpos = 0;
  tx_msglen = 0;
  tx_pktlen = 0;
  tx_seq = 0;
  tx_src = 0;
  tx_dest = 0;
  tx_to = false;
  tx_tag = 0;
}

abbrev pub zero_ctx : MsgCtx
zero_ctx = record {
  buf = none;
  src = 0;
  dest = 0;
  tag = 0;
  last_seq = 0;
  buf_size = 0;
  buf_alloc_size = 0;
  fragment_size = 0;
}

abbrev pub zero_tag : ReqTag
zero_tag = record { local = 0; remote = 0; tag = 0; expiry = 0 }

-- MCTP_MAX_MESSAGE_SIZE, as CMakeLists.txt defines it
abbrev pub default_message_size : ℕ
default_message_size = 33554432

-- What `mctp_setup` makes of a struct of the right size.
unfoldable pub setup : Mctp
setup = record {
  n_busses = 0;
  busses = replicate max_busses zero_bus;
  has_message_rx = false;
  has_capture = false;
  msg_ctxs = replicate reassembly_ctxs zero_ctx;
  req_tags = replicate n_req_tags zero_tag;
  tag_round_robin = 0;
  route_policy = endpoint;
  max_message_size = default_message_size;
  control = (add_type 0 record { msg_types = replicate control_max_types 0; num_msg_types = 0 }).1;
}

-- `mctp_setup` of a struct of `struct_size` bytes, where the library's has `sizeof_mctp`.
unfoldable pub mctp_setup : ℕ → ℕ → M Rc
mctp_setup sizeof_mctp struct_size =
    if ltb struct_size sizeof_mctp then pure einval else modify (λ _. setup) >> pure success

-- `mctp_init`; the flag says whether the struct was allocated. It replaces the instance.
unfoldable pub mctp_init : Bool → M Bool
mctp_init allocated = if allocated then modify (λ _. setup) >> pure true else pure false

-- The setters, with a callback that is not NULL.
unfoldable pub set_max_message_size : ℕ → M (Unit {0})
set_max_message_size n = modify (λ m. record m { max_message_size = n })

unfoldable pub set_capture_handler : Bool → M (Unit {0})
set_capture_handler fn = modify (λ m. record m { has_capture = fn })

unfoldable pub set_rx_all : Bool → M Rc
set_rx_all fn = modify (λ m. record m { has_message_rx = fn }) >> pure success

-- `binding->start` of the binding on bus `i`, where it is set.
module _ (p : Platform) where
  unfoldable pub start_bus : ℕ → Binding → M Rc
  start_bus i binding =
      if binding.has_start
      then (do
        tr ← get_trace
        let (enables, rc) = p.start tr i
        emit (started i rc)
        (if enables then set_tx_enabled p i true else pure tt)
        pure rc)
      else pure success

  -- `mctp_register_bus`
  unfoldable pub register_bus : Binding → ℕ → M Rc
  register_bus binding eid = do
    n ← gets (λ m. m.n_busses)
    require (n == 0)
    modify (λ m. record m { n_busses = 1 })
    require binding.has_tx_storage
    modify (λ m. record m {
      busses = set m.busses 0 (record zero_bus { has_mctp = true; binding = binding; eid = eid });
      route_policy = endpoint;
    })
    rc ← start_bus 0 binding
    if is_negative rc then (modify (λ m. record m { n_busses = 0 }) >> pure rc) else pure rc

  -- `mctp_bridge_busses`
  unfoldable pub bridge_busses : Binding → Binding → M Rc
  bridge_busses b1 b2 = do
    require b1.has_tx_storage
    require b2.has_tx_storage
    n ← gets (λ m. m.n_busses)
    require (n == 0)
    modify (λ m. record m {
      busses =
          set (set m.busses 0 (record zero_bus { binding = b1 })) 1
            (record zero_bus { binding = b2 });
      n_busses = 2;
      route_policy = bridge;
    })
    rc ← start_bus 0 b1
    if is_negative rc then pure rc else start_bus 1 b2

-- `mctp_unregister_bus`
unfoldable pub unregister_bus : M (Unit {0})
unregister_bus = modify (λ m. record m { n_busses = 0 })

-- The blocks that `mctp_cleanup` releases: those of the contexts, then the messages of the busses in
-- use, the last bus first. The instance is not used again without mctp_setup.
unfoldable pub free_ctxs : List MsgCtx → Trace → Trace
free_ctxs [] tr = tr
free_ctxs (c ∷ cs) tr = free_ctxs cs (if is_some c.buf then freed ∷ tr else tr)

abbrev pub free_tx_msg : Option Bus → Trace → Trace
free_tx_msg none tr = tr
free_tx_msg (some b) tr = if is_some b.tx_msg then freed ∷ tr else tr

unfoldable pub free_busses : ℕ → List Bus → Trace → Trace
free_busses zero busses tr = tr
free_busses (suc n) busses tr = free_busses n busses (free_tx_msg (get_elem? busses n) tr)

unfoldable pub cleanup : World → Trace
cleanup w = free_busses w.mctp.n_busses w.mctp.busses (free_ctxs w.mctp.msg_ctxs w.trace)
