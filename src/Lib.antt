-- ===== src/Lib.antt =====
-- A model of libmctp as this repository ports it to Windows: the core of an MCTP endpoint or
-- bridge (src/core.c, include/core-internal.h, include/libmctp.h) with its control message handler
-- (src/control.c, include/libmctp-cmds.h), the binding over an MMBI device with its high-level API
-- (src/mmbi.c), the helper around it (src/transport.c), and the driver of the device
-- (windows_driver/MmbiDriver.c).
--
-- The program. An instance (`struct mctp`) has busses, each with a binding that moves packets over
-- some medium. A message to send is cut into packets of the binding's size, which the binding takes
-- one by one, at once or later when it was busy (mctp_message_tx, mctp_send_tx_queue,
-- mctp_binding_set_tx_enabled). A packet that comes in (mctp_bus_rx) is either a whole message or
-- goes into a reassembly context; a whole message (mctp_rx) goes to the control handler, to the
-- message callback, or, on a bridge, out on the other bus. The MMBI binding writes each packet to a
-- device and polls it for packets; the driver keeps a ring of bytes for each direction between two
-- devices. A context of the high-level API owns an instance with one such bus.
--
-- The files, with the code that they model:
-- + Prelude: helpers. Sizes are the natural numbers below 2 ^ 64 with `add_size` and `sub_size` for
--   the wrap-around of size_t; memcpy into a block is `write_at`.
-- + Packet: struct mctp_pktbuf, struct mctp_binding and mctp_pktbuf_*.
-- + Header: struct mctp_hdr and its flags byte.
-- + Core/State: struct mctp and what is in it; the calls that leave the library (`Platform`, the
--   allocator, the binding's tx and the clock) are parameters whose answers may depend on every call
--   made before (the `Trace`); operations are functions in a state monad `M`, in which a failed
--   assertion or a read through a NULL pointer is a `fault`.
-- + Core/Transmit: mctp_next_tx_pkt, mctp_packet_tx, mctp_tx_complete, mctp_send_tx_queue,
--   mctp_binding_set_tx_enabled, mctp_message_tx and the functions under it, mctp_is_tx_ready.
-- + Core/Tags: mctp_alloc_tag, mctp_dealloc_tag, mctp_message_tx_request.
-- + Core/Reassembly: mctp_msg_ctx_*.
-- + Core/Control and Core/Types: src/control.c, and mctp_bus_set_eid. Core/Control/Answers says what
--   the answer to a request is, and Core/Types/Without what a list without one type is, both
--   independently of the code.
-- + Core/Receive: mctp_bus_rx, mctp_rx and the functions that these call.
-- + Core/Setup: mctp_setup, the setters, mctp_register_bus, mctp_bridge_busses, mctp_unregister_bus
--   and mctp_cleanup. A bus stands for the binding that points at it; a binding whose registration
--   failed or ended is not called again. Core/Setup/Hooks: mctp_set_now_op, mctp_now and the
--   allocation context.
-- + Core/Blocks: the message blocks that an instance holds, against the allocations and releases in
--   its trace.
-- + Core/Transmit/Stall and Core/Receive/Relay: a packet that the binding refuses, and a message that
--   a bridge passes on.
-- + Core/Exchange: one endpoint's transmission and another's reception together.
-- + Core/Safety: the invariant of an endpoint, that receptions keep it, and how a request
--   changes its address.
-- + Mmbi: the binding, mctp_mmbi_init, mctp_mmbi_init_mem, mctp_mmbi_init_device, mctp_mmbi_tx,
--   mctp_mmbi_poll and mctp_mmbi_rx. WriteFile, ReadFile, PeekNamedPipe, CreateFileA and the
--   allocator are the parameter `Device`. The lock is not modelled: calls are made one at a time.
--   mctp_mmbi_send and the reception of mctp_mmbi_poll hold the lock to that end;
--   mctp_transport_send does not.
-- + Mmbi/Context: mctp_mmbi_context_*, mctp_mmbi_send, and the handler that the core calls.
-- + Mmbi/Wire, Write, Send, Exchange, Legacy, Safety: the packets as bytes, one write, one message
--   sent, one message from context to context, the reception from a region, and any sequence of
--   calls on a context. Mmbi/Release: what mctp_mmbi_context_destroy leaves behind.
-- + Transport: mctp_transport_*; Transport/Init has its initialisation beside the context's.
-- + Driver: RingBufferWrite, RingBufferRead, MmbiEvtIoWrite and MmbiEvtIoRead, for a ring of any
--   size; Driver/Pipe has the byte queues that they implement.
-- + Alloc: src/alloc.c with the default allocator, over a heap that is a parameter, with
--   mctp_pktbuf_free and mctp_destroy. The core's `Platform` answers for these functions: it stands
--   for any setting of them that does not fail an assertion.
-- + Log: src/log.c. The other files leave the log's output out.
--
-- Loops. The loop of mctp_send_tx_queue runs on fuel, two more than the bytes of the message; each
-- round but the last moves on by at least one byte, so that is enough. The loops that try again
-- count their attempts, three for a write and five for the device. All other loops run over the
-- arrays of the instance.
--
-- Not modelled: the formatting of log messages; a build with MCTP_CUSTOM_ALLOC; the debug output and
-- the closing of a device; calls from several threads at once and the lock between them; callbacks
-- that call back into the instance; and two bindings that share one bus. The driver's entry and the
-- creation of its devices are declared in MmbiDriver.h but not in the repository. Pointers that the
-- code compares with NULL only are flags.
pub mod Prelude
pub mod Packet
pub mod Header
pub mod Core
pub mod Driver
pub mod Mmbi
pub mod Transport
pub mod Alloc
pub mod Log
