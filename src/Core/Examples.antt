-- ===== src/Core/Examples.antt =====
-- A started endpoint with one bus, and a platform that grants every request: the data of the tests.
use ps_libmctp_win.Prelude.{ℕ, true, false, none, some, List, [], ◌∷◌, replicate}
use ps_libmctp_win.Packet.{Binding, Pktbuf}
use ps_libmctp_win.Core.State.{success, tx_enabled, Bus, MsgCtx, endpoint, Mctp, Platform, World}
use ps_libmctp_win.Core.Tags.{empty_tag}

abbrev pub platform : Platform
platform = record {
  msg_alloc = λ tr n. some (replicate n 0);
  tx = λ tr i pkt. success;
  start = λ tr i. (true, success);
  now = λ tr. 100;
}

abbrev pub binding : Binding
binding = record {
  version = 1;
  pkt_size = 68;
  pkt_header = 2;
  pkt_trailer = 0;
  has_tx_storage = true;
  tx_storage = replicate 70 0;
  has_start = false;
  has_control_rx = false;
}

abbrev pub bus : Bus
bus = record {
  eid = 9;
  binding = binding;
  state = tx_enabled;
  has_mctp = true;
  tx_msg = none;
  tx_msgpos = 0;
  tx_msglen = 0;
  tx_pktlen = 0;
  tx_seq = 3;
  tx_src = 0;
  tx_dest = 0;
  tx_to = false;
  tx_tag = 0;
}

-- A bus in the middle of a message of 100 bytes.
abbrev pub sending : Bus
sending = record bus {
  tx_msg = some (replicate 100 7);
  tx_msgpos = 64;
  tx_msglen = 100;
  tx_src = 9;
  tx_dest = 8;
  tx_tag = 5;
}

abbrev pub free_ctx : MsgCtx
free_ctx = record {
  buf = none;
  src = 0;
  dest = 0;
  tag = 0;
  last_seq = 0;
  buf_size = 0;
  buf_alloc_size = 0;
  fragment_size = 0;
}

abbrev pub mctp : Mctp
mctp = record {
  n_busses = 1;
  busses = bus ∷ [];
  has_message_rx = true;
  has_capture = true;
  msg_ctxs = replicate 16 free_ctx;
  req_tags = replicate 16 empty_tag;
  tag_round_robin = 0;
  route_policy = endpoint;
  max_message_size = 128;
  control = record { msg_types = 0 ∷ replicate 9 0; num_msg_types = 1 };
}

abbrev pub world : World
world = record { mctp = mctp; trace = [] }

-- A received packet in a buffer of 16 bytes.
abbrev pub packet : List ℕ → ℕ → Pktbuf
packet bytes end = record {
  start = 0;
  end = end;
  size = 16;
  mctp_hdr_off = 0;
  alloc = true;
  bytes = bytes;
}
