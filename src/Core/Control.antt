-- ===== src/Core/Control.antt =====
-- The control message handler of src/control.c, and mctp_bus_set_eid of src/core.c.
pub mod Answers
pub mod Responds
pub mod Replies
mod Tests
use ps_libmctp_win.Prelude.{
  ℕ, Bool, true, false, none, some, List, [], ◌∷◌, ◌++◌, length, get_or, take, write_at, bit_and,
  ltb, ◌==◌, not, ◌||◌, if◌then◌else◌,
}
use ps_libmctp_win.Core.State.{
  Rc, success, einval, Bus, Control, Platform, M, ◌>>=◌, ◌>>◌, pure, gets, require, get_bus,
  put_bus, msg_alloc,
}
use ps_libmctp_win.Core.Transmit.{message_tx_alloced}

-- Completion codes of include/libmctp-cmds.h
abbrev pub cc_success : ℕ
cc_success = 0

abbrev pub cc_error : ℕ
cc_error = 1

abbrev pub cc_error_invalid_data : ℕ
cc_error_invalid_data = 2

abbrev pub cc_error_invalid_length : ℕ
cc_error_invalid_length = 3

abbrev pub cc_error_unsupported_cmd : ℕ
cc_error_unsupported_cmd = 5

abbrev pub cc_versions_not_supported : ℕ
cc_versions_not_supported = 0x80

-- sizeof(struct mctp_ctrl_msg_hdr)
abbrev pub ctrl_hdr_size : ℕ
ctrl_hdr_size = 3

-- The fields of a control message.
abbrev pub ic_msg_type : List ℕ → ℕ
ic_msg_type msg = get_or msg 0 0

abbrev pub rq_dgram_inst : List ℕ → ℕ
rq_dgram_inst msg = get_or msg 1 0

abbrev pub command_code : List ℕ → ℕ
command_code msg = get_or msg 2 0

-- `fill_resp`: the header of a response.
unfoldable pub fill_resp : List ℕ → List ℕ
fill_resp req = 0 ∷ bit_and (rq_dgram_inst req) 0x1f ∷ command_code req ∷ []

-- `mctp_bus_set_eid`
unfoldable pub bus_set_eid : ℕ → Bus → Rc × Bus
bus_set_eid eid bus =
    if ltb eid 8 || eid == 0xff then (einval, bus) else (success, record bus { eid = eid })

-- MCTP_PROTOCOL_VERSIONS: 1.0, 1.1, 1.2 and 1.3.3
abbrev pub protocol_versions : List ℕ
protocol_versions =
    0xf1 ∷ 0xf0 ∷ 0xff ∷ 0x00 ∷ 0xf1 ∷ 0xf1 ∷ 0xff ∷ 0x00 ∷ 0xf1 ∷ 0xf2 ∷ 0xff ∷ 0x00 ∷ 0xf1 ∷ 0xf3
    ∷ 0xf3 ∷ 0x00 ∷ []

abbrev pub is_success : Rc → Bool
is_success success = true
is_success _ = false

-- The bytes of the responses.
unfoldable pub set_endpoint_id_resp : List ℕ → List ℕ
set_endpoint_id_resp req = fill_resp req ++ (cc_success ∷ 0 ∷ get_or req 4 0 ∷ 0 ∷ [])

unfoldable pub get_endpoint_id_resp : List ℕ → ℕ → List ℕ
get_endpoint_id_resp req eid = fill_resp req ++ (cc_success ∷ eid ∷ 1 ∷ 0 ∷ [])

unfoldable pub get_version_resp : List ℕ → List ℕ
get_version_resp req = fill_resp req ++ (cc_success ∷ 4 ∷ protocol_versions)

unfoldable pub get_types_resp : List ℕ → Control → List ℕ
get_types_resp req c =
    fill_resp req ++ (cc_success ∷ c.num_msg_types ∷ take c.num_msg_types c.msg_types)

unfoldable pub empty_resp : List ℕ → ℕ → List ℕ
empty_resp req ccode = fill_resp req ++ (ccode ∷ [])

module _ (p : Platform) where
  -- The end that the handlers share: a block for the response from the bus's instance, and its
  -- transmission, whose result is only logged.
  unfoldable pub respond : Bus → ℕ → ℕ → List ℕ → M ℕ
  respond bus src_eid msg_tag resp = do
    require bus.has_mctp
    block ← msg_alloc p (length resp)
    elim block [
      | none ↦ pure cc_error
      | some b ↦ message_tx_alloced p src_eid false msg_tag (write_at b 0 resp) >> pure cc_success
    ]

  -- `mctp_ctrl_set_endpoint_id`
  unfoldable pub ctrl_set_endpoint_id : ℕ → ℕ → ℕ → List ℕ → M ℕ
  ctrl_set_endpoint_id i src_eid msg_tag msg =
      let op = bit_and (get_or msg 3 0) 3 in
      if not (length msg == 5)
      then pure cc_error_invalid_length
      else if not (op == 0 || op == 1)
      then pure cc_error_invalid_data
      else (do
        bus ← get_bus i
        let (rc, bus') = bus_set_eid (get_or msg 4 0) bus
        if is_success rc
            then (put_bus i bus' >> respond bus' src_eid msg_tag (set_endpoint_id_resp msg))
            else pure cc_error_invalid_data)

  -- `mctp_ctrl_get_endpoint_id`
  unfoldable pub ctrl_get_endpoint_id : ℕ → ℕ → ℕ → List ℕ → M ℕ
  ctrl_get_endpoint_id i src_eid msg_tag msg =
      if not (length msg == ctrl_hdr_size)
      then pure cc_error_invalid_length
      else (do bus ← get_bus i; respond bus src_eid msg_tag (get_endpoint_id_resp msg bus.eid))

  -- `mctp_ctrl_get_version`
  unfoldable pub ctrl_get_version : ℕ → ℕ → ℕ → List ℕ → M ℕ
  ctrl_get_version i src_eid msg_tag msg =
      let msg_type = get_or msg 3 0 in
      if not (length msg == 4)
      then pure cc_error_invalid_length
      else if not (msg_type == 0 || msg_type == 0xff)
      then pure cc_versions_not_supported
      else (do bus ← get_bus i; respond bus src_eid msg_tag (get_version_resp msg))

  -- `mctp_ctrl_get_types`
  unfoldable pub ctrl_get_types : ℕ → ℕ → ℕ → List ℕ → M ℕ
  ctrl_get_types i src_eid msg_tag msg =
      if not (length msg == ctrl_hdr_size) then pure cc_error_invalid_length else (do
        bus ← get_bus i
        c ← gets (λ m. m.control)
        respond bus src_eid msg_tag (get_types_resp msg c))

  -- `reply_error`
  unfoldable pub reply_error : ℕ → ℕ → ℕ → List ℕ → ℕ → M (Unit {0})
  reply_error i src_eid msg_tag msg ccode = do
    bus ← get_bus i
    respond bus src_eid msg_tag (empty_resp msg ccode)
    pure tt

  -- The switch of `mctp_control_handler`
  unfoldable pub ctrl_command : ℕ → ℕ → ℕ → List ℕ → M ℕ
  ctrl_command i src_eid msg_tag msg =
      let command = command_code msg in
      if command == 1
      then ctrl_set_endpoint_id i src_eid msg_tag msg
      else if command == 2
      then ctrl_get_endpoint_id i src_eid msg_tag msg
      else if command == 4
      then ctrl_get_version i src_eid msg_tag msg
      else if command == 5
      then ctrl_get_types i src_eid msg_tag msg
      else pure cc_error_unsupported_cmd

  -- `mctp_control_handler`
  unfoldable pub control_handler : ℕ → ℕ → Bool → ℕ → List ℕ → M Bool
  control_handler i src_eid tag_owner msg_tag msg =
      if not tag_owner || ltb (length msg) 1 || not (ic_msg_type msg == 0)
      then pure false
      else if ltb (length msg) ctrl_hdr_size
      then pure true
      else if not (bit_and (rq_dgram_inst msg) 0xc0 == 0x80)
      then pure true
      else (do
        cc ← ctrl_command i src_eid msg_tag msg
        if cc == 0 then pure true else (reply_error i src_eid msg_tag msg cc >> pure true))
