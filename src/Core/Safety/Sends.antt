-- ===== src/Core/Safety/Sends.antt =====
-- The control handler and its responses on an endpoint.
use ps_libmctp_win.Prelude.{
  ℕ, ◌<◌, ◌≡◌, inl, inr, ◌==◌, ◌∙◌, refl, Bool, true, false, none, some, List, ◌∷◌, length,
  length-take, write_at, length-write_at, size_mod, arith, if◌then◌else◌, Option-cases, Bool-cases,
  not, ◌||◌, ltb, bit_and, get_or, set, Option,
}
use ps_libmctp_win.Core.State.{
  success, einval, enomem, msg_dup, Bus, World, Platform, AllocatesSize, ◌>>=◌, ◌>>◌, pure, gets,
  msg_alloc, allocated, alloc_failed, get_bus-bind, freed,
}
use ps_libmctp_win.Core.Transmit.{message_tx, message_tx_alloced, find_bus_for_eid}
use ps_libmctp_win.Core.Transmit.Progress.{IsReadyWith}
use ps_libmctp_win.Core.Transmit.Messages.{IsBus}
use ps_libmctp_win.Core.Transmit.Totality.{Moves, message_tx_on_bus-keeps}
use ps_libmctp_win.Core.Control.{
  respond, ctrl_set_endpoint_id, ctrl_get_endpoint_id, ctrl_get_version, ctrl_get_types,
  reply_error, ctrl_command, control_handler, bus_set_eid, fill_resp, set_endpoint_id_resp,
  get_endpoint_id_resp, get_version_resp, get_types_resp, empty_resp, cc_error, cc_success,
  ic_msg_type, rq_dgram_inst, command_code,
}
use ps_libmctp_win.Core.Safety.{
  IsEndpoint, Ensures, Keeps, Returns-by, get_bus-Keeps, Ensures-bind, with_bus, Moves-IsEndpoint,
  Returns-map, stays,
}

module _ (p : Platform) where
  message_tx_alloced-Moves :
      (eid : ℕ) (to : Bool) (tag : ℕ) (msg : List ℕ) (w : World)
      → (v : IsEndpoint w.mctp) → length msg < size_mod
      → Ensures (message_tx_alloced p eid to tag msg) w (λ rc w'. Moves 0 v.bus w w')
  unfolding message_tx_alloced find_bus_for_eid
  message_tx_alloced-Moves eid to tag msg w v small = elim (Bool-cases (bit_and tag 7 == tag)) [
    | inl good ↦ elim (Bool-cases (w.mctp.n_busses == 0)) [
      | inl unused ↦ (
        success,
        record w { trace = freed ∷ w.trace },
        rw (good, ◌>>=◌, gets, find_bus_for_eid, unused),
        stays w v,
      )
      | inr used ↦
          let r =
            message_tx_on_bus-keeps p 0 v.bus.eid eid to tag msg w v.bus v.bus_at v.is_bus small in
          (
            r.0,
            r.1,
            rw (good, ◌>>=◌, gets, find_bus_for_eid, used) (get_bus-bind 0 _ w v.bus_at ∙ r.2),
            r.3,
          )
    ]
    | inr bad ↦ (einval, record w { trace = freed ∷ w.trace }, rw bad, stays w v)
  ]

  message_tx_alloced-Keeps :
      (eid : ℕ) (to : Bool) (tag : ℕ) (msg : List ℕ) (w : World)
      → IsEndpoint w.mctp
      → length msg < size_mod
      → Keeps (message_tx_alloced p eid to tag msg) w
  message_tx_alloced-Keeps eid to tag msg w v small =
      Returns-map (message_tx_alloced-Moves eid to tag msg w v small)
        (λ rc w' h. Moves-IsEndpoint w w' v h)

module _ (p : Platform) (sized : AllocatesSize p) where
  -- A response is allocated and sent, if its length is a `size_t`.
  pub respond-Moves :
      (bus : Bus) (src tag : ℕ) (resp : List ℕ) (w : World)
      → (v : IsEndpoint w.mctp) → bus.has_mctp ≡ true
      → length resp < size_mod
      → Ensures (respond p bus src tag resp) w (λ cc w'. Moves 0 v.bus w w')
  unfolding respond msg_alloc
  respond-Moves bus src tag resp w v linked small =
      elim (Option-cases (p.msg_alloc w.trace (length resp))) [
        | inl refused ↦ (
          cc_error,
          record w { trace = alloc_failed (length resp) ∷ w.trace },
          rw (respond, linked, ◌>>=◌, msg_alloc, refused),
          stays w v,
        )
        | inr (block, granted) ↦
            let w1 = record w { trace = allocated (length resp) ∷ w.trace } in
            let out = write_at block 0 resp in
            let fits : length out < size_mod = omega (
              arith,
              length-write_at block 0 resp,
              sized w.trace (length resp) block granted,
              small,
            ) in
            Returns-by (rw (respond, linked, ◌>>=◌, msg_alloc, granted)) (
              Ensures-bind (message_tx_alloced p src false tag out) (λ _. pure cc_success) w1
                (message_tx_alloced-Moves p src false tag out w1 v fits)
                (λ rc w' h. (cc_success, w', refl, h)))
      ]

  respond-Keeps :
      (bus : Bus) (src tag : ℕ) (resp : List ℕ) (w : World)
      → IsEndpoint w.mctp
      → bus.has_mctp ≡ true
      → length resp < size_mod
      → Keeps (respond p bus src tag resp) w
  respond-Keeps bus src tag resp w v linked small =
      Returns-map (respond-Moves bus src tag resp w v linked small)
        (λ cc w' h. Moves-IsEndpoint w w' v h)

-- A new address leaves a bus fit for the next call.
pub IsBus-eid : (bus : Bus) (eid : ℕ) → IsBus bus → IsBus (record bus { eid = eid })
IsBus-eid bus eid h = record {
  ready = ready_for bus.tx_msg h.ready;
  mtu_ok = h.mtu_ok;
  mtu_small = h.mtu_small;
}
  where
    ready_for : (o : Option (List ℕ)) → IsReadyWith o bus → IsReadyWith o (record bus { eid = eid })
    ready_for none r = tt
    ready_for (some msg) r = record {
      whole = r.whole;
      small = r.small;
      part = r.part;
      mtu = r.mtu;
      mtu_small = r.mtu_small;
    }

module _ (p : Platform) (sized : AllocatesSize p) where
  set_endpoint_id-Keeps :
      (src tag : ℕ) (msg : List ℕ) (w : World)
      → IsEndpoint w.mctp
      → Keeps (ctrl_set_endpoint_id p 0 src tag msg) w
  unfolding ctrl_set_endpoint_id bus_set_eid set_endpoint_id_resp fill_resp
  set_endpoint_id-Keeps src tag msg w v = elim (Bool-cases (length msg == 5)) [
    | inl five ↦
        elim (Bool-cases (bit_and (get_or msg 3 0) 3 == 0 || bit_and (get_or msg 3 0) 3 == 1)) [
          | inl known ↦ elim (Bool-cases (ltb (get_or msg 4 0) 8 || get_or msg 4 0 == 0xff)) [
            | inl reserved ↦ (
              2,
              w,
              rw (ctrl_set_endpoint_id, five, known) (get_bus-bind 0 _ w v.bus_at ∙ rw reserved),
              v,
            )
            | inr usable ↦
                let bus' = record v.bus { eid = get_or msg 4 0 } in
                let w1 = record w {
                  mctp = record (w.mctp) { busses = set w.mctp.busses 0 bus' };
                } in
                Returns-by
                  (rw (ctrl_set_endpoint_id, five, known) (get_bus-bind 0 _ w v.bus_at ∙ rw usable))
                  (respond-Keeps p sized bus' src tag (set_endpoint_id_resp msg) w1
                    (with_bus w.mctp bus' v (IsBus-eid v.bus (get_or msg 4 0) v.is_bus) v.linked)
                    v.linked (omega arith))
          ]
          | inr unknown ↦ (2, w, rw (ctrl_set_endpoint_id, five, unknown), v)
        ]
    | inr other ↦ (3, w, rw (ctrl_set_endpoint_id, other), v)
  ]

  get_endpoint_id-Keeps :
      (src tag : ℕ) (msg : List ℕ) (w : World)
      → IsEndpoint w.mctp
      → Keeps (ctrl_get_endpoint_id p 0 src tag msg) w
  unfolding ctrl_get_endpoint_id get_endpoint_id_resp fill_resp
  get_endpoint_id-Keeps src tag msg w v = elim (Bool-cases (length msg == 3)) [
    | inl three ↦ Returns-by (rw (ctrl_get_endpoint_id, three) (get_bus-bind 0 _ w v.bus_at)) (
        respond-Keeps p sized v.bus src tag (get_endpoint_id_resp msg v.bus.eid) w v v.linked
          (omega arith))
    | inr other ↦ (3, w, rw (ctrl_get_endpoint_id, other), v)
  ]

  get_version-Keeps :
      (src tag : ℕ) (msg : List ℕ) (w : World)
      → IsEndpoint w.mctp
      → Keeps (ctrl_get_version p 0 src tag msg) w
  unfolding ctrl_get_version get_version_resp fill_resp
  get_version-Keeps src tag msg w v = elim (Bool-cases (length msg == 4)) [
    | inl four ↦ elim (Bool-cases (get_or msg 3 0 == 0 || get_or msg 3 0 == 0xff)) [
      | inl known ↦
          Returns-by (rw (ctrl_get_version, four, known) (get_bus-bind 0 _ w v.bus_at))
            (respond-Keeps p sized v.bus src tag (get_version_resp msg) w v v.linked (omega arith))
      | inr unknown ↦ (0x80, w, rw (ctrl_get_version, four, unknown), v)
    ]
    | inr other ↦ (3, w, rw (ctrl_get_version, other), v)
  ]

  get_types-Keeps :
      (src tag : ℕ) (msg : List ℕ) (w : World)
      → IsEndpoint w.mctp
      → Keeps (ctrl_get_types p 0 src tag msg) w
  unfolding ctrl_get_types get_types_resp fill_resp
  get_types-Keeps src tag msg w v = elim (Bool-cases (length msg == 3)) [
    | inl three ↦
        let c = w.mctp.control in
        Returns-by (rw (ctrl_get_types, three) (get_bus-bind 0 _ w v.bus_at)) (
          respond-Keeps p sized v.bus src tag (get_types_resp msg c) w v v.linked
            (omega (arith, length-take c.num_msg_types c.msg_types, v.types_small)))
    | inr other ↦ (3, w, rw (ctrl_get_types, other), v)
  ]

  reply_error-Keeps :
      (src tag : ℕ) (msg : List ℕ) (cc : ℕ) (w : World)
      → IsEndpoint w.mctp
      → Keeps (reply_error p 0 src tag msg cc) w
  unfolding reply_error empty_resp fill_resp
  reply_error-Keeps src tag msg cc w v = get_bus-Keeps _ w v (
      Ensures-bind (respond p v.bus src tag (empty_resp msg cc)) _ w
        (respond-Keeps p sized v.bus src tag (empty_resp msg cc) w v v.linked (omega arith))
        (λ c w' h. (tt, w', refl, h)))

  ctrl_command-Keeps :
      (src tag : ℕ) (msg : List ℕ) (w : World)
      → IsEndpoint w.mctp
      → Keeps (ctrl_command p 0 src tag msg) w
  unfolding ctrl_command
  ctrl_command-Keeps src tag msg w v = elim (Bool-cases (command_code msg == 1)) [
    | inl c1 ↦ Returns-by (rw (ctrl_command, c1)) (set_endpoint_id-Keeps src tag msg w v)
    | inr n1 ↦ elim (Bool-cases (command_code msg == 2)) [
      | inl c2 ↦ Returns-by (rw (ctrl_command, n1, c2)) (get_endpoint_id-Keeps src tag msg w v)
      | inr n2 ↦ elim (Bool-cases (command_code msg == 4)) [
        | inl c4 ↦ Returns-by (rw (ctrl_command, n1, n2, c4)) (get_version-Keeps src tag msg w v)
        | inr n4 ↦ elim (Bool-cases (command_code msg == 5)) [
          | inl c5 ↦
              Returns-by (rw (ctrl_command, n1, n2, n4, c5)) (get_types-Keeps src tag msg w v)
          | inr n5 ↦ (5, w, rw (ctrl_command, n1, n2, n4, n5), v)
        ]
      ]
    ]
  ]

  -- The completion code decides on an error response.
  answer-Keeps :
      (src tag : ℕ) (msg : List ℕ) (cc : ℕ) (w : World)
      → IsEndpoint w.mctp
      → Keeps (if cc == 0 then pure true else (reply_error p 0 src tag msg cc >> pure true)) w
  answer-Keeps src tag msg cc w v = elim (Bool-cases (cc == 0)) [
    | inl fine ↦ (true, w, rw fine, v)
    | inr wrong ↦ Returns-by (rw wrong) (
        Ensures-bind (reply_error p 0 src tag msg cc) (λ _. pure true) w
          (reply_error-Keeps src tag msg cc w v) (λ u w' h. (true, w', refl, h)))
  ]

  -- The control handler.
  pub control_handler-Keeps :
      (src : ℕ) (to : Bool) (tag : ℕ) (msg : List ℕ) (w : World)
      → IsEndpoint w.mctp
      → Keeps (control_handler p 0 src to tag msg) w
  unfolding control_handler
  control_handler-Keeps src to tag msg w v =
      elim (Bool-cases (not to || ltb (length msg) 1 || not (ic_msg_type msg == 0))) [
        | inl other ↦ (false, w, rw (control_handler, other), v)
        | inr control ↦ elim (Bool-cases (ltb (length msg) 3)) [
          | inl short ↦ (true, w, rw (control_handler, control, short), v)
          | inr whole ↦ elim (Bool-cases (bit_and (rq_dgram_inst msg) 0xc0 == 0x80)) [
            | inl request ↦ Returns-by (rw (control_handler, control, whole, request)) (
                Ensures-bind (ctrl_command p 0 src tag msg) _ w (ctrl_command-Keeps src tag msg w v)
                  (λ cc w' h. answer-Keeps src tag msg cc w' h))
            | inr response ↦ (true, w, rw (control_handler, control, whole, response), v)
          ]
        ]
      ]

  -- `mctp_message_tx` of a message with a length that is a `size_t`.
  pub message_tx-Keeps :
      (eid : ℕ) (to : Bool) (tag : ℕ) (msg : List ℕ) (w : World)
      → IsEndpoint w.mctp
      → length msg < size_mod
      → Keeps (message_tx p eid to tag msg) w
  unfolding message_tx msg_dup msg_alloc
  message_tx-Keeps eid to tag msg w v small =
      elim (Option-cases (p.msg_alloc w.trace (length msg))) [
        | inl refused ↦ (
          enomem,
          record w { trace = alloc_failed (length msg) ∷ w.trace },
          rw (message_tx, msg_dup, msg_alloc, ◌>>=◌, refused),
          v,
        )
        | inr (block, granted) ↦ Returns-by (rw (message_tx, msg_dup, msg_alloc, ◌>>=◌, granted)) (
            message_tx_alloced-Keeps p eid to tag (write_at block 0 msg)
              (record w { trace = allocated (length msg) ∷ w.trace }) v
              (omega (
                arith,
                length-write_at block 0 msg,
                sized w.trace (length msg) block granted,
                small,
              )))
      ]
