-- ===== src/Core/Safety/Address.antt =====
-- The Set Endpoint ID request on an endpoint.
use ps_libmctp_win.Prelude.{
  ℕ, ◌≡◌, inl, inr, ◌==◌, ◌∙◌, ap, sym, refl, Bool, true, List, length, arith, set, if◌then◌else◌,
  Bool-cases, ltb, not, ◌||◌, ◌&&◌, bit_and, get_or, some-injective,
}
use ps_libmctp_win.Core.State.{
  Bus, Mctp, World, Platform, AllocatesSize, done, M, ◌>>=◌, ◌>>◌, pure, get_bus-bind,
}
use ps_libmctp_win.Core.Transmit.Totality.{Moves}
use ps_libmctp_win.Core.Control.{
  respond, ctrl_set_endpoint_id, reply_error, ctrl_command, control_handler, bus_set_eid, fill_resp,
  set_endpoint_id_resp, empty_resp, ic_msg_type, rq_dgram_inst, command_code,
}
use ps_libmctp_win.Core.Safety.{
  IsEndpoint, Ensures, Returns-by, Returns-map, Ensures-bind, with_bus, Moves-IsEndpoint,
}
use ps_libmctp_win.Core.Safety.Sends.{respond-Moves, IsBus-eid}

-- An endpoint with this address, and all else but the bus as in `w`.
abbrev HasAddress : ℕ → World → World → Type 0
HasAddress eid w w' =
    (v : IsEndpoint w'.mctp) × (v.bus.eid ≡ eid)
    × (w'.mctp ≡ record (w.mctp) { busses = w'.mctp.busses })

-- A transmission keeps the address.
Moves-HasAddress :
    (w w' : World) (v : IsEndpoint w.mctp) → Moves 0 v.bus w w' → HasAddress v.bus.eid w w'
Moves-HasAddress w w' v mv =
    let v' = Moves-IsEndpoint w w' v mv in
    (v', ap (λ (b : Bus). b.eid) (some-injective v'.bus mv.0 (sym v'.bus_at ∙ mv.1)) ∙ mv.3.3, mv.4)

-- The addresses that an endpoint may be given, and the operations that set one.
abbrev pub is_usable : ℕ → Bool
is_usable eid = not (ltb eid 8 || eid == 0xff)

abbrev pub sets_eid : ℕ → Bool
sets_eid op = bit_and op 3 == 0 || bit_and op 3 == 1

-- The address of an endpoint after a request.
abbrev pub next_eid : List ℕ → ℕ → ℕ
next_eid msg eid =
    if sets_eid (get_or msg 3 0) && is_usable (get_or msg 4 0) then get_or msg 4 0 else eid

module _ (p : Platform) (sized : AllocatesSize p) where
  set_endpoint_id-HasAddress :
      (src tag : ℕ) (msg : List ℕ) (w : World) (v : IsEndpoint w.mctp)
      → length msg ≡ 5
      → Ensures
          (ctrl_set_endpoint_id p 0 src tag msg)
          w
          (λ cc w'. HasAddress (next_eid msg v.bus.eid) w w')
  unfolding ctrl_set_endpoint_id bus_set_eid set_endpoint_id_resp fill_resp with_bus
  set_endpoint_id-HasAddress src tag msg w v five = elim (Bool-cases (sets_eid (get_or msg 3 0))) [
    | inl known ↦ elim (Bool-cases (ltb (get_or msg 4 0) 8 || get_or msg 4 0 == 0xff)) [
      | inl reserved ↦ (
        2,
        w,
        rw (ctrl_set_endpoint_id, same_length, known) (get_bus-bind 0 _ w v.bus_at ∙ rw reserved),
        (v, rw (known, reserved), refl),
      )
      | inr usable ↦
          let bus' = record v.bus { eid = get_or msg 4 0 } in
          let w1 = record w { mctp = record (w.mctp) { busses = set w.mctp.busses 0 bus' } } in
          let v1 = with_bus w.mctp bus' v (IsBus-eid v.bus (get_or msg 4 0) v.is_bus) v.linked in
          Returns-by
            (rw (ctrl_set_endpoint_id, same_length, known)
              (get_bus-bind 0 _ w v.bus_at ∙ rw usable))
            (Returns-map
              (respond-Moves p sized bus' src tag (set_endpoint_id_resp msg) w1 v1 v.linked
                (omega arith))
              (λ cc w' mv.
                let h = Moves-HasAddress w1 w' v1 mv in (h.0, h.1 ∙ rw (known, usable), h.2)))
    ]
    | inr unknown ↦ (2, w, rw (ctrl_set_endpoint_id, same_length, unknown), (v, rw unknown, refl))
  ]
    where
      same_length : (length msg == 5) ≡ true
      same_length = ap (λ n. n == 5) five

  -- An error response keeps the address.
  reply_error-HasAddress :
      (eid src tag : ℕ) (msg : List ℕ) (cc : ℕ) (w w1 : World)
      → HasAddress eid w w1
      → Ensures (reply_error p 0 src tag msg cc) w1 (λ u w'. HasAddress eid w w')
  unfolding reply_error empty_resp fill_resp
  reply_error-HasAddress eid src tag msg cc w w1 (v1, e, same) =
      Returns-by (get_bus-bind 0 _ w1 v1.bus_at) (
        Ensures-bind (respond p v1.bus src tag (empty_resp msg cc)) (λ _. pure tt) w1
          (respond-Moves p sized v1.bus src tag (empty_resp msg cc) w1 v1 v1.linked (omega arith))
          (λ c w' mv.
            let h = Moves-HasAddress w1 w' v1 mv in
            (
              tt,
              w',
              refl,
              (h.0, h.1 ∙ e, h.2 ∙ ap (λ (m : Mctp). record m { busses = w'.mctp.busses }) same),
            )))

  answer-HasAddress :
      (eid src tag : ℕ) (msg : List ℕ) (cc : ℕ) (w w1 : World)
      → HasAddress eid w w1
      → Ensures
          (if cc == 0 then pure true else (reply_error p 0 src tag msg cc >> pure true))
          w1
          (λ handled w'. (handled ≡ true) × HasAddress eid w w')
  answer-HasAddress eid src tag msg cc w w1 h = elim (Bool-cases (cc == 0)) [
    | inl fine ↦ (true, w1, rw fine, (refl, h))
    | inr wrong ↦ Returns-by (rw wrong) (
        Ensures-bind (reply_error p 0 src tag msg cc) (λ _. pure true) w1
          (reply_error-HasAddress eid src tag msg cc w w1 h)
          (λ u w' h'. (true, w', refl, (refl, h'))))
  ]

  -- An endpoint handles a Set Endpoint ID request of five bytes, that is a control message with the
  -- tag owner bit, the request bits and the command 1: the handler returns true, and the bus's
  -- address is the requested one if the operation is `set` or `force` and the address is usable (at
  -- least 8 and not 255), and the old one if not, whether the response could be sent or not. Apart
  -- from its bus the instance is as it was, and it is still an endpoint.
  pub set_endpoint_id_lem :
      (src tag : ℕ) (msg : List ℕ) (w : World) (v : IsEndpoint w.mctp)
      → length msg ≡ 5
      → ic_msg_type msg ≡ 0
      → bit_and (rq_dgram_inst msg) 0xc0 ≡ 0x80
      → command_code msg ≡ 1
      → (w' : World) × (v' : IsEndpoint w'.mctp) × (control_handler p 0 src true tag msg w
          ≡ done true w')
        × (v'.bus.eid ≡ next_eid msg v.bus.eid)
        × (w'.mctp ≡ record (w.mctp) { busses = w'.mctp.busses })
  unfolding control_handler ctrl_command
  set_endpoint_id_lem src tag msg w v five control request command =
      let h = r.3.1 in (r.1, h.0, handled ∙ r.2 ∙ ap (λ b. done b r.1) r.3.0, h.1, h.2)
    where
      answer : ℕ → M Bool
      answer cc = if cc == 0 then pure true else (reply_error p 0 src tag msg cc >> pure true)

      handled :
          control_handler p 0 src true tag msg w
          ≡ (ctrl_set_endpoint_id p 0 src tag msg >>= answer) w
      handled = rw (control_handler, ctrl_command, five, control, request, command)

      r :
          Ensures
            (ctrl_set_endpoint_id p 0 src tag msg >>= answer)
            w
            (λ b w'. (b ≡ true) × HasAddress (next_eid msg v.bus.eid) w w')
      r =
          Ensures-bind (ctrl_set_endpoint_id p 0 src tag msg) answer w
            (set_endpoint_id-HasAddress src tag msg w v five)
            (λ cc w1 h. answer-HasAddress (next_eid msg v.bus.eid) src tag msg cc w w1 h)
