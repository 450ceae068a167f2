-- ===== src/Core/Control/Replies.antt =====
-- The control handler of src/control.c answers every request.
use ps_libmctp_win.Prelude.{
  ℕ, ◌<◌, ◌==◌, ◌≡◌, ◌⊎◌, inl, inr, ◌∙◌, ap, sym, refl, true, false, List, [], ◌∷◌, ◌++◌, length,
  length-take, bit_and, arith, ltb, if◌then◌else◌, ◌||◌, Bool-cases,
}
use ps_libmctp_win.Core.State.{
  Bus, Platform, World, Outcome, done, pure, get_bus-bind, bind-done, ◌>>=◌, ◌>>◌,
}
use ps_libmctp_win.Core.Transmit.Fragments.{View}
use ps_libmctp_win.Core.Transmit.Parts.{TakesAll, sent}
use ps_libmctp_win.Core.Types.Sets.{types}
use ps_libmctp_win.Core.Receive.Start.{Grants}
use ps_libmctp_win.Core.Control.{
  fill_resp, respond, bus_set_eid, set_endpoint_id_resp, get_endpoint_id_resp, get_version_resp,
  get_types_resp, empty_resp, ctrl_set_endpoint_id, ctrl_get_endpoint_id, ctrl_get_version,
  ctrl_get_types, reply_error, ctrl_command, control_handler,
}
use ps_libmctp_win.Core.Control.Answers.{
  Answer, assigns, reports_eid, reports_versions, reports_types, version, versions, answer, reply,
}
use ps_libmctp_win.Core.Control.Responds.{
  IsServing, renamed, with_bus, renamed-IsServing, response, respond_sends,
}

module _ (p : Platform) (takes : TakesAll p) (grants : Grants p) (src tag : ℕ)
    (small : tag < 8) where
  -- What a command's handler comes to: the response has gone out, or nothing has happened but a
  -- completion code.
  abbrev Handled : Bus → World → ℕ → ℕ → Answer → Outcome ℕ → Type 0
  Handled bus w inst command a out =
      (a.code ≡ 0)
        × ((w' : World) × (out ≡ done 0 w')
            × (sent w'.trace ≡ sent w.trace ++ (reply bus src tag inst command a ∷ [])))
      ⊎ ((a.code == 0) ≡ false) × (a.content ≡ []) × (a.eid ≡ bus.eid) × (out ≡ done a.code w)

  module _ (bus : Bus) (w : World) (s : IsServing bus w) (inst command : ℕ) where
    assigns_lem :
        (body : List ℕ)
        → let msg = 0 ∷ inst ∷ command ∷ body in
          Handled bus w inst command (assigns bus.eid body) (ctrl_set_endpoint_id p 0 src tag msg w)
    unfolding assigns ctrl_set_endpoint_id bus_set_eid set_endpoint_id_resp fill_resp
    assigns_lem [] = inr (refl, refl, refl, refl)
    assigns_lem (op ∷ []) = inr (refl, refl, refl, refl)
    assigns_lem (op ∷ new ∷ x ∷ body) = inr (refl, refl, refl, ground arith)
    assigns_lem (op ∷ new ∷ []) = elim (Bool-cases (bit_and op 3 == 0 || bit_and op 3 == 1)) [
      | inr odd ↦ rw odd (inr (refl, refl, refl, refl))
      | inl known ↦ elim (Bool-cases (ltb new 8 || new == 255)) [
        | inl reserved ↦ rw (known, reserved) (inr (refl, refl, refl, get_bus-bind 0 _ w s.bus_at))
        | inr fine ↦
            let bus1 = renamed new bus in
            let r =
              respond_sends p takes grants src tag small bus1
                (set_endpoint_id_resp (0 ∷ inst ∷ command ∷ op ∷ new ∷ [])) (with_bus bus1 w)
                (renamed-IsServing new bus w s) (omega arith) in
            rw (known, fine) (inl (refl, (r.0, get_bus-bind 0 _ w s.bus_at ∙ r.1, r.2)))
      ]
    ]

    reports_eid_lem :
        (body : List ℕ)
        → let msg = 0 ∷ inst ∷ command ∷ body in
          Handled bus w inst command
            (reports_eid bus.eid body)
            (ctrl_get_endpoint_id p 0 src tag msg w)
    unfolding reports_eid ctrl_get_endpoint_id get_endpoint_id_resp fill_resp
    reports_eid_lem [] =
        let r =
          respond_sends p takes grants src tag small bus
            (get_endpoint_id_resp (0 ∷ inst ∷ command ∷ []) bus.eid) w s (omega arith) in
        inl (refl, (r.0, get_bus-bind 0 _ w s.bus_at ∙ r.1, r.2))
    reports_eid_lem (x ∷ body) = inr (refl, refl, refl, ground arith)

    reports_versions_lem :
        (body : List ℕ)
        → let msg = 0 ∷ inst ∷ command ∷ body in
          Handled bus w inst command
            (reports_versions bus.eid body)
            (ctrl_get_version p 0 src tag msg w)
    unfolding reports_versions version versions ctrl_get_version get_version_resp fill_resp
    reports_versions_lem [] = inr (refl, refl, refl, refl)
    reports_versions_lem (t ∷ []) = elim (Bool-cases (t == 0 || t == 255)) [
      | inl known ↦
          let r =
            respond_sends p takes grants src tag small bus
              (get_version_resp (0 ∷ inst ∷ command ∷ t ∷ [])) w s (omega arith) in
          rw known (inl (refl, (r.0, get_bus-bind 0 _ w s.bus_at ∙ r.1, r.2)))
      | inr unknown ↦ rw unknown (inr (refl, refl, refl, refl))
    ]
    reports_versions_lem (t ∷ x ∷ body) = inr (refl, refl, refl, ground arith)

    counted : length (types w.mctp.control) ≡ w.mctp.control.num_msg_types
    counted = omega (
      arith,
      s.control.within,
      s.control.sized,
      length-take w.mctp.control.num_msg_types w.mctp.control.msg_types,
    )

    abbrev carried : ℕ → List View
    carried n =
        sent w.trace
        ++ (record (response p takes grants src tag small bus []) {
          payload = 0 ∷ bit_and inst 31 ∷ command ∷ 0 ∷ n ∷ types w.mctp.control;
        }
            ∷ [])

    reports_types_lem :
        (body : List ℕ)
        → let msg = 0 ∷ inst ∷ command ∷ body in
          Handled bus w inst command
            (reports_types bus.eid (types w.mctp.control) body)
            (ctrl_get_types p 0 src tag msg w)
    unfolding reports_types ctrl_get_types get_types_resp fill_resp
    reports_types_lem [] =
        let r =
          respond_sends p takes grants src tag small bus
            (get_types_resp (0 ∷ inst ∷ command ∷ []) w.mctp.control) w s
            (omega (
              arith,
              s.control.within,
              length-take w.mctp.control.num_msg_types w.mctp.control.msg_types,
            )) in
        inl (refl, (r.0, get_bus-bind 0 _ w s.bus_at ∙ r.1, r.2 ∙ ap carried (sym counted)))
    reports_types_lem (x ∷ body) = inr (refl, refl, refl, ground arith)

    -- The switch.
    ctrl_command_lem :
        (body : List ℕ)
        → let msg = 0 ∷ inst ∷ command ∷ body in
          Handled bus w inst command
            (answer bus.eid (types w.mctp.control) command body)
            (ctrl_command p 0 src tag msg w)
    unfolding answer ctrl_command
    ctrl_command_lem body = elim (Bool-cases (command == 1)) [
      | inl one ↦ rw one (assigns_lem body)
      | inr no_one ↦ rw no_one (elim (Bool-cases (command == 2)) [
        | inl two ↦ rw two (reports_eid_lem body)
        | inr no_two ↦ rw no_two (elim (Bool-cases (command == 4)) [
          | inl four ↦ rw four (reports_versions_lem body)
          | inr no_four ↦ rw no_four (elim (Bool-cases (command == 5)) [
            | inl five ↦ rw five (reports_types_lem body)
            | inr no_five ↦ rw no_five (inr (refl, refl, refl, refl))
          ])
        ])
      ])
    ]

    -- The checks of the handler hold for a request.
    control_handler-accepts :
        (body : List ℕ)
        → bit_and inst 192 ≡ 128
        → let msg = 0 ∷ inst ∷ command ∷ body in
          control_handler p 0 src true tag msg w
          ≡ (ctrl_command p 0 src tag msg >>= (λ cc.
                if cc == 0 then pure true else (reply_error p 0 src tag msg cc >> pure true)))
              w
    unfolding control_handler
    control_handler-accepts body request = ground arith

    reply_error_sends :
        (body : List ℕ) (a : Answer)
        → a.content ≡ []
        → a.eid ≡ bus.eid
        → (w' : World) × (reply_error p 0 src tag (0 ∷ inst ∷ command ∷ body) a.code w ≡ done tt w')
          × (sent w'.trace ≡ sent w.trace ++ (reply bus src tag inst command a ∷ []))
    unfolding reply_error empty_resp fill_resp
    reply_error_sends body a nothing same =
        let resp = empty_resp (0 ∷ inst ∷ command ∷ body) a.code in
        let r = respond_sends p takes grants src tag small bus resp w s (omega arith) in
        (
          r.0,
          get_bus-bind 0 _ w s.bus_at ∙ bind-done (respond p bus src tag resp) _ w r.1,
          r.2 ∙ rw (same, nothing) refl,
        )

    -- Over an allocator that grants every request and a binding that takes every packet: a
    -- started, idle endpoint with a valid list of types answers every control request of three
    -- bytes or more, whatever its command and its data, with a tag below 8. `mctp_control_handler`
    -- consumes it, and exactly one packet goes out, to the requester, with its instance number and
    -- tag: the answer that the endpoint's EID and types give, sent from the EID that it then has.
    pub control_request_answered :
        (body : List ℕ)
        → bit_and inst 192 ≡ 128
        → let a = answer bus.eid (types w.mctp.control) command body in
          (w' : World) × (control_handler p 0 src true tag (0 ∷ inst ∷ command ∷ body) w
            ≡ done true w')
          × (sent w'.trace ≡ sent w.trace ++ (reply bus src tag inst command a ∷ []))
    control_request_answered body request =
        let msg = 0 ∷ inst ∷ command ∷ body in
        let a = answer bus.eid (types w.mctp.control) command body in
        elim (ctrl_command_lem body) [
          | inl (zero_code, (w', run, wire)) ↦ (
            w',
            control_handler-accepts body request ∙ bind-done (ctrl_command p 0 src tag msg) _ w run,
            wire,
          )
          | inr (code, nothing, same, run) ↦
              let e = reply_error_sends body a nothing same in
              (
                e.0,
                control_handler-accepts body request
                    ∙ bind-done (ctrl_command p 0 src tag msg) _ w run
                    ∙ rw code (bind-done (reply_error p 0 src tag msg a.code) _ w e.1),
                e.2,
              )
        ]
