-- ===== src/Core/Blocks/Responses.antt =====
-- The blocks of the control handler: each response that is allocated is sent, held or released.
use ps_libmctp_win.Prelude.{
  ℕ, ◌≡◌, inl, inr, Bool, false, some, List, ◌∷◌, length, get_elem?, set, write_at, arith, get_or,
  Option-cases, Bool-cases, ap, ◌==◌, ◌||◌, not, if◌then◌else◌, bit_and,
}
use ps_libmctp_win.Core.State.{
  Bus, World, Platform, M, get_bus, ◌>>=◌, ◌>>◌, pure, msg_alloc, put_bus, allocated,
}
use ps_libmctp_win.Core.Transmit.{message_tx_alloced}
use ps_libmctp_win.Core.Control.{
  respond, ctrl_set_endpoint_id, ctrl_get_endpoint_id, ctrl_get_version, ctrl_get_types,
  reply_error, ctrl_command, control_handler, bus_set_eid, set_endpoint_id_resp, cc_error,
  cc_error_invalid_length, cc_error_invalid_data, cc_success, is_success,
}
use ps_libmctp_win.Core.Blocks.{
  one, OwesWith, Frame, After, After-done, After-get_bus, After-require, After-bind,
  bus_blocks-same,
}
use ps_libmctp_win.Core.Blocks.Neutral.{IsNeutral, neutral_rules, pure-IsNeutral, if-IsNeutral}
use ps_libmctp_win.Core.Blocks.Sends.{message_tx_alloced-Owes}

bus_set_eid-tx_msg : (eid : ℕ) (bus : Bus) → (bus_set_eid eid bus).1.tx_msg ≡ bus.tx_msg
unfolding bus_set_eid
bus_set_eid-tx_msg eid bus = ground arith

-- A bus that is written back with the message that it had.
write_back-IsNeutral :
    {A : Type 0} (i : ℕ) (test : Bus → Bool) (g : Bus → Bus) (f : Bus → M A) (m : M A)
    → ((bus : Bus) → (g bus).tx_msg ≡ bus.tx_msg)
    → ((bus : Bus) → IsNeutral (f bus))
    → IsNeutral m
    → IsNeutral (get_bus i >>= (λ bus. if test bus then (put_bus i (g bus) >> f bus) else m))
write_back-IsNeutral i test g f m same next other = record {
  run = λ k fr w o. After-get_bus i _ w (λ bus at. elim (Bool-cases (test bus)) [
    | inl on ↦ rw on (written k fr w bus at o)
    | inr off ↦ rw off (other.run k fr w o)
  ]);
}
  where
    written :
        (k : ℕ) (fr : Frame) (w : World) (bus : Bus)
        → get_elem? w.mctp.busses i ≡ some bus
        → OwesWith k fr w
        → After (λ a. OwesWith k fr) ((put_bus i (g bus) >> f bus) w)
    written k fr w bus at o =
        (next bus).run k fr
          (record w { mctp = record (w.mctp) { busses = set w.mctp.busses i (g bus) } })
          (
            o.0,
            omega (
              arith,
              o.1,
              bus_blocks-same w.mctp.n_busses w.mctp.busses i (g bus) at (ap one (same bus)),
            ),
          )

module _ (p : Platform) where
  respond-IsNeutral :
      (bus : Bus) (src tag : ℕ) (resp : List ℕ) → IsNeutral (respond p bus src tag resp)
  unfolding respond msg_alloc
  respond-IsNeutral bus src tag resp = record {
    run = λ k fr w o.
        After-require bus.has_mctp _ w (elim (Option-cases (p.msg_alloc w.trace (length resp))) [
          | inl refused ↦ rw (◌>>=◌, msg_alloc, refused) (After-done cc_error _ o)
          | inr (block, granted) ↦
              rw (◌>>=◌, msg_alloc, granted)
                (After-bind (message_tx_alloced p src false tag (write_at block 0 resp))
                  (λ _. pure cc_success) (record w { trace = allocated (length resp) ∷ w.trace })
                  (message_tx_alloced-Owes p src false tag (write_at block 0 resp) k fr _
                    (o.0, omega (arith, o.1)))
                  (λ rc w' o'. After-done cc_success w' o'))
        ]);
  }

  set_endpoint_id-IsNeutral :
      (i src tag : ℕ) (msg : List ℕ) → IsNeutral (ctrl_set_endpoint_id p i src tag msg)
  unfolding ctrl_set_endpoint_id
  set_endpoint_id-IsNeutral i src tag msg =
      if-IsNeutral (not (length msg == 5)) (pure cc_error_invalid_length) _ (pure-IsNeutral _) (
        if-IsNeutral (not (op == 0 || op == 1)) (pure cc_error_invalid_data) _ (pure-IsNeutral _) (
          write_back-IsNeutral i (λ bus. is_success (bus_set_eid eid bus).0)
            (λ bus. (bus_set_eid eid bus).1)
            (λ bus. respond p (bus_set_eid eid bus).1 src tag (set_endpoint_id_resp msg))
            (pure cc_error_invalid_data) (bus_set_eid-tx_msg eid)
            (λ bus. respond-IsNeutral (bus_set_eid eid bus).1 src tag (set_endpoint_id_resp msg))
            (pure-IsNeutral cc_error_invalid_data)))
    where
      op : ℕ
      op = bit_and (get_or msg 3 0) 3

      eid : ℕ
      eid = get_or msg 4 0

  ruleset handler_rules = (neutral_rules, respond-IsNeutral)

  get_endpoint_id-IsNeutral :
      (i src tag : ℕ) (msg : List ℕ) → IsNeutral (ctrl_get_endpoint_id p i src tag msg)
  unfolding ctrl_get_endpoint_id
  get_endpoint_id-IsNeutral i src tag msg = search handler_rules

  get_version-IsNeutral :
      (i src tag : ℕ) (msg : List ℕ) → IsNeutral (ctrl_get_version p i src tag msg)
  unfolding ctrl_get_version
  get_version-IsNeutral i src tag msg = search handler_rules

  get_types-IsNeutral : (i src tag : ℕ) (msg : List ℕ) → IsNeutral (ctrl_get_types p i src tag msg)
  unfolding ctrl_get_types
  get_types-IsNeutral i src tag msg = search handler_rules

  reply_error-IsNeutral :
      (i src tag : ℕ) (msg : List ℕ) (cc : ℕ) → IsNeutral (reply_error p i src tag msg cc)
  unfolding reply_error
  reply_error-IsNeutral i src tag msg cc = search handler_rules

  ctrl_command-IsNeutral : (i src tag : ℕ) (msg : List ℕ) → IsNeutral (ctrl_command p i src tag msg)
  unfolding ctrl_command
  ctrl_command-IsNeutral i src tag msg = search (
    neutral_rules, set_endpoint_id-IsNeutral, get_endpoint_id-IsNeutral, get_version-IsNeutral,
    get_types-IsNeutral,
  )

  pub control_handler-IsNeutral :
      (i src : ℕ) (to : Bool) (tag : ℕ) (msg : List ℕ)
      → IsNeutral (control_handler p i src to tag msg)
  unfolding control_handler
  control_handler-IsNeutral i src to tag msg =
      search (neutral_rules, ctrl_command-IsNeutral, reply_error-IsNeutral) depth 9
