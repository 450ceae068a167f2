-- ===== src/Core/Blocks/Handles.antt =====
-- The blocks of mctp_rx, which hands a message on: to the control handler, to the message callback,
-- or as copies to the other busses of a bridge.
use ps_libmctp_win.Prelude.{
  ℕ, zero, suc, ◌+◌, ◌≤◌, inl, inr, refl, ap, Bool, Option, none, some, List, arith, Bool-cases,
  ◌==◌,
}
use ps_libmctp_win.Core.State.{
  World, Platform, M, ◌>>◌, pure, emit, msg_dup, control_delivered, delivered,
}
use ps_libmctp_win.Core.Transmit.{message_tx_on_bus}
use ps_libmctp_win.Core.Tags.{dealloc_tag}
use ps_libmctp_win.Core.Receive.{
  ctrl_handle_msg, rx_local, forward_from, rx, is_endpoint, dest_is_local,
}
use ps_libmctp_win.Core.Blocks.{one, OwesWith, Frame, After, After-done, After-get_bus, After-bind}
use ps_libmctp_win.Core.Blocks.Neutral.{
  IsNeutral, neutral_rules, emit-IsNeutral, if-IsNeutral, pure-IsNeutral,
}
use ps_libmctp_win.Core.Blocks.Sends.{msg_dup-Owes, message_tx_on_bus-Owes}
use ps_libmctp_win.Core.Blocks.Responses.{control_handler-IsNeutral}

emit-control :
    (src : ℕ) (to : Bool) (tag : ℕ) (msg : List ℕ)
    → IsNeutral (emit (control_delivered src to tag msg))
emit-control src to tag msg = emit-IsNeutral _ (λ tr. (refl, refl))

emit-delivered :
    (src : ℕ) (to : Bool) (tag : ℕ) (msg : List ℕ) → IsNeutral (emit (delivered src to tag msg))
emit-delivered src to tag msg = emit-IsNeutral _ (λ tr. (refl, refl))

dealloc_tag-IsNeutral : (local remote tag : ℕ) → IsNeutral (dealloc_tag local remote tag)
unfolding dealloc_tag
dealloc_tag-IsNeutral local remote tag =
    if-IsNeutral (local == 0) (pure tt) _ (pure-IsNeutral tt)
      record { run = λ k fr w o. After-done tt _ o }

module _ (p : Platform) where
  ctrl_handle_msg-IsNeutral :
      (i src tag : ℕ) (to : Bool) (msg : List ℕ) → IsNeutral (ctrl_handle_msg p i src tag to msg)
  unfolding ctrl_handle_msg
  ctrl_handle_msg-IsNeutral i src tag to msg =
      search (neutral_rules, emit-control, control_handler-IsNeutral) depth 8

  rx_local-IsNeutral :
      (i src dest : ℕ) (to : Bool) (tag : ℕ) (msg : List ℕ)
      → IsNeutral (rx_local p i src dest to tag msg)
  unfolding rx_local
  rx_local-IsNeutral i src dest to tag msg =
      search (neutral_rules, dealloc_tag-IsNeutral, ctrl_handle_msg-IsNeutral, emit-delivered) depth
        8

  -- Each copy that a bridge makes is handed to another bus that is in use.
  forward_from-Owes :
      (n k i src dest : ℕ) (to : Bool) (tag : ℕ) (msg : List ℕ) (m : ℕ) (fr : Frame) (w : World)
      → k + n ≤ fr.1
      → OwesWith m fr w
      → After (λ u. OwesWith m fr) (forward_from p n k i src dest to tag msg w)
  unfolding forward_from
  forward_from-Owes zero k i src dest to tag msg m fr w l o = After-done tt w o
  forward_from-Owes (suc n) k i src dest to tag msg m fr w l o = elim (Bool-cases (k == i)) [
    | inl own ↦
        rw own (forward_from-Owes n (suc k) i src dest to tag msg m fr w (omega (arith, l)) o)
    | inr other ↦ rw other (
        After-bind (msg_dup p msg) _ w (msg_dup-Owes p msg m fr w o) (
          copied (λ w' o'.
            forward_from-Owes n (suc k) i src dest to tag msg m fr w' (omega (arith, l)) o')))
  ]
    where
      rest : M (Unit {0})
      rest = forward_from p n (suc k) i src dest to tag msg

      send : Option (List ℕ) → M (Unit {0})
      send copy = elim copy [
        | none ↦ pure tt
        | some c ↦ message_tx_on_bus p k src dest to tag c >> rest
      ]

      copied :
          ((w' : World) → OwesWith m fr w' → After (λ u. OwesWith m fr) (rest w'))
          → (copy : Option (List ℕ)) (w' : World) → OwesWith (one copy + m) fr w'
          → After (λ u. OwesWith m fr) (send copy w')
      copied next none w' o' = After-done tt w' (o'.0, omega (arith, o'.1))
      copied next (some c) w' o' =
          After-bind (message_tx_on_bus p k src dest to tag c) (λ _. rest) w'
            (message_tx_on_bus-Owes p k src dest to tag c m fr w'
              (omega (arith, l, ap (λ (g : Frame). g.1) o'.0)) (o'.0, omega (arith, o'.1)))
            (λ rc w'' o''. next w'' o'')

  pub rx-IsNeutral :
      (i src dest : ℕ) (to : Bool) (tag : ℕ) (msg : List ℕ) → IsNeutral (rx p i src dest to tag msg)
  unfolding rx
  rx-IsNeutral i src dest to tag msg = record {
    run = λ m fr w o. After-get_bus i _ w (λ bus at.
        elim (Bool-cases (is_endpoint w.mctp.route_policy)) [
          | inl single ↦ elim (Bool-cases (dest_is_local bus dest)) [
            | inl mine ↦ rw (single, mine) ((rx_local-IsNeutral i src dest to tag msg).run m fr w o)
            | inr foreign ↦ rw (single, foreign) (After-done tt w o)
          ]
          | inr bridged ↦ rw bridged (
              forward_from-Owes w.mctp.n_busses 0 i src dest to tag msg m fr w
                (omega (arith, ap (λ (g : Frame). g.1) o.0)) o)
        ]);
  }
