-- ===== src/Core/Safety/Whole.antt =====
-- The reception of a whole message on an endpoint.
use ps_libmctp_win.Prelude.{
  ℕ, inl, inr, ◌==◌, ◌∙◌, refl, Bool, true, false, List, ◌∷◌, length, slice, sub_size, write_at,
  if◌then◌else◌, Option-cases, Bool-cases, leb, not, ◌&&◌,
}
use ps_libmctp_win.Packet.{Pktbuf, data_off}
use ps_libmctp_win.Header.{Hdr, tag_of, tag_owner_of}
use ps_libmctp_win.Core.State.{
  World, Platform, AllocatesSize, ◌>>=◌, pure, emit, msg_alloc, msg_dup, allocated, alloc_failed,
  Event, freed, delivered, control_delivered, get_bus-bind,
}
use ps_libmctp_win.Core.Tags.{dealloc_tag, clear_tag}
use ps_libmctp_win.Core.Receive.{
  ctrl_handle_msg, rx_local, rx, rx_single, is_transport, is_request, dest_is_local,
}
use ps_libmctp_win.Core.Safety.{IsEndpoint, Keeps, Returns-by, Ensures-bind, with_tags}
use ps_libmctp_win.Core.Safety.Sends.{control_handler-Keeps}

-- A step that is left out, or an event, leaves an endpoint.
emit_if-Keeps :
    (b : Bool) (e : Event) (w : World) → IsEndpoint w.mctp → Keeps (if b then emit e else pure tt) w
emit_if-Keeps true e w v = (tt, _, refl, v)
emit_if-Keeps false e w v = (tt, w, refl, v)

dealloc_tag-Keeps :
    (to : Bool) (local remote tag : ℕ) (w : World)
    → IsEndpoint w.mctp
    → Keeps (if to then pure tt else dealloc_tag local remote tag) w
unfolding dealloc_tag
dealloc_tag-Keeps true local remote tag w v = (tt, w, refl, v)
dealloc_tag-Keeps false local remote tag w v = elim (Bool-cases (local == 0)) [
  | inl unset ↦ (tt, w, rw (dealloc_tag, unset), v)
  | inr set ↦ (
    tt,
    record w { mctp = record (w.mctp) { req_tags = clear_tag local remote tag w.mctp.req_tags } },
    rw (dealloc_tag, set),
    with_tags w.mctp (clear_tag local remote tag w.mctp.req_tags) v,
  )
]

module _ (p : Platform) (sized : AllocatesSize p) where
  ctrl_handle_msg-Keeps :
      (src tag : ℕ) (to : Bool) (msg : List ℕ) (w : World)
      → IsEndpoint w.mctp
      → Keeps (ctrl_handle_msg p 0 src tag to msg) w
  unfolding ctrl_handle_msg
  ctrl_handle_msg-Keeps src tag to msg w v = elim (Bool-cases (is_transport msg)) [
    | inl transport ↦ elim (Bool-cases v.bus.binding.has_control_rx) [
      | inl has ↦ (
        true,
        record w { trace = control_delivered src to tag msg ∷ w.trace },
        rw (ctrl_handle_msg, transport) (get_bus-bind 0 _ w v.bus_at ∙ rw has),
        v,
      )
      | inr hasnt ↦
          (false, w, rw (ctrl_handle_msg, transport) (get_bus-bind 0 _ w v.bus_at ∙ rw hasnt), v)
    ]
    | inr command ↦
        Returns-by (rw (ctrl_handle_msg, command))
          (control_handler-Keeps p sized src to tag msg w v)
  ]

  handled-Keeps :
      (b : Bool) (src tag : ℕ) (to : Bool) (msg : List ℕ) (w : World)
      → IsEndpoint w.mctp
      → Keeps (if b then ctrl_handle_msg p 0 src tag to msg else pure false) w
  handled-Keeps true src tag to msg w v = ctrl_handle_msg-Keeps src tag to msg w v
  handled-Keeps false src tag to msg w v = (false, w, refl, v)

  rx_local-Keeps :
      (src dest : ℕ) (to : Bool) (tag : ℕ) (msg : List ℕ) (w : World)
      → IsEndpoint w.mctp
      → Keeps (rx_local p 0 src dest to tag msg) w
  unfolding rx_local
  rx_local-Keeps src dest to tag msg w v =
      Ensures-bind (if to then pure tt else dealloc_tag dest src tag) _ w
        (dealloc_tag-Keeps to dest src tag w v)
        (λ u w1 v1.
          Ensures-bind
            (if leb 3 (length msg) && is_request msg
              then ctrl_handle_msg p 0 src tag to msg
              else pure false)
            _ w1 (handled-Keeps (leb 3 (length msg) && is_request msg) src tag to msg w1 v1)
            (λ handled w2 v2.
              emit_if-Keeps (not handled && w2.mctp.has_message_rx) (delivered src to tag msg) w2
                v2))

  pub rx-Keeps :
      (src dest : ℕ) (to : Bool) (tag : ℕ) (msg : List ℕ) (w : World)
      → IsEndpoint w.mctp
      → Keeps (rx p 0 src dest to tag msg) w
  unfolding rx
  rx-Keeps src dest to tag msg w v = elim (Bool-cases (dest_is_local v.bus dest)) [
    | inl local ↦
        Returns-by (get_bus-bind 0 _ w v.bus_at ∙ rw (v.policy, local))
          (rx_local-Keeps src dest to tag msg w v)
    | inr away ↦ (tt, w, get_bus-bind 0 _ w v.bus_at ∙ rw (v.policy, away), v)
  ]

  pub rx_single-Keeps :
      (hdr : Hdr) (pkt : Pktbuf) (w : World) → IsEndpoint w.mctp → Keeps (rx_single p 0 hdr pkt) w
  unfolding rx_single msg_dup msg_alloc
  rx_single-Keeps hdr pkt w v =
      let part = slice pkt.bytes (data_off pkt) (sub_size (sub_size pkt.end pkt.mctp_hdr_off) 4) in
      elim (Option-cases (p.msg_alloc w.trace (length part))) [
        | inl refused ↦ (
          tt,
          record w { trace = alloc_failed (length part) ∷ w.trace },
          rw (rx_single, msg_dup, msg_alloc, ◌>>=◌, refused),
          v,
        )
        | inr (block, granted) ↦
            let w1 = record w { trace = allocated (length part) ∷ w.trace } in
            let msg = write_at block 0 part in
            let to = tag_owner_of hdr.flags_seq_tag in
            let tag = tag_of hdr.flags_seq_tag in
            Returns-by (rw (rx_single, msg_dup, msg_alloc, ◌>>=◌, granted)) (
              Ensures-bind (rx p 0 hdr.src hdr.dest to tag msg) (λ _. emit freed) w1
                (rx-Keeps hdr.src hdr.dest to tag msg w1 v)
                (λ u w2 v2. (tt, record w2 { trace = freed ∷ w2.trace }, refl, v2)))
      ]
