-- ===== src/Core/Blocks/Sends.antt =====
-- The blocks of mctp_message_tx and the functions under it: a message is released, or held by its
-- bus.
use ps_libmctp_win.Prelude.{
  ℕ, suc, ◌+◌, ◌<◌, ◌≡◌, inl, inr, ap, refl, Bool, Option, none, some, List, ◌∷◌, length, get_elem?,
  set, arith, Bool-cases, Option-cases, is_some, ◌==◌, bit_and, write_at, leb, if◌then◌else◌,
}
use ps_libmctp_win.Core.State.{
  Rc, M, gets, enomem, success, enxio, einval, ebusy, Bus, Mctp, Platform, World, done, ◌>>=◌, ◌>>◌,
  pure, get_bus, put_bus, msg_alloc, msg_dup, allocated, alloc_failed,
}
use ps_libmctp_win.Core.Transmit.{
  send_tx_queue, take_msg, is_constructed, btu, body_size, message_tx_on_bus, message_tx_alloced,
  message_tx, find_bus_for_eid, refuse,
}
use ps_libmctp_win.Core.Blocks.{
  one, OwesWith, Frame, After, After-get_bus, After-bind, After-by, After-done, After-require,
  bus_blocks-set,
}
use ps_libmctp_win.Core.Blocks.Queue.{send_tx_queue-Owes, refuse-Owes}

module _ (p : Platform) where
  pub message_tx_on_bus-Owes :
      (i src dest : ℕ) (to : Bool) (tag : ℕ) (msg : List ℕ) (k : ℕ) (fr : Frame) (w : World)
      → i < w.mctp.n_busses
      → OwesWith (suc k) fr w
      → After (λ rc. OwesWith k fr) (message_tx_on_bus p i src dest to tag msg w)
  unfolding message_tx_on_bus take_msg
  message_tx_on_bus-Owes i src dest to tag msg k fr w l h = After-get_bus i _ w (λ bus at.
      elim (Bool-cases (is_constructed bus.state)) [
        | inl unstarted ↦ After-by (rw unstarted) (refuse-Owes p enxio k fr w h)
        | inr started ↦ elim (Bool-cases (bit_and tag 7 == tag)) [
          | inl good ↦
              rw (started, good)
                (After-require (leb btu (body_size bus.binding.pkt_size)) _ w
                  (accepted bus at bus.tx_msg refl))
          | inr bad ↦ After-by (rw (started, bad)) (refuse-Owes p einval k fr w h)
        ]
      ])
    where
      taken : Bus → World
      taken bus = record w {
        mctp = record (w.mctp) { busses = set w.mctp.busses i (take_msg bus src dest to tag msg) };
      }

      accepted :
          (bus : Bus)
          → get_elem? w.mctp.busses i ≡ some bus
          → (o : Option (List ℕ)) → bus.tx_msg ≡ o
          → After
              (λ rc. OwesWith k fr)
              ((if is_some o then refuse p ebusy else (do
                put_bus i (take_msg bus src dest to tag msg)
                send_tx_queue p i
                pure success))
                w)
      accepted bus at (some old) e = refuse-Owes p ebusy k fr w h
      accepted bus at none e =
          After-bind (send_tx_queue p i) (λ u. pure success) (taken bus)
            (send_tx_queue-Owes p i k fr (taken bus) l (
              h.0,
              omega (
                arith,
                h.1,
                bus_blocks-set w.mctp.n_busses w.mctp.busses i (take_msg bus src dest to tag msg) l
                    at,
                ap one e,
              ),
            ))
            (λ u w' h'. After-done success w' h')

  find_bus-in_use : (m : Mctp) (eid : ℕ) {i : ℕ} → find_bus_for_eid m eid ≡ some i → i < m.n_busses
  unfolding find_bus_for_eid
  find_bus-in_use m eid e = ground arith

  pub message_tx_alloced-Owes :
      (eid : ℕ) (to : Bool) (tag : ℕ) (msg : List ℕ) (k : ℕ) (fr : Frame) (w : World)
      → OwesWith (suc k) fr w
      → After (λ rc. OwesWith k fr) (message_tx_alloced p eid to tag msg w)
  unfolding message_tx_alloced
  message_tx_alloced-Owes eid to tag msg k fr w h = elim (Bool-cases (bit_and tag 7 == tag)) [
    | inl good ↦ elim (Option-cases (find_bus_for_eid w.mctp eid)) [
      | inl lost ↦
          After-by (rw (message_tx_alloced, good, ◌>>=◌, gets, lost))
            (refuse-Owes p success k fr w h)
      | inr (i, found) ↦
          After-by (rw (message_tx_alloced, good, ◌>>=◌, gets, found))
            (on_bus i (find_bus-in_use w.mctp eid found))
    ]
    | inr bad ↦ After-by (rw (message_tx_alloced, bad)) (refuse-Owes p einval k fr w h)
  ]
    where
      on_bus :
          (i : ℕ)
          → i < w.mctp.n_busses
          → After
              (λ rc. OwesWith k fr)
              ((do bus ← get_bus i; message_tx_on_bus p i bus.eid eid to tag msg) w)
      on_bus i l =
          After-get_bus i (λ bus. message_tx_on_bus p i bus.eid eid to tag msg) w
            (λ bus at. message_tx_on_bus-Owes i bus.eid eid to tag msg k fr w l h)

  pub msg_dup-Owes :
      (msg : List ℕ) (k : ℕ) (fr : Frame) (w : World)
      → OwesWith k fr w
      → After (λ copy. OwesWith (one copy + k) fr) (msg_dup p msg w)
  unfolding msg_dup msg_alloc
  msg_dup-Owes msg k fr w h = elim (Option-cases (p.msg_alloc w.trace (length msg))) [
    | inl refused ↦ After-by (rw (msg_dup, msg_alloc, ◌>>=◌, refused)) none_given
    | inr (block, granted) ↦ After-by (rw (msg_dup, msg_alloc, ◌>>=◌, granted)) (given block)
  ]
    where
      none_given :
          After
            (λ copy. OwesWith (one copy + k) fr)
            (done none (record w { trace = alloc_failed (length msg) ∷ w.trace }))
      none_given = After-done none _ (h.0, omega (arith, h.1))

      given :
          (block : List ℕ)
          → After
              (λ copy. OwesWith (one copy + k) fr)
              (done
                (some (write_at block 0 msg))
                record w { trace = allocated (length msg) ∷ w.trace })
      given block = After-done _ _ (h.0, omega (arith, h.1))

  pub message_tx-Owes :
      (eid : ℕ) (to : Bool) (tag : ℕ) (msg : List ℕ) (k : ℕ) (fr : Frame) (w : World)
      → OwesWith k fr w
      → After (λ rc. OwesWith k fr) (message_tx p eid to tag msg w)
  unfolding message_tx
  message_tx-Owes eid to tag msg k fr w h =
      After-bind (msg_dup p msg) _ w (msg_dup-Owes msg k fr w h) copied
    where
      send : Option (List ℕ) → M Rc
      send copy = elim copy [
        | none ↦ pure enomem
        | some block ↦ message_tx_alloced p eid to tag block
      ]

      copied :
          (copy : Option (List ℕ)) (w' : World)
          → OwesWith (one copy + k) fr w'
          → After (λ rc. OwesWith k fr) (send copy w')
      copied none w' h' = After-done enomem w' (h'.0, omega (arith, h'.1))
      copied (some block) w' h' =
          message_tx_alloced-Owes eid to tag block k fr w' (h'.0, omega (arith, h'.1))
