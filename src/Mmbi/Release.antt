-- ===== src/Mmbi/Release.antt =====
-- The blocks that are still out when a context of src/mmbi.c has been destroyed.
use ps_libmctp_win.Prelude.{
  ℕ, ◌+◌, ◌≡◌, inl, inr, refl, ap, Bool, false, some, List, [], ◌∷◌, take, length, All, arith,
  Option-cases, not, ◌||◌, ◌==◌,
}
use ps_libmctp_win.Packet.{pktbuf_alloc}
use ps_libmctp_win.Core.State.{success, World, Trace, Platform, done, pure}
use ps_libmctp_win.Core.Setup.{setup, cleanup, unregister_bus}
use ps_libmctp_win.Core.Types.{add_type, has_type_from}
use ps_libmctp_win.Core.Blocks.{allocs, frees, bus_blocks, Settled, of_After}
use ps_libmctp_win.Core.Blocks.Neutral.{
  IsBalanced, IsNeutral-IsBalanced, pure-IsNeutral, bind-IsBalanced, if-IsBalanced, neutral_rules,
  balanced_rules,
}
use ps_libmctp_win.Core.Blocks.Receives.{bus_rx-IsBalanced}
use ps_libmctp_win.Core.Blocks.Calls.{message_tx-IsBalanced}
use ps_libmctp_win.Core.Blocks.Cleanup.{cleanup-blocks}
use ps_libmctp_win.Mmbi.{
  Mmbi, Device, ReadAnswer, bytes_read, read_error, broken_pipe, io_pending, no_data, other,
  mmbi_platform, mmbi_poll, receive_bytes, after_read_file, max_to_read, bytes_avail,
}
use ps_libmctp_win.Mmbi.Context.{Context, mmbi_send, context_poll, context_init, context_destroy}
use ps_libmctp_win.Mmbi.Context.Open.{OpensAt, made, ready, all_blocks, context_init-opens}
use ps_libmctp_win.Mmbi.Safety.{
  Call, send, poll, call, call_all, HasSize, GivesSize, call_all-Keeps, ready-IsEndpoint,
}

module _ (p : Platform) where
  receive_bytes-IsBalanced :
      (i : ℕ) (m : Mmbi) (granted : Bool) (bytes : List ℕ)
      → IsBalanced (receive_bytes p i m granted bytes)
  unfolding receive_bytes
  receive_bytes-IsBalanced i m granted bytes =
      elim (Option-cases (pktbuf_alloc m.binding (length bytes) granted)) [
        | inl refused ↦ rw (receive_bytes, refused) (search (balanced_rules, neutral_rules))
        | inr (pkt, got) ↦
            rw (receive_bytes, got) (search (balanced_rules, neutral_rules, bus_rx-IsBalanced))
      ]

  after_read_file-IsBalanced :
      (i : ℕ) (m : Mmbi) (granted : Bool) (answer : ReadAnswer)
      → IsBalanced (after_read_file p i m granted answer)
  unfolding after_read_file
  after_read_file-IsBalanced i m granted (bytes_read bytes) =
      search (balanced_rules, neutral_rules, receive_bytes-IsBalanced)
  after_read_file-IsBalanced i m granted (read_error broken_pipe) =
      IsNeutral-IsBalanced _ (pure-IsNeutral _)
  after_read_file-IsBalanced i m granted (read_error io_pending) =
      IsNeutral-IsBalanced _ (pure-IsNeutral _)
  after_read_file-IsBalanced i m granted (read_error no_data) =
      IsNeutral-IsBalanced _ (pure-IsNeutral _)
  after_read_file-IsBalanced i m granted (read_error other) =
      IsNeutral-IsBalanced _ (pure-IsNeutral _)

module _ (dev : Device) (ctx : Context) where
  call-IsBalanced : (c : Call) → IsBalanced (call dev ctx c)
  unfolding mmbi_send context_poll mmbi_poll
  call-IsBalanced (send dst msg) =
      message_tx-IsBalanced (mmbi_platform dev ctx.mmbi) dst false 0 msg
  call-IsBalanced poll = record {
    settle = λ n w o.
        (if-IsBalanced (not ctx.mmbi.has_device || bytes_avail (dev.peek w.trace) == 0)
            (pure success)
            (after_read_file (mmbi_platform dev ctx.mmbi) 0 ctx.mmbi (dev.alloc w.trace)
              (dev.read_file w.trace (max_to_read ctx.mmbi)))
            (search (balanced_rules, neutral_rules))
            (after_read_file-IsBalanced (mmbi_platform dev ctx.mmbi) 0 ctx.mmbi (dev.alloc w.trace)
              (dev.read_file w.trace (max_to_read ctx.mmbi)))).settle
          n w o;
  }

  call_all-IsBalanced : (cs : List Call) → IsBalanced (call_all dev ctx cs)
  unfolding call_all
  call_all-IsBalanced [] = search (balanced_rules, neutral_rules)
  call_all-IsBalanced (c ∷ cs) =
      bind-IsBalanced (call dev ctx c) (λ _. call_all dev ctx cs) (call-IsBalanced c)
        (λ rc. call_all-IsBalanced cs)

-- A context that has just been made holds no block.
ready-Settled :
    (dev : Device) (block : List ℕ) (eid : ℕ) (w : World)
    → frees w.trace ≡ allocs w.trace
    → Settled 1 (ready dev block eid w)
unfolding setup add_type has_type_from
ready-Settled dev block eid w e = (refl, omega (arith, e))

-- If all blocks of the context are allocated, one of the five attempts opens the device, with a
-- packet allocated then, the allocator's blocks have the size that was asked for, and as many message
-- blocks were released as allocated before: after `mctp_mmbi_context_init` and any sequence of
-- mctp_mmbi_send, with lengths that are a `size_t`, and mctp_mmbi_context_poll,
-- `mctp_mmbi_context_destroy` releases every block that the instance holds but the messages that its
-- bus still holds: exactly these are never released.
pub destroy_leaves :
    (dev : Device) (eid : ℕ) (w : World) (calls : List Call) {block : List ℕ}
    → OpensAt dev 0 5 block
    → GivesSize dev
    → frees w.trace ≡ allocs w.trace
    → All HasSize calls
    → (ctx : Context) × (w1 : World) × (w2 : World) × (w3 : World) × (tr : Trace) × (context_init
          dev
          (all_blocks dev)
          eid
          w
        ≡ done (some ctx) w1)
      × (call_all dev ctx calls w1 ≡ done tt w2)
      × (context_destroy (some ctx) w2 ≡ done tr w3)
      × (frees tr + bus_blocks (take 1 w2.mctp.busses) ≡ allocs tr)
unfolding context_destroy unregister_bus
destroy_leaves dev eid w calls {block} opens sized even smalls =
    let ctx = made dev block in
    let w1 = ready dev block eid w in
    let (u, w2, run, v) =
      call_all-Keeps dev ctx sized calls w1 (ready-IsEndpoint dev block eid w) (refl, omega arith)
        smalls in
    let o =
      of_After
        ((call_all-IsBalanced dev ctx calls).settle 1 w1 (ready-Settled dev block eid w even))
        run in
    let w3 = record w2 { mctp = record (w2.mctp) { n_busses = 0 } } in
    let c = cleanup-blocks w3 in
    (
      ctx,
      w1,
      w2,
      w3,
      cleanup w3,
      (context_init-opens dev eid w opens).0,
      run,
      refl,
      omega (arith, c.0, c.1, o.1, ap (λ n. bus_blocks (take n w2.mctp.busses)) o.0),
    )
