-- ===== src/Mmbi/Context/Open.antt =====
-- `mctp_mmbi_context_init`: it opens the device, or gives up after five attempts.
use ps_libmctp_win.Prelude.{
  ℕ, zero, suc, ◌+◌, ◌≤◌, ◌<◌, ◌≡◌, ◌⊎◌, inl, inr, ◌∙◌, ap, refl, Bool, true, false, none, some,
  List, length, arith, get_elem?, replicate,
}
use ps_libmctp_win.Core.State.{
  Bus, World, Platform, tx_enabled, endpoint, done, bind-done, get_bus-bind, reassembly_ctxs,
}
use ps_libmctp_win.Core.Transmit.{packet_size, set_tx_enabled, set_tx_enabled_from}
use ps_libmctp_win.Core.Transmit.Messages.{CanSend}
use ps_libmctp_win.Core.Setup.{setup, mctp_init, zero_ctx, register_bus, set_rx_all}
use ps_libmctp_win.Core.Setup.Start.{
  registered, registered_bus, register_bus-done, registered_bus-CanSend,
}
use ps_libmctp_win.Mmbi.{
  Mmbi, Device, mmbi_init, fresh_mmbi, set_storage, init_device, mmbi_platform, max_payload,
}
use ps_libmctp_win.Mmbi.Context.{Context, Blocks, open_loop, attach, open_context, context_init}

-- The binding with a device and a packet to lend.
abbrev pub opened : List ℕ → Mmbi → Mmbi
opened block m = record m {
  binding = record m.binding { has_start = true; has_tx_storage = true; tx_storage = block };
  has_device = true;
}

module _ (dev : Device) where
  -- The first attempt that opens the device, from `a` on and before `b`, and the packet allocated then.
  pub record OpensAt (a b : ℕ) (block : List ℕ) : Type 0 where
    pub attempt : ℕ
    pub from : a ≤ attempt
    pub before : attempt < b
    pub opens : dev.open_device attempt ≡ true
    pub stored : dev.storage attempt ≡ some block
    pub first : (j : ℕ) → a ≤ j → j < attempt → dev.open_device j ≡ false

  open_loop-opens :
      (left a : ℕ) (m : Mmbi) {block : List ℕ}
      → OpensAt a (a + left) block
      → open_loop dev left a m ≡ opened block m
  unfolding open_loop init_device set_storage
  open_loop-opens zero a m o = absurd (omega (arith, o.from, o.before))
  open_loop-opens (suc left) a m {block} o = elim (le_cases o.from) [
    | inl now ↦ rw (open_loop, ap dev.open_device now ∙ o.opens, ap dev.storage now ∙ o.stored)
    | inr later ↦
        rw (open_loop, o.first a (omega arith) later)
          (open_loop-opens left (a + 1) m record {
            attempt = o.attempt;
            from = omega (arith, later);
            before = omega (arith, o.before);
            opens = o.opens;
            stored = o.stored;
            first = λ j l u. o.first j (omega arith) u;
          })
  ]
    where
      le_cases : a ≤ o.attempt → (a ≡ o.attempt) ⊎ (a < o.attempt)
      le_cases h = ground arith

  open_loop-fails :
      (left a : ℕ) (m : Mmbi)
      → ((j : ℕ) → a ≤ j → j < a + left → dev.open_device j ≡ false)
      → open_loop dev left a m ≡ m
  unfolding open_loop init_device
  open_loop-fails zero a m none_opens = refl
  open_loop-fails (suc left) a m none_opens =
      rw (open_loop, init_device, none_opens a (omega arith) (omega arith))
        (open_loop-fails left (a + 1) m (λ j l u. none_opens j (omega arith) (omega arith)))

  -- The blocks of the context, the instance and the binding are all allocated.
  abbrev pub all_blocks : Blocks
  all_blocks = record { context = true; mctp = true; mmbi = true }

  -- The context and the instance that the initialisation leaves.
  abbrev pub made : List ℕ → Context
  made block = record { mmbi = opened block fresh_mmbi; has_rx_cb = false; debug = false }

  abbrev pub own_bus : List ℕ → ℕ → Bus
  own_bus block eid = registered_bus (opened block fresh_mmbi).binding eid

  abbrev pub ready : List ℕ → ℕ → World → World
  ready block eid w =
      let w1 = registered (opened block fresh_mmbi).binding eid (record w { mctp = setup }) in
      record w1 { mctp = record (w1.mctp) { has_message_rx = true } }

  pub set_tx_enabled-on :
      (p : Platform) (i : ℕ) (w : World) (bus : Bus)
      → get_elem? w.mctp.busses i ≡ some bus
      → bus.state ≡ tx_enabled
      → set_tx_enabled p i true w ≡ done tt w
  unfolding set_tx_enabled set_tx_enabled_from
  set_tx_enabled-on p i w bus at on = get_bus-bind i _ w at ∙ rw on

  attach-done :
      (eid : ℕ) (w : World) (block : List ℕ)
      → (attach dev (opened block fresh_mmbi) eid (record w { mctp = setup })
          ≡ done (some (made block)) (ready block eid w))
        × (get_elem? (ready block eid w).mctp.busses 0 ≡ some (own_bus block eid))
  unfolding attach set_rx_all setup
  attach-done eid w block =
      let p = mmbi_platform dev (opened block fresh_mmbi) in
      let w0 = record w { mctp = setup } in
      let b = (opened block fresh_mmbi).binding in
      let r = register_bus-done p b eid w0 refl (omega arith) refl refl refl (omega arith) in
      (
        bind-done (register_bus p b eid) _ w0 r.0
            ∙ bind-done (set_tx_enabled p 0 true) _ (registered b eid w0)
                (set_tx_enabled-on p 0 (registered b eid w0) (own_bus block eid) r.1 refl),
        r.1,
      )

  -- The context is made, with bus 0 on the device.
  pub context_init-opens :
      (eid : ℕ) (w : World) {block : List ℕ}
      → OpensAt 0 5 block
      → (context_init dev all_blocks eid w ≡ done (some (made block)) (ready block eid w))
        × (get_elem? (ready block eid w).mctp.busses 0 ≡ some (own_bus block eid))
  unfolding context_init open_context mctp_init mmbi_init
  context_init-opens eid w {block} o =
      let a = attach-done eid w block in (rw (open_loop-opens 5 0 fresh_mmbi o) a.0, a.1)

  -- If all blocks are allocated, one of the five attempts opens the device, and the packet that is
  -- allocated then has room for 65540 bytes, `mctp_mmbi_context_init` returns a context over the
  -- device. Its instance is an endpoint with the given address and one bus, which is linked to it,
  -- started and idle with room for a packet, with the context's handler set and all reassembly
  -- contexts free.
  pub context_init_lem :
      (eid : ℕ) (w : World) {block : List ℕ}
      → OpensAt 0 5 block
      → packet_size max_payload ≤ length block
      → (ctx : Context) × (w' : World) × (bus : Bus) × (context_init dev all_blocks eid w
          ≡ done (some ctx) w')
        × (ctx.mmbi.has_device ≡ true)
        × (get_elem? w'.mctp.busses 0 ≡ some bus)
        × CanSend bus
        × (bus.eid ≡ eid)
        × (bus.has_mctp ≡ true)
        × (w'.mctp.n_busses ≡ 1)
        × (w'.mctp.route_policy ≡ endpoint)
        × (w'.mctp.has_message_rx ≡ true)
        × (w'.mctp.msg_ctxs ≡ replicate reassembly_ctxs zero_ctx)
  unfolding setup
  context_init_lem eid w {block} o room =
      let c = context_init-opens eid w o in
      (
        made block,
        ready block eid w,
        own_bus block eid,
        c.0,
        refl,
        c.1,
        registered_bus-CanSend (opened block fresh_mmbi).binding eid (omega arith) room
            (omega arith),
        refl,
        refl,
        refl,
        refl,
        refl,
        refl,
      )

  -- If none of the five attempts opens the device, `mctp_mmbi_context_init` returns NULL.
  pub context_init_fails :
      (eid : ℕ) (blocks : Blocks) (w : World)
      → ((j : ℕ) → j < 5 → dev.open_device j ≡ false)
      → (w' : World) × (context_init dev blocks eid w ≡ done none w')
  unfolding context_init open_context mctp_init mmbi_init
  context_init_fails eid blocks w fails = go blocks.context blocks.mctp blocks.mmbi
    where
      go :
          (a b c : Bool)
          → (w' : World) × (context_init dev record { context = a; mctp = b; mmbi = c } eid w
              ≡ done none w')
      go false b c = (w, refl)
      go true false c = (w, refl)
      go true true false = (record w { mctp = setup }, refl)
      go true true true =
          (record w { mctp = setup }, rw (open_loop-fails 5 0 fresh_mmbi (λ j l u. fails j u)))
