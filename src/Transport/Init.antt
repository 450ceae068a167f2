-- ===== src/Transport/Init.antt =====
-- `mctp_transport_init` beside the initialisation of a context in src/mmbi.c.
use ps_libmctp_win.Prelude.{
  ℕ, Bool, none, inl, inr, ◌⊎◌, ◌&&◌, is_some, get_elem?, Bool-cases, Option-cases, ◌≡◌, ◌∙◌, refl,
  true, false, some, List, arith,
}
use ps_libmctp_win.Core.State.{Bus, tx_enabled, World, done, success, bind-done}
use ps_libmctp_win.Core.Transmit.{set_tx_enabled}
use ps_libmctp_win.Core.Setup.{setup, mctp_init, register_bus, set_rx_all}
use ps_libmctp_win.Core.Setup.Start.{registered, register_bus-done}
use ps_libmctp_win.Mmbi.{Device, mmbi_init, fresh_mmbi, init_device, set_storage, mmbi_platform}
use ps_libmctp_win.Mmbi.Context.{Blocks, Context, context_init}
use ps_libmctp_win.Mmbi.Context.Open.{
  opened, made, ready, own_bus, all_blocks, context_init-opens, set_tx_enabled-on,
}
use ps_libmctp_win.Transport.{Transport, link, open_transport, transport_init}

module _ (dev : Device) where
  abbrev linked : List ℕ → Transport
  linked block = record { mmbi = opened block fresh_mmbi; has_rx_cb = false }

  link-done :
      (eid : ℕ) (w : World) (block : List ℕ)
      → link dev (success, opened block fresh_mmbi) eid (record w { mctp = setup })
        ≡ done (some (linked block)) (ready dev block eid w)
  unfolding link set_rx_all setup
  link-done eid w block =
      let p = mmbi_platform dev (opened block fresh_mmbi) in
      let w0 = record w { mctp = setup } in
      let b = (opened block fresh_mmbi).binding in
      let r = register_bus-done p b eid w0 refl (omega arith) refl refl refl (omega arith) in
      bind-done (register_bus p b eid) _ w0 r.0
      ∙ bind-done (set_tx_enabled p 0 true) _ (registered b eid w0)
          (set_tx_enabled-on dev p 0 (registered b eid w0) (own_bus dev block eid) r.1 refl)

  transport_init-opens :
      (eid : ℕ) (w : World) {block : List ℕ}
      → dev.open_device 0 ≡ true
      → dev.storage 0 ≡ some block
      → transport_init dev (all_blocks dev) eid w
        ≡ done (some (linked block)) (ready dev block eid w)
  unfolding transport_init open_transport mctp_init mmbi_init init_device set_storage
  transport_init-opens eid w {block} opens stored = rw (opens, stored) (link-done eid w block)

  -- All blocks are allocated, and the first attempt opens the device and gets its packet.
  abbrev pub can_open : Blocks → Bool
  can_open blocks =
      blocks.context
      && (blocks.mctp && (blocks.mmbi && (dev.open_device 0 && is_some (dev.storage 0))))

  -- What both initialisations leave: a transport and a context over the same binding, on the same
  -- instance.
  abbrev pub OpensBoth : Blocks → ℕ → World → Type 0
  OpensBoth blocks eid w =
      (t : Transport) × (c : Context) × (w' : World) × (bus : Bus) × (transport_init dev blocks eid
          w
        ≡ done (some t) w')
      × (context_init dev blocks eid w ≡ done (some c) w')
      × (t.mmbi ≡ c.mmbi)
      × (t.has_rx_cb ≡ false)
      × (get_elem? w'.mctp.busses 0 ≡ some bus)
      × (bus.eid ≡ eid)
      × (bus.state ≡ tx_enabled)
      × (w'.mctp.n_busses ≡ 1)
      × (w'.mctp.has_message_rx ≡ true)

  opens_both :
      (eid : ℕ) (w : World) {block : List ℕ}
      → dev.open_device 0 ≡ true
      → dev.storage 0 ≡ some block
      → OpensBoth (all_blocks dev) eid w
  opens_both eid w {block} opens stored =
      let c = context_init-opens dev eid w record {
        attempt = 0;
        from = omega arith;
        before = omega arith;
        opens = opens;
        stored = stored;
        first = λ j l u. absurd (omega arith);
      } in
      (
        linked block,
        made dev block,
        ready dev block eid w,
        own_bus dev block eid,
        transport_init-opens eid w opens stored,
        c.0,
        refl,
        refl,
        c.1,
        refl,
        refl,
        refl,
        refl,
      )

  -- `mctp_transport_init` returns NULL if a block is not allocated, or the first attempt does not
  -- open the device or gets no packet for it. Otherwise it returns a transport without a callback,
  -- over the same binding and on the same instance as the context that `mctp_mmbi_context_init`
  -- returns: its one bus has the given address and is started, and the handler is set.
  pub transport_init_lem :
      (blocks : Blocks) (eid : ℕ) (w : World)
      → (can_open blocks ≡ false)
          × ((w' : World) × (transport_init dev blocks eid w ≡ done none w'))
        ⊎ (can_open blocks ≡ true) × OpensBoth blocks eid w
  unfolding transport_init open_transport mctp_init mmbi_init init_device set_storage link
  transport_init_lem blocks eid w = go blocks.context blocks.mctp blocks.mmbi
    where
      go :
          (a b c : Bool)
          → let some_blocks : Blocks = record { context = a; mctp = b; mmbi = c } in
            (can_open some_blocks ≡ false)
              × ((w' : World) × (transport_init dev some_blocks eid w ≡ done none w'))
            ⊎ (can_open some_blocks ≡ true) × OpensBoth some_blocks eid w
      go false b c = inl (refl, (w, refl))
      go true false c = inl (refl, (w, refl))
      go true true false = inl (refl, (record w { mctp = setup }, refl))
      go true true true = elim (Bool-cases (dev.open_device 0)) [
        | inr shut ↦ inl (rw shut, (record w { mctp = setup }, rw shut))
        | inl opens ↦ elim (Option-cases (dev.storage 0)) [
          | inl missing ↦
              inl (rw (opens, missing), (record w { mctp = setup }, rw (opens, missing)))
          | inr (block, stored) ↦ inr (rw (opens, stored), opens_both eid w opens stored)
        ]
      ]
