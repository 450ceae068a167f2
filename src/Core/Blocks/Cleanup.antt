-- ===== src/Core/Blocks/Cleanup.antt =====
-- The blocks that mctp_cleanup releases.
use ps_libmctp_win.Prelude.{
  ℕ, zero, suc, ◌+◌, ◌≡◌, ◌∙◌, refl, Option, none, some, List, [], ◌∷◌, take, get_elem?, arith,
  is_some, if◌then◌else◌,
}
use ps_libmctp_win.Core.State.{freed, MsgCtx, Bus, World, Trace}
use ps_libmctp_win.Core.Setup.{free_ctxs, free_tx_msg, free_busses, cleanup}
use ps_libmctp_win.Core.Blocks.{allocs, frees, one, ctx_blocks, bus_blocks, held}

free_ctxs-blocks :
    (cs : List MsgCtx) (tr : Trace)
    → (frees (free_ctxs cs tr) ≡ frees tr + ctx_blocks cs) × (allocs (free_ctxs cs tr) ≡ allocs tr)
unfolding free_ctxs
free_ctxs-blocks [] tr = (omega arith, refl)
free_ctxs-blocks (c ∷ cs) tr =
    let rest = free_ctxs-blocks cs (if is_some c.buf then freed ∷ tr else tr) in
    let first = ctx_free c.buf in (omega (arith, rest.0, first.0), rest.1 ∙ first.1)
  where
    ctx_free :
        (o : Option (List ℕ))
        → (frees (if is_some o then freed ∷ tr else tr) ≡ frees tr + one o)
          × (allocs (if is_some o then freed ∷ tr else tr) ≡ allocs tr)
    ctx_free none = (omega arith, refl)
    ctx_free (some block) = (omega arith, refl)

abbrev one_at : Option Bus → ℕ
one_at none = 0
one_at (some b) = one b.tx_msg

bus_blocks-take :
    (n : ℕ) (bs : List Bus)
    → bus_blocks (take (suc n) bs) ≡ bus_blocks (take n bs) + one_at (get_elem? bs n)
bus_blocks-take zero [] = omega arith
bus_blocks-take (suc n) [] = omega arith
bus_blocks-take zero (b ∷ bs) = omega arith
bus_blocks-take (suc n) (b ∷ bs) = omega (arith, bus_blocks-take n bs)

free_tx_msg-blocks :
    (b : Option Bus) (tr : Trace)
    → (frees (free_tx_msg b tr) ≡ frees tr + one_at b) × (allocs (free_tx_msg b tr) ≡ allocs tr)
free_tx_msg-blocks none tr = (omega arith, refl)
free_tx_msg-blocks (some b) tr = ground arith

free_busses-blocks :
    (n : ℕ) (bs : List Bus) (tr : Trace)
    → (frees (free_busses n bs tr) ≡ frees tr + bus_blocks (take n bs))
      × (allocs (free_busses n bs tr) ≡ allocs tr)
unfolding free_busses
free_busses-blocks zero bs tr = (omega arith, refl)
free_busses-blocks (suc n) bs tr =
    let rest = free_busses-blocks n bs (free_tx_msg (get_elem? bs n) tr) in
    let first = free_tx_msg-blocks (get_elem? bs n) tr in
    (omega (arith, rest.0, first.0, bus_blocks-take n bs), rest.1 ∙ first.1)

-- `mctp_cleanup` releases all that the instance holds.
pub cleanup-blocks :
    (w : World)
    → (frees (cleanup w) ≡ frees w.trace + held w.mctp) × (allocs (cleanup w) ≡ allocs w.trace)
unfolding cleanup
cleanup-blocks w =
    let ctxs = free_ctxs-blocks w.mctp.msg_ctxs w.trace in
    let busses =
      free_busses-blocks w.mctp.n_busses w.mctp.busses (free_ctxs w.mctp.msg_ctxs w.trace) in
    (omega (arith, ctxs.0, busses.0), busses.1 ∙ ctxs.1)
