-- ===== src/Core/Safety/Examples.antt =====
-- The endpoint of the tests is one.
use ps_libmctp_win.Prelude.{
  ℕ, zero, suc, All, ◌≤◌, ◌≡◌, refl, inr, none, some, List, length, length-replicate, sym, ap,
  arith, ◌∙◌, replicate,
}
use ps_libmctp_win.Core.State.{AllocatesSize}
use ps_libmctp_win.Core.Examples.{platform, world, bus, packet, free_ctx}
use ps_libmctp_win.Core.Safety.{IsCtx, IsEndpoint}
use ps_libmctp_win.Core.Safety.Receives.{IsBuf}

pub platform-AllocatesSize : AllocatesSize platform
platform-AllocatesSize tr n block e =
    sym (ap (λ o. elim o [ none ↦ 0 | some b ↦ length b ]) e) ∙ length-replicate n 0

All-free : (n : ℕ) → All IsCtx (replicate n free_ctx)
All-free zero = tt
All-free (suc n) = (tt, All-free n)

pub world-IsEndpoint : IsEndpoint world.mctp
world-IsEndpoint = record {
  bus = bus;
  bus_at = refl;
  is_bus = record { ready = tt; mtu_ok = inr (omega arith); mtu_small = omega arith };
  linked = refl;
  policy = refl;
  ctxs = All-free 16;
  max_small = omega arith;
  types_small = omega arith;
}

pub packet-IsBuf :
    (bytes : List ℕ) (end_ : ℕ) → length bytes ≡ 16 → end_ ≤ 16 → IsBuf (packet bytes end_)
packet-IsBuf bytes end_ e h = record {
  at_start = refl;
  ordered = omega arith;
  stored = omega (arith, e, h);
  small = omega (arith, e);
}
