-- ===== src/Core/Safety.antt =====
-- The invariant of an endpoint between two calls of the core, and how steps of `M` keep it.
pub mod Sends
pub mod Contexts
pub mod Whole
pub mod Receives
pub mod Address
pub mod Examples
mod Tests
use ps_libmctp_win.Prelude.{
  refl, ℕ, suc, ◌≤◌, ◌<◌, ◌≡◌, ◌⊎◌, Bool, true, false, none, some, Option, List, length, All,
  get_elem?, size_mod, set, subst, sym, ◌+◌, ◌∙◌, get_elem?-set_self, lt_length-get_elem?,
}
use ps_libmctp_win.Core.State.{
  Bus, MsgCtx, endpoint, Mctp, World, Outcome, done, M, ◌>>=◌, ◌>>◌, pure, bind-done, get_bus,
  get_bus-bind, ReqTag,
}
use ps_libmctp_win.Core.Transmit.Messages.{IsBus}
use ps_libmctp_win.Core.Transmit.Totality.{Moves}
use ps_libmctp_win.Core.Reassembly.Bounds.{IsHolding}

-- A context is free, or holds a block of its size.
abbrev pub IsCtxWith : Option (List ℕ) → MsgCtx → Type 0
IsCtxWith none c = Unit
IsCtxWith (some bytes) c = IsHolding c bytes

abbrev pub IsCtx : MsgCtx → Type 0
IsCtx c = IsCtxWith c.buf c

-- An endpoint whose first bus is linked to it, with no message or one that is partly sent, and whose
-- reassembly contexts hold what they say.
pub record IsEndpoint (m : Mctp) : Type 0 where
  pub bus : Bus
  pub bus_at : get_elem? m.busses 0 ≡ some bus
  pub is_bus : IsBus bus
  pub linked : bus.has_mctp ≡ true
  pub policy : m.route_policy ≡ endpoint
  pub ctxs : All IsCtx m.msg_ctxs
  pub max_small : m.max_message_size < size_mod
  pub types_small : length m.control.msg_types + 5 < size_mod

module _ {A : Type 0} where
  -- The outcome is a return, in a state that has a property.
  abbrev pub Returns : Outcome A → (A → World → Type 0) → Type 0
  Returns o post = (a : A) × (w' : World) × (o ≡ done a w') × post a w'

  abbrev pub Ensures : M A → World → (A → World → Type 0) → Type 0
  Ensures m w post = Returns (m w) post

  -- The step returns, and leaves an endpoint.
  abbrev pub Keeps : M A → World → Type 0
  Keeps m w = Returns (m w) (λ a w'. IsEndpoint w'.mctp)

  pub Returns-by :
      {o o' : Outcome A} {post : A → World → Type 0} → o ≡ o' → Returns o' post → Returns o post
  Returns-by e (a, w', run, h) = (a, w', e ∙ run, h)

  pub Returns-map :
      {o : Outcome A} {post post' : A → World → Type 0}
      → Returns o post
      → ((a : A) (w' : World) → post a w' → post' a w')
      → Returns o post'
  Returns-map (a, w', run, h) f = (a, w', run, f a w' h)

  pub get_bus-Keeps :
      (f : Bus → M A) (w : World) (v : IsEndpoint w.mctp)
      → Keeps (f v.bus) w
      → Keeps (get_bus 0 >>= f) w
  get_bus-Keeps f w v (a, w', run, h) = (a, w', get_bus-bind 0 f w v.bus_at ∙ run, h)

module _ {A B : Type 0} where
  pub Ensures-bind :
      (m : M A) (f : A → M B) (w : World) {mid : A → World → Type 0} {post : B → World → Type 0}
      → Ensures m w mid
      → ((a : A) (w' : World) → mid a w' → Ensures (f a) w' post)
      → Ensures (m >>= f) w post
  Ensures-bind m f w (a, w', e, h) next =
      let n = next a w' h in (n.0, n.1, bind-done m f w e ∙ n.2, n.3)

pub with_ctxs :
    (m : Mctp) (cs : List MsgCtx)
    → IsEndpoint m
    → All IsCtx cs
    → IsEndpoint (record m { msg_ctxs = cs })
with_ctxs m cs v h = record {
  bus = v.bus;
  bus_at = v.bus_at;
  is_bus = v.is_bus;
  linked = v.linked;
  policy = v.policy;
  ctxs = h;
  max_small = v.max_small;
  types_small = v.types_small;
}

pub with_tags :
    (m : Mctp) (ts : List ReqTag) → IsEndpoint m → IsEndpoint (record m { req_tags = ts })
with_tags m ts v = record {
  bus = v.bus;
  bus_at = v.bus_at;
  is_bus = v.is_bus;
  linked = v.linked;
  policy = v.policy;
  ctxs = v.ctxs;
  max_small = v.max_small;
  types_small = v.types_small;
}

pub with_bus :
    (m : Mctp) (bus : Bus)
    → IsEndpoint m
    → IsBus bus
    → bus.has_mctp ≡ true
    → IsEndpoint (record m { busses = set m.busses 0 bus })
with_bus m bus v h l = record {
  bus = bus;
  bus_at = get_elem?-set_self m.busses 0 bus (lt_length-get_elem? m.busses 0 v.bus_at);
  is_bus = h;
  linked = l;
  policy = v.policy;
  ctxs = v.ctxs;
  max_small = v.max_small;
  types_small = v.types_small;
}

-- What changes nothing moves nothing.
pub stays : (w : World) (v : IsEndpoint w.mctp) → Moves 0 v.bus w w
stays w v = (v.bus, v.bus_at, v.is_bus, (refl, refl, refl, refl), refl)

-- What a transmission leaves is an endpoint.
pub Moves-IsEndpoint :
    (w w' : World) (v : IsEndpoint w.mctp) → Moves 0 v.bus w w' → IsEndpoint w'.mctp
Moves-IsEndpoint w w' v (bus', at, h, kept, e) = subst IsEndpoint (sym e) record {
  bus = bus';
  bus_at = at;
  is_bus = h;
  linked = kept.2 ∙ v.linked;
  policy = v.policy;
  ctxs = v.ctxs;
  max_small = v.max_small;
  types_small = v.types_small;
}
