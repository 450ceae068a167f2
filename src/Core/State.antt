-- ===== src/Core/State.antt =====
-- The data of include/core-internal.h: `struct mctp` with its busses, reassembly contexts, request
-- tags and control types. A pointer that is only compared with NULL is a flag, and a buffer is the
-- list of the bytes that it holds.
use ps_libmctp_win.Prelude.{
  ℕ, Bool, true, false, Option, none, some, List, ◌∷◌, ◌≡◌, refl, if◌then◌else◌, get_elem?, set,
  length, write_at,
}
use ps_libmctp_win.Packet.{Binding, Pktbuf}

-- The `int` that a function returns: 0, a negated errno, -1, or another number.
pub data Rc : Type 0 where
  success : Rc
  minus_one einval ebusy enxio enomem enospc eio emsgsize epipe : Rc
  negative positive : ℕ → Rc

-- `rc < 0`
abbrev pub is_negative : Rc → Bool
is_negative success = false
is_negative (positive n) = false
is_negative _ = true

-- `enum mctp_bus_state`
pub data BusState : Type 0 where
  constructed tx_enabled tx_disabled : BusState

-- `struct mctp_bus`. `has_mctp` says that its `mctp` pointer is set. The binding that it points at
-- is kept inside: each binding of an instance belongs to one bus.
pub record Bus : Type 0 where
  pub eid : ℕ
  pub binding : Binding
  pub state : BusState
  pub has_mctp : Bool
  pub tx_msg : Option (List ℕ)
  pub tx_msgpos : ℕ
  pub tx_msglen : ℕ
  pub tx_pktlen : ℕ
  pub tx_seq : ℕ
  pub tx_src : ℕ
  pub tx_dest : ℕ
  pub tx_to : Bool
  pub tx_tag : ℕ

-- `struct mctp_msg_ctx`. `buf` is the whole block of `buf_alloc_size` bytes.
pub record MsgCtx : Type 0 where
  pub buf : Option (List ℕ)
  pub src : ℕ
  pub dest : ℕ
  pub tag : ℕ
  pub last_seq : ℕ
  pub buf_size : ℕ
  pub buf_alloc_size : ℕ
  pub fragment_size : ℕ

-- `struct mctp_req_tag`
pub record ReqTag : Type 0 where
  pub local : ℕ
  pub remote : ℕ
  pub tag : ℕ
  pub expiry : ℕ

-- `struct mctp_control`
pub record Control : Type 0 where
  pub msg_types : List ℕ
  pub num_msg_types : ℕ

pub data RoutePolicy : Type 0 where
  endpoint bridge : RoutePolicy

-- `struct mctp`. The callbacks' user pointers are not state of the model; `alloc_ctx` and the clock
-- stand in Core/Setup/Hooks.
pub record Mctp : Type 0 where
  pub n_busses : ℕ
  pub busses : List Bus
  pub has_message_rx : Bool
  pub has_capture : Bool
  pub msg_ctxs : List MsgCtx
  pub req_tags : List ReqTag
  pub tag_round_robin : ℕ
  pub route_policy : RoutePolicy
  pub max_message_size : ℕ
  pub control : Control

abbrev pub max_busses : ℕ
max_busses = 2

abbrev pub reassembly_ctxs : ℕ
reassembly_ctxs = 16

abbrev pub n_req_tags : ℕ
n_req_tags = 16

abbrev pub control_max_types : ℕ
control_max_types = 10

abbrev pub tag_timeout : ℕ
tag_timeout = 6000

-- The calls that leave the library, latest first in a trace: the allocation and release of message
-- blocks, the callbacks, and the binding's transmissions.
pub data Event : Type 0 where
  allocated alloc_failed : ℕ → Event
  freed : Event
  captured : Bool → Pktbuf → Event
  transmitted : ℕ → Pktbuf → Rc → Event
  started : ℕ → Rc → Event
  delivered control_delivered : ℕ → Bool → ℕ → List ℕ → Event

abbrev pub Trace : Type 0
Trace = List Event

-- What the library calls and does not define. Each answer may depend on all calls made before it;
-- no callback calls back into the instance.
pub record Platform : Type 0 where
  -- __mctp_msg_alloc: a block of the given size with arbitrary bytes, or NULL
  pub msg_alloc : Trace → ℕ → Option (List ℕ)
  -- the binding's `tx` and `start`, by the index of its bus; the flag says whether `start` calls
  -- mctp_binding_set_tx_enabled(binding, true)
  pub tx : Trace → ℕ → Pktbuf → Rc
  pub start : Trace → ℕ → Bool × Rc
  -- `platform_now`, in milliseconds
  pub now : Trace → ℕ

-- An instance with the calls that it has made.
pub record World : Type 0 where
  pub mctp : Mctp
  pub trace : Trace

-- What a call comes to: a result with the new state, a fault (a failed assertion or a read through
-- a NULL pointer), or a loop that has used up its fuel.
pub data Outcome (A : Type 0) : Type 0 where
  done : A → World → Outcome A
  fault : Outcome A
  spins : Outcome A

abbrev pub M : Type 0 → Type 0
M A = World → Outcome A

infixl 5 ◌>>=◌ ◌>>◌
abbrev pub ◌>>=◌ : {A B : Type 0} → M A → (A → M B) → M B
◌>>=◌ m f w = elim (m w) [ done a w' ↦ f a w' | fault ↦ fault | spins ↦ spins ]

abbrev pub ◌>>◌ : {A B : Type 0} → M A → M B → M B
m >> k = m >>= λ _. k

module _ {A : Type 0} where
  abbrev pub pure : A → M A
  pure a w = done a w

  abbrev pub gets : (Mctp → A) → M A
  gets f w = done (f w.mctp) w

  abbrev pub fail : M A
  fail w = fault

abbrev pub modify : (Mctp → Mctp) → M (Unit {0})
modify f w = done tt (record w { mctp = f w.mctp })

abbrev pub emit : Event → M (Unit {0})
emit e w = done tt (record w { trace = e ∷ w.trace })

abbrev pub get_trace : M Trace
get_trace w = done w.trace w

-- A pointer that must not be NULL, or an assertion.
abbrev pub require : Bool → M (Unit {0})
require true = pure tt
require false = fail

-- `&mctp->busses[i]`
abbrev pub get_bus : ℕ → M Bus
get_bus i w = elim (get_elem? w.mctp.busses i) [ none ↦ fault | some b ↦ done b w ]

abbrev pub put_bus : ℕ → Bus → M (Unit {0})
put_bus i b = modify (λ m. record m { busses = set m.busses i b })

-- `__mctp_msg_alloc`
unfoldable pub msg_alloc : Platform → ℕ → M (Option (List ℕ))
msg_alloc p n w = elim (p.msg_alloc w.trace n) [
  | none ↦ done none (record w { trace = alloc_failed n ∷ w.trace })
  | some block ↦ done (some block) (record w { trace = allocated n ∷ w.trace })
]

-- `mctp_msg_dup`
unfoldable pub msg_dup : Platform → List ℕ → M (Option (List ℕ))
unfolding msg_alloc
msg_dup p msg = do
  copy ← msg_alloc p (length msg)
  elim copy [ none ↦ pure none | some block ↦ pure (some (write_at block 0 msg)) ]

-- The answers of the allocator have the size that was asked for.
abbrev pub AllocatesSize : Platform → Type 0
AllocatesSize p =
    (tr : Trace) (n : ℕ) (block : List ℕ) → p.msg_alloc tr n ≡ some block → length block ≡ n

-- Reading a bus that is there.
pub get_bus-bind :
    {A : Type 0} (i : ℕ) (f : Bus → M A) (w : World) {bus : Bus}
    → get_elem? w.mctp.busses i ≡ some bus
    → (get_bus i >>= f) w ≡ f bus w
get_bus-bind i f w e = rw (e, ◌>>=◌, get_bus)

-- An event that a flag decides on.
pub emit_if-bind :
    {A : Type 0} (b : Bool) (e : Event) (f : Unit {0} → M A) (w : World)
    → ((if b then emit e else pure tt) >>= f) w
      ≡ f tt (record w { trace = if b then e ∷ w.trace else w.trace })
emit_if-bind true e f w = refl
emit_if-bind false e f w = refl

-- Going on from a step that is done.
pub bind-done :
    {A B : Type 0} (m : M A) (f : A → M B) (w : World) {a : A} {w' : World}
    → m w ≡ done a w'
    → (m >>= f) w ≡ f a w'
bind-done m f w e = rw (e, ◌>>=◌)

-- Going on from a condition that holds.
pub require-bind :
    {A : Type 0} (b : Bool) (f : Unit {0} → M A) (w : World)
    → b ≡ true
    → (require b >>= f) w ≡ f tt w
require-bind b f w e = rw (e, ◌>>=◌)
