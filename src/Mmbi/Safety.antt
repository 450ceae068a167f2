-- ===== src/Mmbi/Safety.antt =====
-- Sequences of calls on a context of src/mmbi.c.
use ps_libmctp_win.Prelude.{
  ℕ, zero, suc, ◌≤◌, ◌<◌, ◌≡◌, ◌⊎◌, inl, inr, ◌==◌, ◌∙◌, refl, Bool, true, false, none, some, List,
  [], ◌∷◌, length, All, size_mod, arith, replicate, Bool-cases, ltb, not, ◌||◌, length-write_at,
  length-replicate,
}
use ps_libmctp_win.Packet.{Binding, pktbuf_alloc, pktbuf_init, storage_size}
use ps_libmctp_win.Core.State.{
  Rc, success, enomem, epipe, World, Platform, AllocatesSize, done, M, ◌>>=◌, ◌>>◌, pure, get_trace,
  Trace, reassembly_ctxs,
}
use ps_libmctp_win.Core.Receive.{bus_rx}
use ps_libmctp_win.Core.Setup.{setup, zero_ctx}
use ps_libmctp_win.Core.Types.{add_type, has_type_from}
use ps_libmctp_win.Core.Safety.{IsCtx, IsEndpoint, Keeps, Returns-by, Ensures-bind}
use ps_libmctp_win.Core.Safety.Sends.{message_tx-Keeps}
use ps_libmctp_win.Core.Safety.Receives.{IsBuf, bus_rx-Keeps}
use ps_libmctp_win.Mmbi.{
  Mmbi, Device, ReadAnswer, bytes_read, read_error, broken_pipe, io_pending, no_data, other,
  bytes_avail, max_to_read, mmbi_platform, mmbi_poll, receive_bytes, after_read_file,
}
use ps_libmctp_win.Mmbi.Wire.{arrived}
use ps_libmctp_win.Mmbi.Context.{Context, mmbi_send, context_poll, context_init}
use ps_libmctp_win.Mmbi.Context.Open.{OpensAt, made, ready, own_bus, all_blocks, context_init-opens}

-- A call on a context.
pub data Call : Type 0 where
  send : ℕ → List ℕ → Call
  poll : Call

abbrev pub call : Device → Context → Call → M Rc
call dev ctx (send dst msg) = mmbi_send dev (some ctx) dst msg
call dev ctx poll = context_poll dev (some ctx)

-- The calls one after another; their results are not looked at.
unfoldable pub call_all : Device → Context → List Call → M (Unit {0})
call_all dev ctx [] = pure tt
call_all dev ctx (c ∷ cs) = call dev ctx c >> call_all dev ctx cs

abbrev pub HasSize : Call → Type 0
HasSize (send dst msg) = length msg < size_mod
HasSize poll = Unit

-- A packet of the binding has room for its bytes from the start of its storage on.
abbrev pub IsPlainBinding : Binding → Type 0
IsPlainBinding b = (b.pkt_header ≡ 0) × (storage_size b < size_mod)

module _ (p : Platform) (sized : AllocatesSize p) where
  arrived-IsBuf :
      (b : Binding) (bytes : List ℕ)
      → IsPlainBinding b
      → length bytes ≤ storage_size b
      → IsBuf (arrived b bytes)
  arrived-IsBuf b bytes plain fits = record {
    at_start = refl;
    ordered = omega arith;
    stored = omega (arith, stored, fits, plain.0);
    small = omega (arith, stored);
  }
    where
      stored : length (arrived b bytes).bytes ≡ storage_size b
      stored =
          length-write_at (replicate (storage_size b) 0) b.pkt_header bytes
          ∙ length-replicate (storage_size b) 0

  pktbuf_alloc-cases :
      (b : Binding) (bytes : List ℕ) (granted : Bool)
      → IsPlainBinding b
      → (pktbuf_alloc b (length bytes) granted ≡ none)
        ⊎ (length bytes ≤ storage_size b)
          × (pktbuf_alloc b (length bytes) granted
              ≡ some (record (arrived b bytes) { bytes = replicate (storage_size b) 0 }))
  unfolding pktbuf_alloc pktbuf_init
  pktbuf_alloc-cases b bytes false plain = inl (ground arith)
  pktbuf_alloc-cases b bytes true plain = ground (arith, plain.0, plain.1)

  receive_bytes-Keeps :
      (m : Mmbi) (granted : Bool) (bytes : List ℕ) (w : World)
      → IsEndpoint w.mctp
      → IsPlainBinding m.binding
      → Keeps (receive_bytes p 0 m granted bytes) w
  unfolding receive_bytes
  receive_bytes-Keeps m granted bytes w v plain =
      elim (pktbuf_alloc-cases m.binding bytes granted plain) [
        | inl refused ↦ (enomem, w, rw (receive_bytes, refused), v)
        | inr (fits, made_pkt) ↦ Returns-by (rw (receive_bytes, made_pkt)) (
            Ensures-bind (bus_rx p 0 (arrived m.binding bytes)) (λ _. pure success) w
              (bus_rx-Keeps p sized (arrived m.binding bytes) w v
                (arrived-IsBuf m.binding bytes plain fits))
              (λ u w' h. (success, w', refl, h)))
      ]

  after_read_file-Keeps :
      (m : Mmbi) (granted : Bool) (answer : ReadAnswer) (w : World)
      → IsEndpoint w.mctp
      → IsPlainBinding m.binding
      → Keeps (after_read_file p 0 m granted answer) w
  unfolding after_read_file
  after_read_file-Keeps m granted (bytes_read bytes) w v plain =
      elim (Bool-cases (ltb 0 (length bytes))) [
        | inl some_read ↦
            Returns-by (rw (after_read_file, some_read))
              (receive_bytes-Keeps m granted bytes w v plain)
        | inr empty ↦ (success, w, rw (after_read_file, empty), v)
      ]
  after_read_file-Keeps m granted (read_error broken_pipe) w v plain = (epipe, w, refl, v)
  after_read_file-Keeps m granted (read_error io_pending) w v plain = (success, w, refl, v)
  after_read_file-Keeps m granted (read_error no_data) w v plain = (success, w, refl, v)
  after_read_file-Keeps m granted (read_error other) w v plain = (success, w, refl, v)

module _ (dev : Device) (ctx : Context) (sized : AllocatesSize (mmbi_platform dev ctx.mmbi)) where
  mmbi_poll-Keeps :
      (w : World)
      → IsEndpoint w.mctp
      → IsPlainBinding ctx.mmbi.binding
      → Keeps (context_poll dev (some ctx)) w
  unfolding context_poll mmbi_poll
  mmbi_poll-Keeps w v plain =
      elim (Bool-cases (not ctx.mmbi.has_device || bytes_avail (dev.peek w.trace) == 0)) [
        | inl quiet ↦ (success, w, rw (context_poll, mmbi_poll, ◌>>=◌, get_trace, quiet), v)
        | inr ready_ ↦ Returns-by (rw (context_poll, mmbi_poll, ◌>>=◌, get_trace, ready_)) (
            after_read_file-Keeps (mmbi_platform dev ctx.mmbi) sized ctx.mmbi (dev.alloc w.trace)
              (dev.read_file w.trace (max_to_read ctx.mmbi)) w v plain)
      ]

  call-Keeps :
      (c : Call) (w : World)
      → IsEndpoint w.mctp
      → IsPlainBinding ctx.mmbi.binding
      → HasSize c
      → Keeps (call dev ctx c) w
  unfolding mmbi_send
  call-Keeps (send dst msg) w v plain small =
      message_tx-Keeps (mmbi_platform dev ctx.mmbi) sized dst false 0 msg w v small
  call-Keeps poll w v plain small = mmbi_poll-Keeps w v plain

  pub call_all-Keeps :
      (cs : List Call) (w : World)
      → IsEndpoint w.mctp
      → IsPlainBinding ctx.mmbi.binding
      → All HasSize cs
      → Keeps (call_all dev ctx cs) w
  unfolding call_all
  call_all-Keeps [] w v plain smalls = (tt, w, refl, v)
  call_all-Keeps (c ∷ cs) w v plain (small, smalls) =
      Ensures-bind (call dev ctx c) (λ _. call_all dev ctx cs) w (call-Keeps c w v plain small)
        (λ rc w' v'. call_all-Keeps cs w' v' plain smalls)

All-free : (n : ℕ) → All IsCtx (replicate n zero_ctx)
All-free zero = tt
All-free (suc n) = (tt, All-free n)

-- What `mctp_mmbi_context_init` leaves is an endpoint.
pub ready-IsEndpoint :
    (dev : Device) (block : List ℕ) (eid : ℕ) (w : World) → IsEndpoint (ready dev block eid w).mctp
unfolding setup add_type has_type_from
ready-IsEndpoint dev block eid w = record {
  bus = own_bus dev block eid;
  bus_at = refl;
  is_bus = record { ready = tt; mtu_ok = inr (omega arith); mtu_small = omega arith };
  linked = refl;
  policy = refl;
  ctxs = All-free reassembly_ctxs;
  max_small = omega arith;
  types_small = omega arith;
}

-- The allocator's blocks have the size that was asked for.
abbrev pub GivesSize : Device → Type 0
GivesSize dev =
    (tr : Trace) (n : ℕ) (block : List ℕ) → dev.msg_alloc tr n ≡ some block → length block ≡ n

-- If all blocks of the context are allocated and one of the five attempts opens the device, with a
-- packet allocated then, and the allocator's blocks have the size that was asked for:
-- `mctp_mmbi_context_init` returns a context, and any sequence of mctp_mmbi_send, with lengths that
-- are a `size_t`, and mctp_mmbi_context_poll on it runs to its end, whatever the device answers and
-- whatever bytes it reads: no assertion fails, no NULL pointer is read and every loop ends. The
-- instance is still an endpoint then.
pub context_calls_safe :
    (dev : Device) (eid : ℕ) (w : World) (calls : List Call) {block : List ℕ}
    → OpensAt dev 0 5 block
    → GivesSize dev
    → All HasSize calls
    → (ctx : Context) × (w1 : World) × (w2 : World) × (context_init dev (all_blocks dev) eid w
        ≡ done (some ctx) w1)
      × (call_all dev ctx calls w1 ≡ done tt w2)
      × IsEndpoint w2.mctp
context_calls_safe dev eid w calls {block} opens sized smalls =
    let i = context_init-opens dev eid w opens in
    let r =
      call_all-Keeps dev (made dev block) sized calls (ready dev block eid w)
        (ready-IsEndpoint dev block eid w) (refl, omega arith) smalls in
    (made dev block, ready dev block eid w, r.1, i.0, r.2, r.3)
