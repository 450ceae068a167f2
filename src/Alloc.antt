-- ===== src/Alloc.antt =====
-- The allocator's functions: src/alloc.c with the default allocator, as CMakeLists.txt builds it,
-- and the releases in src/core.c, mctp_pktbuf_free and mctp_destroy.
mod Tests
use ps_libmctp_win.Prelude.{ℕ, Option, none, some, if◌then◌else◌}
use ps_libmctp_win.Packet.{Pktbuf}
use ps_libmctp_win.Core.State.{World, Trace}
use ps_libmctp_win.Core.Setup.{cleanup}

-- `m_msg_alloc`: NULL, the default function, or one that the application has set, which gets the
-- instance's `alloc_ctx` too. A pointer is an address, and `none` is NULL.
pub data MsgAlloc (Heap : Type 0) : Type 0 where
  no_msg_alloc default_msg_malloc : MsgAlloc Heap
  set_msg_alloc : (ℕ → ℕ → Heap → Option ℕ × Heap) → MsgAlloc Heap

-- `m_msg_free`
pub data MsgFree (Heap : Type 0) : Type 0 where
  no_msg_free default_msg_free : MsgFree Heap
  set_msg_free : (ℕ → ℕ → Heap → Heap) → MsgFree Heap

-- `alloc_ops`, over the state of the heap that its functions work on.
pub record AllocOps (Heap : Type 0) : Type 0 where
  pub m_alloc : Option (ℕ → Heap → Option ℕ × Heap)
  pub m_free : Option (ℕ → Heap → Heap)
  pub m_msg_alloc : MsgAlloc Heap
  pub m_msg_free : MsgFree Heap

module _ {Heap : Type 0} where
  -- What `alloc_ops` is at first, with the `malloc` and `free` of the C library.
  unfoldable pub default_ops : (ℕ → Heap → Option ℕ × Heap) → (ℕ → Heap → Heap) → AllocOps Heap
  default_ops malloc free = record {
    m_alloc = some malloc;
    m_free = some free;
    m_msg_alloc = default_msg_malloc;
    m_msg_free = default_msg_free;
  }

  -- `__mctp_alloc`; `none` is a failed assertion, here and below.
  unfoldable pub mctp_alloc : AllocOps Heap → ℕ → Heap → Option (Option ℕ × Heap)
  mctp_alloc ops size h = elim ops.m_alloc [ none ↦ none | some m_alloc ↦ some (m_alloc size h) ]

  -- `__mctp_free`
  unfoldable pub mctp_free : AllocOps Heap → ℕ → Heap → Option Heap
  mctp_free ops ptr h = elim ops.m_free [ none ↦ none | some m_free ↦ some (m_free ptr h) ]

  -- `__mctp_msg_alloc`, with the instance's `alloc_ctx`
  unfoldable pub mctp_msg_alloc : AllocOps Heap → ℕ → ℕ → Heap → Option (Option ℕ × Heap)
  mctp_msg_alloc ops ctx size h = elim ops.m_msg_alloc [
    | no_msg_alloc ↦ none
    | default_msg_malloc ↦ mctp_alloc ops size h
    | set_msg_alloc m_msg_alloc ↦ some (m_msg_alloc size ctx h)
  ]

  -- `__mctp_msg_free`; without a function the block stays allocated.
  unfoldable pub mctp_msg_free : AllocOps Heap → ℕ → ℕ → Heap → Option Heap
  mctp_msg_free ops ctx ptr h = elim ops.m_msg_free [
    | no_msg_free ↦ some h
    | default_msg_free ↦ mctp_free ops ptr h
    | set_msg_free m_msg_free ↦ some (m_msg_free ptr ctx h)
  ]

  -- A function pointer that an application passes for messages; the default functions are private.
  unfoldable pub as_msg_alloc : Option (ℕ → ℕ → Heap → Option ℕ × Heap) → MsgAlloc Heap
  as_msg_alloc none = no_msg_alloc
  as_msg_alloc (some f) = set_msg_alloc f

  unfoldable pub as_msg_free : Option (ℕ → ℕ → Heap → Heap) → MsgFree Heap
  as_msg_free none = no_msg_free
  as_msg_free (some f) = set_msg_free f

  -- `mctp_set_alloc_ops`
  unfoldable pub set_alloc_ops :
      Option (ℕ → Heap → Option ℕ × Heap)
      → Option (ℕ → Heap → Heap)
      → Option (ℕ → ℕ → Heap → Option ℕ × Heap)
      → Option (ℕ → ℕ → Heap → Heap)
      → AllocOps Heap
      → AllocOps Heap
  set_alloc_ops m_alloc m_free m_msg_alloc m_msg_free ops = record {
    m_alloc = m_alloc;
    m_free = m_free;
    m_msg_alloc = as_msg_alloc m_msg_alloc;
    m_msg_free = as_msg_free m_msg_free;
  }

  -- `mctp_pktbuf_free` of the buffer at `ptr`
  unfoldable pub pktbuf_free : AllocOps Heap → Pktbuf → ℕ → Heap → Option Heap
  pktbuf_free ops pkt ptr h = if pkt.alloc then mctp_free ops ptr h else some h

  -- `mctp_destroy` of the instance at `ptr`: mctp_cleanup, whose releases of messages are in the
  -- trace, and the release of the struct.
  unfoldable pub mctp_destroy : AllocOps Heap → ℕ → World → Heap → Option (Trace × Heap)
  mctp_destroy ops ptr w h = elim (mctp_free ops ptr h) [
    | none ↦ none
    | some h' ↦ some (cleanup w, h')
  ]
