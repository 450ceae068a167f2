-- ===== src/Alloc/Tests.antt =====
-- An allocator that counts: the heap is the next address and the number of blocks in use.
use ps_libmctp_win.Prelude.{ℕ, ◌+◌, ◌-◌, ◌≡◌, refl, Option, none, some, [], false}
use ps_libmctp_win.Core.Examples.{packet}
use ps_libmctp_win.Alloc.{
  AllocOps, default_ops, mctp_alloc, mctp_free, mctp_msg_alloc, mctp_msg_free, as_msg_alloc,
  as_msg_free, set_alloc_ops, pktbuf_free,
}

abbrev Heap : Type 0
Heap = ℕ × ℕ

abbrev malloc : ℕ → Heap → Option ℕ × Heap
malloc size h = (some h.0, (h.0 + size, h.1 + 1))

abbrev free : ℕ → Heap → Heap
free ptr h = (h.0, h.1 - 1)

abbrev ops : AllocOps Heap
ops = default_ops malloc free

default-messages :
    (size ptr ctx : ℕ) (h : Heap)
    → (mctp_msg_alloc ops ctx size h ≡ mctp_alloc ops size h)
      × (mctp_msg_free ops ctx ptr h ≡ mctp_free ops ptr h)
unfolding mctp_msg_alloc mctp_msg_free default_ops
default-messages size ptr ctx h = (refl, refl)

-- Without functions for messages, none can be allocated, and none is released.
no_messages :
    (size ptr ctx : ℕ) (h : Heap)
    → let bare = set_alloc_ops (some malloc) (some free) none none ops in
      (mctp_msg_alloc bare ctx size h ≡ none) × (mctp_msg_free bare ctx ptr h ≡ some h)
unfolding mctp_msg_alloc mctp_msg_free set_alloc_ops as_msg_alloc as_msg_free
no_messages size ptr ctx h = (refl, refl)

pktbuf_free_allocated : pktbuf_free ops (packet [] 4) 8 (16, 1) ≡ some (16, 0)
unfolding pktbuf_free mctp_free default_ops
pktbuf_free_allocated = refl

pktbuf_free_borrowed :
    pktbuf_free ops (record (packet [] 4) { alloc = false }) 8 (16, 1) ≡ some (16, 1)
unfolding pktbuf_free
pktbuf_free_borrowed = refl
