-- ===== src/Driver/Pipe.antt =====
-- What the driver promises: each direction is a bounded queue of bytes, and requests are served in
-- order.
use ps_libmctp_win.Prelude.{
  ℕ, ◌-◌, ◌%◌, ◌≡◌, refl, ◌∙◌, ap, ap₂, min, List, [], ◌∷◌, ◌++◌, length, take, drop, ltb, ◌==◌,
  ◌&&◌, if◌then◌else◌, arith, Bool-cases, inl, inr,
}
use ps_libmctp_win.Driver.{
  RingBuffer, SharedContext, retrieved, Completion, device_busy, success_with, ulong_mod,
  ring_buffer_write, ring_buffer_read, device_write, device_read, evt_io_write, evt_io_read,
}
use ps_libmctp_win.Driver.Ring.{IsRing, queue, length-queue}
use ps_libmctp_win.Driver.Reads.{
  after_read, after_read-queue, after_read-IsRing, ring_buffer_read_eq,
}
use ps_libmctp_win.Driver.Writes.{ring_buffer_write_lem}

-- The bytes under way in each direction, the oldest first.
pub record Pipe : Type 0 where
  pub to_bmc : List ℕ
  pub to_host : List ℕ

-- A request of a device, with its data or its length.
pub data Request : Type 0 where
  write_request : ℕ → List ℕ → Request
  read_request : ℕ → ℕ → Request

-- What a request gets: its completion, and the bytes read.
abbrev pub Answer : Type 0
Answer = Completion × List ℕ

module _ (size : ℕ) where
  -- As many bytes as there is room for go to the end of a queue.
  abbrev pub put : List ℕ → ℕ → List ℕ → ℕ × List ℕ
  put bytes len q = let n = min len (size - length q) in (n, q ++ take n bytes)

  abbrev pub written : ℕ → ℕ → Completion
  written n len = if n == 0 && ltb 0 len then device_busy else success_with n

  unfoldable pub pipe_serve : Request → Pipe → Answer × Pipe
  pipe_serve (write_request d bytes) s =
      if d == 0
      then ((written sent.0 (length bytes), []), record s { to_bmc = sent.1 })
      else ((written back.0 (length bytes), []), record s { to_host = back.1 })
    where
      sent : ℕ × List ℕ
      sent = put bytes (length bytes % ulong_mod) s.to_bmc

      back : ℕ × List ℕ
      back = put bytes (length bytes % ulong_mod) s.to_host
  pipe_serve (read_request d len) s =
      if d == 0
      then ((success_with back, take back s.to_host), record s { to_host = drop back s.to_host })
      else ((success_with sent, take sent s.to_bmc), record s { to_bmc = drop sent s.to_bmc })
    where
      back : ℕ
      back = min (len % ulong_mod) (length s.to_host)

      sent : ℕ
      sent = min (len % ulong_mod) (length s.to_bmc)

  -- The driver's handlers, for requests whose buffers could be retrieved.
  unfoldable pub driver_serve : Request → SharedContext → Answer × SharedContext
  driver_serve (write_request d bytes) g =
      let (c, g') = evt_io_write size d (retrieved bytes) (length bytes) g in ((c, []), g')
  driver_serve (read_request d len) g =
      let (c, out, g') = evt_io_read size d (retrieved tt) len g in ((c, out), g')

  unfoldable pub pipe_run : List Request → Pipe → List Answer
  pipe_run [] s = []
  pipe_run (q ∷ qs) s = let (a, s') = pipe_serve q s in a ∷ pipe_run qs s'

  unfoldable pub driver_run : List Request → SharedContext → List Answer
  driver_run [] g = []
  driver_run (q ∷ qs) g = let (a, g') = driver_serve q g in a ∷ driver_run qs g'

  -- Both rings are valid.
  pub record IsShared (g : SharedContext) : Type 0 where
    pub sent : IsRing size g.host_to_bmc
    pub back : IsRing size g.bmc_to_host

  abbrev pub pipe_of : SharedContext → Pipe
  pipe_of g = record { to_bmc = queue size g.host_to_bmc; to_host = queue size g.bmc_to_host }

  -- One write on a ring.
  write_put :
      (r : RingBuffer) (bytes : List ℕ)
      → IsRing size r
      → let (n, q) = put bytes (length bytes % ulong_mod) (queue size r) in
        (r' : RingBuffer) × (ring_buffer_write size r bytes (length bytes % ulong_mod) ≡ (n, r'))
        × IsRing size r'
        × (queue size r' ≡ q)
  write_put r bytes v =
      rw (length-queue size r)
        (ring_buffer_write_lem size r v bytes (length bytes % ulong_mod) (omega arith))

  -- The driver answers a request as the pipe does, and keeps the rings valid.
  abbrev Serves : Request → SharedContext → Type 0
  Serves q g =
      (g' : SharedContext) × (driver_serve q g ≡ ((pipe_serve q (pipe_of g)).0, g'))
      × IsShared g'
      × (pipe_of g' ≡ (pipe_serve q (pipe_of g)).1)

  serve-write :
      (d : ℕ) (bytes : List ℕ) (g : SharedContext) → IsShared g → Serves (write_request d bytes) g
  unfolding driver_serve pipe_serve evt_io_write device_write
  serve-write d bytes g v = elim (Bool-cases (d == 0)) [
    | inl host ↦
        let w = write_put g.host_to_bmc bytes v.sent in
        (
          record g { host_to_bmc = w.0 },
          rw (host, w.1),
          record { sent = w.2; back = v.back },
          rw host (ap (λ q. record (pipe_of g) { to_bmc = q }) w.3),
        )
    | inr bmc ↦
        let w = write_put g.bmc_to_host bytes v.back in
        (
          record g { bmc_to_host = w.0 },
          rw (bmc, w.1),
          record { sent = v.sent; back = w.2 },
          rw bmc (ap (λ q. record (pipe_of g) { to_host = q }) w.3),
        )
  ]

  -- One read on a ring.
  read_front :
      (r : RingBuffer) (len : ℕ)
      → IsRing size r
      → let n = min (len % ulong_mod) (length (queue size r)) in
        (r' : RingBuffer) × (ring_buffer_read size r (len % ulong_mod)
          ≡ (n, take n (queue size r), r'))
        × IsRing size r'
        × (queue size r' ≡ drop n (queue size r))
  read_front r len v = rw (length-queue size r) (
    after_read size r v n,
    ring_buffer_read_eq size r v (len % ulong_mod),
    after_read-IsRing size r v n (omega arith),
    after_read-queue size r v n (omega arith),
  )
    where
      n : ℕ
      n = min (len % ulong_mod) r.data_available

  serve-read : (d len : ℕ) (g : SharedContext) → IsShared g → Serves (read_request d len) g
  unfolding driver_serve pipe_serve evt_io_read device_read
  serve-read d len g v = elim (Bool-cases (d == 0)) [
    | inl host ↦
        let w = read_front g.bmc_to_host len v.back in
        (
          record g { bmc_to_host = w.0 },
          rw (host, w.1),
          record { sent = v.sent; back = w.2 },
          rw host (ap (λ q. record (pipe_of g) { to_host = q }) w.3),
        )
    | inr bmc ↦
        let w = read_front g.host_to_bmc len v.sent in
        (
          record g { host_to_bmc = w.0 },
          rw (bmc, w.1),
          record { sent = w.2; back = v.back },
          rw bmc (ap (λ q. record (pipe_of g) { to_bmc = q }) w.3),
        )
  ]

  serve : (q : Request) (g : SharedContext) → IsShared g → Serves q g
  serve (write_request d bytes) g v = serve-write d bytes g v
  serve (read_request d len) g v = serve-read d len g v

  -- No sequence of read and write requests tells the driver with valid rings from two bounded queues
  -- of bytes, one for each direction: every request gets the same completion and the same bytes.
  pub driver_run_refines :
      (qs : List Request) (g : SharedContext)
      → IsShared g
      → driver_run qs g ≡ pipe_run qs (pipe_of g)
  unfolding driver_run pipe_run
  driver_run_refines [] g v = refl
  driver_run_refines (q ∷ qs) g v =
      let s = serve q g v in
      rw s.1 (
        ap₂ (λ (a : Answer) (l : List Answer). a ∷ l) refl
          (driver_run_refines qs s.0 s.2 ∙ ap (λ t. pipe_run qs t) s.3))
