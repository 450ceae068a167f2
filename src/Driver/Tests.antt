-- ===== src/Driver/Tests.antt =====
-- Rings of eight bytes.
use ps_libmctp_win.Prelude.{◌≡◌, refl, List, [], ◌∷◌, ◌++◌, replicate, arith}
use ps_libmctp_win.Driver.{
  RingBuffer, SharedContext, device_busy, success_with, ring_buffer_write, ring_buffer_read,
  evt_io_write, evt_io_read, device_write, device_read,
}
use ps_libmctp_win.Driver.Ring.{IsRing, queue}
use ps_libmctp_win.Driver.Reads.{after_read, ring_buffer_read_eq}
use ps_libmctp_win.Driver.Writes.{ring_buffer_write_lem}
use ps_libmctp_win.Driver.Pipe.{
  driver_serve, Request, write_request, read_request, IsShared, driver_run, pipe_run, pipe_of,
  driver_run_refines,
}

-- The bytes 1, 2, 3 lie across the end of the buffer.
abbrev ring : RingBuffer
ring = record {
  buffer = 2 ∷ 3 ∷ 0 ∷ 0 ∷ 0 ∷ 0 ∷ 0 ∷ 1 ∷ [];
  write_idx = 2;
  read_idx = 7;
  data_available = 3;
}

ring-IsRing : IsRing 8 ring
ring-IsRing = record {
  sized = refl;
  small = omega arith;
  read_in = omega arith;
  available = omega arith;
  write_at_end = refl;
}

ring_buffer_write_lem_example :
    (r' : RingBuffer) × (ring_buffer_write 8 ring (4 ∷ 5 ∷ 6 ∷ 7 ∷ 8 ∷ 9 ∷ []) 6 ≡ (5, r'))
    × IsRing 8 r'
    × (queue 8 r' ≡ (1 ∷ 2 ∷ 3 ∷ []) ++ (4 ∷ 5 ∷ 6 ∷ 7 ∷ 8 ∷ []))
ring_buffer_write_lem_example =
    ring_buffer_write_lem 8 ring ring-IsRing (4 ∷ 5 ∷ 6 ∷ 7 ∷ 8 ∷ 9 ∷ []) 6 (omega arith)

ring_buffer_read_eq_example :
    ring_buffer_read 8 ring 2 ≡ (2, 1 ∷ 2 ∷ [], after_read 8 ring ring-IsRing 2)
ring_buffer_read_eq_example = ring_buffer_read_eq 8 ring ring-IsRing 2

abbrev fresh : RingBuffer
fresh = record { buffer = replicate 8 0; write_idx = 0; read_idx = 0; data_available = 0 }

abbrev shared : SharedContext
shared = record { host_to_bmc = ring; bmc_to_host = fresh }

-- The host fills the ring; a seventh byte is refused; the BMC reads across two writes.
abbrev requests : List Request
requests =
    write_request 0 (4 ∷ 5 ∷ [])
    ∷ write_request 0 (6 ∷ 7 ∷ 8 ∷ [])
    ∷ write_request 0 (9 ∷ [])
    ∷ read_request 1 4
    ∷ read_request 0 4
    ∷ []

driver_run-requests :
    driver_run 8 requests shared
    ≡ (success_with 2, [])
      ∷ (success_with 3, [])
      ∷ (device_busy, [])
      ∷ (success_with 4, 1 ∷ 2 ∷ 3 ∷ 4 ∷ [])
      ∷ (success_with 0, [])
      ∷ []
unfolding driver_run driver_serve ring_buffer_write ring_buffer_read evt_io_write evt_io_read
    device_write device_read
driver_run-requests = refl

shared-IsShared : IsShared 8 shared
shared-IsShared = record {
  sent = ring-IsRing;
  back = record {
    sized = refl;
    small = omega arith;
    read_in = omega arith;
    available = omega arith;
    write_at_end = refl;
  };
}

driver_run_refines_example : driver_run 8 requests shared ≡ pipe_run 8 requests (pipe_of 8 shared)
driver_run_refines_example = driver_run_refines 8 requests shared shared-IsShared
