-- ===== src/Driver.antt =====
-- The MMBI driver, windows_driver/MmbiDriver.c: two ring buffers between the devices MMBI0 and MMBI1,
-- and the handlers of read and write requests. The size of a ring is a parameter; the driver's is
-- `ring_buffer_size`. The spin lock makes each handler one step.
pub mod Ring
pub mod Reads
pub mod Chunks
pub mod Writes
pub mod Pipe
mod Tests
use ps_libmctp_win.Prelude.{
  ℕ, ◌+◌, ◌-◌, ◌%◌, ◌^◌, ◌*◌, Bool, true, false, List, [], ◌∷◌, ◌++◌, length, take, slice, write_at,
  ltb, leb, ◌==◌, ◌&&◌, if◌then◌else◌,
}

abbrev pub ring_buffer_size : ℕ
ring_buffer_size = 1024 * 1024

-- ULONG arithmetic wraps at 32 bits.
abbrev pub ulong_mod : ℕ
ulong_mod = 2 ^ 32

abbrev pub add_ulong : ℕ → ℕ → ℕ
add_ulong a b = (a + b) % ulong_mod

abbrev pub sub_ulong : ℕ → ℕ → ℕ
sub_ulong a b = (a + ulong_mod - b) % ulong_mod

-- `MMBI_RING_BUFFER`
pub record RingBuffer : Type 0 where
  pub buffer : List ℕ
  pub write_idx : ℕ
  pub read_idx : ℕ
  pub data_available : ℕ

-- `MMBI_SHARED_CONTEXT`
pub record SharedContext : Type 0 where
  pub host_to_bmc : RingBuffer
  pub bmc_to_host : RingBuffer

-- What a request buffer's retrieval comes to: a failure status, or the buffer.
pub data Retrieved (A : Type 0) : Type 0 where
  failed : ℕ → Retrieved A
  retrieved : A → Retrieved A

-- How a request is completed: with the status of the failure, with STATUS_DEVICE_BUSY, or with
-- STATUS_SUCCESS and the number of bytes.
pub data Completion : Type 0 where
  failure : ℕ → Completion
  device_busy : Completion
  success_with : ℕ → Completion

module _ (size : ℕ) where
  -- `RingBufferWrite`: `*BytesWritten`, and the ring.
  unfoldable pub ring_buffer_write : RingBuffer → List ℕ → ℕ → ℕ × RingBuffer
  ring_buffer_write r src len =
      let space_free = sub_ulong size r.data_available in
      let to_write = if ltb space_free len then space_free else len in
      let first_chunk = sub_ulong size r.write_idx in
      let second_chunk = sub_ulong to_write first_chunk in
      if to_write == 0 then (0, r) else (
        to_write,
        if leb to_write first_chunk
            then record r {
              buffer = write_at r.buffer r.write_idx (take to_write src);
              write_idx = add_ulong r.write_idx to_write % size;
              data_available = add_ulong r.data_available to_write;
            }
            else record r {
              buffer =
                  write_at (write_at r.buffer r.write_idx (take first_chunk src)) 0
                    (slice src first_chunk second_chunk);
              write_idx = second_chunk;
              data_available = add_ulong r.data_available to_write;
            },
      )

  -- `RingBufferRead`: `*BytesRead`, the bytes that are copied out, and the ring.
  unfoldable pub ring_buffer_read : RingBuffer → ℕ → ℕ × List ℕ × RingBuffer
  ring_buffer_read r len =
      let to_read = if ltb r.data_available len then r.data_available else len in
      let first_chunk = sub_ulong size r.read_idx in
      let second_chunk = sub_ulong to_read first_chunk in
      if to_read == 0
      then (0, [], r)
      else if leb to_read first_chunk
      then (
        to_read,
        slice r.buffer r.read_idx to_read,
        record r {
          read_idx = add_ulong r.read_idx to_read % size;
          data_available = sub_ulong r.data_available to_read;
        },
      )
      else (
        to_read,
        slice r.buffer r.read_idx first_chunk ++ slice r.buffer 0 second_chunk,
        record r { read_idx = second_chunk; data_available = sub_ulong r.data_available to_read },
      )

  -- The ring that a device writes to: HostToBmc for device 0, BmcToHost for any other.
  unfoldable pub device_write : ℕ → List ℕ → ℕ → SharedContext → ℕ × SharedContext
  device_write device_id bytes len g =
      if device_id == 0
      then (sent.0, record g { host_to_bmc = sent.1 })
      else (back.0, record g { bmc_to_host = back.1 })
    where
      sent : ℕ × RingBuffer
      sent = ring_buffer_write g.host_to_bmc bytes len

      back : ℕ × RingBuffer
      back = ring_buffer_write g.bmc_to_host bytes len

  -- The ring that a device reads from: BmcToHost for device 0, HostToBmc for any other.
  unfoldable pub device_read : ℕ → ℕ → SharedContext → ℕ × List ℕ × SharedContext
  device_read device_id len g =
      if device_id == 0
      then (back.0, back.1, record g { bmc_to_host = back.2 })
      else (sent.0, sent.1, record g { host_to_bmc = sent.2 })
    where
      sent : ℕ × List ℕ × RingBuffer
      sent = ring_buffer_read g.host_to_bmc len

      back : ℕ × List ℕ × RingBuffer
      back = ring_buffer_read g.bmc_to_host len

  -- `MmbiEvtIoWrite` for the device with this id.
  unfoldable pub evt_io_write :
      ℕ → Retrieved (List ℕ) → ℕ → SharedContext → Completion × SharedContext
  evt_io_write device_id (failed status) len g = (failure status, g)
  evt_io_write device_id (retrieved bytes) len g =
      let (written, g') = device_write device_id bytes (len % ulong_mod) g in
      (if written == 0 && ltb 0 len then device_busy else success_with written, g')

  -- `MmbiEvtIoRead`: the completion, and the bytes that the request's buffer receives.
  unfoldable pub evt_io_read :
      ℕ → Retrieved (Unit {0}) → ℕ → SharedContext → Completion × List ℕ × SharedContext
  evt_io_read device_id (failed status) len g = (failure status, [], g)
  evt_io_read device_id (retrieved u) len g =
      let (count, out, g') = device_read device_id (len % ulong_mod) g in
      (success_with count, out, g')
