-- ===== src/Mmbi.antt =====
-- The MMBI binding, src/mmbi.c up to mctp_mmbi_rx: a binding over a device or over two memory regions.
-- The calls of Windows and the allocator are the parameter `Device`.
pub mod Context
pub mod Wire
pub mod Write
pub mod Send
pub mod Exchange
pub mod Legacy
pub mod Safety
pub mod Release
mod Tests
use ps_libmctp_win.Prelude.{
  ℕ, zero, suc, ◌+◌, ◌%◌, ◌^◌, Bool, true, false, Option, none, some, List, [], ◌∷◌, length, take,
  slice, write_at, is_some, ltb, ◌==◌, not, ◌&&◌, ◌||◌, if◌then◌else◌,
}
use ps_libmctp_win.Packet.{Binding, Pktbuf, hdr_off, pktbuf_size, pktbuf_alloc, pktbuf_push}
use ps_libmctp_win.Core.State.{
  Rc, success, minus_one, einval, enomem, eio, emsgsize, epipe, Platform, Trace, M, ◌>>=◌, ◌>>◌,
  pure, get_trace,
}
use ps_libmctp_win.Core.Transmit.{packet_size}
use ps_libmctp_win.Core.Receive.{bus_rx}

-- `struct mctp_binding_mmbi`. A region is the list of its bytes, and the device handle a flag. The
-- lock is not a part of it: calls are made one at a time.
pub record Mmbi : Type 0 where
  pub binding : Binding
  pub rx_storage : Option (List ℕ)
  pub tx_storage : Option (List ℕ)
  pub memory_size : ℕ
  pub has_device : Bool

-- The errors of ReadFile that the code tells apart.
pub data ReadError : Type 0 where
  broken_pipe io_pending no_data other : ReadError

-- What ReadFile comes to: the bytes read, or an error.
pub data ReadAnswer : Type 0 where
  bytes_read : List ℕ → ReadAnswer
  read_error : ReadError → ReadAnswer

-- The device and the allocator. An answer may depend on the calls of the core made before it, and on
-- the number of the attempt where the code tries again.
pub record Device : Type 0 where
  -- WriteFile: its result, and the number of bytes written
  pub write_file : Trace → ℕ → List ℕ → Bool × ℕ
  -- PeekNamedPipe: the number of bytes available, or a failure
  pub peek : Trace → Option ℕ
  -- ReadFile of at most the given number of bytes
  pub read_file : Trace → ℕ → ReadAnswer
  -- CreateFileA, and the allocation of the packet that the binding lends, with arbitrary bytes
  pub open_device : ℕ → Bool
  pub storage : ℕ → Option (List ℕ)
  -- __mctp_alloc of a packet buffer, __mctp_msg_alloc, and the clock
  pub alloc : Trace → Bool
  pub msg_alloc : Trace → ℕ → Option (List ℕ)
  pub now : Trace → ℕ

abbrev pub max_payload : ℕ
max_payload = 65536

-- The struct as `mctp_mmbi_init` leaves it, with the functions NULL.
abbrev pub fresh_mmbi : Mmbi
fresh_mmbi = record {
  binding = record {
    version = 1;
    pkt_size = packet_size max_payload;
    pkt_header = 0;
    pkt_trailer = 0;
    has_tx_storage = false;
    tx_storage = [];
    has_start = false;
    has_control_rx = false;
  };
  rx_storage = none;
  tx_storage = none;
  memory_size = 0;
  has_device = false;
}

-- `mctp_mmbi_init`; the flag says whether the struct was allocated.
unfoldable pub mmbi_init : Bool → Option Mmbi
mmbi_init allocated = if allocated then some fresh_mmbi else none

-- The end of both initialisations: the binding's functions are set, and its packet is allocated.
unfoldable pub set_storage : Option (List ℕ) → Mmbi → Rc × Mmbi
set_storage none m =
    (enomem, record m { binding = record m.binding { has_start = true; has_tx_storage = false } })
set_storage (some block) m = (
  success,
  record m {
    binding = record m.binding { has_start = true; has_tx_storage = true; tx_storage = block };
  },
)

-- `mctp_mmbi_init_mem`
unfoldable pub init_mem :
    Option (List ℕ) → Option Mmbi → Option (List ℕ) → Option (List ℕ) → ℕ → Rc × Option Mmbi
init_mem storage none tx_addr rx_addr size = (einval, none)
init_mem storage (some m) tx_addr rx_addr size =
    let (rc, m') =
      set_storage storage
        record m { tx_storage = tx_addr; rx_storage = rx_addr; memory_size = size } in
    (rc, some m')

-- `mctp_mmbi_init_device`; the flag says whether the device could be opened.
unfoldable pub init_device : Bool → Option (List ℕ) → Mmbi → Rc × Mmbi
init_device opened storage m =
    if opened then set_storage storage (record m { has_device = true }) else (minus_one, m)

-- DWORD
abbrev pub dword : ℕ → ℕ
dword n = n % 2 ^ 32

-- What the binding puts on the wire: the packet from its header on.
abbrev pub wire : Pktbuf → List ℕ
wire pkt = slice pkt.bytes (hdr_off pkt) (pktbuf_size pkt)

-- The most bytes that ReadFile is asked for: `max_to_read`, within `rx_buf`.
abbrev pub max_to_read : Mmbi → ℕ
max_to_read m =
    let n = dword (dword m.binding.pkt_size + 4) in if ltb (65536 + 10) n then 65536 + 10 else n

-- `bytesAvail`
abbrev pub bytes_avail : Option ℕ → ℕ
bytes_avail none = 1
bytes_avail (some n) = n

module _ (p : Platform) (i : ℕ) where
  -- The bytes that were read go into a new packet, which the core receives on bus `i`.
  unfoldable pub receive_bytes : Mmbi → Bool → List ℕ → M Rc
  receive_bytes m allocated bytes = elim (pktbuf_alloc m.binding (length bytes) allocated) [
    | none ↦ pure enomem
    | some pkt ↦
        bus_rx p i (record pkt { bytes = write_at pkt.bytes (hdr_off pkt) bytes }) >> pure success
  ]

  -- What ReadFile's answer comes to.
  unfoldable pub after_read_file : Mmbi → Bool → ReadAnswer → M Rc
  after_read_file m allocated (bytes_read bytes) =
      if ltb 0 (length bytes) then receive_bytes m allocated bytes else pure success
  after_read_file m allocated (read_error broken_pipe) = pure epipe
  after_read_file m allocated (read_error e) = pure success

-- The loop goes on until all bytes were written.
abbrev pub wrote : ℕ → Bool × ℕ → Bool
wrote len answer = answer.0 && answer.1 == len

-- `res` and `bytesWritten` after the loop.
abbrev pub last_answer : List (Bool × ℕ) → Bool × ℕ
last_answer [] = (false, 0)
last_answer (answer ∷ []) = answer
last_answer (answer ∷ more ∷ answers) = last_answer (more ∷ answers)

module _ (dev : Device) where
  -- The loop of `mctp_mmbi_tx` with `left` attempts left: the answers to its calls of WriteFile.
  unfoldable pub write_loop : ℕ → ℕ → Trace → List ℕ → ℕ → List (Bool × ℕ)
  write_loop zero attempt tr buf len = []
  write_loop (suc left) attempt tr buf len =
      let answer = dev.write_file tr attempt (take (dword len) buf) in
      let rest = write_loop left (attempt + 1) tr buf len in
      if wrote len answer then answer ∷ [] else answer ∷ rest

  -- `mctp_mmbi_tx`
  unfoldable pub mmbi_tx : Mmbi → Trace → Pktbuf → Rc × Mmbi
  mmbi_tx m tr pkt =
      let len = pktbuf_size pkt in
      let (res, bytes_written) = last_answer (write_loop 3 0 tr (wire pkt) len) in
      if m.has_device
      then (if not res || not (bytes_written == len) then eio else success, m)
      else elim m.tx_storage [
        | none ↦ (minus_one, m)
        | some region ↦
            if ltb m.memory_size len
            then (emsgsize, m)
            else (success, record m { tx_storage = some (write_at region 0 (wire pkt)) })
      ]

  -- What the core is given by this binding on a device: `mctp_mmbi_tx`, and `mctp_mmbi_start`, which
  -- enables the bus and returns 0.
  abbrev pub mmbi_platform : Mmbi → Platform
  mmbi_platform m = record {
    msg_alloc = dev.msg_alloc;
    tx = λ tr i pkt. (mmbi_tx m tr pkt).0;
    start = λ tr i. (true, success);
    now = dev.now;
  }

  module _ (p : Platform) (i : ℕ) where
    -- `mctp_mmbi_poll`. If the number of bytes available is not known, it reads.
    unfoldable pub mmbi_poll : Mmbi → M Rc
    mmbi_poll m = do
      tr ← get_trace
      if not m.has_device || bytes_avail (dev.peek tr) == 0
          then pure success
          else after_read_file p i m (dev.alloc tr) (dev.read_file tr (max_to_read m))

    -- The packet of `mctp_mmbi_rx`, with the bytes that it was asked to read.
    unfoldable pub region_packet : Mmbi → List ℕ → Bool → M Rc
    region_packet m bytes allocated = elim (pktbuf_alloc m.binding (length bytes) allocated) [
      | none ↦ pure enomem
      | some pkt ↦ elim (pktbuf_push pkt bytes) [
        | none ↦ pure minus_one
        | some pkt' ↦ bus_rx p i pkt' >> pure success
      ]
    ]

    -- `mctp_mmbi_rx`, for a region that holds its size in bytes.
    unfoldable pub mmbi_rx_region : Mmbi → List ℕ → ℕ → M Rc
    mmbi_rx_region m region len =
        if ltb m.memory_size len
        then pure emsgsize
        else (do tr ← get_trace; region_packet m (take len region) (dev.alloc tr))

    unfoldable pub mmbi_rx : Option Mmbi → ℕ → M Rc
    mmbi_rx none len = pure einval
    mmbi_rx (some m) len = elim m.rx_storage [
      | none ↦ pure einval
      | some region ↦ mmbi_rx_region m region len
    ]
