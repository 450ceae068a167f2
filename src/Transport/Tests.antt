-- ===== src/Transport/Tests.antt =====
-- A device that opens at once.
use ps_libmctp_win.Prelude.{◌⊎◌, ◌≡◌, true, false, none, some, [], replicate}
use ps_libmctp_win.Core.State.{World, done}
use ps_libmctp_win.Core.Examples.{world}
use ps_libmctp_win.Mmbi.{Device, bytes_read}
use ps_libmctp_win.Mmbi.Context.{Blocks}
use ps_libmctp_win.Mmbi.Context.Open.{all_blocks}
use ps_libmctp_win.Transport.{transport_init}
use ps_libmctp_win.Transport.Init.{can_open, OpensBoth, transport_init_lem}

abbrev device : Device
device = record {
  write_file = λ tr k buf. (false, 0);
  peek = λ tr. some 0;
  read_file = λ tr most. bytes_read [];
  open_device = λ k. true;
  storage = λ k. some (replicate 70 0);
  alloc = λ tr. true;
  msg_alloc = λ tr n. none;
  now = λ tr. 100;
}

abbrev blocks : Blocks
blocks = all_blocks device

transport_init_lem_example :
    (can_open device blocks ≡ false)
      × ((w' : World) × (transport_init device blocks 9 world ≡ done none w'))
    ⊎ (can_open device blocks ≡ true) × OpensBoth device blocks 9 world
transport_init_lem_example = transport_init_lem device blocks 9 world
