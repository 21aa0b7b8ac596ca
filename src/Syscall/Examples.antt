-- ===== src/Syscall/Examples.antt =====
-- The theorems on the system calls, tried on a small machine.
use ucas_os.Common.{ℕ, ◌≡◌, []}
use ucas_os.Fs.{Words}
use ucas_os.Fs.Sample.{card, fs}
use ucas_os.Mac.{Bus}
use ucas_os.Syscall.Stubs.{sys_block, sys_unblock_one, sys_unblock_all}
use ucas_os.Syscall.Requests.{invoke, sleep}
use ucas_os.Syscall.Machine.{Platform, Machine, panics, with_kernel}
use ucas_os.Syscall.Serve.{serve, skip_trap, system_call_helper}
use ucas_os.Syscall.Dispatch.{trapped, system_call_helper-invoke, system_call_helper-panics}
use ucas_os.Fixture.{machine}

abbrev bus : Bus ℕ
bus = record { load = λ a b. (b, b); store = λ a v b. v }

abbrev platform : Platform (ℕ → Words) ℕ
platform = record {
  card = card;
  bus = bus;
  addresses = record { tdesc = 0; tbuffer = 0x1000; rdesc = 0x20000; rbuffer = 0x21000 };
  text = λ r. [];
  exit_address = 0x80000500;
  dir_name = 0x80001000;
  object = λ a. 0;
  memory_end = 64;
  reset_loads = 3;
  super_block = λ i. 0;
  inode = λ i. 0;
  dir = λ i. 0;
}

abbrev m : Machine (ℕ → Words) ℕ
m = record {
  kernel = machine 0;
  new_screen = λ c. b' ';
  old_screen = λ c. b' ';
  fs = fs;
  memory = λ a. 0;
  tdesc = λ i. record { des0 = 0; des1 = 0; des2 = 0; des3 = 0 };
  rdesc = λ i. record { des0 = 0; des1 = 0; des2 = 0; des3 = 0 };
  bus_state = 0;
}

system_call_helper-invoke_example :
    system_call_helper platform (trapped (invoke (sleep 20)) m)
    ≡ serve platform (sleep 20) (
        with_kernel
          (trapped (invoke (sleep 20)) m)
          (skip_trap (trapped (invoke (sleep 20)) m).kernel))
system_call_helper-invoke_example = system_call_helper-invoke platform (sleep 20) m

system_call_helper-panics_example :
    (system_call_helper platform (trapped (sys_block 0) m) ≡ panics)
    × (system_call_helper platform (trapped (sys_unblock_one 0) m) ≡ panics)
    × (system_call_helper platform (trapped (sys_unblock_all 0) m) ≡ panics)
system_call_helper-panics_example = system_call_helper-panics platform 0 m
