-- ===== src/Syscall/Serve.antt =====
-- kernel/exception/syscall.c: the handler of each system call, and system_call_helper.
use ucas_os.Common.{ℕ, ◌+◌, ◌-◌, upd, Option, none, some, List, []}
use ucas_os.Kernel.{Kernel, set_result}
use ucas_os.Process
use ucas_os.Sched.{do_sleep}
use ucas_os.Sync.{
  do_mutex_lock_init, do_mutex_lock_acquire, do_mutex_lock_release, do_condition_init,
  do_condition_wait, do_condition_signal, do_condition_broadcast, do_semaphore_init,
  do_semaphore_up, do_semaphore_down, do_barrier_init, do_barrier_wait,
}
use ucas_os.Fs.{Fs}
use ucas_os.Fs.Dirs
use ucas_os.Fs.Mount
use ucas_os.Fs.Files
use ucas_os.Fs.Writing
use ucas_os.Screen.{u32, screen_write, screen_move_cursor, screen_reflush, screen_clear}
use ucas_os.Mac.{
  set_sram_ctr, mac_reset, enable_dma_int, clear_dma_interrupt, set_mac_addr, set_bits,
  gmac_base_addr, do_net_send, do_net_recv, do_wait_recv_package,
}
use ucas_os.Pmon.{read_uart_ch}
use ucas_os.Irq.{int1_init, int1_enable}
use ucas_os.Syscall.Requests.{
  Request, requested, getpid, barrier_init, barrier_wait, condition_init, condition_wait,
  condition_signal, condition_broadcast, semaphore_init, semaphore_up, semaphore_down, spawn, kill,
  exit, wait, clear, show_process, sleep, write, read, reflush, move_cursor, mutex_lock_init,
  mutex_lock_acquire, mutex_lock_release, init_mac, net_send, net_recv, wait_recv, mkfs, mount,
  statfs, get_curr_dir_name, mkdir, rmdir, ls, cd, touch, fopen, fclose, fread, fwrite, fseek,
}
use ucas_os.Syscall.Machine.{
  Platform, Machine, Result, finished, panics, hangs, process_table, made, mounted, figures,
  message, listing, int_of, task_at, string_at, put_list, with_kernel, of_run, of_call, screen_of,
  with_screen, with_result, of_outcome, print,
}

-- current_running->user_regs_context.cp0_epc += 4
abbrev pub skip_trap : Kernel → Kernel
skip_trap k =
    let c = k.current_running in
    let regs = (k.pcb c).user_regs_context in
    record k {
      pcb = upd k.pcb c (record (k.pcb c) {
        user_regs_context = record regs { cp0_epc = u32 (regs.cp0_epc + 4) };
      });
    }

module _ {D B : Type 0} (p : Platform D B) where
  -- do_init_mac of drivers/mac.c
  unfoldable pub do_init_mac : Machine D B → Result D B
  do_init_mac m = elim (mac_reset p.bus p.reset_loads (set_sram_ctr p.bus m.bus_state)) [
    | none ↦ hangs
    | some b ↦
        let b₁ = clear_dma_interrupt p.bus (int1_enable p.bus 3 (int1_init p.bus b)) in
        let b₂ = set_mac_addr p.bus (enable_dma_int p.bus b₁) in
        finished [] (record m {
          bus_state = set_bits p.bus gmac_base_addr 8 (set_bits p.bus gmac_base_addr 4 b₂);
        })
  ]

  -- the string that a system call is given
  abbrev text_of : ℕ → Machine D B → List ℕ
  text_of s m = string_at (p.memory_end - s) m.memory s

  abbrev told : Dirs.Message × Fs D → Machine D B → Result D B
  told (t, f) m = print p (message t) (record m { fs = f })

  unfoldable pub serve : Request → Machine D B → Result D B
  serve getpid m = finished [] (with_kernel m (Process.do_getpid m.kernel))
  serve (barrier_init barrier goal) m =
      finished [] (with_kernel m (do_barrier_init (p.object barrier) (int_of goal) m.kernel))
  serve (barrier_wait barrier) m = of_call m (do_barrier_wait (p.object barrier) m.kernel)
  serve (condition_init condition) m =
      finished [] (with_kernel m (do_condition_init (p.object condition) m.kernel))
  serve (condition_wait condition lock) m =
      of_run m (do_condition_wait (p.object condition) (p.object lock) m.kernel)
  serve (condition_signal condition) m =
      of_run m (do_condition_signal (p.object condition) m.kernel)
  serve (condition_broadcast condition) m =
      of_run m (do_condition_broadcast (p.object condition) m.kernel)
  serve (semaphore_init s value) m =
      finished [] (with_kernel m (do_semaphore_init (p.object s) (int_of value) m.kernel))
  serve (semaphore_up s) m = of_run m (do_semaphore_up (p.object s) m.kernel)
  serve (semaphore_down s) m = of_call m (do_semaphore_down (p.object s) m.kernel)
  serve (spawn task) m =
      finished [] (with_kernel m (Process.init_pcb p.exit_address (task_at m.memory task) m.kernel))
  serve (kill pid) m = of_run m (Process.kill (int_of pid) m.kernel)
  serve exit m = of_run m (Process.exit m.kernel)
  serve (wait pid) m = of_run m (Process.wait (int_of pid) m.kernel)
  serve (clear line1 line2) m =
      let (sent, s) = screen_clear line1 line2 (screen_of m) in finished sent (with_screen m s)
  serve show_process m = print p (process_table (Process.show_process m.kernel)) m
  serve (sleep time) m = of_run m (do_sleep time m.kernel)
  serve (write buff) m = finished [] (with_screen m (screen_write (text_of buff m) (screen_of m)))
  serve read m =
      let (k, b) = read_uart_ch p.bus m.kernel m.bus_state in
      finished [] (record m { kernel = k; bus_state = b })
  serve reflush m = let (sent, s) = screen_reflush (screen_of m) in finished sent (with_screen m s)
  serve (move_cursor x y) m = finished [] (with_screen m (screen_move_cursor x y (screen_of m)))
  serve (mutex_lock_init lock) m =
      finished [] (with_kernel m (do_mutex_lock_init (p.object lock) m.kernel))
  serve (mutex_lock_acquire lock) m = of_call m (do_mutex_lock_acquire (p.object lock) m.kernel)
  serve (mutex_lock_release lock) m = of_run m (do_mutex_lock_release (p.object lock) m.kernel)
  serve init_mac m = do_init_mac m
  serve net_send m =
      let (d, b) = do_net_send p.bus p.addresses m.tdesc m.bus_state in
      finished [] (record m { tdesc = d; bus_state = b })
  serve net_recv m =
      let (d, b) = do_net_recv p.bus p.addresses m.rdesc m.bus_state in
      finished [] (record m { rdesc = d; bus_state = b })
  serve wait_recv m = of_run m (do_wait_recv_package m.kernel)
  serve mkfs m = print p made (record m {
    fs = record m.fs { disk = Mount.mkfs p.card p.super_block p.inode p.dir m.fs.disk };
  })
  serve mount m = print p mounted (record m { fs = Mount.mount p.card m.fs })
  serve statfs m = print p (figures (Mount.statfs p.card m.fs)) m
  serve get_curr_dir_name m = finished [] (with_kernel m (set_result p.dir_name m.kernel))
  serve (mkdir s) m = told (Dirs.mkdir p.card p.dir (text_of s m) m.fs) m
  serve (rmdir s) m = told (Dirs.rmdir p.card (text_of s m) m.fs) m
  serve ls m = print p (listing (Mount.ls m.fs.current_dir)) m
  serve (cd s) m = told (Mount.cd p.card (text_of s m) m.fs) m
  serve (touch s) m = told (Dirs.touch p.card (text_of s m) m.fs) m
  serve (fopen s access) m =
      let (v, f) = Files.fopen p.card (text_of s m) access m.fs in finished [] (with_result m v f)
  serve (fclose fd) m =
      let (v, f) = Files.fclose p.card (int_of fd) m.fs in finished [] (with_result m v f)
  serve (fread fd buf size) m =
      of_outcome (λ (v, got, f). with_result (record m { memory = put_list got buf m.memory }) v f)
        (Files.fread p.card (int_of fd) size m.fs)
  serve (fwrite fd buf size) m =
      of_outcome (λ (v, f). with_result m v f)
        (Writing.fwrite p.card (int_of fd) (λ i. m.memory (buf + i)) size m.fs)
  serve (fseek fd offset) m =
      of_outcome (λ f. record m { fs = f }) (Files.fseek p.card (int_of fd) offset m.fs)

  -- the `switch`, once the trap is skipped
  unfoldable pub answer : Option Request → Machine D B → Result D B
  answer none m = panics
  answer (some r) m = serve r (with_kernel m (skip_trap m.kernel))

  unfoldable pub system_call_helper : Machine D B → Result D B
  system_call_helper m =
      let regs = (m.kernel.pcb m.kernel.current_running).user_regs_context.regs in
      answer (requested (regs 4) (regs 5) (regs 6) (regs 7)) m
