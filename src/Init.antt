-- ===== src/Init.antt =====
-- init/main.c: the state in which the kernel starts.
pub mod Tasks
pub mod Files
mod Examples
use ucas_os.Common.{ℕ, not, ◌==◌, if◌then◌else◌, upd}
use ucas_os.Common.Int.{pos}
use ucas_os.Slist.{slist_init}
use ucas_os.Kernel.{
  Ptr, Pcb, Kernel, RegsContext, kernel_process, task_running, pcb_of, ready_queue, sleep_queue,
  recv_block_queue, wait_queue, max_task_num,
}
use ucas_os.Queue.{queue_init}
use ucas_os.Process.{TaskInfo, init_pcb, reg_sp, kernel_stack_size, kernel_stack_top_address}
use ucas_os.Memory.{Memory, pm_slist_size, page_table_pool_slist_size, swap_area_size}
use ucas_os.Fs.{Words, Card, Fs, fs_base}
use ucas_os.Fs.Files.{fd_array_slist_size}
use ucas_os.Fs.Mount.{magic_at, magic_number, mkfs, mount}

-- include/mm/memory.h
abbrev pub user_stack_size_of_main : ℕ
user_stack_size_of_main = 0x1000

-- the control block of main; `name` is the address of its name
unfoldable pub main_pcb : ℕ → Pcb → Pcb
main_pcb name p =
    let kernel = p.kernel_regs_context in
    record p {
      pid = 0;
      name = name;
      type = kernel_process;
      lock_num = pos 0;
      user_stack_size = user_stack_size_of_main;
      kernel_stack_size = kernel_stack_size;
      kernel_regs_context = record kernel {
        regs = upd kernel.regs reg_sp kernel_stack_top_address;
      };
      status = task_running;
      cursor_x = 0;
      cursor_y = 0;
    }

-- before the first task is made
unfoldable pub init_main : ℕ → Kernel → Kernel
init_main name k =
    let k₁ = queue_init sleep_queue (queue_init ready_queue k) in
    let k₂ = record k₁ {
      pcb = upd k₁.pcb (pcb_of 0) (main_pcb name (k₁.pcb (pcb_of 0)));
      current_running = pcb_of 0;
    } in
    let k₃ = queue_init (wait_queue 0) k₂ in
    record k₃ { pid_list = slist_init k₃.pid_list max_task_num }

unfoldable pub init_task : ℕ → ℕ → TaskInfo → TaskInfo → Kernel → Kernel
init_task exit_address name info_shell info_io_proc k =
    init_pcb exit_address info_io_proc (init_pcb exit_address info_shell (init_main name k))

-- but for init_TLB, which is assembly
unfoldable pub init_memory : Memory → Memory
init_memory m = record m {
  pm_slist = slist_init m.pm_slist pm_slist_size;
  pt_pool_slist = slist_init m.pt_pool_slist page_table_pool_slist_size;
  swap_area_slist = slist_init m.swap_area_slist swap_area_size;
}

unfoldable pub init_driver : Kernel → Kernel
init_driver k = queue_init recv_block_queue k

module _ {D : Type 0} (card : Card D) where
  -- The structs have the sizes that the code checks. The first three parameters are what the local
  -- structs of mkfs hold before.
  unfoldable pub init_file_system : Words → Words → Words → Fs D → Fs D
  init_file_system s inode dir f =
      let g = record f { fd_array_slist = slist_init f.fd_array_slist fd_array_slist_size } in
      if not (card.sdread fs_base g.disk magic_at == magic_number)
      then record g { disk = mkfs card s inode dir g.disk }
      else mount card g
