-- ===== src/Process.antt =====
-- kernel/sched/sched.c, the life of a task: its number, its control block, `kill`, `exit` and `wait`.
pub mod Joining
pub mod Spawn
mod Examples
use ucas_os.Common.{
  ℕ, zero, suc, ◌-◌, ◌*◌, Bool, false, ◌||◌, ◌==◌, ltb, not, if◌then◌else◌, upd, List, [], ◌∷◌,
}
use ucas_os.Common.Int.{ℤ, pos, negsuc, pred_ℤ, is_pos}
use ucas_os.Slist.{slist_alloc, slist_free, slist_is_valid}
use ucas_os.Kernel.{
  Pcb, Pde, TaskStatus, TaskType, task_ready, task_waiting, Kernel, Run, ok, and_then, pcb_of,
  ready_queue, wait_queue, block_queue, max_task_num, set_result, set_lock_num,
}
use ucas_os.Queue.{queue_init, queue_push, queue_remove}
use ucas_os.Sched.{scheduler, do_wait, do_unblock_one, do_unblock_all}
use ucas_os.Sync.{max_locks_num, set_lock, current_pid}

-- task_info_t
pub record TaskInfo : Type 0 where
  pub entry_point : ℕ
  pub type : TaskType
  pub priority : ℕ
  pub name : ℕ

unfoldable pub pid_alloc : Kernel → ℕ × Kernel
pid_alloc k = let (pid, l) = slist_alloc k.pid_list in (pid, record k { pid_list = l })

unfoldable pub pid_free : ℤ → Kernel → Bool × Kernel
pid_free pid k =
    let (done, l) = slist_free k.pid_list pid max_task_num in (done, record k { pid_list = l })

unfoldable pub pid_is_valid : ℤ → Kernel → Bool
pid_is_valid pid k = slist_is_valid k.pid_list pid max_task_num

unfoldable pub do_getpid : Kernel → Kernel
do_getpid k = set_result (current_pid k) k

-- include/mm/memory.h
abbrev pub pde_number : ℕ
pde_number = 512

-- the loop of page_dir_init, `n` rounds from entry `i`
unfoldable pub page_dir_init : ℕ → ℕ → (ℕ → Pde) → ℕ → Pde
page_dir_init zero i pd = pd
page_dir_init (suc n) i pd = page_dir_init n (suc i) (upd pd i (record (pd i) { valid = false }))

abbrev pub reg_sp : ℕ
reg_sp = 29

abbrev pub reg_ra : ℕ
reg_ra = 31

-- addresses of include/mm/memory.h
abbrev pub user_stack_top_address : ℕ
user_stack_top_address = 0x80000000

abbrev pub kernel_stack_top_address : ℕ
kernel_stack_top_address = 0xa1000000

abbrev pub initial_user_stack_size : ℕ
initial_user_stack_size = 0x2000

abbrev pub kernel_stack_size : ℕ
kernel_stack_size = 0x2000

-- The fields that init_pcb sets before the task is queued; `exit_address` is the address of
-- exception_handler_exit, where a new task starts.
unfoldable pub fill_pcb : ℕ → TaskInfo → ℕ → Pcb → Pcb
fill_pcb exit_address task pid p =
    let kernel = p.kernel_regs_context in
    let user = p.user_regs_context in
    record p {
      pid = pid;
      name = task.name;
      type = task.type;
      lock_num = pos 0;
      priority = task.priority;
      scheduler_priority = task.priority;
      wait_time = 0;
      kernel_regs_context = record kernel {
        regs =
            upd (upd kernel.regs reg_ra exit_address) reg_sp
              (kernel_stack_top_address - pid * kernel_stack_size);
      };
      user_regs_context = record user {
        regs = upd user.regs reg_sp user_stack_top_address;
        cp0_epc = task.entry_point;
      };
      user_stack_size = initial_user_stack_size;
      kernel_stack_size = kernel_stack_size;
    }

-- and the fields that it sets after
unfoldable pub settle_pcb : Pcb → Pcb
settle_pcb p = record p {
  queue = ready_queue;
  status = task_ready;
  cursor_x = 0;
  cursor_y = 0;
  page_dir = page_dir_init pde_number 0 p.page_dir;
}

-- Nothing sets the result when a task was made: the caller finds in regs[2] what it left there.
unfoldable pub init_pcb : ℕ → TaskInfo → Kernel → Kernel
init_pcb exit_address task k =
    let (pid, k₁) = pid_alloc k in
    if pid == 0
    then set_result 0 k₁
    else (let p = pcb_of pid in
        let k₂ = record k₁ { pcb = upd k₁.pcb p (fill_pcb exit_address task pid (k₁.pcb p)) } in
        let k₃ = queue_push ready_queue p k₂ in
        let k₄ = record k₃ { pcb = upd k₃.pcb p (settle_pcb (k₃.pcb p)) } in
        queue_init (wait_queue pid) k₄)

-- the body of the loop over the locks in `kill`
unfoldable pub drop_lock : ℕ → ℕ → Kernel → Run
drop_lock pid i k =
    let p = pcb_of pid in
    if (k.locks i).owner == pid
    then and_then (do_unblock_one (block_queue i) k)
        (λ k'. ok (set_lock i false 0 (set_lock_num p (pred_ℤ (k'.pcb p).lock_num) k')))
    else ok k

-- the loop, `n` rounds from lock `i`
unfoldable pub drop_locks : ℕ → ℕ → ℕ → Kernel → Run
drop_locks pid zero i k = ok k
drop_locks pid (suc n) i k =
    let rest = and_then (drop_lock pid i k) (λ k'. drop_locks pid n (suc i) k') in
    if is_pos (k.pcb (pcb_of pid)).lock_num then rest else ok k

-- `kill` once the number has been freed; a task that kills itself does not come back
unfoldable pub kill_task : ℕ → Kernel → Run
kill_task pid k =
    let p = pcb_of pid in
    and_then (drop_locks pid max_locks_num 0 (queue_remove (k.pcb p).queue p k).1) (λ k₁.
      and_then (do_unblock_all (wait_queue pid) k₁)
        (λ k₂. if current_pid k₂ == pid then scheduler k₂ else ok (set_result 1 k₂)))

unfoldable pub kill : ℤ → Kernel → Run
kill (negsuc n) k = ok (set_result 0 k)
kill (pos pid) k =
    if pid == 1
    then ok (set_result 0 k)
    else (let (freed, k') = pid_free (pos pid) k in
        if freed then kill_task pid k' else ok (set_result 0 k'))

unfoldable pub exit : Kernel → Run
exit k = kill (pos (current_pid k)) k

unfoldable pub wait : ℤ → Kernel → Run
wait (negsuc n) k = ok (set_result 0 k)
wait (pos pid) k =
    if not (pid_is_valid (pos pid) k) || (pid == current_pid k)
    then ok (set_result 0 k)
    else do_wait k.current_running (wait_queue pid) task_waiting (set_result 1 k)

-- a line of show_process
pub record Row : Type 0 where
  pub index : ℕ
  pub pid : ℕ
  pub status : TaskStatus
  pub name : ℕ

-- the loop of show_process from `pid`, `n` rounds; it stops after 16 lines
unfoldable pub show_loop : ℕ → ℕ → ℕ → Kernel → List Row
show_loop zero pid i k = []
show_loop (suc n) pid i k =
    let p = k.pcb (pcb_of pid) in
    let valid = pid_is_valid (pos pid) k in
    let i' = if valid then suc i else i in
    let rest = if ltb 15 i' then [] else show_loop n (suc pid) i' k in
    if valid then record { index = i; pid = pid; status = p.status; name = p.name } ∷ rest else rest

unfoldable pub show_process : Kernel → List Row
show_process k = show_loop (max_task_num - 1) 1 0 k
