-- ===== src/Kernel.antt =====
-- The kernel's state: the process control blocks and queues of include/sched/sched.h, the objects of
-- include/sync, the page tables of include/mm/memory.h, and the globals of kernel/sched.
--
-- A pointer to `pcb[i]` is the number i + 1, and 0 is NULL.  A queue is known by the number of its
-- address: each queue that lies in another object has a number made from that object's own.
use ucas_os.Common.{ℕ, suc, ◌+◌, ◌*◌, Bool, upd}
use ucas_os.Common.Int.{ℤ}
use ucas_os.Slist.{Slist}

abbrev pub Ptr : Type 0
Ptr = ℕ

abbrev pub null : Ptr
null = 0

-- &pcb[pid]
abbrev pub pcb_of : ℕ → Ptr
pcb_of pid = suc pid

-- task_status_t
pub data TaskStatus : Type 0 where
  task_blocked task_running task_ready task_exited task_sleeping task_waiting : TaskStatus

-- task_type_t
pub data TaskType : Type 0 where
  kernel_process kernel_thread user_process user_thread : TaskType

-- regs_context_t
pub record RegsContext : Type 0 where
  pub regs : ℕ → ℕ
  pub cp0_status : ℕ
  pub cp0_cause : ℕ
  pub cp0_epc : ℕ
  pub cp0_badvaddr : ℕ
  pub hi : ℕ
  pub lo : ℕ

-- pde_t
pub record Pde : Type 0 where
  pub pool_num : ℕ
  pub valid : Bool

-- pte_t; the union `addr` is one word, a frame number or an address in the swap area
pub record Pte : Type 0 where
  pub addr : ℕ
  pub valid : Bool
  pub present : Bool

-- pcb_t
pub record Pcb : Type 0 where
  pub kernel_regs_context : RegsContext
  pub user_regs_context : RegsContext
  pub kernel_stack_size : ℕ
  pub user_stack_size : ℕ
  pub prev : Ptr
  pub next : Ptr
  pub pid : ℕ
  pub priority : ℕ
  pub scheduler_priority : ℕ
  pub wait_time : ℕ
  pub awakened_time : ℕ
  pub name : ℕ
  pub type : TaskType
  pub status : TaskStatus
  pub lock_num : ℤ
  pub queue : ℕ
  pub page_dir : ℕ → Pde
  pub cursor_x : ℕ
  pub cursor_y : ℕ

-- queue_t
pub record Queue : Type 0 where
  pub head : Ptr
  pub tail : Ptr

-- mutex_lock_t, less its block_queue
pub record Lock : Type 0 where
  pub locked : Bool
  pub owner : ℕ

-- condition_t, less its wait_queue and `valid`, which only the system calls use
pub record Condition : Type 0 where
  pub waiting_num : ℤ

-- semaphore_t, likewise
pub record Semaphore : Type 0 where
  pub value : ℤ

-- barrier_t, likewise
pub record Barrier : Type 0 where
  pub goal : ℤ
  pub arrived : ℤ

abbrev pub ready_queue : ℕ
ready_queue = 0

abbrev pub sleep_queue : ℕ
sleep_queue = 1

abbrev pub recv_block_queue : ℕ
recv_block_queue = 2

-- &pcb[pid].wait_queue
abbrev pub wait_queue : ℕ → ℕ
wait_queue pid = 5 * pid + 3

-- &lock->block_queue
abbrev pub block_queue : ℕ → ℕ
block_queue lock = 5 * lock + 4

-- &s->wait_queue
abbrev pub semaphore_queue : ℕ → ℕ
semaphore_queue s = 5 * s + 5

-- &condition->wait_queue
abbrev pub condition_queue : ℕ → ℕ
condition_queue c = 5 * c + 6

-- &barrier->wait_queue
abbrev pub barrier_queue : ℕ → ℕ
barrier_queue b = 5 * b + 7

pub record Kernel : Type 0 where
  pub pcb : Ptr → Pcb
  pub queues : ℕ → Queue
  pub current_running : Ptr
  pub pid_list : Slist
  pub locks : ℕ → Lock
  pub conditions : ℕ → Condition
  pub semaphores : ℕ → Semaphore
  pub barriers : ℕ → Barrier
  pub time_elapsed : ℕ
  pub screen_cursor_x : ℕ
  pub screen_cursor_y : ℕ
  pub entry_hi : ℕ

-- What a kernel function comes to: `panic` stops the machine, `diverges` is a loop without end, and
-- `fault` a use of a pointer that was never set.
pub data Run : Type 0 where
  ok : Kernel → Run
  panic : Run
  diverges : Run
  fault : Run

abbrev pub and_then : Run → (Kernel → Run) → Run
and_then (ok k) f = f k
and_then panic f = panic
and_then diverges f = diverges
and_then fault f = fault

-- the run ends, in a state with the property
abbrev pub Succeeds : (Kernel → Type 0) → Run → Type 0
Succeeds P (ok k) = P k
Succeeds P panic = ⊥
Succeeds P diverges = ⊥
Succeeds P fault = ⊥

abbrev pub max_task_num : ℕ
max_task_num = 16

abbrev pub set_next : Ptr → Ptr → Kernel → Kernel
set_next p v k = record k { pcb = upd k.pcb p (record (k.pcb p) { next = v }) }

abbrev pub set_prev : Ptr → Ptr → Kernel → Kernel
set_prev p v k = record k { pcb = upd k.pcb p (record (k.pcb p) { prev = v }) }

abbrev pub set_head : ℕ → Ptr → Kernel → Kernel
set_head q v k = record k { queues = upd k.queues q (record (k.queues q) { head = v }) }

abbrev pub set_tail : ℕ → Ptr → Kernel → Kernel
set_tail q v k = record k { queues = upd k.queues q (record (k.queues q) { tail = v }) }

-- p->queue = q
abbrev pub set_queue : Ptr → ℕ → Kernel → Kernel
set_queue p q k = record k { pcb = upd k.pcb p (record (k.pcb p) { queue = q }) }

-- p->status = s
abbrev pub set_status : Ptr → TaskStatus → Kernel → Kernel
set_status p s k = record k { pcb = upd k.pcb p (record (k.pcb p) { status = s }) }

-- p->wait_time = t
abbrev pub set_wait_time : Ptr → ℕ → Kernel → Kernel
set_wait_time p t k = record k { pcb = upd k.pcb p (record (k.pcb p) { wait_time = t }) }

-- p->scheduler_priority = n
abbrev pub set_scheduler_priority : Ptr → ℕ → Kernel → Kernel
set_scheduler_priority p n k = record k {
  pcb = upd k.pcb p (record (k.pcb p) { scheduler_priority = n });
}

-- p->lock_num = n
abbrev pub set_lock_num : Ptr → ℤ → Kernel → Kernel
set_lock_num p n k = record k { pcb = upd k.pcb p (record (k.pcb p) { lock_num = n }) }

-- regs[2] = v of a context
abbrev pub result_reg : ℕ → RegsContext → RegsContext
result_reg v c = record c { regs = upd c.regs 2 v }

-- current_running->user_regs_context.regs[2] = v: the result of a system call
abbrev pub set_result : ℕ → Kernel → Kernel
set_result v k =
    let p = k.current_running in
    record k {
      pcb =
          upd k.pcb p
            (record (k.pcb p) { user_regs_context = result_reg v (k.pcb p).user_regs_context });
    }

-- what the queues and the scheduler leave alone
abbrev pub Objects : Type 0
Objects = Slist × (ℕ → Lock) × (ℕ → Condition) × (ℕ → Semaphore) × (ℕ → Barrier) × ℕ

abbrev pub objects : Kernel → Objects
objects k = (k.pid_list, k.locks, k.conditions, k.semaphores, k.barriers, k.time_elapsed)

abbrev pub globals : Kernel → Ptr × Objects
globals k = (k.current_running, objects k)
