-- ===== src/Fixture.antt =====
-- A small machine on which the theorems are tried: tasks 1 and 2 are ready and task 1 runs, task 3
-- sleeps, and tasks 4, 5 and 6 wait for the semaphore 0, the condition 0 and the barrier 0.
use ucas_os.Common.{ℕ, refl, true, false, List, [], ◌∷◌, arith, ◌==◌, if◌then◌else◌, Distinct}
use ucas_os.Common.Int.{pos, negsuc}
use ucas_os.Kernel.{
  Ptr, null, Pcb, RegsContext, TaskStatus, task_running, task_ready, task_sleeping, task_blocked,
  user_process, Kernel,
}
use ucas_os.Queue.Linked.{Linked, first, last}
use ucas_os.Sched.WellFormed.{WellFormed}

abbrev pub waiting : ℕ → List Ptr
waiting q =
    if q == 0
    then 2 ∷ 3 ∷ []
    else if q == 1
    then 4 ∷ []
    else if q == 5
    then 5 ∷ []
    else if q == 6
    then 6 ∷ []
    else if q == 7
    then 7 ∷ []
    else []

abbrev no_regs : RegsContext
no_regs = record {
  regs = λ i. 0;
  cp0_status = 0;
  cp0_cause = 0;
  cp0_epc = 0;
  cp0_badvaddr = 0;
  hi = 0;
  lo = 0;
}

abbrev task : ℕ → Ptr → Ptr → ℕ → TaskStatus → Pcb
task pid prev next q s = record {
  kernel_regs_context = no_regs;
  user_regs_context = no_regs;
  kernel_stack_size = 0;
  user_stack_size = 0;
  prev = prev;
  next = next;
  pid = pid;
  priority = 2;
  scheduler_priority = 2;
  wait_time = 0;
  awakened_time = 100;
  name = 0;
  type = user_process;
  status = s;
  lock_num = pos 0;
  queue = q;
  page_dir = λ i. record { pool_num = 0; valid = false };
  cursor_x = 0;
  cursor_y = 0;
}

abbrev tasks : Ptr → Pcb
tasks p =
    if p == 2
    then task 1 0 3 0 task_running
    else if p == 3
    then task 2 2 0 0 task_ready
    else if p == 4
    then task 3 0 0 1 task_sleeping
    else if p == 5
    then task 4 0 0 5 task_blocked
    else if p == 6
    then task 5 0 0 6 task_blocked
    else task 6 0 0 7 task_blocked

abbrev pub machine : ℕ → Kernel
machine time = record {
  pcb = tasks;
  queues = λ q. record { head = first (waiting q) null; tail = last null (waiting q) };
  current_running = 2;
  pid_list = λ i. record { valid = true; cursor = 0 };
  locks = λ i. record { locked = false; owner = 0 };
  conditions = λ i. record { waiting_num = if i == 0 then pos 1 else pos 0 };
  semaphores = λ i. record { value = if i == 0 then negsuc 0 else pos 0 };
  barriers = λ i. record { goal = pos 2; arrived = if i == 0 then pos 1 else pos 0 };
  time_elapsed = time;
  screen_cursor_x = 0;
  screen_cursor_y = 0;
  entry_hi = 0;
}

waiting-Linked : (q : ℕ) → Linked tasks null (waiting q) null
waiting-Linked q = ground arith

waiting-Distinct : (q : ℕ) → Distinct (waiting q)
waiting-Distinct q = ground arith

pub machine-WellFormed : (time : ℕ) → WellFormed (machine time) waiting
machine-WellFormed time = record {
  queue = λ q. record {
    head = refl;
    tail = refl;
    linked = waiting-Linked q;
    distinct = waiting-Distinct q;
  };
  owner = λ q p m. ground arith;
  range = λ q p m. ground arith;
  priority = λ q p m. ground arith;
}
