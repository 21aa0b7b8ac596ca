-- ===== src/Sync.antt =====
-- kernel/lock: spin locks and mutexes (lock.c), semaphores (sem.c), condition variables (cond.c) and
-- barriers (barrier.c). Each is known by the number of its address.
pub mod Mutex
pub mod Counting
pub mod Barriers
pub mod Conditions
pub mod Steps
mod Examples
use ucas_os.Common.{ℕ, zero, suc, Bool, true, false, ◌==◌, ltb, not, if◌then◌else◌, upd}
use ucas_os.Common.Int.{ℤ, pos, negsuc, suc_ℤ, pred_ℤ, is_neg, is_pos}
use ucas_os.Kernel.{
  Ptr, Kernel, Lock, Condition, Semaphore, Barrier, Run, ok, diverges, and_then, task_blocked,
  task_waiting, block_queue, condition_queue, semaphore_queue, barrier_queue, set_lock_num,
}
use ucas_os.Queue.{queue_init}
use ucas_os.Sched.{do_wait, do_unblock_one, do_unblock_all}

-- include/sync/lock.h
abbrev pub max_locks_num : ℕ
max_locks_num = 16

abbrev pub set_lock : ℕ → Bool → ℕ → Kernel → Kernel
set_lock l status owner k = record k {
  locks = upd k.locks l (record { locked = status; owner = owner });
}

abbrev pub current_pid : Kernel → ℕ
current_pid k = (k.pcb k.current_running).pid

-- ++current_running->lock_num
abbrev pub count_lock : Kernel → Kernel
count_lock k = set_lock_num k.current_running (suc_ℤ (k.pcb k.current_running).lock_num) k

-- --current_running->lock_num
abbrev pub uncount_lock : Kernel → Kernel
uncount_lock k = set_lock_num k.current_running (pred_ℤ (k.pcb k.current_running).lock_num) k

unfoldable pub spin_lock_init : ℕ → Kernel → Kernel
spin_lock_init l k = set_lock l false 0 k

-- With the processor in the kernel nothing else can release the lock, so the loop never ends.
unfoldable pub spin_lock_acquire : ℕ → Kernel → Run
spin_lock_acquire l k =
    if (k.locks l).owner == current_pid k
    then ok k
    else if (k.locks l).locked
    then diverges
    else ok (set_lock l true (current_pid k) (count_lock k))

unfoldable pub spin_lock_release : ℕ → Kernel → Kernel
spin_lock_release l k =
    if not ((k.locks l).owner == current_pid k) then k else set_lock l false 0 (uncount_lock k)

unfoldable pub do_mutex_lock_init : ℕ → Kernel → Kernel
do_mutex_lock_init l k = queue_init (block_queue l) (set_lock l false 0 k)

-- the loops of init_mutex_locks and init_spin_locks, over the locks from `i` on
unfoldable pub init_locks : (ℕ → Kernel → Kernel) → ℕ → ℕ → Kernel → Kernel
init_locks init zero i k = k
init_locks init (suc n) i k = init_locks init n (suc i) (init i k)

unfoldable pub init_mutex_locks : Kernel → Kernel
init_mutex_locks k = init_locks do_mutex_lock_init max_locks_num 0 k

unfoldable pub init_spin_locks : Kernel → Kernel
init_spin_locks k = init_locks spin_lock_init max_locks_num 0 k

-- What comes of a call that may have to wait: it returns, or the task waits in `do_wait` and the run
-- is the switch to another task.
pub data Call : Type 0 where
  returns : Run → Call
  waits : Run → Call

-- One round of the loop in do_mutex_lock_acquire. A task that waits runs it again when it comes back.
unfoldable pub acquire_loop : ℕ → Kernel → Call
acquire_loop l k =
    if (k.locks l).locked
    then waits (do_wait k.current_running (block_queue l) task_blocked k)
    else returns (ok (set_lock l true (current_pid k) (count_lock k)))

unfoldable pub do_mutex_lock_acquire : ℕ → Kernel → Call
do_mutex_lock_acquire l k =
    if (k.locks l).owner == current_pid k then returns (ok k) else acquire_loop l k

unfoldable pub do_mutex_lock_release : ℕ → Kernel → Run
do_mutex_lock_release l k =
    if not ((k.locks l).owner == current_pid k)
    then ok k
    else and_then (do_unblock_one (block_queue l) k)
        (λ k'. ok (set_lock l false 0 (uncount_lock k')))

abbrev pub set_waiting_num : ℕ → ℤ → Kernel → Kernel
set_waiting_num c n k = record k { conditions = upd k.conditions c (record { waiting_num = n }) }

unfoldable pub do_condition_init : ℕ → Kernel → Kernel
do_condition_init c k = queue_init (condition_queue c) (set_waiting_num c (pos 0) k)

-- up to the switch; a task that is woken goes on with `do_mutex_lock_acquire lock`
unfoldable pub do_condition_wait : ℕ → ℕ → Kernel → Run
do_condition_wait c lock k =
    and_then (do_mutex_lock_release lock (set_waiting_num c (suc_ℤ (k.conditions c).waiting_num) k))
      (λ k'. do_wait k'.current_running (condition_queue c) task_blocked k')

unfoldable pub do_condition_signal : ℕ → Kernel → Run
do_condition_signal c k =
    if is_pos (k.conditions c).waiting_num
    then do_unblock_one (condition_queue c)
        (set_waiting_num c (pred_ℤ (k.conditions c).waiting_num) k)
    else ok k

unfoldable pub do_condition_broadcast : ℕ → Kernel → Run
do_condition_broadcast c k =
    if is_pos (k.conditions c).waiting_num
    then do_unblock_all (condition_queue c) (set_waiting_num c (pos 0) k)
    else ok k

abbrev pub set_value : ℕ → ℤ → Kernel → Kernel
set_value s n k = record k { semaphores = upd k.semaphores s (record { value = n }) }

unfoldable pub do_semaphore_init : ℕ → ℤ → Kernel → Kernel
do_semaphore_init s value k =
    queue_init (semaphore_queue s) (set_value s (if is_neg value then pos 0 else value) k)

unfoldable pub do_semaphore_up : ℕ → Kernel → Run
do_semaphore_up s k =
    let k' = set_value s (suc_ℤ (k.semaphores s).value) k in
    if is_pos (k'.semaphores s).value then ok k' else do_unblock_one (semaphore_queue s) k'

unfoldable pub do_semaphore_down : ℕ → Kernel → Call
do_semaphore_down s k =
    let k' = set_value s (pred_ℤ (k.semaphores s).value) k in
    if is_neg (k'.semaphores s).value
    then waits (do_wait k'.current_running (semaphore_queue s) task_blocked k')
    else returns (ok k')

abbrev pub set_barrier : ℕ → ℤ → ℤ → Kernel → Kernel
set_barrier b goal arrived k = record k {
  barriers = upd k.barriers b (record { goal = goal; arrived = arrived });
}

unfoldable pub do_barrier_init : ℕ → ℤ → Kernel → Kernel
do_barrier_init b goal k =
    queue_init (barrier_queue b) (set_barrier b (if is_pos goal then goal else pos 1) (pos 0) k)

abbrev pub ℤ_eq : ℤ → ℤ → Bool
ℤ_eq (pos m) (pos n) = m == n
ℤ_eq (pos m) (negsuc n) = false
ℤ_eq (negsuc m) (pos n) = false
ℤ_eq (negsuc m) (negsuc n) = m == n

unfoldable pub do_barrier_wait : ℕ → Kernel → Call
do_barrier_wait b k =
    let goal = (k.barriers b).goal in
    let k' = set_barrier b goal (suc_ℤ (k.barriers b).arrived) k in
    if ℤ_eq (k'.barriers b).arrived goal
    then returns (do_unblock_all (barrier_queue b) (set_barrier b goal (pos 0) k'))
    else waits (do_wait k'.current_running (barrier_queue b) task_waiting k')
