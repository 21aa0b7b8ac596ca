-- ===== src/Sync/Steps.antt =====
-- The functions of kernel/lock keep the promise of the abstract steps of the scheduler.
use ucas_os.Common.{
  ℕ, ◌≤◌, ◌≡◌, refl, inl, inr, true, false, arith, ◌==◌, ◌∈◌, sym, subst, Bool-cases, not,
}
use ucas_os.Common.Int.{ℤ, suc_ℤ, pred_ℤ, is_pos, is_neg, pos}
use ucas_os.Kernel.{
  Ptr, Kernel, ok, ready_queue, task_blocked, task_waiting, block_queue, condition_queue,
  semaphore_queue, barrier_queue,
}
use ucas_os.Queue.Linked.{SameLinks}
use ucas_os.Sched.{do_wait, do_unblock_one, do_unblock_all}
use ucas_os.Sched.WellFormed.{WellFormed-tasks}
use ucas_os.Sched.Steps.{
  Places, here, Running, Refines, Wakes, Wakes-Refines, Wakes-and_then, Wakes-map,
}
use ucas_os.Sched.Refinement.{do_wait-Refines, do_unblock_one-Wakes, do_unblock_all-Wakes}
use ucas_os.Sync.{
  Call, returns, waits, set_lock, count_lock, uncount_lock, current_pid, acquire_loop,
  do_mutex_lock_acquire, do_mutex_lock_release, set_waiting_num, do_condition_wait,
  do_condition_signal, do_condition_broadcast, set_value, do_semaphore_up, do_semaphore_down,
  set_barrier, ℤ_eq, do_barrier_wait,
}

abbrev pub CallRefines : Places → Call → Type 0
CallRefines at (returns r) = Refines at r
CallRefines at (waits r) = Refines at r

-- a change that keeps the queues, and of the tasks what the queues depend on
pub Running-tasks :
    (k k' : Kernel) (at : Places)
    → k'.queues ≡ k.queues
    → k'.current_running ≡ k.current_running
    → ((i : Ptr)
        → SameLinks (k.pcb i) (k'.pcb i)
          × ((k'.pcb i).queue ≡ (k.pcb i).queue)
          × ((k.pcb i).priority ≤ (k'.pcb i).priority)
          × (1 ≤ (k.pcb i).scheduler_priority → 1 ≤ (k'.pcb i).scheduler_priority))
    → Running k at
    → Running k' at
Running-tasks k k' at e f same run = record {
  well_formed = WellFormed-tasks k k' at e same run.well_formed;
  current = subst (λ c. c ∈ at ready_queue) (sym f) run.current;
}

pub Running-objects :
    (k k' : Kernel) (at : Places)
    → k'.queues ≡ k.queues
    → k'.current_running ≡ k.current_running
    → k'.pcb ≡ k.pcb
    → Running k at
    → Running k' at
Running-objects k k' at e f g run = Running-tasks k k' at e f (λ i. rw g (ground arith)) run

done : (k : Kernel) (at : Places) → Running k at → Refines at (ok k)
done k at run = (at, here, run)

locked :
    (k : Kernel) (at : Places) (l : ℕ)
    → Running k at
    → Running (set_lock l true (current_pid k) (count_lock k)) at
locked k at l run =
    Running-tasks k (set_lock l true (current_pid k) (count_lock k)) at refl refl
      (λ i. ground arith) run

released :
    (l : ℕ) (k : Kernel) (at : Places)
    → Running k at
    → Running (set_lock l false 0 (uncount_lock k)) at
released l k at run =
    Running-tasks k (set_lock l false 0 (uncount_lock k)) at refl refl (λ i. ground arith) run

acquire_loop-Refines :
    (k : Kernel) (at : Places) (l : ℕ) → Running k at → CallRefines at (acquire_loop l k)
unfolding acquire_loop
acquire_loop-Refines k at l run = elim (Bool-cases (k.locks l).locked) [
  | inl e ↦ rw e (do_wait-Refines k at (block_queue l) task_blocked run (λ e. absurd (omega arith)))
  | inr e ↦ rw e (done (set_lock l true (current_pid k) (count_lock k)) at (locked k at l run))
]

pub do_mutex_lock_acquire-Refines :
    (k : Kernel) (at : Places) (l : ℕ) → Running k at → CallRefines at (do_mutex_lock_acquire l k)
unfolding do_mutex_lock_acquire
do_mutex_lock_acquire-Refines k at l run = elim (Bool-cases ((k.locks l).owner == current_pid k)) [
  | inl e ↦ rw e (done k at run)
  | inr e ↦ rw e (acquire_loop-Refines k at l run)
]

pub do_mutex_lock_release-Wakes :
    (k : Kernel) (at : Places) (l : ℕ)
    → Running k at
    → Wakes k.current_running at (do_mutex_lock_release l k)
unfolding do_mutex_lock_release
do_mutex_lock_release-Wakes k at l run =
    elim (Bool-cases (not ((k.locks l).owner == current_pid k))) [
      | inl e ↦ rw e (at, here, run, refl, omega arith)
      | inr e ↦ rw e (
          Wakes-map k.current_running at (do_unblock_one (block_queue l) k)
            (λ k'. set_lock l false 0 (uncount_lock k')) (released l) (λ k'. refl)
            (do_unblock_one-Wakes k at (block_queue l) run (λ e. absurd (omega arith))))
    ]

counted :
    (c : ℕ) (n : ℤ) (k : Kernel) (at : Places) → Running k at → Running (set_waiting_num c n k) at
counted c n k at run = Running-objects k (set_waiting_num c n k) at refl refl refl run

pub do_condition_wait-Refines :
    (k : Kernel) (at : Places) (c l : ℕ) → Running k at → Refines at (do_condition_wait c l k)
unfolding do_condition_wait
do_condition_wait-Refines k at c l run =
    let k₁ : Kernel = set_waiting_num c (suc_ℤ (k.conditions c).waiting_num) k in
    Wakes-and_then k.current_running at (do_mutex_lock_release l k₁)
      (λ k'. do_wait k'.current_running (condition_queue c) task_blocked k')
      (do_mutex_lock_release-Wakes k₁ at l
        (counted c (suc_ℤ (k.conditions c).waiting_num) k at run))
      (λ k' at' run' e.
        do_wait-Refines k' at' (condition_queue c) task_blocked run' (λ e. absurd (omega arith)))

pub do_condition_signal-Refines :
    (k : Kernel) (at : Places) (c : ℕ) → Running k at → Refines at (do_condition_signal c k)
unfolding do_condition_signal
do_condition_signal-Refines k at c run =
    let k₁ : Kernel = set_waiting_num c (pred_ℤ (k.conditions c).waiting_num) k in
    elim (Bool-cases (is_pos (k.conditions c).waiting_num)) [
      | inl e ↦ rw e (
          Wakes-Refines k.current_running at (do_unblock_one (condition_queue c) k₁) (
            do_unblock_one-Wakes k₁ at (condition_queue c)
              (counted c (pred_ℤ (k.conditions c).waiting_num) k at run)
              (λ e. absurd (omega arith))))
      | inr e ↦ rw e (done k at run)
    ]

pub do_condition_broadcast-Refines :
    (k : Kernel) (at : Places) (c : ℕ) → Running k at → Refines at (do_condition_broadcast c k)
unfolding do_condition_broadcast
do_condition_broadcast-Refines k at c run =
    let k₁ : Kernel = set_waiting_num c (pos 0) k in
    elim (Bool-cases (is_pos (k.conditions c).waiting_num)) [
      | inl e ↦ rw e (
          Wakes-Refines k.current_running at (do_unblock_all (condition_queue c) k₁) (
            do_unblock_all-Wakes k₁ at (condition_queue c) (counted c (pos 0) k at run)
              (λ e. absurd (omega arith))))
      | inr e ↦ rw e (done k at run)
    ]

valued : (s : ℕ) (n : ℤ) (k : Kernel) (at : Places) → Running k at → Running (set_value s n k) at
valued s n k at run = Running-objects k (set_value s n k) at refl refl refl run

pub do_semaphore_up-Refines :
    (k : Kernel) (at : Places) (s : ℕ) → Running k at → Refines at (do_semaphore_up s k)
unfolding do_semaphore_up
do_semaphore_up-Refines k at s run =
    let k₁ : Kernel = set_value s (suc_ℤ (k.semaphores s).value) k in
    let run₁ : Running k₁ at = valued s (suc_ℤ (k.semaphores s).value) k at run in
    elim (Bool-cases (is_pos (k₁.semaphores s).value)) [
      | inl e ↦ rw e (done k₁ at run₁)
      | inr e ↦ rw e (
          Wakes-Refines k.current_running at (do_unblock_one (semaphore_queue s) k₁)
            (do_unblock_one-Wakes k₁ at (semaphore_queue s) run₁ (λ e. absurd (omega arith))))
    ]

pub do_semaphore_down-Refines :
    (k : Kernel) (at : Places) (s : ℕ) → Running k at → CallRefines at (do_semaphore_down s k)
unfolding do_semaphore_down
do_semaphore_down-Refines k at s run =
    let k₁ : Kernel = set_value s (pred_ℤ (k.semaphores s).value) k in
    let run₁ : Running k₁ at = valued s (pred_ℤ (k.semaphores s).value) k at run in
    elim (Bool-cases (is_neg (k₁.semaphores s).value)) [
      | inl e ↦
          rw e (
            do_wait-Refines k₁ at (semaphore_queue s) task_blocked run₁ (λ e. absurd (omega arith)))
      | inr e ↦ rw e (done k₁ at run₁)
    ]

barred :
    (b : ℕ) (n m : ℤ) (k : Kernel) (at : Places) → Running k at → Running (set_barrier b n m k) at
barred b n m k at run = Running-objects k (set_barrier b n m k) at refl refl refl run

pub do_barrier_wait-Refines :
    (k : Kernel) (at : Places) (b : ℕ) → Running k at → CallRefines at (do_barrier_wait b k)
unfolding do_barrier_wait
do_barrier_wait-Refines k at b run =
    let goal : ℤ = (k.barriers b).goal in
    let k₁ : Kernel = set_barrier b goal (suc_ℤ (k.barriers b).arrived) k in
    let run₁ : Running k₁ at = barred b goal (suc_ℤ (k.barriers b).arrived) k at run in
    elim (Bool-cases (ℤ_eq (k₁.barriers b).arrived goal)) [
      | inl e ↦
          let k₂ : Kernel = set_barrier b goal (pos 0) k₁ in
          rw e (
            Wakes-Refines k.current_running at (do_unblock_all (barrier_queue b) k₂) (
              do_unblock_all-Wakes k₂ at (barrier_queue b) (barred b goal (pos 0) k₁ at run₁)
                (λ e. absurd (omega arith))))
      | inr e ↦
          rw e
            (do_wait-Refines k₁ at (barrier_queue b) task_waiting run₁ (λ e. absurd (omega arith)))
    ]
