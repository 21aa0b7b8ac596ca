-- ===== src/Init/Tasks.antt =====
-- init_task of init/main.c: the first two tasks are ready.
use ucas_os.Common.{ℕ, ◌≤◌, ◌≡◌, ◌≢◌, refl, [], ◌∷◌, arith, ◌∈◌}
use ucas_os.Slist.FreeList.{IsFree}
use ucas_os.Slist.Init.{range, slist_init-IsFree}
use ucas_os.Kernel.{null, Kernel, Run, Succeeds, pcb_of, ready_queue, wait_queue, max_task_num}
use ucas_os.Queue.{queue_init}
use ucas_os.Sched.{scheduler}
use ucas_os.Sched.WellFormed.{WellFormed}
use ucas_os.Sched.Block.{Scheduled, scheduler-Scheduled}
use ucas_os.Sched.Steps.{Places, Running}
use ucas_os.Process.{TaskInfo, init_pcb}
use ucas_os.Process.Joining.{Nowhere, joined}
use ucas_os.Process.Spawn.{Spawned, init_pcb-SpawnResult}
use ucas_os.Sync.Counting.{mono}
use ucas_os.Init.{init_main, init_task}

abbrev none_waits : Places
none_waits q = []

-- the shell and the disk task
abbrev pub first_tasks : Places
first_tasks = joined ready_queue (pcb_of 2) (joined ready_queue (pcb_of 1) none_waits)

abbrev pub AllEmpty : Kernel → Type 0
AllEmpty k = (q : ℕ) → k.queues q ≡ record { head = null; tail = null }

init_main_queues :
    (name : ℕ) (k : Kernel) (q : ℕ)
    → AllEmpty k
    → (((init_main name k).queues q).head ≡ null) × (((init_main name k).queues q).tail ≡ null)
unfolding init_main queue_init
init_main_queues name k q empty = ground (arith, empty q)

init_main-WellFormed :
    (name : ℕ) (k : Kernel) → AllEmpty k → WellFormed (init_main name k) none_waits
init_main-WellFormed name k empty = record {
  queue = λ q. record {
    head = (init_main_queues name k q empty).0;
    tail = (init_main_queues name k q empty).1;
    linked = tt;
    distinct = tt;
  };
  owner = λ q p m. absurd (ground arith);
  range = λ q p m. absurd (ground arith);
  priority = λ q p m. absurd (ground arith);
}

init_main-IsFree :
    (name : ℕ) (k : Kernel) → IsFree (init_main name k).pid_list max_task_num (range 15 1)
unfolding init_main
init_main-IsFree name k = slist_init-IsFree _ 15 (omega arith)

-- a number that is not the first is in no queue, once the first task is made
after_first :
    (x : ℕ)
    → x ∈ range 14 2
    → Nowhere (pcb_of x) (joined ready_queue (pcb_of 1) none_waits)
      × (joined ready_queue (pcb_of 1) none_waits (wait_queue x) ≡ [])
after_first x m = let ne : x ≢ 1 = ground arith in ((λ q. ground arith), ground arith)

-- With all queues empty, as the memory is at the start, and two tasks of priority 1 or more,
-- init_task leaves the queues in order, with the tasks 1 and 2 ready in this order and no other,
-- and the numbers from 3 to 15 free; the first run of the scheduler ends with the queues as they
-- are and one of the two running.
pub init_task-Running :
    (exit_address name : ℕ) (shell io_proc : TaskInfo) (k : Kernel)
    → AllEmpty k
    → 1 ≤ shell.priority
    → 1 ≤ io_proc.priority
    → let k' = init_task exit_address name shell io_proc k in
      WellFormed k' first_tasks
      × IsFree k'.pid_list max_task_num (range 13 3)
      × Succeeds (λ k''. Running k'' first_tasks) (scheduler k')
unfolding init_task
init_task-Running exit_address name shell io_proc k empty a b =
    let k₀ : Kernel = init_main name k in
    let k₁ : Kernel = init_pcb exit_address shell k₀ in
    let k₂ : Kernel = init_pcb exit_address io_proc k₁ in
    let first : Spawned k₀ none_waits shell 1 (range 14 2) k₁ =
      init_pcb-SpawnResult exit_address shell k₀ none_waits (range 15 1)
        (init_main-WellFormed name k empty) (init_main-IsFree name k) a
        (λ x m. ((λ q. refl), refl)) in
    let at₁ : Places = joined ready_queue (pcb_of 1) none_waits in
    let second : Spawned k₁ at₁ io_proc 2 (range 13 3) k₂ =
      init_pcb-SpawnResult exit_address io_proc k₁ at₁ (range 14 2) first.well_formed first.free b
        after_first in
    (
      second.well_formed,
      second.free,
      running k₂ (scheduler k₂)
          (scheduler-Scheduled k₂ first_tasks (pcb_of 1) (pcb_of 2 ∷ []) second.well_formed refl),
    )
  where
    running :
        (k : Kernel) (r : Run)
        → Succeeds (Scheduled k first_tasks) r
        → Succeeds (λ k''. Running k'' first_tasks) r
    running k r h =
        mono (Scheduled k first_tasks) (λ k''. Running k'' first_tasks) r
          (λ k'' (w, p, _). record { well_formed = w; current = p.from_queue }) h
