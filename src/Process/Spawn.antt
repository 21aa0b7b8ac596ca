-- ===== src/Process/Spawn.antt =====
-- init_pcb of kernel/sched/sched.c: a new task takes the first free number and joins the ready queue.
use ucas_os.Common.{
  ℕ, ◌≤◌, ◌<◌, ◌≡◌, ◌≢◌, ◌∈◌, subst, refl, true, false, List, [], ◌∷◌, arith, ◌==◌, upd, ◌∙◌, ap,
}
use ucas_os.Slist.{slist_alloc}
use ucas_os.Slist.FreeList.{IsFree}
use ucas_os.Slist.Ops.{AllocSpec, slist_alloc-AllocSpec}
use ucas_os.Kernel.{
  Ptr, Pcb, task_ready, Kernel, pcb_of, ready_queue, wait_queue, max_task_num, set_result, Objects,
}
use ucas_os.Queue.{queue_push, queue_init}
use ucas_os.Queue.Linked.{SameLinks}
use ucas_os.Sched.WellFormed.{WellFormed, push_unlinked, unlinked}
use ucas_os.Sched.Moves.{push_globals}
use ucas_os.Process.{TaskInfo, pid_alloc, fill_pcb, settle_pcb, init_pcb}
use ucas_os.Process.Joining.{
  Nowhere, joined, WellFormed-outside, queue_init-WellFormed, joined-WellFormed,
}

-- the state after a task got the number `x`
pub record Spawned (k : Kernel) (at : ℕ → List Ptr) (task : TaskInfo) (x : ℕ) (rest : List ℕ)
    (k' : Kernel) : Type 0 where
  pub well_formed : WellFormed k' (joined ready_queue (pcb_of x) at)
  pub free : IsFree k'.pid_list max_task_num rest
  pub pid : (k'.pcb (pcb_of x)).pid ≡ x
  pub status : (k'.pcb (pcb_of x)).status ≡ task_ready
  pub entry : (k'.pcb (pcb_of x)).user_regs_context.cp0_epc ≡ task.entry_point
  pub current : k'.current_running ≡ k.current_running

module _ (exit_address : ℕ) (task : TaskInfo) (k : Kernel) (x : ℕ) where
  listed : Kernel
  listed = record k { pid_list = (slist_alloc k.pid_list).1 }

  filled : Kernel
  unfolding listed
  filled =
      let p = pcb_of x in
      record listed { pcb = upd k.pcb p (fill_pcb exit_address task x (k.pcb p)) }

  settled : Kernel
  unfolding filled
  settled =
      let p = pcb_of x in
      let k₃ = queue_push ready_queue p filled in
      record k₃ { pcb = upd k₃.pcb p (settle_pcb (k₃.pcb p)) }

  init_eq :
      (slist_alloc k.pid_list).0 ≡ x
      → 0 < x
      → init_pcb exit_address task k ≡ queue_init (wait_queue x) settled
  unfolding init_pcb pid_alloc settled filled listed
  init_eq e pos = let nz : (x == 0) ≡ false = ground arith in rw e (rw nz)

  -- what each step leaves in the control blocks
  pushed : Kernel
  pushed = queue_push ready_queue (pcb_of x) filled

  settled_pcb : settled.pcb ≡ upd pushed.pcb (pcb_of x) (settle_pcb (pushed.pcb (pcb_of x)))
  unfolding settled pushed
  settled_pcb = refl

  settled_links : (i : Ptr) → SameLinks (pushed.pcb i) (settled.pcb i)
  unfolding settle_pcb
  settled_links i = rw settled_pcb (ground arith)

  settled_other :
      (i : Ptr)
      → i ≢ pcb_of x
      → ((settled.pcb i).queue ≡ (filled.pcb i).queue)
        × ((settled.pcb i).priority ≡ (filled.pcb i).priority)
        × ((settled.pcb i).scheduler_priority ≡ (filled.pcb i).scheduler_priority)
  unfolding pushed
  settled_other i ne =
      let e : (i == pcb_of x) ≡ false = ground arith in
      let u = push_unlinked ready_queue (pcb_of x) filled i in
      rw settled_pcb (
        rw e (
          ap (λ (t : Pcb). t.queue) u,
          ap (λ (t : Pcb). t.priority) u,
          ap (λ (t : Pcb). t.scheduler_priority) u,
        ))

  filled_self : filled.pcb (pcb_of x) ≡ fill_pcb exit_address task x (k.pcb (pcb_of x))
  unfolding filled listed
  filled_self = let e : (pcb_of x == pcb_of x) ≡ true = ground arith in rw e

  settled_self :
      unlinked (settled.pcb (pcb_of x))
      ≡ unlinked (settle_pcb (fill_pcb exit_address task x (k.pcb (pcb_of x))))
  unfolding pushed settle_pcb
  settled_self =
      let e : (pcb_of x == pcb_of x) ≡ true = ground arith in
      let u = push_unlinked ready_queue (pcb_of x) filled (pcb_of x) in
      rw settled_pcb (
        rw e (
          ap (λ (t : Pcb). unlinked (settle_pcb t)) u
          ∙ ap (λ (t : Pcb). unlinked (settle_pcb t)) filled_self))

  filled-WellFormed :
      (at : ℕ → List Ptr) → Nowhere (pcb_of x) at → WellFormed k at → WellFormed filled at
  unfolding filled listed
  filled-WellFormed at out w =
      WellFormed-outside k filled at (pcb_of x) refl
        (λ i ne. let e : (i == pcb_of x) ≡ false = ground arith in rw e) out w

  settled_queues : settled.queues ≡ (queue_push ready_queue (pcb_of x) filled).queues
  unfolding settled
  settled_queues = refl

  settled-WellFormed :
      (at : ℕ → List Ptr)
      → Nowhere (pcb_of x) at
      → x < max_task_num
      → 1 ≤ task.priority
      → WellFormed k at
      → WellFormed settled (joined ready_queue (pcb_of x) at)
  unfolding pushed settle_pcb fill_pcb
  settled-WellFormed at out lt high w =
      joined-WellFormed filled settled at ready_queue (pcb_of x) (filled-WellFormed at out w) out
        (ground arith) (omega arith) settled_queues settled_links settled_other
        (ap (λ (t : Pcb). t.queue) settled_self)
        (
          rw (ap (λ (t : Pcb). t.priority) settled_self) high,
          rw (ap (λ (t : Pcb). t.scheduler_priority) settled_self) high,
        )

  settled_globals :
      (settled.pid_list ≡ (slist_alloc k.pid_list).1)
      × (settled.current_running ≡ k.current_running)
  unfolding settled filled listed
  settled_globals =
      let e = push_globals ready_queue (pcb_of x) filled in
      (ap (λ (g : Ptr × Objects). g.1.0) e, ap (λ (g : Ptr × Objects). g.0) e)

  spawned :
      (at : ℕ → List Ptr) (rest : List ℕ)
      → Nowhere (pcb_of x) at
      → at (wait_queue x) ≡ []
      → x < max_task_num
      → 1 ≤ task.priority
      → IsFree (slist_alloc k.pid_list).1 max_task_num rest
      → WellFormed k at
      → Spawned k at task x rest (queue_init (wait_queue x) settled)
  unfolding queue_init settle_pcb fill_pcb
  spawned at rest out empty lt high free w = record {
    well_formed =
        queue_init-WellFormed settled (joined ready_queue (pcb_of x) at) (wait_queue x)
          (let other : (wait_queue x == ready_queue) ≡ false = ground arith in rw other empty)
          (settled-WellFormed at out lt high w);
    free = rw settled_globals.0 free;
    pid = ap (λ (t : Pcb). t.pid) settled_self;
    status = ap (λ (t : Pcb). t.status) settled_self;
    entry = ap (λ (t : Pcb). t.user_regs_context.cp0_epc) settled_self;
    current = settled_globals.1;
  }

-- when no number is free, nothing but the result changes
abbrev pub SpawnResult : Kernel → (ℕ → List Ptr) → TaskInfo → List ℕ → Kernel → Type 0
SpawnResult k at task [] k' = k' ≡ set_result 0 k
SpawnResult k at task (x ∷ rest) k' = Spawned k at task x rest k'

init_none :
    (exit_address : ℕ) (task : TaskInfo) (k : Kernel)
    → (slist_alloc k.pid_list).0 ≡ 0
    → (slist_alloc k.pid_list).1 ≡ k.pid_list
    → init_pcb exit_address task k ≡ set_result 0 k
unfolding init_pcb pid_alloc
init_none exit_address task k e f = rw (e, f)

-- init_pcb of a task of priority 1 or more, when the queues are in order, the free numbers are
-- listed, and no free number has a task in a queue or a waiter: with no free number only the
-- result changes, to 0; otherwise the first free number is taken, its control block has that
-- number, the entry point of the task and TASK_READY, the new task alone joins the ready queue at
-- its end, the queues stay in order, and the running task is kept.
pub init_pcb-SpawnResult :
    (exit_address : ℕ) (task : TaskInfo) (k : Kernel) (at : ℕ → List Ptr) (xs : List ℕ)
    → WellFormed k at
    → IsFree k.pid_list max_task_num xs
    → 1 ≤ task.priority
    → ((x : ℕ) → x ∈ xs → Nowhere (pcb_of x) at × (at (wait_queue x) ≡ []))
    → SpawnResult k at task xs (init_pcb exit_address task k)
init_pcb-SpawnResult exit_address task k at [] w free high idle =
    let spec : AllocSpec k.pid_list max_task_num [] (slist_alloc k.pid_list) =
      slist_alloc-AllocSpec k.pid_list max_task_num [] free in
    init_none exit_address task k spec.0 spec.1
init_pcb-SpawnResult exit_address task k at (x ∷ rest) w free high idle =
    let spec : AllocSpec k.pid_list max_task_num (x ∷ rest) (slist_alloc k.pid_list) =
      slist_alloc-AllocSpec k.pid_list max_task_num (x ∷ rest) free in
    let first : (slist_alloc k.pid_list).0 ≡ x = spec.0 in
    let above : 0 < x = subst (λ (t : ℕ). 0 < t) first spec.1 in
    let (out, empty) = idle x (ground arith) in
    rw (init_eq exit_address task k x first above) (
      spawned exit_address task k x at rest out empty
        (subst (λ (t : ℕ). t < max_task_num) first spec.2) high spec.6 w)
