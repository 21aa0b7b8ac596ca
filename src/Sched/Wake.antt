-- ===== src/Sched/Wake.antt =====
-- Blocking and waking a task: what `do_wait`, `do_unblock_one` and `do_unblock_all` of
-- kernel/sched/sched.c do to the queues.
use ucas_os.Common.{
  ℕ, suc, ◌≤◌, ◌≡◌, ◌≢◌, refl, false, List, [], ◌∷◌, arith, ◌==◌, has, ◌∈◌, length, ◌∙◌, ap, sym,
  subst,
}
use ucas_os.Kernel.{
  Ptr, null, Pcb, Kernel, ok, Succeeds, max_task_num, ready_queue, TaskStatus, globals, task_ready,
  set_status, set_wait_time, set_scheduler_priority,
}
use ucas_os.Queue.{queue_is_empty}
use ucas_os.Queue.Linked.{IsQueue}
use ucas_os.Sched.{Best, suspend, wake, do_unblock_one, unset, walk_fuel}
use ucas_os.Sched.Scan.{best_of, aged, scan_lem}
use ucas_os.Sched.Order.{IsBest, NoBetter, best_of-IsBest}
use ucas_os.Sched.WellFormed.{WellFormed, WellFormed-tasks, length-le, ne_null}
use ucas_os.Sched.Moves.{move, moved, move-WellFormed, move_task, globals-move}

-- `do_wait` takes a ready task to the queue it waits in, and gives it its new status.
pub suspend-WellFormed :
    (k : Kernel) (at : ℕ → List Ptr) (p : Ptr) (q : ℕ) (s : TaskStatus)
    → WellFormed k at
    → p ∈ at ready_queue
    → ready_queue ≢ q
    → WellFormed (suspend p q s k) (moved ready_queue q p at)
      × (((suspend p q s k).pcb p).status ≡ s)
      × (globals (suspend p q s k) ≡ globals k)
unfolding suspend
suspend-WellFormed k at p q s w h ne = (
  WellFormed-tasks (move ready_queue q p k) (set_status p s (move ready_queue q p k))
      (moved ready_queue q p at) refl (λ i. ground arith)
      (move-WellFormed k at w ready_queue q p ne h),
  ground arith,
  globals-move ready_queue q p k,
)

-- the two assignments of do_unblock_one before it moves the task
reset : Ptr → Kernel → Kernel
reset p k =
    let k₁ = set_wait_time p 0 k in set_scheduler_priority p (suc (k₁.pcb p).scheduler_priority) k₁

reset-WellFormed :
    (k : Kernel) (at : ℕ → List Ptr) (p : Ptr) → WellFormed k at → WellFormed (reset p k) at
unfolding reset
reset-WellFormed k at p w = WellFormed-tasks k (reset p k) at refl (λ i. ground arith) w

wake-WellFormed :
    (k : Kernel) (at : ℕ → List Ptr) (q : ℕ) (p : Ptr)
    → WellFormed k at
    → p ∈ at q
    → q ≢ ready_queue
    → WellFormed (wake q p k) (moved q ready_queue p at)
unfolding wake reset
wake-WellFormed k at q p w h ne =
    WellFormed-tasks (move q ready_queue p (reset p k))
      (set_status p task_ready (move q ready_queue p (reset p k))) (moved q ready_queue p at) refl
      (λ i. ground arith)
      (move-WellFormed (reset p k) at (reset-WellFormed k at p w) q ready_queue p ne h)

wake_task :
    (q : ℕ) (p : Ptr) (k : Kernel)
    → (((wake q p k).pcb p).status ≡ task_ready)
      × (((wake q p k).pcb p).wait_time ≡ 0)
      × (((wake q p k).pcb p).scheduler_priority ≡ suc (k.pcb p).scheduler_priority)
unfolding wake reset
wake_task q p k =
    let e = move_task q ready_queue p (reset p k) in
    let wait = ap (λ (t : Pcb). t.wait_time) e in
    let prio = ap (λ (t : Pcb). t.scheduler_priority) e in
    (ground arith, ground (arith, wait), ground (arith, prio))

globals-wake : (q : ℕ) (p : Ptr) (k : Kernel) → globals (wake q p k) ≡ globals k
unfolding wake reset
globals-wake q p k = globals-move q ready_queue p (reset p k)

-- The state `k'` after do_unblock_one of the queue `q`: it has woken `c`, a best task of the queue by
-- its own priority, which is now ready and the last of the ready queue, with its priority raised.
pub record Unblocked (k : Kernel) (at : ℕ → List Ptr) (q : ℕ) (k' : Kernel) : Type 0 where
  pub task : Ptr
  pub from_queue : task ∈ at q
  pub top :
      (y : Ptr)
      → y ∈ at q
      → NoBetter (k.pcb y).priority (k.pcb y).wait_time (k.pcb task).priority (k.pcb task).wait_time
  pub status : (k'.pcb task).status ≡ task_ready
  pub wait : (k'.pcb task).wait_time ≡ 0
  pub priority : (k'.pcb task).scheduler_priority ≡ suc (k.pcb task).scheduler_priority
  pub well_formed : WellFormed k' (moved q ready_queue task at)
  pub kept : globals k' ≡ globals k

aged-WellFormed :
    (k : Kernel) (at : ℕ → List Ptr) (xs : List Ptr) → WellFormed k at → WellFormed (aged xs k) at
aged-WellFormed k at xs w = WellFormed-tasks k (aged xs k) at refl (λ i. ground arith) w

wake-Unblocked :
    (k : Kernel) (at : ℕ → List Ptr) (q : ℕ) (b : Best)
    → WellFormed k at
    → q ≢ ready_queue
    → IsBest (λ p. p.priority) k.pcb (λ y. has y (at q)) b
    → Unblocked k at q (wake q b.selected (aged (at q) k))
wake-Unblocked k at q b w ne best =
    let c : Ptr = b.selected in
    let (status, wait, priority) = wake_task q c (aged (at q) k) in
    record {
      task = c;
      from_queue = best.chosen;
      top = λ y m. rw (best.priority, best.wait) (best.top y m);
      status = status;
      wait = wait;
      priority = priority ∙ same_priority c;
      well_formed =
          wake-WellFormed (aged (at q) k) at q c (aged-WellFormed k at (at q) w) best.chosen ne;
      kept = globals-wake q c (aged (at q) k);
    }
  where
    same_priority :
        (c : Ptr)
        → suc ((aged (at q) k).pcb c).scheduler_priority ≡ suc (k.pcb c).scheduler_priority
    same_priority c = ground arith

-- the walk of do_unblock_one
unblock_one-wake :
    (k : Kernel) (q x : ℕ) (xs : List Ptr)
    → IsQueue k q (x ∷ xs)
    → length (x ∷ xs) ≤ max_task_num
    → (b : Best) → best_of (λ p. p.priority) k.pcb (x ∷ xs) (unset null) ≡ b
    → b.selected ≢ null
    → do_unblock_one q k ≡ ok (wake q b.selected (aged (x ∷ xs) k))
unfolding do_unblock_one queue_is_empty
unblock_one-wake k q x xs is small b e nz =
    let busy : (x == null) ≡ false = ground (arith, is) in
    let some_task : (b.selected == null) ≡ false = ground arith in
    rw (is.head, busy)
      (rw
        (scan_lem (λ p. p.priority) walk_fuel (x ∷ xs) null (unset null) k (omega arith) is.linked
          is.distinct)
        (rw e (rw some_task)))

-- do_unblock_one of a queue that is not empty moves a task of the highest priority and, among
-- those, of the longest wait to the end of the ready queue, as TASK_READY, with its wait reset and
-- its scheduler priority raised by 1; the queues stay in order and the other objects are kept.
pub do_unblock_one-Unblocked :
    (k : Kernel) (at : ℕ → List Ptr) (q x : ℕ) (xs : List Ptr)
    → WellFormed k at
    → q ≢ ready_queue
    → at q ≡ x ∷ xs
    → Succeeds (Unblocked k at q) (do_unblock_one q k)
do_unblock_one-Unblocked k at q x xs w ne e =
    let b : Best = best_of (λ p. p.priority) k.pcb (x ∷ xs) (unset null) in
    let in_x : x ∈ at q = rw e (ground arith) in
    let best : IsBest (λ p. p.priority) k.pcb (λ y. has y (at q)) b =
      subst (λ l. IsBest (λ p. p.priority) k.pcb (λ y. has y l) b) (sym e)
        (best_of-IsBest (λ p. p.priority) k.pcb x xs null (w.priority q x in_x).0) in
    let run : do_unblock_one q k ≡ ok (wake q b.selected (aged (x ∷ xs) k)) =
      unblock_one-wake k q x xs (subst (IsQueue k q) e (w.queue q))
        (subst (λ (l : List Ptr). length l ≤ max_task_num) e (length-le k at w q)) b refl
        (ne_null k at w q b.selected best.chosen) in
    let done : Unblocked k at q (wake q b.selected (aged (at q) k)) =
      wake-Unblocked k at q b w ne best in
    subst (Succeeds (Unblocked k at q)) (sym run)
      (subst (λ l. Unblocked k at q (wake q b.selected (aged l k))) e done)

-- On an empty queue it does nothing.
pub do_unblock_one-nil : (k : Kernel) (q : ℕ) → IsQueue k q [] → do_unblock_one q k ≡ ok k
unfolding do_unblock_one queue_is_empty
do_unblock_one-nil k q is = ground (arith, is)
