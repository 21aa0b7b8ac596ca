-- ===== src/Sched/Block.antt =====
-- The scheduler keeps the invariant of the queues, and so do `do_wait` and `do_sleep`
-- (kernel/sched/sched.c).
use ucas_os.Common.{
  ℕ, ◌≤◌, ◌≡◌, ◌≢◌, refl, List, [], ◌∷◌, arith, ◌∈◌, length, ◌∙◌, sym, subst, Bool-cases, inl, inr,
  ltb,
}
use ucas_os.Kernel.{
  Ptr, Kernel, Run, ok, panic, Succeeds, max_task_num, ready_queue, TaskStatus, objects,
}
use ucas_os.Queue.Linked.{IsQueue, SameLinks}
use ucas_os.Sched.{scheduler, leave, enter, suspend, do_wait, is_running}
use ucas_os.Sched.Scan.{aged}
use ucas_os.Sched.Pick.{
  Picked, scheduler-Picked, scheduler-panic, scheduler-enter, enter-globals, choice,
}
use ucas_os.Sched.WellFormed.{WellFormed, WellFormed-tasks, length-le}
use ucas_os.Sched.Moves.{moved}
use ucas_os.Sched.Wake.{suspend-WellFormed}

leave-WellFormed : (k : Kernel) (at : ℕ → List Ptr) → WellFormed k at → WellFormed (leave k) at
unfolding leave
leave-WellFormed k at w = WellFormed-tasks k (leave k) at (ground arith) (λ i. ground arith) w

enter-WellFormed :
    (k : Kernel) (at : ℕ → List Ptr) (c : Ptr) → WellFormed k at → WellFormed (enter c k) at
enter-WellFormed k at c w = WellFormed-tasks k (enter c k) at (enter-globals c k).0 (tasks k c) w
  where
    tasks :
        (k : Kernel) (c i : Ptr)
        → SameLinks (k.pcb i) ((enter c k).pcb i)
          × (((enter c k).pcb i).queue ≡ (k.pcb i).queue)
          × ((k.pcb i).priority ≤ ((enter c k).pcb i).priority)
          × (1 ≤ (k.pcb i).scheduler_priority → 1 ≤ ((enter c k).pcb i).scheduler_priority)
    tasks k c i = unfold enter in ground arith

aged-WellFormed' :
    (k : Kernel) (at : ℕ → List Ptr) (xs : List Ptr) → WellFormed k at → WellFormed (aged xs k) at
aged-WellFormed' k at xs w = WellFormed-tasks k (aged xs k) at refl (λ i. ground arith) w

objects-enter : (c : Ptr) (k : Kernel) → objects (enter c k) ≡ objects k
unfolding enter
objects-enter c k = elim (Bool-cases (ltb 1 (k.pcb c).scheduler_priority)) [
  | inl e ↦ rw e
  | inr e ↦ rw e
]

objects-leave : (k : Kernel) → objects (leave k) ≡ objects k
unfolding leave
objects-leave k = elim (Bool-cases (is_running (k.pcb k.current_running).status)) [
  | inl e ↦ ground arith
  | inr e ↦ ground arith
]

-- what the scheduler promises
abbrev pub Scheduled : Kernel → (ℕ → List Ptr) → Kernel → Type 0
Scheduled k at k' =
    WellFormed k' at × Picked k (at ready_queue) k'.current_running k' × (objects k' ≡ objects k)

both :
    (P Q R : Kernel → Type 0) (r : Run) (k' : Kernel)
    → r ≡ ok k'
    → Succeeds P r
    → Q k'
    → R k'
    → Succeeds (λ k''. Q k'' × P k'' × R k'') r
both P Q R r k' e p q t =
    subst (Succeeds (λ k''. Q k'' × P k'' × R k'')) (sym e) (q, subst (Succeeds P) e p, t)

-- When the queues are in order and a task is ready, scheduler ends with the queues as they were
-- and the running task one of the ready queue, of the highest scheduler priority and, among those,
-- of the longest wait; it is TASK_RUNNING, its wait is reset and its scheduler priority lowered
-- down to 1, every other ready task has waited one round more, and locks, semaphores, conditions
-- and barriers are kept.
pub scheduler-Scheduled :
    (k : Kernel) (at : ℕ → List Ptr) (x : Ptr) (xs : List Ptr)
    → WellFormed k at
    → at ready_queue ≡ x ∷ xs
    → Succeeds (Scheduled k at) (scheduler k)
scheduler-Scheduled k at x xs w e =
    let is : IsQueue k ready_queue (x ∷ xs) =
      subst (IsQueue k ready_queue) e (w.queue ready_queue) in
    let small : length (x ∷ xs) ≤ max_task_num =
      subst (λ (l : List Ptr). length l ≤ max_task_num) e (length-le k at w ready_queue) in
    let in_x : x ∈ at ready_queue = rw e (ground arith) in
    let picked : Succeeds (λ k'. Picked k (at ready_queue) k'.current_running k') (scheduler k) =
      subst (λ l. Succeeds (λ k'. Picked k l k'.current_running k') (scheduler k)) (sym e)
        (scheduler-Picked k x xs is small (w.priority ready_queue x in_x).1) in
    let c : Ptr = choice k (x ∷ xs) in
    both (λ k'. Picked k (at ready_queue) k'.current_running k') (λ k'. WellFormed k' at)
      (λ k'. objects k' ≡ objects k) (scheduler k) (enter c (aged (x ∷ xs) (leave k)))
      (scheduler-enter k x xs is small) picked
      (enter-WellFormed (aged (x ∷ xs) (leave k)) at c
        (aged-WellFormed' (leave k) at (x ∷ xs) (leave-WellFormed k at w)))
      (objects-enter c (aged (x ∷ xs) (leave k)) ∙ objects-leave k)

-- do_wait of a ready task moves it to the end of the other queue with the status given, and when
-- another task is ready, the scheduler chooses a best one of these.
pub do_wait-Scheduled :
    (k : Kernel) (at : ℕ → List Ptr) (p : Ptr) (q : ℕ) (s : TaskStatus) (x : Ptr) (xs : List Ptr)
    → WellFormed k at
    → p ∈ at ready_queue
    → ready_queue ≢ q
    → moved ready_queue q p at ready_queue ≡ x ∷ xs
    → Succeeds (Scheduled (suspend p q s k) (moved ready_queue q p at)) (do_wait p q s k)
      × (((suspend p q s k).pcb p).status ≡ s)
unfolding do_wait
do_wait-Scheduled k at p q s x xs w h ne e =
    let (w', status, same) = suspend-WellFormed k at p q s w h ne in
    (scheduler-Scheduled (suspend p q s k) (moved ready_queue q p at) x xs w' e, status)

-- do_wait of the only ready task panics: there is no task to run.
pub do_wait-panic :
    (k : Kernel) (at : ℕ → List Ptr) (p : Ptr) (q : ℕ) (s : TaskStatus)
    → WellFormed k at
    → p ∈ at ready_queue
    → ready_queue ≢ q
    → moved ready_queue q p at ready_queue ≡ []
    → do_wait p q s k ≡ panic
unfolding do_wait
do_wait-panic k at p q s w h ne e =
    let w' = (suspend-WellFormed k at p q s w h ne).0 in
    scheduler-panic (suspend p q s k)
      (subst (IsQueue (suspend p q s k) ready_queue) e (w'.queue ready_queue))
