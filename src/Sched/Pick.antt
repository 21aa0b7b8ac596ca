-- ===== src/Sched/Pick.antt =====
-- `scheduler` of kernel/sched/sched.c as a whole.
use ucas_os.Common.{
  ℕ, suc, ◌-◌, ◌≤◌, ◌≡◌, ◌≢◌, false, List, [], ◌∷◌, arith, ltb, if◌then◌else◌, has, ◌∈◌, length,
  ◌∙◌, ap, sym, subst,
}
use ucas_os.Kernel.{
  Succeeds, Queue, Ptr, null, Pcb, Kernel, ok, panic, ready_queue, task_running, max_task_num,
}
use ucas_os.Queue.Linked.{IsQueue, Linked, Linked-frame, SameLinks}
use ucas_os.Queue.{queue_is_empty}
use ucas_os.Sched.{Best, scheduler, leave, enter, unset, walk_fuel}
use ucas_os.Sched.Scan.{best_of, aged, scan_lem}
use ucas_os.Sched.Order.{IsBest, NoBetter, best_of-IsBest}

-- `leave` changes the cursor and the status of the running task only
pub leave-links :
    (k : Kernel) (i : Ptr)
    → (((leave k).pcb i).next ≡ (k.pcb i).next)
      × (((leave k).pcb i).prev ≡ (k.pcb i).prev)
      × (((leave k).pcb i).scheduler_priority ≡ (k.pcb i).scheduler_priority)
      × (((leave k).pcb i).wait_time ≡ (k.pcb i).wait_time)
unfolding leave
leave-links k i = ground arith

pub leave-queues : (k : Kernel) → (leave k).queues ≡ k.queues
unfolding leave
leave-queues k = ground arith

-- the task that `scheduler` chooses from the queue `xs`
abbrev pub choice : Kernel → List Ptr → Ptr
choice k xs =
    (best_of (λ p. p.scheduler_priority) (leave k).pcb xs (unset k.current_running)).selected

pub not_empty :
    (k : Kernel) (q : ℕ) (x : Ptr) (xs : List Ptr)
    → IsQueue k q (x ∷ xs)
    → queue_is_empty q k ≡ false
unfolding queue_is_empty
not_empty k q x xs is = ground (arith, is)

pub scheduler-enter :
    (k : Kernel) (x : Ptr) (xs : List Ptr)
    → IsQueue k ready_queue (x ∷ xs)
    → length (x ∷ xs) ≤ max_task_num
    → scheduler k ≡ ok (enter (choice k (x ∷ xs)) (aged (x ∷ xs) (leave k)))
unfolding scheduler
scheduler-enter k x xs is small =
    let linked : Linked (leave k).pcb null (x ∷ xs) null =
      Linked-frame k.pcb (leave k).pcb null (x ∷ xs) null
        (λ i m. ((leave-links k i).0, (leave-links k i).1)) is.linked in
    let head : ((leave k).queues ready_queue).head ≡ x =
      ap (λ (f : ℕ → Queue). (f ready_queue).head) (leave-queues k) ∙ is.head in
    rw (not_empty k ready_queue x xs is, head)
      (rw (
        scan_lem (λ p. p.scheduler_priority) walk_fuel (x ∷ xs) null (unset k.current_running)
          (leave k) (omega arith) linked is.distinct))

-- what `enter` does to a control block
enter-other : (c : Ptr) (k : Kernel) (i : Ptr) → i ≢ c → (enter c k).pcb i ≡ k.pcb i
unfolding enter
enter-other c k i h = ground arith

enter-chosen :
    (c : Ptr) (k : Kernel)
    → (((enter c k).pcb c).status ≡ task_running)
      × (((enter c k).pcb c).wait_time ≡ 0)
      × (((enter c k).pcb c).scheduler_priority ≡ (
          if ltb 1 (k.pcb c).scheduler_priority
          then (k.pcb c).scheduler_priority - 1
          else (k.pcb c).scheduler_priority))
      × ((enter c k).entry_hi ≡ (k.pcb c).pid)
unfolding enter
enter-chosen c k = ground arith

pub enter-links : (c : Ptr) (k : Kernel) (i : Ptr) → SameLinks (k.pcb i) ((enter c k).pcb i)
unfolding enter
enter-links c k i = ground arith

pub enter-globals :
    (c : Ptr) (k : Kernel) → ((enter c k).queues ≡ k.queues) × ((enter c k).current_running ≡ c)
unfolding enter
enter-globals c k = ground arith

leave-pid : (k : Kernel) (i : Ptr) → ((leave k).pcb i).pid ≡ (k.pcb i).pid
unfolding leave
leave-pid k i = ground arith

-- The state `k'` after a run of `scheduler` from `k` with the ready queue `xs`: it has chosen `c`, a
-- best task of the queue, which starts to run; every other task of the queue is older by one.
pub record Picked (k : Kernel) (xs : List Ptr) (c : Ptr) (k' : Kernel) : Type 0 where
  pub current : k'.current_running ≡ c
  pub from_queue : c ∈ xs
  pub top :
      (y : Ptr)
      → y ∈ xs
      → NoBetter
          (k.pcb y).scheduler_priority
          (k.pcb y).wait_time
          (k.pcb c).scheduler_priority
          (k.pcb c).wait_time
  pub running : (k'.pcb c).status ≡ task_running
  pub wait : (k'.pcb c).wait_time ≡ 0
  pub priority : (k'.pcb c).scheduler_priority ≡ (
      if ltb 1 (k.pcb c).scheduler_priority
      then (k.pcb c).scheduler_priority - 1
      else (k.pcb c).scheduler_priority)
  pub entry_hi : k'.entry_hi ≡ (k.pcb c).pid
  pub others : (y : Ptr) → y ∈ xs → y ≢ c → (k'.pcb y).wait_time ≡ suc (k.pcb y).wait_time
  pub kept : (y : Ptr) → y ≢ c → (k'.pcb y).scheduler_priority ≡ (k.pcb y).scheduler_priority
  pub queue : IsQueue k' ready_queue xs

-- the steps from `k` to the state after `scheduler`, at one control block
module _ (k : Kernel) (xs : List Ptr) (c : Ptr) where
  abbrev mid : Kernel
  mid = aged xs (leave k)

  mid_links : (i : Ptr) → SameLinks (k.pcb i) ((enter c mid).pcb i)
  mid_links i = ground (arith, enter-links c (aged xs (leave k)) i, leave-links k i)

  mid_chosen :
      c ∈ xs
      → ((mid.pcb c).scheduler_priority ≡ (k.pcb c).scheduler_priority)
        × ((mid.pcb c).pid ≡ (k.pcb c).pid)
  mid_chosen h = ground (arith, leave-links k c, leave-pid k c)

  mid_wait : (y : Ptr) → y ∈ xs → y ≢ c → ((enter c mid).pcb y).wait_time ≡ suc (k.pcb y).wait_time
  mid_wait y h ne =
      ap (λ (p : Pcb). p.wait_time) (enter-other c (aged xs (leave k)) y ne)
      ∙ ground (arith, leave-links k y)

  mid_priority :
      (y : Ptr) → y ≢ c → ((enter c mid).pcb y).scheduler_priority ≡ (k.pcb y).scheduler_priority
  mid_priority y ne =
      ap (λ (p : Pcb). p.scheduler_priority) (enter-other c (aged xs (leave k)) y ne)
      ∙ ground (arith, leave-links k y)

  mid-IsQueue : IsQueue k ready_queue xs → IsQueue (enter c mid) ready_queue xs
  mid-IsQueue is =
      let same : (enter c mid).queues ready_queue ≡ k.queues ready_queue = mid_queues in
      record {
        head = ap (λ (q : Queue). q.head) same ∙ is.head;
        tail = ap (λ (q : Queue). q.tail) same ∙ is.tail;
        linked = Linked-frame k.pcb (enter c mid).pcb null xs null (λ i h. mid_links i) is.linked;
        distinct = is.distinct;
      }
    where
      mid_queues : (enter c mid).queues ready_queue ≡ k.queues ready_queue
      mid_queues =
          ap (λ (f : ℕ → Queue). f ready_queue)
            ((enter-globals c (aged xs (leave k))).0 ∙ leave-queues k)

enter-Picked :
    (k : Kernel) (xs : List Ptr) (b : Best)
    → IsQueue k ready_queue xs
    → IsBest (λ p. p.scheduler_priority) (leave k).pcb (λ y. has y xs) b
    → Picked k xs b.selected (enter b.selected (mid k xs b.selected))
enter-Picked k xs b is best =
    let c : Ptr = b.selected in
    let k₁ : Kernel = mid k xs c in
    let (running, wait, priority, hi) = enter-chosen c k₁ in
    let (same_priority, same_pid) = mid_chosen k xs c best.chosen in
    record {
      current = (enter-globals c k₁).1;
      from_queue = best.chosen;
      top = λ y in_y.
          let (_, _, sp, wt) = leave-links k y in
          let (_, _, sp', wt') = leave-links k c in
          rw (← sp, ← wt, ← sp', ← wt') (rw (best.priority, best.wait) (best.top y in_y));
      running = running;
      wait = wait;
      priority = rw same_priority at priority;
      entry_hi = hi ∙ same_pid;
      others = mid_wait k xs c;
      kept = mid_priority k xs c;
      queue = mid-IsQueue k xs c is;
    }

at_current :
    (k : Kernel) (xs : List Ptr) (c : Ptr) (k' : Kernel)
    → Picked k xs c k'
    → Picked k xs k'.current_running k'
at_current k xs c k' h = subst (λ z. Picked k xs z k') (sym h.current) h

-- With a ready queue that is not empty, and whose first task has a priority of 1 or more,
-- `scheduler` ends, and has picked a task of the queue that no other task of the queue beats.
pub scheduler-Picked :
    (k : Kernel) (x : Ptr) (xs : List Ptr)
    → IsQueue k ready_queue (x ∷ xs)
    → length (x ∷ xs) ≤ max_task_num
    → 1 ≤ (k.pcb x).scheduler_priority
    → Succeeds (λ k'. Picked k (x ∷ xs) k'.current_running k') (scheduler k)
scheduler-Picked k x xs is small pos =
    let b : Best =
      best_of (λ p. p.scheduler_priority) (leave k).pcb (x ∷ xs) (unset k.current_running) in
    let h : Picked k (x ∷ xs) b.selected (enter b.selected (mid k (x ∷ xs) b.selected)) =
      enter-Picked k (x ∷ xs) b is (
        best_of-IsBest (λ p. p.scheduler_priority) (leave k).pcb x xs k.current_running
          (rw (leave-links k x).2 pos)) in
    subst (Succeeds (λ k'. Picked k (x ∷ xs) k'.current_running k'))
      (sym (scheduler-enter k x xs is small))
      (at_current k (x ∷ xs) b.selected (enter b.selected (mid k (x ∷ xs) b.selected)) h)

-- With an empty ready queue it panics.
pub scheduler-panic : (k : Kernel) → IsQueue k ready_queue [] → scheduler k ≡ panic
unfolding scheduler queue_is_empty
scheduler-panic k is = ground (arith, is)
