-- ===== src/Sched/Sleep.antt =====
-- `check_sleeping` of kernel/sched/sched.c, which each timer interrupt calls.
use mathlib.Core.List.{append-nil}
use native.Mathlib.Decide.{ℕ_discrete}
use ucas_os.Common.{
  ◌-◌, ◌⊎◌, inl, inr, ℕ, suc, ◌+◌, ◌≤◌, ◌<◌, ◌≡◌, ◌≢◌, refl, true, false, List, [], ◌∷◌, ◌++◌,
  arith, ◌==◌, leb, ◌∈◌, length, ◌∙◌, ap, sym, subst, has-append, length-append,
}
use ucas_os.Kernel.{
  Ptr, null, Pcb, Kernel, ok, Succeeds, max_task_num, ready_queue, sleep_queue, task_ready,
  set_status,
}
use ucas_os.Queue.{queue_push, queue_remove}
use ucas_os.Queue.Linked.{IsQueue, Linked, first, Linked-split, first-append}
use ucas_os.Sched.{get_ticks, rouse, sleep_loop, check_sleeping, walk_fuel}
use ucas_os.Sched.WellFormed.{WellFormed, WellFormed-tasks, length-le}
use ucas_os.Sched.Moves.{move, moved, move-WellFormed, move_task}

-- the tasks of `xs` have longer to sleep
abbrev pub Asleep : Kernel → List Ptr → Type 0
Asleep k [] = Unit {0}
Asleep k (x ∷ xs) = (k.time_elapsed < (k.pcb x).awakened_time) × Asleep k xs

push_next_null : (q : ℕ) (p : Ptr) (k : Kernel) → ((queue_push q p k).pcb p).next ≡ null
unfolding queue_push
push_next_null q p k = ground arith

rouse_next : (p : Ptr) (k : Kernel) → ((rouse p k).pcb p).next ≡ null
unfolding rouse
rouse_next p k = ground (arith, push_next_null ready_queue p (queue_remove sleep_queue p k).1)

pub rouse-WellFormed :
    (k : Kernel) (at : ℕ → List Ptr) (p : Ptr)
    → WellFormed k at
    → p ∈ at sleep_queue
    → WellFormed (rouse p k) (moved sleep_queue ready_queue p at)
unfolding rouse
rouse-WellFormed k at p w h =
    let k' : Kernel = move sleep_queue ready_queue p k in
    WellFormed-tasks k' (set_status k'.current_running task_ready k')
      (moved sleep_queue ready_queue p at) refl (λ i. ground arith)
      (move-WellFormed k at w sleep_queue ready_queue p (λ e. absurd (omega arith)) h)

-- the loop passes the tasks that have longer to sleep
sleep_loop-skip :
    (fuel : ℕ) (ys zs : List Ptr) (b : Ptr) (k : Kernel)
    → Linked k.pcb b ys (first zs null)
    → Asleep k ys
    → sleep_loop (length ys + fuel) (first (ys ++ zs) null) k ≡ sleep_loop fuel (first zs null) k
sleep_loop-skip fuel [] zs b k l a = ap (λ n. sleep_loop n (first zs null) k) (omega arith)
sleep_loop-skip fuel (y ∷ ys) zs b k (nz, p, n, l) (late, a) =
    ap (λ n. sleep_loop n y k) (omega arith)
    ∙ (step (length ys + fuel) ∙ sleep_loop-skip fuel ys zs y k l a)
  where
    step : (f : ℕ) → sleep_loop (suc f) y k ≡ sleep_loop f (first (ys ++ zs) null) k
    step f =
        unfold sleep_loop get_ticks in
        (let busy : (y == null) ≡ false = ground arith in
          let not_due : leb (k.pcb y).awakened_time k.time_elapsed ≡ false = ground arith in
          let nx : (k.pcb y).next ≡ first (ys ++ zs) null = n ∙ sym (first-append ys zs null) in
          rw (busy, not_due) (rw nx))

sleep_loop-null : (fuel : ℕ) (k : Kernel) → sleep_loop (suc fuel) null k ≡ ok k
unfolding sleep_loop
sleep_loop-null fuel k = refl

sleep_loop-due :
    (fuel : ℕ) (x : Ptr) (k : Kernel)
    → x ≢ null
    → (k.pcb x).awakened_time ≤ k.time_elapsed
    → sleep_loop (suc (suc fuel)) x k ≡ ok (rouse x k)
sleep_loop-due fuel x k nz due =
    step
    ∙ (ap (λ p. sleep_loop (suc fuel) p (rouse x k)) (rouse_next x k)
        ∙ sleep_loop-null fuel (rouse x k))
  where
    step :
        sleep_loop (suc (suc fuel)) x k ≡ sleep_loop (suc fuel) ((rouse x k).pcb x).next (rouse x k)
    step =
        unfold sleep_loop get_ticks in
        (let busy : (x == null) ≡ false = ground arith in
          let is_due : leb (k.pcb x).awakened_time k.time_elapsed ≡ true = ground arith in
          rw (busy, is_due))

-- check_sleeping ends and changes nothing when no sleeper has reached its time.
pub check_sleeping_none :
    (k : Kernel) (at : ℕ → List Ptr)
    → WellFormed k at
    → Asleep k (at sleep_queue)
    → check_sleeping k ≡ ok k
unfolding check_sleeping
check_sleeping_none k at w a =
    let xs : List Ptr = at sleep_queue in
    let is = w.queue sleep_queue in
    let f : ℕ = 16 - length xs in
    let e : walk_fuel ≡ length xs + suc f = omega (arith, length-le k at w sleep_queue) in
    rw is.head (
      ap (λ n. sleep_loop n (first xs null) k) e
      ∙ (ap (λ l. sleep_loop (length xs + suc f) (first l null) k) (sym (append-nil xs))
          ∙ (sleep_loop-skip (suc f) xs [] null k is.linked a ∙ sleep_loop-null f k)))

-- the first task of the sleep queue that is due, and no other, is roused
pub rouse_first :
    (k : Kernel) (at : ℕ → List Ptr) (ys : List Ptr) (x : Ptr) (zs : List Ptr)
    → WellFormed k at
    → at sleep_queue ≡ ys ++ x ∷ zs
    → Asleep k ys
    → (k.pcb x).awakened_time ≤ k.time_elapsed
    → check_sleeping k ≡ ok (rouse x k)
unfolding check_sleeping
rouse_first k at ys x zs w e a due =
    let is : IsQueue k sleep_queue (ys ++ x ∷ zs) =
      subst (IsQueue k sleep_queue) e (w.queue sleep_queue) in
    let small : length (ys ++ x ∷ zs) ≤ max_task_num =
      subst (λ (l : List Ptr). length l ≤ max_task_num) e (length-le k at w sleep_queue) in
    let f : ℕ = 15 - length ys in
    let h : walk_fuel ≡ length ys + suc (suc f) = omega (arith, length-append ys (x ∷ zs)) in
    let (l, (nz, p, n, r)) = Linked-split k.pcb null ys (x ∷ zs) null is.linked in
    rw is.head (
      ap (λ n. sleep_loop n (first (ys ++ x ∷ zs) null) k) h
      ∙ (sleep_loop-skip (suc (suc f)) ys (x ∷ zs) null k l a ∙ sleep_loop-due f x k nz due))

-- After `check_sleeping` has roused `x` alone: the task is in the ready queue with its old status, and
-- it is the running task whose status says ready.
pub record Roused (k : Kernel) (at : ℕ → List Ptr) (x : Ptr) (k' : Kernel) : Type 0 where
  pub well_formed : WellFormed k' (moved sleep_queue ready_queue x at)
  pub running : (k'.pcb k'.current_running).status ≡ task_ready
  pub status : (x ≡ k.current_running) ⊎ ((k'.pcb x).status ≡ (k.pcb x).status)

pub rouse_current : (p : Ptr) (k : Kernel) → (rouse p k).current_running ≡ k.current_running
unfolding rouse queue_push queue_remove
rouse_current p k = ground arith

rouse_running :
    (p : Ptr) (k : Kernel) → ((rouse p k).pcb (rouse p k).current_running).status ≡ task_ready
unfolding rouse
rouse_running p k = ground arith

rouse_status :
    (p : Ptr) (k : Kernel) → p ≢ k.current_running → ((rouse p k).pcb p).status ≡ (k.pcb p).status
unfolding rouse
rouse_status p k ne =
    let k' : Kernel = move sleep_queue ready_queue p k in
    let e : k'.current_running ≡ k.current_running = move_current in
    let same : (k'.pcb p).status ≡ (k.pcb p).status =
      ap (λ (t : Pcb). t.status) (move_task sleep_queue ready_queue p k) in
    ground arith
  where
    move_current : (move sleep_queue ready_queue p k).current_running ≡ k.current_running
    move_current = unfold queue_push queue_remove in ground arith

-- check_sleeping, at the first sleeper of the queue whose time has come, moves that sleeper alone
-- to the ready queue, whoever stands behind it, and it is the running task, not the sleeper, whose
-- status becomes TASK_READY.
pub check_sleeping-Roused :
    (k : Kernel) (at : ℕ → List Ptr) (ys : List Ptr) (x : Ptr) (zs : List Ptr)
    → WellFormed k at
    → at sleep_queue ≡ ys ++ x ∷ zs
    → Asleep k ys
    → (k.pcb x).awakened_time ≤ k.time_elapsed
    → Succeeds (Roused k at x) (check_sleeping k)
check_sleeping-Roused k at ys x zs w e a due =
    let in_x : x ∈ at sleep_queue = rw e (ground (arith, has-append x ys (x ∷ zs))) in
    subst (Succeeds (Roused k at x)) (sym (rouse_first k at ys x zs w e a due)) (record {
      well_formed = rouse-WellFormed k at x w in_x;
      running = rouse_running x k;
      status = elim (ℕ_discrete x k.current_running) [
        | yes e ↦ inl e
        | no ne ↦ inr (rouse_status x k ne)
      ];
    })
