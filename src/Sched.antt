-- ===== src/Sched.antt =====
-- kernel/sched/sched.c, the scheduler: the choice of the next task, sleeping, waiting and waking.
-- Each walk over a queue runs on fuel: there are 16 control blocks, so 17 rounds end every walk.
--
-- `do_scheduler` saves the registers of the task that leaves, calls `scheduler`, and loads those of
-- the one that comes (arch/mips/kernel/asm.S): the state here is that at the moment of the switch,
-- and what stands after a call of `do_wait` runs when the task is chosen again.
pub mod Scan
pub mod Pick
pub mod Order
pub mod WellFormed
pub mod Moves
pub mod Wake
pub mod Block
pub mod WakeAll
pub mod Sleep
pub mod Fair
pub mod Steps
pub mod Refinement
mod Examples
use ucas_os.Common.{
  ℕ, zero, suc, ◌+◌, ◌-◌, ◌*◌, ◌/◌, ◌%◌, ◌^◌, Bool, true, false, ◌&&◌, Option, none, some, ◌==◌,
  ltb, leb, if◌then◌else◌, upd,
}
use ucas_os.Kernel.{
  Ptr, null, Pcb, TaskStatus, task_running, task_ready, task_sleeping, Kernel, Run, ok, panic,
  diverges, fault, and_then, ready_queue, sleep_queue, max_task_num, set_queue, set_status,
  set_wait_time, set_scheduler_priority,
}
use ucas_os.Queue.{queue_is_empty, queue_push, queue_remove, queue_dequeue}

-- include/sched/time.h, milliseconds
abbrev pub time_slice : ℕ
time_slice = 10

abbrev pub walk_fuel : ℕ
walk_fuel = suc max_task_num

abbrev pub u32 : ℕ → ℕ
u32 n = n % 2 ^ 32

unfoldable pub get_ticks : Kernel → ℕ
get_ticks k = k.time_elapsed

unfoldable pub get_timer : Kernel → ℕ
get_timer k = u32 (k.time_elapsed * time_slice)

-- The variables of a walk: the task chosen so far, and its priority and waiting time.
pub record Best : Type 0 where
  pub selected : Ptr
  pub max_priority : ℕ
  pub max_wait_time : ℕ

-- the variables before the loop
abbrev pub unset : Ptr → Best
unset p = record { selected = p; max_priority = 1; max_wait_time = 0 }

-- the two tests of the loop body, for a task of priority `n` that has waited for `t`
unfoldable pub better : Ptr → ℕ → ℕ → Best → Best
better p n t b =
    let b₁ =
      if ltb b.max_priority n
      then record { selected = p; max_priority = n; max_wait_time = t }
      else b in
    if (n == b₁.max_priority) && leb b₁.max_wait_time t
    then record b₁ { selected = p; max_wait_time = t }
    else b₁

-- ++p->wait_time
abbrev pub age : Ptr → Kernel → Kernel
age p k = set_wait_time p (suc (k.pcb p).wait_time) k

-- The loop over a queue in `scheduler` and `do_unblock_one`. They differ in the priority they read,
-- `field`. `scheduler` keeps the chosen task in `current_running`, which the loop never reads.
unfoldable pub scan : (Pcb → ℕ) → ℕ → Ptr → Best → Kernel → Option (Best × Kernel)
scan field zero p b k = none
scan field (suc fuel) p b k =
    let k' = age p k in
    let rest =
      scan field fuel (k'.pcb p).next (better p (field (k.pcb p)) (k.pcb p).wait_time b) k' in
    if p == null then some (b, k) else rest

abbrev pub is_running : TaskStatus → Bool
is_running task_running = true
is_running _ = false

-- what `scheduler` does before its loop
unfoldable pub leave : Kernel → Kernel
leave k =
    let c = k.current_running in
    let k₁ = record k {
      pcb =
          upd k.pcb c
            (record (k.pcb c) { cursor_x = k.screen_cursor_x; cursor_y = k.screen_cursor_y });
    } in
    if is_running (k₁.pcb c).status then set_status c task_ready k₁ else k₁

-- and after it, with the task `c` chosen
unfoldable pub enter : Ptr → Kernel → Kernel
enter c k =
    let k₁ =
      if ltb 1 (k.pcb c).scheduler_priority
      then set_scheduler_priority c ((k.pcb c).scheduler_priority - 1) k
      else k in
    let k₂ = set_wait_time c 0 k₁ in
    let k₃ = record k₂ {
      screen_cursor_x = (k₂.pcb c).cursor_x;
      screen_cursor_y = (k₂.pcb c).cursor_y;
    } in
    let k₄ = set_status c task_running k₃ in
    record k₄ { current_running = c; entry_hi = (k₄.pcb c).pid }

unfoldable pub scheduler : Kernel → Run
scheduler k =
    if queue_is_empty ready_queue k
    then panic
    else (let k₁ = leave k in
        elim (scan (λ p. p.scheduler_priority) walk_fuel (k₁.queues ready_queue).head
          (unset k.current_running) k₁) [
            | none ↦ diverges
            | some (b, k₂) ↦ ok (enter b.selected k₂)
          ])

-- the moves of `do_wait`, before it calls `do_scheduler`
unfoldable pub suspend : Ptr → ℕ → TaskStatus → Kernel → Kernel
suspend p q s k = set_status p s (set_queue p q (queue_push q p (queue_remove ready_queue p k).1))

unfoldable pub do_wait : Ptr → ℕ → TaskStatus → Kernel → Run
do_wait p q s k = scheduler (suspend p q s k)

-- what do_unblock_one does with the task it has selected
unfoldable pub wake : ℕ → Ptr → Kernel → Kernel
wake q p k =
    let k₁ = set_wait_time p 0 k in
    let k₂ = set_scheduler_priority p (suc (k₁.pcb p).scheduler_priority) k₁ in
    let k₃ = queue_push ready_queue p (queue_remove q p k₂).1 in
    set_status p task_ready (set_queue p ready_queue k₃)

-- `selected` starts unset, so a queue with no task of priority 1 or more leads to a fault.
unfoldable pub do_unblock_one : ℕ → Kernel → Run
do_unblock_one q k =
    if queue_is_empty q k
    then ok k
    else (elim (scan (λ p. p.priority) walk_fuel (k.queues q).head (unset null) k) [
      | none ↦ diverges
      | some (b, k₁) ↦ if b.selected == null then fault else ok (wake q b.selected k₁)
    ])

-- one round of do_unblock_all
unfoldable pub release_head : ℕ → Kernel → Kernel
release_head q k =
    let (p, k₁) = queue_dequeue q k in
    let k₂ = set_wait_time p 0 (queue_push ready_queue p k₁) in
    let k₃ = set_scheduler_priority p (suc (k₂.pcb p).scheduler_priority) k₂ in
    set_status p task_ready (set_queue p ready_queue k₃)

unfoldable pub unblock_loop : ℕ → ℕ → Kernel → Run
unblock_loop zero q k = diverges
unblock_loop (suc fuel) q k =
    let rest = unblock_loop fuel q (release_head q k) in if queue_is_empty q k then ok k else rest

unfoldable pub do_unblock_all : ℕ → Kernel → Run
do_unblock_all q k = unblock_loop walk_fuel q k

unfoldable pub do_sleep : ℕ → Kernel → Run
do_sleep sleep_time k =
    let c = k.current_running in
    let t = u32 (get_ticks k + sleep_time / time_slice) in
    do_wait c sleep_queue task_sleeping
      (record k { pcb = upd k.pcb c (record (k.pcb c) { awakened_time = t }) })

-- the body of the `if` in check_sleeping; the status it sets is that of the running task
unfoldable pub rouse : Ptr → Kernel → Kernel
rouse p k =
    let k₁ = queue_push ready_queue p (queue_remove sleep_queue p k).1 in
    set_status k₁.current_running task_ready (set_queue p ready_queue k₁)

unfoldable pub sleep_loop : ℕ → Ptr → Kernel → Run
sleep_loop zero p k = diverges
sleep_loop (suc fuel) p k =
    let k' = if leb (k.pcb p).awakened_time (get_ticks k) then rouse p k else k in
    let rest = sleep_loop fuel (k'.pcb p).next k' in if p == null then ok k else rest

unfoldable pub check_sleeping : Kernel → Run
check_sleeping k = sleep_loop walk_fuel (k.queues sleep_queue).head k
