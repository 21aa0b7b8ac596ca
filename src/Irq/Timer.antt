-- ===== src/Irq/Timer.antt =====
-- The interrupts keep the promise of the abstract steps of the scheduler (kernel/exception/irq.c).
use ucas_os.Common.{
  ℕ, suc, ◌≤◌, ◌≡◌, ◌≢◌, ◌⊎◌, refl, inl, inr, true, false, List, [], ◌∷◌, ◌++◌, arith, ◌==◌, leb,
  ◌∈◌, ap, sym, subst, Bool-cases, has-append,
}
use ucas_os.Kernel.{
  Ptr, Kernel, Run, ok, panic, diverges, fault, Succeeds, and_then, ready_queue, sleep_queue,
  recv_block_queue,
}
use ucas_os.Queue.{queue_is_empty}
use ucas_os.Sched.{scheduler, check_sleeping, u32, do_unblock_one}
use ucas_os.Sched.Moves.{moved}
use ucas_os.Sched.Sleep.{Asleep, check_sleeping_none, rouse_first, rouse_current, rouse-WellFormed}
use ucas_os.Sched.Steps.{Places, Reach, here, next, wake, Reach-trans, Running, Wakes}
use ucas_os.Sched.Refinement.{Advances, scheduler-Advances, do_unblock_one-Wakes, grown}
use ucas_os.Sync.Steps.{Running-objects}
use ucas_os.Mac.{Bus}
use ucas_os.Irq.{bit_of, int1_sr, irq_timer, irq_mac, irq_ip3_helper, interrupt_helper}

-- the first task of a list that is due
abbrev FirstDue : Kernel → List Ptr → Type 0
FirstDue k xs =
    (ys : List Ptr) × (x : Ptr) × (zs : List Ptr) × (xs ≡ ys ++ x ∷ zs)
    × Asleep k ys
    × ((k.pcb x).awakened_time ≤ k.time_elapsed)

find_due : (k : Kernel) (xs : List Ptr) → Asleep k xs ⊎ FirstDue k xs
find_due k [] = inl tt
find_due k (x ∷ xs) = elim (Bool-cases (leb (k.pcb x).awakened_time k.time_elapsed)) [
  | inl e ↦ inr ([], x, xs, refl, tt, ground arith)
  | inr e ↦ elim (find_due k xs) [
    | inl a ↦ inl (ground arith, a)
    | inr (ys, y, zs, s, a, due) ↦ inr (x ∷ ys, y, zs, ap (λ l. x ∷ l) s, (ground arith, a), due)
  ]
]

check_sleeping-Wakes :
    (k : Kernel) (at : Places) → Running k at → Wakes k.current_running at (check_sleeping k)
check_sleeping-Wakes k at run = elim (find_due k (at sleep_queue)) [
  | inl a ↦
      subst (Wakes k.current_running at) (sym (check_sleeping_none k at run.well_formed a))
        (at, here, run, refl, omega arith)
  | inr (ys, x, zs, e, a, due) ↦
      let in_x : x ∈ at sleep_queue = rw e (ground (arith, has-append x ys (x ∷ zs))) in
      let (m, le) = grown at sleep_queue x k.current_running run.current in
      subst (Wakes k.current_running at) (sym (rouse_first k at ys x zs run.well_formed e a due)) (
        moved sleep_queue ready_queue x at,
        next here (wake sleep_queue x (λ e. absurd (omega arith)) in_x),
        record {
          well_formed = rouse-WellFormed k at x run.well_formed in_x;
          current =
              subst (λ t. t ∈ moved sleep_queue ready_queue x at ready_queue)
                (sym (rouse_current x k)) m;
        },
        rouse_current x k,
        le,
      )
]

Wakes-Advances : (c : Ptr) (at : Places) (r : Run) → Wakes c at r → Succeeds (Advances at) r
Wakes-Advances c at (ok k) (at', s, run, _, _) = (at', s, run)
Wakes-Advances c at panic h = h
Wakes-Advances c at diverges h = h
Wakes-Advances c at fault h = h

Advances-after :
    (at at' : Places) (r : Run)
    → Reach at at'
    → Succeeds (Advances at') r
    → Succeeds (Advances at) r
Advances-after at at' (ok k) s (at'', t, run) = (at'', Reach-trans s t, run)
Advances-after at at' panic s h = h
Advances-after at at' diverges s h = h
Advances-after at at' fault s h = h

and_then-Advances :
    (at : Places) (r : Run) (f : Kernel → Run)
    → Succeeds (Advances at) r
    → ((k : Kernel) (at' : Places) → Running k at' → Succeeds (Advances at') (f k))
    → Succeeds (Advances at) (and_then r f)
and_then-Advances at (ok k) f (at', s, run) h = Advances-after at at' (f k) s (h k at' run)
and_then-Advances at panic f g h = g
and_then-Advances at diverges f g h = g
and_then-Advances at fault f g h = g

irq_timer-Advances :
    (k : Kernel) (at : Places) → Running k at → Succeeds (Advances at) (irq_timer k)
unfolding irq_timer
irq_timer-Advances k at run =
    let k' : Kernel = record k { time_elapsed = u32 (suc k.time_elapsed) } in
    and_then-Advances at (check_sleeping k') scheduler
      (Wakes-Advances k'.current_running at (check_sleeping k')
        (check_sleeping-Wakes k' at (Running-objects k k' at refl refl refl run)))
      scheduler-Advances

irq_mac-Advances :
    {B : Type 0} (bus : Bus B) (k : Kernel) (b : B) (at : Places)
    → Running k at
    → Succeeds (Advances at) (irq_mac bus k b).0
unfolding irq_mac
irq_mac-Advances bus k b at run = elim (Bool-cases (queue_is_empty recv_block_queue k)) [
  | inl e ↦ rw e (at, here, run)
  | inr e ↦ rw e (
      Wakes-Advances k.current_running at (do_unblock_one recv_block_queue k)
        (do_unblock_one-Wakes k at recv_block_queue run (λ e. absurd (omega arith))))
]

is_zero : (n : ℕ) → (n == 0) ≡ true → n ≡ 0
is_zero n e = ground arith

not_zero : (n : ℕ) → n ≢ 0 → (n == 0) ≡ false
not_zero n ne = ground arith

-- An interrupt of the timer, or of the network controller, in a state whose queues are in order
-- and whose running task is ready, ends in such a state again, which is reached by moves of a
-- ready task to another queue and of a waiting task to the ready queue.
pub interrupt_helper-Advances :
    {B : Type 0} (bus : Bus B) (k : Kernel) (b : B) (at : Places)
    → Running k at
    → let cause = (k.pcb k.current_running).user_regs_context.cp0_cause in
      (bit_of 15 cause ≢ 0) ⊎ ((bit_of 11 cause ≢ 0) × (bit_of 3 (bus.load int1_sr b).0 ≢ 0))
      → Succeeds (Advances at) (interrupt_helper bus k b).0
unfolding interrupt_helper irq_ip3_helper
interrupt_helper-Advances bus k b at run known =
    let cause = (k.pcb k.current_running).user_regs_context.cp0_cause in
    elim (Bool-cases (bit_of 15 cause == 0)) [
      | inr e ↦ rw e (irq_timer-Advances k at run)
      | inl e ↦ elim known [
        | inl ne ↦ absurd (ne (is_zero (bit_of 15 cause) e))
        | inr (ip3, sr) ↦
            rw (e, not_zero (bit_of 11 cause) ip3)
              (rw (not_zero (bit_of 3 (bus.load int1_sr b).0) sr)
                (irq_mac-Advances bus k (bus.load int1_sr b).1 at run))
      ]
    ]
