-- ===== src/Sched/Examples.antt =====
-- The theorems on the scheduler, tried on a small machine.
use ucas_os.Common.{ℕ, suc, ◌<◌, ◌≡◌, ◌≢◌, refl, List, [], ◌∷◌, arith}
use ucas_os.Kernel.{Ptr, Kernel, Succeeds, task_sleeping, ready_queue, sleep_queue}
use ucas_os.Sched.{scheduler, suspend, do_unblock_one, do_unblock_all, check_sleeping}
use ucas_os.Sched.WellFormed.{WellFormed}
use ucas_os.Sched.Moves.{moved}
use ucas_os.Sched.Wake.{Unblocked, suspend-WellFormed, do_unblock_one-Unblocked}
use ucas_os.Sched.WakeAll.{Drained, do_unblock_all-Drained}
use ucas_os.Sched.Block.{Scheduled, scheduler-Scheduled}
use ucas_os.Sched.Fair.{turns, total, turns-RunsWithin}
use ucas_os.Sched.Sleep.{Roused, check_sleeping-Roused}
use ucas_os.Fixture.{machine, machine-WellFormed, waiting}

abbrev k : Kernel
k = machine 0

differ : ready_queue ≢ sleep_queue
differ = ground arith

-- the same machine when only task 2 is ready
abbrev lone : Kernel
lone = suspend 2 sleep_queue task_sleeping k

abbrev lone_queues : ℕ → List Ptr
lone_queues = moved ready_queue sleep_queue 2 waiting

lone-WellFormed : WellFormed lone lone_queues
lone-WellFormed =
    (suspend-WellFormed k waiting 2 sleep_queue task_sleeping (machine-WellFormed 0) refl differ).0

scheduler-Scheduled_example : Succeeds (Scheduled k waiting) (scheduler k)
scheduler-Scheduled_example = scheduler-Scheduled k waiting 2 (3 ∷ []) (machine-WellFormed 0) refl

do_unblock_one-Unblocked_example : Succeeds (Unblocked k waiting 5) (do_unblock_one 5 k)
do_unblock_one-Unblocked_example =
    do_unblock_one-Unblocked k waiting 5 5 [] (machine-WellFormed 0) (ground arith) refl

do_unblock_all-Drained_example : Succeeds (Drained k waiting 5) (do_unblock_all 5 k)
do_unblock_all-Drained_example =
    do_unblock_all-Drained k waiting 5 (machine-WellFormed 0) (ground arith)

check_sleeping-Roused_example :
    Succeeds (Roused (machine 100) waiting 4) (check_sleeping (machine 100))
check_sleeping-Roused_example =
    check_sleeping-Roused (machine 100) waiting [] 4 [] (machine-WellFormed 100) refl tt
      (ground arith)

-- tasks 1 and 2 have a scheduler priority of 2 each
turns-RunsWithin_example :
    (n : ℕ) × (n < total k (waiting ready_queue))
    × Succeeds (λ k'. k'.current_running ≡ 3) (turns (suc n) k)
turns-RunsWithin_example = turns-RunsWithin k waiting 3 (machine-WellFormed 0) refl
