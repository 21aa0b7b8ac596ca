-- ===== src/Process/Examples.antt =====
-- The theorem on new tasks, tried on a small machine with one free number.
use ucas_os.Common.{ℕ, ◌≡◌, refl, true, false, [], ◌∷◌, arith, ◌==◌, if◌then◌else◌, ◌∈◌}
use ucas_os.Slist.{Slist}
use ucas_os.Slist.FreeList.{IsFree}
use ucas_os.Kernel.{Kernel, user_process, pcb_of, wait_queue}
use ucas_os.Sched.WellFormed.{WellFormed, WellFormed-tasks}
use ucas_os.Process.{TaskInfo, init_pcb}
use ucas_os.Process.Joining.{Nowhere}
use ucas_os.Process.Spawn.{SpawnResult, init_pcb-SpawnResult}
use ucas_os.Fixture.{machine, machine-WellFormed, waiting}

-- number 7 is free
abbrev numbers : Slist
numbers i =
    if i == 0
    then record { valid = true; cursor = 7 }
    else record { valid = if i == 7 then false else true; cursor = 0 }

abbrev k : Kernel
k = record (machine 0) { pid_list = numbers }

abbrev program : TaskInfo
program = record { entry_point = 4096; type = user_process; priority = 3; name = 0 }

numbers-IsFree : IsFree numbers 16 (7 ∷ [])
numbers-IsFree = record {
  chain = ground arith;
  distinct = ground arith;
  complete = λ i p q v. ground arith;
}

k-WellFormed : WellFormed k waiting
k-WellFormed =
    WellFormed-tasks (machine 0) k waiting refl (λ i. ground arith) (machine-WellFormed 0)

idle : (x : ℕ) → x ∈ 7 ∷ [] → Nowhere (pcb_of x) waiting × (waiting (wait_queue x) ≡ [])
idle x m = let e : x ≡ 7 = ground arith in rw e ((λ q. ground arith), refl)

init_pcb-SpawnResult_example : SpawnResult k waiting program (7 ∷ []) (init_pcb 0 program k)
init_pcb-SpawnResult_example =
    init_pcb-SpawnResult 0 program k waiting (7 ∷ []) k-WellFormed numbers-IsFree (ground arith)
      idle
