-- ===== src/Syscall/Refinement.antt =====
-- The system calls keep the promise of the abstract steps of the scheduler (system_call_helper of
-- kernel/exception/syscall.c).
use ucas_os.Common.{◌≤◌, true, false, Bool, length}
use ucas_os.Kernel.{Kernel, ready_queue}
use ucas_os.Sched.Steps.{Places, Reach, Running}
use ucas_os.Process
use ucas_os.Syscall.Requests.{
  Request, barrier_init, condition_init, semaphore_init, spawn, kill, exit, mutex_lock_init,
  init_mac, fread, fwrite, fseek,
}
use ucas_os.Syscall.Machine.{Machine, Result, finished, panics, hangs, faults}

-- The call ends, in a state that the steps lead to; it stops the machine only when no other task is
-- ready.
abbrev pub Refined : {D B : Type 0} → Places → Result D B → Type 0
Refined at (finished sent m) = (at' : Places) × Reach at at' × Running m.kernel at'
Refined at panics = length (at ready_queue) ≤ 1
Refined at hangs = ⊥
Refined at faults = ⊥

-- The calls that neither make nor remove a task, set up a lock or another object, reset the network
-- controller, nor go through the contents of a file.
abbrev pub is_plain : Request → Bool
is_plain (barrier_init barrier goal) = false
is_plain (condition_init condition) = false
is_plain (semaphore_init s value) = false
is_plain (spawn task) = false
is_plain (kill pid) = false
is_plain exit = false
is_plain (mutex_lock_init lock) = false
is_plain init_mac = false
is_plain (fread fd buf size) = false
is_plain (fwrite fd buf size) = false
is_plain (fseek fd offset) = false
is_plain _ = true
