-- ===== src/Sync/Examples.antt =====
-- The theorems on locks, semaphores, conditions and barriers, tried on a small machine.
use ucas_os.Common.{refl, [], arith, inl}
use ucas_os.Common.Int.{pos, negsuc}
use ucas_os.Kernel.{Kernel, Succeeds}
use ucas_os.Sync.{do_mutex_lock_acquire, do_condition_signal, do_semaphore_up}
use ucas_os.Sync.Counting.{IsCounted, Counted, do_semaphore_up-Counted}
use ucas_os.Sync.Mutex.{Acquired, do_mutex_lock_acquire-Acquired}
use ucas_os.Sync.Conditions.{IsWaitedFor, WaitedFor, do_condition_signal-WaitedFor}
use ucas_os.Fixture.{machine, machine-WellFormed, waiting}

abbrev k : Kernel
k = machine 0

counted : IsCounted 0 (negsuc 0) k waiting
counted = record { well_formed = machine-WellFormed 0; value = refl; waiters = refl }

awaited : IsWaitedFor 0 1 k waiting
awaited = record { well_formed = machine-WellFormed 0; waiting_num = refl; waiters = refl }

do_semaphore_up-Counted_example : Succeeds (Counted 0 (pos 0)) (do_semaphore_up 0 k)
do_semaphore_up-Counted_example = do_semaphore_up-Counted k waiting 0 (negsuc 0) counted

do_mutex_lock_acquire-Acquired_example : Acquired 0 k waiting (do_mutex_lock_acquire 0 k)
do_mutex_lock_acquire-Acquired_example =
    do_mutex_lock_acquire-Acquired k waiting 0 3 [] (machine-WellFormed 0) (inl (refl, refl))
      (ground arith) refl refl

do_condition_signal-WaitedFor_example : Succeeds (WaitedFor 0 0) (do_condition_signal 0 k)
do_condition_signal-WaitedFor_example = do_condition_signal-WaitedFor k waiting 0 1 awaited
