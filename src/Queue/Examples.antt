-- ===== src/Queue/Examples.antt =====
-- The theorems on queues, tried on the queues of a small machine.
use ucas_os.Common.{[], ◌∷◌}
use ucas_os.Kernel.{Kernel, ready_queue}
use ucas_os.Queue.{queue_remove}
use ucas_os.Queue.Linked.{IsQueue}
use ucas_os.Queue.Remove.{queue_remove-IsQueue}
use ucas_os.Fixture.{machine, machine-WellFormed}

abbrev k : Kernel
k = machine 0

ready : IsQueue k ready_queue (2 ∷ 3 ∷ [])
ready = (machine-WellFormed 0).queue ready_queue

queue_remove-IsQueue_example : IsQueue (queue_remove ready_queue 3 k).1 ready_queue (2 ∷ [])
queue_remove-IsQueue_example = queue_remove-IsQueue k ready_queue (2 ∷ []) 3 [] ready
