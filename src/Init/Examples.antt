-- ===== src/Init/Examples.antt =====
-- The theorems on the start of the kernel, tried on an empty machine and an empty card.
use ucas_os.Common.{◌≡◌, refl, arith}
use ucas_os.Slist.FreeList.{IsFree}
use ucas_os.Slist.Init.{range}
use ucas_os.Kernel.{Kernel, Succeeds, user_process, max_task_num}
use ucas_os.Sched.{scheduler}
use ucas_os.Sched.WellFormed.{WellFormed}
use ucas_os.Sched.Steps.{Running}
use ucas_os.Process.{TaskInfo}
use ucas_os.Fs.Sample.{card, fs}
use ucas_os.Fs.Formatted.{Fresh}
use ucas_os.Init.{init_task, init_file_system}
use ucas_os.Init.Tasks.{first_tasks, init_task-Running}
use ucas_os.Init.Files.{init_file_system-Fresh}
use ucas_os.Fixture.{machine}

abbrev program : TaskInfo
program = record { entry_point = 4096; type = user_process; priority = 1; name = 0 }

abbrev empty : Kernel
empty = record (machine 0) { queues = λ q. record { head = 0; tail = 0 } }

init_task-Running_example :
    WellFormed (init_task 0 0 program program empty) first_tasks
    × IsFree (init_task 0 0 program program empty).pid_list max_task_num (range 13 3)
    × Succeeds (λ k. Running k first_tasks) (scheduler (init_task 0 0 program program empty))
init_task-Running_example =
    init_task-Running 0 0 program program empty (λ q. refl) (omega arith) (omega arith)

init_file_system-Fresh_example :
    let f' = init_file_system card (λ i. 9) (λ i. 9) (λ i. 9) fs in
    (f'.current_dir ≡ fs.current_dir)
    × (f'.current_dir_pointer ≡ fs.current_dir_pointer)
    × (f'.imap ≡ fs.imap)
    × Fresh card (init_file_system card (λ i. 9) (λ i. 9) (λ i. 9) (record fs { disk = f'.disk }))
init_file_system-Fresh_example =
    init_file_system-Fresh card (λ i. 9) (λ i. 9) (λ i. 9) fs fs (ground arith)
