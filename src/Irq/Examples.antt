-- ===== src/Irq/Examples.antt =====
-- The theorems on the interrupts, tried on a small machine.
use ucas_os.Common.{ℕ, refl, inl, arith, ◌^◌, upd}
use ucas_os.Kernel.{Kernel, RegsContext, Succeeds}
use ucas_os.Sched.Steps.{Running}
use ucas_os.Sched.Refinement.{Advances}
use ucas_os.Sync.Steps.{Running-tasks}
use ucas_os.Mac.{Bus}
use ucas_os.Irq.{interrupt_helper}
use ucas_os.Irq.Timer.{interrupt_helper-Advances}
use ucas_os.Fixture.{machine, machine-WellFormed, waiting}

-- a device of which nothing is known
abbrev bus : Bus ℕ
bus = record { load = λ a b. (b, b); store = λ a v b. v }

abbrev timer_cause : RegsContext → RegsContext
timer_cause c = record c { cp0_cause = 2 ^ 15 }

-- task 3 is due, and the timer interrupts task 1
abbrev k : Kernel
k = record (machine 99) {
  pcb = upd (machine 99).pcb 2 (record ((machine 99).pcb 2) {
    user_regs_context = timer_cause ((machine 99).pcb 2).user_regs_context;
  });
}

k-Running : Running k waiting
k-Running =
    Running-tasks (machine 99) k waiting refl refl (λ i. ground arith)
      (record { well_formed = machine-WellFormed 99; current = refl })

interrupt_helper-Advances_example : Succeeds (Advances waiting) (interrupt_helper bus k 0).0
interrupt_helper-Advances_example =
    interrupt_helper-Advances bus k 0 waiting k-Running (inl (ground arith))
