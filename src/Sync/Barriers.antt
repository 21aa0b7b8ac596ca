-- ===== src/Sync/Barriers.antt =====
-- Barriers (kernel/lock/barrier.c) and condition variables (kernel/lock/cond.c).
use ucas_os.Common.{ℕ, suc, ◌≡◌, ◌≢◌, List, length}
use ucas_os.Common.Int.{pos}
use ucas_os.Kernel.{Ptr, Kernel, Succeeds, barrier_queue}
use ucas_os.Sched.WellFormed.{WellFormed}
use ucas_os.Sync.{Call, returns, waits}

-- the queues are in order, and as many tasks wait at the barrier as have arrived
pub record IsGathered (b goal n : ℕ) (k : Kernel) (at : ℕ → List Ptr) : Type 0 where
  pub well_formed : WellFormed k at
  pub barrier : k.barriers b ≡ record { goal = pos goal; arrived = pos n }
  pub waiters : length (at (barrier_queue b)) ≡ n

abbrev pub Gathered : ℕ → ℕ → ℕ → Kernel → Type 0
Gathered b goal n k = (at : ℕ → List Ptr) × IsGathered b goal n k at

-- the last task that is awaited returns, with all the others let go; any other waits
abbrev pub Arrived : ℕ → ℕ → ℕ → Call → Type 0
Arrived b goal n (returns r) = (suc n ≡ goal) × Succeeds (Gathered b goal 0) r
Arrived b goal n (waits r) = (suc n ≢ goal) × Succeeds (Gathered b goal (suc n)) r
