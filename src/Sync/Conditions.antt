-- ===== src/Sync/Conditions.antt =====
-- Condition variables (kernel/lock/cond.c): `waiting_num` counts the tasks that wait.
use ucas_os.Common.{ℕ, zero, suc, ◌≡◌, ◌≢◌, refl, List, [], ◌∷◌, arith, length, ◌∙◌, ap}
use ucas_os.Common.Int.{ℤ, pos}
use ucas_os.Kernel.{Ptr, Kernel, Succeeds, ready_queue, condition_queue, Objects}
use ucas_os.Sched.{do_unblock_one, do_unblock_all}
use ucas_os.Sched.WellFormed.{WellFormed, WellFormed-tasks, erase}
use ucas_os.Sched.Moves.{moved}
use ucas_os.Sched.Wake.{Unblocked, do_unblock_one-Unblocked}
use ucas_os.Sched.WakeAll.{Drained, drained, do_unblock_all-Drained}
use ucas_os.Sync.{set_waiting_num, do_condition_signal, do_condition_broadcast}
use ucas_os.Sync.Counting.{mono, length-erase_mem}

-- the queues are in order, and `waiting_num` counts the tasks in the condition's queue
pub record IsWaitedFor (c n : ℕ) (k : Kernel) (at : ℕ → List Ptr) : Type 0 where
  pub well_formed : WellFormed k at
  pub waiting_num : (k.conditions c).waiting_num ≡ pos n
  pub waiters : length (at (condition_queue c)) ≡ n

abbrev pub WaitedFor : ℕ → ℕ → Kernel → Type 0
WaitedFor c n k = (at : ℕ → List Ptr) × IsWaitedFor c n k at

set_waiting-WellFormed :
    (k : Kernel) (at : ℕ → List Ptr) (c : ℕ) (v : ℤ)
    → WellFormed k at
    → WellFormed (set_waiting_num c v k) at
set_waiting-WellFormed k at c v w =
    WellFormed-tasks k (set_waiting_num c v k) at refl (λ i. ground arith) w

waiting_of : (c : ℕ) (v : ℤ) (k : Kernel) → ((set_waiting_num c v k).conditions c).waiting_num ≡ v
waiting_of c v k = ground arith

moved_from :
    (at : ℕ → List Ptr) (q : ℕ) (p : Ptr)
    → q ≢ ready_queue
    → moved q ready_queue p at q ≡ erase p (at q)
moved_from at q p ne = ground arith

length-drained : (at : ℕ → List Ptr) (q : ℕ) → q ≢ ready_queue → length (drained q at q) ≡ 0
length-drained at q ne = ground arith

signal_one :
    (k : Kernel) (at : ℕ → List Ptr) (c n : ℕ) (xs : List Ptr)
    → WellFormed k at
    → length (at (condition_queue c)) ≡ suc n
    → at (condition_queue c) ≡ xs
    → Succeeds (WaitedFor c n) (do_unblock_one (condition_queue c) (set_waiting_num c (pos n) k))
signal_one k at c n [] w l e = absurd (omega (arith, ap (λ (l : List Ptr). length l) e))
signal_one k at c n (x ∷ xs) w l e =
    mono (Unblocked k' at q) (WaitedFor c n) (do_unblock_one q k')
      (λ k'' u. (
        moved q ready_queue u.task at,
        record {
          well_formed = u.well_formed;
          waiting_num =
              ap (λ (g : Ptr × Objects). (g.1.2 c).waiting_num) u.kept ∙ waiting_of c (pos n) k;
          waiters =
              rw (moved_from at q u.task (λ f. omega arith))
                (omega (arith, length-erase_mem u.task (at q) u.from_queue));
        },
      ))
      (do_unblock_one-Unblocked k' at q x xs (set_waiting-WellFormed k at c (pos n) w)
        (λ f. omega arith) e)
  where
    q : ℕ
    q = condition_queue c

    k' : Kernel
    k' = set_waiting_num c (pos n) k

-- one less, and no less than none
abbrev pub less : ℕ → ℕ
less zero = zero
less (suc n) = n

-- do_condition_signal keeps the count of a condition equal to the number of tasks in its queue:
-- one less, when there was one.
pub do_condition_signal-WaitedFor :
    (k : Kernel) (at : ℕ → List Ptr) (c n : ℕ)
    → IsWaitedFor c n k at
    → Succeeds (WaitedFor c (less n)) (do_condition_signal c k)
unfolding do_condition_signal
do_condition_signal-WaitedFor k at c zero i = rw i.waiting_num (at, i)
do_condition_signal-WaitedFor k at c (suc n) i =
    rw i.waiting_num (signal_one k at c n (at (condition_queue c)) i.well_formed i.waiters refl)

broadcast_eq :
    (k : Kernel) (c n : ℕ)
    → (k.conditions c).waiting_num ≡ pos (suc n)
    → do_condition_broadcast c k ≡ do_unblock_all (condition_queue c) (set_waiting_num c (pos 0) k)
unfolding do_condition_broadcast
broadcast_eq k c n e = rw e

-- do_condition_broadcast leaves nobody waiting for the condition, and the count 0.
pub do_condition_broadcast-WaitedFor :
    (k : Kernel) (at : ℕ → List Ptr) (c n : ℕ)
    → IsWaitedFor c n k at
    → Succeeds (WaitedFor c 0) (do_condition_broadcast c k)
do_condition_broadcast-WaitedFor k at c zero i =
    unfold do_condition_broadcast in rw i.waiting_num (at, i)
do_condition_broadcast-WaitedFor k at c (suc n) i = rw (broadcast_eq k c n i.waiting_num) (
    mono (Drained k' at q) (WaitedFor c 0) (do_unblock_all q k')
      (λ k'' (wf, kept). (
        drained q at,
        record {
          well_formed = wf;
          waiting_num =
              ap (λ (g : Ptr × Objects). (g.1.2 c).waiting_num) kept ∙ waiting_of c (pos 0) k;
          waiters = length-drained at q (λ f. omega arith);
        },
      ))
      (do_unblock_all-Drained k' at q (set_waiting-WellFormed k at c (pos 0) i.well_formed)
        (λ f. omega arith)))
  where
    q : ℕ
    q = condition_queue c

    k' : Kernel
    k' = set_waiting_num c (pos 0) k
