-- ===== src/Sync/Mutex.antt =====
-- Mutexes (kernel/lock/lock.c): who holds one, who waits for it, and what a release gives back.
use ucas_os.Common.{
  ℕ, ◌<◌, ◌≡◌, ◌≢◌, ◌⊎◌, refl, true, false, List, [], ◌∷◌, arith, ◌==◌, if◌then◌else◌, ◌∈◌, ◌∙◌, ap,
  fun_ext, Bool-cases, inl, inr,
}
use ucas_os.Common.Int.{pred_ℤ-suc_ℤ}
use ucas_os.Kernel.{
  Ptr, Kernel, Lock, ok, Succeeds, and_then, ready_queue, block_queue, task_blocked, Objects,
}
use ucas_os.Queue.Linked.{IsQueue}
use ucas_os.Sched.{do_wait, suspend, do_unblock_one}
use ucas_os.Sched.WellFormed.{WellFormed, WellFormed-tasks}
use ucas_os.Sched.Moves.{moved}
use ucas_os.Sched.Wake.{do_unblock_one-nil, suspend-WellFormed}
use ucas_os.Sched.Block.{Scheduled, do_wait-Scheduled}
use ucas_os.Sync.{
  Call, returns, waits, set_lock, current_pid, count_lock, uncount_lock, acquire_loop,
  do_mutex_lock_acquire, do_mutex_lock_release,
}
use ucas_os.Sync.Counting.{mono}

-- a lock that is held has an owner
abbrev pub IsLock : Lock → Type 0
IsLock l = ((l.locked ≡ false) × (l.owner ≡ 0)) ⊎ ((l.locked ≡ true) × (0 < l.owner))

-- the running task holds the lock
abbrev pub Holds : ℕ → ℕ → Kernel → Type 0
Holds l pid k = ((k.locks l).locked ≡ true) × ((k.locks l).owner ≡ pid)

-- The call returns with the lock held, or the lock is another's: then nobody's lock changes, and the
-- task stands in the lock's queue.
abbrev pub Acquired : ℕ → Kernel → (ℕ → List Ptr) → Call → Type 0
Acquired l k at (returns r) = Succeeds (λ k'. WellFormed k' at × Holds l (current_pid k) k') r
Acquired l k at (waits r) =
    ((k.locks l).owner ≢ current_pid k)
    × Succeeds
        (λ k'.
          WellFormed k' (moved ready_queue (block_queue l) k.current_running at)
          × (k'.locks ≡ k.locks))
        r

pub take : ℕ → Kernel → Kernel
take l k = set_lock l true (current_pid k) (count_lock k)

take-WellFormed :
    (k : Kernel) (at : ℕ → List Ptr) (l : ℕ) → WellFormed k at → WellFormed (take l k) at
unfolding take
take-WellFormed k at l w = WellFormed-tasks k (take l k) at refl (λ i. ground arith) w

acquire_eq :
    (l : ℕ) (k : Kernel)
    → do_mutex_lock_acquire l k ≡ (
        if (k.locks l).owner == current_pid k
        then returns (ok k)
        else if (k.locks l).locked
        then waits (do_wait k.current_running (block_queue l) task_blocked k)
        else returns (ok (take l k)))
unfolding do_mutex_lock_acquire acquire_loop take
acquire_eq l k = refl

take-Holds : (l : ℕ) (k : Kernel) → Holds l (current_pid k) (take l k)
unfolding take
take-Holds l k = ground arith

wait_for :
    (k : Kernel) (at : ℕ → List Ptr) (l x : ℕ) (xs : List Ptr)
    → WellFormed k at
    → k.current_running ∈ at ready_queue
    → moved ready_queue (block_queue l) k.current_running at ready_queue ≡ x ∷ xs
    → Succeeds
        (λ k'.
          WellFormed k' (moved ready_queue (block_queue l) k.current_running at)
          × (k'.locks ≡ k.locks))
        (do_wait k.current_running (block_queue l) task_blocked k)
wait_for k at l x xs w here more =
    mono (Scheduled (suspend c q task_blocked k) (moved ready_queue q c at))
      (λ k'. WellFormed k' (moved ready_queue q c at) × (k'.locks ≡ k.locks))
      (do_wait c q task_blocked k)
      (λ k' (wf, picked, same). (
        wf,
        ap (λ (g : Objects). g.1) same
            ∙ ap (λ (g : Ptr × Objects). g.1.1)
                (suspend-WellFormed k at c q task_blocked w here (λ f. omega arith)).2,
      ))
      (do_wait-Scheduled k at c q task_blocked x xs w here (λ f. omega arith) more).0
  where
    q : ℕ
    q = block_queue l

    c : Ptr
    c = k.current_running

-- do_mutex_lock_acquire, with the queues in order, a consistent lock, and another ready task to
-- switch to, returns with the caller as the owner of the lock, or the lock is owned by another
-- task: then the caller is moved from the ready queue to the queue of the lock, and no lock
-- changes.
pub do_mutex_lock_acquire-Acquired :
    (k : Kernel) (at : ℕ → List Ptr) (l x : ℕ) (xs : List Ptr)
    → WellFormed k at
    → IsLock (k.locks l)
    → 0 < current_pid k
    → k.current_running ∈ at ready_queue
    → moved ready_queue (block_queue l) k.current_running at ready_queue ≡ x ∷ xs
    → Acquired l k at (do_mutex_lock_acquire l k)
do_mutex_lock_acquire-Acquired k at l x xs w is p here more =
    elim (Bool-cases ((k.locks l).owner == current_pid k)) [
      | inl e ↦
          let own : (k.locks l).owner ≡ current_pid k = ground arith in
          rw (acquire_eq l k) (rw e (w, (ground (arith, is), own)))
      | inr e ↦ elim (Bool-cases (k.locks l).locked) [
        | inl f ↦
            rw (acquire_eq l k)
              (rw (e, f) ((λ own. absurd (ground arith)), wait_for k at l x xs w here more))
        | inr f ↦ rw (acquire_eq l k) (rw (e, f) (take-WellFormed k at l w, take-Holds l k))
      ]
    ]

-- A release by a task that does not hold the lock changes nothing.
pub do_mutex_lock_release_ne :
    (k : Kernel) (l : ℕ) → (k.locks l).owner ≢ current_pid k → do_mutex_lock_release l k ≡ ok k
unfolding do_mutex_lock_release
do_mutex_lock_release_ne k l ne =
    let e : ((k.locks l).owner == current_pid k) ≡ false = ground arith in rw e

release_eq :
    (k : Kernel) (l : ℕ)
    → (k.locks l).owner ≡ current_pid k
    → do_mutex_lock_release l k
      ≡ and_then
          (do_unblock_one (block_queue l) k)
          (λ k'. ok (set_lock l false 0 (uncount_lock k')))
unfolding do_mutex_lock_release
release_eq k l own = let e : ((k.locks l).owner == current_pid k) ≡ true = ground arith in rw e

-- a task's count of locks goes up and down again, and so does the lock
counted_back :
    (k : Kernel) (l : ℕ) (i : Ptr) → (set_lock l false 0 (uncount_lock (take l k))).pcb i ≡ k.pcb i
unfolding take
counted_back k l i = elim (Bool-cases (i == k.current_running)) [
  | inl e ↦
      let i_c : i ≡ k.current_running = ground arith in
      rw i_c (
        rw (same k.current_running) (
          ap (λ n. record (k.pcb k.current_running) { lock_num = n })
            (pred_ℤ-suc_ℤ (k.pcb k.current_running).lock_num)))
  | inr e ↦ rw e
]
  where
    same : (j : ℕ) → (j == j) ≡ true
    same j = ground arith

freed_back :
    (k : Kernel) (l : ℕ) (j : ℕ)
    → k.locks l ≡ record { locked = false; owner = 0 }
    → (set_lock l false 0 (uncount_lock (take l k))).locks j ≡ k.locks j
unfolding take
freed_back k l j free = ground arith

taken_back :
    (k : Kernel) (l : ℕ)
    → k.locks l ≡ record { locked = false; owner = 0 }
    → set_lock l false 0 (uncount_lock (take l k)) ≡ k
taken_back k l free = path (fun_ext (counted_back k l)) (fun_ext λ j. freed_back k l j free)
  where
    path :
        (set_lock l false 0 (uncount_lock (take l k))).pcb ≡ k.pcb
        → (set_lock l false 0 (uncount_lock (take l k))).locks ≡ k.locks
        → set_lock l false 0 (uncount_lock (take l k)) ≡ k
    path a b = unfold take in λ i. record k { pcb = a i; locks = b i }

-- A free lock for which nobody waits is taken at once by do_mutex_lock_acquire, and
-- do_mutex_lock_release gives back the state before.
pub acquire-release :
    (k : Kernel) (l : ℕ)
    → IsQueue k (block_queue l) []
    → k.locks l ≡ record { locked = false; owner = 0 }
    → 0 < current_pid k
    → (do_mutex_lock_acquire l k ≡ returns (ok (take l k)))
      × (do_mutex_lock_release l (take l k) ≡ ok k)
acquire-release k l is free p =
    let other : ((k.locks l).owner == current_pid k) ≡ false = ground arith in
    let open_lock : (k.locks l).locked ≡ false = ap (λ (t : Lock). t.locked) free in
    let own : ((take l k).locks l).owner ≡ current_pid (take l k) = unfold take in ground arith in
    let idle : IsQueue (take l k) (block_queue l) [] =
      unfold take in record { head = is.head; tail = is.tail; linked = tt; distinct = tt } in
    (
      rw (acquire_eq l k) (rw (other, open_lock)),
      rw (release_eq (take l k) l own)
          (rw (do_unblock_one-nil (take l k) (block_queue l) idle) (ap ok (taken_back k l free))),
    )
