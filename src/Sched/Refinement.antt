-- ===== src/Sched/Refinement.antt =====
-- The functions of kernel/sched/sched.c keep the promise of their abstract steps.
use ucas_os.Common.{
  ℕ, ◌≤◌, ◌≡◌, ◌≢◌, refl, inl, inr, ◌⊎◌, false, List, [], ◌∷◌, arith, ◌==◌, has-append, ◌∈◌, length,
  length-append, ap, sym, subst,
}
use ucas_os.Kernel.{Ptr, Kernel, Run, ok, panic, diverges, fault, Succeeds, ready_queue, TaskStatus}
use ucas_os.Queue.Linked.{IsQueue}
use ucas_os.Sched.{scheduler, suspend, do_wait, do_unblock_one, do_unblock_all}
use ucas_os.Sched.WellFormed.{erase, length-erase}
use ucas_os.Sched.Moves.{moved}
use ucas_os.Sched.Wake.{Unblocked, do_unblock_one-Unblocked, do_unblock_one-nil}
use ucas_os.Sched.WakeAll.{
  Drained, drained, moved_q, drained-moved, drained-nil, do_unblock_all-Drained,
}
use ucas_os.Sched.Block.{Scheduled, scheduler-Scheduled, do_wait-Scheduled, do_wait-panic}
use ucas_os.Sched.Steps.{
  Places, Reach, here, next, block, wake, Reach-trans, Running, Refines, Wakes,
}

list_cases : (xs : List Ptr) → (xs ≡ []) ⊎ ((x : Ptr) × (rest : List Ptr) × (xs ≡ x ∷ rest))
list_cases [] = inl refl
list_cases (x ∷ xs) = inr (x, xs, refl)

-- the state is one that the steps lead to
abbrev pub Advances : Places → Kernel → Type 0
Advances at k = (at' : Places) × Reach at at' × Running k at'

scheduled :
    (k : Kernel) (at at' : Places) (r : Run)
    → Reach at at'
    → Succeeds (Scheduled k at') r
    → Succeeds (Advances at) r
scheduled k at at' (ok k') s (w, p, _) =
    (at', s, record { well_formed = w; current = p.from_queue })
scheduled k at at' panic s h = h
scheduled k at at' diverges s h = h
scheduled k at at' fault s h = h

Advances-Refines : (at : Places) (r : Run) → Succeeds (Advances at) r → Refines at r
Advances-Refines at (ok k) h = h
Advances-Refines at panic h = elim h [ ]
Advances-Refines at diverges h = elim h [ ]
Advances-Refines at fault h = elim h [ ]

pub scheduler-Advances :
    (k : Kernel) (at : Places) → Running k at → Succeeds (Advances at) (scheduler k)
scheduler-Advances k at run = elim (list_cases (at ready_queue)) [
  | inl e ↦ absurd (ground (arith, run.current, e))
  | inr (x, xs, e) ↦
      scheduled k at at (scheduler k) here (scheduler-Scheduled k at x xs run.well_formed e)
]

lonely :
    (c : Ptr) (at : Places) (q : ℕ)
    → ready_queue ≢ q
    → moved ready_queue q c at ready_queue ≡ []
    → length (at ready_queue) ≤ 1
lonely c at q ne e =
    let other : (ready_queue == q) ≡ false = ground arith in
    let gone : erase c (at ready_queue) ≡ [] = rw other at e in
    omega (arith, length-erase c (at ready_queue), ap length gone)

-- The running task that waits is moved, and another ready task runs; without another the machine
-- stops.
pub do_wait-Refines :
    (k : Kernel) (at : Places) (q : ℕ) (s : TaskStatus)
    → Running k at
    → ready_queue ≢ q
    → Refines at (do_wait k.current_running q s k)
do_wait-Refines k at q s run ne =
    let c : Ptr = k.current_running in
    elim (list_cases (moved ready_queue q c at ready_queue)) [
      | inl e ↦
          subst (Refines at) (sym (do_wait-panic k at c q s run.well_formed run.current ne e))
            (lonely c at q ne e)
      | inr (x, xs, e) ↦ Advances-Refines at (do_wait c q s k) (
          scheduled (suspend c q s k) at (moved ready_queue q c at) (do_wait c q s k)
            (next here (block q c ne run.current))
            (do_wait-Scheduled k at c q s x xs run.well_formed run.current ne e).0)
    ]

-- the ready queue keeps its tasks and is longer
pub grown :
    (at : Places) (q : ℕ) (p c : Ptr)
    → c ∈ at ready_queue
    → (c ∈ moved q ready_queue p at ready_queue)
      × (length (at ready_queue) ≤ length (moved q ready_queue p at ready_queue))
grown at q p c h = (
  ground (arith, has-append c (at ready_queue) (p ∷ []), h),
  omega (arith, length-append {0} (at ready_queue) (p ∷ [])),
)

woken :
    (k : Kernel) (at : Places) (q : ℕ) (r : Run)
    → k.current_running ∈ at ready_queue
    → q ≢ ready_queue
    → Succeeds (Unblocked k at q) r
    → Wakes k.current_running at r
woken k at q (ok k') h ne u =
    let same : k'.current_running ≡ k.current_running = ap (λ t. t.0) u.kept in
    let (m, le) = grown at q u.task k.current_running h in
    (
      moved q ready_queue u.task at,
      next here (wake q u.task ne u.from_queue),
      record {
        well_formed = u.well_formed;
        current = subst (λ t. t ∈ moved q ready_queue u.task at ready_queue) (sym same) m;
      },
      same,
      le,
    )
woken k at q panic h ne u = u
woken k at q diverges h ne u = u
woken k at q fault h ne u = u

pub do_unblock_one-Wakes :
    (k : Kernel) (at : Places) (q : ℕ)
    → Running k at
    → q ≢ ready_queue
    → Wakes k.current_running at (do_unblock_one q k)
do_unblock_one-Wakes k at q run ne = elim (list_cases (at q)) [
  | inl e ↦
      subst (Wakes k.current_running at)
        (sym (do_unblock_one-nil k q (subst (IsQueue k q) e (run.well_formed.queue q))))
        (at, here, run, refl, omega arith)
  | inr (x, xs, e) ↦
      woken k at q (do_unblock_one q k) run.current ne
        (do_unblock_one-Unblocked k at q x xs run.well_formed ne e)
]

-- the steps of do_unblock_all, one for each task
drained-Reach :
    (at : Places) (q : ℕ) (xs : List Ptr) → q ≢ ready_queue → at q ≡ xs → Reach at (drained q at)
drained-Reach at q [] ne e = subst (Reach at) (sym (drained-nil at q e)) here
drained-Reach at q (x ∷ xs) ne e =
    let in_x : x ∈ at q = rw e (ground arith) in
    subst (Reach at) (drained-moved at q x xs ne e) (
      Reach-trans (next here (wake q x ne in_x))
        (drained-Reach (moved q ready_queue x at) q xs ne (moved_q at q x xs ne e)))

all_woken :
    (k : Kernel) (at : Places) (q : ℕ) (r : Run)
    → k.current_running ∈ at ready_queue
    → q ≢ ready_queue
    → Succeeds (Drained k at q) r
    → Wakes k.current_running at r
all_woken k at q (ok k') h ne (w, kept) =
    let same : k'.current_running ≡ k.current_running = ap (λ t. t.0) kept in
    let m : k.current_running ∈ drained q at ready_queue =
      ground (arith, has-append k.current_running (at ready_queue) (at q), h) in
    (
      drained q at,
      drained-Reach at q (at q) ne refl,
      record { well_formed = w; current = subst (λ t. t ∈ drained q at ready_queue) (sym same) m },
      same,
      omega (arith, length-append {0} (at ready_queue) (at q)),
    )
all_woken k at q panic h ne u = u
all_woken k at q diverges h ne u = u
all_woken k at q fault h ne u = u

pub do_unblock_all-Wakes :
    (k : Kernel) (at : Places) (q : ℕ)
    → Running k at
    → q ≢ ready_queue
    → Wakes k.current_running at (do_unblock_all q k)
do_unblock_all-Wakes k at q run ne =
    all_woken k at q (do_unblock_all q k) run.current ne
      (do_unblock_all-Drained k at q run.well_formed ne)
