-- ===== src/Sched/Steps.antt =====
-- What the functions of kernel/sched/sched.c promise: the tasks move from queue to queue, each move by
-- one of two abstract steps.
use ucas_os.Common.{
  ℕ, ◌≤◌, ◌≡◌, ◌≢◌, inl, inr, true, List, [], ◌∷◌, arith, ◌==◌, has-append, ◌∈◌, length, ◌∙◌, subst,
  Bool-cases,
}
use ucas_os.Kernel.{Ptr, Kernel, Run, ok, panic, diverges, fault, ready_queue, and_then}
use ucas_os.Sched.WellFormed.{WellFormed, erase}
use ucas_os.Sched.Moves.{moved}

abbrev pub Places : Type 0
Places = ℕ → List Ptr

-- A ready task goes to the end of another queue, or a task of another queue to the end of the ready
-- one.
pub data Step : Places → Places → Type 0 where
  block :
      {at : Places} (q : ℕ) (p : Ptr)
      → ready_queue ≢ q
      → p ∈ at ready_queue
      → Step at (moved ready_queue q p at)
  wake :
      {at : Places} (q : ℕ) (p : Ptr)
      → q ≢ ready_queue
      → p ∈ at q
      → Step at (moved q ready_queue p at)

pub data Reach (at : Places) : Places → Type 0 where
  here : Reach at at
  next : {at' at'' : Places} → Reach at at' → Step at' at'' → Reach at at''

pub Reach-trans : {a b c : Places} → Reach a b → Reach b c → Reach a c
Reach-trans r here = r
Reach-trans r (next s t) = next (Reach-trans r s) t

mem-erase_ne : (p i : Ptr) (xs : List Ptr) → i ≢ p → i ∈ xs → i ∈ erase p xs
mem-erase_ne p i [] ne h = h
mem-erase_ne p i (x ∷ xs) ne h = ground (arith, mem-erase_ne p i xs)

-- a move keeps every task in some queue
moved_kept :
    (q r : ℕ) (p : Ptr) (at : Places) (s : ℕ) (i : Ptr)
    → q ≢ r
    → i ∈ at s
    → (s' : ℕ) × (i ∈ moved q r p at s')
moved_kept q r p at s i ne h = elim (Bool-cases (i == p)) [
  | inl e ↦
      let same : (r == r) ≡ true = ground arith in
      (r, rw same (ground (arith, has-append i (at r) (p ∷ []))))
  | inr e ↦ elim (Bool-cases (s == r)) [
    | inl f ↦ (s, rw f (ground (arith, has-append i (at r) (p ∷ []), h)))
    | inr f ↦ elim (Bool-cases (s == q)) [
      | inl g ↦
          let s_q : s ≡ q = ground arith in
          let old : i ∈ at q = subst (λ t. i ∈ at t) s_q h in
          (s, rw (f, g) (mem-erase_ne p i (at q) (ground arith) old))
      | inr g ↦ (s, rw (f, g) h)
    ]
  ]
]

Step-mem : {at at' : Places} → Step at at' → (q : ℕ) (p : Ptr) → p ∈ at q → (q' : ℕ) × (p ∈ at' q')
Step-mem {at} (block q' p' ne m) q p h = moved_kept ready_queue q' p' at q p ne h
Step-mem {at} (wake q' p' ne m) q p h = moved_kept q' ready_queue p' at q p ne h

-- The steps lose no task: one that was in a queue is in a queue afterwards.
pub Reach-mem :
    {at at' : Places} → Reach at at' → (q : ℕ) (p : Ptr) → p ∈ at q → (q' : ℕ) × (p ∈ at' q')
Reach-mem here q p h = (q, h)
Reach-mem (next r s) q p h = let (q', h') = Reach-mem r q p h in Step-mem s q' p h'

-- The kernel between two functions: its queues are in order and its running task is ready.
pub record Running (k : Kernel) (at : Places) : Type 0 where
  pub well_formed : WellFormed k at
  pub current : k.current_running ∈ at ready_queue

-- The run ends in such a state, which the steps lead to; it stops the machine only when no other
-- task is ready.
abbrev pub Refines : Places → Run → Type 0
Refines at (ok k) = (at' : Places) × Reach at at' × Running k at'
Refines at panic = length (at ready_queue) ≤ 1
Refines at diverges = ⊥
Refines at fault = ⊥

-- The run only wakes tasks, and `c` goes on running.
abbrev pub Wakes : Ptr → Places → Run → Type 0
Wakes c at (ok k) =
    (at' : Places) × Reach at at'
    × Running k at'
    × (k.current_running ≡ c)
    × (length (at ready_queue) ≤ length (at' ready_queue))
Wakes c at panic = ⊥
Wakes c at diverges = ⊥
Wakes c at fault = ⊥

pub Wakes-Refines : (c : Ptr) (at : Places) (r : Run) → Wakes c at r → Refines at r
Wakes-Refines c at (ok k) (at', r, w, _, _) = (at', r, w)
Wakes-Refines c at panic h = elim h [ ]
Wakes-Refines c at diverges h = elim h [ ]
Wakes-Refines c at fault h = elim h [ ]

-- what holds of a run that has woken tasks before, holds of the whole
Refines-after :
    (at at' : Places) (r : Run)
    → Reach at at'
    → length (at ready_queue) ≤ length (at' ready_queue)
    → Refines at' r
    → Refines at r
Refines-after at at' (ok k) s le (at'', t, w) = (at'', Reach-trans s t, w)
Refines-after at at' panic s le h = omega (arith, le, h)
Refines-after at at' diverges s le h = elim h [ ]
Refines-after at at' fault s le h = elim h [ ]

pub Wakes-and_then :
    (c : Ptr) (at : Places) (r : Run) (f : Kernel → Run)
    → Wakes c at r
    → ((k : Kernel) (at' : Places) → Running k at' → k.current_running ≡ c → Refines at' (f k))
    → Refines at (and_then r f)
Wakes-and_then c at (ok k) f (at', s, w, e, le) h = Refines-after at at' (f k) s le (h k at' w e)
Wakes-and_then c at panic f h g = elim h [ ]
Wakes-and_then c at diverges f h g = elim h [ ]
Wakes-and_then c at fault f h g = elim h [ ]

pub Wakes-map :
    (c : Ptr) (at : Places) (r : Run) (f : Kernel → Kernel)
    → ((k : Kernel) (at' : Places) → Running k at' → Running (f k) at')
    → ((k : Kernel) → (f k).current_running ≡ k.current_running)
    → Wakes c at r
    → Wakes c at (and_then r (λ k. ok (f k)))
Wakes-map c at (ok k) f h g (at', s, w, e, le) = (at', s, h k at' w, g k ∙ e, le)
Wakes-map c at panic f h g w = w
Wakes-map c at diverges f h g w = w
Wakes-map c at fault f h g w = w
