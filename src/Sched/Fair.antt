-- ===== src/Sched/Fair.antt =====
-- No ready task is passed over for ever (the choice of `scheduler`, kernel/sched/sched.c).
use ucas_os.Common.{
  ℕ, zero, suc, ◌+◌, ◌-◌, ◌≤◌, ◌<◌, ◌≡◌, ◌≢◌, inl, inr, refl, false, List, [], ◌∷◌, arith, leb, ltb,
  if◌then◌else◌, ◌==◌, ==_iff, ◌∈◌, ◌∉◌, Distinct, Bool-cases, sym, subst,
}
use ucas_os.Kernel.{Ptr, Kernel, Run, ok, panic, diverges, fault, Succeeds, and_then, ready_queue}
use ucas_os.Sched.{scheduler}
use ucas_os.Sched.Pick.{Picked}
use ucas_os.Sched.Order.{NoBetter}
use ucas_os.Sched.WellFormed.{WellFormed}
use ucas_os.Sched.Block.{Scheduled, scheduler-Scheduled}

-- `n` runs of the scheduler, one after the other
unfoldable pub turns : ℕ → Kernel → Run
turns zero k = ok k
turns (suc n) k = and_then (scheduler k) (turns n)

-- the scheduler priorities of the tasks of a list, added
abbrev pub total : Kernel → List Ptr → ℕ
total k [] = 0
total k (x ∷ xs) = (k.pcb x).scheduler_priority + total k xs

-- a task of scheduler priority `n` that has waited for `w`, against one that has waited for `t`:
-- how often it can still be chosen before the other
abbrev weight : ℕ → ℕ → ℕ → ℕ
weight t n w = (n - 1) + (if leb t w then 1 else 0)

abbrev turns_left : Kernel → ℕ → Ptr → ℕ
turns_left k t x = weight t (k.pcb x).scheduler_priority (k.pcb x).wait_time

abbrev all_left : Kernel → ℕ → List Ptr → ℕ
all_left k t [] = 0
all_left k t (x ∷ xs) = turns_left k t x + all_left k t xs

all_left-le :
    (k : Kernel) (t : ℕ) (xs : List Ptr)
    → ((x : Ptr) → x ∈ xs → 1 ≤ (k.pcb x).scheduler_priority)
    → all_left k t xs ≤ total k xs
all_left-le k t [] h = omega arith
all_left-le k t (x ∷ xs) h =
    ground (arith, h x (ground arith), all_left-le k t xs (λ i m. h i (ground arith)))

-- a waiting task is counted itself
all_left-pos :
    (k : Kernel) (y : Ptr) (xs : List Ptr) → y ∈ xs → 1 ≤ all_left k (k.pcb y).wait_time xs
all_left-pos k y [] m = absurd (ground arith)
all_left-pos k y (x ∷ xs) m = elim (Bool-cases (y == x)) [
  | inl e ↦ let e' : y ≡ x = ground arith in rw e' (ground arith)
  | inr e ↦ omega (arith, all_left-pos k y xs (ground arith))
]

weight-chosen :
    (n t n' t' : ℕ)
    → 1 ≤ n
    → 1 ≤ n'
    → NoBetter n t n' t'
    → weight (suc t) (if ltb 1 n' then n' - 1 else n') 0 < weight t n' t'
weight-chosen n t n' t' p q top = ground arith

weight-suc : (t n w : ℕ) → weight (suc t) n (suc w) ≡ weight t n w
weight-suc t n w = ground arith

-- One round that chooses `c` and not `y`: `c` has one turn less, the others as many as before.
module _ (k k' : Kernel) (all : List Ptr) (c y : Ptr) (picked : Picked k all c k') (in_y : y ∈ all)
    (ne : y ≢ c) (pos : 1 ≤ (k.pcb y).scheduler_priority)
    (pos_c : 1 ≤ (k.pcb c).scheduler_priority) where
  left_chosen : turns_left k' (k'.pcb y).wait_time c < turns_left k (k.pcb y).wait_time c
  left_chosen =
      rw (picked.priority, picked.wait, picked.others y in_y ne)
        (weight-chosen (k.pcb y).scheduler_priority (k.pcb y).wait_time (k.pcb c).scheduler_priority
          (k.pcb c).wait_time pos pos_c (picked.top y in_y))

  left_other :
      (x : Ptr)
      → x ∈ all
      → x ≢ c
      → turns_left k' (k'.pcb y).wait_time x ≡ turns_left k (k.pcb y).wait_time x
  left_other x m d =
      rw (picked.others y in_y ne, picked.others x m d, picked.kept x d)
        (weight-suc (k.pcb y).wait_time (k.pcb x).scheduler_priority (k.pcb x).wait_time)

  left_same :
      (xs : List Ptr)
      → ((x : Ptr) → x ∈ xs → x ∈ all)
      → c ∉ xs
      → all_left k' (k'.pcb y).wait_time xs ≡ all_left k (k.pcb y).wait_time xs
  left_same [] sub out = refl
  left_same (x ∷ xs) sub out =
      let d : x ≢ c = ground arith in
      omega (
        arith,
        left_other x (sub x (ground arith)) d,
        left_same xs (λ i m. sub i (ground arith)) (ground arith),
      )

  left_less :
      (xs : List Ptr)
      → ((x : Ptr) → x ∈ xs → x ∈ all)
      → Distinct xs
      → c ∈ xs
      → all_left k' (k'.pcb y).wait_time xs < all_left k (k.pcb y).wait_time xs
  left_less [] sub d m = absurd (ground arith)
  left_less (x ∷ xs) sub (d, ds) m = elim (Bool-cases (c == x)) [
    | inl e ↦
        let e' : x ≡ c = ground arith in
        let out : c ∉ xs = subst (λ z. z ∉ xs) e' d in
        let less : turns_left k' (k'.pcb y).wait_time x < turns_left k (k.pcb y).wait_time x =
          rw e' left_chosen in
        omega (arith, less, left_same xs (λ i m. sub i (ground arith)) out)
    | inr e ↦
        let d' : x ≢ c = ground arith in
        omega (
          arith,
          left_other x (sub x (ground arith)) d',
          left_less xs (λ i m. sub i (ground arith)) ds (ground arith),
        )
  ]

succeeded : (P : Kernel → Type 0) (r : Run) → Succeeds P r → (k : Kernel) × (r ≡ ok k) × P k
succeeded P (ok k) p = (k, refl, p)
succeeded P panic p = elim p [ ]
succeeded P diverges p = elim p [ ]
succeeded P fault p = elim p [ ]

abbrev RunsWithin : ℕ → Kernel → Ptr → Type 0
RunsWithin b k y = (n : ℕ) × (n < b) × Succeeds (λ k'. k'.current_running ≡ y) (turns (suc n) k)

head_of : (y : Ptr) (xs : List Ptr) → y ∈ xs → (x : Ptr) × (rest : List Ptr) × (xs ≡ x ∷ rest)
head_of y [] m = absurd (ground arith)
head_of y (x ∷ xs) m = (x, xs, refl)

one_round :
    (k : Kernel) (at : ℕ → List Ptr) (y : Ptr)
    → WellFormed k at
    → y ∈ at ready_queue
    → (k' : Kernel) × (scheduler k ≡ ok k') × Scheduled k at k'
one_round k at y w m =
    let (x, xs, e) = head_of y (at ready_queue) m in
    succeeded (Scheduled k at) (scheduler k) (scheduler-Scheduled k at x xs w e)

differs : (a b : ℕ) → (a == b) ≡ false → a ≢ b
differs a b h = ground arith

runs_by :
    (b : ℕ) (k : Kernel) (at : ℕ → List Ptr) (y : Ptr)
    → WellFormed k at
    → y ∈ at ready_queue
    → all_left k (k.pcb y).wait_time (at ready_queue) ≤ b
    → RunsWithin b k y
unfolding turns
runs_by zero k at y w m le = absurd (omega (arith, le, all_left-pos k y (at ready_queue) m))
runs_by (suc b) k at y w m le =
    let (k', e, s) = one_round k at y w m in
    let (w', picked, same) = s in
    elim (Bool-cases (y == k'.current_running)) [
      | inl f ↦ (0, omega arith, rw e (sym ((==_iff y k'.current_running).0 f)))
      | inr f ↦
          let ne : y ≢ k'.current_running = differs y k'.current_running f in
          let less =
            left_less k k' (at ready_queue) k'.current_running y picked m ne
              (w.priority ready_queue y m).1
              (w.priority ready_queue k'.current_running picked.from_queue).1 (at ready_queue)
              (λ x h. h) (w.queue ready_queue).distinct picked.from_queue in
          let (n, lt, r) = runs_by b k' at y w' m (omega (arith, less, le)) in
          (suc n, omega arith, rw e r)
    ]

-- When the queues are in order, a ready task runs within as many runs of the scheduler, one after
-- the other, as the scheduler priorities of all ready tasks amount to.
pub turns-RunsWithin :
    (k : Kernel) (at : ℕ → List Ptr) (y : Ptr)
    → WellFormed k at
    → y ∈ at ready_queue
    → (n : ℕ) × (n < total k (at ready_queue))
      × Succeeds (λ k'. k'.current_running ≡ y) (turns (suc n) k)
turns-RunsWithin k at y w m =
    let (n, lt, r) =
      runs_by (all_left k (k.pcb y).wait_time (at ready_queue)) k at y w m (omega arith) in
    (
      n,
      omega (
        arith,
        lt,
        all_left-le k (k.pcb y).wait_time (at ready_queue) (λ x h. (w.priority ready_queue x h).1),
      ),
      r,
    )
