-- ===== src/Sched/WellFormed.antt =====
-- The invariant of the kernel's queues (kernel/sched): what each queue holds, and that no task is in
-- two of them.
use ucas_os.Common.{
  ℕ, zero, suc, ◌≤◌, ◌≡◌, ◌≢◌, inl, inr, refl, List, [], ◌∷◌, ◌++◌, arith, ◌==◌, if◌then◌else◌, has,
  ◌∈◌, ◌∉◌, Distinct, length, ◌∙◌, ap, sym, Bool-cases, ne_of_mem,
}
use ucas_os.Kernel.{
  Ptr, null, Pcb, Queue, Kernel, max_task_num, set_next, set_prev, set_head, set_tail,
}
use ucas_os.Queue.{queue_push, queue_remove}
use ucas_os.Queue.Linked.{IsQueue, SameLinks, Linked-frame, Linked-ne_null}

pub record WellFormed (k : Kernel) (at : ℕ → List Ptr) : Type 0 where
  pub queue : (q : ℕ) → IsQueue k q (at q)
  -- a queued task's field `queue` says where it is, so it is in one queue only
  pub owner : (q : ℕ) (p : Ptr) → p ∈ at q → (k.pcb p).queue ≡ q
  -- it is one of the control blocks
  pub range : (q : ℕ) (p : Ptr) → p ∈ at q → p ≤ max_task_num
  pub priority :
      (q : ℕ) (p : Ptr) → p ∈ at q → (1 ≤ (k.pcb p).priority) × (1 ≤ (k.pcb p).scheduler_priority)

-- the first occurrence out
abbrev pub erase : Ptr → List Ptr → List Ptr
erase p [] = []
erase p (x ∷ xs) = if x == p then xs else x ∷ erase p xs

pub split_at :
    (p : Ptr) (xs : List Ptr)
    → p ∈ xs
    → (ys : List Ptr) × (zs : List Ptr) × (xs ≡ ys ++ p ∷ zs) × (erase p xs ≡ ys ++ zs)
split_at p [] h = absurd (ground arith)
split_at p (x ∷ xs) h = elim (Bool-cases (x == p)) [
  | inl e ↦ ([], xs, ground arith, rw e)
  | inr e ↦ let (ys, zs, a, b) = split_at p xs (ground arith) in (x ∷ ys, zs, rw (← a), rw e (rw b))
]

pub mem-erase : (p i : Ptr) (xs : List Ptr) → i ∈ erase p xs → i ∈ xs
mem-erase p i [] h = h
mem-erase p i (x ∷ xs) h = ground (arith, mem-erase p i xs)

pub length-erase : (p : Ptr) (xs : List Ptr) → length xs ≤ suc (length (erase p xs))
length-erase p [] = omega arith
length-erase p (x ∷ xs) = ground (arith, length-erase p xs)

pub not_mem-erase : (p : Ptr) (xs : List Ptr) → Distinct xs → p ∉ erase p xs
not_mem-erase p [] d = refl
not_mem-erase p (x ∷ xs) (d, ds) = ground (arith, not_mem-erase p xs ds)

Distinct-erase : (p : Ptr) (xs : List Ptr) → Distinct xs → Distinct (erase p xs)
Distinct-erase p [] d = tt
Distinct-erase p (x ∷ xs) (d, ds) = ground (arith, mem-erase p x xs, Distinct-erase p xs ds)

-- Distinct numbers from 1 to n are n at most.
pub pigeonhole :
    (n : ℕ) (xs : List Ptr) → Distinct xs → ((i : Ptr) → i ∈ xs → (1 ≤ i) × (i ≤ n)) → length xs ≤ n
pigeonhole zero [] d h = omega arith
pigeonhole zero (x ∷ xs) d h = ground (arith, h x)
pigeonhole (suc n) xs d h = omega (
  arith,
  length-erase (suc n) xs,
  pigeonhole n (erase (suc n) xs) (Distinct-erase (suc n) xs d) smaller,
)
  where
    smaller : (i : Ptr) → i ∈ erase (suc n) xs → (1 ≤ i) × (i ≤ n)
    smaller i m =
        let ne : i ≢ suc n =
          ne_of_mem i (suc n) (erase (suc n) xs) m (not_mem-erase (suc n) xs d) in
        ground (arith, h i (mem-erase (suc n) i xs m))

module _ (k : Kernel) (at : ℕ → List Ptr) (w : WellFormed k at) where
  pub ne_null : (q : ℕ) (p : Ptr) → p ∈ at q → p ≢ null
  ne_null q p h = Linked-ne_null k.pcb null (at q) null p (w.queue q).linked h

  -- so 17 rounds are enough for any walk
  pub length-le : (q : ℕ) → length (at q) ≤ max_task_num
  length-le q =
      pigeonhole max_task_num (at q) (w.queue q).distinct
        (λ i m. (ground (arith, ne_null q i m), w.range q i m))

  pub one_queue : (q r : ℕ) (p : Ptr) → q ≢ r → p ∈ at q → p ∉ at r
  one_queue q r p ne h = elim (Bool-cases (has p (at r))) [
    | inl m ↦ absurd (ne (sym (w.owner q p h) ∙ w.owner r p m))
    | inr m ↦ m
  ]

pub IsQueue-frame :
    (k k' : Kernel) (q : ℕ) (xs : List Ptr)
    → k'.queues q ≡ k.queues q
    → ((i : Ptr) → i ∈ xs → SameLinks (k.pcb i) (k'.pcb i))
    → IsQueue k q xs
    → IsQueue k' q xs
IsQueue-frame k k' q xs e same is = record {
  head = ap (λ (t : Queue). t.head) e ∙ is.head;
  tail = ap (λ (t : Queue). t.tail) e ∙ is.tail;
  linked = Linked-frame k.pcb k'.pcb null xs null same is.linked;
  distinct = is.distinct;
}

-- a control block without its links
abbrev pub unlinked : Pcb → Pcb
unlinked t = record t { prev = null; next = null }

-- the queue functions change links only
pub push_unlinked :
    (q : ℕ) (p : Ptr) (k : Kernel) (i : Ptr)
    → unlinked ((queue_push q p k).pcb i) ≡ unlinked (k.pcb i)
unfolding queue_push
push_unlinked q p k i = ground arith

next_unlinked :
    (p v : Ptr) (k : Kernel) (i : Ptr) → unlinked ((set_next p v k).pcb i) ≡ unlinked (k.pcb i)
next_unlinked p v k i = ground arith

prev_unlinked :
    (p v : Ptr) (k : Kernel) (i : Ptr) → unlinked ((set_prev p v k).pcb i) ≡ unlinked (k.pcb i)
prev_unlinked p v k i = ground arith

both_unlinked :
    (p a b : Ptr) (k : Kernel) (i : Ptr)
    → unlinked ((set_next p a (set_prev p b k)).pcb i) ≡ unlinked (k.pcb i)
both_unlinked p a b k i = next_unlinked p a (set_prev p b k) i ∙ prev_unlinked p b k i

pub remove_unlinked :
    (q : ℕ) (p : Ptr) (k : Kernel) (i : Ptr)
    → unlinked ((queue_remove q p k).1.pcb i) ≡ unlinked (k.pcb i)
unfolding queue_remove
remove_unlinked q p k i = elim (Bool-cases (p == (k.queues q).head)) [
  | inl h ↦ elim (Bool-cases (p == (k.queues q).tail)) [
    | inl t ↦ rw (h, t)
    | inr t ↦
        let k' : Kernel = set_head q (k.pcb p).next k in
        let k₁ : Kernel = set_prev (k'.queues q).head null k' in
        rw (h, t) (both_unlinked p null null k₁ i ∙ prev_unlinked (k'.queues q).head null k' i)
  ]
  | inr h ↦ elim (Bool-cases (p == (k.queues q).tail)) [
    | inl t ↦
        let k' : Kernel = set_tail q (k.pcb p).prev k in
        let k₁ : Kernel = set_next (k'.queues q).tail null k' in
        rw (h, t) (both_unlinked p null null k₁ i ∙ next_unlinked (k'.queues q).tail null k' i)
    | inr t ↦
        let k' : Kernel = set_next (k.pcb p).prev (k.pcb p).next k in
        let k₁ : Kernel = set_prev (k'.pcb p).next (k'.pcb p).prev k' in
        rw (h, t)
          (both_unlinked p null null k₁ i
            ∙ (prev_unlinked (k'.pcb p).next (k'.pcb p).prev k' i
                ∙ next_unlinked (k.pcb p).prev (k.pcb p).next k i))
  ]
]

-- A change to tasks that keeps their links, their queues and the bounds on their priorities.
pub WellFormed-tasks :
    (k k' : Kernel) (at : ℕ → List Ptr)
    → k'.queues ≡ k.queues
    → ((i : Ptr)
        → SameLinks (k.pcb i) (k'.pcb i)
          × ((k'.pcb i).queue ≡ (k.pcb i).queue)
          × ((k.pcb i).priority ≤ (k'.pcb i).priority)
          × (1 ≤ (k.pcb i).scheduler_priority → 1 ≤ (k'.pcb i).scheduler_priority))
    → WellFormed k at
    → WellFormed k' at
WellFormed-tasks k k' at e same w = record {
  queue = λ q.
      IsQueue-frame k k' q (at q) (ap (λ (f : ℕ → Queue). f q) e) (λ i h. (same i).0) (w.queue q);
  owner = λ q p h. (same p).1 ∙ w.owner q p h;
  range = w.range;
  priority =
      λ q p h. (omega (arith, (same p).2, w.priority q p h), (same p).3 (w.priority q p h).1);
}
