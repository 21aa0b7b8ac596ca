-- ===== src/Process/Joining.antt =====
-- A task that stands in no queue joins one: what init_pcb of kernel/sched/sched.c does to the queues.
use ucas_os.Common.{
  ℕ, ◌≤◌, ◌≡◌, ◌≢◌, ◌⊎◌, inl, inr, refl, true, List, [], ◌∷◌, ◌++◌, arith, ◌==◌, upd, ◌∈◌, ◌∉◌, ◌∙◌,
  ap, sym, subst, Bool-cases, has-append, ne_of_mem,
}
use ucas_os.Kernel.{Ptr, null, Queue, Kernel, max_task_num}
use ucas_os.Queue.{queue_push, queue_init}
use ucas_os.Queue.Linked.{IsQueue, SameLinks}
use ucas_os.Queue.Push.{queue_push-IsQueue, push_queues, push_links}
use ucas_os.Sched.WellFormed.{WellFormed, IsQueue-frame, one_queue}

-- `p` at the end of queue `r`
abbrev pub joined : ℕ → Ptr → (ℕ → List Ptr) → ℕ → List Ptr
joined r p at = upd at r (at r ++ p ∷ [])

abbrev pub Nowhere : Ptr → (ℕ → List Ptr) → Type 0
Nowhere p at = (q : ℕ) → p ∉ at q

ne_of : (p i : Ptr) (xs : List Ptr) → p ∉ xs → i ∈ xs → i ≢ p
ne_of p i xs out m e = ne_of_mem i p xs m out e

-- a task in no queue may change in any way
pub WellFormed-outside :
    (k k' : Kernel) (at : ℕ → List Ptr) (p : Ptr)
    → k'.queues ≡ k.queues
    → ((i : Ptr) → i ≢ p → k'.pcb i ≡ k.pcb i)
    → Nowhere p at
    → WellFormed k at
    → WellFormed k' at
WellFormed-outside k k' at p e same out w = record {
  queue = λ q.
      IsQueue-frame k k' q (at q) (ap (λ (f : ℕ → Queue). f q) e)
        (λ i m. let s = same i (ne_of p i (at q) (out q) m) in rw s (refl, refl)) (w.queue q);
  owner = λ q i m. rw (same i (ne_of p i (at q) (out q) m)) (w.owner q i m);
  range = w.range;
  priority = λ q i m. rw (same i (ne_of p i (at q) (out q) m)) (w.priority q i m);
}

-- `queue_init` of a queue that holds nothing
pub queue_init-WellFormed :
    (k : Kernel) (at : ℕ → List Ptr) (q : ℕ)
    → at q ≡ []
    → WellFormed k at
    → WellFormed (queue_init q k) at
unfolding queue_init
queue_init-WellFormed k at q e w = record {
  queue = λ s. elim (Bool-cases (s == q)) [
    | inl h ↦
        let s_q : s ≡ q = ground arith in
        let empty : at s ≡ [] = ap at s_q ∙ e in
        rw empty (record { head = head_of s h; tail = tail_of s h; linked = tt; distinct = tt })
    | inr h ↦ IsQueue-frame k (queue_init q k) s (at s) (rw h) (λ i m. (refl, refl)) (w.queue s)
  ];
  owner = w.owner;
  range = w.range;
  priority = w.priority;
}
  where
    head_of : (s : ℕ) → (s == q) ≡ true → ((queue_init q k).queues s).head ≡ null
    head_of s h = ground arith

    tail_of : (s : ℕ) → (s == q) ≡ true → ((queue_init q k).queues s).tail ≡ null
    tail_of s h = ground arith

-- the state `k'` is that after the push, but for what `p` says of itself
module _ (k k' : Kernel) (at : ℕ → List Ptr) (r : ℕ) (p : Ptr) (w : WellFormed k at)
    (out : Nowhere p at) (nz : p ≢ null) (small : p ≤ max_task_num)
    (queues : k'.queues ≡ (queue_push r p k).queues)
    (links : (i : Ptr) → SameLinks ((queue_push r p k).pcb i) (k'.pcb i))
    (kept : (i : Ptr)
      → i ≢ p
      → ((k'.pcb i).queue ≡ (k.pcb i).queue)
        × ((k'.pcb i).priority ≡ (k.pcb i).priority)
        × ((k'.pcb i).scheduler_priority ≡ (k.pcb i).scheduler_priority))
    (owner : (k'.pcb p).queue ≡ r)
    (priority : (1 ≤ (k'.pcb p).priority) × (1 ≤ (k'.pcb p).scheduler_priority)) where
  mem-joined : (s : ℕ) (i : Ptr) → i ∈ joined r p at s → ((i ≡ p) × (s ≡ r)) ⊎ (i ∈ at s)
  mem-joined s i m = elim (Bool-cases (s == r)) [
    | inl e ↦
        let s_r : s ≡ r = ground arith in
        elim (Bool-cases (i == p)) [
          | inl f ↦ inl (ground arith, s_r)
          | inr f ↦ inr (rw s_r (ground (arith, (rw e at m), has-append i (at r) (p ∷ []))))
        ]
    | inr e ↦ inr (rw e at m)
  ]

  joined-IsQueue : (s : ℕ) → IsQueue k' s (joined r p at s)
  joined-IsQueue s = elim (Bool-cases (s == r)) [
    | inl e ↦
        let s_r : s ≡ r = ground arith in
        rw e (
          subst (λ t. IsQueue k' t (at r ++ p ∷ [])) (sym s_r)
            (IsQueue-frame (queue_push r p k) k' r (at r ++ p ∷ [])
              (ap (λ (f : ℕ → Queue). f r) queues) (λ i m. links i)
              (queue_push-IsQueue r p k (at r) (w.queue r) (out r) nz)))
    | inr e ↦
        let d : s ≢ r = ground arith in
        rw e (
          IsQueue-frame (queue_push r p k) k' s (at s) (ap (λ (f : ℕ → Queue). f s) queues)
            (λ i m. links i)
            (IsQueue-frame k (queue_push r p k) s (at s) (push_queues r p k s d)
              (λ i m.
                push_links r p k (at r) i (w.queue r) (one_queue k at w s r i d m)
                  (ne_of p i (at s) (out s) m))
              (w.queue s)))
  ]

  -- the queues after `p` has joined
  pub joined-WellFormed : WellFormed k' (joined r p at)
  joined-WellFormed = record {
    queue = joined-IsQueue;
    owner = λ s i m. elim (mem-joined s i m) [
      | inl (e, f) ↦ rw e (owner ∙ sym f)
      | inr n ↦ (kept i (ne_of p i (at s) (out s) n)).0 ∙ w.owner s i n
    ];
    range = λ s i m. elim (mem-joined s i m) [ inl (e, f) ↦ rw e small | inr n ↦ w.range s i n ];
    priority = λ s i m. elim (mem-joined s i m) [
      | inl (e, f) ↦ rw e priority
      | inr n ↦ let e = kept i (ne_of p i (at s) (out s) n) in rw (e.1, e.2) (w.priority s i n)
    ];
  }
