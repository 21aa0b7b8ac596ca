-- ===== src/Sched/Moves.antt =====
-- A task that goes from one queue to another: queue_remove, then queue_push, then `p->queue = …`, the
-- steps that every function of kernel/sched/sched.c takes to block a task or to wake it.
use ucas_os.Common.{
  ℕ, ◌≡◌, ◌≢◌, ◌⊎◌, inl, inr, refl, false, List, [], ◌∷◌, ◌++◌, arith, ◌==◌, upd, ◌∈◌, ◌∉◌, ◌∙◌, ap,
  sym, Bool-cases, has-append, ne_of_mem, subst,
}
use ucas_os.Kernel.{Ptr, null, Pcb, Kernel, set_queue, globals}
use ucas_os.Queue.{queue_push, queue_remove}
use ucas_os.Queue.Linked.{IsQueue, SameLinks}
use ucas_os.Queue.Push.{queue_push-IsQueue, push_queues, push_links}
use ucas_os.Queue.Remove.{queue_remove-IsQueue, remove_queues, remove_links}
use ucas_os.Sched.WellFormed.{
  WellFormed, erase, split_at, mem-erase, not_mem-erase, ne_null, one_queue, IsQueue-frame,
  unlinked, push_unlinked, remove_unlinked,
}

-- the task `p` of queue `q` goes to the end of queue `r`
abbrev pub move : ℕ → ℕ → Ptr → Kernel → Kernel
move q r p k = set_queue p r (queue_push r p (queue_remove q p k).1)

abbrev pub moved : ℕ → ℕ → Ptr → (ℕ → List Ptr) → ℕ → List Ptr
moved q r p at = upd (upd at q (erase p (at q))) r (at r ++ p ∷ [])

-- a queue without one of its items
erase-IsQueue :
    (k : Kernel) (q : ℕ) (p : Ptr) (xs : List Ptr)
    → p ∈ xs
    → IsQueue k q xs
    → IsQueue (queue_remove q p k).1 q (erase p xs)
erase-IsQueue k q p xs h is =
    let (ys, zs, e, f) = split_at p xs h in
    rw f (queue_remove-IsQueue k q ys p zs (subst (IsQueue k q) e is))

erase_links :
    (k : Kernel) (q : ℕ) (p : Ptr) (xs : List Ptr) (i : Ptr)
    → p ∈ xs
    → IsQueue k q xs
    → i ≢ null
    → i ∉ xs
    → SameLinks (k.pcb i) ((queue_remove q p k).1.pcb i)
erase_links k q p xs i h is nz out =
    let (ys, zs, e, f) = split_at p xs h in
    remove_links k q ys p zs i (subst (IsQueue k q) e is) nz (subst (λ l. i ∉ l) e out)

module _ (k : Kernel) (at : ℕ → List Ptr) (w : WellFormed k at) (q r : ℕ) (p : Ptr) (ne : q ≢ r)
    (h : p ∈ at q) where
  removed : Kernel
  removed = (queue_remove q p k).1

  -- a queue after the removal
  removed_q : IsQueue removed q (erase p (at q))
  unfolding removed
  removed_q = erase-IsQueue k q p (at q) h (w.queue q)

  removed_other : (s : ℕ) → s ≢ q → IsQueue removed s (at s)
  unfolding removed
  removed_other s d =
      IsQueue-frame k (queue_remove q p k).1 s (at s) (remove_queues q p k s d)
        (λ i m.
          erase_links k q p (at q) i h (w.queue q) (ne_null k at w s i m)
            (one_queue k at w s q i d m))
        (w.queue s)

  p_nz : p ≢ null
  p_nz = ne_null k at w q p h

  p_out : p ∉ at r
  p_out = one_queue k at w q r p ne h

  -- the queue that takes the task, and the others
  pushed_r : IsQueue (move q r p k) r (at r ++ p ∷ [])
  unfolding removed
  pushed_r =
      IsQueue-frame (queue_push r p removed) (move q r p k) r (at r ++ p ∷ []) refl
        (λ i m. (ground arith, ground arith))
        (queue_push-IsQueue r p removed (at r) (removed_other r (λ e. ne (sym e))) p_out p_nz)

  pushed_other :
      (s : ℕ) (xs : List Ptr)
      → s ≢ r
      → IsQueue removed s xs
      → ((i : Ptr) → i ∈ xs → i ∉ at r)
      → ((i : Ptr) → i ∈ xs → i ≢ p)
      → IsQueue (move q r p k) s xs
  unfolding removed
  pushed_other s xs d is out other =
      IsQueue-frame (queue_push r p removed) (move q r p k) s xs refl
        (λ i m. (ground arith, ground arith))
        (IsQueue-frame removed (queue_push r p removed) s xs (push_queues r p removed s d)
          (λ i m.
            push_links r p removed (at r) i (removed_other r (λ e. ne (sym e))) (out i m)
              (other i m))
          is)

  moved-IsQueue : (s : ℕ) → IsQueue (move q r p k) s (moved q r p at s)
  moved-IsQueue s = elim (Bool-cases (s == r)) [
    | inl e ↦
        let e' : s ≡ r = ground arith in
        rw e (subst (λ t. IsQueue (move q r p k) t (at r ++ p ∷ [])) (sym e') pushed_r)
    | inr e ↦ elim (Bool-cases (s == q)) [
      | inl f ↦
          let f' : s ≡ q = ground arith in
          rw (e, f)
            (subst (λ t. IsQueue (move q r p k) t (erase p (at q))) (sym f')
              (pushed_other q (erase p (at q)) ne removed_q
                (λ i m. one_queue k at w q r i ne (mem-erase p i (at q) m))
                (λ i m.
                  ne_of_mem i p (erase p (at q)) m (not_mem-erase p (at q) (w.queue q).distinct))))
      | inr f ↦
          let s_r : s ≢ r = ground arith in
          let s_q : s ≢ q = ground arith in
          rw (e, f)
            (pushed_other s (at s) s_r (removed_other s s_q) (λ i m. one_queue k at w s r i s_r m)
              (λ i m. ne_of_mem i p (at s) m (one_queue k at w q s p (λ e. s_q (sym e)) h)))
    ]
  ]

  -- a task keeps all but its links, and `p` its queue too
  unlinked-move : (i : Ptr) → i ≢ p → unlinked ((move q r p k).pcb i) ≡ unlinked (k.pcb i)
  unlinked-move i d =
      rw (set_other i d) (push_unlinked r p (queue_remove q p k).1 i ∙ remove_unlinked q p k i)
    where
      set_other :
          (i : Ptr) → i ≢ p → (move q r p k).pcb i ≡ (queue_push r p (queue_remove q p k).1).pcb i
      set_other i d = ground arith

  -- who is where after the move
  mem-moved :
      (s : ℕ) (i : Ptr) → i ∈ moved q r p at s → ((i ≡ p) × (s ≡ r)) ⊎ ((i ≢ p) × (i ∈ at s))
  mem-moved s i m = elim (Bool-cases (i == p)) [
    | inl e ↦ elim (Bool-cases (s == r)) [
      | inl f ↦ inl (ground arith, ground arith)
      | inr f ↦
          let s_p : i ≡ p = ground arith in
          absurd (p_gone s f (subst (λ t. t ∈ moved q r p at s) s_p m))
    ]
    | inr e ↦ inr (ground arith, mem_old s i (ground arith) m)
  ]
    where
      p_gone : (s : ℕ) → (s == r) ≡ false → ¬ (p ∈ moved q r p at s)
      p_gone s f m = elim (Bool-cases (s == q)) [
        | inl g ↦ cc (sym (not_mem-erase p (at q) (w.queue q).distinct) ∙ (rw (f, g) at m))
        | inr g ↦
            let d : s ≢ q = ground arith in d (sym (w.owner s p (rw (f, g) at m)) ∙ w.owner q p h)
      ]

      mem_old : (s : ℕ) (i : Ptr) → i ≢ p → i ∈ moved q r p at s → i ∈ at s
      mem_old s i d m = elim (Bool-cases (s == r)) [
        | inl f ↦
            let s_r : s ≡ r = ground arith in
            rw s_r (ground (arith, (rw f at m), has-append i (at r) (p ∷ [])))
        | inr f ↦ elim (Bool-cases (s == q)) [
          | inl g ↦ let s_q : s ≡ q = ground arith in rw s_q (mem-erase p i (at q) (rw (f, g) at m))
          | inr g ↦ rw (f, g) at m
        ]
      ]

  move_queue : ((move q r p k).pcb p).queue ≡ r
  move_queue = ground arith

  move_keeps :
      (i : Ptr)
      → (((move q r p k).pcb i).priority ≡ (k.pcb i).priority)
        × (((move q r p k).pcb i).scheduler_priority ≡ (k.pcb i).scheduler_priority)
  move_keeps i =
      let e = push_unlinked r p (queue_remove q p k).1 i ∙ remove_unlinked q p k i in
      let a = ap (λ (t : Pcb). t.priority) e in
      let b = ap (λ (t : Pcb). t.scheduler_priority) e in ground (arith, a, b)

  -- A task of one queue that is removed, pushed on another queue and given that queue in its field
  -- is in the other queue only, at its end, and all the queues of the kernel stay in order.
  pub move-WellFormed : WellFormed (move q r p k) (moved q r p at)
  move-WellFormed = record {
    queue = moved-IsQueue;
    owner = λ s i m. elim (mem-moved s i m) [
      | inl (e, f) ↦ rw (e, f) move_queue
      | inr (d, m') ↦ ap (λ (t : Pcb). t.queue) (unlinked-move i d) ∙ w.owner s i m'
    ];
    range = λ s i m. elim (mem-moved s i m) [
      | inl (e, f) ↦ rw e (w.range q p h)
      | inr (d, m') ↦ w.range s i m'
    ];
    priority = λ s i m. elim (mem-moved s i m) [
      | inl (e, f) ↦ rw e (ground (arith, move_keeps p, w.priority q p h))
      | inr (d, m') ↦ ground (arith, move_keeps i, w.priority s i m')
    ];
  }

-- the moved task keeps all else
pub move_task :
    (q r : ℕ) (p : Ptr) (k : Kernel)
    → unlinked ((move q r p k).pcb p) ≡ record (unlinked (k.pcb p)) { queue = r }
move_task q r p k =
    let e = push_unlinked r p (queue_remove q p k).1 p ∙ remove_unlinked q p k p in
    set_self ∙ ap (λ (t : Pcb). record t { queue = r }) e
  where
    set_self :
        unlinked ((move q r p k).pcb p)
        ≡ record (unlinked ((queue_push r p (queue_remove q p k).1).pcb p)) { queue = r }
    set_self = ground arith

pub push_globals : (q : ℕ) (p : Ptr) (k : Kernel) → globals (queue_push q p k) ≡ globals k
unfolding queue_push
push_globals q p k = elim (Bool-cases ((k.queues q).head == null)) [ inl e ↦ rw e | inr e ↦ rw e ]

pub remove_globals : (q : ℕ) (p : Ptr) (k : Kernel) → globals (queue_remove q p k).1 ≡ globals k
unfolding queue_remove
remove_globals q p k = elim (Bool-cases (p == (k.queues q).head)) [
  | inl h ↦ elim (Bool-cases (p == (k.queues q).tail)) [ inl t ↦ rw (h, t) | inr t ↦ rw (h, t) ]
  | inr h ↦ elim (Bool-cases (p == (k.queues q).tail)) [ inl t ↦ rw (h, t) | inr t ↦ rw (h, t) ]
]

pub globals-move : (q r : ℕ) (p : Ptr) (k : Kernel) → globals (move q r p k) ≡ globals k
globals-move q r p k = push_globals r p (queue_remove q p k).1 ∙ remove_globals q p k
