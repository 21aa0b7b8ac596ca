-- ===== src/Sched/WakeAll.antt =====
-- `do_unblock_all` of kernel/sched/sched.c.
use mathlib.Core.List.{append_assoc, append-nil}
use ucas_os.Common.{
  inl, inr, ℕ, zero, suc, ◌<◌, ◌≡◌, ◌≢◌, refl, true, false, List, [], ◌∷◌, ◌++◌, arith, ◌==◌, upd,
  ◌∈◌, length, ◌∙◌, ap, sym, fun_ext, subst, Bool-cases,
}
use ucas_os.Kernel.{
  Ptr, Kernel, Run, ok, panic, diverges, fault, globals, Succeeds, ready_queue, task_ready,
  set_queue, set_status, set_wait_time, set_scheduler_priority,
}
use ucas_os.Queue.{queue_is_empty, queue_push, queue_remove}
use ucas_os.Queue.Linked.{IsQueue}
use ucas_os.Queue.Remove.{queue_dequeue-queue_remove}
use ucas_os.Sched.{release_head, unblock_loop, do_unblock_all, walk_fuel}
use ucas_os.Sched.WellFormed.{WellFormed, WellFormed-tasks, length-le}
use ucas_os.Sched.Moves.{move, moved, move-WellFormed, globals-move}

-- what is left of release_head once its dequeue is a removal
release : ℕ → Ptr → Kernel → Kernel
release q p k =
    let k₂ = set_wait_time p 0 (queue_push ready_queue p (queue_remove q p k).1) in
    let k₃ = set_scheduler_priority p (suc (k₂.pcb p).scheduler_priority) k₂ in
    set_status p task_ready (set_queue p ready_queue k₃)

release_head-release :
    (k : Kernel) (q : ℕ) (x : Ptr) (xs : List Ptr)
    → IsQueue k q (x ∷ xs)
    → release_head q k ≡ release q x k
unfolding release_head release
release_head-release k q x xs is = rw (queue_dequeue-queue_remove q k x xs is)

release-WellFormed :
    (k : Kernel) (at : ℕ → List Ptr) (q : ℕ) (p : Ptr)
    → WellFormed k at
    → p ∈ at q
    → q ≢ ready_queue
    → WellFormed (release q p k) (moved q ready_queue p at)
unfolding release
release-WellFormed k at q p w h ne =
    WellFormed-tasks (move q ready_queue p k) (release q p k) (moved q ready_queue p at) refl
      (λ i. ground arith) (move-WellFormed k at w q ready_queue p ne h)

-- the tasks of `q` behind those of the ready queue, in order
abbrev pub drained : ℕ → (ℕ → List Ptr) → ℕ → List Ptr
drained q at = upd (upd at q []) ready_queue (at ready_queue ++ at q)

same_test : (q : ℕ) → (q == q) ≡ true
same_test q = ground arith

pub moved_q :
    (at : ℕ → List Ptr) (q x : ℕ) (xs : List Ptr)
    → q ≢ ready_queue
    → at q ≡ x ∷ xs
    → moved q ready_queue x at q ≡ xs
moved_q at q x xs ne e =
    let other : (q == ready_queue) ≡ false = ground arith in
    rw (other, same_test q, e) (rw (same_test x))

-- the state `k'` after do_unblock_all
abbrev pub Drained : Kernel → (ℕ → List Ptr) → ℕ → Kernel → Type 0
Drained k at q k' = WellFormed k' (drained q at) × (globals k' ≡ globals k)

globals-release : (q : ℕ) (p : Ptr) (k : Kernel) → globals (release q p k) ≡ globals k
unfolding release
globals-release q p k = globals-move q ready_queue p k

pub drained-moved :
    (at : ℕ → List Ptr) (q x : ℕ) (xs : List Ptr)
    → q ≢ ready_queue
    → at q ≡ x ∷ xs
    → drained q (moved q ready_queue x at) ≡ drained q at
drained-moved at q x xs ne e = fun_ext λ s. elim (Bool-cases (s == ready_queue)) [
  | inl f ↦ rw f (
      ap (λ l. (at ready_queue ++ x ∷ []) ++ l) (moved_q at q x xs ne e)
      ∙ (append_assoc (at ready_queue) (x ∷ []) xs ∙ ap (λ l. at ready_queue ++ l) (sym e)))
  | inr f ↦ elim (Bool-cases (s == q)) [ inl g ↦ rw (f, g) | inr g ↦ rw (f, g) ]
]

pub drained-nil : (at : ℕ → List Ptr) (q : ℕ) → at q ≡ [] → drained q at ≡ at
drained-nil at q e = fun_ext λ s. elim (Bool-cases (s == ready_queue)) [
  | inl f ↦
      let s_r : s ≡ ready_queue = ground arith in
      rw (f, e) (append-nil (at ready_queue) ∙ ap at (sym s_r))
  | inr f ↦ elim (Bool-cases (s == q)) [
    | inl g ↦ let s_q : s ≡ q = ground arith in rw (f, g) (sym e ∙ ap at (sym s_q))
    | inr g ↦ rw (f, g)
  ]
]

empty_test : (k : Kernel) (q : ℕ) → IsQueue k q [] → queue_is_empty q k ≡ true
unfolding queue_is_empty
empty_test k q is = ground (arith, is)

busy_test :
    (k : Kernel) (q x : ℕ) (xs : List Ptr) → IsQueue k q (x ∷ xs) → queue_is_empty q k ≡ false
unfolding queue_is_empty
busy_test k q x xs is = ground (arith, is)

then_drained :
    (k : Kernel) (at : ℕ → List Ptr) (q x : ℕ) (r : Run)
    → drained q (moved q ready_queue x at) ≡ drained q at
    → Succeeds (Drained (release q x k) (moved q ready_queue x at) q) r
    → Succeeds (Drained k at q) r
then_drained k at q x (ok k') e (w, g) = (subst (WellFormed k') e w, g ∙ globals-release q x k)
then_drained k at q x panic e h = h
then_drained k at q x diverges e h = h
then_drained k at q x fault e h = h

unblock_loop-Drained :
    (fuel : ℕ) (xs : List Ptr) (k : Kernel) (at : ℕ → List Ptr) (q : ℕ)
    → WellFormed k at
    → q ≢ ready_queue
    → at q ≡ xs
    → length xs < fuel
    → Succeeds (Drained k at q) (unblock_loop fuel q k)
unfolding unblock_loop
unblock_loop-Drained zero xs k at q w ne e h = absurd (omega arith)
unblock_loop-Drained (suc fuel) [] k at q w ne e h =
    rw (empty_test k q (subst (IsQueue k q) e (w.queue q)))
      (subst (WellFormed k) (sym (drained-nil at q e)) w, refl)
unblock_loop-Drained (suc fuel) (x ∷ xs) k at q w ne e h =
    let is : IsQueue k q (x ∷ xs) = subst (IsQueue k q) e (w.queue q) in
    let in_x : x ∈ at q = rw e (ground arith) in
    rw (busy_test k q x xs is) (
      rw (release_head-release k q x xs is) (
        then_drained k at q x (unblock_loop fuel q (release q x k)) (drained-moved at q x xs ne e) (
          unblock_loop-Drained fuel xs (release q x k) (moved q ready_queue x at) q
            (release-WellFormed k at q x w in_x ne) ne (moved_q at q x xs ne e) (omega arith))))

-- do_unblock_all ends, with the queue empty and its tasks at the end of the ready queue in their
-- order; the queues stay in order, and the running task and the other objects are kept.
pub do_unblock_all-Drained :
    (k : Kernel) (at : ℕ → List Ptr) (q : ℕ)
    → WellFormed k at
    → q ≢ ready_queue
    → Succeeds (Drained k at q) (do_unblock_all q k)
unfolding do_unblock_all
do_unblock_all-Drained k at q w ne =
    unblock_loop-Drained walk_fuel (at q) k at q w ne refl (ground (arith, length-le k at w q))
