-- ===== src/Queue/Push.antt =====
-- queue_push of kernel/sched/queue.c appends its item, and touches no other queue.
use ucas_os.Common.{
  ℕ, ◌≡◌, ◌≢◌, List, [], ◌∷◌, ◌++◌, arith, ◌∈◌, ◌∉◌, Distinct, has-append, ne_of_mem, sym,
}
use ucas_os.Kernel.{Ptr, null, Kernel}
use ucas_os.Queue.{queue_push}
use ucas_os.Queue.Linked.{
  IsQueue, SameLinks, last, Linked-append, Linked-set_next, last-append, last-mem,
}

pub Distinct-snoc : (xs : List Ptr) (p : Ptr) → Distinct xs → p ∉ xs → Distinct (xs ++ p ∷ [])
Distinct-snoc [] p d out = ground arith
Distinct-snoc (x ∷ xs) p (d, ds) out =
    (ground (arith, has-append x xs (p ∷ [])), Distinct-snoc xs p ds (ground arith))

-- what queue_push writes, to a queue that is not empty
module _ (q : ℕ) (p : Ptr) (k : Kernel) (l : Ptr) (busy : (k.queues q).head ≢ null)
    (tail : (k.queues q).tail ≡ l) where
  push_head : ((queue_push q p k).queues q).head ≡ (k.queues q).head
  unfolding queue_push
  push_head = ground arith

  push_tail : ((queue_push q p k).queues q).tail ≡ p
  unfolding queue_push
  push_tail = ground arith

  push_prev : (i : Ptr) → i ≢ p → ((queue_push q p k).pcb i).prev ≡ (k.pcb i).prev
  unfolding queue_push
  push_prev i h = ground arith

  push_next : (i : Ptr) → i ≢ p → i ≢ l → ((queue_push q p k).pcb i).next ≡ (k.pcb i).next
  unfolding queue_push
  push_next i h h' = ground arith

  push_next_last : l ≢ p → ((queue_push q p k).pcb l).next ≡ p
  unfolding queue_push
  push_next_last h = ground arith

  push_item : (((queue_push q p k).pcb p).prev ≡ l) × (((queue_push q p k).pcb p).next ≡ null)
  unfolding queue_push
  push_item = ground arith

push_busy :
    (q : ℕ) (p : Ptr) (k : Kernel) (x : Ptr) (xs : List Ptr)
    → IsQueue k q (x ∷ xs)
    → p ∉ x ∷ xs
    → p ≢ null
    → IsQueue (queue_push q p k) q (x ∷ xs ++ p ∷ [])
push_busy q p k x xs is out nz =
    let l : Ptr = last x xs in
    let in_l : l ∈ x ∷ xs = last-mem x xs in
    let ne : l ≢ p = ne_of_mem l p (x ∷ xs) in_l out in
    let busy : (k.queues q).head ≢ null = ground (arith, is) in
    let k' : Kernel = queue_push q p k in
    let (pp, pn) = push_item q p k l busy is.tail in
    record {
      head = rw (push_head q p k l busy is.tail) is.head;
      tail = rw (push_tail q p k l busy is.tail) (rw (last-append x xs (p ∷ [])));
      linked =
          Linked-append k'.pcb null (x ∷ xs) (p ∷ []) null
            (Linked-set_next k.pcb k'.pcb null (x ∷ xs) null p is.distinct
              (λ i m. push_prev q p k l busy is.tail i (ne_of_mem i p (x ∷ xs) m out))
              (λ i m h. push_next q p k l busy is.tail i (ne_of_mem i p (x ∷ xs) m out) h)
              (push_next_last q p k l busy is.tail ne) is.linked)
            (nz, pp, pn, tt);
      distinct = Distinct-snoc (x ∷ xs) p is.distinct out;
    }

push_empty :
    (q : ℕ) (p : Ptr) (k : Kernel)
    → IsQueue k q []
    → p ≢ null
    → IsQueue (queue_push q p k) q (p ∷ [])
unfolding queue_push
push_empty q p k is nz = record {
  head = ground arith;
  tail = ground arith;
  linked = ground arith;
  distinct = ground arith;
}

-- queue_push of an item that is not in a queue leaves the well-formed queue with the item at its
-- end.
pub queue_push-IsQueue :
    (q : ℕ) (p : Ptr) (k : Kernel) (xs : List Ptr)
    → IsQueue k q xs
    → p ∉ xs
    → p ≢ null
    → IsQueue (queue_push q p k) q (xs ++ p ∷ [])
queue_push-IsQueue q p k [] is out nz = push_empty q p k is nz
queue_push-IsQueue q p k (x ∷ xs) is out nz = push_busy q p k x xs is out nz

-- It leaves every other queue, and the links of every item that is neither `p` nor in the queue.
pub push_queues :
    (q : ℕ) (p : Ptr) (k : Kernel) (r : ℕ) → r ≢ q → (queue_push q p k).queues r ≡ k.queues r
unfolding queue_push
push_queues q p k r h = ground arith

pub push_links :
    (q : ℕ) (p : Ptr) (k : Kernel) (xs : List Ptr) (i : Ptr)
    → IsQueue k q xs
    → i ∉ xs
    → i ≢ p
    → SameLinks (k.pcb i) ((queue_push q p k).pcb i)
push_links q p k [] i is out ne = unfold queue_push in ground arith
push_links q p k (x ∷ xs) i is out ne =
    let l : Ptr = last x xs in
    let busy : (k.queues q).head ≢ null = ground (arith, is) in
    (
      push_next q p k l busy is.tail i ne (λ e. ne_of_mem l i (x ∷ xs) (last-mem x xs) out (sym e)),
      push_prev q p k l busy is.tail i ne,
    )
