-- ===== src/Queue/Remove.antt =====
-- queue_remove and queue_dequeue of kernel/sched/queue.c take one item out of a queue.
use ucas_os.Common.{ℕ, ◌≡◌, ◌≢◌, List, [], ◌∷◌, ◌++◌, arith, ◌∉◌, ne_of_mem, sym, ◌∙◌}
use ucas_os.Kernel.{Ptr, null, Kernel}
use ucas_os.Queue.{queue_remove, queue_dequeue}
use ucas_os.Queue.Linked.{
  Linked, IsQueue, SameLinks, first, last, Linked-append, Linked-set_next, Linked-set_prev,
  last-append, last-mem,
}
use ucas_os.Queue.Place.{Place, outside, last_ne, first_ne, place, left_ne, right_ne}

-- what queue_remove writes, by the item's neighbours `a` and `c`
module _ (q : ℕ) (p : Ptr) (k : Kernel) (a c : Ptr) (pa : (k.pcb p).prev ≡ a)
    (nc : (k.pcb p).next ≡ c) (ap : a ≢ p) (cp : c ≢ p) (hd : (k.queues q).head ≡ p → a ≡ null)
    (tl : (k.queues q).tail ≡ p → c ≡ null) where
  remove_next : (i : Ptr) → i ≢ p → i ≢ a → ((queue_remove q p k).1.pcb i).next ≡ (k.pcb i).next
  unfolding queue_remove
  remove_next i h h' = ground arith

  remove_prev : (i : Ptr) → i ≢ p → i ≢ c → ((queue_remove q p k).1.pcb i).prev ≡ (k.pcb i).prev
  unfolding queue_remove
  remove_prev i h h' = ground arith

  remove_next_before : (k.queues q).head ≢ p → ((queue_remove q p k).1.pcb a).next ≡ c
  unfolding queue_remove
  remove_next_before h = ground arith

  remove_prev_after : (k.queues q).tail ≢ p → ((queue_remove q p k).1.pcb c).prev ≡ a
  unfolding queue_remove
  remove_prev_after h = ground arith

  remove_head : (k.queues q).head ≡ p → ((queue_remove q p k).1.queues q).head ≡ c
  unfolding queue_remove
  remove_head h = ground arith

  remove_head_ne :
      (k.queues q).head ≢ p → ((queue_remove q p k).1.queues q).head ≡ (k.queues q).head
  unfolding queue_remove
  remove_head_ne h = ground arith

  remove_tail : (k.queues q).tail ≡ p → ((queue_remove q p k).1.queues q).tail ≡ a
  unfolding queue_remove
  remove_tail h = ground arith

  remove_tail_ne :
      (k.queues q).tail ≢ p → ((queue_remove q p k).1.queues q).tail ≡ (k.queues q).tail
  unfolding queue_remove
  remove_tail_ne h = ground arith

pub remove_queues :
    (q : ℕ) (p : Ptr) (k : Kernel) (r : ℕ) → r ≢ q → (queue_remove q p k).1.queues r ≡ k.queues r
unfolding queue_remove
remove_queues q p k r h = ground arith

pub remove-next : (q : ℕ) (p : Ptr) (k : Kernel) → (queue_remove q p k).0 ≡ (k.pcb p).next
unfolding queue_remove
remove-next q p k = ground arith

module _ (k : Kernel) (q : ℕ) (ys : List Ptr) (p : Ptr) (zs : List Ptr)
    (at : Place k q ys p zs) where
  at_next :
      (i : Ptr) → i ≢ p → i ≢ last null ys → ((queue_remove q p k).1.pcb i).next ≡ (k.pcb i).next
  at_next =
      remove_next q p k (last null ys) (first zs null) at.prev at.next at.before at.after at.is_head
        at.is_tail

  at_prev :
      (i : Ptr) → i ≢ p → i ≢ first zs null → ((queue_remove q p k).1.pcb i).prev ≡ (k.pcb i).prev
  at_prev =
      remove_prev q p k (last null ys) (first zs null) at.prev at.next at.before at.after at.is_head
        at.is_tail

  at_before :
      (k.queues q).head ≢ p → ((queue_remove q p k).1.pcb (last null ys)).next ≡ first zs null
  at_before =
      remove_next_before q p k (last null ys) (first zs null) at.prev at.next at.before at.after
        at.is_head at.is_tail

  at_after :
      (k.queues q).tail ≢ p → ((queue_remove q p k).1.pcb (first zs null)).prev ≡ last null ys
  at_after =
      remove_prev_after q p k (last null ys) (first zs null) at.prev at.next at.before at.after
        at.is_head at.is_tail

head_ne : (h y p : Ptr) (ys : List Ptr) → h ≡ y → p ∉ y ∷ ys → h ≢ p
head_ne h y p ys e out = ground arith

remove-left :
    (k : Kernel) (q : ℕ) (ys : List Ptr) (p : Ptr) (zs : List Ptr)
    → (k.queues q).head ≡ first (ys ++ p ∷ zs) null
    → Place k q ys p zs
    → Linked (queue_remove q p k).1.pcb null ys (first zs null)
remove-left k q [] p zs h at = tt
remove-left k q (y ∷ ys) p zs h at =
    Linked-set_next k.pcb (queue_remove q p k).1.pcb null (y ∷ ys) p (first zs null) at.distinct.1
      (λ i m.
        at_prev k q (y ∷ ys) p zs at i (ne_of_mem i p (y ∷ ys) m at.distinct.3)
          (left_ne k q (y ∷ ys) p zs i at m))
      (λ i m. at_next k q (y ∷ ys) p zs at i (ne_of_mem i p (y ∷ ys) m at.distinct.3))
      (at_before k q (y ∷ ys) p zs at (head_ne (k.queues q).head y p ys h at.distinct.3)) at.left

remove-right :
    (k : Kernel) (q : ℕ) (ys : List Ptr) (p : Ptr) (zs : List Ptr)
    → (k.queues q).tail ≡ last p zs
    → Place k q ys p zs
    → Linked (queue_remove q p k).1.pcb (last null ys) zs null
remove-right k q ys p [] h at = tt
remove-right k q ys p (z ∷ zs) h at =
    let not_tail : (k.queues q).tail ≢ p =
      ground (arith, ne_of_mem (last z zs) p (z ∷ zs) (last-mem z zs) at.distinct.4) in
    Linked-set_prev k.pcb (queue_remove q p k).1.pcb p (last null ys) z zs null at.distinct.2.0
      (λ i m.
        at_prev k q ys p (z ∷ zs) at i (ne_of_mem i p (z ∷ zs) (ground arith) at.distinct.4)
          (ne_of_mem i z zs m at.distinct.2.0))
      (λ i m.
        at_next k q ys p (z ∷ zs) at i (ne_of_mem i p (z ∷ zs) m at.distinct.4)
          (right_ne k q ys p (z ∷ zs) i at m))
      (at_after k q ys p (z ∷ zs) at not_tail) at.right

remove-head :
    (k : Kernel) (q : ℕ) (ys : List Ptr) (p : Ptr) (zs : List Ptr)
    → (k.queues q).head ≡ first (ys ++ p ∷ zs) null
    → Place k q ys p zs
    → ((queue_remove q p k).1.queues q).head ≡ first (ys ++ zs) null
remove-head k q [] p zs h at =
    remove_head q p k null (first zs null) at.prev at.next at.before at.after at.is_head at.is_tail
      h
remove-head k q (y ∷ ys) p zs h at =
    remove_head_ne q p k (last y ys) (first zs null) at.prev at.next at.before at.after at.is_head
      at.is_tail (head_ne (k.queues q).head y p ys h at.distinct.3)
    ∙ h

remove-tail :
    (k : Kernel) (q : ℕ) (ys : List Ptr) (p : Ptr) (zs : List Ptr)
    → (k.queues q).tail ≡ last p zs
    → Place k q ys p zs
    → ((queue_remove q p k).1.queues q).tail ≡ last (last null ys) zs
remove-tail k q ys p [] h at =
    remove_tail q p k (last null ys) null at.prev at.next at.before at.after at.is_head at.is_tail h
remove-tail k q ys p (z ∷ zs) h at =
    let not_tail : (k.queues q).tail ≢ p =
      ground (arith, ne_of_mem (last z zs) p (z ∷ zs) (last-mem z zs) at.distinct.4) in
    remove_tail_ne q p k (last null ys) z at.prev at.next at.before at.after at.is_head at.is_tail
      not_tail
    ∙ h

-- queue_remove of an item that stands anywhere in a queue leaves the well-formed queue of the
-- items before it and after it, in their order.
pub queue_remove-IsQueue :
    (k : Kernel) (q : ℕ) (ys : List Ptr) (p : Ptr) (zs : List Ptr)
    → IsQueue k q (ys ++ p ∷ zs)
    → IsQueue (queue_remove q p k).1 q (ys ++ zs)
queue_remove-IsQueue k q ys p zs is =
    let at = place k q ys p zs is in
    let tail : (k.queues q).tail ≡ last p zs = is.tail ∙ last-append null ys (p ∷ zs) in
    record {
      head = remove-head k q ys p zs is.head at;
      tail = remove-tail k q ys p zs tail at ∙ sym (last-append null ys zs);
      linked =
          Linked-append (queue_remove q p k).1.pcb null ys zs null
            (remove-left k q ys p zs is.head at) (remove-right k q ys p zs tail at);
      distinct = at.distinct.0;
    }

-- It leaves the links of every item outside the queue.
pub remove_links :
    (k : Kernel) (q : ℕ) (ys : List Ptr) (p : Ptr) (zs : List Ptr) (i : Ptr)
    → IsQueue k q (ys ++ p ∷ zs)
    → i ≢ null
    → i ∉ ys ++ p ∷ zs
    → SameLinks (k.pcb i) ((queue_remove q p k).1.pcb i)
remove_links k q ys p zs i is nz out =
    let at = place k q ys p zs is in
    let (oy, op, oz) = outside ys p zs i out in
    (
      at_next k q ys p zs at i op (λ e. last_ne ys i nz oy (sym e)),
      at_prev k q ys p zs at i op (λ e. first_ne zs i nz oz (sym e)),
    )

-- `queue_dequeue` takes the head out just as `queue_remove` would, and returns it.
module _ (q : ℕ) (k : Kernel) where
  dequeue_one :
      (k.pcb (k.queues q).head).next ≡ null
      → (k.queues q).tail ≡ (k.queues q).head
      → queue_dequeue q k ≡ ((k.queues q).head, (queue_remove q (k.queues q).head k).1)
  unfolding queue_dequeue queue_remove
  dequeue_one e h = ground arith

  dequeue_more :
      (k.pcb (k.queues q).head).next ≢ null
      → (k.queues q).tail ≢ (k.queues q).head
      → queue_dequeue q k ≡ ((k.queues q).head, (queue_remove q (k.queues q).head k).1)
  unfolding queue_dequeue queue_remove
  dequeue_more e h = ground arith

-- queue_dequeue of a queue that is not empty returns its head and leaves what queue_remove of the
-- head leaves.
pub queue_dequeue-queue_remove :
    (q : ℕ) (k : Kernel) (x : Ptr) (xs : List Ptr)
    → IsQueue k q (x ∷ xs)
    → queue_dequeue q k ≡ (x, (queue_remove q x k).1)
queue_dequeue-queue_remove q k x [] is =
    rw (← is.head) (dequeue_one q k (ground (arith, is)) (is.tail ∙ sym is.head))
queue_dequeue-queue_remove q k x (y ∷ xs) is = rw (← is.head) (
    dequeue_more q k (ground (arith, is)) (λ e.
      ne_of_mem (last y xs) x (y ∷ xs) (last-mem y xs) is.distinct.0 (sym is.tail ∙ (e ∙ is.head))))
