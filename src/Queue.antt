-- ===== src/Queue.antt =====
-- kernel/sched/queue.c: doubly linked queues of process control blocks.
pub mod Linked
pub mod Place
pub mod Push
pub mod Remove
mod Examples
use ucas_os.Common.{ℕ, zero, suc, Bool, true, false, ◌&&◌, ◌==◌, ltb, if◌then◌else◌}
use ucas_os.Kernel.{Ptr, null, Kernel, Queue, set_next, set_prev, set_head, set_tail, max_task_num}

unfoldable pub queue_init : ℕ → Kernel → Kernel
queue_init q k = set_head q null (set_tail q null k)

unfoldable pub queue_is_empty : ℕ → Kernel → Bool
queue_is_empty q k = (k.queues q).head == null

unfoldable pub queue_push : ℕ → Ptr → Kernel → Kernel
queue_push q item k =
    if (k.queues q).head == null
    then set_prev item null (set_next item null (set_tail q item (set_head q item k)))
    else (let k₁ = set_next item null (set_next (k.queues q).tail item k) in
        set_tail q item (set_prev item (k₁.queues q).tail k₁))

-- the `for` loop of queue_push_increasingly; `none` of the fuel is left when it does not end
unfoldable pub seek : ℕ → Ptr → Ptr → Kernel → Ptr
seek zero t item k = null
seek (suc fuel) t item k =
    let rest = seek fuel (k.pcb t).next item k in
    if t == null then null else if ltb (k.pcb item).priority (k.pcb t).priority then rest else t

unfoldable pub queue_push_increasingly : ℕ → Ptr → Kernel → Kernel
unfolding seek
queue_push_increasingly q item k =
    if (k.queues q).head == null
    then set_prev item null (set_next item null (set_tail q item (set_head q item k)))
    else (let t = seek (suc max_task_num) (k.queues q).head item k in
        if t == (k.queues q).head
        then set_head q item (set_prev item null (set_next item t (set_prev t item k)))
        else if t == null
        then (let last = (k.queues q).tail in
            set_tail q item (set_next item null (set_prev item last (set_next last item k))))
        else (let k₁ = set_next (k.pcb t).prev item k in
            let k₂ = set_prev item (k₁.pcb t).prev k₁ in set_next item t (set_prev t item k₂)))

-- the item, and the state after
unfoldable pub queue_dequeue : ℕ → Kernel → Ptr × Kernel
queue_dequeue q k =
    let head = (k.queues q).head in
    if (k.pcb head).next == null
    then (head, set_tail q null (set_head q null k))
    else (let k₁ = set_head q (k.pcb head).next k in
        (head, set_next head null (set_prev head null (set_prev (k₁.queues q).head null k₁))))

-- the next item, and the state after
unfoldable pub queue_remove : ℕ → Ptr → Kernel → Ptr × Kernel
queue_remove q item k =
    let next = (k.pcb item).next in
    if (item == (k.queues q).head) && (item == (k.queues q).tail)
    then (next, set_tail q null (set_head q null k))
    else (let k₁ =
          if item == (k.queues q).head
          then (let k' = set_head q (k.pcb item).next k in set_prev (k'.queues q).head null k')
          else if item == (k.queues q).tail
          then (let k' = set_tail q (k.pcb item).prev k in set_next (k'.queues q).tail null k')
          else (let k' = set_next (k.pcb item).prev (k.pcb item).next k in
              set_prev (k'.pcb item).next (k'.pcb item).prev k') in
        (next, set_next item null (set_prev item null k₁)))
