-- ===== src/Mailbox.antt =====
-- libs/mailbox.c: mailboxes, rings of bytes that tasks send to and receive from.
--
-- A call of the kernel (the lock, the conditions) is an event of the trace that a function leaves. A
-- task that waits stops there: what follows runs when it comes back, with the mailbox as it is then.
pub mod Ring
mod Examples
use ucas_os.Common.{
  ℕ, zero, suc, ◌+◌, ◌%◌, Bool, true, false, not, ◌&&◌, ◌==◌, ltb, if◌then◌else◌, upd, List, [],
  ◌∷◌, ◌++◌, Option, none, some,
}
use ucas_os.Common.Int.{ℤ, pos, suc_ℤ, pred_ℤ}
use ucas_os.Strings.{same_string, is_zero}

abbrev pub max_box_num : ℕ
max_box_num = 8

abbrev pub max_buffer_size : ℕ
max_buffer_size = 256

-- mailbox_t, less its conditions, which the kernel keeps; `name` is the text it points to
pub record Mailbox : Type 0 where
  pub valid : Bool
  pub name : List ℕ
  pub user_num : ℤ
  pub data_buffer : ℕ → ℕ
  pub head : ℕ
  pub tail : ℕ

-- the calls of the kernel
pub data Event : Type 0 where
  lock_init lock_acquire lock_release : Event
  empty_init full_init : ℕ → Event
  wait_full wait_empty signal_empty signal_full : Event

-- the loop of mbox_init, `n` rounds from `i`
unfoldable pub clear_boxes : ℕ → ℕ → (ℕ → Mailbox) → ℕ → Mailbox
clear_boxes zero i boxes = boxes
clear_boxes (suc n) i boxes =
    clear_boxes n (suc i) (upd boxes i (record (boxes i) { valid = false }))

unfoldable pub mbox_init : (ℕ → Mailbox) → List Event × (ℕ → Mailbox)
mbox_init boxes = (lock_init ∷ [], clear_boxes max_box_num 0 boxes)

-- the two loops of mbox_open: the valid box of a name, and the first that is not valid
unfoldable pub find_box : ℕ → ℕ → List ℕ → (ℕ → Mailbox) → Option ℕ
find_box zero i name boxes = none
find_box (suc n) i name boxes =
    let rest = find_box n (suc i) name boxes in
    if (boxes i).valid && same_string (boxes i).name name then some i else rest

unfoldable pub free_box : ℕ → ℕ → (ℕ → Mailbox) → Option ℕ
free_box zero i boxes = none
free_box (suc n) i boxes =
    let rest = free_box n (suc i) boxes in if (boxes i).valid then rest else some i

abbrev pub join_box : ℕ → (ℕ → Mailbox) → ℕ → Mailbox
join_box i boxes = upd boxes i (record (boxes i) { user_num = suc_ℤ (boxes i).user_num })

abbrev pub new_box : List ℕ → Mailbox → Mailbox
new_box name box = record box { valid = true; name = name; user_num = pos 1; head = 0; tail = 0 }

-- the number of the box, none for NULL
unfoldable pub mbox_open : List ℕ → (ℕ → Mailbox) → List Event × Option ℕ × (ℕ → Mailbox)
mbox_open name boxes = elim (find_box max_box_num 0 name boxes) [
  | some i ↦ (lock_acquire ∷ lock_release ∷ [], some i, join_box i boxes)
  | none ↦ elim (free_box max_box_num 0 boxes) [
    | none ↦ (lock_acquire ∷ lock_release ∷ [], none, boxes)
    | some i ↦ (
      lock_acquire ∷ empty_init i ∷ full_init i ∷ lock_release ∷ [],
      some i,
      upd boxes i (new_box name (boxes i)),
    )
  ]
]

abbrev pub leave_box : Mailbox → Mailbox
leave_box box =
    let n = pred_ℤ box.user_num in
    record box { user_num = n; valid = if is_zero n then false else box.valid }

unfoldable pub mbox_close : Mailbox → List Event × Mailbox
mbox_close box = (lock_acquire ∷ lock_release ∷ [], leave_box box)

-- the test for a full box, as it is written: there is no modulo
abbrev pub full : Mailbox → Bool
full box = box.head == box.tail + 1

abbrev pub empty : Mailbox → Bool
empty box = box.head == box.tail

unfoldable pub put : ℕ → Mailbox → Mailbox
put b box = record box {
  data_buffer = upd box.data_buffer box.tail b;
  tail = (box.tail + 1) % max_buffer_size;
}

unfoldable pub get : Mailbox → ℕ × Mailbox
get box = (box.data_buffer box.head, record box { head = (box.head + 1) % max_buffer_size })

-- the loop of mbox_send: what is left of the message when the task waits
unfoldable pub send_loop : List ℕ → Mailbox → List Event × List ℕ × Mailbox
send_loop [] box = (lock_release ∷ [], [], box)
send_loop (b ∷ msg) box =
    let (events, rest, box') = send_loop msg (put b box) in
    if full box then (wait_full ∷ [], b ∷ msg, box) else (signal_empty ∷ events, rest, box')

unfoldable pub mbox_send : List ℕ → Mailbox → List Event × List ℕ × Mailbox
mbox_send msg box =
    let (events, rest, box') = send_loop msg box in (lock_acquire ∷ events, rest, box')

-- the loop of mbox_recv: the bytes so far, and how many are still to come when the task waits
unfoldable pub recv_loop : ℕ → Mailbox → List Event × List ℕ × ℕ × Mailbox
recv_loop zero box = (lock_release ∷ [], [], 0, box)
recv_loop (suc n) box =
    let (b, after) = get box in
    let (events, got, left, box') = recv_loop n after in
    if empty box
    then (wait_empty ∷ [], [], suc n, box)
    else (signal_full ∷ events, b ∷ got, left, box')

unfoldable pub mbox_recv : ℕ → Mailbox → List Event × List ℕ × ℕ × Mailbox
mbox_recv n box =
    let (events, got, left, box') = recv_loop n box in (lock_acquire ∷ events, got, left, box')
