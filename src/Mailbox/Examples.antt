-- ===== src/Mailbox/Examples.antt =====
-- The theorems on mailboxes, tried on a box whose bytes lie around the end of the ring.
use ucas_os.Common.{ℕ, ◌≡◌, refl, true, false, [], ◌∷◌, arith, length}
use ucas_os.Common.Int.{pos}
use ucas_os.Mailbox.{Mailbox, put, full, mbox_send, mbox_recv}
use ucas_os.Mailbox.Ring.{
  Sent, Received, contents, mbox_send-Sent, mbox_recv-Received, contents-put_lost,
}

abbrev box : ℕ → ℕ → Mailbox
box head tail = record {
  valid = true;
  name = [];
  user_num = pos 1;
  data_buffer = λ i. i;
  head = head;
  tail = tail;
}

mbox_send-Sent_example : Sent (7 ∷ 8 ∷ []) (box 254 1) (mbox_send (7 ∷ 8 ∷ []) (box 254 1))
mbox_send-Sent_example =
    mbox_send-Sent (7 ∷ 8 ∷ []) (box 254 1) (ground arith, ground arith) (ground arith)

mbox_recv-Received_example : Received 2 (box 254 1) (mbox_recv 2 (box 254 1))
mbox_recv-Received_example =
    mbox_recv-Received 2 (box 254 1) (ground arith, ground arith) (ground arith)

contents-put_lost_example :
    (full (box 0 255) ≡ false)
    × (length (contents (box 0 255)) ≡ 255)
    × (contents (put 9 (box 0 255)) ≡ [])
contents-put_lost_example = contents-put_lost 9 (box 0 255) refl refl
