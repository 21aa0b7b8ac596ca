-- ===== src/Mailbox/Ring.antt =====
-- What the ring of a mailbox of libs/mailbox.c holds, from its head to its tail.
use ucas_os.Common.{
  ℕ, zero, suc, ◌+◌, ◌-◌, ◌%◌, ◌≤◌, ◌<◌, ◌≡◌, ◌≢◌, refl, sym, ap, ◌∙◌, true, false, arith, ◌==◌,
  upd, List, [], ◌∷◌, ◌++◌, length,
}
use ucas_os.Mailbox.{
  Mailbox, Event, send_loop, mbox_send, recv_loop, mbox_recv, put, get, full, empty,
  max_buffer_size,
}

-- `n` bytes of the ring from place `h` on
abbrev pub ring : (ℕ → ℕ) → ℕ → ℕ → List ℕ
ring buf h zero = []
ring buf h (suc n) = buf h ∷ ring buf ((h + 1) % max_buffer_size) n

abbrev pub count : Mailbox → ℕ
count box = (box.tail + max_buffer_size - box.head) % max_buffer_size

abbrev pub contents : Mailbox → List ℕ
contents box = ring box.data_buffer box.head (count box)

-- both ends are places of the ring
abbrev pub InRange : Mailbox → Type 0
InRange box = (box.head < 256) × (box.tail < 256)

ring-snoc :
    (buf : ℕ → ℕ) (h n : ℕ)
    → h < 256
    → ring buf h (suc n) ≡ ring buf h n ++ buf ((h + n) % 256) ∷ []
ring-snoc buf h zero lt = let e : (h + 0) % 256 ≡ h = omega arith in rw e
ring-snoc buf h (suc n) lt =
    let e : ((h + 1) % 256 + n) % 256 ≡ (h + suc n) % 256 = omega arith in
    ap (λ (l : List ℕ). buf h ∷ l) (ring-snoc buf ((h + 1) % 256) n (omega arith) ∙ rw e)

-- a byte written past the end of what is read is not seen
ring-upd :
    (buf : ℕ → ℕ) (t v h n : ℕ)
    → h < 256
    → t < 256
    → n ≤ (t + 256 - h) % 256
    → ring (upd buf t v) h n ≡ ring buf h n
ring-upd buf t v h zero p q le = refl
ring-upd buf t v h (suc n) p q le =
    let e : (h == t) ≡ false = ground arith in
    rw e (
      ap (λ (l : List ℕ). buf h ∷ l)
        (ring-upd buf t v ((h + 1) % 256) n (omega arith) q (omega arith)))

pub contents-put :
    (b : ℕ) (box : Mailbox)
    → InRange box
    → count box < 255
    → InRange (put b box) × (contents (put b box) ≡ contents box ++ b ∷ [])
unfolding put
contents-put b box (h, t) room =
    let n : ℕ = count box in
    let grown : ((box.tail + 1) % 256 + 256 - box.head) % 256 ≡ suc n = omega arith in
    let end : (box.head + n) % 256 ≡ box.tail = omega arith in
    let here : (box.tail == box.tail) ≡ true = ground arith in
    (
      (h, omega arith),
      (rw grown (
          ring-snoc (upd box.data_buffer box.tail b) box.head n h
          ∙ (rw (end, here)
              (ap (λ (l : List ℕ). l ++ b ∷ [])
                (ring-upd box.data_buffer box.tail b box.head n h t (omega arith)))))),
    )

pub contents-get :
    (box : Mailbox)
    → InRange box
    → empty box ≡ false
    → InRange (get box).1 × (contents box ≡ (get box).0 ∷ contents (get box).1)
unfolding get
contents-get box (h, t) more =
    let n : ℕ = (box.tail + 256 - (box.head + 1) % 256) % 256 in
    let shrunk : count box ≡ suc n = ground arith in ((omega arith, t), rw shrunk)

pub length-ring : (buf : ℕ → ℕ) (h n : ℕ) → length (ring buf h n) ≡ n
length-ring buf h zero = refl
length-ring buf h (suc n) = ap suc (length-ring buf ((h + 1) % 256) n)

-- A box of 255 bytes from place 0 to place 255 is not seen as full, and the next byte leaves a box
-- that holds nothing.
pub contents-put_lost :
    (b : ℕ) (box : Mailbox)
    → box.head ≡ 0
    → box.tail ≡ 255
    → (full box ≡ false) × (length (contents box) ≡ 255) × (contents (put b box) ≡ [])
unfolding put
contents-put_lost b box h t =
    (ground arith, length-ring box.data_buffer box.head (count box) ∙ rw (h, t), rw (h, t))

count-put :
    (b : ℕ) (box : Mailbox) → InRange box → count box < 255 → count (put b box) ≡ suc (count box)
unfolding put
count-put b box (h, t) room = omega arith

full_lem : (box : Mailbox) → InRange box → count box < 255 → full box ≡ false
full_lem box (h, t) room = let ne : box.head ≢ box.tail + 1 = omega arith in ground arith

append_assoc : (xs ys zs : List ℕ) → (xs ++ ys) ++ zs ≡ xs ++ (ys ++ zs)
append_assoc [] ys zs = refl
append_assoc (x ∷ xs) ys zs = ap (λ (l : List ℕ). x ∷ l) (append_assoc xs ys zs)

append_nil : (xs : List ℕ) → xs ++ [] ≡ xs
append_nil [] = refl
append_nil (x ∷ xs) = ap (λ (l : List ℕ). x ∷ l) (append_nil xs)

-- the whole message went in, behind what was there
abbrev pub Sent : List ℕ → Mailbox → List Event × List ℕ × Mailbox → Type 0
Sent msg box (events, rest, box') =
    (rest ≡ []) × InRange box' × (contents box' ≡ contents box ++ msg)

send_loop-Sent :
    (msg : List ℕ) (box : Mailbox)
    → InRange box
    → count box + length msg ≤ 255
    → Sent msg box (send_loop msg box)
unfolding send_loop
send_loop-Sent [] box r room = (refl, r, sym (append_nil (contents box)))
send_loop-Sent (b ∷ msg) box r room =
    let low : count box < 255 = omega arith in
    let open_box : full box ≡ false = full_lem box r low in
    let (r', more) = contents-put b box r low in
    let rest : Sent msg (put b box) (send_loop msg (put b box)) =
      send_loop-Sent msg (put b box) r' (rw (count-put b box r low) (omega arith)) in
    rw open_box (
      rest.0,
      rest.1,
      rest.2 ∙ (ap (λ (l : List ℕ). l ++ msg) more ∙ append_assoc (contents box) (b ∷ []) msg),
    )

-- mbox_send to a box with room for the message within 255 bytes puts the whole message behind what
-- the box holds, without waiting, and the ends stay in the ring.
pub mbox_send-Sent :
    (msg : List ℕ) (box : Mailbox)
    → InRange box
    → count box + length msg ≤ 255
    → Sent msg box (mbox_send msg box)
unfolding mbox_send
mbox_send-Sent msg box r room = send_loop-Sent msg box r room

not_empty : (box : Mailbox) (n : ℕ) → InRange box → suc n ≤ count box → empty box ≡ false
not_empty box n (h, t) enough = let ne : box.head ≢ box.tail = omega arith in ground arith

count-get : (box : Mailbox) (n : ℕ) → InRange box → suc n ≤ count box → n ≤ count (get box).1
unfolding get
count-get box n (h, t) enough = omega arith

-- the bytes asked for came, from the front
abbrev pub Received : ℕ → Mailbox → List Event × List ℕ × ℕ × Mailbox → Type 0
Received n box (events, got, left, box') =
    (left ≡ 0) × (length got ≡ n) × InRange box' × (contents box ≡ got ++ contents box')

recv_loop-Received :
    (n : ℕ) (box : Mailbox) → InRange box → n ≤ count box → Received n box (recv_loop n box)
unfolding recv_loop
recv_loop-Received zero box r enough = (refl, refl, r, refl)
recv_loop-Received (suc n) box r enough =
    let more : empty box ≡ false = not_empty box n r enough in
    let (r', front) = contents-get box r more in
    let rest : Received n (get box).1 (recv_loop n (get box).1) =
      recv_loop-Received n (get box).1 r' (count-get box n r enough) in
    rw more (rest.0, ap suc rest.1, rest.2, front ∙ ap (λ (l : List ℕ). (get box).0 ∷ l) rest.3)

-- mbox_recv of as many bytes as the box holds, or fewer, returns that many from the front, without
-- waiting, and the box holds the rest.
pub mbox_recv-Received :
    (n : ℕ) (box : Mailbox) → InRange box → n ≤ count box → Received n box (mbox_recv n box)
unfolding mbox_recv
mbox_recv-Received n box r enough = recv_loop-Received n box r enough
