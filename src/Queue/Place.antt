-- ===== src/Queue/Place.antt =====
-- An item of a queue of kernel/sched/queue.c, and its neighbours.
use ucas_os.Common.{
  ℕ, ◌≡◌, ◌≢◌, refl, List, [], ◌∷◌, ◌++◌, arith, ◌∈◌, ◌∉◌, Distinct, has-append, ne_of_mem, sym,
  ◌∙◌,
}
use ucas_os.Kernel.{Ptr, null, Kernel}
use ucas_os.Queue.Linked.{
  Linked, IsQueue, first, last, Linked-split, last-append, last-mem, Linked-ne_null,
}

pub outside :
    (ys : List Ptr) (p : Ptr) (zs : List Ptr) (i : Ptr)
    → i ∉ ys ++ p ∷ zs
    → (i ∉ ys) × (i ≢ p) × (i ∉ zs)
outside ys p zs i out = ground (arith, has-append i ys (p ∷ zs))

pub last_ne : (ys : List Ptr) (p : Ptr) → p ≢ null → p ∉ ys → last null ys ≢ p
last_ne [] p nz out = ground arith
last_ne (y ∷ ys) p nz out = ne_of_mem (last y ys) p (y ∷ ys) (last-mem y ys) out

pub first_ne : (zs : List Ptr) (p : Ptr) → p ≢ null → p ∉ zs → first zs null ≢ p
first_ne [] p nz out = ground arith
first_ne (z ∷ zs) p nz out = ground arith

-- the parts of a list of distinct items
pub Distinct-parts :
    (ys : List Ptr) (p : Ptr) (zs : List Ptr)
    → Distinct (ys ++ p ∷ zs)
    → Distinct (ys ++ zs) × Distinct ys × Distinct zs × (p ∉ ys) × (p ∉ zs)
Distinct-parts [] p zs d = ground arith
Distinct-parts (y ∷ ys) p zs (d, ds) =
    ground (arith, Distinct-parts ys p zs ds, has-append y ys (p ∷ zs), has-append y ys zs)

-- `p` is the head exactly when nothing stands before it, and the tail when nothing does behind
pub head_first :
    (k : Kernel) (q : ℕ) (ys : List Ptr) (p : Ptr) (zs : List Ptr)
    → IsQueue k q (ys ++ p ∷ zs)
    → (k.queues q).head ≡ p
    → last null ys ≡ null
head_first k q [] p zs is h = refl
head_first k q (y ∷ ys) p zs is h =
    let d = Distinct-parts (y ∷ ys) p zs is.distinct in ground (arith, is)

pub tail_last :
    (k : Kernel) (q : ℕ) (ys : List Ptr) (p : Ptr) (zs : List Ptr)
    → IsQueue k q (ys ++ p ∷ zs)
    → (k.queues q).tail ≡ p
    → first zs null ≡ null
tail_last k q ys p [] is h = refl
tail_last k q ys p (z ∷ zs) is h =
    let d = Distinct-parts ys p (z ∷ zs) is.distinct in
    absurd (
      ne_of_mem (last z zs) p (z ∷ zs) (last-mem z zs) d.4
        (sym (last-append null ys (p ∷ z ∷ zs)) ∙ (sym is.tail ∙ h)))

-- An item and its neighbours in a queue.
pub record Place (k : Kernel) (q : ℕ) (ys : List Ptr) (p : Ptr) (zs : List Ptr) : Type 0 where
  pub ne_null : p ≢ null
  pub prev : (k.pcb p).prev ≡ last null ys
  pub next : (k.pcb p).next ≡ first zs null
  pub before : last null ys ≢ p
  pub after : first zs null ≢ p
  pub is_head : (k.queues q).head ≡ p → last null ys ≡ null
  pub is_tail : (k.queues q).tail ≡ p → first zs null ≡ null
  pub left : Linked k.pcb null ys p
  pub right : Linked k.pcb p zs null
  pub distinct : Distinct (ys ++ zs) × Distinct ys × Distinct zs × (p ∉ ys) × (p ∉ zs)

pub place :
    (k : Kernel) (q : ℕ) (ys : List Ptr) (p : Ptr) (zs : List Ptr)
    → IsQueue k q (ys ++ p ∷ zs)
    → Place k q ys p zs
place k q ys p zs is =
    let d = Distinct-parts ys p zs is.distinct in
    let (l, (nz, pp, pn, r)) = Linked-split k.pcb null ys (p ∷ zs) null is.linked in
    record {
      ne_null = nz;
      prev = pp;
      next = pn;
      before = last_ne ys p nz d.3;
      after = first_ne zs p nz d.4;
      is_head = head_first k q ys p zs is;
      is_tail = tail_last k q ys p zs is;
      left = l;
      right = r;
      distinct = d;
    }

pub apart : (ys zs : List Ptr) (i : Ptr) → Distinct (ys ++ zs) → i ∈ ys → i ∉ zs
apart [] zs i d m = ground arith
apart (y ∷ ys) zs i (d, ds) m = ground (arith, has-append y ys zs, apart ys zs i ds)

pub left_ne :
    (k : Kernel) (q : ℕ) (ys : List Ptr) (p : Ptr) (zs : List Ptr) (i : Ptr)
    → Place k q ys p zs
    → i ∈ ys
    → i ≢ first zs null
left_ne k q ys p [] i at m = Linked-ne_null k.pcb null ys p i at.left m
left_ne k q ys p (z ∷ zs) i at m = ground (arith, apart ys (z ∷ zs) i at.distinct.0 m)

pub right_ne :
    (k : Kernel) (q : ℕ) (ys : List Ptr) (p : Ptr) (zs : List Ptr) (i : Ptr)
    → Place k q ys p zs
    → i ∈ zs
    → i ≢ last null ys
right_ne k q [] p zs i at m = Linked-ne_null k.pcb p zs null i at.right m
right_ne k q (y ∷ ys) p zs i at m =
    ground (arith, apart (y ∷ ys) zs (last y ys) at.distinct.0 (last-mem y ys))
