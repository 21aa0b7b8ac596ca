-- ===== src/Queue/Linked.antt =====
-- What a queue of kernel/sched/queue.c stands for: the list of its items, from head to tail.
use ucas_os.Common.{ℕ, ◌≡◌, ◌≢◌, refl, List, [], ◌∷◌, ◌++◌, arith, ◌∈◌, ◌∉◌, Distinct, ne_of_mem}
use ucas_os.Kernel.{Ptr, null, Pcb, Kernel}

abbrev pub first : List Ptr → Ptr → Ptr
first [] e = e
first (x ∷ xs) e = x

abbrev pub last : Ptr → List Ptr → Ptr
last b [] = b
last b (x ∷ xs) = last x xs

-- the items `xs` are linked in this order, behind `b` and before `e`
abbrev pub Linked : (Ptr → Pcb) → Ptr → List Ptr → Ptr → Type 0
Linked m b [] e = Unit {0}
Linked m b (x ∷ xs) e = (x ≢ null) × ((m x).prev ≡ b) × ((m x).next ≡ first xs e) × Linked m x xs e

pub record IsQueue (k : Kernel) (q : ℕ) (xs : List Ptr) : Type 0 where
  pub head : (k.queues q).head ≡ first xs null
  pub tail : (k.queues q).tail ≡ last null xs
  pub linked : Linked k.pcb null xs null
  pub distinct : Distinct xs

-- the links of an item are kept
abbrev pub SameLinks : Pcb → Pcb → Type 0
SameLinks a b = (b.next ≡ a.next) × (b.prev ≡ a.prev)

pub first-append : (xs ys : List Ptr) (e : Ptr) → first (xs ++ ys) e ≡ first xs (first ys e)
first-append [] ys e = refl
first-append (x ∷ xs) ys e = refl

pub last-append : (b : Ptr) (xs ys : List Ptr) → last b (xs ++ ys) ≡ last (last b xs) ys
last-append b [] ys = refl
last-append b (x ∷ xs) ys = last-append x xs ys

pub last-mem : (x : Ptr) (xs : List Ptr) → last x xs ∈ x ∷ xs
last-mem x [] = ground arith
last-mem x (y ∷ xs) = ground (arith, last-mem y xs)

-- items whose links are kept stay linked
pub Linked-frame :
    (m m' : Ptr → Pcb) (b : Ptr) (xs : List Ptr) (e : Ptr)
    → ((i : Ptr) → i ∈ xs → SameLinks (m i) (m' i))
    → Linked m b xs e
    → Linked m' b xs e
Linked-frame m m' b [] e same h = tt
Linked-frame m m' b (x ∷ xs) e same (nz, p, n, h) =
    let (sn, sp) = same x (ground arith) in
    (nz, rw sp p, rw sn n, Linked-frame m m' x xs e (λ i h. same i (ground arith)) h)

pub Linked-append :
    (m : Ptr → Pcb) (b : Ptr) (xs ys : List Ptr) (e : Ptr)
    → Linked m b xs (first ys e)
    → Linked m (last b xs) ys e
    → Linked m b (xs ++ ys) e
Linked-append m b [] ys e h g = g
Linked-append m b (x ∷ xs) ys e (nz, p, n, h) g =
    (nz, p, rw (first-append xs ys e) n, Linked-append m x xs ys e h g)

pub Linked-split :
    (m : Ptr → Pcb) (b : Ptr) (xs ys : List Ptr) (e : Ptr)
    → Linked m b (xs ++ ys) e
    → Linked m b xs (first ys e) × Linked m (last b xs) ys e
Linked-split m b [] ys e h = (tt, h)
Linked-split m b (x ∷ xs) ys e (nz, p, n, h) =
    let (l, r) = Linked-split m x xs ys e h in ((nz, p, rw (first-append xs ys e) at n, l), r)

-- a write to `next` of the last item moves the end
pub Linked-set_next :
    (m m' : Ptr → Pcb) (b : Ptr) (xs : List Ptr) (e e' : Ptr)
    → Distinct xs
    → ((i : Ptr) → i ∈ xs → (m' i).prev ≡ (m i).prev)
    → ((i : Ptr) → i ∈ xs → i ≢ last b xs → (m' i).next ≡ (m i).next)
    → (m' (last b xs)).next ≡ e'
    → Linked m b xs e
    → Linked m' b xs e'
Linked-set_next m m' b [] e e' d sp sn w h = tt
Linked-set_next m m' b (x ∷ []) e e' d sp sn w (nz, p, n, h) =
    (nz, rw (sp x (ground arith)) p, w, tt)
Linked-set_next m m' b (x ∷ y ∷ xs) e e' (d, ds) sp sn w (nz, p, n, h) =
    let ne : x ≢ last y xs = ground (arith, ne_of_mem (last y xs) x (y ∷ xs) (last-mem y xs) d) in
    (
      nz,
      rw (sp x (ground arith)) p,
      rw (sn x (ground arith) ne) n,
      Linked-set_next m m' x (y ∷ xs) e e' ds (λ i j. sp i (ground arith))
          (λ i j l. sn i (ground arith) l) w h,
    )

-- a write to `prev` of the first item moves the start
pub Linked-set_prev :
    (m m' : Ptr → Pcb) (b b' : Ptr) (x : Ptr) (xs : List Ptr) (e : Ptr)
    → x ∉ xs
    → ((i : Ptr) → i ∈ xs → (m' i).prev ≡ (m i).prev)
    → ((i : Ptr) → i ∈ x ∷ xs → (m' i).next ≡ (m i).next)
    → (m' x).prev ≡ b'
    → Linked m b (x ∷ xs) e
    → Linked m' b' (x ∷ xs) e
Linked-set_prev m m' b b' x xs e d sp sn w (nz, p, n, h) = (
  nz,
  w,
  rw (sn x (ground arith)) n,
  Linked-frame m m' x xs e (λ i j. (sn i (ground arith), sp i j)) h,
)

pub Linked-ne_null :
    (m : Ptr → Pcb) (b : Ptr) (xs : List Ptr) (e i : Ptr) → Linked m b xs e → i ∈ xs → i ≢ null
Linked-ne_null m b [] e i h mem = ground arith
Linked-ne_null m b (x ∷ xs) e i (nz, p, n, h) mem = ground (arith, Linked-ne_null m x xs e i h)
