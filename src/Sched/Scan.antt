-- ===== src/Sched/Scan.antt =====
-- The walk over a queue that `scheduler` and `do_unblock_one` make (kernel/sched/sched.c).
use ucas_os.Common.{
  ℕ, zero, suc, ◌<◌, ◌≡◌, refl, ◌∙◌, ap, fun_ext, false, List, [], ◌∷◌, arith, ◌==◌, if◌then◌else◌,
  upd, has, ◌∈◌, ◌∉◌, Distinct, length, some, ne_of_mem,
}
use ucas_os.Kernel.{Ptr, null, Pcb, Kernel}
use ucas_os.Queue.Linked.{Linked, first, Linked-frame}
use ucas_os.Sched.{Best, better, scan, age}

-- a task that the walk has passed
abbrev pub older : Pcb → Pcb
older t = record t { wait_time = suc t.wait_time }

-- the control blocks after a walk over `xs`
abbrev pub age_all : List Ptr → (Ptr → Pcb) → Ptr → Pcb
age_all xs m i = if has i xs then older (m i) else m i

abbrev pub aged : List Ptr → Kernel → Kernel
aged xs k = record k { pcb = age_all xs k.pcb }

-- the choice that the walk makes
abbrev pub best_of : (Pcb → ℕ) → (Ptr → Pcb) → List Ptr → Best → Best
best_of field m [] b = b
best_of field m (x ∷ xs) b = best_of field m xs (better x (field (m x)) (m x).wait_time b)

best_of-frame :
    (field : Pcb → ℕ) (m m' : Ptr → Pcb) (xs : List Ptr) (b : Best)
    → ((i : Ptr) → i ∈ xs → m' i ≡ m i)
    → best_of field m' xs b ≡ best_of field m xs b
best_of-frame field m m' [] b same = refl
best_of-frame field m m' (x ∷ xs) b same =
    let e : m' x ≡ m x = same x (ground arith) in
    rw e (
      best_of-frame field m m' xs (better x (field (m x)) (m x).wait_time b)
        (λ i h. same i (ground arith)))

age_all-cons :
    (x : Ptr) (xs : List Ptr) (m : Ptr → Pcb)
    → x ∉ xs
    → age_all xs (upd m x (older (m x))) ≡ age_all (x ∷ xs) m
age_all-cons x xs m out = fun_ext λ i. ground arith

-- With enough fuel the walk ends, with the choice above and every task of the queue aged by one.
pub scan_lem :
    (field : Pcb → ℕ) (fuel : ℕ) (xs : List Ptr) (before : Ptr) (b : Best) (k : Kernel)
    → length xs < fuel
    → Linked k.pcb before xs null
    → Distinct xs
    → scan field fuel (first xs null) b k ≡ some (best_of field k.pcb xs b, aged xs k)
unfolding scan
scan_lem field zero xs before b k h l d = absurd (omega arith)
scan_lem field (suc fuel) [] before b k h l d = refl
scan_lem field (suc fuel) (x ∷ xs) before b k h (nz, p, n, l) (d, ds) =
    let k' : Kernel = age x k in
    let nx : (x == null) ≡ false = ground arith in
    let n' : (k'.pcb x).next ≡ first xs null = ground arith in
    let l' : Linked k'.pcb x xs null =
      Linked-frame k.pcb k'.pcb x xs null (λ i m. (ground arith, ground arith)) l in
    let b' : Best = better x (field (k.pcb x)) (k.pcb x).wait_time b in
    let e : best_of field k'.pcb xs b' ≡ best_of field k.pcb xs b' =
      best_of-frame field k.pcb k'.pcb xs b' (λ i m. ground (arith, ne_of_mem i x xs m d)) in
    let a : aged xs k' ≡ aged (x ∷ xs) k =
      ap (λ m. record k { pcb = m }) (age_all-cons x xs k.pcb d) in
    rw nx (rw n' (scan_lem field fuel xs x b' k' (omega arith) l' ds ∙ (λ i. some (e i, a i))))
