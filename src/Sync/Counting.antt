-- ===== src/Sync/Counting.antt =====
-- Semaphores (kernel/lock/sem.c): a negative value counts the tasks that wait.
use ucas_os.Common.{
  ℕ, zero, suc, ◌≡◌, ◌≢◌, refl, true, false, List, [], ◌∷◌, arith, ◌==◌, if◌then◌else◌, ◌∈◌, length,
  ◌∙◌, ap,
}
use ucas_os.Common.Int.{ℤ, pos, negsuc, neg_part, suc_ℤ, is_neg, is_pos}
use ucas_os.Kernel.{
  Ptr, Kernel, Run, ok, panic, diverges, fault, Succeeds, ready_queue, semaphore_queue, Objects,
}
use ucas_os.Sched.{do_unblock_one}
use ucas_os.Sched.WellFormed.{WellFormed, WellFormed-tasks, erase}
use ucas_os.Sched.Moves.{moved}
use ucas_os.Sched.Wake.{Unblocked, do_unblock_one-Unblocked}
use ucas_os.Sync.{Call, returns, waits, set_value, do_semaphore_up}

pub length-erase_mem : (p : Ptr) (xs : List Ptr) → p ∈ xs → length xs ≡ suc (length (erase p xs))
length-erase_mem p [] h = ground arith
length-erase_mem p (x ∷ xs) h = ground (arith, length-erase_mem p xs)

-- the queues are in order, the semaphore has the value `v`, and a negative value counts its waiters
pub record IsCounted (s : ℕ) (v : ℤ) (k : Kernel) (at : ℕ → List Ptr) : Type 0 where
  pub well_formed : WellFormed k at
  pub value : (k.semaphores s).value ≡ v
  pub waiters : length (at (semaphore_queue s)) ≡ neg_part v

abbrev pub Counted : ℕ → ℤ → Kernel → Type 0
Counted s v k = (at : ℕ → List Ptr) × IsCounted s v k at

set_value-WellFormed :
    (k : Kernel) (at : ℕ → List Ptr) (s : ℕ) (v : ℤ)
    → WellFormed k at
    → WellFormed (set_value s v k) at
set_value-WellFormed k at s v w = WellFormed-tasks k (set_value s v k) at refl (λ i. ground arith) w

value_of : (s : ℕ) (v : ℤ) (k : Kernel) → ((set_value s v k).semaphores s).value ≡ v
value_of s v k = ground arith

moved_from :
    (at : ℕ → List Ptr) (q : ℕ) (p : Ptr)
    → q ≢ ready_queue
    → moved q ready_queue p at q ≡ erase p (at q)
moved_from at q p ne = ground arith

pub mono :
    (P Q : Kernel → Type 0) (r : Run) → ((k : Kernel) → P k → Q k) → Succeeds P r → Succeeds Q r
mono P Q (ok k) f p = f k p
mono P Q panic f p = p
mono P Q diverges f p = p
mono P Q fault f p = p

-- a task is woken while the value is raised
wake_one :
    (k : Kernel) (at : ℕ → List Ptr) (s : ℕ) (v : ℤ) (n : ℕ)
    → WellFormed k at
    → length (at (semaphore_queue s)) ≡ suc n
    → neg_part v ≡ n
    → Succeeds (Counted s v) (do_unblock_one (semaphore_queue s) (set_value s v k))
wake_one k at s v n w h e = go (at (semaphore_queue s)) refl
  where
    q : ℕ
    q = semaphore_queue s

    k' : Kernel
    k' = set_value s v k

    finish : (k'' : Kernel) → Unblocked k' at q k'' → Counted s v k''
    finish k'' u = (
      moved q ready_queue u.task at,
      record {
        well_formed = u.well_formed;
        value = ap (λ (g : Ptr × Objects). (g.1.3 s).value) u.kept ∙ value_of s v k;
        waiters =
            rw (moved_from at q u.task (λ e. omega arith))
              (omega (arith, length-erase_mem u.task (at q) u.from_queue));
      },
    )

    go : (xs : List Ptr) → at q ≡ xs → Succeeds (Counted s v) (do_unblock_one q k')
    go [] f = absurd (omega (arith, ap (λ (l : List Ptr). length l) f))
    go (x ∷ xs) f = mono (Unblocked k' at q) (Counted s v) (do_unblock_one q k') finish (
        do_unblock_one-Unblocked k' at q x xs (set_value-WellFormed k at s v w) (λ e. omega arith)
          f)

test_self : (s : ℕ) → (s == s) ≡ true
test_self s = ground arith

up_eq :
    (k : Kernel) (s : ℕ) (v : ℤ)
    → (k.semaphores s).value ≡ v
    → do_semaphore_up s k ≡ (
        if is_pos (suc_ℤ v)
        then ok (set_value s (suc_ℤ v) k)
        else do_unblock_one (semaphore_queue s) (set_value s (suc_ℤ v) k))
unfolding do_semaphore_up
up_eq k s v e = rw (e, test_self s)

-- do_semaphore_up of a semaphore whose negative value counts its waiting tasks ends with the value
-- one higher, the queues in order, and a negative value still counting the waiting tasks.
pub do_semaphore_up-Counted :
    (k : Kernel) (at : ℕ → List Ptr) (s : ℕ) (v : ℤ)
    → IsCounted s v k at
    → Succeeds (Counted s (suc_ℤ v)) (do_semaphore_up s k)
do_semaphore_up-Counted k at s (pos n) c = rw (up_eq k s (pos n) c.value) (
  at,
  record {
    well_formed = set_value-WellFormed k at s (pos (suc n)) c.well_formed;
    value = value_of s (pos (suc n)) k;
    waiters = c.waiters;
  },
)
do_semaphore_up-Counted k at s (negsuc zero) c =
    rw (up_eq k s (negsuc zero) c.value) (wake_one k at s (pos 0) 0 c.well_formed c.waiters refl)
do_semaphore_up-Counted k at s (negsuc (suc n)) c =
    rw (up_eq k s (negsuc (suc n)) c.value)
      (wake_one k at s (negsuc n) (suc n) c.well_formed c.waiters refl)

-- a call that returns leaves no negative value, and one that waits does
abbrev pub Lowered : ℕ → ℤ → Call → Type 0
Lowered s v (returns r) = (is_neg v ≡ false) × Succeeds (Counted s v) r
Lowered s v (waits r) = (is_neg v ≡ true) × Succeeds (Counted s v) r
