-- ===== src/Sched/Order.antt =====
-- The task that a walk chooses is the best one: of the highest priority, and among those of that
-- priority it has waited longest (the loops of `scheduler` and `do_unblock_one`).
use ucas_os.Common.{
  ℕ, ◌≤◌, ◌<◌, ◌≡◌, ◌⊎◌, inl, inr, refl, Bool, true, List, [], ◌∷◌, arith, ◌==◌, ◌||◌, has, subst,
  fun_ext,
}
use ucas_os.Kernel.{Ptr, Pcb}
use ucas_os.Sched.{Best, better, unset}
use ucas_os.Sched.Scan.{best_of}

-- a priority and a waiting time are no better than another pair
abbrev pub NoBetter : ℕ → ℕ → ℕ → ℕ → Type 0
NoBetter n t n' t' = (n < n') ⊎ ((n ≡ n') × (t ≤ t'))

-- of the tasks that `seen` accepts, `b` holds one that no other beats
pub record IsBest (field : Pcb → ℕ) (m : Ptr → Pcb) (seen : Ptr → Bool) (b : Best) : Type 0 where
  pub chosen : seen b.selected ≡ true
  pub priority : field (m b.selected) ≡ b.max_priority
  pub wait : (m b.selected).wait_time ≡ b.max_wait_time
  pub top :
      (y : Ptr)
      → seen y ≡ true
      → NoBetter (field (m y)) (m y).wait_time b.max_priority b.max_wait_time

module _ (p : Ptr) (n t : ℕ) (b : Best) where
  -- the new pair is no worse than the old one and than the task's
  better-old :
      NoBetter b.max_priority b.max_wait_time
        (better p n t b).max_priority
        (better p n t b).max_wait_time
  unfolding better
  better-old = ground arith

  better-new : NoBetter n t (better p n t b).max_priority (better p n t b).max_wait_time
  unfolding better
  better-new = ground arith

  better-cases :
      (better p n t b ≡ b)
      ⊎ (better p n t b ≡ record { selected = p; max_priority = n; max_wait_time = t })
  unfolding better
  better-cases = ground arith

NoBetter-trans : (a b c d e f : ℕ) → NoBetter a b c d → NoBetter c d e f → NoBetter a b e f
NoBetter-trans a b c d e f h g = ground arith

abbrev also : Ptr → (Ptr → Bool) → Ptr → Bool
also p seen y = (y == p) || seen y

-- the first task is taken, if its priority is 1 or more
better-unset :
    (field : Pcb → ℕ) (m : Ptr → Pcb) (p s : Ptr)
    → 1 ≤ field (m p)
    → better p (field (m p)) (m p).wait_time (unset s)
      ≡ record { selected = p; max_priority = field (m p); max_wait_time = (m p).wait_time }
unfolding better
better-unset field m p s h = ground arith

IsBest-one :
    (field : Pcb → ℕ) (m : Ptr → Pcb) (p : Ptr)
    → IsBest field m
        (λ y. has y (p ∷ []))
        (record { selected = p; max_priority = field (m p); max_wait_time = (m p).wait_time })
IsBest-one field m p = record {
  chosen = ground arith;
  priority = refl;
  wait = refl;
  top = λ y h. let e : y ≡ p = ground arith in rw e (inr (refl, omega arith));
}

IsBest-better :
    (field : Pcb → ℕ) (m : Ptr → Pcb) (p : Ptr) (seen : Ptr → Bool) (b : Best)
    → IsBest field m seen b
    → IsBest field m (also p seen) (better p (field (m p)) (m p).wait_time b)
IsBest-better field m p seen b h =
    let b' : Best = better p (field (m p)) (m p).wait_time b in
    let top' : (y : Ptr)
        → also p seen y ≡ true
        → NoBetter (field (m y)) (m y).wait_time b'.max_priority b'.max_wait_time =
      λ y s. elim (also-cases p seen y s) [
        | inl e ↦ rw e (better-new p (field (m p)) (m p).wait_time b)
        | inr old ↦
            NoBetter-trans (field (m y)) (m y).wait_time b.max_priority b.max_wait_time
              b'.max_priority b'.max_wait_time (h.top y old)
              (better-old p (field (m p)) (m p).wait_time b)
      ] in
    elim (better-cases p (field (m p)) (m p).wait_time b) [
      | inl e ↦ record {
        chosen = rw e (ground (arith, h.chosen));
        priority = rw e h.priority;
        wait = rw e h.wait;
        top = top';
      }
      | inr e ↦ record { chosen = rw e (ground arith); priority = rw e; wait = rw e; top = top' }
    ]
  where
    also-cases :
        (p : Ptr) (seen : Ptr → Bool) (y : Ptr) → also p seen y ≡ true → (y ≡ p) ⊎ (seen y ≡ true)
    also-cases p seen y s = ground arith

-- the same choice among the tasks that another test accepts just as well
IsBest-mono :
    (field : Pcb → ℕ) (m : Ptr → Pcb) (seen seen' : Ptr → Bool) (b : Best)
    → ((y : Ptr) → seen y ≡ seen' y)
    → IsBest field m seen b
    → IsBest field m seen' b
IsBest-mono field m seen seen' b e h = subst (λ s. IsBest field m s b) (fun_ext e) h

IsBest-best_of :
    (field : Pcb → ℕ) (m : Ptr → Pcb) (xs : List Ptr) (seen : Ptr → Bool) (b : Best)
    → IsBest field m seen b
    → IsBest field m (λ y. has y xs || seen y) (best_of field m xs b)
IsBest-best_of field m [] seen b h = h
IsBest-best_of field m (x ∷ xs) seen b h =
    IsBest-mono field m (λ y. has y xs || also x seen y) (λ y. has y (x ∷ xs) || seen y)
      (best_of field m (x ∷ xs) b) (λ y. ground arith)
      (IsBest-best_of field m xs (also x seen) (better x (field (m x)) (m x).wait_time b)
        (IsBest-better field m x seen b h))

-- A walk over a queue whose first task has priority 1 or more chooses a best task of the queue.
pub best_of-IsBest :
    (field : Pcb → ℕ) (m : Ptr → Pcb) (x : Ptr) (xs : List Ptr) (s : Ptr)
    → 1 ≤ field (m x)
    → IsBest field m (λ y. has y (x ∷ xs)) (best_of field m (x ∷ xs) (unset s))
best_of-IsBest field m x xs s h = rw (better-unset field m x s h) (
    IsBest-mono field m (λ y. has y xs || has y (x ∷ [])) (λ y. has y (x ∷ xs))
      (best_of field m xs
        (record { selected = x; max_priority = field (m x); max_wait_time = (m x).wait_time }))
      (λ y. ground arith)
      (IsBest-best_of field m xs (λ y. has y (x ∷ []))
        (record { selected = x; max_priority = field (m x); max_wait_time = (m x).wait_time })
        (IsBest-one field m x)))
