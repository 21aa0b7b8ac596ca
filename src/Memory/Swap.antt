-- ===== src/Memory/Swap.antt =====
-- The swap area of kernel/mm/memory.c: the addresses that swap_area_alloc gives out.
use ucas_os.Common.{
  ℕ, ◌+◌, ◌≤◌, ◌<◌, ◌≡◌, ◌≢◌, ◌-◌, sym, subst, true, false, List, [], ◌∷◌, arith, inl, inr,
}
use ucas_os.Common.Int.{pos}
use ucas_os.Slist.{Slist, slist_alloc, slist_free, slist_is_valid}
use ucas_os.Slist.FreeList.{IsFree}
use ucas_os.Slist.Ops.{AllocSpec, FreeSpec, slist_alloc-AllocSpec, slist_free-FreeSpec}
use ucas_os.Kernel.{Kernel}
use ucas_os.Memory.{
  Memory, swap_area_alloc, swap_area_free, swap_address, swap_index, swap_area_size, swap_area_base,
  swap_area_top, swap_scheduler, pm_slist_size,
}

-- The unit `x` of the area, whose address leads back to it. With no unit left the address is before
-- the area.
abbrev pub Swapped : Memory → List ℕ → ℕ × Memory → Type 0
Swapped m [] (a, m') = (a < swap_area_base) × (m'.swap_area_slist ≡ m.swap_area_slist)
Swapped m (x ∷ xs) (a, m') =
    (swap_area_base ≤ a)
    × (a + 8192 ≤ swap_area_top)
    × (swap_index a ≡ x)
    × IsFree m'.swap_area_slist swap_area_size xs
    × ((swap_area_free a m').0 ≡ true)
    × IsFree (swap_area_free a m').1.swap_area_slist swap_area_size (x ∷ xs)

index_inj : (a b : ℕ) → pos a ≡ pos b → a ≡ b
index_inj a b e = cc

refused :
    (l : Slist) (n x : ℕ) → 0 < x → x < n → (l x).valid ≡ true → slist_is_valid l (pos x) n ≢ false
unfolding slist_is_valid
refused l n x p q v e = ground arith

freed :
    (l : Slist) (n x : ℕ) (xs : List ℕ)
    → 0 < x
    → x < n
    → (l x).valid ≡ true
    → IsFree l n xs
    → ((slist_free l (pos x) n).0 ≡ true) × IsFree (slist_free l (pos x) n).1 n (x ∷ xs)
freed l n x xs p q v f = by_case (slist_free-FreeSpec l n xs (pos x) f)
  where
    by_case :
        FreeSpec l n xs (pos x) (slist_free l (pos x) n)
        → ((slist_free l (pos x) n).0 ≡ true) × IsFree (slist_free l (pos x) n).1 n (x ∷ xs)
    by_case (inl r) = absurd (refused l n x p q v r.2)
    by_case (inr r) =
        let e : r.0 ≡ x = index_inj r.0 x (sym r.1) in
        (r.2, subst (λ (j : ℕ). IsFree (slist_free l (pos x) n).1 n (j ∷ xs)) e r.8)

-- When a unit of the swap area is free, swap_area_alloc gives the address of the first one, which
-- lies in the area with all its 8 KB, and swap_area_free of that address succeeds and makes the
-- unit the first free one again; when none is free, it gives an address before the area, and the
-- free list is as it was.
pub swap_area_alloc-Swapped :
    (m : Memory) (xs : List ℕ)
    → IsFree m.swap_area_slist swap_area_size xs
    → Swapped m xs (swap_area_alloc m)
unfolding swap_area_alloc swap_area_free
swap_area_alloc-Swapped m [] f =
    let spec : AllocSpec m.swap_area_slist swap_area_size [] (slist_alloc m.swap_area_slist) =
      slist_alloc-AllocSpec m.swap_area_slist swap_area_size [] f in
    (rw spec.0 (ground arith), spec.1)
swap_area_alloc-Swapped m (x ∷ xs) f =
    let l : Slist = m.swap_area_slist in
    let spec : AllocSpec l swap_area_size (x ∷ xs) (slist_alloc l) =
      slist_alloc-AllocSpec l swap_area_size (x ∷ xs) f in
    let e : (slist_alloc l).0 ≡ x = spec.0 in
    let above : 0 < x = subst (λ (t : ℕ). 0 < t) e spec.1 in
    let below : x < 1025 = subst (λ (t : ℕ). t < 1025) e spec.2 in
    let back : swap_index (swap_address x) ≡ x = omega arith in
    let taken : ((slist_alloc l).1 x).valid ≡ true =
      subst (λ (t : ℕ). ((slist_alloc l).1 t).valid ≡ true) e spec.4 in
    let done = freed (slist_alloc l).1 swap_area_size x xs above below taken spec.6 in
    rw e (omega arith, omega arith, back, spec.6, rw back done.0, rw back done.1)

-- The frame that swap_scheduler chooses is one of the 2048 frames, and never frame 0 or 1.
pub swap_scheduler_lt :
    (k : Kernel) → (2 ≤ swap_scheduler k) × (swap_scheduler k < pm_slist_size - 1)
unfolding swap_scheduler
swap_scheduler_lt k = (omega arith, omega arith)
