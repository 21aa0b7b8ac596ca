-- ===== src/Slist/Ops.antt =====
-- slist_alloc and slist_free of libs/slist.c on well-formed lists.
use ucas_os.Common.{
  ℕ, ◌<◌, ◌≡◌, ◌≢◌, ◌⊎◌, inl, inr, Bool, true, false, List, [], ◌∷◌, arith, ◌∉◌, refl, Bool-cases,
  ne_of_mem,
}
use ucas_os.Common.Int.{ℤ, pos, negsuc}
use ucas_os.Slist.{Slist, slist_alloc, slist_free, slist_is_valid, free_at}
use ucas_os.Slist.FreeList.{Chain, IsFree, Chain-frame, Chain-zero, Chain-mem}

abbrev pub AllocSpec : Slist → ℕ → List ℕ → ℕ × Slist → Type 0
AllocSpec l n [] (t, l') = (t ≡ 0) × (l' ≡ l)
AllocSpec l n (x ∷ xs) (t, l') =
    (t ≡ x)
    × (0 < t)
    × (t < n)
    × ((l t).valid ≡ false)
    × ((l' t).valid ≡ true)
    × ((i : ℕ) → i ≢ t → (l' i).valid ≡ (l i).valid)
    × IsFree l' n xs

-- what slist_alloc does to each node, when the first free index is `x`
module _ (l : Slist) (x : ℕ) (first : (l 0).cursor ≡ x) (pos : 0 < x) where
  alloc_index : (slist_alloc l).0 ≡ x
  unfolding slist_alloc
  alloc_index = ground arith

  alloc_head : ((slist_alloc l).1 0).cursor ≡ (l x).cursor
  unfolding slist_alloc
  alloc_head = ground arith

  alloc_valid : ((slist_alloc l).1 x).valid ≡ true
  unfolding slist_alloc
  alloc_valid = ground arith

  alloc_valid_ne : (i : ℕ) → i ≢ x → ((slist_alloc l).1 i).valid ≡ (l i).valid
  unfolding slist_alloc
  alloc_valid_ne i h = ground arith

  alloc_other : (i : ℕ) → i ≢ 0 → i ≢ x → (slist_alloc l).1 i ≡ l i
  unfolding slist_alloc
  alloc_other i h k = ground arith

alloc-IsFree :
    (l : Slist) (n x : ℕ) (xs : List ℕ) → IsFree l n (x ∷ xs) → IsFree (slist_alloc l).1 n xs
alloc-IsFree l n x xs f =
    let (e, nz, lt, v, c) = f.chain in
    let no_zero : 0 ∉ xs = Chain-zero l n (l x).cursor xs c in
    record {
      chain = rw (alloc_head l x e nz) (
          Chain-frame l (slist_alloc l).1 n (l x).cursor xs
            (λ i m.
              alloc_other l x e nz i (ne_of_mem i 0 xs m no_zero) (ne_of_mem i x xs m f.distinct.0))
            c);
      distinct = f.distinct.1;
      complete = λ i p q u.
          ground (arith, f.complete i p q, alloc_valid l x e nz, alloc_valid_ne l x e nz i);
    }

-- slist_alloc of a well-formed list returns 0 and changes nothing when no index is free; otherwise
-- it returns the first free index, which was not valid and becomes valid, changes the validity of
-- no other, and leaves the rest of the free indices in their order.
pub slist_alloc-AllocSpec :
    (l : Slist) (n : ℕ) (xs : List ℕ) → IsFree l n xs → AllocSpec l n xs (slist_alloc l)
slist_alloc-AllocSpec l n [] f = unfold slist_alloc in ground arith
slist_alloc-AllocSpec l n (x ∷ xs) f =
    let (e, nz, lt, v, c) = f.chain in
    let t : (slist_alloc l).0 ≡ x = alloc_index l x e nz in
    (
      t,
      rw t nz,
      rw t lt,
      rw t v,
      rw t (alloc_valid l x e nz),
      rw t (alloc_valid_ne l x e nz),
      alloc-IsFree l n x xs f,
    )

abbrev pub FreeSpec : Slist → ℕ → List ℕ → ℤ → Bool × Slist → Type 0
FreeSpec l n xs i (ok, l') =
    ((ok ≡ false) × (l' ≡ l) × (slist_is_valid l i n ≡ false))
    ⊎ ((k : ℕ) × (i ≡ pos k)
        × (ok ≡ true)
        × (0 < k)
        × (k < n)
        × ((l k).valid ≡ true)
        × ((l' k).valid ≡ false)
        × ((j : ℕ) → j ≢ k → (l' j).valid ≡ (l j).valid)
        × IsFree l' n (k ∷ xs))

-- what slist_free does to each node, at a valid index
module _ (l : Slist) (n k : ℕ) (p : 0 < k) (q : k < n) (v : (l k).valid ≡ true) where
  free_ok : slist_free l (pos k) n ≡ (true, free_at l k)
  unfolding slist_free
  free_ok = ground arith

module _ (l : Slist) (k : ℕ) (p : 0 < k) where
  free_head : (free_at l k 0).cursor ≡ k
  free_head = ground arith

  free_cursor : (free_at l k k).cursor ≡ (l 0).cursor
  free_cursor = ground arith

  free_valid : (free_at l k k).valid ≡ false
  free_valid = ground arith

  free_valid_ne : (j : ℕ) → j ≢ k → (free_at l k j).valid ≡ (l j).valid
  free_valid_ne j h = ground arith

  free_other : (i : ℕ) → i ≢ 0 → i ≢ k → free_at l k i ≡ l i
  free_other i h h' = ground arith

free_at-IsFree :
    (l : Slist) (n : ℕ) (xs : List ℕ) (k : ℕ)
    → 0 < k
    → k < n
    → (l k).valid ≡ true
    → IsFree l n xs
    → IsFree (free_at l k) n (k ∷ xs)
free_at-IsFree l n xs k p q v f =
    let out : k ∉ xs = ground (arith, Chain-mem l n (l 0).cursor xs k f.chain) in
    let no_zero : 0 ∉ xs = Chain-zero l n (l 0).cursor xs f.chain in
    let rest : Chain (free_at l k) n (l 0).cursor xs =
      Chain-frame l (free_at l k) n (l 0).cursor xs
        (λ i m. free_other l k p i (ne_of_mem i 0 xs m no_zero) (ne_of_mem i k xs m out)) f.chain in
    record {
      chain = (free_head l k p, p, q, free_valid l k p, rw (free_cursor l k p) rest);
      distinct = (out, f.distinct);
      complete = λ i pi qi u. ground (arith, f.complete i pi qi, free_valid_ne l k p i);
    }

valid_range :
    (l : Slist) (k n : ℕ)
    → slist_is_valid l (pos k) n ≡ true
    → (0 < k) × (k < n) × ((l k).valid ≡ true)
unfolding slist_is_valid
valid_range l k n h = ground arith

free_refused :
    (l : Slist) (k n : ℕ) → slist_is_valid l (pos k) n ≡ false → slist_free l (pos k) n ≡ (false, l)
free_refused l k n h = unfold slist_free in rw h

pub slist_free-FreeSpec :
    (l : Slist) (n : ℕ) (xs : List ℕ) (i : ℤ) → IsFree l n xs → FreeSpec l n xs i (slist_free l i n)
slist_free-FreeSpec l n xs (negsuc i) f = unfold slist_free slist_is_valid in inl (refl, refl, refl)
slist_free-FreeSpec l n xs (pos k) f = elim (Bool-cases (slist_is_valid l (pos k) n)) [
  | inl h ↦
      let (p, q, v) = valid_range l k n h in
      rw (free_ok l n k p q v) (
        inr (
          k,
          refl,
          refl,
          p,
          q,
          v,
          free_valid l k p,
          free_valid_ne l k p,
          free_at-IsFree l n xs k p q v f,
        ))
  | inr h ↦ rw (free_refused l k n h) (inl (refl, refl, h))
]
