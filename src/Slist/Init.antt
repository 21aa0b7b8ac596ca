-- ===== src/Slist/Init.antt =====
-- slist_init of libs/slist.c leaves every index but 0 free, in increasing order.
use ucas_os.Common.{
  ℕ, zero, suc, ◌+◌, ◌-◌, ◌≤◌, ◌<◌, ◌≡◌, refl, false, List, [], ◌∷◌, arith, upd, ◌∈◌, ◌∉◌, Distinct,
}
use ucas_os.Slist.{Slist, slist_init, slist_init_loop}
use ucas_os.Slist.FreeList.{Chain, IsFree}

-- the indices from `i`, `k` of them
abbrev pub range : ℕ → ℕ → List ℕ
range zero i = []
range (suc k) i = i ∷ range k (suc i)

-- what the loop leaves at each index
loop_other : (k i : ℕ) (l : Slist) (j : ℕ) → j < i → slist_init_loop k i l j ≡ l j
unfolding slist_init_loop
loop_other zero i l j h = refl
loop_other (suc k) i l j h =
    ground (arith, loop_other k (suc i) (upd l i (record { valid = false; cursor = suc i })) j)

loop_inside :
    (k i : ℕ) (l : Slist) (j : ℕ)
    → i ≤ j
    → j < i + k
    → slist_init_loop k i l j ≡ record { valid = false; cursor = suc j }
unfolding slist_init_loop
loop_inside zero i l j h h' = absurd (omega arith)
loop_inside (suc k) i l j h h' = ground (
  arith,
  loop_other k (suc i) (upd l i (record { valid = false; cursor = suc i })) j,
  loop_inside k (suc i) (upd l i (record { valid = false; cursor = suc i })) j,
)

module _ (l : Slist) (n : ℕ) where
  init_zero : 1 < n → (slist_init l n 0).cursor ≡ 1
  unfolding slist_init
  init_zero h = ground (arith, loop_inside n 0 l 0)

  init_valid : (j : ℕ) → 0 < j → j < n → (slist_init l n j).valid ≡ false
  unfolding slist_init
  init_valid j h h' = ground (arith, loop_inside n 0 l j, loop_inside n 0 l (n - 1))

  init_cursor : (j : ℕ) → 0 < j → suc j < n → (slist_init l n j).cursor ≡ suc j
  unfolding slist_init
  init_cursor j h h' = ground (arith, loop_inside n 0 l j)

  init_last : 0 < n → (slist_init l n (n - 1)).cursor ≡ 0
  unfolding slist_init
  init_last h = ground arith

range-mem : (k i j : ℕ) → i ≤ j → j < i + k → j ∈ range k i
range-mem zero i j h h' = absurd (omega arith)
range-mem (suc k) i j h h' = ground (arith, range-mem k (suc i) j)

range-lt : (k i j : ℕ) → j < i → j ∉ range k i
range-lt zero i j h = refl
range-lt (suc k) i j h = ground (arith, range-lt k (suc i) j)

range-Distinct : (k i : ℕ) → Distinct (range k i)
range-Distinct zero i = tt
range-Distinct (suc k) i = (range-lt k (suc i) i (omega arith), range-Distinct k (suc i))

init-Chain :
    (l : Slist) (n k i : ℕ) → 0 < i → i + suc k ≡ n → Chain (slist_init l n) n i (range (suc k) i)
init-Chain l n zero i h e =
    let last : (slist_init l n i).cursor ≡ 0 = ground (arith, init_last l n) in
    (refl, h, omega arith, init_valid l n i h (omega arith), last)
init-Chain l n (suc k) i h e = (
  refl,
  h,
  omega arith,
  init_valid l n i h (omega arith),
  rw (init_cursor l n i h (omega arith)) (init-Chain l n k (suc i) (omega arith) (omega arith)),
)

-- slist_init of two nodes or more makes a well-formed list, whatever was there, in which all
-- indices from 1 on are free, in increasing order.
pub slist_init-IsFree :
    (l : Slist) (n : ℕ) → 0 < n → IsFree (slist_init l (suc n)) (suc n) (range n 1)
slist_init-IsFree l (suc n) h = record {
  chain =
      rw (init_zero l (suc (suc n)) (omega arith))
        (init-Chain l (suc (suc n)) n 1 (omega arith) (omega arith));
  distinct = range-Distinct (suc n) 1;
  complete = λ i p q v. range-mem (suc n) 1 i p (omega arith);
}
slist_init-IsFree l zero h = absurd (omega arith)
