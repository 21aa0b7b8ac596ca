-- ===== src/Slist/FreeList.antt =====
-- When an array of libs/slist.c is well formed, and what it stands for: its free indices in order.
use ucas_os.Common.{ℕ, ◌<◌, ◌≡◌, false, List, [], ◌∷◌, arith, ◌∈◌, ◌∉◌, Distinct}
use ucas_os.Slist.{Slist}

-- from `p` the cursors lead through the invalid nodes `xs` to 0
abbrev pub Chain : Slist → ℕ → ℕ → List ℕ → Type 0
Chain l n p [] = p ≡ 0
Chain l n p (x ∷ xs) =
    (p ≡ x) × (0 < x) × (x < n) × ((l x).valid ≡ false) × Chain l n (l x).cursor xs

-- `xs` are the free indices of the list of `n` nodes, in the order in which they will be given out
pub record IsFree (l : Slist) (n : ℕ) (xs : List ℕ) : Type 0 where
  pub chain : Chain l n (l 0).cursor xs
  pub distinct : Distinct xs
  pub complete : (i : ℕ) → 0 < i → i < n → (l i).valid ≡ false → i ∈ xs

-- a chain stands where its own nodes are kept
pub Chain-frame :
    (l l' : Slist) (n p : ℕ) (xs : List ℕ)
    → ((i : ℕ) → i ∈ xs → l' i ≡ l i)
    → Chain l n p xs
    → Chain l' n p xs
Chain-frame l l' n p [] same h = h
Chain-frame l l' n p (x ∷ xs) same (e, pos, lt, v, c) =
    let same_x : l' x ≡ l x = same x (ground arith) in
    (
      e,
      pos,
      lt,
      rw same_x v,
      rw same_x (Chain-frame l l' n (l x).cursor xs (λ i m. same i (ground arith)) c),
    )

pub Chain-zero : (l : Slist) (n p : ℕ) (xs : List ℕ) → Chain l n p xs → 0 ∉ xs
Chain-zero l n p [] h = ground arith
Chain-zero l n p (x ∷ xs) h = ground (arith, Chain-zero l n (l x).cursor xs)

-- a node of the chain is in range and invalid
pub Chain-mem :
    (l : Slist) (n p : ℕ) (xs : List ℕ) (i : ℕ)
    → Chain l n p xs
    → i ∈ xs
    → (0 < i) × (i < n) × ((l i).valid ≡ false)
Chain-mem l n p [] i h m = ground arith
Chain-mem l n p (x ∷ xs) i h m = ground (arith, Chain-mem l n (l x).cursor xs i)
