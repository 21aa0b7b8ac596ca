-- ===== src/Slist.antt =====
-- libs/slist.c: the static linked list, an array of nodes whose free ones are chained from node 0.
pub mod FreeList
pub mod Init
pub mod Ops
mod Examples
use ucas_os.Common.{
  ℕ, zero, suc, ◌-◌, Bool, true, false, ◌||◌, ◌==◌, ltb, leb, not, if◌then◌else◌, upd,
}
use ucas_os.Common.Int.{ℤ, pos, negsuc}

-- node_t; `valid` holds 0 or 1 only
pub record Node : Type 0 where
  pub valid : Bool
  pub cursor : ℕ

-- slist_t
abbrev pub Slist : Type 0
Slist = ℕ → Node

abbrev pub set_valid : Bool → Node → Node
set_valid b n = record n { valid = b }

abbrev pub set_cursor : ℕ → Node → Node
set_cursor c n = record n { cursor = c }

-- the loop of slist_init, `k` rounds from index `i`
unfoldable pub slist_init_loop : ℕ → ℕ → Slist → Slist
slist_init_loop zero i l = l
slist_init_loop (suc k) i l =
    slist_init_loop k (suc i) (upd l i (record { valid = false; cursor = suc i }))

unfoldable pub slist_init : Slist → ℕ → Slist
unfolding slist_init_loop
slist_init l length =
    let l₁ = slist_init_loop length 0 l in
    let l₂ = upd l₁ 0 (set_valid true (l₁ 0)) in
    upd l₂ (length - 1) (set_cursor 0 (l₂ (length - 1)))

unfoldable pub slist_is_insufficient : Slist → Bool
slist_is_insufficient l = (l 0).cursor == 0

unfoldable pub slist_is_valid : Slist → ℤ → ℕ → Bool
slist_is_valid l (negsuc n) length = false
slist_is_valid l (pos index) length =
    if (index == 0) || leb length index then false else (l index).valid

-- the index, and the list after
unfoldable pub slist_alloc : Slist → ℕ × Slist
unfolding slist_is_insufficient
slist_alloc l =
    let t = (l 0).cursor in
    if slist_is_insufficient l
    then (0, l)
    else (let l₁ = upd l 0 (set_cursor (l t).cursor (l 0)) in (t, upd l₁ t (set_valid true (l₁ t))))

abbrev pub free_at : Slist → ℕ → Slist
free_at l index =
    let t = (l 0).cursor in
    let l₁ = upd l 0 (set_cursor index (l 0)) in
    let l₂ = upd l₁ index (set_valid false (l₁ index)) in upd l₂ index (set_cursor t (l₂ index))

unfoldable pub slist_free : Slist → ℤ → ℕ → Bool × Slist
unfolding slist_is_valid
slist_free l (negsuc n) length = (false, l)
slist_free l (pos index) length =
    if not (slist_is_valid l (pos index) length) then (false, l) else (true, free_at l index)
