-- ===== src/Memory.antt =====
-- kernel/mm/memory.c: the allocators of page frames, of page tables and of the swap area, each over a
-- static free list (libs/slist.c) whose index 0 is not given out.
pub mod Swap
mod Examples
use ucas_os.Common.{ℕ, zero, suc, ◌+◌, ◌-◌, ◌*◌, ◌/◌, ◌%◌, ◌^◌, Bool, false, upd}
use ucas_os.Common.Int.{ℤ, pos, suc_ℤ, pred_ℤ}
use ucas_os.Slist.{Slist, slist_alloc, slist_free}
use ucas_os.Kernel.{Pte, Kernel}
use ucas_os.Sched.{get_timer}

-- the globals of memory.c
pub record Memory : Type 0 where
  pub page_table_pool : ℕ → ℕ → Pte
  pub pt_pool_slist : Slist
  pub pm_slist : Slist
  pub pm_pid : ℕ → ℕ
  pub pm_vpn : ℕ → ℕ
  pub swap_area_slist : Slist

abbrev pub pte_number : ℕ
pte_number = 512

abbrev pub page_table_pool_slist_size : ℕ
page_table_pool_slist_size = 21

abbrev pub pm_slist_size : ℕ
pm_slist_size = 2049

abbrev pub swap_area_size : ℕ
swap_area_size = 1025

abbrev pub swap_area_base : ℕ
swap_area_base = 0x700200

abbrev pub swap_area_top : ℕ
swap_area_top = 0xf00200

abbrev pub swap_area_uint_size : ℕ
swap_area_uint_size = 0x2000

-- the loop of page_table_init, `n` rounds from entry `i`
unfoldable pub page_table_loop : ℕ → ℕ → (ℕ → Pte) → ℕ → Pte
page_table_loop zero i pt = pt
page_table_loop (suc n) i pt =
    page_table_loop n (suc i) (upd pt i (record (pt i) { valid = false }))

unfoldable pub page_table_init : (ℕ → Pte) → ℕ → Pte
page_table_init pt = page_table_loop pte_number 0 pt

-- -1 when no frame is free
unfoldable pub pm_alloc : Memory → ℤ × Memory
pm_alloc m = let (t, l) = slist_alloc m.pm_slist in (pred_ℤ (pos t), record m { pm_slist = l })

unfoldable pub pm_free : ℤ → Memory → Bool × Memory
pm_free index m =
    let (freed, l) = slist_free m.pm_slist (suc_ℤ index) pm_slist_size in
    (freed, record m { pm_slist = l })

unfoldable pub pt_pool_alloc : Memory → ℤ × Memory
pt_pool_alloc m =
    let (t, l) = slist_alloc m.pt_pool_slist in (pred_ℤ (pos t), record m { pt_pool_slist = l })

unfoldable pub pt_pool_free : ℤ → Memory → Bool × Memory
pt_pool_free index m =
    let (freed, l) = slist_free m.pt_pool_slist (suc_ℤ index) page_table_pool_slist_size in
    (freed, record m { pt_pool_slist = l })

-- base + (t - 1) * unit, in 32 bits
abbrev pub swap_address : ℕ → ℕ
swap_address t = (swap_area_base + t * swap_area_uint_size + 2 ^ 32 - swap_area_uint_size) % 2 ^ 32

-- the address of a unit of the swap area
unfoldable pub swap_area_alloc : Memory → ℕ × Memory
swap_area_alloc m =
    let (t, l) = slist_alloc m.swap_area_slist in (swap_address t, record m { swap_area_slist = l })

abbrev pub swap_index : ℕ → ℕ
swap_index address = (address + 2 ^ 32 - swap_area_base) % 2 ^ 32 / swap_area_uint_size + 1

unfoldable pub swap_area_free : ℕ → Memory → Bool × Memory
swap_area_free address m =
    let (freed, l) = slist_free m.swap_area_slist (pos (swap_index address)) swap_area_size in
    (freed, record m { swap_area_slist = l })

-- the frame that swap_out takes
unfoldable pub swap_scheduler : Kernel → ℕ
swap_scheduler k = 2 + get_timer k % (pm_slist_size - 3)
