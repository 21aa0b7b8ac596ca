-- ===== src/Memory/Examples.antt =====
-- The theorems on the swap area, tried on an area of which no unit is in use.
use ucas_os.Common.{true, arith}
use ucas_os.Slist.{Slist, slist_init}
use ucas_os.Slist.Init.{range, slist_init-IsFree}
use ucas_os.Memory.{Memory, swap_area_alloc}
use ucas_os.Memory.Swap.{Swapped, swap_area_alloc-Swapped}

abbrev area : Slist
area = slist_init (λ i. record { valid = true; cursor = 0 }) 1025

abbrev memory : Memory
memory = record {
  page_table_pool = λ i j. record { addr = 0; valid = true; present = true };
  pt_pool_slist = area;
  pm_slist = area;
  pm_pid = λ i. 0;
  pm_vpn = λ i. 0;
  swap_area_slist = area;
}

swap_area_alloc-Swapped_example : Swapped memory (range 1024 1) (swap_area_alloc memory)
swap_area_alloc-Swapped_example =
    swap_area_alloc-Swapped memory (range 1024 1)
      (slist_init-IsFree (λ i. record { valid = true; cursor = 0 }) 1024 (ground arith))
