-- ===== src/Slist/Examples.antt =====
-- The theorems on the free list, tried on a list of four nodes.
use ucas_os.Common.{true, [], ◌∷◌, arith}
use ucas_os.Slist.{Slist, slist_init, slist_alloc}
use ucas_os.Slist.Init.{slist_init-IsFree}
use ucas_os.Slist.Ops.{AllocSpec, slist_alloc-AllocSpec}

abbrev garbage : Slist
garbage = λ i. record { valid = true; cursor = 7 }

abbrev four : Slist
four = slist_init garbage 4

slist_alloc-AllocSpec_example : AllocSpec four 4 (1 ∷ 2 ∷ 3 ∷ []) (slist_alloc four)
slist_alloc-AllocSpec_example =
    slist_alloc-AllocSpec four 4 (1 ∷ 2 ∷ 3 ∷ []) (slist_init-IsFree garbage 3 (ground arith))
