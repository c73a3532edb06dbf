-- ===== src/ListT/Sort/Tests.antt =====
-- A run of the sort of common/list.c, and its theorem at it.
use scrollfx.Prelude.{◌/◌, ◌≡◌, refl, List, [], ◌∷◌, some, ℤ, arith, sub_ℕ}
use scrollfx.Seq.{Ptr}
use scrollfx.ListT.{ListT, read, write, swap_cells, get, put}
use scrollfx.ListT.Holds.{Holds}
use scrollfx.ListT.Sort.{
  list_stable_sort, list_inplace_sort, list_inplace_merge, merge_from, list_rotate, rotate_from,
}
use scrollfx.ListT.Sort.Order.{StablySorts, TotalPreorder}
use scrollfx.ListT.Sort.Merge.{le}
use scrollfx.ListT.Sort.Stable.{list_stable_sort_sorts}

-- Larger addresses first; those of one decade are equal.
abbrev by_decade : Ptr → Ptr → ℤ
by_decade a b = sub_ℕ (b / 10) (a / 10)

by_decade-TotalPreorder : TotalPreorder (le by_decade)
by_decade-TotalPreorder = record {
  total = λ a b. ground arith;
  transitive = λ a b c h k. ground arith;
}

abbrev unsorted : ListT
unsorted = record { capacity = 4; length = 4; items = some 11 ∷ some 32 ∷ some 12 ∷ some 31 ∷ [] }

unsorted-Holds : Holds unsorted (11 ∷ 32 ∷ 12 ∷ 31 ∷ [])
unsorted-Holds = record {
  spare = [];
  items = refl;
  counted = refl;
  allocated = refl;
  positive = omega arith;
}

sort_run :
    list_stable_sort by_decade unsorted
    ≡ some (record unsorted { items = some 32 ∷ some 31 ∷ some 11 ∷ some 12 ∷ [] })
unfolding list_stable_sort list_inplace_sort list_inplace_merge merge_from list_rotate rotate_from
    read write swap_cells get put
sort_run = refl

list_stable_sort_sorts_example :
    (l' : ListT) × (ys : List Ptr) × (list_stable_sort by_decade unsorted ≡ some l')
    × Holds l' ys
    × StablySorts (le by_decade) (11 ∷ 32 ∷ 12 ∷ 31 ∷ []) ys
list_stable_sort_sorts_example =
    list_stable_sort_sorts by_decade by_decade-TotalPreorder unsorted (11 ∷ 32 ∷ 12 ∷ 31 ∷ [])
      unsorted-Holds
