-- ===== src/Layout/Tests.antt =====
-- The theorems on moves at concrete places of a small tree.
use scrollfx.Prelude.{◌≡◌, refl, List, [], ◌∷◌, ◌++◌, some, none, true, arith, negsuc, Bool, ◌⊎◌}
use scrollfx.Seq.{Ptr, find, insert}
use scrollfx.Tree.Sample.{small, small_tree, small_tree-IsForest, height}
use scrollfx.Tree.Forest.{IsForest}
use scrollfx.Containers.{Store, container_is_floating}
use scrollfx.Layout.{
  need_to_detach, Layouts, layout_horiz, layout_vert, dir_left, dir_right, insert_before,
  insert_after, layout_insert_compute_index, put_tiling, move_container_before,
  move_container_after, layout_move_container_mode,
}
use scrollfx.Layout.Drag.{adopt_before, adopt_after, swap_views}
use scrollfx.Layout.Drag.Adopt.{Adopted, adopt-Adopted}
use scrollfx.Layout.Drag.Swap.{Swapped, swap_views-Swapped}
use scrollfx.Tree.{Tree}
use scrollfx.Layout.Nomode.{Inserts, layout_move_container_nomode}
use scrollfx.Layout.Nomode.Detached.{Wrapped, nomode-Wrapped}
use scrollfx.Layout.Index.{compute_index-insert}
use scrollfx.Layout.Near.{before, behind, remove}
use scrollfx.Layout.Near.Same.{move_container-near}
use scrollfx.Layout.Across.{Crossed, move_container-Crossed}
use scrollfx.Layout.Steps.{Outcome, move_container_mode-Outcome}

move_container-near_example :
    (move_container_before 1 2 1 100 small
      ≡ some (put_tiling 100 (before 2 1 (remove 2 (1 ∷ 2 ∷ []))) small))
    × (move_container_after 1 2 1 100 small
        ≡ some (put_tiling 100 (behind 2 1 (remove 2 (1 ∷ 2 ∷ []))) small))
move_container-near_example =
    move_container-near 1 2 1 100 (λ z. omega (arith, z)) (λ z. omega (arith, z)) small refl
      (λ z. ground (arith, z)) (λ z. ground (arith, z))

move_container-Crossed_example :
    ((s' : Store) × (move_container_before 2 2 4 200 small ≡ some s')
      × Crossed height 2 100 200 (before 2 4 (4 ∷ 6 ∷ 10 ∷ [])) small_tree s'.tree)
    × ((s' : Store) × (move_container_after 2 2 4 200 small ≡ some s')
        × Crossed height 2 100 200 (behind 2 4 (4 ∷ 6 ∷ 10 ∷ [])) small_tree s'.tree)
move_container-Crossed_example =
    move_container-Crossed height 2 2 4 100 200 (λ z. omega (arith, z)) (λ z. omega (arith, z))
      (λ z. omega (arith, z)) (λ z. omega (arith, z)) (omega arith) small small_tree-IsForest refl
      refl (λ z. ground (arith, z)) (λ z. ground (arith, z))

-- All workspaces and containers are rows.
abbrev rows : Layouts
rows = record {
  layout = λ c. layout_vert;
  layout_type = λ w. layout_horiz;
  handler_mode = layout_horiz;
}

move_container_mode-Outcome_example :
    (s' : Store) × (b : Bool) × (layout_move_container_mode rows 3 dir_left 3 small ≡ some (s', b))
    × Outcome rows dir_left small 3 s' b
    × IsForest s'.tree height
    × (s'.tree.parent ≡ small_tree.parent)
    × (s'.tree.workspace ≡ small_tree.workspace)
move_container_mode-Outcome_example =
    move_container_mode-Outcome rows dir_left small height small_tree-IsForest 2 (λ q. ground arith)
      3 3 (λ z. omega (arith, z)) (λ z. omega (arith, z)) (omega arith)

abbrev two : List Ptr
two = 4 ∷ 6 ∷ []

compute_index-insert_example :
    ((insert two (layout_insert_compute_index two 6 insert_before) 5 ≡ none)
      × (insert two (layout_insert_compute_index two 6 insert_after) 5 ≡ some (5 ∷ 4 ∷ 6 ∷ []))
      × (find two 6 ≡ negsuc 0))
    ⊎ ((a b : List Ptr) × (two ≡ a ++ 6 ∷ b)
        × (insert two (layout_insert_compute_index two 6 insert_before) 5 ≡ some (a ++ 5 ∷ 6 ∷ b))
        × (insert two (layout_insert_compute_index two 6 insert_after) 5 ≡ some (a ++ 6 ∷ 5 ∷ b)))
compute_index-insert_example = compute_index-insert two 6 5

adopt-Adopted_example :
    ((t' : Tree) × (adopt_before 2 2 10 small_tree ≡ some t')
      × Adopted 2 10 (3 ∷ []) (3 ∷ 7 ∷ 8 ∷ []) small_tree t')
    × ((t' : Tree) × (adopt_after 2 2 10 small_tree ≡ some t')
        × Adopted 2 10 (3 ∷ []) (7 ∷ 8 ∷ 3 ∷ []) small_tree t')
adopt-Adopted_example =
    adopt-Adopted 2 10 small_tree (3 ∷ []) (7 ∷ 8 ∷ []) 2 (λ z. omega (arith, z)) refl refl refl
      (omega arith)

swap_views-Swapped_example :
    (s' : Store) × (swap_views 3 7 small ≡ some s')
    × Swapped 3 7 (3 ∷ []) (7 ∷ 8 ∷ []) small_tree s'.tree
swap_views-Swapped_example =
    swap_views-Swapped 3 7 small (3 ∷ []) (7 ∷ 8 ∷ []) (λ z. omega (arith, z))
      (λ z. omega (arith, z)) (λ z. omega (arith, z)) refl refl (λ z. ground (arith, z))
      (λ z. ground (arith, z))

abbrev after_first : Inserts
after_first = record { get_insert = λ w. insert_after; focused = λ c. 7 }

nomode-Wrapped_example :
    (s' : Store) × (layout_move_container_nomode after_first rows 3 50 dir_right 8 small
      ≡ some (s', true))
    × Wrapped 8 50 dir_right (7 ∷ 8 ∷ []) small_tree s'.tree
unfolding container_is_floating need_to_detach
nomode-Wrapped_example =
    nomode-Wrapped 50 8 small (7 ∷ 8 ∷ []) (λ z. omega (arith, z)) (λ z. omega (arith, z)) refl
      (λ z. ground (arith, z)) after_first rows 3 dir_right refl (λ z. omega (arith, z))
      (omega arith) refl (λ z. ground (arith, z))
