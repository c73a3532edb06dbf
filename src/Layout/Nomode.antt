-- ===== src/Layout/Nomode.antt =====
-- `layout_move_container_nomode` of sway/tree/layout.c, where a container moves by itself through
-- the rows and columns. Sizes and the memory of focus are left out.
pub mod Detached
use scrollfx.Prelude.{
  ℕ, List, [], ◌∷◌, ◌++◌, Option, none, some, Bool, true, false, not, ◌&&◌, ◌||◌, ◌==◌,
  if◌then◌else◌, ◌>>=◌, ℤ, pos, negsuc, is_neg, ltb_ℤ, ltb, length,
}
use scrollfx.Seq.{Ptr, find, insert, delete, item, move_to, swap}
use scrollfx.Tree.{update}
use scrollfx.Containers.{
  Store, con, ws, represent, tell, node_set_dirty, is_none, container_is_floating,
}
use scrollfx.Containers.Destroy.{container_reap_empty}
use scrollfx.Layout.{
  Direction, dir_begin, dir_end, Insert, Layouts, layout_insert_compute_index,
  layout_direction_compute_index, need_to_detach, put_tiling,
}
use scrollfx.Layout.Drag.{give, put_children, children_list, layout_wrap_into_container}

-- `fresh` is the container that `container_create` returns.
pub layer_container_detach : Ptr → Ptr → Store → Option Store
layer_container_detach fresh child s = do
  let parent = s.tree.parent child
  xs ← children_list parent s
  ys ← delete xs (find xs child)
  let s1 =
      layout_wrap_into_container fresh child (record s { tree = put_children parent ys s.tree })
  some (node_set_dirty (con parent) (tell (represent (con parent)) s1))

pub layout_insert_into_container : Ptr → Ptr → ℤ → Store → Option Store
layout_insert_into_container parent child idx s = do
  xs ← children_list parent s
  ys ← insert xs idx child
  let s1 = record s { tree = give parent child (put_children parent ys s.tree) }
  some (node_set_dirty (con parent) (node_set_dirty (con child) (tell (represent (con parent)) s1)))

-- max(index, 0)
abbrev pub at_least_zero : ℤ → ℤ
at_least_zero (pos n) = pos n
at_least_zero (negsuc n) = pos 0

-- With siblings, and across the parent's layout: to the top level, next to the parent.
pub move_out : Direction → Ptr → Ptr → Store → Option (Store × Bool)
move_out dir fresh c s = do
  let w = s.tree.workspace c
  let index =
      at_least_zero (layout_direction_compute_index (s.tree.tiling w) (s.tree.parent c) dir true)
  s1 ← layer_container_detach fresh c s
  xs ← insert (s1.tree.tiling w) index fresh
  some (node_set_dirty (ws w) (put_tiling w xs s1), true)

-- With siblings, and along the parent's layout: among them.
pub move_among : Direction → Ptr → List Ptr → Store → Option (Store × Bool)
move_among dir c xs s =
    let index = layout_direction_compute_index xs c dir false in
    let go = (do
      ys ← move_to xs index c
      some (
        node_set_dirty (con (s.tree.parent c))
            (record s { tree = put_children (s.tree.parent c) ys s.tree }),
        true,
      )) in
    if is_neg index || not (ltb_ℤ index (pos (length xs))) then some (s, false) else go

-- What a workspace says about new containers, and `current.focused_inactive_child` of containers.
pub record Inserts : Type 0 where
  pub get_insert : Ptr → Insert
  pub focused : Ptr → Ptr

module _ (i : Inserts) where
  -- Without siblings: into the neighbour of its parent, which then disappears.
  pub move_into : ℕ → Ptr → Ptr → List Ptr → Ptr → Store → Option Store
  move_into fuel c new_parent xs w s = do
    ys ← delete (s.tree.tiling w) (find (s.tree.tiling w) (s.tree.parent c))
    zs ← delete xs (pos 0)
    let parent = s.tree.parent c
    let s1 = put_tiling w ys (record s { tree = put_children parent zs s.tree })
    ks ← children_list new_parent s1
    let index = layout_insert_compute_index ks (i.focused new_parent) (i.get_insert w)
    s2 ← layout_insert_into_container new_parent c index s1
    container_reap_empty fuel parent s2

  -- To the beginning or the end, its parent changes places with the container there.
  pub move_neighbor : Direction → ℕ → Ptr → Ptr → ℤ → List Ptr → Ptr → Store → Option Store
  move_neighbor dir_begin fuel c new_parent at xs w s = do
    ys ← swap (s.tree.tiling w) at (find (s.tree.tiling w) (s.tree.parent c))
    some (put_tiling w ys s)
  move_neighbor dir_end fuel c new_parent at xs w s = do
    ys ← swap (s.tree.tiling w) at (find (s.tree.tiling w) (s.tree.parent c))
    some (put_tiling w ys s)
  move_neighbor _ fuel c new_parent at xs w s = move_into fuel c new_parent xs w s

  pub move_alone : Direction → ℕ → Ptr → List Ptr → Store → Option (Store × Bool)
  move_alone dir fuel c xs s =
      let w = s.tree.workspace c in
      let parent = s.tree.parent c in
      let at = layout_direction_compute_index (s.tree.tiling w) parent dir false in
      let go = λ (new_parent : Ptr). (do
        s1 ← move_neighbor dir fuel c new_parent at xs w s
        some (node_set_dirty (ws w) s1, true)) in
      let found = (do
        new_parent ← item (s.tree.tiling w) at
        if new_parent == parent then some (s, false) else go new_parent) in
      if is_neg at || not (ltb_ℤ at (pos (length (s.tree.tiling w))))
      then some (s, false)
      else found

  pub layout_move_container_nomode :
      Layouts → ℕ → Ptr → Direction → Ptr → Store → Option (Store × Bool)
  layout_move_container_nomode l fuel fresh dir c s =
      let parent = s.tree.parent c in
      let choose = λ (xs : List Ptr).
        if not (ltb 1 (length xs))
        then move_alone dir fuel c xs s
        else if need_to_detach (l.layout parent) dir
        then move_out dir fresh c s
        else move_among dir c xs s in
      let go = (do xs ← children_list parent s; choose xs) in
      if not (is_none (s.mode c)) || container_is_floating c s
      then some (s, false)
      else if s.tree.workspace c == 0
      then none
      else go
