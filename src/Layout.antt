-- ===== src/Layout.antt =====
-- Inserting and moving containers in the rows and columns of sway/tree/layout.c. A result `none`
-- means that the C code would go through a null pointer or leave a list. Sizes, positions and the
-- arrangement on the screen are left out.
pub mod Drag
pub mod Index
pub mod Moves
pub mod Near
pub mod Nomode
pub mod Across
pub mod Steps
mod Tests
use scrollfx.Prelude.{
  ℕ, zero, suc, ◌+◌, ◌-◌, List, [], ◌∷◌, ◌++◌, Option, none, some, Bool, true, false, not, ◌&&◌,
  ◌||◌, ◌==◌, if◌then◌else◌, ◌>>=◌, is_neg, ℤ, pos, negsuc, ◌+ℤ◌, ◌-ℤ◌, ltb_ℤ, eq_ℤ, length, ltb,
}
use scrollfx.Seq.{Ptr, find, insert, delete, move_to, swap}
use scrollfx.Tree.{Tree, update, items, put_items, container_get_siblings}
use scrollfx.Containers.{
  FullscreenMode, fullscreen_none, Store, Node, con, ws, represent, tell, node_set_dirty, is_none,
  container_is_floating, workspace_insert_tiling_direct,
}

pub data Direction : Type 0 where
  dir_invalid dir_left dir_right dir_up dir_down dir_begin dir_end dir_center dir_middle : Direction

pub data Insert : Type 0 where
  insert_before insert_after insert_beginning insert_end : Insert

pub data LayoutKind : Type 0 where
  layout_none layout_horiz layout_vert : LayoutKind

pub layout_insert_compute_index : List Ptr → Ptr → Insert → ℤ
layout_insert_compute_index list active insert_before = find list active
layout_insert_compute_index list active insert_after = find list active +ℤ pos 1
layout_insert_compute_index list active insert_beginning = pos 0
layout_insert_compute_index list active insert_end = pos (length list)

-- The index of an item in one of the four directions, or of the ends of the list.
unfoldable pub layout_direction_compute_index : List Ptr → Ptr → Direction → Bool → ℤ
layout_direction_compute_index list item dir_begin detach = pos 0
layout_direction_compute_index list item dir_end detach = pos (length list) -ℤ pos 1
layout_direction_compute_index list item dir_right detach = find list item +ℤ pos 1
layout_direction_compute_index list item dir_down detach = find list item +ℤ pos 1
layout_direction_compute_index list item _ detach =
    if detach then find list item else find list item -ℤ pos 1

unfoldable pub need_to_detach : LayoutKind → Direction → Bool
need_to_detach layout_horiz dir_left = false
need_to_detach layout_horiz dir_right = false
need_to_detach layout_vert dir_up = false
need_to_detach layout_vert dir_down = false
need_to_detach _ dir_begin = false
need_to_detach _ dir_end = false
need_to_detach _ _ = true

-- A workspace with another list of tiling containers.
unfoldable pub put_tiling : Ptr → List Ptr → Store → Store
put_tiling w xs s = record s { tree = record s.tree { tiling = update s.tree.tiling w xs } }

pub remove_active_parent_container_from_workspace : ℤ → Ptr → Store → Option Store
remove_active_parent_container_from_workspace idx workspace s = do
  xs ← delete (s.tree.tiling workspace) idx
  some (node_set_dirty (ws workspace) (tell (represent (ws workspace)) (put_tiling workspace xs s)))

-- `list_move_to` on the tiling containers.
pub move_tiling : Ptr → ℤ → Ptr → Store → Option Store
move_tiling w index c s = do xs ← move_to (s.tree.tiling w) index c; some (put_tiling w xs s)

-- What the three functions below do first: the workspace of the container, and the two indices. When
-- one of them is not found, nothing happens.
pub found_both : Ptr → Ptr → Ptr → Store → (Ptr → ℤ → ℤ → Option Store) → Option Store
found_both container target workspace s go =
    let old = s.tree.workspace container in
    let cidx = find (s.tree.tiling old) container in
    let tidx = find (s.tree.tiling workspace) target in
    if old == 0 then none else if is_neg cidx || is_neg tidx then some s else go old cidx tidx

pub move_container_before : ℕ → Ptr → Ptr → Ptr → Store → Option Store
move_container_before fuel container target workspace s =
    found_both container target workspace s (λ old cidx tidx.
      if not (old == workspace)
      then (do
        s1 ← remove_active_parent_container_from_workspace cidx old s
        workspace_insert_tiling_direct fuel workspace container tidx s1)
      else if eq_ℤ cidx (tidx -ℤ pos 1)
      then some s
      else if ltb_ℤ cidx tidx
      then move_tiling workspace (tidx -ℤ pos 1) container s
      else move_tiling workspace tidx container s)

pub move_container_after : ℕ → Ptr → Ptr → Ptr → Store → Option Store
move_container_after fuel container target workspace s =
    found_both container target workspace s (λ old cidx tidx.
      if not (old == workspace)
      then (do
        s1 ← remove_active_parent_container_from_workspace cidx old s
        workspace_insert_tiling_direct fuel workspace container (tidx +ℤ pos 1) s1)
      else if eq_ℤ cidx (tidx +ℤ pos 1)
      then some s
      else if ltb_ℤ cidx tidx
      then move_tiling workspace tidx container s
      else move_tiling workspace (tidx +ℤ pos 1) container s)

pub swap_containers : ℕ → Ptr → Ptr → Ptr → Store → Option Store
swap_containers fuel container target workspace s =
    found_both container target workspace s (λ old cidx tidx.
      if not (old == workspace)
      then (do
        s1 ← remove_active_parent_container_from_workspace cidx old s
        s2 ← remove_active_parent_container_from_workspace tidx workspace s1
        s3 ← workspace_insert_tiling_direct fuel old target cidx s2
        workspace_insert_tiling_direct fuel workspace container tidx s3)
      else if eq_ℤ cidx tidx
      then some s
      else (do xs ← swap (s.tree.tiling workspace) cidx tidx; some (put_tiling workspace xs s)))

-- What the movement in a mode asks: `pending.layout` of containers, `layout.type` of workspaces, and
-- `layout.modifiers.mode` of the workspace of the command.
pub record Layouts : Type 0 where
  pub layout : Ptr → LayoutKind
  pub layout_type : Ptr → LayoutKind
  pub handler_mode : LayoutKind

pub eq_layout : LayoutKind → LayoutKind → Bool
eq_layout layout_none layout_none = true
eq_layout layout_horiz layout_horiz = true
eq_layout layout_vert layout_vert = true
eq_layout _ _ = false

-- The index that the container would move to, if it can move among its siblings.
pub desired_index : Direction → LayoutKind → LayoutKind → ℕ → ℤ → Option ℤ
desired_index dir_left layout_horiz mode n idx = some (idx -ℤ pos 1)
desired_index dir_right layout_horiz mode n idx = some (idx +ℤ pos 1)
desired_index dir_up layout_vert mode n idx = some (idx -ℤ pos 1)
desired_index dir_down layout_vert mode n idx = some (idx +ℤ pos 1)
desired_index dir_begin parent mode n idx = if eq_layout mode parent then some (pos 0) else none
desired_index dir_end parent mode n idx =
    if eq_layout mode parent then some (pos n -ℤ pos 1) else none
desired_index _ _ mode n idx = none

module _ (l : Layouts) where
  -- The layout that a container stands in.
  pub layout_around : Ptr → Store → LayoutKind
  layout_around c s =
      if s.tree.parent c == 0
      then l.layout_type (s.tree.workspace c)
      else l.layout (s.tree.parent c)

  -- The index to move to, when there is one among the siblings `xs`.
  pub target_index : Direction → Ptr → List Ptr → Store → Option ℤ
  target_index dir c xs s = do
    desired ← desired_index dir (layout_around c s) l.handler_mode (length xs) (find xs c)
    if ltb 1 (length xs) && not (is_neg desired) && ltb_ℤ desired (pos (length xs))
        then some desired
        else none

  pub marked : Ptr → Store → Store
  marked c s =
      if s.tree.parent c == 0
      then node_set_dirty (ws (s.tree.workspace c)) s
      else node_set_dirty (con c) (node_set_dirty (con (s.tree.parent c)) s)

  -- The loop over the ancestors, from `current` on. The result says whether something has moved.
  pub layout_move_container_mode : ℕ → Direction → Ptr → Store → Option (Store × Bool)
  layout_move_container_mode zero dir current s = none
  layout_move_container_mode (suc fuel) dir current s =
      let place = container_get_siblings s.tree current in
      let next = layout_move_container_mode fuel dir (s.tree.parent current) s in
      let stay = (do
        xs ← items s.tree place
        elim (target_index dir current xs s) [
          | none ↦ next
          | some desired ↦ (do
            ys ← delete xs (find xs current)
            zs ← insert ys desired current
            some (marked current (record s { tree = put_items s.tree place zs }), true))
        ]) in
      if current == 0
      then some (s, false)
      else if not (is_none (s.mode current)) || container_is_floating current s
      then some (s, false)
      else stay
