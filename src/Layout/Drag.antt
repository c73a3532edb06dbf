-- ===== src/Layout/Drag.antt =====
-- Dragging a container onto another one: `layout_drag_container_to_container` of
-- sway/tree/layout.c and the functions that it calls. Sizes and the memory of focus of a new
-- container are left out.
pub mod Adopt
pub mod Swap
use scrollfx.Prelude.{
  ℕ, zero, suc, List, [], ◌∷◌, ◌++◌, Option, none, some, Bool, true, false, not, ◌&&◌, ◌||◌, ◌==◌,
  if◌then◌else◌, ◌>>=◌, ℤ, pos, ◌+ℤ◌, ◌-ℤ◌, length,
}
use mathlib.Core.Option
use scrollfx.Seq.{Ptr, find, insert, delete, item, swap}
use scrollfx.Tree.{Tree, update}
use scrollfx.Containers.{Store, con, ws, represent, arrange, tell, node_set_dirty}
use scrollfx.Containers.Destroy.{is_view, container_reap_empty}
use scrollfx.Layout.{
  LayoutKind, layout_none, layout_horiz, layout_vert, Layouts, eq_layout,
  remove_active_parent_container_from_workspace, move_container_before, move_container_after,
  swap_containers,
}

-- The edges of a container, as wlroots names them.
pub data Edge : Type 0 where
  edge_none edge_top edge_bottom edge_left edge_right : Edge

-- A child gets a parent and the workspace of that.
pub give : Ptr → Ptr → Tree → Tree
give target c t = record t {
  parent = update t.parent c target;
  workspace = update t.workspace c (t.workspace target);
}

unfoldable pub put_children : Ptr → List Ptr → Tree → Tree
put_children p xs t = record t { children = update t.children p (some xs) }

-- A round of the loop of `insert_children_before`, whose list ends with `c`.
pub adopt_last : Ptr → Ptr → Ptr → Tree → Option Tree
adopt_last container target c t = do
  ys ← t.children target
  zs ← insert ys (pos 0) c
  let t1 = put_children target zs (give target c t)
  xs ← t1.children container
  rest ← delete xs (pos (length xs) -ℤ pos 1)
  some (put_children container rest t1)

pub adopt_before : ℕ → Ptr → Ptr → Tree → Option Tree
adopt_before zero container target t = none
adopt_before (suc n) container target t = do
  xs ← t.children container
  elim xs [
    | [] ↦ some t
    | x ∷ more ↦ (do
      c ← item (x ∷ more) (pos (length (x ∷ more)) -ℤ pos 1)
      t1 ← adopt_last container target c t
      adopt_before n container target t1)
  ]

-- A round of the loop of `insert_children_after`, whose list begins with `c`.
pub adopt_first : Ptr → Ptr → Ptr → Tree → Option Tree
adopt_first container target c t = do
  ys ← t.children target
  let t1 = put_children target (ys ++ c ∷ []) (give target c t)
  xs ← t1.children container
  rest ← delete xs (pos 0)
  some (put_children container rest t1)

pub adopt_after : ℕ → Ptr → Ptr → Tree → Option Tree
adopt_after zero container target t = none
adopt_after (suc n) container target t = do
  xs ← t.children container
  elim xs [
    | [] ↦ some t
    | x ∷ more ↦ (do t1 ← adopt_first container target x t; adopt_after n container target t1)
  ]

-- What both functions do around their loops.
pub insert_children : (ℕ → Ptr → Ptr → Tree → Option Tree) → ℕ → Ptr → Ptr → Store → Option Store
insert_children adopt fuel container target s =
    let old = s.tree.workspace container in
    let go = (do
      s1 ← remove_active_parent_container_from_workspace (find (s.tree.tiling old) container) old s
      t ← adopt fuel container target s1.tree
      s2 ← container_reap_empty fuel container (record s1 { tree = t })
      some (node_set_dirty (con target) (tell (represent (con target)) s2))) in
    if (old == 0) || (target == 0) then none else go

pub insert_children_before : ℕ → Ptr → Ptr → Store → Option Store
insert_children_before = insert_children adopt_before

pub insert_children_after : ℕ → Ptr → Ptr → Store → Option Store
insert_children_after = insert_children adopt_after

-- The children of a pointer that may be null.
unfoldable pub children_list : Ptr → Store → Option (List Ptr)
children_list p s = if p == 0 then none else s.tree.children p

pub extract_view : ℕ → Ptr → Store → Option Store
extract_view fuel view s = do
  let parent = s.tree.parent view
  xs ← children_list parent s
  ys ← delete xs (find xs view)
  let s1 = record s { tree = put_children parent ys s.tree }
  container_reap_empty fuel parent (node_set_dirty (con parent) (tell (represent (con parent)) s1))

-- The common part of `insert_view_before` and `insert_view_after`, which insert at the index of the
-- target and behind it.
pub insert_view : (ℤ → ℤ) → ℕ → Ptr → Ptr → Store → Option Store
insert_view shift fuel container target s = do
  s1 ← extract_view fuel container s
  let t = record s1.tree {
    workspace = update s1.tree.workspace container (s1.tree.workspace target);
  }
  let parent = t.parent target
  xs ← children_list parent s1
  ys ← insert xs (shift (find xs target)) container
  let t1 = put_children parent ys t
  let s2 = record s1 { tree = record t1 { parent = update t1.parent container parent } }
  some (node_set_dirty (con parent) (tell (represent (con parent)) s2))

pub insert_view_before : ℕ → Ptr → Ptr → Store → Option Store
insert_view_before = insert_view (λ i. i)

pub insert_view_after : ℕ → Ptr → Ptr → Store → Option Store
insert_view_after = insert_view (λ i. i +ℤ pos 1)

-- `fresh` is the container that `container_create` returns.
unfoldable pub layout_wrap_into_container : Ptr → Ptr → Store → Store
layout_wrap_into_container fresh child s =
    let t = put_children fresh (child ∷ []) s.tree in
    let t1 = record t {
      parent = update t.parent child fresh;
      workspace = update t.workspace fresh (t.workspace child);
    } in
    node_set_dirty (con fresh)
      (node_set_dirty (con child) (tell (represent (con fresh)) (record s { tree = t1 })))

pub extract_view_and_insert : (ℤ → ℤ) → ℕ → Ptr → Ptr → Ptr → Ptr → Store → Option Store
extract_view_and_insert shift fuel fresh container reference workspace s = do
  s1 ← extract_view fuel container s
  let t = record s1.tree { workspace = update s1.tree.workspace container workspace }
  let s2 = layout_wrap_into_container fresh container (record s1 { tree = t })
  xs ← insert (s2.tree.tiling workspace) (shift (find (s2.tree.tiling workspace) reference)) fresh
  let s3 = record s2 { tree = record s2.tree { tiling = update s2.tree.tiling workspace xs } }
  some (node_set_dirty (con fresh) s3)

pub extract_view_and_insert_before : ℕ → Ptr → Ptr → Ptr → Ptr → Store → Option Store
extract_view_and_insert_before = extract_view_and_insert (λ i. i)

pub extract_view_and_insert_after : ℕ → Ptr → Ptr → Ptr → Ptr → Store → Option Store
extract_view_and_insert_after = extract_view_and_insert (λ i. i +ℤ pos 1)

-- Views with one parent change places in its list.
pub swap_siblings : Ptr → ℤ → ℤ → List Ptr → Store → Option Store
swap_siblings parent cidx tidx xs s = do
  ys ← swap xs cidx tidx
  some (
      node_set_dirty (con parent)
        (tell (represent (con parent)) (record s { tree = put_children parent ys s.tree })))

-- The pointers of two views are exchanged.
pub exchange_pointers : Ptr → Ptr → Tree → Tree
exchange_pointers c d t = record t {
  parent = update (update t.parent c (t.parent d)) d (t.parent c);
  workspace = update (update t.workspace d (t.workspace c)) c (t.workspace d);
}

-- Views with two parents change places between their lists.
pub swap_cousins : Ptr → Ptr → ℤ → ℤ → List Ptr → List Ptr → Store → Option Store
swap_cousins container target cidx tidx xs ys s = do
  let cparent = s.tree.parent container
  let tparent = s.tree.parent target
  xs1 ← delete xs cidx
  ys1 ← delete ys tidx
  xs2 ← insert xs1 cidx target
  ys2 ← insert ys1 tidx container
  let t =
      exchange_pointers container target
        (put_children tparent ys2 (put_children cparent xs2 s.tree))
  let s1 = node_set_dirty (con cparent) (tell (represent (con cparent)) (record s { tree = t }))
  some (node_set_dirty (con tparent) (tell (represent (con tparent)) s1))

pub swap_views : Ptr → Ptr → Store → Option Store
swap_views container target s = do
  let cparent = s.tree.parent container
  let tparent = s.tree.parent target
  xs ← children_list cparent s
  ys ← children_list tparent s
  if cparent == tparent
      then swap_siblings cparent (find xs container) (find xs target) xs s
      else swap_cousins container target (find xs container) (find ys target) xs ys s

-- The two switches over the edge in which a container moves with its parent.
pub drag_parent : LayoutKind → Edge → ℕ → Ptr → Ptr → Ptr → Store → Option Store
drag_parent layout_horiz edge_top fuel c t w s = insert_children_before fuel c t s
drag_parent layout_horiz edge_bottom fuel c t w s = insert_children_after fuel c t s
drag_parent layout_horiz edge_left fuel c t w s = move_container_before fuel c t w s
drag_parent layout_horiz edge_right fuel c t w s = move_container_after fuel c t w s
drag_parent _ edge_top fuel c t w s = move_container_before fuel c t w s
drag_parent _ edge_bottom fuel c t w s = move_container_after fuel c t w s
drag_parent _ edge_left fuel c t w s = insert_children_before fuel c t s
drag_parent _ edge_right fuel c t w s = move_container_after fuel c t w s
drag_parent _ edge_none fuel c t w s = swap_containers fuel c t w s

-- The two in which the view moves alone.
pub drag_view : LayoutKind → Edge → ℕ → Ptr → Ptr → Ptr → Ptr → Store → Option Store
drag_view layout_horiz edge_top fuel fresh c t w s = insert_view_before fuel c t s
drag_view layout_horiz edge_bottom fuel fresh c t w s = insert_view_after fuel c t s
drag_view layout_horiz edge_left fuel fresh c t w s =
    extract_view_and_insert_before fuel fresh c (s.tree.parent t) w s
drag_view layout_horiz edge_right fuel fresh c t w s =
    extract_view_and_insert_after fuel fresh c (s.tree.parent t) w s
drag_view _ edge_top fuel fresh c t w s =
    extract_view_and_insert_before fuel fresh c (s.tree.parent t) w s
drag_view _ edge_bottom fuel fresh c t w s =
    extract_view_and_insert_after fuel fresh c (s.tree.parent t) w s
drag_view _ edge_left fuel fresh c t w s = insert_view_before fuel c t s
drag_view _ edge_right fuel fresh c t w s = insert_view_after fuel c t s
drag_view _ edge_none fuel fresh c t w s = swap_views c t s

-- `mode` is `layout.modifiers.mode` of workspaces.
pub layout_drag_container_to_container :
    Layouts → (Ptr → LayoutKind) → ℕ → Ptr → Ptr → Ptr → Ptr → Edge → Store → Option Store
layout_drag_container_to_container l mode fuel fresh container target workspace edge s =
    let old = s.tree.workspace container in
    let layout = l.layout_type old in
    let c = s.tree.parent container in
    let t = if is_view target s then s.tree.parent target else target in
    let finish = λ (s1 : Store).
      node_set_dirty (ws workspace)
        (tell (represent (ws workspace)) (tell (arrange workspace) s1)) in
    let parents = Option.map finish (drag_parent layout edge fuel c t workspace s) in
    let views = Option.map finish (drag_view layout edge fuel fresh container target workspace s) in
    if (old == 0) || (target == 0)
    then none
    else if eq_layout layout (mode old)
    then (if c == t then some s else parents)
    else if container == target
    then some s
    else views
