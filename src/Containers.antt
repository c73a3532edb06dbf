-- ===== src/Containers.antt =====
-- The operations on containers of sway/tree/container.c and sway/tree/workspace.c, over the tree
-- and the state around it: fullscreen containers, the scratchpad and the dirty nodes. Sizes and
-- positions are left out. A result `none` means that the C code would go through a null pointer or
-- leave a list.
pub mod Destroy
pub mod Dirty
pub mod Forest
pub mod Sibling
pub mod Unchanged
mod Tests
use scrollfx.Prelude.{
  ℕ, ◌+◌, ◌-◌, List, [], ◌∷◌, ◌++◌, Option, none, some, Bool, true, false, not, ◌&&◌, ◌||◌, ◌==◌,
  if◌then◌else◌, ◌>>=◌, is_neg, ℤ, pos, negsuc, ◌+ℤ◌,
}
use scrollfx.Seq.{Ptr, find, insert}
use scrollfx.Tree.{
  Tree, Place, children_of, tiling_of, floating_of, nowhere, update, items, put_items,
  container_get_siblings, detach, link_child, link_tiling, link_floating, set_workspaces,
}

pub data FullscreenMode : Type 0 where
  fullscreen_none : FullscreenMode
  fullscreen_workspace : FullscreenMode
  fullscreen_global : FullscreenMode

pub data Node : Type 0 where
  con : Ptr → Node
  ws : Ptr → Node

unfoldable pub eq_node : Node → Node → Bool
eq_node (con a) (con b) = a == b
eq_node (ws a) (ws b) = a == b
eq_node (con a) (ws b) = false
eq_node (ws a) (con b) = false

-- What the rest of the program is told: titles to draw again, workspaces to arrange, the end of an
-- operation with the mouse, messages to IPC clients, a seat that has to look for a new focus, the
-- destroy signal of a container, and a workspace that may not be needed any more.
pub data Event : Type 0 where
  represent : Node → Event
  arrange : Ptr → Event
  end_mouse : Ptr → Event
  window_event : Ptr → Event
  refocus : Ptr → Event
  destroyed : Ptr → Event
  consider_destroy : Ptr → Event

-- `mode` and `scratchpad` of containers, the list of the containers in the scratchpad, `fullscreen` of workspaces, and `fullscreen_all`, the
-- `fullscreen_global` of the root.
pub record Store : Type 0 where
  pub tree : Tree
  pub mode : Ptr → FullscreenMode
  pub scratchpad : Ptr → Bool
  pub scratchpad_list : List Ptr
  pub fullscreen : Ptr → Ptr
  pub fullscreen_all : Ptr
  pub dirty : Node → Bool
  pub destroying : Node → Bool
  pub dirty_nodes : List Node
  pub told : List Event

pub tell : Event → Store → Store
tell e s = record s { told = s.told ++ e ∷ [] }

unfoldable pub node_set_dirty : Node → Store → Store
node_set_dirty n s =
    let skip = s.dirty n || s.destroying n in
    record s {
      dirty = λ m. if skip then s.dirty m else if eq_node n m then true else s.dirty m;
      dirty_nodes = if skip then s.dirty_nodes else s.dirty_nodes ++ n ∷ [];
    }

unfoldable pub container_is_floating : Ptr → Store → Bool
container_is_floating c s =
    ((s.tree.parent c == 0)
      && not (s.tree.workspace c == 0)
      && not (is_neg (find (s.tree.floating (s.tree.workspace c)) c)))
    || s.scratchpad c

-- The part of `container_fullscreen_disable` that depends on the mode.
pub clear_fullscreen : FullscreenMode → Ptr → Store → Store
clear_fullscreen fullscreen_none c s = s
clear_fullscreen fullscreen_workspace c s = record s {
  fullscreen =
      if s.tree.workspace c == 0 then s.fullscreen else update s.fullscreen (s.tree.workspace c) 0;
}
clear_fullscreen fullscreen_global c s = record s { fullscreen_all = 0 }

abbrev pub is_none : FullscreenMode → Bool
is_none fullscreen_none = true
is_none _ = false

abbrev pub is_workspace : FullscreenMode → Bool
is_workspace fullscreen_workspace = true
is_workspace _ = false

pub end_fullscreen : Ptr → Store → Store
end_fullscreen c s =
    let s1 = clear_fullscreen (s.mode c) c s in
    record s1 { mode = update s1.mode c fullscreen_none }

-- The assertion that the container is fullscreen returns when it is not.
pub container_fullscreen_disable : Ptr → Store → Store
container_fullscreen_disable c s =
    let s1 = tell (window_event c) (tell (end_mouse c) (end_fullscreen c s)) in
    if is_none (s.mode c) then s else if s.scratchpad c then tell (refocus c) s1 else s1

pub container_handle_fullscreen_reparent : Ptr → Store → Store
container_handle_fullscreen_reparent c s =
    let w = s.tree.workspace c in
    let s1 = if s.fullscreen w == 0 then s else container_fullscreen_disable (s.fullscreen w) s in
    if not (is_workspace (s.mode c)) || w == 0 || s.fullscreen w == c
    then s
    else tell (arrange w) (record s1 { fullscreen = update s1.fullscreen w c })

-- A fullscreen container that is detached is not the one of its workspace any more.
pub leave_fullscreen : FullscreenMode → Ptr → Store → Option Store
leave_fullscreen fullscreen_none c s = some s
leave_fullscreen fullscreen_workspace c s =
    if s.tree.workspace c == 0
    then none
    else some (record s { fullscreen = update s.fullscreen (s.tree.workspace c) 0 })
leave_fullscreen fullscreen_global c s = some (record s { fullscreen_all = 0 })

-- The old parent, or else the old workspace, is drawn again.
pub left_behind : Ptr → Ptr → Store → Store
left_behind parent workspace s =
    if parent == 0
    then (if workspace == 0
        then s
        else node_set_dirty (ws workspace) (tell (represent (ws workspace)) s))
    else node_set_dirty (con parent) (tell (represent (con parent)) s)

pub container_detach : ℕ → Ptr → Store → Option Store
container_detach fuel c s = do
  s1 ← leave_fullscreen (s.mode c) c s
  t ← detach fuel c s1.tree
  some (
      node_set_dirty (con c)
        (left_behind (s.tree.parent c) (s.tree.workspace c) (record s1 { tree = t })))

-- `if (child->pending.workspace) container_detach(child);`
pub detach_first : ℕ → Ptr → Store → Option Store
detach_first fuel c s = if s.tree.workspace c == 0 then some s else container_detach fuel c s

pub container_add_child : ℕ → Ptr → Ptr → Store → Option Store
container_add_child fuel parent child s = do
  s1 ← detach_first fuel child s
  xs ← s1.tree.children parent
  t ← link_child fuel parent child (xs ++ child ∷ []) s1.tree
  let s2 = container_handle_fullscreen_reparent child (record s1 { tree = t })
  some (node_set_dirty (con parent) (node_set_dirty (con child) (tell (represent (con parent)) s2)))

pub container_insert_child : ℕ → Ptr → Ptr → ℤ → Store → Option Store
container_insert_child fuel parent child i s = do
  s1 ← detach_first fuel child s
  xs ← s1.tree.children parent
  ys ← insert xs i child
  t ← link_child fuel parent child ys s1.tree
  some (
      tell (represent (con parent))
        (container_handle_fullscreen_reparent child (record s1 { tree = t })))

-- The list of `fixed`, with `active` in it, and the pointers of `active` as those of `fixed`.
pub link_sibling : ℕ → Ptr → Ptr → Place → List Ptr → Tree → Option Tree
link_sibling fuel fixed active place ys t =
    let t1 = put_items t place ys in
    set_workspaces fuel active (record t1 {
      parent = update t1.parent active (t1.parent fixed);
      workspace = update t1.workspace active (t1.workspace fixed);
    })

pub container_add_sibling : ℕ → Ptr → Ptr → Bool → Store → Option Store
container_add_sibling fuel fixed active after s = do
  s1 ← detach_first fuel active s
  let place = container_get_siblings s1.tree fixed
  xs ← items s1.tree place
  ys ← insert xs (find xs fixed +ℤ pos (if after then 1 else 0)) active
  t ← link_sibling fuel fixed active place ys s1.tree
  some (
      tell (represent (con active))
        (container_handle_fullscreen_reparent active (record s1 { tree = t })))

pub workspace_add_floating : ℕ → Ptr → Ptr → Store → Option Store
workspace_add_floating fuel workspace c s = do
  s1 ← detach_first fuel c s
  t ← link_floating fuel workspace c (s1.tree.floating workspace ++ c ∷ []) s1.tree
  let s2 = container_handle_fullscreen_reparent c (record s1 { tree = t })
  some (node_set_dirty (con c) (node_set_dirty (ws workspace) s2))

pub workspace_insert_tiling_direct : ℕ → Ptr → Ptr → ℤ → Store → Option Store
workspace_insert_tiling_direct fuel workspace c index s = do
  ys ← insert (s.tree.tiling workspace) index c
  t ← link_tiling fuel workspace c ys s.tree
  let s1 =
      tell (represent (ws workspace))
        (container_handle_fullscreen_reparent c (record s { tree = t }))
  some (node_set_dirty (con c) (node_set_dirty (ws workspace) s1))
