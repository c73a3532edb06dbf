-- ===== src/Focus.antt =====
-- The focus stack of a seat (sway/input/seat.c), with `node_get_parent` and `node_has_ancestor` of
-- sway/tree/node.c: the containers and workspaces in the order in which they had the focus. There is
-- one seat. A result `none` means the end of the fuel, or that the C code would go through a null
-- pointer or read the node of an empty list.
pub mod Climb
pub mod First
pub mod Stack
pub mod Change
use scrollfx.Prelude.{
  ℕ, zero, suc, ◌+◌, List, [], ◌∷◌, ◌++◌, Option, none, some, Bool, true, false, not, ◌&&◌, ◌||◌,
  ◌==◌, if◌then◌else◌, ◌>>=◌, is_neg,
}
use scrollfx.Seq.{Ptr, find}
use scrollfx.Tree.{Tree}
use scrollfx.Containers.{Node, con, ws, eq_node, Store, node_set_dirty, container_is_floating}
use scrollfx.Containers.Destroy.{is_view, is_global}

-- Any node: one of a container or a workspace, or an output, or the root.
pub data AnyNode : Type 0 where
  inner : Node → AnyNode
  output_node : Ptr → AnyNode
  root_node : AnyNode

unfoldable pub eq_any : AnyNode → AnyNode → Bool
eq_any (inner a) (inner b) = eq_node a b
eq_any (output_node a) (output_node b) = a == b
eq_any root_node root_node = true
eq_any _ _ = false

-- What the rest of the program is told: a node of an output to draw again, a view or the views of a
-- node that lose or get the keyboard, popups to close, messages to IPC clients, a workspace that
-- may not be needed any more, a view that stops being urgent now or by a timer, and workspaces to
-- arrange or to bring back to their own order.
pub data Notice : Type 0 where
  dirty_node : AnyNode → Notice
  send_unfocus : Node → Notice
  send_focus : Node → Notice
  close_popups : Ptr → Notice
  workspace_focus : Ptr → Ptr → Notice
  window_focus : Ptr → Notice
  consider_destroy_workspace : Ptr → Notice
  start_urgent_timer : Ptr → Notice
  unset_urgent : Ptr → Notice
  arrange_gaps : Ptr → Notice
  reset_reorder : Ptr → Notice
  size_change_focus : Option Node → Node → Notice

-- `previous` is the workspace whose name is in `prev_workspace_name`.
pub record Seat : Type 0 where
  pub stack : List Node
  pub has_focus : Bool
  pub workspace : Ptr
  pub previous : Ptr
  pub has_exclusive_layer : Bool
  pub store : Store
  pub notices : List Notice

-- What the seat reads and does not change: the output of a workspace, the workspaces of an output,
-- the sticky containers, the views that are transient for another one, those that are urgent or wait
-- for a timer to be so no more, and some options.
pub record Desk : Type 0 where
  pub output : Ptr → Ptr
  pub workspaces : Ptr → List Ptr
  pub is_sticky : Ptr → Bool
  pub is_transient_for : Ptr → Ptr → Bool
  pub is_urgent : Ptr → Bool
  pub has_urgent_timer : Ptr → Bool
  pub urgent_timeout : ℕ
  pub smart_gaps : Bool
  pub align_reset_auto : Bool

pub notice : Notice → Seat → Seat
notice n s = record s { notices = s.notices ++ n ∷ [] }

pub node_is_view : Node → Store → Bool
node_is_view (con c) s = is_view c s
node_is_view (ws w) s = false

-- A container in the mode `FULLSCREEN_GLOBAL`.
pub is_global_node : AnyNode → Store → Bool
is_global_node (inner (con c)) s = is_global (s.mode c)
is_global_node _ s = false

abbrev pub is_root : AnyNode → Bool
is_root root_node = true
is_root _ = false

-- The first node of the stack that passes a test.
pub first_node : (Node → Option Bool) → List Node → Option (Option Node)
first_node test [] = some none
first_node test (n ∷ ns) =
    let rest = first_node test ns in (do found ← test n; if found then some (some n) else rest)

pub has_node : Node → List Node → Bool
has_node n [] = false
has_node n (m ∷ ns) = eq_node m n || has_node n ns

-- `wl_list_remove` of the node's place.
pub unlink : Node → List Node → List Node
unlink n [] = []
unlink n (m ∷ ns) = if eq_node m n then ns else m ∷ unlink n ns

-- A new node comes to the end of the stack.
pub seat_node_from_node : Node → List Node → List Node
seat_node_from_node n ns = if has_node n ns then ns else ns ++ n ∷ []

pub handle_new_node : Node → Seat → Seat
handle_new_node n s = record s { stack = seat_node_from_node n s.stack }

pub container_parent : Ptr → Ptr → Option AnyNode
container_parent p w =
    if p == 0 then (if w == 0 then none else some (inner (ws w))) else some (inner (con p))

-- A round of the loop of `node_has_ancestor`, which goes on from the parent.
pub climb_with : (AnyNode → Option Bool) → AnyNode → Option AnyNode → Store → Option Bool
climb_with again ancestor none s = some false
climb_with again ancestor (some p) s =
    if eq_any p ancestor || (is_root ancestor && is_global_node p s) then some true else again p

pub container_toplevel_ancestor : ℕ → Ptr → Store → Option Ptr
container_toplevel_ancestor zero c s = none
container_toplevel_ancestor (suc fuel) c s =
    let above = container_toplevel_ancestor fuel (s.tree.parent c) s in
    if s.tree.parent c == 0 then some c else above

pub container_is_floating_or_child : ℕ → Ptr → Store → Option Bool
container_is_floating_or_child fuel c s = do
  top ← container_toplevel_ancestor fuel c s
  some (container_is_floating top s)

-- A container of the workspace, which floats or does not.
pub floats_in : ℕ → Bool → Ptr → Store → Node → Option Bool
floats_in fuel floating w s (ws v) = some false
floats_in fuel floating w s (con c) = do
  floats ← container_is_floating_or_child fuel c s
  some ((if floating then floats else not floats) && (s.tree.workspace c == w))

pub seat_get_focus_inactive_tiling : ℕ → Ptr → Seat → Option (Option Node)
seat_get_focus_inactive_tiling fuel w s =
    let found = first_node (floats_in fuel false w s.store) s.stack in
    elim (s.store.tree.tiling w) [ [] ↦ some none | x ∷ xs ↦ found ]

pub seat_get_focus_inactive_floating : ℕ → Ptr → Seat → Option (Option Node)
seat_get_focus_inactive_floating fuel w s =
    let found = first_node (floats_in fuel true w s.store) s.stack in
    elim (s.store.tree.floating w) [ [] ↦ some none | x ∷ xs ↦ found ]

abbrev pub top_of : List Node → Option (Option Node)
top_of [] = none
top_of (n ∷ ns) = some (some n)

-- Nothing when the seat has no focus, or else the top of the stack.
pub seat_get_focus : Seat → Option (Option Node)
seat_get_focus s =
    if not s.has_focus && not s.has_exclusive_layer then some none else top_of s.stack

abbrev pub workspace_of : Node → Store → Ptr
workspace_of (con c) s = s.tree.workspace c
workspace_of (ws w) s = w

abbrev pub workspace_or_null : Option Node → Store → Ptr
workspace_or_null none s = 0
workspace_or_null (some n) s = workspace_of n s

pub seat_get_last_known_workspace : List Node → Store → Ptr
seat_get_last_known_workspace [] s = 0
seat_get_last_known_workspace (n ∷ ns) s =
    let rest = seat_get_last_known_workspace ns s in
    if workspace_of n s == 0 then rest else workspace_of n s

pub set_dirty_any : AnyNode → Seat → Seat
set_dirty_any (inner n) s = record s { store = node_set_dirty n s.store }
set_dirty_any a s = notice (dirty_node a) s

-- With the parent, if there is one.
pub dirty_parent : Option AnyNode → Seat → Seat
dirty_parent none s = s
dirty_parent (some p) s = set_dirty_any p s

-- A workspace has its tiling children only.
abbrev pub counts_in : AnyNode → Node → Store → Bool
counts_in (inner (ws w)) (con c) s = not (is_neg (find (s.tree.tiling w) c))
counts_in (inner (ws w)) (ws v) s = false
counts_in _ m s = true

-- A node with the first parent is a child of the second one.
abbrev pub is_child_in : Option AnyNode → AnyNode → Node → Store → Bool
is_child_in none parent m s = false
is_child_in (some p) parent m s = eq_any p parent && counts_in parent m s

module _ (d : Desk) where
  pub node_get_parent : AnyNode → Store → Option AnyNode
  node_get_parent (inner (con c)) s = container_parent (s.tree.parent c) (s.tree.workspace c)
  node_get_parent (inner (ws w)) s =
      if d.output w == 0 then none else some (output_node (d.output w))
  node_get_parent (output_node o) s = some root_node
  node_get_parent root_node s = none

  pub climb : ℕ → AnyNode → Store → AnyNode → Option Bool
  climb zero ancestor s n = none
  climb (suc fuel) ancestor s n =
      climb_with (λ p. climb fuel ancestor s p) ancestor (node_get_parent n s) s

  pub node_has_ancestor : ℕ → AnyNode → AnyNode → Store → Option Bool
  node_has_ancestor fuel n ancestor s =
      let above = climb fuel ancestor s n in
      if is_root ancestor && is_global_node n s then some true else above

  pub seat_get_focus_inactive : ℕ → AnyNode → Seat → Option (Option Node)
  seat_get_focus_inactive fuel (inner n) s =
      let found = first_node (λ m. node_has_ancestor fuel (inner m) (inner n) s.store) s.stack in
      if node_is_view n s.store then some (some n) else (do
        o ← found
        some (elim o [ some m ↦ some m | none ↦ elim n [ con c ↦ none | ws w ↦ some (ws w) ] ]))
  seat_get_focus_inactive fuel a s =
      first_node (λ m. node_has_ancestor fuel (inner m) a s.store) s.stack

  -- A view below the node.
  pub view_below : ℕ → AnyNode → Store → Node → Option Bool
  view_below fuel ancestor s m =
      let below = node_has_ancestor fuel (inner m) ancestor s in
      if node_is_view m s then below else some false

  pub seat_get_focus_inactive_view : ℕ → AnyNode → Seat → Option (Option Node)
  seat_get_focus_inactive_view fuel (inner n) s =
      let found = first_node (view_below fuel (inner n) s.store) s.stack in
      if node_is_view n s.store then some (some n) else found
  seat_get_focus_inactive_view fuel a s = first_node (view_below fuel a s.store) s.stack

  pub tiling_child : AnyNode → Store → Node → Option Bool
  tiling_child parent s m = some (is_child_in (node_get_parent (inner m) s) parent m s)

  pub seat_get_active_tiling_child : AnyNode → Seat → Option (Option Node)
  seat_get_active_tiling_child (inner n) s =
      let found = first_node (tiling_child (inner n) s.store) s.stack in
      if node_is_view n s.store then some (some n) else found
  seat_get_active_tiling_child a s = first_node (tiling_child a s.store) s.stack

  pub seat_get_focused_workspace : ℕ → Seat → Option Ptr
  seat_get_focused_workspace fuel s = do
    focus ← seat_get_focus_inactive fuel root_node s
    some (workspace_or_null focus s.store)

  pub set_dirty_parent : Node → Seat → Seat
  set_dirty_parent n s = dirty_parent (node_get_parent (inner n) s.store) s

  pub seat_set_raw_focus : Node → Seat → Seat
  seat_set_raw_focus n s =
      let s1 = record s {
        stack = n ∷ unlink n (seat_node_from_node n s.stack);
        store = node_set_dirty n s.store;
      } in
      set_dirty_parent n s1
