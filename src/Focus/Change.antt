-- ===== src/Focus/Change.antt =====
-- The focus moves to another node: `seat_set_workspace_focus` of sway/input/seat.c and what it calls.
-- What `seat_set_focus` adds for layers and for the lock of the session is left out.
pub mod Set
pub mod Focused
mod Tests
use scrollfx.Prelude.{
  ℕ, zero, suc, ◌+◌, ◌-◌, List, [], ◌∷◌, Option, none, some, Bool, true, false, not, ◌&&◌, ◌||◌,
  ◌==◌, if◌then◌else◌, ◌>>=◌, length, ltb,
}
use scrollfx.Seq.{Ptr}
use scrollfx.Containers.{
  Node, con, ws, eq_node, Store, node_set_dirty, is_none, container_is_floating, container_detach,
  workspace_add_floating,
}
use scrollfx.Containers.Destroy.{is_view}
use scrollfx.Focus.{
  AnyNode, inner, output_node, root_node, Seat, Desk, notice, start_urgent_timer, unset_urgent,
  arrange_gaps, reset_reorder, size_change_focus, send_unfocus, send_focus, close_popups,
  workspace_focus, window_focus, consider_destroy_workspace, dirty_node, node_is_view, unlink,
  node_get_parent, node_has_ancestor, seat_get_focus, seat_get_focus_inactive,
  seat_get_focus_inactive_view, seat_get_active_tiling_child, seat_get_focused_workspace,
  seat_get_last_known_workspace, set_dirty_any, set_dirty_parent, seat_set_raw_focus, workspace_of,
  is_global_node,
}

pub container_has_ancestor : ℕ → Ptr → Ptr → Store → Option Bool
container_has_ancestor zero c ancestor s = none
container_has_ancestor (suc fuel) c ancestor s =
    let p = s.tree.parent c in
    let above = container_has_ancestor fuel p ancestor s in
    if p == ancestor then some true else if p == 0 then some false else above

pub container_is_fullscreen_or_child : ℕ → Ptr → Store → Option Bool
container_is_fullscreen_or_child zero c s = none
container_is_fullscreen_or_child (suc fuel) c s =
    let p = s.tree.parent c in
    let above = container_is_fullscreen_or_child fuel p s in
    if not (is_none (s.mode c)) then some true else if p == 0 then some false else above

abbrev pub same_focus : Option Node → Option Node → Bool
same_focus none none = true
same_focus (some a) (some b) = eq_node a b
same_focus _ _ = false

abbrev pub container_of : Node → Ptr
container_of (con c) = c
container_of (ws w) = 0

pub close_popups_of : Option Node → Seat → Seat
close_popups_of none s = s
close_popups_of (some n) s =
    if node_is_view n s.store then notice (close_popups (container_of n)) s else s

pub seat_set_workspace : Ptr → Seat → Seat
seat_set_workspace w s =
    if s.workspace == w
    then s
    else notice (workspace_focus s.workspace w) (record s {
      previous = if s.workspace == 0 then s.previous else s.workspace;
      workspace = w;
    })

pub announce : Node → Seat → Seat
announce (ws w) s = s
announce (con c) s = if is_view c s.store then notice (window_focus c) s else s

abbrev pub at_index : List Ptr → ℕ → Ptr
at_index [] i = 0
at_index (x ∷ xs) zero = x
at_index (x ∷ xs) (suc i) = at_index xs i

-- The old workspaces may not be needed any more. `workspace_consider_destroy` is the rest of the
-- program's: it destroys an empty one, whose node `handle_seat_node_destroy` then takes out of the
-- stack. Here the call is a notice, and the workspace stays in the stack.
pub consider_old : Ptr → Ptr → Seat → Seat
consider_old here last s =
    let s1 = if here == 0 then s else notice (consider_destroy_workspace here) s in
    if last == 0 || last == here then s1 else notice (consider_destroy_workspace last) s1

-- The focus leaves the nodes.
pub drop_focus : Node → Seat → Seat
drop_focus last s =
    let s1 = close_popups_of (some last) s in
    record (notice (send_unfocus last) s1) { has_focus = false }

abbrev pub active_or_first : Option Node → List Ptr → Store → Ptr
active_or_first (some n) vs s = workspace_of n s
active_or_first none [] s = 0
active_or_first none (w ∷ vs) s = w

module _ (d : Desk) where
  -- The container that covers another one, if it is not transient for it.
  pub unless_transient : Ptr → Ptr → Ptr
  unless_transient c cover = if d.is_transient_for c cover then 0 else cover

  pub obstructing_global : ℕ → Ptr → Store → Option Ptr
  obstructing_global fuel c s =
      let inside = container_has_ancestor fuel c s.fullscreen_all s in
      if s.fullscreen_all == 0 || c == s.fullscreen_all
      then some 0
      else (do below ← inside; some (if below then 0 else unless_transient c s.fullscreen_all))

  pub container_obstructing_fullscreen_container : ℕ → Ptr → Store → Option Ptr
  container_obstructing_fullscreen_container fuel c s =
      let w = s.tree.workspace c in
      let global = obstructing_global fuel c s in
      let inside = container_is_fullscreen_or_child fuel c s in
      if w == 0 || s.fullscreen w == 0
      then global
      else (do below ← inside; if below then global else some (unless_transient c (s.fullscreen w)))

  -- The setting of the focus is refused.
  pub is_denied : ℕ → Node → Store → Option Bool
  is_denied fuel (con c) s = do
    cover ← container_obstructing_fullscreen_container fuel c s
    some (not (cover == 0))
  is_denied fuel (ws w) s = some (not (s.fullscreen_all == 0) && not (w == 0))

  pub output_get_active_workspace : Ptr → Seat → Option Ptr
  output_get_active_workspace o s =
      let found = seat_get_active_tiling_child d (output_node o) s in
      if o == 0
      then none
      else (do focus ← found; some (active_or_first focus (d.workspaces o) s.store))

  -- The old focus loses the keyboard.
  pub leave_focus : Option Node → Seat → Seat
  leave_focus none s = s
  leave_focus (some n) s =
      let s1 = notice (send_unfocus n) s in
      set_dirty_parent d n (record s1 { store = node_set_dirty n s1.store })

  -- The parents of a container, from the inner to the outer ones, are put on the stack.
  pub focus_parents : ℕ → Ptr → Seat → Option Seat
  focus_parents zero p s = none
  focus_parents (suc fuel) p s =
      let s1 = seat_set_raw_focus d (con p) s in
      let above = focus_parents fuel (s1.store.tree.parent p) s1 in if p == 0 then some s else above

  pub focus_workspace : Ptr → Seat → Seat
  focus_workspace w s = if w == 0 then s else seat_set_raw_focus d (ws w) s

  -- The new focus and what is above it.
  pub put_focus : ℕ → Node → Seat → Option Seat
  put_focus fuel (ws w) s = some (focus_workspace w s)
  put_focus fuel (con c) s = do
    s1 ← focus_parents fuel (s.store.tree.parent c) s
    some (
        notice (send_focus (con c))
          (seat_set_raw_focus d (con c) (focus_workspace (s.store.tree.workspace c) s1)))

  pub container_is_sticky : Ptr → Store → Bool
  container_is_sticky c s = d.is_sticky c && container_is_floating c s

  -- The rounds of the loop over the floating containers of the output's old workspace, from the
  -- index `i`.
  pub move_sticky : ℕ → ℕ → ℕ → Ptr → Ptr → Store → Option Store
  move_sticky zero depth i old new s = none
  move_sticky (suc rounds) depth i old new s =
      let xs = s.tree.floating old in
      let c = at_index xs i in
      let next = move_sticky rounds depth (i + 1) old new s in
      let moved_on = (do
        s1 ← container_detach depth c s
        s2 ← workspace_add_floating depth new c s1
        move_sticky rounds depth i old new s2) in
      if length xs - i == 0 then some s else if container_is_sticky c s then moved_on else next

  pub bring_sticky : ℕ → Ptr → Ptr → Store → Option Store
  bring_sticky depth old new s =
      let moved_all = move_sticky (length (s.tree.floating old) + 1) depth 0 old new s in
      if new == 0 || old == 0 || new == old then some s else moved_all

  pub active_on : Ptr → Seat → Option Ptr
  active_on o s = let found = output_get_active_workspace o s in if o == 0 then some 0 else found

  -- A view that gets the focus is not urgent any more, now or after a while.
  pub calm : Node → Ptr → Ptr → Seat → Seat
  calm (ws v) last w s = s
  calm (con c) last w s =
      let later = not (last == 0) && not (last == w) && ltb 0 d.urgent_timeout in
      let news = if later then start_urgent_timer c else unset_urgent c in
      if is_view c s.store && d.is_urgent c && not (d.has_urgent_timer c) then notice news s else s

  -- The end, which is about gaps and the options of the layout.
  pub settle : Ptr → Ptr → Option Node → Node → Seat → Seat
  settle w last_workspace last n s =
      let s1 = if d.smart_gaps && not (w == 0) then notice (arrange_gaps w) s else s in
      let reset = d.align_reset_auto && not (last_workspace == 0) && last_workspace == w in
      let s2 = if reset then notice (reset_reorder last_workspace) s1 else s1 in
      notice (size_change_focus last n) s2

  -- The part of `seat_set_workspace_focus` after the checks.
  pub move_focus : ℕ → Option Node → Node → Seat → Option Seat
  move_focus fuel last n s = do
    last_workspace ← seat_get_focused_workspace d fuel s
    let w = workspace_of n s.store
    let o = if w == 0 then 0 else d.output w
    let s1 =
        if not (last_workspace == w) && not (o == 0)
        then notice (dirty_node (output_node o)) s
        else s
    here ← active_on o s1
    s2 ← put_focus fuel n (leave_focus last s1)
    let s3 = announce n (seat_set_workspace w s2)
    st ← bring_sticky fuel here w s3.store
    let s4 = close_popups_of last (record s3 { store = st })
    let s5 = consider_old here last_workspace (calm n last_workspace w s4)
    some (record (settle w last_workspace last n s5) { has_focus = true })

  pub seat_set_workspace_focus : ℕ → Option Node → Seat → Option Seat
  seat_set_workspace_focus fuel none s = do
    last ← seat_get_focus s
    elim last [ none ↦ some s | some l ↦ some (drop_focus l s) ]
  seat_set_workspace_focus fuel (some n) s = do
    last ← seat_get_focus s
    denied ← is_denied fuel n s.store
    let go = move_focus fuel last n s
    if same_focus last (some n) || denied then some s else go
