-- ===== src/Containers/Destroy.antt =====
-- The destruction of containers: `container_begin_destroy` and `container_reap_empty` of
-- sway/tree/container.c, and `root_scratchpad_remove_container` of sway/tree/root.c. A container
-- without a list of children is one with a view.
pub mod Reap
use scrollfx.Prelude.{
  ℕ, zero, suc, List, [], ◌∷◌, Option, none, some, Bool, true, false, not, ◌&&◌, ◌||◌, ◌==◌,
  if◌then◌else◌, ◌>>=◌, is_neg,
}
use scrollfx.Seq.{Ptr, find, delete}
use scrollfx.Tree.{update}
use scrollfx.Containers.{
  FullscreenMode, fullscreen_none, fullscreen_workspace, fullscreen_global, Node, con, Store, tell,
  window_event, end_mouse, destroyed, consider_destroy, eq_node, node_set_dirty, is_workspace,
  container_fullscreen_disable, container_detach,
}

abbrev pub is_global : FullscreenMode → Bool
is_global fullscreen_global = true
is_global _ = false

abbrev pub lacks_list : Option (List Ptr) → Bool
lacks_list none = true
lacks_list (some xs) = false

unfoldable pub is_view : Ptr → Store → Bool
is_view c s = lacks_list (s.tree.children c)

-- The part of it after the flag is cleared.
pub leave_scratchpad : Ptr → Store → Option Store
leave_scratchpad c s = do
  xs ← delete s.scratchpad_list (find s.scratchpad_list c)
  some (tell (window_event c) (record s { scratchpad_list = xs }))

-- The assertion that the container is in the scratchpad returns when it is not.
pub root_scratchpad_remove_container : Ptr → Store → Option Store
root_scratchpad_remove_container c s =
    let s1 = record s { scratchpad = update s.scratchpad c false } in
    if not (s.scratchpad c)
    then some s
    else if is_neg (find s.scratchpad_list c)
    then some s1
    else leave_scratchpad c s1

-- `container_begin_destroy` up to the destroy signal.
pub begin_events : Ptr → Store → Store
begin_events c s =
    let s1 = if is_view c s then tell (window_event c) s else s in
    let w = s1.tree.workspace c in
    let s2 =
      if is_workspace (s1.mode c) && not (w == 0)
      then record s1 { fullscreen = update s1.fullscreen w 0 }
      else s1 in
    if s2.scratchpad c && is_global (s2.mode c) then container_fullscreen_disable c s2 else s2

-- The node is dirty for the last time.
pub set_destroying : Ptr → Store → Store
set_destroying c s =
    let s1 = node_set_dirty (con c) s in
    record s1 { destroying = λ n. if eq_node (con c) n then true else s1.destroying n }

-- After the destroy signal: the fullscreen mode ends, and the container is detached.
pub end_destroy : ℕ → Ptr → Store → Option Store
end_destroy fuel c s =
    let s1 = if is_global (s.mode c) then container_fullscreen_disable c s else s in
    if (s1.tree.parent c == 0) && (s1.tree.workspace c == 0)
    then some s1
    else container_detach fuel c s1

pub container_begin_destroy : ℕ → Ptr → Store → Option Store
container_begin_destroy fuel c s = do
  let s1 = set_destroying c (tell (end_mouse c) (tell (destroyed c) (begin_events c s)))
  s2 ← (if s1.scratchpad c then root_scratchpad_remove_container c s1 else some s1)
  end_destroy fuel c s2

-- The loop of `container_reap_empty`: the containers without children are destroyed, upwards.
pub reap : ℕ → ℕ → Ptr → Ptr → Store → Option Store
reap zero fuel w c s = none
reap (suc n) fuel w c s =
    let up = (do s1 ← container_begin_destroy fuel c s; reap n fuel w (s.tree.parent c) s1) in
    let here : Option Store = elim (s.tree.children c) [
      | none ↦ none
      | some [] ↦ up
      | some (x ∷ xs) ↦ some s
    ] in
    if c == 0 then some (if w == 0 then s else tell (consider_destroy w) s) else here

pub container_reap_empty : ℕ → Ptr → Store → Option Store
container_reap_empty fuel c s =
    let w = s.tree.workspace c in if is_view c s then some s else reap fuel fuel w c s
