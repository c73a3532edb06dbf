-- ===== src/Containers/Unchanged.antt =====
-- What the operations around the tree leave as it is.
use scrollfx.Prelude.{◌≡◌, ◌≢◌, refl, ◌∙◌, some, Bool, true, false, ◌==◌, if◌then◌else◌, ne→==}
use scrollfx.Seq.{Ptr}
use scrollfx.Tree.{Tree, update}
use scrollfx.Containers.{
  FullscreenMode, fullscreen_none, fullscreen_workspace, fullscreen_global, Node, Event, Store,
  tell, node_set_dirty, clear_fullscreen, end_fullscreen, window_event, end_mouse,
  container_fullscreen_disable, container_handle_fullscreen_reparent, leave_fullscreen, left_behind,
  is_none,
}

pub dirty-tree : (n : Node) (s : Store) → (node_set_dirty n s).tree ≡ s.tree
unfolding node_set_dirty
dirty-tree n s = refl

pub tell-tree : (e : Event) (s : Store) → (tell e s).tree ≡ s.tree
unfolding tell
tell-tree e s = refl

pub clear_fullscreen-tree :
    (m : FullscreenMode) (c : Ptr) (s : Store) → (clear_fullscreen m c s).tree ≡ s.tree
unfolding clear_fullscreen
clear_fullscreen-tree fullscreen_none c s = refl
clear_fullscreen-tree fullscreen_workspace c s = refl
clear_fullscreen-tree fullscreen_global c s = refl

pub end-tree : (c : Ptr) (s : Store) → (end_fullscreen c s).tree ≡ s.tree
unfolding end_fullscreen
end-tree c s = clear_fullscreen-tree (s.mode c) c s

pub if_tree :
    (b : Bool) (s s' : Store) (t : Tree) → s.tree ≡ t → s'.tree ≡ t → (if b then s else s').tree ≡ t
if_tree true s s' t h h' = h
if_tree false s s' t h h' = h'

pub disable-tree : (c : Ptr) (s : Store) → (container_fullscreen_disable c s).tree ≡ s.tree
unfolding container_fullscreen_disable
disable-tree c s =
    if_tree (is_none (s.mode c)) s _ s.tree refl
      (if_tree (s.scratchpad c) _ _ s.tree (tell-tree _ _ ∙ told) told)
  where
    told : (tell (window_event c) (tell (end_mouse c) (end_fullscreen c s))).tree ≡ s.tree
    told = tell-tree _ _ ∙ tell-tree _ _ ∙ end-tree c s

pub reparent-tree : (c : Ptr) (s : Store) → (container_handle_fullscreen_reparent c s).tree ≡ s.tree
unfolding container_handle_fullscreen_reparent
reparent-tree c s = if_tree _ s _ s.tree refl (
    tell-tree _ _
    ∙ if_tree (s.fullscreen (s.tree.workspace c) == 0) s _ s.tree refl (disable-tree _ s))

pub left_behind-tree : (p w : Ptr) (s : Store) → (left_behind p w s).tree ≡ s.tree
unfolding left_behind
left_behind-tree p w s =
    if_tree (p == 0) _ _ s.tree (if_tree (w == 0) s _ s.tree refl (dirty-tree _ _ ∙ tell-tree _ _))
      (dirty-tree _ _ ∙ tell-tree _ _)

pub leave_fullscreen-tree :
    (m : FullscreenMode) (c : Ptr) (s : Store)
    → (m ≡ fullscreen_workspace → s.tree.workspace c ≢ 0)
    → (s' : Store) × (leave_fullscreen m c s ≡ some s') × (s'.tree ≡ s.tree)
unfolding leave_fullscreen
leave_fullscreen-tree fullscreen_none c s h = (s, refl, refl)
leave_fullscreen-tree fullscreen_workspace c s h = (
  record s { fullscreen = update s.fullscreen (s.tree.workspace c) 0 },
  rw (ne→== (s.tree.workspace c) 0 (h refl)) refl,
  refl,
)
leave_fullscreen-tree fullscreen_global c s h = (record s { fullscreen_all = 0 }, refl, refl)
