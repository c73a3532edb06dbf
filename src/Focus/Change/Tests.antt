-- ===== src/Focus/Change/Tests.antt =====
-- The focus on a small tree: tests, and the theorems at concrete inputs.
use scrollfx.Prelude.{
  ◌≤◌, ◌≡◌, ◌≢◌, refl, [], ◌∷◌, Option, some, true, false, ◌==◌, ◌||◌, if◌then◌else◌, arith, subst,
  sym,
}
use mathlib.Core.Bool.{true≢false}
use scrollfx.Seq.{Ptr}
use scrollfx.Tree.Sample.{small, height, small_tree-IsForest}
use scrollfx.Containers.{Node, con, ws, eq_node}
use scrollfx.Focus.{
  AnyNode, inner, root_node, is_root, Seat, Desk, node_is_view, node_has_ancestor, seat_get_focus,
  seat_get_focus_inactive, seat_get_focus_inactive_view, seat_set_raw_focus,
}
use scrollfx.Focus.Climb.{IsUnder, Decides, has_ancestor-Decides}
use scrollfx.Focus.First.{IsFirst, IsViewUnder, inactive_view-IsFirst}
use scrollfx.Focus.Stack.{IsDistinct, Kept, put_top, raw_focus-Kept}
use scrollfx.Focus.Change.{
  same_focus, is_denied, container_obstructing_fullscreen_container, obstructing_global,
  container_is_sticky, seat_set_workspace_focus,
}
use scrollfx.Focus.Change.Focused.{Focused, set_focus-Focused}

abbrev desk : Desk
desk = record {
  output = λ w. if w == 100 || w == 200 then 900 else 0;
  workspaces = λ o. if o == 900 then 100 ∷ 200 ∷ [] else [];
  is_sticky = λ c. false;
  is_transient_for = λ c e. false;
  is_urgent = λ c. c == 3;
  has_urgent_timer = λ c. false;
  urgent_timeout = 1000;
  smart_gaps = true;
  align_reset_auto = false;
}

-- Container 1 has the focus.
abbrev sitting : Seat
sitting = record {
  stack = con 1 ∷ ws 100 ∷ con 4 ∷ ws 200 ∷ [];
  has_focus = true;
  workspace = 100;
  previous = 0;
  has_exclusive_layer = false;
  store = small;
  notices = [];
}

low : (q : Ptr) → height q ≤ 1
low q = ground arith

sitting-IsDistinct : IsDistinct sitting.stack
unfolding eq_node
sitting-IsDistinct (con q) = ground arith
sitting-IsDistinct (ws q) = ground arith

sitting_focus : seat_get_focus sitting ≡ some (some (con 1))
unfolding seat_get_focus
sitting_focus = refl

other : same_focus (some (con 1)) (some (con 3)) ≡ false
unfolding eq_node
other = refl

allowed : is_denied desk 5 (con 3) small ≡ some false
unfolding is_denied container_obstructing_fullscreen_container obstructing_global
allowed = refl

unsticky : (q : Ptr) → container_is_sticky desk q small ≡ false
unfolding container_is_sticky
unsticky q = refl

nonzero : small.tree.workspace 3 ≢ 0
nonzero z = omega (arith, z)

set_focus-Focused_example :
    (s' : Seat) × (seat_set_workspace_focus desk 5 (some (con 3)) sitting ≡ some s')
    × Focused desk 3 sitting s'
    × ((a : AnyNode)
        → ((n : Node) → a ≡ inner n → node_is_view n s'.store ≡ false)
        → IsUnder desk s'.store a (inner (con 3))
        → seat_get_focus_inactive desk 5 a s' ≡ some (some (con 3)))
set_focus-Focused_example =
    set_focus-Focused desk height 1 5 low (omega arith) (some (con 1)) 3 sitting small_tree-IsForest
      nonzero sitting-IsDistinct sitting_focus other allowed unsticky

has_ancestor-Decides_example :
    Decides desk small
      (IsUnder desk small root_node (inner (con 3)))
      (node_has_ancestor desk 5 (inner (con 3)) root_node small)
has_ancestor-Decides_example =
    has_ancestor-Decides desk small height small_tree-IsForest 1 low 5 (inner (con 3)) root_node
      (omega arith)

root_no_view : (n : Node) → root_node ≡ inner n → node_is_view n small ≡ false
root_no_view n h = absurd (true≢false (sym (subst (λ (a : AnyNode). is_root a ≡ true) h refl)))

inactive_view-IsFirst_example :
    (o : Option Node) × (seat_get_focus_inactive_view desk 5 root_node sitting ≡ some o)
    × IsFirst
        (IsViewUnder desk small height small_tree-IsForest 1 low 5 (omega arith) root_node)
        sitting.stack
        o
inactive_view-IsFirst_example =
    inactive_view-IsFirst desk sitting height small_tree-IsForest 1 low 5 (omega arith) root_node
      root_no_view

raw_focus-Kept_example :
    Kept sitting (seat_set_raw_focus desk (con 3) sitting)
    × ((seat_set_raw_focus desk (con 3) sitting).stack ≡ put_top (con 3) sitting.stack)
raw_focus-Kept_example = raw_focus-Kept desk (con 3) sitting sitting-IsDistinct
