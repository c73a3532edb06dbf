-- ===== src/Focus/Change/Focused.antt =====
-- What the seat is like after the focus has been set to a container.
use scrollfx.Prelude.{
  ℕ, zero, suc, ◌+◌, ◌-◌, ◌<◌, ◌≤◌, ◌≡◌, ◌≢◌, refl, sym, ap, ◌∙◌, subst, List, ◌∷◌, Option, none,
  some, Bool, true, false, not, ◌&&◌, ◌||◌, ◌==◌, if◌then◌else◌, arith, Bool-cases, inl, inr,
  ==_iff, length,
}
use scrollfx.Seq.{Ptr}
use scrollfx.Tree.Forest.{IsForest}
use scrollfx.Containers.{Node, con, ws, Store, container_is_floating}
use scrollfx.Containers.Destroy.{is_view}
use scrollfx.Containers.Dirty.{occurrences}
use scrollfx.Focus.{
  AnyNode, inner, output_node, root_node, Seat, Desk, Notice, notice, dirty_node, first_node,
  node_is_view, node_has_ancestor, window_focus, workspace_focus, arrange_gaps, reset_reorder,
  size_change_focus, close_popups, consider_destroy_workspace, top_of, seat_get_focus,
  seat_get_focus_inactive,
}
use scrollfx.Focus.Climb.{IsUnder}
use scrollfx.Focus.First.{below-Decides, focused_workspace_returns}
use scrollfx.Focus.Stack.{IsDistinct, IsFramed, Kept, Kept-trans}
use scrollfx.Focus.Change.{
  calm, settle, same_focus, container_of, is_denied, leave_focus, close_popups_of,
  seat_set_workspace, announce, container_is_sticky, at_index, move_sticky, bring_sticky,
  consider_old, move_focus, seat_set_workspace_focus,
}
use scrollfx.Focus.Change.Set.{
  leave_focus-Kept, put_focus-Kept, active_returns, framed-tree, notice-Kept, same-Kept,
}

-- The stack, the nodes and the workspace are left alone.
abbrev IsQuiet : Seat → Seat → Type 0
IsQuiet s s' = (s'.stack ≡ s.stack) × (s'.store ≡ s.store) × (s'.workspace ≡ s.workspace)

IsQuiet-trans : (a b c : Seat) → IsQuiet a b → IsQuiet b c → IsQuiet a c
IsQuiet-trans a b c (f, g, h) (f', g', h') = (f' ∙ f, g' ∙ g, h' ∙ h)

if-IsQuiet : (b : Bool) (n : Notice) (s : Seat) → IsQuiet s (if b then notice n s else s)
unfolding notice
if-IsQuiet true n s = (refl, refl, refl)
if-IsQuiet false n s = (refl, refl, refl)

unless-IsQuiet : (b : Bool) (n : Notice) (s : Seat) → IsQuiet s (if b then s else notice n s)
unfolding notice
unless-IsQuiet true n s = (refl, refl, refl)
unless-IsQuiet false n s = (refl, refl, refl)

announce-IsQuiet : (n : Node) (s : Seat) → IsQuiet s (announce n s)
unfolding announce
announce-IsQuiet (ws w) s = (refl, refl, refl)
announce-IsQuiet (con c) s = if-IsQuiet (is_view c s.store) (window_focus c) s

close_popups-IsQuiet : (o : Option Node) (s : Seat) → IsQuiet s (close_popups_of o s)
unfolding close_popups_of
close_popups-IsQuiet none s = (refl, refl, refl)
close_popups-IsQuiet (some n) s =
    if-IsQuiet (node_is_view n s.store) (close_popups (container_of n)) s

consider_old-IsQuiet : (here last : Ptr) (s : Seat) → IsQuiet s (consider_old here last s)
unfolding consider_old
consider_old-IsQuiet here last s =
    let s1 = if here == 0 then s else notice (consider_destroy_workspace here) s in
    let s2 =
      if last == 0 || last == here then s1 else notice (consider_destroy_workspace last) s1 in
    IsQuiet-trans s s1 s2 (unless-IsQuiet (here == 0) (consider_destroy_workspace here) s)
      (unless-IsQuiet (last == 0 || last == here) (consider_destroy_workspace last) s1)

set_workspace-sets :
    (w : Ptr) (s : Seat)
    → ((seat_set_workspace w s).stack ≡ s.stack)
      × ((seat_set_workspace w s).store ≡ s.store)
      × ((seat_set_workspace w s).workspace ≡ w)
unfolding seat_set_workspace notice
set_workspace-sets w s = elim (Bool-cases (s.workspace == w)) [
  | inl same ↦ (
    ap (λ b. (chosen b).stack) same,
    ap (λ b. (chosen b).store) same,
    ap (λ b. (chosen b).workspace) same ∙ (==_iff s.workspace w).0 same,
  )
  | inr other ↦ (
    ap (λ b. (chosen b).stack) other,
    ap (λ b. (chosen b).store) other,
    ap (λ b. (chosen b).workspace) other,
  )
]
  where
    chosen : Bool → Seat
    chosen b =
        if b
        then s
        else notice (workspace_focus s.workspace w) (record s {
          previous = if s.workspace == 0 then s.previous else s.workspace;
          workspace = w;
        })

module _ (d : Desk) where
  calm-IsQuiet : (n : Node) (last w : Ptr) (s : Seat) → IsQuiet s (calm d n last w s)
  unfolding calm
  calm-IsQuiet (ws v) last w s = (refl, refl, refl)
  calm-IsQuiet (con c) last w s =
      if-IsQuiet (is_view c s.store && d.is_urgent c && not (d.has_urgent_timer c)) _ s

  settle-IsQuiet :
      (w lw : Ptr) (last : Option Node) (n : Node) (s : Seat) → IsQuiet s (settle d w lw last n s)
  unfolding settle
  settle-IsQuiet w lw last n s =
      let s1 = if d.smart_gaps && not (w == 0) then notice (arrange_gaps w) s else s in
      let reset = d.align_reset_auto && not (lw == 0) && lw == w in
      let s2 = if reset then notice (reset_reorder lw) s1 else s1 in
      let s3 = notice (size_change_focus last n) s2 in
      IsQuiet-trans s s1 s3 (if-IsQuiet (d.smart_gaps && not (w == 0)) (arrange_gaps w) s) (
        IsQuiet-trans s1 s2 s3 (if-IsQuiet reset (reset_reorder lw) s1)
          (if-IsQuiet true (size_change_focus last n) s2))

  -- Without sticky containers, the loop over the floating ones moves nothing.
  move_sticky-none :
      (rounds depth i : ℕ) (old new : Ptr) (s : Store)
      → ((q : Ptr) → container_is_sticky d q s ≡ false)
      → length (s.tree.floating old) - i < rounds
      → move_sticky d rounds depth i old new s ≡ some s
  unfolding move_sticky
  move_sticky-none zero depth i old new s unsticky h = absurd (omega (arith, h))
  move_sticky-none (suc rounds) depth i old new s unsticky h =
      elim (Bool-cases (length (s.tree.floating old) - i == 0)) [
        | inl done ↦ rw done refl
        | inr more ↦
            rw (more, unsticky (at_index (s.tree.floating old) i))
              (move_sticky-none rounds depth (i + 1) old new s unsticky (ground (arith, h, more)))
      ]

  bring_sticky-none :
      (depth : ℕ) (old new : Ptr) (s : Store)
      → ((q : Ptr) → container_is_sticky d q s ≡ false)
      → bring_sticky d depth old new s ≡ some s
  unfolding bring_sticky
  bring_sticky-none depth old new s unsticky =
      elim (Bool-cases (new == 0 || old == 0 || new == old)) [
        | inl skip ↦ rw skip refl
        | inr go ↦ rw go (
            move_sticky-none (length (s.tree.floating old) + 1) depth 0 old new s unsticky
              (omega arith))
      ]

  sticky-framed :
      (s s' : Seat) (q : Ptr)
      → IsFramed s s'
      → container_is_sticky d q s'.store ≡ container_is_sticky d q s.store
  unfolding IsFramed container_is_sticky container_is_floating
  sticky-framed s s' q h = ap (λ x. container_is_sticky d q x.store) h

  -- What the setting of the focus to a container leaves.
  pub record Focused (c : Ptr) (s s' : Seat) : Type 0 where
    pub focus : seat_get_focus s' ≡ some (some (con c))
    pub workspace : s'.workspace ≡ s.store.tree.workspace c
    pub top : (after : List Node) × (s'.stack ≡ con c ∷ ws (s.store.tree.workspace c) ∷ after)
    pub distinct : IsDistinct s'.stack
    pub stays : (q : Ptr) → occurrences (con q) s.stack ≤ occurrences (con q) s'.stack
    pub same_tree : s'.store.tree ≡ s.store.tree

  module _ (rank : Ptr → ℕ) (high fuel : ℕ) (bound : (q : Ptr) → rank q ≤ high)
      (enough : high + 3 < fuel) where
    move_focus-Focused :
        (last : Option Node) (c : Ptr) (s : Seat)
        → IsForest s.store.tree rank
        → s.store.tree.workspace c ≢ 0
        → IsDistinct s.stack
        → ((q : Ptr) → container_is_sticky d q s.store ≡ false)
        → (s' : Seat) × (move_focus d fuel last (con c) s ≡ some s') × Focused c s s'
    unfolding move_focus seat_get_focus
    move_focus-Focused last c s forest nz once unsticky =
        let w = s.store.tree.workspace c in
        let o = if w == 0 then 0 else d.output w in
        let (lw, r1) = focused_workspace_returns d s rank forest high bound fuel enough in
        let s1 =
          if not (lw == w) && not (o == 0) then notice (dirty_node (output_node o)) s else s in
        let (here, r2) = active_returns d o s1 in
        let k1 = notice_if (not (lw == w) && not (o == 0)) (dirty_node (output_node o)) s once in
        let s1' = leave_focus d last s1 in
        let k2 = Kept-trans s s1 s1' k1 (leave_focus-Kept d last s1 k1.distinct) in
        let tree = framed-tree d s s1' k2.framed in
        let (s2, r3, k3, top) =
          put_focus-Kept d rank high fuel c s1' (subst (λ t. IsForest t rank) (sym tree) forest)
            bound enough (λ z. nz (sym (ap (λ t. t.workspace c) tree) ∙ z)) k2.distinct in
        let k = Kept-trans s s1' s2 k2 k3 in
        let s3 = announce (con c) (seat_set_workspace w s2) in
        let (e1, e2, e3) = set_workspace-sets w s2 in
        let (f1, f2, f3) = announce-IsQuiet (con c) (seat_set_workspace w s2) in
        let unsticky3 = λ (q : Ptr).
          ap (container_is_sticky d q) (f2 ∙ e2) ∙ sticky-framed s s2 q k.framed ∙ unsticky q in
        let r4 = bring_sticky-none fuel here w s3.store unsticky3 in
        let s4 = close_popups_of last s3 in
        let (g1, g2, g3) = close_popups-IsQuiet last s3 in
        let s5 = calm d (con c) lw w s4 in
        let s6 = consider_old here lw s5 in
        let s7 = settle d w lw last (con c) s6 in
        let (h1, h2, h3) = IsQuiet-trans s4 s5 s7 (calm-IsQuiet (con c) lw w s4) (
          IsQuiet-trans s5 s6 s7 (consider_old-IsQuiet here lw s5)
            (settle-IsQuiet w lw last (con c) s6)) in
        let stack = h1 ∙ g1 ∙ f1 ∙ e1 in
        (
          record s7 { has_focus = true },
          rw (r1, r2, r3, r4) refl,
          record {
            focus = ap top_of (stack ∙ top.1);
            workspace = h3 ∙ g3 ∙ f3 ∙ e3;
            top = (top.0, stack ∙ top.1 ∙ ap (λ t. con c ∷ ws (t.workspace c) ∷ top.0) tree);
            distinct = λ m. subst (λ l. occurrences m l ≤ 1) (sym stack) (k.distinct m);
            stays = λ q.
                subst (λ l. occurrences (con q) s.stack ≤ occurrences (con q) l) (sym stack)
                  (k.stays (con q));
            same_tree = ap (λ x. x.tree) (h2 ∙ g2 ∙ f2 ∙ e2) ∙ framed-tree d s s2 k.framed;
          },
        )
      where
        notice_if :
            (b : Bool) (n : Notice) (t : Seat)
            → IsDistinct t.stack
            → Kept t (if b then notice n t else t)
        notice_if true n t u = notice-Kept n t u
        notice_if false n t u = same-Kept t u

    -- The top of the stack is the inactive focus of everything above it.
    top_inactive :
        (a : AnyNode) (c : Ptr) (s : Seat) (after : List Node)
        → IsForest s.store.tree rank
        → s.stack ≡ con c ∷ after
        → ((n : Node) → a ≡ inner n → node_is_view n s.store ≡ false)
        → IsUnder d s.store a (inner (con c))
        → seat_get_focus_inactive d fuel a s ≡ some (some (con c))
    unfolding seat_get_focus_inactive first_node
    top_inactive a c s after forest top not_view under = by_kind a not_view found
      where
        found :
            first_node (λ m. node_has_ancestor d fuel (inner m) a s.store) s.stack
            ≡ some (some (con c))
        found =
            ap (first_node (λ m. node_has_ancestor d fuel (inner m) a s.store)) top
            ∙ elim (below-Decides d s.store rank forest high bound fuel enough a (con c)) [
              | inl (run, u) ↦ rw run refl
              | inr (run, not_under) ↦ absurd (not_under under)
            ]

        by_kind :
            (b : AnyNode)
            → ((n : Node) → b ≡ inner n → node_is_view n s.store ≡ false)
            → first_node (λ m. node_has_ancestor d fuel (inner m) b s.store) s.stack
              ≡ some (some (con c))
            → seat_get_focus_inactive d fuel b s ≡ some (some (con c))
        by_kind (inner n) v run = rw (v n refl, run) refl
        by_kind (output_node o) v run = run
        by_kind root_node v run = run

    -- In a forest whose heights are at most `high`, with more than three rounds of fuel more than
    -- that, `seat_set_workspace_focus` of a container that stands on a workspace, is not the focus
    -- and is not refused returns. Then the container has the focus, its workspace is the seat's and
    -- follows it in the stack, no node is in the stack twice, and no container is lost from it. The
    -- inactive focus of every node above the container that is not a view is the container. The
    -- conditions: no node was in the stack twice, and no container is sticky. That
    -- `workspace_consider_destroy` takes an empty old workspace away is not a part of the call
    -- here.
    pub set_focus-Focused :
        (last : Option Node) (c : Ptr) (s : Seat)
        → IsForest s.store.tree rank
        → s.store.tree.workspace c ≢ 0
        → IsDistinct s.stack
        → seat_get_focus s ≡ some last
        → same_focus last (some (con c)) ≡ false
        → is_denied d fuel (con c) s.store ≡ some false
        → ((q : Ptr) → container_is_sticky d q s.store ≡ false)
        → (s' : Seat) × (seat_set_workspace_focus d fuel (some (con c)) s ≡ some s')
          × Focused c s s'
          × ((a : AnyNode)
              → ((n : Node) → a ≡ inner n → node_is_view n s'.store ≡ false)
              → IsUnder d s'.store a (inner (con c))
              → seat_get_focus_inactive d fuel a s' ≡ some (some (con c)))
    unfolding seat_set_workspace_focus
    set_focus-Focused last c s forest nz once focus other allowed unsticky =
        let (s', run, f) = move_focus-Focused last c s forest nz once unsticky in
        (
          s',
          rw (focus, allowed, other) run,
          f,
          λ a not_view under.
              top_inactive a c s' _ (subst (λ t. IsForest t rank) (sym f.same_tree) forest) f.top.1
                not_view under,
        )
