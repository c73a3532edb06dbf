-- ===== src/Focus/Change/Set.antt =====
-- `seat_set_workspace_focus` of a container.
use scrollfx.Prelude.{
  ℕ, zero, suc, ◌+◌, ◌-◌, ◌<◌, ◌≤◌, ◌≡◌, ◌≢◌, refl, sym, ap, ◌∙◌, subst, List, [], ◌∷◌, ◌++◌,
  Option, none, some, ◌>>=◌, Bool, ◌==◌, if◌then◌else◌, arith, Bool-cases, inl, inr, ne→==,
}
use scrollfx.Seq.{Ptr}
use scrollfx.Tree.{Tree}
use scrollfx.Tree.Forest.{IsForest}
use scrollfx.Tree.Walk.{ne_of_==}
use scrollfx.Containers.{Node, con, ws, eq_node, node_set_dirty}
use scrollfx.Focus.{
  output_node, Seat, Desk, Notice, notice, send_focus, send_unfocus, first_node, has_node, unlink,
  seat_node_from_node, tiling_child, seat_get_active_tiling_child, seat_set_raw_focus,
}
use scrollfx.Focus.Stack.{
  IsDistinct, IsFramed, Kept, Kept-trans, Kept-same, put_top, dirty_parent-IsFramed, raw_focus-Kept,
}
use scrollfx.Focus.Change.{
  active_or_first, output_get_active_workspace, leave_focus, focus_parents, focus_workspace,
  put_focus, active_on,
}

pub notice-Kept : (n : Notice) (s : Seat) → IsDistinct s.stack → Kept s (notice n s)
unfolding notice IsFramed
notice-Kept n s once = Kept-same s (notice n s) once refl refl

pub same-Kept : (s : Seat) → IsDistinct s.stack → Kept s s
unfolding IsFramed
same-Kept s once = Kept-same s s once refl refl

module _ (d : Desk) where
  pub leave_focus-Kept :
      (o : Option Node) (s : Seat) → IsDistinct s.stack → Kept s (leave_focus d o s)
  unfolding leave_focus notice node_set_dirty IsFramed
  leave_focus-Kept none s once = same-Kept s once
  leave_focus-Kept (some n) s once =
      let (framed, same) =
        dirty_parent-IsFramed d n
          (record (notice (send_unfocus n) s) { store = node_set_dirty n s.store }) in
      Kept-same s _ once framed same

  focus_workspace-Kept :
      (w : Ptr) (s : Seat)
      → w ≢ 0
      → IsDistinct s.stack
      → Kept s (focus_workspace d w s) × ((focus_workspace d w s).stack ≡ put_top (ws w) s.stack)
  unfolding focus_workspace
  focus_workspace-Kept w s nz once = rw (ne→== w 0 nz) (raw_focus-Kept d (ws w) s once)

  pub framed-tree : (s s' : Seat) → IsFramed s s' → s'.store.tree ≡ s.store.tree
  unfolding IsFramed
  framed-tree s s' h = ap (λ x. x.store.tree) h

  -- What is above a container in the loop over its parents.
  abbrev level : (Ptr → ℕ) → ℕ → Ptr → ℕ
  level rank high p = if p == 0 then 0 else suc (high - rank p)

  module _ (t : Tree) (rank : Ptr → ℕ) (forest : IsForest t rank) (high : ℕ)
      (bound : (q : Ptr) → rank q ≤ high) where
    level_lower : (p : Ptr) → p ≢ 0 → level rank high (t.parent p) < level rank high p
    level_lower p nz = elim (Bool-cases (t.parent p == 0)) [
      | inl top ↦ rw (top, ne→== p 0 nz) (omega arith)
      | inr inside ↦
          rw (inside, ne→== p 0 nz)
            (omega
              (arith, forest.linked.below p (ne_of_== (t.parent p) 0 inside), bound (t.parent p)))
    ]

    focus_parents-Kept :
        (fuel : ℕ) (p : Ptr) (s : Seat)
        → s.store.tree ≡ t
        → level rank high p < fuel
        → IsDistinct s.stack
        → (s' : Seat) × (focus_parents d fuel p s ≡ some s') × Kept s s'
    unfolding focus_parents
    focus_parents-Kept zero p s same h once = absurd (omega (arith, h))
    focus_parents-Kept (suc fuel) p s same h once = elim (Bool-cases (p == 0)) [
      | inl top ↦ (s, rw top refl, same-Kept s once)
      | inr more ↦
          let s1 = seat_set_raw_focus d (con p) s in
          let k = (raw_focus-Kept d (con p) s once).0 in
          let e = framed-tree s s1 k.framed ∙ same in
          let low =
            subst (λ q. level rank high q < level rank high p) (sym (ap (λ x. x.parent p) e))
              (level_lower p (ne_of_== p 0 more)) in
          let (s', run, k') =
            focus_parents-Kept fuel (s1.store.tree.parent p) s1 e (omega (arith, h, low))
              k.distinct in
          (s', rw more run, Kept-trans s s1 s' k k')
    ]

  -- What is below a workspace that has been put on top.
  abbrev rest_of : Ptr → List Node → List Node
  rest_of w ns = unlink (ws w) (seat_node_from_node (ws w) ns)

  -- The container on top, and its workspace below it.
  on_top :
      (c w : Ptr) (ns : List Node)
      → (after : List Node) × (put_top (con c) (put_top (ws w) ns) ≡ con c ∷ ws w ∷ after)
  unfolding seat_node_from_node unlink has_node eq_node
  on_top c w ns = elim (Bool-cases (has_node (con c) (put_top (ws w) ns))) [
    | inl there ↦ (unlink (con c) (rest_of w ns), rw there refl)
    | inr new ↦ (unlink (con c) (rest_of w ns ++ con c ∷ []), rw new refl)
  ]

  -- What `put_focus` of a container leaves.
  pub put_focus-Kept :
      (rank : Ptr → ℕ) (high : ℕ) (fuel c : Ptr) (s : Seat)
      → IsForest s.store.tree rank
      → ((q : Ptr) → rank q ≤ high)
      → high + 3 < fuel
      → s.store.tree.workspace c ≢ 0
      → IsDistinct s.stack
      → (s' : Seat) × (put_focus d fuel (con c) s ≡ some s')
        × Kept s s'
        × ((after : List Node) × (s'.stack ≡ con c ∷ ws (s.store.tree.workspace c) ∷ after))
  unfolding put_focus notice
  put_focus-Kept rank high fuel c s forest bound enough nz once =
      let w = s.store.tree.workspace c in
      let p = s.store.tree.parent c in
      let (s1, run, k1) =
        focus_parents-Kept s.store.tree rank forest high bound fuel p s refl (level_low p) once in
      let s2 = focus_workspace d w s1 in
      let (k2, e2) = focus_workspace-Kept w s1 nz k1.distinct in
      let s3 = seat_set_raw_focus d (con c) s2 in
      let (k3, e3) = raw_focus-Kept d (con c) s2 k2.distinct in
      let s4 = notice (send_focus (con c)) s3 in
      let (after, top) = on_top c w s1.stack in
      (
        s4,
        ap
            (λ o. o >>= λ x.
              some (
                notice (send_focus (con c)) (seat_set_raw_focus d (con c) (focus_workspace d w x))))
            run,
        Kept-trans s s1 s4 k1 (
            Kept-trans s1 s2 s4 k2
              (Kept-trans s2 s3 s4 k3 (notice-Kept (send_focus (con c)) s3 k3.distinct))),
        (after, e3 ∙ ap (put_top (con c)) e2 ∙ top),
      )
    where
      level_low : (p : Ptr) → level rank high p < fuel
      level_low p = elim (Bool-cases (p == 0)) [
        | inl top ↦ rw top (omega (arith, enough))
        | inr inside ↦ rw inside (omega (arith, enough))
      ]

  -- The active workspace of an output is found.
  first_returns :
      (test : Node → Option Bool)
      → ((n : Node) → (b : Bool) × (test n ≡ some b))
      → (ns : List Node) → (o : Option Node) × (first_node test ns ≡ some o)
  unfolding first_node
  first_returns test total [] = (none, refl)
  first_returns test total (n ∷ ns) =
      let (b, run) = total n in
      let (o, later) = first_returns test total ns in
      let go = ap (λ t. t >>= λ found. if found then some (some n) else first_node test ns) run in
      elim (Bool-cases b) [
        | inl hit ↦ (some n, go ∙ ap (λ x. if x then some (some n) else first_node test ns) hit)
        | inr miss ↦
            (o, go ∙ ap (λ x. if x then some (some n) else first_node test ns) miss ∙ later)
      ]

  pub active_returns : (o : Ptr) (s : Seat) → (w : Ptr) × (active_on d o s ≡ some w)
  unfolding active_on output_get_active_workspace seat_get_active_tiling_child tiling_child
  active_returns o s = elim (Bool-cases (o == 0)) [
    | inl null ↦ (0, rw null refl)
    | inr there ↦
        let (n, run) =
          first_returns (tiling_child d (output_node o) s.store) (λ m. (_, refl)) s.stack in
        (
          active_or_first n (d.workspaces o) s.store,
          rw there
              (ap (λ x. x >>= λ focus. some (active_or_first focus (d.workspaces o) s.store)) run),
        )
  ]
