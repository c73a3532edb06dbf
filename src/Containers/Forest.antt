-- ===== src/Containers/Forest.antt =====
-- The operations of Containers and the invariant of the tree.
use scrollfx.Prelude.{
  ℕ, ◌+◌, ◌<◌, ◌≤◌, ◌≡◌, ◌≢◌, refl, sym, ap, ◌∙◌, subst, List, [], ◌∷◌, ◌++◌, some, ◌==◌, arith,
  Bool-cases, inl, inr, ==_iff, pos, ℤ, length,
}
use scrollfx.Seq.{Ptr, insert}
use scrollfx.Tree.{Tree, detach, link_child, link_tiling}
use scrollfx.Tree.Count.{one, count, count-append, insert-count}
use scrollfx.Tree.Walk.{ne_of_==}
use scrollfx.Tree.Forest.{IsForest}
use scrollfx.Tree.Detach.{detach-IsForest}
use scrollfx.Tree.Link.{link_child-IsForest, link_tiling-IsForest, link_floating-IsForest}
use scrollfx.Containers.{
  fullscreen_workspace, con, ws, represent, Store, tell, node_set_dirty,
  container_handle_fullscreen_reparent, left_behind, container_detach, detach_first,
  container_add_child, container_insert_child, workspace_add_floating,
  workspace_insert_tiling_direct,
}
use scrollfx.Containers.Unchanged.{
  dirty-tree, tell-tree, reparent-tree, left_behind-tree, leave_fullscreen-tree,
}

-- What is left of a container that has been detached: it stands nowhere, and all others stand where
-- they stood.
pub record Detached (c : Ptr) (rank : Ptr → ℕ) (t t' : Tree) : Type 0 where
  pub forest : IsForest t' rank
  pub no_parent : t'.parent c ≡ 0
  pub no_workspace : t'.workspace c ≡ 0
  pub others : (q : Ptr) → c ≢ q → t'.parent q ≡ t.parent q
  pub higher : (q : Ptr) → rank c < rank q → t'.workspace q ≡ t.workspace q
  pub tops : (q : Ptr) → c ≢ q → t.parent q ≡ 0 → t'.workspace q ≡ t.workspace q
  pub kept_lists : (p : Ptr) → t.parent c ≢ p → t'.children p ≡ t.children p
  pub still_lists :
      (p : Ptr) (xs : List Ptr)
      → t.children p ≡ some xs
      → (ys : List Ptr) × (t'.children p ≡ some ys)

-- A container that has come to a place below `up`, or at the top when that is null.
pub record Joined (c up : Ptr) (rank : Ptr → ℕ) (t t' : Tree) : Type 0 where
  pub forest : IsForest t' rank
  pub parent_is : t'.parent c ≡ up
  pub others : (q : Ptr) → c ≢ q → t'.parent q ≡ t.parent q

-- What `workspace_insert_tiling_direct` does to the tree.
pub insert_tiling-tree :
    (fuel : ℕ) (w c : Ptr) (i : ℤ) (s : Store) (ys : List Ptr) (t' : Tree)
    → insert (s.tree.tiling w) i c ≡ some ys
    → link_tiling fuel w c ys s.tree ≡ some t'
    → (s' : Store) × (workspace_insert_tiling_direct fuel w c i s ≡ some s') × (s'.tree ≡ t')
unfolding workspace_insert_tiling_direct
insert_tiling-tree fuel w c i s ys t' put run =
    let s2 = record s { tree = t' } in
    let s3 = tell (represent (ws w)) (container_handle_fullscreen_reparent c s2) in
    (
      node_set_dirty (con c) (node_set_dirty (ws w) s3),
      rw (put, run) refl,
      dirty-tree (con c) (node_set_dirty (ws w) s3)
          ∙ dirty-tree (ws w) s3
          ∙ tell-tree _ _
          ∙ reparent-tree c s2,
    )

module _ (rank : Ptr → ℕ) (fuel : ℕ) (c : Ptr) (nz : c ≢ 0) (enough : rank c < fuel) (s : Store)
    (forest : IsForest s.tree rank) where
  -- `container_detach` of a container of a forest, whose height is below the fuel, returns and
  -- leaves a forest in which the container has no parent and no workspace, and all others have the
  -- parents that they had. The condition is that a container that is fullscreen on its workspace
  -- has one.
  pub detach-Detached :
      (s.mode c ≡ fullscreen_workspace → s.tree.workspace c ≢ 0)
      → (s' : Store) × (container_detach fuel c s ≡ some s') × Detached c rank s.tree s'.tree
  unfolding container_detach
  detach-Detached full =
      let (s1, left, same) = leave_fullscreen-tree (s.mode c) c s full in
      let (t', run, forest', np, nw, others, kept, still, above, tops) =
        detach-IsForest fuel c s.tree rank forest nz enough in
      let run' = ap (detach fuel c) same ∙ run in
      let s2 = left_behind (s.tree.parent c) (s.tree.workspace c) (record s1 { tree = t' }) in
      (
        node_set_dirty (con c) s2,
        rw (left, run') refl,
        subst (Detached c rank s.tree)
            (sym (
              dirty-tree (con c) s2
              ∙ left_behind-tree (s.tree.parent c) (s.tree.workspace c) (record s1 { tree = t' })))
            (record {
              forest = forest';
              no_parent = np;
              no_workspace = nw;
              others = others;
              higher = above;
              tops = tops;
              kept_lists = kept;
              still_lists = still;
            }),
      )

  -- What `detach_first` does with a container that stands somewhere or nowhere.
  module _ (inside : s.tree.workspace c ≡ 0 → s.tree.parent c ≡ 0) where
    pub first-Detached :
        (s' : Store) × (detach_first fuel c s ≡ some s') × Detached c rank s.tree s'.tree
    unfolding detach_first
    first-Detached = elim (Bool-cases (s.tree.workspace c == 0)) [
      | inl off ↦
          let e = (==_iff (s.tree.workspace c) 0).0 off in
          (
            s,
            rw off refl,
            record {
              forest = forest;
              no_parent = inside e;
              no_workspace = e;
              others = λ q n. refl;
              higher = λ q lower. refl;
              tops = λ q n top. refl;
              kept_lists = λ p n. refl;
              still_lists = λ p xs h. (xs, h);
            },
          )
      | inr on ↦
          let (s', run, d) = detach-Detached (λ _. ne_of_== (s.tree.workspace c) 0 on) in
          (s', rw on run, d)
    ]

    -- Linking it below `parent`, after it was detached, in the list `ys`.
    Joined-child :
        (parent : Ptr) (s1 : Store) (xs ys : List Ptr)
        → parent ≢ 0
        → rank c < rank parent
        → Detached c rank s.tree s1.tree
        → s1.tree.children parent ≡ some xs
        → ((q : Ptr) → count q ys ≡ count q xs + one (c == q))
        → (t' : Tree) × (link_child fuel parent c ys s1.tree ≡ some t')
          × Joined c parent rank s.tree t'
    Joined-child parent s1 xs ys pz lower d list counts =
        let (t', run, forest', up, over, others) =
          link_child-IsForest s1.tree rank d.forest.linked c nz (λ q n _. d.forest.shared q n)
            d.no_parent d.no_workspace ys parent pz lower xs list counts fuel enough in
        (
          t',
          run,
          record { forest = forest'; parent_is = up; others = λ q n. others q n ∙ d.others q n },
        )

    -- `container_add_child` of a container of a forest, whose height is below the fuel, returns
    -- and leaves a forest in which it is a child of its new parent, and all others have the parents
    -- that they had. The conditions: the new parent is not a view, and stands higher; a container
    -- without a workspace has no parent.
    pub add_child-Joined :
        (parent : Ptr) (xs : List Ptr)
        → parent ≢ 0
        → rank c < rank parent
        → s.tree.children parent ≡ some xs
        → (s' : Store) × (container_add_child fuel parent c s ≡ some s')
          × Joined c parent rank s.tree s'.tree
    unfolding container_add_child
    add_child-Joined parent xs pz lower list =
        let (s1, first, d) = first-Detached in
        let (zs, has) = d.still_lists parent xs list in
        let (t', run, joined) =
          Joined-child parent s1 zs (zs ++ c ∷ []) pz lower d has
            (λ q. omega (arith, count-append q zs (c ∷ []))) in
        let s2 = record s1 { tree = t' } in
        let s3 = tell (represent (con parent)) (container_handle_fullscreen_reparent c s2) in
        let same =
          dirty-tree (con parent) (node_set_dirty (con c) s3)
          ∙ dirty-tree (con c) s3
          ∙ tell-tree _ _
          ∙ reparent-tree c s2 in
        (
          node_set_dirty (con parent) (node_set_dirty (con c) s3),
          rw (first, has, run) refl,
          subst (Joined c parent rank s.tree) (sym same) joined,
        )

    -- `container_insert_child` of a container of a forest, whose height is below the fuel, at an
    -- index of the children of a parent that is not its own, returns and leaves a forest in which
    -- the container is a child of the new parent, and all others have the parents that they had. The
    -- conditions: the new parent is not a view, and stands higher; a container without a workspace
    -- has no parent.
    pub insert_child-Joined :
        (parent : Ptr) (xs : List Ptr) (i : ℕ)
        → parent ≢ 0
        → rank c < rank parent
        → s.tree.children parent ≡ some xs
        → s.tree.parent c ≢ parent
        → i ≤ length xs
        → (s' : Store) × (container_insert_child fuel parent c (pos i) s ≡ some s')
          × Joined c parent rank s.tree s'.tree
    unfolding container_insert_child
    insert_child-Joined parent xs i pz lower list elsewhere within =
        let (s1, first, d) = first-Detached in
        let (ys, put, counts) = insert-count xs i c within in
        let has = d.kept_lists parent elsewhere ∙ list in
        let (t', run, joined) = Joined-child parent s1 xs ys pz lower d has counts in
        let s2 = record s1 { tree = t' } in
        (
          tell (represent (con parent)) (container_handle_fullscreen_reparent c s2),
          rw (first, has, put, run) refl,
          subst (Joined c parent rank s.tree) (sym (tell-tree _ _ ∙ reparent-tree c s2)) joined,
        )

    -- `workspace_add_floating` of a container of a forest, whose height is below the fuel, returns
    -- and leaves a forest in which it has no parent and has the workspace, and all others have the
    -- parents that they had. The condition is that a container without a workspace has no parent.
    pub add_floating-Joined :
        (w : Ptr)
        → w ≢ 0
        → (s' : Store) × (workspace_add_floating fuel w c s ≡ some s')
          × Joined c 0 rank s.tree s'.tree
          × (s'.tree.workspace c ≡ w)
    unfolding workspace_add_floating
    add_floating-Joined w wz =
        let (s1, first, d) = first-Detached in
        let xs = s1.tree.floating w in
        let (t', run, forest', up, over) =
          link_floating-IsForest s1.tree rank d.forest.linked c nz (λ q n _. d.forest.shared q n)
            d.no_parent d.no_workspace (xs ++ c ∷ []) w wz xs
            (λ q. omega (arith, count-append q xs (c ∷ []))) fuel enough refl in
        let s2 = record s1 { tree = t' } in
        let s3 = container_handle_fullscreen_reparent c s2 in
        let same =
          dirty-tree (con c) (node_set_dirty (ws w) s3)
          ∙ dirty-tree (ws w) s3
          ∙ reparent-tree c s2 in
        (
          node_set_dirty (con c) (node_set_dirty (ws w) s3),
          rw (first, run) refl,
          subst (Joined c 0 rank s.tree) (sym same) (record {
            forest = forest';
            parent_is = ap (λ f. f c) up ∙ d.no_parent;
            others = λ q n. ap (λ f. f q) up ∙ d.others q n;
          }),
          subst (λ t. t.workspace c ≡ w) (sym same) over,
        )

  -- `workspace_insert_tiling_direct`, at an index of the tiling list, of a container of a forest
  -- that has no parent and no workspace, and whose height is below the fuel, returns and leaves a
  -- forest in which the container has no parent and has the workspace, and all others have the
  -- parents that they had.
  pub insert_tiling-Joined :
      (w : Ptr) (i : ℕ)
      → w ≢ 0
      → s.tree.parent c ≡ 0
      → s.tree.workspace c ≡ 0
      → i ≤ length (s.tree.tiling w)
      → (s' : Store) × (workspace_insert_tiling_direct fuel w c (pos i) s ≡ some s')
        × Joined c 0 rank s.tree s'.tree
        × (s'.tree.workspace c ≡ w)
  insert_tiling-Joined w i wz top off within =
      let (ys, put, counts) = insert-count (s.tree.tiling w) i c within in
      let (t', run, forest', up, over, _) =
        link_tiling-IsForest s.tree rank forest.linked c nz (λ q n _. forest.shared q n) top off ys
          w wz (s.tree.tiling w) counts fuel enough refl in
      let (s', run', same) = insert_tiling-tree fuel w c (pos i) s ys t' put run in
      (
        s',
        run',
        subst (Joined c 0 rank s.tree) (sym same) (record {
          forest = forest';
          parent_is = ap (λ f. f c) up ∙ top;
          others = λ q n. ap (λ f. f q) up;
        }),
        subst (λ t. t.workspace c ≡ w) (sym same) over,
      )
