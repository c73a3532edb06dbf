-- ===== src/Containers/Sibling.antt =====
-- `container_add_sibling`: next to a container, in whatever list that one is.
use scrollfx.Prelude.{
  ℕ, ◌+◌, ◌<◌, ◌≤◌, ◌≡◌, ◌≢◌, refl, sym, ap, ap₂, ◌∙◌, subst, inl, inr, List, ◌∷◌, some, Bool, ◌==◌,
  if◌then◌else◌, pos, ◌+ℤ◌, +ℤ_parts, eq_of_parts, length, length-append, arith, Bool-cases, ==_iff,
}
use std.Path.{fun_ext}
use mathlib.Core.Option.{some-injective}
use scrollfx.Seq.{Ptr, find, insert}
use scrollfx.Seq.Laws.{find_cases}
use scrollfx.Tree.{
  Tree, Place, children_of, tiling_of, floating_of, items, put_items, container_get_siblings,
  update, set_workspaces, link_child, link_tiling, link_floating,
}
use scrollfx.Tree.Count.{one, count, count-Absent, insert-count, delete-count}
use scrollfx.Tree.Walk.{ne_of_==, update_same}
use scrollfx.Tree.Forest.{IsForest}
use scrollfx.Tree.Removal.{siblings-child, siblings-tiling, siblings-floating}
use scrollfx.Tree.Link.{link_child-IsForest, link_tiling-IsForest, link_floating-IsForest}
use scrollfx.Tree.Reorder.{siblings-items}
use scrollfx.Containers.{
  Store, con, represent, tell, container_handle_fullscreen_reparent, link_sibling,
  container_add_sibling,
}
use scrollfx.Containers.Forest.{Detached, Joined, first-Detached}
use scrollfx.Containers.Unchanged.{tell-tree, reparent-tree}

-- The index next to an item of a list lies in the list or at its end.
beside-insert :
    (xs : List Ptr) (x c : Ptr) (after : Bool)
    → count x xs ≢ 0
    → (ys : List Ptr) × (insert xs (find xs x +ℤ pos (if after then 1 else 0)) c ≡ some ys)
      × ((q : Ptr) → count q ys ≡ count q xs + one (c == q))
beside-insert xs x c after h = elim (find_cases xs x) [
  | inl (_, absent) ↦ absurd (h (count-Absent x xs absent))
  | inr (a, b, e, f, _) ↦
      let n = if after then 1 else 0 in
      let (ys, put, counts) =
        insert-count xs (length a + n) c
          (omega (arith, ap length e, length-append a (x ∷ b), at_most after)) in
      (
        ys,
        ap (λ i. insert xs (i +ℤ pos n) c) f
            ∙ ap (λ i. insert xs i c)
                (eq_of_parts (pos (length a) +ℤ pos n) (pos (length a + n))
                  (omega (arith, +ℤ_parts (pos (length a)) (pos n))))
            ∙ put,
        counts,
      )
]
  where
    at_most : (b : Bool) → (if b then 1 else 0) ≤ 1
    at_most b = ground arith

-- Where a container comes from nowhere, its parent is written over by null.
module _ (fuel : ℕ) (fixed c : Ptr) (ys : List Ptr) (t : Tree) where
  sibling-child :
      (p : Ptr)
      → t.parent fixed ≡ p
      → t.workspace fixed ≡ t.workspace p
      → link_sibling fuel fixed c (children_of p) ys t ≡ link_child fuel p c ys t
  unfolding link_sibling link_child put_items
  sibling-child p e e' =
      ap₂
        (λ a b. set_workspaces fuel c (record t {
          children = update t.children p (some ys);
          parent = update t.parent c a;
          workspace = update t.workspace c b;
        }))
        e e'

  module _ (w : Ptr) (top : t.parent fixed ≡ 0) (off : t.parent c ≡ 0)
      (on : t.workspace fixed ≡ w) where
    parents_same : update t.parent c (t.parent fixed) ≡ t.parent
    parents_same =
        fun_ext (λ q. ap (λ a. update t.parent c a q) (top ∙ sym off) ∙ update_same t.parent c q)

    sibling-tiling : link_sibling fuel fixed c (tiling_of w) ys t ≡ link_tiling fuel w c ys t
    unfolding link_sibling link_tiling put_items
    sibling-tiling =
        ap₂
          (λ a b. set_workspaces fuel c (record t {
            tiling = update t.tiling w ys;
            parent = a;
            workspace = update t.workspace c b;
          }))
          parents_same on

    sibling-floating : link_sibling fuel fixed c (floating_of w) ys t ≡ link_floating fuel w c ys t
    unfolding link_sibling link_floating put_items
    sibling-floating =
        ap₂
          (λ a b. set_workspaces fuel c (record t {
            floating = update t.floating w ys;
            parent = a;
            workspace = update t.workspace c b;
          }))
          parents_same on

module _ (rank : Ptr → ℕ) (fuel : ℕ) (fixed c : Ptr) (nz : c ≢ 0) (enough : rank c < fuel)
    (t : Tree) (forest : IsForest t rank) (off : t.parent c ≡ 0) (out : t.workspace c ≡ 0)
    (ys xs : List Ptr) (counts : (q : Ptr) → count q ys ≡ count q xs + one (c == q)) where
  -- What linking leaves.
  abbrev Linked : Place → Type 0
  Linked place =
      (t' : Tree) × (link_sibling fuel fixed c place ys t ≡ some t')
      × IsForest t' rank
      × (t'.parent c ≡ t.parent fixed)
      × ((q : Ptr) → c ≢ q → t'.parent q ≡ t.parent q)

  Linked-child :
      (p : Ptr)
      → t.parent fixed ≡ p
      → p ≢ 0
      → rank c < rank p
      → t.children p ≡ some xs
      → Linked (children_of p)
  Linked-child p e pz lower list =
      let (t', run, forest', up, _, others) =
        link_child-IsForest t rank forest.linked c nz (λ q n _. forest.shared q n) off out ys p pz
          lower xs list counts fuel enough in
      (
        t',
        sibling-child fuel fixed c ys t p e
              (forest.shared fixed (λ z. pz (sym e ∙ z)) ∙ ap t.workspace e)
            ∙ run,
        forest',
        up ∙ sym e,
        others,
      )

  module _ (w : Ptr) (top : t.parent fixed ≡ 0) (on : t.workspace fixed ≡ w) (wz : w ≢ 0) where
    Linked-tiling : t.tiling w ≡ xs → Linked (tiling_of w)
    Linked-tiling list =
        let (t', run, forest', up, _, _) =
          link_tiling-IsForest t rank forest.linked c nz (λ q n _. forest.shared q n) off out ys w
            wz xs counts fuel enough list in
        (
          t',
          sibling-tiling fuel fixed c ys t w top off on ∙ run,
          forest',
          ap (λ f. f c) up ∙ off ∙ sym top,
          λ q n. ap (λ f. f q) up,
        )

    Linked-floating : t.floating w ≡ xs → Linked (floating_of w)
    Linked-floating list =
        let (t', run, forest', up, _) =
          link_floating-IsForest t rank forest.linked c nz (λ q n _. forest.shared q n) off out ys w
            wz xs counts fuel enough list in
        (
          t',
          sibling-floating fuel fixed c ys t w top off on ∙ run,
          forest',
          ap (λ f. f c) up ∙ off ∙ sym top,
          λ q n. ap (λ f. f q) up,
        )

  linked :
      t.workspace fixed ≢ 0
      → (t.parent fixed ≢ 0 → rank c < rank (t.parent fixed))
      → items t (container_get_siblings t fixed) ≡ some xs
      → Linked (container_get_siblings t fixed)
  unfolding items
  linked wz lower list = elim (Bool-cases (t.parent fixed == 0)) [
    | inr below ↦
        let pz = ne_of_== (t.parent fixed) 0 below in
        let at = siblings-child t fixed (t.parent fixed) refl pz in
        subst Linked (sym at)
          (Linked-child (t.parent fixed) refl pz (lower pz) (sym (ap (items t) at) ∙ list))
    | inl here ↦
        let top = (==_iff (t.parent fixed) 0).0 here in
        let w = t.workspace fixed in
        elim (delete-count (t.tiling w) fixed) [
          | inl (gone, _) ↦
              let at = siblings-floating t fixed w top refl wz gone in
              subst Linked (sym at)
                (Linked-floating w top refl wz (same_list _ xs (sym (ap (items t) at) ∙ list)))
          | inr (_, i, found, _, _) ↦
              let at = siblings-tiling t fixed w i top refl wz found in
              subst Linked (sym at)
                (Linked-tiling w top refl wz (same_list _ xs (sym (ap (items t) at) ∙ list)))
        ]
  ]
    where
      same_list : (l m : List Ptr) → some l ≡ some m → l ≡ m
      same_list l m h = some-injective l m h

module _ (rank : Ptr → ℕ) (fuel : ℕ) (c : Ptr) (nz : c ≢ 0) (enough : rank c < fuel) (s : Store)
    (forest : IsForest s.tree rank) (inside : s.tree.workspace c ≡ 0 → s.tree.parent c ≡ 0) where
  -- A container without a parent keeps its workspace when another one is detached; with a parent,
  -- it has the workspace of that, which stands higher.
  kept-workspace :
      (t : Tree) (fixed : Ptr)
      → Detached c rank s.tree t
      → c ≢ fixed
      → (s.tree.parent fixed ≢ 0 → rank c < rank (s.tree.parent fixed))
      → t.workspace fixed ≡ s.tree.workspace fixed
  kept-workspace t fixed d away lower = elim (Bool-cases (s.tree.parent fixed == 0)) [
    | inl top ↦ d.tops fixed away ((==_iff (s.tree.parent fixed) 0).0 top)
    | inr below ↦
        let pz = ne_of_== (s.tree.parent fixed) 0 below in
        let same = d.others fixed away in
        d.forest.shared fixed (λ z. pz (sym same ∙ z))
        ∙ ap t.workspace same
        ∙ d.higher (s.tree.parent fixed) (lower pz)
        ∙ sym (forest.shared fixed pz)
  ]

  -- `container_add_sibling` of a container of a forest, whose height is below the fuel, next to
  -- another container that has a workspace, returns and leaves a forest in which it has the parent
  -- of the other, and all others have the parents that they had. The conditions: the parent of the
  -- other, if there is one, stands higher; a container without a workspace has no parent.
  pub add_sibling-Joined :
      (fixed : Ptr) (after : Bool)
      → c ≢ fixed
      → s.tree.workspace fixed ≢ 0
      → (s.tree.parent fixed ≢ 0 → rank c < rank (s.tree.parent fixed))
      → (s' : Store) × (container_add_sibling fuel fixed c after s ≡ some s')
        × Joined c (s.tree.parent fixed) rank s.tree s'.tree
  unfolding container_add_sibling
  add_sibling-Joined fixed after away on lower =
      let (s1, first, d) = first-Detached rank fuel c nz enough s forest inside in
      let same = d.others fixed away in
      let on1 = λ (z : s1.tree.workspace fixed ≡ 0).
        on (sym (kept-workspace s1.tree fixed d away lower) ∙ z) in
      let (xs, list, holds) = siblings-items s1.tree rank fixed d.forest.linked on1 in
      let (ys, put, counts) = beside-insert xs fixed c after holds in
      let (t', run, forest', up, others) =
        linked rank fuel fixed c nz enough s1.tree d.forest d.no_parent d.no_workspace ys xs counts
          on1 (λ n. subst (λ p. rank c < rank p) (sym same) (lower (λ z. n (same ∙ z)))) list in
      let s2 = record s1 { tree = t' } in
      (
        tell (represent (con c)) (container_handle_fullscreen_reparent c s2),
        rw (first, list, put, run) refl,
        subst (Joined c (s.tree.parent fixed) rank s.tree)
            (sym (tell-tree _ _ ∙ reparent-tree c s2))
            (record {
              forest = forest';
              parent_is = up ∙ same;
              others = λ q n. others q n ∙ d.others q n;
            }),
      )
