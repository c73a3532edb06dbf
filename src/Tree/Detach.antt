-- ===== src/Tree/Detach.antt =====
-- What `container_detach` does to the tree, and the invariant.
use scrollfx.Prelude.{
  ℕ, ◌+◌, ◌<◌, ◌≡◌, ◌≢◌, sym, ap, ◌∙◌, subst, ◌⊎◌, inl, inr, List, some, ◌&&◌, ◌==◌, arith,
  Bool-cases, ==_iff, ne→==,
}
use scrollfx.Seq.{Ptr}
use scrollfx.Tree.{Tree, kids, update, detach}
use scrollfx.Tree.Count.{one, count}
use scrollfx.Tree.Walk.{update_self, update_other, ne_of_==}
use scrollfx.Tree.Forest.{IsLinked, IsForest, walk-IsForest}
use scrollfx.Tree.Removal.{Removed, remove_sibling-Removed}

-- The pointers of `c` once it is out of the lists.
abbrev pub cleared : Ptr → Tree → Tree
cleared c t = record t { parent = update t.parent c 0; workspace = update t.workspace c 0 }

module _ (t t1 : Tree) (rank : Ptr → ℕ) (forest : IsForest t rank) (c : Ptr) (nz : c ≢ 0)
    (r : Removed c t t1) where
  parent_is : (q : Ptr) → t1.parent q ≡ t.parent q
  parent_is q = ap (λ f. f q) r.same_parent

  workspace_is : (q : Ptr) → t1.workspace q ≡ t.workspace q
  workspace_is q = ap (λ f. f q) r.same_workspace

  cleared-held : (p q : Ptr) → p ≢ 0 → count q (kids t1 p) ≡ one (update t1.parent c 0 q == p)
  cleared-held p q pz =
      let less = r.less_kids p q pz in
      let was = forest.linked.held p q pz in
      let same = parent_is q in
      elim (Bool-cases (c == q)) [
        | inl hit ↦
            let at = ap (λ x. one (t.parent x == p)) ((==_iff c q).0 hit) in
            let test = ap one (ne→== 0 p (λ z. pz (sym z))) in
            rw hit (omega (arith, less, was, at, test, ap (λ b. one (b && (t.parent c == p))) hit))
        | inr miss ↦
            rw (miss, same) (omega (arith, less, was, ap (λ b. one (b && (t.parent c == p))) miss))
      ]

  cleared-placed :
      (w q : Ptr)
      → w ≢ 0
      → count q (t1.tiling w) + count q (t1.floating w)
        ≡ one ((update t1.parent c 0 q == 0) && (update t1.workspace c 0 q == w))
  cleared-placed w q wz =
      let less = r.less_tops w q wz in
      let was = forest.linked.placed w q wz in
      let same = parent_is q in
      let same' = workspace_is q in
      elim (Bool-cases (c == q)) [
        | inl hit ↦
            let at =
              ap (λ x. one ((t.parent x == 0) && (t.workspace x == w))) ((==_iff c q).0 hit) in
            let test = ap one (ne→== 0 w (λ z. wz (sym z))) in
            rw hit (
              omega (
                arith,
                less,
                was,
                at,
                test,
                ap (λ b. one (b && ((t.parent c == 0) && (t.workspace c == w)))) hit,
              ))
        | inr miss ↦
            rw (miss, same, same')
              (omega (
                arith,
                less,
                was,
                ap (λ b. one (b && ((t.parent c == 0) && (t.workspace c == w)))) miss,
              ))
      ]

  away : (q : Ptr) → update t1.parent c 0 q ≢ 0 → c ≢ q
  away q n e = n (ap (update t1.parent c 0) (sym e) ∙ update_self t1.parent c 0)

  parent_away : (q : Ptr) → update t1.parent c 0 q ≢ 0 → update t1.parent c 0 q ≡ t.parent q
  parent_away q n = update_other t1.parent c 0 q (away q n) ∙ parent_is q

  still_child : (q : Ptr) → update t1.parent c 0 q ≢ 0 → t.parent q ≢ 0
  still_child q n z = n (parent_away q n ∙ z)

  cleared-below : (q : Ptr) → update t1.parent c 0 q ≢ 0 → rank q < rank (update t1.parent c 0 q)
  cleared-below q n =
      subst (λ p. rank q < rank p) (sym (parent_away q n)) (forest.linked.below q (still_child q n))

  pub cleared-IsLinked : IsLinked (cleared c t1) rank
  cleared-IsLinked = record {
    null = (let e = parent_is 0 in ground (arith, forest.linked.null));
    null_workspace = (let e = workspace_is 0 in ground (arith, forest.linked.null_workspace));
    held = cleared-held;
    placed = cleared-placed;
    below = cleared-below;
  }

  pub cleared_but :
      (q : Ptr)
      → (cleared c t1).parent q ≢ 0
      → ((cleared c t1).parent q ≡ c)
        ⊎ ((cleared c t1).workspace q ≡ (cleared c t1).workspace ((cleared c t1).parent q))
  cleared_but q n = elim (Bool-cases (t.parent q == c)) [
    | inl hit ↦ inl (parent_away q n ∙ (==_iff (t.parent q) c).0 hit)
    | inr miss ↦ inr (
        update_other t1.workspace c 0 q (away q n)
        ∙ workspace_is q
        ∙ forest.shared q (still_child q n)
        ∙ sym (
            ap (update t1.workspace c 0) (parent_away q n)
            ∙ update_other t1.workspace c 0 (t.parent q) (λ z. ne_of_== (t.parent q) c miss (sym z))
            ∙ workspace_is (t.parent q)))
  ]

-- Detaching a container of a forest returns, and leaves a forest in which the container has no
-- parent and no workspace, and every other container has the parent that it had.
pub detach-IsForest :
    (fuel : ℕ) (c : Ptr) (t : Tree) (rank : Ptr → ℕ)
    → IsForest t rank
    → c ≢ 0
    → rank c < fuel
    → (t' : Tree) × (detach fuel c t ≡ some t')
      × IsForest t' rank
      × (t'.parent c ≡ 0)
      × (t'.workspace c ≡ 0)
      × ((q : Ptr) → c ≢ q → t'.parent q ≡ t.parent q)
      × ((p : Ptr) → t.parent c ≢ p → t'.children p ≡ t.children p)
      × ((p : Ptr) (xs : List Ptr)
          → t.children p ≡ some xs
          → (ys : List Ptr) × (t'.children p ≡ some ys))
      × ((q : Ptr) → rank c < rank q → t'.workspace q ≡ t.workspace q)
      × ((q : Ptr) → c ≢ q → t.parent q ≡ 0 → t'.workspace q ≡ t.workspace q)
unfolding detach
detach-IsForest fuel c t rank forest nz enough =
    let (t1, taken, r) = remove_sibling-Removed t rank forest.linked c in
    let (w, run, forest', walked) =
      walk-IsForest fuel c (cleared c t1) rank (cleared-IsLinked t t1 rank forest c nz r) nz enough
        (cleared_but t t1 rank forest c nz r) in
    (
      record (cleared c t1) { workspace = w },
      rw taken run,
      forest',
      update_self t1.parent c 0,
      walked.tops c (update_self t1.parent c 0) ∙ update_self t1.workspace c 0,
      λ q away. update_other t1.parent c 0 q away ∙ ap (λ f. f q) r.same_parent,
      r.kept_lists,
      r.still_lists,
      λ q lower.
          walked.kept q (omega (arith, lower))
          ∙ update_other t1.workspace c 0 q (λ z. omega (arith, lower, ap rank z))
          ∙ ap (λ f. f q) r.same_workspace,
      λ q away top.
          walked.tops q (update_other t1.parent c 0 q away ∙ ap (λ f. f q) r.same_parent ∙ top)
          ∙ update_other t1.workspace c 0 q away
          ∙ ap (λ f. f q) r.same_workspace,
    )
