-- ===== src/Tree/Forest.antt =====
-- The invariant of the tree: lists and pointers say the same, and a container has the workspace of
-- its parent.
use scrollfx.Prelude.{
  ℕ, ◌+◌, ◌<◌, ◌≡◌, ◌≢◌, sym, ap, ◌∙◌, ◌⊎◌, inl, inr, some, ◌&&◌, ◌==◌, arith, Bool-cases, ==_iff,
}
use scrollfx.Seq.{Ptr}
use scrollfx.Tree.{Tree, kids, set_workspaces}
use scrollfx.Tree.Count.{one, count}
use scrollfx.Tree.Walk.{Walked, Below, set_workspaces-Walked}

-- `rank` is a height: a container stands below its parent.
pub record IsLinked (t : Tree) (rank : Ptr → ℕ) : Type 0 where
  pub null : t.parent 0 ≡ 0
  pub null_workspace : t.workspace 0 ≡ 0
  -- A container is among the children of its parent, once, and among nobody else's.
  pub held : (p q : Ptr) → p ≢ 0 → count q (kids t p) ≡ one (t.parent q == p)
  -- A container without a parent is in one of the two lists of its workspace, once.
  pub placed :
      (w q : Ptr)
      → w ≢ 0
      → count q (t.tiling w) + count q (t.floating w)
        ≡ one ((t.parent q == 0) && (t.workspace q == w))
  pub below : (q : Ptr) → t.parent q ≢ 0 → rank q < rank (t.parent q)

pub record IsForest (t : Tree) (rank : Ptr → ℕ) : Type 0 where
  pub linked : IsLinked t rank
  pub shared : (q : Ptr) → t.parent q ≢ 0 → t.workspace q ≡ t.workspace (t.parent q)

-- The walk makes a forest of a tree in which only the children of `c` may have another workspace.
pub walk-IsForest :
    (fuel : ℕ) (c : Ptr) (t : Tree) (rank : Ptr → ℕ)
    → IsLinked t rank
    → c ≢ 0
    → rank c < fuel
    → ((q : Ptr) → t.parent q ≢ 0 → (t.parent q ≡ c) ⊎ (t.workspace q ≡ t.workspace (t.parent q)))
    → (w : Ptr → Ptr) × (set_workspaces fuel c t ≡ some (record t { workspace = w }))
      × IsForest (record t { workspace = w }) rank
      × Walked t rank c (Below t c) t.workspace w
walk-IsForest fuel c t rank h nz enough but =
    let (w, run, walked) =
      set_workspaces-Walked t rank h.null h.held h.below fuel c t.workspace nz enough in
    (
      w,
      run,
      record {
        linked = record {
          null = h.null;
          null_workspace = walked.tops 0 h.null ∙ h.null_workspace;
          held = h.held;
          placed = λ v q n.
              h.placed v q n
              ∙ same_place (t.parent q) v (t.workspace q) (w q) (λ z. walked.tops q z);
          below = h.below;
        };
        shared = λ q n. walked.agree q n (but q n);
      },
      walked,
    )
  where
    same_place :
        (p v a b : Ptr) → (p ≡ 0 → b ≡ a) → one ((p == 0) && (a == v)) ≡ one ((p == 0) && (b == v))
    same_place p v a b h = elim (Bool-cases (p == 0)) [
      | inl top ↦ ap (λ x. one ((p == 0) && (x == v))) (sym (h ((==_iff p 0).0 top)))
      | inr not_top ↦ ground arith
    ]
