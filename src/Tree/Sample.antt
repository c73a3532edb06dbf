-- ===== src/Tree/Sample.antt =====
-- A small tree for the tests: workspace 100 tiles 1 and 2, where 3 is the child of 2, and workspace
-- 200 tiles 4, 6, whose list of children is empty, and 10, with
-- the children 7 and 8. The container 5 stands nowhere.
use scrollfx.Prelude.{
  ℕ, ◌+◌, ◌≡◌, ◌≢◌, refl, [], ◌∷◌, some, none, false, ◌==◌, ◌||◌, ◌&&◌, if◌then◌else◌, arith,
}
use scrollfx.Seq.{Ptr}
use scrollfx.Tree.{Tree, kids}
use scrollfx.Tree.Count.{one, count}
use scrollfx.Tree.Forest.{IsForest}
use scrollfx.Containers.{Store, fullscreen_none}

abbrev pub small_tree : Tree
small_tree = record {
  parent = λ q. if q == 3 then 2 else if q == 7 || q == 8 then 10 else 0;
  workspace = λ q.
      if q == 4 || q == 6 || q == 7 || q == 8 || q == 10
      then 200
      else if q == 1 || q == 2 || q == 3
      then 100
      else 0;
  children = λ p.
      if p == 2
      then some (3 ∷ [])
      else if p == 6
      then some []
      else if p == 10
      then some (7 ∷ 8 ∷ [])
      else none;
  tiling = λ w. if w == 100 then 1 ∷ 2 ∷ [] else if w == 200 then 4 ∷ 6 ∷ 10 ∷ [] else [];
  floating = λ w. [];
}

abbrev pub height : Ptr → ℕ
height q = if q == 2 || q == 10 then 1 else 0

held : (p q : Ptr) → p ≢ 0 → count q (kids small_tree p) ≡ one (small_tree.parent q == p)
held p q n = ground arith

placed :
    (w q : Ptr)
    → w ≢ 0
    → count q (small_tree.tiling w) + count q (small_tree.floating w)
      ≡ one ((small_tree.parent q == 0) && (small_tree.workspace q == w))
placed w q n = ground arith

pub small_tree-IsForest : IsForest small_tree height
small_tree-IsForest = record {
  linked = record {
    null = refl;
    null_workspace = refl;
    held = held;
    placed = placed;
    below = λ q n. ground arith;
  };
  shared = λ q n. ground arith;
}

abbrev pub small : Store
small = record {
  tree = small_tree;
  mode = λ c. fullscreen_none;
  scratchpad = λ c. false;
  scratchpad_list = [];
  fullscreen = λ w. 0;
  fullscreen_all = 0;
  dirty = λ n. false;
  destroying = λ n. false;
  dirty_nodes = [];
  told = [];
}
