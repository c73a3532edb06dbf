-- ===== src/Tree/Reorder.antt =====
-- Putting the items of one list in another order, and the list of the siblings of a container.
use scrollfx.Prelude.{
  ℕ, ◌+◌, ◌≡◌, ◌≢◌, refl, sym, ap, ap₂, ◌∙◌, inl, inr, List, some, Bool, true, false, ◌&&◌, ◌==◌,
  arith, Bool-cases, ==_iff, if◌then◌else◌, ne→==, ==_refl,
}
use scrollfx.Seq.{Ptr}
use scrollfx.Tree.{
  Tree, Place, children_of, tiling_of, floating_of, nowhere, items, put_items, kids,
  container_get_siblings,
}
use scrollfx.Tree.Count.{one, count, delete-count}
use scrollfx.Tree.Walk.{ne_of_==}
use scrollfx.Tree.Forest.{IsLinked, IsForest}
use scrollfx.Tree.Removal.{kids-update, children_or_nil, children_of_some}

-- The count in a list that has been replaced by one with the same counts.
same_count :
    (q : Ptr) (b : Bool) (xs ys other : List Ptr)
    → count q ys ≡ count q xs
    → (b ≡ true → other ≡ xs)
    → count q (if b then ys else other) ≡ count q other
same_count q true xs ys other h e = h ∙ sym (ap (count q) (e refl))
same_count q false xs ys other h e = refl

module _ (t : Tree) (rank : Ptr → ℕ) (linked : IsLinked t rank) (xs ys : List Ptr)
    (same : (q : Ptr) → count q ys ≡ count q xs) where
  reorder-IsLinked :
      (place : Place) → items t place ≡ some xs → IsLinked (put_items t place ys) rank
  unfolding items put_items
  reorder-IsLinked (children_of p) e = record {
    null = linked.null;
    null_workspace = linked.null_workspace;
    held = λ p' q n.
        ap (count q) (kids-update t p p' ys)
        ∙ same_count q (p == p') xs ys (kids t p') (same q)
            (λ k. ap (kids t) (sym ((==_iff p p').0 k)) ∙ ap children_or_nil e)
        ∙ linked.held p' q n;
    placed = linked.placed;
    below = linked.below;
  }
  reorder-IsLinked (tiling_of w) e = record {
    null = linked.null;
    null_workspace = linked.null_workspace;
    held = linked.held;
    placed = λ v q n.
        ap (λ k. k + count q (t.floating v))
          (same_count q (w == v) xs ys (t.tiling v) (same q)
            (λ k. ap (λ u. t.tiling u) (sym ((==_iff w v).0 k)) ∙ ap children_or_nil e))
        ∙ linked.placed v q n;
    below = linked.below;
  }
  reorder-IsLinked (floating_of w) e = record {
    null = linked.null;
    null_workspace = linked.null_workspace;
    held = linked.held;
    placed = λ v q n.
        ap (λ k. count q (t.tiling v) + k)
          (same_count q (w == v) xs ys (t.floating v) (same q)
            (λ k. ap (λ u. t.floating u) (sym ((==_iff w v).0 k)) ∙ ap children_or_nil e))
        ∙ linked.placed v q n;
    below = linked.below;
  }
  reorder-IsLinked nowhere e = linked

-- What does not change when a list is replaced.
put_parent :
    (t : Tree) (place : Place) (ys : List Ptr)
    → ((put_items t place ys).parent ≡ t.parent) × ((put_items t place ys).workspace ≡ t.workspace)
unfolding put_items
put_parent t (children_of p) ys = (refl, refl)
put_parent t (tiling_of w) ys = (refl, refl)
put_parent t (floating_of w) ys = (refl, refl)
put_parent t nowhere ys = (refl, refl)

pub reorder-IsForest :
    (t : Tree) (rank : Ptr → ℕ)
    → IsForest t rank
    → (xs ys : List Ptr) → ((q : Ptr) → count q ys ≡ count q xs)
    → (place : Place) → items t place ≡ some xs
    → IsForest (put_items t place ys) rank
      × ((put_items t place ys).parent ≡ t.parent)
      × ((put_items t place ys).workspace ≡ t.workspace)
reorder-IsForest t rank forest xs ys same place e =
    let (up, over) = put_parent t place ys in
    let is = λ (q : Ptr). ap (λ f. f q) up in
    let at = λ (q : Ptr). ap (λ f. f q) over in
    (
      record {
        linked = reorder-IsLinked t rank forest.linked xs ys same place e;
        shared = λ q n.
            at q
            ∙ forest.shared q (λ z. n (is q ∙ z))
            ∙ sym (at ((put_items t place ys).parent q) ∙ ap t.workspace (is q));
      },
      up,
      over,
    )

-- A container that has a workspace is in the list of its siblings.
pub siblings-items :
    (t : Tree) (rank : Ptr → ℕ) (c : Ptr)
    → IsLinked t rank
    → t.workspace c ≢ 0
    → (xs : List Ptr) × (items t (container_get_siblings t c) ≡ some xs) × (count c xs ≢ 0)
unfolding items container_get_siblings
siblings-items t rank c linked on = elim (Bool-cases (t.parent c == 0)) [
  | inl top ↦
      let once = linked.placed (t.workspace c) c on in
      let one_here = ap₂ (λ x y. one (x && y)) top (==_refl (t.workspace c)) in
      elim (delete-count (t.tiling (t.workspace c)) c) [
        | inl (gone, none_here) ↦ (
          t.floating (t.workspace c),
          rw (top, ne→== (t.workspace c) 0 on, gone) refl,
          λ z. omega (arith, z, none_here, once, one_here),
        )
        | inr (ys, i, found, _, less) ↦ (
          t.tiling (t.workspace c),
          rw (top, ne→== (t.workspace c) 0 on, found) refl,
          λ z. omega (arith, z, less c, ap one (==_refl c)),
        )
      ]
  | inr below ↦
      let p = t.parent c in
      let (xs, list, holds) =
        children_of_some (t.children p) c
          (λ z. omega (arith, z, linked.held p c (ne_of_== p 0 below), ap one (==_refl p))) in
      (xs, rw below list, holds)
]
